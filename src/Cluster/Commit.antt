-- ===== src/Cluster/Commit.antt =====
-- A command from a client to the leader's store, with one follower whose reply makes a majority
-- (`handle_set_command`, `handle_append_entries` and `handle_append_entries_response`, src/server.rs).
use mini_raft.Prelude.{
  ℕ, zero, suc, ◌+◌, ◌*◌, ◌≤◌, ◌<◌, ℤ, pos, ◌≡◌, refl, sym, ap, subst, ◌∙◌, ◌⊎◌, inl, inr, true,
  some, String, List, [], ◌∷◌, ◌++◌, map, length, get_elem?, get_elem?-append_length, written,
  length-written, take, take_at, take-append_le, append-nil, length-snoc, i32_size, arith,
}
use mini_raft.Protocol.{NodeId, AppendEntriesResponse, append_entries_response_type, peer}
use mini_raft.StateMachine.{StateMachine}
use mini_raft.Server.State.{Server, leader}
use mini_raft.Server.Action.{Outcome}
use mini_raft.Server.Apply.Replay.{upto, replay, IsReliable}
use mini_raft.Server.Append.{append_reply, handle_append_entries}
use mini_raft.Server.Append.Replies.{answer_to}
use mini_raft.Server.Client.{handle_set_command}
use mini_raft.Server.Client.Sent.{
  others, all_written, next_of, TracksAll, notice, announced, command_entry, pushed,
  handle_set_command_sends,
}
use mini_raft.Server.Replicate.{match_count, handle_append_entries_response}
use mini_raft.Server.Replicate.Quorum.{IsCommittable}
use mini_raft.Server.Replicate.Commits.{handle_append_entries_response_commits}
use mini_raft.Server.Replicate.Finish.{HasApplied}
use mini_raft.Cluster.Replication.{notice_replicates}

abbrev pub IsAmong : NodeId → List NodeId → Type 0
IsAmong i [] = ⊥
IsAmong i (j ∷ js) = (j ≡ i) ⊎ IsAmong i js

module _ (z : ℤ) where
  written_self : (i : ℕ) (xs : List ℤ) → i < length xs → get_elem? (written i z xs) i ≡ some z
  written_self i [] h = absurd (omega arith)
  written_self zero (x ∷ xs) h = refl
  written_self (suc i) (x ∷ xs) h = written_self i xs (omega arith)

  -- Writing the same value elsewhere leaves it.
  written_kept :
      (i j : ℕ) (xs : List ℤ) → get_elem? xs i ≡ some z → get_elem? (written j z xs) i ≡ some z
  written_kept i j [] h = h
  written_kept zero zero (x ∷ xs) h = refl
  written_kept (suc i) zero (x ∷ xs) h = h
  written_kept zero (suc j) (x ∷ xs) h = h
  written_kept (suc i) (suc j) (x ∷ xs) h = written_kept i j xs h

  all_written_kept :
      (i : ℕ) (js : List NodeId) (xs : List ℤ)
      → get_elem? xs i ≡ some z
      → get_elem? (all_written js z xs) i ≡ some z
  all_written_kept i [] xs h = h
  all_written_kept i (j ∷ js) xs h = all_written_kept i js (written j z xs) (written_kept i j xs h)

  pub all_written_among :
      (i : ℕ) (js : List NodeId) (xs : List ℤ)
      → IsAmong i js
      → i < length xs
      → get_elem? (all_written js z xs) i ≡ some z
  all_written_among i [] xs a h = absurd a
  all_written_among i (j ∷ js) xs (inl e) h =
      all_written_kept i js (written j z xs)
        (subst (λ k. get_elem? (written k z xs) i ≡ some z) (sym e) (written_self i xs h))
  all_written_among i (j ∷ js) xs (inr a) h =
      all_written_among i js (written j z xs) a (omega (arith, length-written j z xs))

module _ {S : Type 0} ⦃m : StateMachine S⦄ (reliable : IsReliable m) (start : S)
    (key value : String) (client_id request_id : ℕ) (match_index : List ℤ) (next : List ℕ)
    (i : NodeId) (s : Server S) where
  -- The leader once the command has gone out.
  abbrev leading : ℕ → Server S
  leading r =
      announced (command_entry key value client_id request_id s) next
        (others s.id s.config.peer_addresses) r
        (pushed (command_entry key value client_id request_id s) s)

  -- A reply to it commits the command and nothing else.
  reply_commits :
      (a r : ℕ) (msg : AppendEntriesResponse)
      → s.state ≡ leader match_index next
      → msg.term ≤ s.current_term
      → msg.success ≡ true
      → IsAmong i (others s.id s.config.peer_addresses)
      → i < length s.last_sent_index
      → i < length match_index
      → i < length next
      → 2 ≤ s.config.total_nodes
      → length s.log + 1 < i32_size
      → s.config.total_nodes
        < 2 * (match_count (pos (length s.log)) (written i (pos (length s.log)) match_index) + 1)
      → s.last_applied ≡ upto a
      → s.commit_index ≡ upto (length s.log)
      → a ≤ length s.log
      → s.state_machine ≡ replay m (take a s.log) start
      → HasApplied
          (pos (length s.log))
          (replay m (pushed (command_entry key value client_id request_id s) s).log start)
          (handle_append_entries_response (peer i) (append_entries_response_type msg) (leading r)).1
  reply_commits a r msg role term taken among marks im il nodes small majority la ci al store =
      let entry = command_entry key value client_id request_id s in
      let k = length s.log in
      let len = length-snoc s.log entry in
      let last : upto (length (s.log ++ entry ∷ [])) ≡ pos k = ap upto len in
      let sent =
        all_written_among (upto (length (s.log ++ entry ∷ []))) i
          (others s.id s.config.peer_addresses) s.last_sent_index among marks
        ∙ ap some last in
      let can : IsCommittable (leading r) (written i (pos k) match_index) k = record {
        entry = entry;
        found = get_elem?-append_length s.log [] entry;
        current = refl;
        majority = majority;
      } in
      let (j, kj, jk, h) =
        handle_append_entries_response_commits reliable start match_index next i k a k k msg
          (leading r) role term taken sent (omega arith) im il nodes la ci al (omega (arith, len))
          (omega (arith, len))
          (store ∙ ap (λ l. replay m l start) (sym (take-append_le a s.log (entry ∷ []) al)))
          (omega arith) (omega (arith, len)) can in
      let end =
        handle_append_entries_response (peer i) (append_entries_response_type msg) (leading r) in
      let whole = s.log ++ entry ∷ [] in
      subst (λ l. HasApplied (pos k) (replay m l start) end.1)
        (ap (take (suc k)) (sym (append-nil whole)) ∙ take_at whole [] (suc k) (sym len))
        (subst (λ n. HasApplied (pos n) (replay m (take (suc n) whole) start) end.1) {x = j} {y = k}
          (omega arith) h)

  -- One round trip. Node s leads 2 nodes or more, has committed all of its log and applied the first a
  -- entries to a reliable store, tracks every peer and has room for a message to each; its log stays
  -- shorter than 2^31. Node f, for which i stands, has the same log, c entries of it committed and b of
  -- those applied to its store, is in the same term and has room for a reply; and the followers noted
  -- to have the next entry, i among them, are with the leader more than half of the nodes. A client
  -- sets a key. Then the leader sends a message with the command for each peer; f takes the one for i
  -- and has the leader's new log, it answers with a success,
  -- and that answer makes the leader commit the command and apply it: its commit index and its last
  -- applied index are the command's, and its store is what its whole log gives, run in order.
  pub command_commits :
      (a b c r room : ℕ) (f : Server S) (initial : S)
      → s.state ≡ leader match_index next
      → IsAmong i (others s.id s.config.peer_addresses)
      → i < length s.last_sent_index
      → i < length match_index
      → i < length next
      → 2 ≤ s.config.total_nodes
      → length s.log + 1 < i32_size
      → TracksAll next
          (pushed (command_entry key value client_id request_id s) s)
          s.config.peer_addresses
      → s.to_network.room ≡ length (others s.id s.config.peer_addresses) + r
      → s.config.total_nodes
        < 2 * (match_count (pos (length s.log)) (written i (pos (length s.log)) match_index) + 1)
      → s.last_applied ≡ upto a
      → s.commit_index ≡ upto (length s.log)
      → a ≤ length s.log
      → s.state_machine ≡ replay m (take a s.log) start
      → next_of next i ≡ length s.log
      → f.log ≡ s.log
      → f.current_term ≡ s.current_term
      → f.last_applied ≡ upto b
      → f.commit_index ≡ upto c
      → b ≤ c
      → c ≤ length s.log
      → f.state_machine ≡ replay m (take b f.log) initial
      → f.to_network.room ≡ suc room
      → let led = (handle_set_command key value client_id request_id s).1 in
        let entry = command_entry key value client_id request_id s in
        let taken =
          (handle_append_entries (peer s.id) (notice entry next (pushed entry s) i).msg f).1 in
        let reply = answer_to s.id s.current_term true in
        (led.to_network.sent
          ≡ s.to_network.sent
            ++ map (notice entry next (pushed entry s)) (others s.id s.config.peer_addresses))
        × (taken.log ≡ led.log)
        × (taken.to_network.sent ≡ f.to_network.sent ++ reply ∷ [])
        × HasApplied
            (pos (length s.log))
            (replay m (s.log ++ entry ∷ []) start)
            (handle_append_entries_response (peer i) reply.msg led).1
  unfolding append_reply
  command_commits a b c r room f initial role among marks im il nodes small tracks space majority la
        ci al store caught same_log same_term fa fc bc cl f_store f_room =
      let sends =
        handle_set_command_sends key value client_id request_id match_index next s r role small
          tracks space in
      let (fine, got, answered) =
        notice_replicates reliable key value client_id request_id next i s f b c room initial caught
          same_log same_term fa fc bc cl (omega arith) f_store f_room in
      let entry = command_entry key value client_id request_id s in
      let reply : AppendEntriesResponse = record { term = s.current_term; success = true } in
      (
        ap (λ q. q.1.to_network.sent) sends,
        got ∙ sym (ap (λ q. q.1.log) sends),
        answered,
        subst
            (λ (led : Outcome (Unit {0}) × Server S).
              HasApplied (pos (length s.log)) (replay m (s.log ++ entry ∷ []) start)
                (handle_append_entries_response (peer i) (append_entries_response_type reply)
                  led.1).1)
            (sym sends)
            (reply_commits a r reply role (omega arith) refl among marks im il nodes small majority
              la ci al store),
      )
