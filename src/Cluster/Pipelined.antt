-- ===== src/Cluster/Pipelined.antt =====
-- Two commands that a leader takes one after the other, and the replies to the first (`handle_set_command`
-- and `handle_append_entries_response`, src/server.rs).
use mini_raft.Prelude.{
  ℕ, suc, ◌+◌, ◌≤◌, ◌<◌, ℤ, pos, ◌≡◌, refl, sym, ap, subst, ◌∙◌, true, none, some, Option, String,
  List, [], ◌∷◌, ◌++◌, map, append_assoc, append-nil, length, length-snoc, get_elem?,
  get_elem?-append_length, get_elem?-append_left, written, length-written, take, take_at,
  take-append_le, i32_size, arith,
}
use mini_raft.Protocol.{
  NodeId, AppendEntriesResponse, append_entries_response_type, peer, Outgoing, LogEntry,
}
use mini_raft.StateMachine.{StateMachine}
use mini_raft.Server.State.{Server, Sender, leader}
use mini_raft.Server.Action.{Outcome, ok}
use mini_raft.Server.Apply.Replay.{upto, replay, IsReliable}
use mini_raft.Server.Append.{append_reply, handle_append_entries}
use mini_raft.Server.Append.Replies.{answer_to}
use mini_raft.Server.Client.{handle_set_command}
use mini_raft.Server.Client.Sent.{
  others, all_written, next_of, TracksAll, notice, announced, command_entry, pushed,
  handle_set_command_sends,
}
use mini_raft.Server.Replicate.{handle_append_entries_response}
use mini_raft.Server.Replicate.Quorum.{IsCommittable}
use mini_raft.Server.Replicate.Finish.{HasApplied}
use mini_raft.Server.Replicate.Commits.{handle_append_entries_response_commits}
use mini_raft.Server.Replicate.Answers.{
  answer_for, replied, confirmed, handle_append_entries_response_answers,
}
use mini_raft.Cluster.InStep.{IsInStep, length-all_written, match_count-written, TracksAll-grows}
use mini_raft.Cluster.Replication.{notice_replicates}
use mini_raft.Cluster.Commit.{IsAmong, all_written_among}

module _ {S : Type 0} ⦃m : StateMachine S⦄ (reliable : IsReliable m) (start : S)
    (key key' value value' : String) (client_id client' request_id request' : ℕ)
    (match_index : List ℤ) (next : List ℕ) (s : Server S) where
  abbrev one : LogEntry
  one = command_entry key value client_id request_id s

  abbrev two : LogEntry
  two = command_entry key' value' client' request' (pushed one s)

  abbrev peers : List NodeId
  peers = others s.id s.config.peer_addresses

  -- The leader with one command sent, and with both.
  abbrev once : ℕ → Server S
  once r = announced one next peers r (pushed one s)

  abbrev twice : ℕ → Server S
  twice r = let t = once (length peers + r) in announced two next peers r (pushed two t)

  twice-length : (r : ℕ) → length (twice r).log ≡ length s.log + 2
  twice-length r =
      let a = length-snoc (s.log ++ one ∷ []) two in
      let b = length-snoc s.log one in omega (arith, a, b)

  both_sent :
      (r : ℕ)
      → s.state ≡ leader match_index next
      → length s.log + 2 < i32_size
      → TracksAll next s s.config.peer_addresses
      → s.to_network.room ≡ length peers + (length peers + r)
      → (handle_set_command key' value' client' request'
          (handle_set_command key value client_id request_id s).1).1
        ≡ twice r
  both_sent r role small tracks room =
      let len = length-snoc s.log one in
      let first =
        handle_set_command_sends key value client_id request_id match_index next s
          (length peers + r) role (omega arith)
          (TracksAll-grows next s (pushed one s) s.config.peer_addresses refl (omega (arith, len))
            refl tracks)
          room in
      let t = once (length peers + r) in
      let second =
        handle_set_command_sends key' value' client' request' match_index next t r role
          (omega (arith, len))
          (TracksAll-grows next s (pushed two t) s.config.peer_addresses refl
            (omega (arith, twice-length r))
            (sym (length-all_written peers (upto (length (s.log ++ one ∷ []))) s.last_sent_index))
            tracks)
          refl in
      ap (λ (u : Server S). (handle_set_command key' value' client' request' u).1)
        (ap (λ (q : Outcome (Unit {0}) × Server S). q.1) first)
      ∙ ap (λ (q : Outcome (Unit {0}) × Server S). q.1) second

  -- Every peer is noted to have both.
  twice-sent :
      (r : ℕ) (i : NodeId)
      → IsAmong i peers
      → i < length s.last_sent_index
      → get_elem? (twice r).last_sent_index i ≡ some (pos (suc (length s.log)))
  twice-sent r i among inside =
      let z = upto (length (s.log ++ one ∷ [])) in
      all_written_among (upto (length (twice r).log)) i peers
        (all_written peers z s.last_sent_index) among
        (omega (arith, length-all_written peers z s.last_sent_index))
      ∙ ap (λ n. some (upto n)) {y = suc (suc (length s.log))} (omega (arith, twice-length r))

  module _ (a r : ℕ) (role : s.state ≡ leader match_index next) (nodes : 2 ≤ s.config.total_nodes)
      (few : s.config.total_nodes ≤ 3) (small : length s.log + 2 < i32_size)
      (self : s.id < length match_index) (la : s.last_applied ≡ upto a)
      (ci : s.commit_index ≡ upto (length s.log)) (al : a ≤ length s.log)
      (store : s.state_machine ≡ replay m (take a s.log) start) where
    -- The reply of peer i commits the first command.
    first_reply :
        (i : NodeId) (msg : AppendEntriesResponse)
        → msg.term ≤ s.current_term
        → msg.success ≡ true
        → IsAmong i peers
        → i < length s.last_sent_index
        → i < length match_index
        → i < length next
        → (o : Option Outgoing) × (handle_append_entries_response
              (peer i)
              (append_entries_response_type msg)
              (twice (suc r))
            ≡ (
              ok tt,
              replied o r (
                  confirmed start match_index next i
                    (suc (length s.log))
                    (length s.log)
                    (twice (suc r))),
            ))
    first_reply i msg term taken among marks im il =
        let k = length s.log in
        let u = twice (suc r) in
        let len = twice-length (suc r) in
        let can : IsCommittable u (written i (pos (suc k)) match_index) k = record {
          entry = one;
          found =
              get_elem?-append_left (s.log ++ one ∷ []) (two ∷ []) k
                (omega (arith, length-snoc s.log one))
              ∙ get_elem?-append_length s.log [] one;
          current = refl;
          majority = omega (arith, match_count-written k (suc k) i match_index (omega arith) im);
        } in
        let (j, e, kj, jk, _, _, ends) =
          handle_append_entries_response_answers reliable start match_index next i (suc k) a k k r
            msg u role term taken (twice-sent (suc r) i among marks) (omega arith) im il nodes la ci
            al (omega (arith, len)) (omega (arith, len))
            (store
              ∙ ap (λ l. replay m l start)
                  (sym (take-append_le a s.log (one ∷ []) al)
                    ∙ sym (
                        take-append_le a (s.log ++ one ∷ []) (two ∷ [])
                          (omega (arith, length-snoc s.log one)))))
            (omega arith) (omega (arith, len)) can self refl in
        (
          answer_for e e.command,
          subst
              (λ n. handle_append_entries_response (peer i) (append_entries_response_type msg) u ≡ (
                ok tt,
                replied (answer_for e e.command) r (confirmed start match_index next i (suc k) n u),
              ))
              {x = j} {y = k} (omega arith) ends,
        )

    -- The leader with the first command committed on the reply of peer i.
    abbrev moved : NodeId → Server S
    moved i = confirmed start match_index next i (suc (length s.log)) (length s.log) (twice (suc r))

    -- A further reply then commits the second command.
    second_reply :
        (i j : NodeId) (msg : AppendEntriesResponse) (sender : Sender)
        → msg.term ≤ s.current_term
        → msg.success ≡ true
        → IsAmong j peers
        → j < length s.last_sent_index
        → j < length match_index
        → j < length next
        → HasApplied
            (pos (suc (length s.log)))
            (replay m (s.log ++ one ∷ two ∷ []) start)
            (handle_append_entries_response
              (peer j)
              (append_entries_response_type msg)
              (record (moved i) { to_network = sender })).1
    second_reply i j msg sender term taken among marks im il =
        let k = length s.log in
        let u = record (moved i) { to_network = sender } in
        let len = twice-length (suc r) in
        let one_len = length-snoc s.log one in
        let m₁ = written i (pos (suc k)) match_index in
        let m₂ = written s.id (pos k) m₁ in
        let next₁ = written i (suc k + 1) next in
        let marked : length m₂ ≡ length match_index =
          length-written s.id (pos k) m₁ ∙ length-written i (pos (suc k)) match_index in
        let can : IsCommittable u (written j (pos (suc k)) m₂) (suc k) = record {
          entry = two;
          found =
              subst (λ n. get_elem? u.log n ≡ some two) {x = length (s.log ++ one ∷ [])} {y = suc k}
                (omega (arith, one_len)) (get_elem?-append_length (s.log ++ one ∷ []) [] two);
          current = refl;
          majority = omega (
            arith,
            marked,
            match_count-written (suc k) (suc k) j m₂ (omega arith) (omega (arith, marked)),
          );
        } in
        let (n, kn, nk, h) =
          handle_append_entries_response_commits reliable start m₂ next₁ j (suc k) (suc k) (suc k)
            (suc k) msg u refl term taken (twice-sent (suc r) j among marks) (omega arith)
            (omega (arith, marked)) (omega (arith, length-written i (suc k + 1) next)) nodes refl
            refl (omega arith) (omega (arith, len)) (omega (arith, len)) refl (omega arith)
            (omega (arith, len)) can in
        let end = handle_append_entries_response (peer j) (append_entries_response_type msg) u in
        let all = append_assoc s.log (one ∷ []) (two ∷ []) in
        subst (λ l. HasApplied (pos (suc k)) (replay m l start) end.1)
          (ap (take (suc (suc k))) (sym (append-nil u.log))
            ∙ take_at u.log [] (suc (suc k)) (omega (arith, len))
            ∙ all)
          (subst (λ z. HasApplied (pos z) (replay m (take (suc z) u.log) start) end.1) {x = n}
            {y = suc k} (omega arith) h)

    follower_takes :
        (i : NodeId) (f : Server S)
        → next_of next i ≡ length s.log
        → IsInStep m s f
        → let taken =
            (handle_append_entries (peer s.id) (notice one next (pushed one s) i).msg f).1 in
          (taken.log ≡ s.log ++ one ∷ [])
          × (taken.to_network.sent
              ≡ f.to_network.sent ++ append_reply s.id s.current_term true ∷ [])
    follower_takes i f caught h =
        let (fine, got, answered) =
          notice_replicates reliable key value client_id request_id next i s f h.applied h.committed
            h.room h.initial caught h.same_log h.same_term h.last h.commit h.order h.inside
            (omega arith) h.store h.space in
        (got, answered)

    -- Two commands, one after the other. Node s leads 2 or 3 nodes, itself in its vectors, has
    -- committed all of its log and applied the first a entries to a reliable store, tracks every peer
    -- and has room for two messages to each and one more; its log stays shorter than 2^31. Nodes f
    -- and g, for which i and j stand, are in step with it, and it takes them to have its whole log. It
    -- takes two commands from clients before any reply: it sends a message with the first command alone
    -- for each peer, and then one with the second alone. Nodes f and g take the message for the first
    -- command that was sent for them: they have the log with the first command, not the second, and
    -- each answers with a success. The leader hears the answer of f and then that of g, and has by then committed and
    -- applied the second command too.
    pub pipelined_commits :
        (i j : NodeId) (f g : Server S)
        → TracksAll next s s.config.peer_addresses
        → s.to_network.room ≡ length peers + (length peers + suc r)
        → IsAmong i peers
        → i < length s.last_sent_index
        → i < length match_index
        → i < length next
        → next_of next i ≡ length s.log
        → IsInStep m s f
        → IsAmong j peers
        → j < length s.last_sent_index
        → j < length match_index
        → j < length next
        → next_of next j ≡ length s.log
        → IsInStep m s g
        → let reply = answer_to s.id s.current_term true in
          let taken = λ (n : NodeId) (t : Server S).
            (handle_append_entries (peer s.id) (notice one next (pushed one s) n).msg t).1 in
          let led =
            (handle_set_command key' value' client' request'
              (handle_set_command key value client_id request_id s).1).1 in
          (led.to_network.sent
            ≡ (s.to_network.sent ++ map (notice one next (pushed one s)) peers)
              ++ map (notice two next (pushed two (once (length peers + suc r)))) peers)
          × (((taken i f).log ≡ s.log ++ one ∷ [])
              × ((taken i f).to_network.sent ≡ f.to_network.sent ++ reply ∷ []))
          × (((taken j g).log ≡ s.log ++ one ∷ [])
              × ((taken j g).to_network.sent ≡ g.to_network.sent ++ reply ∷ []))
          × HasApplied
              (pos (suc (length s.log)))
              (replay m (s.log ++ one ∷ two ∷ []) start)
              (handle_append_entries_response
                (peer j)
                reply.msg
                (handle_append_entries_response (peer i) reply.msg led).1).1
    unfolding append_reply
    pipelined_commits i j f g tracks room ai si mi ni ci_i fi aj sj mj nj cj gj =
        let reply : AppendEntriesResponse = record { term = s.current_term; success = true } in
        let msg = append_entries_response_type reply in
        let (o, first) = first_reply i reply (omega arith) refl ai si mi ni in
        let done = both_sent (suc r) role small tracks room in
        (
          ap (λ (led : Server S). led.to_network.sent) done,
          follower_takes i f ci_i fi,
          follower_takes j g cj gj,
          subst
              (λ (led : Server S).
                HasApplied (pos (suc (length s.log))) (replay m (s.log ++ one ∷ two ∷ []) start)
                  (handle_append_entries_response (peer j) msg
                    (handle_append_entries_response (peer i) msg led).1).1)
              (sym done)
              (subst
                (λ (q : Outcome (Unit {0}) × Server S).
                  HasApplied (pos (suc (length s.log))) (replay m (s.log ++ one ∷ two ∷ []) start)
                    (handle_append_entries_response (peer j) msg q.1).1)
                (sym first) (answered o)),
        )
      where
        answered :
            (o : Option Outgoing)
            → HasApplied
                (pos (suc (length s.log)))
                (replay m (s.log ++ one ∷ two ∷ []) start)
                (handle_append_entries_response
                  (peer j)
                  (append_entries_response_type (record { term = s.current_term; success = true }))
                  (replied o r (moved i))).1
        answered none =
            second_reply i j (record { term = s.current_term; success = true }) (moved i).to_network
              (omega arith) refl aj sj mj nj
        answered (some out) =
            second_reply i j (record { term = s.current_term; success = true })
              (replied (some out) r (moved i)).to_network (omega arith) refl aj sj mj nj
