-- ===== src/Server/Client/Cut.antt =====
-- A new command whose handler is dropped while it waits at the full channel (`handle_set_command` under
-- `tokio::select!`, src/server.rs).
use mini_raft.Prelude.{
  ℕ, ◌+◌, ◌-◌, ◌<◌, min, lt→ltb, ℤ, ◌≡◌, refl, sym, ap, ◌∙◌, Bool, true, some, String, List, [],
  ◌∷◌, ◌++◌, length, length-snoc, written, write-written, i32_size, ℕ_discrete, eq→==, ne→not-==,
  arith,
}
use mini_raft.Protocol.{
  NodeId, ClientId, LogCommand, LogEntry, client_request_type, client, Incoming, Outgoing,
}
use mini_raft.StateMachine.{StateMachine}
use mini_raft.Config.{peer_node_addresses}
use mini_raft.Server.State.{Server, leader}
use mini_raft.Server.Action.{Outcome, ok, err, Error, resume, ◌>>◌, send, send_to}
use mini_raft.Server.Apply.Replay.{upto, last_index_lem}
use mini_raft.Server.Client.{
  set_entry, append_message, send_entry, send_round, send_entries, set_command_as,
  handle_set_command, client_request_as, handle_client_request,
}
use mini_raft.Server.Client.Sent.{
  others, next_of, Tracks, TracksAll, announced, pushed, command_entry, get_elem?-next_of,
  prev_index-before, prev_term-before, send_entry_lem, Tracks-announced, announced_none,
  announced-cons, others_self, others_other, set_entry_lem, addresses_same,
}
use mini_raft.Server.Loop.{with_room, was_cut, dispatch, recieve_rpc, recieve_until}

-- The end of the log is noted as sent to node i.
abbrev pub noted : {S : Type 0} → NodeId → Server S → Server S
noted i s = record s {
  inner = record s.inner { last_sent_index = written i (upto (length s.log)) s.last_sent_index };
}

first_same : {x y : NodeId} {xs ys : List NodeId} → x ∷ xs ≡ y ∷ ys → x ≡ y
first_same e = cc e

others_same : {x y : NodeId} {xs ys : List NodeId} → x ∷ xs ≡ y ∷ ys → xs ≡ ys
others_same e = cc e

module _ {S : Type 0} where
  send_full :
      (o : Outgoing) (s : Server S) → s.to_network.room ≡ 0 → send o s ≡ (err Error.send_failed, s)
  unfolding send send_to
  send_full o s e = ap (λ n. send_to n o s) e

module _ {S : Type 0} (entry : LogEntry) (next : List ℕ) where
  send_entry_full :
      (i : NodeId) (s : Server S)
      → length s.log < i32_size
      → Tracks next s i
      → s.to_network.room ≡ 0
      → send_entry entry next i s ≡ (err Error.send_failed, noted i s)
  unfolding send_entry append_message
  send_entry_full i s small (tracked, inside, reach) full =
      rw
        (
          get_elem?-next_of next i tracked,
          prev_index-before (next_of next i) (omega arith),
          prev_term-before (next_of next i) s.log inside,
          last_index_lem s small,
          write-written s.last_sent_index i (upto (length s.log)) reach,
        )
        (send_full _ (noted i s) full)

  nothing_sent : (s : Server S) → s.to_network.room ≡ 0 → announced entry next [] 0 s ≡ s
  nothing_sent s room =
      ap (λ r. announced entry next [] r s) (sym room) ∙ announced_none entry next s

  then_send :
      (p : NodeId) (ps : List (NodeId × String)) (s : Server S) {q : Outcome (Unit {0}) × Server S}
      → send_entry entry next p s ≡ q
      → (send_entry entry next p >> send_entries entry next ps) s
        ≡ resume q.0 (λ _. send_entries entry next ps) q.1
  then_send p ps s e =
      ap (λ (q : Outcome (Unit {0}) × Server S). resume q.0 (λ _. send_entries entry next ps) q.1) e

  -- The messages for the peers `done` go out, the one for peer i does not.
  send_entries_cut :
      (ps : List (NodeId × String)) (done rest : List NodeId) (i : NodeId) (s : Server S)
      → length s.log < i32_size
      → TracksAll next s ps
      → others s.id ps ≡ done ++ i ∷ rest
      → s.to_network.room ≡ length done
      → send_entries entry next ps s
        ≡ (err Error.send_failed, noted i (announced entry next done 0 s))
  unfolding send_entries send_round
  send_entries_cut [] [] rest i s small _ e room = cc e
  send_entries_cut [] (d ∷ done) rest i s small _ e room = cc e
  send_entries_cut ((p, a) ∷ ps) [] rest i s small (h, hs) e room = elim (ℕ_discrete p s.id) [
    | yes same ↦
        rw (eq→== p s.id same)
          (send_entries_cut ps [] rest i s small hs (sym (others_self s.id p a ps same) ∙ e) room)
    | no other ↦
        let split = sym (others_other s.id p a ps other) ∙ e in
        rw (ne→not-== p s.id other) (
          then_send p ps s (send_entry_full p s small (h other) room)
          ∙ ap (λ q. (err Error.send_failed, noted q s)) (first_same split)
          ∙ ap (λ t. (err Error.send_failed, noted i t)) (sym (nothing_sent s room)))
  ]
  send_entries_cut ((p, a) ∷ ps) (d ∷ done) rest i s small (h, hs) e room =
      elim (ℕ_discrete p s.id) [
        | yes same ↦ rw (eq→== p s.id same) (
            send_entries_cut ps (d ∷ done) rest i s small hs
              (sym (others_self s.id p a ps same) ∙ e) room)
        | no other ↦
            let split = sym (others_other s.id p a ps other) ∙ e in
            let left = length done in
            rw (ne→not-== p s.id other) (
              then_send p ps s (send_entry_lem entry next p s left small (h other) room)
              ∙ send_entries_cut ps done rest i (announced entry next (p ∷ []) left s) small
                  (Tracks-announced entry next p left s ps hs) (others_same split) refl
              ∙ ap (λ t. (err Error.send_failed, noted i t))
                  (announced-cons entry next p done 0 left s)
              ∙ ap (λ q. (err Error.send_failed, noted i (announced entry next (q ∷ done) 0 s)))
                  (first_same split))
      ]

abbrev pub request : String → String → ℕ → ℕ → ClientId → Incoming
request key value client_id request_id from = record {
  from = client from;
  msg = client_request_type (record {
    command = LogCommand.set key value;
    client_id = client_id;
    request_id = request_id;
  });
}

-- How `recieve_until` ends a handler that ended with `p`.
abbrev ended : {S : Type 0} → Bool → ℕ → Outcome (Unit {0}) × Server S → Outcome Bool × Server S
ended full spare p = (was_cut full p.0, with_room (p.1.to_network.room + spare) p.1)

module _ {S : Type 0} (key value : String) (client_id request_id : ℕ) (match_index : List ℤ)
    (next : List ℕ) where
  handle_set_command_cut :
      (done rest : List NodeId) (i : NodeId) (s : Server S)
      → s.state ≡ leader match_index next
      → length s.log + 1 < i32_size
      → TracksAll next
          (pushed (command_entry key value client_id request_id s) s)
          s.config.peer_addresses
      → others s.id s.config.peer_addresses ≡ done ++ i ∷ rest
      → s.to_network.room ≡ length done
      → let entry = command_entry key value client_id request_id s in
        handle_set_command key value client_id request_id s
        ≡ (err Error.send_failed, noted i (announced entry next done 0 (pushed entry s)))
  unfolding handle_set_command set_command_as peer_node_addresses
  handle_set_command_cut done rest i s role small tracks split room =
      let coded = set_entry key value client_id request_id s in
      let entry = command_entry key value client_id request_id s in
      ap (λ st. set_command_as st key value client_id request_id s) role
      ∙ ap (λ ps. send_entries coded next ps (pushed coded s))
          (addresses_same s.config.peer_addresses)
      ∙ ap (λ e. send_entries e next s.config.peer_addresses (pushed e s))
          (set_entry_lem key value client_id request_id s (omega arith))
      ∙ send_entries_cut entry next s.config.peer_addresses done rest i (pushed entry s)
          (omega (arith, length-snoc s.log entry)) tracks split room

  recieve_rpc-set :
      ⦃m : StateMachine S⦄ (from : ClientId) (s : Server S)
      → s.state ≡ leader match_index next
      → recieve_rpc (some (request key value client_id request_id from)) s
        ≡ handle_set_command key value client_id request_id s
  unfolding recieve_rpc dispatch handle_client_request client_request_as
  recieve_rpc-set from s role =
      ap (λ st. client_request_as st (LogCommand.set key value) client_id request_id s) role

  -- A client's `set` at a leader whose log stays shorter than 2^31 and that tracks every peer, when
  -- the channel, which would take more later, takes the messages for the first peers only: the timer
  -- fires while the message for the next one, i, waits, and the handler is dropped. Then the entry is
  -- in the log, the messages for the first peers have gone out and no others, and yet the end of the
  -- log is noted as sent to i.
  pub recieve_until_drops :
      ⦃m : StateMachine S⦄ (done rest : List NodeId) (i : NodeId) (from : ClientId) (s : Server S)
      → s.state ≡ leader match_index next
      → length s.log + 1 < i32_size
      → TracksAll next
          (pushed (command_entry key value client_id request_id s) s)
          s.config.peer_addresses
      → others s.id s.config.peer_addresses ≡ done ++ i ∷ rest
      → length done < s.to_network.room
      → let entry = command_entry key value client_id request_id s in
        recieve_until (length done) (request key value client_id request_id from) s ≡ (
          ok true,
          noted i (announced entry next done (s.to_network.room - length done) (pushed entry s)),
        )
  unfolding recieve_until was_cut
  recieve_until_drops done rest i from s role small tracks split lt =
      let n = length done in
      let room = s.to_network.room in
      let entry = command_entry key value client_id request_id s in
      let incoming = request key value client_id request_id from in
      ap (λ b. ended b (room - n) (recieve_rpc (some incoming) (with_room (min n room) s)))
        (lt→ltb n room lt)
      ∙ ap (λ k. ended true (room - n) (recieve_rpc (some incoming) (with_room k s)))
          {x = min n room} {y = n} (omega arith)
      ∙ ap (ended true (room - n)) (
          recieve_rpc-set from (with_room n s) role
          ∙ handle_set_command_cut done rest i (with_room n s) role small tracks split refl)
      ∙ ap (λ k. (ok true, noted i (announced entry next done k (pushed entry s))))
          {x = 0 + (room - n)} {y = room - n} (omega arith)
