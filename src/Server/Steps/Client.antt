-- ===== src/Server/Steps/Client.antt =====
-- The writes of `handle_client_request` (src/server.rs).
use mini_raft.Prelude.{
  ℕ, zero, suc, ◌==◌, ◌≡◌, refl, sym, subst, String, List, [], ◌∷◌, length, drop, write, get_elem?,
  length-write, drop-append_length, as_i32, dec_i32,
}
use mini_raft.Protocol.{
  NodeId, LogCommand, LogEntry, Message, ClientRequest, Outgoing, client_request_type,
}
use mini_raft.Config.{peer_node_addresses}
use mini_raft.Server.State.{Server, RaftState, follower, candidate, leader}
use mini_raft.Server.Action.{Action, send, send_to}
use mini_raft.Server.Apply.{last_index}
use mini_raft.Server.Client.{
  prev_index, prev_term, set_entry, append_message, send_entry, send_round, send_entries,
  set_command_as, handle_set_command, client_request_as, handle_client_request,
}
use mini_raft.Server.Steps.{Steps, then_write, marked, pushed}
use mini_raft.Server.Steps.Rules.{Runs, given_kept, after, given, branch, done, sends}

send_to-log :
    {S : Type 0} (room : ℕ) (o : Outgoing) (t : Server S) → (send_to room o t).1.log ≡ t.log
unfolding send_to
send_to-log zero o t = refl
send_to-log (suc r) o t = refl

module _ {S : Type 0} where
  abbrev SameLog : List LogEntry → Server S → Type 0
  SameLog log u = u.log ≡ log

  send_entry-log :
      (entry : LogEntry) (next : List ℕ) (i : NodeId) (t : Server S)
      → (send_entry entry next i t).1.log ≡ t.log
  unfolding send_entry last_index send
  send_entry-log entry next i t = given_kept (SameLog t.log) (get_elem? next i) _ t refl (λ n.
      given_kept (SameLog t.log) (prev_index n) _ t refl (λ prev.
        given_kept (SameLog t.log) (prev_term prev t.log) _ t refl (λ term.
          given_kept (SameLog t.log) (dec_i32 (as_i32 (length t.log))) _ t refl (λ last.
            given_kept (SameLog t.log) (write t.last_sent_index i last) _ t refl
              (λ l. send_to-log _ _ _)))))

abbrev request : LogCommand → ℕ → ℕ → ClientRequest
request command client_id request_id = record {
  command = command;
  client_id = client_id;
  request_id = request_id;
}

-- An entry is the last of a log.
abbrev IsLast : LogEntry → List LogEntry → Type 0
IsLast entry log = (k : ℕ) × (entry ∷ [] ≡ drop k log)

module _ {S : Type 0} {Heard : Message → Type 0} {s : Server S} (entry : LogEntry)
    (next : List ℕ) where
  send_entry-Runs :
      (i : NodeId) (t : Server S)
      → Steps Heard s t
      → IsLast entry t.log
      → Runs Heard s (send_entry entry next i t)
  unfolding send_entry last_index append_message
  send_entry-Runs i t h (k, e) = given (get_elem? next i) _ h (λ n _.
      given (prev_index n) _ h (λ prev _. given (prev_term prev t.log) _ h (λ term _.
        given (dec_i32 (as_i32 (length t.log))) _ h (λ last _.
          given (write t.last_sent_index i last) _ h (λ l w.
            sends _ _ (then_write h (marked l (length-write t.last_sent_index i last w)))
              (refl, k, e))))))

  send_round-Runs :
      (i : NodeId) (rest : Action S (Unit {0})) (t : Server S)
      → Steps Heard s t
      → IsLast entry t.log
      → ((u : Server S) → Steps Heard s u → IsLast entry u.log → Runs Heard s (rest u))
      → Runs Heard s (send_round entry next i rest t)
  unfolding send_round
  send_round-Runs i rest t h l k =
      branch (i == t.id) _ _ t (λ _. k t h l)
        (λ _.
          after _ (send_entry-Runs i t h l)
            (λ _ _ r. k _ r (subst (IsLast entry) (sym (send_entry-log entry next i t)) l)))

  send_entries-Runs :
      (peers : List (NodeId × String)) (t : Server S)
      → Steps Heard s t
      → IsLast entry t.log
      → Runs Heard s (send_entries entry next peers t)
  unfolding send_entries
  send_entries-Runs [] t h l = done h
  send_entries-Runs ((i, _) ∷ peers) t h l =
      send_round-Runs i _ t h l (λ u r q. send_entries-Runs peers u r q)

module _ {S : Type 0} {Heard : Message → Type 0} {s : Server S} where
  set_command_as-Runs :
      (role : RaftState) (k v : String) (c r : ℕ) (t : Server S)
      → Steps Heard s t
      → Heard (client_request_type (request (LogCommand.set k v) c r))
      → Runs Heard s (set_command_as role k v c r t)
  unfolding set_command_as set_entry
  set_command_as-Runs (leader _ next) k v c r t h g =
      let entry = set_entry k v c r t in
      send_entries-Runs entry next (peer_node_addresses t.config) _
        (then_write h
          (pushed (request (LogCommand.set k v) c r) entry g (refl, refl, refl) refl refl))
        (length t.log, sym (drop-append_length t.log (entry ∷ [])))
  set_command_as-Runs follower k v c r t h g = done h
  set_command_as-Runs (candidate _) k v c r t h g = done h

  client_request_as-Runs :
      (role : RaftState) (command : LogCommand) (c r : ℕ) (t : Server S)
      → Steps Heard s t
      → Heard (client_request_type (request command c r))
      → Runs Heard s (client_request_as role command c r t)
  unfolding client_request_as handle_set_command
  client_request_as-Runs (leader _ _) (LogCommand.set k v) c r t h g =
      set_command_as-Runs t.state k v c r t h g
  client_request_as-Runs _ _ c r t h g = done h

  pub client_request-Runs :
      (msg : ClientRequest) (t : Server S)
      → Steps Heard s t
      → Heard (client_request_type msg)
      → Runs Heard s (handle_client_request msg t)
  unfolding handle_client_request
  client_request-Runs msg t h g =
      client_request_as-Runs t.state msg.command msg.client_id msg.request_id t h g
