-- ===== src/Server/Client.antt =====
-- `handle_client_request` and `handle_set_command` (src/server.rs): the leader appends a command to
-- its log and sends it out, once for each configured peer.
pub mod Sent
pub mod Restart
pub mod Cut
use mini_raft.Prelude.{
  ℕ, ℤ, negsuc, ◌==◌, eqb_ℤ, as_i32, as_u32, as_usize, dec_i32, Option, none, some, String, List,
  [], ◌∷◌, ◌++◌, length, get_elem?, write, if◌then◌else◌,
}
use mini_raft.Protocol.{
  NodeId, LogCommand, LogEntry, ClientRequest, append_entries_type, broadcast, Outgoing,
}
use mini_raft.Config.{peer_node_addresses}
use mini_raft.Server.State.{Server, RaftState, leader}
use mini_raft.Server.Action.{Action, pure, or_panic, ◌>>=◌, ◌>>◌, modify, modify_state, self, send}
use mini_raft.Server.Apply.{last_index}

-- -1 where the peer is to get the log from its start.
unfoldable pub prev_index : ℕ → Option ℤ
prev_index next = if next == 0 then some (negsuc 0) else dec_i32 (as_i32 next)

-- The term of the entry at that index, 0 at -1. `none` is the panic past the end of the log.
unfoldable pub prev_term : ℤ → List LogEntry → Option ℕ
prev_term prev log =
    if eqb_ℤ prev (negsuc 0)
    then some 0
    else elim (get_elem? log (as_usize prev)) [ none ↦ none | some entry ↦ some entry.term ]

module _ {S : Type 0} where
  unfoldable pub set_entry : String → String → ℕ → ℕ → Server S → LogEntry
  set_entry key value client_id request_id s = record {
    term = s.current_term;
    command = LogCommand.set key value;
    index = as_u32 (length s.log);
    client_id = client_id;
    request_id = request_id;
  }

  unfoldable pub append_message : LogEntry → ℤ → ℕ → Server S → Outgoing
  append_message entry prev term s = record {
    dest = broadcast;
    msg = append_entries_type (record {
      term = s.current_term;
      leader_id = s.id;
      prev_log_index = prev;
      prev_log_term = term;
      entries = entry ∷ [];
      leader_commit = s.commit_index;
    });
  }

  -- What the loop over the peers does for a peer that is not this node.
  unfoldable pub send_entry : LogEntry → List ℕ → NodeId → Action S (Unit {0})
  unfolding prev_index prev_term append_message last_index
  send_entry entry next_index i = do
    s ← self
    next ← or_panic (get_elem? next_index i)
    prev ← or_panic (prev_index next)
    term ← or_panic (prev_term prev s.log)
    last ← last_index
    last_sent ← or_panic (write s.last_sent_index i last)
    modify_state λ t. record t { last_sent_index = last_sent }
    send (append_message entry prev term s)

  -- One round of the loop over the peers; this node is left out.
  unfoldable pub send_round : LogEntry → List ℕ → NodeId → Action S (Unit {0}) → Action S (Unit {0})
  unfolding send_entry
  send_round entry next_index peer_id rest = do
    s ← self
    if peer_id == s.id then rest else (do send_entry entry next_index peer_id; rest)

  unfoldable pub send_entries : LogEntry → List ℕ → List (NodeId × String) → Action S (Unit {0})
  unfolding send_round
  send_entries entry next_index [] = pure tt
  send_entries entry next_index ((peer_id, _) ∷ peers) =
      send_round entry next_index peer_id (send_entries entry next_index peers)

  unfoldable pub set_command_as : RaftState → String → String → ℕ → ℕ → Action S (Unit {0})
  unfolding set_entry send_entries peer_node_addresses
  set_command_as (leader _ next_index) key value client_id request_id = do
    s ← self
    modify λ t. record t { log = t.log ++ set_entry key value client_id request_id s ∷ [] }
    send_entries (set_entry key value client_id request_id s) next_index
        (peer_node_addresses s.config)
  set_command_as _ key value client_id request_id = pure tt

  unfoldable pub handle_set_command : String → String → ℕ → ℕ → Action S (Unit {0})
  unfolding set_command_as
  handle_set_command key value client_id request_id = do
    s ← self
    set_command_as s.state key value client_id request_id

  unfoldable pub client_request_as : RaftState → LogCommand → ℕ → ℕ → Action S (Unit {0})
  unfolding handle_set_command
  client_request_as (leader _ _) (LogCommand.set key value) client_id request_id =
      handle_set_command key value client_id request_id
  client_request_as _ _ client_id request_id = pure tt

  unfoldable pub handle_client_request : ClientRequest → Action S (Unit {0})
  unfolding client_request_as
  handle_client_request msg = do
    s ← self
    client_request_as s.state msg.command msg.client_id msg.request_id
