-- ===== src/Server/Append.antt =====
-- `handle_append_entries` and what it calls (src/server.rs).
pub mod Merge
pub mod Stored
pub mod Fits
pub mod Advance
pub mod Replies
pub mod Kept
pub mod Piece
use mini_raft.Prelude.{
  ℕ, ℤ, ltb, ◌==◌, ltb_ℤ, min_ℤ, as_i32, as_usize, Bool, true, false, not, Option, none, some, List,
  [], ◌∷◌, ◌++◌, get_elem?, take, insert_at, last?, if◌then◌else◌,
}
use mini_raft.Protocol.{
  NodeId, LogEntry, AppendEntries, Message, append_entries_type, append_entries_response_type,
  request_vote_type, RemoteId, client, peer, to_node, Outgoing,
}
use mini_raft.StateMachine.{StateMachine}
use mini_raft.Server.State.{RaftState, follower, candidate, leader}
use mini_raft.Server.Action.{
  Action, Error, pure, raise, or_panic, ◌>>=◌, ◌>>◌, ignore, modify, modify_state, self, send,
}
use mini_raft.Server.Roles.{become_follower_if_higher_term}
use mini_raft.Server.Apply.{apply_latest_commited_logs}

unfoldable pub append_reply : NodeId → ℕ → Bool → Outgoing
append_reply node term success = record {
  dest = to_node node;
  msg = append_entries_response_type (record { term = term; success = success });
}

-- The term of a message of a leader or a candidate; any other is `unreachable!()`.
unfoldable pub rpc_term : Message → Option ℕ
rpc_term (append_entries_type msg) = some msg.term
rpc_term (request_vote_type msg) = some msg.term
rpc_term _ = none

-- The second loop of `delete_conflicting_and_append_new_entries`.
unfoldable pub insert_all : List LogEntry → List LogEntry → Option (List LogEntry)
insert_all [] log = some log
insert_all (entry ∷ entries) log = elim (insert_at entry.index entry log) [
  | none ↦ none
  | some longer ↦ insert_all entries longer
]

-- One round of the first loop, on the log and `new_entries`.
unfoldable pub check_entry :
    LogEntry → Option LogEntry → List LogEntry → List LogEntry → List LogEntry × List LogEntry
check_entry entry none log new_entries = (log, new_entries ++ entry ∷ [])
check_entry entry (some log_entry) log new_entries =
    if log_entry.term == entry.term
    then (log, new_entries)
    else (take entry.index log, new_entries ++ entry ∷ [])

unfoldable pub check_entries :
    List LogEntry → List LogEntry → List LogEntry → List LogEntry × List LogEntry
unfolding check_entry
check_entries [] log new_entries = (log, new_entries)
check_entries (entry ∷ entries) log new_entries =
    let (log', new_entries') = check_entry entry (get_elem? log entry.index) log new_entries in
    check_entries entries log' new_entries'

-- Both loops. `none` is the panic of `Vec::insert` past the end.
unfoldable pub merge_entries : List LogEntry → List LogEntry → Option (List LogEntry)
unfolding check_entries insert_all
merge_entries entries log =
    let (kept, new_entries) = check_entries entries log [] in insert_all new_entries kept

-- `Some(entry)` whose term differs, or `None` with a log that is not empty, does not match.
unfoldable pub prev_log_matches : AppendEntries → List LogEntry → Bool
prev_log_matches msg log = elim (get_elem? log (as_usize msg.prev_log_index)) [
  | some log_entry ↦ log_entry.term == msg.prev_log_term
  | none ↦ elim log [ [] ↦ true | _ ∷ _ ↦ false ]
]

-- The commit index after the entries are in: `min(leader_commit, index of last new entry)`.
unfoldable pub new_commit : AppendEntries → Option LogEntry → ℤ → ℤ
new_commit msg none commit_index = commit_index
new_commit msg (some last_entry) commit_index =
    if ltb_ℤ commit_index msg.leader_commit
    then min_ℤ msg.leader_commit (as_i32 last_entry.index)
    else commit_index

module _ {S : Type 0} where
  unfoldable pub reply_false_if_lower_term : Message → Outgoing → Action S (Unit {0})
  unfolding rpc_term
  reply_false_if_lower_term msg reply = do
    term ← or_panic (rpc_term msg)
    s ← self
    if ltb term s.current_term then send reply else pure tt

  unfoldable pub reply_false_if_prev_log_does_not_match : AppendEntries → NodeId → Action S Bool
  unfolding prev_log_matches append_reply
  reply_false_if_prev_log_does_not_match msg leader_id = do
    s ← self
    if prev_log_matches msg s.log
        then pure true
        else (do send (append_reply leader_id s.current_term false); pure false)

  unfoldable pub delete_conflicting_and_append_new_entries : AppendEntries → Action S (Unit {0})
  unfolding merge_entries
  delete_conflicting_and_append_new_entries msg = do
    s ← self
    log ← or_panic (merge_entries msg.entries s.log)
    modify λ t. record t { log = log }

  -- `if msg.term > self.state.current_term`: whether the handler goes on.
  unfoldable pub adopt_term : ℕ → RaftState → Action S Bool
  unfolding become_follower_if_higher_term
  adopt_term term follower = do modify_state λ t. record t { current_term = term }; pure true
  adopt_term term (candidate _) = do become_follower_if_higher_term term; pure false
  adopt_term term (leader _ _) = do become_follower_if_higher_term term; pure false

  -- What follows the test for a heartbeat.
  unfoldable pub store_entries : NodeId → AppendEntries → Action S (Unit {0})
  unfolding delete_conflicting_and_append_new_entries new_commit append_reply
  store_entries node_id msg = do
    delete_conflicting_and_append_new_entries msg
    modify_state λ t. record t { commit_index = new_commit msg (last? msg.entries) t.commit_index }
    s ← self
    send (append_reply node_id s.current_term true)

module _ {S : Type 0} ⦃m : StateMachine S⦄ where
  unfoldable pub accept_entries : NodeId → AppendEntries → List LogEntry → Action S (Unit {0})
  unfolding apply_latest_commited_logs store_entries
  accept_entries node_id msg [] = ignore (apply_latest_commited_logs msg.leader_commit)
  accept_entries node_id msg (_ ∷ _) = do
    ignore (apply_latest_commited_logs msg.leader_commit)
    store_entries node_id msg

  -- A term that is higher is taken over first; only a follower then goes on.
  unfoldable pub adopt_and_accept : NodeId → AppendEntries → Action S (Unit {0})
  unfolding adopt_term accept_entries
  adopt_and_accept node_id msg = do
    s ← self
    proceed ← (if ltb s.current_term msg.term then adopt_term msg.term s.state else pure true)
    if proceed then accept_entries node_id msg msg.entries else pure tt

  unfoldable pub append_entries_from : NodeId → AppendEntries → Action S (Unit {0})
  unfolding reply_false_if_lower_term reply_false_if_prev_log_does_not_match adopt_and_accept
      append_reply
  append_entries_from node_id msg = do
    s ← self
    if ltb msg.term s.current_term
        then reply_false_if_lower_term (append_entries_type msg)
            (append_reply node_id s.current_term false)
        else (do
          matched ← reply_false_if_prev_log_does_not_match msg node_id
          if not matched then pure tt else adopt_and_accept node_id msg)

  -- Anything else than an append is an error; one that a client sent is ignored.
  unfoldable pub handle_append_entries : RemoteId → Message → Action S (Unit {0})
  unfolding append_entries_from
  handle_append_entries (peer node_id) (append_entries_type msg) = append_entries_from node_id msg
  handle_append_entries (client _) (append_entries_type msg) = pure tt
  handle_append_entries _ _ = raise Error.expected_append_entries
