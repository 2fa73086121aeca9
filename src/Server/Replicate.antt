-- ===== src/Server/Replicate.antt =====
-- `handle_append_entries_response` (src/server.rs): the leader learns how far a follower is, moves
-- its commit index on a majority, applies what it commits and answers the client.
pub mod Quorum
pub mod Backoff
pub mod Success
pub mod Stranger
pub mod Finish
pub mod Commits
pub mod Answers
use mini_raft.Prelude.{
  ℕ, zero, suc, ◌-◌, ◌/◌, ℤ, ltb, ◌==◌, ltb_ℤ, as_i32, as_usize, sub_unsigned, inc_u64, inc_i32,
  span, range_inclusive, Bool, true, false, ◌&&◌, Option, none, some, List, [], ◌∷◌, get_elem?,
  write, slice_from, if◌then◌else◌,
}
use mini_raft.Protocol.{
  NodeId, LogCommand, LogEntry, AppendEntriesResponse, Message, ClientResponse, append_entries_type,
  append_entries_response_type, client_response_type, RemoteId, client, peer, to_node, to_client,
  Outgoing,
}
use mini_raft.StateMachine.{StateMachine}
use mini_raft.Server.State.{Server, RaftState, leader}
use mini_raft.Server.Action.{Action, pure, or_panic, ◌>>=◌, ◌>>◌, ignore, modify_state, self, send}
use mini_raft.Server.Roles.{become_follower_if_higher_term}
use mini_raft.Server.Apply.{apply_latest_commited_logs}
use mini_raft.Server.Vote.{last_log_index}

-- How many of the entries of `match_index` have reached n.
unfoldable pub match_count : ℤ → List ℤ → ℕ
match_count n [] = 0
match_count n (index ∷ rest) =
    let others = match_count n rest in if ltb_ℤ index n then others else suc others

-- The answer to the client of a committed entry, if its command has one.
unfoldable pub client_reply : LogEntry → LogCommand → Option Outgoing
client_reply entry (LogCommand.set _ _) = some (record {
  dest = to_client entry.client_id;
  msg = client_response_type (ClientResponse.set_success entry.request_id);
})
client_reply entry (LogCommand.delete _) = some (record {
  dest = to_client entry.client_id;
  msg = client_response_type (ClientResponse.delete_success entry.request_id true);
})
client_reply entry (LogCommand.get _) = none

module _ {S : Type 0} where
  unfoldable pub retry_message : NodeId → ℤ → ℕ → List LogEntry → Server S → Outgoing
  retry_message i prev term entries s = record {
    dest = to_node i;
    msg = append_entries_type (record {
      term = s.current_term;
      leader_id = s.id;
      prev_log_index = prev;
      prev_log_term = term;
      entries = entries;
      leader_commit = s.commit_index;
    });
  }

  -- A success: `match_index` and `next_index` follow what was last sent.
  unfoldable pub record_success : NodeId → List ℤ → List ℕ → Action S (List ℤ)
  record_success i match_index next_index = do
    s ← self
    last_sent ← or_panic (get_elem? s.last_sent_index i)
    match' ← or_panic (write match_index i last_sent)
    following ← or_panic (inc_u64 (as_usize last_sent))
    next' ← or_panic (write next_index i following)
    modify_state λ t. record t { state = leader match' next' }
    pure match'

  -- A failure: `next_index` goes back by one, and the log from there is sent.
  unfoldable pub record_failure : NodeId → List ℤ → List ℕ → Action S (List ℤ)
  unfolding retry_message
  record_failure i match_index next_index = do
    s ← self
    next ← or_panic (get_elem? next_index i)
    next' ← or_panic (write next_index i (next - 1))
    modify_state λ t. record t { state = leader match_index next' }
    entry ← or_panic (get_elem? s.log (as_usize (as_i32 (next - 1))))
    entries ← or_panic (slice_from (next - 1) s.log)
    send (retry_message i (as_i32 (next - 1)) entry.term entries s)
    pure match_index

  -- One round of the loop over `start_index..=last_log_index`: n is committed if its entry is of
  -- the current term and enough followers have it.
  unfoldable pub check_index : List ℤ → ℤ → Action S Bool → Action S Bool
  unfolding match_count
  check_index match_index n rest = do
    s ← self
    entry ← or_panic (get_elem? s.log (as_usize n))
    if entry.term == s.current_term
        then (do
          threshold ← or_panic (sub_unsigned (s.config.total_nodes / 2) 1)
          if ltb threshold (match_count n match_index)
              then (do modify_state λ t. record t { commit_index = n }; pure true)
              else rest)
        else rest

  -- Whether the commit index was moved.
  unfoldable pub find_commit : List ℤ → List ℤ → Action S Bool
  unfolding check_index
  find_commit match_index [] = pure false
  find_commit match_index (n ∷ ns) = check_index match_index n (find_commit match_index ns)

  unfoldable pub update_commit : List ℤ → Action S Bool
  unfolding find_commit last_log_index
  update_commit match_index = do
    s ← self
    last ← last_log_index s.log
    start ← or_panic (inc_i32 s.commit_index)
    find_commit match_index (range_inclusive start last)

  unfoldable pub send_reply : Option Outgoing → Action S (Unit {0})
  send_reply none = pure tt
  send_reply (some reply) = send reply

  unfoldable pub answer_client : Option LogEntry → Action S (Unit {0})
  unfolding client_reply send_reply
  answer_client none = pure tt
  answer_client (some entry) = send_reply (client_reply entry entry.command)

  -- `match_index[self.id] = commit_index`, and the answer; nothing unless this node still leads.
  unfoldable pub acknowledge_as : RaftState → Action S (Unit {0})
  unfolding answer_client
  acknowledge_as (leader match_index next_index) = do
    s ← self
    match' ← or_panic (write match_index s.id s.commit_index)
    modify_state λ t. record t { state = leader match' next_index }
    answer_client (get_elem? s.log (as_usize s.commit_index))
  acknowledge_as _ = pure tt

module _ {S : Type 0} ⦃m : StateMachine S⦄ where
  -- The loop over `last_applied + 1..=commit_index`: each round applies all there is.
  unfoldable pub apply_rounds : ℕ → ℤ → Action S (Unit {0})
  unfolding apply_latest_commited_logs
  apply_rounds zero commit_index = pure tt
  apply_rounds (suc n) commit_index = do
    ignore (apply_latest_commited_logs commit_index)
    apply_rounds n commit_index

  unfoldable pub finish_commit : Action S (Unit {0})
  unfolding apply_rounds acknowledge_as
  finish_commit = do
    s ← self
    first ← or_panic (inc_i32 s.last_applied)
    apply_rounds (span first s.commit_index) s.commit_index
    modify_state λ t. record t { last_applied = t.commit_index }
    s' ← self
    acknowledge_as s'.state

  unfoldable pub response_from : RemoteId → List ℤ → List ℕ → Bool → Action S (Unit {0})
  unfolding record_success record_failure update_commit finish_commit
  response_from (client _) match_index next_index success = pure tt
  response_from (peer i) match_index next_index success = do
    match' ←
        (if success
          then record_success i match_index next_index
          else record_failure i match_index next_index)
    updated ← update_commit match'
    if success && updated then finish_commit else pure tt

  unfoldable pub response_as : RaftState → RemoteId → AppendEntriesResponse → Action S (Unit {0})
  unfolding response_from become_follower_if_higher_term
  response_as (leader match_index next_index) from msg = do
    s ← self
    if ltb s.current_term msg.term
        then become_follower_if_higher_term msg.term
        else response_from from match_index next_index msg.success
  response_as _ from msg = pure tt

  unfoldable pub handle_append_entries_response : RemoteId → Message → Action S (Unit {0})
  unfolding response_as
  handle_append_entries_response from (append_entries_response_type msg) = do
    s ← self
    response_as s.state from msg
  handle_append_entries_response from _ = pure tt
