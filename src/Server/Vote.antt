-- ===== src/Server/Vote.antt =====
-- The votes of an election (src/server.rs): asking for them, granting them, counting them.
pub mod Grant
pub mod Election
use mini_raft.Prelude.{
  ℕ, ◌+◌, ◌/◌, ℤ, pos, ltb, leb, ◌==◌, ltb_ℤ, as_i32, add_u32, Bool, true, false, not, ◌||◌, Option,
  none, some, List, [], ◌∷◌, last?, if◌then◌else◌,
}
use mini_raft.Protocol.{
  NodeId, LogEntry, RequestVote, RequestVoteResponse, request_vote_type, request_vote_response_type,
  to_node, broadcast, Outgoing,
}
use mini_raft.Server.State.{RaftState, candidate}
use mini_raft.Server.Action.{Action, pure, or_panic, ◌>>=◌, ◌>>◌, ignore, modify_state, self, send}
use mini_raft.Server.Roles.{become_follower_if_higher_term, become_leader}
use mini_raft.Server.Apply.{last_index}
use mini_raft.Server.Append.{reply_false_if_lower_term}

unfoldable pub vote_reply : NodeId → ℕ → Bool → Outgoing
vote_reply node term vote_granted = record {
  dest = to_node node;
  msg = request_vote_response_type (record { term = term; vote_granted = vote_granted });
}

-- The term of the last entry, or 0.
unfoldable pub last_term : List LogEntry → ℕ
last_term log = elim (last? log) [ none ↦ 0 | some entry ↦ entry.term ]

-- The tests on the candidate's log, given the last entry of the voter's log.
unfoldable pub denies : RequestVote → LogEntry → Bool
denies msg entry =
    ltb_ℤ msg.last_log_index (as_i32 entry.index) || not (msg.last_log_term == entry.term)

-- Whether the vote is denied. `none` is the panic of reading the last entry of an empty log.
unfoldable pub is_denied : Option NodeId → RequestVote → List LogEntry → Option Bool
unfolding denies
is_denied none msg log = some false
is_denied (some voted_for) msg log =
    if voted_for == msg.candidate_id
    then elim (last? log) [ none ↦ none | some entry ↦ some (denies msg entry) ]
    else some true

module _ {S : Type 0} where
  -- The last index of the log, 0 for an empty one.
  unfoldable pub last_log_index : List LogEntry → Action S ℤ
  unfolding last_index
  last_log_index [] = pure (pos 0)
  last_log_index (_ ∷ _) = last_index

  unfoldable pub send_request_vote_rpc_to_peers : Action S (Unit {0})
  unfolding last_log_index last_term
  send_request_vote_rpc_to_peers = do
    s ← self
    index ← last_log_index s.log
    ignore (
        send (record {
          dest = broadcast;
          msg = request_vote_type (record {
            term = s.current_term;
            candidate_id = s.id;
            last_log_index = index;
            last_log_term = last_term s.log;
          });
        }))

  unfoldable pub handle_request_vote_rpc : RequestVote → Action S (Unit {0})
  unfolding reply_false_if_lower_term is_denied vote_reply
  handle_request_vote_rpc msg = do
    s ← self
    if ltb msg.term s.current_term
        then reply_false_if_lower_term (request_vote_type msg)
            (vote_reply msg.candidate_id s.current_term false)
        else (do
          denied ← or_panic (is_denied s.voted_for msg s.log)
          send (vote_reply msg.candidate_id s.current_term (not denied)))

  -- `*votes_received += 1`, and the test for a majority.
  unfoldable pub count_vote : ℕ → Action S (Unit {0})
  unfolding become_leader
  count_vote votes_received = do
    votes ← or_panic (add_u32 votes_received 1)
    modify_state λ t. record t { state = candidate votes }
    s ← self
    if leb (s.config.total_nodes / 2 + 1) votes then become_leader else pure tt

  unfoldable pub vote_response_as : RaftState → RequestVoteResponse → Action S (Unit {0})
  unfolding count_vote become_follower_if_higher_term
  vote_response_as (candidate votes_received) msg = do
    s ← self
    if ltb s.current_term msg.term
        then become_follower_if_higher_term msg.term
        else if msg.vote_granted
        then count_vote votes_received
        else pure tt
  vote_response_as _ msg = pure tt

  unfoldable pub handle_request_vote_response_rpc : RequestVoteResponse → Action S (Unit {0})
  unfolding vote_response_as
  handle_request_vote_response_rpc msg = do s ← self; vote_response_as s.state msg
