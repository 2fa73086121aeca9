-- ===== src/Server/Steps/Vote.antt =====
-- The writes of the handlers of an election (src/server.rs).
use mini_raft.Prelude.{
  ℕ, ◌+◌, ◌/◌, ◌<◌, ℤ, pos, ◌<ℤ◌, ltb, leb, ltb→lt, add_u32, dec_i32, as_i32, i32_size, u32_size,
  ◌≡◌, refl, false, some, List, [], ◌∷◌, length, arith,
}
use mini_raft.Protocol.{
  LogEntry, Message, RequestVote, RequestVoteResponse, request_vote_type,
  request_vote_response_type,
}
use mini_raft.Server.State.{Server, RaftState, follower, candidate, leader}
use mini_raft.Server.Action.{Action, resume}
use mini_raft.Server.Roles.{become_follower_if_higher_term, become_leader}
use mini_raft.Server.Apply.{last_index}
use mini_raft.Server.Vote.{
  vote_reply, is_denied, last_log_index, send_request_vote_rpc_to_peers, handle_request_vote_rpc,
  count_vote, vote_response_as, handle_request_vote_response_rpc,
}
use mini_raft.Server.Steps.{Steps, then_write, counted, led, followed}
use mini_raft.Server.Steps.Rules.{Runs, given, branch, done, ignored, sends}
use mini_raft.Server.Steps.Apply.{last_index-small}
use mini_raft.Server.Steps.Append.{lower_term-Runs}

add_u32-small : (a b v : ℕ) → add_u32 a b ≡ some v → v < u32_size
add_u32-small a b v e = ground arith

module _ {S : Type 0} {Heard : Message → Type 0} {s : Server S} where
  -- What follows `last_log_index` starts in the same state, with an index that an `i32` holds.
  pub after_last_log_index :
      {B : Type 0} (log : List LogEntry) (f : ℤ → Action S B) (t : Server S)
      → t.log ≡ log
      → Steps Heard s t
      → ((last : ℤ) → last <ℤ pos i32_size → Runs Heard s (f last t))
      → Runs Heard s (resume (last_log_index log t).0 f (last_log_index log t).1)
  unfolding last_log_index last_index
  after_last_log_index [] f t e h k = k (pos 0) (omega arith)
  after_last_log_index (_ ∷ _) f t e h k =
      given (dec_i32 (as_i32 (length t.log))) f h
        (λ last e. k last (last_index-small (length t.log) last e))

  pub send_request_vote-Runs :
      (t : Server S) → Steps Heard s t → Runs Heard s (send_request_vote_rpc_to_peers t)
  unfolding send_request_vote_rpc_to_peers
  send_request_vote-Runs t h =
      after_last_log_index t.log _ t refl h (λ last _. ignored (sends _ t h refl))

  pub request_vote-Runs :
      (msg : RequestVote) (t : Server S)
      → Steps Heard s t
      → Runs Heard s (handle_request_vote_rpc msg t)
  unfolding handle_request_vote_rpc vote_reply
  request_vote-Runs msg t h =
      branch (ltb msg.term t.current_term) _ _ t
        (λ _.
          lower_term-Runs (request_vote_type msg) (vote_reply msg.candidate_id t.current_term false)
            t h refl)
        (λ _. given (is_denied t.voted_for msg t.log) _ h (λ denied _. sends _ t h refl))

  pub become_leader-Runs : (t : Server S) → Steps Heard s t → Runs Heard s (become_leader t)
  unfolding become_leader
  become_leader-Runs t h = done (then_write h led)

  count_vote-Runs : (votes : ℕ) (t : Server S) → Steps Heard s t → Runs Heard s (count_vote votes t)
  unfolding count_vote
  count_vote-Runs votes t h = given (add_u32 votes 1) _ h (λ v e.
      let r = then_write h (counted v (add_u32-small votes 1 v e)) in
      branch (leb (t.config.total_nodes / 2 + 1) v) _ _ _ (λ _. become_leader-Runs _ r)
        (λ _. done r))

  vote_response_as-Runs :
      (role : RaftState) (msg : RequestVoteResponse) (t : Server S)
      → Steps Heard s t
      → Heard (request_vote_response_type msg)
      → Runs Heard s (vote_response_as role msg t)
  unfolding vote_response_as become_follower_if_higher_term
  vote_response_as-Runs (candidate votes) msg t h g =
      branch (ltb t.current_term msg.term) _ _ t
        (λ lt. done (
          then_write h (
            followed (request_vote_response_type msg) msg.term g refl
              (omega (arith, ltb→lt t.current_term msg.term lt)))))
        (λ _. branch msg.vote_granted _ _ t (λ _. count_vote-Runs votes t h) (λ _. done h))
  vote_response_as-Runs follower msg t h g = done h
  vote_response_as-Runs (leader _ _) msg t h g = done h

  pub vote_response-Runs :
      (msg : RequestVoteResponse) (t : Server S)
      → Steps Heard s t
      → Heard (request_vote_response_type msg)
      → Runs Heard s (handle_request_vote_response_rpc msg t)
  unfolding handle_request_vote_response_rpc
  vote_response-Runs msg t h g = vote_response_as-Runs t.state msg t h g
