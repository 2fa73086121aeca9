-- ===== src/Server/Vote/Election.antt =====
-- How replies make a leader of a candidate (`handle_request_vote_response_rpc`, src/server.rs).
use mini_raft.Prelude.{
  ℤ, sym, Bool-cases, ℕ, suc, ◌+◌, ◌/◌, ◌≤◌, ◌<◌, leb, u32_size, ◌≡◌, refl, ap, ◌∙◌, inl, inr,
  dec_lt, true, false, if◌then◌else◌, List, [], ◌∷◌, negsuc, replicate, arith,
}
use mini_raft.Protocol.{RequestVoteResponse}
use mini_raft.Server.State.{Server, RaftState, candidate, leader}
use mini_raft.Server.Action.{Action, Outcome, ok, resume, pure, ◌>>◌}
use mini_raft.Server.Roles.{first_next_index, become_leader}
use mini_raft.Server.Vote.{count_vote, vote_response_as, handle_request_vote_response_rpc}

-- Replies that come in one after the other.
unfoldable pub handle_replies : {S : Type 0} → List RequestVoteResponse → Action S (Unit {0})
handle_replies [] = pure tt
handle_replies (msg ∷ msgs) = handle_request_vote_response_rpc msg >> handle_replies msgs

unfoldable pub granted : List RequestVoteResponse → ℕ
granted [] = 0
granted (msg ∷ msgs) = let rest = granted msgs in if msg.vote_granted then suc rest else rest

pub granted_nil : granted [] ≡ 0
unfolding granted
granted_nil = refl

pub granted_yes :
    (msg : RequestVoteResponse) (msgs : List RequestVoteResponse)
    → msg.vote_granted ≡ true
    → granted (msg ∷ msgs) ≡ suc (granted msgs)
unfolding granted
granted_yes msg msgs h = ground arith

pub granted_no :
    (msg : RequestVoteResponse) (msgs : List RequestVoteResponse)
    → msg.vote_granted ≡ false
    → granted (msg ∷ msgs) ≡ granted msgs
unfolding granted
granted_no msg msgs h = ground arith

abbrev pub NoneNewer : ℕ → List RequestVoteResponse → Type 0
NoneNewer term [] = Unit {0}
NoneNewer term (msg ∷ msgs) = (msg.term ≤ term) × NoneNewer term msgs

-- The votes that are needed.
abbrev pub quorum : {S : Type 0} → Server S → ℕ
quorum s = s.config.total_nodes / 2 + 1

abbrev pub with_role : {S : Type 0} → RaftState → Server S → Server S
with_role role s = record s { inner = record s.inner { state = role } }

-- The role of a new leader: nothing matched, and the next index after what it has applied.
abbrev pub new_leader : {S : Type 0} → Server S → RaftState
new_leader s =
    leader (replicate (s.config.total_nodes + 1) (negsuc 0))
      (replicate (s.config.total_nodes + 1) (first_next_index s.last_applied))

-- The role after v votes in all.
abbrev pub role_after : {S : Type 0} → ℕ → Server S → RaftState
role_after v s = if leb (quorum s) v then new_leader s else candidate v

module _ {S : Type 0} (msg : RequestVoteResponse) (s : Server S) where
  pub reply_granted :
      (v : ℕ)
      → s.state ≡ candidate v
      → v < quorum s
      → s.config.total_nodes < u32_size
      → msg.term ≤ s.current_term
      → msg.vote_granted ≡ true
      → handle_request_vote_response_rpc msg s ≡ (ok tt, with_role (role_after (suc v) s) s)
  unfolding handle_request_vote_response_rpc vote_response_as count_vote become_leader
  reply_granted v role few nodes old yes_vote = ground arith

  pub reply_denied :
      (v : ℕ)
      → s.state ≡ candidate v
      → msg.term ≤ s.current_term
      → msg.vote_granted ≡ false
      → handle_request_vote_response_rpc msg s ≡ (ok tt, s)
  unfolding handle_request_vote_response_rpc vote_response_as
  reply_denied v role old no_vote = ground arith

  -- A leader ignores replies.
  reply_late :
      (i : List _) (n : List ℕ)
      → s.state ≡ leader i n
      → handle_request_vote_response_rpc msg s ≡ (ok tt, s)
  unfolding handle_request_vote_response_rpc vote_response_as
  reply_late i n role = ground arith

module _ {S : Type 0} where
  then_replies :
      (msg : RequestVoteResponse) (msgs : List RequestVoteResponse) (s t : Server S)
      → handle_request_vote_response_rpc msg s ≡ (ok tt, t)
      → handle_replies (msg ∷ msgs) s ≡ handle_replies msgs t
  unfolding handle_replies
  then_replies msg msgs s t e =
      ap (λ (q : Outcome (Unit {0}) × Server S). resume q.0 (λ _ u. handle_replies msgs u) q.1) e

  replies_late :
      (msgs : List RequestVoteResponse) (s : Server S) (i : List ℤ) (n : List ℕ)
      → s.state ≡ leader i n
      → handle_replies msgs s ≡ (ok tt, s)
  unfolding handle_replies
  replies_late [] s i n role = refl
  replies_late (msg ∷ msgs) s i n role =
      then_replies msg msgs s _ (reply_late msg s i n role) ∙ replies_late msgs s i n role

  pub role_after_few : (v : ℕ) (s : Server S) → v < quorum s → role_after v s ≡ candidate v
  role_after_few v s h = ground arith

  pub role_after_enough : (v : ℕ) (s : Server S) → quorum s ≤ v → role_after v s ≡ new_leader s
  role_after_enough v s h = ground arith

  -- A candidate with v votes, fewer than it needs, that receives replies none of which is of a later
  -- term: it counts every reply that grants a vote, whoever sent it, and is the leader once the count
  -- reaches half of the nodes and one, a candidate with that count before. Nothing else changes.
  pub handle_replies-counts :
      (msgs : List RequestVoteResponse) (s : Server S) (v : ℕ)
      → s.state ≡ candidate v
      → v < quorum s
      → s.config.total_nodes < u32_size
      → NoneNewer s.current_term msgs
      → handle_replies msgs s ≡ (ok tt, with_role (role_after (v + granted msgs) s) s)
  unfolding handle_replies
  handle_replies-counts [] s v role few nodes old = λ i. (
    ok tt,
    with_role
        ((role
            ∙ sym (role_after_few v s few)
            ∙ ap (λ k. role_after k s) {x = v} {y = v + granted []} (omega (arith, granted_nil)))
          i)
        s,
  )
  handle_replies-counts (msg ∷ msgs) s v role few nodes old = elim (Bool-cases msg.vote_granted) [
    | inr no_vote ↦
        then_replies msg msgs s s (reply_denied msg s v role old.0 no_vote)
        ∙ handle_replies-counts msgs s v role few nodes old.1
        ∙ ap (λ k. (ok tt, with_role (role_after k s) s)) {y = v + granted (msg ∷ msgs)}
            (omega (arith, granted_no msg msgs no_vote))
    | inl yes_vote ↦ elim (dec_lt (suc v) (quorum s)) [
      | yes still ↦
          then_replies msg msgs s _ (
            reply_granted msg s v role few nodes old.0 yes_vote
            ∙ ap (λ r. (ok tt, with_role r s)) (role_after_few (suc v) s still))
          ∙ handle_replies-counts msgs (with_role (candidate (suc v)) s) (suc v) refl still nodes
              old.1
          ∙ ap (λ k. (ok tt, with_role (role_after k s) s))
              (omega (arith, granted_yes msg msgs yes_vote))
      | no enough ↦
          then_replies msg msgs s _ (
            reply_granted msg s v role few nodes old.0 yes_vote
            ∙ ap (λ r. (ok tt, with_role r s)) (role_after_enough (suc v) s (omega arith)))
          ∙ replies_late msgs (with_role (new_leader s) s) _ _ refl
          ∙ ap (λ r. (ok tt, with_role r s))
              (sym (
                role_after_enough (v + granted (msg ∷ msgs)) s
                  (omega (arith, granted_yes msg msgs yes_vote))))
    ]
  ]
