-- ===== src/Cluster/Elections.antt =====
-- Two candidates of one term and the nodes that vote (`candidate`, `handle_request_vote_rpc` and
-- `handle_request_vote_response_rpc`, src/server.rs).
use mini_raft.Prelude.{
  ℕ, suc, ◌+◌, ◌≤◌, ◌<◌, i32_size, u32_size, ◌≡◌, refl, sym, ap, subst, ◌∙◌, true, none, some, List,
  [], ◌∷◌, ◌++◌, append_assoc, append-nil, length, AllOf, arith,
}
use mini_raft.Protocol.{NodeId, RequestVote, RequestVoteResponse, peer}
use mini_raft.StateMachine.{StateMachine}
use mini_raft.Server.State.{Server, RaftState}
use mini_raft.Server.Action.{Outcome, ◌>>◌, send}
use mini_raft.Server.Vote.{vote_reply, handle_request_vote_rpc}
use mini_raft.Server.Vote.Grant.{delivered, send_room, votes_twice}
use mini_raft.Server.Vote.Election.{granted, NoneNewer, quorum}
use mini_raft.Server.Steps.Rules.{after_ok, ignore_ok}
use mini_raft.Server.Loop.{Event, Left, rpc, is_leader, candidate_loop, candidate_as, candidate}
use mini_raft.Server.Loop.Wins.{
  replies, votes_in, request_in, vote_request, request_sent, standing, become_candidate_stands,
  candidate-IsWon,
}

-- Nodes that vote: when their reply comes, under which number, and the node.
abbrev pub Voters : Type 0 → Type 0
Voters S = List (ℕ × NodeId × Server S)

-- A node that has voted for nobody, is in no later term, and has room for two messages.
pub record CanVote {S : Type 0} (term : ℕ) (f : Server S) : Type 0 where
  pub room : ℕ
  pub free : f.voted_for ≡ none
  pub old : f.current_term ≤ term
  pub space : f.to_network.room ≡ suc (suc room)

-- A node whose election timer has just fired, and that can stand in one term more and ask for votes once.
pub record CanStand {S : Type 0} (p : Server S) : Type 0 where
  pub room : ℕ
  pub role : p.state ≡ RaftState.candidate 0
  pub nodes : p.config.total_nodes < u32_size
  pub small : length p.log < i32_size
  pub fits : p.current_term + 1 < u32_size
  pub space : p.to_network.room ≡ suc room

-- What a candidate hears from the voters, if each sends it a vote.
abbrev pub votes_for : {S : Type 0} → Server S → Voters S → List Event
votes_for p [] = []
votes_for p ((at, from, f) ∷ fs) =
    rpc at (some (record { from = peer from; msg = (vote_reply p.id f.current_term true).msg }))
    ∷ votes_for p fs

abbrev pub ballots : {S : Type 0} → Voters S → List (ℕ × NodeId × RequestVoteResponse)
ballots [] = []
ballots ((at, from, f) ∷ fs) =
    (at, from, record { term = f.current_term; vote_granted = true }) ∷ ballots fs

module _ {S : Type 0} where
  pub votes_for-replies : (p : Server S) (fs : Voters S) → votes_for p fs ≡ replies (ballots fs)
  unfolding vote_reply
  votes_for-replies p [] = refl
  votes_for-replies p ((at, from, f) ∷ fs) =
      ap
        (λ es.
          rpc at
            (some (record { from = peer from; msg = (vote_reply p.id f.current_term true).msg }))
          ∷ es)
        (votes_for-replies p fs)

  pub length-ballots : (fs : Voters S) → length (ballots fs) ≡ length fs
  length-ballots [] = refl
  length-ballots ((at, from, f) ∷ fs) = ap suc (length-ballots fs)

  pub all_granted : (fs : Voters S) → granted (votes_in (ballots fs)) ≡ length fs
  unfolding granted
  all_granted [] = refl
  all_granted ((at, from, f) ∷ fs) = ap suc (all_granted fs)

  pub ballots-NoneNewer :
      (term : ℕ) (fs : Voters S)
      → AllOf (λ v. CanVote term v.2) fs
      → NoneNewer term (votes_in (ballots fs))
  ballots-NoneNewer term [] h = tt
  ballots-NoneNewer term ((at, from, f) ∷ fs) (h, hs) = (h.old, ballots-NoneNewer term fs hs)

module _ {S : Type 0} ⦃m : StateMachine S⦄ where
  -- A candidate whose loop has just begun stands in the next term and asks for votes.
  candidate_asks :
      (now : ℕ) (p : Server S)
      → CanStand p
      → (candidate now [] p).1.to_network.sent
        ≡ p.to_network.sent ++ vote_request (standing now p) ∷ []
  unfolding candidate candidate_as candidate_loop
  candidate_asks now p c =
      let w = standing now p in
      ap (λ (q : Outcome Left × Server S). q.1.to_network.sent)
        (ap (λ s. candidate_as s now [] p) c.role
          ∙ after_ok _ (become_candidate_stands now p c.fits)
          ∙ after_ok _ (
              request_sent w c.small
              ∙ ignore_ok (send (vote_request w)) w (delivered (vote_request w) c.room w)
                  (send_room (vote_request w) w c.room c.space)))

  -- It leads in that term once it hears the votes of enough voters.
  elected :
      (now : ℕ) (p : Server S) (fs : Voters S)
      → CanStand p
      → AllOf (λ v. CanVote (p.current_term + 1) v.2) fs
      → quorum p ≤ length fs
      → (is_leader (candidate now (votes_for p fs) p).1.state ≡ true)
        × ((candidate now (votes_for p fs) p).1.current_term ≡ p.current_term + 1)
  elected now p fs c free enough =
      let (at, rest, left, leads, term) =
        candidate-IsWon now (ballots fs) [] p 0 c.role (omega arith) c.nodes c.small c.fits
          (ballots-NoneNewer (p.current_term + 1) fs free) (omega (arith, all_granted fs)) in
      subst
        (λ es.
          (is_leader (candidate now es p).1.state ≡ true)
          × ((candidate now es p).1.current_term ≡ p.current_term + 1))
        (append-nil (replies (ballots fs)) ∙ sym (votes_for-replies p fs)) (leads, term)

  -- A voter that hears both requests grants its vote to both.
  votes_for_both :
      (a b : RequestVote) (fs : Voters S)
      → a.term ≡ b.term
      → AllOf (λ v. CanVote a.term v.2) fs
      → AllOf
          (λ v.
            ((handle_request_vote_rpc a >> handle_request_vote_rpc b) v.2).1.to_network.sent
            ≡ v.2.to_network.sent
              ++ vote_reply a.candidate_id v.2.current_term true
                ∷ vote_reply b.candidate_id v.2.current_term true
                ∷ [])
          fs
  votes_for_both a b [] same h = tt
  votes_for_both a b ((at, from, f) ∷ fs) same (h, hs) = (
    ap (λ (q : Outcome (Unit {0}) × Server S). q.1.to_network.sent)
          (votes_twice a b f h.room h.space h.free h.old same)
        ∙ append_assoc f.to_network.sent (vote_reply a.candidate_id f.current_term true ∷ []) _,
    votes_for_both a b fs same hs,
  )

  -- Two leaders in one term. The election timers of two nodes of one term have just fired, and each
  -- can stand in one term more and ask for votes, its log and configuration being within the range of
  -- the casts. There are voters, as many as each of the two needs votes, that have voted for nobody,
  -- are in no later term than that, and have room for two messages. Each of the two asks for votes,
  -- each voter hears the first request and then the second one and answers both with a vote in its
  -- own term, and when those answers come in, both candidates lead in the same term.
  pub two_leaders :
      (now then : ℕ) (p q : Server S) (fs : Voters S)
      → CanStand p
      → CanStand q
      → p.current_term ≡ q.current_term
      → AllOf (λ v. CanVote (p.current_term + 1) v.2) fs
      → quorum p ≤ length fs
      → quorum q ≤ length fs
      → let a = standing now p in
        let b = standing then q in
        let p₁ = (candidate now (votes_for p fs) p).1 in
        let q₁ = (candidate then (votes_for q fs) q).1 in
        ((candidate now [] p).1.to_network.sent ≡ p.to_network.sent ++ vote_request a ∷ [])
        × ((candidate then [] q).1.to_network.sent ≡ q.to_network.sent ++ vote_request b ∷ [])
        × AllOf
            (λ v.
              ((handle_request_vote_rpc (request_in a) >> handle_request_vote_rpc (request_in b))
                v.2).1.to_network.sent
              ≡ v.2.to_network.sent
                ++ vote_reply p.id v.2.current_term true
                  ∷ vote_reply q.id v.2.current_term true
                  ∷ [])
            fs
        × (is_leader p₁.state ≡ true)
        × (is_leader q₁.state ≡ true)
        × (p₁.current_term ≡ q₁.current_term)
  two_leaders now then p q fs cp cq same free enough enough' =
      let (p_leads, p_term) = elected now p fs cp free enough in
      let same_next : q.current_term + 1 ≡ p.current_term + 1 = ap (λ n. n + 1) (sym same) in
      let (q_leads, q_term) =
        elected then q fs cq (subst (λ n. AllOf (λ v. CanVote n v.2) fs) (sym same_next) free)
          enough' in
      (
        candidate_asks now p cp,
        candidate_asks then q cq,
        votes_for_both (request_in (standing now p)) (request_in (standing then q)) fs
            (sym same_next) free,
        p_leads,
        q_leads,
        p_term ∙ sym same_next ∙ sym q_term,
      )
