-- ===== src/Server/Vote/Grant.antt =====
-- When a node grants its vote, and what it remembers of it (`handle_request_vote_rpc`,
-- src/server.rs).
use mini_raft.Prelude.{
  Option-cases, ap, sym, subst, ◌∙◌, ℕ, suc, ◌≤◌, ◌≤ℤ◌, as_i32, ◌≡◌, refl, inl, inr, true, false,
  Option, none, some, List, [], ◌∷◌, ◌++◌, last?, arith,
}
use mini_raft.Protocol.{NodeId, LogEntry, RequestVote, Outgoing}
use mini_raft.Server.State.{Server}
use mini_raft.Server.Action.{Outcome, ok, resume, ◌>>◌, send, send_to}
use mini_raft.Server.Vote.{vote_reply, is_denied, handle_request_vote_rpc}

-- The candidate's log, as the voter sees it: it ends no earlier, and in the same term.
abbrev pub EndsLike : RequestVote → LogEntry → Type 0
EndsLike msg e = (as_i32 e.index ≤ℤ msg.last_log_index) × (msg.last_log_term ≡ e.term)

-- When the vote is granted, given the last entry of the voter's log if there is one.
abbrev pub Grants : ℕ → Option NodeId → Option LogEntry → RequestVote → Type 0
Grants term none last msg = term ≤ msg.term
Grants term (some v) none msg = ⊥
Grants term (some v) (some e) msg = (term ≤ msg.term) × (v ≡ msg.candidate_id) × EndsLike msg e

-- The server once a message has gone out and there is room for r more.
abbrev pub delivered : {S : Type 0} → Outgoing → ℕ → Server S → Server S
delivered o r s = record s { to_network = record { sent = s.to_network.sent ++ o ∷ []; room = r } }

pub send_room :
    {S : Type 0} (o : Outgoing) (s : Server S) (r : ℕ)
    → s.to_network.room ≡ suc r
    → send o s ≡ (ok tt, delivered o r s)
unfolding send send_to
send_room o s r e = ap (λ n. send_to n o s) e

Grants-term :
    (term : ℕ) (v : Option NodeId) (last : Option LogEntry) (msg : RequestVote)
    → Grants term v last msg
    → term ≤ msg.term
Grants-term term none last msg g = g
Grants-term term (some v) none msg g = absurd g
Grants-term term (some v) (some e) msg g = g.0

is_denied-Grants :
    (term : ℕ) (v : Option NodeId) (msg : RequestVote) (log : List LogEntry)
    → Grants term v (last? log) msg
    → is_denied v msg log ≡ some false
unfolding is_denied
is_denied-Grants term none msg log g = refl
is_denied-Grants term (some v) msg log g = elim (Option-cases (last? log)) [
  | inl e ↦ ground arith
  | inr (x, e) ↦ ground arith
]

module _ {S : Type 0} (msg : RequestVote) (s : Server S) (r : ℕ)
    (room : s.to_network.room ≡ suc r) where
  pub handle_request_vote_rpc-Grants :
      Grants s.current_term s.voted_for (last? s.log) msg
      → handle_request_vote_rpc msg s
        ≡ (ok tt, delivered (vote_reply msg.candidate_id s.current_term true) r s)
  unfolding handle_request_vote_rpc
  handle_request_vote_rpc-Grants g = ground (
    arith,
    is_denied-Grants s.current_term s.voted_for msg s.log g,
    Grants-term s.current_term s.voted_for (last? s.log) msg g,
    send_room (vote_reply msg.candidate_id s.current_term true) s r room,
  )

-- A node that never stood for election grants its vote to each of two candidates of the same term,
-- however different they are: nothing keeps it to one vote a term.
pub votes_twice :
    {S : Type 0} (a b : RequestVote) (s : Server S) (r : ℕ)
    → s.to_network.room ≡ suc (suc r)
    → s.voted_for ≡ none
    → s.current_term ≤ a.term
    → a.term ≡ b.term
    → (handle_request_vote_rpc a >> handle_request_vote_rpc b) s ≡ (
      ok tt,
      delivered
          (vote_reply b.candidate_id s.current_term true)
          r
          (delivered (vote_reply a.candidate_id s.current_term true) (suc r) s),
    )
votes_twice {S} a b s r room free le same =
    ap (λ (q : Outcome (Unit {0}) × Server S). resume q.0 (λ _ t. handle_request_vote_rpc b t) q.1)
      (handle_request_vote_rpc-Grants a s (suc r) room (grants a le))
    ∙ handle_request_vote_rpc-Grants b _ r refl (grants b (omega arith))
  where
    grants :
        (msg : RequestVote)
        → s.current_term ≤ msg.term
        → Grants s.current_term s.voted_for (last? s.log) msg
    grants msg h = subst (λ v. Grants s.current_term v (last? s.log) msg) (sym free) h
