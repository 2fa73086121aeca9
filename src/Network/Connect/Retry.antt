-- ===== src/Network/Connect/Retry.antt =====
-- How often a peer is dialled (`connect_with_retry`, src/network.rs).
use mini_raft.Prelude.{
  ℕ, zero, suc, ◌+◌, ◌<◌, ◌≤◌, ◌≡◌, ◌⊎◌, inl, inr, refl, subst, Option, none, some, Option-cases,
  ℕ_discrete, arith,
}
use mini_raft.Network.Connect.{Conn, attempts, connect_with_retry}

-- The result is that of the first attempt from k on, n of them, that connects, if one does.
abbrev pub IsFirst : (ℕ → Option Conn) → ℕ → ℕ → Option Conn → Type 0
IsFirst connect k n result =
    ((j : ℕ) × (k ≤ j)
      × (j < k + n)
      × ((i : ℕ) → k ≤ i → i < j → connect i ≡ none)
      × (c : Conn) × (connect j ≡ some c)
      × (result ≡ some c))
    ⊎ (((i : ℕ) → k ≤ i → i < k + n → connect i ≡ none) × (result ≡ none))

none_before :
    (connect : ℕ → Option Conn) (k j : ℕ)
    → connect k ≡ none
    → ((i : ℕ) → k + 1 ≤ i → i < j → connect i ≡ none)
    → (i : ℕ) → k ≤ i
    → i < j
    → connect i ≡ none
none_before connect k j e h i le lt = elim (ℕ_discrete k i) [
  | yes same ↦ subst (λ q. connect q ≡ none) same e
  | no other ↦ h i (omega arith) lt
]

widen :
    (connect : ℕ → Option Conn) (k n : ℕ) (result : Option Conn)
    → connect k ≡ none
    → IsFirst connect (k + 1) n result
    → IsFirst connect k (suc n) result
widen connect k n result e (inl (j, le, lt, before, c, found, r)) =
    inl (j, omega arith, omega arith, none_before connect k j e before, c, found, r)
widen connect k n result e (inr (all, r)) =
    inr (λ i le lt. none_before connect k (k + suc n) e (λ i a b. all i a (omega arith)) i le lt, r)

attempts-IsFirst :
    (connect : ℕ → Option Conn) (k n : ℕ) → IsFirst connect k n (attempts connect k n)
unfolding attempts
attempts-IsFirst connect k zero = inr (λ i a b. absurd (omega arith), refl)
attempts-IsFirst connect k (suc n) = elim (Option-cases (connect k)) [
  | inl e ↦
      rw (attempts, e)
        (widen connect k n (attempts connect (k + 1) n) e (attempts-IsFirst connect (k + 1) n))
  | inr (c, e) ↦
      inl (k, omega arith, omega arith, λ i a b. absurd (omega arith), c, e, rw (attempts, e) refl)
]

-- Dialling a peer yields the connection of the first of six attempts that succeeds, and nothing if
-- all of them fail.
pub connect_with_retry-IsFirst :
    (connect : ℕ → Option Conn) → IsFirst connect 1 6 (connect_with_retry connect)
unfolding connect_with_retry
connect_with_retry-IsFirst connect = attempts-IsFirst connect 1 6
