-- ===== src/Server/Append/Fits.antt =====
-- When an append fits the log of a node (`reply_false_if_prev_log_does_not_match`, src/server.rs).
use mini_raft.Prelude.{
  ℕ, ◌≤◌, ◌<◌, ◌≡◌, ◌≢◌, refl, ap, ◌∙◌, ◌⊎◌, inl, inr, true, false, none, some, List, [], ◌∷◌,
  length, get_elem?, get_elem?-none, ℤ, pos, negsuc, neg_part, as_usize, Option-cases, eq→==,
  ne→not-==, i32_size, arith,
}
use mini_raft.Protocol.{LogEntry, AppendEntries}
use mini_raft.Server.Append.{prev_log_matches}

-- There is an entry of that term at that index.
abbrev pub Holds : ℤ → ℕ → List LogEntry → Type 0
Holds (pos k) term log = (e : LogEntry) × (get_elem? log k ≡ some e) × (e.term ≡ term)
Holds (negsuc _) term log = ⊥

-- A log that is not empty, and has no such entry.
abbrev pub Lacks : ℤ → ℕ → List LogEntry → Type 0
Lacks prev term log =
    (log ≢ []) × (length log < i32_size) × (neg_part prev ≤ i32_size) × ¬ Holds prev term log

Holds-match :
    (msg : AppendEntries) (prev : ℤ) (log : List LogEntry)
    → msg.prev_log_index ≡ prev
    → Holds prev msg.prev_log_term log
    → prev_log_matches msg log ≡ true
unfolding prev_log_matches
Holds-match msg (pos k) log at (e, found, same) =
    rw (at, prev_log_matches, found, eq→== e.term msg.prev_log_term same) refl
Holds-match msg (negsuc n) log at h = absurd h

pub fits_match :
    (msg : AppendEntries) (log : List LogEntry)
    → (log ≡ []) ⊎ Holds msg.prev_log_index msg.prev_log_term log
    → prev_log_matches msg log ≡ true
unfolding prev_log_matches
fits_match msg log (inl empty) = rw empty refl
fits_match msg log (inr holds) = Holds-match msg msg.prev_log_index log refl holds

other_match :
    (msg : AppendEntries) (log : List LogEntry)
    → log ≢ []
    → get_elem? log (as_usize msg.prev_log_index) ≡ none
    → prev_log_matches msg log ≡ false
unfolding prev_log_matches
other_match msg [] filled h = absurd (filled refl)
other_match msg (e ∷ log) filled h = rw (prev_log_matches, h) refl

Lacks-mismatch_at :
    (msg : AppendEntries) (prev : ℤ) (log : List LogEntry)
    → msg.prev_log_index ≡ prev
    → Lacks prev msg.prev_log_term log
    → prev_log_matches msg log ≡ false
unfolding prev_log_matches
Lacks-mismatch_at msg (pos k) log at (filled, small, low, other) =
    elim (Option-cases (get_elem? log k)) [
      | inl n ↦ other_match msg log filled (ap (λ z. get_elem? log (as_usize z)) at ∙ n)
      | inr (e, found) ↦
          rw
            (
              at,
              prev_log_matches,
              found,
              ne→not-== e.term msg.prev_log_term (λ same. other (e, found, same)),
            )
            refl
    ]
Lacks-mismatch_at msg (negsuc n) log at (filled, small, low, other) = other_match msg log filled (
    ap (λ z. get_elem? log (as_usize z)) at
    ∙ get_elem?-none log (as_usize (negsuc n)) (omega arith))

pub Lacks-mismatch :
    (msg : AppendEntries) (log : List LogEntry)
    → Lacks msg.prev_log_index msg.prev_log_term log
    → prev_log_matches msg log ≡ false
Lacks-mismatch msg log h = Lacks-mismatch_at msg msg.prev_log_index log refl h
