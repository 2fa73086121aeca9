-- ===== src/Server/Replicate/Quorum.antt =====
-- When the leader moves its commit index (`handle_append_entries_response`, src/server.rs).
use mini_raft.Prelude.{
  ℕ, zero, suc, ◌+◌, ◌*◌, ◌/◌, ◌-◌, ◌≤◌, ◌<◌, ℤ, pos, ◌≡◌, refl, ap, sym, subst, ◌∙◌, ◌⊎◌, inl, inr,
  dec_lt, ℕ_discrete, Bool, true, false, some, List, [], ◌∷◌, length, get_elem?, get_elem?-some,
  inc_i32, i32_size, span, count_up, range_inclusive, arith,
}
use mini_raft.Protocol.{LogEntry}
use mini_raft.Server.State.{Server}
use mini_raft.Server.Action.{Action, Outcome, ok, resume, or_panic, ◌>>=◌}
use mini_raft.Server.Apply.Replay.{upto, last_index_lem}
use mini_raft.Server.Vote.{last_log_index}
use mini_raft.Server.Replicate.{match_count, check_index, find_commit, update_commit}

-- Entry k can be committed: it is of the current term, and with the leader itself more than half of
-- the nodes have it.
pub record IsCommittable {S : Type 0} (s : Server S) (m : List ℤ) (k : ℕ) : Type 0 where
  pub entry : LogEntry
  pub found : get_elem? s.log k ≡ some entry
  pub current : entry.term ≡ s.current_term
  pub majority : s.config.total_nodes < 2 * (match_count (pos k) m + 1)

abbrev pub with_commit : {S : Type 0} → ℤ → Server S → Server S
with_commit z s = record s { inner = record s.inner { commit_index = z } }

module _ {S : Type 0} (m : List ℤ) (k : ℕ) (s : Server S) (rest : Action S Bool)
    (inside : k < length s.log) (nodes : 2 ≤ s.config.total_nodes) where
  -- A round either commits k, because it can be committed, or goes on, because it cannot.
  check_index_cases :
      (IsCommittable s m k × (check_index m (pos k) rest s ≡ (ok true, with_commit (pos k) s)))
      ⊎ (¬ IsCommittable s m k × (check_index m (pos k) rest s ≡ rest s))
  unfolding check_index
  check_index_cases =
      let (e, found) = get_elem?-some s.log k inside in
      let same_entry : (c : IsCommittable s m k) → e ≡ c.entry = λ c. cc (found, c.found) in
      elim (ℕ_discrete e.term s.current_term) [
        | no other ↦
            inr
              (λ c. other (ap (λ (x : LogEntry). x.term) (same_entry c) ∙ c.current), ground arith)
        | yes same ↦ elim (dec_lt (s.config.total_nodes / 2 - 1) (match_count (pos k) m)) [
          | yes many ↦ inl (
            record { entry = e; found = found; current = same; majority = omega arith },
            ground arith,
          )
          | no few ↦ inr (λ c. few (omega (arith, c.majority)), ground arith)
        ]
      ]

-- What a scan of the indices from k on, n of them, comes to: the first that can be committed is,
-- or there is none.
abbrev pub Scanned : {S : Type 0} → List ℤ → Server S → ℕ → ℕ → Outcome Bool × Server S → Type 0
Scanned m s k n result =
    ((j : ℕ) × (k ≤ j)
      × (j < k + n)
      × IsCommittable s m j
      × ((i : ℕ) → k ≤ i → i < j → ¬ IsCommittable s m i)
      × (result ≡ (ok true, with_commit (pos j) s)))
    ⊎ (((i : ℕ) → k ≤ i → i < k + n → ¬ IsCommittable s m i) × (result ≡ (ok false, s)))

none_from :
    (P : ℕ → Type 0) (k bound : ℕ)
    → ¬ P k
    → ((l : ℕ) → suc k ≤ l → l < bound → ¬ P l)
    → (i : ℕ) → k ≤ i
    → i < bound
    → ¬ P i
none_from P k bound at_k after i u v = elim (dec_lt k i) [
  | yes later ↦ after i later v
  | no here ↦ subst (λ j. ¬ P j) {x = k} {y = i} (omega arith) at_k
]

upto_filled : (n : ℕ) → 0 < n → upto n ≡ pos (n - 1)
upto_filled zero h = elim h [ ]
upto_filled (suc n) h = ap pos (omega arith)

pub inc_upto : (c : ℕ) → c < i32_size → inc_i32 (upto c) ≡ some (pos c)
inc_upto zero h = refl
inc_upto (suc c) h = ground arith

last_log_index_filled :
    {S : Type 0} (log : List LogEntry) (s : Server S)
    → 0 < length log
    → length s.log < i32_size
    → 0 < length s.log
    → last_log_index log s ≡ (ok (pos (length s.log - 1)), s)
unfolding last_log_index
last_log_index_filled [] s h small filled = elim h [ ]
last_log_index_filled (_ ∷ _) s h small filled =
    last_index_lem s small ∙ ap (λ z. (ok z, s)) (upto_filled (length s.log) filled)

module _ {S : Type 0} (m : List ℤ) (s : Server S) (nodes : 2 ≤ s.config.total_nodes) where
  find_commit-Scanned :
      (n k : ℕ) → k + n ≤ length s.log → Scanned m s k n (find_commit m (count_up (pos k) n) s)
  unfolding find_commit
  find_commit-Scanned zero k le = inr (λ i p q. absurd (omega arith), refl)
  find_commit-Scanned (suc n) k le =
      scan (check_index_cases m k s (find_commit m (count_up (pos (suc k)) n)) (omega arith) nodes)
        (find_commit-Scanned n (suc k) (omega arith))
    where
      scan :
          (IsCommittable s m k
              × (check_index m (pos k) (find_commit m (count_up (pos (suc k)) n)) s
                  ≡ (ok true, with_commit (pos k) s)))
            ⊎ (¬ IsCommittable s m k
                × (check_index m (pos k) (find_commit m (count_up (pos (suc k)) n)) s
                    ≡ find_commit m (count_up (pos (suc k)) n) s))
          → Scanned m s (suc k) n (find_commit m (count_up (pos (suc k)) n) s)
          → Scanned m s k
              (suc n)
              (check_index m (pos k) (find_commit m (count_up (pos (suc k)) n)) s)
      scan (inl (c, e)) rest =
          inl (k, omega arith, omega arith, c, (λ i p q. absurd (omega arith)), e)
      scan (inr (no_k, e)) (inl (j, p, q, c, first, f)) =
          inl (j, omega arith, omega arith, c, none_from (IsCommittable s m) k j no_k first, e ∙ f)
      scan (inr (no_k, e)) (inr (none_after, f)) = inr (
        none_from (IsCommittable s m) k (k + suc n) no_k (λ l u v. none_after l u (omega arith)),
        e ∙ f,
      )

  pub update_commit-Scanned :
      (c : ℕ)
      → s.commit_index ≡ upto c
      → c ≤ length s.log
      → 0 < length s.log
      → length s.log < i32_size
      → Scanned m s c (length s.log - c) (update_commit m s)
  unfolding update_commit
  update_commit-Scanned c at le filled small =
      subst (Scanned m s c (length s.log - c)) (sym reads)
        (find_commit-Scanned (length s.log - c) c (omega arith))
    where
      last_is : last_log_index s.log s ≡ (ok (pos (length s.log - 1)), s)
      last_is = last_log_index_filled s.log s filled small filled

      reads : update_commit m s ≡ find_commit m (count_up (pos c) (length s.log - c)) s
      reads =
          ap
            (λ (q : Outcome ℤ × Server S).
              resume q.0
                (λ last. or_panic (inc_i32 s.commit_index) >>= λ start.
                  find_commit m (range_inclusive start last))
                q.1)
            last_is
          ∙ ap
              (λ o.
                (or_panic o >>= λ start.
                find_commit m (range_inclusive start (pos (length s.log - 1))))
                  s)
              (ap inc_i32 at ∙ inc_upto c (omega arith))
          ∙ ap (λ n. find_commit m (count_up (pos c) n) s)
              {x = span (pos c) (pos (length s.log - 1))} {y = length s.log - c} (omega arith)
