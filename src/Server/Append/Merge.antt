-- ===== src/Server/Append/Merge.antt =====
-- The log after `delete_conflicting_and_append_new_entries` (src/server.rs), against the rule that
-- the Raft paper gives for it.
use mini_raft.Prelude.{
  ℕ, suc, ◌≤◌, ◌==◌, ◌≡◌, refl, ap, ◌∙◌, true, false, Bool-cases, inl, inr, some, List, [], ◌∷◌,
  ◌++◌, append_assoc, append-nil, length, get_elem?, take, drop, subst, insert_at_end, length-snoc,
  get_elem?-none, get_elem?-append_length, take-append_length, take-append-drop, length-take, arith,
  if◌then◌else◌,
}
use mini_raft.Protocol.{LogEntry}
use mini_raft.Server.Append.{check_entries, insert_all, merge_entries}

-- The entries carry the indices p, p + 1, and so on.
abbrev pub IsIndexedFrom : ℕ → List LogEntry → Type 0
IsIndexedFrom p [] = Unit {0}
IsIndexedFrom p (e ∷ es) = (e.index ≡ p) × IsIndexedFrom (suc p) es

-- The paper's rule, on the part of the log where the entries belong: keep what agrees, and from the
-- first entry of another term on put the new entries in place of the old ones.
unfoldable pub splice : List LogEntry → List LogEntry → List LogEntry
splice old [] = old
splice [] (e ∷ es) = e ∷ es
splice (x ∷ xs) (e ∷ es) = if x.term == e.term then x ∷ splice xs es else e ∷ es

pub check_entries_past :
    (p : ℕ) (es log fresh : List LogEntry)
    → IsIndexedFrom p es
    → length log ≤ p
    → check_entries es log fresh ≡ (log, fresh ++ es)
unfolding check_entries
check_entries_past p [] log fresh h le = rw append-nil
check_entries_past p (e ∷ es) log fresh h le = rw (get_elem?-none log e.index (omega arith)) (
    check_entries_past (suc p) es log (fresh ++ e ∷ []) h.1 (omega arith)
    ∙ ap (λ l. (log, l)) (append_assoc fresh (e ∷ []) es))

insert_all-append :
    (es log : List LogEntry) → IsIndexedFrom (length log) es → insert_all es log ≡ some (log ++ es)
unfolding insert_all
insert_all-append [] log h = rw append-nil
insert_all-append (e ∷ es) log h =
    rw (insert_all, insert_at_end log e.index e h.0)
      (insert_all-append es (log ++ e ∷ []) (rw length-snoc h.1)
        ∙ ap some (append_assoc log (e ∷ []) es))

merge_past :
    (es log : List LogEntry)
    → IsIndexedFrom (length log) es
    → merge_entries es log ≡ some (log ++ es)
unfolding merge_entries
merge_past es log h =
    rw (check_entries_past (length log) es log [] h (omega arith)) (insert_all-append es log h)

-- An entry that agrees with the log is passed over.
check_entries-keep :
    (e x : LogEntry) (es log fresh : List LogEntry)
    → get_elem? log e.index ≡ some x
    → (x.term == e.term) ≡ true
    → check_entries (e ∷ es) log fresh ≡ check_entries es log fresh
unfolding check_entries
check_entries-keep e x es log fresh found same = ground arith

-- One that does not takes the place of all the log from there.
check_entries-replace :
    (e x : LogEntry) (es log fresh : List LogEntry)
    → get_elem? log e.index ≡ some x
    → (x.term == e.term) ≡ false
    → check_entries (e ∷ es) log fresh ≡ check_entries es (take e.index log) (fresh ++ e ∷ [])
unfolding check_entries
check_entries-replace e x es log fresh found differ = ground arith

found_at :
    (before rest : List LogEntry) (x : LogEntry) (i : ℕ)
    → i ≡ length before
    → get_elem? (before ++ x ∷ rest) i ≡ some x
found_at before rest x i e = rw e (get_elem?-append_length before rest x)

merge_replace :
    (e x : LogEntry) (es before rest : List LogEntry)
    → IsIndexedFrom (length before) (e ∷ es)
    → (x.term == e.term) ≡ false
    → merge_entries (e ∷ es) (before ++ x ∷ rest) ≡ some (before ++ e ∷ es)
unfolding merge_entries
merge_replace e x es before rest h differ =
    ap (λ (p : List LogEntry × List LogEntry). insert_all p.1 p.0)
      (check_entries-replace e x es (before ++ x ∷ rest) [] (found_at before rest x e.index h.0)
          differ
        ∙ ap (λ (l : List LogEntry). check_entries es l (e ∷ []))
            (take_at before (x ∷ rest) e.index h.0)
        ∙ check_entries_past (suc (length before)) es before (e ∷ []) h.1 (omega arith))
    ∙ insert_all-append (e ∷ es) before h
  where
    take_at : (xs ys : List LogEntry) (i : ℕ) → i ≡ length xs → take i (xs ++ ys) ≡ xs
    take_at xs ys i p = rw p (take-append_length xs ys)

merge_keep :
    (e x : LogEntry) (es before rest : List LogEntry)
    → e.index ≡ length before
    → (x.term == e.term) ≡ true
    → merge_entries (e ∷ es) (before ++ x ∷ rest) ≡ merge_entries es (before ++ x ∷ rest)
unfolding merge_entries
merge_keep e x es before rest at same =
    ap (λ (p : List LogEntry × List LogEntry). insert_all p.1 p.0)
      (check_entries-keep e x es (before ++ x ∷ rest) [] (found_at before rest x e.index at) same)

merge_at :
    (before old es : List LogEntry)
    → IsIndexedFrom (length before) es
    → merge_entries es (before ++ old) ≡ some (before ++ splice old es)
unfolding splice
merge_at before old [] h = unfold merge_entries check_entries insert_all in refl
merge_at before [] (e ∷ es) h = rw append-nil (merge_past (e ∷ es) before h)
merge_at before (x ∷ xs) (e ∷ es) h = elim (Bool-cases (x.term == e.term)) [
  | inl same ↦ rw same (
      merge_keep e x es before xs h.0 same
      ∙ subst (λ l. merge_entries es l ≡ some (before ++ x ∷ splice xs es))
          (append_assoc before (x ∷ []) xs)
          (merge_at (before ++ x ∷ []) xs es (rw length-snoc h.1)
            ∙ ap some (append_assoc before (x ∷ []) (splice xs es))))
  | inr differ ↦ rw differ (merge_replace e x es before xs h differ)
]

-- For entries of consecutive indices that begin inside the log or right at its end, the two loops
-- do not panic and leave the log that the paper asks for: all before the first new index is kept,
-- and from there the old and the new entries are spliced.
pub merge_entries-eq-splice :
    (p : ℕ) (entries log : List LogEntry)
    → IsIndexedFrom p entries
    → p ≤ length log
    → merge_entries entries log ≡ some (take p log ++ splice (drop p log) entries)
merge_entries-eq-splice p entries log h le =
    subst (λ l. merge_entries entries l ≡ some (take p log ++ splice (drop p log) entries))
      (take-append-drop p log)
      (merge_at (take p log) (drop p log) entries
        (subst (λ k. IsIndexedFrom k entries) (omega (arith, length-take p log)) h))
