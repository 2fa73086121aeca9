-- ===== src/Server/Append/Stored.antt =====
-- What a follower's log holds after an append (src/server.rs): the new entries, no more than them
-- where nothing conflicts, and consecutive indices; and the panic on entries past the end.
use mini_raft.Prelude.{
  ℕ, zero, suc, ◌+◌, ◌≤◌, ◌<◌, ◌==◌, ==_refl, ◌≡◌, refl, sym, ap, ◌∙◌, subst, Bool-cases, inl, inr,
  none, some, List, [], ◌∷◌, ◌++◌, length, get_elem?, take, drop, insert_at-none, take_at, drop_at,
  get_elem?-append_right, length-take_le, length-append, arith,
}
use mathlib.Core.Path.{ap₂}
use native.Mathlib.Nat.{suc-add, add-suc, add-zero, zero-add}
use mini_raft.Protocol.{LogEntry}
use mini_raft.Server.Append.{insert_all, merge_entries}
use mini_raft.Server.Append.Merge.{
  IsIndexedFrom, splice, check_entries_past, merge_entries-eq-splice,
}

splice_self : (l : List LogEntry) → splice l l ≡ l
unfolding splice
splice_self [] = refl
splice_self (x ∷ xs) = rw (==_refl x.term) (ap (λ l. x ∷ l) (splice_self xs))

splice_idem : (old es : List LogEntry) → splice (splice old es) es ≡ splice old es
unfolding splice
splice_idem old [] = refl
splice_idem [] (e ∷ es) = splice_self (e ∷ es)
splice_idem (x ∷ xs) (e ∷ es) = elim (Bool-cases (x.term == e.term)) [
  | inl same ↦ rw same (rw same (ap (λ l. x ∷ l) (splice_idem xs es)))
  | inr differ ↦ rw differ (splice_self (e ∷ es))
]

splice-stored :
    (old es : List LogEntry) (k : ℕ) {e : LogEntry}
    → get_elem? es k ≡ some e
    → (x : LogEntry) × (get_elem? (splice old es) k ≡ some x) × (x.term ≡ e.term)
unfolding splice
splice-stored old [] k h = cc
splice-stored [] (e ∷ es) k {e = e'} h = (e', h, refl)
splice-stored (x ∷ xs) (e ∷ es) zero h = elim (Bool-cases (x.term == e.term)) [
  | inl same ↦ rw same (x, refl, ground arith)
  | inr differ ↦ rw differ (e, refl, ground arith)
]
splice-stored (x ∷ xs) (e ∷ es) (suc k) {e = e'} h = elim (Bool-cases (x.term == e.term)) [
  | inl same ↦ rw same (splice-stored xs es k h)
  | inr differ ↦ rw differ (e', h, refl)
]

splice-IsIndexedFrom :
    (p : ℕ) (old es : List LogEntry)
    → IsIndexedFrom p old
    → IsIndexedFrom p es
    → IsIndexedFrom p (splice old es)
unfolding splice
splice-IsIndexedFrom p old [] ho he = ho
splice-IsIndexedFrom p [] (e ∷ es) ho he = he
splice-IsIndexedFrom p (x ∷ xs) (e ∷ es) ho he = elim (Bool-cases (x.term == e.term)) [
  | inl same ↦ rw same (ho.0, splice-IsIndexedFrom (suc p) xs es ho.1 he.1)
  | inr differ ↦ rw differ he
]

-- Indices that run through a prefix and go on after it run through the whole.
IsIndexedFrom-regroup :
    (q p : ℕ) (log tail : List LogEntry)
    → p ≤ length log
    → IsIndexedFrom q log
    → IsIndexedFrom (q + p) tail
    → IsIndexedFrom q (take p log ++ tail)
IsIndexedFrom-regroup q zero log tail le h t = rw add-zero at t
IsIndexedFrom-regroup q (suc p) [] tail le h t = elim le [ ]
IsIndexedFrom-regroup q (suc p) (x ∷ xs) tail le h t =
    (h.0, IsIndexedFrom-regroup (suc q) p xs tail (omega arith) h.1 (rw (suc-add, ← add-suc) t))

IsIndexedFrom-drop :
    (q p : ℕ) (log : List LogEntry) → IsIndexedFrom q log → IsIndexedFrom (q + p) (drop p log)
IsIndexedFrom-drop q zero log h = rw add-zero h
IsIndexedFrom-drop q (suc p) [] h = tt
IsIndexedFrom-drop q (suc p) (x ∷ xs) h =
    rw (add-suc, ← suc-add) (IsIndexedFrom-drop (suc q) p xs h.1)

module _ (p : ℕ) (entries log : List LogEntry) (indexed : IsIndexedFrom p entries)
    (inside : p ≤ length log) {log' : List LogEntry}
    (merged : merge_entries entries log ≡ some log') where
  log'-eq : log' ≡ take p log ++ splice (drop p log) entries
  log'-eq = cc (merge_entries-eq-splice p entries log indexed inside)

  at_p : p ≡ length (take p log)
  at_p = sym (length-take_le p log inside)

  -- After an append every new entry k stands in the log at its index p + k, as far as terms tell
  -- entries apart.
  pub merge_entries_stored :
      (k : ℕ) {e : LogEntry}
      → get_elem? entries k ≡ some e
      → (x : LogEntry) × (get_elem? log' (p + k) ≡ some x) × (x.term ≡ e.term)
  merge_entries_stored k h =
      let (x, found, same) = splice-stored (drop p log) entries k h in
      (
        x,
        ap (λ l. get_elem? l (p + k)) log'-eq
            ∙ ap (λ q. get_elem? (take p log ++ splice (drop p log) entries) (q + k)) at_p
            ∙ get_elem?-append_right (take p log) (splice (drop p log) entries) k
            ∙ found,
        same,
      )

  -- An append that is delivered a second time changes nothing more.
  pub merge_entries_idem : merge_entries entries log' ≡ some log'
  merge_entries_idem =
      subst (λ l. merge_entries entries l ≡ some l) (sym log'-eq)
        (merge_entries-eq-splice p entries _ indexed
            (omega (arith, length-append (take p log) (splice (drop p log) entries), at_p))
          ∙ ap some (
              ap₂ ◌++◌ (take_at _ _ p at_p) (
                ap (λ l. splice l entries) (drop_at _ _ p at_p)
                ∙ splice_idem (drop p log) entries)))

  -- A log whose entries carry their own positions as indices still does after an append.
  pub merge_entries-IsIndexedFrom : IsIndexedFrom 0 log → IsIndexedFrom 0 log'
  merge_entries-IsIndexedFrom h = subst (IsIndexedFrom 0) (sym log'-eq) (
      IsIndexedFrom-regroup 0 p log _ inside h (
        splice-IsIndexedFrom (0 + p) (drop p log) entries (IsIndexedFrom-drop 0 p log h)
          (rw zero-add indexed)))

-- Entries that begin past the end of the log make `Vec::insert` panic.
pub merge_entries_gap :
    (p : ℕ) (e : LogEntry) (es log : List LogEntry)
    → IsIndexedFrom p (e ∷ es)
    → length log < p
    → merge_entries (e ∷ es) log ≡ none
unfolding merge_entries insert_all
merge_entries_gap p e es log h past =
    ap (λ (q : List LogEntry × List LogEntry). insert_all q.1 q.0)
      (check_entries_past p (e ∷ es) log [] h (omega arith))
    ∙ rw (insert_all, insert_at-none log e.index e (omega arith)) refl
