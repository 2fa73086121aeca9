-- ===== src/Server/Append/Piece.antt =====
-- A piece of one log that is merged into another one that is a front of it
-- (`delete_conflicting_and_append_new_entries`, src/server.rs).
use mini_raft.Prelude.{
  ℕ, suc, ◌+◌, ◌≤◌, eq→==, ◌≡◌, refl, sym, ap, ◌∙◌, subst, none, some, List, [], ◌∷◌, ◌++◌,
  append_assoc, append-nil, length, take, drop, drop_at, drop-append_le, take-append-drop, dec_lt,
  arith,
}
use native.Mathlib.Nat.{suc-add, add-suc, add-zero}
use mini_raft.Protocol.{LogEntry}
use mini_raft.Server.Append.{check_entries, insert_all, merge_entries}
use mini_raft.Server.Append.Merge.{IsIndexedFrom, splice, merge_entries-eq-splice}
use mini_raft.Server.Append.Stored.{merge_entries_gap}

-- The first log is the front of the second one.
abbrev pub Extends : List LogEntry → List LogEntry → Type 0
Extends log longer = (more : List LogEntry) × (longer ≡ log ++ more)

-- Entries that follow each other somewhere in a log.
abbrev pub IsPiece : List LogEntry → List LogEntry → Type 0
IsPiece whole es =
    (front : List LogEntry) × (back : List LogEntry) × (whole ≡ front ++ (es ++ back))

pub IsIndexedFrom-back :
    (q : ℕ) (front es : List LogEntry)
    → IsIndexedFrom q (front ++ es)
    → IsIndexedFrom (q + length front) es
IsIndexedFrom-back q [] es h = rw add-zero h
IsIndexedFrom-back q (x ∷ xs) es h = rw (add-suc, ← suc-add) (IsIndexedFrom-back (suc q) xs es h.1)

pub IsIndexedFrom-front :
    (q : ℕ) (es back : List LogEntry) → IsIndexedFrom q (es ++ back) → IsIndexedFrom q es
IsIndexedFrom-front q [] back h = tt
IsIndexedFrom-front q (e ∷ es) back h = (h.0, IsIndexedFrom-front (suc q) es back h.1)

-- Two fronts of one list: the spliced one is the longer of the two.
splice_fronts :
    (old es more back : List LogEntry)
    → old ++ more ≡ es ++ back
    → (new : List LogEntry) × (rest : List LogEntry) × (splice old es ≡ old ++ new)
      × (more ≡ new ++ rest)
unfolding splice
splice_fronts old [] more back e = ([], more, sym (append-nil old), refl)
splice_fronts [] (e ∷ es) more back h = (e ∷ es, back, refl, h)
splice_fronts (x ∷ xs) (e ∷ es) more back h =
    let (new, rest, a, b) = splice_fronts xs es more back (cc h) in
    let equal : x ≡ e = cc h in
    let same : x.term ≡ e.term = ap (λ (y : LogEntry). y.term) equal in
    (new, rest, rw (eq→== x.term e.term same) (ap (λ l. x ∷ l) a), b)

module _ (whole es log longer : List LogEntry) (indexed : IsIndexedFrom 0 whole)
    (front_of : Extends log whole) where
  -- Merged behind the front at which it stands in the whole.
  merged_inside :
      (at : List LogEntry) (back : List LogEntry)
      → whole ≡ at ++ (es ++ back)
      → length at ≤ length log
      → merge_entries es log ≡ some longer
      → Extends log longer × Extends longer whole
  merged_inside at back e le merged =
      let (more, f) = front_of in
      let p = length at in
      let from : IsIndexedFrom p es = IsIndexedFrom-front p es back (
        subst (λ q. IsIndexedFrom q (es ++ back)) {x = 0 + length at} {y = length at} (omega arith)
          (IsIndexedFrom-back 0 at (es ++ back) (subst (IsIndexedFrom 0) e indexed))) in
      let tails : drop p log ++ more ≡ es ++ back =
        sym (drop-append_le p log more le)
        ∙ ap (drop p) (sym f ∙ e)
        ∙ drop_at at (es ++ back) p refl in
      let (new, rest, a, b) = splice_fronts (drop p log) es more back tails in
      let got : longer ≡ log ++ new =
        cc (merged, merge_entries-eq-splice p es log from le)
        ∙ ap (λ l. take p log ++ l) a
        ∙ sym (append_assoc (take p log) (drop p log) new)
        ∙ ap (λ l. l ++ new) (take-append-drop p log) in
      (
        (new, got),
        (
          rest,
          f
              ∙ ap (λ l. log ++ l) b
              ∙ sym (append_assoc log new rest)
              ∙ ap (λ l. l ++ rest) (sym got),
        ),
      )

none-some : {xs : List LogEntry} → none ≡ some xs → ⊥
none-some e = cc e

merge_nothing : (log : List LogEntry) → merge_entries [] log ≡ some log
unfolding merge_entries check_entries insert_all
merge_nothing log = refl

-- A piece of a log that is merged into a front of that log: the front gets longer, or stays, and is
-- still a front. Where the piece begins past the end, there is no result.
pub merge_entries-Extends :
    (whole es log longer : List LogEntry)
    → IsIndexedFrom 0 whole
    → IsPiece whole es
    → Extends log whole
    → merge_entries es log ≡ some longer
    → Extends log longer × Extends longer whole
merge_entries-Extends whole [] log longer indexed piece front_of merged =
    let same : longer ≡ log = cc (merged, merge_nothing log) in
    (([], same ∙ sym (append-nil log)), subst (λ l. Extends l whole) (sym same) front_of)
merge_entries-Extends whole (e ∷ es) log longer indexed (at, back, split) front_of merged =
    elim (dec_lt (length log) (length at)) [
      | no inside ↦
          merged_inside whole (e ∷ es) log longer indexed front_of at back split (omega arith)
            merged
      | yes past ↦
          let from =
            IsIndexedFrom-front (0 + length at) (e ∷ es) back (
              IsIndexedFrom-back 0 at ((e ∷ es) ++ back) (subst (IsIndexedFrom 0) split indexed)) in
          absurd (
            none-some
              (sym (merge_entries_gap (0 + length at) e es log from (omega arith)) ∙ merged))
    ]
