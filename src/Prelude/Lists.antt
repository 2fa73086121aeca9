-- ===== src/Prelude/Lists.antt =====
-- Lists measured and indexed by the native numbers, as `Vec` is in the source.
use Prim.Native.Nat.{ℕ, zero, suc, ◌+◌, ◌≤◌, ◌<◌, min}
use mathlib.Core.Path.{◌≡◌, refl, ap}
use mathlib.Core.Logic.{inl, inr}
use mathlib.Core.List.{List, [], ◌∷◌, ◌++◌}
use mathlib.Core.Option
use mathlib.Core.Option.{Option, none, some}
use native.Mathlib.Omega.{arith}
use native.Mathlib.Nat.{suc-add}
use mini_raft.Prelude.Tests.{Option-cases}

module _ {ℓ} {A : Type ℓ} where
  abbrev pub length : List A → ℕ
  length [] = 0
  length (x ∷ xs) = suc (length xs)

  abbrev pub get_elem? : List A → ℕ → Option A
  get_elem? [] i = none
  get_elem? (x ∷ xs) zero = some x
  get_elem? (x ∷ xs) (suc i) = get_elem? xs i

  abbrev pub take : ℕ → List A → List A
  take zero xs = []
  take (suc n) [] = []
  take (suc n) (x ∷ xs) = x ∷ take n xs

  abbrev pub drop : ℕ → List A → List A
  drop zero xs = xs
  drop (suc n) [] = []
  drop (suc n) (x ∷ xs) = drop n xs

  abbrev pub replicate : ℕ → A → List A
  replicate zero a = []
  replicate (suc n) a = a ∷ replicate n a

  -- `Vec::insert`: `none` is its panic on an index past the end.
  abbrev pub insert_at : ℕ → A → List A → Option (List A)
  insert_at zero v xs = some (v ∷ xs)
  insert_at (suc i) v [] = none
  insert_at (suc i) v (x ∷ xs) = Option.map (λ ys. x ∷ ys) (insert_at i v xs)

  -- `v[i] = x`: `none` is its panic on an index past the end.
  abbrev pub write : List A → ℕ → A → Option (List A)
  write [] i v = none
  write (x ∷ xs) zero v = some (v ∷ xs)
  write (x ∷ xs) (suc i) v = Option.map (λ ys. x ∷ ys) (write xs i v)

  -- `v[i..]`: `none` is its panic on a start past the end.
  abbrev pub slice_from : ℕ → List A → Option (List A)
  slice_from zero xs = some xs
  slice_from (suc i) [] = none
  slice_from (suc i) (x ∷ xs) = slice_from i xs

  -- The last element, if there is one.
  abbrev pub last? : List A → Option A
  last? [] = none
  last? (x ∷ []) = some x
  last? (x ∷ y ∷ xs) = last? (y ∷ xs)

module _ {ℓ} {A : Type ℓ} where
  pub length-append : (xs ys : List A) → length (xs ++ ys) ≡ length xs + length ys
  length-append [] ys = omega arith
  length-append (x ∷ xs) ys = omega (arith, length-append xs ys)

  pub length-replicate : (n : ℕ) (a : A) → length (replicate n a) ≡ n
  length-replicate zero a = refl
  length-replicate (suc n) a = ap suc (length-replicate n a)

  pub length-take : (n : ℕ) (xs : List A) → length (take n xs) ≡ min n (length xs)
  length-take zero xs = omega arith
  length-take (suc n) [] = omega arith
  length-take (suc n) (x ∷ xs) = omega (arith, length-take n xs)

  pub take-append-drop : (n : ℕ) (xs : List A) → take n xs ++ drop n xs ≡ xs
  take-append-drop zero xs = refl
  take-append-drop (suc n) [] = refl
  take-append-drop (suc n) (x ∷ xs) = rw (take-append-drop n xs)

  pub get_elem?-some : (xs : List A) (i : ℕ) → i < length xs → (a : A) × (get_elem? xs i ≡ some a)
  get_elem?-some [] i h = elim h [ ]
  get_elem?-some (x ∷ xs) zero h = (x, refl)
  get_elem?-some (x ∷ xs) (suc i) h = get_elem?-some xs i (omega arith)

  pub get_elem?-none : (xs : List A) (i : ℕ) → length xs ≤ i → get_elem? xs i ≡ none
  get_elem?-none [] i h = refl
  get_elem?-none (x ∷ xs) zero h = absurd (omega arith)
  get_elem?-none (x ∷ xs) (suc i) h = get_elem?-none xs i (omega arith)

  pub get_elem?-lt : (xs : List A) (i : ℕ) {a : A} → get_elem? xs i ≡ some a → i < length xs
  get_elem?-lt [] i e = cc
  get_elem?-lt (x ∷ xs) zero e = omega arith
  get_elem?-lt (x ∷ xs) (suc i) e = omega (arith, get_elem?-lt xs i e)

  pub get_elem?-append_left :
      (xs ys : List A) (i : ℕ) → i < length xs → get_elem? (xs ++ ys) i ≡ get_elem? xs i
  get_elem?-append_left [] ys i h = elim h [ ]
  get_elem?-append_left (x ∷ xs) ys zero h = refl
  get_elem?-append_left (x ∷ xs) ys (suc i) h = get_elem?-append_left xs ys i (omega arith)

  pub get_elem?-append_length :
      (xs ys : List A) (y : A) → get_elem? (xs ++ y ∷ ys) (length xs) ≡ some y
  get_elem?-append_length [] ys y = refl
  get_elem?-append_length (x ∷ xs) ys y = get_elem?-append_length xs ys y

  pub insert_at-length : (xs : List A) (v : A) → insert_at (length xs) v xs ≡ some (xs ++ v ∷ [])
  insert_at-length [] v = refl
  insert_at-length (x ∷ xs) v = rw (insert_at-length xs v)

  pub insert_at-none : (xs : List A) (i : ℕ) (v : A) → length xs < i → insert_at i v xs ≡ none
  insert_at-none xs zero v h = absurd (omega arith)
  insert_at-none [] (suc i) v h = refl
  insert_at-none (x ∷ xs) (suc i) v h = rw (insert_at-none xs i v (omega arith))

  pub write-set :
      (xs : List A) (i : ℕ) (v : A) → i < length xs → (ys : List A) × (write xs i v ≡ some ys)
  write-set [] i v h = elim h [ ]
  write-set (x ∷ xs) zero v h = (v ∷ xs, refl)
  write-set (x ∷ xs) (suc i) v h = let (ys, e) = write-set xs i v (omega arith) in (x ∷ ys, rw e)

  pub length-write :
      (xs : List A) (i : ℕ) (v : A) {ys : List A} → write xs i v ≡ some ys → length ys ≡ length xs
  length-write [] i v e = cc
  length-write (x ∷ xs) zero v e = ground arith
  length-write (x ∷ xs) (suc i) v e = elim (Option-cases (write xs i v)) [
    | inl n ↦ ground arith
    | inr (zs, h) ↦ ground (arith, length-write xs i v h)
  ]

  pub get_elem?-write_self :
      (xs : List A) (i : ℕ) (v : A) {ys : List A} → write xs i v ≡ some ys → get_elem? ys i ≡ some v
  get_elem?-write_self [] i v e = cc
  get_elem?-write_self (x ∷ xs) zero v e = ground arith
  get_elem?-write_self (x ∷ xs) (suc i) v e = elim (Option-cases (write xs i v)) [
    | inl n ↦ ground arith
    | inr (zs, h) ↦ ground (arith, get_elem?-write_self xs i v h)
  ]

  pub take-append_length : (xs ys : List A) → take (length xs) (xs ++ ys) ≡ xs
  take-append_length [] ys = refl
  take-append_length (x ∷ xs) ys = rw (take-append_length xs ys)

  pub drop-append_length : (xs ys : List A) → drop (length xs) (xs ++ ys) ≡ ys
  drop-append_length [] ys = refl
  drop-append_length (x ∷ xs) ys = drop-append_length xs ys

  pub length-snoc : (xs : List A) (x : A) → length (xs ++ x ∷ []) ≡ suc (length xs)
  length-snoc xs x = omega (arith, length-append xs (x ∷ []))

  pub insert_at_end :
      (xs : List A) (i : ℕ) (v : A) → i ≡ length xs → insert_at i v xs ≡ some (xs ++ v ∷ [])
  insert_at_end xs i v e = rw e (insert_at-length xs v)

  pub get_elem?-drop : (p k : ℕ) (xs : List A) → get_elem? (drop p xs) k ≡ get_elem? xs (p + k)
  get_elem?-drop zero k xs = ap (get_elem? xs) (omega arith)
  get_elem?-drop (suc p) k [] = refl
  get_elem?-drop (suc p) k (x ∷ xs) = rw suc-add (get_elem?-drop p k xs)

  pub get_elem?-append_right :
      (xs ys : List A) (k : ℕ) → get_elem? (xs ++ ys) (length xs + k) ≡ get_elem? ys k
  get_elem?-append_right [] ys k = ap (get_elem? ys) (omega arith)
  get_elem?-append_right (x ∷ xs) ys k = rw suc-add (get_elem?-append_right xs ys k)

  pub length-take_le : (n : ℕ) (xs : List A) → n ≤ length xs → length (take n xs) ≡ n
  length-take_le n xs h = omega (arith, length-take n xs)

  pub take_at : (xs ys : List A) (i : ℕ) → i ≡ length xs → take i (xs ++ ys) ≡ xs
  take_at xs ys i p = rw p (take-append_length xs ys)

  pub drop_at : (xs ys : List A) (i : ℕ) → i ≡ length xs → drop i (xs ++ ys) ≡ ys
  drop_at xs ys i p = rw p (drop-append_length xs ys)

  pub take-append_le : (n : ℕ) (xs ys : List A) → n ≤ length xs → take n (xs ++ ys) ≡ take n xs
  take-append_le zero xs ys h = refl
  take-append_le (suc n) [] ys h = absurd (omega arith)
  take-append_le (suc n) (x ∷ xs) ys h = rw (take-append_le n xs ys (omega arith))

  pub drop-append_le :
      (n : ℕ) (xs ys : List A) → n ≤ length xs → drop n (xs ++ ys) ≡ drop n xs ++ ys
  drop-append_le zero xs ys h = refl
  drop-append_le (suc n) [] ys h = absurd (omega arith)
  drop-append_le (suc n) (x ∷ xs) ys h = drop-append_le n xs ys (omega arith)

  pub take-take : (a b : ℕ) (xs : List A) → a ≤ b → take a (take b xs) ≡ take a xs
  take-take zero b xs h = refl
  take-take (suc a) zero xs h = absurd (omega arith)
  take-take (suc a) (suc b) [] h = refl
  take-take (suc a) (suc b) (x ∷ xs) h = rw (take-take a b xs (omega arith))

  -- The list with position i written, if it has one.
  abbrev pub written : ℕ → A → List A → List A
  written i z [] = []
  written zero z (x ∷ xs) = z ∷ xs
  written (suc i) z (x ∷ xs) = x ∷ written i z xs

  pub write-written :
      (xs : List A) (i : ℕ) (z : A) → i < length xs → write xs i z ≡ some (written i z xs)
  write-written [] i z h = absurd (omega arith)
  write-written (x ∷ xs) zero z h = refl
  write-written (x ∷ xs) (suc i) z h = rw (write-written xs i z (omega arith)) refl

  pub length-written : (i : ℕ) (z : A) (xs : List A) → length (written i z xs) ≡ length xs
  length-written i z [] = refl
  length-written zero z (x ∷ xs) = refl
  length-written (suc i) z (x ∷ xs) = ap suc (length-written i z xs)

  pub slice_from-drop : (i : ℕ) (xs : List A) → i ≤ length xs → slice_from i xs ≡ some (drop i xs)
  slice_from-drop zero xs h = refl
  slice_from-drop (suc i) [] h = absurd (omega arith)
  slice_from-drop (suc i) (x ∷ xs) h = slice_from-drop i xs (omega arith)

  pub drop-length : (xs : List A) → drop (length xs) xs ≡ []
  drop-length [] = refl
  drop-length (x ∷ xs) = drop-length xs
