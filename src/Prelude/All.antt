-- ===== src/Prelude/All.antt =====
-- A predicate that holds of every element of a list, and the list operations that keep it.
use Prim.Native.Nat.{ℕ, zero, suc}
use mathlib.Core.List.{List, [], ◌∷◌, ◌++◌}
use mathlib.Core.Option
use mathlib.Core.Option.{Option, none, some}
use mini_raft.Prelude.Lists.{take, drop, insert_at}

module _ {ℓ} {A : Type ℓ} where
  abbrev pub AllOf : (A → Type 0) → List A → Type 0
  AllOf P [] = Unit
  AllOf P (x ∷ xs) = P x × AllOf P xs

  pub AllOf-mono :
      (P Q : A → Type 0) → ((a : A) → P a → Q a) → (xs : List A) → AllOf P xs → AllOf Q xs
  AllOf-mono P Q f [] h = tt
  AllOf-mono P Q f (x ∷ xs) h = (f x h.0, AllOf-mono P Q f xs h.1)

module _ {ℓ} {A : Type ℓ} (P : A → Type 0) where
  pub AllOf-append : (xs ys : List A) → AllOf P xs → AllOf P ys → AllOf P (xs ++ ys)
  AllOf-append [] ys h k = k
  AllOf-append (x ∷ xs) ys h k = (h.0, AllOf-append xs ys h.1 k)

  pub AllOf-drop : (n : ℕ) (xs : List A) → AllOf P xs → AllOf P (drop n xs)
  AllOf-drop zero xs h = h
  AllOf-drop (suc n) [] h = h
  AllOf-drop (suc n) (x ∷ xs) h = AllOf-drop n xs h.1

  pub AllOf-take : (n : ℕ) (xs : List A) → AllOf P xs → AllOf P (take n xs)
  AllOf-take zero xs h = tt
  AllOf-take (suc n) [] h = h
  AllOf-take (suc n) (x ∷ xs) h = (h.0, AllOf-take n xs h.1)

  -- Of the result of an operation that may panic, where there is one.
  abbrev pub AllOfSome : Option (List A) → Type 0
  AllOfSome none = Unit
  AllOfSome (some xs) = AllOf P xs

  AllOfSome-cons :
      (x : A) (o : Option (List A)) → P x → AllOfSome o → AllOfSome (Option.map (λ ys. x ∷ ys) o)
  AllOfSome-cons x none h k = tt
  AllOfSome-cons x (some ys) h k = (h, k)

  pub AllOf-insert_at :
      (i : ℕ) (v : A) (xs : List A) → P v → AllOf P xs → AllOfSome (insert_at i v xs)
  AllOf-insert_at zero v xs h k = (h, k)
  AllOf-insert_at (suc i) v [] h k = tt
  AllOf-insert_at (suc i) v (x ∷ xs) h k = AllOfSome-cons x _ k.0 (AllOf-insert_at i v xs h k.1)

  pub AllOfSome-then :
      (f : List A → Option (List A)) (o : Option (List A))
      → AllOfSome o
      → ((xs : List A) → AllOf P xs → AllOfSome (f xs))
      → AllOfSome (elim o [ none ↦ none | some xs ↦ f xs ])
  AllOfSome-then f none h k = tt
  AllOfSome-then f (some xs) h k = k xs h
