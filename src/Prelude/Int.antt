-- ===== src/Prelude/Int.antt =====
-- The signed indices of the source (`i32`), as integers over the native numbers, with the casts
-- between them and the unsigned words. Arithmetic is checked, as in an unoptimised build: `none`
-- stands for the panic on overflow.
use Prim.Native.Nat.{ℕ, zero, suc, ◌+◌, ◌-◌, ◌%◌, ◌≤◌, ◌<◌}
use mathlib.Core.Path.{◌≡◌}
use mathlib.Core.Bool.{Bool}
use mathlib.Core.Option.{Option, none, some}
use mathlib.Core.List.{List, [], ◌∷◌}
use native.Mathlib.Omega.{arith}
use mini_raft.Prelude.Tests.{ltb, ◌==◌, if◌then◌else◌}

-- `negsuc n` is -(n + 1).
pub data ℤ : Type 0 where
  pos : ℕ → ℤ
  negsuc : ℕ → ℤ

abbrev pub pos_part : ℤ → ℕ
pos_part (pos n) = n
pos_part (negsuc n) = 0

abbrev pub neg_part : ℤ → ℕ
neg_part (pos n) = 0
neg_part (negsuc n) = suc n

infix 50 ◌≤ℤ◌ ◌<ℤ◌
abbrev pub ◌≤ℤ◌ : ℤ → ℤ → Type 0
a ≤ℤ b = pos_part a + neg_part b ≤ pos_part b + neg_part a

abbrev pub ◌<ℤ◌ : ℤ → ℤ → Type 0
a <ℤ b = pos_part a + neg_part b < pos_part b + neg_part a

abbrev pub ltb_ℤ : ℤ → ℤ → Bool
ltb_ℤ a b = ltb (pos_part a + neg_part b) (pos_part b + neg_part a)

abbrev pub eqb_ℤ : ℤ → ℤ → Bool
eqb_ℤ a b = pos_part a + neg_part b == pos_part b + neg_part a

-- `std::cmp::min` at `i32`.
abbrev pub min_ℤ : ℤ → ℤ → ℤ
min_ℤ a b = if ltb_ℤ b a then b else a

-- The integer after z.
abbrev pub succ_ℤ : ℤ → ℤ
succ_ℤ (pos n) = pos (suc n)
succ_ℤ (negsuc zero) = pos 0
succ_ℤ (negsuc (suc n)) = negsuc n

-- How many integers there are from `a` to `b`, both included.
abbrev pub span : ℤ → ℤ → ℕ
span a b = suc (pos_part b + neg_part a) - (pos_part a + neg_part b)

-- `a..=b` at `i32`, for an `a` given with the number of steps.
abbrev pub count_up : ℤ → ℕ → List ℤ
count_up z zero = []
count_up z (suc k) = z ∷ count_up (succ_ℤ z) k

abbrev pub range_inclusive : ℤ → ℤ → List ℤ
range_inclusive a b = count_up a (span a b)

abbrev pub u32_size : ℕ
u32_size = 4294967296

abbrev pub u64_size : ℕ
u64_size = 18446744073709551616

abbrev pub i32_size : ℕ
i32_size = 2147483648

-- `n as u32` for a wider unsigned n.
abbrev pub as_u32 : ℕ → ℕ
as_u32 n = n % u32_size

-- `n as i32` for an unsigned n.
unfoldable pub as_i32 : ℕ → ℤ
as_i32 n = let r = n % u32_size in if ltb r i32_size then pos r else negsuc (u32_size - 1 - r)

-- `z as usize` and `z as u64` for an `i32`, on a machine of 64 bits.
abbrev pub as_usize : ℤ → ℕ
as_usize (pos n) = n
as_usize (negsuc n) = u64_size - 1 - n

-- `a + b` at `u32`.
abbrev pub add_u32 : ℕ → ℕ → Option ℕ
add_u32 a b = if ltb (a + b) u32_size then some (a + b) else none

-- `a - b` at an unsigned type.
abbrev pub sub_unsigned : ℕ → ℕ → Option ℕ
sub_unsigned a b = if ltb a b then none else some (a - b)

-- `a + 1` at `u64`.
abbrev pub inc_u64 : ℕ → Option ℕ
inc_u64 a = if ltb (a + 1) u64_size then some (a + 1) else none

-- `z + 1` at `i32`.
abbrev pub inc_i32 : ℤ → Option ℤ
inc_i32 (pos n) = if ltb (n + 1) i32_size then some (pos (n + 1)) else none
inc_i32 (negsuc zero) = some (pos 0)
inc_i32 (negsuc (suc n)) = some (negsuc n)

-- `z - 1` at `i32`.
abbrev pub dec_i32 : ℤ → Option ℤ
dec_i32 (pos zero) = some (negsuc 0)
dec_i32 (pos (suc n)) = some (pos n)
dec_i32 (negsuc n) = if ltb (n + 1) i32_size then some (negsuc (n + 1)) else none

-- In range the cast to `i32` keeps the number.
pub as_i32_small : (n : ℕ) → n < i32_size → as_i32 n ≡ pos n
unfolding as_i32
as_i32_small n h = ground arith

pub as_u32_small : (n : ℕ) → n < u32_size → as_u32 n ≡ n
as_u32_small n h = omega arith
