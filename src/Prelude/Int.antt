-- ===== src/Prelude/Int.antt =====
-- Go's big.Int as far as the program compares it: a natural number or a negative one.
use Prim.Native.Nat.{ℕ, suc, compare, Ordering}
use mathlib.Core.Bool.{Bool, true, false}

-- `negsuc n` is -(n + 1).
pub data ℤ : Type 0 where
  pos : ℕ → ℤ
  negsuc : ℕ → ℤ

-- `a.Cmp(b)`.
abbrev pub compare_ℤ : ℤ → ℤ → Ordering
compare_ℤ (pos a) (pos b) = compare a b
compare_ℤ (pos a) (negsuc b) = Ordering.gt
compare_ℤ (negsuc a) (pos b) = Ordering.lt
compare_ℤ (negsuc a) (negsuc b) = compare b a

-- `a.Cmp(b) > 0`.
abbrev pub gt_ℤ : ℤ → ℤ → Bool
gt_ℤ a b = elim (compare_ℤ a b) [ Ordering.gt ↦ true | _ ↦ false ]

-- The absolute value, which is all that `FillBytes` writes.
abbrev pub nat_abs : ℤ → ℕ
nat_abs (pos n) = n
nat_abs (negsuc n) = suc n
