-- ===== src/Bytes/Splice.antt =====
-- Slices of a byte string after a copy into it.
use native.Mathlib.Nat.{zero-add}
use native.Mathlib.Decide.{dec_lt}
use monetarium_stratum.Prelude.{
  lt→ltb, le→ltb, ◌∙◌, zero, suc, refl, ap, [], ◌∷◌, ◌++◌, replicate, ℕ, ◌+◌, ◌-◌, ◌≤◌, ◌<◌, ◌≡◌,
  ◌⊎◌, List, arith, length, get_elem?, get_elem?_ext, get_elem?_of_length-le, take, get_elem?-take,
  ltb, leb, if◌then◌else◌, ◌&&◌,
}
use monetarium_stratum.Bytes.Slice.{slice, copy_at, copy_range, get_elem?-copy_at, get_elem?-slice}

-- The whole of what fits is taken.
pub take_of_length : (n : ℕ) (xs : List ℕ) → length xs ≤ n → take n xs ≡ xs
take_of_length n xs h =
    get_elem?_ext _ _ λ i. ground (arith, get_elem?-take n xs i, get_elem?_of_length-le xs i)

-- The place that was written reads back what was written.
pub slice-copy_range_self :
    (a b : ℕ) (dst src : List ℕ)
    → length src ≡ b - a
    → a ≤ b
    → b ≤ length dst
    → slice (copy_range a b dst src) a b ≡ src
slice-copy_range_self a b dst src h ab fits = rw (take_of_length (b - a) src (omega arith)) (
    get_elem?_ext _ _ λ i. ground (
      arith,
      get_elem?-slice (copy_at a dst src) a b i,
      get_elem?-copy_at a dst src (a + i),
      get_elem?_of_length-le src i,
    ))

-- A byte outside the range keeps its value.
pub get_elem?-copy_range_ne :
    (a b : ℕ) (dst src : List ℕ) (i : ℕ)
    → length src ≡ b - a
    → (i < a) ⊎ (b ≤ i)
    → get_elem? (copy_range a b dst src) i ≡ get_elem? dst i
get_elem?-copy_range_ne a b dst src i h out =
    rw (take_of_length (b - a) src (omega arith)) (ground (arith, get_elem?-copy_at a dst src i))

-- The bytes after a copy that fits its range.
pub get_elem?-copy_range :
    (a b : ℕ) (dst src : List ℕ) (i : ℕ)
    → length src ≤ b - a
    → a ≤ b
    → b ≤ length dst
    → get_elem? (copy_range a b dst src) i
      ≡ (if leb a i && ltb i (a + length src) then get_elem? src (i - a) else get_elem? dst i)
get_elem?-copy_range a b dst src i h ab fits =
    rw (take_of_length (b - a) src h) (ground (arith, get_elem?-copy_at a dst src i))

-- A copy to the front of equal elements keeps as many of them as it leaves room for.
pub copy_at-replicate :
    (n v : ℕ) (src : List ℕ) → copy_at 0 (replicate (length src + n) v) src ≡ src ++ replicate n v
unfolding copy_at
copy_at-replicate zero v [] = refl
copy_at-replicate (suc n) v [] = rw (zero-add (suc n)) refl
copy_at-replicate n v (s ∷ src) =
    let e : suc (length src) + n ≡ suc (length src + n) = omega arith in
    rw e (ap (◌∷◌ s) (copy_at-replicate n v src))

-- The bytes after a copy that fits behind its offset.
pub get_elem?-copy_fit :
    (off : ℕ) (dst src : List ℕ) (i : ℕ)
    → off + length src ≤ length dst
    → get_elem? (copy_at off dst src) i
      ≡ (if leb off i && ltb i (off + length src) then get_elem? src (i - off) else get_elem? dst i)
get_elem?-copy_fit off dst src i fits = ground (arith, get_elem?-copy_at off dst src i)

-- A slice put back at its place reads as the original.
pub get_elem?-slice_back :
    (xs : List ℕ) (a b i : ℕ) → a ≤ i → i < b → get_elem? (slice xs a b) (i - a) ≡ get_elem? xs i
get_elem?-slice_back xs a b i ha hb = get_elem?-slice xs a b (i - a) ∙ ground arith

-- Slices of byte strings that agree on the range are equal.
pub slice_ext :
    (xs ys : List ℕ) (a b : ℕ)
    → ((j : ℕ) → a ≤ j → j < b → get_elem? xs j ≡ get_elem? ys j)
    → slice xs a b ≡ slice ys a b
slice_ext xs ys a b h = get_elem?_ext _ _ λ i. elim (dec_lt i (b - a)) [
  | yes p ↦
      rw (get_elem?-slice xs a b i, get_elem?-slice ys a b i, lt→ltb i (b - a) p)
        (h (a + i) (omega arith) (omega arith))
  | no p ↦
      rw (get_elem?-slice xs a b i, get_elem?-slice ys a b i, le→ltb i (b - a) (omega arith)) refl
]
