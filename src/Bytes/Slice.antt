-- ===== src/Bytes/Slice.antt =====
-- Slices and copy of Go. A slice expression is used in range only: the arrays have fixed sizes.
use monetarium_stratum.Prelude.{
  ℕ, zero, suc, ◌+◌, ◌-◌, ◌<◌, ◌≡◌, refl, ap, ◌&&◌, none, List, [], ◌∷◌, arith, ltb, leb,
  if◌then◌else◌, length, get_elem?, take, drop, All, length-take, length-drop, get_elem?-take,
  get_elem?-drop,
}
use Prim.Native.Nat.{min}

-- A byte string: every element is below 256.
abbrev pub Bytes : Type 0
Bytes = List ℕ

abbrev pub IsByte : ℕ → Type 0
IsByte b = b < 256

module _ {ℓ} {A : Type ℓ} where
  -- `xs[a:b]`
  abbrev pub slice : List A → ℕ → ℕ → List A
  slice xs a b = take (b - a) (drop a xs)

  -- `copy(dst, src)`: as many elements as both have.
  pub overwrite : List A → List A → List A
  overwrite [] src = []
  overwrite (d ∷ dst) [] = d ∷ dst
  overwrite (d ∷ dst) (s ∷ src) = s ∷ overwrite dst src

  -- `copy(dst[off:], src)`
  unfoldable pub copy_at : ℕ → List A → List A → List A
  unfolding overwrite
  copy_at zero dst src = overwrite dst src
  copy_at (suc off) [] src = []
  copy_at (suc off) (d ∷ dst) src = d ∷ copy_at off dst src

  -- `copy(dst[a:b], src)`
  abbrev pub copy_range : ℕ → ℕ → List A → List A → List A
  copy_range a b dst src = copy_at a dst (take (b - a) src)

  length-overwrite : (dst src : List A) → length (overwrite dst src) ≡ length dst
  unfolding overwrite
  length-overwrite [] src = refl
  length-overwrite (d ∷ dst) [] = refl
  length-overwrite (d ∷ dst) (s ∷ src) = ap suc (length-overwrite dst src)

  pub length-copy_at : (off : ℕ) (dst src : List A) → length (copy_at off dst src) ≡ length dst
  unfolding copy_at
  length-copy_at zero dst src = length-overwrite dst src
  length-copy_at (suc off) [] src = refl
  length-copy_at (suc off) (d ∷ dst) src = ap suc (length-copy_at off dst src)

  get_elem?-overwrite :
      (dst src : List A) (i : ℕ)
      → get_elem? (overwrite dst src) i
        ≡ (if ltb i (length dst) && ltb i (length src) then get_elem? src i else get_elem? dst i)
  unfolding overwrite
  get_elem?-overwrite [] src i = ground arith
  get_elem?-overwrite (d ∷ dst) [] i = ground arith
  get_elem?-overwrite (d ∷ dst) (s ∷ src) zero = ground arith
  get_elem?-overwrite (d ∷ dst) (s ∷ src) (suc i) = ground (arith, get_elem?-overwrite dst src i)

  -- What stands at each place after a copy.
  pub get_elem?-copy_at :
      (off : ℕ) (dst src : List A) (i : ℕ)
      → get_elem? (copy_at off dst src) i ≡ (
          if ltb i (length dst) && (leb off i && ltb i (off + length src))
          then get_elem? src (i - off)
          else get_elem? dst i)
  unfolding copy_at
  get_elem?-copy_at zero dst src i = ground (arith, get_elem?-overwrite dst src i)
  get_elem?-copy_at (suc off) [] src i = ground arith
  get_elem?-copy_at (suc off) (d ∷ dst) src zero = ground arith
  get_elem?-copy_at (suc off) (d ∷ dst) src (suc i) =
      ground (arith, get_elem?-copy_at off dst src i)

  pub length-slice : (xs : List A) (a b : ℕ) → length (slice xs a b) ≡ min (b - a) (length xs - a)
  length-slice xs a b = omega (arith, length-take (b - a) (drop a xs), length-drop a xs)

  pub get_elem?-slice :
      (xs : List A) (a b i : ℕ)
      → get_elem? (slice xs a b) i ≡ (if ltb i (b - a) then get_elem? xs (a + i) else none)
  get_elem?-slice xs a b i =
      ground (arith, get_elem?-take (b - a) (drop a xs) i, get_elem?-drop a xs i)

  pub take-All {κ} : (P : A → Type κ) (n : ℕ) (xs : List A) → All P xs → All P (take n xs)
  take-All P zero xs h = tt
  take-All P (suc n) [] h = tt
  take-All P (suc n) (x ∷ xs) h = (h.0, take-All P n xs h.1)

  pub drop-All {κ} : (P : A → Type κ) (n : ℕ) (xs : List A) → All P xs → All P (drop n xs)
  drop-All P zero xs h = h
  drop-All P (suc n) [] h = tt
  drop-All P (suc n) (x ∷ xs) h = drop-All P n xs h.1

  overwrite-All {κ} :
      (P : A → Type κ) (dst src : List A) → All P dst → All P src → All P (overwrite dst src)
  unfolding overwrite
  overwrite-All P [] src h k = tt
  overwrite-All P (d ∷ dst) [] h k = h
  overwrite-All P (d ∷ dst) (s ∷ src) h k = (k.0, overwrite-All P dst src h.1 k.1)

  pub copy_at-All {κ} :
      (P : A → Type κ) (off : ℕ) (dst src : List A)
      → All P dst
      → All P src
      → All P (copy_at off dst src)
  unfolding copy_at
  copy_at-All P zero dst src h k = overwrite-All P dst src h k
  copy_at-All P (suc off) [] src h k = tt
  copy_at-All P (suc off) (d ∷ dst) src h k = (h.0, copy_at-All P off dst src h.1 k)
