-- ===== src/Bytes/Endian.antt =====
-- encoding/binary's LittleEndian: the `width` low bytes of a word, and the word that bytes spell.
use native.Mathlib.Nat.{pow-suc}
use monetarium_stratum.Prelude.{
  ℕ, zero, suc, ◌+◌, ◌*◌, ◌/◌, ◌%◌, ◌^◌, ◌<◌, ◌≡◌, refl, ap, ap₂, ◌∙◌, [], ◌∷◌, arith, length, All,
}
use monetarium_stratum.Bytes.Slice.{Bytes, IsByte}

-- `PutUint32` at width 4, `PutUint64` at width 8.
unfoldable pub le_bytes : ℕ → ℕ → Bytes
le_bytes zero v = []
le_bytes (suc width) v = (v % 256) ∷ le_bytes width (v / 256)

-- `Uint32` and `Uint64` of all the bytes given.
unfoldable pub le_value : Bytes → ℕ
le_value [] = 0
le_value (b ∷ bs) = b + 256 * le_value bs

pub length-le_bytes : (width v : ℕ) → length (le_bytes width v) ≡ width
unfolding le_bytes
length-le_bytes zero v = refl
length-le_bytes (suc width) v = omega (arith, length-le_bytes width (v / 256))

pub le_bytes-All : (width v : ℕ) → All IsByte (le_bytes width v)
unfolding le_bytes
le_bytes-All zero v = tt
le_bytes-All (suc width) v = (omega arith, le_bytes-All width (v / 256))

-- A word that fits its width is read back.
pub le_value-le_bytes : (width v : ℕ) → v < 256 ^ width → le_value (le_bytes width v) ≡ v
unfolding le_bytes le_value
le_value-le_bytes zero v h = omega arith
le_value-le_bytes (suc width) v h =
    omega (
      arith,
      pow-suc 256 width,
      le_value-le_bytes width (v / 256) (omega (arith, pow-suc 256 width)),
    )

-- Bytes are read back from the word that they spell.
pub le_bytes-le_value : (bs : Bytes) → All IsByte bs → le_bytes (length bs) (le_value bs) ≡ bs
unfolding le_bytes le_value
le_bytes-le_value [] h = refl
le_bytes-le_value (b ∷ bs) (hb, hs) =
    let q : (b + 256 * le_value bs) / 256 ≡ le_value bs = omega arith in
    ap₂ ◌∷◌ (omega arith) (ap (le_bytes (length bs)) q ∙ le_bytes-le_value bs hs)

pub le_value-lt : (bs : Bytes) → All IsByte bs → le_value bs < 256 ^ length bs
unfolding le_value
le_value-lt [] h = omega arith
le_value-lt (b ∷ bs) (hb, hs) = omega (arith, pow-suc 256 (length bs), le_value-lt bs hs)
