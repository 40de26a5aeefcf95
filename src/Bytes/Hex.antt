-- ===== src/Bytes/Hex.antt =====
-- encoding/hex: EncodeToString and DecodeString. A text is the list of its bytes; an error of the
-- decoder (odd length, or a byte that is no digit) is `none`.
use monetarium_stratum.Prelude.{
  ℕ, ◌+◌, ◌-◌, ◌*◌, ◌/◌, ◌%◌, ◌<◌, ◌≡◌, refl, ap, subst, ◌&&◌, Option, none, some, [], ◌∷◌, arith,
  ltb, leb, if◌then◌else◌, length, All,
}
use mathlib.Core.Option.{some-injective}
use monetarium_stratum.Bytes.Slice.{Bytes, IsByte}

-- A digit of "0123456789abcdef".
hex_digit : ℕ → ℕ
hex_digit d = if ltb d 10 then b'0' + d else b'a' + (d - 10)

-- `reverseHexTable`: both cases are read.
hex_value : ℕ → Option ℕ
hex_value c =
    if leb b'0' c && leb c b'9'
    then some (c - b'0')
    else if leb b'a' c && leb c b'f'
    then some (c - b'a' + 10)
    else if leb b'A' c && leb c b'F'
    then some (c - b'A' + 10)
    else none

-- `hex.EncodeToString`
unfoldable pub encode : Bytes → Bytes
unfolding hex_digit
encode [] = []
encode (b ∷ bs) = hex_digit (b / 16) ∷ hex_digit (b % 16) ∷ encode bs

-- The byte that two digits spell, in front of what the rest decodes to.
abbrev join_byte : Option ℕ → Option ℕ → Option Bytes → Option Bytes
join_byte (some p) (some q) (some rest) = some ((16 * p + q) ∷ rest)
join_byte _ _ _ = none

-- `hex.DecodeString`
unfoldable pub decode : Bytes → Option Bytes
unfolding hex_value
decode [] = some []
decode (p ∷ []) = none
decode (p ∷ q ∷ rest) = join_byte (hex_value p) (hex_value q) (decode rest)

hex_value-hex_digit : (d : ℕ) → d < 16 → hex_value (hex_digit d) ≡ some d
unfolding hex_value hex_digit
hex_value-hex_digit d h = ground arith

hex_value-lt : (c : ℕ) {d : ℕ} → hex_value c ≡ some d → d < 16
unfolding hex_value
hex_value-lt c h = ground arith

join_parts :
    (p q : Option ℕ) (r : Option Bytes) {bs : Bytes}
    → join_byte p q r ≡ some bs
    → (a : ℕ) × (b : ℕ) × (rest : Bytes) × (p ≡ some a)
      × (q ≡ some b)
      × (r ≡ some rest)
      × ((16 * a + b) ∷ rest ≡ bs)
join_parts (some a) (some b) (some rest) h = (a, b, rest, refl, refl, refl, cc)
join_parts (some a) (some b) none h = cc
join_parts (some a) none _ h = cc
join_parts none _ _ h = cc

join_byte-hex_digit :
    (b : ℕ) (r : Option Bytes) (bs : Bytes)
    → b < 256
    → r ≡ some bs
    → join_byte (hex_value (hex_digit (b / 16))) (hex_value (hex_digit (b % 16))) r ≡ some (b ∷ bs)
join_byte-hex_digit b r bs h e =
    rw (hex_value-hex_digit (b / 16) (omega arith), hex_value-hex_digit (b % 16) (omega arith), e)
      (ap (λ t. some (t ∷ bs)) (omega arith))

-- What is encoded is decoded again.
pub decode-encode : (bs : Bytes) → All IsByte bs → decode (encode bs) ≡ some bs
unfolding decode encode
decode-encode [] h = refl
decode-encode (b ∷ bs) (hb, hs) = join_byte-hex_digit b _ bs hb (decode-encode bs hs)

pub length-encode : (bs : Bytes) → length (encode bs) ≡ 2 * length bs
unfolding encode
length-encode [] = refl
length-encode (b ∷ bs) = omega (arith, length-encode bs)

-- A decoded text has two digits for each byte.
pub length-decode : (s : Bytes) {bs : Bytes} → decode s ≡ some bs → length s ≡ 2 * length bs
unfolding decode
length-decode [] h = ground arith
length-decode (p ∷ []) h = cc
length-decode (p ∷ q ∷ s) {bs} h =
    let (a, b, rest, _, _, er, e) = join_parts (hex_value p) (hex_value q) (decode s) h in
    subst (λ t. length (p ∷ q ∷ s) ≡ 2 * length t) e (omega (arith, length-decode s er))

-- What is decoded is a byte string.
pub decode-All : (s : Bytes) {bs : Bytes} → decode s ≡ some bs → All IsByte bs
unfolding decode
decode-All [] {bs} h = subst (All IsByte) (some-injective _ _ h) tt
decode-All (p ∷ []) h = cc
decode-All (p ∷ q ∷ s) {bs} h =
    let (a, b, rest, ep, eq, er, e) = join_parts (hex_value p) (hex_value q) (decode s) h in
    subst (All IsByte) e (omega (arith, hex_value-lt p ep, hex_value-lt q eq), decode-All s er)
