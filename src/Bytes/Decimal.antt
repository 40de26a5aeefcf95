-- ===== src/Bytes/Decimal.antt =====
-- strconv.FormatUint in base ten. Twenty digits are enough for every uint64.
use native.Mathlib.Nat.{pow-suc}
use monetarium_stratum.Prelude.{
  ℕ, zero, suc, ◌+◌, ◌-◌, ◌*◌, ◌/◌, ◌%◌, ◌^◌, ◌<◌, ◌≡◌, sym, ap, ◌∙◌, inl, inr, [], ◌∷◌, arith, ltb,
  if◌then◌else◌, Bool-cases,
}
use monetarium_stratum.Bytes.Slice.{Bytes}

-- The digits of `n` in front of `out`, at most `places` of them.
emit_digits : ℕ → ℕ → Bytes → Bytes
emit_digits zero n out = out
emit_digits (suc places) n out =
    let rest = emit_digits places (n / 10) ((b'0' + n % 10) ∷ out) in
    if ltb n 10 then (b'0' + n) ∷ out else rest

-- `strconv.FormatUint(n, 10)`
unfoldable pub format_uint : ℕ → Bytes
unfolding emit_digits
format_uint n = emit_digits 20 n []

-- The number that digits spell behind `acc`.
decimal_value : ℕ → Bytes → ℕ
decimal_value acc [] = acc
decimal_value acc (c ∷ s) = decimal_value (acc * 10 + (c - b'0')) s

value-emit_digits :
    (places n : ℕ) (out : Bytes)
    → n < 10 ^ places
    → decimal_value 0 (emit_digits places n out) ≡ decimal_value n out
unfolding emit_digits decimal_value
value-emit_digits zero n out h = ap (λ t. decimal_value t out) (omega arith)
value-emit_digits (suc places) n out h = elim (Bool-cases (ltb n 10)) [
  | inl small ↦ rw small (ap (λ t. decimal_value t out) (omega arith))
  | inr big ↦ rw big (
      value-emit_digits places (n / 10) ((b'0' + n % 10) ∷ out) (omega (arith, pow-suc 10 places))
      ∙ ap (λ t. decimal_value t out) (omega arith))
]

value-format_uint : (n : ℕ) → n < 2 ^ 64 → decimal_value 0 (format_uint n) ≡ n
unfolding format_uint decimal_value
value-format_uint n h = value-emit_digits 20 n [] (omega arith)

-- Two words with the same decimal text are equal.
pub format_uint_inj : (m n : ℕ) → m < 2 ^ 64 → n < 2 ^ 64 → format_uint m ≡ format_uint n → m ≡ n
format_uint_inj m n hm hn e =
    sym (value-format_uint m hm) ∙ ap (decimal_value 0) e ∙ value-format_uint n hn
