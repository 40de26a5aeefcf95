-- ===== src/Miner/Job/Compare.antt =====
-- The byte-wise comparison is the comparison of the numbers, and so the miner's classification is
-- the pool's decision.
use native.Mathlib.Nat.{pow-suc, mul-le-mul_right, add-mul}
use native.Mathlib.Decide.{dec_lt}
use mathlib.Core.List.{reverse, reverse-cons}
use monetarium_stratum.Prelude.{
  ℕ, zero, suc, ◌+◌, ◌-◌, ◌*◌, ◌^◌, ◌≤◌, ◌<◌, ◌≡◌, ◌⊎◌, inl, inr, refl, sym, ap, ◌∙◌, Bool, true,
  false, none, some, [], ◌∷◌, ◌++◌, arith, ◌==◌, ltb, if◌then◌else◌, length, take, drop, All, subst,
  length-take, length-drop, length-append, pos, Ordering, compare,
}
use monetarium_stratum.Bytes.Slice.{Bytes, IsByte, take-All, drop-All}
use monetarium_stratum.Bytes.Splice.{take_of_length}
use monetarium_stratum.Bytes.Endian.{
  le_bytes, le_value, le_value-lt, length-le_bytes, le_bytes-All, le_value-le_bytes,
}
use mathlib.Core.Option.{some-injective}
use monetarium_stratum.Mining.Evaluate.{
  Decision, rejected, accepted_share, submit_block, evaluate_submit,
}
use monetarium_stratum.Miner.Job.{
  byte_at, cmp_loop, cmp_hash_target, classify_solution, to_target_bytes,
}

-- The number that bytes spell, the most significant first.
pub be_value : Bytes → ℕ
be_value [] = 0
be_value (b ∷ bs) = b * 256 ^ length bs + be_value bs

take_last :
    (r : ℕ) (xs : Bytes)
    → r < length xs
    → le_value (take (suc r) xs) ≡ le_value (take r xs) + byte_at xs r * 256 ^ r
unfolding le_value byte_at
take_last r [] h = absurd (omega arith)
take_last zero (x ∷ xs) h = omega arith
take_last (suc r) (x ∷ xs) h =
    let q : byte_at xs r * 256 ^ suc r ≡ 256 * (byte_at xs r * 256 ^ r) =
      ap (λ t. byte_at xs r * t) (pow-suc 256 r) ∙ omega arith in
    omega (arith, take_last r xs (omega arith))

drop_first : (i : ℕ) (xs : Bytes) → i < length xs → drop i xs ≡ byte_at xs i ∷ drop (i + 1) xs
unfolding byte_at
drop_first i [] h = absurd (omega arith)
drop_first zero (x ∷ xs) h = refl
drop_first (suc i) (x ∷ xs) h =
    let e : suc i + 1 ≡ suc (i + 1) = omega arith in rw e (drop_first i xs (omega arith))

-- Numbers that differ in the leading digit compare by it.
compare_leading :
    (a b x y p : ℕ)
    → x < p
    → y < p
    → compare (x + a * p) (b * p + y)
      ≡ (if a == b then compare x y else if ltb a b then Ordering.lt else Ordering.gt)
compare_leading a b x y p hx hy = elim (dec_lt a b) [
  | yes h ↦
      let m : (a + 1) * p ≤ b * p = mul-le-mul_right p (omega arith) in
      let e : (a + 1) * p ≡ a * p + p = add-mul a 1 p ∙ omega arith in ground arith
  | no h ↦ elim (dec_lt b a) [
    | yes k ↦
        let m : (b + 1) * p ≤ a * p = mul-le-mul_right p (omega arith) in
        let e : (b + 1) * p ≡ b * p + p = add-mul b 1 p ∙ omega arith in ground arith
    | no k ↦
        let e : a ≡ b = omega arith in let m : a * p ≡ b * p = ap (λ t. t * p) e in ground arith
  ]
]

be_value-nil : (xs : Bytes) → length xs ≡ 0 → be_value xs ≡ 0
unfolding be_value
be_value-nil [] h = refl
be_value-nil (x ∷ xs) h = absurd (omega arith)

be_value-lt : (bs : Bytes) → All IsByte bs → be_value bs < 256 ^ length bs
unfolding be_value
be_value-lt [] h = omega arith
be_value-lt (b ∷ bs) (hb, hs) =
    let m : (b + 1) * 256 ^ length bs ≤ 256 * 256 ^ length bs = mul-le-mul_right _ (omega arith) in
    omega (arith, be_value-lt bs hs, add-mul b 1 (256 ^ length bs), pow-suc 256 (length bs))

-- With `rounds` left the loop compares what the low `rounds` bytes of the hash and the bytes of the
-- target from index `i` spell.
cmp_loop-compare :
    (rounds i : ℕ) (sum be : Bytes)
    → rounds + i ≡ 32
    → length sum ≡ 32
    → length be ≡ 32
    → All IsByte sum
    → All IsByte be
    → cmp_loop rounds i sum be ≡ compare (le_value (take rounds sum)) (be_value (drop i be))
unfolding cmp_loop le_value be_value
cmp_loop-compare zero i sum be e ls lb hs hb =
    rw (be_value-nil (drop i be) (omega (arith, length-drop i be)))
cmp_loop-compare (suc r) i sum be e ls lb hs hb =
    let ei : 31 - i ≡ r = omega arith in
    let lr : length (drop (i + 1) be) ≡ r = omega (arith, length-drop (i + 1) be) in
    let lt : length (take r sum) ≡ r = omega (arith, length-take r sum) in
    let low : le_value (take r sum) < 256 ^ r =
      subst (λ n. le_value (take r sum) < 256 ^ n) lt
        (le_value-lt (take r sum) (take-All IsByte r sum hs)) in
    let high : be_value (drop (i + 1) be) < 256 ^ r =
      subst (λ n. be_value (drop (i + 1) be) < 256 ^ n) lr
        (be_value-lt (drop (i + 1) be) (drop-All IsByte (i + 1) be hb)) in
    rw
      (
        ei,
        cmp_loop-compare r (i + 1) sum be (omega arith) ls lb hs hb,
        take_last r sum (omega arith),
        drop_first i be (omega arith),
        lr,
      )
      (sym (
        compare_leading (byte_at sum r) (byte_at be i) (le_value (take r sum))
          (be_value (drop (i + 1) be)) (256 ^ r) low high))

take_all : (xs : Bytes) (n : ℕ) → length xs ≡ n → take n xs ≡ xs
take_all xs n h = take_of_length n xs (omega arith)

-- The miner's comparison of a 32 byte hash and target is the comparison of the number that the hash
-- spells in little endian with the one that the target spells in big endian.
pub cmp_hash_target-compare :
    (sum be : Bytes)
    → length sum ≡ 32
    → length be ≡ 32
    → All IsByte sum
    → All IsByte be
    → cmp_hash_target sum be ≡ compare (le_value sum) (be_value be)
unfolding cmp_hash_target
cmp_hash_target-compare sum be ls lb hs hb =
    cmp_loop-compare 32 0 sum be refl ls lb hs hb
    ∙ ap (λ t. compare (le_value t) (be_value be)) (take_all sum 32 ls)

be_value-snoc : (xs : Bytes) (x : ℕ) → be_value (xs ++ x ∷ []) ≡ be_value xs * 256 + x
unfolding be_value
be_value-snoc [] x = omega arith
be_value-snoc (y ∷ xs) x =
    let l : length (xs ++ x ∷ []) ≡ suc (length xs) = omega (arith, length-append xs (x ∷ [])) in
    let p : y * 256 ^ length (xs ++ x ∷ []) ≡ 256 * (y * 256 ^ length xs) =
      ap (λ n. y * 256 ^ n) l ∙ ap (λ t. y * t) (pow-suc 256 (length xs)) ∙ omega arith in
    omega (arith, be_value-snoc xs x)

pub be_value-reverse : (bs : Bytes) → be_value (reverse bs) ≡ le_value bs
unfolding be_value le_value
be_value-reverse [] = refl
be_value-reverse (b ∷ bs) =
    rw (reverse-cons b bs) (be_value-snoc (reverse bs) b ∙ omega (arith, be_value-reverse bs))

length-reverse : (bs : Bytes) → length (reverse bs) ≡ length bs
length-reverse [] = refl
length-reverse (b ∷ bs) =
    rw (reverse-cons b bs) (omega (arith, length-append (reverse bs) (b ∷ []), length-reverse bs))

snoc-All : (xs : Bytes) (x : ℕ) → All IsByte xs → x < 256 → All IsByte (xs ++ x ∷ [])
snoc-All [] x h p = (p, tt)
snoc-All (y ∷ xs) x h p = (h.0, snoc-All xs x h.1 p)

pub reverse-All : (bs : Bytes) → All IsByte bs → All IsByte (reverse bs)
reverse-All [] h = tt
reverse-All (b ∷ bs) (hb, hs) =
    rw (reverse-cons b bs) (snoc-All (reverse bs) b (reverse-All bs hs) hb)

-- A target that fits 32 bytes is rendered as 32 bytes that spell it; another one is a panic.
pub to_target_bytes_lem :
    (t : ℕ)
    → ((t < 2 ^ 256)
        × ((be : Bytes) × (to_target_bytes (pos t) ≡ some be)
            × (length be ≡ 32)
            × All IsByte be
            × (be_value be ≡ t)))
      ⊎ ((2 ^ 256 ≤ t) × (to_target_bytes (pos t) ≡ none))
unfolding to_target_bytes
to_target_bytes_lem t = elim (dec_lt t (2 ^ 256)) [
  | yes h ↦ inl (
    h,
    (
      reverse (le_bytes 32 t),
      ground arith,
      length-reverse (le_bytes 32 t) ∙ length-le_bytes 32 t,
      reverse-All (le_bytes 32 t) (le_bytes-All 32 t),
      be_value-reverse (le_bytes 32 t) ∙ le_value-le_bytes 32 t h,
    ),
  )
  | no h ↦ inr (omega arith, ground arith)
]

pub rendered :
    (t : ℕ) (be : Bytes)
    → to_target_bytes (pos t) ≡ some be
    → (length be ≡ 32) × All IsByte be × (be_value be ≡ t)
rendered t be e = elim (to_target_bytes_lem t) [
  | inl (_, (be', e', l, h, v)) ↦
      subst (λ x. (length x ≡ 32) × All IsByte x × (be_value x ≡ t))
        (some-injective be' be (sym e' ∙ e)) (l, h, v)
  | inr (_, e') ↦ absurd (cc)
]

-- The flags that each decision of the pool stands for.
abbrev pub flags : Decision → Bool × Bool
flags rejected = (false, false)
flags accepted_share = (true, false)
flags submit_block = (true, true)

-- For a hash of 32 bytes and targets that fit 32 bytes, a miner calls the hash a share and a block
-- exactly where the pool, with the same targets, accepts the share and submits the block.
pub classify_solution-evaluate :
    (sum share_be block_be : Bytes) (share block : ℕ)
    → length sum ≡ 32
    → All IsByte sum
    → to_target_bytes (pos share) ≡ some share_be
    → to_target_bytes (pos block) ≡ some block_be
    → classify_solution sum share_be block_be
      ≡ flags (evaluate_submit (pos (le_value sum)) (pos share) (pos block))
unfolding classify_solution evaluate_submit
classify_solution-evaluate sum share_be block_be share block ls hs es eb =
    let s = rendered share share_be es in
    let b = rendered block block_be eb in
    rw
      (
        cmp_hash_target-compare sum share_be ls s.0 hs s.1,
        cmp_hash_target-compare sum block_be ls b.0 hs b.1,
        s.2,
        b.2,
      )
      (ground arith)
