-- ===== src/Miner/Search/Positions.antt =====
-- Which extra nonce 2 and nonce a thread tries in each round, and that no pair is tried twice, by
-- one thread or by two.
use native.Mathlib.Nat.{
  mul-suc, mul_comm, mul-add-mod_self_right, mod-eq_of_lt, eq_of_mul-eq-mul_left,
}
use monetarium_stratum.Prelude.{
  ℕ, zero, suc, ◌+◌, ◌*◌, ◌/◌, ◌%◌, ◌^◌, ◌<◌, ◌≡◌, refl, sym, ap, ◌∙◌, inl, inr, arith, ◌==◌,
  Bool-cases,
}
use monetarium_stratum.Bytes.Slice.{Bytes}
use monetarium_stratum.Bytes.Endian.{le_bytes, le_value, le_value-le_bytes}
use monetarium_stratum.Miner.Job.{Job}
use monetarium_stratum.Miner.Search.{Search, roll, start_search, search_round, mine_job}

-- The extra nonce 2 of a round: each sweep of 2^32 nonces moves on by the number of threads.
abbrev pub extra_nonce2_at : ℕ → ℕ → ℕ → ℕ
extra_nonce2_at threads idx rounds = idx + threads * (rounds / 2 ^ 32)

-- The nonce and extra nonce 2 of round `rounds`.
pub record At (threads idx rounds : ℕ) (s : Search) : Type 0 where
  pub nonce_at : s.nonce ≡ rounds % 2 ^ 32
  pub extra_at : s.extra_nonce2 ≡ le_bytes 8 (extra_nonce2_at threads idx rounds % 2 ^ 64)

read_back : (x : ℕ) → le_value (le_bytes 8 (x % 2 ^ 64)) ≡ x % 2 ^ 64
read_back x = le_value-le_bytes 8 (x % 2 ^ 64) (omega arith)

next_extra :
    (threads idx r : ℕ)
    → roll threads ((r % 2 ^ 32 + 1) % 2 ^ 32) (le_bytes 8 (extra_nonce2_at threads idx r % 2 ^ 64))
      ≡ le_bytes 8 (extra_nonce2_at threads idx (suc r) % 2 ^ 64)
unfolding roll
next_extra threads idx r = elim (Bool-cases ((r % 2 ^ 32 + 1) % 2 ^ 32 == 0)) [
  | inl done ↦
      let q : suc r / 2 ^ 32 ≡ suc (r / 2 ^ 32) = ground arith in
      let m : threads * (suc r / 2 ^ 32) ≡ threads * (r / 2 ^ 32) + threads =
        ap (λ t. threads * t) q ∙ mul-suc threads (r / 2 ^ 32) in
      rw (done, read_back (extra_nonce2_at threads idx r)) (ap (le_bytes 8) (omega arith))
  | inr more ↦
      let q : suc r / 2 ^ 32 ≡ r / 2 ^ 32 = ground arith in
      rw more (ap (λ t. le_bytes 8 ((idx + threads * t) % 2 ^ 64)) (sym q))
]

module _ (blake3 : Bytes → Bytes) (threads : ℕ) (job : Job) where
  pub mine_job-At :
      (idx rounds : ℕ) → At threads idx rounds (mine_job blake3 threads job idx rounds)
  unfolding mine_job start_search search_round
  mine_job-At idx zero = record {
    nonce_at = refl;
    extra_at = ap (λ x. le_bytes 8 (x % 2 ^ 64)) (omega arith);
  }
  mine_job-At idx (suc r) =
      let a = mine_job-At idx r in
      record {
        nonce_at = omega arith;
        extra_at = rw (a.nonce_at, a.extra_at) (next_extra threads idx r);
      }

  pub extra_nonce2-value :
      (idx rounds : ℕ)
      → extra_nonce2_at threads idx rounds < 2 ^ 64
      → le_value (mine_job blake3 threads job idx rounds).extra_nonce2
        ≡ extra_nonce2_at threads idx rounds
  extra_nonce2-value idx rounds h =
      ap le_value (mine_job-At idx rounds).extra_at
      ∙ read_back (extra_nonce2_at threads idx rounds)
      ∙ mod-eq_of_lt h

-- Two numbers below `t` that reach the same number by steps of `t` are equal, and so are the steps.
residues : (t a b p q : ℕ) → a < t → b < t → a + t * p ≡ b + t * q → (a ≡ b) × (p ≡ q)
residues t a b p q ha hb e =
    let flip = λ (x y : ℕ). mul_comm x y in
    let e' : p * t + a ≡ q * t + b = omega (arith, flip t p, flip t q) in
    let ma : (p * t + a) % t ≡ a = mul-add-mod_self_right p t a ∙ mod-eq_of_lt ha in
    let mb : (q * t + b) % t ≡ b = mul-add-mod_self_right q t b ∙ mod-eq_of_lt hb in
    let same : a ≡ b = sym ma ∙ ap (λ x. x % t) e' ∙ mb in
    (same, eq_of_mul-eq-mul_left t (omega arith) p q (omega arith))

module _ (blake3 : Bytes → Bytes) (threads : ℕ) (job : Job) where
  -- While the 64 bit extra nonce does not wrap, two rounds that try the same extra nonce 2 and nonce
  -- are one round of one thread.
  pub positions_disjoint :
      (a b i j : ℕ)
      → a < threads
      → b < threads
      → extra_nonce2_at threads a i < 2 ^ 64
      → extra_nonce2_at threads b j < 2 ^ 64
      → (mine_job blake3 threads job a i).extra_nonce2
        ≡ (mine_job blake3 threads job b j).extra_nonce2
      → (mine_job blake3 threads job a i).nonce ≡ (mine_job blake3 threads job b j).nonce
      → (a ≡ b) × (i ≡ j)
  positions_disjoint a b i j ha hb fa fb e n =
      let v : a + threads * (i / 2 ^ 32) ≡ b + threads * (j / 2 ^ 32) =
        sym (extra_nonce2-value blake3 threads job a i fa)
        ∙ ap le_value e
        ∙ extra_nonce2-value blake3 threads job b j fb in
      let r = residues threads a b (i / 2 ^ 32) (j / 2 ^ 32) ha hb v in
      let m : i % 2 ^ 32 ≡ j % 2 ^ 32 =
        sym (mine_job-At blake3 threads job a i).nonce_at
        ∙ n
        ∙ (mine_job-At blake3 threads job b j).nonce_at in
      (r.0, omega arith)
