-- ===== src/Miner/Search/Shares.antt =====
-- What a thread submits: the rounds whose header is a share of the job, all of them and no other.
use mathlib.Core.List.{Mem, mem-append_left, mem-append_right, mem-cons_self}
use native.Mathlib.Decide.{ℕ_discrete}
use monetarium_stratum.Prelude.{
  ℕ, zero, suc, ◌^◌, ◌<◌, ◌≡◌, refl, sym, subst, inl, inr, Bool, true, List, [], ◌∷◌, ◌++◌, arith,
  if◌then◌else◌, Bool-cases, length, All,
}
use monetarium_stratum.Bytes.Slice.{Bytes, IsByte}
use monetarium_stratum.Bytes.Endian.{le_bytes-All}
use monetarium_stratum.Miner.Job.{Job, header_len, classify_solution}
use monetarium_stratum.Miner.Search.{
  Found, Search, place_nonces, hashed_header, start_search, search_round, mine_job,
}
use monetarium_stratum.Miner.Search.Header.{hashed_header-mine_job, mine_job-KeepsHeader}
use monetarium_stratum.Miner.Search.Positions.{mine_job-At}

-- A solution whose header meets the job's share target, with fields of the right sizes.
pub record IsShare (blake3 : Bytes → Bytes) (job : Job) (f : Found) : Type 0 where
  pub meets_target :
      (classify_solution
        (blake3 (place_nonces job.header f.extra_nonce2 f.nonce))
        job.share_target_be
        job.block_target_be).0
      ≡ true
  pub extra_nonce2_sized : length f.extra_nonce2 ≡ 8
  pub extra_nonce2_bytes : All IsByte f.extra_nonce2
  pub nonce_fits : f.nonce < 2 ^ 32

abbrev solution : Search → Found
solution s = record { extra_nonce2 = s.extra_nonce2; nonce = s.nonce }

pub snoc-All :
    {A : Type 0} (P : A → Type 0) (xs : List A) (x : A) → All P xs → P x → All P (xs ++ x ∷ [])
snoc-All P [] x h p = (p, tt)
snoc-All P (y ∷ xs) x h p = (h.0, snoc-All P xs x h.1 p)

module _ (blake3 : Bytes → Bytes) (threads : ℕ) (job : Job)
    (sized : length job.header ≡ header_len) where
  abbrev state : ℕ → ℕ → Search
  state idx rounds = mine_job blake3 threads job idx rounds

  -- Whether the header of a round meets the share target.
  abbrev pub is_share_at : ℕ → ℕ → Bool
  is_share_at idx rounds =
      (classify_solution (blake3 (hashed_header (state idx rounds))) job.share_target_be
        job.block_target_be).0

  solution-IsShare :
      (idx r : ℕ) → is_share_at idx r ≡ true → IsShare blake3 job (solution (state idx r))
  solution-IsShare idx r h = record {
    meets_target =
        subst (λ x. (classify_solution (blake3 x) job.share_target_be job.block_target_be).0 ≡ true)
          (hashed_header-mine_job blake3 threads job sized idx r) h;
    extra_nonce2_sized = (mine_job-KeepsHeader blake3 threads job sized idx r).extra_nonce2_sized;
    extra_nonce2_bytes =
        subst (All IsByte) (sym (mine_job-At blake3 threads job idx r).extra_at) (le_bytes-All 8 _);
    nonce_fits = omega (arith, (mine_job-At blake3 threads job idx r).nonce_at);
  }

  found_step :
      (idx r : ℕ)
      → (state idx (suc r)).found ≡ (
          if is_share_at idx r
          then (state idx r).found ++ solution (state idx r) ∷ []
          else (state idx r).found)
  unfolding mine_job search_round
  found_step idx r = refl

  found_start : (idx : ℕ) → (state idx 0).found ≡ []
  unfolding mine_job start_search
  found_start idx = refl

  found_grows :
      (idx r : ℕ) (f : Found) → Mem f (state idx r).found → Mem f (state idx (suc r)).found
  found_grows idx r f m = elim (Bool-cases (is_share_at idx r)) [
    | inl h ↦ rw (found_step idx r, h) (mem-append_left (solution (state idx r) ∷ []) m)
    | inr h ↦ rw (found_step idx r, h) m
  ]

  found_new :
      (idx r : ℕ)
      → is_share_at idx r ≡ true
      → Mem (solution (state idx r)) (state idx (suc r)).found
  found_new idx r h = rw (found_step idx r, h) (mem-append_right (state idx r).found mem-cons_self)

  -- On a job whose header has 180 bytes, all that a thread submits meets the share target, with an
  -- extra nonce 2 of eight bytes and a nonce of 32 bits.
  pub found-IsShare : (idx rounds : ℕ) → All (IsShare blake3 job) (state idx rounds).found
  found-IsShare idx zero = rw (found_start idx) tt
  found-IsShare idx (suc r) = elim (Bool-cases (is_share_at idx r)) [
    | inl h ↦
        rw (found_step idx r, h)
          (snoc-All (IsShare blake3 job) _ _ (found-IsShare idx r) (solution-IsShare idx r h))
    | inr h ↦ rw (found_step idx r, h) (found-IsShare idx r)
  ]

  -- On a job whose header has 180 bytes, every round before the last whose header meets the share
  -- target is submitted.
  pub found_complete :
      (idx rounds i : ℕ)
      → i < rounds
      → is_share_at idx i ≡ true
      → Mem (solution (state idx i)) (state idx rounds).found
  found_complete idx zero i h s = absurd (omega arith)
  found_complete idx (suc r) i h s = elim (ℕ_discrete i r) [
    | yes e ↦
        subst
          (λ k. is_share_at idx k ≡ true → Mem (solution (state idx k)) (state idx (suc r)).found)
          (sym e) (found_new idx r) s
    | no ne ↦ found_grows idx r _ (found_complete idx r i (omega arith) s)
  ]

  -- One hash is counted for each round.
  pub hashes-mine_job : (idx rounds : ℕ) → (state idx rounds).hashes ≡ rounds
  unfolding mine_job start_search search_round
  hashes-mine_job idx zero = refl
  hashes-mine_job idx (suc r) = omega (arith, hashes-mine_job idx r)
