-- ===== src/Miner/Search/Complete.antt =====
-- A thread tries every header that it is to try, and submits each that meets the share target.
use mathlib.Core.List.{Mem}
use monetarium_stratum.Prelude.{
  ℕ, ◌+◌, ◌-◌, ◌*◌, ◌/◌, ◌%◌, ◌^◌, ◌≤◌, ◌<◌, ◌≡◌, ◌⊎◌, sym, ap, ap₂, ◌∙◌, subst, true, Option, some,
  inl, inr, arith, ltb, ◌&&◌, if◌then◌else◌, leb, length, All, pos, get_elem?, get_elem?_ext,
}
use monetarium_stratum.Bytes.Slice.{Bytes, IsByte, slice, length-slice, take-All, drop-All}
use monetarium_stratum.Bytes.Splice.{get_elem?-slice_back}
use monetarium_stratum.Bytes.Endian.{le_bytes, le_value, le_value-lt, le_bytes-le_value}
use monetarium_stratum.Miner.Job.{Job, header_len, to_target_bytes, classify_solution}
use monetarium_stratum.Miner.Job.Compare.{rendered, cmp_hash_target-compare}
use monetarium_stratum.Miner.Search.{Found, place_nonces, hashed_header, mine_job}
use monetarium_stratum.Miner.Search.Header.{get_elem?-place_nonces, hashed_header-mine_job}
use monetarium_stratum.Miner.Search.Positions.{mine_job-At}
use monetarium_stratum.Miner.Search.Shares.{is_share_at, found_complete}

-- The bytes of a header that stand for the job, and not for a nonce or an extra nonce 2.
abbrev pub IsJobByte : ℕ → Type 0
IsJobByte i = (i < 140) ⊎ ((144 ≤ i) × (i < 148)) ⊎ (156 ≤ i)

-- The nonce and the extra nonce 2 of a header.
abbrev pub nonces_of : Bytes → Found
nonces_of h = record { extra_nonce2 = slice h 148 156; nonce = le_value (slice h 140 144) }

overlay :
    (i : ℕ) (e n d x : Option ℕ)
    → (148 ≤ i → i < 156 → e ≡ x)
    → (140 ≤ i → i < 144 → n ≡ x)
    → (i < 140 → x ≡ d)
    → (144 ≤ i → i < 148 → x ≡ d)
    → (156 ≤ i → x ≡ d)
    → (if leb 148 i && ltb i 156 then e else if leb 140 i && ltb i 144 then n else d) ≡ x
overlay i e n d x he hn low mid high = ground arith

-- A hash that is at most the share target is a share, whatever the block target.
classify_solution-share :
    (sum share_be block_be : Bytes) (share : ℕ)
    → length sum ≡ 32
    → All IsByte sum
    → to_target_bytes (pos share) ≡ some share_be
    → le_value sum ≤ share
    → (classify_solution sum share_be block_be).0 ≡ true
unfolding classify_solution
classify_solution-share sum share_be block_be share ls hs es le =
    let s = rendered share share_be es in
    rw (cmp_hash_target-compare sum share_be ls s.0 hs s.1, s.2) (ground arith)

module _ (h : Bytes) (sized : length h ≡ header_len) (bytes : All IsByte h) where
  slice-All : (a b : ℕ) → All IsByte (slice h a b)
  slice-All a b = take-All IsByte (b - a) _ (drop-All IsByte a h bytes)

  length-nonce : length (slice h 140 144) ≡ 4
  length-nonce = omega (arith, length-slice h 140 144)

  length-extra : length (slice h 148 156) ≡ 8
  length-extra = omega (arith, length-slice h 148 156)

  nonce_fits : le_value (slice h 140 144) < 2 ^ 32
  nonce_fits =
      subst (λ n. le_value (slice h 140 144) < 256 ^ n) length-nonce
        (le_value-lt (slice h 140 144) (slice-All 140 144))

  nonce_bytes : le_bytes 4 (le_value (slice h 140 144)) ≡ slice h 140 144
  nonce_bytes =
      subst (λ n. le_bytes n (le_value (slice h 140 144)) ≡ slice h 140 144) length-nonce
        (le_bytes-le_value (slice h 140 144) (slice-All 140 144))

  extra_bytes : le_bytes 8 (le_value (slice h 148 156) % 2 ^ 64) ≡ slice h 148 156
  extra_bytes =
      let fits : le_value (slice h 148 156) < 2 ^ 64 =
        subst (λ n. le_value (slice h 148 156) < 256 ^ n) length-extra
          (le_value-lt (slice h 148 156) (slice-All 148 156)) in
      let m : le_value (slice h 148 156) % 2 ^ 64 ≡ le_value (slice h 148 156) = omega arith in
      ap (le_bytes 8) m
      ∙ subst (λ n. le_bytes n (le_value (slice h 148 156)) ≡ slice h 148 156) length-extra
          (le_bytes-le_value (slice h 148 156) (slice-All 148 156))

  -- A header that agrees with the job's own but for its nonces is the job's with those in place.
  place_nonces-nonces_of :
      (own : Bytes)
      → length own ≡ header_len
      → ((i : ℕ) → IsJobByte i → get_elem? h i ≡ get_elem? own i)
      → place_nonces own (slice h 148 156) (le_value (slice h 140 144)) ≡ h
  place_nonces-nonces_of own size same = get_elem?_ext _ _ λ i.
      get_elem?-place_nonces own (slice h 148 156) (le_value (slice h 140 144)) i size length-extra
      ∙ rw nonce_bytes (
          overlay i _ _ _ _ (get_elem?-slice_back h 148 156 i) (get_elem?-slice_back h 140 144 i)
            (λ p. same i (inl p)) (λ p q. same i (inr (inl (p, q)))) (λ p. same i (inr (inr p))))

module _ (blake3 : Bytes → Bytes) (threads : ℕ) (job : Job) (sized : length job.header ≡ header_len)
    (share : ℕ) (share_fits : to_target_bytes (pos share) ≡ some job.share_target_be) where
  -- On a job whose header has 180 bytes and whose share target fits 32 bytes, take any header that
  -- agrees with the job's own but for the bytes of its nonce and of its extra nonce 2, whose hash has
  -- 32 bytes and is at most the share target, and whose extra nonce 2 is the thread's number and some
  -- multiple of the number of threads. The thread submits its extra nonce 2 and nonce, once it has
  -- gone through 2 ^ 32 rounds for each unit of that multiple, and one for each nonce up to its own.
  pub found_every_share :
      (h : Bytes) (idx sweep rounds : ℕ)
      → length h ≡ header_len
      → All IsByte h
      → ((i : ℕ) → IsJobByte i → get_elem? h i ≡ get_elem? job.header i)
      → length (blake3 h) ≡ 32
      → All IsByte (blake3 h)
      → le_value (blake3 h) ≤ share
      → le_value (slice h 148 156) ≡ idx + threads * sweep
      → sweep * 2 ^ 32 + le_value (slice h 140 144) < rounds
      → Mem (nonces_of h) (mine_job blake3 threads job idx rounds).found
  found_every_share h idx sweep rounds size bytes same hash_size hash_bytes le extra reached =
      let n = le_value (slice h 140 144) in
      let fits = nonce_fits h size bytes in
      let r = sweep * 2 ^ 32 + n in
      let s = mine_job blake3 threads job idx r in
      let at = mine_job-At blake3 threads job idx r in
      let rem : r % 2 ^ 32 ≡ n = omega arith in
      let quot : r / 2 ^ 32 ≡ sweep = omega arith in
      let nonce : s.nonce ≡ n = at.nonce_at ∙ rem in
      let extra2 : s.extra_nonce2 ≡ slice h 148 156 =
        at.extra_at
        ∙ ap (λ q. le_bytes 8 ((idx + threads * q) % 2 ^ 64)) quot
        ∙ ap (λ v. le_bytes 8 (v % 2 ^ 64)) (sym extra)
        ∙ extra_bytes h size bytes in
      let header : hashed_header s ≡ h =
        hashed_header-mine_job blake3 threads job sized idx r
        ∙ ap₂ (λ e m. place_nonces job.header e m) extra2 nonce
        ∙ place_nonces-nonces_of h size bytes job.header sized same in
      let hit : is_share_at blake3 threads job sized idx r ≡ true =
        ap (λ x. (classify_solution (blake3 x) job.share_target_be job.block_target_be).0) header
        ∙ classify_solution-share (blake3 h) job.share_target_be job.block_target_be share hash_size
            hash_bytes share_fits le in
      subst (λ f. Mem f (mine_job blake3 threads job idx rounds).found)
        (ap₂ (λ e m. record { extra_nonce2 = e; nonce = m }) extra2 nonce)
        (found_complete blake3 threads job sized idx rounds r reached hit)
