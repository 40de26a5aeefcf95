-- ===== src/Agreement/Header.antt =====
-- internal/mining/header.go against cmd/cpuminer/miner.go: the header that the pool rebuilds is the
-- header that the miner hashed.
use native.Mathlib.Decide.{dec_lt}
use monetarium_stratum.Prelude.{
  true, false, ℕ, ◌+◌, ◌-◌, ◌≤◌, ◌<◌, ◌≡◌, sym, ◌∙◌, Option, arith, ltb, leb, ◌&&◌, if◌then◌else◌,
  length, take, replicate, get_elem?, get_elem?_ext, get_elem?-take, get_elem?_of_length-le,
  length-replicate, All,
}
use monetarium_stratum.Bytes.Slice.{
  Bytes, IsByte, slice, copy_at, length-copy_at, length-slice, take-All, drop-All,
}
use monetarium_stratum.Bytes.Splice.{get_elem?-copy_fit, get_elem?-slice_back}
use monetarium_stratum.Bytes.Endian.{le_bytes, length-le_bytes}
use monetarium_stratum.Mining.Chain.{max_block_header_payload}
use monetarium_stratum.Mining.Work.{
  Work, apply_submission, version, prev_block, partial_header, timestamp,
}
use monetarium_stratum.Mining.Work.Solved.{IsBlob, IsSubmission, get_elem?-apply_submission}
use monetarium_stratum.Miner.Job.{assemble, header_len}
use monetarium_stratum.Miner.Search.{place_nonces}
use monetarium_stratum.Miner.Search.Header.{get_elem?-place_nonces, length-place_nonces}

slice-All : (xs : Bytes) (a b : ℕ) → All IsByte xs → All IsByte (slice xs a b)
slice-All xs a b h = take-All IsByte (b - a) _ (drop-All IsByte a xs h)

-- The fields of the notification cover the header.
regions :
    (i : ℕ) (e t g p v z d : Option ℕ)
    → i < 180
    → (136 ≤ i → i < 140 → t ≡ d)
    → (36 ≤ i → i < 180 → g ≡ d)
    → (4 ≤ i → i < 36 → p ≡ d)
    → (0 ≤ i → i < 4 → v ≡ d)
    → (if leb 144 i && ltb i (144 + 4)
        then e
        else if leb 136 i && ltb i (136 + 4)
        then t
        else if leb 36 i && ltb i (36 + 144)
        then g
        else if leb 4 i && ltb i (4 + 32)
        then p
        else if leb 0 i && ltb i (0 + 4)
        then v
        else z)
      ≡ (if leb 144 i && ltb i 148 then e else d)
regions i e t g p v z d h ht hg hp hv = ground arith

module _ (w : Work) (blob : IsBlob w) (extra_nonce1 : Bytes) (sized : length extra_nonce1 ≡ 4) where
  -- The header that the miner puts together from the fields of the notification.
  abbrev pub job_header : Bytes
  job_header = assemble (version w) (prev_block w) (partial_header w) (timestamp w) extra_nonce1

  pub length-job_header : length job_header ≡ header_len
  unfolding assemble
  length-job_header =
      length-copy_at 144 _ _
      ∙ length-copy_at 136 _ _
      ∙ length-copy_at 36 _ _
      ∙ length-copy_at 4 _ _
      ∙ length-copy_at 0 _ _
      ∙ length-replicate {A = ℕ} 180 0

  -- It is the blob's header with the extra nonce 1 in place.
  pub get_elem?-job_header :
      (i : ℕ)
      → i < header_len
      → get_elem? job_header i ≡ (
          if leb 144 i && ltb i 148
          then get_elem? extra_nonce1 (i - 144)
          else get_elem? w.data_blob i)
  unfolding assemble version prev_block partial_header timestamp
  get_elem?-job_header i h =
      let v = version w in
      let p = prev_block w in
      let g = partial_header w in
      let t = timestamp w in
      let h0 : Bytes = replicate header_len 0 in
      let h1 = copy_at 0 h0 v in
      let h2 = copy_at 4 h1 p in
      let h3 = copy_at 36 h2 g in
      let h4 = copy_at 136 h3 t in
      let l0 : length h0 ≡ 180 = length-replicate {A = ℕ} 180 0 in
      let l1 : length h1 ≡ 180 = length-copy_at 0 h0 v ∙ l0 in
      let l2 : length h2 ≡ 180 = length-copy_at 4 h1 p ∙ l1 in
      let l3 : length h3 ≡ 180 = length-copy_at 36 h2 g ∙ l2 in
      let l4 : length h4 ≡ 180 = length-copy_at 136 h3 t ∙ l3 in
      let lv : length v ≡ 4 = omega (arith, length-slice w.data_blob 0 4, blob.sized) in
      let lp : length p ≡ 32 = omega (arith, length-slice w.data_blob 4 36, blob.sized) in
      let lg : length g ≡ 144 = omega (arith, length-slice w.data_blob 36 180, blob.sized) in
      let lt : length t ≡ 4 = omega (arith, length-slice w.data_blob 136 140, blob.sized) in
      rw
        (
          get_elem?-copy_fit 144 h4 extra_nonce1 i (omega arith),
          get_elem?-copy_fit 136 h3 t i (omega arith),
          get_elem?-copy_fit 36 h2 g i (omega arith),
          get_elem?-copy_fit 4 h1 p i (omega arith),
          get_elem?-copy_fit 0 h0 v i (omega arith),
          lv,
          lp,
          lg,
          lt,
          sized,
        )
        (regions i _ _ _ _ _ _ _ h (get_elem?-slice_back w.data_blob 136 140 i)
          (get_elem?-slice_back w.data_blob 36 180 i) (get_elem?-slice_back w.data_blob 4 36 i)
          (get_elem?-slice_back w.data_blob 0 4 i))

-- The two orders in which the fields are laid over the blob agree.
overlays :
    (i : ℕ) (n t e2 e1 d : Option ℕ)
    → (136 ≤ i → i < 140 → t ≡ d)
    → (if leb 140 i && ltb i 144
        then n
        else if leb 136 i && ltb i 140
        then t
        else if leb 148 i && ltb i 156
        then e2
        else if leb 144 i && ltb i (144 + 4)
        then e1
        else d)
      ≡ (if leb 148 i && ltb i 156
          then e2
          else if leb 140 i && ltb i 144
          then n
          else if leb 144 i && ltb i 148
          then e1
          else d)
overlays i n t e2 e1 d h = ground arith

module _ (w : Work) (blob : IsBlob w) (extra_nonce1 : Bytes) (sized : length extra_nonce1 ≡ 4) where
  abbrev rebuilt : Bytes → ℕ → Bytes
  rebuilt e2 n = apply_submission w extra_nonce1 e2 (timestamp w) (le_bytes 4 n)

  abbrev header : Bytes
  header = job_header w blob extra_nonce1 sized

  length-timestamp : length (timestamp w) ≡ 4
  unfolding timestamp
  length-timestamp = omega (arith, length-slice w.data_blob 136 140, blob.sized)

  pub miner-IsSubmission :
      (e2 : Bytes) (n : ℕ)
      → length e2 ≡ 8
      → IsSubmission extra_nonce1 e2 (timestamp w) (le_bytes 4 n)
  miner-IsSubmission e2 n h = record {
    extra_nonce1_fits = omega arith;
    extra_nonce2_fits = h;
    ntime_fits = length-timestamp;
    nonce_fits = length-le_bytes 4 n;
  }

  rebuilt_byte :
      (e2 : Bytes) (n i : ℕ)
      → length e2 ≡ 8
      → i < 180
      → get_elem? (rebuilt e2 n) i ≡ get_elem? (place_nonces header e2 n) i
  unfolding timestamp
  rebuilt_byte e2 n i le h =
      rw
        (
          get_elem?-apply_submission w extra_nonce1 e2 (timestamp w) (le_bytes 4 n) i blob.sized
              (miner-IsSubmission e2 n le),
          get_elem?-place_nonces header e2 n i (length-job_header w blob extra_nonce1 sized) le,
          get_elem?-job_header w blob extra_nonce1 sized i h,
          sized,
        )
        (overlays i _ _ _ _ _ (get_elem?-slice_back w.data_blob 136 140 i))

  -- For a blob of 192 bytes, an extra nonce 1 of 4 bytes and an extra nonce 2 of 8: the header that
  -- the pool rebuilds from a submission is, byte for byte, the header that the miner hashed.
  pub rebuilt-place_nonces :
      (e2 : Bytes) (n : ℕ)
      → length e2 ≡ 8
      → take max_block_header_payload (rebuilt e2 n) ≡ place_nonces header e2 n
  rebuilt-place_nonces e2 n le = get_elem?_ext _ _ λ i. elim (dec_lt i 180) [
    | yes h ↦
        get_elem?-take 180 (rebuilt e2 n) i
        ∙ (let t : ltb i 180 ≡ true = ground arith in rw t (rebuilt_byte e2 n i le h))
    | no h ↦
        get_elem?-take 180 (rebuilt e2 n) i
        ∙ (let t : ltb i 180 ≡ false = ground arith in
            rw t (
              sym (
                get_elem?_of_length-le (place_nonces header e2 n) i (
                  omega (
                    arith,
                    length-place_nonces header e2 n,
                    length-job_header w blob extra_nonce1 sized,
                  )))))
  ]
