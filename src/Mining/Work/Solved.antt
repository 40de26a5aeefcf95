-- ===== src/Mining/Work/Solved.antt =====
-- `BuildSolvedHeader` and `SolvedHeaderData`: which submissions they accept, and the bytes that
-- they make.
use native.Mathlib.Decide.{dec_le, ℕ_discrete}
use monetarium_stratum.Prelude.{
  ◌++◌, ℕ, ◌+◌, ◌-◌, ◌≤◌, ◌≡◌, refl, ap, ◌∙◌, ◌⊎◌, inl, inr, ◌&&◌, Option, some, arith, ltb, leb,
  if◌then◌else◌, length, get_elem?, take, replicate, ok, err, All, length-take,
}
use monetarium_stratum.Bytes.Slice.{
  Bytes, IsByte, copy_at, copy_range, length-copy_at, take-All, copy_at-All,
}
use monetarium_stratum.Bytes.Splice.{copy_at-replicate, get_elem?-copy_range}
use monetarium_stratum.Bytes.Hex.{encode}
use monetarium_stratum.Mining.Chain.{Chain, IsWireFormat, max_block_header_payload}
use monetarium_stratum.Mining.Work.Layout.{
  Work, WorkError, extra_nonce1_too_large, extra_nonce2_length, timestamp_length, nonce_length,
  getwork_data_len, apply_submission, build_solved_header, solved_header_data,
}

-- The sizes that the four fields of a submission must have.
pub record IsSubmission (extra_nonce1 extra_nonce2 ntime nonce : Bytes) : Type 0 where
  pub extra_nonce1_fits : length extra_nonce1 ≤ 4
  pub extra_nonce2_fits : length extra_nonce2 ≡ 8
  pub ntime_fits : length ntime ≡ 4
  pub nonce_fits : length nonce ≡ 4

module _ (w : Work) (extra_nonce1 extra_nonce2 ntime nonce : Bytes) where
  -- The blob with the four fields at their places, read at each byte.
  abbrev pub submission_byte : ℕ → Option ℕ
  submission_byte i =
      if leb 140 i && ltb i 144
      then get_elem? nonce (i - 140)
      else if leb 136 i && ltb i 140
      then get_elem? ntime (i - 136)
      else if leb 148 i && ltb i 156
      then get_elem? extra_nonce2 (i - 148)
      else if leb 144 i && ltb i (144 + length extra_nonce1)
      then get_elem? extra_nonce1 (i - 144)
      else get_elem? w.data_blob i

  pub length-apply_submission :
      length (apply_submission w extra_nonce1 extra_nonce2 ntime nonce) ≡ length w.data_blob
  unfolding apply_submission
  length-apply_submission =
      length-copy_at 140 _ _
      ∙ length-copy_at 136 _ _
      ∙ length-copy_at 148 _ _
      ∙ length-copy_at 144 _ _

  pub get_elem?-apply_submission :
      (i : ℕ)
      → length w.data_blob ≡ getwork_data_len
      → IsSubmission extra_nonce1 extra_nonce2 ntime nonce
      → get_elem? (apply_submission w extra_nonce1 extra_nonce2 ntime nonce) i ≡ submission_byte i
  unfolding apply_submission
  get_elem?-apply_submission i h sizes =
      let d1 = copy_range 144 148 w.data_blob extra_nonce1 in
      let d2 = copy_range 148 156 d1 extra_nonce2 in
      let d3 = copy_range 136 140 d2 ntime in
      let l1 : length d1 ≡ 192 = length-copy_at 144 w.data_blob _ ∙ h in
      let l2 : length d2 ≡ 192 = length-copy_at 148 d1 _ ∙ l1 in
      let l3 : length d3 ≡ 192 = length-copy_at 136 d2 _ ∙ l2 in
      rw
        (
          get_elem?-copy_range 140 144 d3 nonce i (omega arith) (omega arith) (omega arith),
          get_elem?-copy_range 136 140 d2 ntime i (omega arith) (omega arith) (omega arith),
          get_elem?-copy_range 148 156 d1 extra_nonce2 i (omega arith) (omega arith) (omega arith),
          get_elem?-copy_range 144 148 w.data_blob extra_nonce1 i (omega arith) (omega arith)
              (omega arith),
        )
        (rw (sizes.nonce_fits, sizes.ntime_fits, sizes.extra_nonce2_fits) refl)

  pub apply_submission-All :
      All IsByte w.data_blob
      → All IsByte extra_nonce1
      → All IsByte extra_nonce2
      → All IsByte ntime
      → All IsByte nonce
      → All IsByte (apply_submission w extra_nonce1 extra_nonce2 ntime nonce)
  unfolding apply_submission
  apply_submission-All hd h1 h2 ht hn =
      copy_at-All IsByte 140 _ _
        (copy_at-All IsByte 136 _ _
          (copy_at-All IsByte 148 _ _ (copy_at-All IsByte 144 _ _ hd (take-All IsByte 4 _ h1))
            (take-All IsByte 8 _ h2))
          (take-All IsByte 4 _ ht))
        (take-All IsByte 4 _ hn)

-- A blob and the four fields of a submission hold bytes, and the blob has its size.
pub record IsBlob (w : Work) : Type 0 where
  pub sized : length w.data_blob ≡ getwork_data_len
  pub bytes : All IsByte w.data_blob

pub record AreBytes (extra_nonce1 extra_nonce2 ntime nonce : Bytes) : Type 0 where
  pub extra_nonce1_bytes : All IsByte extra_nonce1
  pub extra_nonce2_bytes : All IsByte extra_nonce2
  pub ntime_bytes : All IsByte ntime
  pub nonce_bytes : All IsByte nonce

module _ (c : Chain) (law : IsWireFormat c) (w : Work)
    (extra_nonce1 extra_nonce2 ntime nonce : Bytes) (blob : IsBlob w)
    (fields : AreBytes extra_nonce1 extra_nonce2 ntime nonce) where
  abbrev pub solved_bytes : Bytes
  solved_bytes =
      take max_block_header_payload (apply_submission w extra_nonce1 extra_nonce2 ntime nonce)

  solved_bytes-length : length solved_bytes ≡ max_block_header_payload
  solved_bytes-length = omega (
    arith,
    length-take max_block_header_payload (apply_submission w extra_nonce1 extra_nonce2 ntime nonce),
    length-apply_submission w extra_nonce1 extra_nonce2 ntime nonce,
    blob.sized,
  )

  pub solved_bytes_parse :
      (header : c.Header) × (c.from_bytes solved_bytes ≡ some header)
      × (c.to_bytes header ≡ some solved_bytes)
  solved_bytes_parse = law.parses solved_bytes solved_bytes-length (
      take-All IsByte max_block_header_payload _ (
        apply_submission-All w extra_nonce1 extra_nonce2 ntime nonce blob.bytes
          fields.extra_nonce1_bytes fields.extra_nonce2_bytes fields.ntime_bytes
          fields.nonce_bytes))

  pub build_solved_header_ok :
      IsSubmission extra_nonce1 extra_nonce2 ntime nonce
      → build_solved_header c w extra_nonce1 extra_nonce2 ntime nonce ≡ ok solved_bytes_parse.0
  unfolding build_solved_header
  build_solved_header_ok sizes = ground (arith, solved_bytes_parse.1)

  -- For a blob of 192 bytes, a submission is turned into a header exactly when its fields have the
  -- sizes of the layout, and the header serializes to the first 180 bytes of the blob with the
  -- fields at their places.
  pub build_solved_header_lem :
      (IsSubmission extra_nonce1 extra_nonce2 ntime nonce
        × ((header : c.Header) × (build_solved_header c w extra_nonce1 extra_nonce2 ntime nonce
              ≡ ok header)
            × (c.to_bytes header ≡ some solved_bytes)))
      ⊎ ((¬ IsSubmission extra_nonce1 extra_nonce2 ntime nonce)
          × ((e : WorkError) × (build_solved_header c w extra_nonce1 extra_nonce2 ntime nonce
                ≡ err e)))
  unfolding build_solved_header
  build_solved_header_lem = elim (dec_le (length extra_nonce1) 4) [
    | no h ↦
        inr
          (λ s. h s.extra_nonce1_fits, (extra_nonce1_too_large (length extra_nonce1), ground arith))
    | yes h1 ↦ elim (ℕ_discrete (length extra_nonce2) 8) [
      | no h ↦
          inr
            (λ s. h s.extra_nonce2_fits, (extra_nonce2_length (length extra_nonce2), ground arith))
      | yes h2 ↦ elim (ℕ_discrete (length ntime) 4) [
        | no h ↦ inr (λ s. h s.ntime_fits, (timestamp_length (length ntime), ground arith))
        | yes h3 ↦ elim (ℕ_discrete (length nonce) 4) [
          | no h ↦ inr (λ s. h s.nonce_fits, (nonce_length (length nonce), ground arith))
          | yes h4 ↦
              let sizes : IsSubmission extra_nonce1 extra_nonce2 ntime nonce = omega arith in
              inl
                (sizes, (solved_bytes_parse.0, build_solved_header_ok sizes, solved_bytes_parse.2))
        ]
      ]
    ]
  ]

  -- For a blob of 192 bytes and fields of the right sizes, what is sent to the node is the solved
  -- header and twelve zero bytes, in hexadecimal.
  pub solved_header_data_lem :
      IsSubmission extra_nonce1 extra_nonce2 ntime nonce
      → solved_header_data c w extra_nonce1 extra_nonce2 ntime nonce
        ≡ ok (encode (solved_bytes ++ replicate 12 0))
  unfolding solved_header_data
  solved_header_data_lem sizes =
      let e : getwork_data_len ≡ length solved_bytes + 12 = omega (arith, solved_bytes-length) in
      rw (build_solved_header_ok sizes, solved_bytes_parse.2)
        (ap (λ b. ok (encode b))
          (ap (λ n. copy_at 0 (replicate n 0) solved_bytes) e
            ∙ copy_at-replicate 12 0 solved_bytes))
