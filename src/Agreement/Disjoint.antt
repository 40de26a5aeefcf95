-- ===== src/Agreement/Disjoint.antt =====
-- No two miners of the pool hash the same header.
use native.Mathlib.Decide.{dec_lt}
use monetarium_stratum.Prelude.{
  ℕ, ◌+◌, ◌-◌, ◌^◌, ◌<◌, ◌≡◌, refl, sym, ap, ◌∙◌, arith, leb, ltb, ◌&&◌, if◌then◌else◌, length,
  get_elem?, get_elem?_ext, get_elem?_of_length-le,
}
use monetarium_stratum.Bytes.Slice.{Bytes}
use monetarium_stratum.Bytes.Endian.{le_bytes, le_value, le_value-le_bytes, length-le_bytes}
use monetarium_stratum.Mining.Work.{Work}
use monetarium_stratum.Mining.Work.Solved.{IsBlob}
use monetarium_stratum.Miner.Search.{place_nonces}
use monetarium_stratum.Miner.Search.Header.{get_elem?-place_nonces}
use monetarium_stratum.Agreement.Header.{job_header, length-job_header, get_elem?-job_header}

-- Byte strings of one length that agree within it.
ext_of_length :
    (n : ℕ) (xs ys : Bytes)
    → length xs ≡ n
    → length ys ≡ n
    → ((i : ℕ) → i < n → get_elem? xs i ≡ get_elem? ys i)
    → xs ≡ ys
ext_of_length n xs ys hx hy same = get_elem?_ext xs ys λ i. elim (dec_lt i n) [
  | yes h ↦ same i h
  | no h ↦
      get_elem?_of_length-le xs i (omega arith) ∙ sym (get_elem?_of_length-le ys i (omega arith))
]

module _ (w : Work) (blob : IsBlob w) (e1 : Bytes) (sized : length e1 ≡ 4) (e2 : Bytes) (n : ℕ)
    (le : length e2 ≡ 8) where
  abbrev hashed : Bytes
  hashed = place_nonces (job_header w blob e1 sized) e2 n

  byte_of_hashed :
      (i : ℕ)
      → i < 180
      → get_elem? hashed i ≡ (
          if leb 148 i && ltb i 156
          then get_elem? e2 (i - 148)
          else if leb 140 i && ltb i 144
          then get_elem? (le_bytes 4 n) (i - 140)
          else if leb 144 i && ltb i 148
          then get_elem? e1 (i - 144)
          else get_elem? w.data_blob i)
  byte_of_hashed i h =
      rw
        (
          get_elem?-place_nonces (job_header w blob e1 sized) e2 n i
              (length-job_header w blob e1 sized) le,
          get_elem?-job_header w blob e1 sized i h,
        )
        refl

  reads_extra_nonce1 : (i : ℕ) → i < 4 → get_elem? hashed (144 + i) ≡ get_elem? e1 i
  reads_extra_nonce1 i h =
      let back : 144 + i - 144 ≡ i = omega arith in
      byte_of_hashed (144 + i) (omega arith) ∙ rw back (ground arith)

  reads_extra_nonce2 : (i : ℕ) → i < 8 → get_elem? hashed (148 + i) ≡ get_elem? e2 i
  reads_extra_nonce2 i h =
      let back : 148 + i - 148 ≡ i = omega arith in
      byte_of_hashed (148 + i) (omega arith) ∙ rw back (ground arith)

  reads_nonce : (i : ℕ) → i < 4 → get_elem? hashed (140 + i) ≡ get_elem? (le_bytes 4 n) i
  reads_nonce i h =
      let back : 140 + i - 140 ≡ i = omega arith in
      byte_of_hashed (140 + i) (omega arith) ∙ rw back (ground arith)

-- Headers that two miners hash, on jobs that the pool made of any two blobs, with extra nonces of 4
-- and 8 bytes and 32 bit nonces, are equal only where the extra nonces 1, the extra nonces 2 and
-- the nonces are.
pub hashed_header_inj :
    (w w' : Work) (blob : IsBlob w) (blob' : IsBlob w') (e1 e1' : Bytes) (sized : length e1 ≡ 4)
    (sized' : length e1' ≡ 4) (e2 e2' : Bytes) (n n' : ℕ)
    → length e2 ≡ 8
    → length e2' ≡ 8
    → n < 2 ^ 32
    → n' < 2 ^ 32
    → place_nonces (job_header w blob e1 sized) e2 n
      ≡ place_nonces (job_header w' blob' e1' sized') e2' n'
    → (e1 ≡ e1') × (e2 ≡ e2') × (n ≡ n')
hashed_header_inj w w' blob blob' e1 e1' sized sized' e2 e2' n n' le le' fits fits' same =
    let word : le_bytes 4 n ≡ le_bytes 4 n' =
      ext_of_length 4 _ _ (length-le_bytes 4 n) (length-le_bytes 4 n') (λ i h.
        sym (reads_nonce w blob e1 sized e2 n le i h)
        ∙ ap (λ b. get_elem? b (140 + i)) same
        ∙ reads_nonce w' blob' e1' sized' e2' n' le' i h) in
    (
      ext_of_length 4 _ _ sized sized' (λ i h.
          sym (reads_extra_nonce1 w blob e1 sized e2 n le i h)
          ∙ ap (λ b. get_elem? b (144 + i)) same
          ∙ reads_extra_nonce1 w' blob' e1' sized' e2' n' le' i h),
      ext_of_length 8 _ _ le le' (λ i h.
          sym (reads_extra_nonce2 w blob e1 sized e2 n le i h)
          ∙ ap (λ b. get_elem? b (148 + i)) same
          ∙ reads_extra_nonce2 w' blob' e1' sized' e2' n' le' i h),
      sym (le_value-le_bytes 4 n (omega arith))
          ∙ ap le_value word
          ∙ le_value-le_bytes 4 n' (omega arith),
    )
