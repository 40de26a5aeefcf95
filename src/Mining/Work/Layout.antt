-- ===== src/Mining/Work/Layout.antt =====
-- The offsets, the record and the operations of header.go. A Go array `[192]byte` is a list whose
-- length `new_work` checks; slices of it are within its bounds.
use monetarium_stratum.Prelude.{
  ℕ, ◌+◌, ◌*◌, ◌/◌, ◌%◌, ◌^◌, [], ◌∷◌, ◌==◌, leb, length, take, replicate, Result, ok, ◌>>=◌, ◌>>◌,
  guard, or_fail,
}
use monetarium_stratum.Bytes.Slice.{Bytes, slice, copy_at, copy_range}
use monetarium_stratum.Bytes.Hex.{encode}
use monetarium_stratum.Mining.Chain.{Chain, max_block_header_payload}

abbrev pub getwork_data_len : ℕ
getwork_data_len = 192

abbrev pub prev_block_offset : ℕ
prev_block_offset = 4

abbrev pub merkle_root_offset : ℕ
merkle_root_offset = 36

abbrev pub bits_offset : ℕ
bits_offset = 116

abbrev pub height_offset : ℕ
height_offset = 128

abbrev pub timestamp_offset : ℕ
timestamp_offset = 136

abbrev pub nonce_offset : ℕ
nonce_offset = 140

abbrev pub extra_data_offset : ℕ
extra_data_offset = 144

abbrev pub extra_nonce1_size : ℕ
extra_nonce1_size = 4

abbrev pub extra_nonce2_size : ℕ
extra_nonce2_size = 8

pub record Work : Type 0 where
  pub job_id : Bytes
  pub height : ℕ  -- int64, from a uint32
  pub data_blob : Bytes

-- One constructor for each error that the operations return.
pub data WorkError : Type 0 where
  invalid_length extra_nonce1_too_large extra_nonce2_length timestamp_length nonce_length :
      ℕ → WorkError
  wire_error : WorkError

-- `u32LE`; the four bytes have no bit in common, so `|` adds them. A shorter slice would panic: all
-- callers pass four bytes.
unfoldable pub u32_le : Bytes → ℕ
u32_le (b0 ∷ b1 ∷ b2 ∷ b3 ∷ _) = b0 + b1 * 2 ^ 8 + b2 * 2 ^ 16 + b3 * 2 ^ 24
u32_le _ = 0

-- `u32LEPut`, as the four bytes that it stores.
unfoldable pub u32_le_put : ℕ → Bytes
u32_le_put v = (v % 256) ∷ (v / 2 ^ 8 % 256) ∷ (v / 2 ^ 16 % 256) ∷ (v / 2 ^ 24 % 256) ∷ []

-- `NewWork`
unfoldable pub new_work : Bytes → Bytes → Result WorkError Work
new_work blob job_id = do
  guard (length blob == getwork_data_len) (invalid_length (length blob))
  ok (record {
    job_id = job_id;
    height = u32_le (slice blob height_offset (height_offset + 4));
    data_blob = blob;
  })

unfoldable pub prev_block : Work → Bytes
prev_block w = slice w.data_blob prev_block_offset merkle_root_offset

unfoldable pub partial_header : Work → Bytes
partial_header w = slice w.data_blob merkle_root_offset max_block_header_payload

unfoldable pub version : Work → Bytes
version w = slice w.data_blob 0 4

unfoldable pub bits : Work → Bytes
bits w = slice w.data_blob bits_offset (bits_offset + 4)

unfoldable pub timestamp : Work → Bytes
timestamp w = slice w.data_blob timestamp_offset (timestamp_offset + 4)

-- `RefreshTimestamp`: a copy of the blob with another timestamp.
unfoldable pub refresh_timestamp : Work → ℕ → Bytes
unfolding u32_le_put
refresh_timestamp w ts =
    copy_range timestamp_offset (timestamp_offset + 4) w.data_blob (u32_le_put ts)

-- The four copies of `BuildSolvedHeader` into a copy of the blob.
unfoldable pub apply_submission : Work → Bytes → Bytes → Bytes → Bytes → Bytes
apply_submission w extra_nonce1 extra_nonce2 ntime nonce =
    let d1 =
      copy_range extra_data_offset (extra_data_offset + extra_nonce1_size) w.data_blob
        extra_nonce1 in
    let d2 =
      copy_range (extra_data_offset + extra_nonce1_size)
        (extra_data_offset + extra_nonce1_size + extra_nonce2_size) d1 extra_nonce2 in
    let d3 = copy_range timestamp_offset (timestamp_offset + 4) d2 ntime in
    copy_range nonce_offset (nonce_offset + 4) d3 nonce

module _ (c : Chain) where
  -- `BuildSolvedHeader`
  unfoldable pub build_solved_header :
      Work → Bytes → Bytes → Bytes → Bytes → Result WorkError c.Header
  unfolding apply_submission
  build_solved_header w extra_nonce1 extra_nonce2 ntime nonce = do
    guard (leb (length extra_nonce1) extra_nonce1_size)
        (extra_nonce1_too_large (length extra_nonce1))
    guard (length extra_nonce2 == extra_nonce2_size) (extra_nonce2_length (length extra_nonce2))
    guard (length ntime == 4) (timestamp_length (length ntime))
    guard (length nonce == 4) (nonce_length (length nonce))
    let d = apply_submission w extra_nonce1 extra_nonce2 ntime nonce
    or_fail (c.from_bytes (take max_block_header_payload d)) wire_error

  -- `SolvedHeaderData`: the serialized header in a fresh zeroed blob, in hexadecimal.
  unfoldable pub solved_header_data : Work → Bytes → Bytes → Bytes → Bytes → Result WorkError Bytes
  unfolding build_solved_header
  solved_header_data w extra_nonce1 extra_nonce2 ntime nonce = do
    header ← build_solved_header w extra_nonce1 extra_nonce2 ntime nonce
    header_bytes ← or_fail (c.to_bytes header) wire_error
    ok (encode (copy_at 0 (replicate getwork_data_len 0) header_bytes))
