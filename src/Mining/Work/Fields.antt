-- ===== src/Mining/Work/Fields.antt =====
-- What `new_work` accepts, the fields of a job, and the refreshed timestamp.
use native.Mathlib.Decide.{ℕ_discrete}
use monetarium_stratum.Prelude.{
  ℕ, ◌+◌, ◌^◌, ◌≤◌, ◌<◌, ◌≡◌, ◌≢◌, refl, ap, ◌∙◌, ◌⊎◌, [], ◌∷◌, arith, length, get_elem?, ok, err,
  All, inl, inr,
}
use monetarium_stratum.Bytes.Slice.{Bytes, IsByte, slice, length-copy_at, length-slice, copy_at-All}
use monetarium_stratum.Bytes.Splice.{slice-copy_range_self, get_elem?-copy_range_ne}
use monetarium_stratum.Bytes.Endian.{le_bytes, le_value, le_value-le_bytes}
use monetarium_stratum.Mining.Work.Layout.{
  Work, invalid_length, getwork_data_len, height_offset, timestamp_offset, u32_le, u32_le_put,
  new_work, refresh_timestamp,
}

-- The hand-written readers agree with encoding/binary.
pub u32_le_put-le_bytes : (v : ℕ) → u32_le_put v ≡ le_bytes 4 v
unfolding u32_le_put le_bytes
u32_le_put-le_bytes v = ground arith

pub u32_le-le_value : (b : Bytes) → length b ≡ 4 → u32_le b ≡ le_value b
unfolding u32_le le_value
u32_le-le_value (b0 ∷ b1 ∷ b2 ∷ b3 ∷ []) h = omega arith
u32_le-le_value _ h = absurd (omega arith)

pub u32_le-u32_le_put : (v : ℕ) → v < 2 ^ 32 → u32_le (u32_le_put v) ≡ v
unfolding u32_le u32_le_put
u32_le-u32_le_put v h = omega arith

-- A job is made from exactly the blobs of 192 bytes, and keeps the blob and the height word in it.
pub new_work_lem :
    (blob job_id : Bytes)
    → ((length blob ≡ getwork_data_len)
        × ((w : Work) × (new_work blob job_id ≡ ok w)
            × (w.job_id ≡ job_id)
            × (w.data_blob ≡ blob)
            × (w.height ≡ le_value (slice blob height_offset (height_offset + 4)))))
      ⊎ ((length blob ≢ getwork_data_len)
          × (new_work blob job_id ≡ err (invalid_length (length blob))))
unfolding new_work
new_work_lem blob job_id = elim (ℕ_discrete (length blob) getwork_data_len) [
  | yes h ↦ inl (
    h,
    (
      record {
        job_id = job_id;
        height = u32_le (slice blob height_offset (height_offset + 4));
        data_blob = blob;
      },
      ground arith,
      refl,
      refl,
      u32_le-le_value _ (omega (arith, length-slice blob height_offset (height_offset + 4))),
    ),
  )
  | no h ↦ inr (h, ground arith)
]

length-u32_le_put : (v : ℕ) → length (u32_le_put v) ≡ 4
unfolding u32_le_put
length-u32_le_put v = refl

pub length-refresh_timestamp :
    (w : Work) (ts : ℕ) → length (refresh_timestamp w ts) ≡ length w.data_blob
unfolding refresh_timestamp
length-refresh_timestamp w ts = length-copy_at timestamp_offset w.data_blob _

pub timestamp_of_refreshed :
    (w : Work) (ts : ℕ)
    → length w.data_blob ≡ getwork_data_len
    → ts < 2 ^ 32
    → le_value (slice (refresh_timestamp w ts) timestamp_offset (timestamp_offset + 4)) ≡ ts
unfolding refresh_timestamp
timestamp_of_refreshed w ts h fits =
    ap le_value (
      slice-copy_range_self timestamp_offset (timestamp_offset + 4) w.data_blob _
        (length-u32_le_put ts) (omega arith) (omega arith)
      ∙ u32_le_put-le_bytes ts)
    ∙ le_value-le_bytes 4 ts (omega arith)

-- A refreshed blob of the right size has that size and the new 32 bit timestamp, and every byte
-- outside the timestamp's field as before.
pub refresh_timestamp_lem :
    (w : Work) (ts i : ℕ)
    → length w.data_blob ≡ getwork_data_len
    → ts < 2 ^ 32
    → (i < timestamp_offset) ⊎ (timestamp_offset + 4 ≤ i)
    → (length (refresh_timestamp w ts) ≡ getwork_data_len)
      × (le_value (slice (refresh_timestamp w ts) timestamp_offset (timestamp_offset + 4)) ≡ ts)
      × (get_elem? (refresh_timestamp w ts) i ≡ get_elem? w.data_blob i)
unfolding refresh_timestamp
refresh_timestamp_lem w ts i h fits out = (
  length-refresh_timestamp w ts ∙ h,
  timestamp_of_refreshed w ts h fits,
  get_elem?-copy_range_ne timestamp_offset (timestamp_offset + 4) w.data_blob (u32_le_put ts) i
      (length-u32_le_put ts) out,
)

pub refresh_timestamp-All :
    (w : Work) (ts : ℕ) → All IsByte w.data_blob → All IsByte (refresh_timestamp w ts)
unfolding refresh_timestamp
refresh_timestamp-All w ts h = copy_at-All IsByte timestamp_offset w.data_blob _ h (omega arith)
