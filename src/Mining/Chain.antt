-- ===== src/Mining/Chain.antt =====
-- What the program takes from monetarium-node (wire, chaincfg, blockchain/standalone), which is not
-- part of this repository: an argument of all that uses it, with its documented laws apart.
use monetarium_stratum.Prelude.{ℕ, ◌≡◌, Option, some, ℤ, pos, length, All}
use monetarium_stratum.Bytes.Slice.{Bytes, IsByte, slice}
use monetarium_stratum.Bytes.Endian.{le_value}

pub record Chain : Type 1 where
  -- `wire.BlockHeader`, its `FromBytes` and `Bytes`, `PowHashV2` and the field `Bits`.
  pub Header : Type 0
  pub from_bytes : Bytes → Option Header
  pub to_bytes : Header → Option Bytes
  pub pow_hash_v2 : Header → Bytes
  pub bits : Header → ℕ
  -- `standalone.HashToBig` and `standalone.CompactToBig`.
  pub hash_to_big : Bytes → ℤ
  pub compact_to_big : ℕ → ℤ
  -- `chaincfg.Params.PowLimit`, a positive number.
  pub pow_limit : ℕ

-- `wire.MaxBlockHeaderPayload`
abbrev pub max_block_header_payload : ℕ
max_block_header_payload = 180

-- The documented behaviour of the wire format: a header is exactly 180 bytes, any of them parse,
-- and it serializes to the bytes that it was parsed from; the compact bits stand at 116.
pub record IsWireFormat (c : Chain) : Type 0 where
  pub parses :
      (b : Bytes)
      → length b ≡ max_block_header_payload
      → All IsByte b
      → (h : c.Header) × (c.from_bytes b ≡ some h) × (c.to_bytes h ≡ some b)
  pub reads_bits :
      (b : Bytes) (h : c.Header) → c.from_bytes b ≡ some h → c.bits h ≡ le_value (slice b 116 120)

-- The documented behaviour of the hash: `PowHashV2` is the 32 byte blake3 sum of the serialized
-- header, and `HashToBig` reads a hash as a little-endian number.
pub record IsProofOfWork (c : Chain) (blake3 : Bytes → Bytes) : Type 0 where
  pub hashes : (h : c.Header) (b : Bytes) → c.to_bytes h ≡ some b → c.pow_hash_v2 h ≡ blake3 b
  pub sum_length : (b : Bytes) → length (blake3 b) ≡ 32
  pub sum_bytes : (b : Bytes) → All IsByte (blake3 b)
  pub reads_hash : (sum : Bytes) → c.hash_to_big sum ≡ pos (le_value sum)
