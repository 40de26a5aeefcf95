-- ===== src/Miner/Search/Header.antt =====
-- The header that each round hashes is the job's header with that round's two nonces in place,
-- although the loop writes over the header of the round before.
use monetarium_stratum.Prelude.{
  ℕ, zero, suc, ◌+◌, ◌-◌, ◌%◌, ◌^◌, ◌≡◌, refl, ◌∙◌, arith, ltb, leb, ◌&&◌, if◌then◌else◌, length,
  get_elem?, get_elem?_ext,
}
use monetarium_stratum.Bytes.Slice.{Bytes, copy_range, length-copy_at}
use monetarium_stratum.Bytes.Splice.{get_elem?-copy_range}
use monetarium_stratum.Bytes.Endian.{le_bytes, le_value, length-le_bytes}
use monetarium_stratum.Miner.Job.{Job, header_len}
use monetarium_stratum.Miner.Search.{
  Search, place_nonces, hashed_header, roll, start_search, search_round, mine_job,
}

pub length-place_nonces : (h e : Bytes) (n : ℕ) → length (place_nonces h e n) ≡ length h
unfolding place_nonces
length-place_nonces h e n = length-copy_at 148 _ _ ∙ length-copy_at 140 _ _

-- The bytes of a header with its nonces in place.
pub get_elem?-place_nonces :
    (h e : Bytes) (n i : ℕ)
    → length h ≡ header_len
    → length e ≡ 8
    → get_elem? (place_nonces h e n) i ≡ (
        if leb 148 i && ltb i 156
        then get_elem? e (i - 148)
        else if leb 140 i && ltb i 144
        then get_elem? (le_bytes 4 n) (i - 140)
        else get_elem? h i)
unfolding place_nonces
get_elem?-place_nonces h e n i lh le =
    let h1 = copy_range 140 144 h (le_bytes 4 n) in
    let l1 : length h1 ≡ 180 = length-copy_at 140 h _ ∙ lh in
    let ln : length (le_bytes 4 n) ≡ 4 = length-le_bytes 4 n in
    rw
      (
        get_elem?-copy_range 148 156 h1 e i (omega arith) (omega arith) (omega arith),
        get_elem?-copy_range 140 144 h (le_bytes 4 n) i (omega arith) (omega arith) (omega arith),
        le,
        ln,
      )
      refl

-- The nonces that were in place before leave no trace.
place_nonces_twice :
    (h e e' : Bytes) (n n' : ℕ)
    → length h ≡ header_len
    → length e ≡ 8
    → length e' ≡ 8
    → place_nonces (place_nonces h e n) e' n' ≡ place_nonces h e' n'
place_nonces_twice h e e' n n' lh le le' = get_elem?_ext _ _ λ i. ground (
  arith,
  get_elem?-place_nonces (place_nonces h e n) e' n' i (length-place_nonces h e n ∙ lh) le',
  get_elem?-place_nonces h e' n' i lh le',
  get_elem?-place_nonces h e n i lh le,
)

-- What the loop keeps of its header.
pub record KeepsHeader (job : Job) (s : Search) : Type 0 where
  pub sized : length s.header ≡ header_len
  pub extra_nonce2_sized : length s.extra_nonce2 ≡ 8
  pub same :
      (e : Bytes) (n : ℕ) → length e ≡ 8 → place_nonces s.header e n ≡ place_nonces job.header e n

length-roll : (t n : ℕ) (e : Bytes) → length e ≡ 8 → length (roll t n e) ≡ 8
unfolding roll
length-roll t n e h = ground (arith, length-le_bytes 8 ((le_value e + t) % 2 ^ 64))

module _ (blake3 : Bytes → Bytes) (threads : ℕ) (job : Job)
    (sized : length job.header ≡ header_len) where
  round-KeepsHeader :
      (s : Search) → KeepsHeader job s → KeepsHeader job (search_round blake3 threads job s)
  unfolding search_round hashed_header
  round-KeepsHeader s k = record {
    sized = length-place_nonces s.header s.extra_nonce2 s.nonce ∙ k.sized;
    extra_nonce2_sized =
        length-roll threads ((s.nonce + 1) % 2 ^ 32) s.extra_nonce2 k.extra_nonce2_sized;
    same = λ e n le.
        place_nonces_twice s.header s.extra_nonce2 e s.nonce n k.sized k.extra_nonce2_sized le
        ∙ k.same e n le;
  }

  pub mine_job-KeepsHeader :
      (idx rounds : ℕ) → KeepsHeader job (mine_job blake3 threads job idx rounds)
  unfolding mine_job start_search
  mine_job-KeepsHeader idx zero = record {
    sized = sized;
    extra_nonce2_sized = length-le_bytes 8 (idx % 2 ^ 64);
    same = λ e n le. refl;
  }
  mine_job-KeepsHeader idx (suc rounds) =
      round-KeepsHeader (mine_job blake3 threads job idx rounds) (mine_job-KeepsHeader idx rounds)

  -- On a job whose header has 180 bytes, the header hashed in each round is the job's own with the
  -- nonces of that round.
  pub hashed_header-mine_job :
      (idx rounds : ℕ)
      → let s = mine_job blake3 threads job idx rounds in
        hashed_header s ≡ place_nonces job.header s.extra_nonce2 s.nonce
  unfolding hashed_header
  hashed_header-mine_job idx rounds =
      let k = mine_job-KeepsHeader idx rounds in k.same _ _ k.extra_nonce2_sized
