-- ===== src/Examples/Base.antt =====
-- The chain and the data of the examples: headers are their bytes, and the hash of a header is its
-- nonce.
use mathlib.Core.Option.{some-injective}
use monetarium_stratum.Prelude.{
  ◌≡◌, refl, sym, ap, ◌∙◌, subst, Bool, true, false, Option, none, some, [], ◌∷◌, ◌++◌, arith, ◌==◌,
  ltb, if◌then◌else◌, length, replicate, All, pos, Bool-cases, inl, inr,
}
use monetarium_stratum.Bytes.Slice.{Bytes, IsByte, slice}
use monetarium_stratum.Bytes.Endian.{le_bytes, le_value, length-le_bytes, le_bytes-All}
use monetarium_stratum.Bytes.Text.{codes}
use monetarium_stratum.Bytes.Decimal.{format_uint}
use monetarium_stratum.Bytes.Hex.{encode}
use monetarium_stratum.Mining.Chain.{Chain, IsWireFormat, IsProofOfWork}
use monetarium_stratum.Mining.Work.{Work, getwork_data_len}
use monetarium_stratum.Bytes.Dict.{lookup}
use monetarium_stratum.Mining.Work.Solved.{IsBlob}
use monetarium_stratum.Mining.Manager.{WorkManager}
use monetarium_stratum.Mining.Manager.Registry.{IsRegistry}
use monetarium_stratum.Stratum.Server.{Client, Server, Node, replied}
use monetarium_stratum.Miner.Session.{Miner}

unfoldable pub all_bytes : Bytes → Bool
all_bytes [] = true
all_bytes (b ∷ bs) = let rest = all_bytes bs in if ltb b 256 then rest else false

pub all_bytes→All : (bs : Bytes) → all_bytes bs ≡ true → All IsByte bs
unfolding all_bytes
all_bytes→All [] h = tt
all_bytes→All (b ∷ bs) h = elim (Bool-cases (ltb b 256)) [
  | inl e ↦
      let rest : all_bytes (b ∷ bs) ≡ all_bytes bs = simp e in
      (ground arith, all_bytes→All bs (sym rest ∙ h))
  | inr e ↦ let stop : all_bytes (b ∷ bs) ≡ false = simp e in cc
]

unfoldable pub toy_hash : Bytes → Bytes
toy_hash b = le_bytes 32 (le_value (slice b 140 144))

unfoldable pub toy_parse : Bytes → Option Bytes
toy_parse b = if length b == 180 then some b else none

abbrev pub toy_chain : Chain
toy_chain = record {
  Header = Bytes;
  from_bytes = toy_parse;
  to_bytes = λ h. some h;
  pow_hash_v2 = toy_hash;
  bits = λ h. le_value (slice h 116 120);
  hash_to_big = λ h. pos (le_value h);
  compact_to_big = λ n. pos n;
  pow_limit = 1000;
}

pub toy_chain-IsWireFormat : IsWireFormat toy_chain
unfolding toy_parse
toy_chain-IsWireFormat = record {
  parses = λ b sized bytes. (b, ground arith, refl);
  reads_bits = λ b h e. elim (Bool-cases (length b == 180)) [
    | inl t ↦
        let run : toy_parse b ≡ some b = simp t in
        ap (λ x. le_value (slice x 116 120)) (some-injective _ _ (sym e ∙ run))
    | inr f ↦ let run : toy_parse b ≡ none = simp f in cc
  ];
}

pub toy_chain-IsProofOfWork : IsProofOfWork toy_chain toy_hash
unfolding toy_hash
toy_chain-IsProofOfWork = record {
  hashes = λ h b e. ap toy_hash (some-injective _ _ e);
  sum_length = λ b. length-le_bytes 32 _;
  sum_bytes = λ b. le_bytes-All 32 _;
  reads_hash = λ s. refl;
}

-- A blob with the compact bits 5 at their place.
abbrev pub toy_work : Work
toy_work = record {
  job_id = codes "1";
  height = 0;
  data_blob = replicate 116 0 ++ 5 ∷ replicate 75 0;
}

pub toy_work-IsBlob : IsBlob toy_work
unfolding all_bytes
toy_work-IsBlob = record { sized = refl; bytes = all_bytes→All toy_work.data_blob refl }

abbrev pub toy_manager : WorkManager
toy_manager = record {
  current = some toy_work;
  jobs = (codes "1", toy_work) ∷ [];
  order = codes "1" ∷ [];
  seq = 1;
  max_jobs = 2;
}

pub toy_manager-IsRegistry : IsRegistry toy_manager
unfolding format_uint lookup
toy_manager-IsRegistry = record {
  numbers = 1 ∷ [];
  listed = record {
    ordered = refl;
    keyed = refl;
    ascending = (omega arith, tt, tt);
    sound = ((refl, refl), tt);
  };
  bounded = omega arith;
  current_listed = λ w e.
      subst
        (λ v. (lookup v.job_id toy_manager.jobs ≡ some v) × (length v.data_blob ≡ getwork_data_len))
        (some-injective toy_work w e) (refl, refl);
}

abbrev pub toy_client : Client
toy_client = record {
  id = 1;
  extra_nonce1 = encode (1 ∷ 0 ∷ 0 ∷ 0 ∷ []);
  extra_nonce2_length = 8;
  worker = codes "w";
  authorized = true;
  sends = [];
  submissions = 0;
}

-- A pool at share difficulty 10, which is a share target of 100, with that client and that job.
abbrev pub toy_server : Server
toy_server = record {
  share_diff = 10;
  pool_password = [];
  max_clients = 16;
  work_mgr = toy_manager;
  throttle = record { divisor = 1; found_blocks = 0; submitted = 0; throttled = 0 };
  extra_nonce2_length = 8;
  clients = toy_client ∷ [];
  client_id = 1;
  nonce1 = 1;
  share_count = 0;
  node_calls = [];
}

abbrev pub toy_node : Node
toy_node = record { submit_work = λ b. replied true; now = 1700000000 }

abbrev pub toy_miner : Miner
toy_miner = record {
  user = codes "w";
  password = [];
  writable = true;
  sent = [];
  next_id = 0;
  pending = [];
  extra_nonce1 = encode (1 ∷ 0 ∷ 0 ∷ 0 ∷ []);
  extra_nonce2_len = 8;
  target = some 100;
  current_job = none;
  gen = 0;
  accepted = 0;
  rejected = 0;
}
