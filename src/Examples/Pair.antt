-- ===== src/Examples/Pair.antt =====
-- A pool with one job and a miner of it, at concrete inputs.
use monetarium_stratum.Prelude.{◌≡◌, refl, ap, ◌∙◌, some, [], ◌∷◌, ◌++◌, arith, All, replicate, pos}
use monetarium_stratum.Bytes.Slice.{Bytes, IsByte, copy_at}
use monetarium_stratum.Bytes.Endian.{le_bytes, le_value}
use monetarium_stratum.Bytes.Dict.{lookup}
use monetarium_stratum.Mining.Manager.{job}
use monetarium_stratum.Mining.Work.{timestamp, bits, version, prev_block, partial_header}
use monetarium_stratum.Miner.Job.{Job, to_target_bytes, classify_solution, assemble}
use monetarium_stratum.Miner.Search.{Found, place_nonces}
use monetarium_stratum.Miner.Search.Shares.{IsShare}
use monetarium_stratum.Agreement.Verdict.{job_of}
use monetarium_stratum.Examples.Base.{
  toy_chain, toy_hash, toy_work, toy_work-IsBlob, toy_server, all_bytes, all_bytes→All,
}

abbrev pub e1 : Bytes
e1 = 1 ∷ 0 ∷ 0 ∷ 0 ∷ []

pub e1_bytes : All IsByte e1
unfolding all_bytes
e1_bytes = all_bytes→All e1 refl

abbrev pub hundred_be : Bytes
hundred_be = replicate 31 0 ++ 100 ∷ []

abbrev pub five_be : Bytes
five_be = replicate 31 0 ++ 5 ∷ []

pub hundred_fits : to_target_bytes (pos 100) ≡ some hundred_be
unfolding to_target_bytes le_bytes
hundred_fits = refl

pub five_fits : to_target_bytes (pos 5) ≡ some five_be
unfolding to_target_bytes le_bytes
five_fits = refl

pub bits_are_five : toy_chain.compact_to_big (le_value (bits toy_work)) ≡ pos 5
unfolding le_value bits
bits_are_five = refl

abbrev pub toy_job : Job
toy_job =
    job_of toy_chain toy_work toy_work-IsBlob e1 refl e1_bytes 100 hundred_be five_be hundred_fits
      (ap to_target_bytes bits_are_five ∙ five_fits)

-- A share that is no block: its hash is 50.
abbrev pub fifty : Found
fifty = record { extra_nonce2 = replicate 8 0; nonce = 50 }

pub fifty-IsShare : IsShare toy_hash toy_job fifty
unfolding classify_solution toy_hash place_nonces assemble le_bytes le_value copy_at version
    prev_block partial_header timestamp all_bytes
fifty-IsShare = record {
  meets_target = refl;
  extra_nonce2_sized = refl;
  extra_nonce2_bytes = all_bytes→All (replicate 8 0) refl;
  nonce_fits = omega arith;
}

pub job_is_found : job toy_server.work_mgr toy_work.job_id ≡ some toy_work
unfolding job lookup
job_is_found = refl
