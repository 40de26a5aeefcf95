-- ===== src/Mining/Evaluate/Decide.antt =====
-- The functions of difficulty.go and evaluate.go. A run-time panic is `none`.
use monetarium_stratum.Prelude.{
  ℕ, ◌/◌, Option, none, some, ◌==◌, ltb, if◌then◌else◌, ℤ, pos, negsuc, gt_ℤ,
}
use monetarium_stratum.Bytes.Slice.{Bytes}
use monetarium_stratum.Mining.Chain.{Chain}

pub data Decision : Type 0 where
  rejected accepted_share submit_block : Decision

-- A `big.Rat` by its two parts, not in lowest terms.
pub record Ratio : Type 0 where
  pub num : ℕ
  pub den : ℕ

-- `CalcWork`; the zero value of a `big.Rat` is 0/1.
unfoldable pub calc_work : ℕ → ℤ → Ratio
calc_work pow_limit (pos target) =
    if target == 0 then record { num = 0; den = 1 } else record { num = pow_limit; den = target }
calc_work pow_limit (negsuc n) = record { num = 0; den = 1 }

-- `EvaluateSubmit`
unfoldable pub evaluate_submit : ℤ → ℤ → ℤ → Decision
evaluate_submit hash_target share_target block_target =
    if gt_ℤ hash_target share_target
    then rejected
    else if gt_ℤ hash_target block_target
    then accepted_share
    else submit_block

module _ (c : Chain) where
  -- `ShareTarget`; `big.Int.Div` panics on a zero divisor.
  unfoldable pub share_target : ℕ → Option ℕ
  share_target difficulty =
      if difficulty == 0
      then none
      else let target = c.pow_limit / difficulty in
        some (if ltb c.pow_limit target then c.pow_limit else target)

  -- `BlockTarget`
  unfoldable pub block_target : ℕ → ℤ
  block_target bits = c.compact_to_big bits

  -- `HashTarget`
  unfoldable pub hash_target : Bytes → ℤ
  hash_target pow_hash = c.hash_to_big pow_hash

  -- `EvaluateHeader`
  unfoldable pub evaluate_header : c.Header → ℤ → Decision
  unfolding evaluate_submit
  evaluate_header header share =
      evaluate_submit (c.hash_to_big (c.pow_hash_v2 header)) share
        (c.compact_to_big (c.bits header))

  -- `HeaderHashTarget`
  unfoldable pub header_hash_target : c.Header → ℤ
  header_hash_target header = c.hash_to_big (c.pow_hash_v2 header)
