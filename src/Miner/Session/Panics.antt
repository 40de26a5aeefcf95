-- ===== src/Miner/Session/Panics.antt =====
-- The messages on which the miner panics.
use monetarium_stratum.Prelude.{ℕ, ◌^◌, ◌<◌, Bool, true, false, List, [], ◌∷◌, Result, ok, err}
use monetarium_stratum.Bytes.Slice.{Bytes}
use monetarium_stratum.Mining.Chain.{Chain}
use monetarium_stratum.Stratum.Protocol.{Json, Items, Fields, null, bool, num, str, arr, obj}
use monetarium_stratum.Miner.Job.{Job}
use monetarium_stratum.Miner.Session.{Panic, division_by_zero, fill_bytes, Miner}

abbrev divides : Panic → Bool
divides division_by_zero = true
divides fill_bytes = false

-- Whether a result is the panic of a division by zero.
abbrev divided : Result Panic Miner → Bool
divided (ok m) = false
divided (err p) = divides p

-- Parameters without a difficulty of at least 1: none, a first one that is no number, or one below 1.
pub data LacksDifficulty : List Json → Type 0 where
  missing : LacksDifficulty []
  below_one : (fraction : ℕ) (ps : List Json) → LacksDifficulty (num 0 fraction ∷ ps)
  at_null : (ps : List Json) → LacksDifficulty (null ∷ ps)
  at_bool : (b : Bool) (ps : List Json) → LacksDifficulty (bool b ∷ ps)
  at_str : (s : Bytes) (ps : List Json) → LacksDifficulty (str s ∷ ps)
  at_arr : (xs : Items) (ps : List Json) → LacksDifficulty (arr xs ∷ ps)
  at_obj : (fs : Fields) (ps : List Json) → LacksDifficulty (obj fs ∷ ps)

-- A number below 2 ^ 63 of at most fifteen decimals: its float64 is at least 1 exactly where it is.
abbrev pub IsShort : Json → Type 0
IsShort (num whole fraction) = (whole < 2 ^ 63) × (fraction < 10 ^ 15)
IsShort _ = Unit
