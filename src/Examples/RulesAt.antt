-- ===== src/Examples/RulesAt.antt =====
-- The difficulty rules at concrete inputs.
use monetarium_stratum.Prelude.{ℕ, ◌+◌, ◌*◌, ◌≤◌, ◌<◌, ◌≡◌, ◌⊎◌, none, some}
use monetarium_stratum.Mining.Evaluate.{share_target}
use monetarium_stratum.Mining.Evaluate.Laws.{share_target_lem}
use monetarium_stratum.Examples.Base.{toy_chain}

abbrev ten : ℕ
ten = 10

share_target_lem_example :
    ((ten ≡ 0) × (share_target toy_chain 10 ≡ none))
    ⊎ ((0 < 10)
        × ((t : ℕ) × (share_target toy_chain 10 ≡ some t)
            × (t ≤ 1000)
            × (t * 10 ≤ 1000)
            × (1000 < (t + 1) * 10)))
share_target_lem_example = share_target_lem toy_chain ten
