-- ===== src/Examples/MiningAt.antt =====
-- Work, its manager and the throttle at concrete inputs.
use monetarium_stratum.Prelude.{
  ◌%◌, ◌≤◌, ◌≡◌, ◌↔◌, ◌⊎◌, refl, Bool, true, Option, some, none, List, [], ◌∷◌, ◌++◌, arith, ok,
  err, replicate,
}
use monetarium_stratum.Bytes.Slice.{Bytes}
use monetarium_stratum.Bytes.Hex.{encode}
use monetarium_stratum.Bytes.Text.{codes}
use monetarium_stratum.Bytes.Decimal.{format_uint}
use monetarium_stratum.Mining.Work.{
  Work, WorkError, new_work, build_solved_header, solved_header_data,
}
use monetarium_stratum.Mining.Work.Solved.{
  IsSubmission, AreBytes, solved_bytes, build_solved_header_lem, solved_header_data_lem,
}
use monetarium_stratum.Mining.Throttle.{allow, new_block_throttle}
use monetarium_stratum.Mining.Throttle.Counts.{allow_times, effective, allow_iff}
use monetarium_stratum.Mining.Manager.{
  WorkManager, set_current, reason_new_parent, new_work_manager, job, current_work,
}
use monetarium_stratum.Mining.Manager.Registry.{IsRegistry}
use monetarium_stratum.Mining.Manager.History.{last, last_n, find_work, history, no_history}
use monetarium_stratum.Mining.Manager.Window.{feed, feed-new_work_manager}
use monetarium_stratum.Mining.Manager.Updates.{set_current-IsRegistry}
use monetarium_stratum.Examples.Base.{
  toy_chain, toy_chain-IsWireFormat, toy_work, toy_work-IsBlob, toy_manager, toy_manager-IsRegistry,
  all_bytes→All, all_bytes,
}

abbrev extra_nonce1 : Bytes
extra_nonce1 = 1 ∷ 0 ∷ 0 ∷ 0 ∷ []

abbrev word : Bytes
word = 0 ∷ 0 ∷ 0 ∷ 0 ∷ []

abbrev extra_nonce2 : Bytes
extra_nonce2 = replicate 8 0

toy_fields : AreBytes extra_nonce1 extra_nonce2 word word
unfolding all_bytes
toy_fields = record {
  extra_nonce1_bytes = all_bytes→All extra_nonce1 refl;
  extra_nonce2_bytes = all_bytes→All extra_nonce2 refl;
  ntime_bytes = all_bytes→All word refl;
  nonce_bytes = all_bytes→All word refl;
}

toy_sizes : IsSubmission extra_nonce1 extra_nonce2 word word
toy_sizes = record {
  extra_nonce1_fits = omega arith;
  extra_nonce2_fits = refl;
  ntime_fits = refl;
  nonce_fits = refl;
}

abbrev toy_solved : Bytes
toy_solved =
    solved_bytes toy_chain toy_chain-IsWireFormat toy_work extra_nonce1 extra_nonce2 word word
      toy_work-IsBlob toy_fields

build_solved_header_lem_example :
    (IsSubmission extra_nonce1 extra_nonce2 word word
      × ((header : toy_chain.Header) × (build_solved_header toy_chain toy_work extra_nonce1
              extra_nonce2 word word
            ≡ ok header)
          × (toy_chain.to_bytes header ≡ some toy_solved)))
    ⊎ ((¬ IsSubmission extra_nonce1 extra_nonce2 word word)
        × ((e : WorkError) × (build_solved_header toy_chain toy_work extra_nonce1 extra_nonce2 word
                word
              ≡ err e)))
build_solved_header_lem_example =
    build_solved_header_lem toy_chain toy_chain-IsWireFormat toy_work extra_nonce1 extra_nonce2 word
      word toy_work-IsBlob toy_fields

solved_header_data_lem_example :
    solved_header_data toy_chain toy_work extra_nonce1 extra_nonce2 word word
    ≡ ok (encode (toy_solved ++ replicate 12 0))
solved_header_data_lem_example =
    solved_header_data_lem toy_chain toy_chain-IsWireFormat toy_work extra_nonce1 extra_nonce2 word
      word toy_work-IsBlob toy_fields toy_sizes

allow_iff_example :
    ((allow (allow_times 6 (new_block_throttle 3))).1 ≡ true) ↔ (6 % effective 3 ≡ 0)
allow_iff_example = allow_iff 3 6 (omega arith)

abbrev ones : Bytes
ones = replicate 192 1

set_current-IsRegistry_example :
    (r : WorkManager × Option Work × Bool) × (set_current toy_manager ones reason_new_parent
      ≡ some r)
    × IsRegistry r.0
    × (r.0.max_jobs ≡ 2)
    × (r.0.seq ≤ 2)
set_current-IsRegistry_example =
    set_current-IsRegistry toy_manager ones reason_new_parent toy_manager-IsRegistry (omega arith)
      (omega arith)

-- Three templates to a manager that keeps two jobs: the first job is gone.
abbrev updates : List (Bytes × Bytes)
updates =
    (ones, reason_new_parent)
    ∷ (replicate 192 2, reason_new_parent)
    ∷ (replicate 192 3, reason_new_parent)
    ∷ []

feed-new_work_manager_example :
    (m : WorkManager) × (feed updates (new_work_manager 2) ≡ some m)
    × ((id : Bytes) → job m id ≡ find_work id (last_n 2 (history updates no_history).issued))
    × (current_work m ≡ last (history updates no_history).issued)
feed-new_work_manager_example = feed-new_work_manager 2 updates (omega arith) (omega arith)

first_is_gone : find_work (codes "1") (last_n 2 (history updates no_history).issued) ≡ none
unfolding new_work format_uint
first_is_gone = refl
