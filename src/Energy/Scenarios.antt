-- ===== src/Energy/Scenarios.antt =====
-- A station with a fuse of 32 A and two EVSEs, and the theorems on modules/EnergyManager.
use everest_core_dev.Common.{
  arith, ◌<◌, ℕ, ◌≡◌, refl, Bool, true, false, ◌||◌, Option, none, some, List, [], ◌∷◌,
}
use everest_core_dev.Energy.{
  Tree, node, leaf, branch, LimitsReq, LimitsRes, ScheduleReqEntry, Request, EnergyFlowRequest,
  Globals, no_limits, schedule_req, empty_schedule_res, slots, sort, unique, add_timestamps,
  create_timestamps,
}
use everest_core_dev.Energy.Market.{
  Market, child_evses, any_evse, plus, times, over, find_entry, merge_limits, resample, make_market,
  get_available_energy, available_entry, schedule_add, add_entry, trade_at, get_list_of_evses,
}
use everest_core_dev.Energy.Offer.{apply_entry, apply_limits, offer_at, make_offer}
use everest_core_dev.Energy.Broker.{
  power, share, buy_ampere, buy_watt, buy_slot, trade_slot, trade_slots,
}
use everest_core_dev.Energy.Optimizer.{
  EnforcedLimits, trade, round, rounds, market_at, enforced_limits, optimized, run_optimizer,
}
use everest_core_dev.Energy.Granted.{TreeGranted}
use everest_core_dev.Energy.Bounds.{optimized-TreeGranted}
use everest_core_dev.Energy.Times.{
  is_in, IsIncreasing, is_requested, create_timestamps-IsIncreasing,
}
use everest_core_dev.Energy.Entries.{in_force, find_entry-in_force}
use everest_core_dev.Energy.Watts.{SoldAsCurrent, power_market, rounds-SoldAsCurrent}
use everest_core_dev.Energy.Whole.{ℤ, pos, whole, whole-IsExact}

abbrev current_limits : ℕ → LimitsReq ℤ
current_limits a = record no_limits { ac_max_current_a = some (pos a) }

abbrev entry : ℕ → LimitsReq ℤ → ScheduleReqEntry ℤ
entry t limits = record {
  timestamp = t;
  limits_to_root = limits;
  limits_to_leaves = limits;
  conversion_efficiency = none;
}

abbrev station_request : ℕ → Bool → List (ScheduleReqEntry ℤ) → Request ℤ
station_request id is_evse schedule = record {
  uuid = id;
  is_evse = is_evse;
  schedule_import = some schedule;
  schedule_export = none;
}

abbrev evse_schedule : List (ScheduleReqEntry ℤ)
evse_schedule =
    entry 0 (record (current_limits 20) { ac_min_current_a = some (pos 6) })
    ∷ entry 7 (current_limits 10)
    ∷ []

abbrev station : EnergyFlowRequest ℤ
station = node (station_request 1 false (entry 0 (current_limits 32) ∷ [])) (
    branch (node (station_request 2 true evse_schedule) leaf)
      (branch (node (station_request 3 true evse_schedule) leaf) leaf))

abbrev settings : Globals ℤ
settings = record { slice_ampere = pos 5; slice_watt = pos 1000; timestamps = 0 ∷ 7 ∷ [] }

abbrev currents : List (EnforcedLimits ℤ) → List (ℕ × Option (LimitsRes ℤ))
currents [] = []
currents (l ∷ ls) = (l.uuid, l.limits_root_side) ∷ currents ls

abbrev all_currents : Option (List (EnforcedLimits ℤ)) → Option (List (ℕ × Option (LimitsRes ℤ)))
all_currents none = none
all_currents (some ls) = some (currents ls)

abbrev amperes : ℕ → Option (LimitsRes ℤ)
amperes a = some (record { total_power_w = none; ac_max_current_a = some (pos a) })

-- Each EVSE gets its minimum and then slices until the fuse has nothing left.
limits_test :
    all_currents (run_optimizer whole (pos 230) settings 0 1 station)
    ≡ some ((2, amperes 16) ∷ (3, amperes 16) ∷ [])
unfolding run_optimizer optimized enforced_limits market_at rounds round trade make_offer offer_at
    apply_limits apply_entry trade_slots trade_slot buy_slot buy_watt buy_ampere power share plus
    times over trade_at schedule_add add_entry get_available_energy available_entry schedule_req
    find_entry merge_limits resample make_market empty_schedule_res get_list_of_evses child_evses
    any_evse
limits_test = refl

optimized-TreeGranted_example :
    (markets : Tree (Market ℤ)) × (optimized whole (pos 230) settings station ≡ some markets)
    × TreeGranted whole (0 ∷ 7 ∷ []) station markets
unfolding schedule_req find_entry merge_limits resample over
optimized-TreeGranted_example =
    optimized-TreeGranted whole (pos 230) whole-IsExact settings station refl refl
      (
        (((refl, tt), ((refl, tt), tt)), ((refl, refl), ((refl, refl), tt))),
        (
          ((((refl, tt), ((refl, tt), tt)), ((refl, refl), ((refl, refl), tt))), tt),
          (((((refl, tt), ((refl, tt), tt)), ((refl, refl), ((refl, refl), tt))), tt), tt),
        ),
      )
      tt (tt, tt, (((omega arith, tt), tt, tt), (((omega arith, tt), tt, tt), tt)))

create_timestamps-IsIncreasing_example :
    let times = create_timestamps (λ _. 27) (3 ∷ []) 100 60 2 station in
    IsIncreasing times
    × ((x : ℕ)
        → is_in x times ≡ (is_in x (3 ∷ []) || is_in x (slots 2 87 60) || is_requested x station))
create_timestamps-IsIncreasing_example =
    create_timestamps-IsIncreasing (λ _. 27) (3 ∷ []) 100 60 2 station

times_test : create_timestamps (λ _. 27) (3 ∷ []) 100 60 2 station ≡ 0 ∷ 3 ∷ 7 ∷ 87 ∷ 147 ∷ []
unfolding create_timestamps sort unique add_timestamps
times_test = refl

find_entry-in_force_example : find_entry whole true 9 evse_schedule ≡ in_force 9 evse_schedule
find_entry-in_force_example = find_entry-in_force whole 9 evse_schedule (0<7, tt)
  where
    0<7 : 0 < 7
    0<7 = omega arith

rounds-SoldAsCurrent_example :
    SoldAsCurrent whole (pos 1000) 0 (pos 4000) (entry 0 (current_limits 0)) 100 none (
      rounds whole
        (pos 230)
        (record { slice_watt = pos 1000; slice_ampere = pos 5; timestamps = 0 ∷ [] })
        100
        (record { local_market = []; first_trade = true ∷ [] } ∷ [])
        (power_market 0 (pos 4000) (entry 0 (current_limits 0)) none none))
rounds-SoldAsCurrent_example =
    rounds-SoldAsCurrent whole (pos 230) whole-IsExact (pos 1000) (pos 5) 0 (pos 4000)
      (entry 0 (current_limits 0)) refl refl 100 true none none refl
