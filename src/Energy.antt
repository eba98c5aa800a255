-- ===== src/Energy.antt =====
-- The schedules of modules/EnergyManager, Market.hpp and Market.cpp, and of types/energy.yaml. A time
-- is its number of nanoseconds, and a tree of requests or of markets is a tree of nodes. Prices and
-- what a result says of phases are left out: no broker reads the first or sets the second.
use everest_core_dev.Common.{
  ℕ, ◌+◌, ◌-◌, ◌*◌, ◌/◌, ◌%◌, ◌^◌, Bool, true, false, zero, suc, Option, none, some, List, [], ◌∷◌,
  ◌++◌, leb, ◌==◌, if◌then◌else◌,
}
use everest_core_dev.Floats.{Floats}
pub mod Market
pub mod Offer
pub mod Broker
pub mod Optimizer
mod Amounts
mod Slots
mod Schedules
mod Offers
mod Paths
pub mod Limits
pub mod Granted
pub mod Bounds
pub mod Times
pub mod Entries
pub mod Watts
mod Whole
mod Scenarios

-- A node and its children.
mutual
  pub data Tree (A : Type 0) : Type 0 where
    node : A → Forest A → Tree A

  pub data Forest (A : Type 0) : Type 0 where
    leaf : Forest A
    branch : Tree A → Forest A → Forest A

pub record LimitsReq (F : Type 0) : Type 0 where
  pub total_power_w : Option F
  pub ac_max_current_a : Option F
  pub ac_min_current_a : Option F
  pub ac_max_phase_count : Option ℕ
  pub ac_min_phase_count : Option ℕ

pub record LimitsRes (F : Type 0) : Type 0 where
  pub total_power_w : Option F
  pub ac_max_current_a : Option F

pub record ScheduleReqEntry (F : Type 0) : Type 0 where
  pub timestamp : ℕ
  pub limits_to_root : LimitsReq F
  pub limits_to_leaves : LimitsReq F
  pub conversion_efficiency : Option F

pub record ScheduleResEntry (F : Type 0) : Type 0 where
  pub timestamp : ℕ
  pub limits_to_root : LimitsRes F

abbrev pub ScheduleReq : Type 0 → Type 0
ScheduleReq F = List (ScheduleReqEntry F)

abbrev pub ScheduleRes : Type 0 → Type 0
ScheduleRes F = List (ScheduleResEntry F)

-- One node of an `EnergyFlowRequest`.
pub record Request (F : Type 0) : Type 0 where
  pub uuid : ℕ
  pub is_evse : Bool
  pub schedule_import : Option (ScheduleReq F)
  pub schedule_export : Option (ScheduleReq F)

abbrev pub EnergyFlowRequest : Type 0 → Type 0
EnergyFlowRequest F = Tree (Request F)

-- `globals_t`, without the schedules that are made of its timestamps.
pub record Globals (F : Type 0) : Type 0 where
  pub slice_ampere : F
  pub slice_watt : F
  pub timestamps : List ℕ

abbrev pub minute : ℕ
minute = 60 * 10 ^ 9

abbrev pub slots : ℕ → ℕ → ℕ → List ℕ
slots zero start interval = []
slots (suc n) start interval = start ∷ slots n (start + interval) interval

abbrev pub insert_time : ℕ → List ℕ → List ℕ
insert_time t [] = t ∷ []
insert_time t (u ∷ us) = elim (leb t u) [ true ↦ t ∷ u ∷ us | false ↦ u ∷ insert_time t us ]

-- `std::sort`.
unfoldable pub sort : List ℕ → List ℕ
sort [] = []
sort (t ∷ ts) = insert_time t (sort ts)

-- `std::unique`: an entry equal to the one that was kept before it is dropped.
abbrev pub drop_equal : ℕ → List ℕ → List ℕ
drop_equal kept [] = []
drop_equal kept (t ∷ ts) = elim (kept == t) [
  | true ↦ drop_equal kept ts
  | false ↦ t ∷ drop_equal t ts
]

unfoldable pub unique : List ℕ → List ℕ
unique [] = []
unique (t ∷ ts) = t ∷ drop_equal t ts

module _ {F : Type 0} where
  abbrev pub value_or : Option F → F → F
  value_or none d = d
  value_or (some a) d = a

  abbrev pub times_of : List (ScheduleReqEntry F) → List ℕ
  times_of [] = []
  times_of (e ∷ es) = e.timestamp ∷ times_of es

  abbrev pub request_times : Option (ScheduleReq F) → List ℕ
  request_times none = []
  request_times (some es) = times_of es

  unfoldable mutual
    pub add_timestamps : EnergyFlowRequest F → List ℕ → List ℕ
    add_timestamps (node r children) ts =
        add_all_timestamps children
          (ts ++ request_times r.schedule_import ++ request_times r.schedule_export)

    pub add_all_timestamps : Forest (Request F) → List ℕ → List ℕ
    add_all_timestamps leaf ts = ts
    add_all_timestamps (branch t more) ts = add_all_timestamps more (add_timestamps t ts)

  -- `leap_seconds` is what the date library adds at a time, and `earlier` what `timestamps` holds
  -- before: nothing clears it from one run of the optimizer to the next.
  unfoldable pub create_timestamps : (ℕ → ℕ) → List ℕ → ℕ → ℕ → ℕ → EnergyFlowRequest F → List ℕ
  unfolding sort unique add_timestamps
  create_timestamps leap_seconds earlier start interval_duration schedule_length r =
      let start_slot = start - start % interval_duration + leap_seconds start in
      unique
        (sort (add_timestamps r (earlier ++ slots schedule_length start_slot interval_duration)))

  -- `globals_t::init`, with its durations in minutes and in hours.
  unfoldable pub init_globals :
      (ℕ → ℕ) → List ℕ → ℕ → ℕ → ℕ → F → F → EnergyFlowRequest F → Globals F
  unfolding create_timestamps
  init_globals leap_seconds earlier start interval duration slice_ampere slice_watt r =
      let interval_duration = interval * minute in
      record {
        slice_ampere = slice_ampere;
        slice_watt = slice_watt;
        timestamps =
            create_timestamps leap_seconds earlier start interval_duration
              (duration * 60 * minute / interval_duration) r;
      }

  abbrev pub no_limits : LimitsReq F
  no_limits = record {
    total_power_w = none;
    ac_max_current_a = none;
    ac_min_current_a = none;
    ac_max_phase_count = none;
    ac_min_phase_count = none;
  }

  -- `create_empty_schedule_req`, by the limits of its entries.
  unfoldable pub schedule_req : LimitsReq F → List ℕ → ScheduleReq F
  schedule_req limits [] = []
  schedule_req limits (t ∷ ts) =
      record {
        timestamp = t;
        limits_to_root = limits;
        limits_to_leaves = no_limits;
        conversion_efficiency = none;
      }
      ∷ schedule_req limits ts

  -- `create_empty_schedule_res`.
  unfoldable pub empty_schedule_res : List ℕ → ScheduleRes F
  empty_schedule_res [] = []
  empty_schedule_res (t ∷ ts) =
      record {
        timestamp = t;
        limits_to_root = record { total_power_w = none; ac_max_current_a = none };
      }
      ∷ empty_schedule_res ts
