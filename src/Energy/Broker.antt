-- ===== src/Energy/Broker.antt =====
-- The broker of modules/EnergyManager/BrokerFastCharging.cpp, one time slot at a time: it imports if it
-- can, and exports otherwise.
use everest_core_dev.Common.{
  ℕ, Bool, true, false, not, ◌&&◌, ◌||◌, Option, none, some, List, [], ◌∷◌, if◌then◌else◌,
}
use everest_core_dev.Floats.{Floats}
use everest_core_dev.Energy.{ScheduleReqEntry, ScheduleReq, ScheduleRes, Globals, value_or}
use everest_core_dev.Energy.Market.{zero_f, times, over}

-- What a broker has of one slot: `trading[i]`, `first_trade[i]`, and whether it bought there.
pub record Slot (F : Type 0) : Type 0 where
  pub ac_max_current_a : Option F
  pub total_power_w : Option F
  pub first_trade : Bool
  pub traded : Bool

abbrev pub phases_or_one : Option ℕ → ℕ
phases_or_one none = 1
phases_or_one (some n) = n

-- `voltage` is the nominal AC voltage of the market.
module _ {F : Type 0} (fl : Floats F) (voltage : F) where
  abbrev pub buy_ampere_unchecked : F → Slot F → Slot F
  buy_ampere_unchecked a s = record s {
    ac_max_current_a = some a;
    traded = true;
    first_trade = false;
  }

  abbrev pub buy_watt_unchecked : F → Slot F → Slot F
  buy_watt_unchecked w s = record s { total_power_w = some w; traded = true }

  -- `(import ? +1 : -1) * a`.
  abbrev pub signed : Bool → F → F
  signed true a = a
  signed false a = fl.neg a

  -- The power of a current.
  unfoldable pub power : F → ℕ → F
  unfolding times
  power a phases = times fl (times fl a (fl.narrow (fl.lit phases 0))) voltage

  -- The current of a power.
  unfoldable pub share : F → ℕ → F
  unfolding over
  share w phases = over fl (over fl w (fl.narrow (fl.lit phases 0))) voltage

  abbrev pub buy_both : Bool → F → ℕ → Slot F → Slot F
  buy_both is_import a phases s =
      buy_watt_unchecked (power (signed is_import a) phases)
        (buy_ampere_unchecked (signed is_import a) s)

  -- What is left, when it is less than was asked for.
  abbrev pub buy_leftovers : Bool → F → Option F → ℕ → Slot F → Slot F
  buy_leftovers is_import m none phases s = buy_ampere_unchecked (signed is_import m) s
  buy_leftovers is_import m (some w) phases s =
      if fl.le (power m phases) w
      then buy_both is_import m phases s
      else buy_both is_import (share w phases) phases s

  abbrev pub has_power : Option F → F → ℕ → Bool
  has_power none a phases = true
  has_power (some w) a phases = fl.le (power a phases) w

  abbrev pub buy_current : Bool → F → Option F → ℕ → Slot F → Slot F
  buy_current is_import a none phases s = buy_ampere_unchecked (signed is_import a) s
  buy_current is_import a (some w) phases s = buy_both is_import a phases s

  unfoldable pub buy_ampere : ScheduleReqEntry F → F → Bool → Bool → Slot F → Slot F
  unfolding power share
  buy_ampere offer ampere allow_less is_import s =
      let w = offer.limits_to_root.total_power_w in
      let phases = phases_or_one offer.limits_to_root.ac_max_phase_count in
      elim offer.limits_to_root.ac_max_current_a [
        | none ↦ s
        | some m ↦
            (if fl.le ampere m && has_power w ampere phases
              then buy_current is_import ampere w phases s
              else if allow_less && fl.lt (zero_f fl) m
              then buy_leftovers is_import m w phases s
              else s)
      ]

  -- The code calls `buy_ampere_unchecked` here too.
  unfoldable pub buy_watt : ScheduleReqEntry F → F → Bool → Bool → Slot F → Slot F
  buy_watt offer watt allow_less is_import s = elim offer.limits_to_root.total_power_w [
    | none ↦ s
    | some w ↦
        (if fl.le watt w
          then buy_ampere_unchecked (signed is_import watt) s
          else if allow_less && fl.lt (zero_f fl) w
          then buy_ampere_unchecked (signed is_import w) s
          else s)
  ]

  abbrev pub is_nothing : Option F → Bool
  is_nothing none = false
  is_nothing (some a) = fl.eq a (zero_f fl)

  abbrev pub can_trade : ScheduleReqEntry F → Bool
  can_trade offer = not (
      is_nothing offer.limits_to_root.total_power_w
      || is_nothing offer.limits_to_root.ac_max_current_a)

  abbrev pub needs_minimum : Bool → Option F → Bool
  needs_minimum first none = false
  needs_minimum first (some a) = first && fl.lt (zero_f fl) a

  -- One direction of a slot.
  unfoldable pub buy_slot : Globals F → ScheduleReqEntry F → Bool → Slot F → Slot F
  unfolding buy_ampere buy_watt
  buy_slot globals offer is_import s =
      let min_current = offer.limits_to_root.ac_min_current_a in
      elim offer.limits_to_root.ac_max_current_a [
        | some _ ↦
            (if needs_minimum s.first_trade min_current
              then buy_ampere offer (value_or min_current (zero_f fl)) false is_import s
              else buy_ampere offer globals.slice_ampere true is_import s)
        | none ↦ elim offer.limits_to_root.total_power_w [
          | some _ ↦ buy_watt offer globals.slice_watt true is_import s
          | none ↦ s
        ]
      ]

  -- Nothing, where there is a limit.
  abbrev pub nothing_of : Option F → Option F
  nothing_of none = none
  nothing_of (some _) = some (zero_f fl)

  unfoldable pub trade_slot : Globals F → ScheduleReqEntry F → ScheduleReqEntry F → Bool → Slot F
  unfolding buy_slot
  trade_slot globals import_offer export_offer first =
      let s : Slot F = record {
        ac_max_current_a = nothing_of import_offer.limits_to_root.ac_max_current_a;
        total_power_w = nothing_of import_offer.limits_to_root.total_power_w;
        first_trade = first;
        traded = false;
      } in
      if can_trade import_offer
      then buy_slot globals import_offer true s
      else if can_trade export_offer
      then buy_slot globals export_offer false s
      else s

  -- The slots of a trade, what is left of `first_trade`, and whether anything was bought.
  pub record Trading : Type 0 where
    pub trading : ScheduleRes F
    pub first_trade : List Bool
    pub traded : Bool

  abbrev pub add_slot : ℕ → Slot F → Trading → Trading
  add_slot t s rest = record {
    trading =
        record {
          timestamp = t;
          limits_to_root = record {
            total_power_w = s.total_power_w;
            ac_max_current_a = s.ac_max_current_a;
          };
        }
        ∷ rest.trading;
    first_trade = s.first_trade ∷ rest.first_trade;
    traded = s.traded || rest.traded;
  }

  -- The loop over the slots.
  unfoldable pub trade_slots :
      Globals F → List ℕ → ScheduleReq F → ScheduleReq F → List Bool → Trading
  unfolding trade_slot
  trade_slots globals (t ∷ ts) (i ∷ is) (e ∷ es) (first ∷ more) =
      add_slot t (trade_slot globals i e first) (trade_slots globals ts is es more)
  trade_slots globals _ _ _ first = record { trading = []; first_trade = first; traded = false }
