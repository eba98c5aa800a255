-- ===== src/Energy/Offers.antt =====
-- The offers of modules/EnergyManager/Offer.cpp along the way to a market, and the trade that a broker
-- makes of them.
use everest_core_dev.Common.{ℕ, ◌≡◌, Bool, true, List, [], ◌∷◌}
use everest_core_dev.Floats.{Floats}
use everest_core_dev.Energy.{ScheduleReq, Globals, no_limits, schedule_req}
use everest_core_dev.Energy.Market.{
  Market, zero_f, get_available_energy_import, get_available_energy_export,
}
use everest_core_dev.Energy.Offer.{Offer, apply_entry, apply_entries, apply_limits, limit_offer}
use everest_core_dev.Energy.Broker.{trade_slots}
use everest_core_dev.Energy.Amounts.{IsExact, smaller-IsUnder, smaller-IsNonneg}
use everest_core_dev.Energy.Slots.{trade_slot-IsWithin}
use everest_core_dev.Energy.Schedules.{
  Fits, AllUnder, under_none, under_slot, AllWithin, within_none, within_slot, IsSized, sized_none,
  sized_slot, same_size, AllNonneg, Fits-import, Fits-export,
}

-- An offer whose schedules have all slots, and no negative limit of a power.
pub record IsSound {F : Type 0} (fl : Floats F) (ts : List ℕ) (xs : ScheduleReq F) : Type 0 where
  pub sized : IsSized ts xs
  pub nonneg : AllNonneg fl xs

module _ {F : Type 0} (fl : Floats F) where
  abbrev pub MarketFits : List ℕ → Market F → Type 0
  MarketFits ts m = Fits fl ts m.import_max_available m.export_max_available m.sold_root

  -- An offer is under what a market has left, in both directions.
  abbrev pub OfferUnder : List ℕ → Offer F → Offer F → Type 0
  OfferUnder ts o p =
      AllUnder fl ts o.import_offer p.import_offer × AllUnder fl ts o.export_offer p.export_offer

  abbrev pub left_of : Market F → Offer F
  left_of m = record {
    import_offer = get_available_energy_import fl m;
    export_offer = get_available_energy_export fl m;
  }

  abbrev pub OfferIsSound : List ℕ → Offer F → Type 0
  OfferIsSound ts o = IsSound fl ts o.import_offer × IsSound fl ts o.export_offer

module _ {F : Type 0} (fl : Floats F) (voltage : F) (exact : IsExact fl voltage) where
  entries-under :
      {ts : List ℕ} {xs ys : ScheduleReq F}
      → IsSized ts xs
      → IsSized ts ys
      → AllUnder fl ts (apply_entries fl xs ys) xs × AllUnder fl ts (apply_entries fl xs ys) ys
  unfolding apply_entry
  entries-under sized_none sized_none = (under_none, under_none)
  entries-under (sized_slot {a = x} n) (sized_slot {a = y} m) =
      let rest = entries-under n m in
      let a =
        smaller-IsUnder fl voltage exact x.limits_to_root.ac_max_current_a
          y.limits_to_root.ac_max_current_a in
      let w =
        smaller-IsUnder fl voltage exact x.limits_to_root.total_power_w
          y.limits_to_root.total_power_w in
      (under_slot a.0 w.0 rest.0, under_slot a.1 w.1 rest.1)

  entries-nonneg :
      (xs ys : ScheduleReq F)
      → AllNonneg fl xs
      → AllNonneg fl ys
      → AllNonneg fl (apply_entries fl xs ys)
  unfolding apply_entry
  entries-nonneg [] ys n m = tt
  entries-nonneg (x ∷ xs) [] n m = n
  entries-nonneg (x ∷ xs) (y ∷ ys) n m = (
    smaller-IsNonneg fl voltage exact x.limits_to_root.total_power_w y.limits_to_root.total_power_w
        n.0 m.0,
    entries-nonneg xs ys n.1 m.1,
  )

  under-IsSized : {ts : List ℕ} {xs ys : ScheduleReq F} → AllUnder fl ts xs ys → IsSized ts xs
  under-IsSized under_none = sized_none
  under-IsSized (under_slot a w u) = sized_slot (under-IsSized u)

  -- Limits that are applied are kept, with the ones before.
  apply_limits-IsSound :
      {ts : List ℕ} (xs ys : ScheduleReq F)
      → IsSound fl ts xs
      → IsSound fl ts ys
      → IsSound fl ts (apply_limits fl xs ys)
        × AllUnder fl ts (apply_limits fl xs ys) xs
        × AllUnder fl ts (apply_limits fl xs ys) ys
  unfolding apply_limits
  apply_limits-IsSound {ts = ts} xs ys s r =
      let u = entries-under s.sized r.sized in
      let both : IsSound fl ts (apply_entries fl xs ys) = record {
        sized = under-IsSized u.0;
        nonneg = entries-nonneg xs ys s.nonneg r.nonneg;
      } in
      rw (same_size xs ys s.sized r.sized, apply_limits) (both, u.0, u.1)

  slots-AllWithin :
      (globals : Globals F) {ts : List ℕ} {is es : ScheduleReq F} {first : List Bool}
      → fl.le (zero_f fl) globals.slice_ampere ≡ true
      → fl.le (zero_f fl) globals.slice_watt ≡ true
      → IsSized ts is
      → IsSized ts es
      → AllNonneg fl is
      → AllNonneg fl es
      → IsSized ts first
      → let t = trade_slots fl voltage globals ts is es first in
        AllWithin fl ts is es t.trading × IsSized ts t.first_trade
  unfolding trade_slots
  slots-AllWithin globals a w sized_none sized_none ni ne sized_none = (within_none, sized_none)
  slots-AllWithin globals a w (sized_slot {a = i} si) (sized_slot {a = e} se) ni ne
        (sized_slot {a = b} n) =
      let rest = slots-AllWithin globals a w si se ni.1 ne.1 n in
      let here = trade_slot-IsWithin fl voltage exact globals i e b a w ni.0 ne.0 in
      (within_slot here.0 here.1 rest.0, sized_slot rest.1)

  -- The trade of all slots is within the offers that it is made of.
  pub trade_slots-AllWithin :
      (globals : Globals F) {ts : List ℕ} {is es : ScheduleReq F} {first : List Bool}
      → fl.le (zero_f fl) globals.slice_ampere ≡ true
      → fl.le (zero_f fl) globals.slice_watt ≡ true
      → IsSound fl ts is
      → IsSound fl ts es
      → IsSized ts first
      → let t = trade_slots fl voltage globals ts is es first in
        AllWithin fl ts is es t.trading × IsSized ts t.first_trade
  trade_slots-AllWithin globals a w i e n =
      slots-AllWithin globals a w i.sized e.sized i.nonneg e.nonneg n

  pub empty-IsSound : (ts : List ℕ) → IsSound fl ts (schedule_req no_limits ts)
  unfolding schedule_req
  empty-IsSound [] = record { sized = sized_none; nonneg = tt }
  empty-IsSound (t ∷ ts) =
      let rest = empty-IsSound ts in
      record { sized = sized_slot rest.sized; nonneg = (tt, rest.nonneg) }

  pub limit_offer-IsSound :
      {ts : List ℕ} (m : Market F) (o : Offer F)
      → MarketFits fl ts m
      → OfferIsSound fl ts o
      → OfferIsSound fl ts (limit_offer fl m o)
        × OfferUnder fl ts (limit_offer fl m o) o
        × OfferUnder fl ts (limit_offer fl m o) (left_of fl m)
  limit_offer-IsSound {ts = ts} m o fits (si, se) =
      let fi = Fits-import fl voltage exact fits in
      let fe = Fits-export fl voltage exact fits in
      let ri : IsSound fl ts (get_available_energy_import fl m) = record {
        sized = fi.0;
        nonneg = fi.1;
      } in
      let re : IsSound fl ts (get_available_energy_export fl m) = record {
        sized = fe.0;
        nonneg = fe.1;
      } in
      let i = apply_limits-IsSound o.import_offer (get_available_energy_import fl m) si ri in
      let e = apply_limits-IsSound o.export_offer (get_available_energy_export fl m) se re in
      ((i.0, e.0), (i.1, e.1), (i.2, e.2))
