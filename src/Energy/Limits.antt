-- ===== src/Energy/Limits.antt =====
-- No market of modules/EnergyManager sells more than it has.
use everest_core_dev.Common.{
  ℕ, ◌≡◌, true, zero, suc, Option, none, some, List, [], ◌∷◌, inl, inr, Bool-cases, Option-cases,
}
use mathlib.Core.Path.{subst}
use everest_core_dev.Floats.{Floats}
use everest_core_dev.Energy.{
  Tree, node, Forest, leaf, branch, ScheduleReq, Request, EnergyFlowRequest, Globals, no_limits,
  schedule_req, empty_schedule_res,
}
use everest_core_dev.Energy.Market.{
  Market, zero_f, resample, max_available, zero_limits, make_market, make_markets, find_entry,
}
use everest_core_dev.Energy.Offer.{Offer, make_offer}
use everest_core_dev.Energy.Broker.{trade_slots}
use everest_core_dev.Energy.Optimizer.{
  Broker, all_first, make_brokers, max_number_of_trading_rounds, trade, round, rounds,
}
use everest_core_dev.Energy.Amounts.{IsExact, IsNonneg, Up, Down}
use everest_core_dev.Energy.Schedules.{
  Fits, fits_none, fits_slot, IsSized, sized_none, sized_slot, same_size,
}
use everest_core_dev.Energy.Offers.{empty-IsSound, trade_slots-AllWithin}
use everest_core_dev.Energy.Paths.{TreeFits, ForestFits, offer_at-PathUnder, trade_at-Fits}

-- Every broker keeps a mark for every slot.
abbrev BrokersSized : List ℕ → List Broker → Type 0
BrokersSized ts [] = Unit
BrokersSized ts (b ∷ brokers) = IsSized ts b.first_trade × BrokersSized ts brokers

module _ {F : Type 0} (fl : Floats F) where
  -- No limit of a schedule is negative.
  abbrev pub LimitsNonneg : ScheduleReq F → Type 0
  LimitsNonneg [] = Unit
  LimitsNonneg (x ∷ xs) =
      (IsNonneg fl x.limits_to_root.ac_max_current_a × IsNonneg fl x.limits_to_root.total_power_w)
      × LimitsNonneg xs

  -- The limits that the markets of a request take from it are not negative.
  abbrev mutual
    pub RequestIsNonneg : List ℕ → EnergyFlowRequest F → Type 0
    RequestIsNonneg ts (node r children) =
        (LimitsNonneg (max_available fl ts r.schedule_import)
          × LimitsNonneg (max_available fl ts r.schedule_export))
        × RequestsAreNonneg ts children

    pub RequestsAreNonneg : List ℕ → Forest (Request F) → Type 0
    RequestsAreNonneg ts leaf = Unit
    RequestsAreNonneg ts (branch t more) = RequestIsNonneg ts t × RequestsAreNonneg ts more

module _ {F : Type 0} (fl : Floats F) (voltage : F) (exact : IsExact fl voltage) where
  schedule_req-IsSized : (limits : _) (ts : List ℕ) → IsSized ts (schedule_req {F = F} limits ts)
  unfolding schedule_req
  schedule_req-IsSized limits [] = sized_none
  schedule_req-IsSized limits (t ∷ ts) = sized_slot (schedule_req-IsSized limits ts)

  nothing-Up : (limit : Option F) → IsNonneg fl limit → Up fl limit (zero_f fl)
  nothing-Up none n = tt
  nothing-Up (some m) n = (n, n)

  nothing-Down : (limit : Option F) → IsNonneg fl limit → Down fl limit (zero_f fl)
  nothing-Down none n = tt
  nothing-Down (some e) n =
      (n, subst (λ x. fl.le (fl.neg e) x ≡ true) exact.neg_zero (exact.neg_anti (zero_f fl) e n))

  -- Nothing sold is within limits that are not negative.
  empty-Fits :
      {ts : List ℕ} {is es : ScheduleReq F}
      → IsSized ts is
      → IsSized ts es
      → LimitsNonneg fl is
      → LimitsNonneg fl es
      → Fits fl ts is es (empty_schedule_res ts)
  unfolding empty_schedule_res
  empty-Fits sized_none sized_none ni ne = fits_none
  empty-Fits (sized_slot {a = i} n) (sized_slot {a = e} m) ni ne =
      fits_slot
        (
          nothing-Up i.limits_to_root.ac_max_current_a ni.0.0,
          nothing-Down e.limits_to_root.ac_max_current_a ne.0.0,
        )
        (
          nothing-Up i.limits_to_root.total_power_w ni.0.1,
          nothing-Down e.limits_to_root.total_power_w ne.0.1,
        )
        (empty-Fits n m ni.1 ne.1)

  resample-IsSized :
      {ts : List ℕ} {available : ScheduleReq F} (request : ScheduleReq F)
      → IsSized ts available
      → IsSized ts (resample fl request available)
  unfolding resample
  resample-IsSized request sized_none = sized_none
  resample-IsSized request (sized_slot {a = a} n) =
      let rest = resample-IsSized request n in
      elim (Option-cases (find_entry fl true a.timestamp request)) [
        | inl e ↦ rw (e, resample) (sized_slot rest)
        | inr (r, e) ↦ rw (e, resample) (sized_slot rest)
      ]

  max_available-IsSized :
      (ts : List ℕ) (request : Option (ScheduleReq F)) → IsSized ts (max_available fl ts request)
  max_available-IsSized ts none = schedule_req-IsSized (zero_limits fl) ts
  max_available-IsSized ts (some request) =
      resample-IsSized request (schedule_req-IsSized no_limits ts)

  mutual
    unfolding make_market

    make_market-Fits :
        (ts : List ℕ) (request : EnergyFlowRequest F)
        → RequestIsNonneg fl ts request
        → TreeFits fl ts (make_market fl ts request)
    make_market-Fits ts (node r children) n = (
      empty-Fits (max_available-IsSized ts r.schedule_import)
          (max_available-IsSized ts r.schedule_export) n.0.0 n.0.1,
      make_markets-Fits ts children n.1,
    )

    make_markets-Fits :
        (ts : List ℕ) (requests : Forest (Request F))
        → RequestsAreNonneg fl ts requests
        → ForestFits fl ts (make_markets fl ts requests)
    make_markets-Fits ts leaf n = tt
    make_markets-Fits ts (branch t more) n =
        (make_market-Fits ts t n.0, make_markets-Fits ts more n.1)

  module _ (globals : Globals F) (ampere : fl.le (zero_f fl) globals.slice_ampere ≡ true)
      (watt : fl.le (zero_f fl) globals.slice_watt ≡ true) where
    abbrev all_slots : List ℕ
    all_slots = globals.timestamps

    abbrev Kept : List Broker → Tree (Market F) → Type 0
    Kept brokers markets = BrokersSized all_slots brokers × TreeFits fl all_slots markets

    trade-Fits :
        (b : Broker) (markets : Tree (Market F))
        → IsSized all_slots b.first_trade
        → TreeFits fl all_slots markets
        → let (b', markets', bought) = trade fl voltage globals b markets in
          IsSized all_slots b'.first_trade × TreeFits fl all_slots markets'
    unfolding trade make_offer
    trade-Fits b markets n fits =
        let empty = empty-IsSound fl voltage exact all_slots in
        let start : Offer F = record {
          import_offer = schedule_req no_limits all_slots;
          export_offer = schedule_req no_limits all_slots;
        } in
        let o = make_offer fl all_slots b.local_market markets in
        let r =
          offer_at-PathUnder fl voltage exact all_slots b.local_market markets start fits
            (empty, empty) in
        let (si, se) = r.0.0 in
        let t = trade_slots-AllWithin fl voltage exact globals ampere watt si se n in
        rw (same_size o.import_offer o.export_offer si.sized se.sized, trade)
          (
            t.1,
            trade_at-Fits fl voltage exact all_slots b.local_market markets o
                (trade_slots fl voltage globals all_slots o.import_offer o.export_offer
                  b.first_trade).trading
                fits r.1 t.0,
          )

    round-Fits :
        (brokers : List Broker) (markets : Tree (Market F))
        → Kept brokers markets
        → let (brokers', markets', bought) = round fl voltage globals brokers markets in
          Kept brokers' markets'
    unfolding round
    round-Fits [] markets kept = kept
    round-Fits (b ∷ brokers) markets (n, fits) =
        let h = trade-Fits b markets n.0 fits in
        let after = (trade fl voltage globals b markets).1 in
        let rest = round-Fits brokers after (n.1, h.1) in ((h.0, rest.0), rest.1)

    rounds-Fits :
        (n : ℕ) (brokers : List Broker) (markets : Tree (Market F))
        → Kept brokers markets
        → TreeFits fl all_slots (rounds fl voltage globals n brokers markets).0
    unfolding rounds
    rounds-Fits zero brokers markets kept = kept.1
    rounds-Fits (suc n) brokers markets kept =
        let r = round-Fits brokers markets kept in
        let after = round fl voltage globals brokers markets in
        elim (Bool-cases after.2) [
          | inl e ↦ rw (e, rounds) (rounds-Fits n after.0 after.1 r)
          | inr e ↦ rw (e, rounds) (r.1)
        ]

  all_first-IsSized : (ts : List ℕ) → IsSized ts (all_first ts)
  all_first-IsSized [] = sized_none
  all_first-IsSized (t ∷ ts) = sized_slot (all_first-IsSized ts)

  make_brokers-sized :
      (ts : List ℕ) (paths : List (List ℕ)) → BrokersSized ts (make_brokers ts paths)
  make_brokers-sized ts [] = tt
  make_brokers-sized ts (path ∷ paths) = (all_first-IsSized ts, make_brokers-sized ts paths)

-- In arithmetic that does not round, with slices to trade and limits of the requests that are not
-- negative: when the rounds of trading end, whatever the paths of the brokers, in every market and every
-- slot, the current and the power that are sold are at most the limits to import, and what is given back
-- is at most the limits to export.
pub all_rounds-TreeFits :
    {F : Type 0} (fl : Floats F) (voltage : F) (exact : IsExact fl voltage) (globals : Globals F)
    (request : EnergyFlowRequest F) (ampere : fl.le (zero_f fl) globals.slice_ampere ≡ true)
    (watt : fl.le (zero_f fl) globals.slice_watt ≡ true)
    (nonneg : RequestIsNonneg fl globals.timestamps request) (paths : List (List ℕ))
    → let ts = globals.timestamps in
      TreeFits fl ts
        (rounds fl voltage globals max_number_of_trading_rounds
          (make_brokers ts paths)
          (make_market fl ts request)).0
all_rounds-TreeFits fl voltage exact globals request ampere watt nonneg paths =
    let ts = globals.timestamps in
    rounds-Fits fl voltage exact globals ampere watt max_number_of_trading_rounds
      (make_brokers ts paths) (make_market fl ts request)
      (
        make_brokers-sized fl voltage exact ts paths,
        make_market-Fits fl voltage exact ts request nonneg,
      )
