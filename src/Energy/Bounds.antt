-- ===== src/Energy/Bounds.antt =====
-- What the markets of modules/EnergyManager sell, against the requests of their nodes.
use mathlib.Core.Path.{subst}
use everest_core_dev.Common.{
  if◌then◌else◌, ◌++◌, ℕ, ◌≡◌, refl, sym, ◌∙◌, ap, true, suc, Option, none, some, List, [], ◌∷◌,
  inl, inr, Bool-cases, Option-cases,
}
use everest_core_dev.Floats.{Floats}
use everest_core_dev.Energy.{
  node, Forest, leaf, branch, Tree, Request, EnergyFlowRequest, Globals, ScheduleReq,
  ScheduleReqEntry, ScheduleRes, value_or, no_limits, schedule_req,
}
use everest_core_dev.Energy.Market.{
  Market, zero_f, cut, to_root, over, find_entry, merge_limits, resample, max_available,
  zero_limits, make_market, make_markets, get_list_of_evses, any_evse, child_evses,
}
use everest_core_dev.Energy.Optimizer.{
  make_brokers, max_number_of_trading_rounds, rounds, optimized,
}
use everest_core_dev.Energy.Amounts.{IsExact, Up, Down}
use everest_core_dev.Energy.Schedules.{Fits, fits_none, fits_slot}
use everest_core_dev.Energy.Paths.{TreeFits, ForestFits}
use everest_core_dev.Energy.Entries.{find_entry-in_force}
use everest_core_dev.Energy.Limits.{RequestIsNonneg, all_rounds-TreeFits}
use everest_core_dev.Energy.Granted.{
  Bounded, Grants, SlotsGranted, TreeGranted, ForestGranted, TimesIncrease, RequestIncreases,
  RequestsIncrease, AreLeaves, IsShallow, IsFor, AreFor, make_market-IsFor, rounds-IsFor,
}

module _ {F : Type 0} (fl : Floats F) where
  -- What is available in a slot.
  abbrev unlimited : ℕ → ScheduleReqEntry F
  unlimited t = record {
    timestamp = t;
    limits_to_root = no_limits;
    limits_to_leaves = no_limits;
    conversion_efficiency = none;
  }

  abbrev from_entry : ℕ → Option (ScheduleReqEntry F) → ScheduleReqEntry F
  from_entry t none = unlimited t
  from_entry t (some r) = merge_limits fl (unlimited t) r

  abbrev available_at : ℕ → Option (ScheduleReq F) → ScheduleReqEntry F
  available_at t none = record (unlimited t) { limits_to_root = zero_limits fl }
  available_at t (some es) = from_entry t (find_entry fl true t es)

  abbrev available : List ℕ → Option (ScheduleReq F) → ScheduleReq F
  available [] schedule = []
  available (t ∷ ts) schedule = available_at t schedule ∷ available ts schedule

  resample-from_entry :
      (t : ℕ) (es rest : ScheduleReq F)
      → resample fl es (unlimited t ∷ rest)
        ≡ from_entry t (find_entry fl true t es) ∷ resample fl es rest
  unfolding resample
  resample-from_entry t es rest = go (find_entry fl true t es)
    where
      go :
          (o : Option (ScheduleReqEntry F))
          → (elim o [
            | none ↦ unlimited t ∷ resample fl es rest
            | some r ↦ merge_limits fl (unlimited t) r ∷ resample fl es rest
          ])
            ≡ from_entry t o ∷ resample fl es rest
      go none = refl
      go (some r) = refl

  max_available-available :
      (ts : List ℕ) (schedule : Option (ScheduleReq F))
      → max_available fl ts schedule ≡ available ts schedule
  unfolding schedule_req resample
  max_available-available [] none = refl
  max_available-available [] (some es) = refl
  max_available-available (t ∷ ts) none =
      ap (λ rest. available_at t none ∷ rest) (max_available-available ts none)
  max_available-available (t ∷ ts) (some es) =
      resample-from_entry t es (schedule_req no_limits ts)
      ∙ ap (λ rest. available_at t (some es) ∷ rest) (max_available-available ts (some es))

module _ {F : Type 0} (fl : Floats F) (voltage : F) (exact : IsExact fl voltage) where
  cut-Bounded :
      (leaves root efficiency : Option F) (s : F)
      → Up fl (cut fl (to_root fl leaves efficiency) root) s
      → Bounded fl leaves root efficiency s
  unfolding over
  cut-Bounded none root efficiency s up = tt
  cut-Bounded (some a) none efficiency s up = up.1
  cut-Bounded (some a) (some r) efficiency s up =
      let m = over fl a (value_or efficiency (fl.narrow (fl.lit 1 0))) in
      let trans = exact.ordered.le_trans in
      elim (Bool-cases (fl.lt r m)) [
        | inl e ↦
            (let below : fl.le s r ≡ true = (rw e at up).1 in
              (trans s r m below (exact.ordered.lt→le r m e), below))
        | inr e ↦
            (let below : fl.le s m ≡ true = (rw e at up).1 in
              (below, trans s m r below (exact.ordered.le_of_not_lt r m e)))
      ]

  Down-Up : (limit : Option F) (s : F) → Down fl limit s → Up fl limit (fl.neg s)
  Down-Up none s d = tt
  Down-Up (some e) s (n, d) =
      (n, subst (λ x. fl.le (fl.neg s) x ≡ true) (exact.neg_neg e) (exact.neg_anti (fl.neg e) s d))

  slot-Grants :
      (t : ℕ) (schedule : Option (ScheduleReq F)) (current power : F)
      → TimesIncrease schedule
      → let a = available_at fl t schedule in
        Up fl a.limits_to_root.ac_max_current_a current
        → Up fl a.limits_to_root.total_power_w power
        → Grants fl schedule t current power
  unfolding merge_limits
  slot-Grants t none current power inc c p = (c.1, p.1)
  slot-Grants t (some es) current power inc c p =
      let found = find_entry-in_force fl t es inc in
      elim (Option-cases (find_entry fl true t es)) [
        | inl e ↦ (let none_in_force = sym found ∙ e in rw none_in_force tt)
        | inr (r, e) ↦
            (let some_in_force = sym found ∙ e in
              rw some_in_force (
                cut-Bounded r.limits_to_leaves.ac_max_current_a r.limits_to_root.ac_max_current_a
                    r.conversion_efficiency current
                    (subst (λ o. Up fl (from_entry fl t o).limits_to_root.ac_max_current_a current)
                      e c),
                cut-Bounded r.limits_to_leaves.total_power_w r.limits_to_root.total_power_w
                    r.conversion_efficiency power
                    (subst (λ o. Up fl (from_entry fl t o).limits_to_root.total_power_w power) e p),
              ))
      ]

  available-SlotsGranted :
      (r : Request F) (ts : List ℕ) (ss : ScheduleRes F)
      → TimesIncrease r.schedule_import
      → TimesIncrease r.schedule_export
      → Fits fl ts (available fl ts r.schedule_import) (available fl ts r.schedule_export) ss
      → SlotsGranted fl r ts ss
  available-SlotsGranted r [] [] i e fits_none = tt
  available-SlotsGranted r [] (s ∷ ss) i e fits = elim fits [ ]
  available-SlotsGranted r (t ∷ ts) [] i e fits = elim fits [ ]
  available-SlotsGranted r (t ∷ ts) (s ∷ ss) i e (fits_slot c p rest) =
      let current = value_or s.limits_to_root.ac_max_current_a (zero_f fl) in
      let power = value_or s.limits_to_root.total_power_w (zero_f fl) in
      let out = available_at fl t r.schedule_export in
      (
        slot-Grants t r.schedule_import current power i c.0 p.0,
        slot-Grants t r.schedule_export (fl.neg current) (fl.neg power) e
            (Down-Up out.limits_to_root.ac_max_current_a current c.1)
            (Down-Up out.limits_to_root.total_power_w power p.1),
        available-SlotsGranted r ts ss i e rest,
      )

  market-SlotsGranted :
      (r : Request F) (ts : List ℕ) (m : Market F)
      → TimesIncrease r.schedule_import
      → TimesIncrease r.schedule_export
      → m.import_max_available ≡ max_available fl ts r.schedule_import
      → m.export_max_available ≡ max_available fl ts r.schedule_export
      → Fits fl ts m.import_max_available m.export_max_available m.sold_root
      → SlotsGranted fl r ts m.sold_root
  market-SlotsGranted r ts m i e same_i same_e fits =
      let to_i = same_i ∙ max_available-available fl ts r.schedule_import in
      let to_e = same_e ∙ max_available-available fl ts r.schedule_export in
      available-SlotsGranted r ts m.sold_root i e (
        subst (λ is. Fits fl ts is (available fl ts r.schedule_export) m.sold_root) to_i
          (subst (λ es. Fits fl ts m.import_max_available es m.sold_root) to_e fits))

  mutual
    tree-TreeGranted :
        (ts : List ℕ) (r : EnergyFlowRequest F) (m : Tree (Market F))
        → RequestIncreases r
        → IsFor fl ts r m
        → TreeFits fl ts m
        → TreeGranted fl ts r m
    tree-TreeGranted ts (node r rs) (node m ms) inc same fits = (
      market-SlotsGranted r ts m inc.0 inc.1 same.0 same.1 fits.0,
      forest-ForestGranted ts rs ms inc.2 same.2 fits.1,
    )

    forest-ForestGranted :
        (ts : List ℕ) (rs : Forest (Request F)) (ms : Forest (Market F))
        → RequestsIncrease rs
        → AreFor fl ts rs ms
        → ForestFits fl ts ms
        → ForestGranted fl ts rs ms
    forest-ForestGranted ts leaf leaf inc same fits = tt
    forest-ForestGranted ts (branch r rs) (branch m ms) inc same fits = (
      tree-TreeGranted ts r m inc.0 same.0 fits.0,
      forest-ForestGranted ts rs ms inc.1 same.1 fits.1,
    )
    forest-ForestGranted ts leaf (branch m ms) inc same fits = elim same [ ]
    forest-ForestGranted ts (branch r rs) leaf inc same fits = elim same [ ]

module _ {F : Type 0} (fl : Floats F) where
  child_evses-leaves :
      (ts : List ℕ) (k : ℕ) (rs : Forest (Request F))
      → AreLeaves rs
      → (paths : List (List ℕ)) × (child_evses k (make_markets fl ts rs) ≡ some paths)
  unfolding child_evses make_market any_evse
  child_evses-leaves ts k leaf shallow = ([], refl)
  child_evses-leaves ts k (branch (node r leaf) more) shallow =
      let (paths, e) = child_evses-leaves ts (suc k) more shallow in
      ((if r.is_evse then (k ∷ []) ∷ [] else []) ++ paths, rw e refl)
  child_evses-leaves ts k (branch (node r (branch t ts')) more) shallow = elim shallow [ ]

  evses-listed :
      (ts : List ℕ) (r : EnergyFlowRequest F)
      → IsShallow r
      → (paths : List (List ℕ)) × (get_list_of_evses (make_market fl ts r) ≡ some paths)
  unfolding get_list_of_evses make_market
  evses-listed ts (node r rs) shallow =
      let (paths, e) = child_evses-leaves ts 0 rs shallow in
      ((if r.is_evse then [] ∷ [] else []) ++ paths, rw (e, get_list_of_evses) refl)

-- In arithmetic that does not round, with slices to trade, for a request whose root alone has children,
-- whose schedules have times that increase, and whose limits are not negative: the rounds of trading
-- end, and then, in every market and every slot, the current and the power that are sold are at most
-- what the entry in force of the schedule to import allows, at its leaves by the efficiency and, where
-- it has a limit at the leaves, at its root; and what is given back likewise by the schedule to export.
-- Without a schedule nothing is sold, or given back.
pub optimized-TreeGranted :
    {F : Type 0} (fl : Floats F) (voltage : F) (exact : IsExact fl voltage) (globals : Globals F)
    (request : EnergyFlowRequest F) (ampere : fl.le (zero_f fl) globals.slice_ampere ≡ true)
    (watt : fl.le (zero_f fl) globals.slice_watt ≡ true)
    (nonneg : RequestIsNonneg fl globals.timestamps request) (shallow : IsShallow request)
    (increases : RequestIncreases request)
    → (markets : Tree (Market F)) × (optimized fl voltage globals request ≡ some markets)
      × TreeGranted fl globals.timestamps request markets
unfolding optimized
optimized-TreeGranted fl voltage exact globals request ampere watt nonneg shallow increases =
    let ts = globals.timestamps in
    let start = make_market fl ts request in
    let (paths, listed) = evses-listed fl ts request shallow in
    let brokers = make_brokers ts paths in
    let markets = (rounds fl voltage globals max_number_of_trading_rounds brokers start).0 in
    (
      markets,
      rw (listed, optimized) refl,
      tree-TreeGranted fl voltage exact ts request markets increases
          (rounds-IsFor fl voltage globals request max_number_of_trading_rounds brokers start
            (make_market-IsFor fl ts request))
          (all_rounds-TreeFits fl voltage exact globals request ampere watt nonneg paths),
    )
