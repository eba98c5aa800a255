-- ===== src/Energy/Granted.antt =====
-- What the request of a node of modules/EnergyManager grants to its market.
use everest_core_dev.Common.{
  ℕ, ◌≡◌, refl, true, zero, suc, Option, none, some, List, [], ◌∷◌, ◌==◌, length, inl, inr,
  Bool-cases,
}
use everest_core_dev.Floats.{Floats}
use everest_core_dev.Energy.{
  node, Forest, leaf, branch, Tree, Request, EnergyFlowRequest, Globals, ScheduleReq,
  ScheduleReqEntry, ScheduleRes, value_or, times_of,
}
use everest_core_dev.Energy.Market.{
  Market, zero_f, max_available, make_market, make_markets, trade_at, trade_in,
}
use everest_core_dev.Energy.Offer.{make_offer}
use everest_core_dev.Energy.Broker.{trade_slots}
use everest_core_dev.Energy.Optimizer.{Broker, trade, round, rounds}
use everest_core_dev.Energy.Times.{IsIncreasing}
use everest_core_dev.Energy.Entries.{in_force}

module _ {F : Type 0} where
  abbrev pub TimesIncrease : Option (ScheduleReq F) → Type 0
  TimesIncrease none = Unit
  TimesIncrease (some es) = IsIncreasing (times_of es)

  -- The times of all schedules of a request increase.
  abbrev mutual
    pub RequestIncreases : EnergyFlowRequest F → Type 0
    RequestIncreases (node r rs) =
        TimesIncrease r.schedule_import × TimesIncrease r.schedule_export × RequestsIncrease rs

    pub RequestsIncrease : Forest (Request F) → Type 0
    RequestsIncrease leaf = Unit
    RequestsIncrease (branch t more) = RequestIncreases t × RequestsIncrease more

  -- No child of the root has children.
  abbrev pub AreLeaves : Forest (Request F) → Type 0
  AreLeaves leaf = Unit
  AreLeaves (branch (node r leaf) more) = AreLeaves more
  AreLeaves (branch (node r (branch t ts)) more) = ⊥

  abbrev pub IsShallow : EnergyFlowRequest F → Type 0
  IsShallow (node r rs) = AreLeaves rs

module _ {F : Type 0} (fl : Floats F) where
  -- An amount is at most the limit at the leaves, divided by the efficiency, and at most the one at the
  -- root. Without a limit at the leaves there is none.
  abbrev pub Bounded : Option F → Option F → Option F → F → Type 0
  Bounded none root efficiency s = Unit
  Bounded (some a) none efficiency s =
      fl.le s (fl.narrow (fl.div a (value_or efficiency (fl.narrow (fl.lit 1 0))))) ≡ true
  Bounded (some a) (some r) efficiency s =
      (fl.le s (fl.narrow (fl.div a (value_or efficiency (fl.narrow (fl.lit 1 0))))) ≡ true)
      × (fl.le s r ≡ true)

  abbrev pub EntryBounds : Option (ScheduleReqEntry F) → F → F → Type 0
  EntryBounds none current power = Unit
  EntryBounds (some e) current power =
      Bounded e.limits_to_leaves.ac_max_current_a e.limits_to_root.ac_max_current_a
        e.conversion_efficiency current
      × Bounded e.limits_to_leaves.total_power_w e.limits_to_root.total_power_w
          e.conversion_efficiency power

  -- What a schedule grants at a time: nothing if there is none, else what the entry in force allows.
  abbrev pub Grants : Option (ScheduleReq F) → ℕ → F → F → Type 0
  Grants none t current power =
      (fl.le current (zero_f fl) ≡ true) × (fl.le power (zero_f fl) ≡ true)
  Grants (some es) t current power = EntryBounds (in_force t es) current power

  -- What is sold in every slot is granted by the schedule to import, and what is given back, its
  -- negative, by the one to export.
  abbrev pub SlotsGranted : Request F → List ℕ → ScheduleRes F → Type 0
  SlotsGranted r [] [] = Unit
  SlotsGranted r (t ∷ ts) (s ∷ ss) =
      let current = value_or s.limits_to_root.ac_max_current_a (zero_f fl) in
      let power = value_or s.limits_to_root.total_power_w (zero_f fl) in
      Grants r.schedule_import t current power
      × Grants r.schedule_export t (fl.neg current) (fl.neg power)
      × SlotsGranted r ts ss
  SlotsGranted r _ _ = ⊥

  -- The markets have the shape of the request, and each is granted what it sells by its node.
  abbrev mutual
    pub TreeGranted : List ℕ → EnergyFlowRequest F → Tree (Market F) → Type 0
    TreeGranted ts (node r rs) (node m ms) = SlotsGranted r ts m.sold_root × ForestGranted ts rs ms

    pub ForestGranted : List ℕ → Forest (Request F) → Forest (Market F) → Type 0
    ForestGranted ts leaf leaf = Unit
    ForestGranted ts (branch r rs) (branch m ms) = TreeGranted ts r m × ForestGranted ts rs ms
    ForestGranted ts _ _ = ⊥

  -- The markets of a request have its limits.
  abbrev mutual
    pub IsFor : List ℕ → EnergyFlowRequest F → Tree (Market F) → Type 0
    IsFor ts (node r rs) (node m ms) =
        (m.import_max_available ≡ max_available fl ts r.schedule_import)
        × (m.export_max_available ≡ max_available fl ts r.schedule_export)
        × AreFor ts rs ms

    pub AreFor : List ℕ → Forest (Request F) → Forest (Market F) → Type 0
    AreFor ts leaf leaf = Unit
    AreFor ts (branch r rs) (branch m ms) = IsFor ts r m × AreFor ts rs ms
    AreFor ts _ _ = ⊥

  mutual
    unfolding make_market

    pub make_market-IsFor :
        (ts : List ℕ) (r : EnergyFlowRequest F) → IsFor ts r (make_market fl ts r)
    make_market-IsFor ts (node r rs) = (refl, refl, make_markets-AreFor ts rs)

    make_markets-AreFor :
        (ts : List ℕ) (rs : Forest (Request F)) → AreFor ts rs (make_markets fl ts rs)
    make_markets-AreFor ts leaf = tt
    make_markets-AreFor ts (branch r rs) = (make_market-IsFor ts r, make_markets-AreFor ts rs)

  mutual
    unfolding trade_at

    trade_at-IsFor :
        (ts : List ℕ) (path : List ℕ) (traded : ScheduleRes F) (r : EnergyFlowRequest F)
        (m : Tree (Market F))
        → IsFor ts r m
        → IsFor ts r (trade_at fl path traded m)
    trade_at-IsFor ts [] traded (node r rs) (node m ms) h = h
    trade_at-IsFor ts (k ∷ path) traded (node r rs) (node m ms) h =
        (h.0, h.1, trade_in-AreFor ts k path traded rs ms h.2)

    trade_in-AreFor :
        (ts : List ℕ) (k : ℕ) (path : List ℕ) (traded : ScheduleRes F) (rs : Forest (Request F))
        (ms : Forest (Market F))
        → AreFor ts rs ms
        → AreFor ts rs (trade_in fl k path traded ms)
    trade_in-AreFor ts k path traded leaf leaf h = tt
    trade_in-AreFor ts zero path traded (branch r rs) (branch m ms) h =
        (trade_at-IsFor ts path traded r m h.0, h.1)
    trade_in-AreFor ts (suc k) path traded (branch r rs) (branch m ms) h =
        (h.0, trade_in-AreFor ts k path traded rs ms h.1)
    trade_in-AreFor ts k path traded leaf (branch m ms) h = elim h [ ]
    trade_in-AreFor ts k path traded (branch r rs) leaf h = elim h [ ]

  module _ (voltage : F) (globals : Globals F) (r : EnergyFlowRequest F) where
    abbrev IsOurs : Tree (Market F) → Type 0
    IsOurs m = IsFor globals.timestamps r m

    trade-IsFor :
        (b : Broker) (m : Tree (Market F)) → IsOurs m → IsOurs (trade fl voltage globals b m).1
    unfolding trade
    trade-IsFor b m h =
        let ts = globals.timestamps in
        let o = make_offer fl ts b.local_market m in
        let t = trade_slots fl voltage globals ts o.import_offer o.export_offer b.first_trade in
        elim (Bool-cases (length o.import_offer == length o.export_offer)) [
          | inl e ↦ rw (e, trade) (trade_at-IsFor ts b.local_market t.trading r m h)
          | inr e ↦ rw (e, trade) h
        ]

    round-IsFor :
        (brokers : List Broker) (m : Tree (Market F))
        → IsOurs m
        → IsOurs (round fl voltage globals brokers m).1
    unfolding round
    round-IsFor [] m h = h
    round-IsFor (b ∷ brokers) m h =
        round-IsFor brokers (trade fl voltage globals b m).1 (trade-IsFor b m h)

    pub rounds-IsFor :
        (n : ℕ) (brokers : List Broker) (m : Tree (Market F))
        → IsOurs m
        → IsOurs (rounds fl voltage globals n brokers m).0
    unfolding rounds
    rounds-IsFor zero brokers m h = h
    rounds-IsFor (suc n) brokers m h =
        let a = round fl voltage globals brokers m in
        let next = round-IsFor brokers m h in
        elim (Bool-cases a.2) [
          | inl e ↦ rw (e, rounds) (rounds-IsFor n a.0 a.1 next)
          | inr e ↦ rw (e, rounds) next
        ]
