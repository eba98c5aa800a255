-- ===== src/Energy/Optimizer.antt =====
-- The rounds of trading of modules/EnergyManager/EnergyManager.cpp.
use everest_core_dev.Common.{
  ℕ, ◌+◌, ◌*◌, ◌^◌, Bool, true, false, ◌||◌, zero, suc, Option, none, some, List, [], ◌∷◌, ◌==◌,
  if◌then◌else◌, length,
}
use everest_core_dev.Floats.{Floats}
use everest_core_dev.Energy.{
  Tree, node, Forest, leaf, branch, LimitsRes, ScheduleRes, EnergyFlowRequest, Globals,
}
use everest_core_dev.Energy.Market.{Market, make_market, trade_at, get_list_of_evses}
use everest_core_dev.Energy.Offer.{make_offer}
use everest_core_dev.Energy.Broker.{trade_slots}

-- A broker: the path to its market, and the slots that it has not bought in.
pub record Broker : Type 0 where
  pub local_market : List ℕ
  pub first_trade : List Bool

pub record EnforcedLimits (F : Type 0) : Type 0 where
  pub uuid : ℕ
  pub valid_until : ℕ
  pub limits_root_side : Option (LimitsRes F)
  pub schedule : ScheduleRes F

abbrev pub max_number_of_trading_rounds : ℕ
max_number_of_trading_rounds = 100

-- `first_trade(globals.schedule_length, true)`.
abbrev pub all_first : List ℕ → List Bool
all_first [] = []
all_first (t ∷ ts) = true ∷ all_first ts

abbrev pub make_brokers : List ℕ → List (List ℕ) → List Broker
make_brokers ts [] = []
make_brokers ts (path ∷ paths) =
    record { local_market = path; first_trade = all_first ts } ∷ make_brokers ts paths

module _ {F : Type 0} (fl : Floats F) (voltage : F) (globals : Globals F) where
  -- `BrokerFastCharging::trade` on a new offer: the broker, the markets, and whether it bought.
  unfoldable pub trade : Broker → Tree (Market F) → Broker × Tree (Market F) × Bool
  unfolding make_offer trade_slots trade_at
  trade b markets =
      let offer = make_offer fl globals.timestamps b.local_market markets in
      let t =
        trade_slots fl voltage globals globals.timestamps offer.import_offer offer.export_offer
          b.first_trade in
      if length offer.import_offer == length offer.export_offer
      then (
        record b { first_trade = t.first_trade },
        trade_at fl b.local_market t.trading markets,
        t.traded,
      )
      else (b, markets, false)

  -- One round, every broker in turn.
  unfoldable pub round : List Broker → Tree (Market F) → List Broker × Tree (Market F) × Bool
  unfolding trade
  round [] markets = ([], markets, false)
  round (b ∷ brokers) markets =
      let (b', markets', bought) = trade b markets in
      let (brokers', markets2, more) = round brokers markets' in
      (b' ∷ brokers', markets2, bought || more)

  -- The loop, and how many rounds it ran.
  unfoldable pub rounds : ℕ → List Broker → Tree (Market F) → Tree (Market F) × ℕ
  unfolding round
  rounds zero brokers markets = (markets, 0)
  rounds (suc n) brokers markets =
      let (brokers', markets', bought) = round brokers markets in
      let (end, count) = rounds n brokers' markets' in
      if bought then (end, suc count) else (markets', 1)

  unfoldable mutual
    pub market_at : List ℕ → Tree (Market F) → Option (Market F)
    market_at [] (node m children) = some m
    market_at (k ∷ path) (node m children) = market_in k path children

    pub market_in : ℕ → List ℕ → Forest (Market F) → Option (Market F)
    market_in k path leaf = none
    market_in zero path (branch t more) = market_at path t
    market_in (suc k) path (branch t more) = market_in k path more

  abbrev pub first_limits : ScheduleRes F → Option (LimitsRes F)
  first_limits [] = none
  first_limits (e ∷ es) = some e.limits_to_root

  -- The limits of the EVSEs, of which a path always leads to a market.
  unfoldable pub enforced_limits : ℕ → List (List ℕ) → Tree (Market F) → List (EnforcedLimits F)
  unfolding market_at
  enforced_limits valid_until [] markets = []
  enforced_limits valid_until (path ∷ paths) markets =
      let rest = enforced_limits valid_until paths markets in
      elim (market_at path markets) [
        | none ↦ rest
        | some m ↦
            (record {
              uuid = m.uuid;
              valid_until = valid_until;
              limits_root_side = first_limits m.sold_root;
              schedule = m.sold_root;
            }
              ∷ rest)
      ]

  -- The markets at the end of the rounds, or none where a pointer to one of them is not valid.
  unfoldable pub optimized : EnergyFlowRequest F → Option (Tree (Market F))
  unfolding make_market get_list_of_evses rounds
  optimized request =
      let markets = make_market fl globals.timestamps request in
      elim (get_list_of_evses markets) [
        | none ↦ none
        | some paths ↦
            some
              (rounds max_number_of_trading_rounds (make_brokers globals.timestamps paths)
                markets).0
      ]

  -- `update_interval` is in seconds.
  unfoldable pub run_optimizer : ℕ → ℕ → EnergyFlowRequest F → Option (List (EnforcedLimits F))
  unfolding optimized enforced_limits
  run_optimizer now update_interval request =
      elim (get_list_of_evses (make_market fl globals.timestamps request)) [
        | none ↦ none
        | some paths ↦ elim (optimized request) [
          | none ↦ none
          | some markets ↦
              some (enforced_limits (now + update_interval * 10 * 10 ^ 9) paths markets)
        ]
      ]
