-- ===== src/Energy/Watts.antt =====
-- A market of modules/EnergyManager that has only a limit of its power.
use everest_core_dev.Common.{
  ℕ, ◌≡◌, refl, ap, Bool, true, false, zero, suc, Option, none, some, [], ◌∷◌, inl, inr, Bool-cases,
}
use everest_core_dev.Floats.{Floats}
use everest_core_dev.Energy.{
  Tree, node, leaf, ScheduleReqEntry, Globals, no_limits, value_or, schedule_req,
}
use everest_core_dev.Energy.Market.{
  Market, zero_f, plus, sold_amount, get_available_energy, available_entry, schedule_add, add_entry,
  trade_at,
}
use everest_core_dev.Energy.Offer.{make_offer, offer_at, apply_limits, apply_entry}
use everest_core_dev.Energy.Broker.{trade_slot, trade_slots, buy_slot, buy_watt}
use everest_core_dev.Energy.Optimizer.{Broker, trade, round, rounds}
use everest_core_dev.Energy.Amounts.{IsExact}

module _ {F : Type 0} where
  -- A market of one slot, with a limit of the power that it imports and no limit of a current.
  abbrev pub power_market : ℕ → F → ScheduleReqEntry F → Option F → Option F → Tree (Market F)
  power_market t w y current sold =
      node
        record {
          uuid = 0;
          is_evse = true;
          import_max_available =
              record {
                timestamp = t;
                limits_to_root = record no_limits { total_power_w = some w };
                limits_to_leaves = no_limits;
                conversion_efficiency = none;
              }
              ∷ [];
          export_max_available = y ∷ [];
          sold_root =
              record {
                timestamp = t;
                limits_to_root = record { total_power_w = sold; ac_max_current_a = current };
              }
              ∷ [];
        }
        leaf

module _ {F : Type 0} (fl : Floats F) where
  -- What is sold as a current when a slice of the power is bought in every round.
  abbrev pub every_round : F → ℕ → F → F
  every_round slice zero c = c
  every_round slice (suc n) c = every_round slice n (plus fl slice c)

  abbrev pub SoldAsCurrent :
      F → ℕ → F → ScheduleReqEntry F → ℕ → Option F → Tree (Market F) × ℕ → Type 0
  SoldAsCurrent slice t w y n before (markets, count) =
      (count ≡ n)
      × ((current : Option F) × (power : Option F) × (markets ≡ power_market t w y current power)
          × (value_or current (zero_f fl) ≡ every_round slice n (value_or before (zero_f fl)))
          × (value_or power (zero_f fl) ≡ zero_f fl))

module _ {F : Type 0} (fl : Floats F) (voltage : F) (exact : IsExact fl voltage) where
  left_of_power :
      (w : F) (sold : Option F)
      → value_or sold (zero_f fl) ≡ zero_f fl
      → plus fl w (sold_amount fl false sold) ≡ w
  left_of_power w sold e =
      elim (Bool-cases (fl.lt (zero_f fl) (fl.neg (value_or sold (zero_f fl))))) [
        | inl f ↦ rw f (exact.plus_zero w)
        | inr f ↦ rw (f, e, exact.neg_zero) (exact.plus_zero w)
      ]

  module _ (globals_watt globals_ampere : F) (t : ℕ) (w : F) (y : ScheduleReqEntry F)
      (some_power : fl.eq w (zero_f fl) ≡ false) (enough : fl.le globals_watt w ≡ true) where
    abbrev one_slot : Globals F
    one_slot = record {
      slice_ampere = globals_ampere;
      slice_watt = globals_watt;
      timestamps = t ∷ [];
    }

    abbrev at_root : Bool → Broker
    at_root first = record { local_market = []; first_trade = first ∷ [] }

    trade-power :
        (first : Bool) (current sold : Option F)
        → value_or sold (zero_f fl) ≡ zero_f fl
        → trade fl voltage one_slot (at_root first) (power_market t w y current sold) ≡ (
          at_root false,
          power_market t w y
              (some (plus fl globals_watt (value_or current (zero_f fl))))
              (some (zero_f fl)),
          true,
        )
    unfolding trade make_offer offer_at apply_limits apply_entry trade_slots trade_slot buy_slot
        buy_watt trade_at schedule_add add_entry get_available_energy available_entry schedule_req
    trade-power first current sold e =
        rw (left_of_power w sold e, some_power, enough, e, exact.plus_zero (zero_f fl)) refl

    -- In arithmetic that does not round, for a market of one slot, without a limit of a current, whose
    -- limit of the power is not zero and at least a slice, and of which no power is sold: every round
    -- buys, however many there are; it adds a slice of the power to the current that is sold, and no
    -- power is ever sold.
    pub rounds-SoldAsCurrent :
        (n : ℕ) (first : Bool) (current sold : Option F)
        → value_or sold (zero_f fl) ≡ zero_f fl
        → SoldAsCurrent fl globals_watt t w y n current
            (rounds fl voltage one_slot n (at_root first ∷ []) (power_market t w y current sold))
    unfolding rounds round
    rounds-SoldAsCurrent zero first current sold e = (refl, (current, sold, refl, refl, e))
    rounds-SoldAsCurrent (suc n) first current sold e =
        let next = some (plus fl globals_watt (value_or current (zero_f fl))) in
        let (count, rest) = rounds-SoldAsCurrent n false next (some (zero_f fl)) refl in
        rw (trade-power first current sold e) (ap suc count, rest)
