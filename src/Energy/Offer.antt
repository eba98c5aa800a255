-- ===== src/Energy/Offer.antt =====
-- The offers of modules/EnergyManager/Offer.cpp: what every market from the root to a local one still
-- has.
use everest_core_dev.Common.{
  ℕ, Bool, zero, suc, Option, none, some, List, [], ◌∷◌, ltb, ◌==◌, if◌then◌else◌, length,
}
use everest_core_dev.Floats.{Floats}
use everest_core_dev.Energy.{
  Tree, node, Forest, leaf, branch, ScheduleReqEntry, ScheduleReq, no_limits, schedule_req,
}
use everest_core_dev.Energy.Market.{
  Market, get_available_energy_import, get_available_energy_export,
}

pub record Offer (F : Type 0) : Type 0 where
  pub import_offer : ScheduleReq F
  pub export_offer : ScheduleReq F

-- `lt` is the order of the type, and `if_greater` the same with the order turned.
abbrev pub apply_one_limit_if_smaller :
    {T : Type 0} → (T → T → Bool) → Option T → Option T → Option T
apply_one_limit_if_smaller lt a none = a
apply_one_limit_if_smaller lt none (some b) = some b
apply_one_limit_if_smaller lt (some a) (some b) = if lt b a then some b else some a

abbrev pub apply_one_limit_if_greater :
    {T : Type 0} → (T → T → Bool) → Option T → Option T → Option T
apply_one_limit_if_greater lt = apply_one_limit_if_smaller (λ a b. lt b a)

module _ {F : Type 0} (fl : Floats F) where
  unfoldable pub apply_entry : ScheduleReqEntry F → ScheduleReqEntry F → ScheduleReqEntry F
  apply_entry a b =
      let x = a.limits_to_root in
      let y = b.limits_to_root in
      record a {
        limits_to_root = record {
          ac_max_current_a = apply_one_limit_if_smaller fl.lt x.ac_max_current_a y.ac_max_current_a;
          ac_max_phase_count =
              apply_one_limit_if_smaller ltb x.ac_max_phase_count y.ac_max_phase_count;
          total_power_w = apply_one_limit_if_smaller fl.lt x.total_power_w y.total_power_w;
          ac_min_phase_count =
              apply_one_limit_if_greater ltb x.ac_min_phase_count y.ac_min_phase_count;
          ac_min_current_a = apply_one_limit_if_greater fl.lt x.ac_min_current_a y.ac_min_current_a;
        };
      }

  abbrev pub apply_entries : ScheduleReq F → ScheduleReq F → ScheduleReq F
  apply_entries (a ∷ more_a) (b ∷ more_b) = apply_entry a b ∷ apply_entries more_a more_b
  apply_entries more_a more_b = more_a

  unfoldable pub apply_limits : ScheduleReq F → ScheduleReq F → ScheduleReq F
  unfolding apply_entry
  apply_limits a b = if length a == length b then apply_entries a b else a

  abbrev pub limit_offer : Market F → Offer F → Offer F
  limit_offer m o = record {
    import_offer = apply_limits o.import_offer (get_available_energy_import fl m);
    export_offer = apply_limits o.export_offer (get_available_energy_export fl m);
  }

  -- `create_offer_for_local_market`, from the root on.
  unfoldable mutual
    pub offer_at : List ℕ → Tree (Market F) → Offer F → Offer F
    offer_at [] (node m children) o = limit_offer m o
    offer_at (k ∷ path) (node m children) o = offer_in k path children (limit_offer m o)

    pub offer_in : ℕ → List ℕ → Forest (Market F) → Offer F → Offer F
    offer_in k path leaf o = o
    offer_in zero path (branch t more) o = offer_at path t o
    offer_in (suc k) path (branch t more) o = offer_in k path more o

  unfoldable pub make_offer : List ℕ → List ℕ → Tree (Market F) → Offer F
  unfolding offer_at schedule_req
  make_offer timestamps path markets =
      let empty = schedule_req no_limits timestamps in
      offer_at path markets (record { import_offer = empty; export_offer = empty })
