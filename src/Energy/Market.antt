-- ===== src/Energy/Market.antt =====
-- The markets of modules/EnergyManager/Market.cpp: one for each node of the request, with the limits
-- of the node and what is sold through it. A valid pointer to a market is the path to it from the root.
use everest_core_dev.Common.{
  ℕ, Bool, true, false, ◌&&◌, ◌||◌, zero, suc, Option, none, some, List, [], ◌∷◌, ◌++◌, leb, ltb,
  ◌==◌, if◌then◌else◌, length,
}
use everest_core_dev.Floats.{Floats}
use everest_core_dev.Energy.{
  Tree, node, Forest, leaf, branch, LimitsReq, ScheduleReqEntry, ScheduleResEntry, ScheduleReq,
  ScheduleRes, Request, EnergyFlowRequest, value_or, no_limits, schedule_req, empty_schedule_res,
}

-- A node of the tree of markets.
pub record Market (F : Type 0) : Type 0 where
  pub uuid : ℕ
  pub is_evse : Bool
  pub import_max_available : ScheduleReq F
  pub export_max_available : ScheduleReq F
  pub sold_root : ScheduleRes F

module _ {F : Type 0} (fl : Floats F) where
  abbrev pub zero_f : F
  zero_f = fl.narrow (fl.lit 0 0)

  -- The operations on floats, which round their result.
  unfoldable pub plus : F → F → F
  plus a b = fl.narrow (fl.add a b)

  unfoldable pub times : F → F → F
  times a b = fl.narrow (fl.mul a b)

  unfoldable pub over : F → F → F
  over a b = fl.narrow (fl.div a b)

  -- The entry that holds at a time: the loop over the entries, and whether it is at the first one.
  unfoldable pub find_entry : Bool → ℕ → List (ScheduleReqEntry F) → Option (ScheduleReqEntry F)
  find_entry first t [] = none
  find_entry first t (r ∷ []) = some r
  find_entry first t (r ∷ r2 ∷ rs) =
      let rest = find_entry false t (r2 ∷ rs) in
      if leb r.timestamp t && ltb t r2.timestamp || first && ltb t r.timestamp then some r else rest

  -- A limit at the leaves, seen from the root.
  abbrev pub to_root : Option F → Option F → Option F
  to_root none efficiency = none
  to_root (some a) efficiency = some (over a (value_or efficiency (fl.narrow (fl.lit 1 0))))

  -- A limit at the root replaces a higher one, but sets none where there is none.
  abbrev pub cut : Option F → Option F → Option F
  cut (some a) (some r) = if fl.lt r a then some r else some a
  cut a r = a

  unfoldable pub merge_limits : ScheduleReqEntry F → ScheduleReqEntry F → ScheduleReqEntry F
  merge_limits a r = record a {
    limits_to_root = record {
      total_power_w =
          cut (to_root r.limits_to_leaves.total_power_w r.conversion_efficiency)
            r.limits_to_root.total_power_w;
      ac_max_current_a =
          cut (to_root r.limits_to_leaves.ac_max_current_a r.conversion_efficiency)
            r.limits_to_root.ac_max_current_a;
      ac_min_current_a = r.limits_to_root.ac_min_current_a;
      ac_max_phase_count = r.limits_to_root.ac_max_phase_count;
      ac_min_phase_count = r.limits_to_root.ac_min_phase_count;
    };
  }

  -- The loop over the entries of the schedule that is available.
  unfoldable pub resample : ScheduleReq F → ScheduleReq F → ScheduleReq F
  unfolding find_entry merge_limits
  resample request [] = []
  resample request (a ∷ available) = elim (find_entry true a.timestamp request) [
    | none ↦ a ∷ resample request available
    | some r ↦ merge_limits a r ∷ resample request available
  ]

  abbrev pub get_max_available_energy : List ℕ → ScheduleReq F → ScheduleReq F
  get_max_available_energy timestamps request = resample request (schedule_req no_limits timestamps)

  abbrev pub zero_limits : LimitsReq F
  zero_limits = record no_limits { ac_max_current_a = some zero_f; total_power_w = some zero_f }

  abbrev pub max_available : List ℕ → Option (ScheduleReq F) → ScheduleReq F
  max_available timestamps none = schedule_req zero_limits timestamps
  max_available timestamps (some request) = get_max_available_energy timestamps request

  -- The constructor of `Market`.
  unfoldable mutual
    pub make_market : List ℕ → EnergyFlowRequest F → Tree (Market F)
    make_market timestamps (node r children) =
        node
          record {
            uuid = r.uuid;
            is_evse = r.is_evse;
            import_max_available = max_available timestamps r.schedule_import;
            export_max_available = max_available timestamps r.schedule_export;
            sold_root = empty_schedule_res timestamps;
          }
          (make_markets timestamps children)

    pub make_markets : List ℕ → Forest (Request F) → Forest (Market F)
    make_markets timestamps leaf = leaf
    make_markets timestamps (branch t more) =
        branch (make_market timestamps t) (make_markets timestamps more)

  -- What has been sold in the direction, as an amount to add to what is available.
  abbrev pub sold_amount : Bool → Option F → F
  sold_amount add_sold sold =
      let s = if add_sold then value_or sold zero_f else fl.neg (value_or sold zero_f) in
      if fl.lt zero_f s then zero_f else s

  abbrev pub add_amount : Option F → F → Option F
  add_amount none a = none
  add_amount (some m) a = some (plus m a)

  unfoldable pub available_entry :
      Bool → ScheduleReqEntry F → ScheduleResEntry F → ScheduleReqEntry F
  unfolding plus
  available_entry add_sold a s = record a {
    limits_to_root = record a.limits_to_root {
      ac_max_current_a =
          add_amount a.limits_to_root.ac_max_current_a
            (sold_amount add_sold s.limits_to_root.ac_max_current_a);
      total_power_w =
          add_amount a.limits_to_root.total_power_w
            (sold_amount add_sold s.limits_to_root.total_power_w);
    };
  }

  -- `get_available_energy`. What is sold has the length of what is available.
  unfoldable pub get_available_energy : Bool → ScheduleReq F → ScheduleRes F → ScheduleReq F
  unfolding available_entry
  get_available_energy add_sold [] sold = []
  get_available_energy add_sold (a ∷ more_a) [] = a ∷ more_a
  get_available_energy add_sold (a ∷ more_a) (s ∷ more_s) =
      available_entry add_sold a s ∷ get_available_energy add_sold more_a more_s

  abbrev pub get_available_energy_import : Market F → ScheduleReq F
  get_available_energy_import m = get_available_energy false m.import_max_available m.sold_root

  abbrev pub get_available_energy_export : Market F → ScheduleReq F
  get_available_energy_export m = get_available_energy true m.export_max_available m.sold_root

  abbrev pub sum_amount : Option F → Option F → Option F
  sum_amount a none = a
  sum_amount a (some b) = some (plus b (value_or a zero_f))

  unfoldable pub add_entry : ScheduleResEntry F → ScheduleResEntry F → ScheduleResEntry F
  unfolding plus
  add_entry a b = record a {
    limits_to_root = record {
      ac_max_current_a =
          sum_amount a.limits_to_root.ac_max_current_a b.limits_to_root.ac_max_current_a;
      total_power_w = sum_amount a.limits_to_root.total_power_w b.limits_to_root.total_power_w;
    };
  }

  abbrev pub add_entries : ScheduleRes F → ScheduleRes F → ScheduleRes F
  add_entries (a ∷ more_a) (b ∷ more_b) = add_entry a b ∷ add_entries more_a more_b
  add_entries more_a more_b = more_a

  unfoldable pub schedule_add : ScheduleRes F → ScheduleRes F → ScheduleRes F
  unfolding add_entry
  schedule_add a b = if length a == length b then add_entries a b else a

  abbrev pub sell : ScheduleRes F → Market F → Market F
  sell traded m = record m { sold_root = schedule_add m.sold_root traded }

  -- `Market::trade` at the end of a path, which goes on to the root. The paths of `get_list_of_evses`
  -- lead to the root or to a child of it, whose parent is the root: the root stays in its place.
  unfoldable mutual
    pub trade_at : List ℕ → ScheduleRes F → Tree (Market F) → Tree (Market F)
    trade_at [] traded (node m children) = node (sell traded m) children
    trade_at (k ∷ path) traded (node m children) =
        node (sell traded m) (trade_in k path traded children)

    pub trade_in : ℕ → List ℕ → ScheduleRes F → Forest (Market F) → Forest (Market F)
    trade_in k path traded leaf = leaf
    trade_in zero path traded (branch t more) = branch (trade_at path traded t) more
    trade_in (suc k) path traded (branch t more) = branch t (trade_in k path traded more)

module _ {F : Type 0} where
  unfoldable mutual
    pub is_or_has_evse : Tree (Market F) → Bool
    is_or_has_evse (node m children) = m.is_evse || any_evse children

    pub any_evse : Forest (Market F) → Bool
    any_evse leaf = false
    any_evse (branch t more) = is_or_has_evse t || any_evse more

  -- `get_list_of_evses(list)` of every child of the root. It goes on to copies of their children, to
  -- which a pointer is not valid once it returns: then there is no list.
  unfoldable pub child_evses : ℕ → Forest (Market F) → Option (List (List ℕ))
  unfolding any_evse
  child_evses k leaf = some []
  child_evses k (branch (node m children) more) =
      let rest = child_evses (suc k) more in
      if any_evse children then none else elim rest [
        | none ↦ none
        | some paths ↦ some ((if m.is_evse then (k ∷ []) ∷ [] else []) ++ paths)
      ]

  -- `get_list_of_evses()` of the root: the paths of all EVSEs, or none where a pointer to one is not
  -- valid.
  unfoldable pub get_list_of_evses : Tree (Market F) → Option (List (List ℕ))
  unfolding child_evses
  get_list_of_evses (node m children) = elim (child_evses 0 children) [
    | none ↦ none
    | some paths ↦ some ((if m.is_evse then [] ∷ [] else []) ++ paths)
  ]
