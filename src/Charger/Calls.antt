-- ===== src/Charger/Calls.antt =====
-- Every call of a charger of modules/EvseManager keeps it safe, and so does every history of calls.
use everest_core_dev.Common.{◌≡◌, refl, String, List, [], ◌∷◌, Option, arith}
use everest_core_dev.Floats.{Floats}
use everest_core_dev.Charger.Data.{
  ControlPilotEvent, EvseState, idle, StopReason, BoardEvent, Charger,
}
use everest_core_dev.Charger.Session.{cancel_transaction, do_part}
use everest_core_dev.Charger.Current.{
  set_max_current_until, set_max_current, set_current_drawn_by_vehicle, refresh_limit,
}
use everest_core_dev.Charger.Machine.{restart}
use everest_core_dev.Charger.Events.{
  process_cp_events_independent, dispatch_cp, process_cp_events_state, process_event,
  pause_charging, resume_charging, resume_charging_power_available, evse_replug, disable, enable,
  set_faulted, request_error_sequence, set_matching_started, notify_current_demand_started,
  inform_new_evse_max_hlc_limits,
}
use everest_core_dev.Charger.History.{
  Call, wait, mainloop, setup, set_limit_until, set_limit, board_event, enable_call, disable_call,
  fault_call, restart_call, part, pause, resume, resume_power, replug_call, cancel, vehicle_draws,
  error_sequence, matching, current_demand, hlc_limits, set_up, construct, start_thread, step, run,
  after,
}
use everest_core_dev.Charger.Safety.{IsSafe}
use everest_core_dev.Charger.Passes.{main_loop_pass-IsSafe}

module _ {F : Type 0} where
  process_cp_events_independent-IsSafe :
      (e : ControlPilotEvent) (c : Charger F)
      → IsSafe c
      → IsSafe (process_cp_events_independent e c)
  unfolding process_cp_events_independent
  process_cp_events_independent-IsSafe e c v = ground arith

  cancel_transaction-IsSafe :
      (r : StopReason) (tag : Option String) (c : Charger F)
      → IsSafe c
      → IsSafe (cancel_transaction r tag c).0
  unfolding cancel_transaction
  cancel_transaction-IsSafe r tag c v = ground arith

module _ {F : Type 0} (fl : Floats F) where
  dispatch_cp-IsSafe :
      (s : EvseState) (e : ControlPilotEvent) (pp : F) (c : Charger F)
      → c.current_state ≡ s
      → IsSafe c
      → IsSafe (dispatch_cp fl s e pp c)
  unfolding dispatch_cp refresh_limit
  dispatch_cp-IsSafe idle e pp c at v = ground arith
  dispatch_cp-IsSafe _ e pp c at v = ground arith

  process_event-IsSafe :
      (e : BoardEvent) (pp : F) (c : Charger F) → IsSafe c → IsSafe (process_event fl e pp c)
  unfolding process_event process_cp_events_state
  process_event-IsSafe e pp c v =
      dispatch_cp-IsSafe _ _ pp _ refl (process_cp_events_independent-IsSafe _ c v)

  pub step-IsSafe : (call : Call F) (c : Charger F) → IsSafe c → IsSafe (step fl call c)
  unfolding step
  step-IsSafe mainloop c v = main_loop_pass-IsSafe fl c v
  step-IsSafe (wait ms) c v = ground arith
  step-IsSafe (setup mode hlc five enforce soc) c v = unfold set_up in ground arith
  step-IsSafe (set_limit_until a t) c v = unfold set_max_current_until in ground arith
  step-IsSafe (set_limit a) c v = unfold set_max_current in ground arith
  step-IsSafe (board_event e pp) c v = process_event-IsSafe e pp c v
  step-IsSafe enable_call c v = unfold enable in ground arith
  step-IsSafe disable_call c v = unfold disable in ground arith
  step-IsSafe fault_call c v = unfold set_faulted in ground arith
  step-IsSafe restart_call c v = unfold restart in ground arith
  step-IsSafe (part p) c v = unfold do_part in ground arith
  step-IsSafe pause c v = unfold pause_charging in ground arith
  step-IsSafe resume c v = unfold resume_charging in ground arith
  step-IsSafe resume_power c v =
      unfold resume_charging_power_available refresh_limit in ground arith
  step-IsSafe replug_call c v = unfold evse_replug in ground arith
  step-IsSafe (cancel r tag) c v = cancel_transaction-IsSafe r tag c v
  step-IsSafe (vehicle_draws l1 l2 l3) c v = unfold set_current_drawn_by_vehicle in ground arith
  step-IsSafe error_sequence c v = unfold request_error_sequence in ground arith
  step-IsSafe (matching m) c v = unfold set_matching_started in ground arith
  step-IsSafe current_demand c v = unfold notify_current_demand_started in ground arith
  step-IsSafe (hlc_limits a w) c v = unfold inform_new_evse_max_hlc_limits in ground arith

  pub run-IsSafe : (calls : List (Call F)) (c : Charger F) → IsSafe c → IsSafe (run fl calls c)
  unfolding run
  run-IsSafe [] c v = v
  run-IsSafe (call ∷ calls) c v = run-IsSafe calls _ (step-IsSafe call c v)

  pub construct-IsSafe : (pp : F) (raw : Charger F) → IsSafe (start_thread (construct fl pp raw))
  unfolding construct start_thread
  construct-IsSafe pp raw = ground arith

  -- After every history of calls, in which those that change an authorization come in parts:
  -- finished transactions never outnumber started ones, every powered state, and every break that
  -- returns to one, has an active transaction, and every break returns to
  -- `WaitingForAuthentication`, `PrepareCharging` or `Faulted`.
  pub after-IsSafe :
      (calls : List (Call F)) (pp : F) (raw : Charger F) → IsSafe (after fl calls pp raw)
  after-IsSafe calls pp raw = run-IsSafe calls _ (construct-IsSafe pp raw)
