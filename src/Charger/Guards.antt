-- ===== src/Charger/Guards.antt =====
-- When a charger of modules/EvseManager starts a transaction, allows power, and ends a replug: over
-- every call after every history of calls.
use everest_core_dev.Common.{◌<◌, ◌≡◌, refl, ◌∙◌, ◌&&◌, Bool, true, false, List, [], ◌∷◌, arith}
use everest_core_dev.Floats.{Floats}
use everest_core_dev.Charger.Data.{
  ControlPilotEvent, EvseState, idle, waiting_for_authentication, BoardEvent, Charger,
}
use everest_core_dev.Charger.Session.{cancel_transaction, do_part}
use everest_core_dev.Charger.Current.{
  set_max_current_until, set_max_current, set_current_drawn_by_vehicle, refresh_limit,
}
use everest_core_dev.Charger.Machine.{restart, lacks_dc_power}
use everest_core_dev.Charger.Events.{
  process_cp_events_independent, dispatch_cp, process_cp_events_state, process_event,
  pause_charging, resume_charging, resume_charging_power_available, evse_replug, disable, enable,
  set_faulted, request_error_sequence, set_matching_started, notify_current_demand_started,
  inform_new_evse_max_hlc_limits,
}
use everest_core_dev.Charger.History.{
  Call, wait, mainloop, setup, set_limit_until, set_limit, board_event, enable_call, disable_call,
  fault_call, restart_call, part, pause, resume, resume_power, replug_call, cancel, vehicle_draws,
  error_sequence, matching, current_demand, hlc_limits, set_up, construct, start_thread, step, run,
  after,
}
use everest_core_dev.Charger.Safety.{is_powered, IsSafe}
use everest_core_dev.Charger.Calls.{step-IsSafe, construct-IsSafe, after-IsSafe}
use everest_core_dev.Charger.Outputs.{
  starts, power_ons, replugs_finished, Speaks, IsQuiet, may_start, Speaks-trans,
}
use everest_core_dev.Charger.Speech.{main_loop_pass-SpeaksIn}

abbrev pub is_mainloop : {F : Type 0} → Call F → Bool
is_mainloop mainloop = true
is_mainloop _ = false

module _ {F : Type 0} where
  process_cp_events_independent-IsQuiet :
      (e : ControlPilotEvent) (c : Charger F) → IsQuiet c (process_cp_events_independent e c)
  unfolding process_cp_events_independent
  process_cp_events_independent-IsQuiet e c = ground arith

module _ {F : Type 0} (fl : Floats F) where
  dispatch_cp-IsQuiet :
      (s : EvseState) (e : ControlPilotEvent) (pp : F) (c : Charger F)
      → IsQuiet c (dispatch_cp fl s e pp c)
  unfolding dispatch_cp refresh_limit
  dispatch_cp-IsQuiet idle e pp c = ground arith
  dispatch_cp-IsQuiet _ e pp c = ground arith

  process_event-IsQuiet :
      (e : BoardEvent) (pp : F) (c : Charger F) → IsQuiet c (process_event fl e pp c)
  unfolding process_event process_cp_events_state
  process_event-IsQuiet e pp c =
      Speaks-trans c _ _ (process_cp_events_independent-IsQuiet _ c) (dispatch_cp-IsQuiet _ _ pp _)

  step-Speaks :
      (call : Call F) (c : Charger F)
      → IsSafe c
      → Speaks
          (is_mainloop call && may_start fl c)
          (is_mainloop call && is_powered c.current_state)
          c
          (step fl call c)
  unfolding step
  step-Speaks mainloop c v = main_loop_pass-SpeaksIn fl c v
  step-Speaks (wait ms) c v = ground arith
  step-Speaks (setup mode hlc five enforce soc) c v = unfold set_up in ground arith
  step-Speaks (set_limit_until a t) c v = unfold set_max_current_until in ground arith
  step-Speaks (set_limit a) c v = unfold set_max_current in ground arith
  step-Speaks (board_event e pp) c v = process_event-IsQuiet e pp c
  step-Speaks enable_call c v = unfold enable in ground arith
  step-Speaks disable_call c v = unfold disable in ground arith
  step-Speaks fault_call c v = unfold set_faulted in ground arith
  step-Speaks restart_call c v = unfold restart in ground arith
  step-Speaks (part p) c v = unfold do_part in ground arith
  step-Speaks pause c v = unfold pause_charging in ground arith
  step-Speaks resume c v = unfold resume_charging in ground arith
  step-Speaks resume_power c v =
      unfold resume_charging_power_available refresh_limit in ground arith
  step-Speaks replug_call c v = unfold evse_replug in ground arith
  step-Speaks (cancel r tag) c v = unfold cancel_transaction in ground arith
  step-Speaks (vehicle_draws l1 l2 l3) c v = unfold set_current_drawn_by_vehicle in ground arith
  step-Speaks error_sequence c v = unfold request_error_sequence in ground arith
  step-Speaks (matching m) c v = unfold set_matching_started in ground arith
  step-Speaks current_demand c v = unfold notify_current_demand_started in ground arith
  step-Speaks (hlc_limits a w) c v = unfold inform_new_evse_max_hlc_limits in ground arith

  -- After any history, a call starts a transaction only if it is a round of the charger's own
  -- thread in `WaitingForAuthentication` that finds an authorization, and power to offer in DC mode.
  pub start-needs-authorization :
      (calls : List (Call F)) (pp : F) (raw : Charger F) (call : Call F)
      → let c = after fl calls pp raw in
        starts c < starts (step fl call c)
        → (is_mainloop call ≡ true)
          × (c.current_state ≡ waiting_for_authentication)
          × (c.authorized ≡ true)
          × (lacks_dc_power fl c ≡ false)
  start-needs-authorization calls pp raw call grows =
      let c = after fl calls pp raw in
      let v = after-IsSafe fl calls pp raw in ground (arith, step-Speaks call c v)

  -- After any history, a call tells the board to allow power only if it is a round of the charger's
  -- own thread in a powered state, and then a transaction is active.
  pub power-needs-transaction :
      (calls : List (Call F)) (pp : F) (raw : Charger F) (call : Call F)
      → let c = after fl calls pp raw in
        power_ons c < power_ons (step fl call c)
        → (is_mainloop call ≡ true)
          × (is_powered c.current_state ≡ true)
          × (c.transaction_active ≡ true)
  power-needs-transaction calls pp raw call grows =
      let c = after fl calls pp raw in
      let v = after-IsSafe fl calls pp raw in ground (arith, step-Speaks call c v)

  run-replugs_finished :
      (calls : List (Call F)) (c : Charger F)
      → IsSafe c
      → replugs_finished (run fl calls c) ≡ replugs_finished c
  unfolding run
  run-replugs_finished [] c v = refl
  run-replugs_finished (call ∷ calls) c v =
      run-replugs_finished calls _ (step-IsSafe fl call c v) ∙ (step-Speaks call c v).replugged

  -- No history of calls makes the charger signal `ReplugFinished`.
  pub replug_never_finishes :
      (calls : List (Call F)) (pp : F) (raw : Charger F)
      → replugs_finished (after fl calls pp raw) ≡ 0
  unfolding construct start_thread
  replug_never_finishes calls pp raw = run-replugs_finished calls _ (construct-IsSafe fl pp raw)
