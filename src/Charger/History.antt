-- ===== src/Charger/History.antt =====
-- Every call of a charger of modules/EvseManager, from any thread, as one step, and whole histories
-- of such calls from the constructor on.
use everest_core_dev.Common.{ℕ, ◌+◌, Bool, true, false, String, List, [], ◌∷◌, Option}
use everest_core_dev.Floats.{Floats}
use everest_core_dev.Charger.Data.{
  disabled, faulted, BoardEvent, ChargeMode, Fault, StopReason, call_enable, signal_max_current,
  signal_state, signal_error, Charger,
}
use everest_core_dev.Charger.Signals.{emit}
use everest_core_dev.Charger.Session.{Part, cancel_transaction, do_part}
use everest_core_dev.Charger.Current.{
  set_max_current_until, set_max_current, set_current_drawn_by_vehicle,
}
use everest_core_dev.Charger.Machine.{restart}
use everest_core_dev.Charger.Cycle.{main_loop_pass}
use everest_core_dev.Charger.Events.{
  process_event, pause_charging, resume_charging, resume_charging_power_available, evse_replug,
  disable, enable, set_faulted, request_error_sequence, set_matching_started,
  notify_current_demand_started, inform_new_evse_max_hlc_limits,
}

-- The calls. `wait` lets time pass; `mainloop` is one round of the charger's own thread. `part` is a
-- part of an `Authorize` or `DeAuthorize` of another thread: histories have the parts of any number of
-- them, in every order in which threads can come to them, and in others.
pub data Call (F : Type 0) : Type 0 where
  wait : ℕ → Call F
  mainloop : Call F
  setup : ChargeMode → Bool → Bool → Bool → Bool → Call F
  set_limit_until : F → ℕ → Call F
  set_limit : F → Call F
  board_event : BoardEvent → F → Call F
  enable_call disable_call fault_call restart_call : Call F
  part : Part → Call F
  pause resume resume_power replug_call : Call F
  cancel : StopReason → Option String → Call F
  vehicle_draws : F → F → F → Call F
  error_sequence : Call F
  matching : Bool → Call F
  current_demand : Call F
  hlc_limits : F → F → Call F

module _ {F : Type 0} where
  -- The members that `setup` writes. Its call of the board support package has no other effect.
  unfoldable pub set_up : ChargeMode → Bool → Bool → Bool → Bool → Charger F → Charger F
  set_up mode hlc five enforce soc c = record c {
    charge_mode = mode;
    ac_hlc_enabled_current_session = hlc;
    ac_hlc_enabled = hlc;
    ac_hlc_use_5percent = five;
    ac_enforce_hlc = enforce;
    ac_with_soc_timeout = soc;
    ac_with_soc_timer = 3600000;
  }

  -- What `mainThread` does before its loop.
  unfoldable pub start_thread : Charger F → Charger F
  start_thread c = emit (signal_error c.error_state) (
      emit (signal_state c.current_state)
        (emit (signal_max_current c.max_current) (emit (call_enable true) c)))

module _ {F : Type 0} (fl : Floats F) where
  -- The constructor, over memory `raw` in which the members that it does not write have any value.
  unfoldable pub construct : F → Charger F → Charger F
  construct pp raw = record raw {
    max_current = fl.narrow (fl.lit 60 1);
    max_current_cable = pp;
    authorized = false;
    update_pwm_last_dc = fl.narrow (fl.lit 0 0);
    current_state = disabled;
    last_state = disabled;
    error_state = Fault.internal;
    charge_mode = ChargeMode.ac;
    drawn_l1 = fl.narrow (fl.lit 0 0);
    drawn_l2 = fl.narrow (fl.lit 0 0);
    drawn_l3 = fl.narrow (fl.lit 0 0);
    t_step_ef_return_state = faulted;
    t_step_x1_return_state = faulted;
    matching_started = false;
    transaction_active = false;
    session_active = false;
    hlc_use_5percent_current_session = false;
    out = call_enable false ∷ [];
  }

  unfoldable pub step : Call F → Charger F → Charger F
  step (wait ms) c = record c { clock = c.clock + ms }
  step mainloop c = main_loop_pass fl c
  step (setup mode hlc five enforce soc) c = set_up mode hlc five enforce soc c
  step (set_limit_until a t) c = (set_max_current_until fl a t c).0
  step (set_limit a) c = (set_max_current fl a c).0
  step (board_event e pp) c = process_event fl e pp c
  step enable_call c = (enable c).0
  step disable_call c = (disable c).0
  step fault_call c = set_faulted c
  step restart_call c = (restart c).0
  step (part p) c = do_part p c
  step pause c = (pause_charging c).0
  step resume c = (resume_charging c).0
  step resume_power c = (resume_charging_power_available fl c).0
  step replug_call c = (evse_replug c).0
  step (cancel reason tag) c = (cancel_transaction reason tag c).0
  step (vehicle_draws l1 l2 l3) c = set_current_drawn_by_vehicle l1 l2 l3 c
  step error_sequence c = request_error_sequence fl c
  step (matching m) c = set_matching_started m c
  step current_demand c = notify_current_demand_started c
  step (hlc_limits a w) c = inform_new_evse_max_hlc_limits a w c

  unfoldable pub run : List (Call F) → Charger F → Charger F
  run [] c = c
  run (call ∷ calls) c = run calls (step call c)

  -- The charger after a history, from the constructor and the start of its thread on.
  abbrev pub after : List (Call F) → F → Charger F → Charger F
  after calls pp raw = run calls (start_thread (construct pp raw))
