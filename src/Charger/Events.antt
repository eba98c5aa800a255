-- ===== src/Charger/Events.antt =====
-- The events of the control pilot and the public calls of modules/EvseManager/Charger.cpp.
use everest_core_dev.Common.{Bool, true, false, ◌&&◌, if◌then◌else◌}
use everest_core_dev.Floats.{Floats}
use everest_core_dev.Charger.Data.{
  ControlPilotEvent, car_plugged_in, car_requested_power, power_on, power_off,
  car_requested_stop_power, car_unplugged, error_e, error_df, error_relais, error_rcd,
  error_ventilation_not_available, error_over_current, ef_to_bcd, bcd_to_ef, permanent_fault,
  evse_replug_started, evse_replug_finished, EvseState, disabled, idle, waiting_for_authentication,
  prepare_charging, waiting_for_energy, charging, charging_paused_ev, charging_paused_evse,
  stopping_charging, finished, error, faulted, t_step_ef, replug, Fault, SessionEvent,
  call_evse_replug, Charger, BoardEvent,
}
use everest_core_dev.Charger.Signals.{same, is_dc, emit, event, enter}
use everest_core_dev.Charger.Current.{refresh_limit, has_power}
use everest_core_dev.Charger.Machine.{pause_charging_wait_for_power, pwm_5_percent}

-- The board support package's events. `Invalid` stands for no event of it.
unfoldable pub string_to_control_pilot_event : BoardEvent → ControlPilotEvent
string_to_control_pilot_event BoardEvent.car_plugged_in = car_plugged_in
string_to_control_pilot_event BoardEvent.car_requested_power = car_requested_power
string_to_control_pilot_event BoardEvent.power_on = power_on
string_to_control_pilot_event BoardEvent.power_off = power_off
string_to_control_pilot_event BoardEvent.car_requested_stop_power = car_requested_stop_power
string_to_control_pilot_event BoardEvent.car_unplugged = car_unplugged
string_to_control_pilot_event BoardEvent.error_e = error_e
string_to_control_pilot_event BoardEvent.error_df = error_df
string_to_control_pilot_event BoardEvent.error_relais = error_relais
string_to_control_pilot_event BoardEvent.error_rcd = error_rcd
string_to_control_pilot_event BoardEvent.error_ventilation_not_available =
    error_ventilation_not_available
string_to_control_pilot_event BoardEvent.error_over_current = error_over_current
string_to_control_pilot_event BoardEvent.ef_to_bcd = ef_to_bcd
string_to_control_pilot_event BoardEvent.bcd_to_ef = bcd_to_ef
string_to_control_pilot_event BoardEvent.permanent_fault = permanent_fault
string_to_control_pilot_event BoardEvent.evse_replug_started = evse_replug_started
string_to_control_pilot_event BoardEvent.evse_replug_finished = evse_replug_finished

module _ {F : Type 0} where
  abbrev fail : Fault → Charger F → Charger F
  fail e c = record c { current_state = error; error_state = e }

  unfoldable pub process_cp_events_independent : ControlPilotEvent → Charger F → Charger F
  process_cp_events_independent evse_replug_started c = enter replug c
  process_cp_events_independent evse_replug_finished c = enter waiting_for_authentication c
  process_cp_events_independent car_unplugged c =
      enter (if is_dc c.charge_mode then finished else stopping_charging)
        (if same c.current_state error then event SessionEvent.all_errors_cleared c else c)
  process_cp_events_independent error_e c = fail Fault.car c
  process_cp_events_independent error_df c = fail Fault.car_diode_fault c
  process_cp_events_independent error_relais c = fail Fault.relais c
  process_cp_events_independent error_rcd c = fail Fault.rcd c
  process_cp_events_independent error_ventilation_not_available c =
      fail Fault.ventilation_not_available c
  process_cp_events_independent error_over_current c = fail Fault.over_current c
  process_cp_events_independent _ c = c

module _ {F : Type 0} (fl : Floats F) where
  -- The case `PrepareCharging` in AC mode, once the car requests power.
  unfoldable pub start_charging : Charger F → Charger F
  unfolding pause_charging_wait_for_power
  start_charging c =
      let d = refresh_limit fl c in
      if has_power fl d
      then enter charging d
      else (pause_charging_wait_for_power (enter charging d)).0

  -- The switch of `processCPEventsState`. `pp` is what `call_read_pp_ampacity` returns.
  unfoldable pub dispatch_cp : EvseState → ControlPilotEvent → F → Charger F → Charger F
  unfolding start_charging
  dispatch_cp idle car_plugged_in pp c = record c {
    max_current_cable = pp;
    current_state = waiting_for_authentication;
  }
  dispatch_cp prepare_charging car_requested_power pp c =
      if is_dc c.charge_mode then c else start_charging (event SessionEvent.charging_started c)
  dispatch_cp prepare_charging car_requested_stop_power pp c =
      if is_dc c.charge_mode
      then enter stopping_charging c
      else event SessionEvent.charging_started c
  dispatch_cp prepare_charging e pp c =
      if is_dc c.charge_mode then c else event SessionEvent.charging_started c
  dispatch_cp charging car_requested_stop_power pp c = enter charging_paused_ev c
  dispatch_cp charging_paused_ev car_requested_power pp c = enter charging c
  dispatch_cp _ _ _ c = c

  unfoldable pub process_cp_events_state : ControlPilotEvent → F → Charger F → Charger F
  process_cp_events_state e pp c = dispatch_cp c.current_state e pp c

  unfoldable pub process_event : BoardEvent → F → Charger F → Charger F
  process_event e pp c =
      let cp_event = string_to_control_pilot_event e in
      process_cp_events_state cp_event pp (process_cp_events_independent cp_event c)

module _ {F : Type 0} where
  unfoldable pub pause_charging : Charger F → Charger F × Bool
  pause_charging c =
      if same c.current_state charging then (enter charging_paused_evse c, true) else (c, false)

  unfoldable pub resume_charging : Charger F → Charger F × Bool
  resume_charging c =
      if c.transaction_active && same c.current_state charging_paused_evse
      then (enter waiting_for_energy c, true)
      else (c, false)

  -- `t_replug_ms` is 4000.
  unfoldable pub evse_replug : Charger F → Charger F × Bool
  evse_replug c = (emit (call_evse_replug 4000) c, true)

  unfoldable pub disable : Charger F → Charger F × Bool
  disable c = (event SessionEvent.disabled (enter disabled c), true)

  unfoldable pub enable : Charger F → Charger F × Bool
  enable c =
      if same c.current_state disabled
      then (event SessionEvent.enabled (enter idle c), true)
      else (c, false)

  unfoldable pub set_faulted : Charger F → Charger F
  set_faulted c = event SessionEvent.permanent_fault (enter faulted c)

  unfoldable pub set_matching_started : Bool → Charger F → Charger F
  set_matching_started m c = record c { matching_started = m }

  unfoldable pub notify_current_demand_started : Charger F → Charger F
  notify_current_demand_started c =
      if same c.current_state prepare_charging
      then enter charging (event SessionEvent.charging_started c)
      else c

  -- The two limits that the charger reads.
  unfoldable pub inform_new_evse_max_hlc_limits : F → F → Charger F → Charger F
  inform_new_evse_max_hlc_limits current power c = record c {
    evse_maximum_current_limit = current;
    evse_maximum_power_limit = power;
  }

module _ {F : Type 0} (fl : Floats F) where
  -- `powerAvailable` is called only if the first two tests pass.
  unfoldable pub resume_charging_power_available : Charger F → Charger F × Bool
  resume_charging_power_available c =
      if c.transaction_active && same c.current_state waiting_for_energy
      then (let d = refresh_limit fl c in
          if has_power fl d then (enter charging d, true) else (d, false))
      else (c, false)

  unfoldable pub request_error_sequence : Charger F → Charger F
  request_error_sequence c =
      if same c.current_state waiting_for_authentication
      then record c {
        t_step_ef_return_state = waiting_for_authentication;
        current_state = t_step_ef;
        t_step_ef_return_pwm =
            (if c.ac_hlc_enabled_current_session && c.hlc_use_5percent_current_session
              then pwm_5_percent fl
              else fl.narrow (fl.lit 0 0));
      }
      else c
