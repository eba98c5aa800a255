-- ===== src/Charger/Machine.antt =====
-- `runStateMachine` of modules/EvseManager/Charger.cpp: one definition for each case of its switch,
-- but for the two of charging, which Charger/Cycle.antt has. Each takes whether the state is new since the last pass, before the charger.
use everest_core_dev.Common.{ℕ, ◌+◌, Bool, true, false, not, ◌&&◌, leb, if◌then◌else◌}
use everest_core_dev.Floats.{Floats}
use everest_core_dev.Charger.Data.{
  idle, prepare_charging, waiting_for_energy, charging, finished, t_step_ef, t_step_x1, replug,
  SessionEvent, signal_dc_supply_off, call_allow_power_on, Charger,
}
use everest_core_dev.Charger.Signals.{
  same, is_dc, emit, event, enter, pwm_off, pwm_f, update_pwm_now, update_pwm_now_if_changed,
}
use everest_core_dev.Charger.Session.{
  start_session, stop_session, start_transaction, stop_transaction, authorized_eim,
  is_authorized_pnc, authorize,
}
use everest_core_dev.Charger.Current.{ampere_to_duty_cycle}

module _ {F : Type 0} where
  abbrev pub on_entry : Bool → (Charger F → Charger F) → Charger F → Charger F
  on_entry new act c = if new then act c else c

  -- `restart`.
  unfoldable pub restart : Charger F → Charger F × Bool
  restart c = if same c.current_state finished then (enter idle c, true) else (c, false)

  -- `pauseChargingWaitForPower`.
  unfoldable pub pause_charging_wait_for_power : Charger F → Charger F × Bool
  pause_charging_wait_for_power c =
      if same c.current_state charging then (enter waiting_for_energy c, true) else (c, false)

  unfoldable pub run_disabled : Bool → Charger F → Charger F
  unfolding pwm_f
  run_disabled new = on_entry new (λ c. pwm_f (event SessionEvent.disabled c))

  unfoldable pub run_replug : Bool → Charger F → Charger F
  run_replug new = on_entry new λ c.
      let d = event SessionEvent.replug_started c in
      if d.ac_with_soc_timeout then record d { ac_with_soc_timer = 120000 } else d

  unfoldable pub run_idle : Bool → Charger F → Charger F
  unfolding pwm_off authorize
  run_idle new =
      on_entry new λ c. record (authorize false "" false (pwm_off c)) { transaction_active = false }

  unfoldable pub run_charging_paused_evse : Bool → Charger F → Charger F
  unfolding pwm_off
  run_charging_paused_evse new = on_entry new λ c.
      let d = pwm_off (event SessionEvent.charging_paused_evse c) in
      if is_dc d.charge_mode then emit signal_dc_supply_off d else d

  unfoldable pub run_waiting_for_energy : Bool → Charger F → Charger F
  unfolding pwm_off
  run_waiting_for_energy new = on_entry new λ c.
      let d = event SessionEvent.waiting_for_energy c in
      if not d.hlc_use_5percent_current_session then pwm_off d else d

  abbrev stop_transaction_if_active : Charger F → Charger F
  stop_transaction_if_active c = if c.transaction_active then stop_transaction c else c

  unfoldable pub run_stopping_charging : Bool → Charger F → Charger F
  unfolding pwm_off stop_transaction
  run_stopping_charging new = on_entry new λ c.
      let d = stop_transaction_if_active (event SessionEvent.stopping_charging c) in
      if is_dc d.charge_mode then emit signal_dc_supply_off d else enter finished (pwm_off d)

  unfoldable pub run_finished : Bool → Charger F → Charger F
  unfolding pwm_f stop_transaction stop_session restart
  run_finished new c =
      (restart (on_entry new (λ c. pwm_f (stop_session (stop_transaction_if_active c))) c)).0

  unfoldable pub run_error : Bool → Charger F → Charger F
  unfolding pwm_off
  run_error new = on_entry new (λ c. pwm_off (event SessionEvent.error c))

  unfoldable pub run_faulted : Bool → Charger F → Charger F
  unfolding pwm_f
  run_faulted new = on_entry new (λ c. pwm_f (event SessionEvent.permanent_fault c))

module _ {F : Type 0} (fl : Floats F) where
  open fl use {lit, lt, narrow}

  -- `PWM_5_PERCENT`.
  abbrev pub pwm_5_percent : F
  pwm_5_percent = narrow (lit 5 2)

  -- The entry into `WaitingForAuthentication`. The source waits a second before it enables PWM.
  unfoldable pub enter_waiting : Charger F → Charger F
  unfolding start_session update_pwm_now
  enter_waiting c =
      let c1 = emit (call_allow_power_on false) c in
      let c2 =
        if same c1.last_state replug
        then event SessionEvent.replug_finished c1
        else event SessionEvent.auth_required
            (if not c1.session_active then start_session false c1 else c1) in
      let five =
        if is_dc c2.charge_mode then true else c2.ac_hlc_enabled && c2.ac_hlc_use_5percent in
      let c3 = record c2 {
        hlc_use_5percent_current_session = five;
        ac_hlc_enabled_current_session =
            (if is_dc c2.charge_mode then c2.ac_hlc_enabled_current_session else c2.ac_hlc_enabled);
      } in
      if five then update_pwm_now pwm_5_percent (record c3 { clock = c3.clock + 1000 }) else c3

  -- `AuthorizedEIM()` holds: where to go from `WaitingForAuthentication`.
  unfoldable pub proceed_eim : Charger F → Charger F
  proceed_eim c =
      if is_dc c.charge_mode
      then enter prepare_charging c
      else if not c.ac_hlc_enabled_current_session
      then enter prepare_charging c
      else if c.ac_enforce_hlc
      then record c { hlc_use_5percent_current_session = true; current_state = prepare_charging }
      else if not c.matching_started
      then record c {
        t_step_ef_return_state = prepare_charging;
        t_step_ef_return_pwm = narrow (lit 0 0);
        hlc_use_5percent_current_session = false;
        current_state = t_step_ef;
      }
      else if c.hlc_use_5percent_current_session
      then record c {
        t_step_x1_return_state = prepare_charging;
        t_step_x1_return_pwm = narrow (lit 0 0);
        hlc_use_5percent_current_session = false;
        current_state = t_step_x1;
      }
      else enter prepare_charging c

  -- `AuthorizedPnC()` holds.
  unfoldable pub proceed_pnc : Charger F → Charger F
  proceed_pnc c =
      if is_dc c.charge_mode
      then enter prepare_charging c
      else record c { hlc_use_5percent_current_session = true; current_state = prepare_charging }

  -- In DC mode the energy management has to supply some power first.
  abbrev pub lacks_dc_power : Charger F → Bool
  lacks_dc_power c =
      is_dc c.charge_mode
      && not (lt (lit 0 0) c.evse_maximum_current_limit && lt (lit 0 0) c.evse_maximum_power_limit)

  unfoldable pub await_authorization : Charger F → Charger F
  unfolding start_transaction
  await_authorization c =
      if lacks_dc_power c
      then c
      else if authorized_eim c
      then proceed_eim (start_transaction c)
      else if is_authorized_pnc c
      then proceed_pnc (start_transaction c)
      else c

  unfoldable pub run_waiting_for_authentication : Bool → Charger F → Charger F
  run_waiting_for_authentication new c = await_authorization (on_entry new enter_waiting c)

  abbrev pub return_pwm : F → Charger F → Charger F
  return_pwm duty c = if fl.eq duty (lit 0 0) then pwm_off c else update_pwm_now duty c

  unfoldable pub run_t_step_ef : Bool → ℕ → Charger F → Charger F
  unfolding pwm_f pwm_off update_pwm_now
  run_t_step_ef new time_in_state c =
      let d = on_entry new pwm_f c in
      if leb 4000 time_in_state
      then enter d.t_step_ef_return_state (return_pwm d.t_step_ef_return_pwm d)
      else d

  unfoldable pub run_t_step_x1 : Bool → ℕ → Charger F → Charger F
  unfolding pwm_off update_pwm_now
  run_t_step_x1 new time_in_state c =
      let d = on_entry new pwm_off c in
      if leb 3000 time_in_state
      then enter d.t_step_x1_return_state (return_pwm d.t_step_x1_return_pwm d)
      else d

  unfoldable pub run_prepare_charging : Bool → Charger F → Charger F
  unfolding update_pwm_now update_pwm_now_if_changed
  run_prepare_charging new c =
      let d =
        on_entry new
          (λ c.
            let e = emit (call_allow_power_on true) (event SessionEvent.prepare_charging c) in
            update_pwm_now
              (if e.hlc_use_5percent_current_session
                then pwm_5_percent
                else ampere_to_duty_cycle fl (narrow (lit 0 0)))
              e)
          c in
      if not d.hlc_use_5percent_current_session
      then update_pwm_now_if_changed fl (ampere_to_duty_cycle fl d.max_current) d
      else d
