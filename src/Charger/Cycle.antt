-- ===== src/Charger/Cycle.antt =====
-- The charging states, the whole pass `runStateMachine`, and the round of `mainThread` of
-- modules/EvseManager/Charger.cpp.
use everest_core_dev.Common.{ℕ, ◌-◌, Bool, true, false, not, ◌&&◌, ltb, if◌then◌else◌}
use everest_core_dev.Floats.{Floats}
use everest_core_dev.Charger.Data.{
  EvseState, disabled, idle, waiting_for_authentication, prepare_charging, waiting_for_energy,
  charging, charging_paused_ev, charging_paused_evse, stopping_charging, finished, error, faulted,
  t_step_ef, t_step_x1, replug, SessionEvent, signal_state, signal_error,
  signal_ac_with_soc_timeout, call_allow_power_on, Charger,
}
use everest_core_dev.Charger.Signals.{
  same, is_dc, emit, event, enter, update_pwm_now, update_pwm_max_every_5seconds,
}
use everest_core_dev.Charger.Current.{
  ampere_to_duty_cycle, refresh_limit, has_power, check_soft_over_current,
}
use everest_core_dev.Charger.Machine.{
  on_entry, pause_charging_wait_for_power, run_disabled, run_replug, run_idle,
  run_waiting_for_authentication, run_t_step_ef, run_t_step_x1, run_prepare_charging,
  run_charging_paused_evse, run_waiting_for_energy, run_stopping_charging, run_finished, run_error,
  run_faulted, pwm_5_percent,
}

module _ {F : Type 0} where
  -- The new state is noted and signalled before the switch.
  unfoldable pub note_state : Bool → Charger F → Charger F
  note_state new c =
      on_entry new
        (λ c.
          let d =
            emit (signal_state c.current_state) (record c { current_state_started = c.clock }) in
          if same d.current_state error then emit (signal_error d.error_state) d else d)
        c

  abbrev pub is_new_in_state : Charger F → Bool
  is_new_in_state c = not (same c.last_state c.current_state)

  -- `ac_with_soc_timeout && (ac_with_soc_timer -= 50) < 0`, where the timer is never below 0 here.
  abbrev pub soc_timer_ends : Charger F → Bool
  soc_timer_ends c = c.ac_with_soc_timeout && ltb c.ac_with_soc_timer 50

module _ {F : Type 0} (fl : Floats F) where
  -- The PWM to start a state with: 5 percent under high level communication, or the limit.
  unfoldable pub start_pwm : Charger F → Charger F
  start_pwm c =
      update_pwm_now
        (if c.hlc_use_5percent_current_session
          then pwm_5_percent fl
          else ampere_to_duty_cycle fl c.max_current)
        c

  unfoldable pub follow_limit : Charger F → Charger F
  follow_limit c =
      if not c.hlc_use_5percent_current_session
      then update_pwm_max_every_5seconds fl (ampere_to_duty_cycle fl c.max_current) c
      else c

  -- Power, and the PWM, for a car that charges or that may go on at any time.
  unfoldable pub power_on : SessionEvent → Charger F → Charger F
  power_on e c = start_pwm (emit (call_allow_power_on true) (event e c))

  -- What both charging states do after the check of the current. `fresh` tells that the state is
  -- new, and the event belongs to that entry.
  unfoldable pub supply : Bool → SessionEvent → Charger F → Charger F
  supply fresh e d =
      if not (has_power fl d)
      then (pause_charging_wait_for_power d).0
      else if fresh
      then power_on e d
      else follow_limit d

  unfoldable pub run_charging : Bool → Charger F → Charger F
  run_charging new c =
      if is_dc c.charge_mode
      then c
      else let d = refresh_limit fl (check_soft_over_current fl c) in
        supply (new && not (same d.last_state prepare_charging)) SessionEvent.charging_resumed d

  unfoldable pub run_charging_paused_ev : Bool → Charger F → Charger F
  run_charging_paused_ev new c =
      if is_dc c.charge_mode
      then on_entry new (λ c. enter stopping_charging (emit (call_allow_power_on false) c)) c
      else supply new SessionEvent.charging_paused_ev
          (refresh_limit fl (check_soft_over_current fl c))

  -- The switch over `currentState`.
  unfoldable pub run_in : EvseState → Bool → ℕ → Charger F → Charger F
  run_in disabled new t = run_disabled new
  run_in replug new t = run_replug new
  run_in idle new t = run_idle new
  run_in waiting_for_authentication new t = run_waiting_for_authentication fl new
  run_in t_step_ef new t = run_t_step_ef fl new t
  run_in t_step_x1 new t = run_t_step_x1 fl new t
  run_in prepare_charging new t = run_prepare_charging fl new
  run_in charging new t = run_charging new
  run_in charging_paused_ev new t = run_charging_paused_ev new
  run_in charging_paused_evse new t = run_charging_paused_evse new
  run_in waiting_for_energy new t = run_waiting_for_energy new
  run_in stopping_charging new t = run_stopping_charging new
  run_in finished new t = run_finished new
  run_in error new t = run_error new
  run_in faulted new t = run_faulted new

  unfoldable pub run_switch : Bool → Charger F → Charger F
  unfolding note_state
  run_switch new c =
      let d = note_state new c in run_in d.current_state new (d.clock - d.current_state_started) d

  unfoldable pub run_state_machine : Charger F → Charger F
  run_state_machine c =
      let new = is_new_in_state c in
      let d = record c { last_state = c.current_state } in
      if soc_timer_ends d
      then emit signal_ac_with_soc_timeout
          (record d { ac_with_soc_timeout = false; ac_with_soc_timer = 3600000 })
      else run_switch new (record d {
        ac_with_soc_timer =
            (if d.ac_with_soc_timeout then d.ac_with_soc_timer - 50 else d.ac_with_soc_timer);
      })

  -- One round of the loop in `mainThread`.
  unfoldable pub main_loop_pass : Charger F → Charger F
  main_loop_pass c = run_state_machine (refresh_limit fl c)
