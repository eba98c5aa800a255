-- ===== src/Charger/Passes.antt =====
-- Each case of `runStateMachine` of modules/EvseManager keeps the charger safe.
use everest_core_dev.Common.{
  if◌then◌else◌, ℕ, ◌≡◌, refl, ◌∙◌, Bool, true, false, inl, inr, arith, Bool-cases,
}
use everest_core_dev.Floats.{Floats}
use everest_core_dev.Charger.Data.{
  EvseState, disabled, idle, waiting_for_authentication, prepare_charging, waiting_for_energy,
  charging, charging_paused_ev, charging_paused_evse, stopping_charging, finished, error, faulted,
  t_step_ef, t_step_x1, replug, SessionEvent, signal_ac_with_soc_timeout, Charger,
}
use everest_core_dev.Charger.Signals.{emit, is_dc, update_pwm_now, update_pwm_max_every_5seconds}
use everest_core_dev.Charger.Current.{
  has_power, refresh_limit, check_soft_over_current, note_over_current,
}
use everest_core_dev.Charger.Machine.{
  pause_charging_wait_for_power, run_disabled, run_replug, run_idle, run_waiting_for_authentication,
  run_t_step_ef, run_t_step_x1, run_prepare_charging, run_charging_paused_evse,
  run_waiting_for_energy, run_stopping_charging, run_finished, run_error, run_faulted,
  enter_waiting, proceed_eim, proceed_pnc, await_authorization,
}
use everest_core_dev.Charger.Cycle.{
  start_pwm, power_on, follow_limit, supply, run_charging, run_charging_paused_ev, soc_timer_ends,
  run_in, note_state, run_switch, run_state_machine, main_loop_pass,
}
use everest_core_dev.Charger.Safety.{IsSafe}

abbrev is_transaction_event : SessionEvent → Bool
is_transaction_event SessionEvent.transaction_started = true
is_transaction_event SessionEvent.transaction_finished = true
is_transaction_event _ = false

module _ {F : Type 0} where
  run_disabled-IsSafe : (new : Bool) (c : Charger F) → IsSafe c → IsSafe (run_disabled new c)
  unfolding run_disabled
  run_disabled-IsSafe new c v = ground arith

  run_replug-IsSafe : (new : Bool) (c : Charger F) → IsSafe c → IsSafe (run_replug new c)
  unfolding run_replug
  run_replug-IsSafe new c v = ground arith

  run_idle-IsSafe :
      (new : Bool) (c : Charger F) → c.current_state ≡ idle → IsSafe c → IsSafe (run_idle new c)
  unfolding run_idle
  run_idle-IsSafe new c at v = ground arith

  run_charging_paused_evse-IsSafe :
      (new : Bool) (c : Charger F) → IsSafe c → IsSafe (run_charging_paused_evse new c)
  unfolding run_charging_paused_evse
  run_charging_paused_evse-IsSafe new c v = ground arith

  run_waiting_for_energy-IsSafe :
      (new : Bool) (c : Charger F) → IsSafe c → IsSafe (run_waiting_for_energy new c)
  unfolding run_waiting_for_energy
  run_waiting_for_energy-IsSafe new c v = ground arith

  run_stopping_charging-IsSafe :
      (new : Bool) (c : Charger F)
      → c.current_state ≡ stopping_charging
      → IsSafe c
      → IsSafe (run_stopping_charging new c)
  unfolding run_stopping_charging
  run_stopping_charging-IsSafe new c at v = ground arith

  run_finished-IsSafe :
      (new : Bool) (c : Charger F)
      → c.current_state ≡ finished
      → IsSafe c
      → IsSafe (run_finished new c)
  unfolding run_finished
  run_finished-IsSafe new c at v = ground arith

  run_error-IsSafe : (new : Bool) (c : Charger F) → IsSafe c → IsSafe (run_error new c)
  unfolding run_error
  run_error-IsSafe new c v = ground arith

  run_faulted-IsSafe : (new : Bool) (c : Charger F) → IsSafe c → IsSafe (run_faulted new c)
  unfolding run_faulted
  run_faulted-IsSafe new c v = ground arith

module _ {F : Type 0} (fl : Floats F) where
  enter_waiting-IsSafe :
      (c : Charger F)
      → c.current_state ≡ waiting_for_authentication
      → IsSafe c
      → IsSafe (enter_waiting fl c)
  unfolding enter_waiting
  enter_waiting-IsSafe c at v = ground arith

  pub current_state-enter_waiting :
      (c : Charger F) → (enter_waiting fl c).current_state ≡ c.current_state
  unfolding enter_waiting
  current_state-enter_waiting c = ground arith

  await_authorization-IsSafe :
      (c : Charger F)
      → c.current_state ≡ waiting_for_authentication
      → IsSafe c
      → IsSafe (await_authorization fl c)
  unfolding await_authorization proceed_eim proceed_pnc
  await_authorization-IsSafe c at v = ground arith

  run_prepare_charging-IsSafe :
      (new : Bool) (c : Charger F)
      → c.current_state ≡ prepare_charging
      → IsSafe c
      → IsSafe (run_prepare_charging fl new c)
  unfolding run_prepare_charging
  run_prepare_charging-IsSafe new c at v = ground arith

  pub refresh_limit-IsSafe : (c : Charger F) → IsSafe c → IsSafe (refresh_limit fl c)
  unfolding refresh_limit
  refresh_limit-IsSafe c v = ground arith

  check_soft_over_current-IsSafe :
      (c : Charger F) → IsSafe c → IsSafe (check_soft_over_current fl c)
  unfolding check_soft_over_current note_over_current
  check_soft_over_current-IsSafe c v = ground arith

  -- What the two charging states look at first.
  checked-IsSafe :
      (c : Charger F) → IsSafe c → IsSafe (refresh_limit fl (check_soft_over_current fl c))
  checked-IsSafe c v = refresh_limit-IsSafe _ (check_soft_over_current-IsSafe c v)

  start_pwm-IsSafe : (c : Charger F) → IsSafe c → IsSafe (start_pwm fl c)
  unfolding start_pwm update_pwm_now
  start_pwm-IsSafe c v = ground arith

  power_on-IsSafe :
      (e : SessionEvent) (c : Charger F)
      → is_transaction_event e ≡ false
      → IsSafe c
      → IsSafe (power_on fl e c)
  unfolding power_on
  power_on-IsSafe e c n v = start_pwm-IsSafe _ (ground arith)

  follow_limit-IsSafe : (c : Charger F) → IsSafe c → IsSafe (follow_limit fl c)
  unfolding follow_limit update_pwm_max_every_5seconds update_pwm_now
  follow_limit-IsSafe c v = ground arith

  pause-IsSafe : (c : Charger F) → IsSafe c → IsSafe (pause_charging_wait_for_power c).0
  unfolding pause_charging_wait_for_power
  pause-IsSafe c v = ground arith

  supply-IsSafe :
      (fresh : Bool) (e : SessionEvent) (c : Charger F)
      → is_transaction_event e ≡ false
      → IsSafe c
      → IsSafe (supply fl fresh e c)
  unfolding supply
  supply-IsSafe fresh e c n v = elim (Bool-cases (has_power fl c)) [
    | inr out ↦ rw out (pause-IsSafe c v)
    | inl has ↦
        rw has (elim fresh as (λ b. IsSafe (if b then power_on fl e c else follow_limit fl c)) [
          | true ↦ power_on-IsSafe e c n v
          | false ↦ follow_limit-IsSafe c v
        ])
  ]

  run_charging-IsSafe : (new : Bool) (c : Charger F) → IsSafe c → IsSafe (run_charging fl new c)
  unfolding run_charging
  run_charging-IsSafe new c v = elim (Bool-cases (is_dc c.charge_mode)) [
    | inl d ↦ rw d v
    | inr a ↦ rw a (supply-IsSafe _ SessionEvent.charging_resumed _ refl (checked-IsSafe c v))
  ]

  paused_dc-IsSafe :
      (new : Bool) (c : Charger F)
      → is_dc c.charge_mode ≡ true
      → IsSafe c
      → IsSafe (run_charging_paused_ev fl new c)
  unfolding run_charging_paused_ev
  paused_dc-IsSafe new c d v = rw d (ground arith)

  run_charging_paused_ev-IsSafe :
      (new : Bool) (c : Charger F) → IsSafe c → IsSafe (run_charging_paused_ev fl new c)
  unfolding run_charging_paused_ev
  run_charging_paused_ev-IsSafe new c v = elim (Bool-cases (is_dc c.charge_mode)) [
    | inl d ↦ paused_dc-IsSafe new c d v
    | inr a ↦ rw a (supply-IsSafe _ SessionEvent.charging_paused_ev _ refl (checked-IsSafe c v))
  ]

  run_t_step_ef-IsSafe :
      (new : Bool) (t : ℕ) (c : Charger F)
      → c.current_state ≡ t_step_ef
      → IsSafe c
      → IsSafe (run_t_step_ef fl new t c)
  unfolding run_t_step_ef
  run_t_step_ef-IsSafe new t c at v = ground arith

  run_t_step_x1-IsSafe :
      (new : Bool) (t : ℕ) (c : Charger F)
      → c.current_state ≡ t_step_x1
      → IsSafe c
      → IsSafe (run_t_step_x1 fl new t c)
  unfolding run_t_step_x1
  run_t_step_x1-IsSafe new t c at v = ground arith

  run_waiting_for_authentication-IsSafe :
      (new : Bool) (c : Charger F)
      → c.current_state ≡ waiting_for_authentication
      → IsSafe c
      → IsSafe (run_waiting_for_authentication fl new c)
  unfolding run_waiting_for_authentication
  run_waiting_for_authentication-IsSafe true c at v =
      await_authorization-IsSafe _ (current_state-enter_waiting c ∙ at)
        (enter_waiting-IsSafe c at v)
  run_waiting_for_authentication-IsSafe false c at v = await_authorization-IsSafe c at v

  run_in-IsSafe :
      (s : EvseState) (new : Bool) (t : ℕ) (c : Charger F)
      → c.current_state ≡ s
      → IsSafe c
      → IsSafe (run_in fl s new t c)
  unfolding run_in
  run_in-IsSafe disabled new t c at v = run_disabled-IsSafe new c v
  run_in-IsSafe replug new t c at v = run_replug-IsSafe new c v
  run_in-IsSafe idle new t c at v = run_idle-IsSafe new c at v
  run_in-IsSafe waiting_for_authentication new t c at v =
      run_waiting_for_authentication-IsSafe new c at v
  run_in-IsSafe t_step_ef new t c at v = run_t_step_ef-IsSafe new t c at v
  run_in-IsSafe t_step_x1 new t c at v = run_t_step_x1-IsSafe new t c at v
  run_in-IsSafe prepare_charging new t c at v = run_prepare_charging-IsSafe new c at v
  run_in-IsSafe charging new t c at v = run_charging-IsSafe new c v
  run_in-IsSafe charging_paused_ev new t c at v = run_charging_paused_ev-IsSafe new c v
  run_in-IsSafe charging_paused_evse new t c at v = run_charging_paused_evse-IsSafe new c v
  run_in-IsSafe waiting_for_energy new t c at v = run_waiting_for_energy-IsSafe new c v
  run_in-IsSafe stopping_charging new t c at v = run_stopping_charging-IsSafe new c at v
  run_in-IsSafe finished new t c at v = run_finished-IsSafe new c at v
  run_in-IsSafe error new t c at v = run_error-IsSafe new c v
  run_in-IsSafe faulted new t c at v = run_faulted-IsSafe new c v

  pub note_state-IsSafe : (new : Bool) (c : Charger F) → IsSafe c → IsSafe (note_state new c)
  unfolding note_state
  note_state-IsSafe new c v = ground arith

  run_switch-IsSafe : (new : Bool) (c : Charger F) → IsSafe c → IsSafe (run_switch fl new c)
  unfolding run_switch
  run_switch-IsSafe new c v = run_in-IsSafe _ new _ _ refl (note_state-IsSafe new c v)

  pub noted-IsSafe :
      (timer : ℕ) (c : Charger F)
      → IsSafe c
      → IsSafe (record c { last_state = c.current_state; ac_with_soc_timer = timer })
  noted-IsSafe timer c v = ground arith

  soc_timer_ended-IsSafe :
      (c : Charger F)
      → IsSafe c
      → IsSafe (
          emit signal_ac_with_soc_timeout (record c {
            last_state = c.current_state;
            ac_with_soc_timeout = false;
            ac_with_soc_timer = 3600000;
          }))
  soc_timer_ended-IsSafe c v = ground arith

  -- A pass of the state machine, whatever the state, keeps the charger safe.
  pub run_state_machine-IsSafe : (c : Charger F) → IsSafe c → IsSafe (run_state_machine fl c)
  unfolding run_state_machine
  run_state_machine-IsSafe c v = elim (Bool-cases (soc_timer_ends c)) [
    | inl ends ↦ rw ends (soc_timer_ended-IsSafe c v)
    | inr runs ↦ rw runs (run_switch-IsSafe _ _ (noted-IsSafe _ c v))
  ]

  pub main_loop_pass-IsSafe : (c : Charger F) → IsSafe c → IsSafe (main_loop_pass fl c)
  unfolding main_loop_pass
  main_loop_pass-IsSafe c v = run_state_machine-IsSafe _ (refresh_limit-IsSafe c v)
