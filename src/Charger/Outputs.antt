-- ===== src/Charger/Outputs.antt =====
-- Which outputs a call of a charger of modules/EvseManager may add, and in which state.
use everest_core_dev.Common.{
  ℕ, ◌+◌, ◌≤◌, ◌≡◌, Bool, true, false, not, ◌&&◌, arith, count, Bool-cases, inl, inr,
}
use everest_core_dev.Floats.{Floats}
use everest_core_dev.Charger.Data.{
  waiting_for_authentication, SessionEvent, Output, signal_event, call_allow_power_on, Charger,
}
use everest_core_dev.Charger.Signals.{
  emit, event, update_pwm_now, update_pwm_max_every_5seconds, same, is_dc,
}
use everest_core_dev.Charger.Current.{refresh_limit, check_soft_over_current, note_over_current}
use everest_core_dev.Charger.Machine.{
  pause_charging_wait_for_power, run_disabled, run_replug, run_idle, run_t_step_ef, run_t_step_x1,
  run_prepare_charging, run_charging_paused_evse, run_waiting_for_energy, run_stopping_charging,
  run_finished, run_error, run_faulted, enter_waiting, proceed_eim, proceed_pnc,
  await_authorization, lacks_dc_power,
}
use everest_core_dev.Charger.Cycle.{
  start_pwm, power_on, follow_limit, supply, run_charging, run_charging_paused_ev, note_state,
}
use everest_core_dev.Charger.Safety.{is_transaction_started, to_number, IsSafe}

module _ {F : Type 0} where
  abbrev pub is_power_on : Output F → Bool
  is_power_on (call_allow_power_on true) = true
  is_power_on _ = false

  abbrev pub is_replug_finished : Output F → Bool
  is_replug_finished (signal_event SessionEvent.replug_finished) = true
  is_replug_finished _ = false

  abbrev pub starts : Charger F → ℕ
  starts c = count is_transaction_started c.out

  abbrev pub power_ons : Charger F → ℕ
  power_ons c = count is_power_on c.out

  abbrev pub replugs_finished : Charger F → ℕ
  replugs_finished c = count is_replug_finished c.out

  -- From `c` to `d` at most `s` transactions start and at most `p` times power is allowed.
  pub record Speaks (s p : Bool) (c d : Charger F) : Type 0 where
    pub started : starts d ≤ starts c + to_number s
    pub powered : power_ons d ≤ power_ons c + to_number p
    pub replugged : replugs_finished d ≡ replugs_finished c

  abbrev pub IsQuiet : Charger F → Charger F → Type 0
  IsQuiet = Speaks false false

  pub Speaks-trans :
      {s p : Bool} (c d e : Charger F) → IsQuiet c d → Speaks s p d e → Speaks s p c e
  Speaks-trans c d e q v = ground arith

  pub run_disabled-IsQuiet : (new : Bool) (c : Charger F) → IsQuiet c (run_disabled new c)
  unfolding run_disabled
  run_disabled-IsQuiet new c = ground arith

  pub run_replug-IsQuiet : (new : Bool) (c : Charger F) → IsQuiet c (run_replug new c)
  unfolding run_replug
  run_replug-IsQuiet new c = ground arith

  pub run_idle-IsQuiet : (new : Bool) (c : Charger F) → IsQuiet c (run_idle new c)
  unfolding run_idle
  run_idle-IsQuiet new c = ground arith

  pub run_charging_paused_evse-IsQuiet :
      (new : Bool) (c : Charger F) → IsQuiet c (run_charging_paused_evse new c)
  unfolding run_charging_paused_evse
  run_charging_paused_evse-IsQuiet new c = ground arith

  pub run_waiting_for_energy-IsQuiet :
      (new : Bool) (c : Charger F) → IsQuiet c (run_waiting_for_energy new c)
  unfolding run_waiting_for_energy
  run_waiting_for_energy-IsQuiet new c = ground arith

  pub run_stopping_charging-IsQuiet :
      (new : Bool) (c : Charger F) → IsQuiet c (run_stopping_charging new c)
  unfolding run_stopping_charging
  run_stopping_charging-IsQuiet new c = ground arith

  pub run_finished-IsQuiet : (new : Bool) (c : Charger F) → IsQuiet c (run_finished new c)
  unfolding run_finished
  run_finished-IsQuiet new c = ground arith

  pub run_error-IsQuiet : (new : Bool) (c : Charger F) → IsQuiet c (run_error new c)
  unfolding run_error
  run_error-IsQuiet new c = ground arith

  pub run_faulted-IsQuiet : (new : Bool) (c : Charger F) → IsQuiet c (run_faulted new c)
  unfolding run_faulted
  run_faulted-IsQuiet new c = ground arith

  pub note_state-IsQuiet : (new : Bool) (c : Charger F) → IsQuiet c (note_state new c)
  unfolding note_state
  note_state-IsQuiet new c = ground arith

module _ {F : Type 0} (fl : Floats F) where
  -- A transaction may start: the charger waits, is authorized, and has power to offer in DC mode.
  abbrev pub may_start : Charger F → Bool
  may_start c =
      same c.current_state waiting_for_authentication && c.authorized && not (lacks_dc_power fl c)

  pub refresh_limit-IsQuiet : (c : Charger F) → IsQuiet c (refresh_limit fl c)
  unfolding refresh_limit
  refresh_limit-IsQuiet c = ground arith

  pub run_t_step_ef-IsQuiet :
      (new : Bool) (t : ℕ) (c : Charger F) → IsQuiet c (run_t_step_ef fl new t c)
  unfolding run_t_step_ef
  run_t_step_ef-IsQuiet new t c = ground arith

  pub run_t_step_x1-IsQuiet :
      (new : Bool) (t : ℕ) (c : Charger F) → IsQuiet c (run_t_step_x1 fl new t c)
  unfolding run_t_step_x1
  run_t_step_x1-IsQuiet new t c = ground arith

  pub run_prepare_charging-Speaks :
      (new : Bool) (c : Charger F) → Speaks false true c (run_prepare_charging fl new c)
  unfolding run_prepare_charging
  run_prepare_charging-Speaks new c = ground arith

  start_pwm-IsQuiet : (c : Charger F) → IsQuiet c (start_pwm fl c)
  unfolding start_pwm update_pwm_now
  start_pwm-IsQuiet c = ground arith

  follow_limit-IsQuiet : (c : Charger F) → IsQuiet c (follow_limit fl c)
  unfolding follow_limit update_pwm_max_every_5seconds update_pwm_now
  follow_limit-IsQuiet c = ground arith

  pause-IsQuiet : (c : Charger F) → IsQuiet c (pause_charging_wait_for_power c).0
  unfolding pause_charging_wait_for_power
  pause-IsQuiet c = ground arith

  supply_resumed-Speaks :
      (fresh : Bool) (c : Charger F)
      → Speaks false true c (supply fl fresh SessionEvent.charging_resumed c)
  unfolding supply power_on
  supply_resumed-Speaks fresh c =
      let loud = emit (call_allow_power_on true) (event SessionEvent.charging_resumed c) in
      ground (arith, start_pwm-IsQuiet loud, follow_limit-IsQuiet c, pause-IsQuiet c)

  supply_paused-Speaks :
      (fresh : Bool) (c : Charger F)
      → Speaks false true c (supply fl fresh SessionEvent.charging_paused_ev c)
  unfolding supply power_on
  supply_paused-Speaks fresh c =
      let loud = emit (call_allow_power_on true) (event SessionEvent.charging_paused_ev c) in
      ground (arith, start_pwm-IsQuiet loud, follow_limit-IsQuiet c, pause-IsQuiet c)

  check_soft_over_current-IsQuiet : (c : Charger F) → IsQuiet c (check_soft_over_current fl c)
  unfolding check_soft_over_current note_over_current
  check_soft_over_current-IsQuiet c = ground arith

  checked-IsQuiet : (c : Charger F) → IsQuiet c (refresh_limit fl (check_soft_over_current fl c))
  checked-IsQuiet c =
      Speaks-trans c _ _ (check_soft_over_current-IsQuiet c) (refresh_limit-IsQuiet _)

  pub run_charging-Speaks :
      (new : Bool) (c : Charger F) → Speaks false true c (run_charging fl new c)
  unfolding run_charging
  run_charging-Speaks new c = elim (Bool-cases (is_dc c.charge_mode)) [
    | inl d ↦ rw d (ground arith)
    | inr a ↦ rw a (Speaks-trans c _ _ (checked-IsQuiet c) (supply_resumed-Speaks _ _))
  ]

  pub run_charging_paused_ev-Speaks :
      (new : Bool) (c : Charger F) → Speaks false true c (run_charging_paused_ev fl new c)
  unfolding run_charging_paused_ev
  run_charging_paused_ev-Speaks new c = elim (Bool-cases (is_dc c.charge_mode)) [
    | inl d ↦ rw d (ground arith)
    | inr a ↦ rw a (Speaks-trans c _ _ (checked-IsQuiet c) (supply_paused-Speaks _ _))
  ]

  pub enter_waiting-IsQuiet :
      (c : Charger F)
      → c.current_state ≡ waiting_for_authentication
      → c.last_state ≡ waiting_for_authentication
      → IsSafe c
      → IsQuiet c (enter_waiting fl c)
        × (may_start (enter_waiting fl c) ≡ true → may_start c ≡ true)
  unfolding enter_waiting
  enter_waiting-IsQuiet c at last v = ground arith

  pub await_authorization-Speaks :
      (c : Charger F)
      → c.current_state ≡ waiting_for_authentication
      → Speaks (may_start c) false c (await_authorization fl c)
  unfolding await_authorization proceed_eim proceed_pnc
  await_authorization-Speaks c at = ground arith
