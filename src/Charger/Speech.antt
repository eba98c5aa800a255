-- ===== src/Charger/Speech.antt =====
-- A pass of `runStateMachine` of modules/EvseManager: its outputs, by the state it finds.
use everest_core_dev.Common.{
  ℕ, ◌≡◌, refl, sym, ap, ◌∙◌, Bool, true, false, arith, Bool-cases, inl, inr,
}
use everest_core_dev.Floats.{Floats}
use everest_core_dev.Charger.Data.{
  EvseState, disabled, idle, waiting_for_authentication, prepare_charging, waiting_for_energy,
  charging, charging_paused_ev, charging_paused_evse, stopping_charging, finished, error, faulted,
  t_step_ef, t_step_x1, replug, Charger,
}
use everest_core_dev.Charger.Current.{refresh_limit}
use everest_core_dev.Charger.Machine.{run_waiting_for_authentication, enter_waiting}
use everest_core_dev.Charger.Cycle.{
  soc_timer_ends, run_in, note_state, run_switch, run_state_machine, main_loop_pass,
}
use everest_core_dev.Charger.Safety.{is_powered, IsSafe}
use everest_core_dev.Charger.Passes.{
  current_state-enter_waiting, note_state-IsSafe, noted-IsSafe, refresh_limit-IsSafe,
}
use everest_core_dev.Charger.Outputs.{
  Speaks, IsQuiet, may_start, Speaks-trans, run_disabled-IsQuiet, run_replug-IsQuiet,
  run_idle-IsQuiet, run_charging_paused_evse-IsQuiet, run_waiting_for_energy-IsQuiet,
  run_stopping_charging-IsQuiet, run_finished-IsQuiet, run_error-IsQuiet, run_faulted-IsQuiet,
  note_state-IsQuiet, refresh_limit-IsQuiet, run_t_step_ef-IsQuiet, run_t_step_x1-IsQuiet,
  run_prepare_charging-Speaks, run_charging-Speaks, run_charging_paused_ev-Speaks,
  enter_waiting-IsQuiet, await_authorization-Speaks,
}

module _ {F : Type 0} (fl : Floats F) where
  -- What a pass may say in a state.
  abbrev pub SpeaksIn : EvseState → Charger F → Charger F → Type 0
  SpeaksIn s c d = Speaks (may_start fl c) (is_powered s) c d

  of_quiet : (c d : Charger F) → IsQuiet c d → Speaks (may_start fl c) false c d
  of_quiet c d q = omega arith

  of_powered : (c d : Charger F) → Speaks false true c d → Speaks (may_start fl c) true c d
  of_powered c d q = omega arith

  cast-Speaks : {s t p q : Bool} (c d : Charger F) → s ≡ t → p ≡ q → Speaks s p c d → Speaks t q c d
  cast-Speaks c d e h v = ground arith

  run_waiting_for_authentication-SpeaksIn :
      (new : Bool) (c : Charger F)
      → c.current_state ≡ waiting_for_authentication
      → c.last_state ≡ waiting_for_authentication
      → IsSafe c
      → SpeaksIn waiting_for_authentication c (run_waiting_for_authentication fl new c)
  unfolding run_waiting_for_authentication
  run_waiting_for_authentication-SpeaksIn false c at last v = await_authorization-Speaks fl c at
  run_waiting_for_authentication-SpeaksIn true c at last v = ground (
    arith,
    enter_waiting-IsQuiet fl c at last v,
    await_authorization-Speaks fl (enter_waiting fl c) (current_state-enter_waiting fl c ∙ at),
  )

  run_in-SpeaksIn :
      (s : EvseState) (new : Bool) (t : ℕ) (c : Charger F)
      → c.current_state ≡ s
      → c.last_state ≡ s
      → IsSafe c
      → SpeaksIn s c (run_in fl s new t c)
  unfolding run_in
  run_in-SpeaksIn disabled new t c at last v = of_quiet c _ (run_disabled-IsQuiet new c)
  run_in-SpeaksIn replug new t c at last v = of_quiet c _ (run_replug-IsQuiet new c)
  run_in-SpeaksIn idle new t c at last v = of_quiet c _ (run_idle-IsQuiet new c)
  run_in-SpeaksIn waiting_for_authentication new t c at last v =
      run_waiting_for_authentication-SpeaksIn new c at last v
  run_in-SpeaksIn t_step_ef new t c at last v = of_quiet c _ (run_t_step_ef-IsQuiet fl new t c)
  run_in-SpeaksIn t_step_x1 new t c at last v = of_quiet c _ (run_t_step_x1-IsQuiet fl new t c)
  run_in-SpeaksIn prepare_charging new t c at last v =
      of_powered c _ (run_prepare_charging-Speaks fl new c)
  run_in-SpeaksIn charging new t c at last v = of_powered c _ (run_charging-Speaks fl new c)
  run_in-SpeaksIn charging_paused_ev new t c at last v =
      of_powered c _ (run_charging_paused_ev-Speaks fl new c)
  run_in-SpeaksIn charging_paused_evse new t c at last v =
      of_quiet c _ (run_charging_paused_evse-IsQuiet new c)
  run_in-SpeaksIn waiting_for_energy new t c at last v =
      omega (arith, run_waiting_for_energy-IsQuiet new c)
  run_in-SpeaksIn stopping_charging new t c at last v =
      of_quiet c _ (run_stopping_charging-IsQuiet new c)
  run_in-SpeaksIn finished new t c at last v = of_quiet c _ (run_finished-IsQuiet new c)
  run_in-SpeaksIn error new t c at last v = of_quiet c _ (run_error-IsQuiet new c)
  run_in-SpeaksIn faulted new t c at last v = of_quiet c _ (run_faulted-IsQuiet new c)

  note_state_same :
      (new : Bool) (c : Charger F)
      → ((note_state new c).current_state ≡ c.current_state)
        × ((note_state new c).last_state ≡ c.last_state)
        × (may_start fl (note_state new c) ≡ may_start fl c)
  unfolding note_state
  note_state_same new c = ground arith

  run_switch-SpeaksIn :
      (new : Bool) (c : Charger F)
      → c.last_state ≡ c.current_state
      → IsSafe c
      → SpeaksIn c.current_state c (run_switch fl new c)
  unfolding run_switch
  run_switch-SpeaksIn new c last v =
      let same_state = note_state_same new c in
      Speaks-trans c (note_state new c) _ (note_state-IsQuiet new c) (
        cast-Speaks _ _ same_state.2 (ap is_powered same_state.0) (
          run_in-SpeaksIn _ new _ (note_state new c) refl (same_state.1 ∙ last ∙ sym same_state.0)
            (note_state-IsSafe fl new c v)))

  noted-Speaks :
      (timer : ℕ) (c d : Charger F)
      → SpeaksIn c.current_state
          (record c { last_state = c.current_state; ac_with_soc_timer = timer })
          d
      → SpeaksIn c.current_state c d
  noted-Speaks timer c d v = ground arith

  run_state_machine-SpeaksIn :
      (c : Charger F) → IsSafe c → SpeaksIn c.current_state c (run_state_machine fl c)
  unfolding run_state_machine
  run_state_machine-SpeaksIn c v = elim (Bool-cases (soc_timer_ends c)) [
    | inl ends ↦ rw ends (omega arith)
    | inr runs ↦ rw runs (noted-Speaks _ c _ (run_switch-SpeaksIn _ _ refl (noted-IsSafe fl _ c v)))
  ]

  refresh_limit_same :
      (c : Charger F)
      → ((refresh_limit fl c).current_state ≡ c.current_state)
        × (may_start fl (refresh_limit fl c) ≡ may_start fl c)
  unfolding refresh_limit
  refresh_limit_same c = ground arith

  -- One round of the charger's thread starts a transaction only if `may_start` holds, allows power
  -- only in a powered state, each at most once, and never tells that a replug has finished.
  pub main_loop_pass-SpeaksIn :
      (c : Charger F) → IsSafe c → SpeaksIn c.current_state c (main_loop_pass fl c)
  unfolding main_loop_pass
  main_loop_pass-SpeaksIn c v =
      let still = refresh_limit_same c in
      Speaks-trans c (refresh_limit fl c) _ (refresh_limit-IsQuiet fl c) (
        cast-Speaks _ _ still.1 (ap is_powered still.0)
          (run_state_machine-SpeaksIn _ (refresh_limit-IsSafe fl c v)))
