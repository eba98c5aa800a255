-- ===== src/Charger/Signals.antt =====
-- What the members of modules/EvseManager/Charger.cpp share: the tests on enumerations, the
-- signals, and the calls that set the PWM of the control pilot.
use everest_core_dev.Common.{ℕ, ◌-◌, Bool, true, false, not, String, ◌∷◌, ◌==◌, leb, if◌then◌else◌}
use everest_core_dev.Floats.{Floats}
use everest_core_dev.Charger.Data.{
  EvseState, disabled, idle, waiting_for_authentication, prepare_charging, waiting_for_energy,
  charging, charging_paused_ev, charging_paused_evse, stopping_charging, finished, error, faulted,
  t_step_ef, t_step_x1, replug, ChargeMode, Output, signal_event, call_pwm_on, call_pwm_off,
  call_pwm_f, SessionEvent, Charger,
}

-- The place of a state in the enumeration.
abbrev pub index : EvseState → ℕ
index disabled = 0
index idle = 1
index waiting_for_authentication = 2
index prepare_charging = 3
index waiting_for_energy = 4
index charging = 5
index charging_paused_ev = 6
index charging_paused_evse = 7
index stopping_charging = 8
index finished = 9
index error = 10
index faulted = 11
index t_step_ef = 12
index t_step_x1 = 13
index replug = 14

-- `s == t` on states.
abbrev pub same : EvseState → EvseState → Bool
same s t = index s == index t

-- `m == ChargeMode::DC`.
abbrev pub is_dc : ChargeMode → Bool
is_dc ChargeMode.ac = false
is_dc ChargeMode.dc = true

unfoldable pub evse_state_to_string : EvseState → String
evse_state_to_string disabled = "Disabled"
evse_state_to_string idle = "Idle"
evse_state_to_string waiting_for_authentication = "Wait for Auth"
evse_state_to_string charging = "Charging"
evse_state_to_string charging_paused_ev = "Car Paused"
evse_state_to_string charging_paused_evse = "EVSE Paused"
evse_state_to_string waiting_for_energy = "Wait for energy"
evse_state_to_string finished = "Finished"
evse_state_to_string error = "Error"
evse_state_to_string faulted = "Faulted"
evse_state_to_string t_step_ef = "T_step_EF"
evse_state_to_string t_step_x1 = "T_step_X1"
evse_state_to_string replug = "Replug"
evse_state_to_string prepare_charging = "PrepareCharging"
evse_state_to_string stopping_charging = "StoppingCharging"

module _ {F : Type 0} where
  abbrev pub emit : Output F → Charger F → Charger F
  emit o c = record c { out = o ∷ c.out }

  abbrev pub event : SessionEvent → Charger F → Charger F
  event e c = emit (signal_event e) c

  abbrev pub enter : EvseState → Charger F → Charger F
  enter s c = record c { current_state = s }

  unfoldable pub pwm_off : Charger F → Charger F
  pwm_off c = emit call_pwm_off c

  unfoldable pub pwm_f : Charger F → Charger F
  pwm_f c = emit call_pwm_f c

  unfoldable pub update_pwm_now : F → Charger F → Charger F
  update_pwm_now duty c = record c {
    update_pwm_last_dc = duty;
    last_pwm_update = c.clock;
    out = call_pwm_on duty ∷ c.out;
  }

module _ {F : Type 0} (fl : Floats F) where
  unfoldable pub update_pwm_now_if_changed : F → Charger F → Charger F
  unfolding update_pwm_now
  update_pwm_now_if_changed duty c =
      if not (fl.eq c.update_pwm_last_dc duty) then update_pwm_now duty c else c

  unfoldable pub update_pwm_max_every_5seconds : F → Charger F → Charger F
  unfolding update_pwm_now
  update_pwm_max_every_5seconds duty c =
      if not (fl.eq duty c.update_pwm_last_dc)
      then (if leb 5000 (c.clock - c.last_pwm_update) then update_pwm_now duty c else c)
      else c
