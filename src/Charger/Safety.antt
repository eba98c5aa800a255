-- ===== src/Charger/Safety.antt =====
-- What holds of the charger of modules/EvseManager between any two calls.
use everest_core_dev.Common.{ℕ, ◌+◌, ◌≤◌, ◌≡◌, Bool, true, false, count}
use everest_core_dev.Charger.Data.{
  EvseState, prepare_charging, waiting_for_energy, charging, charging_paused_ev,
  waiting_for_authentication, faulted, t_step_ef, t_step_x1, SessionEvent, Output, signal_event,
  Charger,
}
use everest_core_dev.Charger.Signals.{same}

-- The states from which the car may be supplied with no new authorization.
abbrev pub is_powered : EvseState → Bool
is_powered prepare_charging = true
is_powered waiting_for_energy = true
is_powered charging = true
is_powered charging_paused_ev = true
is_powered _ = false

-- The states to which the breaks `T_step_EF` and `T_step_X1` return.
abbrev pub is_return_state : EvseState → Bool
is_return_state waiting_for_authentication = true
is_return_state prepare_charging = true
is_return_state faulted = true
is_return_state _ = false

abbrev pub to_number : Bool → ℕ
to_number true = 1
to_number false = 0

module _ {F : Type 0} where
  abbrev pub is_transaction_started : Output F → Bool
  is_transaction_started (signal_event SessionEvent.transaction_started) = true
  is_transaction_started _ = false

  abbrev pub is_transaction_finished : Output F → Bool
  is_transaction_finished (signal_event SessionEvent.transaction_finished) = true
  is_transaction_finished _ = false

  pub record IsSafe (c : Charger F) : Type 0 where
    pub balanced :
        count is_transaction_finished c.out + to_number c.transaction_active
        ≤ count is_transaction_started c.out
    pub powered : is_powered c.current_state ≡ true → c.transaction_active ≡ true
    pub ef_pending :
        same c.current_state t_step_ef ≡ true
        → is_powered c.t_step_ef_return_state ≡ true
        → c.transaction_active ≡ true
    pub x1_pending :
        same c.current_state t_step_x1 ≡ true
        → is_powered c.t_step_x1_return_state ≡ true
        → c.transaction_active ≡ true
    pub ef_returns : is_return_state c.t_step_ef_return_state ≡ true
    pub x1_returns : is_return_state c.t_step_x1_return_state ≡ true
