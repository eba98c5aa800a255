-- ===== src/Slac/Histories.antt =====
-- Histories of calls of the controller of modules/EvseSlac, in the order that the mutex gives them.
use everest_core_dev.Common.{ℕ, ◌+◌, List, [], ◌∷◌, if◌then◌else◌}
use everest_core_dev.Slac.Context.{Libslac, HomeplugMessage}
use everest_core_dev.Slac.Controller.{
  Controller, new_controller, start, run_round, signal_new_slac_message, signal_reset,
  signal_enter_bcd, signal_leave_bcd,
}

pub data Call : Type 0 where
  message : HomeplugMessage → Call
  pass_time : ℕ → Call
  reset_call enter_bcd_call leave_bcd_call start_call round : Call

-- `run` is called once.
unfoldable pub step : Libslac → Call → Controller → Controller
step lib (message msg) c = signal_new_slac_message lib msg c
step lib (pass_time n) c = record c { ctx = record c.ctx { now = c.ctx.now + n } }
step lib reset_call c = signal_reset lib c
step lib enter_bcd_call c = (signal_enter_bcd lib c).0
step lib leave_bcd_call c = (signal_leave_bcd lib c).0
step lib start_call c = if c.running then c else start lib c
step lib round c = run_round lib c

unfoldable pub run : Libslac → List Call → Controller → Controller
unfolding step
run lib [] c = c
run lib (call ∷ calls) c = run lib calls (step lib call c)

unfoldable pub after : Libslac → ℕ → ℕ → (ℕ → ℕ → ℕ) → List Call → Controller
unfolding run new_controller
after lib set_key_timeout_ms now draws calls =
    run lib calls (new_controller lib set_key_timeout_ms now draws)
