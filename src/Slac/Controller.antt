-- ===== src/Slac/Controller.antt =====
-- modules/EvseSlac/main/fsm_controller.cpp. The mutex makes each call one step, and the condition
-- variable's waits end when the next round of the thread comes; a round comes at any time, but not
-- in a wait for an event with none there. `None` of the stack is the machine before its `reset`.
use everest_core_dev.Common.{ℕ, Bool, true, false, not, List, [], if◌then◌else◌}
use everest_core_dev.Slac.Fsm.{
  Feed, wait, do_not_call_me_again, event_unhandled, event_handled_internally, dispatch_event, feed,
  Methods,
}
use everest_core_dev.Slac.Fsm
use everest_core_dev.Slac.Context.{Libslac, Context, HomeplugMessage, other_message, generate_nmk}
use everest_core_dev.Slac.Timeouts.{Event, enter_bcd, leave_bcd, slac_message}
use everest_core_dev.Slac.States.{State, reset_state, methods, enter, handle_event, callback, leave}

pub record Controller : Type 0 where
  pub running : Bool
  pub feed_result : Feed
  pub new_event : Bool
  pub state_stack : List State
  pub ctx : Context

-- `Context` after slacImpl.cpp has set it up, and the controller.
unfoldable pub new_controller : Libslac → ℕ → ℕ → (ℕ → ℕ → ℕ) → Controller
unfolding generate_nmk
new_controller lib set_key_timeout_ms now draws = record {
  running = false;
  feed_result = wait 0;
  new_event = false;
  state_stack = [];
  ctx = generate_nmk lib (record {
    slac_message_payload = record { src_mac = 0; payload = other_message };
    plc_peer_mac = 0x00B052000001;
    session_nmk = [];
    set_key_timeout_ms = set_key_timeout_ms;
    now = now;
    draws = draws;
    seeds = 0;
    out = [];
  });
}

abbrev pub fed : List State × Context × Feed → Controller → Controller
fed (stack, ctx, result) c = record c { state_stack = stack; ctx = ctx; feed_result = result }

abbrev pub was_handled : Feed → Bool
was_handled event_unhandled = false
was_handled _ = true

module _ (lib : Libslac) where
  unfoldable pub feed_event : Event → Controller → Controller
  unfolding dispatch_event enter handle_event callback leave
  feed_event ev c = record (fed (dispatch_event (methods lib) ev c.state_stack c.ctx) c) {
    new_event = true;
  }

  unfoldable pub signal_new_slac_message : HomeplugMessage → Controller → Controller
  unfolding feed_event
  signal_new_slac_message msg c =
      if not c.running
      then c
      else feed_event slac_message (record c { ctx = record c.ctx { slac_message_payload = msg } })

  -- `signal_simple_event`, and whether an event was handled.
  unfoldable pub signal_simple_event : Event → Controller → Controller × Bool
  unfolding feed_event
  signal_simple_event ev c = let c' = feed_event ev c in (c', was_handled c'.feed_result)

  unfoldable pub signal_reset : Controller → Controller
  unfolding signal_simple_event
  signal_reset c = (signal_simple_event Event.reset c).0

  unfoldable pub signal_enter_bcd : Controller → Controller × Bool
  unfolding signal_simple_event
  signal_enter_bcd = signal_simple_event enter_bcd

  unfoldable pub signal_leave_bcd : Controller → Controller × Bool
  unfolding signal_simple_event
  signal_leave_bcd = signal_simple_event leave_bcd

  -- `run` before its loop.
  unfoldable pub start : Controller → Controller
  unfolding enter
  start c = record (fed (Fsm.reset (methods lib) reset_state c.ctx) c) { running = true }

  abbrev pub waits_for_event : Feed → Bool
  waits_for_event do_not_call_me_again = true
  waits_for_event _ = false

  -- One round of the loop of `run`.
  unfoldable pub run_round : Controller → Controller
  unfolding feed callback
  run_round c =
      if c.new_event
      then record c { new_event = false }
      else if waits_for_event c.feed_result
      then c
      else fed (feed (methods lib) c.state_stack c.ctx) c
