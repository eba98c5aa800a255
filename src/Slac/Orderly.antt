-- ===== src/Slac/Orderly.antt =====
-- What modules/EvseSlac keeps over every history of its controller: the sounding comes before the
-- match, the sessions are told apart, and the averages fit in their bytes.
use everest_core_dev.Common.{ℕ, ◌+◌, ◌<◌, ◌≡◌, Bool, false, List, [], ◌∷◌, arith}
use everest_core_dev.Slac.Context.{Libslac, Context, HomeplugMessage, generate_nmk}
use everest_core_dev.Slac.Session.{MatchingSession, ack_timeout}
use everest_core_dev.Slac.Matching.{handle_slac_message}
use everest_core_dev.Slac.Timeouts.{Event, time_out}
use everest_core_dev.Slac.States.{
  State, reset_state, idle_state, matching_state, matched_state, failed_state, enter, handle_event,
  callback, leave, retry,
}
use everest_core_dev.Slac.Controller.{new_controller}
use everest_core_dev.Slac.Histories.{Call, after}
use everest_core_dev.Slac.Checks.{callback-keeps}
use everest_core_dev.Slac.Transitions.{transition, is_message}
use everest_core_dev.Slac.Invariants.{HoldsIn, IsInvariant, AllFine, after-Holds}
use everest_core_dev.Slac.Places.{IsDistinct}
use everest_core_dev.Slac.Soundings.{MatchesSounded}
use everest_core_dev.Slac.Orders.{IsOrdered, Follows-IsOrdered, time_out-Follows}
use everest_core_dev.Slac.Confirmations.{IsInBytes, payload-IsOrdered}

abbrev pub IsOrderedIn : Libslac → State → Context → Type 0
IsOrderedIn lib (matching_state m) ctx = IsOrdered lib m.sessions ctx
IsOrderedIn lib s ctx = MatchesSounded ctx.out

module _ (lib : Libslac) (pos : 0 < lib.cm_slac_parm_cnf_num_sounds) where
  callback-IsOrdered :
      (s : State) (ctx : Context)
      → IsOrderedIn lib s ctx
      → IsOrderedIn lib (callback lib s ctx).0 (callback lib s ctx).1
  unfolding callback
  callback-IsOrdered (matching_state m) ctx o =
      callback-keeps lib (IsOrdered lib)
        (λ before more s c h.
          let r = time_out lib s.state (ack_timeout s) c in
          Follows-IsOrdered lib before more s r.0 c r.1 h (λ k. time_out-Follows lib s c h.2 k))
        m ctx o
  callback-IsOrdered reset_state ctx o = o
  callback-IsOrdered idle_state ctx o = o
  callback-IsOrdered matched_state ctx o = o
  callback-IsOrdered failed_state ctx o = o

  transition-IsOrdered :
      (ev : Event) (s : State) (ctx : Context)
      → is_message ev ≡ false
      → IsOrderedIn lib s ctx
      → let t = transition lib ev s ctx in IsOrderedIn lib t.0 t.1
  unfolding handle_event enter leave generate_nmk retry
  transition-IsOrdered Event.slac_message s ctx e o = cc
  transition-IsOrdered Event.retry_matching (matching_state m) ctx e o = ground arith
  transition-IsOrdered ev (matching_state m) ctx e o = ground arith
  transition-IsOrdered ev reset_state ctx e o = ground arith
  transition-IsOrdered ev idle_state ctx e o = ground arith
  transition-IsOrdered ev matched_state ctx e o = ground arith
  transition-IsOrdered ev failed_state ctx e o = ground arith

  message-IsOrdered :
      (msg : HomeplugMessage) (s : State) (ctx : Context)
      → IsInBytes msg
      → IsOrderedIn lib s ctx
      → let t = transition lib Event.slac_message s (record ctx { slac_message_payload = msg }) in
        IsOrderedIn lib t.0 t.1
  unfolding handle_event enter leave handle_slac_message
  message-IsOrdered msg (matching_state m) ctx f o =
      payload-IsOrdered lib pos msg.src_mac msg.payload m
        (record ctx { slac_message_payload = msg }) f o
  message-IsOrdered msg reset_state ctx f o = ground arith
  message-IsOrdered msg idle_state ctx f o = ground arith
  message-IsOrdered msg matched_state ctx f o = ground arith
  message-IsOrdered msg failed_state ctx f o = ground arith

  on_time-IsOrdered :
      (n : ℕ) (s : State) (ctx : Context)
      → IsOrderedIn lib s ctx
      → IsOrderedIn lib s (record ctx { now = ctx.now + n })
  on_time-IsOrdered n (matching_state m) ctx o = o
  on_time-IsOrdered n reset_state ctx o = o
  on_time-IsOrdered n idle_state ctx o = o
  on_time-IsOrdered n matched_state ctx o = o
  on_time-IsOrdered n failed_state ctx o = o

  reset-IsOrdered :
      (ctx : Context)
      → MatchesSounded ctx.out
      → IsOrderedIn lib reset_state (enter lib reset_state ctx).1
  unfolding enter
  reset-IsOrdered ctx o = o

  ordered_invariant : IsInvariant lib IsInBytes (λ ctx. MatchesSounded ctx.out) (IsOrderedIn lib)
  ordered_invariant = record {
    at_start = reset-IsOrdered;
    on_event = transition-IsOrdered;
    on_callback = callback-IsOrdered;
    on_time_before = λ n ctx h. h;
    on_time = on_time-IsOrdered;
    on_message = message-IsOrdered;
  }

abbrev pub sessions_of : List State → List MatchingSession
sessions_of (matching_state m ∷ below) = m.sessions
sessions_of _ = []

pub after-IsOrdered :
    (lib : Libslac)
    → 0 < lib.cm_slac_parm_cnf_num_sounds
    → (set_key_timeout_ms now : ℕ) (draws : ℕ → ℕ → ℕ) (calls : List Call) → AllFine IsInBytes calls
    → let c = after lib set_key_timeout_ms now draws calls in
      IsOrdered lib (sessions_of c.state_stack) c.ctx
unfolding new_controller
after-IsOrdered lib pos set_key_timeout_ms now draws calls fine =
    let c = after lib set_key_timeout_ms now draws calls in
    go c.state_stack c.running c.ctx (
      after-Holds lib IsInBytes (λ ctx. MatchesSounded ctx.out) (IsOrderedIn lib)
        (ordered_invariant lib pos) set_key_timeout_ms now draws calls fine silent)
  where
    go :
        (stack : List State) (running : Bool) (ctx : Context)
        → HoldsIn (λ ctx'. MatchesSounded ctx'.out) (IsOrderedIn lib) stack running ctx
        → IsOrdered lib (sessions_of stack) ctx
    go [] running ctx h = (tt, tt, h.0)
    go (matching_state m ∷ []) running ctx h = h.0
    go (reset_state ∷ []) running ctx h = (tt, tt, h.0)
    go (idle_state ∷ []) running ctx h = (tt, tt, h.0)
    go (matched_state ∷ []) running ctx h = (tt, tt, h.0)
    go (failed_state ∷ []) running ctx h = (tt, tt, h.0)
    go (s ∷ t ∷ more) running ctx h = absurd h

    silent : MatchesSounded (new_controller lib set_key_timeout_ms now draws).ctx.out
    silent = tt

-- Where at least one sound is asked for: after every history in which the attenuations that come in
-- are bytes, a match was confirmed only to a MAC and run id that were sent their attenuation after
-- they were last confirmed their parameters, and no two sessions of the matching state have the same
-- MAC and run id.
pub after-MatchesSounded :
    (lib : Libslac) (pos : 0 < lib.cm_slac_parm_cnf_num_sounds) (set_key_timeout_ms now : ℕ)
    (draws : ℕ → ℕ → ℕ) (calls : List Call) (fine : AllFine IsInBytes calls)
    → let c = after lib set_key_timeout_ms now draws calls in
      MatchesSounded c.ctx.out × IsDistinct (sessions_of c.state_stack)
after-MatchesSounded lib pos set_key_timeout_ms now draws calls fine =
    let o = after-IsOrdered lib pos set_key_timeout_ms now draws calls fine in (o.2, o.0)
