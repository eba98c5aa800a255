-- ===== src/Slac/Invariants.antt =====
-- What holds after every history of modules/EvseSlac, from what each transition of a state keeps.
use everest_core_dev.Common.{
  inr, inl, Bool-cases, ℕ, ◌+◌, ◌≡◌, refl, Bool, true, false, List, [], ◌∷◌,
}
use everest_core_dev.Slac.Fsm.{
  Feed, NextState, restart, pass_on, handled_internally, change, CallbackResult, value, event,
  dispatch_event, settle, ask, feed, push, leave_all, Methods,
}
use everest_core_dev.Slac.Fsm
use everest_core_dev.Slac.Context.{Libslac, Context, HomeplugMessage}
use everest_core_dev.Slac.Timeouts.{Event, enter_bcd, leave_bcd, slac_message}
use everest_core_dev.Slac.States.{State, reset_state, enter, callback, methods}
use everest_core_dev.Slac.Controller.{
  waits_for_event, Controller, new_controller, start, run_round, feed_event,
  signal_new_slac_message, signal_simple_event, signal_reset, signal_enter_bcd, signal_leave_bcd,
}
use everest_core_dev.Slac.Histories.{
  Call, message, pass_time, reset_call, enter_bcd_call, leave_bcd_call, start_call, round, step,
  run, after,
}
use everest_core_dev.Slac.Transitions.{
  transition, dispatch-single, is_message, RaisesNoMessage, callback_raises,
}

-- An invariant: what holds of the context before `run` resets the machine, and what holds of the
-- state and the context after it, for histories of messages of a kind.
pub record IsInvariant (lib : Libslac) (Fine : HomeplugMessage → Type 0) (Before : Context → Type 0)
    (After : State → Context → Type 0) : Type 0 where
  pub at_start : (ctx : Context) → Before ctx → After reset_state (enter lib reset_state ctx).1
  pub on_event :
      (ev : Event) (s : State) (ctx : Context)
      → is_message ev ≡ false
      → After s ctx
      → After (transition lib ev s ctx).0 (transition lib ev s ctx).1
  pub on_callback :
      (s : State) (ctx : Context)
      → After s ctx
      → After (callback lib s ctx).0 (callback lib s ctx).1
  pub on_time_before :
      (n : ℕ) (ctx : Context) → Before ctx → Before (record ctx { now = ctx.now + n })
  pub on_time :
      (n : ℕ) (s : State) (ctx : Context) → After s ctx → After s (record ctx { now = ctx.now + n })
  pub on_message :
      (msg : HomeplugMessage) (s : State) (ctx : Context)
      → Fine msg
      → After s ctx
      → let t = transition lib slac_message s (record ctx { slac_message_payload = msg }) in
        After t.0 t.1

-- The invariant of a controller: the stack is empty before the start, and holds one state after it.
abbrev pub HoldsIn :
    (Context → Type 0) → (State → Context → Type 0) → List State → Bool → Context → Type 0
HoldsIn Before After [] running ctx = Before ctx × (running ≡ false)
HoldsIn Before After (s ∷ []) running ctx = After s ctx × (running ≡ true)
HoldsIn Before After (s ∷ t ∷ more) running ctx = ⊥

abbrev pub Holds : (Context → Type 0) → (State → Context → Type 0) → Controller → Type 0
Holds Before After c = HoldsIn Before After c.state_stack c.running c.ctx

-- All messages of a history are of the kind.
abbrev pub AllFine : (HomeplugMessage → Type 0) → List Call → Type 0
AllFine Fine [] = Unit {0}
AllFine Fine (message msg ∷ calls) = Fine msg × AllFine Fine calls
AllFine Fine (call ∷ calls) = AllFine Fine calls

module _ (lib : Libslac) (Fine : HomeplugMessage → Type 0) (Before : Context → Type 0)
    (After : State → Context → Type 0) (keeps : IsInvariant lib Fine Before After) where
  dispatch-HoldsIn :
      (ev : Event) (stack : List State) (running : Bool) (ctx : Context)
      → is_message ev ≡ false
      → HoldsIn Before After stack running ctx
      → let d = dispatch_event (methods lib) ev stack ctx in HoldsIn Before After d.0 running d.1
  unfolding dispatch_event ask settle
  dispatch-HoldsIn ev [] running ctx e h = h
  dispatch-HoldsIn ev (s ∷ []) running ctx e h =
      let d = dispatch-single lib ev s ctx in rw (d.0, d.1) (keeps.on_event ev s ctx e h.0, h.1)
  dispatch-HoldsIn ev (s ∷ t ∷ more) running ctx e h = absurd h

  message-HoldsIn :
      (msg : HomeplugMessage) (stack : List State) (ctx : Context)
      → Fine msg
      → HoldsIn Before After stack true ctx
      → let d =
          dispatch_event
            (methods lib)
            slac_message
            stack
            (record ctx { slac_message_payload = msg }) in
        HoldsIn Before After d.0 true d.1
  message-HoldsIn msg [] ctx f h = cc (h.1)
  message-HoldsIn msg (s ∷ []) ctx f h =
      let d = dispatch-single lib slac_message s (record ctx { slac_message_payload = msg }) in
      rw (d.0, d.1) (keeps.on_message msg s ctx f h.0, refl)
  message-HoldsIn msg (s ∷ t ∷ more) ctx f h = absurd h

  feed-HoldsIn :
      (stack : List State) (running : Bool) (ctx : Context)
      → HoldsIn Before After stack running ctx
      → let d = feed (methods lib) stack ctx in HoldsIn Before After d.0 running d.1
  unfolding feed
  feed-HoldsIn [] running ctx h = h
  feed-HoldsIn (s ∷ []) running ctx h =
      let c = callback lib s ctx in
      split c.2 (callback_raises lib s ctx) (keeps.on_callback s ctx h.0, h.1)
    where
      split :
          (result : CallbackResult Event)
          → RaisesNoMessage result
          → HoldsIn Before After ((callback lib s ctx).0 ∷ []) running (callback lib s ctx).1
          → let c = callback lib s ctx in
            let d : List State × Context × Feed = elim result [
              | event ev ↦ dispatch_event (methods lib) ev (c.0 ∷ []) c.1
              | value v ↦ (c.0 ∷ [], c.1, v)
            ] in
            HoldsIn Before After d.0 running d.1
      split (value v) r held = held
      split (event ev) r held =
          dispatch-HoldsIn ev ((callback lib s ctx).0 ∷ []) running (callback lib s ctx).1 r held
  feed-HoldsIn (s ∷ t ∷ more) running ctx h = absurd h

  start-Holds :
      (c : Controller) → c.running ≡ false → Holds Before After c → Holds Before After (start lib c)
  unfolding start Fsm.reset push
  start-Holds c e h = go c.state_stack h
    where
      go :
          (stack : List State)
          → HoldsIn Before After stack c.running c.ctx
          → After reset_state (enter lib reset_state c.ctx).1 × (true ≡ true)
      go [] held = (keeps.at_start c.ctx held.0, refl)
      go (s ∷ []) held = cc (e, held.1)
      go (s ∷ t ∷ more) held = absurd held

  time-HoldsIn :
      (n : ℕ) (stack : List State) (running : Bool) (ctx : Context)
      → HoldsIn Before After stack running ctx
      → HoldsIn Before After stack running (record ctx { now = ctx.now + n })
  time-HoldsIn n [] running ctx h = (keeps.on_time_before n ctx h.0, h.1)
  time-HoldsIn n (s ∷ []) running ctx h = (keeps.on_time n s ctx h.0, h.1)
  time-HoldsIn n (s ∷ t ∷ more) running ctx h = absurd h

  -- A call's messages are of the kind.
  abbrev FineCall : Call → Type 0
  FineCall (message msg) = Fine msg
  FineCall call = Unit {0}

  round-Holds : (c : Controller) → Holds Before After c → Holds Before After (run_round lib c)
  unfolding run_round
  round-Holds c h = elim (Bool-cases c.new_event) [
    | inl e ↦ rw e h
    | inr e ↦ elim (Bool-cases (waits_for_event lib c.feed_result)) [
      | inl w ↦ rw (e, w) h
      | inr w ↦ rw (e, w) (feed-HoldsIn c.state_stack c.running c.ctx h)
    ]
  ]

  step-Holds :
      (call : Call) (c : Controller)
      → FineCall call
      → Holds Before After c
      → Holds Before After (step lib call c)
  unfolding step signal_new_slac_message signal_reset signal_enter_bcd signal_leave_bcd
      signal_simple_event feed_event
  step-Holds (message msg) c f h = elim (Bool-cases c.running) [
    | inl e ↦ rw e (message-HoldsIn msg c.state_stack c.ctx f (rw e at h))
    | inr e ↦ rw e (rw e at h)
  ]
  step-Holds (pass_time n) c f h = time-HoldsIn n c.state_stack c.running c.ctx h
  step-Holds reset_call c f h = dispatch-HoldsIn Event.reset c.state_stack c.running c.ctx refl h
  step-Holds enter_bcd_call c f h = dispatch-HoldsIn enter_bcd c.state_stack c.running c.ctx refl h
  step-Holds leave_bcd_call c f h = dispatch-HoldsIn leave_bcd c.state_stack c.running c.ctx refl h
  step-Holds start_call c f h = elim (Bool-cases c.running) [
    | inl e ↦ rw e (rw e at h)
    | inr e ↦ rw e (rw e at (start-Holds c e h))
  ]
  step-Holds round c f h = round-Holds c h

  run-Holds :
      (calls : List Call) (c : Controller)
      → AllFine Fine calls
      → Holds Before After c
      → Holds Before After (run lib calls c)
  unfolding run
  run-Holds [] c f h = h
  run-Holds (message msg ∷ calls) c f h =
      run-Holds calls (step lib (message msg) c) f.1 (step-Holds (message msg) c f.0 h)
  run-Holds (call ∷ calls) c f h = run-Holds calls (step lib call c) f (step-Holds call c tt h)

  -- What the construction meets holds after every history.
  pub after-Holds :
      (set_key_timeout_ms now : ℕ) (draws : ℕ → ℕ → ℕ) (calls : List Call)
      → AllFine Fine calls
      → Before (new_controller lib set_key_timeout_ms now draws).ctx
      → Holds Before After (after lib set_key_timeout_ms now draws calls)
  unfolding after new_controller
  after-Holds set_key_timeout_ms now draws calls f b =
      run-Holds calls (new_controller lib set_key_timeout_ms now draws) f (b, refl)
