-- ===== src/Slac/Transitions.antt =====
-- The transitions of the states of modules/EvseSlac: the stack has one state, and no callback raises
-- a message.
use everest_core_dev.Common.{
  ℕ, ◌≡◌, refl, Bool, true, false, Option, none, some, List, [], ◌∷◌, ◌++◌, arith,
}
use everest_core_dev.Slac.Fsm.{
  NextState, restart, pass_on, handled_internally, change, CallbackResult, value, event,
  dispatch_event, settle, ask, push, leave_all,
}
use everest_core_dev.Slac.Context.{Libslac, Context}
use everest_core_dev.Slac.Session.{MatchingSession}
use everest_core_dev.Slac.Timeouts.{
  check_sessions, check_to_end, matching_callback, remaining_milliseconds, Event, slac_message,
  retry_matching,
}
use everest_core_dev.Slac.Matching.{MatchingState}
use everest_core_dev.Slac.States.{
  State, reset_state, idle_state, matching_state, matched_state, failed_state, enter, handle_event,
  callback, leave, methods, retry,
}

module _ (lib : Libslac) where
  -- What becomes of a state and the context once the state has answered an event.
  abbrev pub arrive : State × Context × NextState State → State × Context
  arrive (s, ctx, change compound child) =
      let (s', ctx', result) = enter lib child (leave lib s ctx) in (s', ctx')
  arrive (s, ctx, restart) = (s, ctx)
  arrive (s, ctx, pass_on) = (s, ctx)
  arrive (s, ctx, handled_internally) = (s, ctx)

  abbrev pub transition : Event → State → Context → State × Context
  transition ev s ctx = arrive (handle_event lib ev s ctx)

  -- No state asks for a restart or for a compound state.
  abbrev IsPlain : NextState State → Type 0
  IsPlain restart = ⊥
  IsPlain (change (some compound) child) = ⊥
  IsPlain _ = Unit {0}

  retry-IsPlain : (m : MatchingState) (ctx : Context) → IsPlain (retry lib m ctx).2
  unfolding retry
  retry-IsPlain m ctx = ground arith

  handle_event-IsPlain :
      (ev : Event) (s : State) (ctx : Context) → IsPlain (handle_event lib ev s ctx).2
  unfolding handle_event
  handle_event-IsPlain slac_message reset_state ctx = ground arith
  handle_event-IsPlain retry_matching (matching_state m) ctx = retry-IsPlain m ctx
  handle_event-IsPlain ev reset_state ctx = ground arith
  handle_event-IsPlain ev idle_state ctx = ground arith
  handle_event-IsPlain ev matched_state ctx = ground arith
  handle_event-IsPlain ev failed_state ctx = ground arith
  handle_event-IsPlain ev (matching_state m) ctx = ground arith

  settle-single :
      (s : State) (ctx : Context) (next : NextState State)
      → IsPlain next
      → let a = arrive (s, ctx, next) in
        let d =
          settle
            (methods lib)
            (record { asked = s ∷ []; below = []; context = ctx; next = next }) in
        (d.0 ≡ a.0 ∷ []) × (d.1 ≡ a.1)
  unfolding settle push leave_all
  settle-single s ctx restart p = absurd p
  settle-single s ctx pass_on p = (refl, refl)
  settle-single s ctx handled_internally p = (refl, refl)
  settle-single s ctx (change none child) p = (refl, refl)
  settle-single s ctx (change (some compound) child) p = absurd p

  ask-single :
      (ev : Event) (s : State) (ctx : Context)
      → let h = handle_event lib ev s ctx in
        ask (methods lib) ev (s ∷ []) ctx
        ≡ record { asked = h.0 ∷ []; below = []; context = h.1; next = h.2 }
  unfolding ask
  ask-single ev s ctx = ground arith

  pub dispatch-single :
      (ev : Event) (s : State) (ctx : Context)
      → let t = transition ev s ctx in
        let d = dispatch_event (methods lib) ev (s ∷ []) ctx in (d.0 ≡ t.0 ∷ []) × (d.1 ≡ t.1)
  unfolding dispatch_event
  dispatch-single ev s ctx =
      let h = handle_event lib ev s ctx in
      rw (ask-single ev s ctx) (settle-single h.0 h.1 h.2 (handle_event-IsPlain ev s ctx))

abbrev pub is_message : Event → Bool
is_message slac_message = true
is_message _ = false

abbrev pub RaisesNoMessage : CallbackResult Event → Type 0
RaisesNoMessage (value v) = Unit {0}
RaisesNoMessage (event ev) = is_message ev ≡ false

check_sessions_raises :
    (lib : Libslac) (before sessions : List MatchingSession) (ctx : Context) (ms : Option ℕ)
    → RaisesNoMessage (check_sessions lib before sessions ctx ms).2
unfolding check_sessions
check_sessions_raises lib before [] ctx ms = tt
check_sessions_raises lib before (s ∷ more) ctx ms =
    let checked = check_to_end lib s ctx ms in
    ground (
      arith,
      check_sessions_raises lib (before ++ checked.session ∷ []) more checked.context
          checked.call_back_ms,
    )

pub callback_raises :
    (lib : Libslac) (s : State) (ctx : Context) → RaisesNoMessage (callback lib s ctx).2
unfolding callback matching_callback
callback_raises lib reset_state ctx = tt
callback_raises lib idle_state ctx = tt
callback_raises lib matched_state ctx = tt
callback_raises lib failed_state ctx = tt
callback_raises lib (matching_state m) ctx = ground (
  arith,
  check_sessions_raises lib [] m.sessions ctx none,
  check_sessions_raises lib [] m.sessions ctx
      (some (remaining_milliseconds m.timeout_slac_parm_req ctx.now)),
)
