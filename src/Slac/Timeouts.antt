-- ===== src/Slac/Timeouts.antt =====
-- `MatchingState::callback` of modules/EvseSlac/main/states/matching.cpp. The clock stands still
-- during one call. `none` for `call_back_ms` is DO_NOT_CALL_ME_AGAIN.
use everest_core_dev.Common.{
  ℕ, zero, suc, ◌-◌, ◌/◌, ◌^◌, Bool, true, false, not, Option, none, some, List, [], ◌∷◌, ◌++◌, ltb,
  leb, if◌then◌else◌,
}
use everest_core_dev.Slac.Fsm.{Feed, wait, do_not_call_me_again, CallbackResult, value, event}
use everest_core_dev.Slac.Context.{Libslac, Context}
use everest_core_dev.Slac.Session.{
  MatchingSession, MatchingSubState, ack_timeout, all_sessions_failed, finalize_sounding, sounding,
  received_slac_match,
}
use everest_core_dev.Slac.Matching.{MatchingState}

pub data Event : Type 0 where
  reset enter_bcd leave_bcd slac_message retry_matching : Event
  match_complete failed : Event

-- `remaining_milliseconds`, and 0 for a time that is past.
abbrev pub remaining_milliseconds : ℕ → ℕ → ℕ
remaining_milliseconds timeout now = (timeout - now) / 10 ^ 6

-- The earlier of two delays.
abbrev pub sooner : Option ℕ → ℕ → Option ℕ
sooner none remaining = some remaining
sooner (some ms) remaining = if ltb remaining ms then some remaining else some ms

abbrev pub is_complete : MatchingSubState → Bool
is_complete MatchingSubState.match_complete = true
is_complete _ = false

-- What the loop over a session leaves: the session, the context, the delay, and whether it returns
-- MATCH_COMPLETE.
pub record Checked : Type 0 where
  pub session : MatchingSession
  pub context : Context
  pub call_back_ms : Option ℕ
  pub completes : Bool

module _ (lib : Libslac) where
  -- A timeout that is due, by the state of its session.
  unfoldable pub time_out : MatchingSubState → MatchingSession → Context → MatchingSession × Context
  unfolding finalize_sounding
  time_out sounding s ctx = finalize_sounding lib s ctx
  time_out received_slac_match s ctx = (s, ctx)
  time_out MatchingSubState.match_complete s ctx = (s, ctx)
  time_out MatchingSubState.failed s ctx = (s, ctx)
  time_out _ s ctx = (record s { state = MatchingSubState.failed }, ctx)

  -- The loop over one session, with fuel.
  unfoldable pub check_session : ℕ → MatchingSession → Context → Option ℕ → Option Checked
  unfolding time_out
  check_session zero s ctx ms = none
  check_session (suc fuel) s ctx ms =
      let stop : Bool → Option ℕ → Option Checked = λ completes ms'.
        some (record { session = s; context = ctx; call_back_ms = ms'; completes = completes }) in
      let remaining = remaining_milliseconds s.next_timeout ctx.now in
      let timed_out = time_out s.state (ack_timeout s) ctx in
      let again = check_session fuel timed_out.0 timed_out.1 ms in
      if not s.timeout_active
      then stop false ms
      else if is_complete s.state
      then stop true ms
      else if ltb 0 remaining
      then stop false (sooner ms remaining)
      else again

  -- Three rounds are enough.
  unfoldable pub check_to_end : MatchingSession → Context → Option ℕ → Checked
  unfolding check_session
  check_to_end s ctx ms = elim (check_session 3 s ctx ms) [
    | some checked ↦ checked
    | none ↦ record { session = s; context = ctx; call_back_ms = ms; completes = false }
  ]

  abbrev pub delay : Option ℕ → Feed
  delay none = do_not_call_me_again
  delay (some ms) = wait ms

  -- The loop over the sessions, those before and those to come.
  unfoldable pub check_sessions :
      List MatchingSession
      → List MatchingSession
      → Context
      → Option ℕ
      → List MatchingSession × Context × CallbackResult Event
  unfolding check_to_end all_sessions_failed
  check_sessions before [] ctx ms = (before, ctx, value (delay ms))
  check_sessions before (s ∷ more) ctx ms =
      let checked = check_to_end s ctx ms in
      let sessions = before ++ checked.session ∷ more in
      let later =
        check_sessions (before ++ checked.session ∷ []) more checked.context checked.call_back_ms in
      if checked.completes
      then (sessions, checked.context, event Event.match_complete)
      else if all_sessions_failed sessions
      then (sessions, checked.context, event Event.failed)
      else later

  unfoldable pub matching_callback :
      MatchingState → Context → MatchingState × Context × CallbackResult Event
  unfolding check_sessions
  matching_callback m ctx =
      let checked : Option ℕ → MatchingState × Context × CallbackResult Event = λ ms.
        let (sessions, ctx', result) = check_sessions [] m.sessions ctx ms in
        (record m { sessions = sessions }, ctx', result) in
      if m.seen_slac_parm_req
      then checked none
      else if leb m.timeout_slac_parm_req ctx.now
      then (m, ctx, event retry_matching)
      else checked (some (remaining_milliseconds m.timeout_slac_parm_req ctx.now))
