-- ===== src/Slac/States.antt =====
-- The states of modules/EvseSlac/main/states: others.cpp, and `enter` and `handle_event` of
-- matching.cpp.
use everest_core_dev.Common.{suc, ◌+◌, Bool, true, false, none, [], ◌==◌, if◌then◌else◌}
use everest_core_dev.Slac.Fsm.{
  Feed, wait, do_not_call_me_again, CallbackResult, value, NextState, pass_on, handled_internally,
  change, Methods,
}
use everest_core_dev.Slac.Context.{
  Libslac, Context, StateName, unmatched, matched, Payload, cm_set_key_cnf, send_set_key_req,
  signal_state, signal_dlink_ready, signal_error_routine_request, emit, milliseconds, generate_nmk,
}
use everest_core_dev.Slac.Matching.{MatchingState, handle_slac_message}
use everest_core_dev.Slac.Timeouts.{
  Event, reset, enter_bcd, slac_message, retry_matching, matching_callback,
}

pub data State : Type 0 where
  reset_state idle_state matched_state failed_state : State
  matching_state : MatchingState → State

-- A `MatchingState` that is not entered yet. Its timeout has the clock's epoch.
abbrev pub new_matching : MatchingState
new_matching = record {
  sessions = [];
  timeout_slac_parm_req = 0;
  seen_slac_parm_req = false;
  num_retries = 0;
}

abbrev pub is_set_key_cnf : Payload → Bool
is_set_key_cnf cm_set_key_cnf = true
is_set_key_cnf _ = false

abbrev pub become : State → NextState State
become s = change none s

module _ (lib : Libslac) where
  abbrev pub start_timeout : MatchingState → Context → MatchingState
  start_timeout m ctx = record m {
    timeout_slac_parm_req = ctx.now + milliseconds lib.tt_evse_slac_init_ms;
  }

  unfoldable pub enter : State → Context → State × Context × Feed
  enter reset_state ctx = (
    reset_state,
    emit (send_set_key_req ctx.plc_peer_mac (lib.nid_of ctx.session_nmk) ctx.session_nmk) ctx,
    wait ctx.set_key_timeout_ms,
  )
  enter idle_state ctx = (idle_state, emit (signal_state unmatched) ctx, do_not_call_me_again)
  enter (matching_state m) ctx = (
    matching_state (start_timeout m ctx),
    emit (signal_state StateName.matching) ctx,
    wait lib.tt_evse_slac_init_ms,
  )
  enter matched_state ctx = (
    matched_state,
    emit (signal_dlink_ready true) (emit (signal_state matched) ctx),
    do_not_call_me_again,
  )
  enter failed_state ctx =
      (failed_state, emit signal_error_routine_request ctx, do_not_call_me_again)

  -- `RETRY_MATCHING`.
  unfoldable pub retry : MatchingState → Context → State × Context × NextState State
  retry m ctx =
      let tried = record m { num_retries = suc m.num_retries } in
      if tried.num_retries == lib.c_ev_match_retry
      then (matching_state tried, ctx, become failed_state)
      else (matching_state (start_timeout tried ctx), ctx, handled_internally)

  unfoldable pub handle_event : Event → State → Context → State × Context × NextState State
  unfolding handle_slac_message retry
  handle_event slac_message reset_state ctx = (
    reset_state,
    ctx,
    if is_set_key_cnf ctx.slac_message_payload.payload then become idle_state else pass_on,
  )
  handle_event enter_bcd idle_state ctx = (idle_state, ctx, become (matching_state new_matching))
  handle_event slac_message (matching_state m) ctx =
      let (m', ctx') = handle_slac_message lib ctx.slac_message_payload m ctx in
      (matching_state m', ctx', handled_internally)
  handle_event Event.match_complete (matching_state m) ctx =
      (matching_state m, ctx, become matched_state)
  handle_event retry_matching (matching_state m) ctx = retry m ctx
  handle_event Event.failed (matching_state m) ctx = (matching_state m, ctx, become failed_state)
  handle_event reset s ctx = (s, ctx, become reset_state)
  handle_event _ s ctx = (s, ctx, pass_on)

  -- A timeout of the reset state is only logged.
  unfoldable pub callback : State → Context → State × Context × CallbackResult Event
  unfolding matching_callback
  callback (matching_state m) ctx =
      let (m', ctx', result) = matching_callback lib m ctx in (matching_state m', ctx', result)
  callback s ctx = (s, ctx, value do_not_call_me_again)

  unfoldable pub leave : State → Context → Context
  unfolding generate_nmk
  leave matched_state ctx = emit (signal_dlink_ready false) (generate_nmk lib ctx)
  leave s ctx = ctx

  abbrev pub methods : Methods State Context Event
  methods = record {
    enter = enter;
    handle_event = handle_event;
    callback = callback;
    leave = leave;
  }
