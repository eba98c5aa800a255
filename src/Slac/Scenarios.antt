-- ===== src/Slac/Scenarios.antt =====
-- An EV that is matched by modules/EvseSlac, in parts, and the theorems on its history.
use everest_core_dev.Common.{ℕ, ◌≡◌, refl, true, false, none, some, List, [], ◌∷◌, arith, ◌+◌}
use everest_core_dev.Slac.Fsm
use everest_core_dev.Slac.Fsm.{do_not_call_me_again}
use everest_core_dev.Slac.Context.{send_atten_char_ind, Libslac, Payload}
use everest_core_dev.Slac.Session.{new_session, MatchingSession, MatchingSubState}
use everest_core_dev.Slac.Timeouts.{check_session, check_to_end}
use everest_core_dev.Slac.States.{State, idle_state}
use everest_core_dev.Slac.Controller.{
  Controller, run_round, signal_new_slac_message, signal_enter_bcd, start,
}
use everest_core_dev.Slac.Histories.{Call, start_call, after, run}
use everest_core_dev.Slac.Invariants.{AllFine}
use everest_core_dev.Slac.Confirmations.{IsInBytes}
use everest_core_dev.Slac.Keys.{KeysAgree, modem_key, link_ready, top_is_matched, after-IsKeyed}
use everest_core_dev.Slac.Places.{IsDistinct}
use everest_core_dev.Slac.Soundings.{MatchesSounded}
use everest_core_dev.Slac.Orderly.{sessions_of, after-MatchesSounded}
use everest_core_dev.Slac.Means.{listen, listen-means}
use everest_core_dev.Slac.Rounds.{check_session-ends}
use everest_core_dev.Slac.Steps.{says, IsIdle, IsMatchedNow}
use everest_core_dev.Slac.Exchanges.{exchange, exchange-IsMatchedNow}

abbrev two_sounds : Libslac
two_sounds = record {
  tt_evse_slac_init_ms = 40000;
  tt_match_sequence_ms = 400;
  tt_evse_match_mnbc_ms = 600;
  tt_evse_match_session_ms = 10000;
  tt_match_response_ms = 200;
  c_ev_match_retry = 2;
  cm_slac_parm_cnf_num_sounds = 2;
  aag_list_len = 3;
  nmk_len = 4;
  nid_of = λ key. key;
}

abbrev draws : ℕ → ℕ → ℕ
draws seed n = seed + n

abbrev whole_matching : List Call
whole_matching =
    start_call
    ∷ says 9 Payload.cm_set_key_cnf
    ∷ exchange 5 7 3 ((10 ∷ 255 ∷ 0 ∷ []) ∷ (20 ∷ 255 ∷ 1 ∷ []) ∷ [])

after-IsKeyed_example :
    let c = after two_sounds 500 0 draws whole_matching in
    KeysAgree c.ctx.out
    × (c.running ≡ true → modem_key c.ctx.out ≡ some c.ctx.session_nmk)
    × (link_ready c.ctx.out ≡ top_is_matched c.state_stack)
after-IsKeyed_example = after-IsKeyed two_sounds 500 0 draws whole_matching

abbrev whole_matching-IsFine : AllFine IsInBytes whole_matching
whole_matching-IsFine = (
  tt,
  (
    tt,
    (
      tt,
      (
        (omega arith, (omega arith, (omega arith, tt))),
        ((omega arith, (omega arith, (omega arith, tt))), (tt, (tt, tt))),
      ),
    ),
  ),
)

after-MatchesSounded_example :
    let c = after two_sounds 500 0 draws whole_matching in
    MatchesSounded c.ctx.out × IsDistinct (sessions_of c.state_stack)
after-MatchesSounded_example =
    after-MatchesSounded two_sounds (omega arith) 500 0 draws whole_matching whole_matching-IsFine

abbrev late : MatchingSession
late = record {
  state = MatchingSubState.sounding;
  ev_mac = 5;
  run_id = 7;
  next_timeout = 1000;
  timeout_active = true;
  captured_sounds = 1;
  captured_aags = 10 ∷ 255 ∷ 0 ∷ [];
  received_mnbc_sound = true;
}

abbrev ready : Controller
ready = record {
  running = true;
  feed_result = do_not_call_me_again;
  new_event = false;
  state_stack = idle_state ∷ [];
  ctx = record {
    slac_message_payload = record { src_mac = 0; payload = Payload.other_message };
    plc_peer_mac = 9;
    session_nmk = 1 ∷ 2 ∷ 3 ∷ 4 ∷ [];
    set_key_timeout_ms = 500;
    now = 2000;
    draws = draws;
    seeds = 1;
    out = [];
  };
}

check_session-ends_example :
    check_session two_sounds 4 late ready.ctx none
    ≡ some (check_to_end two_sounds late ready.ctx none)
check_session-ends_example = check_session-ends two_sounds 4 late ready.ctx none (omega arith)

ready-IsIdle : IsIdle ready
ready-IsIdle = record { is_running = refl; on_top = refl }

exchange-IsMatchedNow_example :
    IsMatchedNow
      (run two_sounds (exchange 5 7 3 ((10 ∷ 255 ∷ 0 ∷ []) ∷ (20 ∷ 255 ∷ 1 ∷ []) ∷ [])) ready)
exchange-IsMatchedNow_example =
    exchange-IsMatchedNow two_sounds 5 7 (10 ∷ 255 ∷ 0 ∷ []) ((20 ∷ 255 ∷ 1 ∷ []) ∷ []) ready
      ready-IsIdle refl

-- What the model computes for the whole matching.
whole_matching_test :
    (after two_sounds 500 0 draws whole_matching).state_stack ≡ State.matched_state ∷ []
unfolding after run_round signal_new_slac_message signal_enter_bcd start Fsm.reset
whole_matching_test = refl

listen-means_example :
    (listen two_sounds
      ((10 ∷ 255 ∷ 0 ∷ []) ∷ (20 ∷ 255 ∷ 1 ∷ []) ∷ [])
      (record (new_session two_sounds 5 7) { state = MatchingSubState.sounding })
      ready.ctx).1.out
    ≡ send_atten_char_ind 5 7 2 (15 ∷ 255 ∷ 0 ∷ []) ∷ []
listen-means_example =
    listen-means two_sounds 5 7 (10 ∷ 255 ∷ 0 ∷ []) ((20 ∷ 255 ∷ 1 ∷ []) ∷ []) ready.ctx refl (
      refl,
      (omega arith, (omega arith, (omega arith, tt))),
      (refl, (omega arith, (omega arith, (omega arith, tt))), tt),
    )
