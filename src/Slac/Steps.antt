-- ===== src/Slac/Steps.antt =====
-- What each message of an EV makes of the controller of modules/EvseSlac that is matching that EV.
use everest_core_dev.Common.{ℕ, ◌≡◌, refl, sym, true, some, [], ◌∷◌, arith}
use everest_core_dev.Slac.Fsm.{event_handled_internally, dispatch_event}
use everest_core_dev.Slac.Context.{Libslac, Context, Payload}
use everest_core_dev.Slac.Session.{MatchingSession, MatchingSubState, new_session, set_next_timeout}
use everest_core_dev.Slac.Matching.{
  MatchingState, on_session, find_session, find_last, handle_payload, handle_slac_message,
  handle_cm_slac_parm_req, handle_cm_start_atten_char_ind, start_sounding,
}
use everest_core_dev.Slac.States.{
  idle_state, matching_state, matched_state, enter, handle_event, leave, start_timeout,
  new_matching,
}
use everest_core_dev.Slac.Controller.{
  Controller, signal_new_slac_message, signal_simple_event, signal_enter_bcd, feed_event,
}
use everest_core_dev.Slac.Keys.{link_ready}
use everest_core_dev.Slac.Histories.{Call, message, enter_bcd_call, step}

abbrev pub says : ℕ → Payload → Call
says mac payload = message (record { src_mac = mac; payload = payload })

-- The controller is matching one EV, whose session is in the state and has captured the sounds.
pub record InMatching (mac run_id : ℕ) (state : MatchingSubState) (sounds : ℕ) (c : Controller)
    : Type 0 where
  pub matching : MatchingState
  pub session : MatchingSession
  pub is_running : c.running ≡ true
  pub on_top : c.state_stack ≡ matching_state matching ∷ []
  pub alone : matching.sessions ≡ session ∷ []
  pub asked : matching.seen_slac_parm_req ≡ true
  pub its_mac : session.ev_mac ≡ mac
  pub its_run : session.run_id ≡ run_id
  pub its_state : session.state ≡ state
  pub its_sounds : session.captured_sounds ≡ sounds
  pub its_timeout : session.timeout_active ≡ true

-- The controller reached the matched state, and said so.
pub record IsMatchedNow (c : Controller) : Type 0 where
  pub on_top : c.state_stack ≡ matched_state ∷ []
  pub said : link_ready c.ctx.out ≡ true

pub record IsIdle (c : Controller) : Type 0 where
  pub is_running : c.running ≡ true
  pub on_top : c.state_stack ≡ idle_state ∷ []

module _ (lib : Libslac) (mac run_id : ℕ) where
  abbrev pub begun : Controller → Controller
  begun c = step lib (says mac (Payload.cm_slac_parm_req run_id)) (step lib enter_bcd_call c)

  abbrev pub answered : Payload → MatchingState → Controller → MatchingState × Context
  answered payload m c =
      handle_payload lib mac payload m
        (record c.ctx { slac_message_payload = record { src_mac = mac; payload = payload } })

  pub payload_step :
      (payload : Payload) (m : MatchingState) (c : Controller)
      → c.running ≡ true
      → c.state_stack ≡ matching_state m ∷ []
      → let c' = step lib (says mac payload) c in
        (c'.running ≡ true)
        × (c'.state_stack ≡ matching_state (answered payload m c).0 ∷ [])
        × (c'.ctx ≡ (answered payload m c).1)
        × (c'.new_event ≡ true)
        × (c'.feed_result ≡ event_handled_internally)
  unfolding step signal_new_slac_message feed_event dispatch_event handle_event handle_slac_message
  payload_step payload m c r t = rw (r, t, step) (refl, refl, refl, refl, refl)

  enter_bcd_step :
      (c : Controller)
      → IsIdle c
      → let c' = step lib enter_bcd_call c in
        (c'.running ≡ true)
        × (c'.state_stack ≡ matching_state (start_timeout lib new_matching c.ctx) ∷ [])
  unfolding step signal_enter_bcd signal_simple_event feed_event dispatch_event handle_event enter
      leave
  enter_bcd_step c i = rw (i.on_top, step) (i.is_running, refl)

  -- What a message makes of the only session.
  pub proceed :
      (payload : Payload) (state state' : MatchingSubState) (n n' : ℕ) (c : Controller)
      (i : InMatching mac run_id state n c) (s' : MatchingSession)
      → (answered payload i.matching c).0.sessions ≡ s' ∷ []
      → (answered payload i.matching c).0.seen_slac_parm_req ≡ true
      → (s'.ev_mac ≡ mac)
        × (s'.run_id ≡ run_id)
        × (s'.state ≡ state')
        × (s'.captured_sounds ≡ n')
        × (s'.timeout_active ≡ true)
      → InMatching mac run_id state' n' (step lib (says mac payload) c)
  proceed payload state state' n n' c i s' alone asked is =
      let p = payload_step payload i.matching c i.is_running i.on_top in
      record {
        matching = (answered payload i.matching c).0;
        session = s';
        is_running = p.0;
        on_top = p.1;
        alone = alone;
        asked = asked;
        its_mac = is.0;
        its_run = is.1;
        its_state = is.2;
        its_sounds = is.3;
        its_timeout = is.4;
      }

  pub begin :
      (c : Controller)
      → IsIdle c
      → InMatching mac run_id MatchingSubState.wait_for_start_atten_char 0 (begun c)
  unfolding handle_payload handle_cm_slac_parm_req find_session new_session
  begin c i =
      let entered = enter_bcd_step c i in
      let m = start_timeout lib new_matching c.ctx in
      let c' = step lib enter_bcd_call c in
      let p = payload_step (Payload.cm_slac_parm_req run_id) m c' entered.0 entered.1 in
      record {
        matching = (answered (Payload.cm_slac_parm_req run_id) m c').0;
        session = set_next_timeout c'.ctx.now lib.tt_match_sequence_ms (new_session lib mac run_id);
        is_running = p.0;
        on_top = p.1;
        alone = refl;
        asked = refl;
        its_mac = refl;
        its_run = refl;
        its_state = refl;
        its_sounds = refl;
        its_timeout = refl;
      }

  module _ {state : MatchingSubState} {n : ℕ} (c : Controller)
      (i : InMatching mac run_id state n c) where
    pub find-alone : find_session mac run_id i.matching.sessions ≡ some ([], i.session, [])
    unfolding find_session
    find-alone = rw (i.alone, sym i.its_mac, sym i.its_run) (ground arith)

    pub find_last-alone : find_last mac i.matching.sessions ≡ some ([], i.session, [])
    unfolding find_last
    find_last-alone = rw (i.alone, sym i.its_mac) (ground arith)

  pub begin_sounding :
      (c : Controller)
      → InMatching mac run_id MatchingSubState.wait_for_start_atten_char 0 c
      → InMatching mac run_id MatchingSubState.sounding 0
          (step lib (says mac (Payload.cm_start_atten_char_ind run_id)) c)
  unfolding handle_payload handle_cm_start_atten_char_ind start_sounding
  begin_sounding c i =
      proceed (Payload.cm_start_atten_char_ind run_id) MatchingSubState.wait_for_start_atten_char
        MatchingSubState.sounding 0 0 c i (start_sounding lib i.session c.ctx).0
        (rw (find-alone c i, i.its_state, on_session) refl)
        (rw (find-alone c i, i.its_state, on_session) i.asked)
        (i.its_mac, i.its_run, refl, i.its_sounds, refl)
