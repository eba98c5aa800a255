-- ===== src/Slac/Exchanges.antt =====
-- The whole exchange of the matching of modules/EvseSlac, with one EV.
use everest_core_dev.Common.{
  ℕ, suc, ◌+◌, ◌<◌, ◌≡◌, refl, sym, true, false, Option, none, List, [], ◌∷◌, ◌++◌, arith, ltb, map,
  length, ◌==◌, ap,
}
use everest_core_dev.Slac.Fsm.{event_handled_internally, dispatch_event, feed}
use everest_core_dev.Slac.Context.{Libslac, Context, Payload}
use everest_core_dev.Slac.Session.{MatchingSession, MatchingSubState, finalize_sounding}
use everest_core_dev.Slac.Matching.{
  on_session, handle_payload, handle_cm_atten_profile_ind, handle_cm_atten_char_rsp,
  handle_cm_slac_match_req, capture, await_match, confirm_match,
}
use everest_core_dev.Slac.Timeouts.{check_session, check_to_end, check_sessions, matching_callback}
use everest_core_dev.Slac.States.{enter, handle_event, callback, leave}
use everest_core_dev.Slac.Controller.{Controller, run_round}
use mathlib.Core.Path.{subst}
use everest_core_dev.Slac.Histories.{Call, enter_bcd_call, round, step, run}
use everest_core_dev.Slac.Steps.{
  says, InMatching, IsMatchedNow, IsIdle, begun, payload_step, proceed, begin, begin_sounding,
  find-alone, find_last-alone,
}

-- An EV's part of the matching: the calls up to the sounding, the sounds, and those after it.
abbrev pub exchange : ℕ → ℕ → ℕ → List (List ℕ) → List Call
exchange mac run_id groups sounds =
    enter_bcd_call
    ∷ says mac (Payload.cm_slac_parm_req run_id)
    ∷ says mac (Payload.cm_start_atten_char_ind run_id)
    ∷ (map (λ aag. says mac (Payload.cm_atten_profile_ind mac groups aag)) sounds
        ++ says mac (Payload.cm_atten_char_rsp run_id)
          ∷ says mac (Payload.cm_slac_match_req run_id)
          ∷ round
          ∷ round
          ∷ [])

module _ (lib : Libslac) (mac run_id : ℕ) where
  abbrev sound : List ℕ → Call
  sound aag = says mac (Payload.cm_atten_profile_ind mac lib.aag_list_len aag)

  sound_more :
      (n : ℕ) (aag : List ℕ) (c : Controller)
      → suc n < lib.cm_slac_parm_cnf_num_sounds
      → InMatching mac run_id MatchingSubState.sounding n c
      → InMatching mac run_id MatchingSubState.sounding (suc n) (step lib (sound aag) c)
  unfolding handle_payload handle_cm_atten_profile_ind capture
  sound_more n aag c more i =
      let left : ltb (suc i.session.captured_sounds) lib.cm_slac_parm_cnf_num_sounds ≡ true =
        rw i.its_sounds (ground arith) in
      let same : (lib.aag_list_len == lib.aag_list_len) ≡ true = ground arith in
      proceed lib mac run_id (Payload.cm_atten_profile_ind mac lib.aag_list_len aag)
        MatchingSubState.sounding MatchingSubState.sounding n (suc n) c i
        (capture lib aag i.session c.ctx).0
        (rw
          (find_last-alone lib mac run_id c i, i.its_state, same, left, handle_cm_atten_profile_ind)
          refl)
        (rw (find_last-alone lib mac run_id c i, i.its_state, same, handle_cm_atten_profile_ind)
          i.asked)
        (rw (left, capture) (i.its_mac, i.its_run, i.its_state, ap suc i.its_sounds, i.its_timeout))

  sound_last :
      (n : ℕ) (aag : List ℕ) (c : Controller)
      → suc n ≡ lib.cm_slac_parm_cnf_num_sounds
      → InMatching mac run_id MatchingSubState.sounding n c
      → InMatching mac run_id MatchingSubState.wait_for_atten_char_rsp
          (suc n)
          (step lib (sound aag) c)
  unfolding handle_payload handle_cm_atten_profile_ind capture finalize_sounding
  sound_last n aag c last i =
      let left : ltb (suc i.session.captured_sounds) lib.cm_slac_parm_cnf_num_sounds ≡ false =
        rw i.its_sounds (ground arith) in
      let same : (lib.aag_list_len == lib.aag_list_len) ≡ true = ground arith in
      proceed lib mac run_id (Payload.cm_atten_profile_ind mac lib.aag_list_len aag)
        MatchingSubState.sounding MatchingSubState.wait_for_atten_char_rsp n (suc n) c i
        (capture lib aag i.session c.ctx).0
        (rw
          (find_last-alone lib mac run_id c i, i.its_state, same, left, handle_cm_atten_profile_ind)
          refl)
        (rw (find_last-alone lib mac run_id c i, i.its_state, same, handle_cm_atten_profile_ind)
          i.asked)
        (rw (left, capture) (i.its_mac, i.its_run, refl, ap suc i.its_sounds, refl))

  -- As many sounds as are asked for end the sounding.
  all_sounds :
      (n : ℕ) (aag : List ℕ) (more : List (List ℕ)) (c : Controller)
      → n + suc (length more) ≡ lib.cm_slac_parm_cnf_num_sounds
      → InMatching mac run_id MatchingSubState.sounding n c
      → InMatching mac run_id MatchingSubState.wait_for_atten_char_rsp
          lib.cm_slac_parm_cnf_num_sounds
          (run lib (map sound (aag ∷ more)) c)
  unfolding run
  all_sounds n aag [] c e i =
      let last : suc n ≡ lib.cm_slac_parm_cnf_num_sounds = omega arith in
      subst
        (λ k.
          InMatching mac run_id MatchingSubState.wait_for_atten_char_rsp k (step lib (sound aag) c))
        last (sound_last n aag c last i)
  all_sounds n aag (next ∷ more) c e i =
      all_sounds (suc n) next more (step lib (sound aag) c) (omega arith)
        (sound_more n aag c (omega arith) i)

  respond :
      (n : ℕ) (c : Controller)
      → InMatching mac run_id MatchingSubState.wait_for_atten_char_rsp n c
      → InMatching mac run_id MatchingSubState.wait_for_slac_match n
          (step lib (says mac (Payload.cm_atten_char_rsp run_id)) c)
  unfolding handle_payload handle_cm_atten_char_rsp await_match
  respond n c i =
      proceed lib mac run_id (Payload.cm_atten_char_rsp run_id)
        MatchingSubState.wait_for_atten_char_rsp MatchingSubState.wait_for_slac_match n n c i
        (await_match lib i.session c.ctx).0
        (rw (find-alone lib mac run_id c i, i.its_state, on_session) refl)
        (rw (find-alone lib mac run_id c i, i.its_state, on_session) i.asked)
        (i.its_mac, i.its_run, refl, i.its_sounds, refl)

  request_match :
      (n : ℕ) (c : Controller)
      → InMatching mac run_id MatchingSubState.wait_for_slac_match n c
      → InMatching mac run_id MatchingSubState.match_complete n
          (step lib (says mac (Payload.cm_slac_match_req run_id)) c)
  unfolding handle_payload handle_cm_slac_match_req confirm_match
  request_match n c i =
      proceed lib mac run_id (Payload.cm_slac_match_req run_id) MatchingSubState.wait_for_slac_match
        MatchingSubState.match_complete n n c i (confirm_match lib mac run_id i.session c.ctx).0
        (rw (find-alone lib mac run_id c i, i.its_state, on_session) refl)
        (rw (find-alone lib mac run_id c i, i.its_state, on_session) i.asked)
        (i.its_mac, i.its_run, refl, i.its_sounds, refl)

  check-completes :
      (s : MatchingSession) (ctx : Context) (ms : Option ℕ)
      → s.timeout_active ≡ true
      → s.state ≡ MatchingSubState.match_complete
      → check_to_end lib s ctx ms
        ≡ record { session = s; context = ctx; call_back_ms = ms; completes = true }
  unfolding check_to_end check_session
  check-completes s ctx ms e f = rw (check_to_end, e, f) refl

  complete :
      (n : ℕ) (c : Controller)
      → InMatching mac run_id MatchingSubState.match_complete n c
      → c.new_event ≡ true
      → c.feed_result ≡ event_handled_internally
      → IsMatchedNow (step lib round (step lib round c))
  unfolding step run_round feed callback matching_callback check_sessions dispatch_event
      handle_event enter leave
  complete n c i new fed_last =
      let checked = check-completes i.session c.ctx none i.its_timeout i.its_state in
      rw
        (
          new, fed_last, i.on_top, i.asked, i.alone, checked, feed, matching_callback,
          check_sessions,
        )
        (record { on_top = refl; said = refl })

  run-append :
      (first then_calls : List Call) (c : Controller)
      → run lib (first ++ then_calls) c ≡ run lib then_calls (run lib first c)
  unfolding run
  run-append [] then_calls c = refl
  run-append (call ∷ first) then_calls c = run-append first then_calls (step lib call c)

  finish :
      (n : ℕ) (c : Controller)
      → InMatching mac run_id MatchingSubState.wait_for_atten_char_rsp n c
      → IsMatchedNow (
          run lib
            (says mac (Payload.cm_atten_char_rsp run_id)
              ∷ says mac (Payload.cm_slac_match_req run_id)
              ∷ round
              ∷ round
              ∷ [])
            c)
  unfolding run
  finish n c i =
      let c' = step lib (says mac (Payload.cm_atten_char_rsp run_id)) c in
      let j = respond n c i in
      let p =
        payload_step lib mac run_id (Payload.cm_slac_match_req run_id) j.matching c' j.is_running
          j.on_top in
      complete n (step lib (says mac (Payload.cm_slac_match_req run_id)) c') (request_match n c' j)
        p.3 p.4

-- From a controller that is idle, the messages of one EV in their order, with as many sounds as are
-- asked for, at least one, and then two rounds of the thread, lead to the matched state, in which
-- the data link was said to be ready.
pub exchange-IsMatchedNow :
    (lib : Libslac) (mac run_id : ℕ) (aag : List ℕ) (more : List (List ℕ)) (c : Controller)
    (idle : IsIdle c) (enough : suc (length more) ≡ lib.cm_slac_parm_cnf_num_sounds)
    → IsMatchedNow (run lib (exchange mac run_id lib.aag_list_len (aag ∷ more)) c)
unfolding run
exchange-IsMatchedNow lib mac run_id aag more c idle enough =
    let started =
      step lib (says mac (Payload.cm_start_atten_char_ind run_id)) (begun lib mac run_id c) in
    let heard = map (sound lib mac run_id) (aag ∷ more) in
    let last =
      says mac (Payload.cm_atten_char_rsp run_id)
      ∷ says mac (Payload.cm_slac_match_req run_id)
      ∷ round
      ∷ round
      ∷ [] in
    subst IsMatchedNow (sym (run-append lib mac run_id heard last started)) (
      finish lib mac run_id lib.cm_slac_parm_cnf_num_sounds (run lib heard started) (
        all_sounds lib mac run_id 0 aag more started (omega arith)
          (begin_sounding lib mac run_id (begun lib mac run_id c) (begin lib mac run_id c idle))))
