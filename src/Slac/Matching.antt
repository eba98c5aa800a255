-- ===== src/Slac/Matching.antt =====
-- The messages of the matching, modules/EvseSlac/main/states/matching_handle_slac.cpp. A handler
-- that changes a session finds it in the vector and writes it back there.
use everest_core_dev.Common.{
  ℕ, suc, ◌+◌, Bool, true, false, not, Option, none, some, List, [], ◌∷◌, ◌++◌, ◌==◌, ltb,
  if◌then◌else◌,
}
use everest_core_dev.Slac.Context.{
  Libslac, Context, HomeplugMessage, Payload, send_slac_parm_cnf, send_slac_match_cnf,
  send_validate_cnf, signal_cm_slac_parm_req, signal_cm_slac_match_cnf, emit, cm_slac_parm_req,
  cm_start_atten_char_ind, cm_mnbc_sound_ind, cm_atten_profile_ind, cm_atten_char_rsp,
  cm_slac_match_req, cm_validate_req, cm_set_key_cnf, other_message,
}
use everest_core_dev.Slac.Session.{
  MatchingSession, MatchingSubState, new_session, set_next_timeout, is_identified_by,
  finalize_sounding, wait_for_start_atten_char, sounding, wait_for_atten_char_rsp,
  wait_for_slac_match, match_complete,
}

-- The members of `MatchingState`; `tmp_ev_mac` is an argument of the handlers.
pub record MatchingState : Type 0 where
  pub sessions : List MatchingSession
  pub timeout_slac_parm_req : ℕ
  pub seen_slac_parm_req : Bool
  pub num_retries : ℕ

-- `find_session`, as the sessions before the one that is found, that one, and those after it.
abbrev pub Place : Type 0
Place = List MatchingSession × MatchingSession × List MatchingSession

abbrev pub further : MatchingSession → Option Place → Option Place
further s none = none
further s (some (before, found, after)) = some (s ∷ before, found, after)

unfoldable pub find_session : ℕ → ℕ → List MatchingSession → Option Place
find_session ev_mac run_id [] = none
find_session ev_mac run_id (s ∷ more) =
    let later = further s (find_session ev_mac run_id more) in
    if is_identified_by ev_mac run_id s then some ([], s, more) else later

-- The loop of `handle_cm_atten_profile_ind` keeps the last session of the EV.
unfoldable pub find_last : ℕ → List MatchingSession → Option Place
find_last ev_mac [] = none
find_last ev_mac (s ∷ more) = elim (find_last ev_mac more) [
  | some place ↦ further s (some place)
  | none ↦ if ev_mac == s.ev_mac then some ([], s, more) else none
]

abbrev pub replace : Place → MatchingSession → List MatchingSession
replace (before, found, after) s = before ++ s ∷ after

abbrev pub with_sessions : List MatchingSession → MatchingState → MatchingState
with_sessions sessions m = record m { sessions = sessions }

abbrev pub is_waiting : MatchingSubState → Bool
is_waiting wait_for_start_atten_char = true
is_waiting _ = false

abbrev pub is_sounding : MatchingSubState → Bool
is_sounding sounding = true
is_sounding _ = false

abbrev pub awaits_rsp : MatchingSubState → Bool
awaits_rsp wait_for_atten_char_rsp = true
awaits_rsp _ = false

abbrev pub awaits_match : MatchingSubState → Bool
awaits_match wait_for_slac_match = true
awaits_match _ = false

module _ (lib : Libslac) where
  unfoldable pub handle_cm_slac_parm_req : ℕ → ℕ → MatchingState → Context → MatchingState × Context
  unfolding find_session new_session
  handle_cm_slac_parm_req mac run_id m ctx =
      let fresh = set_next_timeout ctx.now lib.tt_match_sequence_ms (new_session lib mac run_id) in
      let sessions = elim (find_session mac run_id m.sessions) as (λ p. List MatchingSession) [
        | some place ↦ replace place fresh
        | none ↦ m.sessions ++ fresh ∷ []
      ] in
      (
        record m { sessions = sessions; seen_slac_parm_req = true },
        emit (signal_cm_slac_parm_req mac) (emit (send_slac_parm_cnf mac run_id) ctx),
      )

  -- A handler of a message with a run id: its session, if it is in the right state, is changed.
  abbrev pub on_session :
      ℕ
      → ℕ
      → (MatchingSubState → Bool)
      → (MatchingSession → Context → MatchingSession × Context)
      → MatchingState
      → Context
      → MatchingState × Context
  on_session mac run_id expects act m ctx = elim (find_session mac run_id m.sessions) [
    | none ↦ (m, ctx)
    | some place ↦
        if not (expects place.1.state)
        then (m, ctx)
        else let (s', ctx') = act place.1 ctx in (with_sessions (replace place s') m, ctx')
  ]

  unfoldable pub start_sounding : MatchingSession → Context → MatchingSession × Context
  start_sounding s ctx =
      (set_next_timeout ctx.now lib.tt_evse_match_mnbc_ms (record s { state = sounding }), ctx)

  unfoldable pub handle_cm_start_atten_char_ind :
      ℕ → ℕ → MatchingState → Context → MatchingState × Context
  unfolding find_session start_sounding
  handle_cm_start_atten_char_ind mac run_id = on_session mac run_id is_waiting start_sounding

  unfoldable pub handle_cm_mnbc_sound_ind :
      ℕ → ℕ → MatchingState → Context → MatchingState × Context
  unfolding find_session
  handle_cm_mnbc_sound_ind mac run_id =
      on_session mac run_id is_sounding (λ s ctx. (record s { received_mnbc_sound = true }, ctx))

  unfoldable pub add_aags : List ℕ → List ℕ → List ℕ
  add_aags [] aag = []
  add_aags (x ∷ xs) [] = x ∷ xs
  add_aags (x ∷ xs) (y ∷ ys) = (x + y) ∷ add_aags xs ys

  unfoldable pub capture : List ℕ → MatchingSession → Context → MatchingSession × Context
  unfolding add_aags finalize_sounding
  capture aag s ctx =
      let heard = record s {
        captured_aags = add_aags s.captured_aags aag;
        captured_sounds = suc s.captured_sounds;
      } in
      if ltb heard.captured_sounds lib.cm_slac_parm_cnf_num_sounds
      then (heard, ctx)
      else finalize_sounding lib heard ctx

  unfoldable pub handle_cm_atten_profile_ind :
      ℕ → ℕ → List ℕ → MatchingState → Context → MatchingState × Context
  unfolding find_last capture
  handle_cm_atten_profile_ind pev_mac num_groups aag m ctx = elim (find_last pev_mac m.sessions) [
    | none ↦ (m, ctx)
    | some place ↦
        if not (is_sounding place.1.state)
        then (m, ctx)
        else if not (num_groups == lib.aag_list_len)
        then (m, ctx)
        else let (s', ctx') = capture aag place.1 ctx in (with_sessions (replace place s') m, ctx')
  ]

  unfoldable pub await_match : MatchingSession → Context → MatchingSession × Context
  await_match s ctx = (
    set_next_timeout ctx.now lib.tt_evse_match_session_ms
        (record s { state = wait_for_slac_match }),
    ctx,
  )

  unfoldable pub handle_cm_atten_char_rsp :
      ℕ → ℕ → MatchingState → Context → MatchingState × Context
  unfolding find_session await_match
  handle_cm_atten_char_rsp mac run_id = on_session mac run_id awaits_rsp await_match

  unfoldable pub handle_cm_validate_req : ℕ → Context → Context
  handle_cm_validate_req mac ctx = emit (send_validate_cnf mac) ctx

  -- The confirmation has the network id and the key of the context. What it copies from the request
  -- besides the run id is left out.
  unfoldable pub confirm_match : ℕ → ℕ → MatchingSession → Context → MatchingSession × Context
  confirm_match mac run_id s ctx = (
    set_next_timeout ctx.now 0 (record s { state = match_complete }),
    emit (signal_cm_slac_match_cnf mac)
        (emit (send_slac_match_cnf mac run_id (lib.nid_of ctx.session_nmk) ctx.session_nmk) ctx),
  )

  unfoldable pub handle_cm_slac_match_req :
      ℕ → ℕ → MatchingState → Context → MatchingState × Context
  unfolding find_session confirm_match
  handle_cm_slac_match_req mac run_id =
      on_session mac run_id awaits_match (confirm_match mac run_id)

  -- The switch of `handle_slac_message`.
  unfoldable pub handle_payload : ℕ → Payload → MatchingState → Context → MatchingState × Context
  unfolding handle_cm_slac_parm_req handle_cm_start_atten_char_ind handle_cm_mnbc_sound_ind
      handle_cm_atten_profile_ind handle_cm_atten_char_rsp handle_cm_slac_match_req
      handle_cm_validate_req
  handle_payload mac (cm_slac_parm_req run_id) = handle_cm_slac_parm_req mac run_id
  handle_payload mac (cm_start_atten_char_ind run_id) = handle_cm_start_atten_char_ind mac run_id
  handle_payload mac (cm_mnbc_sound_ind run_id) = handle_cm_mnbc_sound_ind mac run_id
  handle_payload mac (cm_atten_profile_ind pev_mac num_groups aag) =
      handle_cm_atten_profile_ind pev_mac num_groups aag
  handle_payload mac (cm_atten_char_rsp run_id) = handle_cm_atten_char_rsp mac run_id
  handle_payload mac (cm_slac_match_req run_id) = handle_cm_slac_match_req mac run_id
  handle_payload mac cm_validate_req = λ m ctx. (m, handle_cm_validate_req mac ctx)
  handle_payload mac cm_set_key_cnf = λ m ctx. (m, ctx)
  handle_payload mac other_message = λ m ctx. (m, ctx)

  unfoldable pub handle_slac_message :
      HomeplugMessage → MatchingState → Context → MatchingState × Context
  unfolding handle_payload
  handle_slac_message msg = handle_payload msg.src_mac msg.payload
