-- ===== src/Slac/Confirmations.antt =====
-- What the sessions and the messages of modules/EvseSlac keep over every history: the sounding comes
-- before the match, and the averages fit in their bytes.
use everest_core_dev.Common.{
  ℕ, ◌<◌, ◌≡◌, refl, sym, Bool, true, false, List, ◌∷◌, arith, ◌==◌, inl, inr, Bool-cases,
  Option-cases,
}
use mathlib.Core.Path.{subst}
use everest_core_dev.Slac.Context.{
  Libslac, Context, HomeplugMessage, Payload, Output, send_slac_parm_cnf, cm_atten_profile_ind,
}
use everest_core_dev.Slac.Session.{
  MatchingSession, MatchingSubState, is_identified_by, new_session, set_next_timeout,
}
use everest_core_dev.Slac.Matching.{
  MatchingState, find_session, find_last, on_session, start_sounding, await_match, confirm_match,
  capture, handle_cm_slac_parm_req, handle_cm_start_atten_char_ind, handle_cm_mnbc_sound_ind,
  handle_cm_atten_profile_ind, handle_cm_atten_char_rsp, handle_cm_slac_match_req,
  handle_cm_validate_req, handle_payload, is_waiting, is_sounding, awaits_rsp, awaits_match,
}
use everest_core_dev.Slac.Places.{
  AllOf-map, append-AllOf, find_session-some, find_session-none, find_last-some,
}
use everest_core_dev.Slac.Soundings.{is_sounded, IsHeard, AllAtMost, new_session-IsHeard}
use everest_core_dev.Slac.Orders.{
  IsOrdered, Follows, Follows-IsOrdered, keep-IsHeard, start-Follows, mnbc-Follows,
  await_match-Follows, confirm-Follows, capture-Follows,
}

-- The attenuations of a message are bytes.
abbrev pub IsInBytes : HomeplugMessage → Type 0
IsInBytes msg = elim msg.payload [
  | cm_atten_profile_ind pev_mac num_groups aag ↦ AllAtMost 255 aag
  | _ ↦ Unit {0}
]

module _ (lib : Libslac) where
  -- What a handler does to the session that it finds.
  on_session-IsOrdered :
      (mac run_id : ℕ) (expects : MatchingSubState → Bool)
      (act : MatchingSession → Context → MatchingSession × Context) (m : MatchingState)
      (ctx : Context)
      → ((s : MatchingSession)
          → s.ev_mac ≡ mac
          → s.run_id ≡ run_id
          → expects s.state ≡ true
          → IsHeard lib ctx.out s
          → Follows lib s ctx (act s ctx).0 (act s ctx).1)
      → IsOrdered lib m.sessions ctx
      → let r = on_session lib mac run_id expects act m ctx in IsOrdered lib r.0.sessions r.1
  unfolding find_session
  on_session-IsOrdered mac run_id expects act m ctx f o =
      elim (Option-cases (find_session mac run_id m.sessions)) [
        | inl absent ↦ rw (absent, on_session) o
        | inr (place, found) ↦ elim (Bool-cases (expects place.1.state)) [
          | inr other ↦ rw (found, other, on_session) o
          | inl right ↦
              let p = find_session-some mac run_id m.sessions place found in
              rw (found, right, on_session)
                (Follows-IsOrdered lib place.0 place.2 place.1 (act place.1 ctx).0 ctx
                  (act place.1 ctx).1 (subst (λ xs. IsOrdered lib xs ctx) p.0 o)
                  (λ h. f place.1 p.1 p.2 right h))
        ]
      ]

  confirmed-others :
      (mac run_id : ℕ) (t : MatchingSession) (out : List Output)
      → is_identified_by mac run_id t ≡ false
      → is_sounded t.ev_mac t.run_id (send_slac_parm_cnf mac run_id ∷ out)
        ≡ is_sounded t.ev_mac t.run_id out
  confirmed-others mac run_id t out e = ground arith

  abbrev fresh : ℕ → ℕ → Context → MatchingSession
  fresh mac run_id ctx =
      set_next_timeout ctx.now lib.tt_match_sequence_ms (new_session lib mac run_id)

  module _ (pos : 0 < lib.cm_slac_parm_cnf_num_sounds) where
    fresh-IsHeard :
        (mac run_id : ℕ) (ctx : Context) (out : List Output)
        → IsHeard lib out (fresh mac run_id ctx)
    unfolding new_session
    fresh-IsHeard mac run_id ctx out =
        new_session-IsHeard lib out (fresh mac run_id ctx) pos refl refl refl

    parm_req-IsOrdered :
        (mac run_id : ℕ) (m : MatchingState) (ctx : Context)
        → IsOrdered lib m.sessions ctx
        → let r = handle_cm_slac_parm_req lib mac run_id m ctx in IsOrdered lib r.0.sessions r.1
    unfolding handle_cm_slac_parm_req new_session
    parm_req-IsOrdered mac run_id m ctx o =
        let next = handle_cm_slac_parm_req lib mac run_id m ctx in
        let s' = fresh mac run_id ctx in
        elim (Option-cases (find_session mac run_id m.sessions)) [
          | inl absent ↦
              let r =
                append-AllOf s' (IsHeard lib ctx.out) (IsHeard lib next.1.out)
                  (fresh-IsHeard mac run_id ctx next.1.out)
                  (λ t d h.
                    keep-IsHeard lib ctx.out next.1.out t (confirmed-others mac run_id t ctx.out d)
                      h)
                  m.sessions (find_session-none mac run_id m.sessions absent) o.0 o.1 in
              rw (absent, handle_cm_slac_parm_req) (r.0, r.1, o.2)
          | inr (place, found) ↦
              let p = find_session-some mac run_id m.sessions place found in
              rw (found, handle_cm_slac_parm_req)
                (Follows-IsOrdered lib place.0 place.2 place.1 s' ctx next.1
                  (subst (λ xs. IsOrdered lib xs ctx) p.0 o)
                  (λ h. record {
                    heard = fresh-IsHeard mac run_id ctx next.1.out;
                    same_mac = sym p.1;
                    same_run = sym p.2;
                    ordered = o.2;
                    others = λ t d. confirmed-others mac run_id t ctx.out (rw (sym p.1, sym p.2) d);
                  }))
        ]

    profile-IsOrdered :
        (pev_mac num_groups : ℕ) (aag : List ℕ) (m : MatchingState) (ctx : Context)
        → AllAtMost 255 aag
        → IsOrdered lib m.sessions ctx
        → let r = handle_cm_atten_profile_ind lib pev_mac num_groups aag m ctx in
          IsOrdered lib r.0.sessions r.1
    unfolding handle_cm_atten_profile_ind
    profile-IsOrdered pev_mac num_groups aag m ctx f o =
        elim (Option-cases (find_last pev_mac m.sessions)) [
          | inl absent ↦ rw (absent, handle_cm_atten_profile_ind) o
          | inr (place, found) ↦ elim (Bool-cases (is_sounding place.1.state)) [
            | inr other ↦ rw (found, other, handle_cm_atten_profile_ind) o
            | inl right ↦ elim (Bool-cases (num_groups == lib.aag_list_len)) [
              | inr other ↦ rw (found, right, other, handle_cm_atten_profile_ind) o
              | inl length_ok ↦
                  let r = capture lib aag place.1 ctx in
                  rw (found, right, length_ok, handle_cm_atten_profile_ind)
                    (Follows-IsOrdered lib place.0 place.2 place.1 r.0 ctx r.1
                      (subst (λ xs. IsOrdered lib xs ctx)
                        (find_last-some pev_mac m.sessions place found) o)
                      (λ h. capture-Follows lib place.1 ctx o.2 aag right f h))
            ]
          ]
        ]

    pub payload-IsOrdered :
        (mac : ℕ) (payload : Payload) (m : MatchingState) (ctx : Context)
        → IsInBytes (record { src_mac = mac; payload = payload })
        → IsOrdered lib m.sessions ctx
        → let r = handle_payload lib mac payload m ctx in IsOrdered lib r.0.sessions r.1
    unfolding handle_payload handle_cm_start_atten_char_ind handle_cm_mnbc_sound_ind
        handle_cm_atten_char_rsp handle_cm_slac_match_req handle_cm_validate_req
    payload-IsOrdered mac (Payload.cm_slac_parm_req run_id) m ctx f o =
        parm_req-IsOrdered mac run_id m ctx o
    payload-IsOrdered mac (Payload.cm_start_atten_char_ind run_id) m ctx f o =
        on_session-IsOrdered mac run_id is_waiting (start_sounding lib) m ctx
          (λ s a b e h. start-Follows lib s ctx o.2 e h) o
    payload-IsOrdered mac (Payload.cm_mnbc_sound_ind run_id) m ctx f o =
        on_session-IsOrdered mac run_id is_sounding
          (λ s c. (record s { received_mnbc_sound = true }, c)) m ctx
          (λ s a b e h. mnbc-Follows lib s ctx o.2 h) o
    payload-IsOrdered mac (Payload.cm_atten_profile_ind pev_mac num_groups aag) m ctx f o =
        profile-IsOrdered pev_mac num_groups aag m ctx f o
    payload-IsOrdered mac (Payload.cm_atten_char_rsp run_id) m ctx f o =
        on_session-IsOrdered mac run_id awaits_rsp (await_match lib) m ctx
          (λ s a b e h. await_match-Follows lib s ctx o.2 e h) o
    payload-IsOrdered mac (Payload.cm_slac_match_req run_id) m ctx f o =
        on_session-IsOrdered mac run_id awaits_match (confirm_match lib mac run_id) m ctx
          (λ s a b e h. confirm-Follows lib s ctx o.2 mac run_id a b e h) o
    payload-IsOrdered mac Payload.cm_validate_req m ctx f o =
        let out' = (handle_payload lib mac Payload.cm_validate_req m ctx).1.out in
        (
          o.0,
          AllOf-map (IsHeard lib ctx.out) (IsHeard lib out') m.sessions
              (λ s h. keep-IsHeard lib ctx.out out' s refl h) o.1,
          o.2,
        )
    payload-IsOrdered mac Payload.cm_set_key_cnf m ctx f o = o
    payload-IsOrdered mac Payload.other_message m ctx f o = o
