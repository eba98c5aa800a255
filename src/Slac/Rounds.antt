-- ===== src/Slac/Rounds.antt =====
-- The loops of `MatchingState::callback` of modules/EvseSlac end.
use everest_core_dev.Common.{
  ◌∙◌, Option-cases, ℕ, zero, suc, ◌≤◌, ◌≡◌, ◌≢◌, refl, true, false, Option, none, some, arith, inl,
  inr, Bool-cases, ltb,
}
use everest_core_dev.Slac.Context.{Libslac, Context}
use everest_core_dev.Slac.Session.{
  MatchingSession, MatchingSubState, ack_timeout, finalize_sounding,
}
use everest_core_dev.Slac.Timeouts.{
  check_to_end, check_session, time_out, remaining_milliseconds, is_complete,
}

module _ (lib : Libslac) where
  -- The fuels give the same, which is a result.
  abbrev Agree : ℕ → ℕ → MatchingSession → Context → Option ℕ → Type 0
  Agree more enough s ctx ms =
      (check_session lib more s ctx ms ≡ check_session lib enough s ctx ms)
      × (check_session lib enough s ctx ms ≢ none)

  inactive-Agree :
      (more enough : ℕ) (s : MatchingSession) (ctx : Context) (ms : Option ℕ)
      → s.timeout_active ≡ false
      → Agree (suc more) (suc enough) s ctx ms
  unfolding check_session
  inactive-Agree more enough s ctx ms e = rw (e, check_session) (refl, λ f. cc)

  round-Agree :
      (more enough : ℕ) (s : MatchingSession) (ctx : Context) (ms : Option ℕ)
      → (s.timeout_active ≡ true
          → is_complete s.state ≡ false
          → let t = time_out lib s.state (ack_timeout s) ctx in Agree more enough t.0 t.1 ms)
      → Agree (suc more) (suc enough) s ctx ms
  unfolding check_session
  round-Agree more enough s ctx ms h = elim (Bool-cases s.timeout_active) [
    | inr e ↦ inactive-Agree more enough s ctx ms e
    | inl e ↦ elim (Bool-cases (is_complete s.state)) [
      | inl f ↦ rw (e, f, check_session) (refl, λ g. cc)
      | inr f ↦ elim (Bool-cases (ltb 0 (remaining_milliseconds s.next_timeout ctx.now))) [
        | inl g ↦ rw (e, f, g, check_session) (refl, λ k. cc)
        | inr g ↦ rw (e, f, g, check_session) (h e f)
      ]
    ]
  ]

  time_out-Agree :
      (more enough : ℕ) (state : MatchingSubState) (s : MatchingSession) (ctx : Context)
      (ms : Option ℕ)
      → s.timeout_active ≡ false
      → is_complete state ≡ false
      → let t = time_out lib state s ctx in Agree (suc (suc more)) (suc (suc enough)) t.0 t.1 ms
  unfolding time_out finalize_sounding
  time_out-Agree more enough MatchingSubState.sounding s ctx ms e f =
      let r = finalize_sounding lib s ctx in
      round-Agree (suc more) (suc enough) r.0 r.1 ms (λ a b.
        inactive-Agree more enough
          (record r.0 { state = MatchingSubState.failed; timeout_active = false }) r.1 ms refl)
  time_out-Agree more enough MatchingSubState.match_complete s ctx ms e f = cc
  time_out-Agree more enough MatchingSubState.received_slac_match s ctx ms e f =
      inactive-Agree (suc more) (suc enough) s ctx ms e
  time_out-Agree more enough MatchingSubState.failed s ctx ms e f =
      inactive-Agree (suc more) (suc enough) s ctx ms e
  time_out-Agree more enough MatchingSubState.wait_for_start_atten_char s ctx ms e f =
      inactive-Agree (suc more) (suc enough) (record s { state = MatchingSubState.failed }) ctx ms e
  time_out-Agree more enough MatchingSubState.wait_for_atten_char_rsp s ctx ms e f =
      inactive-Agree (suc more) (suc enough) (record s { state = MatchingSubState.failed }) ctx ms e
  time_out-Agree more enough MatchingSubState.wait_for_slac_match s ctx ms e f =
      inactive-Agree (suc more) (suc enough) (record s { state = MatchingSubState.failed }) ctx ms e

  -- The loop over a session ends within three rounds, whatever its state and the clock: with any
  -- greater fuel it gives the same result.
  pub check_session-ends :
      (fuel : ℕ) (s : MatchingSession) (ctx : Context) (ms : Option ℕ)
      → 3 ≤ fuel
      → check_session lib fuel s ctx ms ≡ some (check_to_end lib s ctx ms)
  unfolding check_to_end
  check_session-ends (suc (suc (suc fuel))) s ctx ms h =
      let a =
        round-Agree (suc (suc fuel)) 2 s ctx ms
          (λ e f. time_out-Agree fuel 0 s.state (ack_timeout s) ctx ms refl f) in
      elim (Option-cases (check_session lib 3 s ctx ms)) [
        | inl e ↦ absurd (a.1 e)
        | inr (checked, e) ↦ a.0 ∙ rw (e, check_to_end) refl
      ]
  check_session-ends zero s ctx ms h = absurd (omega arith)
  check_session-ends (suc zero) s ctx ms h = absurd (omega arith)
  check_session-ends (suc (suc zero)) s ctx ms h = absurd (omega arith)
