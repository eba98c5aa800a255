-- ===== src/Slac/Checks.antt =====
-- What `MatchingState::callback` of modules/EvseSlac keeps: whatever each timeout of a session keeps.
use everest_core_dev.Common.{
  ℕ, zero, suc, ◌≡◌, refl, sym, ap, Bool, true, false, not, Option, none, some, List, [], ◌∷◌, ◌++◌,
  if◌then◌else◌, ltb, leb, inl, inr, Bool-cases,
}
use mathlib.Core.Path.{subst}
use everest_core_dev.Slac.Context.{Libslac, Context}
use everest_core_dev.Slac.Session.{MatchingSession, ack_timeout, all_sessions_failed}
use everest_core_dev.Slac.Matching.{MatchingState}
use everest_core_dev.Slac.Timeouts.{
  check_session, check_to_end, check_sessions, matching_callback, time_out, Checked, is_complete,
  remaining_milliseconds, sooner,
}

append_middle :
    (before more : List MatchingSession) (s : MatchingSession)
    → (before ++ s ∷ []) ++ more ≡ before ++ s ∷ more
append_middle [] more s = refl
append_middle (x ∷ before) more s = ap (λ xs. x ∷ xs) (append_middle before more s)

module _ (lib : Libslac) (P : List MatchingSession → Context → Type 0)
    (keeps : (before more : List MatchingSession) (s : MatchingSession) (ctx : Context)
      → P (before ++ s ∷ more) ctx
      → let t = time_out lib s.state (ack_timeout s) ctx in P (before ++ t.0 ∷ more) t.1) where
  abbrev ChecksTo : List MatchingSession → List MatchingSession → Option Checked → Type 0
  ChecksTo before more none = Unit {0}
  ChecksTo before more (some c) = P (before ++ c.session ∷ more) c.context

  check_session-keeps :
      (fuel : ℕ) (before more : List MatchingSession) (s : MatchingSession) (ctx : Context)
      (ms : Option ℕ)
      → P (before ++ s ∷ more) ctx
      → ChecksTo before more (check_session lib fuel s ctx ms)
  unfolding check_session
  check_session-keeps zero before more s ctx ms p = tt
  check_session-keeps (suc fuel) before more s ctx ms p =
      let t = time_out lib s.state (ack_timeout s) ctx in
      let ih = check_session-keeps fuel before more t.0 t.1 ms (keeps before more s ctx p) in
      split s.timeout_active (is_complete s.state)
        (ltb 0 (remaining_milliseconds s.next_timeout ctx.now)) ih
    where
      split :
          (active complete left : Bool)
          → (let t = time_out lib s.state (ack_timeout s) ctx in
              ChecksTo before more (check_session lib fuel t.0 t.1 ms))
          → let stop : Bool → Option ℕ → Option Checked = λ completes ms'.
            some
              (record { session = s; context = ctx; call_back_ms = ms'; completes = completes }) in
            let t = time_out lib s.state (ack_timeout s) ctx in
            ChecksTo before more (
              if not active
              then stop false ms
              else if complete
              then stop true ms
              else if left
              then stop false (sooner ms (remaining_milliseconds s.next_timeout ctx.now))
              else check_session lib fuel t.0 t.1 ms)
      split false complete left ih = p
      split true true left ih = p
      split true false true ih = p
      split true false false ih = ih

  check_to_end-keeps :
      (before more : List MatchingSession) (s : MatchingSession) (ctx : Context) (ms : Option ℕ)
      → P (before ++ s ∷ more) ctx
      → let c = check_to_end lib s ctx ms in P (before ++ c.session ∷ more) c.context
  unfolding check_to_end
  check_to_end-keeps before more s ctx ms p =
      go (check_session lib 3 s ctx ms) (check_session-keeps 3 before more s ctx ms p)
    where
      go :
          (o : Option Checked)
          → ChecksTo before more o
          → let c = elim o as (λ x. Checked) [
            | some checked ↦ checked
            | none ↦ record { session = s; context = ctx; call_back_ms = ms; completes = false }
          ] in
            P (before ++ c.session ∷ more) c.context
      go none v = p
      go (some checked) v = v

  check_sessions-keeps :
      (before sessions : List MatchingSession) (ctx : Context) (ms : Option ℕ)
      → P (before ++ sessions) ctx
      → let r = check_sessions lib before sessions ctx ms in P r.0 r.1
  unfolding check_sessions
  check_sessions-keeps before [] ctx ms p = subst (λ xs. P xs ctx) (append_nil before) p
    where
      append_nil : (xs : List MatchingSession) → xs ++ [] ≡ xs
      append_nil [] = refl
      append_nil (x ∷ xs) = ap (λ ys. x ∷ ys) (append_nil xs)
  check_sessions-keeps before (s ∷ more) ctx ms p =
      let checked = check_to_end lib s ctx ms in
      let kept = check_to_end-keeps before more s ctx ms p in
      let later =
        check_sessions-keeps (before ++ checked.session ∷ []) more checked.context
          checked.call_back_ms
          (subst (λ xs. P xs checked.context) (sym (append_middle before more checked.session))
            kept) in
      elim (Bool-cases checked.completes) [
        | inl e ↦ rw (e, check_sessions) kept
        | inr e ↦ elim (Bool-cases (all_sessions_failed (before ++ checked.session ∷ more))) [
          | inl f ↦ rw (e, f, check_sessions) kept
          | inr f ↦ rw (e, f, check_sessions) later
        ]
      ]

  pub callback-keeps :
      (m : MatchingState) (ctx : Context)
      → P m.sessions ctx
      → let r = matching_callback lib m ctx in P r.0.sessions r.1
  unfolding matching_callback
  callback-keeps m ctx p = elim (Bool-cases m.seen_slac_parm_req) [
    | inl e ↦ rw e (check_sessions-keeps [] m.sessions ctx none p)
    | inr e ↦ elim (Bool-cases (leb m.timeout_slac_parm_req ctx.now)) [
      | inl f ↦ rw (e, f) p
      | inr f ↦
          rw (e, f)
            (check_sessions-keeps [] m.sessions ctx
              (some (remaining_milliseconds m.timeout_slac_parm_req ctx.now)) p)
    ]
  ]
