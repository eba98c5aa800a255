-- ===== src/Slac/Soundings.antt =====
-- The sounding of modules/EvseSlac: how many sounds a session captures, what their average is, and
-- what is sent in which order.
use everest_core_dev.Common.{
  ℕ, zero, suc, ◌*◌, ◌<◌, ◌≤◌, ◌≡◌, refl, Bool, true, false, ◌&&◌, List, [], ◌∷◌, arith, ◌==◌, ltb,
  if◌then◌else◌, inl, inr, Bool-cases,
}
use everest_core_dev.Slac.Context.{
  Libslac, Context, Output, send_slac_parm_cnf, send_atten_char_ind, send_slac_match_cnf,
}
use everest_core_dev.Slac.Session.{
  MatchingSession, MatchingSubState, zeros, finalize_sounding, ack_timeout,
}
use everest_core_dev.Slac.Matching.{add_aags, capture, start_sounding, await_match, confirm_match}
use everest_core_dev.Slac.Timeouts.{time_out}

-- Whether a session was sent its attenuation since it was last confirmed its parameters.
abbrev pub is_sounded : ℕ → ℕ → List Output → Bool
is_sounded mac run_id [] = false
is_sounded mac run_id (send_slac_parm_cnf m r ∷ out) =
    if m == mac && r == run_id then false else is_sounded mac run_id out
is_sounded mac run_id (send_atten_char_ind m r sounds aag ∷ out) =
    if m == mac && r == run_id then true else is_sounded mac run_id out
is_sounded mac run_id (o ∷ out) = is_sounded mac run_id out

-- A match is confirmed only to a session that was sent its attenuation.
abbrev pub MatchesSounded : List Output → Type 0
MatchesSounded [] = Unit {0}
MatchesSounded (send_slac_match_cnf mac run_id nid key ∷ out) =
    (is_sounded mac run_id out ≡ true) × MatchesSounded out
MatchesSounded (o ∷ out) = MatchesSounded out

abbrev pub AllAtMost : ℕ → List ℕ → Type 0
AllAtMost bound [] = Unit {0}
AllAtMost bound (x ∷ xs) = (x ≤ bound) × AllAtMost bound xs

-- The states after the sounding.
abbrev pub is_past_sounding : MatchingSubState → Bool
is_past_sounding MatchingSubState.wait_for_atten_char_rsp = true
is_past_sounding MatchingSubState.wait_for_slac_match = true
is_past_sounding MatchingSubState.received_slac_match = true
is_past_sounding MatchingSubState.match_complete = true
is_past_sounding _ = false

-- The states in which sounds are or will be captured.
abbrev pub is_before_end : MatchingSubState → Bool
is_before_end MatchingSubState.wait_for_start_atten_char = true
is_before_end MatchingSubState.sounding = true
is_before_end _ = false

module _ (lib : Libslac) where
  pub record IsHeard (out : List Output) (s : MatchingSession) : Type 0 where
    pub bounded : AllAtMost (255 * s.captured_sounds) s.captured_aags
    pub counted : s.captured_sounds ≤ lib.cm_slac_parm_cnf_num_sounds
    pub unfinished :
        is_before_end s.state ≡ true → s.captured_sounds < lib.cm_slac_parm_cnf_num_sounds
    pub sounded : is_past_sounding s.state ≡ true → is_sounded s.ev_mac s.run_id out ≡ true

  zeros-AllAtMost : (n : ℕ) → AllAtMost 0 (zeros n)
  unfolding zeros
  zeros-AllAtMost zero = tt
  zeros-AllAtMost (suc n) = (omega arith, zeros-AllAtMost n)

  pub new_session-IsHeard :
      (out : List Output) (s : MatchingSession)
      → 0 < lib.cm_slac_parm_cnf_num_sounds
      → s.captured_sounds ≡ 0
      → s.captured_aags ≡ zeros lib.aag_list_len
      → s.state ≡ MatchingSubState.wait_for_start_atten_char
      → IsHeard out s
  new_session-IsHeard out s pos c a st = record {
    bounded = rw (c, a) (zeros-AllAtMost lib.aag_list_len);
    counted = omega arith;
    unfinished = λ e. omega arith;
    sounded = λ e. cc (rw st at e);
  }

  AllAtMost-mono : (a b : ℕ) (xs : List ℕ) → a ≤ b → AllAtMost a xs → AllAtMost b xs
  AllAtMost-mono a b [] h v = tt
  AllAtMost-mono a b (x ∷ xs) h v = (omega arith, AllAtMost-mono a b xs h v.1)

  add_aags-AllAtMost :
      (n : ℕ) (xs ys : List ℕ)
      → AllAtMost (255 * n) xs
      → AllAtMost 255 ys
      → AllAtMost (255 * suc n) (add_aags lib xs ys)
  unfolding add_aags
  add_aags-AllAtMost n [] ys h k = tt
  add_aags-AllAtMost n (x ∷ xs) [] h k =
      AllAtMost-mono (255 * n) (255 * suc n) (x ∷ xs) (omega arith) h
  add_aags-AllAtMost n (x ∷ xs) (y ∷ ys) h k = (omega arith, add_aags-AllAtMost n xs ys h.1 k.1)

  module _ (s : MatchingSession) (ctx : Context) where
    finalize-IsHeard :
        AllAtMost (255 * s.captured_sounds) s.captured_aags
        → s.captured_sounds ≤ lib.cm_slac_parm_cnf_num_sounds
        → let f = finalize_sounding lib s ctx in IsHeard f.1.out f.0
    unfolding finalize_sounding
    finalize-IsHeard b c = record {
      bounded = b;
      counted = c;
      unfinished = λ e. cc;
      sounded = λ e. ground arith;
    }

    pub start-IsHeard :
        IsHeard ctx.out s
        → s.state ≡ MatchingSubState.wait_for_start_atten_char
        → IsHeard ctx.out (start_sounding lib s ctx).0
    unfolding start_sounding
    start-IsHeard h e = record {
      bounded = h.bounded;
      counted = h.counted;
      unfinished = λ f. h.unfinished (rw e refl);
      sounded = λ f. cc;
    }

    pub await_match-IsHeard :
        IsHeard ctx.out s
        → s.state ≡ MatchingSubState.wait_for_atten_char_rsp
        → IsHeard ctx.out (await_match lib s ctx).0
    unfolding await_match
    await_match-IsHeard h e = record {
      bounded = h.bounded;
      counted = h.counted;
      unfinished = λ f. cc;
      sounded = λ f. h.sounded (rw e refl);
    }

    pub confirm-IsHeard :
        (mac run_id : ℕ)
        → IsHeard ctx.out s
        → s.state ≡ MatchingSubState.wait_for_slac_match
        → let f = confirm_match lib mac run_id s ctx in IsHeard f.1.out f.0
    unfolding confirm_match
    confirm-IsHeard mac run_id h e = record {
      bounded = h.bounded;
      counted = h.counted;
      unfinished = λ f. cc;
      sounded = λ f. h.sounded (rw e refl);
    }

    pub mnbc-IsHeard : IsHeard ctx.out s → IsHeard ctx.out (record s { received_mnbc_sound = true })
    mnbc-IsHeard h = record {
      bounded = h.bounded;
      counted = h.counted;
      unfinished = h.unfinished;
      sounded = h.sounded;
    }

  pub capture-IsHeard :
      (aag : List ℕ) (s : MatchingSession) (ctx : Context)
      → IsHeard ctx.out s
      → s.state ≡ MatchingSubState.sounding
      → AllAtMost 255 aag
      → let f = capture lib aag s ctx in IsHeard f.1.out f.0
  unfolding capture
  capture-IsHeard aag s ctx h e a =
      let room = h.unfinished (rw e refl) in
      let heard : MatchingSession = record s {
        captured_aags = add_aags lib s.captured_aags aag;
        captured_sounds = suc s.captured_sounds;
      } in
      let sums = add_aags-AllAtMost s.captured_sounds s.captured_aags aag h.bounded a in
      elim (Bool-cases (ltb (suc s.captured_sounds) lib.cm_slac_parm_cnf_num_sounds)) [
        | inl more ↦ rw more (record {
          bounded = sums;
          counted = omega arith;
          unfinished = λ f. ground arith;
          sounded = λ f. cc (e, f);
        })
        | inr done ↦ rw done (finalize-IsHeard heard ctx sums (omega arith))
      ]

  pub time_out-IsHeard :
      (s : MatchingSession) (ctx : Context)
      → IsHeard ctx.out s
      → let f = time_out lib s.state (ack_timeout s) ctx in IsHeard f.1.out f.0
  unfolding time_out
  time_out-IsHeard s ctx h = go s.state h.bounded h.counted h.unfinished h.sounded
    where
      go :
          (st : MatchingSubState)
          → AllAtMost (255 * s.captured_sounds) s.captured_aags
          → s.captured_sounds ≤ lib.cm_slac_parm_cnf_num_sounds
          → (is_before_end st ≡ true → s.captured_sounds < lib.cm_slac_parm_cnf_num_sounds)
          → (is_past_sounding st ≡ true → is_sounded s.ev_mac s.run_id ctx.out ≡ true)
          → let f = time_out lib st (ack_timeout s) ctx in IsHeard f.1.out f.0
      go MatchingSubState.sounding b c u d = finalize-IsHeard (ack_timeout s) ctx b c
      go MatchingSubState.received_slac_match b c u d = record {
        bounded = b;
        counted = c;
        unfinished = h.unfinished;
        sounded = h.sounded;
      }
      go MatchingSubState.match_complete b c u d = record {
        bounded = b;
        counted = c;
        unfinished = h.unfinished;
        sounded = h.sounded;
      }
      go MatchingSubState.failed b c u d = record {
        bounded = b;
        counted = c;
        unfinished = h.unfinished;
        sounded = h.sounded;
      }
      go MatchingSubState.wait_for_start_atten_char b c u d = record {
        bounded = b;
        counted = c;
        unfinished = λ e. cc;
        sounded = λ e. cc;
      }
      go MatchingSubState.wait_for_atten_char_rsp b c u d = record {
        bounded = b;
        counted = c;
        unfinished = λ e. cc;
        sounded = λ e. cc;
      }
      go MatchingSubState.wait_for_slac_match b c u d = record {
        bounded = b;
        counted = c;
        unfinished = λ e. cc;
        sounded = λ e. cc;
      }
