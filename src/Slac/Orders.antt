-- ===== src/Slac/Orders.antt =====
-- The order in which modules/EvseSlac sends what the matching of an EV needs, over all sessions and
-- histories.
use everest_core_dev.Common.{ℕ, ◌≡◌, refl, sym, ◌∙◌, true, false, List, [], ◌∷◌, ◌++◌, arith}
use everest_core_dev.Slac.Context.{Libslac, Context, Output}
use everest_core_dev.Slac.Session.{
  MatchingSession, MatchingSubState, ack_timeout, finalize_sounding,
}
use everest_core_dev.Slac.Matching.{
  start_sounding, await_match, confirm_match, capture, is_waiting, is_sounding, awaits_rsp,
  awaits_match,
}
use everest_core_dev.Slac.Timeouts.{time_out}
use everest_core_dev.Slac.Places.{is_same, IsDistinct, AllOf, replace-AllOf}
use everest_core_dev.Slac.Soundings.{
  is_sounded, MatchesSounded, IsHeard, AllAtMost, start-IsHeard, await_match-IsHeard,
  confirm-IsHeard, mnbc-IsHeard, capture-IsHeard, time_out-IsHeard,
}

-- What holds of the sessions and the messages sent.
abbrev pub IsOrdered : Libslac → List MatchingSession → Context → Type 0
IsOrdered lib sessions ctx =
    IsDistinct sessions × AllOf (IsHeard lib ctx.out) sessions × MatchesSounded ctx.out

-- A session and a context follow one another.
pub record Follows (lib : Libslac) (s : MatchingSession) (ctx : Context) (s' : MatchingSession)
    (ctx' : Context) : Type 0 where
  pub heard : IsHeard lib ctx'.out s'
  pub same_mac : s'.ev_mac ≡ s.ev_mac
  pub same_run : s'.run_id ≡ s.run_id
  pub ordered : MatchesSounded ctx'.out
  pub others :
      (t : MatchingSession)
      → is_same s t ≡ false
      → is_sounded t.ev_mac t.run_id ctx'.out ≡ is_sounded t.ev_mac t.run_id ctx.out

is_waiting-state :
    (st : MatchingSubState) → is_waiting st ≡ true → st ≡ MatchingSubState.wait_for_start_atten_char
is_waiting-state MatchingSubState.wait_for_start_atten_char e = refl
is_waiting-state MatchingSubState.sounding e = cc
is_waiting-state MatchingSubState.wait_for_atten_char_rsp e = cc
is_waiting-state MatchingSubState.wait_for_slac_match e = cc
is_waiting-state MatchingSubState.received_slac_match e = cc
is_waiting-state MatchingSubState.match_complete e = cc
is_waiting-state MatchingSubState.failed e = cc

is_sounding-state : (st : MatchingSubState) → is_sounding st ≡ true → st ≡ MatchingSubState.sounding
is_sounding-state MatchingSubState.wait_for_start_atten_char e = cc
is_sounding-state MatchingSubState.sounding e = refl
is_sounding-state MatchingSubState.wait_for_atten_char_rsp e = cc
is_sounding-state MatchingSubState.wait_for_slac_match e = cc
is_sounding-state MatchingSubState.received_slac_match e = cc
is_sounding-state MatchingSubState.match_complete e = cc
is_sounding-state MatchingSubState.failed e = cc

awaits_rsp-state :
    (st : MatchingSubState) → awaits_rsp st ≡ true → st ≡ MatchingSubState.wait_for_atten_char_rsp
awaits_rsp-state MatchingSubState.wait_for_start_atten_char e = cc
awaits_rsp-state MatchingSubState.sounding e = cc
awaits_rsp-state MatchingSubState.wait_for_atten_char_rsp e = refl
awaits_rsp-state MatchingSubState.wait_for_slac_match e = cc
awaits_rsp-state MatchingSubState.received_slac_match e = cc
awaits_rsp-state MatchingSubState.match_complete e = cc
awaits_rsp-state MatchingSubState.failed e = cc

awaits_match-state :
    (st : MatchingSubState) → awaits_match st ≡ true → st ≡ MatchingSubState.wait_for_slac_match
awaits_match-state MatchingSubState.wait_for_start_atten_char e = cc
awaits_match-state MatchingSubState.sounding e = cc
awaits_match-state MatchingSubState.wait_for_atten_char_rsp e = cc
awaits_match-state MatchingSubState.wait_for_slac_match e = refl
awaits_match-state MatchingSubState.received_slac_match e = cc
awaits_match-state MatchingSubState.match_complete e = cc
awaits_match-state MatchingSubState.failed e = cc

module _ (lib : Libslac) where
  pub keep-IsHeard :
      (out out' : List Output) (t : MatchingSession)
      → is_sounded t.ev_mac t.run_id out' ≡ is_sounded t.ev_mac t.run_id out
      → IsHeard lib out t
      → IsHeard lib out' t
  keep-IsHeard out out' t e h = record {
    bounded = h.bounded;
    counted = h.counted;
    unfinished = h.unfinished;
    sounded = λ p. e ∙ h.sounded p;
  }

  found-IsHeard :
      (before after : List MatchingSession) (s : MatchingSession) (P : MatchingSession → Type 0)
      → AllOf P (before ++ s ∷ after)
      → P s
  found-IsHeard [] after s P h = h.0
  found-IsHeard (b ∷ before) after s P h = found-IsHeard before after s P h.1

  pub Follows-IsOrdered :
      (before after : List MatchingSession) (s s' : MatchingSession) (ctx ctx' : Context)
      → IsOrdered lib (before ++ s ∷ after) ctx
      → (IsHeard lib ctx.out s → Follows lib s ctx s' ctx')
      → IsOrdered lib (before ++ s' ∷ after) ctx'
  Follows-IsOrdered before after s s' ctx ctx' (d, h, m) f =
      let g = f (found-IsHeard before after s (IsHeard lib ctx.out) h) in
      let r =
        replace-AllOf s s' g.same_mac g.same_run (IsHeard lib ctx.out) (IsHeard lib ctx'.out)
          g.heard (λ t e k. keep-IsHeard ctx.out ctx'.out t (g.others t e) k) before after d h in
      (r.0, r.1, g.ordered)

  finalize-orders :
      (s : MatchingSession) (ctx : Context)
      → MatchesSounded ctx.out
      → MatchesSounded (finalize_sounding lib s ctx).1.out
  unfolding finalize_sounding
  finalize-orders s ctx m = m

  finalize-others :
      (s t : MatchingSession) (ctx : Context)
      → is_same s t ≡ false
      → is_sounded t.ev_mac t.run_id (finalize_sounding lib s ctx).1.out
        ≡ is_sounded t.ev_mac t.run_id ctx.out
  unfolding finalize_sounding
  finalize-others s t ctx e = ground arith

  module _ (s : MatchingSession) (ctx : Context) (m : MatchesSounded ctx.out) where
    pub start-Follows :
        is_waiting s.state ≡ true
        → IsHeard lib ctx.out s
        → let r = start_sounding lib s ctx in Follows lib s ctx r.0 r.1
    unfolding start_sounding
    start-Follows e h = record {
      heard = start-IsHeard lib s ctx h (is_waiting-state s.state e);
      same_mac = refl;
      same_run = refl;
      ordered = m;
      others = λ t d. refl;
    }

    pub mnbc-Follows :
        IsHeard lib ctx.out s → Follows lib s ctx (record s { received_mnbc_sound = true }) ctx
    mnbc-Follows h = record {
      heard = mnbc-IsHeard lib s ctx h;
      same_mac = refl;
      same_run = refl;
      ordered = m;
      others = λ t d. refl;
    }

    pub await_match-Follows :
        awaits_rsp s.state ≡ true
        → IsHeard lib ctx.out s
        → let r = await_match lib s ctx in Follows lib s ctx r.0 r.1
    unfolding await_match
    await_match-Follows e h = record {
      heard = await_match-IsHeard lib s ctx h (awaits_rsp-state s.state e);
      same_mac = refl;
      same_run = refl;
      ordered = m;
      others = λ t d. refl;
    }

    pub confirm-Follows :
        (mac run_id : ℕ)
        → s.ev_mac ≡ mac
        → s.run_id ≡ run_id
        → awaits_match s.state ≡ true
        → IsHeard lib ctx.out s
        → let r = confirm_match lib mac run_id s ctx in Follows lib s ctx r.0 r.1
    unfolding confirm_match
    confirm-Follows mac run_id a b e h =
        let st = awaits_match-state s.state e in
        record {
          heard = confirm-IsHeard lib s ctx mac run_id h st;
          same_mac = refl;
          same_run = refl;
          ordered = (rw (sym a, sym b) (h.sounded (rw st refl)), m);
          others = λ t d. refl;
        }

    pub capture-Follows :
        (aag : List ℕ)
        → is_sounding s.state ≡ true
        → AllAtMost 255 aag
        → IsHeard lib ctx.out s
        → let r = capture lib aag s ctx in Follows lib s ctx r.0 r.1
    unfolding capture
    capture-Follows aag e f h = record {
      heard = capture-IsHeard lib aag s ctx h (is_sounding-state s.state e) f;
      same_mac = ground arith;
      same_run = ground arith;
      ordered = ground arith;
      others = λ t d. ground arith;
    }

    time_out-others :
        (st : MatchingSubState)
        → let r = time_out lib st (ack_timeout s) ctx in
          (r.0.ev_mac ≡ s.ev_mac)
          × (r.0.run_id ≡ s.run_id)
          × MatchesSounded r.1.out
          × ((t : MatchingSession)
              → is_same s t ≡ false
              → is_sounded t.ev_mac t.run_id r.1.out ≡ is_sounded t.ev_mac t.run_id ctx.out)
    unfolding time_out finalize_sounding
    time_out-others MatchingSubState.sounding =
        (refl, refl, m, λ t d. finalize-others (ack_timeout s) t ctx d)
    time_out-others st = (refl, refl, m, λ t d. refl)

    pub time_out-Follows :
        IsHeard lib ctx.out s
        → let r = time_out lib s.state (ack_timeout s) ctx in Follows lib s ctx r.0 r.1
    unfolding time_out
    time_out-Follows h = record {
      heard = time_out-IsHeard lib s ctx h;
      same_mac = (time_out-others s.state).0;
      same_run = (time_out-others s.state).1;
      ordered = (time_out-others s.state).2;
      others = (time_out-others s.state).3;
    }
