-- ===== src/Slac/Keys.antt =====
-- The network key and the data link of modules/EvseSlac.
use everest_core_dev.Common.{
  ℕ, ◌≡◌, refl, Bool, true, false, Option, none, some, List, [], ◌∷◌, arith,
}
use mathlib.Core.Path.{subst, sym}
use everest_core_dev.Slac.Checks.{callback-keeps}
use everest_core_dev.Slac.Context.{
  Libslac, Context, Payload, Output, send_set_key_req, send_slac_match_cnf, signal_dlink_ready,
  generate_nmk,
}
use everest_core_dev.Slac.Session.{
  ack_timeout, MatchingSession, MatchingSubState, finalize_sounding,
}
use everest_core_dev.Slac.Matching.{
  MatchingState, handle_slac_message, handle_payload, handle_cm_slac_parm_req,
  handle_cm_start_atten_char_ind, handle_cm_mnbc_sound_ind, handle_cm_atten_profile_ind,
  handle_cm_atten_char_rsp, handle_cm_slac_match_req, handle_cm_validate_req, confirm_match,
  start_sounding, capture, await_match,
}
use everest_core_dev.Slac.Timeouts.{Event, time_out}
use everest_core_dev.Slac.States.{
  State, reset_state, idle_state, matching_state, matched_state, failed_state, enter, handle_event,
  callback, leave, retry,
}
use everest_core_dev.Slac.Controller.{new_controller}
use everest_core_dev.Slac.Histories.{Call, after}
use everest_core_dev.Slac.Transitions.{transition}
use everest_core_dev.Slac.Invariants.{HoldsIn, IsInvariant, AllFine, after-Holds}

-- The key that the modem was told last.
abbrev pub modem_key : List Output → Option (List ℕ)
modem_key [] = none
modem_key (send_set_key_req mac nid key ∷ out) = some key
modem_key (o ∷ out) = modem_key out

-- Every confirmation of a match has the key that the modem was told last before it.
abbrev pub KeysAgree : List Output → Type 0
KeysAgree [] = Unit {0}
KeysAgree (send_slac_match_cnf mac run_id nid key ∷ out) =
    (modem_key out ≡ some key) × KeysAgree out
KeysAgree (o ∷ out) = KeysAgree out

-- What was said last about the data link, at first that it is not ready.
abbrev pub link_ready : List Output → Bool
link_ready [] = false
link_ready (signal_dlink_ready b ∷ out) = b
link_ready (o ∷ out) = link_ready out

abbrev pub is_matched : State → Bool
is_matched matched_state = true
is_matched _ = false

-- The modem has the key of the context, and the link is as it was said to be.
pub record IsKeyed (ready : Bool) (ctx : Context) : Type 0 where
  pub told : modem_key ctx.out ≡ some ctx.session_nmk
  pub agree : KeysAgree ctx.out
  pub linked : link_ready ctx.out ≡ ready

module _ (lib : Libslac) (ready : Bool) where
  finalize-IsKeyed :
      (s : MatchingSession) (ctx : Context)
      → IsKeyed ready ctx
      → IsKeyed ready (finalize_sounding lib s ctx).1
  unfolding finalize_sounding
  finalize-IsKeyed s ctx k = ground arith

  capture-IsKeyed :
      (aag : List ℕ) (s : MatchingSession) (ctx : Context)
      → IsKeyed ready ctx
      → IsKeyed ready (capture lib aag s ctx).1
  unfolding capture
  capture-IsKeyed aag s ctx k = ground arith

  payload-IsKeyed :
      (mac : ℕ) (payload : Payload) (m : MatchingState) (ctx : Context)
      → IsKeyed ready ctx
      → IsKeyed ready (handle_payload lib mac payload m ctx).1
  unfolding handle_payload handle_cm_slac_parm_req handle_cm_start_atten_char_ind
      handle_cm_mnbc_sound_ind handle_cm_atten_profile_ind handle_cm_atten_char_rsp
      handle_cm_slac_match_req handle_cm_validate_req confirm_match start_sounding await_match
  payload-IsKeyed mac (Payload.cm_slac_parm_req run_id) m ctx k = ground arith
  payload-IsKeyed mac payload m ctx k = ground arith

  time_out-IsKeyed :
      (state : MatchingSubState) (s : MatchingSession) (ctx : Context)
      → IsKeyed ready ctx
      → IsKeyed ready (time_out lib state s ctx).1
  unfolding time_out
  time_out-IsKeyed MatchingSubState.sounding s ctx k = finalize-IsKeyed s ctx k
  time_out-IsKeyed state s ctx k = k

  callback-IsKeyed :
      (s : State) (ctx : Context) → IsKeyed ready ctx → IsKeyed ready (callback lib s ctx).1
  unfolding callback
  callback-IsKeyed (matching_state m) ctx k =
      callback-keeps lib (λ sessions c. IsKeyed ready c)
        (λ before more s c h. time_out-IsKeyed s.state (ack_timeout s) c h) m ctx k
  callback-IsKeyed reset_state ctx k = k
  callback-IsKeyed idle_state ctx k = k
  callback-IsKeyed matched_state ctx k = k
  callback-IsKeyed failed_state ctx k = k

-- What holds of a context before the machine is reset.
abbrev pub IsSilent : Context → Type 0
IsSilent ctx = KeysAgree ctx.out × (link_ready ctx.out ≡ false)

abbrev pub IsKeyedIn : State → Context → Type 0
IsKeyedIn s ctx = IsKeyed (is_matched s) ctx

callback-is_matched :
    (lib : Libslac) (s : State) (ctx : Context) → is_matched (callback lib s ctx).0 ≡ is_matched s
unfolding callback
callback-is_matched lib (matching_state m) ctx = refl
callback-is_matched lib s ctx = refl

reset-IsKeyed :
    (lib : Libslac) (ready : Bool) (ctx : Context)
    → KeysAgree ctx.out
    → link_ready ctx.out ≡ false
    → IsKeyed false (enter lib reset_state ctx).1
unfolding enter
reset-IsKeyed lib ready ctx a l = ground arith

transition-IsKeyed :
    (lib : Libslac) (ev : Event) (s : State) (ctx : Context)
    → IsKeyedIn s ctx
    → IsKeyedIn (transition lib ev s ctx).0 (transition lib ev s ctx).1
unfolding handle_event enter leave generate_nmk retry handle_slac_message
transition-IsKeyed lib Event.slac_message (matching_state m) ctx k =
    payload-IsKeyed lib false ctx.slac_message_payload.src_mac ctx.slac_message_payload.payload m
      ctx k
transition-IsKeyed lib Event.retry_matching (matching_state m) ctx k = ground arith
transition-IsKeyed lib ev (matching_state m) ctx k = ground arith
transition-IsKeyed lib ev reset_state ctx k = ground arith
transition-IsKeyed lib ev idle_state ctx k = ground arith
transition-IsKeyed lib ev matched_state ctx k = ground arith
transition-IsKeyed lib ev failed_state ctx k = ground arith

keyed_invariant : (lib : Libslac) → IsInvariant lib (λ msg. Unit {0}) IsSilent IsKeyedIn
keyed_invariant lib = record {
  at_start = λ ctx h. reset-IsKeyed lib false ctx h.0 h.1;
  on_event = λ ev s ctx e h. transition-IsKeyed lib ev s ctx h;
  on_callback = λ s ctx h.
      subst (λ b. IsKeyed b (callback lib s ctx).1) (sym (callback-is_matched lib s ctx))
        (callback-IsKeyed lib (is_matched s) s ctx h);
  on_time_before = λ n ctx h. h;
  on_time = λ n s ctx h. record { told = h.told; agree = h.agree; linked = h.linked };
  on_message = λ msg s ctx f h.
      transition-IsKeyed lib Event.slac_message s (record ctx { slac_message_payload = msg })
        (record { told = h.told; agree = h.agree; linked = h.linked });
}

abbrev pub top_is_matched : List State → Bool
top_is_matched [] = false
top_is_matched (s ∷ below) = is_matched s

AllFine-all : (calls : List Call) → AllFine (λ msg. Unit {0}) calls
AllFine-all [] = tt
AllFine-all (Call.message msg ∷ calls) = (tt, AllFine-all calls)
AllFine-all (call ∷ calls) = AllFine-all calls

-- After every history of calls of a controller, every confirmation of a match that was sent has the
-- key that the modem was told last before it; the modem has the context's key, once the machine
-- runs; and the data link was said last to be ready exactly if the state is the matched one.
pub after-IsKeyed :
    (lib : Libslac) (set_key_timeout_ms now : ℕ) (draws : ℕ → ℕ → ℕ) (calls : List Call)
    → let c = after lib set_key_timeout_ms now draws calls in
      KeysAgree c.ctx.out
      × (c.running ≡ true → modem_key c.ctx.out ≡ some c.ctx.session_nmk)
      × (link_ready c.ctx.out ≡ top_is_matched c.state_stack)
unfolding new_controller
after-IsKeyed lib set_key_timeout_ms now draws calls =
    let c = after lib set_key_timeout_ms now draws calls in
    go c.state_stack c.running c.ctx (
      after-Holds lib (λ msg. Unit {0}) IsSilent IsKeyedIn (keyed_invariant lib) set_key_timeout_ms
        now draws calls (AllFine-all calls) silent)
  where
    go :
        (stack : List State) (running : Bool) (ctx : Context)
        → HoldsIn IsSilent IsKeyedIn stack running ctx
        → KeysAgree ctx.out
          × (running ≡ true → modem_key ctx.out ≡ some ctx.session_nmk)
          × (link_ready ctx.out ≡ top_is_matched stack)
    go [] running ctx h = (h.0.0, λ r. cc (r, h.1), h.0.1)
    go (s ∷ []) running ctx h = (h.0.agree, λ r. h.0.told, h.0.linked)
    go (s ∷ t ∷ more) running ctx h = absurd h

    silent : IsSilent (new_controller lib set_key_timeout_ms now draws).ctx
    silent = (tt, refl)
