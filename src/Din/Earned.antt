-- ===== src/Din/Earned.antt =====
-- What a state of modules/EvseV2G's DIN 70121 server is earned by, and responses that keep it.
use everest_core_dev.Common.{
  ◌≡◌, Bool, true, false, not, ◌&&◌, ◌||◌, List, [], ◌∷◌, ◌⊎◌, inl, inr, arith,
}
use everest_core_dev.Iso.Messages.{
  V2gMsgTypeId, authorization_msg, cable_check_msg, same_msg, is_among, V2gEvent, no_event,
  terminate_connection, send_and_terminate, send_recv_exi_msg, ignore_msg,
}
use everest_core_dev.Din.{
  DinStateId, din_states, wait_for_chargeparameterdiscovery, wait_for_cablecheck,
  wait_for_precharge, wait_for_precharge_powerdelivery, wait_for_currentdemand,
  wait_for_currentdemand_powerdelivery, wait_for_weldingdetection_sessionstop, DinResponseCode,
  is_failed, Response, Output, send_response, Context, din_validate_response_code,
}
use everest_core_dev.Din.Handlers.{Answer, respond}
use everest_core_dev.Din.Checks.{validate-IsAdmitted}

-- An authorization was answered without a failure and as finished.
abbrev pub is_grant : V2gMsgTypeId → Response → Bool
is_grant msg res =
    not (is_failed res.response_code) && (same_msg msg authorization_msg && res.is_finished)

-- What a CableCheckRes must say.
abbrev pub shows_ready : Response → Bool
shows_ready res = res.is_finished && res.isolation_is_good && res.is_ready

-- A cable check was answered without a failure, as finished, with a good isolation and ready.
abbrev pub is_clearance : V2gMsgTypeId → Response → Bool
is_clearance msg res =
    not (is_failed res.response_code) && (same_msg msg cable_check_msg && shows_ready res)

abbrev pub has_granted : List Output → Bool
has_granted [] = false
has_granted (send_response msg res ∷ out) = is_grant msg res || has_granted out
has_granted (_ ∷ out) = has_granted out

abbrev pub has_cleared : List Output → Bool
has_cleared [] = false
has_cleared (send_response msg res ∷ out) = is_clearance msg res || has_cleared out
has_cleared (_ ∷ out) = has_cleared out

-- The states from the precharge on, except those at the end of a session.
abbrev pub gives_energy : DinStateId → Bool
gives_energy wait_for_precharge = true
gives_energy wait_for_precharge_powerdelivery = true
gives_energy wait_for_currentdemand = true
gives_energy wait_for_currentdemand_powerdelivery = true
gives_energy wait_for_weldingdetection_sessionstop = true
gives_energy _ = false

-- The states from the charge parameters on.
abbrev pub is_authorized : DinStateId → Bool
is_authorized wait_for_chargeparameterdiscovery = true
is_authorized wait_for_cablecheck = true
is_authorized state = gives_energy state

abbrev pub IsEarned : DinStateId → List Output → Type 0
IsEarned state out =
    (is_authorized state ≡ true → has_granted out ≡ true)
    × (gives_energy state ≡ true → has_cleared out ≡ true)

-- A state that is entered was earned before, or is by the response.
abbrev pub Moves : V2gMsgTypeId → Response → DinStateId → DinStateId → Type 0
Moves msg res next state =
    (is_authorized next ≡ true
      → (is_authorized state || same_msg msg authorization_msg && res.is_finished) ≡ true)
    × (gives_energy next ≡ true
        → (gives_energy state || same_msg msg cable_check_msg && shows_ready res) ≡ true)

or_true : (p q r : Bool) → (p ≡ true → r ≡ true) → (p || q) ≡ true → (q || r) ≡ true
or_true p q r f e = ground arith

earn :
    (msg : V2gMsgTypeId) (res : Response) (next state : DinStateId) (out : List Output)
    → is_failed res.response_code ≡ false
    → Moves msg res next state
    → IsEarned state out
    → IsEarned next (send_response msg res ∷ out)
earn msg res next state out good (a, b) (g, h) = (
  λ e. rw good (
      or_true (is_authorized state) (same_msg msg authorization_msg && res.is_finished)
        (has_granted out) g (a e)),
  λ e. rw good (
      or_true (gives_energy state) (same_msg msg cable_check_msg && shows_ready res)
        (has_cleared out) h (b e)),
)

-- What holds of a session by its event: it goes on earned, or it ends.
abbrev FineBy : V2gEvent → Context → Response → Type 0
FineBy no_event c res = IsEarned c.state (send_response c.current_v2g_msg res ∷ c.out)
FineBy send_recv_exi_msg c res = IsEarned c.state (send_response c.current_v2g_msg res ∷ c.out)
FineBy ignore_msg c res = IsEarned c.state c.out
FineBy _ c res = Unit

abbrev pub IsStrict : Context → Type 0
IsStrict c = c.terminate_connection_on_failed_response ≡ true

abbrev pub IsFine : Answer → Type 0
IsFine (c, res, event) = IsStrict c × FineBy event c res

validate-event :
    (code : DinResponseCode) (c : Context)
    → let event = (din_validate_response_code code c).1 in
      (event ≡ no_event) ⊎ (event ≡ send_and_terminate) ⊎ (event ≡ terminate_connection)
unfolding din_validate_response_code
validate-event code c = ground arith

pub respond-IsFine :
    (res : Response) (next : DinStateId) (c : Context)
    → IsStrict c
    → IsEarned c.state c.out
    → (is_among c.current_v2g_msg (din_states c.state) ≡ true
        → Moves c.current_v2g_msg res next c.state)
    → IsFine (respond res next c)
respond-IsFine res next c strict earned moves =
    let code = (din_validate_response_code res.response_code c).0 in
    elim (validate-event res.response_code c) [
      | inl e ↦
          (let a = validate-IsAdmitted res.response_code c strict e in
            rw e (
              strict,
              earn c.current_v2g_msg (record res { response_code = code }) next c.state c.out
                  a.is_good (moves a.is_allowed) earned,
            ))
      | inr (inl e) ↦ rw e (strict, tt)
      | inr (inr e) ↦ rw e (strict, tt)
    ]
