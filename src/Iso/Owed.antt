-- ===== src/Iso/Owed.antt =====
-- What an accepted answer of modules/EvseV2G/iso_server.cpp tells of its request.
use everest_core_dev.Common.{
  ℕ, ◌≡◌, refl, sym, ◌∙◌, Bool, true, false, not, ◌&&◌, ◌||◌, inl, inr, Bool-cases, ◌==◌,
}
use everest_core_dev.Iso.Messages.{V2gMsgTypeId, V2gEvent, ResponseCode, is_failed, same_msg}
use everest_core_dev.Iso.Context.{
  Context, Undefined, Response, iso_validate_response_code, validated_code,
}
use everest_core_dev.Iso.Setup.{Answer, respond}
use everest_core_dev.Iso.Requests.{Request}
use everest_core_dev.Iso.Tables.{is_allowed, IsAdmitted, validated_code-IsAdmitted}

-- Events after which the response of the handler is sent.
abbrev pub sends : V2gEvent → Bool
sends V2gEvent.no_event = true
sends V2gEvent.send_and_terminate = true
sends _ = false

pub accepted_parts : (a b : Bool) → (a && not b) ≡ true → (a ≡ true) × (b ≡ false)
accepted_parts true false e = (refl, refl)
accepted_parts true true e = cc
accepted_parts false b e = cc

pub same_test : {a b c d : ℕ} → a ≡ c → b ≡ d → (a == b) ≡ true → (c == d) ≡ true
same_test p q e = cc (p, q, e)

abbrev pub is_update : Request → Bool
is_update Request.certificate_update_req = true
is_update _ = false

module _ (u : Undefined) where
  pub same_allowed :
      (c1 c : Context)
      → c1.state ≡ c.state
      → c1.is_dc_charger ≡ c.is_dc_charger
      → c1.current_v2g_msg ≡ c.current_v2g_msg
      → is_allowed u c1 ≡ is_allowed u c
  same_allowed c1 c s d m = cc (s, d, m)

  -- An answer that is sent and no failure.
  abbrev pub is_accepted : Answer → Bool
  is_accepted (c, res, event) = sends event && not (is_failed res.response_code)

  pub checked-IsAdmitted :
      (code : ResponseCode) (c : Context)
      → let r = iso_validate_response_code u code c in
        sends r.1 ≡ true → is_failed r.0 ≡ false → IsAdmitted u c × (is_failed code ≡ false)
  unfolding iso_validate_response_code
  checked-IsAdmitted code c s f = elim (Bool-cases c.evse.is_connection_terminated) [
    | inl e ↦ cc (rw e at s)
    | inr e ↦ validated_code-IsAdmitted u code c (rw e at f)
  ]

  pub alive-sends :
      (code : ResponseCode) (c : Context)
      → c.evse.is_connection_terminated ≡ false
      → sends (iso_validate_response_code u code c).1 ≡ true
  unfolding iso_validate_response_code
  alive-sends code c alive =
      rw (alive, iso_validate_response_code)
        (elim (Bool-cases
          (c.terminate_connection_on_failed_response && is_failed (validated_code u code c))) [
            | inl e ↦ rw e refl
            | inr e ↦ rw e refl
          ])

  -- What the answer of a handler to an announced request tells of that request.
  pub record IsOwed (c : Context) (a : Answer) : Type 0 where
    pub allowed : is_allowed u c ≡ true
    pub known :
        same_msg c.current_v2g_msg V2gMsgTypeId.session_setup_msg ≡ false
        → (c.session_id == c.received_session_id) ≡ true
    pub goes_on : (a.0.evse.stop_hlc || a.0.evse.intl_emergency_shutdown) ≡ false

  pub respond-IsOwed :
      (res : Response) (c : Context) (next : Context → Context)
      → is_accepted (respond u res c next) ≡ true
      → IsAdmitted u c × (is_failed res.response_code ≡ false)
  respond-IsOwed res c next e =
      let r = iso_validate_response_code u res.response_code c in
      let parts = accepted_parts (sends r.1) (is_failed r.0) e in
      checked-IsAdmitted res.response_code c parts.0 parts.1

  -- A handler that ends with the check, on a context with the same state and session.
  pub respond-Owed :
      (c : Context) (res : Response) (c1 : Context) (next : Context → Context)
      → is_allowed u c1 ≡ is_allowed u c
      → (c1.session_id == c1.received_session_id) ≡ (c.session_id == c.received_session_id)
      → c1.current_v2g_msg ≡ c.current_v2g_msg
      → ((next c1).evse.stop_hlc || (next c1).evse.intl_emergency_shutdown)
        ≡ (c1.evse.stop_hlc || c1.evse.intl_emergency_shutdown)
      → is_accepted (respond u res c1 next) ≡ true
      → IsOwed c (respond u res c1 next)
  respond-Owed c res c1 next a s m g e =
      let k = respond-IsOwed res c1 next e in
      record {
        allowed = sym a ∙ k.0.allowed;
        known = λ n. sym s ∙ k.0.known (rw m n);
        goes_on = g ∙ k.0.goes_on;
      }
