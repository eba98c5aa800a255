-- ===== src/Iso/Earned.antt =====
-- What each handler of modules/EvseV2G/iso_server.cpp leaves of an earned state.
use everest_core_dev.Common.{
  ◌≤◌, ◌≡◌, refl, sym, Bool, true, false, List, ◌∷◌, arith, inl, inr, Bool-cases,
}
use everest_core_dev.Iso.Messages.{V2gMsgTypeId}
use everest_core_dev.Iso.Context.{
  Context, Evse, Undefined, send_response, is_finished, PaymentOption,
}
use everest_core_dev.Iso.Setup.{
  check_authorization, authorized_state, Answer, AuthorizationReq, answer, handle_iso_session_setup,
  handle_iso_service_discovery, handle_iso_service_detail, handle_iso_payment_service_selection,
  handle_iso_payment_details, handle_iso_authorization,
}
use everest_core_dev.Iso.Charging.{
  handle_iso_certificate_update, handle_iso_certificate_installation, handle_iso_session_stop,
}
use everest_core_dev.Iso.Requests.{Request, msg_of, handle}
use everest_core_dev.Iso.Tables.{table_allows}
use mathlib.Core.Path.{subst}
use everest_core_dev.Iso.Late.{
  is_late, grants, was_authorized, IsEarned, stays_open, or_right, late_state, checked-goes_on,
  late-allowed, late-out,
}

module _ (u : Undefined) where
  -- What a handler's answer that leaves the connection open leaves earned.
  abbrev pub Earns : V2gMsgTypeId → Context → Answer → Type 0
  Earns msg c a =
      IsEarned c
      → stays_open a.2 ≡ true
      → 6 ≤ a.0.state
      → was_authorized (send_response msg a.1 ∷ a.0.out) ≡ true

  pub late-Earns :
      (req : Request) (msg : V2gMsgTypeId) (c : Context)
      → c.terminate_connection_on_failed_response ≡ true
      → c.current_v2g_msg ≡ msg_of req c.current_v2g_msg
      → is_late req ≡ true
      → Earns msg c (handle u req c)
  late-Earns req msg c t m l earned e six =
      let allowed = late-allowed u c t req l e in
      let before =
        late_state u c.is_dc_charger c.state req c.current_v2g_msg l
          (subst (λ x. table_allows u c.is_dc_charger c.state x ≡ true) m allowed) in
      or_right (grants (send_response msg (handle u req c).1))
        (was_authorized (handle u req c).0.out) (late-out u req c l (earned before))

  authorization-Earns :
      (req : AuthorizationReq) (c : Context)
      → c.terminate_connection_on_failed_response ≡ true
      → Earns V2gMsgTypeId.authorization_msg c (handle_iso_authorization u req c)
  unfolding handle_iso_authorization
  authorization-Earns req c t earned e six =
      let res = check_authorization u req c in
      let ok = (checked-goes_on u res.response_code c t e).1 in
      elim (Bool-cases (is_finished res.evse_processing)) [
        | inl f ↦ rw (ok, f) refl
        | inr f ↦ absurd (unfinished six f)
      ]
    where
      unfinished :
          let res = check_authorization u req c in
          6 ≤ authorized_state u res → is_finished res.evse_processing ≡ false → ⊥
      unfinished h f = ground arith

  pub installation-state :
      (is_publishable is_decoded : Bool) (waits : List Evse) (c : Context)
      → (handle_iso_certificate_installation u is_publishable is_decoded waits c).0.state ≡ 4
  unfolding handle_iso_certificate_installation
  installation-state is_publishable is_decoded waits c = ground arith

  pub early-Earns :
      (req : Request) (msg : V2gMsgTypeId) (c : Context)
      → c.terminate_connection_on_failed_response ≡ true
      → msg ≡ msg_of req c.current_v2g_msg
      → is_late req ≡ false
      → Earns msg c (handle u req c)
  unfolding handle handle_iso_session_setup handle_iso_service_discovery handle_iso_service_detail
      handle_iso_payment_service_selection handle_iso_payment_details handle_iso_certificate_update
      handle_iso_certificate_installation handle_iso_session_stop
  early-Earns (Request.session_setup_req drawn) msg c t m l earned e six = absurd (omega arith)
  early-Earns Request.service_discovery_req msg c t m l earned e six = absurd (omega arith)
  early-Earns (Request.service_detail_req service_id) msg c t m l earned e six =
      absurd (omega arith)
  early-Earns (Request.payment_service_selection_req PaymentOption.contract services) msg c t m l
        earned e six =
      absurd (omega arith)
  early-Earns (Request.payment_service_selection_req PaymentOption.external_payment services) msg c
        t m l earned e six =
      absurd (omega arith)
  early-Earns (Request.payment_details_req chain challenge) msg c t m l earned e six =
      absurd (omega arith)
  early-Earns (Request.certificate_installation_req pb dc waits) msg c t m l earned e six =
      let four = installation-state pb dc waits c in absurd (omega arith)
  early-Earns (Request.authorization_req req) msg c t m l earned e six =
      subst (λ x. Earns x c (handle_iso_authorization u req c)) (sym m)
        (authorization-Earns req c t) earned e six
  early-Earns (Request.session_stop_req session) msg c t m l earned e six = cc
  early-Earns Request.certificate_update_req msg c t m l earned e six =
      or_right (grants (send_response msg (answer u u.unset_code))) (was_authorized c.out)
        (earned six)
  early-Earns Request.other_req msg c t m l earned e six =
      or_right (grants (send_response msg (answer u u.unset_code))) (was_authorized c.out)
        (earned six)
  early-Earns req msg c t m l earned e six = cc
