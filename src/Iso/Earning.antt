-- ===== src/Iso/Earning.antt =====
-- What a whole request of modules/EvseV2G/iso_server.cpp leaves of an earned state.
use everest_core_dev.Common.{
  ℕ, ◌≤◌, ◌≡◌, refl, ◌∙◌, true, false, ◌∷◌, arith, if◌then◌else◌, inl, inr, Bool-cases,
}
use everest_core_dev.Iso.Messages.{V2gEvent, ResponseCode}
use everest_core_dev.Iso.Context.{
  Context, Undefined, Response, send_response, iso_validate_response_code, PaymentOption,
}
use everest_core_dev.Iso.Setup.{
  check_authorization, handle_iso_session_setup, handle_iso_service_discovery,
  handle_iso_service_detail, handle_iso_payment_service_selection, handle_iso_payment_details,
  handle_iso_authorization,
}
use everest_core_dev.Iso.Charging.{
  choose_tuple, delivery_code, progress, after_delivery, parameter_response, ChargeProgress,
  handle_iso_charge_parameter_discovery, handle_iso_power_delivery, handle_iso_charging_status,
  handle_iso_metering_receipt, handle_iso_certificate_update, handle_iso_certificate_installation,
  handle_iso_cable_check, handle_iso_pre_charge, handle_iso_current_demand,
  handle_iso_welding_detection, handle_iso_session_stop,
}
use everest_core_dev.Iso.Requests.{Request, announce, handle, iso_handle_request, is_ignored}
use everest_core_dev.Iso.Connection.{respond_to}
use everest_core_dev.Iso.Handlers.{progress-same}
use everest_core_dev.Iso.Accepted.{msg_of-msg_of}
use everest_core_dev.Iso.Late.{
  is_late, was_authorized, IsEarned, stays_open, progress-flag, delivery-flag,
}
use everest_core_dev.Iso.Earned.{late-Earns, early-Earns, installation-state}

module _ (u : Undefined) where
  delivery-current :
      (p : ChargeProgress) (c : Context) (code : ResponseCode)
      → (after_delivery u p c code).0.current_v2g_msg ≡ c.current_v2g_msg
  unfolding after_delivery
  delivery-current p c code = ground arith

  announced-out :
      (id : ℕ) (req : Request) (c : Context)
      → was_authorized (announce id req c).out ≡ was_authorized c.out
  announced-out id (Request.authorization_req req) c = ground arith
  announced-out id Request.cable_check_req c = ground arith
  announced-out id Request.current_demand_req c = ground arith
  announced-out id req c = refl

  handle-current :
      (req : Request) (c : Context) → (handle u req c).0.current_v2g_msg ≡ c.current_v2g_msg
  unfolding handle handle_iso_payment_service_selection handle_iso_power_delivery
      handle_iso_certificate_installation after_delivery
  handle-current (Request.payment_service_selection_req PaymentOption.contract services) c = refl
  handle-current (Request.payment_service_selection_req PaymentOption.external_payment services) c =
      refl
  handle-current (Request.power_delivery_req p tuple_id waits) c =
      delivery-current p (choose_tuple u tuple_id (progress u p waits c).0)
        (iso_validate_response_code u
          (delivery_code u p tuple_id (progress u p waits c).0 (progress u p waits c).1)
          (choose_tuple u tuple_id (progress u p waits c).0)).0
      ∙ (progress-same u c p waits).4
  handle-current (Request.certificate_installation_req pb dc waits) c = ground arith
  handle-current req c = refl

  checked-not_ignored :
      (code : ResponseCode) (c : Context)
      → is_ignored u (iso_validate_response_code u code c).1 ≡ false
  unfolding iso_validate_response_code
  checked-not_ignored code c = ground arith

  -- Only what is no request is ignored.
  ignored-kept :
      (req : Request) (c : Context)
      → IsEarned c
      → is_ignored u (handle u req c).2 ≡ true
      → 6 ≤ (handle u req c).0.state
      → was_authorized (handle u req c).0.out ≡ true
  unfolding handle handle_iso_session_setup handle_iso_service_discovery handle_iso_service_detail
      handle_iso_payment_service_selection handle_iso_payment_details handle_iso_authorization
      handle_iso_charge_parameter_discovery handle_iso_power_delivery handle_iso_charging_status
      handle_iso_metering_receipt handle_iso_certificate_update handle_iso_certificate_installation
      handle_iso_cable_check handle_iso_pre_charge handle_iso_current_demand
      handle_iso_welding_detection handle_iso_session_stop
  ignored-kept (Request.session_setup_req drawn) c earned e six = absurd (omega arith)
  ignored-kept Request.service_discovery_req c earned e six = absurd (omega arith)
  ignored-kept (Request.service_detail_req service_id) c earned e six = absurd (omega arith)
  ignored-kept (Request.payment_service_selection_req PaymentOption.contract services) c earned e
        six =
      absurd (omega arith)
  ignored-kept (Request.payment_service_selection_req PaymentOption.external_payment services) c
        earned e six =
      absurd (omega arith)
  ignored-kept (Request.payment_details_req chain challenge) c earned e six = absurd (omega arith)
  ignored-kept (Request.certificate_installation_req pb dc waits) c earned e six =
      let four = installation-state u pb dc waits c in absurd (omega arith)
  ignored-kept Request.other_req c earned e six = earned six
  ignored-kept (Request.authorization_req req) c earned e six =
      cc (checked-not_ignored (check_authorization u req c).response_code c, e)
  ignored-kept (Request.charge_parameter_discovery_req mode has_ac has_dc) c earned e six = cc (
    checked-not_ignored (parameter_response u mode has_ac has_dc c).response_code
        (record c { renegotiation_required = false }),
    e,
  )
  ignored-kept (Request.power_delivery_req p tuple_id waits) c earned e six =
      let w = progress u p waits c in
      cc (checked-not_ignored (delivery_code u p tuple_id w.0 w.1) (choose_tuple u tuple_id w.0), e)
  ignored-kept Request.charging_status_req c earned e six =
      cc (checked-not_ignored ResponseCode.ok c, e)
  ignored-kept Request.metering_receipt_req c earned e six =
      cc (checked-not_ignored ResponseCode.ok c, e)
  ignored-kept Request.cable_check_req c earned e six =
      cc (checked-not_ignored ResponseCode.ok c, e)
  ignored-kept Request.pre_charge_req c earned e six = cc (checked-not_ignored ResponseCode.ok c, e)
  ignored-kept Request.current_demand_req c earned e six =
      cc (checked-not_ignored ResponseCode.ok c, e)
  ignored-kept Request.welding_detection_req c earned e six =
      cc (checked-not_ignored ResponseCode.ok c, e)
  ignored-kept req c earned e six = cc

  pub request-IsEarned :
      (id : ℕ) (req : Request) (c : Context)
      → c.terminate_connection_on_failed_response ≡ true
      → IsEarned c
      → let a = iso_handle_request u id req c in
        let k = respond_to a.2 a.1 a.0 in k.is_open ≡ true → IsEarned k.ctx
  unfolding iso_handle_request
  request-IsEarned id req c t earned =
      let c0 = announce id req c in
      let a = handle u req c0 in
      let m = msg_of-msg_of req c.current_v2g_msg in
      go a.2 a.1 a.0
        (λ e six. elim (Bool-cases (is_late req)) [
          | inl l ↦ late-Earns u req a.0.current_v2g_msg c0 t m l earned0 e six
          | inr l ↦
              early-Earns u req a.0.current_v2g_msg c0 t (handle-current req c0 ∙ m) l earned0 e six
        ])
        (λ e six. ignored-kept req c0 earned0 e six)
    where
      earned0 : IsEarned (announce id req c)
      earned0 six = announced-out id req c ∙ earned six

      go :
          (event : V2gEvent) (res : Response) (c' : Context)
          → (stays_open event ≡ true
              → 6 ≤ c'.state
              → was_authorized (send_response c'.current_v2g_msg res ∷ c'.out) ≡ true)
          → (is_ignored u event ≡ true → 6 ≤ c'.state → was_authorized c'.out ≡ true)
          → let k = respond_to event res (
              if is_ignored u event then c' else record c' { last_v2g_msg = c'.current_v2g_msg }) in
            k.is_open ≡ true → IsEarned k.ctx
      go V2gEvent.no_event res c' f g o six = f refl six
      go V2gEvent.send_recv_exi_msg res c' f g o six = f refl six
      go V2gEvent.send_and_terminate res c' f g o six = cc
      go V2gEvent.terminate_connection res c' f g o six = cc
      go V2gEvent.ignore_msg res c' f g o six = g refl six

  -- The connection's setting stays.
  pub keeps-flag :
      (req : Request) (c : Context)
      → (handle u req c).0.terminate_connection_on_failed_response
        ≡ c.terminate_connection_on_failed_response
  unfolding handle handle_iso_payment_service_selection handle_iso_power_delivery
      handle_iso_certificate_installation
  keeps-flag (Request.payment_service_selection_req PaymentOption.contract services) c = refl
  keeps-flag (Request.payment_service_selection_req PaymentOption.external_payment services) c =
      refl
  keeps-flag (Request.power_delivery_req p tuple_id waits) c =
      let w = progress u p waits c in
      let c2 = choose_tuple u tuple_id w.0 in
      delivery-flag u p c2 (iso_validate_response_code u (delivery_code u p tuple_id w.0 w.1) c2).0
      ∙ progress-flag u c p waits
  keeps-flag (Request.certificate_installation_req pb dc waits) c = ground arith
  keeps-flag req c = refl
