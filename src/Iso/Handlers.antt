-- ===== src/Iso/Handlers.antt =====
-- Each handler of modules/EvseV2G/iso_server.cpp accepts only what the tables allow.
use everest_core_dev.Common.{
  ℕ, ◌≡◌, refl, sym, ◌∙◌, Bool, true, false, ◌&&◌, ◌||◌, List, arith, if◌then◌else◌, inl, inr,
  Bool-cases, ◌==◌,
}
use everest_core_dev.Iso.Messages.{V2gMsgTypeId, ResponseCode, is_failed, same_msg}
use everest_core_dev.Iso.Context.{
  Context, Evse, Undefined, iso_validate_response_code, is_contract, is_finished, PaymentOption,
  to_state, with_evse,
}
use everest_core_dev.Iso.AcState
use everest_core_dev.Iso.DcState
use everest_core_dev.Iso.Setup.{
  correct_payment_options, detail_code, selection_code, note_selection, after_selection,
  ContractChain, AuthorizationReq, is_good_chain, keep_chain, check_authorization, authorized_state,
  Answer, answer, handle_iso_session_setup, handle_iso_service_discovery, handle_iso_service_detail,
  handle_iso_payment_service_selection, handle_iso_payment_details, handle_iso_authorization,
}
use everest_core_dev.Iso.Charging.{
  choose_tuple, delivery_code, stop_code, wait_for_certificate, parameter_response, parameter_state,
  progress, after_delivery, ChargeProgress, ChargingSession, handle_iso_charge_parameter_discovery,
  handle_iso_power_delivery, handle_iso_charging_status, handle_iso_metering_receipt,
  handle_iso_certificate_installation, handle_iso_cable_check, handle_iso_pre_charge,
  handle_iso_current_demand, handle_iso_welding_detection, handle_iso_session_stop,
}
use everest_core_dev.Iso.Owed.{
  sends, accepted_parts, same_test, same_allowed, checked-IsAdmitted, respond-IsOwed, alive-sends,
  respond-Owed, is_accepted, IsOwed,
}

module _ (u : Undefined) where
  module _ (c : Context) where
    abbrev Owed : (Context → Answer) → Type 0
    Owed f = is_accepted u (f c) ≡ true → IsOwed u c (f c)

    pub setup-IsOwed :
        (drawn : ℕ)
        → same_msg c.current_v2g_msg V2gMsgTypeId.session_setup_msg ≡ true
        → Owed (handle_iso_session_setup u drawn)
    unfolding handle_iso_session_setup
    setup-IsOwed drawn m e =
        let c1 = record c { session_id = if c.session_id == 0 then drawn else c.session_id } in
        let k =
          respond-IsOwed u (answer u ResponseCode.ok_new_session_established) c1
            (λ c'. record c' { state = 1 }) e in
        record { allowed = k.0.allowed; known = λ n. cc (m, n); goes_on = k.0.goes_on }

    pub discovery-IsOwed : Owed (handle_iso_service_discovery u)
    unfolding handle_iso_service_discovery
    discovery-IsOwed e =
        respond-Owed u c (answer u ResponseCode.ok) (correct_payment_options u c)
          (to_state DcState.wait_for_svcdetail_paymentsvcsel) refl refl refl refl e

    pub detail-IsOwed : (service_id : ℕ) → Owed (handle_iso_service_detail u service_id)
    unfolding handle_iso_service_detail
    detail-IsOwed service_id e =
        respond-Owed u c (answer u (detail_code u service_id c)) (c)
          (to_state DcState.wait_for_svcdetail_paymentsvcsel) refl refl refl refl e

    pub selection-IsOwed :
        (option : PaymentOption) (services : List ℕ)
        → Owed (handle_iso_payment_service_selection u option services)
    unfolding handle_iso_payment_service_selection
    selection-IsOwed PaymentOption.contract services e =
        respond-Owed u c (answer u (selection_code u PaymentOption.contract services c))
          (note_selection u PaymentOption.contract c) (after_selection u PaymentOption.contract)
          refl refl refl refl e
    selection-IsOwed PaymentOption.external_payment services e =
        respond-Owed u c (answer u (selection_code u PaymentOption.external_payment services c))
          (note_selection u PaymentOption.external_payment c)
          (after_selection u PaymentOption.external_payment) refl refl refl refl e

    pub details-IsOwed :
        (chain : ContractChain) (challenge : List ℕ)
        → Owed (handle_iso_payment_details u chain challenge)
    unfolding handle_iso_payment_details
    details-IsOwed chain challenge e =
        respond-Owed u c
          (answer u (
            if is_good_chain u chain c
            then ResponseCode.ok
            else ResponseCode.failed_cert_chain_error))
          (keep_chain u chain challenge c) (to_state DcState.wait_for_authorization) refl refl refl
          refl e

    pub authorization-IsOwed : (req : AuthorizationReq) → Owed (handle_iso_authorization u req)
    unfolding handle_iso_authorization
    authorization-IsOwed req e =
        respond-Owed u c (check_authorization u req c) (c)
          (to_state (authorized_state u (check_authorization u req c))) refl refl refl refl e

    pub parameter-IsOwed :
        (mode : ℕ) (has_ac has_dc : Bool)
        → Owed (handle_iso_charge_parameter_discovery u mode has_ac has_dc)
    unfolding handle_iso_charge_parameter_discovery
    parameter-IsOwed mode has_ac has_dc e =
        respond-Owed u c (parameter_response u mode has_ac has_dc c)
          (record c { renegotiation_required = false }) (to_state (parameter_state u c)) refl refl
          refl refl e

    pub status-IsOwed : Owed (handle_iso_charging_status u)
    unfolding handle_iso_charging_status
    status-IsOwed e =
        respond-Owed u c (answer u ResponseCode.ok) (c)
          (to_state (
            if c.evse.receipt_required == 1
            then AcState.wait_for_meteringreceipt
            else AcState.wait_for_chargingstatus_powerdelivery))
          refl refl refl refl e

    pub receipt-IsOwed : Owed (handle_iso_metering_receipt u)
    unfolding handle_iso_metering_receipt
    receipt-IsOwed e =
        respond-Owed u c (answer u ResponseCode.ok) (c)
          (to_state (
            if c.is_dc_charger
            then DcState.wait_for_currentdemand_powerdelivery
            else AcState.wait_for_chargingstatus_powerdelivery))
          refl refl refl refl e

    pub cable-IsOwed : Owed (handle_iso_cable_check u)
    unfolding handle_iso_cable_check
    cable-IsOwed e =
        respond-Owed u c
          (record {
            response_code = ResponseCode.ok;
            evse_processing = c.evse.isolation_processing;
          })
          (c)
          (to_state (
            if is_finished c.evse.isolation_processing
            then DcState.wait_for_precharge
            else DcState.wait_for_cablecheck))
          refl refl refl refl e

    pub precharge-IsOwed : Owed (handle_iso_pre_charge u)
    unfolding handle_iso_pre_charge
    precharge-IsOwed e =
        respond-Owed u c (answer u ResponseCode.ok) (c)
          (to_state DcState.wait_for_precharge_powerdelivery) refl refl refl refl e

    pub demand-IsOwed : Owed (handle_iso_current_demand u)
    unfolding handle_iso_current_demand
    demand-IsOwed e =
        respond-Owed u c (answer u ResponseCode.ok) (c)
          (to_state (
            if is_contract c.selected_payment_option && c.evse.receipt_required == 1
            then DcState.wait_for_meteringreceipt
            else DcState.wait_for_currentdemand_powerdelivery))
          refl refl refl refl e

    pub welding-IsOwed : Owed (handle_iso_welding_detection u)
    unfolding handle_iso_welding_detection
    welding-IsOwed e =
        respond-Owed u c (answer u ResponseCode.ok) (c)
          (to_state DcState.wait_for_weldingdetection_sessionstop) refl refl refl refl e

    pub installation-IsOwed :
        (is_publishable is_decoded : Bool) (waits : List Evse)
        → Owed (handle_iso_certificate_installation u is_publishable is_decoded waits)
    unfolding handle_iso_certificate_installation
    installation-IsOwed false is_decoded waits e =
        respond-Owed u c (answer u u.unset_code) c (to_state DcState.wait_for_paymentdetails) refl
          refl refl refl e
    installation-IsOwed true is_decoded waits e =
        let c1 = with_evse (wait_for_certificate c.evse waits) c in
        elim (Bool-cases c1.evse.cert_install_res) [
          | inr f ↦ rw f (
              respond-Owed u c (answer u ResponseCode.code_failed) c1
                (to_state DcState.wait_for_paymentdetails) refl refl refl refl (rw f at e))
          | inl f ↦ elim (Bool-cases is_decoded) [
            | inl g ↦ cc (rw (f, g) at e)
            | inr g ↦
                rw (f, g)
                  (respond-Owed u c (answer u u.unset_code) c1
                    (to_state DcState.wait_for_paymentdetails) refl refl refl refl (rw (f, g) at e))
          ]
        ]

    stop_code-ok :
        (session : ChargingSession) (code : ResponseCode)
        → is_failed (stop_code session code) ≡ false
        → is_failed code ≡ false
    stop_code-ok ChargingSession.session_terminate code e = e
    stop_code-ok ChargingSession.session_pause code e = cc
    stop_code-ok ChargingSession.session_unknown code e = e

    pub stop-IsOwed :
        (session : ChargingSession)
        → c.evse.is_connection_terminated ≡ false
        → Owed (handle_iso_session_stop u session)
    unfolding handle_iso_session_stop
    stop-IsOwed session alive e =
        let r = iso_validate_response_code u ResponseCode.ok c in
        let parts = accepted_parts true (is_failed (stop_code session r.0)) e in
        let k =
          checked-IsAdmitted u ResponseCode.ok c (alive-sends u ResponseCode.ok c alive)
            (stop_code-ok session r.0 parts.1) in
        record { allowed = k.0.allowed; known = k.0.known; goes_on = k.0.goes_on }

    after_delivery-ok :
        (p : ChargeProgress) (c' : Context) (code : ResponseCode)
        → is_failed (after_delivery u p c' code).1 ≡ false
        → (is_failed code ≡ false)
          × (((after_delivery u p c' code).0.evse.stop_hlc
                || (after_delivery u p c' code).0.evse.intl_emergency_shutdown)
              ≡ (c'.evse.stop_hlc || c'.evse.intl_emergency_shutdown))
    unfolding after_delivery
    after_delivery-ok p c' code e = ground arith

    pub progress-same :
        (p : ChargeProgress) (waits : List Evse)
        → let c1 = (progress u p waits c).0 in
          (c1.state ≡ c.state)
          × (c1.is_dc_charger ≡ c.is_dc_charger)
          × (c1.session_id ≡ c.session_id)
          × (c1.received_session_id ≡ c.received_session_id)
          × (c1.current_v2g_msg ≡ c.current_v2g_msg)
    unfolding progress
    progress-same ChargeProgress.progress_start waits = ground arith
    progress-same ChargeProgress.progress_stop waits = ground arith
    progress-same ChargeProgress.progress_renegotiate waits = ground arith
    progress-same ChargeProgress.progress_unknown waits = ground arith

    pub power-IsOwed :
        (p : ChargeProgress) (tuple_id : ℕ) (waits : List Evse)
        → Owed (handle_iso_power_delivery u p tuple_id waits)
    unfolding handle_iso_power_delivery
    power-IsOwed p tuple_id waits e =
        let w = progress u p waits c in
        let same = progress-same p waits in
        let c2 = choose_tuple u tuple_id w.0 in
        let code = delivery_code u p tuple_id w.0 w.1 in
        let r = iso_validate_response_code u code c2 in
        let parts = accepted_parts (sends r.1) (is_failed (after_delivery u p c2 r.0).1) e in
        let after = after_delivery-ok p c2 r.0 parts.1 in
        let k = checked-IsAdmitted u code c2 parts.0 after.0 in
        record {
          allowed = sym (same_allowed u c2 c same.0 same.1 same.4) ∙ k.0.allowed;
          known = λ n. same_test same.2 same.3 (k.0.known (rw same.4 n));
          goes_on = after.1 ∙ k.0.goes_on;
        }
