-- ===== src/Iso/Requests.antt =====
-- `iso_handle_request` of modules/EvseV2G/iso_server.cpp, and one connection of v2g_server.cpp after
-- the handshake.
use everest_core_dev.Common.{ℕ, Bool, true, false, not, ◌&&◌, List, ◌∷◌, if◌then◌else◌}
use everest_core_dev.Iso.Messages.{
  V2gMsgTypeId, V2gEvent, ignore_msg, same_msg, session_setup_msg, service_discovery_msg,
  service_detail_msg, payment_service_selection_msg, payment_details_msg, authorization_msg,
  charge_parameter_discovery_msg, metering_receipt_msg, certificate_update_msg,
  certificate_installation_msg, charging_status_msg, cable_check_msg, pre_charge_msg,
  power_delivery_msg, current_demand_msg, welding_detection_msg, session_stop_msg,
}
use everest_core_dev.Iso.Context.{
  Context, Evse, Undefined, Output, PaymentOption, is_contract, publish_require_auth_eim,
  publish_start_cable_check, publish_current_demand_started,
}
use everest_core_dev.Iso.Setup.{
  Answer, answer, ContractChain, AuthorizationReq, handle_iso_session_setup,
  handle_iso_service_discovery, handle_iso_service_detail, handle_iso_payment_service_selection,
  handle_iso_payment_details, handle_iso_authorization,
}
use everest_core_dev.Iso.Charging.{
  ChargeProgress, ChargingSession, handle_iso_charge_parameter_discovery, handle_iso_power_delivery,
  handle_iso_charging_status, handle_iso_metering_receipt, handle_iso_certificate_update,
  handle_iso_certificate_installation, handle_iso_cable_check, handle_iso_pre_charge,
  handle_iso_current_demand, handle_iso_welding_detection, handle_iso_session_stop,
}

-- The body of a request, with what the handler draws, waits for and gets from other libraries.
pub data Request : Type 0 where
  session_setup_req : ℕ → Request
  service_discovery_req : Request
  service_detail_req : ℕ → Request
  payment_service_selection_req : PaymentOption → List ℕ → Request
  payment_details_req : ContractChain → List ℕ → Request
  authorization_req : AuthorizationReq → Request
  charge_parameter_discovery_req : ℕ → Bool → Bool → Request
  power_delivery_req : ChargeProgress → ℕ → List Evse → Request
  charging_status_req metering_receipt_req certificate_update_req : Request
  certificate_installation_req : Bool → Bool → List Evse → Request
  cable_check_req pre_charge_req current_demand_req welding_detection_req : Request
  session_stop_req : ChargingSession → Request
  other_req : Request

-- The type that a request's branch of `iso_handle_request` sets.
abbrev pub msg_of : Request → V2gMsgTypeId → V2gMsgTypeId
msg_of (session_setup_req drawn) before = session_setup_msg
msg_of service_discovery_req before = service_discovery_msg
msg_of (service_detail_req service_id) before = service_detail_msg
msg_of (payment_service_selection_req option services) before = payment_service_selection_msg
msg_of (payment_details_req chain challenge) before = payment_details_msg
msg_of (authorization_req req) before = authorization_msg
msg_of (charge_parameter_discovery_req mode has_ac has_dc) before = charge_parameter_discovery_msg
msg_of (power_delivery_req progress tuple_id waits) before = power_delivery_msg
msg_of charging_status_req before = charging_status_msg
msg_of metering_receipt_req before = metering_receipt_msg
msg_of certificate_update_req before = certificate_update_msg
msg_of (certificate_installation_req is_publishable is_decoded waits) before =
    certificate_installation_msg
msg_of cable_check_req before = cable_check_msg
msg_of pre_charge_req before = pre_charge_msg
msg_of current_demand_req before = current_demand_msg
msg_of welding_detection_req before = welding_detection_msg
msg_of (session_stop_req session) before = session_stop_msg
msg_of other_req before = before

-- What a branch publishes before its handler, by the message before.
abbrev pub announcements : Request → Context → List Output
announcements current_demand_req c =
    if same_msg c.last_v2g_msg power_delivery_msg
    then publish_current_demand_started ∷ c.out
    else c.out
announcements (authorization_req req) c =
    if not (same_msg c.last_v2g_msg authorization_msg)
      && not (is_contract c.selected_payment_option)
    then publish_require_auth_eim ∷ c.out
    else c.out
announcements cable_check_req c =
    if same_msg c.last_v2g_msg charge_parameter_discovery_msg
    then publish_start_cable_check ∷ c.out
    else c.out
announcements req c = c.out

abbrev pub charges_after : Request → Context → Bool
charges_after current_demand_req c =
    if same_msg c.last_v2g_msg power_delivery_msg then true else c.is_charging
charges_after req c = c.is_charging

-- The context that the handler gets.
abbrev pub announce : ℕ → Request → Context → Context
announce id req c = record c {
  received_session_id = id;
  out = announcements req c;
  is_charging = charges_after req c;
  current_v2g_msg = msg_of req c.current_v2g_msg;
}

module _ (u : Undefined) where
  unfoldable pub handle : Request → Context → Answer
  unfolding handle_iso_session_setup handle_iso_service_discovery handle_iso_service_detail
      handle_iso_payment_service_selection handle_iso_payment_details handle_iso_authorization
      handle_iso_charge_parameter_discovery handle_iso_power_delivery handle_iso_charging_status
      handle_iso_metering_receipt handle_iso_certificate_update handle_iso_certificate_installation
      handle_iso_cable_check handle_iso_pre_charge handle_iso_current_demand
      handle_iso_welding_detection handle_iso_session_stop
  handle (session_setup_req drawn) = handle_iso_session_setup u drawn
  handle service_discovery_req = handle_iso_service_discovery u
  handle (service_detail_req service_id) = handle_iso_service_detail u service_id
  handle (payment_service_selection_req option services) =
      handle_iso_payment_service_selection u option services
  handle (payment_details_req chain challenge) = handle_iso_payment_details u chain challenge
  handle (authorization_req req) = handle_iso_authorization u req
  handle (charge_parameter_discovery_req mode has_ac has_dc) =
      handle_iso_charge_parameter_discovery u mode has_ac has_dc
  handle (power_delivery_req progress tuple_id waits) =
      handle_iso_power_delivery u progress tuple_id waits
  handle charging_status_req = handle_iso_charging_status u
  handle metering_receipt_req = handle_iso_metering_receipt u
  handle certificate_update_req = handle_iso_certificate_update u
  handle (certificate_installation_req is_publishable is_decoded waits) =
      handle_iso_certificate_installation u is_publishable is_decoded waits
  handle cable_check_req = handle_iso_cable_check u
  handle pre_charge_req = handle_iso_pre_charge u
  handle current_demand_req = handle_iso_current_demand u
  handle welding_detection_req = handle_iso_welding_detection u
  handle (session_stop_req session) = handle_iso_session_stop u session
  handle other_req = λ c. (c, answer u u.unset_code, ignore_msg)

  abbrev pub is_ignored : V2gEvent → Bool
  is_ignored ignore_msg = true
  is_ignored _ = false

  -- A request with the session id of its header.
  unfoldable pub iso_handle_request : ℕ → Request → Context → Answer
  unfolding handle
  iso_handle_request id req c =
      let (c', res, event) = handle req (announce id req c) in
      (if is_ignored event then c' else record c' { last_v2g_msg = c'.current_v2g_msg }, res, event)
