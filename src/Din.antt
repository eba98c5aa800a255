-- ===== src/Din.antt =====
-- The DIN 70121 server of modules/EvseV2G, din_server.hpp and the checks of din_server.cpp: the states,
-- the codes, what the server decides by, and `din_validate_response_code`.
use everest_core_dev.Common.{
  ℕ, Bool, true, false, not, ◌&&◌, ◌||◌, List, [], ◌∷◌, ◌==◌, if◌then◌else◌,
}
use everest_core_dev.Iso.Messages.{
  V2gMsgTypeId, session_setup_msg, service_discovery_msg, payment_service_selection_msg,
  authorization_msg, charge_parameter_discovery_msg, cable_check_msg, pre_charge_msg,
  power_delivery_msg, current_demand_msg, welding_detection_msg, session_stop_msg, same_msg,
  is_among, V2gEvent, no_event, terminate_connection, send_and_terminate,
}
pub mod Handlers
pub mod Requests
mod Checks
mod Earned
mod Moves
mod Fine
mod Cleared
mod Points
mod Session
mod Scenarios

pub data DinStateId : Type 0 where
  wait_for_sessionsetup wait_for_servicediscovery wait_for_paymentserviceselection : DinStateId
  wait_for_authorization wait_for_chargeparameterdiscovery wait_for_cablecheck : DinStateId
  wait_for_precharge wait_for_precharge_powerdelivery wait_for_currentdemand : DinStateId
  wait_for_currentdemand_powerdelivery wait_for_weldingdetection_sessionstop : DinStateId
  wait_for_sessionstop wait_for_terminated_session : DinStateId

-- The requests that are allowed in a state.
abbrev pub din_states : DinStateId → List V2gMsgTypeId
din_states wait_for_sessionsetup = session_setup_msg ∷ []
din_states wait_for_servicediscovery = service_discovery_msg ∷ session_stop_msg ∷ []
din_states wait_for_paymentserviceselection = payment_service_selection_msg ∷ session_stop_msg ∷ []
din_states wait_for_authorization = authorization_msg ∷ session_stop_msg ∷ []
din_states wait_for_chargeparameterdiscovery =
    charge_parameter_discovery_msg ∷ session_stop_msg ∷ []
din_states wait_for_cablecheck = cable_check_msg ∷ session_stop_msg ∷ []
din_states wait_for_precharge = pre_charge_msg ∷ session_stop_msg ∷ []
din_states wait_for_precharge_powerdelivery =
    power_delivery_msg ∷ pre_charge_msg ∷ session_stop_msg ∷ []
din_states wait_for_currentdemand = current_demand_msg ∷ []
din_states wait_for_currentdemand_powerdelivery = current_demand_msg ∷ power_delivery_msg ∷ []
din_states wait_for_weldingdetection_sessionstop = welding_detection_msg ∷ session_stop_msg ∷ []
din_states wait_for_sessionstop = session_stop_msg ∷ []
din_states wait_for_terminated_session = []

-- `dinresponseCodeType`, in the order of `dinResponse`.
pub data DinResponseCode : Type 0 where
  ok ok_new_session_established ok_old_session_joined ok_certificate_expires_soon : DinResponseCode
  code_failed failed_sequence_error failed_service_id_invalid : DinResponseCode
  failed_unknown_session failed_service_selection_invalid : DinResponseCode
  failed_payment_selection_invalid failed_certificate_expired : DinResponseCode
  failed_signature_error failed_no_certificate_available : DinResponseCode
  failed_cert_chain_error failed_challenge_invalid failed_contract_canceled : DinResponseCode
  failed_wrong_charge_parameter failed_power_delivery_not_applied : DinResponseCode
  failed_tariff_selection_invalid failed_charging_profile_invalid : DinResponseCode
  failed_evse_present_voltage_too_low failed_metering_signature_not_valid : DinResponseCode
  failed_wrong_energy_transfer_type : DinResponseCode

-- Whether a code is `dinresponseCodeType_FAILED` or greater.
abbrev pub is_failed : DinResponseCode → Bool
is_failed ok = false
is_failed ok_new_session_established = false
is_failed ok_old_session_joined = false
is_failed ok_certificate_expires_soon = false
is_failed _ = true

-- What the rest of the program sets while a session runs. An isolation is good if it is used and
-- valid or with a warning, and a status code is taken as whether it is EVSE_Ready.
pub record Evse : Type 0 where
  pub stop_hlc : Bool
  pub intl_emergency_shutdown : Bool
  pub is_connection_terminated : Bool
  pub auth_is_finished : Bool
  pub parameter_is_finished : Bool
  pub isolation_is_finished : Bool
  pub isolation_is_good : Bool
  pub isolation_is_ready : Bool
  pub charge_is_ready : Bool
  pub charge_service_id : ℕ
  pub energy_transfer_mode : ℕ

-- A response, by what the server's own control reads of it.
pub record Response : Type 0 where
  pub response_code : DinResponseCode
  pub is_finished : Bool
  pub isolation_is_good : Bool
  pub is_ready : Bool

-- What is published that another module acts on, and the responses.
pub data Output : Type 0 where
  publish_require_auth_eim publish_start_cable_check : Output
  publish_current_demand_started publish_current_demand_finished : Output
  publish_dc_open_contactor publish_ev_charging_session_terminate : Output
  send_response : V2gMsgTypeId → Response → Output

pub record Context : Type 0 where
  pub terminate_connection_on_failed_response : Bool
  pub evse : Evse
  pub state : DinStateId
  pub current_v2g_msg : V2gMsgTypeId
  pub last_v2g_msg : V2gMsgTypeId
  pub session_id : ℕ
  pub received_session_id : ℕ
  pub is_charging : Bool
  pub out : List Output

-- OpenV2G's numbers of the modes of energy transfer, and what it leaves in a response before a handler
-- fills it.
pub record OpenV2g : Type 0 where
  pub din_dc_core : ℕ
  pub din_dc_extended : ℕ
  pub iso_dc_core : ℕ
  pub iso_dc_extended : ℕ
  pub init_response : Response

abbrev pub publish : Output → Context → Context
publish o c = record c { out = o ∷ c.out }

unfoldable pub din_validate_state : DinStateId → V2gMsgTypeId → DinResponseCode
din_validate_state state msg = if is_among msg (din_states state) then ok else failed_sequence_error

-- The code that is sent, of the one that the handler has set.
unfoldable pub validated_code : DinResponseCode → Context → DinResponseCode
unfolding din_validate_state
validated_code code c =
    let code1 = if c.evse.stop_hlc || c.evse.intl_emergency_shutdown then code_failed else code in
    let checked = din_validate_state c.state c.current_v2g_msg in
    let code2 = if is_failed checked then checked else code1 in
    if not (same_msg c.current_v2g_msg session_setup_msg)
      && not (c.session_id == c.received_session_id)
    then failed_unknown_session
    else code2

-- `din_validate_response_code`: the code and the event.
unfoldable pub din_validate_response_code : DinResponseCode → Context → DinResponseCode × V2gEvent
unfolding validated_code
din_validate_response_code code c =
    if c.evse.is_connection_terminated
    then (code, terminate_connection)
    else let code' = validated_code code c in
      (
        code',
        if c.terminate_connection_on_failed_response && is_failed code'
            then send_and_terminate
            else no_event,
      )
