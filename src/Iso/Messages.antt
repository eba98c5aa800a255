-- ===== src/Iso/Messages.antt =====
-- The messages, response codes and states of modules/EvseV2G/v2g.hpp and iso_server.hpp. A state is
-- its number, since AC and DC share the variable.
use everest_core_dev.Common.{ℕ, zero, suc, Bool, true, false, ◌||◌, List, [], ◌∷◌, ◌==◌}

pub data V2gMsgTypeId : Type 0 where
  supported_app_protocol_msg session_setup_msg service_discovery_msg : V2gMsgTypeId
  service_detail_msg payment_service_selection_msg payment_details_msg : V2gMsgTypeId
  authorization_msg charge_parameter_discovery_msg metering_receipt_msg : V2gMsgTypeId
  certificate_update_msg certificate_installation_msg charging_status_msg : V2gMsgTypeId
  cable_check_msg pre_charge_msg power_delivery_msg current_demand_msg : V2gMsgTypeId
  welding_detection_msg session_stop_msg unknown_msg : V2gMsgTypeId

-- The number of a message, which is its bit in a table.
abbrev pub msg_bit : V2gMsgTypeId → ℕ
msg_bit supported_app_protocol_msg = 0
msg_bit session_setup_msg = 1
msg_bit service_discovery_msg = 2
msg_bit service_detail_msg = 3
msg_bit payment_service_selection_msg = 4
msg_bit payment_details_msg = 5
msg_bit authorization_msg = 6
msg_bit charge_parameter_discovery_msg = 7
msg_bit metering_receipt_msg = 8
msg_bit certificate_update_msg = 9
msg_bit certificate_installation_msg = 10
msg_bit charging_status_msg = 11
msg_bit cable_check_msg = 12
msg_bit pre_charge_msg = 13
msg_bit power_delivery_msg = 14
msg_bit current_demand_msg = 15
msg_bit welding_detection_msg = 16
msg_bit session_stop_msg = 17
msg_bit unknown_msg = 18

abbrev pub same_msg : V2gMsgTypeId → V2gMsgTypeId → Bool
same_msg m n = msg_bit m == msg_bit n

pub data V2gEvent : Type 0 where
  no_event terminate_connection send_and_terminate send_recv_exi_msg ignore_msg : V2gEvent

-- `iso1responseCodeType`, in the order of `isoResponse`.
pub data ResponseCode : Type 0 where
  ok ok_new_session_established ok_old_session_joined ok_certificate_expires_soon : ResponseCode
  code_failed failed_sequence_error failed_service_id_invalid failed_unknown_session : ResponseCode
  failed_service_selection_invalid failed_payment_selection_invalid : ResponseCode
  failed_certificate_expired failed_signature_error failed_no_certificate_available : ResponseCode
  failed_cert_chain_error failed_challenge_invalid failed_contract_canceled : ResponseCode
  failed_wrong_charge_parameter failed_power_delivery_not_applied : ResponseCode
  failed_tariff_selection_invalid failed_charging_profile_invalid : ResponseCode
  failed_metering_signature_not_valid failed_no_charge_service_selected : ResponseCode
  failed_wrong_energy_transfer_mode failed_contactor_error : ResponseCode
  failed_certificate_not_allowed_at_this_evse failed_certificate_revoked : ResponseCode

-- Whether a code is `iso1responseCodeType_FAILED` or greater.
abbrev pub is_failed : ResponseCode → Bool
is_failed ok = false
is_failed ok_new_session_established = false
is_failed ok_old_session_joined = false
is_failed ok_certificate_expires_soon = false
is_failed _ = true

abbrev pub iso_ac_states : List (List V2gMsgTypeId)
iso_ac_states =
    (session_setup_msg ∷ [])
    ∷ (service_discovery_msg ∷ session_stop_msg ∷ [])
    ∷ (service_detail_msg ∷ payment_service_selection_msg ∷ session_stop_msg ∷ [])
    ∷ (payment_details_msg ∷ certificate_installation_msg ∷ certificate_update_msg
        ∷ session_stop_msg ∷ [])
    ∷ (payment_details_msg ∷ session_stop_msg ∷ [])
    ∷ (authorization_msg ∷ session_stop_msg ∷ [])
    ∷ (charge_parameter_discovery_msg ∷ session_stop_msg ∷ [])
    ∷ (power_delivery_msg ∷ session_stop_msg ∷ [])
    ∷ (charging_status_msg ∷ [])
    ∷ (charging_status_msg ∷ power_delivery_msg ∷ [])
    ∷ (metering_receipt_msg ∷ [])
    ∷ (session_stop_msg ∷ [])
    ∷ []
    ∷ []

abbrev pub iso_dc_states : List (List V2gMsgTypeId)
iso_dc_states =
    (session_setup_msg ∷ [])
    ∷ (service_discovery_msg ∷ session_stop_msg ∷ [])
    ∷ (service_detail_msg ∷ payment_service_selection_msg ∷ session_stop_msg ∷ [])
    ∷ (payment_details_msg ∷ authorization_msg ∷ certificate_installation_msg
        ∷ certificate_update_msg ∷ session_stop_msg ∷ [])
    ∷ (payment_details_msg ∷ session_stop_msg ∷ [])
    ∷ (authorization_msg ∷ session_stop_msg ∷ [])
    ∷ (charge_parameter_discovery_msg ∷ session_stop_msg ∷ [])
    ∷ (cable_check_msg ∷ session_stop_msg ∷ [])
    ∷ (pre_charge_msg ∷ session_stop_msg ∷ [])
    ∷ (pre_charge_msg ∷ power_delivery_msg ∷ session_stop_msg ∷ [])
    ∷ (current_demand_msg ∷ power_delivery_msg ∷ [])
    ∷ (current_demand_msg ∷ [])
    ∷ (metering_receipt_msg ∷ [])
    ∷ (welding_detection_msg ∷ session_stop_msg ∷ [])
    ∷ []
    ∷ []

abbrev pub is_among : V2gMsgTypeId → List V2gMsgTypeId → Bool
is_among m [] = false
is_among m (n ∷ more) = same_msg m n || is_among m more

-- The requests that a table allows in a state, or what lies behind its end.
unfoldable pub allowed_in : List V2gMsgTypeId → List (List V2gMsgTypeId) → ℕ → List V2gMsgTypeId
allowed_in beyond [] state = beyond
allowed_in beyond (first ∷ more) zero = first
allowed_in beyond (first ∷ more) (suc state) = allowed_in beyond more state
