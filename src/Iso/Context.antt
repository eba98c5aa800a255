-- ===== src/Iso/Context.antt =====
-- What modules/EvseV2G/iso_server.cpp keeps of a connection, and its checks before a response is sent.
use everest_core_dev.Common.{ℕ, Bool, true, false, not, ◌&&◌, ◌||◌, List, ◌∷◌, ◌==◌, if◌then◌else◌}
use everest_core_dev.Iso.Messages.{
  V2gMsgTypeId, session_setup_msg, V2gEvent, no_event, terminate_connection, send_and_terminate,
  ResponseCode, ok, code_failed, failed_sequence_error, failed_unknown_session, is_failed, same_msg,
  is_among, allowed_in, iso_ac_states, iso_dc_states,
}

-- `iso1EVSEProcessingType`.
pub data Processing : Type 0 where
  finished ongoing ongoing_waiting_for_customer_interaction : Processing

pub data PaymentOption : Type 0 where
  contract external_payment : PaymentOption

-- What the rest of the program sets while a session runs, of `v2g_context`. `evse_is_ready` is a
-- status code EVSE_Ready of the charge phase.
pub record Evse : Type 0 where
  pub stop_hlc : Bool
  pub intl_emergency_shutdown : Bool
  pub is_connection_terminated : Bool
  pub auth_processing : Processing
  pub parameter_processing : Processing
  pub isolation_processing : Processing
  pub contactor_is_closed : Bool
  pub evse_is_ready : Bool
  pub receipt_required : ℕ
  pub payment_option_list : List PaymentOption
  pub evse_service_list : List ℕ
  pub energy_transfer_modes : List ℕ
  pub sa_schedule_tuple_ids : List ℕ
  pub cert_install_res : Bool

-- A response, by what the server's own control reads of it.
pub record Response : Type 0 where
  pub response_code : ResponseCode
  pub evse_processing : Processing

-- What is published that another module acts on, and the responses.
pub data Output : Type 0 where
  publish_selected_payment_option : PaymentOption → Output
  publish_require_auth_eim publish_v2g_setup_finished publish_start_cable_check : Output
  publish_current_demand_started publish_current_demand_finished : Output
  publish_ac_close_contactor publish_ac_open_contactor publish_dc_open_contactor : Output
  publish_ev_charging_session_terminate : Output
  send_response : V2gMsgTypeId → Response → Output

pub record Context : Type 0 where
  pub is_dc_charger : Bool
  pub terminate_connection_on_failed_response : Bool
  pub debug_mode : Bool
  pub is_tls_connection : Bool
  pub evse : Evse
  pub state : ℕ
  pub current_v2g_msg : V2gMsgTypeId
  pub last_v2g_msg : V2gMsgTypeId
  pub session_id : ℕ
  pub received_session_id : ℕ
  pub selected_payment_option : PaymentOption
  pub gen_challenge : List ℕ
  pub valid_crt : Bool
  pub sa_schedule_tuple_id : ℕ
  pub is_charging : Bool
  pub renegotiation_required : Bool
  pub out : List Output

-- What the codec leaves in a response that a handler does not fill, and what lies behind a table.
pub record Undefined : Type 0 where
  pub unset_code : ResponseCode
  pub unset_processing : Processing
  pub beyond : List V2gMsgTypeId

abbrev pub publish : Output → Context → Context
publish o c = record c { out = o ∷ c.out }

abbrev pub to_state : ℕ → Context → Context
to_state s c = record c { state = s }

abbrev pub with_evse : Evse → Context → Context
with_evse e c = record c { evse = e }

abbrev pub is_contract : PaymentOption → Bool
is_contract contract = true
is_contract external_payment = false

abbrev pub is_finished : Processing → Bool
is_finished finished = true
is_finished _ = false

unfoldable pub iso_validate_state : Undefined → ℕ → V2gMsgTypeId → Bool → ResponseCode
unfolding allowed_in
iso_validate_state u state msg is_dc =
    if is_among msg (allowed_in u.beyond (if is_dc then iso_dc_states else iso_ac_states) state)
    then ok
    else failed_sequence_error

-- The code that is sent, of the one that the handler has set.
unfoldable pub validated_code : Undefined → ResponseCode → Context → ResponseCode
unfolding iso_validate_state
validated_code u code c =
    let code1 = if c.evse.stop_hlc || c.evse.intl_emergency_shutdown then code_failed else code in
    let checked = iso_validate_state u c.state c.current_v2g_msg c.is_dc_charger in
    let code2 = if is_failed checked then checked else code1 in
    if not (same_msg c.current_v2g_msg session_setup_msg)
      && not (c.session_id == c.received_session_id)
    then failed_unknown_session
    else code2

-- `iso_validate_response_code`: the code and the event.
unfoldable pub iso_validate_response_code :
    Undefined → ResponseCode → Context → ResponseCode × V2gEvent
unfolding validated_code
iso_validate_response_code u code c =
    if c.evse.is_connection_terminated
    then (code, terminate_connection)
    else let code' = validated_code u code c in
      (
        code',
        if c.terminate_connection_on_failed_response && is_failed code'
            then send_and_terminate
            else no_event,
      )
