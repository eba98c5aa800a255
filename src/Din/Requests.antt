-- ===== src/Din/Requests.antt =====
-- `din_handle_request` of modules/EvseV2G/din_server.cpp, and one DIN connection after the handshake as
-- steps, by `v2g_handle_connection` of v2g_server.cpp.
use everest_core_dev.Common.{ℕ, Bool, true, false, Option, List, [], ◌∷◌, if◌then◌else◌}
use everest_core_dev.Iso.Messages.{
  V2gMsgTypeId, session_setup_msg, service_discovery_msg, payment_service_selection_msg,
  authorization_msg, charge_parameter_discovery_msg, cable_check_msg, pre_charge_msg,
  power_delivery_msg, current_demand_msg, welding_detection_msg, session_stop_msg, unknown_msg,
  same_msg, no_event, terminate_connection, send_and_terminate, send_recv_exi_msg, ignore_msg,
}
use everest_core_dev.Din.{
  wait_for_sessionsetup, Evse, publish_require_auth_eim, publish_start_cable_check,
  publish_current_demand_started, send_response, Context, OpenV2g, publish,
}
use everest_core_dev.Din.Handlers.{
  Answer, handle_din_session_setup, handle_din_service_discovery,
  handle_din_service_payment_selection, handle_din_contract_authentication,
  handle_din_charge_parameter, handle_din_power_delivery, handle_din_cable_check,
  handle_din_pre_charge, handle_din_current_demand, handle_din_welding_detection,
  handle_din_session_stop,
}

-- A request, by what the server reads of it. One that DIN 70121 does not have is `unsupported_req`.
pub data Request : Type 0 where
  not_v2g_message unsupported_req unknown_req : Request
  session_setup_req : ℕ → Request
  service_discovery_req contract_authentication_req : Request
  service_payment_selection_req : Bool → List ℕ → Request
  charge_parameter_discovery_req : ℕ → Bool → Request
  power_delivery_req : Bool → Option ℕ → Request
  cable_check_req pre_charge_req current_demand_req welding_detection_req : Request
  session_stop_req : Request

abbrev pub begin : V2gMsgTypeId → Context → Context
begin msg c = record c { current_v2g_msg = msg }

-- Before a CurrentDemandReq, a ContractAuthenticationReq and a CableCheckReq are handled.
abbrev pub start_demand : Context → Context
start_demand c =
    if same_msg c.last_v2g_msg power_delivery_msg
    then record (publish publish_current_demand_started c) { is_charging = true }
    else c

abbrev pub start_authorization : Context → Context
start_authorization c =
    if same_msg c.last_v2g_msg authorization_msg then c else publish publish_require_auth_eim c

abbrev pub start_check : Context → Context
start_check c =
    if same_msg c.last_v2g_msg charge_parameter_discovery_msg
    then publish publish_start_cable_check c
    else c

module _ (v2g : OpenV2g) where
  unfoldable pub handle : Request → Context → Answer
  unfolding handle_din_session_setup handle_din_service_discovery
      handle_din_service_payment_selection handle_din_contract_authentication
      handle_din_charge_parameter handle_din_power_delivery handle_din_cable_check
      handle_din_pre_charge handle_din_current_demand handle_din_welding_detection
      handle_din_session_stop
  handle not_v2g_message c = (c, v2g.init_response, ignore_msg)
  handle unknown_req c = (c, v2g.init_response, ignore_msg)
  handle unsupported_req c = (begin unknown_msg c, v2g.init_response, ignore_msg)
  handle (session_setup_req drawn) c =
      handle_din_session_setup v2g drawn (begin session_setup_msg c)
  handle service_discovery_req c = handle_din_service_discovery v2g (begin service_discovery_msg c)
  handle (service_payment_selection_req is_external services) c =
      handle_din_service_payment_selection v2g is_external services
        (begin payment_service_selection_msg c)
  handle contract_authentication_req c =
      handle_din_contract_authentication v2g (start_authorization (begin authorization_msg c))
  handle (charge_parameter_discovery_req mode ac_is_used) c =
      handle_din_charge_parameter v2g mode ac_is_used (begin charge_parameter_discovery_msg c)
  handle (power_delivery_req ready_to_charge tuple_id) c =
      handle_din_power_delivery v2g ready_to_charge tuple_id (begin power_delivery_msg c)
  handle cable_check_req c = handle_din_cable_check v2g (start_check (begin cable_check_msg c))
  handle pre_charge_req c = handle_din_pre_charge v2g (begin pre_charge_msg c)
  handle current_demand_req c =
      handle_din_current_demand v2g (begin current_demand_msg (start_demand c))
  handle welding_detection_req c = handle_din_welding_detection v2g (begin welding_detection_msg c)
  handle session_stop_req c = handle_din_session_stop v2g (begin session_stop_msg c)

  abbrev pub receive : ℕ → Request → Context → Context
  receive id not_v2g_message c = c
  receive id _ c = record c { received_session_id = id }

  abbrev pub keep_last : Answer → Answer
  keep_last (c, res, ignore_msg) = (c, res, ignore_msg)
  keep_last (c, res, event) = (record c { last_v2g_msg = c.current_v2g_msg }, res, event)

  unfoldable pub din_handle_request : ℕ → Request → Context → Answer
  unfolding handle
  din_handle_request id req c = keep_last (handle req (receive id req c))

-- A connection ends when it is lost, at a message that cannot be encoded, or at the server's will.
pub data Step : Type 0 where
  request : ℕ → Request → Step
  change : Evse → Step
  lose : Step

pub record Connection : Type 0 where
  pub is_open : Bool
  pub ctx : Context

abbrev pub deliver : Answer → Connection
deliver (c, res, no_event) = record {
  is_open = true;
  ctx = publish (send_response c.current_v2g_msg res) c;
}
deliver (c, res, send_and_terminate) = record {
  is_open = false;
  ctx = publish (send_response c.current_v2g_msg res) c;
}
deliver (c, res, send_recv_exi_msg) = record {
  is_open = true;
  ctx = publish (send_response c.current_v2g_msg res) c;
}
deliver (c, res, ignore_msg) = record { is_open = true; ctx = c }
deliver (c, res, terminate_connection) = record { is_open = false; ctx = c }

-- `v2g_ctx_init_charging_state` at the start of a connection.
unfoldable pub start_session : Context → Context
start_session c = record c {
  evse = record c.evse {
    stop_hlc = false;
    intl_emergency_shutdown = false;
    is_connection_terminated = false;
  };
  last_v2g_msg = unknown_msg;
  current_v2g_msg = unknown_msg;
  state = wait_for_sessionsetup;
  is_charging = false;
  out = [];
}

module _ (v2g : OpenV2g) where
  unfoldable pub step : Step → Connection → Connection
  unfolding din_handle_request
  step (request id req) k = if k.is_open then deliver (din_handle_request v2g id req k.ctx) else k
  step (change evse) k = record k { ctx = record k.ctx { evse = evse } }
  step lose k = record k { is_open = false }

  unfoldable pub run : List Step → Connection → Connection
  unfolding step
  run [] k = k
  run (s ∷ more) k = run more (step s k)

  -- What is sent is recorded from the start of the connection.
  unfoldable pub connect : Context → List Step → Connection
  unfolding run start_session
  connect c steps = run steps (record { is_open = true; ctx = start_session c })
