-- ===== src/Iso/Scenarios.antt =====
-- An AC session of the ISO 15118-2 server of modules/EvseV2G, and the theorems on it.
use everest_core_dev.Common.{◌≡◌, refl, true, false, ◌||◌, none, List, [], ◌∷◌, ◌==◌}
use everest_core_dev.Iso.Messages.{V2gMsgTypeId, ResponseCode, same_msg}
use everest_core_dev.Iso.Context.{Context, Evse, Undefined, Processing, PaymentOption}
use everest_core_dev.Iso.Charging.{ChargeProgress}
use everest_core_dev.Iso.Requests.{Request, iso_handle_request}
use everest_core_dev.Iso.Connection.{Step, connect}
use everest_core_dev.Iso.Tables.{table_allows}
use everest_core_dev.Iso.Owed.{is_accepted}
use everest_core_dev.Iso.Accepted.{accepted-IsAllowed}
use everest_core_dev.Iso.Late.{IsEarned}
use everest_core_dev.Iso.Authorized.{after-IsEarned}
use everest_core_dev.Iso.Contactor.{closes_contactor, delivery-closes_unchecked}

abbrev undefined : Undefined
undefined = record {
  unset_code = ResponseCode.ok;
  unset_processing = Processing.finished;
  beyond = [];
}

abbrev evse : Evse
evse = record {
  stop_hlc = false;
  intl_emergency_shutdown = false;
  is_connection_terminated = false;
  auth_processing = Processing.ongoing;
  parameter_processing = Processing.finished;
  isolation_processing = Processing.ongoing;
  contactor_is_closed = false;
  evse_is_ready = true;
  receipt_required = 0;
  payment_option_list = PaymentOption.external_payment ∷ [];
  evse_service_list = [];
  energy_transfer_modes = 0 ∷ [];
  sa_schedule_tuple_ids = 1 ∷ [];
  cert_install_res = false;
}

abbrev station : Context
station = record {
  is_dc_charger = false;
  terminate_connection_on_failed_response = true;
  debug_mode = false;
  is_tls_connection = false;
  evse = evse;
  state = 1;
  current_v2g_msg = V2gMsgTypeId.session_setup_msg;
  last_v2g_msg = V2gMsgTypeId.session_setup_msg;
  session_id = 77;
  received_session_id = 77;
  selected_payment_option = PaymentOption.external_payment;
  gen_challenge = [];
  valid_crt = false;
  sa_schedule_tuple_id = 0;
  is_charging = false;
  renegotiation_required = false;
  out = [];
}

accepted-IsAllowed_example :
    let c' = (iso_handle_request undefined 77 Request.service_discovery_req station).0 in
    (table_allows undefined false 1 V2gMsgTypeId.service_discovery_msg ≡ true)
    × (same_msg V2gMsgTypeId.service_discovery_msg V2gMsgTypeId.session_setup_msg ≡ false
        → (77 == 77) ≡ true)
    × ((c'.evse.stop_hlc || c'.evse.intl_emergency_shutdown) ≡ false)
unfolding iso_handle_request table_allows
accepted-IsAllowed_example =
    accepted-IsAllowed undefined 77 Request.service_discovery_req station refl refl refl

abbrev up_to_authorization : List Step
up_to_authorization =
    Step.request 0 (Request.session_setup_req 88)
    ∷ Step.request 77 Request.service_discovery_req
    ∷ Step.request 77
        (Request.payment_service_selection_req PaymentOption.external_payment (1 ∷ []))
    ∷ Step.request 77
        (Request.authorization_req (record { gen_challenge = none; signature = none }))
    ∷ Step.change (record evse { auth_processing = Processing.finished })
    ∷ Step.request 77
        (Request.authorization_req (record { gen_challenge = none; signature = none }))
    ∷ Step.request 77 (Request.charge_parameter_discovery_req 0 true false)
    ∷ []

still_open : (connect undefined station up_to_authorization).is_open ≡ true
unfolding connect
still_open = refl

-- The session is then ready for a PowerDeliveryReq.
state_test : (connect undefined station up_to_authorization).ctx.state ≡ 7
unfolding connect
state_test = refl

after-IsEarned_example : IsEarned (connect undefined station up_to_authorization).ctx
after-IsEarned_example = after-IsEarned undefined station refl up_to_authorization still_open

delivery-closes_unchecked_example :
    let req = Request.power_delivery_req ChargeProgress.progress_start 1 [] in
    let a = iso_handle_request undefined 77 req station in
    (is_accepted undefined a ≡ false) × (closes_contactor a.0.out ≡ true)
unfolding table_allows
delivery-closes_unchecked_example =
    delivery-closes_unchecked undefined 77 1 [] station refl refl refl refl
