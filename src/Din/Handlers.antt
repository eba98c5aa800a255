-- ===== src/Din/Handlers.antt =====
-- The handlers of modules/EvseV2G/din_server.cpp: the code of the response, and the next state.
use everest_core_dev.Common.{
  ℕ, Bool, true, false, not, ◌&&◌, ◌||◌, Option, none, some, List, [], ◌∷◌, ◌==◌, if◌then◌else◌,
}
use everest_core_dev.Iso.Messages.{current_demand_msg, same_msg, V2gEvent, send_and_terminate}
use everest_core_dev.Din.{
  DinStateId, wait_for_servicediscovery, wait_for_paymentserviceselection, wait_for_authorization,
  wait_for_chargeparameterdiscovery, wait_for_cablecheck, wait_for_precharge,
  wait_for_precharge_powerdelivery, wait_for_currentdemand, wait_for_currentdemand_powerdelivery,
  wait_for_weldingdetection_sessionstop, wait_for_terminated_session, DinResponseCode, ok,
  ok_new_session_established, code_failed, failed_service_selection_invalid,
  failed_payment_selection_invalid, failed_wrong_charge_parameter,
  failed_power_delivery_not_applied, failed_tariff_selection_invalid,
  failed_wrong_energy_transfer_type, Response, publish_current_demand_finished,
  publish_dc_open_contactor, publish_ev_charging_session_terminate, Context, OpenV2g, publish,
  din_validate_response_code,
}

-- The session, the response and the event after a request.
abbrev pub Answer : Type 0
Answer = Context × Response × V2gEvent

-- The check of a response at the end of a handler, and the next state.
abbrev pub respond : Response → DinStateId → Context → Answer
respond res next c =
    let (code, event) = din_validate_response_code res.response_code c in
    (record c { state = next }, record res { response_code = code }, event)

abbrev pub schedule_tuple_id : ℕ
schedule_tuple_id = 1

abbrev pub is_checked : Response → Bool
is_checked res = res.is_finished && res.isolation_is_good && res.is_ready

module _ (v2g : OpenV2g) where
  abbrev pub answer : DinResponseCode → Response
  answer code = record v2g.init_response { response_code = code }

  -- `drawn` is the session id of the random generator.
  unfoldable pub handle_din_session_setup : ℕ → Context → Answer
  unfolding din_validate_response_code
  handle_din_session_setup drawn c =
      respond (answer ok_new_session_established) wait_for_servicediscovery
        (record c { session_id = if c.session_id == 0 then drawn else c.session_id })

  abbrev pub correct_mode : Context → Context
  correct_mode c = record c {
    evse = record c.evse {
      energy_transfer_mode =
          if c.evse.energy_transfer_mode == v2g.iso_dc_core
            || c.evse.energy_transfer_mode == v2g.iso_dc_extended
          then c.evse.energy_transfer_mode
          else v2g.iso_dc_extended;
    };
  }

  unfoldable pub handle_din_service_discovery : Context → Answer
  unfolding din_validate_response_code
  handle_din_service_discovery c =
      respond (answer ok) wait_for_paymentserviceselection (correct_mode c)

  abbrev pub is_charge_service : List ℕ → ℕ → Bool
  is_charge_service (s ∷ []) id = s == id
  is_charge_service _ id = false

  abbrev pub selection_code : Bool → List ℕ → Context → DinResponseCode
  selection_code is_external services c =
      if is_charge_service services c.evse.charge_service_id
      then (if is_external then ok else failed_payment_selection_invalid)
      else failed_service_selection_invalid

  unfoldable pub handle_din_service_payment_selection : Bool → List ℕ → Context → Answer
  unfolding din_validate_response_code
  handle_din_service_payment_selection is_external services c =
      respond (answer (selection_code is_external services c)) wait_for_authorization c

  unfoldable pub handle_din_contract_authentication : Context → Answer
  unfolding din_validate_response_code
  handle_din_contract_authentication c =
      respond (record (answer ok) { is_finished = c.evse.auth_is_finished })
        (if c.evse.auth_is_finished
          then wait_for_chargeparameterdiscovery
          else wait_for_authorization)
        c

  abbrev pub parameter_code : ℕ → Bool → Context → DinResponseCode
  parameter_code mode ac_is_used c =
      let code =
        if not (mode == v2g.din_dc_core) && not (mode == v2g.din_dc_extended)
          || not (c.evse.energy_transfer_mode == mode)
        then failed_wrong_energy_transfer_type
        else ok in
      if ac_is_used then failed_wrong_charge_parameter else code

  unfoldable pub handle_din_charge_parameter : ℕ → Bool → Context → Answer
  unfolding din_validate_response_code
  handle_din_charge_parameter mode ac_is_used c =
      respond
        (record (answer (parameter_code mode ac_is_used c)) {
          is_finished = c.evse.parameter_is_finished;
        })
        (if c.evse.parameter_is_finished
          then wait_for_cablecheck
          else wait_for_chargeparameterdiscovery)
        c

  -- What an EV that is not ready to charge ends at once.
  abbrev pub stop_charging : Bool → Context → Context
  stop_charging true c = c
  stop_charging false c =
      record (publish publish_dc_open_contactor (publish publish_current_demand_finished c)) {
        is_charging = false;
      }

  abbrev pub tuple_code : Option ℕ → DinResponseCode
  tuple_code none = ok
  tuple_code (some id) = if id == schedule_tuple_id then ok else failed_tariff_selection_invalid

  abbrev pub delivery_code : Bool → Option ℕ → Context → DinResponseCode
  delivery_code ready_to_charge tuple_id c =
      if ready_to_charge && (c.evse.intl_emergency_shutdown || not c.evse.charge_is_ready)
      then failed_power_delivery_not_applied
      else tuple_code tuple_id

  -- The last step of the handler: an EV that is ready again after the current demand is turned away.
  abbrev pub after_delivery : Bool → Answer → Answer
  after_delivery ready_to_charge (c, res, event) =
      if ready_to_charge && not (same_msg c.last_v2g_msg current_demand_msg)
      then (record c { state = wait_for_currentdemand }, res, event)
      else if ready_to_charge
      then (c, record res { response_code = code_failed }, send_and_terminate)
      else (c, res, event)

  unfoldable pub handle_din_power_delivery : Bool → Option ℕ → Context → Answer
  unfolding din_validate_response_code
  handle_din_power_delivery ready_to_charge tuple_id c = after_delivery ready_to_charge (
      respond (answer (delivery_code ready_to_charge tuple_id c))
        wait_for_weldingdetection_sessionstop (stop_charging ready_to_charge c))

  unfoldable pub handle_din_cable_check : Context → Answer
  unfolding din_validate_response_code
  handle_din_cable_check c =
      let res : Response = record {
        response_code = ok;
        is_finished = c.evse.isolation_is_finished;
        isolation_is_good = c.evse.isolation_is_good;
        is_ready = not c.evse.intl_emergency_shutdown && c.evse.isolation_is_ready;
      } in
      respond res (if is_checked res then wait_for_precharge else wait_for_cablecheck) c

  unfoldable pub handle_din_pre_charge : Context → Answer
  unfolding din_validate_response_code
  handle_din_pre_charge c = respond (answer ok) wait_for_precharge_powerdelivery c

  unfoldable pub handle_din_current_demand : Context → Answer
  unfolding din_validate_response_code
  handle_din_current_demand c = respond (answer ok) wait_for_currentdemand_powerdelivery c

  unfoldable pub handle_din_welding_detection : Context → Answer
  unfolding din_validate_response_code
  handle_din_welding_detection c = respond (answer ok) wait_for_weldingdetection_sessionstop c

  -- The event of the check is dropped: the response is sent in any case.
  unfoldable pub handle_din_session_stop : Context → Answer
  unfolding din_validate_response_code
  handle_din_session_stop c =
      let (c2, res, event) =
        respond (answer ok) wait_for_terminated_session
          (publish publish_ev_charging_session_terminate c) in
      (c2, res, send_and_terminate)
