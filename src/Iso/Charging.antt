-- ===== src/Iso/Charging.antt =====
-- The handlers of modules/EvseV2G/iso_server.cpp from the charge parameters on.
use everest_core_dev.Common.{
  ℕ, Bool, true, false, not, ◌&&◌, ◌||◌, List, [], ◌∷◌, ◌==◌, if◌then◌else◌,
}
use everest_core_dev.Iso.Messages.{
  current_demand_msg, charging_status_msg, no_event, send_and_terminate, send_recv_exi_msg,
  ResponseCode, ok, code_failed, failed_wrong_energy_transfer_mode, failed_wrong_charge_parameter,
  failed_contactor_error, failed_power_delivery_not_applied, failed_tariff_selection_invalid,
  same_msg,
}
use everest_core_dev.Iso.AcState
use everest_core_dev.Iso.DcState
use everest_core_dev.Iso.Context.{
  Context, Evse, Undefined, Response, Processing, ongoing, publish, to_state, with_evse,
  is_contract, is_finished, iso_validate_response_code, publish_v2g_setup_finished,
  publish_current_demand_finished, publish_ac_close_contactor, publish_ac_open_contactor,
  publish_dc_open_contactor, publish_ev_charging_session_terminate,
}
use everest_core_dev.Iso.Setup.{Answer, respond, answer, is_in}

-- `iso1chargeProgressType`, with any other value.
pub data ChargeProgress : Type 0 where
  progress_start progress_stop progress_renegotiate progress_unknown : ChargeProgress

abbrev pub is_start : ChargeProgress → Bool
is_start progress_start = true
is_start _ = false

abbrev pub is_stop : ChargeProgress → Bool
is_stop progress_stop = true
is_stop _ = false

abbrev pub is_renegotiate : ChargeProgress → Bool
is_renegotiate progress_renegotiate = true
is_renegotiate _ = false

-- `iso1chargingSessionType`, with any other value.
pub data ChargingSession : Type 0 where
  session_terminate session_pause session_unknown : ChargingSession

abbrev pub stop_code : ChargingSession → ResponseCode → ResponseCode
stop_code session_pause code = code_failed
stop_code _ code = code

-- The wait for the contactor: what each wake-up finds, until the timeout, and whether it came.
unfoldable pub wait_for_contactor : Evse → List Evse → Evse × Bool
wait_for_contactor e [] = (
  e,
  not e.contactor_is_closed
      && not e.intl_emergency_shutdown
      && not e.stop_hlc
      && not e.is_connection_terminated,
)
wait_for_contactor e (next ∷ later) =
    let rest = wait_for_contactor next later in
    if not e.contactor_is_closed
      && not e.intl_emergency_shutdown
      && not e.stop_hlc
      && not e.is_connection_terminated
    then rest
    else (e, false)

-- The wait for a certificate. Its loop goes on only while an emergency shutdown is signalled.
unfoldable pub wait_for_certificate : Evse → List Evse → Evse
wait_for_certificate e [] = e
wait_for_certificate e (next ∷ later) =
    let rest = wait_for_certificate next later in
    if not e.cert_install_res
      && e.intl_emergency_shutdown
      && not e.stop_hlc
      && not e.is_connection_terminated
    then rest
    else e

module _ (u : Undefined) where
  abbrev pub parameter_response : ℕ → Bool → Bool → Context → Response
  parameter_response mode has_ac has_dc c = record {
    response_code =
        if (if c.is_dc_charger then has_ac else has_dc)
        then failed_wrong_charge_parameter
        else if is_in mode c.evse.energy_transfer_modes
        then ok
        else failed_wrong_energy_transfer_mode;
    evse_processing =
        if is_finished c.evse.parameter_processing then Processing.finished else ongoing;
  }

  abbrev pub parameter_state : Context → ℕ
  parameter_state c =
      if is_finished c.evse.parameter_processing
      then (if c.is_dc_charger then DcState.wait_for_cablecheck else AcState.wait_for_powerdelivery)
      else DcState.wait_for_chargeparameterdiscovery

  -- The schedules and the limits are left out.
  unfoldable pub handle_iso_charge_parameter_discovery : ℕ → Bool → Bool → Context → Answer
  unfolding iso_validate_response_code
  handle_iso_charge_parameter_discovery mode has_ac has_dc c =
      respond u (parameter_response mode has_ac has_dc c)
        (record c { renegotiation_required = false }) (to_state (parameter_state c))

  -- The case of ChargeProgress: the context, and the code so far.
  unfoldable pub progress : ChargeProgress → List Evse → Context → Context × ResponseCode
  unfolding wait_for_contactor
  progress progress_start waits c =
      let c1 = publish publish_v2g_setup_finished c in
      if not c.is_dc_charger && not c.evse.contactor_is_closed
      then (let (evse', timed_out) = wait_for_contactor c.evse waits in
          (
            record (publish publish_ac_close_contactor c1) { is_charging = true; evse = evse' },
            if timed_out then failed_contactor_error else ok,
          ))
      else (c1, ok)
  progress progress_stop waits c =
      let c1 = record c { is_charging = false } in
      if not c.is_dc_charger
      then (publish publish_ac_open_contactor c1, ok)
      else (publish publish_dc_open_contactor (publish publish_current_demand_finished c1), ok)
  progress progress_renegotiate waits c = (record c { renegotiation_required = true }, ok)
  progress progress_unknown waits c = (c, code_failed)

  -- The state after a PowerDeliveryReq, and the code that the last test sets.
  unfoldable pub after_delivery : ChargeProgress → Context → ResponseCode → Context × ResponseCode
  after_delivery p c code =
      let after_charging =
        same_msg c.last_v2g_msg current_demand_msg || same_msg c.last_v2g_msg charging_status_msg in
      if is_renegotiate p && after_charging
      then (
        to_state DcState.wait_for_chargeparameterdiscovery (
            if c.is_dc_charger
            then with_evse (record c.evse { isolation_processing = ongoing }) c
            else c),
        code,
      )
      else if is_start p && not after_charging
      then (
        to_state
            (if c.is_dc_charger
              then DcState.wait_for_currentdemand
              else AcState.wait_for_chargingstatus)
            c,
        code,
      )
      else (
        to_state
            (if c.is_dc_charger
              then DcState.wait_for_weldingdetection_sessionstop
              else AcState.wait_for_sessionstop)
            c,
        if is_stop p then code else code_failed,
      )

  abbrev pub choose_tuple : ℕ → Context → Context
  choose_tuple tuple_id c = record c {
    sa_schedule_tuple_id =
        if is_in tuple_id c.evse.sa_schedule_tuple_ids then tuple_id else c.sa_schedule_tuple_id;
  }

  -- The code before the check, from the one of the case of ChargeProgress.
  abbrev pub delivery_code : ChargeProgress → ℕ → Context → ResponseCode → ResponseCode
  delivery_code p tuple_id c code =
      if not (is_in tuple_id c.evse.sa_schedule_tuple_ids)
      then failed_tariff_selection_invalid
      else if c.is_dc_charger && is_start p && not c.evse.evse_is_ready
      then failed_power_delivery_not_applied
      else code

  -- The check of the charging profile only logs.
  unfoldable pub handle_iso_power_delivery : ChargeProgress → ℕ → List Evse → Context → Answer
  unfolding iso_validate_response_code progress after_delivery
  handle_iso_power_delivery p tuple_id waits c =
      let (c1, code1) = progress p waits c in
      let c2 = choose_tuple tuple_id c1 in
      let (code2, event) = iso_validate_response_code u (delivery_code p tuple_id c1 code1) c2 in
      let (c3, code3) = after_delivery p c2 code2 in (c3, answer u code3, event)

  unfoldable pub handle_iso_charging_status : Context → Answer
  unfolding iso_validate_response_code
  handle_iso_charging_status c = respond u (answer u ok) c (
      to_state (
        if c.evse.receipt_required == 1
        then AcState.wait_for_meteringreceipt
        else AcState.wait_for_chargingstatus_powerdelivery))

  unfoldable pub handle_iso_metering_receipt : Context → Answer
  unfolding iso_validate_response_code
  handle_iso_metering_receipt c = respond u (answer u ok) c (
      to_state (
        if c.is_dc_charger
        then DcState.wait_for_currentdemand_powerdelivery
        else AcState.wait_for_chargingstatus_powerdelivery))

  unfoldable pub handle_iso_certificate_update : Context → Answer
  handle_iso_certificate_update c = (c, answer u u.unset_code, no_event)

  -- `is_publishable` and `is_decoded` say whether base64 encoding and decoding succeed.
  unfoldable pub handle_iso_certificate_installation : Bool → Bool → List Evse → Context → Answer
  unfolding iso_validate_response_code wait_for_certificate
  handle_iso_certificate_installation is_publishable is_decoded waits c =
      let c1 = with_evse (wait_for_certificate c.evse waits) c in
      if not is_publishable
      then respond u (answer u u.unset_code) c (to_state DcState.wait_for_paymentdetails)
      else if not c1.evse.cert_install_res
      then respond u (answer u code_failed) c1 (to_state DcState.wait_for_paymentdetails)
      else if is_decoded
      then (to_state DcState.wait_for_paymentdetails c1, answer u u.unset_code, send_recv_exi_msg)
      else respond u (answer u u.unset_code) c1 (to_state DcState.wait_for_paymentdetails)

  unfoldable pub handle_iso_cable_check : Context → Answer
  unfolding iso_validate_response_code
  handle_iso_cable_check c =
      respond u (record { response_code = ok; evse_processing = c.evse.isolation_processing }) c
        (to_state (
          if is_finished c.evse.isolation_processing
          then DcState.wait_for_precharge
          else DcState.wait_for_cablecheck))

  unfoldable pub handle_iso_pre_charge : Context → Answer
  unfolding iso_validate_response_code
  handle_iso_pre_charge c =
      respond u (answer u ok) c (to_state DcState.wait_for_precharge_powerdelivery)

  -- The limits and the meter are left out.
  unfoldable pub handle_iso_current_demand : Context → Answer
  unfolding iso_validate_response_code
  handle_iso_current_demand c = respond u (answer u ok) c (
      to_state (
        if is_contract c.selected_payment_option && c.evse.receipt_required == 1
        then DcState.wait_for_meteringreceipt
        else DcState.wait_for_currentdemand_powerdelivery))

  unfoldable pub handle_iso_welding_detection : Context → Answer
  unfolding iso_validate_response_code
  handle_iso_welding_detection c =
      respond u (answer u ok) c (to_state DcState.wait_for_weldingdetection_sessionstop)

  -- Sleep mode is switched off in the source: a pause fails.
  unfoldable pub handle_iso_session_stop : ChargingSession → Context → Answer
  unfolding iso_validate_response_code
  handle_iso_session_stop session c =
      let (code, event) = iso_validate_response_code u ok c in
      (
        to_state DcState.wait_for_terminated_session
            (publish publish_ev_charging_session_terminate c),
        answer u (stop_code session code),
        send_and_terminate,
      )
