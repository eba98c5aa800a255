-- ===== src/Din/Points.antt =====
-- A session of modules/EvseV2G's DIN 70121 server with a charger that is ready, request by request.
use everest_core_dev.Common.{
  ℕ, ◌≡◌, refl, Bool, true, false, none, List, [], ◌∷◌, if◌then◌else◌, ==_refl, ap,
}
use everest_core_dev.Iso.Messages.{
  V2gMsgTypeId, session_setup_msg, service_discovery_msg, payment_service_selection_msg,
  authorization_msg, charge_parameter_discovery_msg, cable_check_msg, pre_charge_msg,
  power_delivery_msg, current_demand_msg, welding_detection_msg, session_stop_msg,
}
use everest_core_dev.Din.{
  publish_current_demand_finished, publish_current_demand_started, publish_start_cable_check,
  publish_require_auth_eim, publish_dc_open_contactor, ok, wait_for_currentdemand,
  wait_for_precharge_powerdelivery, wait_for_cablecheck, wait_for_weldingdetection_sessionstop,
  wait_for_precharge, wait_for_authorization, wait_for_chargeparameterdiscovery,
  wait_for_currentdemand_powerdelivery, DinStateId, is_failed, Evse, Output, send_response, OpenV2g,
}
use everest_core_dev.Din.Handlers.{
  answer, after_delivery, handle_din_contract_authentication, handle_din_power_delivery,
  handle_din_cable_check, handle_din_pre_charge, handle_din_current_demand,
  handle_din_welding_detection,
}
use everest_core_dev.Din.Checks.{respond-admitted}
use everest_core_dev.Din.Requests.{
  session_setup_req, service_discovery_req, contract_authentication_req,
  service_payment_selection_req, charge_parameter_discovery_req, power_delivery_req,
  cable_check_req, pre_charge_req, current_demand_req, welding_detection_req, session_stop_req,
  Step, request, change, Connection, deliver, keep_last, handle, din_handle_request, step,
}

-- The requests that were answered without a failure, the last one first.
abbrev pub accepted : List Output → List V2gMsgTypeId
accepted [] = []
accepted (send_response msg res ∷ out) =
    let rest = accepted out in if is_failed res.response_code then rest else msg ∷ rest
accepted (_ ∷ out) = accepted out

-- A charger whose phases are finished, with its charge service and its mode of energy transfer.
abbrev pub ready : ℕ → ℕ → Evse
ready service mode = record {
  stop_hlc = false;
  intl_emergency_shutdown = false;
  is_connection_terminated = false;
  auth_is_finished = true;
  parameter_is_finished = true;
  isolation_is_finished = true;
  isolation_is_good = true;
  isolation_is_ready = true;
  charge_is_ready = true;
  charge_service_id = service;
  energy_transfer_mode = mode;
}

-- The requests of an EV that charges once, in the order of DIN 70121.
abbrev pub requests : ℕ → ℕ → ℕ → ℕ → ℕ → List Step
requests first drawn id service mode =
    request first (session_setup_req drawn)
    ∷ request id service_discovery_req
    ∷ request id (service_payment_selection_req true (service ∷ []))
    ∷ request id contract_authentication_req
    ∷ request id (charge_parameter_discovery_req mode false)
    ∷ request id cable_check_req
    ∷ request id pre_charge_req
    ∷ request id (power_delivery_req true none)
    ∷ request id current_demand_req
    ∷ request id (power_delivery_req false none)
    ∷ request id welding_detection_req
    ∷ request id session_stop_req
    ∷ []

-- The charger is ready before the first of them.
abbrev pub session : ℕ → ℕ → ℕ → ℕ → ℕ → List Step
session first drawn id service mode =
    change (ready service mode) ∷ requests first drawn id service mode

abbrev pub in_order : List V2gMsgTypeId
in_order =
    session_stop_msg ∷ welding_detection_msg ∷ power_delivery_msg ∷ current_demand_msg
    ∷ power_delivery_msg ∷ pre_charge_msg ∷ cable_check_msg ∷ charge_parameter_discovery_msg
    ∷ authorization_msg ∷ payment_service_selection_msg ∷ service_discovery_msg ∷ session_setup_msg
    ∷ []

-- A session with such a charger between two requests.
pub record Point : Type 0 where
  pub strict : Bool
  pub id : ℕ
  pub service : ℕ
  pub mode : ℕ

abbrev pub here : Point → Bool → DinStateId → V2gMsgTypeId → List Output → Connection
here p charging state last out = record {
  is_open = true;
  ctx = record {
    terminate_connection_on_failed_response = p.strict;
    evse = ready p.service p.mode;
    state = state;
    current_v2g_msg = last;
    last_v2g_msg = last;
    session_id = p.id;
    received_session_id = p.id;
    is_charging = charging;
    out = out;
  };
}

-- The requests whose answers the charger alone decides.
pub authorize :
    (v2g : OpenV2g) (p : Point) (charging : Bool) (out : List Output)
    → step v2g
        (request p.id contract_authentication_req)
        (here p charging wait_for_authorization payment_service_selection_msg out)
      ≡ here p charging wait_for_chargeparameterdiscovery authorization_msg (
          send_response authorization_msg (record (answer v2g ok) { is_finished = true })
          ∷ publish_require_auth_eim
          ∷ out)
unfolding step din_handle_request handle handle_din_contract_authentication
authorize v2g p charging out =
    ap (λ a. deliver (keep_last v2g (a)))
      (respond-admitted (record (answer v2g ok) { is_finished = true })
        wait_for_chargeparameterdiscovery
        (record (here p charging wait_for_authorization authorization_msg
          (publish_require_auth_eim ∷ out)).ctx { last_v2g_msg = payment_service_selection_msg })
        refl refl refl (==_refl p.id) refl)

pub check :
    (v2g : OpenV2g) (p : Point) (charging : Bool) (out : List Output)
    → step v2g
        (request p.id cable_check_req)
        (here p charging wait_for_cablecheck charge_parameter_discovery_msg out)
      ≡ here p charging wait_for_precharge cable_check_msg (
          send_response cable_check_msg (record {
            response_code = ok;
            is_finished = true;
            isolation_is_good = true;
            is_ready = true;
          })
          ∷ publish_start_cable_check
          ∷ out)
unfolding step din_handle_request handle handle_din_cable_check
check v2g p charging out =
    ap (λ a. deliver (keep_last v2g (a)))
      (respond-admitted
        (record {
          response_code = ok;
          is_finished = true;
          isolation_is_good = true;
          is_ready = true;
        })
        wait_for_precharge
        (record (here p charging wait_for_cablecheck cable_check_msg
          (publish_start_cable_check ∷ out)).ctx { last_v2g_msg = charge_parameter_discovery_msg })
        refl refl refl (==_refl p.id) refl)

pub precharge :
    (v2g : OpenV2g) (p : Point) (charging : Bool) (out : List Output)
    → step v2g
        (request p.id pre_charge_req)
        (here p charging wait_for_precharge cable_check_msg out)
      ≡ here p charging wait_for_precharge_powerdelivery pre_charge_msg
          (send_response pre_charge_msg (answer v2g ok) ∷ out)
unfolding step din_handle_request handle handle_din_pre_charge
precharge v2g p charging out =
    ap (λ a. deliver (keep_last v2g (a)))
      (respond-admitted (answer v2g ok) wait_for_precharge_powerdelivery
        (record (here p charging wait_for_precharge pre_charge_msg (out)).ctx {
          last_v2g_msg = cable_check_msg;
        })
        refl refl refl (==_refl p.id) refl)

pub start :
    (v2g : OpenV2g) (p : Point) (charging : Bool) (out : List Output)
    → step v2g
        (request p.id (power_delivery_req true none))
        (here p charging wait_for_precharge_powerdelivery pre_charge_msg out)
      ≡ here p charging wait_for_currentdemand power_delivery_msg
          (send_response power_delivery_msg (answer v2g ok) ∷ out)
unfolding step din_handle_request handle handle_din_power_delivery
start v2g p charging out =
    ap (λ a. deliver (keep_last v2g (after_delivery v2g true a)))
      (respond-admitted (answer v2g ok) wait_for_currentdemand
        (record (here p charging wait_for_precharge_powerdelivery power_delivery_msg (out)).ctx {
          last_v2g_msg = pre_charge_msg;
        })
        refl refl refl (==_refl p.id) refl)

pub demand :
    (v2g : OpenV2g) (p : Point) (charging : Bool) (out : List Output)
    → step v2g
        (request p.id current_demand_req)
        (here p charging wait_for_currentdemand power_delivery_msg out)
      ≡ here p true wait_for_currentdemand_powerdelivery current_demand_msg
          (send_response current_demand_msg (answer v2g ok) ∷ publish_current_demand_started ∷ out)
unfolding step din_handle_request handle handle_din_current_demand
demand v2g p charging out =
    ap (λ a. deliver (keep_last v2g (a)))
      (respond-admitted (answer v2g ok) wait_for_currentdemand_powerdelivery
        (record (here p true wait_for_currentdemand current_demand_msg
          (publish_current_demand_started ∷ out)).ctx { last_v2g_msg = power_delivery_msg })
        refl refl refl (==_refl p.id) refl)

pub end :
    (v2g : OpenV2g) (p : Point) (charging : Bool) (out : List Output)
    → step v2g
        (request p.id (power_delivery_req false none))
        (here p charging wait_for_currentdemand_powerdelivery current_demand_msg out)
      ≡ here p false wait_for_weldingdetection_sessionstop power_delivery_msg (
          send_response power_delivery_msg (answer v2g ok)
          ∷ publish_dc_open_contactor
          ∷ publish_current_demand_finished
          ∷ out)
unfolding step din_handle_request handle handle_din_power_delivery
end v2g p charging out =
    ap (λ a. deliver (keep_last v2g (after_delivery v2g false a)))
      (respond-admitted (answer v2g ok) wait_for_weldingdetection_sessionstop
        (record (here p false wait_for_currentdemand_powerdelivery power_delivery_msg
          (publish_dc_open_contactor ∷ publish_current_demand_finished ∷ out)).ctx {
            last_v2g_msg = current_demand_msg;
          })
        refl refl refl (==_refl p.id) refl)

pub weld :
    (v2g : OpenV2g) (p : Point) (charging : Bool) (out : List Output)
    → step v2g
        (request p.id welding_detection_req)
        (here p charging wait_for_weldingdetection_sessionstop power_delivery_msg out)
      ≡ here p charging wait_for_weldingdetection_sessionstop welding_detection_msg
          (send_response welding_detection_msg (answer v2g ok) ∷ out)
unfolding step din_handle_request handle handle_din_welding_detection
weld v2g p charging out =
    ap (λ a. deliver (keep_last v2g (a)))
      (respond-admitted (answer v2g ok) wait_for_weldingdetection_sessionstop
        (record (here p charging wait_for_weldingdetection_sessionstop welding_detection_msg
          (out)).ctx { last_v2g_msg = power_delivery_msg })
        refl refl refl (==_refl p.id) refl)
