-- ===== src/Din/Fine.antt =====
-- The handlers of modules/EvseV2G's DIN 70121 server keep what a state is earned by.
use everest_core_dev.Common.{
  ℕ, ◌≡◌, Bool, true, false, not, ◌&&◌, Option, if◌then◌else◌, inl, inr, Bool-cases, arith,
}
use everest_core_dev.Iso.Messages.{
  authorization_msg, charge_parameter_discovery_msg, cable_check_msg, power_delivery_msg,
  current_demand_msg, same_msg,
}
use everest_core_dev.Din.{
  publish_require_auth_eim, publish_start_cable_check, publish_current_demand_started, publish, ok,
  wait_for_authorization, wait_for_chargeparameterdiscovery, wait_for_cablecheck,
  wait_for_precharge, wait_for_currentdemand, wait_for_currentdemand_powerdelivery,
  wait_for_weldingdetection_sessionstop, Response, Context, OpenV2g,
}
use everest_core_dev.Din.Handlers.{
  parameter_code, is_checked, stop_charging, answer, delivery_code,
  handle_din_contract_authentication, handle_din_charge_parameter, handle_din_power_delivery,
  handle_din_cable_check, handle_din_current_demand,
}
use everest_core_dev.Din.Requests.{begin, start_demand, start_authorization, start_check}
use everest_core_dev.Din.Earned.{IsEarned, IsStrict, IsFine, respond-IsFine}
use everest_core_dev.Din.Moves.{
  auth-Moves, parameter-Moves, check-Moves, power_delivery-late, current_demand-late, late-IsFine,
}

-- Each request on a strict connection whose state is earned.
pub authorize-IsFine :
    (v2g : OpenV2g) (c : Context)
    → IsStrict c
    → IsEarned c.state c.out
    → IsFine
        (handle_din_contract_authentication v2g (start_authorization (begin authorization_msg c)))
unfolding handle_din_contract_authentication
authorize-IsFine v2g c strict earned =
    let res = record (answer v2g ok) { is_finished = c.evse.auth_is_finished } in
    let next =
      if c.evse.auth_is_finished
      then wait_for_chargeparameterdiscovery
      else wait_for_authorization in
    elim (Bool-cases (same_msg c.last_v2g_msg authorization_msg)) [
      | inl e ↦ rw e (
          respond-IsFine res next (begin authorization_msg c) strict earned
            (λ u. auth-Moves res c.state))
      | inr e ↦ rw e (
          respond-IsFine res next (publish publish_require_auth_eim (begin authorization_msg c))
            strict earned (λ u. auth-Moves res c.state))
    ]

pub parameter-IsFine :
    (v2g : OpenV2g) (mode : ℕ) (ac_is_used : Bool) (c : Context)
    → IsStrict c
    → IsEarned c.state c.out
    → c.current_v2g_msg ≡ charge_parameter_discovery_msg
    → IsFine (handle_din_charge_parameter v2g mode ac_is_used c)
unfolding handle_din_charge_parameter
parameter-IsFine v2g mode ac_is_used c strict earned is_parameter =
    let res = record (answer v2g (parameter_code v2g mode ac_is_used c)) {
      is_finished = c.evse.parameter_is_finished;
    } in
    let next =
      if c.evse.parameter_is_finished
      then wait_for_cablecheck
      else wait_for_chargeparameterdiscovery in
    respond-IsFine res next c strict earned
      (rw is_parameter (λ u. parameter-Moves res next c.state (ground arith) u))

pub check-IsFine :
    (v2g : OpenV2g) (c : Context)
    → IsStrict c
    → IsEarned c.state c.out
    → IsFine (handle_din_cable_check v2g (start_check (begin cable_check_msg c)))
unfolding handle_din_cable_check
check-IsFine v2g c strict earned =
    let res : Response = record {
      response_code = ok;
      is_finished = c.evse.isolation_is_finished;
      isolation_is_good = c.evse.isolation_is_good;
      is_ready = not c.evse.intl_emergency_shutdown && c.evse.isolation_is_ready;
    } in
    let next = if is_checked res then wait_for_precharge else wait_for_cablecheck in
    elim (Bool-cases (same_msg c.last_v2g_msg charge_parameter_discovery_msg)) [
      | inl e ↦ rw e (
          respond-IsFine res next (publish publish_start_cable_check (begin cable_check_msg c))
            strict earned (λ u. check-Moves res c.state u))
      | inr e ↦ rw e (
          respond-IsFine res next (begin cable_check_msg c) strict earned
            (λ u. check-Moves res c.state u))
    ]

pub demand-IsFine :
    (v2g : OpenV2g) (c : Context)
    → IsStrict c
    → IsEarned c.state c.out
    → IsFine (handle_din_current_demand v2g (begin current_demand_msg (start_demand c)))
unfolding handle_din_current_demand
demand-IsFine v2g c strict earned = elim (Bool-cases (same_msg c.last_v2g_msg power_delivery_msg)) [
  | inl e ↦ rw e (
      late-IsFine (answer v2g ok) wait_for_currentdemand_powerdelivery
        (begin current_demand_msg
          (record (publish publish_current_demand_started c) { is_charging = true }))
        strict earned (current_demand-late c.state))
  | inr e ↦ rw e (
      late-IsFine (answer v2g ok) wait_for_currentdemand_powerdelivery (begin current_demand_msg c)
        strict earned (current_demand-late c.state))
]

pub delivery-IsFine :
    (v2g : OpenV2g) (ready : Bool) (tuple_id : Option ℕ) (c : Context)
    → IsStrict c
    → IsEarned c.state c.out
    → c.current_v2g_msg ≡ power_delivery_msg
    → IsFine (handle_din_power_delivery v2g ready tuple_id c)
unfolding handle_din_power_delivery
delivery-IsFine v2g true tuple_id c strict earned is_delivery =
    let res = answer v2g (delivery_code v2g true tuple_id c) in
    elim (Bool-cases (same_msg c.last_v2g_msg current_demand_msg)) [
      | inl e ↦ rw e (strict, tt)
      | inr e ↦ rw e (
          late-IsFine res wait_for_currentdemand c strict earned
            (rw is_delivery (power_delivery-late c.state)))
    ]
delivery-IsFine v2g false tuple_id c strict earned is_delivery =
    late-IsFine (answer v2g (delivery_code v2g false tuple_id (stop_charging v2g false c)))
      wait_for_weldingdetection_sessionstop (stop_charging v2g false c) strict earned
      (rw is_delivery (power_delivery-late c.state))
