-- ===== src/Din/Moves.antt =====
-- The tables of modules/EvseV2G's DIN 70121 server: which requests lead to a state, and from where.
use everest_core_dev.Common.{◌≡◌, refl, true, false, if◌then◌else◌, arith}
use everest_core_dev.Iso.Messages.{
  V2gMsgTypeId, authorization_msg, charge_parameter_discovery_msg, cable_check_msg, pre_charge_msg,
  power_delivery_msg, current_demand_msg, welding_detection_msg, is_among,
}
use everest_core_dev.Din.{
  DinStateId, din_states, wait_for_authorization, wait_for_chargeparameterdiscovery,
  wait_for_cablecheck, wait_for_precharge, wait_for_precharge_powerdelivery, wait_for_currentdemand,
  wait_for_currentdemand_powerdelivery, wait_for_weldingdetection_sessionstop, Response, Context,
}
use everest_core_dev.Din.Handlers.{respond, is_checked}
use everest_core_dev.Din.Earned.{
  gives_energy, is_authorized, IsEarned, Moves, IsStrict, IsFine, respond-IsFine,
}

-- The states in which a request is allowed.
pub auth-Moves :
    (res : Response) (s : DinStateId)
    → Moves authorization_msg res
        (if res.is_finished then wait_for_chargeparameterdiscovery else wait_for_authorization)
        s
auth-Moves res s = ground arith

pub parameter-Moves :
    (res : Response) (next s : DinStateId)
    → gives_energy next ≡ false
    → is_among charge_parameter_discovery_msg (din_states s) ≡ true
    → Moves charge_parameter_discovery_msg res next s
parameter-Moves res next wait_for_chargeparameterdiscovery n e = ground arith
parameter-Moves res next _ n e = cc

pub check-Moves :
    (res : Response) (s : DinStateId)
    → is_among cable_check_msg (din_states s) ≡ true
    → Moves cable_check_msg res
        (if is_checked res then wait_for_precharge else wait_for_cablecheck)
        s
check-Moves res wait_for_cablecheck e = ground arith
check-Moves res _ e = cc

-- A request that is only allowed once energy may be given.
late-Moves :
    (msg : V2gMsgTypeId) (res : Response) (next s : DinStateId)
    → gives_energy s ≡ true
    → is_authorized s ≡ true
    → Moves msg res next s
late-Moves msg res next s e f = ground arith

pub pre_charge-late :
    (s : DinStateId)
    → is_among pre_charge_msg (din_states s) ≡ true
    → (gives_energy s ≡ true) × (is_authorized s ≡ true)
pre_charge-late wait_for_precharge e = (refl, refl)
pre_charge-late wait_for_precharge_powerdelivery e = (refl, refl)
pre_charge-late _ e = cc

pub power_delivery-late :
    (s : DinStateId)
    → is_among power_delivery_msg (din_states s) ≡ true
    → (gives_energy s ≡ true) × (is_authorized s ≡ true)
power_delivery-late wait_for_precharge_powerdelivery e = (refl, refl)
power_delivery-late wait_for_currentdemand_powerdelivery e = (refl, refl)
power_delivery-late _ e = cc

pub current_demand-late :
    (s : DinStateId)
    → is_among current_demand_msg (din_states s) ≡ true
    → (gives_energy s ≡ true) × (is_authorized s ≡ true)
current_demand-late wait_for_currentdemand e = (refl, refl)
current_demand-late wait_for_currentdemand_powerdelivery e = (refl, refl)
current_demand-late _ e = cc

pub welding-late :
    (s : DinStateId)
    → is_among welding_detection_msg (din_states s) ≡ true
    → (gives_energy s ≡ true) × (is_authorized s ≡ true)
welding-late wait_for_weldingdetection_sessionstop e = (refl, refl)
welding-late _ e = cc

pub late-IsFine :
    (res : Response) (next : DinStateId) (c : Context)
    → IsStrict c
    → IsEarned c.state c.out
    → (is_among c.current_v2g_msg (din_states c.state) ≡ true
        → (gives_energy c.state ≡ true) × (is_authorized c.state ≡ true))
    → IsFine (respond res next c)
late-IsFine res next c strict earned late =
    respond-IsFine res next c strict earned
      (λ e. let (a, b) = late e in late-Moves c.current_v2g_msg res next c.state a b)

pub early-IsFine :
    (res : Response) (next : DinStateId) (c : Context)
    → IsStrict c
    → IsEarned c.state c.out
    → is_authorized next ≡ false
    → gives_energy next ≡ false
    → IsFine (respond res next c)
early-IsFine res next c strict earned a b =
    respond-IsFine res next c strict earned (λ e. (λ u. cc, λ u. cc))
