-- ===== src/Iso/Late.antt =====
-- The messages of the charging in modules/EvseV2G/iso_server.cpp: where they are allowed, and what
-- an authorization is.
use everest_core_dev.Common.{
  ℕ, zero, suc, ◌≤◌, ◌≡◌, refl, sym, ◌∙◌, Bool, true, false, not, ◌&&◌, ◌||◌, List, [], ◌∷◌, arith,
  inl, inr, ap, Bool-cases,
}
use everest_core_dev.Iso.Messages.{
  V2gMsgTypeId, V2gEvent, ResponseCode, is_failed, allowed_in, same_msg,
}
use everest_core_dev.Iso.Context.{
  Context, Evse, Undefined, Output, send_response, iso_validate_response_code, validated_code,
  is_finished,
}
use everest_core_dev.Iso.Charging.{
  choose_tuple, delivery_code, progress, after_delivery, parameter_response, ChargeProgress,
  handle_iso_charge_parameter_discovery, handle_iso_power_delivery, handle_iso_charging_status,
  handle_iso_metering_receipt, handle_iso_cable_check, handle_iso_pre_charge,
  handle_iso_current_demand, handle_iso_welding_detection,
}
use everest_core_dev.Iso.Requests.{Request, msg_of, handle}
use everest_core_dev.Iso.Tables.{table_allows, is_allowed, IsAdmitted, validated_code-IsAdmitted}
use everest_core_dev.Iso.Owed.{same_allowed}
use everest_core_dev.Iso.Handlers.{progress-same}

-- The messages of the charging, from the charge parameters on.
abbrev pub is_late : Request → Bool
is_late (Request.charge_parameter_discovery_req mode has_ac has_dc) = true
is_late (Request.power_delivery_req p tuple_id waits) = true
is_late Request.charging_status_req = true
is_late Request.metering_receipt_req = true
is_late Request.cable_check_req = true
is_late Request.pre_charge_req = true
is_late Request.current_demand_req = true
is_late Request.welding_detection_req = true
is_late _ = false

-- The response to an AuthorizationReq that ends the authorization.
abbrev pub grants : Output → Bool
grants (send_response msg res) =
    same_msg msg V2gMsgTypeId.authorization_msg
    && not (is_failed res.response_code)
    && is_finished res.evse_processing
grants _ = false

abbrev pub was_authorized : List Output → Bool
was_authorized [] = false
was_authorized (o ∷ out) = grants o || was_authorized out

-- From WAIT_FOR_CHARGEPARAMETERDISCOVERY on, the EV was authorized.
abbrev pub IsEarned : Context → Type 0
IsEarned c = 6 ≤ c.state → was_authorized c.out ≡ true

-- Events after which the connection stays open.
abbrev pub stays_open : V2gEvent → Bool
stays_open V2gEvent.no_event = true
stays_open V2gEvent.send_recv_exi_msg = true
stays_open V2gEvent.ignore_msg = true
stays_open _ = false

pub or_right : (a b : Bool) → b ≡ true → (a || b) ≡ true
or_right true b e = refl
or_right false b e = e

module _ (u : Undefined) where
  -- The tables allow the messages of the charging from WAIT_FOR_CHARGEPARAMETERDISCOVERY on.
  pub late_state :
      (is_dc : Bool) (state : ℕ) (req : Request) (before : V2gMsgTypeId)
      → is_late req ≡ true
      → table_allows u is_dc state (msg_of req before) ≡ true
      → 6 ≤ state
  unfolding table_allows allowed_in
  late_state true zero req before l a = ground arith
  late_state true (suc zero) req before l a = ground arith
  late_state true (suc (suc zero)) req before l a = ground arith
  late_state true (suc (suc (suc zero))) req before l a = ground arith
  late_state true (suc (suc (suc (suc zero)))) req before l a = ground arith
  late_state true (suc (suc (suc (suc (suc zero))))) req before l a = ground arith
  late_state false zero req before l a = ground arith
  late_state false (suc zero) req before l a = ground arith
  late_state false (suc (suc zero)) req before l a = ground arith
  late_state false (suc (suc (suc zero))) req before l a = ground arith
  late_state false (suc (suc (suc (suc zero)))) req before l a = ground arith
  late_state false (suc (suc (suc (suc (suc zero))))) req before l a = ground arith
  late_state is_dc (suc (suc (suc (suc (suc (suc state)))))) req before l a = omega arith

  pub checked-goes_on :
      (code : ResponseCode) (c : Context)
      → c.terminate_connection_on_failed_response ≡ true
      → stays_open (iso_validate_response_code u code c).1 ≡ true
      → IsAdmitted u c × (is_failed (iso_validate_response_code u code c).0 ≡ false)
  unfolding iso_validate_response_code
  checked-goes_on code c t e = elim (Bool-cases c.evse.is_connection_terminated) [
    | inl f ↦ cc (rw f at e)
    | inr f ↦ elim (Bool-cases (is_failed (validated_code u code c))) [
      | inl g ↦ cc (rw (f, t, g) at e)
      | inr g ↦ ((validated_code-IsAdmitted u code c g).0, rw f g)
    ]
  ]

  pub progress-flag :
      (c : Context) (p : ChargeProgress) (waits : List Evse)
      → (progress u p waits c).0.terminate_connection_on_failed_response
        ≡ c.terminate_connection_on_failed_response
  unfolding progress
  progress-flag c ChargeProgress.progress_start waits = ground arith
  progress-flag c ChargeProgress.progress_stop waits = ground arith
  progress-flag c ChargeProgress.progress_renegotiate waits = refl
  progress-flag c ChargeProgress.progress_unknown waits = refl

  pub delivery-flag :
      (p : ChargeProgress) (c : Context) (code : ResponseCode)
      → (after_delivery u p c code).0.terminate_connection_on_failed_response
        ≡ c.terminate_connection_on_failed_response
  unfolding after_delivery
  delivery-flag p c code = ground arith

  module _ (c : Context) (t : c.terminate_connection_on_failed_response ≡ true) where
    -- A message of the charging that leaves the connection open was allowed.
    pub late-allowed :
        (req : Request)
        → is_late req ≡ true
        → stays_open (handle u req c).2 ≡ true
        → is_allowed u c ≡ true
    unfolding handle handle_iso_charge_parameter_discovery handle_iso_power_delivery
        handle_iso_charging_status handle_iso_metering_receipt handle_iso_cable_check
        handle_iso_pre_charge handle_iso_current_demand handle_iso_welding_detection
    late-allowed (Request.charge_parameter_discovery_req mode has_ac has_dc) l e =
        (checked-goes_on (parameter_response u mode has_ac has_dc c).response_code
          (record c { renegotiation_required = false }) t e).0.allowed
    late-allowed (Request.power_delivery_req p tuple_id waits) l e =
        let w = progress u p waits c in
        let same = progress-same u c p waits in
        let c2 = choose_tuple u tuple_id w.0 in
        sym (same_allowed u c2 c same.0 same.1 same.4)
        ∙ (checked-goes_on (delivery_code u p tuple_id w.0 w.1) c2 (progress-flag c p waits ∙ t)
            e).0.allowed
    late-allowed Request.charging_status_req l e = (checked-goes_on ResponseCode.ok c t e).0.allowed
    late-allowed Request.metering_receipt_req l e =
        (checked-goes_on ResponseCode.ok c t e).0.allowed
    late-allowed Request.cable_check_req l e = (checked-goes_on ResponseCode.ok c t e).0.allowed
    late-allowed Request.pre_charge_req l e = (checked-goes_on ResponseCode.ok c t e).0.allowed
    late-allowed Request.current_demand_req l e = (checked-goes_on ResponseCode.ok c t e).0.allowed
    late-allowed Request.welding_detection_req l e =
        (checked-goes_on ResponseCode.ok c t e).0.allowed
    late-allowed req l e = cc

  pub progress-out :
      (p : ChargeProgress) (waits : List Evse) (c : Context)
      → was_authorized (progress u p waits c).0.out ≡ was_authorized c.out
  unfolding progress
  progress-out ChargeProgress.progress_start waits c = ground arith
  progress-out ChargeProgress.progress_stop waits c = ground arith
  progress-out ChargeProgress.progress_renegotiate waits c = refl
  progress-out ChargeProgress.progress_unknown waits c = refl

  pub after_delivery-out :
      (p : ChargeProgress) (c : Context) (code : ResponseCode)
      → (after_delivery u p c code).0.out ≡ c.out
  unfolding after_delivery
  after_delivery-out p c code = ground arith

  -- Where the late messages leave what was sent.
  pub late-out :
      (req : Request) (c : Context)
      → is_late req ≡ true
      → was_authorized c.out ≡ true
      → was_authorized (handle u req c).0.out ≡ true
  unfolding handle handle_iso_charge_parameter_discovery handle_iso_power_delivery
      handle_iso_charging_status handle_iso_metering_receipt handle_iso_cable_check
      handle_iso_pre_charge handle_iso_current_demand handle_iso_welding_detection
  late-out (Request.power_delivery_req p tuple_id waits) c l e =
      let w = progress u p waits c in
      let c2 = choose_tuple u tuple_id w.0 in
      let r = iso_validate_response_code u (delivery_code u p tuple_id w.0 w.1) c2 in
      ap was_authorized (after_delivery-out p c2 r.0) ∙ progress-out p waits c ∙ e
  late-out (Request.charge_parameter_discovery_req mode has_ac has_dc) c l e = e
  late-out Request.charging_status_req c l e = e
  late-out Request.metering_receipt_req c l e = e
  late-out Request.cable_check_req c l e = e
  late-out Request.pre_charge_req c l e = e
  late-out Request.current_demand_req c l e = e
  late-out Request.welding_detection_req c l e = e
  late-out req c l e = cc
