-- ===== src/Iso/Contactor.antt =====
-- When the ISO 15118-2 server of modules/EvseV2G has the AC contactor closed.
use everest_core_dev.Common.{
  ℕ, ◌≡◌, refl, ap, ◌∙◌, Bool, true, false, ◌||◌, List, [], ◌∷◌, inl, inr, Bool-cases,
}
use everest_core_dev.Iso.Messages.{V2gMsgTypeId}
use everest_core_dev.Iso.Context.{
  Context, Evse, Undefined, Output, publish_ac_close_contactor, iso_validate_response_code,
}
use everest_core_dev.Iso.Charging.{
  ChargeProgress, progress, choose_tuple, delivery_code, handle_iso_power_delivery,
}
use everest_core_dev.Iso.Requests.{Request, announce, handle, iso_handle_request, is_ignored}
use everest_core_dev.Iso.Tables.{table_allows}
use everest_core_dev.Iso.Owed.{is_accepted}
use everest_core_dev.Iso.Accepted.{accepted-IsAllowed}
use everest_core_dev.Iso.Late.{after_delivery-out}

abbrev pub is_close : Output → Bool
is_close publish_ac_close_contactor = true
is_close _ = false

abbrev pub closes_contactor : List Output → Bool
closes_contactor [] = false
closes_contactor (o ∷ out) = is_close o || closes_contactor out

module _ (u : Undefined) (tuple_id : ℕ) (waits : List Evse) where
  delivery-closes :
      (c : Context)
      → c.is_dc_charger ≡ false
      → c.evse.contactor_is_closed ≡ false
      → closes_contactor
          (handle_iso_power_delivery u ChargeProgress.progress_start tuple_id waits c).0.out
        ≡ true
  unfolding handle_iso_power_delivery progress
  delivery-closes c ac is_open =
      let w = progress u ChargeProgress.progress_start waits c in
      let c2 = choose_tuple u tuple_id w.0 in
      let code = delivery_code u ChargeProgress.progress_start tuple_id w.0 w.1 in
      ap closes_contactor (
        after_delivery-out u ChargeProgress.progress_start c2
          (iso_validate_response_code u code c2).0)
      ∙ rw (ac, is_open, progress) refl

  request-closes :
      (id : ℕ) (c : Context)
      → c.is_dc_charger ≡ false
      → c.evse.contactor_is_closed ≡ false
      → let req = Request.power_delivery_req ChargeProgress.progress_start tuple_id waits in
        closes_contactor (iso_handle_request u id req c).0.out ≡ true
  unfolding iso_handle_request handle
  request-closes id c ac is_open =
      let req = Request.power_delivery_req ChargeProgress.progress_start tuple_id waits in
      let c0 = announce id req c in
      let closes = delivery-closes c0 ac is_open in
      elim (Bool-cases (is_ignored u (handle u req c0).2)) [
        | inl e ↦ rw (e, iso_handle_request) closes
        | inr e ↦ rw (e, iso_handle_request) closes
      ]

-- On an AC connection that is not terminated, with the contactor open: a PowerDeliveryReq that
-- starts the charging has the contactor closed in every state in which the table does not allow it,
-- such as before any authorization, although it is not accepted.
pub delivery-closes_unchecked :
    (u : Undefined) (id tuple_id : ℕ) (waits : List Evse) (c : Context)
    (ac : c.is_dc_charger ≡ false) (is_open : c.evse.contactor_is_closed ≡ false)
    (alive : c.evse.is_connection_terminated ≡ false)
    (not_allowed : table_allows u false c.state V2gMsgTypeId.power_delivery_msg ≡ false)
    → let req = Request.power_delivery_req ChargeProgress.progress_start tuple_id waits in
      let a = iso_handle_request u id req c in
      (is_accepted u a ≡ false) × (closes_contactor a.0.out ≡ true)
delivery-closes_unchecked u id tuple_id waits c ac is_open alive not_allowed =
    let req = Request.power_delivery_req ChargeProgress.progress_start tuple_id waits in
    (
      elim (Bool-cases (is_accepted u (iso_handle_request u id req c))) [
        | inr e ↦ e
        | inl e ↦
            let allowed = (accepted-IsAllowed u id req c alive refl e).0 in
            cc (rw ac at allowed, not_allowed)
      ],
      request-closes u tuple_id waits id c ac is_open,
    )
