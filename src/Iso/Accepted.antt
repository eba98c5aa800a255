-- ===== src/Iso/Accepted.antt =====
-- Which requests the ISO 15118-2 server of modules/EvseV2G accepts.
use everest_core_dev.Common.{ℕ, ◌≡◌, refl, true, false, ◌||◌, arith, ◌==◌}
use everest_core_dev.Iso.Messages.{V2gMsgTypeId, V2gEvent, is_failed, same_msg}
use everest_core_dev.Iso.Context.{Context, Undefined}
use everest_core_dev.Iso.Requests.{
  Request, msg_of, announce, handle, is_ignored, iso_handle_request,
}
use everest_core_dev.Iso.Tables.{table_allows}
use everest_core_dev.Iso.Owed.{sends, accepted_parts, is_update, is_accepted, IsOwed}
use everest_core_dev.Iso.Handlers.{
  setup-IsOwed, discovery-IsOwed, detail-IsOwed, selection-IsOwed, details-IsOwed,
  authorization-IsOwed, parameter-IsOwed, status-IsOwed, receipt-IsOwed, cable-IsOwed,
  precharge-IsOwed, demand-IsOwed, welding-IsOwed, installation-IsOwed, stop-IsOwed, power-IsOwed,
}

module _ (u : Undefined) where
  handle-IsOwed :
      (req : Request) (c : Context)
      → c.current_v2g_msg ≡ msg_of req c.current_v2g_msg
      → c.evse.is_connection_terminated ≡ false
      → is_update req ≡ false
      → is_accepted u (handle u req c) ≡ true
      → IsOwed u c (handle u req c)
  unfolding handle
  handle-IsOwed (Request.session_setup_req drawn) c m alive n e =
      setup-IsOwed u c drawn (rw m refl) e
  handle-IsOwed Request.service_discovery_req c m alive n e = discovery-IsOwed u c e
  handle-IsOwed (Request.service_detail_req service_id) c m alive n e =
      detail-IsOwed u c service_id e
  handle-IsOwed (Request.payment_service_selection_req option services) c m alive n e =
      selection-IsOwed u c option services e
  handle-IsOwed (Request.payment_details_req chain challenge) c m alive n e =
      details-IsOwed u c chain challenge e
  handle-IsOwed (Request.authorization_req req) c m alive n e = authorization-IsOwed u c req e
  handle-IsOwed (Request.charge_parameter_discovery_req mode has_ac has_dc) c m alive n e =
      parameter-IsOwed u c mode has_ac has_dc e
  handle-IsOwed (Request.power_delivery_req p tuple_id waits) c m alive n e =
      power-IsOwed u c p tuple_id waits e
  handle-IsOwed Request.charging_status_req c m alive n e = status-IsOwed u c e
  handle-IsOwed Request.metering_receipt_req c m alive n e = receipt-IsOwed u c e
  handle-IsOwed Request.certificate_update_req c m alive n e = cc
  handle-IsOwed (Request.certificate_installation_req pb dc waits) c m alive n e =
      installation-IsOwed u c pb dc waits e
  handle-IsOwed Request.cable_check_req c m alive n e = cable-IsOwed u c e
  handle-IsOwed Request.pre_charge_req c m alive n e = precharge-IsOwed u c e
  handle-IsOwed Request.current_demand_req c m alive n e = demand-IsOwed u c e
  handle-IsOwed Request.welding_detection_req c m alive n e = welding-IsOwed u c e
  handle-IsOwed (Request.session_stop_req session) c m alive n e = stop-IsOwed u c session alive e
  handle-IsOwed Request.other_req c m alive n e = cc

not_ignored : (u : Undefined) (event : V2gEvent) → sends event ≡ true → is_ignored u event ≡ false
not_ignored u V2gEvent.no_event e = refl
not_ignored u V2gEvent.send_and_terminate e = refl
not_ignored u V2gEvent.terminate_connection e = refl
not_ignored u V2gEvent.send_recv_exi_msg e = refl
not_ignored u V2gEvent.ignore_msg e = cc

pub msg_of-msg_of : (req : Request) (m : V2gMsgTypeId) → msg_of req m ≡ msg_of req (msg_of req m)
msg_of-msg_of req m = ground arith

-- On a connection that is not terminated, a request other than a CertificateUpdateReq that is
-- answered with a response that the server fills and that is no failure was allowed by the table of
-- its state, had the session id of the session, unless it was a SessionSetupReq; and neither a
-- stop nor an emergency shutdown is signalled when the handling ends.
pub accepted-IsAllowed :
    (u : Undefined) (id : ℕ) (req : Request) (c : Context)
    (alive : c.evse.is_connection_terminated ≡ false) (not_update : is_update req ≡ false)
    (accepted : is_accepted u (iso_handle_request u id req c) ≡ true)
    → let c' = (iso_handle_request u id req c).0 in
      (table_allows u c.is_dc_charger c.state (msg_of req c.current_v2g_msg) ≡ true)
      × (same_msg (msg_of req c.current_v2g_msg) V2gMsgTypeId.session_setup_msg ≡ false
          → (c.session_id == id) ≡ true)
      × ((c'.evse.stop_hlc || c'.evse.intl_emergency_shutdown) ≡ false)
unfolding iso_handle_request
accepted-IsAllowed u id req c alive not_update accepted =
    let a = handle u req (announce id req c) in
    let parts = accepted_parts (sends a.2) (is_failed a.1.response_code) accepted in
    let k =
      handle-IsOwed u req (announce id req c) (msg_of-msg_of req c.current_v2g_msg) alive not_update
        accepted in
    rw (not_ignored u a.2 parts.0, iso_handle_request) (k.allowed, k.known, k.goes_on)
