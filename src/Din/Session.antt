-- ===== src/Din/Session.antt =====
-- A whole session of modules/EvseV2G's DIN 70121 server with a charger that is ready.
use everest_core_dev.Common.{
  ℕ, ◌≡◌, refl, Bool, true, false, not, ◌&&◌, ◌||◌, List, [], ◌∷◌, ◌==◌, if◌then◌else◌, arith,
  ==_refl, ap, ◌∙◌,
}
use everest_core_dev.Iso.Messages.{
  unknown_msg, session_setup_msg, service_discovery_msg, payment_service_selection_msg,
  authorization_msg, charge_parameter_discovery_msg, welding_detection_msg, session_stop_msg,
}
use everest_core_dev.Din.{
  send_and_terminate, publish_ev_charging_session_terminate, wait_for_sessionsetup,
  wait_for_terminated_session, ok_new_session_established, ok, wait_for_servicediscovery,
  wait_for_cablecheck, wait_for_weldingdetection_sessionstop, wait_for_authorization,
  wait_for_chargeparameterdiscovery, wait_for_paymentserviceselection, DinResponseCode, Output,
  send_response, Context, OpenV2g, Response,
}
use everest_core_dev.Din.Handlers.{
  answer, respond, correct_mode, parameter_code, selection_code, handle_din_session_setup,
  handle_din_service_discovery, handle_din_service_payment_selection, handle_din_charge_parameter,
  handle_din_session_stop,
}
use everest_core_dev.Din.Checks.{respond-admitted}
use everest_core_dev.Din.Points.{
  accepted, ready, requests, session, in_order, Point, here, authorize, check, precharge, start,
  demand, end, weld,
}
use everest_core_dev.Din.Requests.{
  session_setup_req, service_discovery_req, service_payment_selection_req,
  charge_parameter_discovery_req, session_stop_req, Step, request, Connection, deliver, keep_last,
  handle, din_handle_request, step, run, connect, start_session,
}

-- The requests that name the service, the mode or the session.
discover :
    (v2g : OpenV2g) (p : Point) (charging : Bool) (out : List Output) (received : ℕ)
    → (p.mode == v2g.iso_dc_core || p.mode == v2g.iso_dc_extended) ≡ true
    → step v2g (request p.id service_discovery_req) (record {
      is_open = true;
      ctx = record (here p charging wait_for_servicediscovery session_setup_msg out).ctx {
        received_session_id = received;
      };
    })
      ≡ here p charging wait_for_paymentserviceselection service_discovery_msg
          (send_response service_discovery_msg (answer v2g ok) ∷ out)
unfolding step din_handle_request handle handle_din_service_discovery
discover v2g p charging out received f =
    let c : Context =
      record (here p charging wait_for_servicediscovery service_discovery_msg out).ctx {
        last_v2g_msg = session_setup_msg;
      } in
    let kept : correct_mode v2g c ≡ c = rw f refl in
    ap (λ c1. deliver (keep_last v2g (respond (answer v2g ok) wait_for_paymentserviceselection c1)))
      kept
    ∙ ap (λ a. deliver (keep_last v2g a))
        (respond-admitted (answer v2g ok) wait_for_paymentserviceselection c refl refl refl
          (==_refl p.id) refl)

select :
    (v2g : OpenV2g) (p : Point) (charging : Bool) (out : List Output)
    → step v2g
        (request p.id (service_payment_selection_req true (p.service ∷ [])))
        (here p charging wait_for_paymentserviceselection service_discovery_msg out)
      ≡ here p charging wait_for_authorization payment_service_selection_msg
          (send_response payment_service_selection_msg (answer v2g ok) ∷ out)
unfolding step din_handle_request handle handle_din_service_payment_selection
select v2g p charging out =
    let c : Context =
      record (here p charging wait_for_paymentserviceselection payment_service_selection_msg
        out).ctx { last_v2g_msg = service_discovery_msg } in
    let good : selection_code v2g true (p.service ∷ []) c ≡ ok = rw (==_refl p.service) refl in
    ap (λ code. deliver (keep_last v2g (respond (answer v2g code) wait_for_authorization c))) good
    ∙ ap (λ a. deliver (keep_last v2g a))
        (respond-admitted (answer v2g ok) wait_for_authorization c refl refl refl (==_refl p.id)
          refl)

mode_fits :
    (v2g : OpenV2g) (mode : ℕ)
    → (mode == v2g.din_dc_core || mode == v2g.din_dc_extended) ≡ true
    → (not (mode == v2g.din_dc_core) && not (mode == v2g.din_dc_extended)) ≡ false
mode_fits v2g mode e = ground arith

parametrize :
    (v2g : OpenV2g) (p : Point) (charging : Bool) (out : List Output)
    → (p.mode == v2g.din_dc_core || p.mode == v2g.din_dc_extended) ≡ true
    → step v2g
        (request p.id (charge_parameter_discovery_req p.mode false))
        (here p charging wait_for_chargeparameterdiscovery authorization_msg out)
      ≡ here p charging wait_for_cablecheck charge_parameter_discovery_msg (
          send_response charge_parameter_discovery_msg
            (record (answer v2g ok) { is_finished = true })
          ∷ out)
unfolding step din_handle_request handle handle_din_charge_parameter
parametrize v2g p charging out e =
    let c : Context =
      record (here p charging wait_for_chargeparameterdiscovery charge_parameter_discovery_msg
        out).ctx { last_v2g_msg = authorization_msg } in
    let res : DinResponseCode → Response =
      λ code. record (answer v2g code) { is_finished = true } in
    let good : parameter_code v2g p.mode false c ≡ ok =
      rw (mode_fits v2g p.mode e, ==_refl p.mode) refl in
    ap (λ code. deliver (keep_last v2g (respond (res code) wait_for_cablecheck c))) good
    ∙ ap (λ a. deliver (keep_last v2g a))
        (respond-admitted (res ok) wait_for_cablecheck c refl refl refl (==_refl p.id) refl)

-- The first request, which sets the session id, and the last one.
set_up :
    (v2g : OpenV2g) (c : Context) (first drawn service mode : ℕ)
    → let p : Point = record {
      strict = c.terminate_connection_on_failed_response;
      id = if c.session_id == 0 then drawn else c.session_id;
      service = service;
      mode = mode;
    } in
      step v2g
        (request first (session_setup_req drawn))
        (record { is_open = true; ctx = record (start_session c) { evse = ready service mode } })
      ≡ record {
        is_open = true;
        ctx =
            record (here p false wait_for_servicediscovery session_setup_msg
              (send_response session_setup_msg (answer v2g ok_new_session_established) ∷ [])).ctx {
                received_session_id = first;
              };
      }
unfolding step din_handle_request handle handle_din_session_setup start_session
set_up v2g c first drawn service mode =
    let p : Point = record {
      strict = c.terminate_connection_on_failed_response;
      id = if c.session_id == 0 then drawn else c.session_id;
      service = service;
      mode = mode;
    } in
    let c1 : Context = record (here p false wait_for_sessionsetup session_setup_msg []).ctx {
      last_v2g_msg = unknown_msg;
      received_session_id = first;
    } in
    ap (λ a. deliver (keep_last v2g a))
      (respond-admitted (answer v2g ok_new_session_established) wait_for_servicediscovery c1 refl
        refl refl refl refl)

stop :
    (v2g : OpenV2g) (p : Point) (charging : Bool) (out : List Output)
    → step v2g
        (request p.id session_stop_req)
        (here p charging wait_for_weldingdetection_sessionstop welding_detection_msg out)
      ≡ record {
        is_open = false;
        ctx =
            (here p charging wait_for_terminated_session session_stop_msg (
              send_response session_stop_msg (answer v2g ok)
              ∷ publish_ev_charging_session_terminate
              ∷ out)).ctx;
      }
unfolding step din_handle_request handle handle_din_session_stop
stop v2g p charging out =
    let c : Context =
      record (here p charging wait_for_weldingdetection_sessionstop session_stop_msg
        (publish_ev_charging_session_terminate ∷ out)).ctx {
          last_v2g_msg = welding_detection_msg;
        } in
    ap (λ a. deliver (keep_last v2g (a.0, a.1, send_and_terminate)))
      (respond-admitted (answer v2g ok) wait_for_terminated_session c refl refl refl (==_refl p.id)
        refl)

follow :
    (v2g : OpenV2g) (s : Step) (k k1 : Connection) (more : List Step)
    → step v2g s k ≡ k1
    → accepted (run v2g more k1).ctx.out ≡ in_order
    → accepted (run v2g (s ∷ more) k).ctx.out ≡ in_order
unfolding run
follow v2g s k k1 more e f = ap (λ k. accepted (run v2g more k).ctx.out) e ∙ f

nothing_left :
    (v2g : OpenV2g) (k : Connection)
    → accepted k.ctx.out ≡ in_order
    → accepted (run v2g [] k).ctx.out ≡ in_order
unfolding run
nothing_left v2g k e = e

session-accepted :
    (v2g : OpenV2g) (c : Context) (first drawn service mode : ℕ)
    → (mode == v2g.din_dc_core || mode == v2g.din_dc_extended) ≡ true
    → (mode == v2g.iso_dc_core || mode == v2g.iso_dc_extended) ≡ true
    → let id = if c.session_id == 0 then drawn else c.session_id in
      accepted
        (run v2g (requests first drawn id service mode) (record {
          is_open = true;
          ctx = record (start_session c) { evse = ready service mode };
        })).ctx.out
      ≡ in_order
session-accepted v2g c first drawn service mode e f =
    let p : Point = record {
      strict = c.terminate_connection_on_failed_response;
      id = if c.session_id == 0 then drawn else c.session_id;
      service = service;
      mode = mode;
    } in
    follow v2g _ _ _ _ (set_up v2g c first drawn service mode) (
      follow v2g _ _ _ _ (discover v2g p false _ first f) (
        follow v2g _ _ _ _ (select v2g p false _) (
          follow v2g _ _ _ _ (authorize v2g p false _) (
            follow v2g _ _ _ _ (parametrize v2g p false _ e) (
              follow v2g _ _ _ _ (check v2g p false _) (
                follow v2g _ _ _ _ (precharge v2g p false _) (
                  follow v2g _ _ _ _ (start v2g p false _) (
                    follow v2g _ _ _ _ (demand v2g p false _) (
                      follow v2g _ _ _ _ (end v2g p true _) (
                        follow v2g _ _ _ _ (weld v2g p false _) (
                          follow v2g _ _ _ _ (stop v2g p false _)
                            (nothing_left v2g _ refl))))))))))))

-- With a charger whose phases are finished and whose mode of energy transfer is one of DC in both
-- standards, whatever the session before and whatever ids are drawn: the requests of an EV that
-- charges once are all answered without a failure, each of them with the session id that the server
-- keeps or draws.
pub session-IsAccepted :
    (v2g : OpenV2g) (c : Context) (first drawn service mode : ℕ)
    → (mode == v2g.din_dc_core || mode == v2g.din_dc_extended) ≡ true
    → (mode == v2g.iso_dc_core || mode == v2g.iso_dc_extended) ≡ true
    → let id = if c.session_id == 0 then drawn else c.session_id in
      accepted (connect v2g c (session first drawn id service mode)).ctx.out ≡ in_order
unfolding connect
session-IsAccepted v2g c first drawn service mode e f =
    session-accepted v2g c first drawn service mode e f
