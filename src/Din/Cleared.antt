-- ===== src/Din/Cleared.antt =====
-- No energy without an authorization and a cable check, on one connection of modules/EvseV2G's DIN
-- 70121 server.
use everest_core_dev.Common.{
  ℕ, ◌≡◌, refl, true, List, [], ◌∷◌, ◌==◌, if◌then◌else◌, inl, inr, Bool-cases,
}
use everest_core_dev.Iso.Messages.{
  charge_parameter_discovery_msg, pre_charge_msg, power_delivery_msg, welding_detection_msg,
  V2gEvent, no_event, terminate_connection, send_and_terminate, send_recv_exi_msg, ignore_msg,
  payment_service_selection_msg, service_discovery_msg, session_setup_msg,
}
use everest_core_dev.Din.{
  ok_new_session_established, ok, wait_for_servicediscovery, wait_for_paymentserviceselection,
  wait_for_authorization, wait_for_precharge_powerdelivery, wait_for_weldingdetection_sessionstop,
  Response, Context, OpenV2g,
}
use everest_core_dev.Din.Handlers.{
  selection_code, correct_mode, answer, handle_din_session_setup, handle_din_service_discovery,
  handle_din_service_payment_selection, handle_din_pre_charge, handle_din_welding_detection,
  handle_din_session_stop,
}
use everest_core_dev.Din.Requests.{
  power_delivery_req, charge_parameter_discovery_req, service_payment_selection_req,
  session_setup_req, Request, not_v2g_message, unsupported_req, unknown_req, service_discovery_req,
  contract_authentication_req, cable_check_req, pre_charge_req, current_demand_req,
  welding_detection_req, session_stop_req, begin, handle, receive, keep_last, din_handle_request,
  Step, request, change, lose, Connection, deliver, start_session, step, run, connect,
}
use everest_core_dev.Din.Earned.{IsEarned, IsStrict, IsFine}
use everest_core_dev.Din.Moves.{pre_charge-late, welding-late, late-IsFine, early-IsFine}
use everest_core_dev.Din.Fine.{
  authorize-IsFine, parameter-IsFine, check-IsFine, demand-IsFine, delivery-IsFine,
}

handle-IsFine :
    (v2g : OpenV2g) (req : Request) (c : Context)
    → IsStrict c
    → IsEarned c.state c.out
    → IsFine (handle v2g req c)
unfolding handle handle_din_session_setup handle_din_service_discovery
    handle_din_service_payment_selection handle_din_pre_charge handle_din_welding_detection
    handle_din_session_stop
handle-IsFine v2g not_v2g_message c strict earned = (strict, earned)
handle-IsFine v2g unknown_req c strict earned = (strict, earned)
handle-IsFine v2g unsupported_req c strict earned = (strict, earned)
handle-IsFine v2g (session_setup_req drawn) c strict earned =
    early-IsFine (answer v2g ok_new_session_established) wait_for_servicediscovery
      (record (begin session_setup_msg c) {
        session_id = if c.session_id == 0 then drawn else c.session_id;
      })
      strict earned refl refl
handle-IsFine v2g service_discovery_req c strict earned =
    early-IsFine (answer v2g ok) wait_for_paymentserviceselection
      (correct_mode v2g (begin service_discovery_msg c)) strict earned refl refl
handle-IsFine v2g (service_payment_selection_req is_external services) c strict earned =
    early-IsFine
      (answer v2g (selection_code v2g is_external services (begin payment_service_selection_msg c)))
      wait_for_authorization (begin payment_service_selection_msg c) strict earned refl refl
handle-IsFine v2g contract_authentication_req c strict earned = authorize-IsFine v2g c strict earned
handle-IsFine v2g (charge_parameter_discovery_req mode ac_is_used) c strict earned =
    parameter-IsFine v2g mode ac_is_used (begin charge_parameter_discovery_msg c) strict earned refl
handle-IsFine v2g (power_delivery_req ready tuple_id) c strict earned =
    delivery-IsFine v2g ready tuple_id (begin power_delivery_msg c) strict earned refl
handle-IsFine v2g cable_check_req c strict earned = check-IsFine v2g c strict earned
handle-IsFine v2g pre_charge_req c strict earned =
    late-IsFine (answer v2g ok) wait_for_precharge_powerdelivery (begin pre_charge_msg c) strict
      earned (pre_charge-late c.state)
handle-IsFine v2g current_demand_req c strict earned = demand-IsFine v2g c strict earned
handle-IsFine v2g welding_detection_req c strict earned =
    late-IsFine (answer v2g ok) wait_for_weldingdetection_sessionstop
      (begin welding_detection_msg c) strict earned (welding-late c.state)
handle-IsFine v2g session_stop_req c strict earned = (strict, tt)

-- A connection is strict, and its state is earned while it is open.
abbrev IsSafe : Connection → Type 0
IsSafe k = IsStrict k.ctx × (k.is_open ≡ true → IsEarned k.ctx.state k.ctx.out)

deliver-IsSafe :
    (v2g : OpenV2g) (c : Context) (res : Response) (event : V2gEvent)
    → IsFine (c, res, event)
    → IsSafe (deliver (keep_last v2g (c, res, event)))
deliver-IsSafe v2g c res no_event (strict, fine) = (strict, λ u. fine)
deliver-IsSafe v2g c res send_recv_exi_msg (strict, fine) = (strict, λ u. fine)
deliver-IsSafe v2g c res ignore_msg (strict, fine) = (strict, λ u. fine)
deliver-IsSafe v2g c res send_and_terminate (strict, fine) = (strict, λ u. cc)
deliver-IsSafe v2g c res terminate_connection (strict, fine) = (strict, λ u. cc)

receive-state :
    (v2g : OpenV2g) (id : ℕ) (req : Request) (c : Context)
    → IsStrict c
    → IsEarned c.state c.out
    → IsFine (handle v2g req (receive v2g id req c))
receive-state v2g id not_v2g_message c strict earned =
    handle-IsFine v2g not_v2g_message c strict earned
receive-state v2g id req c strict earned =
    handle-IsFine v2g req (record c { received_session_id = id }) strict earned

step-IsSafe : (v2g : OpenV2g) (s : Step) (k : Connection) → IsSafe k → IsSafe (step v2g s k)
unfolding step din_handle_request
step-IsSafe v2g (request id req) k (strict, earned) = elim (Bool-cases k.is_open) [
  | inl e ↦
      (let a = handle v2g req (receive v2g id req k.ctx) in
        rw e (deliver-IsSafe v2g a.0 a.1 a.2 (receive-state v2g id req k.ctx strict (earned e))))
  | inr e ↦ rw e (strict, λ u. cc)
]
step-IsSafe v2g (change evse) k safe = safe
step-IsSafe v2g lose k (strict, earned) = (strict, λ u. cc)

run-IsSafe :
    (v2g : OpenV2g) (steps : List Step) (k : Connection) → IsSafe k → IsSafe (run v2g steps k)
unfolding run
run-IsSafe v2g [] k safe = safe
run-IsSafe v2g (s ∷ more) k safe = run-IsSafe v2g more (step v2g s k) (step-IsSafe v2g s k safe)

-- On a connection that ends at a failed response, whatever requests come, whatever the charger changes
-- and whenever it is lost: while it is open in ChargeParameterDiscovery or a later state before the end
-- of the session, a ContractAuthenticationRes without a failure was sent as finished; and in PreCharge
-- or a later such state, a CableCheckRes was sent without a failure, as finished, with a good isolation
-- and the EVSE ready.
pub after-IsCleared :
    (v2g : OpenV2g) (c : Context) (steps : List Step)
    → c.terminate_connection_on_failed_response ≡ true
    → let k = connect v2g c steps in k.is_open ≡ true → IsEarned k.ctx.state k.ctx.out
unfolding connect start_session
after-IsCleared v2g c steps strict is_open =
    let k : Connection = record { is_open = true; ctx = start_session c } in
    let (s, earned) = run-IsSafe v2g steps k (strict, λ u. (λ w. cc, λ w. cc)) in earned is_open
