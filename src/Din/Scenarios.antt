-- ===== src/Din/Scenarios.antt =====
-- A session of the DIN 70121 server of modules/EvseV2G.
use everest_core_dev.Common.{◌≡◌, refl, true, false, none, List, [], ◌∷◌}
use everest_core_dev.Iso.Messages.{unknown_msg}
use everest_core_dev.Din.{wait_for_sessionsetup, wait_for_currentdemand, ok, Evse, Context, OpenV2g}
use everest_core_dev.Din.Requests.{
  session_setup_req, service_discovery_req, contract_authentication_req,
  service_payment_selection_req, charge_parameter_discovery_req, power_delivery_req,
  cable_check_req, pre_charge_req, Step, request, change, Connection, connect,
}
use everest_core_dev.Din.Points.{accepted, session, in_order}
use everest_core_dev.Din.Session.{session-IsAccepted}
use everest_core_dev.Din.Earned.{IsEarned}
use everest_core_dev.Din.Cleared.{after-IsCleared}

abbrev v2g : OpenV2g
v2g = record {
  din_dc_core = 2;
  din_dc_extended = 3;
  iso_dc_core = 2;
  iso_dc_extended = 3;
  init_response = record {
    response_code = ok;
    is_finished = true;
    isolation_is_good = false;
    is_ready = false;
  };
}

abbrev evse : Evse
evse = record {
  stop_hlc = false;
  intl_emergency_shutdown = false;
  is_connection_terminated = false;
  auth_is_finished = false;
  parameter_is_finished = true;
  isolation_is_finished = false;
  isolation_is_good = false;
  isolation_is_ready = true;
  charge_is_ready = true;
  charge_service_id = 1;
  energy_transfer_mode = 0;
}

abbrev authorized : Evse
authorized = record evse { auth_is_finished = true; energy_transfer_mode = 3 }

abbrev checked : Evse
checked = record authorized { isolation_is_finished = true; isolation_is_good = true }

abbrev station : Context
station = record {
  terminate_connection_on_failed_response = true;
  evse = evse;
  state = wait_for_sessionsetup;
  current_v2g_msg = unknown_msg;
  last_v2g_msg = unknown_msg;
  session_id = 0;
  received_session_id = 0;
  is_charging = false;
  out = [];
}

abbrev up_to_energy : List Step
up_to_energy =
    request 0 (session_setup_req 77)
    ∷ request 77 service_discovery_req
    ∷ request 77 (service_payment_selection_req true (1 ∷ []))
    ∷ request 77 contract_authentication_req
    ∷ change authorized
    ∷ request 77 contract_authentication_req
    ∷ request 77 (charge_parameter_discovery_req 3 false)
    ∷ request 77 cable_check_req
    ∷ change checked
    ∷ request 77 cable_check_req
    ∷ request 77 pre_charge_req
    ∷ request 77 (power_delivery_req true none)
    ∷ []

abbrev k : Connection
k = connect v2g station up_to_energy

still_open : k.is_open ≡ true
unfolding connect
still_open = refl

session_test : k.ctx.state ≡ wait_for_currentdemand
unfolding connect
session_test = refl

-- A power delivery right after the session setup is refused, and ends the connection.
abbrev too_early : List Step
too_early = request 0 (session_setup_req 77) ∷ request 77 (power_delivery_req true none) ∷ []

early_test : (connect v2g station too_early).is_open ≡ false
unfolding connect
early_test = refl

after-IsCleared_example : IsEarned k.ctx.state k.ctx.out
after-IsCleared_example = after-IsCleared v2g station up_to_energy refl still_open

session-IsAccepted_example : accepted (connect v2g station (session 0 77 77 1 3)).ctx.out ≡ in_order
session-IsAccepted_example = session-IsAccepted v2g station 0 77 1 3 refl refl
