-- ===== src/Din/Checks.antt =====
-- What the check of a response in modules/EvseV2G/din_server.cpp lets through.
use everest_core_dev.Common.{◌≡◌, true, false, ◌||◌, ◌==◌, arith}
use everest_core_dev.Iso.Messages.{session_setup_msg, same_msg, is_among, no_event}
use everest_core_dev.Din.Handlers.{respond}
use everest_core_dev.Din.{
  DinStateId, Response, din_states, DinResponseCode, is_failed, Context, din_validate_state,
  validated_code, din_validate_response_code,
}

-- What holds of a session whose response was let through.
pub record IsAdmitted (c : Context) (code : DinResponseCode) : Type 0 where
  pub is_alive : c.evse.is_connection_terminated ≡ false
  pub is_allowed : is_among c.current_v2g_msg (din_states c.state) ≡ true
  pub is_good : is_failed code ≡ false
  pub is_going : (c.evse.stop_hlc || c.evse.intl_emergency_shutdown) ≡ false
  pub is_known :
      (same_msg c.current_v2g_msg session_setup_msg || c.session_id == c.received_session_id) ≡ true

-- On a connection that ends at a failed response, a response without an event is admitted.
pub validate-IsAdmitted :
    (code : DinResponseCode) (c : Context)
    → c.terminate_connection_on_failed_response ≡ true
    → (din_validate_response_code code c).1 ≡ no_event
    → IsAdmitted c (din_validate_response_code code c).0
unfolding din_validate_response_code validated_code din_validate_state
validate-IsAdmitted code c strict e = record {
  is_alive = ground arith;
  is_allowed = ground arith;
  is_good = ground arith;
  is_going = ground arith;
  is_known = ground arith;
}

-- A response that nothing refuses is sent as it is.
pub respond-admitted :
    (res : Response) (next : DinStateId) (c : Context)
    → c.evse.is_connection_terminated ≡ false
    → (c.evse.stop_hlc || c.evse.intl_emergency_shutdown) ≡ false
    → is_among c.current_v2g_msg (din_states c.state) ≡ true
    → (same_msg c.current_v2g_msg session_setup_msg || c.session_id == c.received_session_id) ≡ true
    → is_failed res.response_code ≡ false
    → respond res next c ≡ (record c { state = next }, res, no_event)
unfolding din_validate_response_code validated_code din_validate_state
respond-admitted res next c a s m i g = ground arith
