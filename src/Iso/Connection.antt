-- ===== src/Iso/Connection.antt =====
-- One connection of modules/EvseV2G/v2g_server.cpp after the handshake, as steps: a request that is
-- decoded, changes that the rest of the program makes, of what the server decides by and of the kind
-- of charger and the debug mode, and the end of the connection.
use everest_core_dev.Common.{ℕ, Bool, true, false, List, [], ◌∷◌, if◌then◌else◌}
use everest_core_dev.Iso.Messages.{
  V2gEvent, no_event, terminate_connection, send_and_terminate, send_recv_exi_msg, ignore_msg,
  unknown_msg,
}
use everest_core_dev.Iso.Context.{
  Context, Evse, Undefined, Response, publish, with_evse, send_response,
}
use everest_core_dev.Iso.Requests.{Request, iso_handle_request}

-- A connection ends when it is lost, at a message that cannot be encoded, or at the server's will.
pub data Step : Type 0 where
  request : ℕ → Request → Step
  change : Evse → Step
  set_mode : Bool → Bool → Step
  lose : Step

pub record Connection : Type 0 where
  pub is_open : Bool
  pub ctx : Context

-- `v2g_ctx_init_charging_state` at the start of a connection.
unfoldable pub init_charging_state : Context → Context
init_charging_state c = record c {
  evse = record c.evse {
    stop_hlc = false;
    intl_emergency_shutdown = false;
    is_connection_terminated = false;
  };
  last_v2g_msg = unknown_msg;
  current_v2g_msg = unknown_msg;
  state = 0;
  renegotiation_required = false;
  is_charging = false;
}

abbrev pub respond_to : V2gEvent → Response → Context → Connection
respond_to no_event res c = record {
  is_open = true;
  ctx = publish (send_response c.current_v2g_msg res) c;
}
respond_to send_and_terminate res c = record {
  is_open = false;
  ctx = publish (send_response c.current_v2g_msg res) c;
}
respond_to send_recv_exi_msg res c = record {
  is_open = true;
  ctx = publish (send_response c.current_v2g_msg res) c;
}
respond_to ignore_msg res c = record { is_open = true; ctx = c }
respond_to terminate_connection res c = record { is_open = false; ctx = c }

module _ (u : Undefined) where
  unfoldable pub step : Step → Connection → Connection
  unfolding iso_handle_request
  step (request id req) k =
      if k.is_open
      then (let (c, res, event) = iso_handle_request u id req k.ctx in respond_to event res c)
      else k
  step (change evse) k = record k { ctx = with_evse evse k.ctx }
  step (set_mode is_dc debug) k = record k {
    ctx = record k.ctx { is_dc_charger = is_dc; debug_mode = debug };
  }
  step lose k = record k { is_open = false }

  unfoldable pub run : List Step → Connection → Connection
  unfolding step
  run [] k = k
  run (s ∷ more) k = run more (step s k)

  -- What is sent is recorded from the start of the connection.
  unfoldable pub connect : Context → List Step → Connection
  unfolding run init_charging_state
  connect c steps =
      run steps (record { is_open = true; ctx = init_charging_state (record c { out = [] }) })
