-- ===== src/Auth/Sessions.antt =====
-- The connectors of modules/Auth/lib/AuthHandler.cpp: their construction, the session events of the
-- EVSE, and their timers.
use everest_core_dev.Common.{
  ℕ, Bool, true, false, Option, none, some, List, [], ◌∷◌, ◌++◌, ◌==◌, if◌then◌else◌,
}
use everest_core_dev.Common.Maps.{insert}
use everest_core_dev.Auth.ConnectorMachine.{Feed, ConnectorState, ConnectorStatusTransition, submit}
use everest_core_dev.Auth.Reservations.{has}
use everest_core_dev.Auth.Data.{
  ConnectorContext, AuthHandler, SessionEvent, session_started, transaction_started,
  transaction_finished, session_finished, permanent_fault, error, disabled, enabled,
  reservation_start, reservation_end, other, StartSessionReason, ev_connected, Timeout,
  withdraw_authorization, forget_plug_in, withdraw, call_reserved, emit, at, change_at,
  evse_index_of,
}

-- `remove_if` of the plug-in queue.
unfoldable pub remove_plug_in : ℕ → List ℕ → List ℕ
remove_plug_in id [] = []
remove_plug_in id (x ∷ xs) = if x == id then remove_plug_in id xs else x ∷ remove_plug_in id xs

abbrev pub dequeue : ℕ → AuthHandler → AuthHandler
dequeue id h = record h { plug_in_queue = remove_plug_in id h.plug_in_queue }

-- A new context, in the state that `controller->reset(sd_available)` enters.
abbrev pub new_context : ℕ → ConnectorContext
new_context evse_index = record {
  evse_index = evse_index;
  transaction_active = false;
  state = ConnectorState.available;
  identifier = none;
  is_reservable = true;
  reserved = false;
  timeout_timer = none;
  plug_in_locked = false;
}

-- `emplace` keeps a context that is there; the reservation timer is made anew.
unfoldable pub init_connector : ℕ → ℕ → AuthHandler → AuthHandler
init_connector connector_id evse_index h = record h {
  connectors =
      (if has (at connector_id h)
        then h.connectors
        else insert connector_id (new_context evse_index) h.connectors);
  reservation_timers = insert connector_id none h.reservation_timers;
}

abbrev pub start_timer : Timeout → ℕ → ConnectorContext → ConnectorContext
start_timer t seconds c = record c { timeout_timer = some (t, seconds) }

abbrev pub stop_timer : ConnectorContext → ConnectorContext
stop_timer c = record c { timeout_timer = none }

-- What an event changes in the connector's own context.
unfoldable pub update_context : Feed → ℕ → SessionEvent → ConnectorContext → ConnectorContext
update_context feed seconds (session_started ev_connected) c =
    start_timer forget_plug_in seconds (record c { is_reservable = false })
update_context feed seconds (session_started StartSessionReason.authorized) c = record c {
  is_reservable = false;
}
update_context feed seconds transaction_started c = stop_timer (record c {
  transaction_active = true;
  reserved = false;
  state = submit feed ConnectorStatusTransition.transaction_started c.state;
})
update_context feed seconds transaction_finished c = record c {
  transaction_active = false;
  identifier = none;
}
update_context feed seconds session_finished c = stop_timer (record c {
  is_reservable = true;
  identifier = none;
  state =
      submit feed ConnectorStatusTransition.error_cleared
        (submit feed ConnectorStatusTransition.session_finished c.state);
})
update_context feed seconds permanent_fault c = record c {
  state = submit feed ConnectorStatusTransition.faulted c.state;
}
update_context feed seconds error c = record c {
  state = submit feed ConnectorStatusTransition.faulted c.state;
}
update_context feed seconds disabled c = record c {
  state = submit feed ConnectorStatusTransition.disable c.state;
}
update_context feed seconds enabled c = record c {
  state = submit feed ConnectorStatusTransition.enable c.state;
}
update_context feed seconds reservation_start c = record c { reserved = true }
update_context feed seconds reservation_end c = record c { is_reservable = true; reserved = false }
update_context feed seconds other c = c

-- A session start also puts the connector into the plug-in queue.
unfoldable pub enqueue : ℕ → SessionEvent → AuthHandler → AuthHandler
enqueue id (session_started _) h = record h { plug_in_queue = h.plug_in_queue ++ id ∷ [] }
enqueue id _ h = h

-- `handle_session_event`; `none` is the exception of `connectors.at`.
unfoldable pub handle_session_event : Feed → ℕ → SessionEvent → AuthHandler → Option AuthHandler
handle_session_event feed id e h =
    if has (at id h)
    then some (enqueue id e (change_at id (update_context feed h.connection_timeout e) h))
    else none

-- The timer of a connector runs out.
unfoldable pub run_timeout : ℕ → Timeout → ConnectorContext → AuthHandler → AuthHandler
run_timeout id withdraw_authorization c h =
    emit (withdraw c.evse_index)
      (change_at id (λ d. record d { identifier = none; timeout_timer = none }) h)
run_timeout id forget_plug_in c h = dequeue id (change_at id stop_timer h)

unfoldable pub timeout : ℕ → AuthHandler → AuthHandler
unfolding run_timeout
timeout id h = elim (at id h) [
  | none ↦ h
  | some c ↦ elim c.timeout_timer [ none ↦ h | some (t, seconds) ↦ run_timeout id t c h ]
]

unfoldable pub set_connection_timeout : ℕ → AuthHandler → AuthHandler
set_connection_timeout seconds h = record h { connection_timeout = seconds }

unfoldable pub set_prioritize : Bool → AuthHandler → AuthHandler
set_prioritize b h = record h { prioritize_authorization_over_stopping_transaction = b }

unfoldable pub reserve_evse : ℕ → ℕ → AuthHandler → AuthHandler
reserve_evse id reservation_id h = emit (call_reserved (evse_index_of (at id h)) reservation_id) h
