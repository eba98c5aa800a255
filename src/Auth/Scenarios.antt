-- ===== src/Auth/Scenarios.antt =====
-- A charging station with two connectors, and the theorems on modules/Auth at its states.
use everest_core_dev.Common.{
  ◌&&◌, ◌+◌, ℕ, ◌≡◌, refl, ◌≢◌, true, false, String, none, some, List, [], ◌∷◌, ◌==◌, if◌then◌else◌,
  arith,
}
use everest_core_dev.Common.Maps.{adjust, lookup}
use everest_core_dev.Auth.ConnectorMachine.{
  is_unavailable, follow, facts, change, submit, ConnectorState, ConnectorStatusTransition,
  facts-submit,
}
use everest_core_dev.Auth.Data.{
  ConnectorContext, AuthHandler, ProvidedIdToken, ValidationResult, TokenType, AuthorizationStatus,
  SelectionAlgorithm, TokenHandlingResult, Reservation, ReservationResult, at,
  reservation_cancelled, StartSessionReason, SessionEvent, session_finished, session_started,
}
use everest_core_dev.Auth.Sessions.{new_context}
use everest_core_dev.Auth.Selection.{
  unlock_plug_in_mutex, any_connector_available, any_pending, all_usable, used_for_transaction,
  member, get_referenced_connectors, contains_text, is_token_already_in_process, deliver,
}
use everest_core_dev.Auth.Reservations.{reserve, handle_cancel_reservation, find_reservation}
use everest_core_dev.Auth.Tokens.{
  remove_text, add_text, authorize_loop, validation_results, stop_by_parent, finish,
  authorize_token, handle_token, on_token,
}
use everest_core_dev.Auth.Booking.{IsBookable, reserve-outcome, cancel-reserve}
use everest_core_dev.Auth.Intersections.{names, in_service, member-referenced}
use everest_core_dev.Auth.InProcess.{token_locked_out}
use everest_core_dev.Auth.Grants.{granted, weight, on_token-grants_once}
use everest_core_dev.Auth.Denials.{identifier_at, denied-gets_nothing}
use everest_core_dev.Auth.Plugs.{deliver_all, is_untimed, stale_plug_in}

-- The second connector is authorized for a car of the fleet, whose transaction has not started.
abbrev fleet_context : ConnectorContext
fleet_context = record (new_context 2) {
  identifier = some (record {
    id_token = "card";
    token_type = TokenType.rfid;
    authorization_status = some AuthorizationStatus.accepted;
    expiry_time = none;
    parent_id_token = some "fleet";
  });
}

abbrev station : AuthHandler
station = record {
  selection_algorithm = SelectionAlgorithm.plug_events;
  connection_timeout = 30;
  prioritize_authorization_over_stopping_transaction = false;
  connectors = (1, new_context 1) ∷ (2, fleet_context) ∷ [];
  reservations = [];
  reservation_timers = (1, none) ∷ (2, none) ∷ [];
  junk_reservation_id = 0;
  plug_in_queue = [];
  tokens_in_process = [];
  arrivals = [];
  out = [];
}

abbrev booking : Reservation
booking = record {
  reservation_id = 7;
  id_token = "card";
  expiry_time = "noon";
  parent_id_token = none;
}

abbrev noon : String → ℕ
noon s = 1200

abbrev card : ProvidedIdToken
card = record {
  id_token = "other";
  token_type = TokenType.rfid;
  connectors = none;
  prevalidated = none;
}

abbrev by_fleet : ProvidedIdToken → List ValidationResult
by_fleet token =
    record {
      authorization_status = AuthorizationStatus.accepted;
      expiry_time = none;
      parent_id_token = some "fleet";
      evse_ids = none;
    }
    ∷ []

abbrev by_nobody : ProvidedIdToken → List ValidationResult
by_nobody token = []

facts-submit_example :
    facts (submit follow ConnectorStatusTransition.session_finished ConnectorState.faulted_occupied)
    ≡ change ConnectorStatusTransition.session_finished (facts ConnectorState.faulted_occupied)
facts-submit_example =
    facts-submit follow (λ next s e. refl) ConnectorStatusTransition.session_finished
      ConnectorState.faulted_occupied

reserve-outcome_example :
    let r = reserve noon 1100 1 ConnectorState.available true booking station in
    (r.1 ≡ ReservationResult.accepted
      → IsBookable noon 1100 1 ConnectorState.available true booking station
        × ((j : ℕ) → lookup j r.0.reservations ≡ (if 1 == j then some booking else none))
        × (lookup 1 r.0.reservation_timers ≡ some (some (7, "noon"))))
    × (IsBookable noon 1100 1 ConnectorState.available true booking station
        → r.1 ≡ ReservationResult.accepted)
    × (r.1 ≢ ReservationResult.accepted → r.0 ≡ station)
unfolding lookup
reserve-outcome_example = reserve-outcome noon 1100 1 ConnectorState.available true booking station

cancel-reserve_example :
    let c =
      handle_cancel_reservation 7
        (reserve noon 1100 1 ConnectorState.available true booking station).0 in
    (c.1 ≡ some 1)
    × ((j : ℕ) → lookup j c.0.reservations ≡ none)
    × (lookup 1 c.0.reservation_timers ≡ some none)
    × (c.0.out ≡ reservation_cancelled 1 ∷ [])
unfolding find_reservation reserve lookup
cancel-reserve_example =
    cancel-reserve noon 1100 1 ConnectorState.available true booking station refl refl

member-referenced_example :
    member 2 (get_referenced_connectors card station)
    ≡ (names card.connectors 2 && in_service (at 2 station))
member-referenced_example = member-referenced card station 2 (omega arith, tt)

token_locked_out_example :
    on_token follow by_nobody card (on_token follow by_fleet card station).0
    ≡ ((on_token follow by_fleet card station).0, TokenHandlingResult.already_in_process)
unfolding on_token handle_token authorize_token finish get_referenced_connectors
    is_token_already_in_process contains_text used_for_transaction all_usable is_unavailable
    any_pending stop_by_parent validation_results any_connector_available authorize_loop lookup
    unlock_plug_in_mutex adjust add_text remove_text
token_locked_out_example = token_locked_out follow by_fleet by_nobody card station refl refl

stale_plug_in_example :
    let ended = deliver follow 1 session_finished (
      deliver_all follow
        ((2, SessionEvent.transaction_started) ∷ [])
        (deliver follow 1 (session_started StartSessionReason.ev_connected) station)) in
    (member 1 ended.plug_in_queue ≡ true) × (is_untimed (at 1 ended) ≡ true)
unfolding lookup
stale_plug_in_example =
    stale_plug_in follow 1 StartSessionReason.ev_connected
      ((2, SessionEvent.transaction_started) ∷ []) station refl

on_token-grants_once_example :
    let r = on_token follow by_fleet card station in granted r.0 ≡ 0 + weight r.1
on_token-grants_once_example = on_token-grants_once follow by_fleet card station

denied-gets_nothing_example :
    let r = on_token follow by_nobody card station in
    (granted r.0 ≡ 0) × ((j : ℕ) → identifier_at j r.0 ≡ identifier_at j station)
unfolding validation_results
denied-gets_nothing_example = denied-gets_nothing follow by_nobody card station refl

abbrev plugged : AuthHandler
plugged = record station { plug_in_queue = 3 ∷ 2 ∷ [] }
