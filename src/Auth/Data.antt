-- ===== src/Auth/Data.antt =====
-- The types of modules/Auth/include: `Connector` with its context, reservations, and the members of
-- `ReservationHandler` and `AuthHandler`. Connector ids are natural numbers, and the source's -1 is
-- `none`.
use everest_core_dev.Common.{ℕ, Bool, String, Option, none, some, List, ◌∷◌}
use everest_core_dev.Common.Maps.{Map, lookup, adjust}
use everest_core_dev.Auth.ConnectorMachine.{ConnectorState}

pub data TokenType : Type 0 where
  ocpp rfid autocharge plug_and_charge : TokenType

pub data AuthorizationStatus : Type 0 where
  accepted blocked concurrent_tx expired invalid no_credit : AuthorizationStatus
  not_allowed_type_evse not_at_this_location not_at_this_time unknown : AuthorizationStatus

pub record ProvidedIdToken : Type 0 where
  pub id_token : String
  pub token_type : TokenType
  pub connectors : Option (List ℕ)
  pub prevalidated : Option Bool

pub record ValidationResult : Type 0 where
  pub authorization_status : AuthorizationStatus
  pub expiry_time : Option String
  pub parent_id_token : Option String
  pub evse_ids : Option (List ℕ)

pub record Identifier : Type 0 where
  pub id_token : String
  pub token_type : TokenType
  pub authorization_status : Option AuthorizationStatus
  pub expiry_time : Option String
  pub parent_id_token : Option String

-- What the timer of a connector does when it runs out.
pub data Timeout : Type 0 where
  withdraw_authorization forget_plug_in : Timeout

-- `ConnectorContext` and its `Connector`. `plug_in_locked` is the state of `plug_in_mutex`; the
-- timer holds its action and its seconds.
pub record ConnectorContext : Type 0 where
  pub evse_index : ℕ
  pub transaction_active : Bool
  pub state : ConnectorState
  pub identifier : Option Identifier
  pub is_reservable : Bool
  pub reserved : Bool
  pub timeout_timer : Option (Timeout × ℕ)
  pub plug_in_locked : Bool

pub record Reservation : Type 0 where
  pub reservation_id : ℕ
  pub id_token : String
  pub expiry_time : String
  pub parent_id_token : Option String

pub data ReservationResult : Type 0 where
  accepted faulted occupied rejected unavailable : ReservationResult

-- `enum class TokenHandlingResult`.
pub data TokenHandlingResult : Type 0 where
  accepted already_in_process rejected used_to_stop_transaction : TokenHandlingResult
  timeout no_connector_available : TokenHandlingResult

pub data SelectionAlgorithm : Type 0 where
  user_input plug_events : SelectionAlgorithm

pub data StartSessionReason : Type 0 where
  ev_connected authorized : StartSessionReason

-- The session events that the handler tells apart. A session start carries its reason.
pub data SessionEvent : Type 0 where
  session_started : StartSessionReason → SessionEvent
  transaction_started transaction_finished session_finished permanent_fault : SessionEvent
  error disabled enabled reservation_start reservation_end other : SessionEvent

-- One call of a callback, or a use of a mutex that is undefined: the release of one that is not
-- held, and a second lock by the thread that holds it.
pub data Output : Type 0 where
  notify_evse : ℕ → ProvidedIdToken → ValidationResult → Output
  withdraw : ℕ → Output
  stop_transaction : ℕ → String → Output
  call_reserved : ℕ → ℕ → Output
  reservation_cancelled : ℕ → Output
  stray_unlock relock : ℕ → Output

-- The members of `AuthHandler` and of its `ReservationHandler`. A timer of a reservation holds the
-- id and the expiry time. `junk_reservation_id` is the value of an id with no initialiser. `out`
-- holds the outputs, the newest first. `arrivals` are the session events that other threads deliver
-- while the handler waits for a plug-in, up to its timeout.
pub record AuthHandler : Type 0 where
  pub selection_algorithm : SelectionAlgorithm
  pub connection_timeout : ℕ
  pub prioritize_authorization_over_stopping_transaction : Bool
  pub connectors : Map ConnectorContext
  pub reservations : Map Reservation
  pub reservation_timers : Map (Option (ℕ × String))
  pub junk_reservation_id : ℕ
  pub plug_in_queue : List ℕ
  pub tokens_in_process : List String
  pub arrivals : List (ℕ × SessionEvent)
  pub out : List Output

abbrev pub emit : Output → AuthHandler → AuthHandler
emit o h = record h { out = o ∷ h.out }

-- `connectors.at(id)` and a change of what it finds.
abbrev pub at : ℕ → AuthHandler → Option ConnectorContext
at id h = lookup id h.connectors

abbrev pub change_at : ℕ → (ConnectorContext → ConnectorContext) → AuthHandler → AuthHandler
change_at id f h = record h { connectors = adjust id f h.connectors }

abbrev pub evse_index_of : Option ConnectorContext → ℕ
evse_index_of none = 0
evse_index_of (some c) = c.evse_index
