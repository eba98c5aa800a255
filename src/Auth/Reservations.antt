-- ===== src/Auth/Reservations.antt =====
-- modules/Auth/lib/ReservationHandler.cpp, with the calls of AuthHandler.cpp into it.
use text.Mathlib.Text.{◌==◌ as str_eq}
use everest_core_dev.Common.{
  ℕ, Bool, true, false, not, ◌||◌, String, Option, none, some, [], ◌∷◌, ltb, ◌==◌, if◌then◌else◌,
}
use everest_core_dev.Common.Maps.{Map, lookup, insert, erase}
use everest_core_dev.Auth.ConnectorMachine.{ConnectorState}
use everest_core_dev.Auth.Data.{
  Reservation, ReservationResult, AuthHandler, reservation_cancelled, emit, at, evse_index_of,
}

abbrev pub has : {V : Type 0} → Option V → Bool
has none = false
has (some v) = true

-- `optional && optional && value == value`.
abbrev same_text : Option String → Option String → Bool
same_text (some a) (some b) = str_eq a b
same_text (some a) none = false
same_text none b = false

-- `reservations[connector]`, which makes an entry where there is none.
unfoldable pub entry : ℕ → AuthHandler → AuthHandler × Reservation
entry connector h = elim (lookup connector h.reservations) [
  | some r ↦ (h, r)
  | none ↦
      let r : Reservation = record {
        reservation_id = h.junk_reservation_id;
        id_token = "";
        expiry_time = "";
        parent_id_token = none;
      } in
      (record h { reservations = insert connector r h.reservations }, r)
]

unfoldable pub matches_reserved_identifier :
    ℕ → String → Option String → AuthHandler → AuthHandler × Bool
unfolding entry
matches_reserved_identifier connector id_token parent h =
    let (h', r) = entry connector h in
    (h', str_eq r.id_token id_token || same_text parent r.parent_id_token)

-- The checks of `reserve`, by the connector's state. The switch of the source knows two states.
abbrev pub refuses : ConnectorState → Option ReservationResult
refuses ConnectorState.unavailable = some ReservationResult.unavailable
refuses ConnectorState.faulted = some ReservationResult.faulted
refuses _ = none

-- `from_rfc3339` is the date library's; `now` is the time of the call.
unfoldable pub reserve :
    (String → ℕ)
    → ℕ
    → ℕ
    → ConnectorState
    → Bool
    → Reservation
    → AuthHandler
    → AuthHandler × ReservationResult
reserve from_rfc3339 now connector state is_reservable reservation h = elim (refuses state) [
  | some refusal ↦ (h, refusal)
  | none ↦
      if ltb (from_rfc3339 reservation.expiry_time) now
      then (h, ReservationResult.rejected)
      else if not is_reservable
      then (h, ReservationResult.occupied)
      else if has (lookup connector h.reservations)
      then (h, ReservationResult.occupied)
      else (
        record h {
          reservations = insert connector reservation h.reservations;
          reservation_timers =
              insert connector (some (reservation.reservation_id, reservation.expiry_time))
                h.reservation_timers;
        },
        ReservationResult.accepted,
      )
]

-- The loop of `cancel_reservation` keeps the last connector that it finds.
unfoldable pub find_reservation : ℕ → Map Reservation → Option ℕ
find_reservation id [] = none
find_reservation id ((connector, r) ∷ m) = elim (find_reservation id m) [
  | some later ↦ some later
  | none ↦ if r.reservation_id == id then some connector else none
]

-- `call_reservation_cancelled`.
unfoldable pub call_reservation_cancelled : ℕ → AuthHandler → AuthHandler
call_reservation_cancelled connector h =
    emit (reservation_cancelled (evse_index_of (at connector h))) h

unfoldable pub cancel_reservation : ℕ → Bool → AuthHandler → AuthHandler × Option ℕ
unfolding call_reservation_cancelled
cancel_reservation id execute_callback h = elim (find_reservation id h.reservations) [
  | none ↦ (h, none)
  | some connector ↦
      let h' = record h {
        reservation_timers = insert connector none h.reservation_timers;
        reservations = erase connector h.reservations;
      } in
      (if execute_callback then call_reservation_cancelled connector h' else h', some connector)
]

unfoldable pub on_reservation_used : ℕ → AuthHandler → AuthHandler
unfolding entry cancel_reservation
on_reservation_used connector h =
    let (h', r) = entry connector h in (cancel_reservation r.reservation_id false h').0

-- `handle_reservation`; `connectors.at` throws where there is no such connector.
unfoldable pub handle_reservation :
    (String → ℕ) → ℕ → ℕ → Reservation → AuthHandler → Option (AuthHandler × ReservationResult)
handle_reservation from_rfc3339 now connector reservation h = elim (at connector h) [
  | none ↦ none
  | some c ↦ some (reserve from_rfc3339 now connector c.state c.is_reservable reservation h)
]

unfoldable pub handle_cancel_reservation : ℕ → AuthHandler → AuthHandler × Option ℕ
handle_cancel_reservation id h = cancel_reservation id true h

-- The timer of a connector's reservation runs out: its callback cancels the reservation.
unfoldable pub reservation_expires : ℕ → AuthHandler → AuthHandler
reservation_expires connector h = elim (lookup connector h.reservation_timers) [
  | some (some (id, expiry)) ↦
      (cancel_reservation id true
        (record h { reservation_timers = insert connector none h.reservation_timers })).0
  | _ ↦ h
]
