-- ===== src/Auth/Booking.antt =====
-- What `reserve` and `cancel_reservation` of modules/Auth/lib/ReservationHandler.cpp promise.
use everest_core_dev.Common.{
  ℕ, ◌≤◌, ◌≡◌, refl, ap, ◌∙◌, ◌≢◌, Bool, true, String, none, some, [], ◌∷◌, ◌==◌, if◌then◌else◌,
  arith, ==_refl,
}
use everest_core_dev.Common.Maps.{Map, lookup, insert, erase, lookup-insert, lookup-erase}
use everest_core_dev.Auth.ConnectorMachine.{ConnectorState, unavailable, faulted}
use everest_core_dev.Auth.Data.{
  at, evse_index_of, reservation_cancelled, emit, Reservation, ReservationResult, AuthHandler,
}
use everest_core_dev.Auth.Reservations.{
  reserve, find_reservation, cancel_reservation, handle_cancel_reservation,
}

module _ (from_rfc3339 : String → ℕ) (now connector : ℕ) (state : ConnectorState)
    (is_reservable : Bool) (r : Reservation) (h : AuthHandler) where
  abbrev outcome : AuthHandler × ReservationResult
  outcome = reserve from_rfc3339 now connector state is_reservable r h

  -- The conditions under which a reservation is accepted.
  pub record IsBookable : Type 0 where
    pub in_service : state ≢ unavailable
    pub sound : state ≢ faulted
    pub not_expired : now ≤ from_rfc3339 r.expiry_time
    pub reservable : is_reservable ≡ true
    pub unreserved : lookup connector h.reservations ≡ none

  abbrev booked : AuthHandler
  booked = record h {
    reservations = insert connector r h.reservations;
    reservation_timers =
        insert connector (some (r.reservation_id, r.expiry_time)) h.reservation_timers;
  }

  reserve_accepted : outcome.1 ≡ ReservationResult.accepted → IsBookable × (outcome.0 ≡ booked)
  unfolding reserve
  reserve_accepted e = ground arith

  reserve_bookable : IsBookable → outcome.1 ≡ ReservationResult.accepted
  unfolding reserve
  reserve_bookable b = ground arith

  reserve_refused : outcome.1 ≢ ReservationResult.accepted → outcome.0 ≡ h
  unfolding reserve
  reserve_refused n = ground arith

  -- A reservation is accepted exactly if the connector's state is neither UNAVAILABLE nor FAULTED
  -- (UNAVAILABLE_FAULTED and FAULTED_OCCUPIED are accepted), the expiry time is not past, and the
  -- connector is reservable and has no reservation. An accepted one is then the one of its connector
  -- with its timer armed, and every other connector keeps its own; a refusal changes nothing.
  pub reserve-outcome :
      (outcome.1 ≡ ReservationResult.accepted
        → IsBookable
          × ((j : ℕ)
              → lookup j outcome.0.reservations
                ≡ (if connector == j then some r else lookup j h.reservations))
          × (lookup connector outcome.0.reservation_timers
              ≡ some (some (r.reservation_id, r.expiry_time))))
      × (IsBookable → outcome.1 ≡ ReservationResult.accepted)
      × (outcome.1 ≢ ReservationResult.accepted → outcome.0 ≡ h)
  reserve-outcome = (
    λ e.
        let (bookable, same) = reserve_accepted e in
        (
          bookable,
          λ j.
              ap (λ (a : AuthHandler). lookup j a.reservations) same
              ∙ lookup-insert connector j r h.reservations,
          ap (λ (a : AuthHandler). lookup connector a.reservation_timers) same ∙ lookup-insert_self,
        ),
    reserve_bookable,
    reserve_refused,
  )
    where
      lookup-insert_self :
          lookup connector booked.reservation_timers ≡ some (some (r.reservation_id, r.expiry_time))
      lookup-insert_self = rw (lookup-insert connector connector, ==_refl connector)

find_reservation-insert :
    (connector : ℕ) (r : Reservation) (m : Map Reservation)
    → find_reservation r.reservation_id m ≡ none
    → find_reservation r.reservation_id (insert connector r m) ≡ some connector
unfolding find_reservation insert
find_reservation-insert c r [] e = ground (arith, ==_refl r.reservation_id)
find_reservation-insert c r ((j, s) ∷ m) e =
    ground (arith, ==_refl r.reservation_id, find_reservation-insert c r m)

cancelled : ℕ → AuthHandler → AuthHandler
cancelled connector h = emit (reservation_cancelled (evse_index_of (at connector h))) (record h {
  reservation_timers = insert connector none h.reservation_timers;
  reservations = erase connector h.reservations;
})

cancel_reservation_found :
    (id connector : ℕ) (h : AuthHandler)
    → find_reservation id h.reservations ≡ some connector
    → cancel_reservation id true h ≡ (cancelled connector h, some connector)
unfolding cancel_reservation cancelled
cancel_reservation_found id connector h e = rw (e, cancel_reservation)

lookup-erase-insert :
    (k j : ℕ) (r : Reservation) (m : Map Reservation)
    → lookup k m ≡ none
    → lookup j (erase k (insert k r m)) ≡ lookup j m
lookup-erase-insert k j r m e =
    ground (arith, lookup-erase k j (insert k r m), lookup-insert k j r m)

-- Where no reservation has the id, a reservation that is accepted and then cancelled by its id
-- leaves every connector the reservation that it had, stops the timer, and tells the connector.
pub cancel-reserve :
    (from_rfc3339 : String → ℕ) (now connector : ℕ) (state : ConnectorState) (free : Bool)
    (r : Reservation) (h : AuthHandler)
    → find_reservation r.reservation_id h.reservations ≡ none
    → (reserve from_rfc3339 now connector state free r h).1 ≡ ReservationResult.accepted
    → let c =
        handle_cancel_reservation r.reservation_id
          (reserve from_rfc3339 now connector state free r h).0 in
      (c.1 ≡ some connector)
      × ((j : ℕ) → lookup j c.0.reservations ≡ lookup j h.reservations)
      × (lookup connector c.0.reservation_timers ≡ some none)
      × (c.0.out ≡ reservation_cancelled (evse_index_of (at connector h)) ∷ h.out)
unfolding handle_cancel_reservation cancelled
cancel-reserve from_rfc3339 now connector state free r h fresh e =
    let (bookable, same) = reserve_accepted from_rfc3339 now connector state free r h e in
    let found = find_reservation-insert connector r h.reservations fresh in
    rw same (
      rw
        (cancel_reservation_found r.reservation_id connector
          (booked from_rfc3339 now connector state free r h) found)
        (
          refl,
          λ j. lookup-erase-insert connector j r h.reservations bookable.unreserved,
          rw (lookup-insert connector connector, ==_refl connector),
          refl,
        ))
