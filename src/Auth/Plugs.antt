-- ===== src/Auth/Plugs.antt =====
-- The plug-in queue of modules/Auth/lib/AuthHandler.cpp under session events.
use everest_core_dev.Common.{
  ◌∙◌, ℕ, ◌≡◌, refl, Bool, true, not, ◌||◌, Option, none, some, List, [], ◌∷◌, ◌++◌, arith, ==_refl,
}
use everest_core_dev.Common.Maps.{lookup-adjust}
use everest_core_dev.Auth.ConnectorMachine.{Feed}
use everest_core_dev.Auth.Data.{
  ConnectorContext, AuthHandler, SessionEvent, session_started, session_finished,
  StartSessionReason, at,
}
use everest_core_dev.Auth.Reservations.{has}
use everest_core_dev.Auth.Sessions.{handle_session_event, enqueue, update_context}
use everest_core_dev.Auth.Selection.{member, deliver}

-- Session events in the order of their arrival.
abbrev pub deliver_all : Feed → List (ℕ × SessionEvent) → AuthHandler → AuthHandler
deliver_all feed [] h = h
deliver_all feed ((id, e) ∷ more) h = deliver_all feed more (deliver feed id e h)

member-append : (x : ℕ) (a b : List ℕ) → member x (a ++ b) ≡ (member x a || member x b)
unfolding member
member-append x [] b = refl
member-append x (y ∷ a) b = ground (arith, member-append x a b)

abbrev is_known : ℕ → AuthHandler → Bool
is_known id h = has (at id h)

known-deliver :
    (feed : Feed) (j id : ℕ) (e : SessionEvent) (h : AuthHandler)
    → is_known j (deliver feed id e h) ≡ is_known j h
unfolding handle_session_event enqueue
known-deliver feed j id e h =
    ground (arith, lookup-adjust id j (update_context feed h.connection_timeout e) h.connectors)

queued-deliver :
    (feed : Feed) (x id : ℕ) (e : SessionEvent) (h : AuthHandler)
    → member x h.plug_in_queue ≡ true
    → member x (deliver feed id e h).plug_in_queue ≡ true
unfolding handle_session_event enqueue
queued-deliver feed x id e h v = ground (arith, member-append x h.plug_in_queue (id ∷ []))

known-deliver_all :
    (feed : Feed) (x : ℕ) (es : List (ℕ × SessionEvent)) (h : AuthHandler)
    → is_known x (deliver_all feed es h) ≡ is_known x h
known-deliver_all feed x [] h = refl
known-deliver_all feed x ((id, e) ∷ es) h =
    known-deliver_all feed x es (deliver feed id e h) ∙ known-deliver feed x id e h

queued-deliver_all :
    (feed : Feed) (x : ℕ) (es : List (ℕ × SessionEvent)) (h : AuthHandler)
    → member x h.plug_in_queue ≡ true
    → member x (deliver_all feed es h).plug_in_queue ≡ true
queued-deliver_all feed x [] h v = v
queued-deliver_all feed x ((id, e) ∷ es) h v =
    queued-deliver_all feed x es (deliver feed id e h) (queued-deliver feed x id e h v)

started-queues :
    (feed : Feed) (id : ℕ) (reason : StartSessionReason) (h : AuthHandler)
    → is_known id h ≡ true
    → member id (deliver feed id (session_started reason) h).plug_in_queue ≡ true
unfolding handle_session_event enqueue member
started-queues feed id reason h k =
    ground (arith, member-append id h.plug_in_queue (id ∷ []), ==_refl id)

-- No timer runs at the connector.
abbrev pub is_untimed : Option ConnectorContext → Bool
is_untimed none = true
is_untimed (some c) = not (has c.timeout_timer)

finished-untimed :
    (feed : Feed) (id : ℕ) (h : AuthHandler)
    → is_untimed (at id (deliver feed id session_finished h)) ≡ true
unfolding handle_session_event enqueue update_context
finished-untimed feed id h = ground (
  arith,
  lookup-adjust id id (update_context feed h.connection_timeout session_finished) h.connectors,
  ==_refl id,
)

-- Whatever session events come between the start and the end of a session of a known connector,
-- without an authorization, the connector is in the plug-in queue after its end, and no timer runs
-- that would take it out.
pub stale_plug_in :
    (feed : Feed) (id : ℕ) (reason : StartSessionReason) (es : List (ℕ × SessionEvent))
    (h : AuthHandler)
    → has (at id h) ≡ true
    → let ended =
        deliver feed id session_finished
          (deliver_all feed es (deliver feed id (session_started reason) h)) in
      (member id ended.plug_in_queue ≡ true) × (is_untimed (at id ended) ≡ true)
stale_plug_in feed id reason es h k =
    let started = deliver feed id (session_started reason) h in
    let before = deliver_all feed es started in
    (
      queued-deliver feed id id session_finished before
          (queued-deliver_all feed id es started (started-queues feed id reason h k)),
      finished-untimed feed id before,
    )
