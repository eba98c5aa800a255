-- ===== src/Auth/Selection.antt =====
-- How modules/Auth/lib/AuthHandler.cpp finds the connectors of a token and selects one.
use text.Mathlib.Text.{◌==◌ as str_eq}
use Prim.Native.Nat.{compare, Ordering}
use everest_core_dev.Common.{
  ℕ, Bool, true, false, not, ◌&&◌, ◌||◌, String, Option, none, some, List, [], ◌∷◌, ◌==◌, leb,
  if◌then◌else◌,
}
use everest_core_dev.Common.Maps.{Map}
use everest_core_dev.Auth.ConnectorMachine.{Feed, ConnectorState, is_unavailable}
use everest_core_dev.Auth.Data.{
  ConnectorContext, AuthHandler, ProvidedIdToken, Identifier, SessionEvent, stray_unlock, relock,
  user_input, plug_events, emit, at, change_at,
}
use everest_core_dev.Auth.Sessions.{handle_session_event}

-- `std::find(...) != end()`.
unfoldable pub member : ℕ → List ℕ → Bool
member x [] = false
member x (y ∷ ys) = y == x || member x ys

abbrev pub is_usable : Option ConnectorContext → Bool
is_usable none = false
is_usable (some c) = not (is_unavailable c.state)

unfoldable pub usable_of : AuthHandler → List ℕ → List ℕ
usable_of h [] = []
usable_of h (id ∷ ids) = if is_usable (at id h) then id ∷ usable_of h ids else usable_of h ids

unfoldable pub all_usable : Map ConnectorContext → List ℕ
all_usable [] = []
all_usable ((id, c) ∷ m) = if not (is_unavailable c.state) then id ∷ all_usable m else all_usable m

unfoldable pub get_referenced_connectors : ProvidedIdToken → AuthHandler → List ℕ
unfolding usable_of all_usable
get_referenced_connectors token h = elim token.connectors [
  | some ids ↦ usable_of h ids
  | none ↦ all_usable h.connectors
]

abbrev pub is_text : Option String → String → Bool
is_text none s = false
is_text (some t) s = str_eq t s

-- The identifier of a connector carries the token, as its own or as its parent's.
abbrev carries : Option Identifier → String → Bool
carries none token = false
carries (some i) token = str_eq i.id_token token || is_text i.parent_id_token token

abbrev pub uses : Option ConnectorContext → String → Bool
uses none token = false
uses (some c) token = carries c.identifier token

unfoldable pub used_for_transaction : List ℕ → String → AuthHandler → Option ℕ
used_for_transaction [] token h = none
used_for_transaction (id ∷ ids) token h =
    if uses (at id h) token then some id else used_for_transaction ids token h

unfoldable pub contains_text : String → List String → Bool
contains_text s [] = false
contains_text s (t ∷ ts) = str_eq t s || contains_text s ts

abbrev waits_for : Option Identifier → String → Bool
waits_for none token = false
waits_for (some i) token = str_eq i.id_token token

abbrev pub is_pending : Option ConnectorContext → String → Bool
is_pending none token = false
is_pending (some c) token = waits_for c.identifier token && not c.transaction_active

unfoldable pub any_pending : List ℕ → String → AuthHandler → Bool
any_pending [] token h = false
any_pending (id ∷ ids) token h = is_pending (at id h) token || any_pending ids token h

unfoldable pub is_token_already_in_process : String → List ℕ → AuthHandler → Bool
unfolding contains_text any_pending
is_token_already_in_process token ids h =
    contains_text token h.tokens_in_process || any_pending ids token h

abbrev counts_as_available : ConnectorState → Bool
counts_as_available ConnectorState.unavailable = false
counts_as_available ConnectorState.occupied = false
counts_as_available ConnectorState.faulted = false
counts_as_available _ = true

abbrev pub is_free : Option ConnectorContext → Bool
is_free none = false
is_free (some c) = counts_as_available c.state

unfoldable pub any_connector_available : List ℕ → AuthHandler → Bool
any_connector_available [] h = false
any_connector_available (id ∷ ids) h = is_free (at id h) || any_connector_available ids h

-- The first entry of the plug-in queue that is one of the connectors.
unfoldable pub first_of : List ℕ → List ℕ → Option ℕ
unfolding member
first_of [] connectors = none
first_of (id ∷ queue) connectors =
    if member id connectors then some id else first_of queue connectors

unfoldable pub get_latest_plugin : List ℕ → AuthHandler → Option ℕ
unfolding first_of
get_latest_plugin connectors h = first_of h.plug_in_queue connectors

abbrev pub is_locked : Option ConnectorContext → Bool
is_locked none = false
is_locked (some c) = c.plug_in_locked

unfoldable pub lock_plug_in_mutex : List ℕ → AuthHandler → AuthHandler
lock_plug_in_mutex [] h = h
lock_plug_in_mutex (id ∷ ids) h = lock_plug_in_mutex ids (
    change_at id (λ c. record c { plug_in_locked = true })
      (if is_locked (at id h) then emit (relock id) h else h))

unfoldable pub unlock_plug_in_mutex : List ℕ → AuthHandler → AuthHandler
unlock_plug_in_mutex [] h = h
unlock_plug_in_mutex (id ∷ ids) h = unlock_plug_in_mutex ids (
    change_at id (λ c. record c { plug_in_locked = false })
      (if is_locked (at id h) then h else emit (stray_unlock id) h))

-- Another thread's event; an unknown connector makes that thread's call throw.
abbrev pub deliver : Feed → ℕ → SessionEvent → AuthHandler → AuthHandler
deliver feed id e h = elim (handle_session_event feed id e h) [ none ↦ h | some h' ↦ h' ]

-- `cv.wait_for`: events arrive until a connector is in the queue, or the time is over.
unfoldable pub wait_for_plug_in :
    Feed → List ℕ → List (ℕ × SessionEvent) → AuthHandler → AuthHandler
wait_for_plug_in feed connectors [] h = record h { arrivals = [] }
wait_for_plug_in feed connectors ((id, e) ∷ more) h = elim (get_latest_plugin connectors h) [
  | some plugged ↦ record h { arrivals = (id, e) ∷ more }
  | none ↦ wait_for_plug_in feed connectors more (deliver feed id e h)
]

-- The case `PlugEvents` of `select_connector`.
unfoldable pub select_by_plug_in : Feed → List ℕ → AuthHandler → AuthHandler × Option ℕ
select_by_plug_in feed connectors h =
    let locked = lock_plug_in_mutex connectors h in
    elim (get_latest_plugin connectors locked) [
      | some id ↦ (locked, some id)
      | none ↦
          let open_again = unlock_plug_in_mutex connectors locked in
          let waited = wait_for_plug_in feed connectors open_again.arrivals open_again in
          elim (get_latest_plugin connectors waited) [
            | none ↦ (waited, none)
            | some id ↦ (lock_plug_in_mutex connectors waited, some id)
          ]
    ]

abbrev first : List ℕ → Option ℕ
first [] = none
first (x ∷ xs) = some x

-- Called with one connector or more.
unfoldable pub select_connector : Feed → List ℕ → AuthHandler → AuthHandler × Option ℕ
unfolding select_by_plug_in
select_connector feed [] h = elim h.selection_algorithm [
  | plug_events ↦ select_by_plug_in feed [] h
  | user_input ↦ (h, none)
]
select_connector feed (id ∷ []) h = (h, some id)
select_connector feed (id ∷ next ∷ ids) h = elim h.selection_algorithm [
  | plug_events ↦ select_by_plug_in feed (id ∷ next ∷ ids) h
  | user_input ↦ (h, some id)
]

-- `std::sort`, and `std::set_intersection` of two sorted ranges.
unfoldable pub insert_sorted : ℕ → List ℕ → List ℕ
insert_sorted x [] = x ∷ []
insert_sorted x (y ∷ ys) = if leb x y then x ∷ y ∷ ys else y ∷ insert_sorted x ys

unfoldable pub sort : List ℕ → List ℕ
unfolding insert_sorted
sort [] = []
sort (x ∷ xs) = insert_sorted x (sort xs)

unfoldable pub set_intersection : List ℕ → List ℕ → List ℕ
set_intersection [] ys = []
set_intersection (x ∷ xs) [] = []
set_intersection (x ∷ xs) (y ∷ ys) = elim (compare x y) [
  | Ordering.lt ↦ set_intersection xs (y ∷ ys)
  | Ordering.eq ↦ x ∷ set_intersection xs ys
  | Ordering.gt ↦ set_intersection (x ∷ xs) ys
]

unfoldable pub intersect : List ℕ → List ℕ → List ℕ
unfolding sort set_intersection
intersect a b = set_intersection (sort a) (sort b)
