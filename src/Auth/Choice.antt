-- ===== src/Auth/Choice.antt =====
-- Which connector `select_connector` of modules/Auth/lib/AuthHandler.cpp selects.
use everest_core_dev.Common.{ℕ, ◌≡◌, true, some, List, [], ◌∷◌, ==_refl, arith}
use everest_core_dev.Auth.ConnectorMachine.{Feed}
use everest_core_dev.Auth.Data.{AuthHandler}
use everest_core_dev.Auth.Selection.{
  member, first_of, get_latest_plugin, select_by_plug_in, select_connector, lock_plug_in_mutex,
  unlock_plug_in_mutex, wait_for_plug_in,
}

first_of-member :
    (queue ids : List ℕ) (id : ℕ) → first_of queue ids ≡ some id → member id ids ≡ true
unfolding first_of
first_of-member [] ids id e = cc
first_of-member (x ∷ queue) ids id e = ground (arith, first_of-member queue ids id)

latest-member :
    (ids : List ℕ) (h : AuthHandler) (id : ℕ)
    → get_latest_plugin ids h ≡ some id
    → member id ids ≡ true
unfolding get_latest_plugin
latest-member ids h id e = first_of-member h.plug_in_queue ids id e

plugged-member :
    (feed : Feed) (ids : List ℕ) (h : AuthHandler) (id : ℕ)
    → (select_by_plug_in feed ids h).1 ≡ some id
    → member id ids ≡ true
unfolding select_by_plug_in
plugged-member feed ids h id e =
    let locked = lock_plug_in_mutex ids h in
    let open_again = unlock_plug_in_mutex ids locked in
    let waited = wait_for_plug_in feed ids open_again.arrivals open_again in
    ground (arith, latest-member ids locked id, latest-member ids waited id)

-- A connector that is selected among some is one of them, whatever session events come in a wait.
pub selected-member :
    (feed : Feed) (ids : List ℕ) (h : AuthHandler) (id : ℕ)
    → (select_connector feed ids h).1 ≡ some id
    → member id ids ≡ true
unfolding select_connector member
selected-member feed [] h id e = ground (arith, plugged-member feed [] h id)
selected-member feed (x ∷ []) h id e = ground (arith, ==_refl id)
selected-member feed (x ∷ next ∷ ids) h id e =
    ground (arith, ==_refl id, plugged-member feed (x ∷ next ∷ ids) h id)
