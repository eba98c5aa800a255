-- ===== src/Charger/Session.antt =====
-- Sessions, transactions and authorization of modules/EvseManager/Charger.cpp. `stateMutex` makes the
-- calls for sessions and transactions atomic. `Authorize` and `DeAuthorize` hold no lock from their
-- tests to what they change, so that they are lists of parts, between which other calls come.
use everest_core_dev.Common.{
  Bool, true, false, not, ◌&&◌, ◌||◌, String, Option, none, some, List, [], ◌∷◌, if◌then◌else◌,
}
use everest_core_dev.Charger.Data.{
  EvseState, disabled, idle, waiting_for_authentication, error, faulted, stopping_charging,
  charging, charging_paused_ev, charging_paused_evse, waiting_for_energy, SessionEvent, StopReason,
  StartReason, Charger,
}
use everest_core_dev.Charger.Signals.{same, is_dc, event}

-- The states in which `DeAuthorize` may take an authorization back.
abbrev not_in_use : EvseState → Bool
not_in_use s =
    same s disabled
    || (same s idle || (same s waiting_for_authentication || (same s error || same s faulted)))

-- What `Authorize` and `DeAuthorize` change. `revoke` is also the end of an authorization that
-- `DeAuthorize` finds, under `configMutex`, before it stops the session.
pub data Part : Type 0 where
  session_start session_stop revoke : Part
  grant : String → Bool → Part

-- The parts of `Authorize`, by what `sessionActive` told before the first of them.
unfoldable pub authorize_parts : Bool → String → Bool → Bool → List Part
authorize_parts true userid pnc active =
    if not active then session_start ∷ grant userid pnc ∷ [] else grant userid pnc ∷ []
authorize_parts false userid pnc active = if active then session_stop ∷ revoke ∷ [] else revoke ∷ []

-- The parts of `DeAuthorize`, by what `sessionActive`, `getCurrentState` and `authorized` told, and
-- whether it did anything.
unfoldable pub deauthorize_parts : Bool → EvseState → Bool → List Part × Bool
deauthorize_parts active state authorized =
    if active && not_in_use state
    then (if not authorized then ([], false) else (revoke ∷ session_stop ∷ [], true))
    else ([], false)

module _ {F : Type 0} where
  unfoldable pub start_session : Bool → Charger F → Charger F
  start_session authfirst c = event SessionEvent.session_started (record c {
    session_active = true;
    authorized = false;
    last_start_session_reason =
        (if authfirst then StartReason.authorized else StartReason.ev_connected);
  })

  unfoldable pub stop_session : Charger F → Charger F
  stop_session c =
      event SessionEvent.session_finished (record c { session_active = false; authorized = false })

  unfoldable pub start_transaction : Charger F → Charger F
  start_transaction c =
      event SessionEvent.transaction_started
        (record c { stop_transaction_id_tag = ""; transaction_active = true })

  unfoldable pub stop_transaction : Charger F → Charger F
  stop_transaction c = event SessionEvent.transaction_finished (
      event SessionEvent.charging_finished (record c {
        transaction_active = false;
        last_stop_transaction_reason = StopReason.ev_disconnected;
      }))

  unfoldable pub cancel_transaction : StopReason → Option String → Charger F → Charger F × Bool
  cancel_transaction reason id_tag c =
      if c.transaction_active
      then (
        event SessionEvent.transaction_finished (
            event SessionEvent.charging_finished (record c {
              current_state =
                  (if is_dc c.charge_mode then stopping_charging else charging_paused_evse);
              transaction_active = false;
              last_stop_transaction_reason = reason;
              stop_transaction_id_tag = elim id_tag [
                | none ↦ c.stop_transaction_id_tag
                | some tag ↦ tag
              ];
            })),
        true,
      )
      else (c, false)

  -- `AuthorizedEIM` and `Authorized_EIM`.
  abbrev pub authorized_eim : Charger F → Bool
  authorized_eim c = c.authorized && not c.authorized_pnc

  -- `AuthorizedPnC` and `Authorized_PnC`.
  abbrev pub is_authorized_pnc : Charger F → Bool
  is_authorized_pnc c = c.authorized && c.authorized_pnc

  abbrev ready_for_hlc : Charger F → Bool
  ready_for_hlc c =
      same c.current_state charging_paused_ev
      || (same c.current_state charging_paused_evse
          || (same c.current_state charging || same c.current_state waiting_for_energy))

  unfoldable pub authorized_pnc_ready_for_hlc : Charger F → Bool
  authorized_pnc_ready_for_hlc c = is_authorized_pnc c && ready_for_hlc c

  unfoldable pub authorized_eim_ready_for_hlc : Charger F → Bool
  authorized_eim_ready_for_hlc c = authorized_eim c && ready_for_hlc c

  -- One part of `Authorize` or `DeAuthorize`, which a mutex makes atomic.
  unfoldable pub do_part : Part → Charger F → Charger F
  unfolding start_session stop_session
  do_part session_start c = start_session true c
  do_part session_stop c = stop_session c
  do_part (grant userid pnc) c = record c {
    authorized = true;
    authorized_pnc = pnc;
    auth_tag = userid;
  }
  do_part revoke c = record c { authorized = false }

  abbrev pub do_parts : List Part → Charger F → Charger F
  do_parts [] c = c
  do_parts (p ∷ ps) c = do_parts ps (do_part p c)

  -- `Authorize` where nothing comes between its parts, as the charger's own thread calls it.
  unfoldable pub authorize : Bool → String → Bool → Charger F → Charger F
  unfolding start_session stop_session
  authorize true userid pnc c = record (if not c.session_active then start_session true c else c) {
    authorized = true;
    authorized_pnc = pnc;
    auth_tag = userid;
  }
  authorize false userid pnc c = record (if c.session_active then stop_session c else c) {
    authorized = false;
  }

  unfoldable pub get_auth_tag : Charger F → String
  get_auth_tag c = if c.authorized then c.auth_tag else ""
