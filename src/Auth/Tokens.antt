-- ===== src/Auth/Tokens.antt =====
-- `on_token`, `handle_token` and `notify_evse` of modules/Auth/lib/AuthHandler.cpp. The validators
-- are other modules: `validate` is the callback that asks them.
use text.Mathlib.Text.{◌==◌ as str_eq}
use everest_core_dev.Common.{
  ◌||◌, ℕ, Bool, true, false, not, String, Option, none, some, List, [], ◌∷◌, if◌then◌else◌,
}
use everest_core_dev.Auth.ConnectorMachine.{Feed}
use everest_core_dev.Auth.Reservations.{matches_reserved_identifier, on_reservation_used}
use everest_core_dev.Auth.Data.{
  ConnectorContext, AuthHandler, ProvidedIdToken, ValidationResult, TokenType, rfid,
  AuthorizationStatus, TokenHandlingResult, notify_evse, stop_transaction, emit, at, change_at,
  evse_index_of, withdraw_authorization,
}
use everest_core_dev.Auth.Sessions.{dequeue, start_timer}
use everest_core_dev.Auth.Selection.{
  get_referenced_connectors, used_for_transaction, contains_text, is_token_already_in_process,
  any_connector_available, unlock_plug_in_mutex, select_connector, sort, intersect,
}

abbrev pub is_accepted : AuthorizationStatus → Bool
is_accepted AuthorizationStatus.accepted = true
is_accepted _ = false

abbrev pub is_rfid : TokenType → Bool
is_rfid rfid = true
is_rfid _ = false

-- An accepted result gives the connector its identifier and a time to start a transaction in.
unfoldable pub notify : ℕ → ProvidedIdToken → ValidationResult → AuthHandler → AuthHandler
notify id token result h = emit (notify_evse (evse_index_of (at id h)) token result) (
    if is_accepted result.authorization_status
    then dequeue id (
        change_at id
          (λ c. start_timer withdraw_authorization h.connection_timeout (record c {
            identifier = some (record {
              id_token = token.id_token;
              token_type = token.token_type;
              authorization_status = some result.authorization_status;
              expiry_time = result.expiry_time;
              parent_id_token = result.parent_id_token;
            });
          }))
          h)
    else h)

abbrev prevalidated_result : ValidationResult
prevalidated_result = record {
  authorization_status = AuthorizationStatus.accepted;
  expiry_time = none;
  parent_id_token = none;
  evse_ids = none;
}

abbrev is_true : Option Bool → Bool
is_true none = false
is_true (some b) = b

unfoldable pub validation_results :
    (ProvidedIdToken → List ValidationResult) → ProvidedIdToken → List ValidationResult
validation_results validate token =
    if is_true token.prevalidated then prevalidated_result ∷ [] else validate token

abbrev pub is_transaction_active : Option ConnectorContext → Bool
is_transaction_active none = false
is_transaction_active (some c) = c.transaction_active

unfoldable pub stop_at : ℕ → String → AuthHandler → AuthHandler
stop_at id tag h = emit (stop_transaction (evse_index_of (at id h)) tag) h

-- The loop over the parents of the validation results. `none` goes on with the token.
unfoldable pub stop_by_parent :
    List ℕ
    → ProvidedIdToken
    → List ValidationResult
    → AuthHandler
    → Option (AuthHandler × TokenHandlingResult)
stop_by_parent ids token [] h = none
stop_by_parent ids token (r ∷ rs) h = elim r.parent_id_token [
  | none ↦ stop_by_parent ids token rs h
  | some parent ↦ elim (used_for_transaction ids parent h) [
    | none ↦ stop_by_parent ids token rs h
    | some id ↦
        if not (is_transaction_active (at id h))
        then some (h, TokenHandlingResult.already_in_process)
        else some (stop_at id token.id_token h, TokenHandlingResult.used_to_stop_transaction)
  ]
]

abbrev pub is_reserved : Option ConnectorContext → Bool
is_reserved none = false
is_reserved (some c) = c.reserved

abbrev pub is_empty : List ℕ → Bool
is_empty [] = true
is_empty (x ∷ xs) = false

-- The result lists other EVSEs only.
abbrev pub is_elsewhere : List ℕ → Option (List ℕ) → Bool
is_elsewhere ids none = false
is_elsewhere ids (some evses) = is_empty (intersect ids evses)

-- The reservation of a reserved connector is checked, and used up if the token matches.
unfoldable pub check_reservation :
    ℕ → ProvidedIdToken → ValidationResult → AuthHandler → AuthHandler × Bool × AuthorizationStatus
check_reservation id token result h =
    let (h', fits) = matches_reserved_identifier id token.id_token result.parent_id_token h in
    if fits
    then (on_reservation_used id h', true, result.authorization_status)
    else (h', false, AuthorizationStatus.not_at_this_time)

-- One accepted result for the selected connector: whether it is authorized, and the status to tell.
unfoldable pub decide :
    List ℕ
    → ℕ
    → ProvidedIdToken
    → ValidationResult
    → AuthHandler
    → AuthHandler × Bool × AuthorizationStatus
unfolding check_reservation
decide ids id token result h =
    if is_elsewhere ids result.evse_ids
    then (h, false, AuthorizationStatus.not_at_this_location)
    else if not (is_reserved (at id h))
    then (h, true, result.authorization_status)
    else check_reservation id token result h

-- The connectors after a result: `intersect` sorts them in place.
abbrev next_ids : List ℕ → Option (List ℕ) → List ℕ
next_ids ids none = ids
next_ids ids (some evses) = sort ids

-- `intersect` sorts the EVSEs of the result in place, too.
abbrev pub sorted_evses : Option (List ℕ) → Option (List ℕ)
sorted_evses none = none
sorted_evses (some evses) = some (sort evses)

-- One round of the loop ends with a result, or goes on with the next validation result.
pub data Attempt : Type 0 where
  done : TokenHandlingResult → Attempt
  go_on : List ℕ → Attempt

-- What follows the choice of a connector.
unfoldable pub attempt_at :
    List ℕ → ℕ → ProvidedIdToken → ValidationResult → AuthHandler → AuthHandler × Attempt
attempt_at ids id token r h =
    let (h', authorized, status) = decide ids id token r h in
    (
      notify id token
          (record r { authorization_status = status; evse_ids = sorted_evses r.evse_ids }) h',
      if authorized then done TokenHandlingResult.accepted else go_on (next_ids ids r.evse_ids),
    )

-- One round of the loop over the validation results.
unfoldable pub attempt :
    Feed → List ℕ → ProvidedIdToken → ValidationResult → AuthHandler → AuthHandler × Attempt
attempt feed ids token r h =
    if is_empty ids
    then (h, done TokenHandlingResult.rejected)
    else if not (is_accepted r.authorization_status)
    then (h, go_on ids)
    else (let (h', selected) = select_connector feed ids h in
        elim selected [
          | none ↦ (h', done TokenHandlingResult.timeout)
          | some id ↦ attempt_at ids id token r h'
        ])

unfoldable pub authorize_loop :
    Feed
    → List ℕ
    → ProvidedIdToken
    → List ValidationResult
    → AuthHandler
    → AuthHandler × TokenHandlingResult
authorize_loop feed ids token [] h = (h, TokenHandlingResult.rejected)
authorize_loop feed ids token (r ∷ rs) h =
    let (h', next) = attempt feed ids token r h in
    elim next [ done result ↦ (h', result) | go_on ids' ↦ authorize_loop feed ids' token rs h' ]

-- `handle_token` after the check for an own transaction.
unfoldable pub authorize_token :
    Feed
    → (ProvidedIdToken → List ValidationResult)
    → List ℕ
    → ProvidedIdToken
    → AuthHandler
    → AuthHandler × TokenHandlingResult
authorize_token feed validate ids token h =
    let results = validation_results validate token in
    let attempt =
      not h.prioritize_authorization_over_stopping_transaction
      || not (any_connector_available ids h) in
    elim (if attempt then stop_by_parent ids token results h else none) [
      | some stopped ↦ stopped
      | none ↦
          if not (any_connector_available ids h)
          then (h, TokenHandlingResult.no_connector_available)
          else authorize_loop feed ids token results h
    ]

unfoldable pub handle_token :
    Feed
    → (ProvidedIdToken → List ValidationResult)
    → ProvidedIdToken
    → AuthHandler
    → AuthHandler × TokenHandlingResult
handle_token feed validate token h =
    let ids = get_referenced_connectors token h in
    elim (if is_rfid token.token_type then used_for_transaction ids token.id_token h else none) [
      | some id ↦ (stop_at id token.id_token h, TokenHandlingResult.used_to_stop_transaction)
      | none ↦ authorize_token feed validate ids token h
    ]

-- The set of tokens in process.
unfoldable pub add_text : String → List String → List String
add_text s ts = if contains_text s ts then ts else s ∷ ts

unfoldable pub remove_text : String → List String → List String
remove_text s [] = []
remove_text s (t ∷ ts) = if str_eq t s then remove_text s ts else t ∷ remove_text s ts

abbrev pub is_already : TokenHandlingResult → Bool
is_already TokenHandlingResult.already_in_process = true
is_already _ = false

-- The token leaves the set, but not if the result is `ALREADY_IN_PROCESS`.
unfoldable pub finish :
    String → AuthHandler × TokenHandlingResult → AuthHandler × TokenHandlingResult
finish token (h, result) = (
  if is_already result
      then h
      else record h { tokens_in_process = remove_text token h.tokens_in_process },
  result,
)

unfoldable pub on_token :
    Feed
    → (ProvidedIdToken → List ValidationResult)
    → ProvidedIdToken
    → AuthHandler
    → AuthHandler × TokenHandlingResult
on_token feed validate token h =
    let ids = get_referenced_connectors token h in
    if is_token_already_in_process token.id_token ids h
    then (h, TokenHandlingResult.already_in_process)
    else let begun = record h { tokens_in_process = add_text token.id_token h.tokens_in_process } in
      let (handled, result) = handle_token feed validate token begun in
      finish token.id_token (unlock_plug_in_mutex ids handled, result)
