-- ===== src/Auth/Grants.antt =====
-- The accepted authorizations of modules/Auth/lib/AuthHandler.cpp: how many `on_token` gives out.
use everest_core_dev.Common.{
  ℕ, ◌+◌, ◌≡◌, refl, ◌∙◌, true, false, String, Option, some, List, [], ◌∷◌, if◌then◌else◌, arith,
  Bool-cases, inl, inr, Option-cases,
}
use everest_core_dev.Auth.ConnectorMachine.{Feed}
use everest_core_dev.Auth.Data.{
  AuthHandler, SessionEvent, ProvidedIdToken, ValidationResult, Output, notify_evse,
  TokenHandlingResult, stray_unlock, relock, emit, change_at, at,
}
use everest_core_dev.Auth.Sessions.{handle_session_event, enqueue}
use everest_core_dev.Auth.Reservations.{
  entry, matches_reserved_identifier, on_reservation_used, cancel_reservation,
}
use everest_core_dev.Auth.Selection.{
  get_referenced_connectors, is_locked, lock_plug_in_mutex, unlock_plug_in_mutex, deliver,
  wait_for_plug_in, select_by_plug_in, select_connector, get_latest_plugin,
  is_token_already_in_process,
}
use everest_core_dev.Auth.Tokens.{
  Attempt, done, go_on, is_accepted, notify, decide, check_reservation, attempt, attempt_at,
  sorted_evses, authorize_loop, authorize_token, handle_token, finish, on_token, stop_by_parent,
  stop_at, validation_results, add_text,
}

-- The notifications of an EVSE with the status `Accepted`.
abbrev pub is_grant : Output → ℕ
is_grant (notify_evse evse token result) = if is_accepted result.authorization_status then 1 else 0
is_grant o = 0

abbrev pub grants : List Output → ℕ
grants [] = 0
grants (o ∷ os) = is_grant o + grants os

abbrev pub granted : AuthHandler → ℕ
granted h = grants h.out

abbrev pub weight : TokenHandlingResult → ℕ
weight TokenHandlingResult.accepted = 1
weight _ = 0

granted-lock : (ids : List ℕ) (h : AuthHandler) → granted (lock_plug_in_mutex ids h) ≡ granted h
unfolding lock_plug_in_mutex
granted-lock [] h = refl
granted-lock (id ∷ ids) h = ground (
  arith,
  granted-lock ids (
      change_at id (λ c. record c { plug_in_locked = true })
        (if is_locked (at id h) then emit (relock id) h else h)),
)

granted-unlock : (ids : List ℕ) (h : AuthHandler) → granted (unlock_plug_in_mutex ids h) ≡ granted h
unfolding unlock_plug_in_mutex
granted-unlock [] h = refl
granted-unlock (id ∷ ids) h = ground (
  arith,
  granted-unlock ids (
      change_at id (λ c. record c { plug_in_locked = false })
        (if is_locked (at id h) then h else emit (stray_unlock id) h)),
)

granted-deliver :
    (feed : Feed) (id : ℕ) (e : SessionEvent) (h : AuthHandler)
    → granted (deliver feed id e h) ≡ granted h
unfolding handle_session_event enqueue
granted-deliver feed id e h = ground arith

granted-wait :
    (feed : Feed) (ids : List ℕ) (es : List (ℕ × SessionEvent)) (h : AuthHandler)
    → granted (wait_for_plug_in feed ids es h) ≡ granted h
unfolding wait_for_plug_in
granted-wait feed ids [] h = refl
granted-wait feed ids ((id, e) ∷ es) h = elim (Option-cases (get_latest_plugin ids h)) [
  | inl empty ↦
      rw (empty, wait_for_plug_in)
        (granted-wait feed ids es (deliver feed id e h) ∙ granted-deliver feed id e h)
  | inr (plugged, some_plugged) ↦ rw (some_plugged, wait_for_plug_in) refl
]

granted-select_by_plug_in :
    (feed : Feed) (ids : List ℕ) (h : AuthHandler)
    → granted (select_by_plug_in feed ids h).0 ≡ granted h
unfolding select_by_plug_in
granted-select_by_plug_in feed ids h =
    let locked = lock_plug_in_mutex ids h in
    let open_again = unlock_plug_in_mutex ids locked in
    let waited = wait_for_plug_in feed ids open_again.arrivals open_again in
    ground (
      arith,
      granted-lock ids h,
      granted-unlock ids locked,
      granted-wait feed ids open_again.arrivals open_again,
      granted-lock ids waited,
    )

granted-select_connector :
    (feed : Feed) (ids : List ℕ) (h : AuthHandler)
    → granted (select_connector feed ids h).0 ≡ granted h
unfolding select_connector
granted-select_connector feed [] h = ground (arith, granted-select_by_plug_in feed [] h)
granted-select_connector feed (id ∷ []) h = refl
granted-select_connector feed (id ∷ next ∷ ids) h =
    ground (arith, granted-select_by_plug_in feed (id ∷ next ∷ ids) h)

granted-on_reservation_used :
    (id : ℕ) (h : AuthHandler) → granted (on_reservation_used id h) ≡ granted h
unfolding on_reservation_used entry cancel_reservation
granted-on_reservation_used id h = ground arith

granted-matches :
    (id : ℕ) (s : String) (parent : Option String) (h : AuthHandler)
    → granted (matches_reserved_identifier id s parent h).0 ≡ granted h
unfolding matches_reserved_identifier entry
granted-matches id s parent h = ground arith

module _ (ids : List ℕ) (id : ℕ) (token : ProvidedIdToken) (r : ValidationResult)
    (h : AuthHandler) where
  granted-decide : granted (decide ids id token r h).0 ≡ granted h
  unfolding decide check_reservation
  granted-decide =
      let m = matches_reserved_identifier id token.id_token r.parent_id_token h in
      ground (
        arith,
        granted-matches id token.id_token r.parent_id_token h,
        granted-on_reservation_used id m.0,
      )

  -- Only an authorized connector is told the status of the result.
  decide_status :
      is_accepted r.authorization_status ≡ true
      → is_accepted (decide ids id token r h).2 ≡ (decide ids id token r h).1
  unfolding decide check_reservation
  decide_status accepted = ground arith

granted-notify :
    (id : ℕ) (token : ProvidedIdToken) (r : ValidationResult) (h : AuthHandler)
    → granted (notify id token r h)
      ≡ granted h + (if is_accepted r.authorization_status then 1 else 0)
unfolding notify
granted-notify id token r h = ground arith

abbrev weight_of : Attempt → ℕ
weight_of (done result) = weight result
weight_of (go_on ids) = 0

granted-attempt_at :
    (ids : List ℕ) (id : ℕ) (token : ProvidedIdToken) (r : ValidationResult) (h : AuthHandler)
    → is_accepted r.authorization_status ≡ true
    → let a = attempt_at ids id token r h in granted a.0 ≡ granted h + weight_of a.1
unfolding attempt_at
granted-attempt_at ids id token r h accepted =
    let d = decide ids id token r h in
    ground (
      arith,
      granted-decide ids id token r h,
      decide_status ids id token r h accepted,
      granted-notify id token
          (record r { authorization_status = d.2; evse_ids = sorted_evses r.evse_ids }) d.0,
    )

granted-attempt :
    (feed : Feed) (ids : List ℕ) (token : ProvidedIdToken) (r : ValidationResult) (h : AuthHandler)
    → let a = attempt feed ids token r h in granted a.0 ≡ granted h + weight_of a.1
unfolding attempt
granted-attempt feed ids token r h =
    let selected = select_connector feed ids h in
    elim (Option-cases selected.1) [
      | inl e ↦ ground (arith, granted-select_connector feed ids h)
      | inr (id, e) ↦
          ground (
            arith,
            granted-select_connector feed ids h,
            granted-attempt_at ids id token r selected.0,
          )
    ]

granted-loop :
    (feed : Feed) (ids : List ℕ) (token : ProvidedIdToken) (rs : List ValidationResult)
    (h : AuthHandler)
    → let a = authorize_loop feed ids token rs h in granted a.0 ≡ granted h + weight a.1
unfolding authorize_loop
granted-loop feed ids token [] h = omega arith
granted-loop feed ids token (r ∷ rs) h =
    let a = attempt feed ids token r h in
    split a.0 a.1 (granted-attempt feed ids token r h) λ ids'. granted-loop feed ids' token rs a.0
  where
    split :
        (g : AuthHandler) (a : Attempt)
        → granted g ≡ granted h + weight_of a
        → ((ids' : List ℕ)
            → let b = authorize_loop feed ids' token rs g in granted b.0 ≡ granted g + weight b.1)
        → let b = elim a as (λ b. AuthHandler × TokenHandlingResult) [
          | done result ↦ (g, result)
          | go_on ids' ↦ authorize_loop feed ids' token rs g
        ] in
          granted b.0 ≡ granted h + weight b.1
    split g (done result) e ih = e
    split g (go_on ids') e ih = ground (arith, ih ids')

module _ (ids : List ℕ) (token : ProvidedIdToken) (h g : AuthHandler)
    (result : TokenHandlingResult) where
  granted-stop_by_parent :
      (rs : List ValidationResult)
      → stop_by_parent ids token rs h ≡ some (g, result)
      → granted g ≡ granted h + weight result
  unfolding stop_by_parent stop_at
  granted-stop_by_parent [] e = cc
  granted-stop_by_parent (r ∷ rs) e = ground (arith, granted-stop_by_parent rs)

module _ (feed : Feed) (validate : ProvidedIdToken → List ValidationResult)
    (token : ProvidedIdToken) (h : AuthHandler) where
  granted-authorize_token :
      (ids : List ℕ)
      → let a = authorize_token feed validate ids token h in granted a.0 ≡ granted h + weight a.1
  unfolding authorize_token
  granted-authorize_token ids =
      let rs = validation_results validate token in
      elim (Option-cases (stop_by_parent ids token rs h)) [
        | inl e ↦ ground (arith, granted-loop feed ids token rs h)
        | inr (s, e) ↦ ground (
          arith,
          granted-loop feed ids token rs h,
          granted-stop_by_parent ids token h s.0 s.1 rs e,
        )
      ]

  granted-handle_token :
      let a = handle_token feed validate token h in granted a.0 ≡ granted h + weight a.1
  unfolding handle_token stop_at
  granted-handle_token =
      let ids = get_referenced_connectors token h in ground (arith, granted-authorize_token ids)

granted-finish :
    (s : String) (h : AuthHandler) (result : TokenHandlingResult)
    → granted (finish s (h, result)).0 ≡ granted h
unfolding finish
granted-finish s h result = ground arith

result-finish :
    (s : String) (h : AuthHandler) (result : TokenHandlingResult)
    → (finish s (h, result)).1 ≡ result
unfolding finish
result-finish s h result = refl

-- A call of `on_token` tells one EVSE that the token is accepted if it answers `ACCEPTED`, and none
-- with any other answer, whatever session events come while it waits for a plug-in.
pub on_token-grants_once :
    (feed : Feed) (validate : ProvidedIdToken → List ValidationResult) (token : ProvidedIdToken)
    (h : AuthHandler)
    → let r = on_token feed validate token h in granted r.0 ≡ granted h + weight r.1
unfolding on_token
on_token-grants_once feed validate token h =
    let ids = get_referenced_connectors token h in
    let begun = record h { tokens_in_process = add_text token.id_token h.tokens_in_process } in
    let handled = handle_token feed validate token begun in
    elim (Bool-cases (is_token_already_in_process token.id_token ids h)) [
      | inl known ↦ rw known (omega arith)
      | inr fresh ↦
          rw
            (
              fresh,
              granted-finish token.id_token (unlock_plug_in_mutex ids handled.0) handled.1,
              result-finish token.id_token (unlock_plug_in_mutex ids handled.0) handled.1,
            )
            (granted-unlock ids handled.0 ∙ granted-handle_token feed validate token begun)
    ]
