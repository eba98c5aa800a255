-- ===== src/Auth/Denials.antt =====
-- Tokens of modules/Auth/lib/AuthHandler.cpp that no validator accepts.
use everest_core_dev.Common.{
  ℕ, ◌≡◌, refl, ◌∙◌, ap, Bool, false, ◌||◌, String, Option, none, some, List, [], ◌∷◌,
  if◌then◌else◌, arith, Bool-cases, inl, inr, Option-cases,
}
use everest_core_dev.Common.Maps.{lookup, lookup-adjust}
use everest_core_dev.Auth.ConnectorMachine.{Feed}
use everest_core_dev.Auth.Data.{
  ConnectorContext, AuthHandler, ProvidedIdToken, ValidationResult, Identifier, TokenHandlingResult,
  stray_unlock, emit, change_at, at,
}
use everest_core_dev.Auth.Selection.{
  get_referenced_connectors, is_locked, unlock_plug_in_mutex, is_token_already_in_process,
}
use everest_core_dev.Auth.Tokens.{
  is_accepted, attempt, authorize_loop, authorize_token, handle_token, finish, on_token,
  stop_by_parent, stop_at, validation_results, add_text,
}
use everest_core_dev.Auth.Grants.{granted, weight, on_token-grants_once}

abbrev pub any_accepts : List ValidationResult → Bool
any_accepts [] = false
any_accepts (r ∷ rs) = is_accepted r.authorization_status || any_accepts rs

abbrev identifier_of : Option ConnectorContext → Option Identifier
identifier_of none = none
identifier_of (some c) = c.identifier

-- The identifier of a connector.
abbrev pub identifier_at : ℕ → AuthHandler → Option Identifier
identifier_at j h = identifier_of (at j h)

authorize_loop_denied :
    (feed : Feed) (ids : List ℕ) (token : ProvidedIdToken) (rs : List ValidationResult)
    (h : AuthHandler)
    → any_accepts rs ≡ false
    → authorize_loop feed ids token rs h ≡ (h, TokenHandlingResult.rejected)
unfolding authorize_loop attempt
authorize_loop_denied feed ids token [] h e = refl
authorize_loop_denied feed ids token (r ∷ rs) h e =
    ground (arith, authorize_loop_denied feed ids token rs h)

-- A call that gives nothing to a connector.
abbrev GivesNothing : AuthHandler → AuthHandler × TokenHandlingResult → Type 0
GivesNothing h (g, result) = (g.connectors ≡ h.connectors) × (weight result ≡ 0)

stop_by_parent_gives_nothing :
    (ids : List ℕ) (token : ProvidedIdToken) (rs : List ValidationResult) (h g : AuthHandler)
    (result : TokenHandlingResult)
    → stop_by_parent ids token rs h ≡ some (g, result)
    → (g.connectors ≡ h.connectors) × (weight result ≡ 0)
unfolding stop_by_parent stop_at
stop_by_parent_gives_nothing ids token [] h g result e = cc
stop_by_parent_gives_nothing ids token (r ∷ rs) h g result e =
    ground (arith, stop_by_parent_gives_nothing ids token rs h g result)

module _ (feed : Feed) (validate : ProvidedIdToken → List ValidationResult)
    (token : ProvidedIdToken) (h : AuthHandler)
    (denied : any_accepts (validation_results validate token) ≡ false) where
  authorize_token_denied :
      (ids : List ℕ) → GivesNothing h (authorize_token feed validate ids token h)
  unfolding authorize_token
  authorize_token_denied ids =
      let rs = validation_results validate token in
      elim (Option-cases (stop_by_parent ids token rs h)) [
        | inl e ↦ ground (arith, authorize_loop_denied feed ids token rs h denied)
        | inr (s, e) ↦ ground (
          arith,
          authorize_loop_denied feed ids token rs h denied,
          stop_by_parent_gives_nothing ids token rs h s.0 s.1 e,
        )
      ]

  handle_token_denied : GivesNothing h (handle_token feed validate token h)
  unfolding handle_token stop_at
  handle_token_denied = ground (arith, authorize_token_denied (get_referenced_connectors token h))

identifier-unlock :
    (ids : List ℕ) (h : AuthHandler) (j : ℕ)
    → identifier_at j (unlock_plug_in_mutex ids h) ≡ identifier_at j h
unfolding unlock_plug_in_mutex
identifier-unlock [] h j = refl
identifier-unlock (id ∷ ids) h j =
    let f : ConnectorContext → ConnectorContext = λ c. record c { plug_in_locked = false } in
    ground (
      arith,
      identifier-unlock ids
          (change_at id f (if is_locked (at id h) then h else emit (stray_unlock id) h)) j,
      lookup-adjust id j f h.connectors,
    )

identifier-finish :
    (s : String) (h : AuthHandler) (result : TokenHandlingResult) (j : ℕ)
    → identifier_at j (finish s (h, result)).0 ≡ identifier_at j h
unfolding finish
identifier-finish s h result j = ground arith

weight-finish :
    (s : String) (h : AuthHandler) (result : TokenHandlingResult)
    → weight (finish s (h, result)).1 ≡ weight result
unfolding finish
weight-finish s h result = refl

on_token_denied :
    (feed : Feed) (validate : ProvidedIdToken → List ValidationResult) (token : ProvidedIdToken)
    (h : AuthHandler)
    → any_accepts (validation_results validate token) ≡ false
    → let r = on_token feed validate token h in
      (weight r.1 ≡ 0) × ((j : ℕ) → identifier_at j r.0 ≡ identifier_at j h)
unfolding on_token
on_token_denied feed validate token h denied =
    let ids = get_referenced_connectors token h in
    let begun = record h { tokens_in_process = add_text token.id_token h.tokens_in_process } in
    let handled = handle_token feed validate token begun in
    let unlocked = unlock_plug_in_mutex ids handled.0 in
    let nothing = handle_token_denied feed validate token begun denied in
    elim (Bool-cases (is_token_already_in_process token.id_token ids h)) [
      | inl known ↦ rw known (refl, λ j. refl)
      | inr fresh ↦ rw fresh (
        weight-finish token.id_token unlocked handled.1 ∙ nothing.1,
        λ j.
            identifier-finish token.id_token unlocked handled.1 j
            ∙ identifier-unlock ids handled.0 j
            ∙ ap (λ m. identifier_of (lookup j m)) nothing.0,
      )
    ]

-- A call of `on_token` for a token with no accepted validation result, where a prevalidated token
-- counts as one accepted result, tells no EVSE that the token is accepted and changes no
-- connector's identifier.
pub denied-gets_nothing :
    (feed : Feed) (validate : ProvidedIdToken → List ValidationResult) (token : ProvidedIdToken)
    (h : AuthHandler)
    → any_accepts (validation_results validate token) ≡ false
    → let r = on_token feed validate token h in
      (granted r.0 ≡ granted h) × ((j : ℕ) → identifier_at j r.0 ≡ identifier_at j h)
denied-gets_nothing feed validate token h denied =
    let (weightless, same) = on_token_denied feed validate token h denied in
    ((let once = on_token-grants_once feed validate token h in omega arith), same)
