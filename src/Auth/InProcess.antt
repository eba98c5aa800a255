-- ===== src/Auth/InProcess.antt =====
-- The tokens in process of modules/Auth/lib/AuthHandler.cpp.
use text.Mathlib.TextPositions.{eq_refl}
use everest_core_dev.Common.{
  ℕ, ◌≡◌, refl, Bool, true, false, not, ◌||◌, String, Option, none, some, List, [], ◌∷◌,
  if◌then◌else◌, arith, Bool-cases, inl, inr, Option-cases,
}
use everest_core_dev.Auth.ConnectorMachine.{Feed}
use everest_core_dev.Auth.Data.{
  stray_unlock, emit, change_at, AuthHandler, ProvidedIdToken, ValidationResult,
  TokenHandlingResult, at,
}
use everest_core_dev.Auth.Selection.{
  is_locked, any_connector_available, get_referenced_connectors, contains_text,
  is_token_already_in_process, unlock_plug_in_mutex,
}
use everest_core_dev.Auth.Tokens.{
  validation_results, Attempt, done, go_on, attempt, attempt_at, on_token, handle_token,
  authorize_token, authorize_loop, stop_by_parent, finish, remove_text, add_text, is_already,
}

contains_text-remove_text :
    (s : String) (ts : List String) → contains_text s (remove_text s ts) ≡ false
unfolding contains_text remove_text
contains_text-remove_text s [] = refl
contains_text-remove_text s (t ∷ ts) = ground (arith, contains_text-remove_text s ts)

contains_text-add_text : (s : String) (ts : List String) → contains_text s (add_text s ts) ≡ true
unfolding contains_text add_text
contains_text-add_text s ts = ground (arith, eq_refl s)

finish_releases :
    (token : String) (h : AuthHandler) (result : TokenHandlingResult)
    → is_already (finish token (h, result)).1 ≡ false
    → contains_text token (finish token (h, result)).0.tokens_in_process ≡ false
unfolding finish
finish_releases token h result e =
    ground (arith, contains_text-remove_text token h.tokens_in_process)

-- After a call of `on_token` with any result but `ALREADY_IN_PROCESS`, the token is not in process.
on_token-releases :
    (feed : Feed) (validate : ProvidedIdToken → List ValidationResult) (token : ProvidedIdToken)
    (h : AuthHandler)
    → let r = on_token feed validate token h in
      is_already r.1 ≡ false → contains_text token.id_token r.0.tokens_in_process ≡ false
unfolding on_token
on_token-releases feed validate token h released =
    let ids = get_referenced_connectors token h in
    elim (Bool-cases (is_token_already_in_process token.id_token ids h)) [
      | inl known ↦ cc (rw (known, on_token) at released)
      | inr fresh ↦ rw fresh (finish_releases _ _ _ (rw (fresh, on_token) at released))
    ]

-- A parent whose transaction has not started ends the loop, and the handler is as before.
stop_by_parent_already :
    (ids : List ℕ) (token : ProvidedIdToken) (rs : List ValidationResult) (h : AuthHandler)
    {h' : AuthHandler}
    → stop_by_parent ids token rs h ≡ some (h', TokenHandlingResult.already_in_process)
    → h' ≡ h
unfolding stop_by_parent
stop_by_parent_already ids token [] h e = cc
stop_by_parent_already ids token (r ∷ rs) h {h' = g} e =
    ground (arith, stop_by_parent_already ids token rs h {h' = g})

abbrev goes_or_ends : Attempt → Bool
goes_or_ends (done result) = not (is_already result)
goes_or_ends (go_on ids) = true

attempt-goes_or_ends :
    (feed : Feed) (ids : List ℕ) (token : ProvidedIdToken) (r : ValidationResult) (h : AuthHandler)
    → goes_or_ends (attempt feed ids token r h).1 ≡ true
unfolding attempt attempt_at
attempt-goes_or_ends feed ids token r h = ground arith

-- The loop over the results never says `ALREADY_IN_PROCESS`.
authorize_loop-ne-already :
    (feed : Feed) (ids : List ℕ) (token : ProvidedIdToken) (rs : List ValidationResult)
    (h : AuthHandler)
    → is_already (authorize_loop feed ids token rs h).1 ≡ false
unfolding authorize_loop
authorize_loop-ne-already feed ids token [] h = refl
authorize_loop-ne-already feed ids token (r ∷ rs) h =
    split (attempt feed ids token r h).1 (attempt-goes_or_ends feed ids token r h)
      λ ids'. authorize_loop-ne-already feed ids' token rs (attempt feed ids token r h).0
  where
    split :
        (a : Attempt)
        → goes_or_ends a ≡ true
        → ((ids' : List ℕ)
            → is_already (authorize_loop feed ids' token rs (attempt feed ids token r h).0).1
              ≡ false)
        → is_already
            (elim a as (λ b. AuthHandler × TokenHandlingResult) [
              | done result ↦ ((attempt feed ids token r h).0, result)
              | go_on ids' ↦ authorize_loop feed ids' token rs (attempt feed ids token r h).0
            ]).1
          ≡ false
    split (done result) g ih = ground arith
    split (go_on ids') g ih = ih ids'

already_eq :
    (result : TokenHandlingResult)
    → is_already result ≡ true
    → result ≡ TokenHandlingResult.already_in_process
already_eq result e = ground arith

abbrev stopped :
    (ProvidedIdToken → List ValidationResult)
    → List ℕ
    → ProvidedIdToken
    → AuthHandler
    → Option (AuthHandler × TokenHandlingResult)
stopped validate ids token h =
    if not h.prioritize_authorization_over_stopping_transaction
      || not (any_connector_available ids h)
    then stop_by_parent ids token (validation_results validate token) h
    else none

stopped_already :
    (validate : ProvidedIdToken → List ValidationResult) (ids : List ℕ) (token : ProvidedIdToken)
    (h h' : AuthHandler) (result : TokenHandlingResult)
    → stopped validate ids token h ≡ some (h', result)
    → is_already result ≡ true
    → h' ≡ h
stopped_already validate ids token h h' result e a =
    let known = already_eq result a in
    ground (arith, stop_by_parent_already ids token (validation_results validate token) h {h' = h'})

module _ (feed : Feed) (validate : ProvidedIdToken → List ValidationResult)
    (token : ProvidedIdToken) where
  authorize_token_already :
      (ids : List ℕ) (h : AuthHandler)
      → is_already (authorize_token feed validate ids token h).1 ≡ true
      → (authorize_token feed validate ids token h).0 ≡ h
  unfolding authorize_token
  authorize_token_already ids h a = elim (Option-cases (stopped validate ids token h)) [
    | inr (pair, e) ↦
        rw (e, authorize_token)
          (stopped_already validate ids token h pair.0 pair.1 e (rw (e, authorize_token) at a))
    | inl e ↦
        ground
          (arith, authorize_loop-ne-already feed ids token (validation_results validate token) h)
  ]

  -- A token that is refused as already in process leaves the handler as it was.
  handle_token_already :
      (h : AuthHandler)
      → is_already (handle_token feed validate token h).1 ≡ true
      → (handle_token feed validate token h).0 ≡ h
  unfolding handle_token
  handle_token_already h a =
      let ids = get_referenced_connectors token h in ground (arith, authorize_token_already ids h)

tokens-unlock :
    (ids : List ℕ) (h : AuthHandler)
    → (unlock_plug_in_mutex ids h).tokens_in_process ≡ h.tokens_in_process
unfolding unlock_plug_in_mutex
tokens-unlock [] h = refl
tokens-unlock (id ∷ ids) h = ground (
  arith,
  tokens-unlock ids (
      change_at id (λ c. record c { plug_in_locked = false })
        (if is_locked (at id h) then h else emit (stray_unlock id) h)),
)

finish_keeps :
    (token : String) (h : AuthHandler) (result : TokenHandlingResult)
    → is_already result ≡ true
    → finish token (h, result) ≡ (h, result)
unfolding finish
finish_keeps token h result e = rw e

in_process_again :
    (feed : Feed) (validate : ProvidedIdToken → List ValidationResult) (token : ProvidedIdToken)
    (h : AuthHandler)
    → contains_text token.id_token h.tokens_in_process ≡ true
    → on_token feed validate token h ≡ (h, TokenHandlingResult.already_in_process)
unfolding on_token is_token_already_in_process
in_process_again feed validate token h e = rw e

kept :
    (feed : Feed) (validate : ProvidedIdToken → List ValidationResult) (token : ProvidedIdToken)
    (h : AuthHandler)
    → is_token_already_in_process token.id_token (get_referenced_connectors token h) h ≡ false
    → is_already (on_token feed validate token h).1 ≡ true
    → contains_text token.id_token (on_token feed validate token h).0.tokens_in_process ≡ true
unfolding on_token
kept feed validate token h fresh a =
    let ids = get_referenced_connectors token h in
    let begun = record h { tokens_in_process = add_text token.id_token h.tokens_in_process } in
    let handled = handle_token feed validate token begun in
    let now = rw (fresh, on_token) at a in
    let already : is_already handled.1 ≡ true = unfold finish in now in
    rw
      (
        fresh,
        finish_keeps token.id_token (unlock_plug_in_mutex ids handled.0) handled.1 already,
        tokens-unlock ids handled.0,
        handle_token_already feed validate token begun already,
      )
      (contains_text-add_text token.id_token h.tokens_in_process)

-- A token that is not in process when it comes, and that `handle_token` refuses because its
-- parent's transaction has not started, is never let go: `on_token` answers `ALREADY_IN_PROCESS`
-- and leaves the token in process, so that the next call with this token, from whichever
-- validators, changes nothing and answers the same.
pub token_locked_out :
    (feed : Feed) (validate again : ProvidedIdToken → List ValidationResult)
    (token : ProvidedIdToken) (h : AuthHandler)
    → is_token_already_in_process token.id_token (get_referenced_connectors token h) h ≡ false
    → let r = on_token feed validate token h in
      is_already r.1 ≡ true
      → on_token feed again token r.0 ≡ (r.0, TokenHandlingResult.already_in_process)
token_locked_out feed validate again token h fresh a =
    in_process_again feed again token _ (kept feed validate token h fresh a)
