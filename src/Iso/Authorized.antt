-- ===== src/Iso/Authorized.antt =====
-- On one connection of the ISO 15118-2 server of modules/EvseV2G that is to end at the first failed
-- response: no state from the charge parameters on without an authorization that was answered.
use everest_core_dev.Common.{
  ℕ, ◌≡◌, refl, ◌∙◌, true, List, [], ◌∷◌, arith, if◌then◌else◌, inl, inr, Bool-cases,
}
use everest_core_dev.Iso.Messages.{V2gEvent}
use everest_core_dev.Iso.Context.{Context, Undefined, Response}
use everest_core_dev.Iso.Requests.{Request, announce, handle, iso_handle_request, is_ignored}
use everest_core_dev.Iso.Connection.{
  Connection, Step, step, run, connect, respond_to, init_charging_state,
}
use everest_core_dev.Iso.Late.{IsEarned}
use everest_core_dev.Iso.Earning.{request-IsEarned, keeps-flag}

module _ (u : Undefined) where
  request-flag :
      (id : ℕ) (req : Request) (c : Context)
      → let a = iso_handle_request u id req c in
        (respond_to a.2 a.1 a.0).ctx.terminate_connection_on_failed_response
        ≡ c.terminate_connection_on_failed_response
  unfolding iso_handle_request
  request-flag id req c =
      let a = handle u req (announce id req c) in
      go a.2 a.1 a.0 ∙ keeps-flag u req (announce id req c)
    where
      go :
          (event : V2gEvent) (res : Response) (c' : Context)
          → (respond_to event res
              (if is_ignored u event then c' else record c' { last_v2g_msg = c'.current_v2g_msg })
                ).ctx.terminate_connection_on_failed_response
            ≡ c'.terminate_connection_on_failed_response
      go V2gEvent.no_event res c' = refl
      go V2gEvent.send_recv_exi_msg res c' = refl
      go V2gEvent.send_and_terminate res c' = refl
      go V2gEvent.terminate_connection res c' = refl
      go V2gEvent.ignore_msg res c' = refl

  abbrev IsSound : Connection → Type 0
  IsSound k =
      (k.ctx.terminate_connection_on_failed_response ≡ true) × (k.is_open ≡ true → IsEarned k.ctx)

  step-IsSound : (s : Step) (k : Connection) → IsSound k → IsSound (step u s k)
  unfolding step
  step-IsSound (Step.request id req) k (t, earned) = elim (Bool-cases k.is_open) [
    | inl o ↦
        rw (o, step) (request-flag id req k.ctx ∙ t, request-IsEarned u id req k.ctx t (earned o))
    | inr o ↦ rw (o, step) (t, λ f. cc)
  ]
  step-IsSound (Step.change evse) k (t, earned) = (t, earned)
  step-IsSound (Step.set_mode is_dc debug) k (t, earned) = (t, earned)
  step-IsSound Step.lose k (t, earned) = (t, λ f. cc)

  run-IsSound : (steps : List Step) (k : Connection) → IsSound k → IsSound (run u steps k)
  unfolding run
  run-IsSound [] k h = h
  run-IsSound (s ∷ more) k h = run-IsSound more (step u s k) (step-IsSound s k h)

-- On a connection that is to end at the first failed response: after every sequence of requests and
-- of changes by the rest of the program, if the connection is open and its state is
-- WAIT_FOR_CHARGEPARAMETERDISCOVERY or a later one, an AuthorizationReq of this connection was
-- answered without a failure and with the authorization finished.
pub after-IsEarned :
    (u : Undefined) (c : Context) (ends : c.terminate_connection_on_failed_response ≡ true)
    (steps : List Step) (is_still_open : (connect u c steps).is_open ≡ true)
    → IsEarned (connect u c steps).ctx
unfolding connect init_charging_state
after-IsEarned u c ends steps is_still_open =
    (run-IsSound u steps
        (record { is_open = true; ctx = init_charging_state (record c { out = [] }) })
        (ends, λ o six. absurd (omega arith))).1
      is_still_open
