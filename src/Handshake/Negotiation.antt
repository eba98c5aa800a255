-- ===== src/Handshake/Negotiation.antt =====
-- What modules/EvseV2G/v2g_server.cpp negotiates of the protocols that an EV offers.
use everest_core_dev.Common.{
  ap, ℕ, ◌≡◌, refl, sym, ◌∙◌, true, false, Option, none, some, List, [], ◌∷◌, ◌⊎◌, inl, inr, arith,
  if◌then◌else◌, Bool-cases, Option-cases,
}
use everest_core_dev.Iso.Messages.{
  V2gEvent, no_event, terminate_connection, send_and_terminate, supported_app_protocol_msg,
}
use everest_core_dev.Handshake.{
  terminate_connection, Protocol, Text, c_string, AppProtocol, AppResponseCode,
  SupportedAppProtocolRes, Settings, Handshake, Round, compare_offers, finish_handshake,
  lowest_priority, v2g_handle_apphandshake,
}
use everest_core_dev.Handshake.Offers.{NoneWithin, IsBest, Outcome}
use everest_core_dev.Handshake.Loop.{AfterLoop, loop-Outcome}
use mathlib.Core.Path.{subst}

-- The event of a response, by whether it can be encoded.
abbrev encoded_event :
    (SupportedAppProtocolRes → Option (List ℕ)) → SupportedAppProtocolRes → V2gEvent → V2gEvent
encoded_event encode res event = elim (encode res) [ none ↦ send_and_terminate | some _ ↦ event ]

-- The answer to the offers: a failure when none of them will do, and the best of them otherwise.
abbrev pub IsNegotiated :
    (SupportedAppProtocolRes → Option (List ℕ))
    → ℕ
    → List AppProtocol
    → Handshake × V2gEvent
    → Type 0
IsNegotiated encode supported offers (hs, event) =
    let res = hs.handshake_resp in
    (NoneWithin supported offers lowest_priority
      × (res.response_code ≡ AppResponseCode.failed_no_negotiation)
      × (event ≡ send_and_terminate))
    ⊎ ((o : AppProtocol) × (p : Protocol) × IsBest supported offers lowest_priority o p
        × (hs.selected_protocol ≡ p)
        × (res.response_code ≡ AppResponseCode.ok_successful_negotiation)
        × (res.schema_id ≡ o.schema_id)
        × (res.schema_id_is_used ≡ true)
        × (event ≡ encoded_event encode res no_event))

abbrev published_offers : Settings → Round → Handshake
published_offers ctx r =
    if ctx.debug_mode
    then record r.hs { published = r.app_protocol_array ∷ r.hs.published }
    else r.hs

published-response :
    (ctx : Settings) (r : Round)
    → ((published_offers ctx r).handshake_resp ≡ r.hs.handshake_resp)
      × ((published_offers ctx r).selected_protocol ≡ r.hs.selected_protocol)
published-response ctx r = elim (Bool-cases ctx.debug_mode) [
  | inl e ↦ (rw e refl, rw e refl)
  | inr e ↦ (rw e refl, rw e refl)
]

module _ (encode : SupportedAppProtocolRes → Option (List ℕ)) where
  -- The checks after the loop when nothing stops the session.
  finish-failed :
      (ctx : Settings) (hs : Handshake)
      → ctx.is_connection_terminated ≡ false
      → hs.handshake_resp.response_code ≡ AppResponseCode.failed_no_negotiation
      → let a = finish_handshake encode ctx hs in
        (a.0.handshake_resp.response_code ≡ AppResponseCode.failed_no_negotiation)
        × (a.1 ≡ send_and_terminate)
  unfolding finish_handshake
  finish-failed ctx hs alive e = ground arith

  finish-ok :
      (ctx : Settings) (hs : Handshake)
      → ctx.is_connection_terminated ≡ false
      → ctx.intl_emergency_shutdown ≡ false
      → ctx.stop_hlc ≡ false
      → hs.handshake_resp.response_code ≡ AppResponseCode.ok_successful_negotiation
      → let (after, event) = finish_handshake encode ctx hs in
        (after.selected_protocol ≡ hs.selected_protocol)
        × (after.handshake_resp.response_code ≡ AppResponseCode.ok_successful_negotiation)
        × (after.handshake_resp.schema_id ≡ hs.handshake_resp.schema_id)
        × (after.handshake_resp.schema_id_is_used ≡ true)
        × (event ≡ encoded_event encode after.handshake_resp no_event)
  unfolding finish_handshake
  finish-ok ctx hs alive calm going e = ground arith

  Outcome-IsNegotiated :
      (ctx : Settings) (offers : List AppProtocol) (before : Handshake) (r : Round)
      → ctx.is_connection_terminated ≡ false
      → ctx.intl_emergency_shutdown ≡ false
      → ctx.stop_hlc ≡ false
      → before.handshake_resp.response_code ≡ AppResponseCode.failed_no_negotiation
      → Outcome ctx.supported_protocols offers lowest_priority before r.hs
      → IsNegotiated encode ctx.supported_protocols offers
          (finish_handshake encode ctx (published_offers ctx r))
  Outcome-IsNegotiated ctx offers before r alive calm going f (inl (n, e)) =
      let hs = published_offers ctx r in
      let kept = published-response ctx r in
      let code = ap (λ res. res.response_code) (kept.0 ∙ ap (λ h. h.handshake_resp) e) ∙ f in
      let (failed, event) = finish-failed ctx hs alive code in inl (n, failed, event)
  Outcome-IsNegotiated ctx offers before r alive calm going f (inr (o, p, best, e)) =
      let hs = published_offers ctx r in
      let kept = published-response ctx r in
      let res = kept.0 ∙ ap (λ h. h.handshake_resp) e in
      let done = finish-ok ctx hs alive calm going (ap (λ res. res.response_code) res) in
      inr (
        o,
        p,
        best,
        done.0 ∙ kept.1 ∙ ap (λ h. h.selected_protocol) e,
        done.1,
        done.2 ∙ ap (λ res. res.schema_id) res,
        done.3,
        done.4,
      )

  -- A session that goes on was stopped by nothing, when a failure is to end it.
  finish-goes_on :
      (ctx : Settings) (hs : Handshake)
      → ctx.terminate_connection_on_failed_response ≡ true
      → (finish_handshake encode ctx hs).1 ≡ no_event
      → (ctx.is_connection_terminated ≡ false)
        × (ctx.intl_emergency_shutdown ≡ false)
        × (ctx.stop_hlc ≡ false)
  unfolding finish_handshake
  finish-goes_on ctx hs strict e = ground arith

module _ (init_document : SupportedAppProtocolRes → SupportedAppProtocolRes)
    (duplicate : Text → Option Text) (decode : List ℕ → Option (List AppProtocol))
    (encode : SupportedAppProtocolRes → Option (List ℕ))
    (copies : (s : Text) → duplicate s ≡ some (c_string s)) (ctx : Settings) (bytes : List ℕ)
    (hs : Handshake) where
  abbrev after_init : Handshake
  after_init = record hs {
    handshake_resp = record (init_document hs.handshake_resp) {
      response_code = AppResponseCode.failed_no_negotiation;
    };
    current_v2g_msg = supported_app_protocol_msg;
  }

  abbrev after_loop : List AppProtocol → Round
  after_loop offers =
      (compare_offers duplicate ctx offers
        (record { ev_app_priority = lowest_priority; app_protocol_array = []; hs = after_init })).0

  abbrev loop_outcome :
      (offers : List AppProtocol)
      → AfterLoop duplicate copies ctx offers
          (record { ev_app_priority = lowest_priority; app_protocol_array = []; hs = after_init })
          lowest_priority
          after_init
  loop_outcome offers =
      loop-Outcome duplicate copies ctx offers
        (record { ev_app_priority = lowest_priority; app_protocol_array = []; hs = after_init })

  handshake-finish :
      (offers : List AppProtocol)
      → decode bytes ≡ some offers
      → v2g_handle_apphandshake init_document duplicate decode encode ctx bytes hs
        ≡ finish_handshake encode ctx (published_offers ctx (after_loop offers))
  unfolding v2g_handle_apphandshake
  handshake-finish offers decoded =
      rw (decoded, v2g_handle_apphandshake) (rw ((loop_outcome offers).0) refl)

  -- For offers that can be decoded, on a connection that nothing stops, with memory enough: when no
  -- offer of a supported protocol has a priority of at most 20, the response is a failure and the
  -- connection ends after it; otherwise the response is a success, its schema id and the protocol of
  -- the session are those of the last of the offers with the least priority, and the connection goes
  -- on when the response can be encoded.
  pub handshake-IsNegotiated :
      (offers : List AppProtocol) (decoded : decode bytes ≡ some offers)
      (alive : ctx.is_connection_terminated ≡ false) (calm : ctx.intl_emergency_shutdown ≡ false)
      (going : ctx.stop_hlc ≡ false)
      → IsNegotiated encode ctx.supported_protocols offers
          (v2g_handle_apphandshake init_document duplicate decode encode ctx bytes hs)
  handshake-IsNegotiated offers decoded alive calm going = rw (handshake-finish offers decoded) (
      Outcome-IsNegotiated encode ctx offers after_init (after_loop offers) alive calm going refl
        (loop_outcome offers).1)

  undecoded :
      decode bytes ≡ none
      → (v2g_handle_apphandshake init_document duplicate decode encode ctx bytes hs).1
        ≡ terminate_connection
  unfolding v2g_handle_apphandshake
  undecoded e = rw (e, v2g_handle_apphandshake) refl

  -- With memory enough, on a connection that is to end at a failed response: when the connection goes
  -- on after the handshake, nothing has stopped it, the request could be decoded, the response is a
  -- success, and the protocol of the session is that of the last of the offers with the least
  -- priority.
  pub handshake-goes_on :
      (strict : ctx.terminate_connection_on_failed_response ≡ true)
      (goes_on : (v2g_handle_apphandshake init_document duplicate decode encode ctx bytes hs).1
        ≡ no_event)
      → let after =
          (v2g_handle_apphandshake init_document duplicate decode encode ctx bytes hs).0 in
        (ctx.is_connection_terminated ≡ false)
        × (ctx.intl_emergency_shutdown ≡ false)
        × (ctx.stop_hlc ≡ false)
        × (after.handshake_resp.response_code ≡ AppResponseCode.ok_successful_negotiation)
        × ((offers : List AppProtocol) × (decode bytes ≡ some offers)
            × ((o : AppProtocol) × IsBest ctx.supported_protocols offers lowest_priority o
                  after.selected_protocol))
  handshake-goes_on strict goes_on = elim (Option-cases (decode bytes)) [
    | inl e ↦ (let u = undecoded e in cc)
    | inr (offers, e) ↦
        (let f = ap (λ a. a.1) (handshake-finish offers e) in
          let (alive, calm, going) =
            finish-goes_on encode ctx (published_offers ctx (after_loop offers)) strict
              (sym f ∙ goes_on) in
          elim (handshake-IsNegotiated offers e alive calm going) [
            | inl (n, c, t) ↦ cc
            | inr (o, p, best, sel, code, id_eq, used, event_eq) ↦ (
              alive,
              calm,
              going,
              code,
              (
                offers,
                e,
                (
                  o,
                  subst (λ q. IsBest ctx.supported_protocols offers lowest_priority o q) (sym sel)
                      best,
                ),
              ),
            )
          ])
  ]
