-- ===== src/Handshake/Loop.antt =====
-- The loop over the offers in modules/EvseV2G/v2g_server.cpp.
use everest_core_dev.Common.{
  ap, ℕ, ◌≤◌, ◌<◌, ◌≡◌, refl, true, false, Option, some, List, [], ◌∷◌, ◌⊎◌, inl, inr, arith, leb,
  Option-cases,
}
use everest_core_dev.Handshake.{
  Text, c_string, AppProtocol, Settings, Handshake, Round, take_offer, note_offer, compare_offers,
}
use everest_core_dev.Handshake.Offers.{
  protocol_of, Outcome, choose, compare_offer-choose, note-hs, skip-Outcome, take-Outcome,
}

leb-cases : (a b : ℕ) → ((leb a b ≡ true) × (a ≤ b)) ⊎ ((leb a b ≡ false) × (b < a))
leb-cases a b = ground arith

module _ (duplicate : Text → Option Text)
    (copies : (s : Text) → duplicate s ≡ some (c_string s)) where
  -- Where the loop goes on after an offer.
  loop-step :
      (ctx : Settings) (o : AppProtocol) (offers : List AppProtocol) (r : Round)
      → compare_offers duplicate ctx (o ∷ offers) r
        ≡ compare_offers duplicate ctx offers (
            note_offer ctx
              (c_string o.protocol_namespace)
              o
              (choose (protocol_of ctx.supported_protocols o) o r))
  unfolding compare_offers
  loop-step ctx o offers r =
      rw (copies o.protocol_namespace, compare_offers)
        (ap (λ r1. compare_offers duplicate ctx offers r1) (compare_offer-choose ctx o r))

  abbrev pub AfterLoop : Settings → List AppProtocol → Round → ℕ → Handshake → Type 0
  AfterLoop ctx offers r limit hs =
      let (r', all) = compare_offers duplicate ctx offers r in
      (all ≡ true) × Outcome ctx.supported_protocols offers limit hs r'.hs

  note-AfterLoop :
      (ctx : Settings) (ns : Text) (o : AppProtocol) (offers : List AppProtocol) (r : Round)
      → (let r1 = note_offer ctx ns o r in AfterLoop ctx offers r1 r1.ev_app_priority r1.hs)
      → AfterLoop ctx offers (note_offer ctx ns o r) r.ev_app_priority r.hs
  note-AfterLoop ctx ns o offers r h = let e = note-hs ctx ns o r in (h.0, rw (e.0, e.1) at h.1)

  pub loop-Outcome :
      (ctx : Settings) (offers : List AppProtocol) (r : Round)
      → AfterLoop ctx offers r r.ev_app_priority r.hs
  unfolding compare_offers
  loop-Outcome ctx [] r = (refl, inl ((λ i o p g k. cc), refl))
  loop-Outcome ctx (o ∷ offers) r =
      let ns = c_string o.protocol_namespace in
      let m = ctx.supported_protocols in
      let limit = r.ev_app_priority in
      rw (loop-step ctx o offers r) (elim (Option-cases (protocol_of m o)) [
        | inl k ↦
            (let h =
                note-AfterLoop ctx ns o offers r
                  (loop-Outcome ctx offers (note_offer ctx ns o r)) in
              rw k (h.0, skip-Outcome m o offers limit r.hs _ (λ p k'. cc) h.1))
        | inr (p, k) ↦ elim (leb-cases o.priority limit) [
          | inl (e, l) ↦
              (let t = take_offer o p r in
                let h =
                  note-AfterLoop ctx ns o offers t
                    (loop-Outcome ctx offers (note_offer ctx ns o t)) in
                rw (k, e) (h.0, take-Outcome m o offers limit p r.hs _ k l h.1))
          | inr (e, l) ↦
              (let h =
                  note-AfterLoop ctx ns o offers r
                    (loop-Outcome ctx offers (note_offer ctx ns o r)) in
                rw (k, e) (h.0, skip-Outcome m o offers limit r.hs _ (λ _ _. l) h.1))
        ]
      ])
