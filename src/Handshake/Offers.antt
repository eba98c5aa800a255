-- ===== src/Handshake/Offers.antt =====
-- The best of the protocols that an EV offers, and one pass of the loop over them in
-- modules/EvseV2G/v2g_server.cpp.
use everest_core_dev.Common.{
  ap, ℕ, ◌≤◌, ◌<◌, ◌≡◌, refl, Bool, ◌&&◌, true, false, Option, none, some, List, ◌∷◌, ◌⊎◌, inl, inr,
  zero, suc, arith, leb, if◌then◌else◌, get_elem?, Bool-cases,
}
use everest_core_dev.Handshake.{
  Protocol, din70121, iso15118_2013, Text, c_string, AppProtocol, Settings, Handshake, Round,
  is_din, is_iso, select_offer, take_offer, note_offer, compare_offer,
}

-- The protocol of an offer, of those that the station supports.
abbrev pub protocol_of : ℕ → AppProtocol → Option Protocol
protocol_of supported o =
    if is_din supported (c_string o.protocol_namespace) o.version_number_major
    then some din70121
    else if is_iso supported (c_string o.protocol_namespace) o.version_number_major
    then some iso15118_2013
    else none

-- No offer of a supported protocol has a priority within the limit.
abbrev pub NoneWithin : ℕ → List AppProtocol → ℕ → Type 0
NoneWithin supported offers limit =
    (i : ℕ) (o : AppProtocol) (p : Protocol)
    → get_elem? offers i ≡ some o
    → protocol_of supported o ≡ some p
    → limit < o.priority

-- The offer is of a supported protocol, its priority is within the limit and the least of all such
-- offers, and no later one has the same.
pub record IsBest (supported : ℕ) (offers : List AppProtocol) (limit : ℕ) (o : AppProtocol)
    (p : Protocol) : Type 0 where
  place : ℕ
  is_offered : get_elem? offers place ≡ some o
  is_known : protocol_of supported o ≡ some p
  is_within : o.priority ≤ limit
  is_least :
      (i : ℕ) (o' : AppProtocol) (p' : Protocol)
      → get_elem? offers i ≡ some o'
      → protocol_of supported o' ≡ some p'
      → o.priority ≤ o'.priority
  is_last :
      (i : ℕ) (o' : AppProtocol) (p' : Protocol)
      → get_elem? offers i ≡ some o'
      → protocol_of supported o' ≡ some p'
      → place < i
      → o.priority < o'.priority

abbrev pub Outcome : ℕ → List AppProtocol → ℕ → Handshake → Handshake → Type 0
Outcome supported offers limit before after =
    (NoneWithin supported offers limit × (after ≡ before))
    ⊎ ((o : AppProtocol) × (p : Protocol) × IsBest supported offers limit o p
        × (after ≡ select_offer o p before))

-- One pass of the loop, by the protocol of the offer.
abbrev pub choose : Option Protocol → AppProtocol → Round → Round
choose none o r = r
choose (some p) o r = if leb o.priority r.ev_app_priority then take_offer o p r else r

branches-choose :
    (din iso : Bool) (o : AppProtocol) (r : Round)
    → (if din && leb o.priority r.ev_app_priority
        then take_offer o din70121 r
        else if iso && leb o.priority r.ev_app_priority
        then take_offer o iso15118_2013 r
        else r)
      ≡ choose (if din then some din70121 else if iso then some iso15118_2013 else none) o r
branches-choose true true o r = elim (Bool-cases (leb o.priority r.ev_app_priority)) [
  | inl e ↦ rw e refl
  | inr e ↦ rw e refl
]
branches-choose true false o r = refl
branches-choose false iso o r = ground arith

pub compare_offer-choose :
    (ctx : Settings) (o : AppProtocol) (r : Round)
    → compare_offer ctx (c_string o.protocol_namespace) o r
      ≡ note_offer ctx
          (c_string o.protocol_namespace)
          o
          (choose (protocol_of ctx.supported_protocols o) o r)
unfolding compare_offer
compare_offer-choose ctx o r =
    let ns = c_string o.protocol_namespace in
    let major = o.version_number_major in
    ap (note_offer ctx ns o) (
      branches-choose (is_din ctx.supported_protocols ns major)
        (is_iso ctx.supported_protocols ns major) o r)

some-injective : {A : Type 0} (a b : A) → some a ≡ some b → a ≡ b
some-injective a b e = cc

pub note-hs :
    (ctx : Settings) (ns : Text) (o : AppProtocol) (r : Round)
    → ((note_offer ctx ns o r).hs ≡ r.hs)
      × ((note_offer ctx ns o r).ev_app_priority ≡ r.ev_app_priority)
note-hs ctx ns o r = elim (Bool-cases ctx.debug_mode) [
  | inl e ↦ (rw e refl, rw e refl)
  | inr e ↦ (rw e refl, rw e refl)
]

module _ (supported : ℕ) (o : AppProtocol) (offers : List AppProtocol) (limit : ℕ) where
  at_each :
      (P : ℕ → AppProtocol → Type 0)
      → ((p : Protocol) → protocol_of supported o ≡ some p → P 0 o)
      → ((i : ℕ) (o' : AppProtocol) (p' : Protocol)
          → get_elem? offers i ≡ some o'
          → protocol_of supported o' ≡ some p'
          → P (suc i) o')
      → (i : ℕ) (o' : AppProtocol) (p' : Protocol) → get_elem? (o ∷ offers) i ≡ some o'
      → protocol_of supported o' ≡ some p'
      → P i o'
  at_each P head tail zero o' p' g k = let e = some-injective o o' g in rw e at (head p' (rw e k))
  at_each P head tail (suc i) o' p' g k = tail i o' p' g k

  pub skip-Outcome :
      (before after : Handshake)
      → ((p : Protocol) → protocol_of supported o ≡ some p → limit < o.priority)
      → Outcome supported offers limit before after
      → Outcome supported (o ∷ offers) limit before after
  skip-Outcome before after over (inl (n, e)) =
      inl (at_each (λ _ o'. limit < o'.priority) over n, e)
  skip-Outcome before after over (inr (b, p, best, e)) =
      let w = best.is_within in
      let best' : IsBest supported (o ∷ offers) limit b p = record {
        place = suc best.place;
        is_offered = best.is_offered;
        is_known = best.is_known;
        is_within = w;
        is_least =
            at_each (λ _ o'. b.priority ≤ o'.priority) (λ q k. omega (arith, w, over q k))
              best.is_least;
        is_last =
            at_each (λ i o'. suc best.place < i → b.priority < o'.priority) (λ q k l. omega arith)
              (λ i o' p' g k l. best.is_last i o' p' g k (omega arith));
      } in
      inr (b, p, best', e)

  pub take-Outcome :
      (p : Protocol) (before after : Handshake)
      → protocol_of supported o ≡ some p
      → o.priority ≤ limit
      → Outcome supported offers o.priority (select_offer o p before) after
      → Outcome supported (o ∷ offers) limit before after
  take-Outcome p before after k l (inl (n, e)) =
      let best : IsBest supported (o ∷ offers) limit o p = record {
        place = 0;
        is_offered = refl;
        is_known = k;
        is_within = l;
        is_least =
            at_each (λ _ o'. o.priority ≤ o'.priority) (λ _ _. omega arith)
              (λ i o' p' g k'. omega (arith, n i o' p' g k'));
        is_last =
            at_each (λ i o'. 0 < i → o.priority < o'.priority) (λ _ _ z. omega arith)
              (λ i o' p' g k' _. n i o' p' g k');
      } in
      inr (o, p, best, e)
  take-Outcome p before after k l (inr (b, q, best, e)) =
      let w = best.is_within in
      let best' : IsBest supported (o ∷ offers) limit b q = record {
        place = suc best.place;
        is_offered = best.is_offered;
        is_known = best.is_known;
        is_within = omega arith;
        is_least = at_each (λ _ o'. b.priority ≤ o'.priority) (λ _ _. w) best.is_least;
        is_last =
            at_each (λ i o'. suc best.place < i → b.priority < o'.priority) (λ _ _ z. omega arith)
              (λ i o' p' g k' z. best.is_last i o' p' g k' (omega arith));
      } in
      inr (b, q, best', e)
