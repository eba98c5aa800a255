-- ===== src/Energy/Amounts.antt =====
-- One limit of a market of modules/EnergyManager, and one amount that is sold under it.
use everest_core_dev.Common.{ℕ, ◌≡◌, true, false, Option, none, some, ◌⊎◌, inl, inr, Bool-cases}
use mathlib.Core.Path.{subst}
use everest_core_dev.Floats.{Floats, IsOrdered}
use everest_core_dev.Energy.{value_or}
use everest_core_dev.Energy.Market.{zero_f, plus, sold_amount, add_amount, sum_amount}
use everest_core_dev.Energy.Offer.{apply_one_limit_if_smaller}
use everest_core_dev.Energy.Broker.{power, share}

-- Arithmetic that does not round: what the sums, the powers of currents and the currents of powers
-- are to keep.
pub record IsExact {F : Type 0} (fl : Floats F) (voltage : F) : Type 0 where
  pub ordered : IsOrdered fl
  pub lt_of_not_le : (a b : F) → fl.le a b ≡ false → fl.lt b a ≡ true
  pub plus_zero : (a : F) → plus fl a (zero_f fl) ≡ a
  pub plus_comm : (a b : F) → plus fl a b ≡ plus fl b a
  pub plus_nonneg : (a s : F) → fl.le (zero_f fl) a ≡ true → fl.le s (plus fl a s) ≡ true
  pub plus_nonpos : (a s : F) → fl.le a (zero_f fl) ≡ true → fl.le (plus fl a s) s ≡ true
  pub add_of_sub :
      (a m s : F) → fl.le a (plus fl m (fl.neg s)) ≡ true → fl.le (plus fl a s) m ≡ true
  pub sub_of_add :
      (a e s : F) → fl.le a (plus fl e s) ≡ true → fl.le (fl.neg e) (plus fl (fl.neg a) s) ≡ true
  pub sub_nonneg : (m s : F) → fl.le s m ≡ true → fl.le (zero_f fl) (plus fl m (fl.neg s)) ≡ true
  pub add_nonneg : (e s : F) → fl.le (fl.neg e) s ≡ true → fl.le (zero_f fl) (plus fl e s) ≡ true
  pub neg_neg : (a : F) → fl.neg (fl.neg a) ≡ a
  pub neg_anti : (a b : F) → fl.le a b ≡ true → fl.le (fl.neg b) (fl.neg a) ≡ true
  pub neg_zero : fl.neg (zero_f fl) ≡ zero_f fl
  pub power_neg :
      (a : F) (phases : ℕ) → power fl voltage (fl.neg a) phases ≡ fl.neg (power fl voltage a phases)
  pub power_nonneg :
      (a : F) (phases : ℕ)
      → fl.le (zero_f fl) a ≡ true
      → fl.le (zero_f fl) (power fl voltage a phases) ≡ true
  pub share_nonneg :
      (w : F) (phases : ℕ)
      → fl.le (zero_f fl) w ≡ true
      → fl.le (zero_f fl) (share fl voltage w phases) ≡ true
  pub power-share :
      (w : F) (phases : ℕ)
      → fl.le (zero_f fl) w ≡ true
      → fl.le (power fl voltage (share fl voltage w phases) phases) w ≡ true
  pub share_le :
      (w a : F) (phases : ℕ)
      → fl.le (zero_f fl) w ≡ true
      → fl.lt w (power fl voltage a phases) ≡ true
      → fl.le (share fl voltage w phases) a ≡ true

module _ {F : Type 0} (fl : Floats F) where
  -- What is sold is at most an import limit that is not negative.
  abbrev pub Up : Option F → F → Type 0
  Up none s = Unit
  Up (some m) s = (fl.le (zero_f fl) m ≡ true) × (fl.le s m ≡ true)

  -- What is given back is at most an export limit that is not negative.
  abbrev pub Down : Option F → F → Type 0
  Down none s = Unit
  Down (some e) s = (fl.le (zero_f fl) e ≡ true) × (fl.le (fl.neg e) s ≡ true)

  abbrev pub IsBetween : Option F → Option F → Option F → Type 0
  IsBetween import_max export_max sold =
      Up import_max (value_or sold (zero_f fl)) × Down export_max (value_or sold (zero_f fl))

  -- An amount to import is within what there is, and one to export too.
  abbrev pub ImportsWithin : Option F → F → Type 0
  ImportsWithin none a = Unit
  ImportsWithin (some m) a = fl.le a m ≡ true

  abbrev pub ExportsWithin : Option F → F → Type 0
  ExportsWithin none a = Unit
  ExportsWithin (some e) a = fl.le (fl.neg a) e ≡ true

  abbrev pub IsWithin : Option F → Option F → Option F → Type 0
  IsWithin imports exports none = Unit
  IsWithin imports exports (some a) =
      ((fl.le a (zero_f fl) ≡ true) ⊎ ImportsWithin imports a)
      × ((fl.le (zero_f fl) a ≡ true) ⊎ ExportsWithin exports a)

  abbrev pub IsNonneg : Option F → Type 0
  IsNonneg none = Unit
  IsNonneg (some a) = fl.le (zero_f fl) a ≡ true

  -- The first limit is as strict as the second.
  abbrev pub IsUnder : Option F → Option F → Type 0
  IsUnder x none = Unit
  IsUnder none (some m) = ⊥
  IsUnder (some x) (some m) = fl.le x m ≡ true

module _ {F : Type 0} (fl : Floats F) (voltage : F) (exact : IsExact fl voltage) where
  trans : (a b c : F) → fl.le a b ≡ true → fl.le b c ≡ true → fl.le a c ≡ true
  trans = exact.ordered.le_trans

  nonpos_of_neg : (s : F) → fl.lt (zero_f fl) (fl.neg s) ≡ true → fl.le s (zero_f fl) ≡ true
  nonpos_of_neg s e =
      let h =
        exact.neg_anti (zero_f fl) (fl.neg s) (exact.ordered.lt→le (zero_f fl) (fl.neg s) e) in
      subst (λ x. fl.le x (zero_f fl) ≡ true) (exact.neg_neg s)
        (subst (λ x. fl.le (fl.neg (fl.neg s)) x ≡ true) exact.neg_zero h)

  drop_zero : (a m : F) → fl.le a (plus fl m (zero_f fl)) ≡ true → fl.le a m ≡ true
  drop_zero a m h = subst (λ x. fl.le a x ≡ true) (exact.plus_zero m) h

  import-Up :
      (m a : F) (sold : Option F)
      → fl.le a (plus fl m (sold_amount fl false sold)) ≡ true
      → fl.le (plus fl a (value_or sold (zero_f fl))) m ≡ true
  import-Up m a sold h =
      let s = value_or sold (zero_f fl) in
      elim (Bool-cases (fl.lt (zero_f fl) (fl.neg s))) [
        | inl e ↦
            (let less = exact.plus_nonpos s a (nonpos_of_neg s e) in
              trans (plus fl a s) a m (subst (λ x. fl.le x a ≡ true) (exact.plus_comm s a) less)
                (drop_zero a m (rw e at h)))
        | inr e ↦ exact.add_of_sub a m s (rw e at h)
      ]

  export-Down :
      (l a : F) (sold : Option F)
      → fl.le (fl.neg a) (plus fl l (sold_amount fl true sold)) ≡ true
      → fl.le (fl.neg l) (plus fl a (value_or sold (zero_f fl))) ≡ true
  export-Down l a sold h =
      let s = value_or sold (zero_f fl) in
      elim (Bool-cases (fl.lt (zero_f fl) s)) [
        | inl e ↦
            (let less = exact.neg_anti (fl.neg a) l (drop_zero (fl.neg a) l (rw e at h)) in
              let more = exact.plus_nonneg s a (exact.ordered.lt→le (zero_f fl) s e) in
              trans (fl.neg l) a (plus fl a s)
                (subst (λ x. fl.le (fl.neg l) x ≡ true) (exact.neg_neg a) less)
                (subst (λ x. fl.le a x ≡ true) (exact.plus_comm s a) more))
        | inr e ↦
            subst (λ x. fl.le (fl.neg l) (plus fl x s) ≡ true) (exact.neg_neg a)
              (exact.sub_of_add (fl.neg a) l s (rw e at h))
      ]

  sum-Up :
      (imports sold : Option F) (a : F)
      → Up fl imports (value_or sold (zero_f fl))
      → (fl.le a (zero_f fl) ≡ true)
        ⊎ ImportsWithin fl (add_amount fl imports (sold_amount fl false sold)) a
      → Up fl imports (plus fl a (value_or sold (zero_f fl)))
  sum-Up none sold a up h = tt
  sum-Up (some m) sold a (n, up) (inl h) =
      let s = value_or sold (zero_f fl) in (n, trans (plus fl a s) s m (exact.plus_nonpos a s h) up)
  sum-Up (some m) sold a (n, up) (inr h) = (n, import-Up m a sold h)

  sum-Down :
      (exports sold : Option F) (a : F)
      → Down fl exports (value_or sold (zero_f fl))
      → (fl.le (zero_f fl) a ≡ true)
        ⊎ ExportsWithin fl (add_amount fl exports (sold_amount fl true sold)) a
      → Down fl exports (plus fl a (value_or sold (zero_f fl)))
  sum-Down none sold a down h = tt
  sum-Down (some l) sold a (n, down) (inl h) =
      let s = value_or sold (zero_f fl) in
      (n, trans (fl.neg l) s (plus fl a s) down (exact.plus_nonneg a s h))
  sum-Down (some l) sold a (n, down) (inr h) = (n, export-Down l a sold h)

  -- A trade within what is left keeps what is sold within the limits.
  pub sum-IsBetween :
      (imports exports sold t : Option F)
      → IsBetween fl imports exports sold
      → IsWithin fl
          (add_amount fl imports (sold_amount fl false sold))
          (add_amount fl exports (sold_amount fl true sold))
          t
      → IsBetween fl imports exports (sum_amount fl sold t)
  sum-IsBetween imports exports sold none b w = b
  sum-IsBetween imports exports sold (some a) b w =
      (sum-Up imports sold a b.0 w.0, sum-Down exports sold a b.1 w.1)

  pub import-IsNonneg :
      (imports sold : Option F)
      → Up fl imports (value_or sold (zero_f fl))
      → IsNonneg fl (add_amount fl imports (sold_amount fl false sold))
  import-IsNonneg none sold up = tt
  import-IsNonneg (some m) sold (n, up) =
      let s = value_or sold (zero_f fl) in
      elim (Bool-cases (fl.lt (zero_f fl) (fl.neg s))) [
        | inl e ↦ rw (e, exact.plus_zero m) n
        | inr e ↦ rw e (exact.sub_nonneg m s up)
      ]

  pub export-IsNonneg :
      (exports sold : Option F)
      → Down fl exports (value_or sold (zero_f fl))
      → IsNonneg fl (add_amount fl exports (sold_amount fl true sold))
  export-IsNonneg none sold down = tt
  export-IsNonneg (some l) sold (n, down) =
      let s = value_or sold (zero_f fl) in
      elim (Bool-cases (fl.lt (zero_f fl) s)) [
        | inl e ↦ rw (e, exact.plus_zero l) n
        | inr e ↦ rw e (exact.add_nonneg l s down)
      ]

  IsUnder-ImportsWithin :
      (x y : Option F) (a : F) → IsUnder fl x y → ImportsWithin fl x a → ImportsWithin fl y a
  IsUnder-ImportsWithin x none a u w = tt
  IsUnder-ImportsWithin none (some m) a u w = elim u [ ]
  IsUnder-ImportsWithin (some b) (some m) a u w = trans a b m w u

  IsUnder-ExportsWithin :
      (x y : Option F) (a : F) → IsUnder fl x y → ExportsWithin fl x a → ExportsWithin fl y a
  IsUnder-ExportsWithin x none a u w = tt
  IsUnder-ExportsWithin none (some m) a u w = elim u [ ]
  IsUnder-ExportsWithin (some b) (some m) a u w = trans (fl.neg a) b m w u

  -- What is within the stricter limits is within the others.
  pub IsUnder-IsWithin :
      (x y i e t : Option F)
      → IsUnder fl x i
      → IsUnder fl y e
      → IsWithin fl x y t
      → IsWithin fl i e t
  IsUnder-IsWithin x y i e none u v w = tt
  IsUnder-IsWithin x y i e (some a) u v (inl p, inl q) = (inl p, inl q)
  IsUnder-IsWithin x y i e (some a) u v (inl p, inr q) =
      (inl p, inr (IsUnder-ExportsWithin y e a v q))
  IsUnder-IsWithin x y i e (some a) u v (inr p, inl q) =
      (inr (IsUnder-ImportsWithin x i a u p), inl q)
  IsUnder-IsWithin x y i e (some a) u v (inr p, inr q) =
      (inr (IsUnder-ImportsWithin x i a u p), inr (IsUnder-ExportsWithin y e a v q))

  pub IsUnder-refl : (x : Option F) → IsUnder fl x x
  IsUnder-refl none = tt
  IsUnder-refl (some a) = exact.ordered.le_refl a

  pub IsUnder-trans : (x y z : Option F) → IsUnder fl x y → IsUnder fl y z → IsUnder fl x z
  IsUnder-trans x y none u v = tt
  IsUnder-trans x none (some c) u v = elim v [ ]
  IsUnder-trans none (some b) (some c) u v = elim u [ ]
  IsUnder-trans (some a) (some b) (some c) u v = trans a b c u v

  -- The smaller of two limits is as strict as both.
  pub smaller-IsUnder :
      (x y : Option F)
      → IsUnder fl (apply_one_limit_if_smaller fl.lt x y) x
        × IsUnder fl (apply_one_limit_if_smaller fl.lt x y) y
  smaller-IsUnder x none = (IsUnder-refl x, tt)
  smaller-IsUnder none (some b) = (tt, exact.ordered.le_refl b)
  smaller-IsUnder (some a) (some b) = elim (Bool-cases (fl.lt b a)) [
    | inl e ↦ (rw e (exact.ordered.lt→le b a e), rw e (exact.ordered.le_refl b))
    | inr e ↦ (rw e (exact.ordered.le_refl a), rw e (exact.ordered.le_of_not_lt b a e))
  ]

  pub smaller-IsNonneg :
      (x y : Option F)
      → IsNonneg fl x
      → IsNonneg fl y
      → IsNonneg fl (apply_one_limit_if_smaller fl.lt x y)
  smaller-IsNonneg x none n m = n
  smaller-IsNonneg none (some b) n m = m
  smaller-IsNonneg (some a) (some b) n m = elim (Bool-cases (fl.lt b a)) [
    | inl e ↦ rw e m
    | inr e ↦ rw e n
  ]
