-- ===== src/Energy/Slots.antt =====
-- One slot of a trade of modules/EnergyManager/BrokerFastCharging.cpp stays within the offers.
use everest_core_dev.Common.{
  ℕ, ◌≡◌, refl, sym, Bool, true, false, ◌&&◌, Option, none, some, inl, inr, if◌then◌else◌,
  Bool-cases, Option-cases,
}
use mathlib.Core.Path.{subst}
use everest_core_dev.Floats.{Floats}
use everest_core_dev.Energy.{ScheduleReqEntry, Globals, value_or}
use everest_core_dev.Energy.Market.{zero_f}
use everest_core_dev.Energy.Broker.{
  Slot, power, share, signed, phases_or_one, buy_both, buy_leftovers, has_power, buy_current,
  buy_ampere, buy_watt, buy_slot, needs_minimum, can_trade, nothing_of, trade_slot,
}
use everest_core_dev.Energy.Amounts.{IsExact, ImportsWithin, IsWithin, IsNonneg}

and_right : (a b : Bool) → (a && b) ≡ true → b ≡ true
and_right true b e = e
and_right false b e = cc

module _ {F : Type 0} (fl : Floats F) (voltage : F) (exact : IsExact fl voltage) where
  signed-power :
      (is_import : Bool) (a : F) (phases : ℕ)
      → power fl voltage (signed fl voltage is_import a) phases
        ≡ signed fl voltage is_import (power fl voltage a phases)
  signed-power true a phases = refl
  signed-power false a phases = exact.power_neg a phases

  -- A property of a current and one of a power, each of all amounts within an offer.
  module _ (is_import : Bool) (offer : ScheduleReqEntry F) (A W : Option F → Type 0)
      (a_within : (a : F)
        → fl.le (zero_f fl) a ≡ true
        → ImportsWithin fl offer.limits_to_root.ac_max_current_a a
        → A (some (signed fl voltage is_import a)))
      (w_within : (w : F)
        → fl.le (zero_f fl) w ≡ true
        → ImportsWithin fl offer.limits_to_root.total_power_w w
        → W (some (signed fl voltage is_import w))) where
    abbrev IsGood : Slot F → Type 0
    IsGood s = A s.ac_max_current_a × W s.total_power_w

    buy_both-IsGood :
        (a w : F) (phases : ℕ) (s : Slot F)
        → offer.limits_to_root.total_power_w ≡ some w
        → fl.le (zero_f fl) a ≡ true
        → ImportsWithin fl offer.limits_to_root.ac_max_current_a a
        → fl.le (power fl voltage a phases) w ≡ true
        → IsGood (buy_both fl voltage is_import a phases s)
    buy_both-IsGood a w phases s e n within h = (
      a_within a n within,
      subst (λ x. W (some x)) (sym (signed-power is_import a phases))
          (w_within (power fl voltage a phases) (exact.power_nonneg a phases n) (rw e h)),
    )

    leftovers-IsGood :
        (m : F) (phases : ℕ) (s : Slot F)
        → offer.limits_to_root.ac_max_current_a ≡ some m
        → IsNonneg fl offer.limits_to_root.total_power_w
        → fl.le (zero_f fl) m ≡ true
        → IsGood s
        → IsGood (buy_leftovers fl voltage is_import m offer.limits_to_root.total_power_w phases s)
    leftovers-IsGood m phases s e n pos good =
        elim (Option-cases offer.limits_to_root.total_power_w) [
          | inl none_w ↦ rw none_w (a_within m pos (rw e (exact.ordered.le_refl m)), good.1)
          | inr (w, some_w) ↦
              (let pos_w = (rw some_w at n) in
                elim (Bool-cases (fl.le (power fl voltage m phases) w)) [
                  | inl h ↦
                      rw (some_w, h)
                        (buy_both-IsGood m w phases s some_w pos (rw e (exact.ordered.le_refl m)) h)
                  | inr h ↦
                      (let less =
                          exact.share_le w m phases pos_w
                            (exact.lt_of_not_le (power fl voltage m phases) w h) in
                        rw (some_w, h)
                          (buy_both-IsGood (share fl voltage w phases) w phases s some_w
                            (exact.share_nonneg w phases pos_w) (rw e less)
                            (exact.power-share w phases pos_w)))
                ])
        ]

    current-IsGood :
        (a m : F) (phases : ℕ) (s : Slot F)
        → offer.limits_to_root.ac_max_current_a ≡ some m
        → fl.le (zero_f fl) a ≡ true
        → fl.le a m ≡ true
        → has_power fl voltage offer.limits_to_root.total_power_w a phases ≡ true
        → IsGood s
        → IsGood (buy_current fl voltage is_import a offer.limits_to_root.total_power_w phases s)
    current-IsGood a m phases s e n le h good =
        elim (Option-cases offer.limits_to_root.total_power_w) [
          | inl none_w ↦ rw none_w (a_within a n (rw e le), good.1)
          | inr (w, some_w) ↦
              rw some_w (buy_both-IsGood a w phases s some_w n (rw e le) (rw some_w at h))
        ]

    -- What is done when the amount that was asked for is not there.
    less-IsGood :
        (m : F) (phases : ℕ) (allow_less : Bool) (s : Slot F)
        → offer.limits_to_root.ac_max_current_a ≡ some m
        → IsNonneg fl offer.limits_to_root.total_power_w
        → IsGood s
        → IsGood (
            if allow_less && fl.lt (zero_f fl) m
            then buy_leftovers fl voltage is_import m offer.limits_to_root.total_power_w phases s
            else s)
    less-IsGood m phases false s e n good = good
    less-IsGood m phases true s e n good = elim (Bool-cases (fl.lt (zero_f fl) m)) [
      | inl p ↦ rw p (leftovers-IsGood m phases s e n (exact.ordered.lt→le (zero_f fl) m p) good)
      | inr p ↦ rw p good
    ]

    buy_ampere-IsGood :
        (ampere : F) (allow_less : Bool) (s : Slot F)
        → IsNonneg fl offer.limits_to_root.total_power_w
        → fl.le (zero_f fl) ampere ≡ true
        → IsGood s
        → IsGood (buy_ampere fl voltage offer ampere allow_less is_import s)
    unfolding buy_ampere
    buy_ampere-IsGood ampere allow_less s n pos good =
        let w = offer.limits_to_root.total_power_w in
        let phases = phases_or_one offer.limits_to_root.ac_max_phase_count in
        elim (Option-cases offer.limits_to_root.ac_max_current_a) [
          | inl e ↦ rw (e, buy_ampere) good
          | inr (m, e) ↦
              (let less = less-IsGood m phases allow_less s e n good in
                elim (Bool-cases (fl.le ampere m)) [
                  | inl l ↦ elim (Bool-cases (has_power fl voltage w ampere phases)) [
                    | inl h ↦
                        rw (e, l, h, buy_ampere) (current-IsGood ampere m phases s e pos l h good)
                    | inr h ↦ rw (e, l, h, buy_ampere) less
                  ]
                  | inr l ↦ rw (e, l, buy_ampere) less
                ])
        ]

    -- With no limit of a current, the amounts that `buy_watt` buys as currents are within it.
    buy_watt-IsGood :
        (watt : F) (allow_less : Bool) (s : Slot F)
        → offer.limits_to_root.ac_max_current_a ≡ none
        → IsNonneg fl offer.limits_to_root.total_power_w
        → fl.le (zero_f fl) watt ≡ true
        → IsGood s
        → IsGood (buy_watt fl voltage offer watt allow_less is_import s)
    unfolding buy_watt
    buy_watt-IsGood watt allow_less s e n pos good =
        elim (Option-cases offer.limits_to_root.total_power_w) [
          | inl f ↦ rw (f, buy_watt) good
          | inr (w, f) ↦
              (let pos_w = (rw f at n) in
                elim (Bool-cases (fl.le watt w)) [
                  | inl l ↦ rw (f, l, buy_watt) (a_within watt pos (rw e tt), good.1)
                  | inr l ↦ elim (Bool-cases allow_less) [
                    | inl al ↦ elim (Bool-cases (fl.lt (zero_f fl) w)) [
                      | inl p ↦ rw (f, l, al, p, buy_watt) (a_within w pos_w (rw e tt), good.1)
                      | inr p ↦ rw (f, l, al, p, buy_watt) good
                    ]
                    | inr al ↦ rw (f, l, al, buy_watt) good
                  ]
                ])
        ]

    choose-IsGood :
        (b : Bool) (s t : Slot F) → (b ≡ true → IsGood s) → IsGood t → IsGood (if b then s else t)
    choose-IsGood true s t f good = f refl
    choose-IsGood false s t f good = good

    minimum-IsGood :
        (globals : Globals F) (s : Slot F) (min_current : Option F)
        → fl.le (zero_f fl) globals.slice_ampere ≡ true
        → IsNonneg fl offer.limits_to_root.total_power_w
        → IsGood s
        → IsGood (
            if needs_minimum fl voltage s.first_trade min_current
            then buy_ampere fl voltage offer (value_or min_current (zero_f fl)) false is_import s
            else buy_ampere fl voltage offer globals.slice_ampere true is_import s)
    minimum-IsGood globals s none ampere n good =
        buy_ampere-IsGood globals.slice_ampere true s n ampere good
    minimum-IsGood globals s (some a) ampere n good =
        choose-IsGood (s.first_trade && fl.lt (zero_f fl) a)
          (buy_ampere fl voltage offer a false is_import s)
          (buy_ampere fl voltage offer globals.slice_ampere true is_import s)
          (λ e.
            buy_ampere-IsGood a false s n
              (exact.ordered.lt→le (zero_f fl) a (and_right s.first_trade (fl.lt (zero_f fl) a) e))
              good)
          (buy_ampere-IsGood globals.slice_ampere true s n ampere good)

    pub buy_slot-IsGood :
        (globals : Globals F) (s : Slot F)
        → fl.le (zero_f fl) globals.slice_ampere ≡ true
        → fl.le (zero_f fl) globals.slice_watt ≡ true
        → IsNonneg fl offer.limits_to_root.total_power_w
        → IsGood s
        → IsGood (buy_slot fl voltage globals offer is_import s)
    unfolding buy_slot
    buy_slot-IsGood globals s ampere watt n good =
        elim (Option-cases offer.limits_to_root.ac_max_current_a) [
          | inl e ↦ elim (Option-cases offer.limits_to_root.total_power_w) [
            | inl f ↦ rw (e, f, buy_slot) good
            | inr (w, f) ↦
                rw (e, f, buy_slot) (buy_watt-IsGood globals.slice_watt true s e n watt good)
          ]
          | inr (m, e) ↦
              rw (e, buy_slot)
                (minimum-IsGood globals s offer.limits_to_root.ac_min_current_a ampere n good)
        ]

  nothing-IsWithin :
      (x imports exports : Option F) → IsWithin fl imports exports (nothing_of fl voltage x)
  nothing-IsWithin none imports exports = tt
  nothing-IsWithin (some a) imports exports =
      (inl (exact.ordered.le_refl (zero_f fl)), inl (exact.ordered.le_refl (zero_f fl)))

  negated-IsWithin :
      (imports exports : Option F) (a : F)
      → fl.le (zero_f fl) a ≡ true
      → ImportsWithin fl exports a
      → IsWithin fl imports exports (some (fl.neg a))
  negated-IsWithin imports none a n h = (
    inl (subst (λ x. fl.le (fl.neg a) x ≡ true) exact.neg_zero (exact.neg_anti (zero_f fl) a n)),
    inr tt,
  )
  negated-IsWithin imports (some e) a n h = (
    inl (subst (λ x. fl.le (fl.neg a) x ≡ true) exact.neg_zero (exact.neg_anti (zero_f fl) a n)),
    inr (subst (λ x. fl.le x e ≡ true) (sym (exact.neg_neg a)) h),
  )

  -- What a slot buys is within what both offers have.
  pub trade_slot-IsWithin :
      (globals : Globals F) (i e : ScheduleReqEntry F) (first : Bool)
      → fl.le (zero_f fl) globals.slice_ampere ≡ true
      → fl.le (zero_f fl) globals.slice_watt ≡ true
      → IsNonneg fl i.limits_to_root.total_power_w
      → IsNonneg fl e.limits_to_root.total_power_w
      → let s = trade_slot fl voltage globals i e first in
        IsWithin fl i.limits_to_root.ac_max_current_a e.limits_to_root.ac_max_current_a
          s.ac_max_current_a
        × IsWithin fl i.limits_to_root.total_power_w e.limits_to_root.total_power_w s.total_power_w
  unfolding trade_slot
  trade_slot-IsWithin globals i e first ampere watt ni ne =
      let x = i.limits_to_root in
      let y = e.limits_to_root in
      let s : Slot F = record {
        ac_max_current_a = nothing_of fl voltage x.ac_max_current_a;
        total_power_w = nothing_of fl voltage x.total_power_w;
        first_trade = first;
        traded = false;
      } in
      let idle : IsWithin fl x.ac_max_current_a y.ac_max_current_a s.ac_max_current_a
          × IsWithin fl x.total_power_w y.total_power_w s.total_power_w =
        (
          nothing-IsWithin x.ac_max_current_a x.ac_max_current_a y.ac_max_current_a,
          nothing-IsWithin x.total_power_w x.total_power_w y.total_power_w,
        ) in
      elim (Bool-cases (can_trade fl voltage i)) [
        | inl c ↦
            rw (c, trade_slot)
              (buy_slot-IsGood true i (IsWithin fl x.ac_max_current_a y.ac_max_current_a)
                (IsWithin fl x.total_power_w y.total_power_w) (λ a n h. (inr h, inl n))
                (λ w n h. (inr h, inl n)) globals s ampere watt ni idle)
        | inr c ↦ elim (Bool-cases (can_trade fl voltage e)) [
          | inl d ↦
              rw (c, d, trade_slot)
                (buy_slot-IsGood false e (IsWithin fl x.ac_max_current_a y.ac_max_current_a)
                  (IsWithin fl x.total_power_w y.total_power_w)
                  (negated-IsWithin x.ac_max_current_a y.ac_max_current_a)
                  (negated-IsWithin x.total_power_w y.total_power_w) globals s ampere watt ne idle)
          | inr d ↦ rw (c, d, trade_slot) idle
        ]
      ]
