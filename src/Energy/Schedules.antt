-- ===== src/Energy/Schedules.antt =====
-- Whole schedules of modules/EnergyManager: offers under what is available, trades within offers, and
-- what is sold within the limits.
use everest_core_dev.Common.{
  ℕ, ◌≡◌, refl, ap, true, false, suc, List, [], ◌∷◌, ◌==◌, ==_refl, length,
}
use everest_core_dev.Floats.{Floats}
use everest_core_dev.Energy.{ScheduleReqEntry, ScheduleResEntry, ScheduleReq, ScheduleRes}
use everest_core_dev.Energy.Market.{get_available_energy, add_entry, add_entries, schedule_add}
use everest_core_dev.Energy.Amounts.{
  IsExact, IsBetween, IsWithin, IsNonneg, IsUnder, sum-IsBetween, import-IsNonneg, export-IsNonneg,
  IsUnder-IsWithin, IsUnder-refl, IsUnder-trans,
}

-- In every slot, what is sold is between the limits.
pub data Fits {F : Type 0} (fl : Floats F)
    : List ℕ → ScheduleReq F → ScheduleReq F → ScheduleRes F → Type 0 where
  fits_none : Fits fl [] [] [] []
  fits_slot :
      {t : ℕ} {i e : ScheduleReqEntry F} {s : ScheduleResEntry F} {ts : List ℕ}
      {is es : ScheduleReq F} {ss : ScheduleRes F}
      → IsBetween fl i.limits_to_root.ac_max_current_a e.limits_to_root.ac_max_current_a
          s.limits_to_root.ac_max_current_a
      → IsBetween fl i.limits_to_root.total_power_w e.limits_to_root.total_power_w
          s.limits_to_root.total_power_w
      → Fits fl ts is es ss
      → Fits fl (t ∷ ts) (i ∷ is) (e ∷ es) (s ∷ ss)

-- In every slot, the limits of the first schedule are as strict as those of the second.
pub data AllUnder {F : Type 0} (fl : Floats F)
    : List ℕ → ScheduleReq F → ScheduleReq F → Type 0 where
  under_none : AllUnder fl [] [] []
  under_slot :
      {t : ℕ} {x y : ScheduleReqEntry F} {ts : List ℕ} {xs ys : ScheduleReq F}
      → IsUnder fl x.limits_to_root.ac_max_current_a y.limits_to_root.ac_max_current_a
      → IsUnder fl x.limits_to_root.total_power_w y.limits_to_root.total_power_w
      → AllUnder fl ts xs ys
      → AllUnder fl (t ∷ ts) (x ∷ xs) (y ∷ ys)

-- In every slot, a trade is within two offers.
pub data AllWithin {F : Type 0} (fl : Floats F)
    : List ℕ → ScheduleReq F → ScheduleReq F → ScheduleRes F → Type 0 where
  within_none : AllWithin fl [] [] [] []
  within_slot :
      {t : ℕ} {i e : ScheduleReqEntry F} {s : ScheduleResEntry F} {ts : List ℕ}
      {is es : ScheduleReq F} {ss : ScheduleRes F}
      → IsWithin fl i.limits_to_root.ac_max_current_a e.limits_to_root.ac_max_current_a
          s.limits_to_root.ac_max_current_a
      → IsWithin fl i.limits_to_root.total_power_w e.limits_to_root.total_power_w
          s.limits_to_root.total_power_w
      → AllWithin fl ts is es ss
      → AllWithin fl (t ∷ ts) (i ∷ is) (e ∷ es) (s ∷ ss)

-- A list has an entry for every slot.
pub data IsSized {A : Type 0} : List ℕ → List A → Type 0 where
  sized_none : IsSized [] []
  sized_slot :
      {t : ℕ} {a : A} {ts : List ℕ} {xs : List A} → IsSized ts xs → IsSized (t ∷ ts) (a ∷ xs)

pub IsSized-length :
    {A : Type 0} {ts : List ℕ} {xs : List A} → IsSized ts xs → length xs ≡ length ts
IsSized-length sized_none = refl
IsSized-length (sized_slot n) = ap suc (IsSized-length n)

-- Two sized lists pass the test of their lengths.
pub same_size :
    {A B : Type 0} {ts : List ℕ} (xs : List A) (ys : List B)
    → IsSized ts xs
    → IsSized ts ys
    → (length xs == length ys) ≡ true
same_size {ts = ts} xs ys n m = rw (IsSized-length n, IsSized-length m) (==_refl (length ts))

module _ {F : Type 0} (fl : Floats F) where
  -- No limit of a power is negative.
  abbrev pub AllNonneg : ScheduleReq F → Type 0
  AllNonneg [] = Unit
  AllNonneg (x ∷ xs) = IsNonneg fl x.limits_to_root.total_power_w × AllNonneg xs

  Fits-IsSized :
      {ts : List ℕ} {is es : ScheduleReq F} {ss : ScheduleRes F}
      → Fits fl ts is es ss
      → IsSized ts ss
  Fits-IsSized fits_none = sized_none
  Fits-IsSized (fits_slot a w f) = sized_slot (Fits-IsSized f)

  AllWithin-IsSized :
      {ts : List ℕ} {is es : ScheduleReq F} {ss : ScheduleRes F}
      → AllWithin fl ts is es ss
      → IsSized ts ss
  AllWithin-IsSized within_none = sized_none
  AllWithin-IsSized (within_slot a w f) = sized_slot (AllWithin-IsSized f)

module _ {F : Type 0} (fl : Floats F) (voltage : F) (exact : IsExact fl voltage) where
  -- What a market has left is not negative.
  pub Fits-import :
      {ts : List ℕ} {is es : ScheduleReq F} {ss : ScheduleRes F}
      → Fits fl ts is es ss
      → IsSized ts (get_available_energy fl false is ss)
        × AllNonneg fl (get_available_energy fl false is ss)
  unfolding get_available_energy
  Fits-import fits_none = (sized_none, tt)
  Fits-import (fits_slot {i = i} {s = s} a w f) =
      let rest = Fits-import f in
      (
        sized_slot rest.0,
        (
          import-IsNonneg fl voltage exact i.limits_to_root.total_power_w
              s.limits_to_root.total_power_w w.0,
          rest.1,
        ),
      )

  pub Fits-export :
      {ts : List ℕ} {is es : ScheduleReq F} {ss : ScheduleRes F}
      → Fits fl ts is es ss
      → IsSized ts (get_available_energy fl true es ss)
        × AllNonneg fl (get_available_energy fl true es ss)
  unfolding get_available_energy
  Fits-export fits_none = (sized_none, tt)
  Fits-export (fits_slot {e = e} {s = s} a w f) =
      let rest = Fits-export f in
      (
        sized_slot rest.0,
        (
          export-IsNonneg fl voltage exact e.limits_to_root.total_power_w
              s.limits_to_root.total_power_w w.1,
          rest.1,
        ),
      )

  pub AllUnder-refl : {ts : List ℕ} {xs : ScheduleReq F} → IsSized ts xs → AllUnder fl ts xs xs
  AllUnder-refl sized_none = under_none
  AllUnder-refl (sized_slot {a = x} n) =
      under_slot (IsUnder-refl fl voltage exact x.limits_to_root.ac_max_current_a)
        (IsUnder-refl fl voltage exact x.limits_to_root.total_power_w) (AllUnder-refl n)

  pub AllUnder-trans :
      {ts : List ℕ} {xs ys zs : ScheduleReq F}
      → AllUnder fl ts xs ys
      → AllUnder fl ts ys zs
      → AllUnder fl ts xs zs
  AllUnder-trans under_none under_none = under_none
  AllUnder-trans (under_slot {x = x} {y = y} a w u) (under_slot {y = z} b v r) =
      under_slot
        (IsUnder-trans fl voltage exact x.limits_to_root.ac_max_current_a
          y.limits_to_root.ac_max_current_a z.limits_to_root.ac_max_current_a a b)
        (IsUnder-trans fl voltage exact x.limits_to_root.total_power_w
          y.limits_to_root.total_power_w z.limits_to_root.total_power_w w v)
        (AllUnder-trans u r)

  -- What is within the stricter offers is within the others.
  pub AllUnder-AllWithin :
      {ts : List ℕ} {xs ys is es : ScheduleReq F} {ss : ScheduleRes F}
      → AllUnder fl ts xs is
      → AllUnder fl ts ys es
      → AllWithin fl ts xs ys ss
      → AllWithin fl ts is es ss
  AllUnder-AllWithin under_none under_none within_none = within_none
  AllUnder-AllWithin (under_slot {x = x} {y = i} a w u) (under_slot {x = y} {y = e} b v r)
        (within_slot {s = s} p q h) =
      within_slot
        (IsUnder-IsWithin fl voltage exact x.limits_to_root.ac_max_current_a
          y.limits_to_root.ac_max_current_a i.limits_to_root.ac_max_current_a
          e.limits_to_root.ac_max_current_a s.limits_to_root.ac_max_current_a a b p)
        (IsUnder-IsWithin fl voltage exact x.limits_to_root.total_power_w
          y.limits_to_root.total_power_w i.limits_to_root.total_power_w
          e.limits_to_root.total_power_w s.limits_to_root.total_power_w w v q)
        (AllUnder-AllWithin u r h)

  entries-Fits :
      {ts : List ℕ} {is es : ScheduleReq F} {ss bs : ScheduleRes F}
      → Fits fl ts is es ss
      → AllWithin fl ts
          (get_available_energy fl false is ss)
          (get_available_energy fl true es ss)
          bs
      → Fits fl ts is es (add_entries fl ss bs)
  unfolding get_available_energy add_entry
  entries-Fits fits_none within_none = fits_none
  entries-Fits (fits_slot {i = i} {e = e} {s = s} a w f) (within_slot {s = b} p q h) =
      fits_slot
        (sum-IsBetween fl voltage exact i.limits_to_root.ac_max_current_a
          e.limits_to_root.ac_max_current_a s.limits_to_root.ac_max_current_a
          b.limits_to_root.ac_max_current_a a p)
        (sum-IsBetween fl voltage exact i.limits_to_root.total_power_w
          e.limits_to_root.total_power_w s.limits_to_root.total_power_w
          b.limits_to_root.total_power_w w q)
        (entries-Fits f h)

  -- A trade within what is left keeps what is sold within the limits.
  pub schedule_add-Fits :
      {ts : List ℕ} {is es : ScheduleReq F} {ss bs : ScheduleRes F}
      → Fits fl ts is es ss
      → AllWithin fl ts
          (get_available_energy fl false is ss)
          (get_available_energy fl true es ss)
          bs
      → Fits fl ts is es (schedule_add fl ss bs)
  unfolding schedule_add
  schedule_add-Fits {ss = ss} {bs = bs} f h =
      rw (same_size ss bs (Fits-IsSized fl f) (AllWithin-IsSized fl h), schedule_add)
        (entries-Fits f h)
