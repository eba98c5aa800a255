-- ===== src/Energy/Times.antt =====
-- The time slots of modules/EnergyManager/Market.cpp, `globals_t::create_timestamps`.
use everest_core_dev.Common.{
  ==_iff, ℕ, ◌+◌, ◌-◌, ◌%◌, ◌≤◌, ◌<◌, ◌≡◌, refl, sym, ap, ◌∙◌, Bool, false, ◌||◌, List, [], ◌∷◌,
  ◌++◌, leb, ◌==◌, arith, inl, inr, Bool-cases,
}
use mathlib.Core.Path.{subst}
use everest_core_dev.Energy.{
  node, Forest, leaf, branch, Request, EnergyFlowRequest, slots, insert_time, sort, drop_equal,
  unique, request_times, add_timestamps, add_all_timestamps, create_timestamps,
}

abbrev pub is_in : ℕ → List ℕ → Bool
is_in x [] = false
is_in x (t ∷ ts) = x == t || is_in x ts

-- Every time is later than the one before, from a first one on.
abbrev pub IncreasesFrom : ℕ → List ℕ → Type 0
IncreasesFrom first [] = Unit
IncreasesFrom first (t ∷ ts) = (first < t) × IncreasesFrom t ts

abbrev pub IsIncreasing : List ℕ → Type 0
IsIncreasing [] = Unit
IsIncreasing (t ∷ ts) = IncreasesFrom t ts

abbrev GrowsFrom : ℕ → List ℕ → Type 0
GrowsFrom first [] = Unit
GrowsFrom first (t ∷ ts) = (first ≤ t) × GrowsFrom t ts

abbrev Grows : List ℕ → Type 0
Grows [] = Unit
Grows (t ∷ ts) = GrowsFrom t ts

insert-GrowsFrom :
    (first t : ℕ) (ts : List ℕ)
    → first ≤ t
    → GrowsFrom first ts
    → GrowsFrom first (insert_time t ts)
insert-GrowsFrom first t [] h g = (h, tt)
insert-GrowsFrom first t (u ∷ us) h g = elim (Bool-cases (leb t u)) [
  | inl e ↦ rw (e, GrowsFrom) (h, (ground arith, g.1))
  | inr e ↦ rw (e, GrowsFrom) (g.0, insert-GrowsFrom u t us (ground arith) g.1)
]

insert-Grows : (t : ℕ) (ts : List ℕ) → Grows ts → Grows (insert_time t ts)
insert-Grows t [] g = tt
insert-Grows t (u ∷ us) g = elim (Bool-cases (leb t u)) [
  | inl e ↦ rw (e, Grows) (ground arith, g)
  | inr e ↦ rw (e, Grows) (insert-GrowsFrom u t us (ground arith) g)
]

sort-Grows : (ts : List ℕ) → Grows (sort ts)
unfolding sort
sort-Grows [] = tt
sort-Grows (t ∷ ts) = insert-Grows t (sort ts) (sort-Grows ts)

drop_equal-IncreasesFrom :
    (kept : ℕ) (ts : List ℕ) → GrowsFrom kept ts → IncreasesFrom kept (drop_equal kept ts)
drop_equal-IncreasesFrom kept [] g = tt
drop_equal-IncreasesFrom kept (t ∷ ts) g = elim (Bool-cases (kept == t)) [
  | inl e ↦
      rw (e, IncreasesFrom)
        (drop_equal-IncreasesFrom kept ts
          (subst (λ k. GrowsFrom k ts) (sym ((==_iff kept t).0 e)) g.1))
  | inr e ↦ rw (e, IncreasesFrom) (ground arith, drop_equal-IncreasesFrom t ts g.1)
]

unique-IsIncreasing : (ts : List ℕ) → Grows ts → IsIncreasing (unique ts)
unfolding unique
unique-IsIncreasing [] g = tt
unique-IsIncreasing (t ∷ ts) g = drop_equal-IncreasesFrom t ts g

in-insert : (x t : ℕ) (ts : List ℕ) → is_in x (insert_time t ts) ≡ (x == t || is_in x ts)
in-insert x t [] = refl
in-insert x t (u ∷ us) = ground (arith, in-insert x t us)

in-sort : (x : ℕ) (ts : List ℕ) → is_in x (sort ts) ≡ is_in x ts
unfolding sort
in-sort x [] = refl
in-sort x (t ∷ ts) = in-insert x t (sort ts) ∙ ap (λ b. x == t || b) (in-sort x ts)

in-drop_equal :
    (x kept : ℕ) (ts : List ℕ)
    → (x == kept || is_in x (drop_equal kept ts)) ≡ (x == kept || is_in x ts)
in-drop_equal x kept [] = refl
in-drop_equal x kept (t ∷ ts) = ground (arith, in-drop_equal x kept ts, in-drop_equal x t ts)

in-unique : (x : ℕ) (ts : List ℕ) → is_in x (unique ts) ≡ is_in x ts
unfolding unique
in-unique x [] = refl
in-unique x (t ∷ ts) = in-drop_equal x t ts

in-append : (x : ℕ) (ts us : List ℕ) → is_in x (ts ++ us) ≡ (is_in x ts || is_in x us)
in-append x [] us = refl
in-append x (t ∷ ts) us = ground (arith, in-append x ts us)

or_regroup : (p q r s : Bool) → (((p || q) || r) || s) ≡ (p || ((q || r) || s))
or_regroup p q r s = ground arith

or_assoc : (p q r : Bool) → ((p || q) || r) ≡ (p || (q || r))
or_assoc p q r = ground arith

module _ {F : Type 0} where
  -- Some node of a request has a schedule with an entry of this time.
  abbrev mutual
    pub is_requested : ℕ → EnergyFlowRequest F → Bool
    is_requested x (node r children) =
        is_in x (request_times r.schedule_import)
        || is_in x (request_times r.schedule_export)
        || is_requested_by x children

    pub is_requested_by : ℕ → Forest (Request F) → Bool
    is_requested_by x leaf = false
    is_requested_by x (branch t more) = is_requested x t || is_requested_by x more

  mutual
    unfolding add_timestamps

    in-add_timestamps :
        (x : ℕ) (r : EnergyFlowRequest F) (ts : List ℕ)
        → is_in x (add_timestamps r ts) ≡ (is_in x ts || is_requested x r)
    in-add_timestamps x (node r children) ts =
        let a = request_times r.schedule_import in
        let b = request_times r.schedule_export in
        let h = in-add_all x children (ts ++ a ++ b) in
        let k = in-append x (ts ++ a) b in
        let l = in-append x ts a in
        rw (h, k, l) (or_regroup (is_in x ts) (is_in x a) (is_in x b) (is_requested_by x children))

    in-add_all :
        (x : ℕ) (f : Forest (Request F)) (ts : List ℕ)
        → is_in x (add_all_timestamps f ts) ≡ (is_in x ts || is_requested_by x f)
    in-add_all x leaf ts = ground arith
    in-add_all x (branch t more) ts =
        let h = in-add_all x more (add_timestamps t ts) in
        let k = in-add_timestamps x t ts in
        rw (h, k) (or_assoc (is_in x ts) (is_requested x t) (is_requested_by x more))

-- The times of the slots increase, and are exactly those that were there before the run, those of the
-- regular slots, and those of all entries of the request, wherever in its tree.
pub create_timestamps-IsIncreasing :
    {F : Type 0} (leap_seconds : ℕ → ℕ) (earlier : List ℕ)
    (start interval_duration schedule_length : ℕ) (request : EnergyFlowRequest F)
    → let times =
        create_timestamps leap_seconds earlier start interval_duration schedule_length request in
      let first = start - start % interval_duration + leap_seconds start in
      IsIncreasing times
      × ((x : ℕ)
          → is_in x times ≡ (
              is_in x earlier
              || is_in x (slots schedule_length first interval_duration)
              || is_requested x request))
unfolding create_timestamps
create_timestamps-IsIncreasing leap_seconds earlier start interval_duration schedule_length
      request =
    let first = start - start % interval_duration + leap_seconds start in
    let regular = slots schedule_length first interval_duration in
    let times = add_timestamps request (earlier ++ regular) in
    (
      unique-IsIncreasing (sort times) (sort-Grows times),
      λ x.
          in-unique x (sort times)
          ∙ in-sort x times
          ∙ in-add_timestamps x request (earlier ++ regular)
          ∙ ap (λ b. b || is_requested x request) (in-append x earlier regular),
    )
