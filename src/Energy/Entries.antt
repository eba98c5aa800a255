-- ===== src/Energy/Entries.antt =====
-- Which entry of a request holds at a time, in modules/EnergyManager/Market.cpp.
use everest_core_dev.Common.{
  ℕ, ◌≤◌, ◌<◌, ◌≡◌, refl, sym, ap, ◌∙◌, Bool, true, false, ◌&&◌, ◌||◌, Option, none, some, List, [],
  ◌∷◌, leb, ltb, if◌then◌else◌, arith, inl, inr, Bool-cases, Option-cases,
}
use everest_core_dev.Floats.{Floats}
use everest_core_dev.Energy.{ScheduleReqEntry, times_of}
use everest_core_dev.Energy.Market.{find_entry}
use everest_core_dev.Energy.Times.{IncreasesFrom, IsIncreasing}

module _ {F : Type 0} where
  -- The last entry that is not after a time.
  abbrev pub last_until : ℕ → List (ScheduleReqEntry F) → Option (ScheduleReqEntry F)
  last_until t [] = none
  last_until t (r ∷ rs) = elim (last_until t rs) [
    | some e ↦ some e
    | none ↦ if leb r.timestamp t then some r else none
  ]

  abbrev or_first : Option (ScheduleReqEntry F) → ScheduleReqEntry F → Option (ScheduleReqEntry F)
  or_first none r = some r
  or_first (some e) r = some e

  -- The entry in force: the first one holds before its time too.
  abbrev pub in_force : ℕ → List (ScheduleReqEntry F) → Option (ScheduleReqEntry F)
  in_force t [] = none
  in_force t (r ∷ rs) = or_first (last_until t (r ∷ rs)) r

  none_until :
      (t : ℕ) (r : ScheduleReqEntry F) (rs : List (ScheduleReqEntry F))
      → t < r.timestamp
      → IncreasesFrom r.timestamp (times_of rs)
      → last_until t (r ∷ rs) ≡ none
  none_until t r [] h inc = ground arith
  none_until t r (r2 ∷ rs) h inc =
      let later = none_until t r2 rs (omega (arith, h, inc.0)) inc.1 in rw later (ground arith)

  some_until :
      (t : ℕ) (r : ScheduleReqEntry F) (rs : List (ScheduleReqEntry F))
      → leb r.timestamp t ≡ true
      → (e : ScheduleReqEntry F) × (last_until t (r ∷ rs) ≡ some e)
  some_until t r rs h = elim (Option-cases (last_until t rs)) [
    | inl e ↦ (r, rw (e, h) refl)
    | inr (q, e) ↦ (q, rw e refl)
  ]

  module _ (fl : Floats F) where
    find_reached :
        (first : Bool) (t : ℕ) (r : ScheduleReqEntry F) (rs : List (ScheduleReqEntry F))
        → r.timestamp ≤ t
        → IncreasesFrom r.timestamp (times_of rs)
        → find_entry fl first t (r ∷ rs) ≡ last_until t (r ∷ rs)
    unfolding find_entry
    find_reached first t r [] h inc = ground arith
    find_reached first t r (r2 ∷ rs) h inc = elim (Bool-cases (leb r2.timestamp t)) [
      | inl e ↦
          (let rest = find_reached false t r2 rs (ground arith) inc.1 in
            let (q, is_q) = some_until t r2 rs e in
            let not_here : (leb r.timestamp t && ltb t r2.timestamp || first && ltb t r.timestamp)
                ≡ false =
              ground arith in
            rw (not_here, find_entry) (rest ∙ is_q ∙ sym (rw is_q refl)))
      | inr e ↦
          (let later = none_until t r2 rs (ground arith) inc.1 in
            let here : (leb r.timestamp t && ltb t r2.timestamp || first && ltb t r.timestamp)
                ≡ true =
              ground arith in
            let is_r : last_until t (r ∷ r2 ∷ rs) ≡ some r = rw later (ground arith) in
            rw (here, find_entry) (sym is_r))
    ]

    find_first :
        (t : ℕ) (r : ScheduleReqEntry F) (rs : List (ScheduleReqEntry F))
        → t < r.timestamp
        → find_entry fl true t (r ∷ rs) ≡ some r
    unfolding find_entry
    find_first t r [] h = refl
    find_first t r (r2 ∷ rs) h =
        let here : (leb r.timestamp t && ltb t r2.timestamp || true && ltb t r.timestamp) ≡ true =
          ground arith in
        rw (here, find_entry) refl

    -- In a schedule whose times increase, the entry that is found for a time is the last one that is
    -- not after it, or the first one where all are.
    pub find_entry-in_force :
        (t : ℕ) (rs : List (ScheduleReqEntry F)) (inc : IsIncreasing (times_of rs))
        → find_entry fl true t rs ≡ in_force t rs
    unfolding find_entry
    find_entry-in_force t [] inc = refl
    find_entry-in_force t (r ∷ rs) inc = elim (Bool-cases (leb r.timestamp t)) [
      | inl e ↦
          (let (q, is_q) = some_until t r rs e in
            find_reached true t r rs (ground arith) inc ∙ is_q ∙ sym (ap (λ o. or_first o r) is_q))
      | inr e ↦
          (let later = none_until t r rs (ground arith) inc in
            find_first t r rs (ground arith) ∙ sym (ap (λ o. or_first o r) later))
    ]
