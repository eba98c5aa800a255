-- ===== src/Slac/Places.antt =====
-- The sessions of modules/EvseSlac/main/states as a whole: each has an identity of its own, and what
-- holds of all of them when one is replaced.
use everest_core_dev.Common.{
  ℕ, ◌≡◌, ◌∙◌, Bool, false, none, some, List, [], ◌∷◌, ◌++◌, arith, inl, inr, Bool-cases,
  Option-cases,
}
use everest_core_dev.Slac.Session.{MatchingSession, is_identified_by}
use everest_core_dev.Slac.Matching.{Place, find_session, find_last}

-- The second session is identified as the first.
abbrev pub is_same : MatchingSession → MatchingSession → Bool
is_same s t = is_identified_by s.ev_mac s.run_id t

abbrev pub AllOther : MatchingSession → List MatchingSession → Type 0
AllOther s [] = Unit {0}
AllOther s (t ∷ more) = (is_same s t ≡ false) × AllOther s more

abbrev pub IsDistinct : List MatchingSession → Type 0
IsDistinct [] = Unit {0}
IsDistinct (s ∷ more) = AllOther s more × IsDistinct more

abbrev pub AllOf : (MatchingSession → Type 0) → List MatchingSession → Type 0
AllOf P [] = Unit {0}
AllOf P (s ∷ more) = P s × AllOf P more

pub AllOf-map :
    (P Q : MatchingSession → Type 0) (sessions : List MatchingSession)
    → ((s : MatchingSession) → P s → Q s)
    → AllOf P sessions
    → AllOf Q sessions
AllOf-map P Q [] f h = tt
AllOf-map P Q (s ∷ more) f h = (f s h.0, AllOf-map P Q more f h.1)

pub is_same_sym : (s t : MatchingSession) → is_same s t ≡ is_same t s
is_same_sym s t = ground arith

module _ (found s' : MatchingSession) (mac : s'.ev_mac ≡ found.ev_mac)
    (run : s'.run_id ≡ found.run_id) where
  other_to : (t : MatchingSession) → is_same t found ≡ false → is_same t s' ≡ false
  other_to t h = rw (mac, run) h

  other_from : (t : MatchingSession) → is_same found t ≡ false → is_same s' t ≡ false
  other_from t h = rw (mac, run) h

  AllOther-from : (after : List MatchingSession) → AllOther found after → AllOther s' after
  AllOther-from [] h = tt
  AllOther-from (t ∷ after) h = (other_from t h.0, AllOther-from after h.1)

  AllOther-replace :
      (b : MatchingSession) (before after : List MatchingSession)
      → AllOther b (before ++ found ∷ after)
      → AllOther b (before ++ s' ∷ after) × (is_same found b ≡ false)
  AllOther-replace b [] after h = ((other_to b h.0, h.1), is_same_sym found b ∙ h.0)
  AllOther-replace b (t ∷ before) after h =
      let ih = AllOther-replace b before after h.1 in ((h.0, ih.0), ih.1)

  module _ (P Q : MatchingSession → Type 0) (new : Q s')
      (keep : (t : MatchingSession) → is_same found t ≡ false → P t → Q t) where
    keep_after :
        (after : List MatchingSession) → AllOther found after → AllOf P after → AllOf Q after
    keep_after [] o h = tt
    keep_after (t ∷ after) o h = (keep t o.0 h.0, keep_after after o.1 h.1)

    -- A session that is replaced by one of the same identity.
    pub replace-AllOf :
        (before after : List MatchingSession)
        → IsDistinct (before ++ found ∷ after)
        → AllOf P (before ++ found ∷ after)
        → IsDistinct (before ++ s' ∷ after) × AllOf Q (before ++ s' ∷ after)
    replace-AllOf [] after d h = ((AllOther-from after d.0, d.1), (new, keep_after after d.0 h.1))
    replace-AllOf (b ∷ before) after d h =
        let other = AllOther-replace b before after d.0 in
        let ih = replace-AllOf before after d.1 h.1 in ((other.0, ih.0), (keep b other.1 h.0, ih.1))

-- No session has the identity.
abbrev pub AllStrange : ℕ → ℕ → List MatchingSession → Type 0
AllStrange mac run_id [] = Unit {0}
AllStrange mac run_id (t ∷ more) =
    (is_identified_by mac run_id t ≡ false) × AllStrange mac run_id more

AllOther-append :
    (b fresh : MatchingSession) (sessions : List MatchingSession)
    → AllOther b sessions
    → is_same b fresh ≡ false
    → AllOther b (sessions ++ fresh ∷ [])
AllOther-append b fresh [] h e = (e, tt)
AllOther-append b fresh (t ∷ sessions) h e = (h.0, AllOther-append b fresh sessions h.1 e)

module _ (fresh : MatchingSession) (P Q : MatchingSession → Type 0) (new : Q fresh)
    (keep : (t : MatchingSession) → is_same fresh t ≡ false → P t → Q t) where
  -- A session of a new identity at the end.
  pub append-AllOf :
      (sessions : List MatchingSession)
      → AllStrange fresh.ev_mac fresh.run_id sessions
      → IsDistinct sessions
      → AllOf P sessions
      → IsDistinct (sessions ++ fresh ∷ []) × AllOf Q (sessions ++ fresh ∷ [])
  append-AllOf [] strange d h = ((tt, tt), (new, tt))
  append-AllOf (b ∷ sessions) strange d h =
      let ih = append-AllOf sessions strange.1 d.1 h.1 in
      (
        (AllOther-append b fresh sessions d.0 (is_same_sym b fresh ∙ strange.0), ih.0),
        (keep b strange.0 h.0, ih.1),
      )

-- What `find_session` finds.
pub find_session-some :
    (mac run_id : ℕ) (sessions : List MatchingSession) (place : Place)
    → find_session mac run_id sessions ≡ some place
    → (sessions ≡ place.0 ++ place.1 ∷ place.2) × (place.1.ev_mac ≡ mac) × (place.1.run_id ≡ run_id)
unfolding find_session
find_session-some mac run_id [] place e = cc
find_session-some mac run_id (s ∷ more) place e =
    elim (Bool-cases (is_identified_by mac run_id s)) [
      | inl here ↦ ground arith
      | inr there ↦ elim (Option-cases (find_session mac run_id more)) [
        | inl none_later ↦ ground arith
        | inr (later, found) ↦
            let ih = find_session-some mac run_id more later found in ground arith
      ]
    ]

pub find_session-none :
    (mac run_id : ℕ) (sessions : List MatchingSession)
    → find_session mac run_id sessions ≡ none
    → AllStrange mac run_id sessions
unfolding find_session
find_session-none mac run_id [] e = tt
find_session-none mac run_id (s ∷ more) e = elim (Bool-cases (is_identified_by mac run_id s)) [
  | inl here ↦ ground arith
  | inr there ↦ elim (Option-cases (find_session mac run_id more)) [
    | inl none_later ↦ (there, find_session-none mac run_id more none_later)
    | inr (later, found) ↦ ground arith
  ]
]

pub find_last-some :
    (mac : ℕ) (sessions : List MatchingSession) (place : Place)
    → find_last mac sessions ≡ some place
    → sessions ≡ place.0 ++ place.1 ∷ place.2
unfolding find_last
find_last-some mac [] place e = cc
find_last-some mac (s ∷ more) place e = elim (Option-cases (find_last mac more)) [
  | inl none_later ↦ ground arith
  | inr (later, found) ↦ let ih = find_last-some mac more later found in ground arith
]
