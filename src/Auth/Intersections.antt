-- ===== src/Auth/Intersections.antt =====
-- The connectors that modules/Auth/lib/AuthHandler.cpp works with: `intersect` against membership,
-- and the referenced connectors.
use everest_core_dev.Auth.ConnectorMachine.{facts, is_unavailable-facts}
use everest_core_dev.Common.{
  not, none, Option, Bool, Bool-cases, ==_iff, ap, Option-cases, ℕ, ◌≤◌, ◌<◌, ◌≡◌, refl, ◌∙◌, true,
  false, ◌&&◌, ◌||◌, some, List, [], ◌∷◌, ◌==◌, arith, inl, inr,
}
use everest_core_dev.Common.Maps.{Map, lookup}
use everest_core_dev.Auth.Data.{ConnectorContext, AuthHandler, ProvidedIdToken, at}
use everest_core_dev.Auth.Selection.{
  member, insert_sorted, sort, set_intersection, intersect, is_usable, usable_of, all_usable,
  get_referenced_connectors,
}

abbrev All : (ℕ → Type 0) → List ℕ → Type 0
All P [] = Unit {0}
All P (x ∷ xs) = P x × All P xs

abbrev IsAscending : List ℕ → Type 0
IsAscending [] = Unit {0}
IsAscending (x ∷ xs) = All (λ y. x ≤ y) xs × IsAscending xs

All-mono : (a b : ℕ) (xs : List ℕ) → a ≤ b → All (λ y. b ≤ y) xs → All (λ y. a ≤ y) xs
All-mono a b [] h v = tt
All-mono a b (x ∷ xs) h v = (omega arith, All-mono a b xs h v.1)

insert_sorted-All :
    (a x : ℕ) (xs : List ℕ) → a ≤ x → All (λ y. a ≤ y) xs → All (λ y. a ≤ y) (insert_sorted x xs)
unfolding insert_sorted
insert_sorted-All a x [] h v = (h, tt)
insert_sorted-All a x (y ∷ ys) h v = ground (arith, insert_sorted-All a x ys h v.1)

insert_sorted-IsAscending :
    (x : ℕ) (xs : List ℕ) → IsAscending xs → IsAscending (insert_sorted x xs)
unfolding insert_sorted
insert_sorted-IsAscending x [] v = (tt, tt)
insert_sorted-IsAscending x (y ∷ ys) v =
    ground (arith, insert_sorted-IsAscending x ys v.1, insert_sorted-All y x ys, All-mono x y ys)

sort-IsAscending : (xs : List ℕ) → IsAscending (sort xs)
unfolding sort
sort-IsAscending [] = tt
sort-IsAscending (x ∷ xs) = insert_sorted-IsAscending x (sort xs) (sort-IsAscending xs)

member-insert_sorted :
    (x z : ℕ) (ys : List ℕ) → member z (insert_sorted x ys) ≡ (x == z || member z ys)
unfolding insert_sorted member
member-insert_sorted x z [] = refl
member-insert_sorted x z (y ∷ ys) = ground (arith, member-insert_sorted x z ys)

member-sort : (z : ℕ) (xs : List ℕ) → member z (sort xs) ≡ member z xs
unfolding sort member
member-sort z [] = refl
member-sort z (x ∷ xs) = ground (arith, member-insert_sorted x z (sort xs), member-sort z xs)

member-below : (z x : ℕ) (ys : List ℕ) → z < x → All (λ y. x ≤ y) ys → member z ys ≡ false
unfolding member
member-below z x [] h v = refl
member-below z x (y ∷ ys) h v = ground (arith, member-below z x ys h v.1)

member-set_intersection :
    (z : ℕ) (xs ys : List ℕ)
    → IsAscending xs
    → IsAscending ys
    → member z (set_intersection xs ys) ≡ (member z xs && member z ys)
unfolding set_intersection member
member-set_intersection z [] ys v w = refl
member-set_intersection z (x ∷ xs) [] v w = ground arith
member-set_intersection z (x ∷ xs) (y ∷ ys) v w = ground (
  arith,
  member-set_intersection z xs (y ∷ ys) v.1 w,
  member-set_intersection z (x ∷ xs) ys v w.1,
  member-set_intersection z xs ys v.1 w.1,
  member-below z x xs,
  member-below z y ys,
)

-- A connector is in the intersection of two lists, whatever their order, exactly if it is in both.
pub member-intersect :
    (z : ℕ) (a b : List ℕ) → member z (intersect a b) ≡ (member z a && member z b)
unfolding intersect
member-intersect z a b =
    member-set_intersection z (sort a) (sort b) (sort-IsAscending a) (sort-IsAscending b)
    ∙ (ground (arith, member-sort z a, member-sort z b))

-- The keys of a map rise.
abbrev pub IsAbove : ℕ → Map ConnectorContext → Type 0
IsAbove k [] = Unit {0}
IsAbove k ((j, c) ∷ m) = (k < j) × IsAbove j m

abbrev pub IsMap : Map ConnectorContext → Type 0
IsMap [] = Unit {0}
IsMap ((j, c) ∷ m) = IsAbove j m

-- A connector that exists and is not out of service.
abbrev pub in_service : Option ConnectorContext → Bool
in_service none = false
in_service (some c) = not (facts c.state).out_of_service

-- A token names all connectors, or those that it lists.
abbrev pub names : Option (List ℕ) → ℕ → Bool
names none id = true
names (some ids) id = member id ids

member-usable_of :
    (h : AuthHandler) (x : ℕ) (ids : List ℕ)
    → member x (usable_of h ids) ≡ (member x ids && in_service (at x h))
unfolding usable_of member
member-usable_of h x [] = refl
member-usable_of h x (id ∷ ids) = elim (Bool-cases (id == x)) [
  | inl e ↦
      (let same : id ≡ x = (==_iff id x).0 e in
        let usable : is_usable (at id h) ≡ in_service (at x h) =
          ap (λ i. is_usable (at i h)) same ∙ usable-in_service (at x h) in
        ground (arith, member-usable_of h x ids, usable))
  | inr e ↦ ground (arith, member-usable_of h x ids)
]
  where
    usable-in_service : (c : Option ConnectorContext) → is_usable c ≡ in_service c
    usable-in_service none = refl
    usable-in_service (some c) = ap not (is_unavailable-facts c.state)

IsAbove-IsMap : (k : ℕ) (m : Map ConnectorContext) → IsAbove k m → IsMap m
IsAbove-IsMap k [] v = tt
IsAbove-IsMap k ((j, c) ∷ m) v = v.1

lookup-above : (x k : ℕ) (m : Map ConnectorContext) → x ≤ k → IsAbove k m → lookup x m ≡ none
unfolding lookup
lookup-above x k [] h v = refl
lookup-above x k ((j, c) ∷ m) h v = ground (arith, lookup-above x j m (omega (arith, h, v.0)) v.1)

member-all_usable :
    (x : ℕ) (m : Map ConnectorContext) → IsMap m → member x (all_usable m) ≡ in_service (lookup x m)
unfolding all_usable lookup member
member-all_usable x [] v = refl
member-all_usable x ((j, c) ∷ m) v =
    let rest = member-all_usable x m (IsAbove-IsMap j m v) in
    let flag = is_unavailable-facts c.state in
    elim (Bool-cases (j == x)) [
      | inl e ↦
          (let gone = lookup-above x j m (omega (arith, (==_iff j x).0 e)) v in
            ground (arith, rest, flag, gone))
      | inr e ↦ ground (arith, rest, flag)
    ]

-- Over a well-formed map, the connectors that a token refers to are exactly those that exist, that it
-- names, and that are not out of service: `connectors.at` throws for none of them.
pub member-referenced :
    (token : ProvidedIdToken) (h : AuthHandler) (id : ℕ)
    → IsMap h.connectors
    → member id (get_referenced_connectors token h)
      ≡ (names token.connectors id && in_service (at id h))
unfolding get_referenced_connectors
member-referenced token h id v = elim (Option-cases token.connectors) [
  | inl all ↦ rw all (member-all_usable id h.connectors v)
  | inr (ids, some_ids) ↦ rw some_ids (member-usable_of h id ids)
]
