-- ===== src/Slac/Means.antt =====
-- The attenuation that modules/EvseSlac sends after all sounds of a session, as the mean of each column
-- of what was heard.
use native.Mathlib.Nat.{div-lt_iff_lt-mul, mod-eq_of_lt}
use everest_core_dev.Common.{
  ℕ, zero, suc, ◌+◌, ◌*◌, ◌/◌, ◌%◌, ◌≤◌, ◌≡◌, refl, ap, ◌∙◌, true, false, List, [], ◌∷◌, length,
  arith, ◌==◌, ltb, map,
}
use everest_core_dev.Slac.Context.{Libslac, Context, send_atten_char_ind}
use everest_core_dev.Slac.Session.{
  MatchingSession, MatchingSubState, zeros, average, new_session, finalize_sounding,
}
use everest_core_dev.Slac.Matching.{add_aags, capture}
use everest_core_dev.Slac.Soundings.{AllAtMost}

abbrev head : List ℕ → ℕ
head [] = 0
head (x ∷ xs) = x

abbrev tail : List ℕ → List ℕ
tail [] = []
tail (x ∷ xs) = xs

abbrev heads : List (List ℕ) → ℕ
heads [] = 0
heads (z ∷ zs) = head z + heads zs

abbrev tails : List (List ℕ) → List (List ℕ)
tails [] = []
tails (z ∷ zs) = tail z ∷ tails zs

-- The sum of each of the first columns, divided by the number of sounds.
abbrev pub means : ℕ → ℕ → List (List ℕ) → List ℕ
means zero count zs = []
means (suc n) count zs = heads zs / count ∷ means n count (tails zs)

-- Every sound has this many attenuations, each a byte.
abbrev pub AreSounds : ℕ → List (List ℕ) → Type 0
AreSounds n [] = Unit
AreSounds n (z ∷ zs) = (length z ≡ n) × AllAtMost 255 z × AreSounds n zs

tails-AreSounds : (n : ℕ) (zs : List (List ℕ)) → AreSounds (suc n) zs → AreSounds n (tails zs)
tails-AreSounds n [] h = tt
tails-AreSounds n ([] ∷ zs) h = absurd (omega (arith, h.0))
tails-AreSounds n ((y ∷ ys) ∷ zs) h = (omega (arith, h.0), h.1.1, tails-AreSounds n zs h.2)

length-tails : (zs : List (List ℕ)) → length (tails zs) ≡ length zs
length-tails [] = refl
length-tails (z ∷ zs) = ap suc (length-tails zs)

heads-bound : (n : ℕ) (zs : List (List ℕ)) → AreSounds (suc n) zs → heads zs ≤ 255 * length zs
heads-bound n [] h = omega arith
heads-bound n ([] ∷ zs) h = absurd (omega (arith, h.0))
heads-bound n ((y ∷ ys) ∷ zs) h = omega (arith, h.1.0, heads-bound n zs h.2)

module _ (lib : Libslac) where
  abbrev add_all : List ℕ → List (List ℕ) → List ℕ
  add_all xs [] = xs
  add_all xs (z ∷ zs) = add_all (add_aags lib xs z) zs

  add_all-column :
      (n x : ℕ) (xs : List ℕ) (zs : List (List ℕ))
      → AreSounds (suc n) zs
      → add_all (x ∷ xs) zs ≡ (x + heads zs) ∷ add_all xs (tails zs)
  unfolding add_aags
  add_all-column n x xs [] h = let e : x ≡ x + 0 = omega arith in ap (λ y. y ∷ xs) e
  add_all-column n x xs ([] ∷ zs) h = absurd (omega (arith, h.0))
  add_all-column n x xs ((y ∷ ys) ∷ zs) h =
      let e : x + y + heads zs ≡ x + (y + heads zs) = omega arith in
      add_all-column n (x + y) (add_aags lib xs ys) zs h.2
      ∙ ap (λ w. w ∷ add_all (add_aags lib xs ys) (tails zs)) e

  add_all_nothing : (zs : List (List ℕ)) → add_all [] zs ≡ []
  unfolding add_aags
  add_all_nothing [] = refl
  add_all_nothing (z ∷ zs) = add_all_nothing zs

  quotient : (k sum : ℕ) → sum ≤ 255 * suc k → sum / suc k % 256 ≡ sum / suc k
  quotient k sum h =
      mod-eq_of_lt
        ((div-lt_iff_lt-mul {k = suc k} {x = sum} {y = 256} (omega arith)).1 (omega (arith, h)))

  columns-means :
      (n k : ℕ) (zs : List (List ℕ))
      → AreSounds n zs
      → length zs ≡ suc k
      → map (λ sum. sum / suc k % 256) (add_all (zeros n) zs) ≡ means n (suc k) zs
  unfolding zeros
  columns-means zero k zs h e = rw (add_all_nothing zs) refl
  columns-means (suc n) k zs h e =
      let bound : heads zs ≤ 255 * suc k = omega (arith, heads-bound n zs h, e) in
      let rest = columns-means n k (tails zs) (tails-AreSounds n zs h) (length-tails zs ∙ e) in
      let zero_first : 0 + heads zs ≡ heads zs = omega arith in
      rw (add_all-column n 0 (zeros n) zs h, zero_first, quotient k (heads zs) bound, rest) refl

  -- The profiles of a session's sounds, one after the other.
  abbrev pub listen : List (List ℕ) → MatchingSession → Context → MatchingSession × Context
  listen [] s ctx = (s, ctx)
  listen (aag ∷ more) s ctx = let (s', ctx') = capture lib aag s ctx in listen more s' ctx'

  listen-sums :
      (z : List ℕ) (zs : List (List ℕ)) (s : MatchingSession) (ctx : Context)
      → s.captured_sounds + suc (length zs) ≡ lib.cm_slac_parm_cnf_num_sounds
      → let heard : MatchingSession = record s {
        captured_sounds = s.captured_sounds + suc (length zs);
        captured_aags = add_all s.captured_aags (z ∷ zs);
      } in
        (listen (z ∷ zs) s ctx).1.out
        ≡ send_atten_char_ind s.ev_mac s.run_id heard.captured_sounds (average lib heard) ∷ ctx.out
  unfolding capture finalize_sounding
  listen-sums z [] s ctx e =
      let done : ltb (suc s.captured_sounds) lib.cm_slac_parm_cnf_num_sounds ≡ false =
        ground (arith, e) in
      let one : suc s.captured_sounds ≡ s.captured_sounds + 1 = omega arith in
      let heard : MatchingSession = record s {
        captured_sounds = suc s.captured_sounds;
        captured_aags = add_aags lib s.captured_aags z;
      } in
      let last : capture lib z s ctx ≡ finalize_sounding lib heard ctx = rw (done, capture) refl in
      ap (λ (a : MatchingSession × Context). a.1.out) last
      ∙ ap
          (λ n.
            let heard : MatchingSession = record s {
              captured_sounds = n;
              captured_aags = add_aags lib s.captured_aags z;
            } in
            send_atten_char_ind s.ev_mac s.run_id n (average lib heard) ∷ ctx.out)
          one
  listen-sums z (z2 ∷ zs) s ctx e =
      let more : ltb (suc s.captured_sounds) lib.cm_slac_parm_cnf_num_sounds ≡ true =
        ground (arith, e) in
      let next : MatchingSession = record s {
        captured_sounds = suc s.captured_sounds;
        captured_aags = add_aags lib s.captured_aags z;
      } in
      let count : suc s.captured_sounds + suc (length zs)
          ≡ s.captured_sounds + suc (suc (length zs)) =
        omega arith in
      let first : capture lib z s ctx ≡ (next, ctx) = rw (more, capture) refl in
      ap (λ (a : MatchingSession × Context). (listen (z2 ∷ zs) a.0 a.1).1.out) first
      ∙ listen-sums z2 zs next ctx (count ∙ e)
      ∙ ap
          (λ n.
            let heard : MatchingSession = record s {
              captured_sounds = n;
              captured_aags = add_all next.captured_aags (z2 ∷ zs);
            } in
            send_atten_char_ind s.ev_mac s.run_id n (average lib heard) ∷ ctx.out)
          count

-- Where at least one sound is asked for: a new session that sounds, and that hears as many sounds as
-- are asked for, each with an attenuation of one byte for every group, sends one indication, with the
-- number of sounds and, for each group, the mean of its attenuations in all sounds, rounded down.
pub listen-means :
    (lib : Libslac) (mac run_id : ℕ) (z : List ℕ) (zs : List (List ℕ)) (ctx : Context)
    → suc (length zs) ≡ lib.cm_slac_parm_cnf_num_sounds
    → AreSounds lib.aag_list_len (z ∷ zs)
    → let s : MatchingSession = record (new_session lib mac run_id) {
      state = MatchingSubState.sounding;
    } in
      (listen lib (z ∷ zs) s ctx).1.out
      ≡ send_atten_char_ind mac run_id
          (suc (length zs))
          (means lib.aag_list_len (suc (length zs)) (z ∷ zs))
        ∷ ctx.out
unfolding new_session average
listen-means lib mac run_id z zs ctx e h =
    let s : MatchingSession = record (new_session lib mac run_id) {
      state = MatchingSubState.sounding;
    } in
    let k = length zs in
    let some_heard : (suc k == 0) ≡ false = ground arith in
    let zero_first : 0 + suc k ≡ suc k = omega arith in
    listen-sums lib z zs s ctx (zero_first ∙ e)
    ∙ rw (zero_first, some_heard, columns-means lib lib.aag_list_len k (z ∷ zs) h refl) refl
