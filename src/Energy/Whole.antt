-- ===== src/Energy/Whole.antt =====
-- Whole numbers as the amounts of modules/EnergyManager: their arithmetic does not round.
use Prim.Native.Nat.{◌/◌, ◌*◌}
use native.Mathlib.Nat.{
  mul-le-mul_right, div-mul-le_self, div-lt_iff_lt-mul, mul-le-mul_right, mul_right_comm,
}
use everest_core_dev.Common.{
  ℕ, ◌+◌, ◌-◌, ◌^◌, ◌≤◌, ◌<◌, ◌≡◌, refl, zero, suc, true, arith, ltb, leb, ◌==◌, if◌then◌else◌,
}
use everest_core_dev.Floats.{Floats, IsOrdered}
use everest_core_dev.Energy.Market.{plus, times, over}
use everest_core_dev.Energy.Broker.{power, share}
use everest_core_dev.Energy.Amounts.{IsExact}

-- `negsuc n` is -(n + 1).
pub data ℤ : Type 0 where
  pos : ℕ → ℤ
  negsuc : ℕ → ℤ

abbrev pub pos_part : ℤ → ℕ
pos_part (pos n) = n
pos_part (negsuc n) = 0

abbrev pub neg_part : ℤ → ℕ
neg_part (pos n) = 0
neg_part (negsuc n) = suc n

abbrev pub sub_ℕ : ℕ → ℕ → ℤ
sub_ℕ a b = if leb b a then pos (a - b) else negsuc (b - a - 1)

abbrev pub negate : ℤ → ℤ
negate a = sub_ℕ (neg_part a) (pos_part a)

abbrev pub whole : Floats ℤ
whole = record {
  lit = λ m k. pos (m / 10 ^ k);
  lt = λ a b. ltb (pos_part a + neg_part b) (pos_part b + neg_part a);
  le = λ a b. leb (pos_part a + neg_part b) (pos_part b + neg_part a);
  eq = λ a b. (pos_part a + neg_part b) == (pos_part b + neg_part a);
  add = λ a b. sub_ℕ (pos_part a + pos_part b) (neg_part a + neg_part b);
  neg = negate;
  mul = λ a b. sub_ℕ (pos_part a * pos_part b) (neg_part a * pos_part b);
  div = λ a b. pos (pos_part a / pos_part b);
  narrow = λ a. a;
}

whole-IsOrdered : IsOrdered whole
whole-IsOrdered = record {
  le_refl = λ a. ground arith;
  le_trans = λ a b c h k. ground arith;
  lt→le = λ a b h. ground arith;
  le_of_not_lt = λ a b h. ground arith;
}

-- A power as a whole number.
abbrev scaled : ℤ → ℕ → ℤ
scaled a q =
    let b = sub_ℕ (pos_part a * q) (neg_part a * q) in sub_ℕ (pos_part b * 230) (neg_part b * 230)

scaled_neg : (a : ℤ) (q : ℕ) → scaled (negate a) q ≡ negate (scaled a q)
scaled_neg (pos zero) q = ground arith
scaled_neg (pos (suc n)) q = ground arith
scaled_neg (negsuc n) q = ground arith

scaled_pos : (n q : ℕ) → scaled (pos n) q ≡ pos (n * q * 230)
scaled_pos n q = ground arith

share_lem : (w q : ℕ) → w / q / 230 * q * 230 ≤ w
share_lem w q =
    let below = div-mul-le_self (w / q) 230 in
    let whole_q = div-mul-le_self w q in
    let scaled_below = mul-le-mul_right q below in
    let order = mul_right_comm (w / q / 230) q 230 in omega (arith, whole_q, scaled_below, order)

share_below : (w a q : ℕ) → w < a * q * 230 → w / q / 230 ≤ a
share_below w a zero h = omega arith
share_below w a (suc q) h =
    let order = mul_right_comm a (suc q) 230 in
    let positive : 0 < suc q = omega arith in
    let volts : 0 < 230 = omega arith in
    let current = (div-lt_iff_lt-mul {x = w} {y = a * 230} positive).1 (omega (arith, order, h)) in
    let less = (div-lt_iff_lt-mul {x = w / suc q} {y = a} volts).1 current in omega (arith, less)

scaled_nonneg : (a : ℤ) (q : ℕ) → whole.le (pos 0) a ≡ true → whole.le (pos 0) (scaled a q) ≡ true
scaled_nonneg (pos n) q h = rw (scaled_pos n q) (ground arith)
scaled_nonneg (negsuc n) q h = ground arith

scaled_share :
    (w : ℤ) (q : ℕ)
    → whole.le (pos 0) w ≡ true
    → whole.le (scaled (pos (pos_part w / q / 230)) q) w ≡ true
scaled_share w q h =
    let less = share_lem (pos_part w) q in
    rw (scaled_pos (pos_part w / q / 230) q) (ground (arith, less))

below_scaled :
    (w a : ℤ) (q : ℕ)
    → whole.le (pos 0) w ≡ true
    → whole.lt w (scaled a q) ≡ true
    → whole.le (pos (pos_part w / q / 230)) a ≡ true
below_scaled (pos w) (pos a) q h l =
    let less = share_below w a q (let l2 = (rw (scaled_pos a q) at l) in ground arith) in
    ground (arith, less)
below_scaled (pos w) (negsuc a) q h l = ground arith
below_scaled (negsuc w) a q h l = ground arith

pub whole-IsExact : IsExact whole (pos 230)
unfolding plus times over power share
whole-IsExact = record {
  ordered = whole-IsOrdered;
  lt_of_not_le = λ a b h. ground arith;
  plus_zero = λ a. ground arith;
  plus_comm = λ a b. ground arith;
  plus_nonneg = λ a s h. ground arith;
  plus_nonpos = λ a s h. ground arith;
  add_of_sub = λ a m s h. ground arith;
  sub_of_add = λ a e s h. ground arith;
  sub_nonneg = λ m s h. ground arith;
  add_nonneg = λ e s h. ground arith;
  neg_neg = λ a. ground arith;
  neg_anti = λ a b h. ground arith;
  neg_zero = refl;
  power_neg = λ a p. scaled_neg a (p / 1);
  power_nonneg = λ a p h. scaled_nonneg a (p / 1) h;
  share_nonneg = λ w p h. ground arith;
  power-share = λ w p h. scaled_share w (p / 1) h;
  share_le = λ w a p h l. below_scaled w a (p / 1) h l;
}
