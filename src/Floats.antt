-- ===== src/Floats.antt =====
-- The floating point arithmetic of the C++ compiler, which is no code of the repository: a carrier
-- that holds each double, its operations, and `narrow`, the rounding of a double that is stored in
-- a float. `lit m k` is the literal m / 10 ^ k.
use everest_core_dev.Common.{ℕ, Bool, false, true, ◌≡◌}

pub record Floats (F : Type 0) : Type 0 where
  pub lit : ℕ → ℕ → F
  pub lt : F → F → Bool
  pub le : F → F → Bool
  pub eq : F → F → Bool
  pub add : F → F → F
  pub neg : F → F
  pub mul : F → F → F
  pub div : F → F → F
  pub narrow : F → F

-- What IEEE 754 says of the order, for a carrier without NaN.
pub record IsOrdered {F : Type 0} (fl : Floats F) : Type 0 where
  pub le_refl : (a : F) → fl.le a a ≡ true
  pub le_trans : (a b c : F) → fl.le a b ≡ true → fl.le b c ≡ true → fl.le a c ≡ true
  pub lt→le : (a b : F) → fl.lt a b ≡ true → fl.le a b ≡ true
  pub le_of_not_lt : (a b : F) → fl.lt a b ≡ false → fl.le b a ≡ true
