-- ===== src/Modbus/Buffers.antt =====
-- Parts of the buffers of modules/SerialCommHub/tiny_modbus_rtu.cpp, and their checksums.
use everest_core_dev.Common.{
  ℕ, ◌+◌, ◌-◌, ◌*◌, ◌<◌, ◌≤◌, ◌≡◌, refl, ap, true, false, List, [], ◌∷◌, ◌++◌, length, ltb, arith,
}
use everest_core_dev.Modbus.Frames.{take, drop, be_bytes, le_bytes, append_checksum}
use everest_core_dev.Modbus.Replies.{validate_checksum, registers}

pub drop-append : (a b : List ℕ) → drop (length a) (a ++ b) ≡ b
unfolding drop
drop-append [] b = refl
drop-append (x ∷ a) b = drop-append a b

pub take-append : (a b : List ℕ) → take (length a) (a ++ b) ≡ a
unfolding take
take-append [] b = refl
take-append (x ∷ a) b = ap (λ xs. x ∷ xs) (take-append a b)

pub append_assoc : (a b c : List ℕ) → (a ++ b) ++ c ≡ a ++ (b ++ c)
append_assoc [] b c = refl
append_assoc (x ∷ a) b c = ap (λ xs. x ∷ xs) (append_assoc a b c)

-- Numbers below a bound.
abbrev pub AllBelow : ℕ → List ℕ → Type 0
AllBelow bound [] = Unit {0}
AllBelow bound (r ∷ rs) = (r < bound) × AllBelow bound rs

pub registers-be_bytes : (rs rest : List ℕ) → registers (length rs) (be_bytes rs ++ rest) ≡ rs
unfolding registers be_bytes
registers-be_bytes [] rest = refl
registers-be_bytes (r ∷ rs) rest = ground (arith, registers-be_bytes rs rest)

pub length-be_bytes : (rs : List ℕ) → length (be_bytes rs) ≡ 2 * length rs
unfolding be_bytes
length-be_bytes [] = omega arith
length-be_bytes (r ∷ rs) = omega (arith, length-be_bytes rs)

module _ (crc16 : List ℕ → ℕ) (fits : (msg : List ℕ) → crc16 msg < 65536) where
  -- A message with its checksum passes the test, whatever follows in the buffer.
  pub validate-checksummed :
      (msg rest : List ℕ)
      → 3 ≤ length msg
      → validate_checksum crc16 ((msg ++ le_bytes (crc16 msg)) ++ rest) (length msg + 2) ≡ true
  unfolding validate_checksum
  validate-checksummed msg rest long =
      let sum = le_bytes (crc16 msg) in
      let back : length msg + 2 - 2 ≡ length msg = omega arith in
      let long_enough : ltb (length msg + 2) 5 ≡ false = ground arith in
      rw
        (
          long_enough,
          back,
          append_assoc msg sum rest,
          drop-append msg (sum ++ rest),
          take-append msg (sum ++ rest),
        )
        (let small = fits msg in ground arith)

  pub append_checksum_long :
      (junk msg : List ℕ)
      → 3 ≤ length msg
      → append_checksum crc16 junk msg ≡ msg ++ le_bytes (crc16 msg)
  unfolding append_checksum
  append_checksum_long junk msg long =
      let long_enough : ltb (length msg + 2) 5 ≡ false = ground arith in rw long_enough refl
