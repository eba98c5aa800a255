-- ===== src/Modbus/Frames.antt =====
-- The requests of modules/SerialCommHub/tiny_modbus_rtu.cpp. Buffers are lists of bytes; `junk` is
-- the content of memory that nothing was written to. `crc16` is calculate_modbus_crc16, a copy of
-- another project's function. The host is little-endian.
use everest_core_dev.Common.{
  ℕ, zero, suc, ◌+◌, ◌*◌, ◌/◌, ◌%◌, Bool, true, false, List, [], ◌∷◌, ◌++◌, length, ltb,
  if◌then◌else◌,
}

pub data FunctionCode : Type 0 where
  read_coils read_discrete_inputs read_multiple_holding_registers : FunctionCode
  read_input_registers write_single_coil write_single_holding_register : FunctionCode
  write_multiple_coils write_multiple_holding_registers : FunctionCode

unfoldable pub code : FunctionCode → ℕ
code read_coils = 1
code read_discrete_inputs = 2
code read_multiple_holding_registers = 3
code read_input_registers = 4
code write_single_coil = 5
code write_single_holding_register = 6
code write_multiple_coils = 15
code write_multiple_holding_registers = 16

unfoldable pub take : ℕ → List ℕ → List ℕ
take zero xs = []
take (suc n) [] = []
take (suc n) (x ∷ xs) = x ∷ take n xs

unfoldable pub drop : ℕ → List ℕ → List ℕ
drop zero xs = xs
drop (suc n) [] = []
drop (suc n) (x ∷ xs) = drop n xs

-- `htobe16` and a copy of the two bytes, for each register.
unfoldable pub be_bytes : List ℕ → List ℕ
be_bytes [] = []
be_bytes (r ∷ rs) = r / 256 ∷ r % 256 ∷ be_bytes rs

-- The two bytes of a checksum in the host's order.
abbrev pub le_bytes : ℕ → List ℕ
le_bytes sum = sum % 256 ∷ sum / 256 ∷ []

unfoldable pub append_checksum : (List ℕ → ℕ) → List ℕ → List ℕ → List ℕ
append_checksum crc16 junk msg =
    msg ++ (if ltb (length msg + 2) 5 then take 2 junk else le_bytes (crc16 msg))

abbrev pub is_write_multiple : FunctionCode → Bool
is_write_multiple write_multiple_holding_registers = true
is_write_multiple _ = false

-- What stands between the quantity and the checksum. A request with no registers has no byte
-- count: the checksum takes its place.
unfoldable pub request_data : FunctionCode → List ℕ → List ℕ → List ℕ
unfolding take be_bytes
request_data function junk [] = []
request_data function junk (r ∷ rs) =
    if is_write_multiple function
    then 2 * length (r ∷ rs) % 256 ∷ be_bytes (r ∷ rs)
    else take (2 * length (r ∷ rs) + 1) junk

-- The first half of `txrx`: the bytes that are written to the port.
unfoldable pub request_frame : (List ℕ → ℕ) → List ℕ → ℕ → FunctionCode → ℕ → ℕ → List ℕ → List ℕ
unfolding append_checksum request_data be_bytes code
request_frame crc16 junk device function address quantity request = append_checksum crc16 junk (
    device ∷ code function ∷ be_bytes (address ∷ quantity ∷ [])
    ++ request_data function junk request)
