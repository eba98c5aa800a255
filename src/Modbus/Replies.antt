-- ===== src/Modbus/Replies.antt =====
-- The replies of modules/SerialCommHub/tiny_modbus_rtu.cpp.
use everest_core_dev.Common.{
  ℕ, suc, ◌+◌, ◌-◌, ◌*◌, ◌/◌, ◌%◌, Bool, false, not, ◌||◌, List, [], ◌∷◌, ltb, ◌==◌, if◌then◌else◌,
}
use everest_core_dev.Modbus.Frames.{
  FunctionCode, code, read_coils, read_discrete_inputs, read_multiple_holding_registers,
  read_input_registers, take, drop,
}

abbrev pub first_byte : List ℕ → ℕ
first_byte [] = 0
first_byte (x ∷ xs) = x

-- `buf[i]`; every index that is read lies within the buffer.
abbrev pub byte_at : ℕ → List ℕ → ℕ
byte_at i buf = first_byte (drop i buf)

-- The highest bit of the byte.
unfoldable pub check_for_exception : ℕ → Bool
check_for_exception received = received / 128 % 2 == 1

unfoldable pub clear_exception_bit : ℕ → ℕ
clear_exception_bit received = received / 256 * 256 + received % 128

abbrev pub le_value : List ℕ → ℕ
le_value (low ∷ high ∷ rest) = low + 256 * high
le_value _ = 0

unfoldable pub validate_checksum : (List ℕ → ℕ) → List ℕ → ℕ → Bool
validate_checksum crc16 msg msg_len =
    if ltb msg_len 5
    then false
    else le_value (drop (msg_len - 2) msg) == crc16 (take (msg_len - 2) msg)

-- The loop that copies registers, each of two bytes.
unfoldable pub registers : ℕ → List ℕ → List ℕ
registers (suc n) (high ∷ low ∷ rest) = (256 * high + low) ∷ registers n rest
registers _ _ = []

-- The last operand of the source's test is the constant itself.
unfoldable pub is_read_reply : FunctionCode → Bool
unfolding code
is_read_reply function =
    code function == code read_coils
    || code function == code read_discrete_inputs
    || code function == code read_multiple_holding_registers
    || not (code read_input_registers == 0)

-- `byte_cnt` and `start_of_result`.
abbrev pub byte_cnt : FunctionCode → List ℕ → ℕ
byte_cnt function buf = if is_read_reply function then byte_at 2 buf else 4

abbrev pub start_of_result : FunctionCode → ℕ
start_of_result function = if is_read_reply function then 3 else 2

-- A reply with a correct checksum that is no exception.
unfoldable pub decode_payload : List ℕ → ℕ → FunctionCode → List ℕ
decode_payload buf len function =
    if ltb len (start_of_result function + byte_cnt function buf)
    then []
    else registers ((byte_cnt function buf + 1) / 2) (drop (start_of_result function) buf)

-- The empty list stands for every failure.
unfoldable pub decode_reply : (List ℕ → ℕ) → List ℕ → ℕ → ℕ → FunctionCode → List ℕ
unfolding check_for_exception clear_exception_bit decode_payload validate_checksum code
decode_reply crc16 buf len expected_device_address function =
    let received = byte_at 1 buf in
    let exception = check_for_exception received in
    let function_code = if exception then clear_exception_bit received else received in
    if ltb len 5
    then []
    else if not (expected_device_address == byte_at 0 buf)
    then []
    else if not (code function == function_code)
    then []
    else if not (validate_checksum crc16 buf len)
    then []
    else if exception
    then []
    else decode_payload buf len function
