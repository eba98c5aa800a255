-- ===== src/Modbus/Scenarios.antt =====
-- A meter at the serial port of modules/SerialCommHub, and the theorems on its answers. A checksum
-- that adds the bytes stands for the real one.
use everest_core_dev.Common.{
  ◌≢◌, ℕ, ◌+◌, ◌%◌, ◌<◌, ◌≡◌, refl, true, false, List, [], ◌∷◌, ◌++◌, length, arith,
}
use everest_core_dev.Modbus.Frames.{
  FunctionCode, write_multiple_holding_registers, read_multiple_holding_registers, drop, be_bytes,
  request_frame,
}
use everest_core_dev.Modbus.Replies.{validate_checksum, registers, decode_reply, decode_payload}
use everest_core_dev.Modbus.Hub.{
  Port, chunk, quiet, handle_modbus_read_holding_registers, handle_modbus_write_multiple_registers,
}
use everest_core_dev.Modbus.Answers.{read_answer, write_answer, IsGenuine, decoded-IsGenuine}
use everest_core_dev.Modbus.Requests.{request-validates}
use everest_core_dev.Modbus.Commands.{read-returns, write-fails}

abbrev sum16 : List ℕ → ℕ
sum16 [] = 65535
sum16 (x ∷ xs) = (x + sum16 xs) % 65536

sum16_fits : (msg : List ℕ) → sum16 msg < 65536
sum16_fits [] = omega arith
sum16_fits (x ∷ xs) = omega arith

-- The meter answers a read request.
abbrev meter : Port
meter = record {
  ignore_echo = false;
  incoming = (chunk (read_answer sum16 1 (230 ∷ 16 ∷ [])) ∷ quiet ∷ []) ∷ [];
  sent = [];
  junk = [];
  num_resends_on_error = 3;
}

-- The meter answers two write requests.
abbrev relay : Port
relay = record {
  ignore_echo = false;
  incoming =
      (chunk (write_answer sum16 1 40 2) ∷ quiet ∷ [])
      ∷ (chunk (write_answer sum16 1 40 2) ∷ quiet ∷ [])
      ∷ [];
  sent = [];
  junk = [];
  num_resends_on_error = 2;
}

read-returns_example :
    let r = handle_modbus_read_holding_registers sum16 1 40 2 meter in
    (r.1 ≡ 230 ∷ 16 ∷ []) × (length r.0.sent ≡ 1)
unfolding be_bytes
read-returns_example =
    read-returns sum16 sum16_fits 1 40 2 2 230 (16 ∷ []) meter [] refl refl (omega arith) refl

write-fails_example :
    let r = handle_modbus_write_multiple_registers sum16 1 40 (7 ∷ 8 ∷ []) relay in
    (r.1 ≡ false) × (length r.0.sent ≡ 2)
unfolding be_bytes
write-fails_example =
    write-fails sum16 1 40 (7 ∷ 8 ∷ []) relay (omega arith) (omega arith) refl (refl, (refl, tt))

request-validates_example :
    ((function : FunctionCode) (request rest : List ℕ)
      → let f = request_frame sum16 [] 1 function 40 2 request in
        validate_checksum sum16 (f ++ rest) (length f) ≡ true)
    × ((r : ℕ) (rs : List ℕ)
        → registers
            (length (r ∷ rs))
            (drop 7 (request_frame sum16 [] 1 write_multiple_holding_registers 40 2 (r ∷ rs)))
          ≡ r ∷ rs)
request-validates_example = request-validates sum16 sum16_fits [] 1 40 2

decoded-IsGenuine_example :
    let buf = read_answer sum16 1 (230 ∷ []) in
    (decode_reply sum16 buf 7 1 read_multiple_holding_registers ≢ []
      → IsGenuine sum16 buf 7 1 read_multiple_holding_registers)
    × (IsGenuine sum16 buf 7 1 read_multiple_holding_registers
        → decode_reply sum16 buf 7 1 read_multiple_holding_registers
          ≡ decode_payload buf 7 read_multiple_holding_registers)
unfolding be_bytes drop
decoded-IsGenuine_example =
    decoded-IsGenuine sum16 (read_answer sum16 1 (230 ∷ [])) 7 1 read_multiple_holding_registers
      (omega arith) (omega arith)
