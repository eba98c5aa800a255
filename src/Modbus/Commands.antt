-- ===== src/Modbus/Commands.antt =====
-- The commands of modules/SerialCommHub/main/serial_communication_hubImpl.cpp with a device that
-- answers as the Modbus protocol defines.
use everest_core_dev.Common.{
  map, ℕ, zero, suc, ◌+◌, ◌%◌, ◌^◌, ◌<◌, ◌≤◌, ◌≡◌, refl, ap, ◌∙◌, true, false, List, [], ◌∷◌, ◌++◌,
  length, leb, arith,
}
use everest_core_dev.Modbus.Frames.{
  FunctionCode, write_multiple_holding_registers, read_multiple_holding_registers, be_bytes,
}
use everest_core_dev.Modbus.Replies.{decode_reply}
use everest_core_dev.Modbus.Hub.{
  Port, Arrival, chunk, quiet, read_reply, receive, txrx, resend, next_arrivals, later_arrivals,
  is_nonempty, handle_modbus_read_holding_registers, handle_modbus_write_multiple_registers,
}
use everest_core_dev.Modbus.Answers.{
  read_answer, write_answer, decode-read_answer, decode-write_answer, length-read_answer,
}

receive_all :
    (crc16 : List ℕ → ℕ) (device : ℕ) (function : FunctionCode) (junk bytes : List ℕ)
    (more : List Arrival)
    → length bytes ≤ 261
    → receive crc16 device function junk (chunk bytes ∷ quiet ∷ more)
      ≡ decode_reply crc16 (bytes ++ junk) (length bytes) device function
unfolding receive read_reply
receive_all crc16 device function junk bytes more short =
    let fits_in : leb (length bytes) 261 ≡ true = ground arith in rw fits_in refl

-- Every answer that comes is that of the device to a write request, in one piece.
abbrev pub AllWritten : (List ℕ → ℕ) → ℕ → ℕ → ℕ → List (List Arrival) → Type 0
AllWritten crc16 device address quantity [] = Unit {0}
AllWritten crc16 device address quantity (arrivals ∷ later) =
    (arrivals ≡ chunk (write_answer crc16 device address quantity) ∷ quiet ∷ [])
    × AllWritten crc16 device address quantity later

length-map : (f : ℕ → ℕ) (xs : List ℕ) → length (map f xs) ≡ length xs
length-map f [] = refl
length-map f (x ∷ xs) = ap suc (length-map f xs)

module _ (crc16 : List ℕ → ℕ) where
  received :
      (device address quantity : ℕ) (junk : List ℕ) (incoming : List (List Arrival))
      → address < 256
      → AllWritten crc16 device address quantity incoming
      → receive crc16 device write_multiple_holding_registers junk (next_arrivals incoming) ≡ []
  unfolding receive read_reply decode_reply be_bytes
  received device address quantity junk [] low v = refl
  received device address quantity junk (arrivals ∷ later) low v = rw v.0 (
      receive_all crc16 device write_multiple_holding_registers junk
        (write_answer crc16 device address quantity) [] (omega arith)
      ∙ decode-write_answer crc16 device address quantity junk low)

  AllWritten-later :
      (device address quantity : ℕ) (incoming : List (List Arrival))
      → AllWritten crc16 device address quantity incoming
      → AllWritten crc16 device address quantity (later_arrivals incoming)
  AllWritten-later device address quantity [] v = v
  AllWritten-later device address quantity (arrivals ∷ later) v = v.1

  resend_written :
      (n device address quantity : ℕ) (request : List ℕ) (port : Port)
      → address < 256
      → port.ignore_echo ≡ false
      → AllWritten crc16 device address quantity port.incoming
      → let r =
          resend crc16 n device write_multiple_holding_registers address quantity request port in
        (r.1 ≡ []) × (length r.0.sent ≡ n + length port.sent)
  unfolding resend txrx
  resend_written zero device address quantity request port low e v = (refl, omega arith)
  resend_written (suc n) device address quantity request port low e v =
      let next = txrx crc16 device write_multiple_holding_registers address quantity request port in
      let ih =
        resend_written n device address quantity request next.0 low e
          (AllWritten-later device address quantity port.incoming v) in
      ground (arith, received device address quantity port.junk port.incoming low v, ih.0, ih.1)

  -- If a device answers every write request of a command to a register address below 256 as the
  -- protocol defines, in one piece, the command sends its request as often as it may and reports
  -- an error. The port does not ignore an echo, and the address and the number of values fit in 16
  -- bits.
  pub write-fails :
      (target address : ℕ) (values : List ℕ) (port : Port)
      → address < 256
      → length values < 2 ^ 16
      → port.ignore_echo ≡ false
      → AllWritten crc16 (target % 2 ^ 8) address (length values) port.incoming
      → let r = handle_modbus_write_multiple_registers crc16 target address values port in
        (r.1 ≡ false) × (length r.0.sent ≡ port.num_resends_on_error + length port.sent)
  unfolding handle_modbus_write_multiple_registers
  write-fails target address values port low few e v =
      let data_sent = map (λ r. r % 2 ^ 16) values in
      let whole_address : address % 2 ^ 16 ≡ address = omega arith in
      let whole_length : length values % 2 ^ 16 ≡ length values = omega arith in
      let failed =
        resend_written port.num_resends_on_error (target % 2 ^ 8) address (length values) data_sent
          port low e v in
      rw (length-map (λ r. r % 2 ^ 16) values, whole_address, whole_length)
        (ap is_nonempty failed.0, failed.1)

module _ (crc16 : List ℕ → ℕ) (fits : (msg : List ℕ) → crc16 msg < 65536) where
  -- Under a checksum of 16 bits, the first answer to a read command, if it comes in one piece and
  -- holds one to 125 registers, is what the command returns, after one request. The port may send
  -- at least once and does not ignore an echo.
  pub read-returns :
      (target address quantity tries v : ℕ) (vs : List ℕ) (port : Port) (more : List Arrival)
      → port.num_resends_on_error ≡ suc tries
      → port.ignore_echo ≡ false
      → length (v ∷ vs) ≤ 125
      → next_arrivals port.incoming
        ≡ chunk (read_answer crc16 (target % 2 ^ 8) (v ∷ vs)) ∷ quiet ∷ more
      → let r = handle_modbus_read_holding_registers crc16 target address quantity port in
        (r.1 ≡ v ∷ vs) × (length r.0.sent ≡ 1 + length port.sent)
  unfolding handle_modbus_read_holding_registers resend txrx
  read-returns target address quantity tries v vs port more t e short a =
      let answer = read_answer crc16 (target % 2 ^ 8) (v ∷ vs) in
      let got : receive crc16 (target % 2 ^ 8) read_multiple_holding_registers port.junk
            (next_arrivals port.incoming)
          ≡ v ∷ vs =
        rw a (
          receive_all crc16 (target % 2 ^ 8) read_multiple_holding_registers port.junk answer more
            (let n = length-read_answer crc16 (target % 2 ^ 8) (v ∷ vs) in omega arith)
          ∙ decode-read_answer crc16 fits (target % 2 ^ 8) (v ∷ vs) port.junk) in
      rw (t, resend, e, got) (refl, omega arith)
