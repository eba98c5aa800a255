-- ===== src/Modbus/Hub.antt =====
-- The serial port of modules/SerialCommHub/tiny_modbus_rtu.cpp, and the commands of
-- main/serial_communication_hubImpl.cpp.
use everest_core_dev.Common.{
  ℕ, zero, suc, ◌-◌, ◌%◌, ◌^◌, Bool, true, false, List, [], ◌∷◌, ◌++◌, length, map, leb,
  if◌then◌else◌,
}
use everest_core_dev.Modbus.Frames.{
  FunctionCode, read_multiple_holding_registers, read_input_registers,
  write_multiple_holding_registers, take, drop, request_frame,
}
use everest_core_dev.Modbus.Replies.{decode_reply}

-- What `select` and `read` give: some bytes, or no byte in time.
pub data Arrival : Type 0 where
  chunk : List ℕ → Arrival
  quiet : Arrival

-- `TinyModbusRTU` with the two ends of its line: what arrives after each request and before the
-- next one, which flushes the rest, and the requests written, the newest first. Of the buffers,
-- `junk` is what no byte was written to. `num_resends_on_error` is the hub's,
-- which fits in a byte.
pub record Port : Type 0 where
  pub ignore_echo : Bool
  pub incoming : List (List Arrival)
  pub sent : List (List ℕ)
  pub junk : List ℕ
  pub num_resends_on_error : ℕ

-- A chunk that does not fit leaves its rest to be read.
abbrev leave : List ℕ → List Arrival → List Arrival
leave [] more = more
leave (x ∷ xs) more = chunk (x ∷ xs) ∷ more

-- The loop of `read_reply`, with the bytes that it has got.
unfoldable pub read_reply : ℕ → List ℕ → List Arrival → List ℕ × List Arrival
unfolding take drop
read_reply size got [] = (got, [])
read_reply size got (quiet ∷ more) = (got, more)
read_reply size got (chunk bytes ∷ more) =
    let space = size - length got in
    let rest = read_reply size (got ++ bytes) more in
    if leb size (length got)
    then (got, chunk bytes ∷ more)
    else if leb (length bytes) space
    then rest
    else (got ++ take space bytes, leave (drop space bytes) more)

abbrev pub next_arrivals : List (List Arrival) → List Arrival
next_arrivals [] = []
next_arrivals (a ∷ later) = a

abbrev pub later_arrivals : List (List Arrival) → List (List Arrival)
later_arrivals [] = []
later_arrivals (a ∷ later) = later

-- `MODBUS_MAX_REPLY_SIZE`.
abbrev pub max_reply_size : ℕ
max_reply_size = 261

unfoldable pub receive : (List ℕ → ℕ) → ℕ → FunctionCode → List ℕ → List Arrival → List ℕ
unfolding read_reply decode_reply
receive crc16 device function junk arrivals =
    let got = (read_reply max_reply_size [] arrivals).0 in
    decode_reply crc16 (got ++ junk) (length got) device function

abbrev pub is_nonempty : List ℕ → Bool
is_nonempty [] = false
is_nonempty (x ∷ xs) = true

module _ (crc16 : List ℕ → ℕ) where
  -- With `wait_for_reply`.
  unfoldable pub txrx : ℕ → FunctionCode → ℕ → ℕ → List ℕ → Port → Port × List ℕ
  unfolding request_frame receive read_reply
  txrx device function address quantity request port =
      let frame = request_frame crc16 port.junk device function address quantity request in
      let arrivals = next_arrivals port.incoming in
      let answered =
        if port.ignore_echo then (read_reply (length frame) [] arrivals).1 else arrivals in
      (
        record port { incoming = later_arrivals port.incoming; sent = frame ∷ port.sent },
        receive crc16 device function port.junk answered,
      )

  -- The loop of a command: resends until a reply is decoded.
  unfoldable pub resend : ℕ → ℕ → FunctionCode → ℕ → ℕ → List ℕ → Port → Port × List ℕ
  resend zero device function address quantity request port = (port, [])
  resend (suc n) device function address quantity request port =
      let (port', response) = txrx device function address quantity request port in
      let rest = resend n device function address quantity request port' in
      if is_nonempty response then (port', response) else rest

  -- The conversions to `uint8_t` and `uint16_t` are those of the call.
  abbrev pub command : FunctionCode → ℕ → ℕ → ℕ → List ℕ → Port → Port × List ℕ
  command function target address quantity request port =
      resend port.num_resends_on_error (target % 2 ^ 8) function (address % 2 ^ 16)
        (quantity % 2 ^ 16) request port

  -- The registers of a `Success`; no register stands for `Error`.
  unfoldable pub handle_modbus_read_holding_registers : ℕ → ℕ → ℕ → Port → Port × List ℕ
  unfolding resend
  handle_modbus_read_holding_registers target address quantity port =
      command read_multiple_holding_registers target address quantity [] port

  unfoldable pub handle_modbus_read_input_registers : ℕ → ℕ → ℕ → Port → Port × List ℕ
  unfolding resend
  handle_modbus_read_input_registers target address quantity port =
      command read_input_registers target address quantity [] port

  -- `true` is `Success`.
  unfoldable pub handle_modbus_write_multiple_registers : ℕ → ℕ → List ℕ → Port → Port × Bool
  unfolding resend
  handle_modbus_write_multiple_registers target address data_raw port =
      let values = map (λ r. r % 2 ^ 16) data_raw in
      let (port', response) =
        command write_multiple_holding_registers target address (length values) values port in
      (port', is_nonempty response)
