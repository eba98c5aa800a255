-- ===== src/Modbus/Requests.antt =====
-- What the requests of modules/SerialCommHub/tiny_modbus_rtu.cpp carry.
use everest_core_dev.Common.{
  ◌≤◌, ℕ, ◌+◌, ◌<◌, ◌≡◌, true, List, [], ◌∷◌, ◌++◌, length, length-append, arith,
}
use everest_core_dev.Modbus.Frames.{
  FunctionCode, write_multiple_holding_registers, code, drop, be_bytes, le_bytes, request_data,
  request_frame,
}
use everest_core_dev.Modbus.Replies.{validate_checksum, registers}
use everest_core_dev.Modbus.Buffers.{registers-be_bytes, validate-checksummed, append_checksum_long}

module _ (crc16 : List ℕ → ℕ) (fits : (msg : List ℕ) → crc16 msg < 65536) (junk : List ℕ)
    (device address quantity : ℕ) where
  abbrev unsealed : FunctionCode → List ℕ → List ℕ
  unsealed function request =
      device ∷ code function ∷ be_bytes (address ∷ quantity ∷ [])
      ++ request_data function junk request

  long : (function : FunctionCode) (request : List ℕ) → 3 ≤ length (unsealed function request)
  unfolding be_bytes
  long function request = omega arith

  sealed :
      (function : FunctionCode) (request : List ℕ)
      → request_frame crc16 junk device function address quantity request
        ≡ unsealed function request ++ le_bytes (crc16 (unsealed function request))
  unfolding request_frame
  sealed function request =
      append_checksum_long crc16 fits junk (unsealed function request) (long function request)

  length-sealed : (msg : List ℕ) → length (msg ++ le_bytes (crc16 msg)) ≡ length msg + 2
  length-sealed msg = omega (arith, length-append msg (le_bytes (crc16 msg)))

  written :
      (r : ℕ) (rs : List ℕ)
      → registers (length (r ∷ rs)) (
          drop 7 (
            request_frame crc16 junk device write_multiple_holding_registers address quantity
              (r ∷ rs)))
        ≡ r ∷ rs
  unfolding drop be_bytes request_data
  written r rs = rw (sealed write_multiple_holding_registers (r ∷ rs)) (
      registers-be_bytes (r ∷ rs)
        (le_bytes (crc16 (unsealed write_multiple_holding_registers (r ∷ rs)))))

  -- Under a checksum of 16 bits, every request passes the test of its checksum, whatever its
  -- function and its registers and whatever follows in the buffer, and the registers of a write
  -- request are read back from its eighth byte on.
  pub request-validates :
      ((function : FunctionCode) (request rest : List ℕ)
        → let f = request_frame crc16 junk device function address quantity request in
          validate_checksum crc16 (f ++ rest) (length f) ≡ true)
      × ((r : ℕ) (rs : List ℕ)
          → registers (length (r ∷ rs)) (
              drop 7 (
                request_frame crc16 junk device write_multiple_holding_registers address quantity
                  (r ∷ rs)))
            ≡ r ∷ rs)
  request-validates = (
    λ function request rest.
        rw (sealed function request, length-sealed (unsealed function request))
          (validate-checksummed crc16 fits (unsealed function request) rest
            (long function request)),
    written,
  )
