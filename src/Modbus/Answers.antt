-- ===== src/Modbus/Answers.antt =====
-- How modules/SerialCommHub takes the answers that the Modbus protocol defines.
use mathlib.Core.Path.{subst}
use everest_core_dev.Common.{
  ◌↔◌, ==_iff, ◌-◌, zero, suc, ltb, false, ◌⊎◌, ℕ, ◌+◌, ◌*◌, ◌/◌, ◌<◌, ◌≤◌, ◌≡◌, ◌≢◌, refl, ◌∙◌,
  true, List, [], ◌∷◌, ◌++◌, length, length-append, arith, inl, inr,
}
use everest_core_dev.Modbus.Frames.{
  FunctionCode, write_multiple_holding_registers, read_multiple_holding_registers, code, drop, take,
  be_bytes, le_bytes,
}
use everest_core_dev.Modbus.Replies.{
  byte_at, le_value, check_for_exception, validate_checksum, registers, is_read_reply,
  decode_payload, decode_reply,
}
use everest_core_dev.Modbus.Buffers.{
  append_assoc, registers-be_bytes, length-be_bytes, validate-checksummed,
}

-- What a reply that is decoded is, by the tests of the code.
record Passes (crc16 : List ℕ → ℕ) (buf : List ℕ) (len device : ℕ) (function : FunctionCode)
    : Type 0 where
  from_device : byte_at 0 buf ≡ device
  for_function : byte_at 1 buf ≡ code function
  intact : validate_checksum crc16 buf len ≡ true
  long_enough : 5 ≤ len

le_value-drop :
    (n : ℕ) (buf : List ℕ)
    → n + 2 ≤ length buf
    → le_value (drop n buf) ≡ byte_at n buf + 256 * byte_at (suc n) buf
unfolding drop
le_value-drop zero [] h = absurd (omega (arith, h))
le_value-drop zero (low ∷ []) h = absurd (omega (arith, h))
le_value-drop zero (low ∷ high ∷ rest) h = refl
le_value-drop (suc n) [] h = absurd (omega (arith, h))
le_value-drop (suc n) (x ∷ xs) h = le_value-drop n xs (omega (arith, h))

-- What is decoded has passed the tests.
decoded-Passes :
    (crc16 : List ℕ → ℕ) (buf : List ℕ) (len device : ℕ) (function : FunctionCode)
    → byte_at 1 buf < 256
    → decode_reply crc16 buf len device function ≢ []
    → Passes crc16 buf len device function
unfolding decode_reply
decoded-Passes crc16 buf len device function small n = ground arith

decode_reply-cases :
    (crc16 : List ℕ → ℕ) (buf : List ℕ) (len device : ℕ) (function : FunctionCode)
    → (decode_reply crc16 buf len device function ≡ [])
      ⊎ (decode_reply crc16 buf len device function ≡ decode_payload buf len function)
unfolding decode_reply
decode_reply-cases crc16 buf len device function = ground arith

decode_genuine :
    (crc16 : List ℕ → ℕ) (buf : List ℕ) (len device : ℕ) (function : FunctionCode)
    → byte_at 1 buf < 128
    → Passes crc16 buf len device function
    → decode_reply crc16 buf len device function ≡ decode_payload buf len function
unfolding decode_reply check_for_exception
decode_genuine crc16 buf len device function small g = ground arith

code_small : (function : FunctionCode) → code function < 128
unfolding code
code_small function = ground arith

-- A reply of the device to a request with the function: its address, the code of the function without
-- the exception bit, at least one byte of data, and at its end the checksum of all bytes before, the
-- low byte first.
pub record IsGenuine (crc16 : List ℕ → ℕ) (buf : List ℕ) (len device : ℕ) (function : FunctionCode)
    : Type 0 where
  pub from_device : byte_at 0 buf ≡ device
  pub for_function : byte_at 1 buf ≡ code function
  pub intact : byte_at (len - 2) buf + 256 * byte_at (len - 1) buf ≡ crc16 (take (len - 2) buf)
  pub long_enough : 5 ≤ len

checksum-value :
    (crc16 : List ℕ → ℕ) (buf : List ℕ) (len : ℕ)
    → 5 ≤ len
    → len ≤ length buf
    → (validate_checksum crc16 buf len ≡ true)
      ↔ (byte_at (len - 2) buf + 256 * byte_at (len - 1) buf ≡ crc16 (take (len - 2) buf))
unfolding validate_checksum
checksum-value crc16 buf len long inside =
    let next : suc (len - 2) ≡ len - 1 = omega (arith, long) in
    let value : le_value (drop (len - 2) buf)
        ≡ byte_at (len - 2) buf + 256 * byte_at (len - 1) buf =
      subst (λ n. le_value (drop (len - 2) buf) ≡ byte_at (len - 2) buf + 256 * byte_at n buf) next
        (le_value-drop (len - 2) buf (omega (arith, long, inside))) in
    let long_enough : ltb len 5 ≡ false = ground (arith, long) in
    rw (long_enough, value)
      (==_iff (byte_at (len - 2) buf + 256 * byte_at (len - 1) buf) (crc16 (take (len - 2) buf)))

-- A reply of bytes within its buffer that is not decoded to the empty list is genuine, and of one that
-- is genuine the payload is decoded.
pub decoded-IsGenuine :
    (crc16 : List ℕ → ℕ) (buf : List ℕ) (len device : ℕ) (function : FunctionCode)
    → byte_at 1 buf < 256
    → len ≤ length buf
    → (decode_reply crc16 buf len device function ≢ [] → IsGenuine crc16 buf len device function)
      × (IsGenuine crc16 buf len device function
          → decode_reply crc16 buf len device function ≡ decode_payload buf len function)
decoded-IsGenuine crc16 buf len device function small inside = (
  λ n.
      let p = decoded-Passes crc16 buf len device function small n in
      record {
        from_device = p.from_device;
        for_function = p.for_function;
        intact = (checksum-value crc16 buf len p.long_enough inside).0 p.intact;
        long_enough = p.long_enough;
      },
  λ g.
      let few : byte_at 1 buf < 128 = omega (arith, code_small function, g.for_function) in
      decode_genuine crc16 buf len device function few (record {
        from_device = g.from_device;
        for_function = g.for_function;
        intact = (checksum-value crc16 buf len g.long_enough inside).1 g.intact;
        long_enough = g.long_enough;
      }),
)

payload_read :
    (device : ℕ) (values sum rest : List ℕ)
    → decode_payload
        (device ∷ 3 ∷ 2 * length values ∷ (be_bytes values ++ sum) ++ rest)
        (2 * length values + 5)
        read_multiple_holding_registers
      ≡ values
unfolding decode_payload is_read_reply code drop
payload_read device values sum rest =
    let count : (2 * length values + 1) / 2 ≡ length values = omega arith in
    ground (
      arith,
      registers-be_bytes values (sum ++ rest),
      append_assoc (be_bytes values) sum rest,
      count,
    )

payload_written :
    (device address : ℕ) (rest : List ℕ)
    → address < 256
    → decode_payload (device ∷ 16 ∷ address / 256 ∷ rest) 8 write_multiple_holding_registers ≡ []
unfolding decode_payload is_read_reply code drop registers
payload_written device address rest low = let high : address / 256 ≡ 0 = omega arith in rw high refl

module _ (crc16 : List ℕ → ℕ) where
  abbrev pub with_checksum : List ℕ → List ℕ
  with_checksum msg = msg ++ le_bytes (crc16 msg)

  -- The answer to a read request.
  abbrev pub read_answer : ℕ → List ℕ → List ℕ
  read_answer device values = with_checksum (device ∷ 3 ∷ 2 * length values ∷ be_bytes values)

  -- The answer to a write request.
  abbrev pub write_answer : ℕ → ℕ → ℕ → List ℕ
  write_answer device address quantity =
      with_checksum (device ∷ 16 ∷ be_bytes (address ∷ quantity ∷ []))

  pub decode-write_answer :
      (device address quantity : ℕ) (junk : List ℕ)
      → address < 256
      → decode_reply crc16
          (write_answer device address quantity ++ junk)
          8
          device
          write_multiple_holding_registers
        ≡ []
  unfolding be_bytes
  decode-write_answer device address quantity junk low =
      let buf = write_answer device address quantity ++ junk in
      elim (decode_reply-cases crc16 buf 8 device write_multiple_holding_registers) [
        | inl e ↦ e
        | inr e ↦ e ∙ payload_written device address _ low
      ]

  pub length-read_answer :
      (device : ℕ) (values : List ℕ) → length (read_answer device values) ≡ 2 * length values + 5
  length-read_answer device values = omega (
    arith,
    length-append (device ∷ 3 ∷ 2 * length values ∷ be_bytes values)
        (le_bytes (crc16 (device ∷ 3 ∷ 2 * length values ∷ be_bytes values))),
    length-be_bytes values,
  )

module _ (crc16 : List ℕ → ℕ) (fits : (msg : List ℕ) → crc16 msg < 65536) where
  read_answer-Passes :
      (device : ℕ) (values junk : List ℕ)
      → Passes crc16
          (read_answer crc16 device values ++ junk)
          (2 * length values + 5)
          device
          read_multiple_holding_registers
  unfolding code drop
  read_answer-Passes device values junk = record {
    from_device = refl;
    for_function = refl;
    intact =
        subst (λ n. validate_checksum crc16 (read_answer crc16 device values ++ junk) n ≡ true)
          (omega (arith, length-be_bytes values))
          (validate-checksummed crc16 fits (device ∷ 3 ∷ 2 * length values ∷ be_bytes values) junk
            (omega arith));
    long_enough = omega arith;
  }

  pub decode-read_answer :
      (device : ℕ) (values junk : List ℕ)
      → decode_reply crc16
          (read_answer crc16 device values ++ junk)
          (length (read_answer crc16 device values))
          device
          read_multiple_holding_registers
        ≡ values
  unfolding drop
  decode-read_answer device values junk = rw (length-read_answer crc16 device values) (
      decode_genuine crc16 (read_answer crc16 device values ++ junk) (2 * length values + 5) device
        read_multiple_holding_registers (omega arith) (read_answer-Passes device values junk)
      ∙ payload_read device values
          (le_bytes (crc16 (device ∷ 3 ∷ 2 * length values ∷ be_bytes values))) junk)
