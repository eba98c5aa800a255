-- ===== src/Cobs.antt =====
-- The byte stuffing of modules/YetiDriver/yeti_comms/evSerial.cpp, which
-- modules/MicroMegaWattBSP/umwc_comms has as well. `encode` and `decode` are lists of bytes in place
-- of pointers into buffers.
use everest_core_dev.Common.{
  ℕ, ◌+◌, ◌-◌, Bool, true, false, not, ◌&&◌, List, [], ◌∷◌, ◌++◌, length, ◌==◌, if◌then◌else◌,
}
pub mod Blocks
pub mod Steps
pub mod RoundTrip
mod Scenarios

abbrev pub is_empty : List ℕ → Bool
is_empty [] = true
is_empty (x ∷ xs) = false

-- The loop of `cobsEncode`: the code, the bytes written after the place of the code, and the data
-- to come. A full block at the end of the data leaves no place for a code: the final 0 is written
-- over it.
unfoldable pub encode_from : ℕ → List ℕ → List ℕ → List ℕ
encode_from code block [] = code ∷ block ++ 0 ∷ []
encode_from code block (byte ∷ more) =
    let restarted = encode_from 1 [] more in
    let longer = encode_from (code + 1) (block ++ byte ∷ []) more in
    if byte == 0
    then code ∷ block ++ restarted
    else if code + 1 == 255
    then (code + 1) ∷ (block ++ byte ∷ []) ++ (if is_empty more then 0 ∷ [] else restarted)
    else longer

unfoldable pub cobs_encode : List ℕ → List ℕ
unfolding encode_from
cobs_encode bytes = encode_from 1 [] bytes

-- `msg` holds the bytes up to `decode`, and `packets` what was given to `handlePacket`, the newest
-- first.
pub record Decoder : Type 0 where
  pub code : ℕ
  pub block : ℕ
  pub msg : List ℕ
  pub packets : List (List ℕ)

unfoldable pub cobs_decode_reset : Decoder → Decoder
cobs_decode_reset d = record d { code = 255; block = 0; msg = [] }

abbrev pub push : ℕ → Decoder → Decoder
push byte d = record d { msg = d.msg ++ byte ∷ [] }

unfoldable pub drop_last : List ℕ → List ℕ
drop_last [] = []
drop_last (x ∷ []) = []
drop_last (x ∷ y ∷ ys) = x ∷ drop_last (y ∷ ys)

-- A code of 0 ends the packet.
unfoldable pub commit : Decoder → Decoder
unfolding cobs_decode_reset drop_last
commit d =
    cobs_decode_reset
      (if is_empty d.msg then d else record d { packets = drop_last d.msg ∷ d.packets })

-- A byte where a code is due.
unfoldable pub take_code : ℕ → Decoder → Decoder
unfolding commit
take_code byte d =
    let padded = if d.code == 255 then d else push 0 d in
    if byte == 0 then commit padded else record padded { code = byte; block = byte - 1 }

unfoldable pub cobs_decode_byte : ℕ → Decoder → Decoder
unfolding cobs_decode_reset take_code
cobs_decode_byte byte d =
    let e = if length d.msg == 2047 && not (byte == 0) then cobs_decode_reset d else d in
    if e.block == 0
    then take_code byte e
    else if byte == 0
    then cobs_decode_reset e
    else record (push byte e) { block = e.block - 1 }

unfoldable pub cobs_decode : List ℕ → Decoder → Decoder
unfolding cobs_decode_byte
cobs_decode [] d = d
cobs_decode (byte ∷ more) d = cobs_decode more (cobs_decode_byte byte d)
