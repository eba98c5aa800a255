-- ===== src/Cobs/Scenarios.antt =====
-- Packets of modules/YetiDriver/yeti_comms/evSerial.cpp, and the theorems on their decoding.
use everest_core_dev.Common.{◌<◌, ◌≡◌, [], ◌∷◌, ◌++◌, arith}
use everest_core_dev.Cobs.{Decoder, cobs_encode, cobs_decode, cobs_decode_byte, cobs_decode_reset}
use everest_core_dev.Cobs.Blocks.{seen, ends_full}
use everest_core_dev.Cobs.RoundTrip.{received, decode-encode, decode-resync}

abbrev fresh : Decoder
fresh = record { code = 0; block = 0; msg = []; packets = [] }

abbrev garbled : Decoder
garbled = record { code = 7; block = 4; msg = 9 ∷ []; packets = [] }

decode-encode_example :
    (cobs_decode (cobs_encode (5 ∷ 0 ∷ 6 ∷ [])) (cobs_decode_reset fresh)
      ≡ received (5 ∷ 0 ∷ 6 ∷ []) fresh)
    × (3 < 254 → seen (ends_full 1 (5 ∷ 0 ∷ 6 ∷ [])) (5 ∷ 0 ∷ 6 ∷ []) ≡ 5 ∷ 0 ∷ 6 ∷ [])
decode-encode_example = decode-encode (5 ∷ 0 ∷ 6 ∷ []) fresh (omega arith)

decode-resync_example :
    cobs_decode ((3 ∷ 1 ∷ []) ++ 0 ∷ cobs_encode (5 ∷ 0 ∷ 6 ∷ [])) garbled
    ≡ received (5 ∷ 0 ∷ 6 ∷ []) (cobs_decode_byte 0 (cobs_decode (3 ∷ 1 ∷ []) garbled))
decode-resync_example = decode-resync (3 ∷ 1 ∷ []) (5 ∷ 0 ∷ 6 ∷ []) garbled (omega arith)
