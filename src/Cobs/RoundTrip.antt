-- ===== src/Cobs/RoundTrip.antt =====
-- What the decoder of modules/YetiDriver/yeti_comms/evSerial.cpp makes of an encoded packet.
use everest_core_dev.Common.{
  ℕ, zero, suc, ◌+◌, ◌<◌, ◌≤◌, ◌≡◌, refl, sym, ap, ◌∙◌, false, List, [], ◌∷◌, ◌++◌, length,
  length-append, arith, inl, inr,
}
use everest_core_dev.Cobs.{
  encode_from, cobs_encode, Decoder, cobs_decode_reset, commit, take_code, cobs_decode_byte,
  cobs_decode,
}
use everest_core_dev.Cobs.Blocks.{
  append_nil, cobs_decode-append, AllNonzero, at_code, padded, finish_short, after_block,
  AllNonzero-append, ends_full, seen, Decoded,
}
use everest_core_dev.Cobs.Steps.{
  last-cases, step_zero, step_longer, step_full, step_last, padded_short,
}

module _ (packets : List (List ℕ)) where
  decode_encoded :
      (before code : ℕ) (block bytes msg : List ℕ)
      → code ≡ suc (length block)
      → code < 255
      → AllNonzero block
      → length msg < 2047
      → length (padded before msg) + length block + length bytes ≤ 2046
      → Decoded before code block bytes msg packets
  unfolding encode_from ends_full Decoded
  decode_encoded before code block [] msg e c v room short =
      after_block before code block (0 ∷ []) msg packets e v room (omega arith)
      ∙ finish_short code (padded before msg ++ block) packets c
      ∙ ap (λ b. at_code 255 [] ((padded before msg ++ b) ∷ packets)) (sym (append_nil block))
  decode_encoded before code block (zero ∷ more) msg e c v room short =
      let seen_so_far = padded before msg ++ block in
      let n = length-append (padded before msg) block in
      let m = length-append seen_so_far (0 ∷ []) in
      step_zero packets before code block more msg e v room c (omega arith) (
        decode_encoded code 1 [] more seen_so_far refl (omega arith) tt (omega arith)
          (rw (padded_short code seen_so_far c) (omega arith)))
  decode_encoded before code block (suc byte ∷ []) msg e c v room short = elim (last-cases code c) [
    | inl full ↦
        step_last packets before code block [] msg e v room (suc byte) (omega arith) full
          (omega arith)
    | inr r ↦ step_longer packets before code block [] msg e v room (suc byte) (omega arith) r (
        let m = length-append block (suc byte ∷ []) in
        decode_encoded before (code + 1) (block ++ suc byte ∷ []) [] msg (omega arith) (omega arith)
          (AllNonzero-append block (suc byte) v (omega arith)) room (omega arith))
  ]
  decode_encoded before code block (suc byte ∷ next ∷ more) msg e c v room short =
      elim (last-cases code c) [
        | inl full ↦
            let whole = padded before msg ++ (block ++ suc byte ∷ []) in
            let n = length-append (padded before msg) (block ++ suc byte ∷ []) in
            let m = length-append block (suc byte ∷ []) in
            step_full packets before code block (next ∷ more) msg e v room (suc byte) (omega arith)
              full (omega arith) refl
              (decode_encoded 255 1 [] (next ∷ more) whole refl (omega arith) tt (omega arith)
                (omega arith))
        | inr r ↦
            let m = length-append block (suc byte ∷ []) in
            step_longer packets before code block (next ∷ more) msg e v room (suc byte)
              (omega arith) r
              (decode_encoded before (code + 1) (block ++ suc byte ∷ []) (next ∷ more) msg
                (omega arith) (omega arith) (AllNonzero-append block (suc byte) v (omega arith))
                room (omega arith))
      ]

ends_full_short :
    (code : ℕ) (bytes : List ℕ) → code + length bytes < 255 → ends_full code bytes ≡ false
unfolding ends_full
ends_full_short code [] h = refl
ends_full_short code (byte ∷ more) h =
    let longer = ends_full_short (code + 1) more (omega arith) in
    let restarted = ends_full_short 1 more in ground (arith, longer, restarted)

abbrev pub received : List ℕ → Decoder → Decoder
received bytes d =
    cobs_decode_reset (record d { packets = seen (ends_full 1 bytes) bytes ∷ d.packets })

-- A decoder that is reset takes the encoding of at most 2046 bytes for one packet and is reset
-- again. The packet is these bytes, but without the last one if they end with a full block. Fewer
-- than 254 bytes never do.
pub decode-encode :
    (bytes : List ℕ) (d : Decoder)
    → length bytes ≤ 2046
    → (cobs_decode (cobs_encode bytes) (cobs_decode_reset d) ≡ received bytes d)
      × (length bytes < 254 → seen (ends_full 1 bytes) bytes ≡ bytes)
unfolding Decoded cobs_decode_reset cobs_encode
decode-encode bytes d short = (
  decode_encoded d.packets 255 1 [] bytes [] refl (omega arith) tt (omega arith) (omega arith),
  λ few. ap (λ b. seen b bytes) (ends_full_short 1 bytes (omega arith)),
)

decode_zero :
    (d : Decoder)
    → cobs_decode_byte 0 d
      ≡ cobs_decode_reset (record d { packets = (cobs_decode_byte 0 d).packets })
unfolding cobs_decode_byte take_code commit cobs_decode_reset
decode_zero d = ground arith

-- Whatever a decoder has received, after a 0 it takes the encoding of at most 2046 bytes for one
-- packet, as a decoder that is reset does, and keeps the packets from before.
pub decode-resync :
    (noise bytes : List ℕ) (d : Decoder)
    → length bytes ≤ 2046
    → cobs_decode (noise ++ 0 ∷ cobs_encode bytes) d
      ≡ received bytes (cobs_decode_byte 0 (cobs_decode noise d))
unfolding cobs_decode cobs_decode_reset
decode-resync noise bytes d short =
    let met = cobs_decode noise d in
    cobs_decode-append noise (0 ∷ cobs_encode bytes) d
    ∙ ap (cobs_decode (cobs_encode bytes)) (decode_zero met)
    ∙ (decode-encode bytes (record met { packets = (cobs_decode_byte 0 met).packets }) short).0
