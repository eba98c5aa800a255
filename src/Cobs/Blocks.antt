-- ===== src/Cobs/Blocks.antt =====
-- One block of the encoding of modules/YetiDriver/yeti_comms/evSerial.cpp in its decoder.
use everest_core_dev.Common.{
  ℕ, suc, ◌+◌, ◌<◌, ◌≤◌, ◌≡◌, refl, sym, ap, ◌∙◌, Bool, true, false, List, [], ◌∷◌, ◌++◌, length,
  length-append, ◌==◌, if◌then◌else◌, arith,
}
use everest_core_dev.Cobs.{
  is_empty, encode_from, Decoder, cobs_decode_reset, drop_last, commit, take_code, cobs_decode_byte,
  cobs_decode,
}

-- The data ends with a full block of 254 bytes that are not 0, from a code on.
unfoldable pub ends_full : ℕ → List ℕ → Bool
ends_full code [] = false
ends_full code (byte ∷ more) =
    let restarted = ends_full 1 more in
    let longer = ends_full (code + 1) more in
    if byte == 0
    then restarted
    else if code + 1 == 255
    then (if is_empty more then true else restarted)
    else longer

pub append_assoc : (a b c : List ℕ) → (a ++ b) ++ c ≡ a ++ (b ++ c)
append_assoc [] b c = refl
append_assoc (x ∷ a) b c = ap (λ xs. x ∷ xs) (append_assoc a b c)

pub append_nil : (a : List ℕ) → a ++ [] ≡ a
append_nil [] = refl
append_nil (x ∷ a) = ap (λ xs. x ∷ xs) (append_nil a)

pub cobs_decode-append :
    (a b : List ℕ) (d : Decoder) → cobs_decode (a ++ b) d ≡ cobs_decode b (cobs_decode a d)
unfolding cobs_decode
cobs_decode-append [] b d = refl
cobs_decode-append (x ∷ a) b d = cobs_decode-append a b (cobs_decode_byte x d)

pub drop_last-append : (a : List ℕ) (x : ℕ) → drop_last (a ++ x ∷ []) ≡ a
unfolding drop_last
drop_last-append [] x = refl
drop_last-append (y ∷ []) x = refl
drop_last-append (y ∷ z ∷ a) x = ap (λ xs. y ∷ xs) (drop_last-append (z ∷ a) x)

abbrev pub AllNonzero : List ℕ → Type 0
AllNonzero [] = Unit {0}
AllNonzero (x ∷ xs) = (0 < x) × AllNonzero xs

abbrev pub at_code : ℕ → List ℕ → List (List ℕ) → Decoder
at_code code msg packets = record { code = code; block = 0; msg = msg; packets = packets }

-- The bytes of a block are copied.
decode_block :
    (code : ℕ) (block msg : List ℕ) (packets : List (List ℕ))
    → AllNonzero block
    → length msg + length block ≤ 2047
    → cobs_decode block (record { code = code; block = length block; msg = msg; packets = packets })
      ≡ at_code code (msg ++ block) packets
unfolding cobs_decode cobs_decode_byte
decode_block code [] msg packets v short = ap (λ m. at_code code m packets) (sym (append_nil msg))
decode_block code (x ∷ block) msg packets v short =
    let ih =
      decode_block code block (msg ++ x ∷ []) packets v.1
        (let n = length-append msg (x ∷ []) in omega arith) in
    let step : cobs_decode_byte x
          (record { code = code; block = suc (length block); msg = msg; packets = packets })
        ≡ (record { code = code; block = length block; msg = msg ++ x ∷ []; packets = packets }) =
      ground arith in
    rw step (ih ∙ ap (λ m. at_code code m packets) (append_assoc msg (x ∷ []) block))

-- What a code is written for: the 0 that the block before it ends with.
abbrev pub padded : ℕ → List ℕ → List ℕ
padded code msg = if code == 255 then msg else msg ++ 0 ∷ []

pub decode_code_block :
    (before code : ℕ) (block msg : List ℕ) (packets : List (List ℕ))
    → code ≡ suc (length block)
    → AllNonzero block
    → length msg < 2047
    → length (padded before msg) + length block ≤ 2047
    → cobs_decode (code ∷ block) (at_code before msg packets)
      ≡ at_code code (padded before msg ++ block) packets
unfolding cobs_decode cobs_decode_byte take_code
decode_code_block before code block msg packets e v room short =
    let step : cobs_decode_byte code (at_code before msg packets) ≡ (record {
      code = code;
      block = length block;
      msg = padded before msg;
      packets = packets;
    }) =
      ground arith in
    rw step (decode_block code block (padded before msg) packets v short)

pub nonempty : (a : List ℕ) (x : ℕ) → is_empty (a ++ x ∷ []) ≡ false
nonempty [] x = refl
nonempty (y ∷ a) x = refl

pub finish_short :
    (code : ℕ) (msg : List ℕ) (packets : List (List ℕ))
    → code < 255
    → cobs_decode (0 ∷ []) (at_code code msg packets) ≡ at_code 255 [] (msg ∷ packets)
unfolding cobs_decode cobs_decode_byte take_code commit cobs_decode_reset
finish_short code msg packets c = ground (arith, nonempty msg 0, drop_last-append msg 0)

pub finish_full :
    (msg : List ℕ) (packets : List (List ℕ))
    → is_empty msg ≡ false
    → cobs_decode (0 ∷ []) (at_code 255 msg packets) ≡ at_code 255 [] (drop_last msg ∷ packets)
unfolding cobs_decode cobs_decode_byte take_code commit cobs_decode_reset
finish_full msg packets n = ground arith

-- What the decoder sees of a packet.
abbrev pub seen : Bool → List ℕ → List ℕ
seen true bytes = drop_last bytes
seen false bytes = bytes

unfoldable pub Decoded : ℕ → ℕ → List ℕ → List ℕ → List ℕ → List (List ℕ) → Type 0
Decoded before code block bytes msg packets =
    cobs_decode (encode_from code block bytes) (at_code before msg packets)
    ≡ at_code 255 [] (seen (ends_full code bytes) (padded before msg ++ (block ++ bytes)) ∷ packets)

-- After a code and its block, the rest of the bytes is decoded on its own.
pub after_block :
    (before code : ℕ) (block rest msg : List ℕ) (packets : List (List ℕ))
    → code ≡ suc (length block)
    → AllNonzero block
    → length msg < 2047
    → length (padded before msg) + length block ≤ 2047
    → cobs_decode (code ∷ block ++ rest) (at_code before msg packets)
      ≡ cobs_decode rest (at_code code (padded before msg ++ block) packets)
after_block before code block rest msg packets e v room short =
    cobs_decode-append (code ∷ block) rest (at_code before msg packets)
    ∙ ap (cobs_decode rest) (decode_code_block before code block msg packets e v room short)

pub AllNonzero-append :
    (block : List ℕ) (x : ℕ) → AllNonzero block → 0 < x → AllNonzero (block ++ x ∷ [])
AllNonzero-append [] x v h = (h, tt)
AllNonzero-append (y ∷ block) x v h = (v.0, AllNonzero-append block x v.1 h)
