-- ===== src/Cobs/Steps.antt =====
-- How one byte of a packet of modules/YetiDriver/yeti_comms/evSerial.cpp is encoded and decoded.
use everest_core_dev.Common.{
  ◌⊎◌, ℕ, suc, ◌+◌, ◌<◌, ◌≤◌, ◌≡◌, refl, sym, ap, ◌∙◌, Bool, true, false, List, [], ◌∷◌, ◌++◌,
  length, length-append, if◌then◌else◌, arith,
}
use everest_core_dev.Cobs.{is_empty, encode_from, cobs_decode}
use everest_core_dev.Cobs.Blocks.{
  append_assoc, AllNonzero, at_code, padded, nonempty, finish_full, after_block, AllNonzero-append,
  ends_full, seen, Decoded,
}

module _ (code byte : ℕ) (block more : List ℕ) where
  encode_zero :
      byte ≡ 0 → encode_from code block (byte ∷ more) ≡ code ∷ block ++ encode_from 1 [] more
  unfolding encode_from
  encode_zero z = ground arith

  encode_full :
      0 < byte
      → code ≡ 254
      → encode_from code block (byte ∷ more)
        ≡ 255 ∷ (block ++ byte ∷ []) ++ (if is_empty more then 0 ∷ [] else encode_from 1 [] more)
  unfolding encode_from
  encode_full p c = ground arith

  encode_longer :
      0 < byte
      → code < 254
      → encode_from code block (byte ∷ more) ≡ encode_from (code + 1) (block ++ byte ∷ []) more
  unfolding encode_from
  encode_longer p c = ground arith

  full_zero : byte ≡ 0 → ends_full code (byte ∷ more) ≡ ends_full 1 more
  unfolding ends_full
  full_zero z = ground arith

  full_full :
      0 < byte
      → code ≡ 254
      → ends_full code (byte ∷ more) ≡ (if is_empty more then true else ends_full 1 more)
  unfolding ends_full
  full_full p c = ground arith

  full_longer : 0 < byte → code < 254 → ends_full code (byte ∷ more) ≡ ends_full (code + 1) more
  unfolding ends_full
  full_longer p c = ground arith

pub last-cases : (code : ℕ) → code < 255 → (code ≡ 254) ⊎ (code < 254)
last-cases code h = ground arith

regroup : (p q r : List ℕ) (x : ℕ) → ((p ++ q) ++ x ∷ []) ++ r ≡ p ++ (q ++ x ∷ r)
regroup p q r x = append_assoc (p ++ q) (x ∷ []) r ∙ append_assoc p q (x ∷ r)

pub same_end :
    (packets : List (List ℕ)) (f g : Bool) (a b : List ℕ)
    → f ≡ g
    → a ≡ b
    → at_code 255 [] (seen f a ∷ packets) ≡ at_code 255 [] (seen g b ∷ packets)
same_end packets f g a b e h = cc

pub padded_short : (code : ℕ) (msg : List ℕ) → code < 255 → padded code msg ≡ msg ++ 0 ∷ []
padded_short code msg c = ground arith

module _ (packets : List (List ℕ)) (before code : ℕ) (block more msg : List ℕ)
    (e : code ≡ suc (length block)) (v : AllNonzero block) (room : length msg < 2047) where
  pub step_zero :
      code < 255
      → length (padded before msg) + length block ≤ 2047
      → Decoded code 1 [] more (padded before msg ++ block) packets
      → Decoded before code block (0 ∷ more) msg packets
  unfolding Decoded
  step_zero c short ih =
      ap (λ xs. cobs_decode xs (at_code before msg packets)) (encode_zero code 0 block more refl)
      ∙ after_block before code block (encode_from 1 [] more) msg packets e v room short
      ∙ ih
      ∙ same_end packets (ends_full 1 more) (ends_full code (0 ∷ more))
          (padded code (padded before msg ++ block) ++ more)
          (padded before msg ++ (block ++ 0 ∷ more)) (sym (full_zero code 0 block more refl))
          (ap (λ xs. xs ++ more) (padded_short code (padded before msg ++ block) c)
            ∙ regroup (padded before msg) block more 0)

  pub step_longer :
      (byte : ℕ)
      → 0 < byte
      → code < 254
      → Decoded before (code + 1) (block ++ byte ∷ []) more msg packets
      → Decoded before code block (byte ∷ more) msg packets
  unfolding Decoded
  step_longer byte p c ih =
      ap (λ xs. cobs_decode xs (at_code before msg packets))
        (encode_longer code byte block more p c)
      ∙ ih
      ∙ same_end packets (ends_full (code + 1) more) (ends_full code (byte ∷ more))
          (padded before msg ++ ((block ++ byte ∷ []) ++ more))
          (padded before msg ++ (block ++ byte ∷ more)) (sym (full_longer code byte block more p c))
          (ap (λ xs. padded before msg ++ xs) (append_assoc block (byte ∷ []) more))

  module _ (byte : ℕ) (p : 0 < byte) (c : code ≡ 254)
      (short : length (padded before msg) + length block + 1 ≤ 2047) where
    after_full :
        (rest : List ℕ)
        → cobs_decode (255 ∷ (block ++ byte ∷ []) ++ rest) (at_code before msg packets)
          ≡ cobs_decode rest (at_code 255 (padded before msg ++ (block ++ byte ∷ [])) packets)
    after_full rest =
        let n = length-append block (byte ∷ []) in
        after_block before 255 (block ++ byte ∷ []) rest msg packets (omega arith)
          (AllNonzero-append block byte v p) room (omega arith)

    pub step_full :
        is_empty more ≡ false
        → Decoded 255 1 [] more (padded before msg ++ (block ++ byte ∷ [])) packets
        → Decoded before code block (byte ∷ more) msg packets
    unfolding Decoded
    step_full n ih =
        ap (λ xs. cobs_decode xs (at_code before msg packets))
          (encode_full code byte block more p c
            ∙ ap (λ b. 255 ∷ (block ++ byte ∷ []) ++ (if b then 0 ∷ [] else encode_from 1 [] more))
                n)
        ∙ after_full (encode_from 1 [] more)
        ∙ ih
        ∙ same_end packets (ends_full 1 more) (ends_full code (byte ∷ more))
            ((padded before msg ++ (block ++ byte ∷ [])) ++ more)
            (padded before msg ++ (block ++ byte ∷ more))
            (sym (
              full_full code byte block more p c
              ∙ ap (λ b. if b then true else ends_full 1 more) n))
            (append_assoc (padded before msg) (block ++ byte ∷ []) more
              ∙ ap (λ xs. padded before msg ++ xs) (append_assoc block (byte ∷ []) more))

    pub step_last : Decoded before code block (byte ∷ []) msg packets
    unfolding Decoded
    step_last =
        ap (λ xs. cobs_decode xs (at_code before msg packets)) (encode_full code byte block [] p c)
        ∙ after_full (0 ∷ [])
        ∙ finish_full (padded before msg ++ (block ++ byte ∷ [])) packets (
            ap is_empty (sym (append_assoc (padded before msg) block (byte ∷ [])))
            ∙ nonempty (padded before msg ++ block) byte)
        ∙ same_end packets true (ends_full code (byte ∷ []))
            (padded before msg ++ (block ++ byte ∷ [])) (padded before msg ++ (block ++ byte ∷ []))
            (sym (full_full code byte block [] p c)) refl
