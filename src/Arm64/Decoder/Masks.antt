-- ===== src/Arm64/Decoder/Masks.antt =====
-- The masks of the AArch64 decoder as fields of the instruction word.
use hoox.Prelude.{ℕ, ◌+◌, ◌-◌, ◌*◌, ◌/◌, ◌%◌, ◌^◌, ◌<◌, bit_and, ◌≡◌, arith}
use hoox.Prelude.Bits.{and_mask, and_field, and_parts}
use hoox.Prelude.Words.{sign_extend, sign_extend_lem}
use hoox.Prelude.{ltb, if◌then◌else◌}

module _ (w : ℕ) where
  pub mask_adr : bit_and w 0x1f000000 ≡ w / 2 ^ 24 % 2 ^ 5 * 2 ^ 24
  mask_adr = and_field 5 24 w

  pub mask_branch : bit_and w 0x7c000000 ≡ w / 2 ^ 26 % 2 ^ 5 * 2 ^ 26
  mask_branch = and_field 5 26 w

  pub mask_branch_cond : bit_and w 0xff000010 ≡ w / 2 ^ 24 % 2 ^ 8 * 2 ^ 24 + w / 2 ^ 4 % 2 * 2 ^ 4
  mask_branch_cond =
      ground (arith, and_parts 24 w 0xff 0x10, and_mask 8 (w / 2 ^ 24), and_field 1 4 (w % 2 ^ 24))

  pub mask_compare : bit_and w 0x7e000000 ≡ w / 2 ^ 25 % 2 ^ 6 * 2 ^ 25
  mask_compare = and_field 6 25 w

  pub mask_literal :
      bit_and w 0x3b000000 ≡ w / 2 ^ 27 % 2 ^ 3 * 2 ^ 27 + w / 2 ^ 24 % 2 ^ 2 * 2 ^ 24
  mask_literal =
      ground
        (arith, and_parts 27 w 7 0x3000000, and_mask 3 (w / 2 ^ 27), and_field 2 24 (w % 2 ^ 27))

  pub mask_branch_reg : bit_and w 0xfe000000 ≡ w / 2 ^ 25 % 2 ^ 7 * 2 ^ 25
  mask_branch_reg = and_field 7 25 w

  pub mask_svc : bit_and w 0xffe0001f ≡ w / 2 ^ 21 % 2 ^ 11 * 2 ^ 21 + w % 2 ^ 5
  mask_svc =
      ground (arith, and_parts 21 w 0x7ff 0x1f, and_mask 11 (w / 2 ^ 21), and_mask 5 (w % 2 ^ 21))

  pub mask_mov : bit_and w 0x7fe0ffe0 ≡ w / 2 ^ 21 % 2 ^ 10 * 2 ^ 21 + w / 2 ^ 5 % 2 ^ 11 * 2 ^ 5
  mask_mov =
      ground
        (arith, and_parts 21 w 0x3ff 0xffe0, and_mask 10 (w / 2 ^ 21), and_field 11 5 (w % 2 ^ 21))

  pub mask_pair : bit_and w 0x3c000000 ≡ w / 2 ^ 26 % 2 ^ 4 * 2 ^ 26
  mask_pair = and_field 4 26 w

  pub mask_31 : bit_and w 0x80000000 ≡ w / 2 ^ 31 % 2 * 2 ^ 31
  mask_31 = and_field 1 31 w

  pub mask_24 : bit_and w 0x01000000 ≡ w / 2 ^ 24 % 2 * 2 ^ 24
  mask_24 = and_field 1 24 w

  pub mask_26 : bit_and w 0x04000000 ≡ w / 2 ^ 26 % 2 * 2 ^ 26
  mask_26 = and_field 1 26 w

  pub low_1 : bit_and w 0x1 ≡ w % 2
  low_1 = and_mask 1 w

  pub low_2 : bit_and w 0x3 ≡ w % 2 ^ 2
  low_2 = and_mask 2 w

  pub low_4 : bit_and w 0xf ≡ w % 2 ^ 4
  low_4 = and_mask 4 w

  pub low_5 : bit_and w 0x1f ≡ w % 2 ^ 5
  low_5 = and_mask 5 w

  pub low_6 : bit_and w 0x3f ≡ w % 2 ^ 6
  low_6 = and_mask 6 w

  pub low_14 : bit_and w 0x3fff ≡ w % 2 ^ 14
  low_14 = and_mask 14 w

  pub low_19 : bit_and w 0x7ffff ≡ w % 2 ^ 19
  low_19 = and_mask 19 w

  pub low_26 : bit_and w 0x03ffffff ≡ w % 2 ^ 26
  low_26 = and_mask 26 w

-- The sign extensions that the decoder makes.
pub sign_extend_21 :
    (v : ℕ) → v < 2 ^ 21 → sign_extend v 21 ≡ (if ltb v (2 ^ 20) then v else v + 2 ^ 64 - 2 ^ 21)
sign_extend_21 v h = sign_extend_lem 20 v (omega arith) h

pub sign_extend_28 :
    (v : ℕ) → v < 2 ^ 28 → sign_extend v 28 ≡ (if ltb v (2 ^ 27) then v else v + 2 ^ 64 - 2 ^ 28)
sign_extend_28 v h = sign_extend_lem 27 v (omega arith) h

pub sign_extend_16 :
    (v : ℕ) → v < 2 ^ 16 → sign_extend v 16 ≡ (if ltb v (2 ^ 15) then v else v + 2 ^ 64 - 2 ^ 16)
sign_extend_16 v h = sign_extend_lem 15 v (omega arith) h
