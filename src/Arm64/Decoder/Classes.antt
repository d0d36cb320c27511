-- ===== src/Arm64/Decoder/Classes.antt =====
-- Which words the chain of hx_decode_arm64 sends to which class.
use hoox.Prelude.{
  ℕ, ◌+◌, ◌*◌, ◌/◌, ◌%◌, ◌^◌, ◌<◌, ◌≢◌, ◌⊎◌, bit_and, ◌≡◌, ◌∙◌, arith, some, false, refl, ◌==◌,
}
use hoox.Arm64.Decoder.{
  Insn, decode, decode_rest, decode_adr, decode_branch, decode_branch_cond, decode_compare_branch,
  decode_test_branch, decode_load_literal, decode_branch_reg, decode_mov, decode_store_pair,
}
use hoox.Arm64.Decoder.Masks.{
  mask_adr, mask_branch, mask_branch_cond, mask_compare, mask_literal, mask_branch_reg, mask_svc,
  mask_mov, mask_pair, low_1,
}

-- Two fields that are not both what they are compared with.
unequal_parts :
    (x y : ℕ)
    → y < 2 ^ 11
    → (x ≢ 0x150) ⊎ (y ≢ 0x1f)
    → (x * 2 ^ 21 + y * 2 ^ 5 == 0x2a0003e0) ≡ false
unequal_parts x y h n = ground arith

module _ (w address : ℕ) where
  pub decode_of_adr : w / 2 ^ 24 % 2 ^ 5 ≡ 16 → decode w address ≡ decode_adr w address
  unfolding decode
  decode_of_adr h = ground (arith, mask_adr w)

  pub decode_of_branch : w / 2 ^ 26 % 2 ^ 5 ≡ 5 → decode w address ≡ decode_branch w address
  unfolding decode
  decode_of_branch h = ground (arith, mask_adr w, mask_branch w)

  pub decode_of_branch_cond :
      w / 2 ^ 24 % 2 ^ 8 ≡ 0x54
      → w / 2 ^ 4 % 2 ≡ 0
      → decode w address ≡ decode_branch_cond w address
  unfolding decode
  decode_of_branch_cond h g = ground (arith, mask_adr w, mask_branch w, mask_branch_cond w)

  pub decode_of_compare :
      w / 2 ^ 25 % 2 ^ 6 ≡ 0x1a → decode w address ≡ decode_compare_branch w address
  unfolding decode
  decode_of_compare h =
      ground (arith, mask_adr w, mask_branch w, mask_branch_cond w, mask_compare w)

  pub decode_of_test : w / 2 ^ 25 % 2 ^ 6 ≡ 0x1b → decode w address ≡ decode_test_branch w address
  unfolding decode
  decode_of_test h = ground (arith, mask_adr w, mask_branch w, mask_branch_cond w, mask_compare w)

  pub decode_of_literal :
      {i : Insn}
      → w / 2 ^ 27 % 2 ^ 3 ≡ 3
      → w / 2 ^ 24 % 2 ^ 2 ≡ 0
      → decode_load_literal w address ≡ some i
      → decode w address ≡ i
  unfolding decode
  decode_of_literal h g e =
      ground (arith, mask_adr w, mask_branch w, mask_branch_cond w, mask_compare w, mask_literal w)

  pub decode_of_branch_reg :
      w / 2 ^ 25 % 2 ^ 7 ≡ 0x6b → decode w address ≡ decode_branch_reg w address
  unfolding decode decode_rest
  decode_of_branch_reg h = ground (
    arith,
    mask_adr w,
    mask_branch w,
    mask_branch_cond w,
    mask_compare w,
    mask_literal w,
    mask_branch_reg w,
  )

  pub decode_of_mov :
      w / 2 ^ 21 % 2 ^ 10 ≡ 0x150
      → w / 2 ^ 5 % 2 ^ 11 ≡ 0x1f
      → decode w address ≡ decode_mov w address
  unfolding decode decode_rest
  decode_of_mov h g = ground (
    arith,
    mask_adr w,
    mask_branch w,
    mask_branch_cond w,
    mask_compare w,
    mask_literal w,
    mask_branch_reg w,
    mask_svc w,
    mask_mov w,
  )

  -- Opcode bits 1010 from bit 26 on are none of the first six classes, nor of the next two.
  decode-decode_rest : w / 2 ^ 26 % 2 ^ 4 ≡ 10 → decode w address ≡ decode_rest w address
  unfolding decode
  decode-decode_rest h =
      ground (arith, mask_adr w, mask_branch w, mask_branch_cond w, mask_compare w, mask_literal w)

  not_branch_reg : w / 2 ^ 26 % 2 ^ 4 ≡ 10 → (bit_and w 0xfe000000 == 0xd6000000) ≡ false
  not_branch_reg h = ground (arith, mask_branch_reg w)

  not_svc : w / 2 ^ 26 % 2 ^ 4 ≡ 10 → (bit_and w 0xffe0001f == 0xd4000001) ≡ false
  not_svc h = ground (arith, mask_svc w)

  not_mov :
      (w / 2 ^ 21 % 2 ^ 10 ≢ 0x150) ⊎ (w / 2 ^ 5 % 2 ^ 11 ≢ 0x1f)
      → (bit_and w 0x7fe0ffe0 == 0x2a0003e0) ≡ false
  not_mov n = rw (mask_mov w) (unequal_parts _ _ (omega arith) n)

  rest_of_store_pair :
      w / 2 ^ 26 % 2 ^ 4 ≡ 10
      → w / 2 ^ 22 % 2 ≡ 0
      → (w / 2 ^ 21 % 2 ^ 10 ≢ 0x150) ⊎ (w / 2 ^ 5 % 2 ^ 11 ≢ 0x1f)
      → decode_rest w address ≡ decode_store_pair w address
  unfolding decode_rest
  rest_of_store_pair h g n =
      rw (not_branch_reg h, not_svc h, not_mov n, mask_pair w, h, low_1 (w / 2 ^ 22), g) refl

  pub decode_of_store_pair :
      w / 2 ^ 26 % 2 ^ 4 ≡ 10
      → w / 2 ^ 22 % 2 ≡ 0
      → (w / 2 ^ 21 % 2 ^ 10 ≢ 0x150) ⊎ (w / 2 ^ 5 % 2 ^ 11 ≢ 0x1f)
      → decode w address ≡ decode_store_pair w address
  decode_of_store_pair h g n = decode-decode_rest h ∙ rest_of_store_pair h g n
