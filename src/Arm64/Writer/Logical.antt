-- ===== src/Arm64/Writer/Logical.antt =====
-- The logical immediates of src/arch/arm64/hooxarm64writer.c and the instructions that take one.
-- The bit counts are the portable loops of the source; its compiler intrinsics count the same.
use hoox.Prelude.{
  ℕ, zero, suc, ◌+◌, ◌-◌, ◌/◌, ◌^◌, bit_and, bit_or, bit_xor, Bool, false, not, ◌&&◌, ◌||◌, Option,
  none, some, ltb, ◌==◌, if◌then◌else◌, ◌>>=◌,
}
use hoox.Prelude.Words.{◌<<◌, ◌>>◌, ◌or◌, u32, u64}
use hoox.Arm64.Reg.{describe_reg}
use hoox.Arm64.Writer.{Writer}
use hoox.Arm64.Writer.Branches.{refuse, put}

-- `~value` on 64 and on 32 bits
abbrev pub not64 : ℕ → ℕ
not64 value = 2 ^ 64 - 1 - value

abbrev pub not32 : ℕ → ℕ
not32 value = 2 ^ 32 - 1 - value

-- hoox_is_mask_64
unfoldable pub is_mask_64 : ℕ → Bool
is_mask_64 value = if value == 0 then false else bit_and (u64 (value + 1)) value == 0

-- hoox_is_shifted_mask_64
unfoldable pub is_shifted_mask_64 : ℕ → Bool
is_shifted_mask_64 value = if value == 0 then false else is_mask_64 (bit_or (value - 1) value)

-- The loops of hoox_count_leading_zeros and hoox_count_trailing_zeros, with `fuel` rounds.
unfoldable pub leading_zeros_loop : ℕ → ℕ → ℕ → ℕ
leading_zeros_loop zero bits n = n
leading_zeros_loop (suc fuel) bits n =
    let rest = leading_zeros_loop fuel (u64 (bits << 1)) (n + 1) in
    if bit_and bits (2 ^ 63) == 0 then rest else n

unfoldable pub trailing_zeros_loop : ℕ → ℕ → ℕ → ℕ
trailing_zeros_loop zero bits n = n
trailing_zeros_loop (suc fuel) bits n =
    let rest = trailing_zeros_loop fuel (bits >> 1) (n + 1) in
    if bit_and bits 1 == 0 then rest else n

-- hoox_count_leading_zeros and hoox_count_trailing_zeros; 64 rounds find the bit that is set.
unfoldable pub count_leading_zeros : ℕ → ℕ
count_leading_zeros value = if value == 0 then 64 else leading_zeros_loop 64 value 0

unfoldable pub count_trailing_zeros : ℕ → ℕ
count_trailing_zeros value = if value == 0 then 64 else trailing_zeros_loop 64 value 0

-- hoox_count_leading_ones and hoox_count_trailing_ones
unfoldable pub count_leading_ones : ℕ → ℕ
count_leading_ones value = count_leading_zeros (not64 value)

unfoldable pub count_trailing_ones : ℕ → ℕ
count_trailing_ones value = count_trailing_zeros (not64 value)

-- The do-while loop of hoox_arm64_determine_logical_element_size: a size of 64 is halved 5 times
-- at most.
unfoldable pub element_size_loop : ℕ → ℕ → ℕ → ℕ
element_size_loop zero imm_value size = size
element_size_loop (suc fuel) imm_value size =
    let next_size = size / 2 in
    let mask = (1 << next_size) - 1 in
    let again = element_size_loop fuel imm_value next_size in
    if not (bit_and imm_value mask == bit_and (imm_value >> next_size) mask)
    then size
    else if ltb 2 next_size
    then again
    else next_size

-- hoox_arm64_determine_logical_element_size
unfoldable pub determine_logical_element_size : ℕ → ℕ → ℕ
determine_logical_element_size imm_value reg_width = element_size_loop 6 imm_value reg_width

-- hoox_arm64_try_determine_logical_rotation: the rotations and the trailing ones.
unfoldable pub try_determine_logical_rotation : ℕ → ℕ → Option (ℕ × ℕ)
try_determine_logical_rotation imm_value element_size =
    let mask = (2 ^ 64 - 1) >> (64 - element_size) in
    let imm = bit_and imm_value mask in
    let wide = bit_or imm (not64 mask) in
    let leading = count_leading_ones wide in
    let rotations = count_trailing_zeros imm in
    if is_shifted_mask_64 imm
    then some (rotations, count_trailing_ones (imm >> rotations))
    else if not (is_shifted_mask_64 (not64 wide))
    then none
    else some
        (64 - leading, u32 (leading + count_trailing_ones wide + 2 ^ 32 - (64 - element_size)))

-- hoox_arm64_try_encode_logical_immediate
unfoldable pub try_encode_logical_immediate : ℕ → ℕ → Option ℕ
try_encode_logical_immediate imm_value reg_width =
    if imm_value == 0 || imm_value == 2 ^ 64 - 1
    then none
    else if reg_width == 32 && (not (imm_value >> 32 == 0) || imm_value == 2 ^ 32 - 1)
    then none
    else do
      let element_size = determine_logical_element_size imm_value reg_width
      (num_rotations, num_trailing_ones) ← try_determine_logical_rotation imm_value element_size
      let immr = bit_and (u32 (element_size + 2 ^ 32 - num_rotations)) (element_size - 1)
      let imms = bit_or (u32 (not32 (element_size - 1) << 1)) (u32 (num_trailing_ones + 2 ^ 32 - 1))
      let n = bit_xor (bit_and (imms >> 6) 1) 1
      some (n << 12 or immr << 6 or bit_and imms 0x3f)

-- hoox_arm64_writer_put_and_reg_reg_imm
unfoldable pub put_and_reg_reg_imm : Writer → ℕ → ℕ → ℕ → Option (Bool × Writer)
put_and_reg_reg_imm w dst_reg left_reg right_value = do
  rd ← describe_reg dst_reg
  rl ← describe_reg left_reg
  if not (rd.width == rl.width)
      then refuse w
      else elim (try_encode_logical_immediate right_value rd.width) [
        | none ↦ refuse w
        | some encoded ↦ put w (rd.sf or 0x12000000 or rd.meta or rl.meta << 5 or encoded << 10)
      ]

-- hoox_arm64_writer_put_tst_reg_imm
unfoldable pub put_tst_reg_imm : Writer → ℕ → ℕ → Option (Bool × Writer)
put_tst_reg_imm w reg imm_value = do
  ri ← describe_reg reg
  elim (try_encode_logical_immediate imm_value ri.width) [
    | none ↦ refuse w
    | some encoded ↦ put w (ri.sf or 0x7200001f or ri.meta << 5 or encoded << 10)
  ]
