-- ===== src/Arm64/Writer/Loads.antt =====
-- The loads and stores of src/arch/arm64/hooxarm64writer.c.
use hoox.Prelude.{
  ℕ, ◌+◌, ◌-◌, ◌*◌, ◌/◌, ◌^◌, bit_and, bit_or, Bool, true, false, not, ◌&&◌, ◌||◌, Option, none,
  some, ◌==◌, if◌then◌else◌, ◌>>=◌,
}
use hoox.Prelude.Words.{◌<<◌, ◌>>◌, ◌or◌, u32, u64, sub64, sdiv, srem, is_within_int}
use hoox.Memory.{store_le}
use hoox.Arm64.Reg
use hoox.Arm64.Reg.{RegInfo, describe_reg}
use hoox.Arm64.Writer.{
  Writer, LiteralWidth, literal_32, literal_64, add_literal_reference_here, offset, strip, patch,
}
use hoox.Arm64.Writer.Emit.{put_instruction}
use hoox.Arm64.Writer.Branches.{refuse, put, word_offset}
use hoox.Arm64.Writer.Moves.{put_mov_reg_reg}

-- hoox_arm64_writer_put_ldr_reg_pcrel
unfoldable pub put_ldr_reg_pcrel : Writer → RegInfo → ℕ → Bool × Writer
put_ldr_reg_pcrel w ri src_address = elim (word_offset 19 w src_address) [
  | none ↦ (false, w)
  | some imm19 ↦ (
    true,
    put_instruction w (
        u32 (
          (if ri.width == 64 then 0x50000000 else 0x10000000)
          or (if ri.is_integer then 0x08000000 else 0x0c000000)
          or bit_and imm19 0x7ffff << 5
          or ri.meta)),
  )
]

-- The shape that put_ldr_reg_u32 and put_ldr_reg_u64 share: the zero register for an integer 0,
-- a literal for all else.
unfoldable pub put_ldr_reg_literal : ℕ → LiteralWidth → ℕ → Writer → ℕ → ℕ → Option (Bool × Writer)
put_ldr_reg_literal bits width zero_reg w reg val = do
  ri ← describe_reg reg
  if ri.is_integer && val == 0
      then put_mov_reg_reg w reg zero_reg
      else if not (ri.width == bits)
      then refuse w
      else some (true, (put_ldr_reg_pcrel (add_literal_reference_here w val width) ri 0).1)

-- hoox_arm64_writer_put_ldr_reg_u32
unfoldable pub put_ldr_reg_u32 : Writer → ℕ → ℕ → Option (Bool × Writer)
put_ldr_reg_u32 = put_ldr_reg_literal 32 literal_32 Reg.wzr

-- hoox_arm64_writer_put_ldr_reg_u64
unfoldable pub put_ldr_reg_u64 : Writer → ℕ → ℕ → Option (Bool × Writer)
put_ldr_reg_u64 = put_ldr_reg_literal 64 literal_64 Reg.xzr

-- hoox_arm64_writer_put_ldr_reg_address
unfoldable pub put_ldr_reg_address : Writer → ℕ → ℕ → Option (Bool × Writer)
put_ldr_reg_address = put_ldr_reg_u64

-- hoox_arm64_writer_put_ldr_reg_u32_ptr and hoox_arm64_writer_put_ldr_reg_u64_ptr
unfoldable pub put_ldr_reg_ptr : ℕ → Writer → ℕ → ℕ → Option (Bool × Writer)
put_ldr_reg_ptr bits w reg src_address = do
  ri ← describe_reg reg
  if not (ri.width == bits) then refuse w else some (put_ldr_reg_pcrel w ri src_address)

-- hoox_arm64_writer_put_ldr_reg_ref
unfoldable pub put_ldr_reg_ref : Writer → ℕ → Option (ℕ × Writer)
put_ldr_reg_ref w reg = do ri ← describe_reg reg; some (offset w, (put_ldr_reg_pcrel w ri 0).1)

-- hoox_arm64_writer_put_ldr_reg_value
unfoldable pub put_ldr_reg_value : Writer → ℕ → ℕ → Writer
put_ldr_reg_value w ref value =
    let distance = u32 (offset w + 2 ^ 32 - ref) in
    let m = patch w.mem (w.base + ref / 4 * 4) (bit_and (distance / 4) 0x7ffff << 5) in
    record w { mem = store_le 8 m w.code value; code = w.code + 8; pc = u64 (w.pc + 8) }

-- `size`, `v` and `opc` of a single load (opc 1) or store (opc 0).
pub record SingleForm : Type 0 where
  pub size : ℕ
  pub v : ℕ
  pub opc : ℕ

unfoldable pub single_form : ℕ → RegInfo → SingleForm
single_form opc ri =
    let size = if ri.width == 64 then 3 else 2 in
    if ri.is_integer
    then record { size = size; v = 0; opc = opc }
    else if ri.width == 128
    then record { size = 0; v = 1; opc = bit_or opc 2 }
    else record { size = size; v = 1; opc = opc }

-- The body of put_ldr_reg_reg_offset (opc 1, `rt` the destination) and of
-- put_str_reg_reg_offset (opc 0, `rt` the source); `rn` holds the address.
unfoldable pub put_single_offset : ℕ → Writer → ℕ → ℕ → ℕ → Option (Bool × Writer)
put_single_offset opc w rt_reg rn_reg byte_offset = do
  rt ← describe_reg rt_reg
  rn ← describe_reg rn_reg
  let form = single_form opc rt
  if not (rn.width == 64)
      then refuse w
      else put w (
          0x39000000
          or u32 (form.size << 30)
          or form.v << 26
          or form.opc << 22
          or u32 (u32 byte_offset / (rt.width / 8) << 10)
          or rn.meta << 5
          or rt.meta)

-- hoox_arm64_writer_put_ldr_reg_reg_offset
unfoldable pub put_ldr_reg_reg_offset : Writer → ℕ → ℕ → ℕ → Option (Bool × Writer)
put_ldr_reg_reg_offset = put_single_offset 1

-- hoox_arm64_writer_put_ldr_reg_reg
unfoldable pub put_ldr_reg_reg : Writer → ℕ → ℕ → Option (Bool × Writer)
put_ldr_reg_reg w dst src = put_ldr_reg_reg_offset w dst src 0

-- hoox_arm64_writer_put_str_reg_reg_offset
unfoldable pub put_str_reg_reg_offset : Writer → ℕ → ℕ → ℕ → Option (Bool × Writer)
put_str_reg_reg_offset = put_single_offset 0

-- hoox_arm64_writer_put_str_reg_reg
unfoldable pub put_str_reg_reg : Writer → ℕ → ℕ → Option (Bool × Writer)
put_str_reg_reg w src dst = put_str_reg_reg_offset w src dst 0

-- The body of put_ldr_reg_reg_offset_mode and put_str_reg_reg_offset_mode. The offset is an
-- hx_ssize, as its bit pattern; `mode` is the number of the HooxArm64IndexMode.
unfoldable pub put_single_mode : ℕ → Writer → ℕ → ℕ → ℕ → ℕ → Option (Bool × Writer)
put_single_mode opc w rt_reg rn_reg byte_offset mode = do
  rt ← describe_reg rt_reg
  rn ← describe_reg rn_reg
  let form = single_form opc rt
  if not (rn.width == 64)
      then refuse w
      else if not (is_within_int 9 byte_offset)
      then refuse w
      else put w (
          0x38000000
          or u32 (form.size << 30)
          or form.v << 26
          or form.opc << 22
          or bit_and (u32 byte_offset) 0x1ff << 12
          or mode << 10
          or rn.meta << 5
          or rt.meta)

-- hoox_arm64_writer_put_ldr_reg_reg_offset_mode
unfoldable pub put_ldr_reg_reg_offset_mode : Writer → ℕ → ℕ → ℕ → ℕ → Option (Bool × Writer)
put_ldr_reg_reg_offset_mode = put_single_mode 1

-- hoox_arm64_writer_put_str_reg_reg_offset_mode
unfoldable pub put_str_reg_reg_offset_mode : Writer → ℕ → ℕ → ℕ → ℕ → Option (Bool × Writer)
put_str_reg_reg_offset_mode = put_single_mode 0

-- hoox_arm64_writer_put_ldrsw_reg_reg_offset
unfoldable pub put_ldrsw_reg_reg_offset : Writer → ℕ → ℕ → ℕ → Option (Bool × Writer)
put_ldrsw_reg_reg_offset w dst src src_offset = do
  rd ← describe_reg dst
  rs ← describe_reg src
  let immediate = src_offset / 4
  if not (rd.width == 64)
        || not (rs.width == 64)
        || not rd.is_integer
        || not rs.is_integer
        || not (immediate >> 12 == 0)
      then refuse w
      else put w (u32 (0xb9800000 or immediate << 10 or rs.meta << 5 or rd.meta))

-- hoox_arm64_writer_put_adrp_reg_address
unfoldable pub put_adrp_reg_address : Writer → ℕ → ℕ → Option (Bool × Writer)
put_adrp_reg_address w reg address = do
  ri ← describe_reg reg
  let distance = sub64 (strip w address) (bit_and w.pc 0xfffffffffffff000)
  let pages = sdiv distance 4096
  if not (ri.width == 64) || not (srem distance 4096 == 0) || not (is_within_int 21 pages)
      then refuse w
      else put w
          (0x90000000 or bit_and pages 0x3 << 29 or (bit_and pages 0x1ffffc >> 2) << 5 or ri.meta)
