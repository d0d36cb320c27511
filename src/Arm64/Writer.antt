-- ===== src/Arm64/Writer.antt =====
-- src/arch/arm64/hooxarm64writer.c: the code writer's state, its labels and its literal pool.
-- The C writer keeps three pointers into memory; here it carries the memory itself. A pointer is
-- its address, and NULL is 0.
pub mod Branches
pub mod Moves
pub mod Loads
pub mod Pairs
pub mod Logical
pub mod Calls
pub mod Flow
pub mod Commit
pub mod Emit
pub mod Flush
pub mod LabelTable
pub mod Spread
pub mod Labels
pub mod Slots
pub mod Literals
pub mod Pool
use hoox.Prelude.{
  ℕ, zero, suc, ◌+◌, ◌-◌, ◌*◌, ◌/◌, ◌%◌, ◌^◌, bit_and, bit_or, Bool, true, false, not, ◌&&◌, Option,
  none, some, List, [], ◌∷◌, ◌++◌, leb, ◌==◌, if◌then◌else◌, length,
}
use hoox.Prelude.Words.{◌<<◌, ◌>>◌, u32, u64, sub64, sdiv, is_within_int}
use hoox.Memory.{Mem, load_le, store_le, load_be, store_be, store_bytes}

-- enum _HooxArm64LabelRefType
pub data LabelRefType : Type 0 where
  b b_cond bl cbz cbnz tbz tbnz : LabelRefType

-- struct _HooxArm64LabelRef
pub record LabelRef : Type 0 where
  pub id : ℕ
  pub type : LabelRefType
  pub insn : ℕ

-- enum _HooxArm64LiteralWidth
pub data LiteralWidth : Type 0 where
  literal_32 literal_64 : LiteralWidth

-- struct _HooxArm64LiteralRef
pub record LiteralRef : Type 0 where
  pub insn : ℕ
  pub val : ℕ
  pub width : LiteralWidth

-- HooxOS
pub data Os : Type 0 where
  none_os windows macos linux ios watchos tvos xros android freebsd : Os

-- What hoox_arm64_writer_init asks of the host: hoox_process_get_native_os,
-- hoox_query_ptrauth_support, HX_BYTE_ORDER and hoox_sign_code_address.
pub record Host : Type 0 where
  pub os : Os
  pub ptrauth : Bool
  pub big_endian : Bool
  pub sign : ℕ → ℕ

-- struct _HooxArm64Writer. A metal array that is not allocated is `none`; `label_defs` is the map
-- that the metal hash table holds, `none` before the first label.
pub record Writer : Type 0 where
  pub mem : Mem
  pub flush_on_destroy : Bool
  pub host : Host
  pub base : ℕ
  pub code : ℕ
  pub pc : ℕ
  pub label_defs : Option (List (ℕ × ℕ))
  pub label_refs : Option (List LabelRef)
  pub literal_refs : Option (List LiteralRef)
  pub earliest_literal_insn : ℕ

-- HX_POINTER values of the label table: 0 for a key that is not there.
unfoldable pub lookup_label : ℕ → List (ℕ × ℕ) → ℕ
lookup_label id [] = 0
lookup_label id ((k, v) ∷ defs) = if k == id then v else lookup_label id defs

-- hoox_metal_hash_table_insert, which keeps the key and replaces the value.
unfoldable pub insert_label : ℕ → ℕ → List (ℕ × ℕ) → List (ℕ × ℕ)
insert_label id v [] = (id, v) ∷ []
insert_label id v ((k, u) ∷ defs) =
    if k == id then (k, v) ∷ defs else (k, u) ∷ insert_label id v defs

-- hoox_metal_array_remove_all, where the array is allocated.
abbrev clear_array {ℓ} : {A : Type ℓ} → Option (List A) → Option (List A)
clear_array none = none
clear_array (some xs) = some []

-- hoox_metal_array_append, after hoox_metal_array_init where that is needed.
abbrev pub append_array {ℓ} : {A : Type ℓ} → Option (List A) → A → Option (List A)
append_array none x = some (x ∷ [])
append_array (some xs) x = some (xs ++ (x ∷ []))

-- hoox_arm64_writer_reset_refs
unfoldable pub reset_refs : Writer → Writer
reset_refs w = record w {
  label_refs = clear_array w.label_refs;
  literal_refs = clear_array w.literal_refs;
  earliest_literal_insn = 0;
}

-- hoox_arm64_writer_reset
unfoldable pub reset : Writer → ℕ → Writer
reset w address = reset_refs (record w {
  base = address;
  code = address;
  pc = address;
  label_defs = clear_array w.label_defs;
})

-- hoox_arm64_writer_init
unfoldable pub init : Host → Mem → ℕ → Writer
init h m address =
    reset
      (record {
        mem = m;
        flush_on_destroy = true;
        host = h;
        base = 0;
        code = 0;
        pc = 0;
        label_defs = none;
        label_refs = none;
        literal_refs = none;
        earliest_literal_insn = 0;
      })
      address

-- hoox_arm64_writer_offset
unfoldable pub offset : Writer → ℕ
offset w = u32 ((w.code - w.base) / 4 * 4)

-- hoox_arm64_writer_skip
unfoldable pub skip : Writer → ℕ → Writer
skip w n = record w { code = w.code + n; pc = u64 (w.pc + n) }

-- hoox_arm64_writer_put_label
unfoldable pub put_label : Writer → ℕ → Bool × Writer
put_label w id =
    let defs : List (ℕ × ℕ) = elim w.label_defs [ none ↦ [] | some ds ↦ ds ] in
    if not (lookup_label id defs == 0)
    then (false, record w { label_defs = some defs })
    else (true, record w { label_defs = some (insert_label id w.code defs) })

-- hoox_arm64_writer_add_label_reference_here
unfoldable pub add_label_reference_here : Writer → ℕ → LabelRefType → Writer
add_label_reference_here w id t = record w {
  label_refs = append_array w.label_refs (record { id = id; type = t; insn = w.code });
}

-- hoox_arm64_writer_add_literal_reference_here
unfoldable pub add_literal_reference_here : Writer → ℕ → LiteralWidth → Writer
add_literal_reference_here w val width = record w {
  literal_refs = append_array w.literal_refs (record { insn = w.code; val = val; width = width });
  earliest_literal_insn = if w.earliest_literal_insn == 0 then w.code else w.earliest_literal_insn;
}

-- `*insn |= field`, on the little-endian instruction.
unfoldable pub patch : Mem → ℕ → ℕ → Mem
patch m insn field = store_le 4 m insn (bit_or (load_le 4 m insn) field)

-- hoox_arm64_writer_sign
unfoldable pub sign : Writer → ℕ → ℕ
sign w value = if w.host.ptrauth then w.host.sign value else value

-- hoox_arm64_writer_strip
unfoldable pub strip : Writer → ℕ → ℕ
strip w value = if not w.host.ptrauth then value else elim w.host.os [
  | macos ↦ bit_and value 0x7fffffffff
  | ios ↦ bit_and value 0x7fffffffff
  | xros ↦ bit_and value 0x7fffffffff
  | _ ↦ value
]
