-- ===== src/Tests.antt =====
-- Test data, and the theorems at concrete inputs.
pub mod Encodings
pub mod Writing
pub mod Relocating
pub mod Checking
pub mod Hooking
pub mod Calling
pub mod Spinning
use hoox.Prelude.{ℕ, none, some, true, false, [], ◌∷◌}
use hoox.Memory.{Mem, store_le}
use hoox.Arm64.Writer.{Writer, Host, linux, ios}

abbrev pub host : Host
host = record { os = linux; ptrauth = false; big_endian = false; sign = λ p. p }

abbrev pub phone : Host
phone = record { os = ios; ptrauth = true; big_endian = false; sign = λ p. p }

abbrev pub blank : Mem
blank = λ a. 0

-- A writer at an address, over a memory, with nothing pending.
abbrev pub writer : Host → Mem → ℕ → Writer
writer h m at = record {
  mem = m;
  flush_on_destroy = true;
  host = h;
  base = at;
  code = at;
  pc = at;
  label_defs = none;
  label_refs = none;
  literal_refs = none;
  earliest_literal_insn = 0;
}

abbrev pub start : Writer
start = writer host blank 0x1000

-- SUB SP, SP, #16; CBZ X0, 0x1010; MOV X1, X2; B 0x2000
abbrev pub code : Mem
code =
    store_le 4
      (store_le 4 (store_le 4 (store_le 4 blank 0x1000 0xd10043ff) 0x1004 0xb4000060) 0x1008
        0xaa0203e1)
      0x100c 0x140003fd
