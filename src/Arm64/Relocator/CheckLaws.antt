-- ===== src/Arm64/Relocator/CheckLaws.antt =====
-- The check before relocating: the length stops at branch targets, and a scratch register is one
-- that no instruction names as a register operand.
use mathlib.Core.List.{Memᴰ}
use hoox.Prelude.{
  ℕ, zero, suc, ◌+◌, ◌-◌, ◌/◌, ◌%◌, ◌^◌, ◌≤◌, ◌<◌, ◌≡◌, refl, sym, none, Bool, ◌∙◌, ap, ◌≢◌, ◌⊎◌,
  inl, inr, true, false, List, [], ◌∷◌, Bool-cases, Option, some, arith, ◌==◌, if◌then◌else◌,
}
use hoox.Prelude.Words.{u32}
use hoox.Arm64.Decoder.{Insn, Op, decode, decode_store_pair, gp_reg}
use hoox.Arm64.Decoder.Classes.{decode_of_store_pair}
use hoox.Arm64.Decoder.Masks.{low_5, low_2}
use hoox.Arm64.Relocator.{Relocator}
use hoox.Arm64.Relocator.Check.{shorten, reads_register, is_free_at, is_free_from, register_is_free}

reads_register-Memᴰ :
    (reg : ℕ) (ops : List Op) → Memᴰ (Op.reg reg) ops → reads_register reg ops ≡ true
unfolding reads_register
reads_register-Memᴰ reg [] i = elim i [ ]
reads_register-Memᴰ reg (Op.reg r ∷ ops) (Memᴰ.head e) = ground arith
reads_register-Memᴰ reg (Op.imm v ∷ ops) (Memᴰ.head e) = absurd (ground arith)
reads_register-Memᴰ reg (Op.mem x y z ∷ ops) (Memᴰ.head e) = absurd (ground arith)
reads_register-Memᴰ reg (Op.reg r ∷ ops) (Memᴰ.tail i) =
    ground (arith, reads_register-Memᴰ reg ops i)
reads_register-Memᴰ reg (Op.imm v ∷ ops) (Memᴰ.tail i) = reads_register-Memᴰ reg ops i
reads_register-Memᴰ reg (Op.mem x y z ∷ ops) (Memᴰ.tail i) = reads_register-Memᴰ reg ops i

two_tests :
    (r₁ r₂ reg : ℕ)
    → reg ≢ r₁
    → reg ≢ r₂
    → (if r₁ == reg then true else if r₂ == reg then true else false) ≡ false
two_tests r₁ r₂ reg h g = ground arith

is_free_at-true :
    (reg : ℕ) (slot : Option Insn) (rest : Option Bool)
    → is_free_at reg slot rest ≡ some true
    → (i : Insn) × (slot ≡ some i) × (reads_register reg i.operands ≡ false) × (rest ≡ some true)
unfolding is_free_at
is_free_at-true reg none rest h = cc
is_free_at-true reg (some i) rest h = (i, refl, ground arith, ground arith)

is_free_from-step :
    (slots : ℕ → Option Insn) (reg index left : ℕ)
    → is_free_from slots reg index (suc left) ≡ some true
    → is_free_at reg (slots index) (is_free_from slots reg (index + 1) left) ≡ some true
unfolding is_free_from
is_free_from-step slots reg index left h = ground arith

is_free_from_sound :
    (slots : ℕ → Option Insn) (reg index left k : ℕ) (i : Insn)
    → is_free_from slots reg index left ≡ some true
    → index ≤ k
    → k < index + left
    → slots k ≡ some i
    → reads_register reg i.operands ≡ false
is_free_from_sound slots reg index zero k i free low high e = absurd (omega arith)
is_free_from_sound slots reg index (suc left) k i free low high e =
    let (first, at, unnamed, later) =
      is_free_at-true reg (slots index) (is_free_from slots reg (index + 1) left)
        (is_free_from-step slots reg index left free) in
    elim (Bool-cases (k == index)) [
      | inl same ↦
          let at_k : index ≡ k = ground arith in
          let both : first ≡ i = let eq : some first ≡ some i = sym at ∙ ap slots at_k ∙ e in cc in
          ap (λ (x : Insn). reads_register reg x.operands) (sym both) ∙ unnamed
      | inr other ↦
          is_free_from_sound slots reg (index + 1) left k i later (ground arith) (ground arith) e
    ]

-- A register that register_is_free finds free is no register operand of any of the first `n / 4`
-- instructions that were read.
pub register_is_free_sound :
    (r : Relocator) (n reg k : ℕ) (i : Insn)
    → register_is_free r n reg ≡ some true
    → k < n / 4
    → r.slots k ≡ some i
    → ¬ Memᴰ (Op.reg reg) i.operands
unfolding register_is_free
register_is_free_sound r n reg k i free low e named =
    let is_read = reads_register-Memᴰ reg i.operands named in
    let is_not = is_free_from_sound r.slots reg 0 (n / 4) k i free (omega arith) (omega arith) e in
    absurd (ground arith)

-- A word that the decoder takes for a store of a pair, by bits 26 to 29 and bit 22 and for not
-- being a MOV, names as register operands only the two registers in bits 0 to 4 and 10 to 14: the
-- scratch scan passes over the register in bits 5 to 9, and over the one in bits 16 to 20.
pub store_pair-reads :
    (word pc reg : ℕ)
    → word / 2 ^ 26 % 2 ^ 4 ≡ 10
    → word / 2 ^ 22 % 2 ≡ 0
    → (word / 2 ^ 21 % 2 ^ 10 ≢ 0x150) ⊎ (word / 2 ^ 5 % 2 ^ 11 ≢ 0x1f)
    → (reg ≢ gp_reg (word / 2 ^ 30 % 4 == 2) (word % 32))
      × (reg ≢ gp_reg (word / 2 ^ 30 % 4 == 2) (word / 2 ^ 10 % 32))
    → reads_register reg (decode word pc).operands ≡ false
unfolding decode_store_pair reads_register
store_pair-reads word pc reg class store general (first, second) =
    rw
      (
        decode_of_store_pair word pc class store general,
        low_2 (word / 2 ^ 30),
        low_5 word,
        low_5 (word / 2 ^ 10),
      )
      (two_tests _ _ reg first second)

pub shorten-le : (address : ℕ) (ts : List ℕ) (n : ℕ) → shorten address ts n ≤ n
unfolding shorten
shorten-le address [] n = omega arith
shorten-le address (t ∷ ts) n =
    ground (arith, shorten-le address ts n, shorten-le address ts (u32 (t - address)))

-- With checked targets at whole instructions from the start, and a length of 32 bits, the length
-- that can_relocate allows stops at each target behind the start.
pub shorten-bounds :
    (address : ℕ) (ts : List ℕ) (n : ℕ)
    → n < 2 ^ 32
    → ((t : ℕ) → Memᴰ t ts → (t - address) % 4 ≡ 0)
    → (t : ℕ) → Memᴰ t ts
    → address < t
    → shorten address ts n ≤ t - address
unfolding shorten
shorten-bounds address [] n small aligned t i low = elim i [ ]
shorten-bounds address (x ∷ ts) n small aligned t (Memᴰ.head e) low = ground (
  arith,
  aligned t (Memᴰ.head e),
  shorten-le address ts n,
  shorten-le address ts (u32 (x - address)),
)
shorten-bounds address (x ∷ ts) n small aligned t (Memᴰ.tail i) low =
    let later = λ (s : ℕ) (j : Memᴰ s ts). aligned s (Memᴰ.tail j) in
    ground (
      arith,
      aligned t (Memᴰ.tail i),
      shorten-bounds address ts n small later t i low,
      shorten-bounds address ts (u32 (x - address)) (omega arith) later t i low,
    )
