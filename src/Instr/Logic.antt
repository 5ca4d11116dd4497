-- ===== src/Instr/Logic.antt =====
-- The logical instructions of src/instr.c: AND, OR, XOR, NOT and TEST.
pub mod Digits
pub mod Registers
mod Tests
use vm_i386_32bit.Base.{
  ℕ, ◌-◌, ◌*◌, ◌%◌, ◌^◌, bit_and, bit_or, bit_xor, Option, none, some, false, ◌>>=◌,
}
use vm_i386_32bit.Flags.{cf, pf, zf, sf, of, sign, parity, zero_test}
use vm_i386_32bit.Machine.{Cpu, Place, load, store, put}
use vm_i386_32bit.Machine.Registers.{regs_size, width_of}
use vm_i386_32bit.Operand.{
  Operand, op_invalid, op_reg, op_imm, op_mem, advance, reg_place, mem_place, size_width,
  source_value, source_value32,
}
use vm_i386_32bit.Instr.Arith.{masked, base_of, rewrite_place, cmp_width}
use vm_i386_32bit.Instr.Handler.{Handler}

-- The flags in the order in which the handlers write them.
unfoldable pub logic_flags : (res base : ℕ) → Cpu → Cpu
logic_flags res base c =
    let c = put sf (sign res base) c in
    let c = put zf (zero_test res) c in
    let c = put pf (parity res) c in let c = put cf false c in put of false c

-- `*p = f(*p, val); res = *p` at `w` bytes; with the base for the sign.
unfoldable pub combine : (w base : ℕ) → Place → (ℕ → ℕ) → Cpu → Option (ℕ × ℕ × Cpu)
unfolding rewrite_place
combine w base p f c = do (val, res, c) ← rewrite_place w p f c; some (res, base, c)

-- The register branch, which the three share.
unfoldable pub logic_register : (ℕ → ℕ → ℕ) → Operand → (val : ℕ) → Cpu → Option (ℕ × ℕ × Cpu)
unfolding combine
logic_register f op val c = do
  p ← reg_place op
  let w = width_of (regs_size op.reg)
  combine w (regs_size op.reg) p (λ x. f x (masked w val)) c

unfoldable pub and_place : Operand → (val : ℕ) → Cpu → Option (ℕ × ℕ × Cpu)
unfolding logic_register combine
and_place op val c = elim op.kind [
  | op_reg ↦ logic_register bit_and op val c
  | op_mem ↦ (do
    p ← mem_place op c
    combine (size_width op.size) (base_of op.size) p (λ x. bit_and x val) c)
  | op_imm ↦ none
  | op_invalid ↦ none
]

-- OR and XOR into memory take the address and the width of the second operand, and four times the
-- size of the first one as the base.
unfoldable pub or_place : (ℕ → ℕ → ℕ) → (op1 op2 : Operand) → (val : ℕ) → Cpu → Option (ℕ × ℕ × Cpu)
unfolding logic_register combine
or_place f op1 op2 val c = elim op1.kind [
  | op_reg ↦ logic_register f op1 val c
  | op_mem ↦ (do
    p ← mem_place op2 c
    combine (size_width op2.size) (op1.size * 4 % 2 ^ 8) p (λ x. f x val) c)
  | op_imm ↦ none
  | op_invalid ↦ none
]

unfoldable pub and_i : Handler
unfolding and_place logic_flags
and_i insn c = do
  let c = advance insn c
  val ← source_value insn.op2 c
  (res, base, c) ← and_place insn.op1 val c
  some (logic_flags res base c, 0)

unfoldable pub or_i : Handler
unfolding or_place logic_flags
or_i insn c = do
  let c = advance insn c
  val ← source_value insn.op2 c
  (res, base, c) ← or_place bit_or insn.op1 insn.op2 val c
  some (logic_flags res base c, 0)

unfoldable pub xor_i : Handler
unfolding or_place logic_flags
xor_i insn c = do
  let c = advance insn c
  val ← source_value insn.op2 c
  (res, base, c) ← or_place bit_xor insn.op1 insn.op2 val c
  some (logic_flags res base c, 0)

-- As in NEG the test of the operand's type assigns to it.
unfoldable pub not_i : Handler
unfolding cmp_width
not_i insn c = do
  let c = advance insn c
  p ← reg_place insn.op1
  let w = cmp_width insn.op1.size
  x ← load w p c
  c ← store w p (2 ^ 32 - 1 - x) c
  some (c, 0)

-- TEST reads memory at four bytes.
unfoldable pub test_operand : Operand → (val : ℕ) → Cpu → Option (ℕ × ℕ)
test_operand op val c = elim op.kind [
  | op_reg ↦ (do
    p ← reg_place op
    let w = width_of (regs_size op.reg)
    x ← load w p c
    some (bit_and x (masked w val), regs_size op.reg))
  | op_mem ↦ (do p ← mem_place op c; x ← load 4 p c; some (bit_and x val, 0x20))
  | op_imm ↦ none
  | op_invalid ↦ none
]

unfoldable pub test_i : Handler
unfolding test_operand logic_flags
test_i insn c = do
  let c = advance insn c
  val ← source_value32 insn.op2 c
  (res, base) ← test_operand insn.op1 val c
  some (logic_flags res base c, 0)
