-- ===== src/Instr/Unary.antt =====
-- The arithmetic instructions of src/instr.c on one operand: INC, DEC and NEG.
pub mod Trips
mod Tests
use vm_i386_32bit.Base.{
  ℕ, ◌+◌, ◌-◌, ◌*◌, ◌%◌, ◌^◌, Option, none, some, not, ltb, ◌==◌, if◌then◌else◌, ◌>>=◌,
}
use vm_i386_32bit.Flags.{cf, pf, zf, sf, of, sign, overflow, parity, zero_test}
use vm_i386_32bit.Machine.{Cpu, load, put, u32}
use vm_i386_32bit.Machine.Registers.{regs_size, width_of}
use vm_i386_32bit.Operand.{
  Operand, op_invalid, op_reg, op_imm, op_mem, advance, reg_place, mem_place, size_width,
}
use vm_i386_32bit.Instr.Handler.{Handler}
use vm_i386_32bit.Instr.Arith.{rewrite_place, put_flags, base_of, cmp_width, sub32}

-- INC and DEC leave operand and result at 0 for an operand that is neither register nor memory,
-- and for a register of another width.
unfoldable pub step_register : Operand → (ℕ → ℕ) → Cpu → Option (ℕ × ℕ × Cpu)
step_register op f c =
    if ltb 49 op.reg
    then none
    else if regs_size op.reg == 0
    then some (0, 0, c)
    else (do p ← reg_place op; rewrite_place (width_of (regs_size op.reg)) p f c)

unfoldable pub inc_place : Operand → Cpu → Option (ℕ × ℕ × Cpu)
inc_place op c = elim op.kind [
  | op_reg ↦ step_register op (λ x. u32 (x + 1)) c
  | op_mem ↦ (do p ← mem_place op c; rewrite_place (size_width op.size) p (λ x. u32 (x + 1)) c)
  | op_imm ↦ some (0, 0, c)
  | op_invalid ↦ some (0, 0, c)
]

unfoldable pub inc_i : Handler
inc_i insn c = do
  let c = advance insn c
  (oper1, res, c) ← inc_place insn.op1 c
  some (put_flags (ltb res oper1) oper1 1 res (base_of insn.op1.size) c, 0)

-- DEC of memory works on four bytes whatever the operand's size is.
unfoldable pub dec_place : Operand → Cpu → Option (ℕ × ℕ × Cpu)
dec_place op c = elim op.kind [
  | op_reg ↦ step_register op (λ x. sub32 x 1) c
  | op_mem ↦ (do p ← mem_place op c; rewrite_place 4 p (λ x. sub32 x 1) c)
  | op_imm ↦ some (0, 0, c)
  | op_invalid ↦ some (0, 0, c)
]

unfoldable pub dec_i : Handler
dec_i insn c = do
  let c = advance insn c
  (oper1, res, c) ← dec_place insn.op1 c
  some (put_flags (ltb oper1 1) oper1 1 res (base_of insn.op1.size) c, 0)

-- `if (op1.type = X86_OP_REG)` assigns, so NEG reads the register member of any operand.
unfoldable pub neg_i : Handler
neg_i insn c = do
  let c = advance insn c
  p ← reg_place insn.op1
  let w = cmp_width insn.op1.size
  old ← load w p c
  let c = put cf (not (zero_test old)) c
  (oper1, res, c) ← rewrite_place w p (λ x. sub32 0 x) c
  let c = put of (overflow 0 oper1 res (base_of insn.op1.size)) c
  let c = put sf (sign res (base_of insn.op1.size)) c
  let c = put pf (parity res) c
  some (put zf (zero_test res) c, 0)
