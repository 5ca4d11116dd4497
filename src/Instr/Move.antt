-- ===== src/Instr/Move.antt =====
-- The data movement instructions of src/instr.c: MOV, MOVSX, MOVZX, LEA, XCHG and XLAT. Where
-- the source operand has no type the handlers leave a variable unset, and the run is `none` even
-- if the variable would not be used.
pub mod Registers
pub mod Memory
pub mod Extend
mod Tests
use vm_i386_32bit.Base.{ℕ, ◌+◌, ◌%◌, ◌^◌, bit_and, Option, none, some, ◌==◌, if◌then◌else◌, ◌>>=◌}
use vm_i386_32bit.Machine.{Cpu, in_var, load, load_byte, store, u32, eax, ebx}
use vm_i386_32bit.Machine.Registers.{regs_size, width_of}
use vm_i386_32bit.Operand.{
  Insn, Operand, op_invalid, op_reg, op_imm, op_mem, advance, eff_addr, reg_place, mem_place,
  place_of, source_value32,
}
use vm_i386_32bit.Instr.Arith.{
  masked, cmp_width, sign_extend8_16, sign_extend8_32, sign_extend16_32,
}
use vm_i386_32bit.Instr.Handler.{Handler, minus}

-- The destination of MOV: a register by its width, memory at four bytes.
unfoldable pub mov_place : Operand → (val : ℕ) → Cpu → Option Cpu
mov_place op val c = elim op.kind [
  | op_reg ↦ (do p ← reg_place op; let w = width_of (regs_size op.reg); store w p (masked w val) c)
  | op_mem ↦ (do p ← mem_place op c; store 4 p val c)
  | op_imm ↦ some c
  | op_invalid ↦ some c
]

unfoldable pub mov_i : Handler
unfolding mov_place
mov_i insn c = do
  let c = advance insn c
  val ← source_value32 insn.op2 c
  c ← mov_place insn.op1 val c
  some (c, 0)

-- `*p = x` through the register pointer of an operand.
unfoldable pub set_register : (w x : ℕ) → Operand → Cpu → Option Cpu
set_register w x op c = do p ← reg_place op; store w p x c

-- A 32-bit destination stays as it is for a source of another size than 8 and 16 bits.
unfoldable pub movsx_register : (val : ℕ) → (op1 op2 : Operand) → Cpu → Option Cpu
unfolding set_register
movsx_register val op1 op2 c =
    if op1.size == 4
    then if op2.size == 2
      then set_register 4 (sign_extend16_32 (val % 2 ^ 16)) op1 c
      else if op2.size == 1
      then set_register 4 (sign_extend8_32 (val % 2 ^ 8)) op1 c
      else some c
    else set_register 2 (sign_extend8_16 (val % 2 ^ 8)) op1 c

unfoldable pub movsx_i : Handler
unfolding movsx_register
movsx_i insn c = do
  let c = advance insn c
  val ← source_value32 insn.op2 c
  elim insn.op1.kind [
    | op_reg ↦ (do c ← movsx_register val insn.op1 insn.op2 c; some (c, 0))
    | op_mem ↦ some (c, minus 1)
    | op_imm ↦ some (c, minus 1)
    | op_invalid ↦ some (c, minus 1)
  ]

unfoldable pub zero_extend8_32 : ℕ → ℕ
zero_extend8_32 v = bit_and v 0x000000FF

unfoldable pub zero_extend16_32 : ℕ → ℕ
zero_extend16_32 v = bit_and v 0x0000FFFF

unfoldable pub zero_extend8_16 : ℕ → ℕ
zero_extend8_16 v = bit_and v 0x00FF

unfoldable pub movzx_register : (val : ℕ) → (op1 op2 : Operand) → Cpu → Option Cpu
unfolding set_register zero_extend8_32 zero_extend16_32 zero_extend8_16
movzx_register val op1 op2 c =
    if op1.size == 4
    then if op2.size == 2
      then set_register 4 (zero_extend16_32 (val % 2 ^ 16)) op1 c
      else set_register 4 (zero_extend8_32 (val % 2 ^ 8)) op1 c
    else set_register 2 (zero_extend8_16 (val % 2 ^ 8)) op1 c

unfoldable pub movzx_i : Handler
unfolding movzx_register
movzx_i insn c = do
  let c = advance insn c
  val ← source_value32 insn.op2 c
  elim insn.op1.kind [
    | op_reg ↦ (do c ← movzx_register val insn.op1 insn.op2 c; some (c, 0))
    | op_mem ↦ some (c, minus 1)
    | op_imm ↦ some (c, minus 1)
    | op_invalid ↦ some (c, minus 1)
  ]

-- With a register and memory as operands.
unfoldable pub lea_register : Insn → Cpu → Option (Cpu × ℕ)
unfolding set_register
lea_register insn c = do
  addr ← eff_addr insn.op2.mem c
  c ←
      if insn.prefix0 == 0x66
      then set_register 2 (bit_and addr 0xFFFF) insn.op1 c
      else set_register 4 addr insn.op1 c
  some (c, 0)

unfoldable pub lea_i : Handler
unfolding lea_register
lea_i insn c =
    let c = advance insn c in
    elim insn.op1.kind [
      | op_reg ↦ elim insn.op2.kind [
        | op_mem ↦ lea_register insn c
        | op_reg ↦ some (c, minus 1)
        | op_imm ↦ some (c, minus 1)
        | op_invalid ↦ some (c, minus 1)
      ]
      | op_mem ↦ some (c, minus 1)
      | op_imm ↦ some (c, minus 1)
      | op_invalid ↦ some (c, minus 1)
    ]

-- Both operands at the size of the first one.
unfoldable pub xchg_i : Handler
unfolding cmp_width
xchg_i insn c = do
  let c = advance insn c
  let w = cmp_width insn.op1.size
  p1 ← place_of insn.op1 c
  p2 ← place_of insn.op2 c
  temp ← load w p2 c
  x ← load w p1 c
  c ← store w p2 x c
  c ← store w p1 temp c
  some (c, 0)

unfoldable pub xlat_i : Handler
xlat_i insn c = do
  let c = advance insn c
  x ← load_byte (u32 (c.var ebx + c.var eax % 2 ^ 8)) c
  c ← store 1 (in_var eax) x c
  some (c, 0)
