-- ===== src/Operand.antt =====
-- Decoded instructions as the disassembler, Capstone, hands them over, and how the handlers of
-- src/instr.c find and read their operands. Capstone keeps the register, the immediate and the
-- address of an operand in one union; here they are three fields, so that what a member other than
-- the one that `type` selects holds is left open.
pub mod Laws
use vm_i386_32bit.Base.{
  ℕ, ◌+◌, ◌*◌, ◌/◌, ◌%◌, ◌^◌, bit_and, bit_or, Option, none, some, ◌==◌, if◌then◌else◌, ◌>>=◌,
}
use vm_i386_32bit.Machine.{Cpu, Place, in_var, in_mem, load, load_bytes, set_var, u32, eip}
use vm_i386_32bit.Machine.Registers.{regs, reg_val}

-- `x86_op_mem`. The register number 0 is X86_REG_INVALID; `disp` is the displacement in two's
-- complement.
pub record MemOp : Type 0 where
  pub segment : ℕ
  pub base : ℕ
  pub index : ℕ
  pub scale : ℕ
  pub disp : ℕ

-- X86_OP_INVALID, X86_OP_REG, X86_OP_IMM and X86_OP_MEM.
pub data OpType : Type 0 where
  op_invalid op_reg op_imm op_mem : OpType

-- `cs_x86_op`, with the immediate in 64-bit two's complement and the size in bytes.
pub record Operand : Type 0 where
  pub kind : OpType
  pub reg : ℕ
  pub imm : ℕ
  pub mem : MemOp
  pub size : ℕ

-- The parts of `cs_insn` and `cs_x86` that the handlers read; `opcode` is `bytes[0]`.
pub record Insn : Type 0 where
  pub size : ℕ
  pub opcode : ℕ
  pub prefix0 : ℕ
  pub op_count : ℕ
  pub op1 : Operand
  pub op2 : Operand
  pub op3 : Operand

-- `eip += insn->size`
unfoldable pub advance : Insn → Cpu → Cpu
advance insn c = set_var eip (u32 (c.var eip + insn.size)) c

-- The number of entries of the descriptor table, and the size of one: four fields of 16 and 8 bits
-- up to `base_high`, the byte `used`, and one of padding.
abbrev pub gdt_entries : ℕ
gdt_entries = 9

abbrev pub descriptor_size : ℕ
descriptor_size = 10

abbrev descriptor : ℕ → Cpu → ℕ
descriptor selector c =
    c.gdtr.base + bit_and (selector / 2 ^ 3) 0x1FFF % gdt_entries * descriptor_size

unfoldable pub get_gdt_base : ℕ → Cpu → Option ℕ
get_gdt_base selector c = do
  let p = descriptor selector c
  base_low ← load_bytes 2 (p + 2) c
  base_mid ← load_bytes 1 (p + 4) c
  base_high ← load_bytes 1 (p + 7) c
  some (bit_or (bit_or base_low (base_mid * 2 ^ 16)) (base_high * 2 ^ 24))

unfoldable pub get_gdt_limit : ℕ → Cpu → Option ℕ
get_gdt_limit selector c = load_bytes 2 (descriptor selector c) c

-- `if (m.base != X86_REG_INVALID) base = reg_val(m.base)`, for the base and the index
abbrev reg_or_zero : ℕ → Cpu → Option ℕ
reg_or_zero r c = if r == 0 then some 0 else reg_val r c

abbrev segment_base : ℕ → Cpu → Option ℕ
segment_base r c = if r == 0 then some 0 else (do s ← reg_val r c; get_gdt_base (s % 2 ^ 16) c)

-- The sum is taken on 32 bits; a signed overflow wraps.
unfoldable pub eff_addr : MemOp → Cpu → Option ℕ
eff_addr m c = do
  base ← reg_or_zero m.base c
  index ← reg_or_zero m.index c
  let scale = if m.scale == 0 then 1 else m.scale
  segment ← segment_base m.segment c
  some (u32 (segment + base + index * scale + m.disp))

-- `regs[op.reg]` and `mem + eff_addr(op.mem)` as pointers.
unfoldable pub reg_place : Operand → Option Place
reg_place op = do v ← regs op.reg; some (in_var v)

unfoldable pub mem_place : Operand → Cpu → Option Place
mem_place op c = do a ← eff_addr op.mem c; some (in_mem a)

-- The pointer of an operand that the handler takes for memory if it is no register.
unfoldable pub place_of : Operand → Cpu → Option Place
place_of op c = elim op.kind [
  | op_reg ↦ reg_place op
  | op_invalid ↦ mem_place op c
  | op_imm ↦ mem_place op c
  | op_mem ↦ mem_place op c
]

-- A pointer read at 4, 2 or (in all other cases) 1 byte, as `size` says.
unfoldable pub size_width : ℕ → ℕ
size_width size = if size == 4 then 4 else if size == 2 then 2 else 1

-- The value of a second operand, in the handlers that read memory at the operand's size. An
-- operand of no type leaves the variable unset.
unfoldable pub source_value : Operand → Cpu → Option ℕ
source_value op c = elim op.kind [
  | op_reg ↦ reg_val op.reg c
  | op_imm ↦ some (u32 op.imm)
  | op_mem ↦ (do p ← mem_place op c; load (size_width op.size) p c)
  | op_invalid ↦ none
]

-- The same in the handlers that read four bytes of memory whatever the operand's size is.
unfoldable pub source_value32 : Operand → Cpu → Option ℕ
source_value32 op c = elim op.kind [
  | op_reg ↦ reg_val op.reg c
  | op_imm ↦ some (u32 op.imm)
  | op_mem ↦ (do p ← mem_place op c; load 4 p c)
  | op_invalid ↦ none
]

-- The target of a jump or call: what is no register and no immediate is memory.
unfoldable pub target_value : Operand → Cpu → Option ℕ
target_value op c = elim op.kind [
  | op_reg ↦ reg_val op.reg c
  | op_imm ↦ some (u32 op.imm)
  | op_mem ↦ (do p ← mem_place op c; load 4 p c)
  | op_invalid ↦ (do p ← mem_place op c; load 4 p c)
]
