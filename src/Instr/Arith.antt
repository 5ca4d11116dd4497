-- ===== src/Instr/Arith.antt =====
-- The arithmetic instructions of src/instr.c: ADD, ADC, SUB, SBB and CMP.
pub mod Registers
pub mod Flags
pub mod Compare
pub mod Difference
mod Tests
use vm_i386_32bit.Base.{
  ℕ, ◌+◌, ◌-◌, ◌*◌, ◌%◌, ◌^◌, bit_and, bit_or, Bool, Option, none, some, not, ◌&&◌, ◌||◌, ltb, ◌==◌,
  to_nat, if◌then◌else◌, ◌>>=◌,
}
use vm_i386_32bit.Flags.{cf, pf, af, zf, sf, of, sign, overflow, parity, adjust, zero_test}
use vm_i386_32bit.Machine.{Cpu, Place, load, store, put, flag, u32}
use vm_i386_32bit.Machine.Registers.{regs_size, width_of, reg_val}
use vm_i386_32bit.Operand.{
  Operand, op_invalid, op_reg, op_imm, op_mem, advance, reg_place, mem_place, place_of, size_width,
  source_value,
}
use vm_i386_32bit.Instr.Handler.{Handler}

-- `a - b` on uint32_t.
unfoldable pub sub32 : ℕ → ℕ → ℕ
sub32 a b = u32 (a + 2 ^ 32 - u32 b)

unfoldable pub sign_extend8_32 : ℕ → ℕ
sign_extend8_32 v = if bit_and v 0x80 == 0 then v else bit_or v 0xFFFFFF00

unfoldable pub sign_extend16_32 : ℕ → ℕ
sign_extend16_32 v = if bit_and v 0x8000 == 0 then v else bit_or v 0xFFFF0000

unfoldable pub sign_extend8_16 : ℕ → ℕ
sign_extend8_16 v = if bit_and v 0x80 == 0 then v else bit_or v 0xFF00 % 2 ^ 16

-- `val2 & 0xFF`, `val2 & 0xFFFF` or `val2` itself, in the branch for `w` bytes.
abbrev pub masked : ℕ → ℕ → ℕ
masked w v = if w == 4 then v else bit_and v (2 ^ (8 * w) - 1)

-- A size in bytes as the base in bits that the flag tests take, a uint8_t.
abbrev pub base_of : ℕ → ℕ
base_of size = size * 8 % 2 ^ 8

-- `val = *p; *p = f(val); res = *p` on `w` bytes: the old value, the new one, and the machine.
unfoldable pub rewrite_place : ℕ → Place → (ℕ → ℕ) → Cpu → Option (ℕ × ℕ × Cpu)
rewrite_place w p f c = do
  val ← load w p c
  c ← store w p (f val) c
  res ← load w p c
  some (val, res, c)

-- The six flags in the order in which the handlers write them.
unfoldable pub put_flags : (carry : Bool) → (val1 val2 res base : ℕ) → Cpu → Cpu
put_flags carry val1 val2 res base c =
    let c = put cf carry c in
    let c = put of (overflow val1 val2 res base) c in
    let c = put sf (sign res base) c in
    let c = put zf (res == 0) c in let c = put af (adjust val1 val2 res) c in put pf (parity res) c

-- The first operand of ADD and ADC: a register by its own width, memory by the operand's size.
unfoldable pub add_place : Operand → (extra val2 : ℕ) → Cpu → Option (ℕ × ℕ × Cpu)
add_place op extra val2 c = elim op.kind [
  | op_reg ↦ (do
    p ← reg_place op
    let w = width_of (regs_size op.reg)
    rewrite_place w p (λ val1. u32 (val1 + masked w val2 + extra)) c)
  | op_mem ↦ (do
    p ← mem_place op c
    rewrite_place (size_width op.size) p (λ val1. u32 (val1 + val2 + extra)) c)
  | op_imm ↦ none
  | op_invalid ↦ none
]

unfoldable pub add_i : Handler
unfolding add_place put_flags rewrite_place
add_i insn c = do
  let c = advance insn c
  val2 ← source_value insn.op2 c
  (val1, res, c) ← add_place insn.op1 0 val2 c
  some (put_flags (ltb res val1) val1 val2 res (base_of insn.op1.size) c, 0)

unfoldable pub adc_i : Handler
unfolding add_place put_flags rewrite_place
adc_i insn c = do
  let c = advance insn c
  val2 ← source_value insn.op2 c
  (val1, res, c) ← add_place insn.op1 (to_nat (flag cf c)) val2 c
  some (put_flags (ltb res val1) val1 val2 res (base_of insn.op1.size) c, 0)

-- The immediate of SUB and CMP: a byte is extended to the size of the first operand.
unfoldable pub extended_imm : (s1 s2 imm : ℕ) → ℕ
unfolding sign_extend8_32 sign_extend8_16
extended_imm s1 s2 imm =
    if s2 == 1
    then if s1 == 2
      then sign_extend8_16 (imm % 2 ^ 8)
      else if s1 == 4
      then sign_extend8_32 (imm % 2 ^ 8)
      else u32 imm
    else u32 imm

-- The second operand of SUB: memory is read at four bytes whatever the operand's size is.
unfoldable pub sub_source : (s1 : ℕ) → Operand → Cpu → Option ℕ
unfolding extended_imm
sub_source s1 op c = elim op.kind [
  | op_reg ↦ reg_val op.reg c
  | op_imm ↦ some (extended_imm s1 op.size op.imm)
  | op_mem ↦ (do p ← mem_place op c; load 4 p c)
  | op_invalid ↦ none
]

-- The first operand of SUB: a register by its own width, memory at four bytes.
unfoldable pub sub_place : Operand → (val2 : ℕ) → Cpu → Option (ℕ × ℕ × Cpu)
sub_place op val2 c = elim op.kind [
  | op_reg ↦ (do
    p ← reg_place op
    let w = width_of (regs_size op.reg)
    rewrite_place w p (λ val1. sub32 val1 (masked w val2)) c)
  | op_mem ↦ (do p ← mem_place op c; rewrite_place 4 p (λ val1. sub32 val1 val2) c)
  | op_imm ↦ none
  | op_invalid ↦ none
]

unfoldable pub sub_i : Handler
unfolding sub_source sub_place put_flags rewrite_place
sub_i insn c = do
  let c = advance insn c
  val2 ← sub_source insn.op1.size insn.op2 c
  (val1, res, c) ← sub_place insn.op1 val2 c
  some (put_flags (ltb val1 val2) val1 val2 res (base_of insn.op1.size) c, 0)

-- A pointer read at 1, 2 or (in all other cases) 4 bytes.
unfoldable pub cmp_width : ℕ → ℕ
cmp_width size = if size == 1 then 1 else if size == 2 then 2 else 4

-- The operands of CMP are read at their sizes.
unfoldable pub cmp_source : (s1 : ℕ) → Operand → Cpu → Option ℕ
unfolding extended_imm
cmp_source s1 op c = elim op.kind [
  | op_reg ↦ (do p ← reg_place op; load (cmp_width op.size) p c)
  | op_imm ↦ some (extended_imm s1 op.size op.imm)
  | op_mem ↦ (do p ← mem_place op c; load (cmp_width op.size) p c)
  | op_invalid ↦ none
]

-- The first operand of CMP, and the difference; only beside a register is the second one masked.
unfoldable pub cmp_operand : Operand → (val2 : ℕ) → Cpu → Option (ℕ × ℕ)
cmp_operand op val2 c = elim op.kind [
  | op_reg ↦ (do
    p ← reg_place op
    val1 ← load (cmp_width op.size) p c
    some (val1, sub32 val1 (masked (cmp_width op.size) val2)))
  | op_mem ↦ (do
    p ← mem_place op c
    val1 ← load (cmp_width op.size) p c
    some (val1, sub32 val1 val2))
  | op_imm ↦ none
  | op_invalid ↦ none
]

unfoldable pub cmp_i : Handler
unfolding cmp_source cmp_operand put_flags cmp_width
cmp_i insn c = do
  let c = advance insn c
  val2 ← cmp_source insn.op1.size insn.op2 c
  (val1, res) ← cmp_operand insn.op1 val2 c
  some (put_flags (ltb val1 val2) val1 val2 res (base_of insn.op1.size) c, 0)

-- The second operand of SBB through its pointer; at a size that no branch takes it stays unset.
unfoldable pub sbb_load : (s1 s2 : ℕ) → Place → Cpu → Option ℕ
sbb_load s1 s2 p c =
    if s2 == 2
    then load 2 p c
    else if s2 == 4
    then load 4 p c
    else if s1 == 1 && s2 == 1
    then load 1 p c
    else none

-- What is no immediate and no register is memory.
unfoldable pub sbb_source : (s1 : ℕ) → Operand → Cpu → Option ℕ
unfolding sbb_load
sbb_source s1 op c = elim op.kind [
  | op_imm ↦ some (
      if op.size == 1 && (s1 == 2 || s1 == 4)
      then (if s1 == 2 then sign_extend8_16 (op.imm % 2 ^ 8) else sign_extend8_32 (op.imm % 2 ^ 8))
      else u32 op.imm)
  | op_reg ↦ (do p ← reg_place op; sbb_load s1 op.size p c)
  | op_mem ↦ (do p ← mem_place op c; sbb_load s1 op.size p c)
  | op_invalid ↦ (do p ← mem_place op c; sbb_load s1 op.size p c)
]

-- Each `test_Flag(CF)` of SBB reads the register anew: after the first it has the new carry.
unfoldable pub sbb_i : Handler
unfolding sbb_source rewrite_place cmp_width
sbb_i insn c = do
  let c = advance insn c
  p ← place_of insn.op1 c
  val ← sbb_source insn.op1.size insn.op2 c
  let borrow = to_nat (flag cf c)
  (ini, res, c) ← rewrite_place (cmp_width insn.op1.size) p (λ ini. sub32 (sub32 ini val) borrow) c
  let c = put cf (ltb ini (u32 (val + to_nat (flag cf c)))) c
  let val' = u32 (val + to_nat (flag cf c))
  let c = put of (overflow ini val' res (base_of insn.op1.size)) c
  let c = put sf (sign res (base_of insn.op1.size)) c
  let c = put zf (res == 0) c
  let c = put af (adjust ini (u32 (val + to_nat (flag cf c))) res) c
  some (put pf (parity res) c, 0)
