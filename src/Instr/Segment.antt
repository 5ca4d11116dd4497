-- ===== src/Instr/Segment.antt =====
-- The instructions of src/instr.c on segment registers, descriptor tables and control registers:
-- LAR, LSL, LDS to LSS, LGDT, LIDT, LLDT, LMSW, SGDT, SIDT, SLDT, SMSW, VERR, VERW, ARPL, BOUND.
pub mod Trips
mod Tests
use vm_i386_32bit.Base.{
  ℕ, ◌+◌, ◌*◌, ◌/◌, ◌%◌, ◌^◌, bit_and, bit_or, Bool, Option, true, false, none, some, not, ltb,
  ◌==◌, to_nat, ◌&&◌, ◌||◌, if◌then◌else◌, ◌>>=◌,
}
use vm_i386_32bit.Flags.{zf, zero_test}
use vm_i386_32bit.Machine.{
  Cpu, Var, Gdtr, Place, in_mem, load, load_bytes, store, store_bytes, put, set_var, ds, es, fs, gs,
  ss,
}
use vm_i386_32bit.Machine.Registers.{regs_size}
use vm_i386_32bit.Operand.{
  Insn, Operand, op_invalid, op_reg, op_imm, op_mem, advance, reg_place, mem_place, place_of,
  eff_addr, source_value, gdt_entries, get_gdt_limit,
}
use vm_i386_32bit.Instr.Handler.{Handler, minus}

-- The low 16 or 32 bits of a value go to the first operand, which is taken for a register.
abbrev pub pointer_width : ℕ → ℕ
pointer_width s1 = if s1 == 2 then 2 else 4

unfoldable pub lar_i : Handler
lar_i insn c = do
  let c = advance insn c
  let w = pointer_width insn.op1.size
  src ← place_of insn.op2 c
  val ← load w src c
  dst ← reg_place insn.op1
  c ← store w dst (bit_and val (if w == 2 then 0xFF00 else 0x00FFFF00)) c
  some (put zf true c, 0)

-- An offset to a register, and the selector behind it to the segment register `s`.
unfoldable pub load_far : (s : Var) → Handler
load_far s insn c = do
  let c = advance insn c
  let w = pointer_width insn.op1.size
  reg ← reg_place insn.op1
  a ← eff_addr insn.op2.mem c
  offset ← load_bytes w a c
  c ← store w reg offset c
  selector ← load_bytes 2 (a + w) c
  some (set_var s selector c, 0)

unfoldable pub lds_i : Handler
lds_i = load_far ds

unfoldable pub les_i : Handler
les_i = load_far es

unfoldable pub lfs_i : Handler
lfs_i = load_far fs

unfoldable pub lgs_i : Handler
lgs_i = load_far gs

unfoldable pub lss_i : Handler
lss_i = load_far ss

-- A 16-bit operand that is memory unless it is a register.
unfoldable pub selector_of : Operand → Cpu → Option ℕ
selector_of op c = do p ← place_of op c; load 2 p c

unfoldable pub lsl_i : Handler
lsl_i insn c = do
  let c = advance insn c
  selector ← selector_of insn.op2 c
  let n = bit_and (selector / 2 ^ 3) 0x1FFF
  if ltb n gdt_entries
      then (do
        let c = put zf true c
        limit ← get_gdt_limit selector c
        p ← reg_place insn.op1
        c ← if insn.op1.size == 2 then store 2 p (bit_and limit 0xFFFF) c else store 4 p limit c
        some (c, 0))
      else some (put zf false c, 0)

-- A table register in memory: a 16-bit limit and a 32-bit base.
unfoldable pub load_table : Insn → Cpu → Option Gdtr
load_table insn c = do
  a ← eff_addr insn.op1.mem c
  limit ← load_bytes 2 a c
  base ← load_bytes 4 (a + 2) c
  some (record { limit = limit; base = base })

unfoldable pub lgdt_i : Handler
lgdt_i insn c = do let c = advance insn c; t ← load_table insn c; some (record c { gdtr = t }, 0)

unfoldable pub lidt_i : Handler
lidt_i insn c = do let c = advance insn c; t ← load_table insn c; some (record c { idtr = t }, 0)

-- The fourth byte of the base is written as 0.
unfoldable pub store_table : Gdtr → Insn → Cpu → Option (Cpu × ℕ)
store_table t insn c = do
  a ← eff_addr insn.op1.mem c
  c ← store_bytes 2 a t.limit c
  c ← store_bytes 4 (a + 2) (bit_and t.base 0xFFFFFF) c
  some (c, 0)

unfoldable pub sgdt_i : Handler
sgdt_i insn c = let c = advance insn c in store_table c.gdtr insn c

unfoldable pub sidt_i : Handler
sidt_i insn c = let c = advance insn c in store_table c.idtr insn c

unfoldable pub lldt_i : Handler
lldt_i insn c = do
  let c = advance insn c
  val ← selector_of insn.op1 c
  some (record c { ldtr = val }, 0)

unfoldable pub sldt_i : Handler
sldt_i insn c = do
  let c = advance insn c
  p ← place_of insn.op1 c
  c ← store 2 p c.ldtr c
  some (c, 0)

-- The low half of `cr0`, written and read.
unfoldable pub lmsw_i : Handler
lmsw_i insn c = do
  let c = advance insn c
  val ← selector_of insn.op1 c
  some (record c { cr0 = c.cr0 / 2 ^ 16 * 2 ^ 16 + val }, 0)

unfoldable pub smsw_i : Handler
smsw_i insn c = do
  let c = advance insn c
  p ← place_of insn.op1 c
  c ← store 2 p (bit_and c.cr0 0xFFFF) c
  some (c, 0)

-- ZF is cleared for a selector of an entry of the table other than the null one.
unfoldable pub verify : Insn → Cpu → Option Cpu
verify insn c = do
  let c = advance insn c
  selector ← selector_of insn.op1 c
  let n = selector / 2 ^ 3
  some (put zf (not (ltb 0 n && ltb n gdt_entries)) c)

-- VERR has no `return`: `code` stands for what its caller takes for its result.
unfoldable pub verr_i : (code : ℕ) → Handler
verr_i code insn c = do c ← verify insn c; some (c, code)

unfoldable pub verw_i : Handler
verw_i insn c = do c ← verify insn c; some (c, 0)

-- `*p & 0x3 < val & 0x3`, which C reads as `*p & (0x3 < val) & 0x3`.
unfoldable pub arpl_test : (x val : ℕ) → Bool
arpl_test x val = not (zero_test (bit_and (bit_and x (to_nat (ltb 0x3 val))) 0x3))

-- An operand that is neither register nor memory leaves the pointer unset.
unfoldable pub arpl_place : Operand → Cpu → Option Place
arpl_place op c = elim op.kind [
  | op_reg ↦ reg_place op
  | op_mem ↦ mem_place op c
  | op_imm ↦ none
  | op_invalid ↦ none
]

unfoldable pub arpl_i : Handler
arpl_i insn c = do
  let c = advance insn c
  val ← source_value insn.op2 c
  p ← arpl_place insn.op1 c
  x ← load 1 p c
  if arpl_test x val
      then (do
        let c = put zf true c
        x ← load 1 p c
        c ← store 1 p (bit_and x 0xFC) c
        x ← load 1 p c
        c ← store 1 p (bit_or x (bit_and val 0x3)) c
        some (c, 0))
      else some (put zf false c, 0)

-- Both bounds are unsigned; what lies outside them is reported as interrupt 5.
unfoldable pub bound_check : (r lower upper : ℕ) → Cpu → Cpu × ℕ
bound_check r lower upper c = if ltb r lower || ltb upper r then (c, minus 5) else (c, 0)

unfoldable pub bound_operands : (op1 op2 : Operand) → Cpu → Option (Cpu × ℕ)
bound_operands op1 op2 c = do
  p ← reg_place op1
  let w = if regs_size op1.reg == 0x10 then 2 else 4
  a ← eff_addr op2.mem c
  lower ← load_bytes w a c
  upper ← load_bytes w (a + w) c
  r ← load w p c
  some (bound_check r lower upper c)

unfoldable pub bound_i : Handler
bound_i insn c =
    let c = advance insn c in
    elim insn.op1.kind [
      | op_reg ↦ elim insn.op2.kind [
        | op_mem ↦ bound_operands insn.op1 insn.op2 c
        | op_reg ↦ some (c, minus 1)
        | op_imm ↦ some (c, minus 1)
        | op_invalid ↦ some (c, minus 1)
      ]
      | op_mem ↦ some (c, minus 1)
      | op_imm ↦ some (c, minus 1)
      | op_invalid ↦ some (c, minus 1)
    ]
