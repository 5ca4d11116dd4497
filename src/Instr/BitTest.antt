-- ===== src/Instr/BitTest.antt =====
-- The bit tests and bit scans of src/instr.c: BT, BTC, BTR, BTS, BSF and BSR. CF is set if any
-- digit from the tested one on is set, since the shifted operand is not masked.
pub mod Digits
pub mod Changes
pub mod Scans
mod Tests
use vm_i386_32bit.Base.{
  ℕ, zero, suc, ◌+◌, ◌-◌, ◌*◌, ◌/◌, ◌%◌, ◌^◌, bit_and, bit_or, bit_xor, Bool, Option, true, false,
  none, some, not, ltb, ◌==◌, to_nat, if◌then◌else◌, ◌>>=◌,
}
use vm_i386_32bit.Flags.{cf, zf, zero_test}
use vm_i386_32bit.Machine.{Cpu, Place, load, store, put, u32}
use vm_i386_32bit.Machine.Registers.{regs_size}
use vm_i386_32bit.Operand.{
  Operand, op_invalid, op_reg, op_imm, op_mem, advance, reg_place, mem_place, source_value,
}
use vm_i386_32bit.Instr.Arith.{sub32}
use vm_i386_32bit.Instr.Handler.{Handler, minus}

-- The loop of `pow_i` from an intermediate `result`.
unfoldable pub pow_from : (result b exp : ℕ) → ℕ
pow_from result b zero = result
pow_from result b (suc exp) = pow_from (u32 (result * b)) b exp

unfoldable pub pow_i : (b exp : ℕ) → ℕ
pow_i b exp = pow_from 1 b exp

-- The width of a register operand: two bytes where `regs_size` is 1, four otherwise.
abbrev pub bit_width : Operand → ℕ
bit_width op = if regs_size op.reg == 0x1 then 2 else 4

-- The number of the bit, and the number `b` by which it is reduced.
unfoldable pub bit_source : Operand → Cpu → Option (ℕ × ℕ)
bit_source op c = elim op.kind [
  | op_reg ↦ (do p ← reg_place op; val2 ← load (bit_width op) p c; some (val2, regs_size op.reg))
  | op_imm ↦ some (u32 op.imm, 0x8)
  | op_mem ↦ some (u32 op.imm, 0x8)
  | op_invalid ↦ some (u32 op.imm, 0x8)
]

-- `val2 % b`
unfoldable pub bit_number : (val2 b : ℕ) → Option ℕ
bit_number val2 b = if b == 0 then none else some (val2 % b)

-- `(x >> n) ? set_Flag(CF) : clear_Flag(CF)`
unfoldable pub put_bit : (x n : ℕ) → Cpu → Cpu
put_bit x n c = put cf (not (zero_test (x / 2 ^ n))) c

unfoldable pub bt_i : Handler
bt_i insn c = do
  let c = advance insn c
  let s1 = insn.op1.size
  let s2 = insn.op2.size
  let in_memory = (do
    p ← mem_place insn.op1 c
    load (if s1 == 4 then 4 else if s2 == 2 then 2 else 1) p c)
  val1 ← elim insn.op1.kind [
    | op_reg ↦ (do p ← reg_place insn.op1; load (bit_width insn.op1) p c)
    | op_mem ↦ in_memory
    | op_imm ↦ in_memory
    | op_invalid ↦ in_memory
  ]
  (val2, b) ← bit_source insn.op2 c
  n ← bit_number val2 b
  some (put_bit val1 n c, 0)

-- `CF = *val1 >> n; *val1 = change(*val1, pow_i(2, n))` on `w` bytes.
unfoldable pub change_bit : (w n : ℕ) → (change : (w x m : ℕ) → ℕ) → Place → Cpu → Option (Cpu × ℕ)
change_bit w n change p c = do
  x ← load w p c
  let c = put_bit x n c
  x ← load w p c
  c ← store w p (change w x (pow_i 2 n)) c
  some (c, 0)

-- BTC, BTR and BTS on a register; `in_memory` is what each does with any other operand.
unfoldable pub change_with :
    (change : (w x m : ℕ) → ℕ)
    → (in_memory : Operand → (val2 : ℕ) → Cpu → Option (Cpu × ℕ)) → Handler
change_with change in_memory insn c = do
  let c = advance insn c
  (val2, b) ← bit_source insn.op2 c
  let register = (do
    p ← reg_place insn.op1
    n ← bit_number val2 (regs_size insn.op1.reg)
    change_bit (bit_width insn.op1) n change p c)
  elim insn.op1.kind [
    | op_reg ↦ register
    | op_mem ↦ in_memory insn.op1 val2 c
    | op_imm ↦ in_memory insn.op1 val2 c
    | op_invalid ↦ in_memory insn.op1 val2 c
  ]

-- BTC and BTR write an operand in memory through a pointer that is not set.
abbrev no_pointer : Operand → (val2 : ℕ) → Cpu → Option (Cpu × ℕ)
no_pointer op val2 c = none

unfoldable pub bts_memory : Operand → (val2 : ℕ) → Cpu → Option (Cpu × ℕ)
bts_memory op val2 c = do
  p ← mem_place op c
  n ← bit_number val2 0x20
  change_bit 4 n (λ w x m. bit_or x m) p c

unfoldable pub btc_i : Handler
btc_i = change_with (λ w x m. bit_xor x m) no_pointer

unfoldable pub btr_i : Handler
btr_i = change_with (λ w x m. bit_and x (sub32 (2 ^ (8 * w) - 1) m)) no_pointer

unfoldable pub bts_i : Handler
bts_i = change_with (λ w x m. bit_or x m) bts_memory

-- `(val >> temp) & 0x1 == 0`, which C reads as `(val >> temp) & (0x1 == 0)`.
unfoldable pub scan_test : (val temp : ℕ) → Bool
scan_test val temp = not (zero_test (bit_and (val / 2 ^ temp) (to_nat (0x1 == 0))))

-- The loop of a scan, on fuel: `step` counts up or down, and `*p = temp` on `w` bytes.
unfoldable pub scan : (fuel w : ℕ) → (step : ℕ → ℕ) → Operand → (val temp : ℕ) → Cpu → Option Cpu
scan zero w step op val temp c = none
scan (suc fuel) w step op val temp c = elim (scan_test val temp) [
  | true ↦ (do p ← reg_place op; c ← store w p (step temp) c; scan fuel w step op val (step temp) c)
  | false ↦ some c
]

-- BSF starts at bit 0, BSR at the highest one of the destination.
unfoldable pub scan_with : (fuel : ℕ) → (step : ℕ → ℕ) → (from : (w : ℕ) → ℕ) → Handler
scan_with fuel step from insn c = do
  let c = advance insn c
  val ← source_value insn.op2 c
  let found = (do
    let w = if regs_size insn.op1.reg == 0x10 then 2 else 4
    let c = put zf false c
    c ← scan fuel w step insn.op1 val (from w) c
    some (c, 0))
  if val == 0 then some (put zf true c, 0) else elim insn.op1.kind [
    | op_reg ↦ found
    | op_mem ↦ some (c, minus 1)
    | op_imm ↦ some (c, minus 1)
    | op_invalid ↦ some (c, minus 1)
  ]

-- No run goes round the loop, so that one unit of fuel is enough.
unfoldable pub bsf_i : Handler
bsf_i = scan_with 1 (λ temp. u32 (temp + 1)) (λ w. 0)

unfoldable pub bsr_i : Handler
bsr_i = scan_with 1 (λ temp. sub32 temp 1) (λ w. 8 * w - 1)
