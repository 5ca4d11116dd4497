-- ===== src/Instr/Shift.antt =====
-- The shifts of src/instr.c: SAL and SHL, which have one body, SHR and SAR. A shift by 32 or more
-- is undefined in C.
pub mod Trips
mod Tests
use vm_i386_32bit.Base.{
  ℕ, ◌-◌, ◌*◌, ◌/◌, ◌%◌, ◌^◌, Bool, Option, none, some, false, not, same_bool, ltb, ◌==◌,
  if◌then◌else◌, ◌>>=◌, ◌||◌,
}
use vm_i386_32bit.Flags.{cf, pf, zf, sf, of, sign, parity, zero_test}
use vm_i386_32bit.Machine.{Cpu, Place, load, store, put, flag}
use vm_i386_32bit.Operand.{Operand, op_invalid, op_reg, op_imm, op_mem, advance, reg_place}
use vm_i386_32bit.Instr.Arith.{cmp_width, base_of}
use vm_i386_32bit.Instr.Handler.{Handler, minus}

-- `(uint8_t) op2.imm`, or the low byte of a register for an operand of any other type.
unfoldable pub raw_count : Operand → Cpu → Option ℕ
raw_count op c = elim op.kind [
  | op_imm ↦ some (op.imm % 2 ^ 8)
  | op_reg ↦ (do p ← reg_place op; load 1 p c)
  | op_mem ↦ (do p ← reg_place op; load 1 p c)
  | op_invalid ↦ (do p ← reg_place op; load 1 p c)
]

-- `count %= s1*8`
unfoldable pub shift_count : (s1 : ℕ) → Operand → Cpu → Option ℕ
shift_count s1 op c = do raw ← raw_count op c; if s1 == 0 then none else some (raw % (s1 * 8))

-- ZF, PF and SF in the order in which the handlers write them.
unfoldable pub shift_flags : (res base : ℕ) → Cpu → Cpu
shift_flags res base c =
    let c = put zf (zero_test res) c in let c = put pf (parity res) c in put sf (sign res base) c

-- CF from the operand, then the shift, which reads the operand again.
unfoldable pub shift_place :
    (w : ℕ) → Place → (out : ℕ → Bool) → (f : ℕ → ℕ) → Cpu → Option (ℕ × Cpu)
shift_place w p out f c = do
  x ← load w p c
  let c = put cf (out x) c
  x ← load w p c
  c ← store w p (f x) c
  res ← load w p c
  some (res, c)

-- `(x >> k) & 1`
unfoldable pub digit : (k x : ℕ) → Bool
digit k x = x / 2 ^ k % 2 == 1

unfoldable pub sal_register : (count : ℕ) → Operand → Cpu → Option (Cpu × ℕ)
sal_register count op c = do
  p ← reg_place op
  let b = op.size * 8
  if ltb 31 (b - count) || ltb 31 count then none else (do
    (res, c) ← shift_place (cmp_width op.size) p (digit (b - count)) (λ x. x * 2 ^ count) c
    let c = if count == 1 then put of (not (same_bool (digit (b - 1) res) (flag cf c))) c else c
    some (shift_flags res (base_of op.size) c, 0))

unfoldable pub shr_register : (count : ℕ) → Operand → Cpu → Option (Cpu × ℕ)
shr_register count op c = do
  p ← reg_place op
  let b = op.size * 8
  if ltb 31 count then none else (do
    (res, c) ← shift_place (cmp_width op.size) p (digit (count - 1)) (λ x. x / 2 ^ count) c
    let c = put of (if count == 1 then digit (b - 1) res else false) c
    some (shift_flags res (base_of op.size) c, 0))

-- The shift of a signed number of `8 * w` bits: of a negative one the complement is shifted.
unfoldable pub arithmetic_shift : (w count x : ℕ) → ℕ
arithmetic_shift w count x =
    if ltb x (2 ^ (8 * w - 1))
    then x / 2 ^ count
    else 2 ^ (8 * w) - 1 - (2 ^ (8 * w) - 1 - x) / 2 ^ count

unfoldable pub sar_register : (count : ℕ) → Operand → Cpu → Option (Cpu × ℕ)
sar_register count op c = do
  p ← reg_place op
  let w = cmp_width op.size
  if ltb 31 count then none else (do
    (res, c) ←
        shift_place w p (λ x. digit 0 (arithmetic_shift w (count - 1) x)) (arithmetic_shift w count)
          c
    let c = if count == 1 then put of false c else c
    some (shift_flags res (base_of op.size) c, 0))

-- A shift by zero changes nothing, and only a register is shifted.
unfoldable pub shift_if : (shift : (count : ℕ) → Operand → Cpu → Option (Cpu × ℕ)) → Handler
shift_if shift insn c = do
  let c = advance insn c
  count ← shift_count insn.op1.size insn.op2 c
  if count == 0 then some (c, 0) else elim insn.op1.kind [
    | op_reg ↦ shift count insn.op1 c
    | op_mem ↦ some (c, minus 1)
    | op_imm ↦ some (c, minus 1)
    | op_invalid ↦ some (c, minus 1)
  ]

unfoldable pub sal_i : Handler
sal_i = shift_if sal_register

unfoldable pub shl_i : Handler
shl_i = shift_if sal_register

unfoldable pub shr_i : Handler
shr_i = shift_if shr_register

unfoldable pub sar_i : Handler
sar_i = shift_if sar_register
