-- ===== src/Instr/Rotate.antt =====
-- The rotates of src/instr.c, and SHRD. A shift by a negative number or by 32 and more is undefined
-- in C; a narrower operand is shifted as an `int`, which is taken to wrap.
pub mod Trips
mod Tests
use vm_i386_32bit.Base.{
  ℕ, ◌+◌, ◌-◌, ◌*◌, ◌/◌, ◌%◌, ◌^◌, bit_or, Bool, Option, none, some, not, ltb, leb, ◌==◌, to_nat,
  ◌||◌, if◌then◌else◌, ◌>>=◌,
}
use vm_i386_32bit.Flags.{cf, pf, zf, sf, sign, parity, zero_test}
use vm_i386_32bit.Machine.{Cpu, Place, load, store, put, flag}
use vm_i386_32bit.Operand.{
  Operand, op_invalid, op_reg, op_imm, op_mem, advance, reg_place, place_of,
}
use vm_i386_32bit.Instr.Arith.{cmp_width}
use vm_i386_32bit.Instr.Handler.{Handler}
use vm_i386_32bit.Instr.Shift.{raw_count, digit}

-- `scaped` is what leaves the operand on the left; `b` is the width in bits, `w` the one in bytes.
unfoldable pub rol_place : (w b count : ℕ) → Place → Cpu → Option (Cpu × ℕ)
rol_place w b count p c = if ltb 31 (b - count) || ltb 31 count then none else (do
  x ← load w p c
  let scaped = x / 2 ^ (b - count)
  c ← store w p (bit_or (x * 2 ^ count) scaped) c
  some (put cf (digit 0 scaped) c, 0))

unfoldable pub ror_place : (w b count : ℕ) → Place → Cpu → Option (Cpu × ℕ)
ror_place w b count p c = if ltb 31 (b - count) || ltb 31 count then none else (do
  x ← load w p c
  let scaped = x * 2 ^ (b - count) % 2 ^ (8 * w)
  c ← store w p (bit_or (x / 2 ^ count) scaped) c
  some (put cf (digit (b - count) scaped) c, 0))

-- CF tells whether the bits from `b - count` on are not all 0.
unfoldable pub rcl_place : (w b count : ℕ) → Place → Cpu → Option (Cpu × ℕ)
rcl_place w b count p c = if count == 0 || ltb 31 (b + 1 - count) || ltb 31 count then none else (do
  x ← load w p c
  let scaped = bit_or (x / 2 ^ (b + 1 - count)) (to_nat (flag cf c) * 2 ^ (count - 1)) % 2 ^ (8 * w)
  x ← load w p c
  let c = put cf (not (zero_test (x / 2 ^ (b - count)))) c
  x ← load w p c
  c ← store w p (bit_or (x * 2 ^ count) scaped) c
  some (c, 0))

unfoldable pub rcr_place : (w b count : ℕ) → Place → Cpu → Option (Cpu × ℕ)
rcr_place w b count p c = if count == 0 || ltb 31 (b + 1 - count) || ltb 31 count then none else (do
  x ← load w p c
  let scaped =
      bit_or (x * 2 ^ (b + 1 - count) % 2 ^ (8 * w)) (to_nat (flag cf c) * 2 ^ count) % 2 ^ (8 * w)
  x ← load w p c
  let c = put cf (digit (count - 1) x) c
  x ← load w p c
  c ← store w p (bit_or (x / 2 ^ count) scaped) c
  some (c, 0))

-- The count, then the operand, then `count %= s1*8 + extra`.
unfoldable pub rotate_with :
    (extra : ℕ) → (rotate : (w b count : ℕ) → Place → Cpu → Option (Cpu × ℕ)) → Handler
rotate_with extra rotate insn c = do
  let c = advance insn c
  raw ← raw_count insn.op2 c
  p ← place_of insn.op1 c
  let s1 = insn.op1.size
  if s1 * 8 + extra == 0 then none else rotate (cmp_width s1) (s1 * 8) (raw % (s1 * 8 + extra)) p c

unfoldable pub rol_i : Handler
rol_i = rotate_with 0 rol_place

unfoldable pub ror_i : Handler
ror_i = rotate_with 0 ror_place

unfoldable pub rcl_i : Handler
rcl_i = rotate_with 1 rcl_place

unfoldable pub rcr_i : Handler
rcr_i = rotate_with 1 rcr_place

-- The flags of 16-bit operands come from the second operand, `*r16`.
unfoldable pub shrd_place : (w amount : ℕ) → (dst src : Place) → Cpu → Option (Cpu × ℕ)
shrd_place w amount dst src c = do
  x ← load w dst c
  let c = put cf (digit (amount - 1) x) c
  x ← load w dst c
  c ← store w dst (x / 2 ^ amount) c
  y ← load w src c
  let temp = y * 2 ^ (8 * w - amount) % 2 ^ (8 * w)
  x ← load w dst c
  c ← store w dst (bit_or x temp) c
  res ← load w (if w == 4 then dst else src) c
  let c = put sf (sign res (w * 8)) c
  let c = put zf (zero_test res) c
  some (put pf (parity res) c, 0)

-- A second operand of a size other than 2 and 4 is read through a pointer that is not set.
unfoldable pub shrd_operands : (amount : ℕ) → (op1 op2 : Operand) → Cpu → Option (Cpu × ℕ)
shrd_operands amount op1 op2 c = do
  let s2 = op2.size
  src ← reg_place op2
  dst ← place_of op1 c
  if amount == 0
      then some (c, 0)
      else if s2 == 2 || s2 == 4
      then (if leb (s2 * 8) amount then some (c, 0) else shrd_place s2 amount dst src c)
      else none

unfoldable pub shrd_i : Handler
shrd_i insn c = do
  let c = advance insn c
  count ← raw_count insn.op3 c
  elim insn.op2.kind [
    | op_reg ↦ shrd_operands (count % 32) insn.op1 insn.op2 c
    | op_mem ↦ some (c, 1)
    | op_imm ↦ some (c, 1)
    | op_invalid ↦ some (c, 1)
  ]
