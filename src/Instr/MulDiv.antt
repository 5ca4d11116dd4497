-- ===== src/Instr/MulDiv.antt =====
-- MUL and DIV of src/instr.c. Both take the second operand that Capstone lists, at the size of the
-- first one. A product of two `uint16_t` above the range of `int` is taken to wrap.
pub mod Quotient
pub mod Product
mod Tests
use vm_i386_32bit.Base.{
  ℕ, ◌+◌, ◌*◌, ◌/◌, ◌%◌, ◌^◌, Option, none, some, not, ltb, ◌==◌, if◌then◌else◌, ◌>>=◌,
}
use vm_i386_32bit.Flags.{cf, of, zero_test}
use vm_i386_32bit.Machine.{Cpu, in_var, load, store, put, set_var, u32, eax, edx}
use vm_i386_32bit.Operand.{Insn, Operand, advance, place_of}
use vm_i386_32bit.Instr.Arith.{cmp_width}
use vm_i386_32bit.Instr.FlagOps.{second_byte, set_second_byte}
use vm_i386_32bit.Instr.Handler.{Handler, minus}

-- `val`: what is no register is memory.
unfoldable pub factor : (w : ℕ) → Operand → Cpu → Option ℕ
factor w op c = do p ← place_of op c; load w p c

-- CF and OF tell whether the upper half of the product is not zero.
unfoldable pub mul_flags : (high : ℕ) → Cpu → Cpu
mul_flags high c = let c = put of (not (zero_test high)) c in put cf (not (zero_test high)) c

unfoldable pub mul8 : (val : ℕ) → Cpu → Option Cpu
mul8 val c = do
  al ← load 1 (in_var eax) c
  c ← store 2 (in_var eax) (al * val) c
  some (mul_flags (second_byte (c.var eax)) c)

unfoldable pub mul16 : (val : ℕ) → Cpu → Option Cpu
mul16 val c = do
  ax ← load 2 (in_var eax) c
  let res = u32 (ax * val)
  c ← store 2 (in_var eax) res c
  c ← store 2 (in_var edx) (res / 2 ^ 16) c
  dx ← load 2 (in_var edx) c
  some (mul_flags dx c)

-- `uint64_t res = eax * val` multiplies on 32 bits.
unfoldable pub mul32 : (val : ℕ) → Cpu → Cpu
mul32 val c =
    let res = u32 (c.var eax * val) in
    let c = set_var eax (u32 res) c in
    let c = set_var edx (u32 (res / 2 ^ 32)) c in mul_flags (c.var edx) c

unfoldable pub mul_i : Handler
mul_i insn c = do
  let c = advance insn c
  let w = cmp_width insn.op1.size
  val ← factor w insn.op2 c
  c ← if w == 1 then mul8 val c else if w == 2 then mul16 val c else some (mul32 val c)
  some (c, 0)

-- A quotient that does not fit is reported, and nothing is written.
unfoldable pub div8 : (val : ℕ) → Cpu → Option (Cpu × ℕ)
div8 val c = do
  ax ← load 2 (in_var eax) c
  let res = ax / val
  let rem = ax % val
  if ltb 0xFF res then some (c, minus 1000) else (do
    c ← store 1 (in_var eax) res c
    some (set_var eax (set_second_byte (c.var eax) rem) c, 0))

unfoldable pub div16 : (val : ℕ) → Cpu → Option (Cpu × ℕ)
div16 val c = do
  dx ← load 2 (in_var edx) c
  ax ← load 2 (in_var eax) c
  let div = dx * 2 ^ 16 + ax
  let res = div / val
  let rem = div % val
  if ltb 0xFFFF res
      then some (c, minus 1000)
      else (do c ← store 2 (in_var eax) res c; c ← store 2 (in_var edx) rem c; some (c, 0))

unfoldable pub div32 : (val : ℕ) → Cpu → Cpu × ℕ
div32 val c =
    let div = c.var edx * 2 ^ 32 + c.var eax in
    let res = div / val in
    let rem = div % val in
    if ltb 0xFFFFFFFF res
    then (c, minus 1000)
    else (set_var edx (u32 rem) (set_var eax (u32 res) c), 0)

-- A division by zero is undefined in C.
unfoldable pub div_i : Handler
div_i insn c = do
  let c = advance insn c
  let w = cmp_width insn.op1.size
  val ← factor w insn.op2 c
  if val == 0
      then none
      else if w == 1
      then div8 val c
      else if w == 2
      then div16 val c
      else some (div32 val c)
