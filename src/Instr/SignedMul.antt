-- ===== src/Instr/SignedMul.antt =====
-- IMUL and IDIV of src/instr.c. A signed number is kept as its bits in two's complement; a product
-- of two `int`s is taken to wrap. IDIV takes the second operand that Capstone lists.
pub mod Quotient
mod Tests
use vm_i386_32bit.Base.{
  ℕ, ◌+◌, ◌-◌, ◌*◌, ◌/◌, ◌%◌, ◌^◌, bit_and, bit_or, Bool, Option, true, false, none, some, not, ltb,
  ◌==◌, same_bool, if◌then◌else◌, ◌>>=◌,
}
use vm_i386_32bit.Base.Int.{ℤ, pos, negsuc, signed}
use vm_i386_32bit.Flags.{cf, of}
use vm_i386_32bit.Machine.{Cpu, in_var, load, store, put, set_var, u32, eax, edx}
use vm_i386_32bit.Operand.{Insn, Operand, advance, reg_place, place_of}
use vm_i386_32bit.Instr.Arith.{sign_extend8_16, sign_extend8_32, sign_extend16_32}
use vm_i386_32bit.Instr.FlagOps.{set_second_byte}
use vm_i386_32bit.Instr.Handler.{Handler, minus}
use vm_i386_32bit.Instr.MulDiv.{factor}

-- C's division of signed numbers, which rounds towards 0: absolute value and sign by themselves.
abbrev pub magnitude : ℤ → ℕ
magnitude (pos n) = n
magnitude (negsuc n) = n + 1

abbrev pub is_negative : ℤ → Bool
is_negative (pos n) = false
is_negative (negsuc n) = true

abbrev pub with_sign : (negative : Bool) → ℕ → ℤ
with_sign negative n = if n == 0 then pos 0 else if negative then negsuc (n - 1) else pos n

unfoldable pub quotient : ℤ → ℤ → ℤ
quotient a b =
    with_sign (not (same_bool (is_negative a) (is_negative b))) (magnitude a / magnitude b)

unfoldable pub remainder : ℤ → ℤ → ℤ
remainder a b = with_sign (is_negative a) (magnitude a % magnitude b)

-- The bits of a number on `b` bits, and the test against the bounds of the signed type.
abbrev pub wrap : (b : ℕ) → ℤ → ℕ
wrap b (pos n) = n % 2 ^ b
wrap b (negsuc n) = 2 ^ b - 1 - n % 2 ^ b

abbrev pub in_range : (b : ℕ) → ℤ → Bool
in_range b (pos n) = ltb n (2 ^ (b - 1))
in_range b (negsuc n) = ltb n (2 ^ (b - 1))

-- `res` is an `int16_t`, and so is the quotient's value in the test.
unfoldable pub idiv8 : (val : ℕ) → Cpu → Option (Cpu × ℕ)
idiv8 val c = do
  ax ← load 2 (in_var eax) c
  let res = signed 16 (wrap 16 (quotient (signed 16 ax) (signed 8 val)))
  let rem = remainder (signed 16 ax) (signed 8 val)
  if in_range 8 res
      then (do
        c ← store 1 (in_var eax) (wrap 8 res) c
        some (set_var eax (set_second_byte (c.var eax) (wrap 8 rem)) c, 0))
      else some (c, minus 1000)

-- `(*dx << 16) | *ax`, where a negative AX fills the upper half with ones.
unfoldable pub dividend16 : (dx ax : ℕ) → ℕ
dividend16 dx ax = bit_or (u32 (dx * 2 ^ 16)) (sign_extend16_32 ax)

-- A quotient that the type of the division cannot hold is undefined.
unfoldable pub idiv16 : (val : ℕ) → Cpu → Option (Cpu × ℕ)
idiv16 val c = do
  dx ← load 2 (in_var edx) c
  ax ← load 2 (in_var eax) c
  let div = signed 32 (dividend16 dx ax)
  let res = quotient div (signed 16 val)
  let rem = remainder div (signed 16 val)
  if in_range 32 res
      then (if in_range 16 res
          then (do
            c ← store 2 (in_var eax) (wrap 16 res) c
            c ← store 2 (in_var edx) (wrap 16 rem) c
            some (c, 0))
          else some (c, minus 1000))
      else none

unfoldable pub idiv32 : (val : ℕ) → Cpu → Option (Cpu × ℕ)
idiv32 val c =
    let div = signed 64 (c.var edx * 2 ^ 32 + c.var eax) in
    let res = quotient div (signed 32 val) in
    let rem = remainder div (signed 32 val) in
    if in_range 64 res
    then (if in_range 32 res
        then some (set_var edx (wrap 32 rem) (set_var eax (wrap 32 res) c), 0)
        else some (c, minus 1000))
    else none

-- The operand's width in the branches of IDIV: 1, 2, and 4 for any other size.
unfoldable pub idiv_i : Handler
idiv_i insn c = do
  let c = advance insn c
  let s1 = insn.op1.size
  let w = if s1 == 1 then 1 else if s1 == 2 then 2 else 4
  val ← factor w insn.op2 c
  if val == 0
      then none
      else if w == 1
      then idiv8 val c
      else if w == 2
      then idiv16 val c
      else idiv32 val c

-- CF and OF tell whether the product fails to fit.
unfoldable pub imul_flags : (ok : Bool) → Cpu → Cpu
imul_flags ok c = let c = put of (not ok) c in put cf (not ok) c

-- An operand of two or four bytes as an `int`, and the product of two of them.
unfoldable pub to_int : (w x : ℕ) → ℕ
to_int w x = if w == 2 then sign_extend16_32 x else x

unfoldable pub int_product : (w x y : ℕ) → ℕ
int_product w x y = u32 (to_int w x * to_int w y)

-- Opcode 0xF6.
unfoldable pub imul_byte : Operand → Cpu → Option Cpu
imul_byte op c = do
  val ← factor 1 op c
  al ← load 1 (in_var eax) c
  c ← store 2 (in_var eax) (sign_extend8_32 al * sign_extend8_32 val) c
  ax ← load 2 (in_var eax) c
  al ← load 1 (in_var eax) c
  some (imul_flags (ax == sign_extend8_16 al) c)

-- Opcode 0xF7 on 16 bits.
unfoldable pub imul_word : Operand → Cpu → Option Cpu
imul_word op c = do
  val ← factor 2 op c
  ax ← load 2 (in_var eax) c
  let res = int_product 2 ax val
  c ← store 2 (in_var edx) (bit_and (res / 2 ^ 16) 0xFFFF) c
  c ← store 2 (in_var eax) (bit_and res 0xFFFF) c
  ax ← load 2 (in_var eax) c
  some (imul_flags (res == sign_extend16_32 ax) c)

unfoldable pub sign_extend32_64 : ℕ → ℕ
sign_extend32_64 v = if bit_and v 0x80000000 == 0 then v else bit_or v 0xFFFFFFFF00000000

-- Opcode 0xF7 on 32 bits: `eax * val` is a product of `uint32_t`.
unfoldable pub imul_long : Operand → Cpu → Option Cpu
imul_long op c = do
  val ← factor 4 op c
  let res = u32 (c.var eax * val)
  let c = set_var edx (bit_and (res / 2 ^ 32) 0xFFFFFFFF) c
  let c = set_var eax (bit_and res 0xFFFFFFFF) c
  some (imul_flags (res == sign_extend32_64 (c.var eax)) c)

-- Opcode 0x0F: the product of two operands.
unfoldable pub imul_two : (w : ℕ) → (op1 op2 : Operand) → Cpu → Option Cpu
imul_two w op1 op2 c = do
  src ← place_of op2 c
  dst ← reg_place op1
  x ← load w dst c
  y ← load w src c
  let res = int_product w x y
  c ← store w dst res c
  some (imul_flags (in_range (8 * w) (signed 32 res)) c)

-- Three operands: the source is read again for the flags.
unfoldable pub imul_three : (w imm : ℕ) → (op1 op2 : Operand) → Cpu → Option Cpu
imul_three w imm op1 op2 c = do
  dst ← reg_place op1
  src ← place_of op2 c
  y ← load w src c
  c ← store w dst (int_product w y imm) c
  y ← load w src c
  some (imul_flags (in_range (8 * w) (signed 32 (int_product w y imm))) c)

-- Opcode 0x6B with two operands: the flags come from a second multiplication.
unfoldable pub imul_twice : (w imm : ℕ) → Operand → Cpu → Option Cpu
imul_twice w imm op1 c = do
  dst ← reg_place op1
  x ← load w dst c
  c ← store w dst (int_product w x imm) c
  x ← load w dst c
  some (imul_flags (in_range (8 * w) (signed 32 (int_product w x imm))) c)

-- Opcode 0x69 with two operands: `res = *r = imm` overwrites the product.
unfoldable pub imul_assign : (w imm : ℕ) → Operand → Cpu → Option Cpu
imul_assign w imm op1 c = do
  dst ← reg_place op1
  x ← load w dst c
  c ← store w dst (int_product w x imm) c
  c ← store w dst imm c
  some (imul_flags (in_range (8 * w) (signed 32 (to_int w imm))) c)

abbrev pub short_imm : (w imm : ℕ) → ℕ
short_imm w imm = if w == 2 then sign_extend8_16 (imm % 2 ^ 8) else sign_extend8_32 (imm % 2 ^ 8)

unfoldable pub imul_i : Handler
imul_i insn c = do
  let c = advance insn c
  let opc1 = insn.opcode
  let w = if insn.op1.size == 2 then 2 else 4
  c ←
      if opc1 == 0xF6
      then imul_byte insn.op1 c
      else if opc1 == 0xF7
      then (if w == 2 then imul_word insn.op1 c else imul_long insn.op1 c)
      else if opc1 == 0x0F
      then imul_two w insn.op1 insn.op2 c
      else if opc1 == 0x6B
      then (if insn.op_count == 3
          then imul_three w (short_imm w insn.op3.imm) insn.op1 insn.op2 c
          else imul_twice w (short_imm w insn.op2.imm) insn.op1 c)
      else if insn.op_count == 3
      then imul_three w (insn.op3.imm % 2 ^ (8 * w)) insn.op1 insn.op2 c
      else imul_assign w (insn.op2.imm % 2 ^ (8 * w)) insn.op1 c
  some (c, 0)
