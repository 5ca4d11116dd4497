-- ===== src/Instr/MulDiv/Product.antt =====
-- What MUL leaves in its registers.
use vm_i386_32bit.Base.{ℕ, ◌*◌, ◌/◌, ◌%◌, ◌^◌, ◌≡◌, arith, false, some}
use vm_i386_32bit.Flags.{cf, of, zero_test}
use vm_i386_32bit.Flags.Laws.{test-put}
use vm_i386_32bit.Machine.{Cpu, flag, u32, eax, edx}
use vm_i386_32bit.Operand.{Insn, advance}
use vm_i386_32bit.Instr.Arith.{cmp_width}
use vm_i386_32bit.Instr.MulDiv.Quotient.{four}
use vm_i386_32bit.Instr.MulDiv.{factor, mul_flags, mul32, mul_i}

no_high : (p : ℕ) → u32 (u32 p / 2 ^ 32) ≡ 0
no_high p = omega arith

low_half : (p : ℕ) → u32 (u32 p) ≡ p % 2 ^ 32
low_half p = omega arith

-- MUL on 32 bits.
module _ (insn : Insn) (c : Cpu) (val : ℕ) (size : insn.op1.size ≡ 4)
    (source : factor 4 insn.op2 (advance insn c) ≡ some val) where
  mul_i-mul32 : mul_i insn c ≡ some (mul32 val (advance insn c), 0)
  unfolding mul_i
  mul_i-mul32 = let w : cmp_width insn.op1.size ≡ 4 = four insn.op1.size size in rw (w, source)

  -- For an operand of four bytes with whatever value, MUL succeeds, leaves the product modulo two
  -- to the 32 in EAX, and leaves EDX zero and CF and OF clear, also where the product does not fit
  -- 32 bits.
  pub mul_i-low :
      (d : Cpu) × (mul_i insn c ≡ some (d, 0))
      × (d.var eax ≡ c.var eax * val % 2 ^ 32)
      × (d.var edx ≡ 0)
      × (flag cf d ≡ false)
      × (flag of d ≡ false)
  unfolding mul32 mul_flags advance zero_test
  mul_i-low = (
    mul32 val (advance insn c),
    mul_i-mul32,
    low_half (c.var eax * val),
    no_high (c.var eax * val),
    simp (test-put, no_high (c.var eax * val)),
    simp (test-put, no_high (c.var eax * val)),
  )
