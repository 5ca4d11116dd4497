-- ===== src/Instr/Arith/Difference.antt =====
-- SUB on register operands of every width.
use vm_i386_32bit.Base.{ℕ, ◌^◌, ◌<◌, ◌≡◌, arith, some, ltb, bit_and-low, ◌∙◌, sym}
use vm_i386_32bit.Flags.Meaning.{Width, bits, bytes, byte, word, dword, difference_of}
use vm_i386_32bit.Machine.{Cpu, Var, set_var}
use vm_i386_32bit.Operand.{Insn, Operand, advance, reg_place}
use vm_i386_32bit.Instr.Arith.{put_flags, masked, sub_i, sub_source, sub_place, sub32}
use vm_i386_32bit.Instr.Arith.Flags.{SubFlags, put_flags-SubFlags}
use vm_i386_32bit.Instr.Arith.Registers.{
  IsRegister, Writes, low, low-lt, merge, advance-var, rewrite_place-register, width_of-bits,
  put_flags-Writes, base_of-register,
}

low_difference :
    (w : Width) (a b : ℕ)
    → b < 2 ^ bits w
    → low w (sub32 a (masked (bytes w) b)) ≡ difference_of w a b
unfolding sub32
low_difference byte a b h = ground (arith, bit_and-low 8 b)
low_difference word a b h = ground (arith, bit_and-low 16 b)
low_difference dword a b h = ground arith

difference_of-low : (w : Width) (a b : ℕ) → low w (difference_of w a b) ≡ difference_of w a b
difference_of-low byte a b = omega arith
difference_of-low word a b = omega arith
difference_of-low dword a b = omega arith

sub_place-register :
    {w : Width} {v : Var} (op : Operand) (b : ℕ) (c : Cpu)
    → IsRegister w v op
    → sub_place op b c
      ≡ some (
        low w (c.var v),
        low w (sub32 (low w (c.var v)) (masked (bytes w) b)),
        set_var v (merge w (c.var v) (sub32 (low w (c.var v)) (masked (bytes w) b))) c,
      )
unfolding sub_place reg_place
sub_place-register {w} {v} op b c dst =
    rw (dst.kind, dst.variable, dst.width, width_of-bits w)
      (rewrite_place-register w v (λ x. sub32 x (masked (bytes w) b)) c)

module _ {w : Width} {v : Var} (insn : Insn) (c : Cpu) (b : ℕ) (dst : IsRegister w v insn.op1)
    (fits : b < 2 ^ bits w) where
  -- The value of the destination before.
  abbrev a' : ℕ
  a' = low w (c.var v)

  abbrev subtracted : Cpu
  subtracted =
      put_flags (ltb a' b) a' b (difference_of w a' b) (bits w)
        (set_var v (merge w (c.var v) (sub32 a' (masked (bytes w) b))) (advance insn c))

  sub_i-subtracted :
      sub_source insn.op1.size insn.op2 (advance insn c) ≡ some b
      → sub_i insn c ≡ some (subtracted, 0)
  unfolding sub_i
  sub_i-subtracted source = rw (
    source,
    sub_place-register insn.op1 b (advance insn c) dst,
    advance-var insn c v dst.not_eip,
    low_difference w a' b fits,
    base_of-register insn.op1 dst,
  )

  -- When the first operand of a SUB is a register of 8, 16 or 32 bits other than EIP and EFLAGS,
  -- and the second one has a value b below two to that width, SUB succeeds, leaves the difference
  -- modulo two to that width in the register's low bits, moves EIP behind itself and leaves the
  -- other registers but EFLAGS and the memory as they were; CF is set exactly if the first number
  -- is less without sign, ZF exactly if the two are equal, SF exactly if the leading bit of the
  -- difference is set, AF exactly if there is a borrow from the low four bits, PF exactly if the
  -- low byte of the difference has an even number of ones, and where OF is set the signed
  -- difference fits the width.
  pub sub_i-register :
      sub_source insn.op1.size insn.op2 (advance insn c) ≡ some b
      → (d : Cpu) × (sub_i insn c ≡ some (d, 0))
        × Writes w v (difference_of w a' b) insn c d
        × SubFlags w a' b d
  sub_i-register source = (
    subtracted,
    sub_i-subtracted source,
    put_flags-Writes (difference_of w a' b) (sub32 a' (masked (bytes w) b)) insn c insn.op1 _ a' b _
        _ dst (low_difference w a' b fits ∙ sym (difference_of-low w a' b)),
    put_flags-SubFlags w a' b _ (low-lt w (c.var v)) fits,
  )
