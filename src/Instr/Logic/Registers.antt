-- ===== src/Instr/Logic/Registers.antt =====
-- AND, OR and XOR on register operands of every width.
use vm_i386_32bit.Base.{
  ℕ, ◌-◌, ◌%◌, ◌^◌, ◌≤◌, ◌<◌, ◌≡◌, ◌↔◌, refl, arith, true, false, some, bit_and, bit_or, bit_xor,
  bit, min, max, ap, subst, ◌∙◌, ==_iff,
}
use vm_i386_32bit.Flags.{cf, pf, af, zf, sf, df, of, test_flag, zero_test}
use vm_i386_32bit.Flags.Laws.{test-put}
use vm_i386_32bit.Flags.Meaning.{Width, bits, ones, sign-ge, parity-even}
use vm_i386_32bit.Machine.{Cpu, Var, flag, set_var, same_var, eip, eflags}
use vm_i386_32bit.Operand.{Insn, Operand, advance, reg_place, source_value}
use vm_i386_32bit.Instr.Handler.{Handler}
use vm_i386_32bit.Instr.Arith.Registers.{
  IsRegister, Writes, low, low-lt, low-small, merge, advance-var, rewrite_place-register,
  width_of-bits,
}
use vm_i386_32bit.Instr.Logic.{
  logic_flags, logic_register, and_place, or_place, and_i, or_i, xor_i, combine,
}
use vm_i386_32bit.Instr.Logic.Digits.{
  Digitwise, differ, bit_and-Digitwise, bit_or-Digitwise, bit_xor-Digitwise, masked-small,
  bit_xor-same,
}

-- The flags after a logical instruction with the result `r`.
pub record LogicFlags (w : Width) (r : ℕ) (c d : Cpu) : Type 0 where
  pub carry : flag cf d ≡ false
  pub over : flag of d ≡ false
  pub negative : (flag sf d ≡ true) ↔ (2 ^ (bits w - 1) ≤ r)
  pub zeroed : (flag zf d ≡ true) ↔ (r ≡ 0)
  pub even : (flag pf d ≡ true) ↔ (ones 8 r % 2 ≡ 0)
  pub adjusted : flag af d ≡ flag af c
  pub direction : flag df d ≡ flag df c

logic_flags-LogicFlags : (w : Width) (r : ℕ) (c : Cpu) → LogicFlags w r c (logic_flags r (bits w) c)
unfolding logic_flags zero_test
logic_flags-LogicFlags w r c = record {
  carry = simp test-put;
  over = simp test-put;
  negative = simp test-put (sign-ge w r);
  zeroed = simp test-put (==_iff r 0);
  even = simp test-put (parity-even r);
  adjusted = simp test-put;
  direction = simp test-put;
}

var-logic_flags :
    (v : Var) (r base : ℕ) (c : Cpu)
    → same_var eflags v ≡ false
    → (logic_flags r base c).var v ≡ c.var v
unfolding logic_flags
var-logic_flags v r base c ne = ground arith

mem-logic_flags : (r base : ℕ) (c : Cpu) → (logic_flags r base c).mem ≡ c.mem
unfolding logic_flags
mem-logic_flags r base c = refl

logic_register-written :
    {w : Width} {v : Var} (f g : ℕ → ℕ → ℕ) (op : Operand) (b : ℕ) (c : Cpu)
    → Digitwise w f g
    → IsRegister w v op
    → b < 2 ^ bits w
    → logic_register f op b c
      ≡ some
          (f (low w (c.var v)) b, bits w, set_var v (merge w (c.var v) (f (low w (c.var v)) b)) c)
unfolding logic_register combine reg_place
logic_register-written {w} {v} f g op b c law dst fits = rw (
  dst.variable,
  dst.width,
  width_of-bits w,
  masked-small w b fits,
  rewrite_place-register w v (λ x. f x b) c,
  low-small w (f (low w (c.var v)) b) (law.small (low w (c.var v)) b (low-lt w (c.var v)) fits),
)

-- The handler `h` leaves in `v` the number whose digits are those of `a` and `b` under `g`.
pub record Combines (w : Width) (v : Var) (g : ℕ → ℕ → ℕ) (h : Handler) (b : ℕ) (insn : Insn)
    (c : Cpu) : Type 0 where
  pub after : Cpu
  pub result : ℕ
  pub runs : h insn c ≡ some (after, 0)
  pub digits : (k : ℕ) → bit k result ≡ g (bit k (low w (c.var v))) (bit k b)
  pub writes : Writes w v result insn c after
  pub flags : LogicFlags w result c after

module _ {w : Width} {v : Var} (insn : Insn) (c : Cpu) (b : ℕ) (dst : IsRegister w v insn.op1)
    (fits : b < 2 ^ bits w) (source : source_value insn.op2 (advance insn c) ≡ some b) where
  abbrev a : ℕ
  a = low w (c.var v)

  abbrev written : (ℕ → ℕ → ℕ) → Cpu
  written f = logic_flags (f a b) (bits w) (set_var v (merge w (c.var v) (f a b)) (advance insn c))

  written-Writes : (f : ℕ → ℕ → ℕ) → Writes w v (f a b) insn c (written f)
  unfolding advance
  written-Writes f =
      let d = set_var v (merge w (c.var v) (f a b)) (advance insn c) in
      record {
        target = var-logic_flags v (f a b) (bits w) d dst.not_eflags ∙ ground arith;
        next = var-logic_flags eip (f a b) (bits w) d refl ∙ ground (arith, dst.not_eip);
        others = λ u hv hi hf. var-logic_flags u (f a b) (bits w) d hf ∙ ground arith;
        memory = mem-logic_flags (f a b) (bits w) d;
      }

  written-LogicFlags : (f : ℕ → ℕ → ℕ) → LogicFlags w (f a b) c (written f)
  unfolding advance
  written-LogicFlags f =
      let d = set_var v (merge w (c.var v) (f a b)) (advance insn c) in
      let r = logic_flags-LogicFlags w (f a b) d in
      let kept : d.var eflags ≡ c.var eflags = ground (arith, dst.not_eflags) in
      record {
        carry = r.carry;
        over = r.over;
        negative = r.negative;
        zeroed = r.zeroed;
        even = r.even;
        adjusted = r.adjusted ∙ ap (test_flag af) kept;
        direction = r.direction ∙ ap (test_flag df) kept;
      }

  combined :
      (f g : ℕ → ℕ → ℕ) (h : Handler)
      → Digitwise w f g
      → h insn c ≡ some (written f, 0)
      → Combines w v g h b insn c
  combined f g h law ran = record {
    after = written f;
    result = f a b;
    runs = ran;
    digits = λ k. law.digit k a b;
    writes = written-Writes f;
    flags = written-LogicFlags f;
  }

  or_place-written :
      (f g : ℕ → ℕ → ℕ)
      → Digitwise w f g
      → or_place f insn.op1 insn.op2 b (advance insn c)
        ≡ some (f a b, bits w, set_var v (merge w (c.var v) (f a b)) (advance insn c))
  unfolding or_place reg_place advance
  or_place-written f g law = rw (
    dst.kind,
    logic_register-written f g insn.op1 b (advance insn c) law dst fits,
    advance-var insn c v dst.not_eip,
  )

  and_place-written :
      and_place insn.op1 b (advance insn c)
      ≡ some (bit_and a b, bits w, set_var v (merge w (c.var v) (bit_and a b)) (advance insn c))
  unfolding and_place reg_place advance
  and_place-written = rw (
    dst.kind,
    logic_register-written bit_and min insn.op1 b (advance insn c) (bit_and-Digitwise w) dst fits,
    advance-var insn c v dst.not_eip,
  )

  -- When the first operand is a register of 8, 16 or 32 bits other than EIP and EFLAGS, and the
  -- second one has a value b below two to that width, AND, OR and XOR succeed and leave in the
  -- register's low bits the number whose every digit is the minimum, the maximum and the sum
  -- modulo two of the digits of the register's low bits and of b; EIP is behind the instruction,
  -- the other registers but EFLAGS and the memory are as they were, CF and OF are clear, SF, ZF
  -- and PF are set exactly if the result has its leading bit set, is zero, and has an even number
  -- of ones in its low byte, and AF and DF are as they were.
  pub logic-Combines :
      Combines w v min and_i b insn c
      × Combines w v max or_i b insn c
      × Combines w v differ xor_i b insn c
  unfolding and_i or_i xor_i
  logic-Combines = (
    combined bit_and min and_i (bit_and-Digitwise w) (rw (source, and_place-written)),
    combined bit_or max or_i (bit_or-Digitwise w)
        (rw (source, or_place-written bit_or max (bit_or-Digitwise w))),
    combined bit_xor differ xor_i (bit_xor-Digitwise w)
        (rw (source, or_place-written bit_xor differ (bit_xor-Digitwise w))),
  )

  -- When the first operand of a XOR is a register of 8, 16 or 32 bits other than EIP and EFLAGS,
  -- and the second one has the value that the register's low bits have, XOR succeeds, clears those
  -- bits, and leaves the flags of the result zero, CF and OF clear.
  pub xor_i-same :
      b ≡ a → (d : Cpu) × (xor_i insn c ≡ some (d, 0)) × Writes w v 0 insn c d × LogicFlags w 0 c d
  unfolding xor_i
  xor_i-same same =
      let e : bit_xor a b ≡ 0 = rw same (bit_xor-same w a (low-lt w (c.var v))) in
      (
        written bit_xor,
        rw (source, or_place-written bit_xor differ (bit_xor-Digitwise w)),
        subst (λ r. Writes w v r insn c (written bit_xor)) e (written-Writes bit_xor),
        subst (λ r. LogicFlags w r c (written bit_xor)) e (written-LogicFlags bit_xor),
      )
