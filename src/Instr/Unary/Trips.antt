-- ===== src/Instr/Unary/Trips.antt =====
-- INC and then DEC on a register of every width.
use vm_i386_32bit.Base.{ℕ, ◌+◌, ◌≡◌, refl, arith, false, some, ltb, ◌==◌, ap, ◌∙◌}
use vm_i386_32bit.Flags.Meaning.{Width, bits, byte, word, dword}
use vm_i386_32bit.Machine.{Cpu, Var, set_var, same_var, u32, eip, eflags}
use vm_i386_32bit.Operand.{Insn, Operand, advance, reg_place}
use vm_i386_32bit.Operand.Laws.{regs-inside}
use vm_i386_32bit.Instr.Arith.{put_flags, base_of, sub32}
use vm_i386_32bit.Instr.Arith.Registers.{
  IsRegister, Writes, low, merge, advance-var, rewrite_place-register, width_of-bits,
  put_flags-Writes,
}
use vm_i386_32bit.Instr.Unary.{step_register, inc_place, inc_i, dec_place, dec_i}

step_register-register :
    {w : Width} {v : Var} (op : Operand) (f : ℕ → ℕ) (c : Cpu)
    → IsRegister w v op
    → step_register op f c
      ≡ some (
        low w (c.var v),
        low w (f (low w (c.var v))),
        set_var v (merge w (c.var v) (f (low w (c.var v)))) c,
      )
unfolding step_register reg_place
step_register-register {w} {v} op f c dst =
    let in_table : ltb 49 op.reg ≡ false = regs-inside op.reg v dst.variable in
    let sized : (bits w == 0) ≡ false = positive w in
    rw (in_table, dst.width, sized, dst.variable, width_of-bits w) (rewrite_place-register w v f c)
  where
    positive : (w : Width) → (bits w == 0) ≡ false
    positive byte = refl
    positive word = refl
    positive dword = refl

inc_place-register :
    {w : Width} {v : Var} (op : Operand) (c : Cpu)
    → IsRegister w v op
    → inc_place op c
      ≡ some (
        low w (c.var v),
        low w (u32 (low w (c.var v) + 1)),
        set_var v (merge w (c.var v) (u32 (low w (c.var v) + 1))) c,
      )
unfolding inc_place step_register reg_place
inc_place-register op c dst = rw dst.kind (step_register-register op (λ x. u32 (x + 1)) c dst)

dec_place-register :
    {w : Width} {v : Var} (op : Operand) (c : Cpu)
    → IsRegister w v op
    → dec_place op c
      ≡ some (
        low w (c.var v),
        low w (sub32 (low w (c.var v)) 1),
        set_var v (merge w (c.var v) (sub32 (low w (c.var v)) 1)) c,
      )
unfolding dec_place step_register reg_place
dec_place-register op c dst = rw dst.kind (step_register-register op (λ x. sub32 x 1) c dst)

module _ {w : Width} {v : Var} (insn : Insn) (c : Cpu) (dst : IsRegister w v insn.op1) where
  inc_i-Writes :
      (d : Cpu) × (inc_i insn c ≡ some (d, 0)) × Writes w v (u32 (low w (c.var v) + 1)) insn c d
  unfolding inc_i
  inc_i-Writes =
      let x = u32 (low w (c.var v) + 1) in
      (
        put_flags (ltb (low w x) (low w (c.var v))) (low w (c.var v)) 1 (low w x)
            (base_of insn.op1.size) (set_var v (merge w (c.var v) x) (advance insn c)),
        rw (inc_place-register insn.op1 (advance insn c) dst, advance-var insn c v dst.not_eip),
        put_flags-Writes x x insn c insn.op1 _ _ 1 _ _ dst refl,
      )

  dec_i-Writes :
      (d : Cpu) × (dec_i insn c ≡ some (d, 0)) × Writes w v (sub32 (low w (c.var v)) 1) insn c d
  unfolding dec_i
  dec_i-Writes =
      let x = sub32 (low w (c.var v)) 1 in
      (
        put_flags (ltb (low w (c.var v)) 1) (low w (c.var v)) 1 (low w x) (base_of insn.op1.size)
            (set_var v (merge w (c.var v) x) (advance insn c)),
        rw (dec_place-register insn.op1 (advance insn c) dst, advance-var insn c v dst.not_eip),
        put_flags-Writes x x insn c insn.op1 _ _ 1 _ _ dst refl,
      )

-- One up and one down within the width.
merge-inc_dec :
    (w : Width) (x : ℕ)
    → merge w (merge w x (u32 (low w x + 1))) (sub32 (low w (merge w x (u32 (low w x + 1)))) 1) ≡ x
unfolding sub32
merge-inc_dec byte x = omega arith
merge-inc_dec word x = omega arith
merge-inc_dec dword x = omega arith

module _ {w : Width} {v : Var} (up down : Insn) (c : Cpu) (one : IsRegister w v up.op1)
    (two : IsRegister w v down.op1) where
  -- For two operands that name the same register of 8, 16 or 32 bits, other than EIP and EFLAGS,
  -- an INC succeeds on every machine, and a DEC on the machine that it leaves succeeds and brings
  -- the register back; the other registers but EIP and EFLAGS and the memory are as they were.
  pub inc_i-dec_i :
      (d : Cpu) × (inc_i up c ≡ some (d, 0))
      × (e : Cpu) × (dec_i down d ≡ some (e, 0))
      × (e.var v ≡ c.var v)
      × ((u : Var)
          → same_var v u ≡ false
          → same_var eip u ≡ false
          → same_var eflags u ≡ false
          → e.var u ≡ c.var u)
      × (e.mem ≡ c.mem)
  inc_i-dec_i =
      let r = inc_i-Writes up c one in
      let s = dec_i-Writes down r.0 two in
      (
        r.0,
        r.1,
        s.0,
        s.1,
        s.2.target ∙ ap (λ t. merge w t (sub32 (low w t) 1)) r.2.target ∙ merge-inc_dec w (c.var v),
        λ u p q n. s.2.others u p q n ∙ r.2.others u p q n,
        s.2.memory ∙ r.2.memory,
      )
