-- ===== src/Instr/Counted/Inverted.antt =====
-- When the counted loops jump.
use vm_i386_32bit.Base.{
  ◌+◌, ◌-◌, ◌^◌, ◌<◌, ◌≡◌, ◌⊎◌, inl, inr, refl, arith, Bool, true, false, not, ◌&&◌, some, ◌==◌,
  Bool-cases,
}
use vm_i386_32bit.Flags.{zf}
use vm_i386_32bit.Machine.{Cpu, flag, set_var, u32, ecx, eip}
use vm_i386_32bit.Operand.{Insn, Operand, advance}
use vm_i386_32bit.Instr.Handler.{Handler}
use vm_i386_32bit.Instr.Counted.{loop_i, loope_i, loopne_i, loopnz_i, loopz_i, loop_if, loop_target}

-- The handler counts ECX down and jumps if ECX was one and `p` holds.
pub record Turns (h : Handler) (p : Bool) (insn : Insn) (c : Cpu) : Type 0 where
  pub after : Cpu
  pub runs : h insn c ≡ some (after, 0)
  pub counted : after.var ecx ≡ u32 (c.var ecx + 2 ^ 32 - 1)
  pub outcome :
      ((c.var ecx ≡ 1) × (p ≡ true) × (after.var eip ≡ u32 insn.op1.imm))
      ⊎ ((c.var ecx ≡ 1 → p ≡ false) × (after.var eip ≡ u32 (c.var eip + insn.size)))

loop_target-near :
    (op : Operand) (c : Cpu) → op.size ≡ 4 → loop_target op c ≡ set_var eip (u32 op.imm) c
unfolding loop_target
loop_target-near op c near = rw near

module _ (insn : Insn) (c : Cpu) (near : insn.op1.size ≡ 4) (small : c.var ecx < 2 ^ 32) where
  abbrev counted_down : Cpu
  counted_down = set_var ecx (u32 (c.var ecx + 2 ^ 32 - 1)) (advance insn c)

  loop_if-Turns : (q : Cpu → Bool) → Turns (loop_if q) (q counted_down) insn c
  unfolding loop_if advance
  loop_if-Turns q = elim (Bool-cases (u32 (c.var ecx + 2 ^ 32 - 1) == 0 && q counted_down)) [
    | inl t ↦ record {
      after = set_var eip (u32 insn.op1.imm) counted_down;
      runs = rw (t, loop_target-near insn.op1 counted_down near);
      counted = refl;
      outcome = inl (ground arith, ground arith, refl);
    }
    | inr f ↦ record {
      after = counted_down;
      runs = rw f;
      counted = refl;
      outcome = inr ((λ e. ground arith), refl);
    }
  ]

  -- For a target operand of four bytes and a 32-bit ECX, each of LOOP, LOOPE, LOOPZ, LOOPNE and
  -- LOOPNZ succeeds, takes one from ECX modulo two to the 32, and jumps to the operand exactly if
  -- ECX was one and its condition (none, ZF set, ZF set, ZF clear, ZF clear) holds; otherwise, so
  -- also with more rounds to go, it falls through.
  pub loops-Turns :
      Turns loop_i true insn c
      × Turns loope_i (flag zf c) insn c
      × Turns loopz_i (flag zf c) insn c
      × Turns loopne_i (not (flag zf c)) insn c
      × Turns loopnz_i (not (flag zf c)) insn c
  unfolding loop_i loope_i loopz_i loopne_i loopnz_i advance
  loops-Turns = (
    loop_if-Turns (λ d. true),
    loop_if-Turns (λ d. flag zf d),
    loop_if-Turns (λ d. flag zf d),
    loop_if-Turns (λ d. not (flag zf d)),
    loop_if-Turns (λ d. not (flag zf d)),
  )
