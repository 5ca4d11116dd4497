-- ===== src/Invariant/Logic.antt =====
-- The logical instructions and the data movement.
use vm_i386_32bit.Base.{ℕ, ◌≤◌, bit_and}
use vm_i386_32bit.Machine.{Cpu, Place}
use vm_i386_32bit.Machine.State.{IsCpu}
use vm_i386_32bit.Operand.{Operand, Insn}
use vm_i386_32bit.Invariant.Rules.{
  Gives, undefined, gives, Gives-kind, Gives-write, Gives-skip, Gives-rewrite, Keeps, Rewrites,
  Runs, advance-IsCpu,
}
use vm_i386_32bit.Invariant.Access.{keeps_rules, put-IsCpu, size_width-le}
use vm_i386_32bit.Operand.{mem_place}
use vm_i386_32bit.Instr.Arith.{base_of}
use vm_i386_32bit.Instr.Logic.{
  logic_flags, combine, logic_register, and_place, or_place, and_i, or_i, xor_i, not_i, test_i,
}
use vm_i386_32bit.Instr.Move.{
  mov_place, mov_i, set_register, movsx_register, movsx_i, movzx_register, movzx_i, lea_register,
  lea_i, xchg_i, xlat_i,
}
use vm_i386_32bit.Invariant.Arith.{rewrite_rules}

logic_flags-IsCpu : (res base : ℕ) (c : Cpu) → IsCpu c → IsCpu (logic_flags res base c)
unfolding logic_flags
logic_flags-IsCpu res base c ok = search put-IsCpu depth 10

combine-Rewrites :
    (w base : ℕ) (p : Place) (f : ℕ → ℕ) (c : Cpu)
    → w ≤ 4
    → IsCpu c
    → Rewrites (combine w base p f c)
unfolding combine
combine-Rewrites w base p f c h ok = search (rewrite_rules, Gives-rewrite) depth 10

logic_register-Rewrites :
    (f : ℕ → ℕ → ℕ) (op : Operand) (val : ℕ) (c : Cpu)
    → IsCpu c
    → Rewrites (logic_register f op val c)
unfolding logic_register
logic_register-Rewrites f op val c ok = search (keeps_rules, combine-Rewrites) depth 10

and_place-Rewrites : (op : Operand) (val : ℕ) (c : Cpu) → IsCpu c → Rewrites (and_place op val c)
unfolding and_place
and_place-Rewrites op val c ok =
    Gives-kind op.kind undefined (logic_register-Rewrites bit_and op val c ok) undefined (
      Gives-skip (mem_place op c) _ λ p.
        combine-Rewrites _ (base_of op.size) p (λ x. bit_and x val) c (size_width-le op.size) ok)

or_place-Rewrites :
    (f : ℕ → ℕ → ℕ) (op1 op2 : Operand) (val : ℕ) (c : Cpu)
    → IsCpu c
    → Rewrites (or_place f op1 op2 val c)
unfolding or_place
or_place-Rewrites f op1 op2 val c ok =
    Gives-kind op1.kind undefined (logic_register-Rewrites f op1 val c ok) undefined
      (search (keeps_rules, combine-Rewrites))

pub and_i-Keeps : Keeps and_i
unfolding and_i
and_i-Keeps insn c ok =
    search (keeps_rules, Gives-rewrite, and_place-Rewrites, logic_flags-IsCpu) depth 30

pub or_i-Keeps : Keeps or_i
unfolding or_i
or_i-Keeps insn c ok =
    search (keeps_rules, Gives-rewrite, or_place-Rewrites, logic_flags-IsCpu) depth 30

pub xor_i-Keeps : Keeps xor_i
unfolding xor_i
xor_i-Keeps insn c ok =
    search (keeps_rules, Gives-rewrite, or_place-Rewrites, logic_flags-IsCpu) depth 30

pub not_i-Keeps : Keeps not_i
unfolding not_i
not_i-Keeps insn c ok = search keeps_rules depth 30

pub test_i-Keeps : Keeps test_i
unfolding test_i
test_i-Keeps insn c ok = search (keeps_rules, logic_flags-IsCpu) depth 30

mov_place-IsCpu : (op : Operand) (val : ℕ) (c : Cpu) → IsCpu c → Gives IsCpu (mov_place op val c)
unfolding mov_place
mov_place-IsCpu op val c ok =
    Gives-kind op.kind (gives ok) (search keeps_rules) (gives ok) (search keeps_rules)

pub mov_i-Keeps : Keeps mov_i
unfolding mov_i
mov_i-Keeps insn c ok = search (keeps_rules, mov_place-IsCpu) depth 30

set_register-IsCpu :
    (w x : ℕ) (op : Operand) (c : Cpu) → w ≤ 4 → IsCpu c → Gives IsCpu (set_register w x op c)
unfolding set_register
set_register-IsCpu w x op c h ok = search keeps_rules

movsx_register-IsCpu :
    (val : ℕ) (op1 op2 : Operand) (c : Cpu) → IsCpu c → Gives IsCpu (movsx_register val op1 op2 c)
unfolding movsx_register
movsx_register-IsCpu val op1 op2 c ok = search (keeps_rules, set_register-IsCpu) depth 10

movzx_register-IsCpu :
    (val : ℕ) (op1 op2 : Operand) (c : Cpu) → IsCpu c → Gives IsCpu (movzx_register val op1 op2 c)
unfolding movzx_register
movzx_register-IsCpu val op1 op2 c ok = search (keeps_rules, set_register-IsCpu) depth 10

pub movsx_i-Keeps : Keeps movsx_i
unfolding movsx_i
movsx_i-Keeps insn c ok =
    let moved = advance-IsCpu insn c ok in
    Gives-skip _ _ λ val.
      Gives-kind insn.op1.kind (gives moved)
        (Gives-write (movsx_register-IsCpu val insn.op1 insn.op2 _ moved) λ d k. gives k)
        (gives moved) (gives moved)

pub movzx_i-Keeps : Keeps movzx_i
unfolding movzx_i
movzx_i-Keeps insn c ok =
    let moved = advance-IsCpu insn c ok in
    Gives-skip _ _ λ val.
      Gives-kind insn.op1.kind (gives moved)
        (Gives-write (movzx_register-IsCpu val insn.op1 insn.op2 _ moved) λ d k. gives k)
        (gives moved) (gives moved)

lea_register-Runs : (insn : Insn) (c : Cpu) → IsCpu c → Runs (lea_register insn c)
unfolding lea_register
lea_register-Runs insn c ok = search (keeps_rules, set_register-IsCpu) depth 10

pub lea_i-Keeps : Keeps lea_i
unfolding lea_i
lea_i-Keeps insn c ok =
    let moved = advance-IsCpu insn c ok in
    Gives-kind insn.op1.kind (gives moved)
      (Gives-kind insn.op2.kind (gives moved) (gives moved) (gives moved)
        (lea_register-Runs insn _ moved))
      (gives moved) (gives moved)

pub xchg_i-Keeps : Keeps xchg_i
unfolding xchg_i
xchg_i-Keeps insn c ok = search keeps_rules depth 30

pub xlat_i-Keeps : Keeps xlat_i
unfolding xlat_i
xlat_i-Keeps insn c ok = search keeps_rules depth 30
