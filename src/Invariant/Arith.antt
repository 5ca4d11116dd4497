-- ===== src/Invariant/Arith.antt =====
-- The arithmetic instructions.
use vm_i386_32bit.Base.{ℕ, ◌≤◌, Bool}
use vm_i386_32bit.Machine.{Cpu, Place}
use vm_i386_32bit.Machine.State.{IsCpu}
use vm_i386_32bit.Operand.{Operand}
use vm_i386_32bit.Invariant.Rules.{undefined, gives, Gives-kind, Gives-rewrite, Keeps, Rewrites}
use vm_i386_32bit.Invariant.Access.{
  IsWord, keeps_rules, target_value-IsWord, source_value-IsWord, source_value32-IsWord, put-IsCpu,
  store-IsCpu, eff_addr-IsWord, load-IsWord, load_bytes-IsWord, reg_val-IsWord, read16-IsWord,
  read32-IsWord, write16-IsCpu, write32-IsCpu, u32-IsWord, width_of-le, size_width-le, cmp_width-le,
  one-le, two-le, four-le,
}
use vm_i386_32bit.Instr.Arith.{
  rewrite_place, put_flags, add_place, add_i, adc_i, sub_place, sub_i, cmp_i, sbb_i,
}
use vm_i386_32bit.Instr.Unary.{step_register, inc_place, dec_place, inc_i, dec_i, neg_i}

pub rewrite_place-Rewrites :
    (w : ℕ) (p : Place) (f : ℕ → ℕ) (c : Cpu) → w ≤ 4 → IsCpu c → Rewrites (rewrite_place w p f c)
unfolding rewrite_place
rewrite_place-Rewrites w p f c h ok = search keeps_rules depth 20

pub put_flags-IsCpu :
    (carry : Bool) (val1 val2 res base : ℕ) (c : Cpu)
    → IsCpu c
    → IsCpu (put_flags carry val1 val2 res base c)
unfolding put_flags
put_flags-IsCpu carry val1 val2 res base c ok = search put-IsCpu depth 10

pub ruleset rewrite_rules = (keeps_rules, rewrite_place-Rewrites, put_flags-IsCpu)

add_place-Rewrites :
    (op : Operand) (extra val2 : ℕ) (c : Cpu) → IsCpu c → Rewrites (add_place op extra val2 c)
unfolding add_place
add_place-Rewrites op extra val2 c ok =
    Gives-kind op.kind undefined (search rewrite_rules) undefined (search rewrite_rules)

sub_place-Rewrites : (op : Operand) (val2 : ℕ) (c : Cpu) → IsCpu c → Rewrites (sub_place op val2 c)
unfolding sub_place
sub_place-Rewrites op val2 c ok =
    Gives-kind op.kind undefined (search rewrite_rules) undefined (search rewrite_rules)

pub add_i-Keeps : Keeps add_i
unfolding add_i
add_i-Keeps insn c ok = search (rewrite_rules, Gives-rewrite, add_place-Rewrites) depth 20

pub adc_i-Keeps : Keeps adc_i
unfolding adc_i
adc_i-Keeps insn c ok = search (rewrite_rules, Gives-rewrite, add_place-Rewrites) depth 20

pub sub_i-Keeps : Keeps sub_i
unfolding sub_i
sub_i-Keeps insn c ok = search (rewrite_rules, Gives-rewrite, sub_place-Rewrites) depth 20

pub cmp_i-Keeps : Keeps cmp_i
unfolding cmp_i
cmp_i-Keeps insn c ok = search rewrite_rules depth 20

pub sbb_i-Keeps : Keeps sbb_i
unfolding sbb_i
sbb_i-Keeps insn c ok = search (rewrite_rules, Gives-rewrite) depth 20

step_register-Rewrites :
    (op : Operand) (f : ℕ → ℕ) (c : Cpu) → IsCpu c → Rewrites (step_register op f c)
unfolding step_register
step_register-Rewrites op f c ok = search rewrite_rules depth 20

inc_place-Rewrites : (op : Operand) (c : Cpu) → IsCpu c → Rewrites (inc_place op c)
unfolding inc_place
inc_place-Rewrites op c ok =
    Gives-kind op.kind (gives ok) (step_register-Rewrites _ _ c ok) (gives ok)
      (search rewrite_rules)

dec_place-Rewrites : (op : Operand) (c : Cpu) → IsCpu c → Rewrites (dec_place op c)
unfolding dec_place
dec_place-Rewrites op c ok =
    Gives-kind op.kind (gives ok) (step_register-Rewrites _ _ c ok) (gives ok)
      (search rewrite_rules)

pub inc_i-Keeps : Keeps inc_i
unfolding inc_i
inc_i-Keeps insn c ok = search (rewrite_rules, Gives-rewrite, inc_place-Rewrites) depth 20

pub dec_i-Keeps : Keeps dec_i
unfolding dec_i
dec_i-Keeps insn c ok = search (rewrite_rules, Gives-rewrite, dec_place-Rewrites) depth 20

pub neg_i-Keeps : Keeps neg_i
unfolding neg_i
neg_i-Keeps insn c ok = search (rewrite_rules, Gives-rewrite) depth 20
