-- ===== src/Invariant/Flow.antt =====
-- The jumps, the instructions that set a byte, and the loops.
use vm_i386_32bit.Base.{Bool}
use vm_i386_32bit.Machine.{Cpu}
use vm_i386_32bit.Machine.State.{IsCpu}
use vm_i386_32bit.Operand.{Operand}
use vm_i386_32bit.Invariant.Rules.{gives, Gives-read, Keeps, if-IsCpu, advance-IsCpu, set_var-IsCpu}
use vm_i386_32bit.Invariant.Access.{keeps_rules, target_value-IsWord, u32-IsWord}
use vm_i386_32bit.Instr.Jump.{jump_if, jmp_i}
use vm_i386_32bit.Instr.SetCond.{set_if}
use vm_i386_32bit.Instr.Counted.{loop_if, loop_target}

pub jump_if-Keeps : (taken : Cpu → Bool) → Keeps (jump_if taken)
unfolding jump_if
jump_if-Keeps taken insn c ok = search (keeps_rules, Gives-read, target_value-IsWord)

pub jmp_i-Keeps : Keeps jmp_i
unfolding jmp_i
jmp_i-Keeps insn c ok = search (keeps_rules, Gives-read, target_value-IsWord)

pub set_if-Keeps : (holds : Cpu → Bool) → Keeps (set_if holds)
unfolding set_if
set_if-Keeps holds insn c ok = search keeps_rules

loop_target-IsCpu : (op : Operand) (c : Cpu) → IsCpu c → IsCpu (loop_target op c)
unfolding loop_target
loop_target-IsCpu op c ok = search (if-IsCpu, set_var-IsCpu, u32-IsWord) depth 10

pub loop_if-Keeps : (taken : Cpu → Bool) → Keeps (loop_if taken)
unfolding loop_if
loop_if-Keeps taken insn c ok =
    search (gives, if-IsCpu, loop_target-IsCpu, set_var-IsCpu, u32-IsWord, advance-IsCpu) depth 10
