-- ===== src/Instr/Handler.antt =====
-- The type of the handlers of src/instr.c: the decoded instruction and the machine before it, to
-- the machine after it and the returned code. `none` is a run that C leaves undefined: a NULL
-- pointer, an unset variable, or an address outside the allocation.
use vm_i386_32bit.Base.{ℕ, ◌-◌, ◌^◌, Option}
use vm_i386_32bit.Machine.{Cpu}
use vm_i386_32bit.Operand.{Insn}

abbrev pub Handler : Type 0
Handler = Insn → Cpu → Option (Cpu × ℕ)

-- The `int` -n, in two's complement.
abbrev pub minus : ℕ → ℕ
minus n = 2 ^ 32 - n
