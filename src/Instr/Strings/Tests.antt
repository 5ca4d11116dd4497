-- ===== src/Instr/Strings/Tests.antt =====
-- The theorem on REP MOVSB at a sample machine: three bytes from 0x1000 to 0x2000.
use vm_i386_32bit.Operand.{Insn}
use vm_i386_32bit.Examples.{memory, instruction}

abbrev copy_insn : Insn
copy_insn = instruction 2 (memory 23 0 1) (memory 29 0 1)
