-- ===== src/Instr/SetCond/Tests.antt =====
-- The theorems on the byte-setting instructions at a sample instruction.
use vm_i386_32bit.Machine.{Cpu, eflags, set_var}
use vm_i386_32bit.Examples.{start}

-- After a comparison of equal numbers: ZF is set.
abbrev equal : Cpu
equal = set_var eflags 0x242 start
