-- ===== src/Instr/MulDiv/Tests.antt =====
-- The theorems on MUL and DIV at sample instructions; EAX is 0xFFFFFFF0, ECX is 3, ESI is 0x1000.
use vm_i386_32bit.Machine.{Cpu, set_var, edx}
use vm_i386_32bit.Operand.{Insn}
use vm_i386_32bit.Examples.{start, register, instruction}

-- The factor and the divisor are in ECX.
abbrev by_ecx : Insn
by_ecx = instruction 2 (register 19 4) (register 22 4)

-- EDX is 1.
abbrev low_edx : Cpu
low_edx = set_var edx 1 start
