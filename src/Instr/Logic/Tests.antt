-- ===== src/Instr/Logic/Tests.antt =====
-- The theorems on the logical instructions at sample instructions.
use vm_i386_32bit.Base.{refl, arith, min, max}
use vm_i386_32bit.Flags.Meaning.{dword}
use vm_i386_32bit.Machine.{eax}
use vm_i386_32bit.Operand.{source_value}
use vm_i386_32bit.Instr.Logic.{and_i, or_i, xor_i}
use vm_i386_32bit.Instr.Logic.Digits.{differ}
use vm_i386_32bit.Instr.Logic.Registers.{Combines, logic-Combines}
use vm_i386_32bit.Instr.Samples.{on_eax, eax-IsRegister}
use vm_i386_32bit.Examples.{start}

logic-Combines_example :
    Combines dword eax min and_i 0x20 on_eax start
    × Combines dword eax max or_i 0x20 on_eax start
    × Combines dword eax differ xor_i 0x20 on_eax start
unfolding source_value
logic-Combines_example = logic-Combines on_eax start 0x20 eax-IsRegister (omega arith) refl
