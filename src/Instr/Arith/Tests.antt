-- ===== src/Instr/Arith/Tests.antt =====
-- The theorems on the arithmetic handlers at sample instructions.
use vm_i386_32bit.Base.{◌≡◌, refl, arith, some}
use vm_i386_32bit.Flags.Meaning.{dword}
use vm_i386_32bit.Machine.{Cpu, eax}
use vm_i386_32bit.Operand.{source_value}
use vm_i386_32bit.Instr.Arith.{add_i, sub_i, sub_source}
use vm_i386_32bit.Instr.Arith.Flags.{AddFlags, SubFlags}
use vm_i386_32bit.Instr.Arith.Registers.{Writes, add_i-register}
use vm_i386_32bit.Instr.Arith.Difference.{sub_i-register}
use vm_i386_32bit.Instr.Samples.{on_eax, eax-IsRegister}
use vm_i386_32bit.Examples.{start}

add_i-register_example :
    (d : Cpu) × (add_i on_eax start ≡ some (d, 0))
    × Writes dword eax 0x10 on_eax start d
    × AddFlags dword 0xFFFFFFF0 0x20 d
unfolding source_value
add_i-register_example = add_i-register on_eax start 0x20 eax-IsRegister (omega arith) refl

sub_i-register_example :
    (d : Cpu) × (sub_i on_eax start ≡ some (d, 0))
    × Writes dword eax 0xFFFFFFD0 on_eax start d
    × SubFlags dword 0xFFFFFFF0 0x20 d
unfolding sub_source
sub_i-register_example = sub_i-register on_eax start 0x20 eax-IsRegister (omega arith) refl
