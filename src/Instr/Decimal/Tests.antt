-- ===== src/Instr/Decimal/Tests.antt =====
-- The theorem on AAM and AAD at the machine whose AL is 0xF0 and whose AX is 0xFFF0.
use vm_i386_32bit.Base.{◌+◌, ◌*◌, ◌%◌, ◌^◌, ◌<◌, ◌≡◌, some}
use vm_i386_32bit.Machine.{Cpu, eax}
use vm_i386_32bit.Operand.{Insn}
use vm_i386_32bit.Instr.FlagOps.{second_byte}
use vm_i386_32bit.Instr.Decimal.{aad_i, aam_i}
use vm_i386_32bit.Instr.Decimal.Trips.{aam_i-aad_i}
use vm_i386_32bit.Examples.{start, nothing, instruction}

abbrev adjust : Insn
adjust = instruction 2 nothing nothing

aam_i-aad_i_example :
    (d : Cpu) × (e : Cpu) × (aam_i adjust start ≡ some (d, 0))
    × (d.var eax % 2 ^ 8 < 10)
    × (second_byte (d.var eax) * 10 + d.var eax % 2 ^ 8 ≡ 0xF0)
    × (aad_i adjust d ≡ some (e, 0))
    × (e.var eax ≡ 0xFFFF00F0)
unfolding second_byte
aam_i-aad_i_example = aam_i-aad_i adjust adjust start
