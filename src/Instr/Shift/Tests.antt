-- ===== src/Instr/Shift/Tests.antt =====
-- The theorem on SHL and SHR at a sample machine: CL is 3, shifted by 2.
use vm_i386_32bit.Base.{◌%◌, ◌^◌, ◌≡◌, refl, arith, some}
use vm_i386_32bit.Machine.{Cpu, ecx}
use vm_i386_32bit.Operand.{Insn}
use vm_i386_32bit.Instr.Shift.{shl_i, shr_i}
use vm_i386_32bit.Instr.Shift.Trips.{shl_i-shr_i}
use vm_i386_32bit.Instr.Samples.{cl-IsRegister}
use vm_i386_32bit.Examples.{start, register, immediate, instruction}

abbrev by_two : Insn
by_two = instruction 3 (register 10 1) (immediate 2 1)

shl_i-shr_i_example :
    (d : Cpu) × (shl_i by_two start ≡ some (d, 0))
    × (d.var ecx % 2 ^ 8 ≡ 12)
    × (e : Cpu) × (shr_i by_two d ≡ some (e, 0))
    × (e.var ecx ≡ start.var ecx)
    × (e.mem ≡ start.mem)
shl_i-shr_i_example =
    shl_i-shr_i by_two by_two start 2 cl-IsRegister cl-IsRegister refl refl refl refl (omega arith)
      (omega arith) (omega arith)
