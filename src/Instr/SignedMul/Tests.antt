-- ===== src/Instr/SignedMul/Tests.antt =====
-- The theorem on IDIV at a sample instruction whose second operand is ECX, 3; EAX is 0xFFFFFFF0.
use vm_i386_32bit.Base.{refl, arith}
use vm_i386_32bit.Base.Int.{ℤ, signed}
use vm_i386_32bit.Machine.{Cpu, load, set_var, edx}
use vm_i386_32bit.Machine.Registers.{regs}
use vm_i386_32bit.Operand.{Insn, advance, place_of, reg_place}
use vm_i386_32bit.Instr.MulDiv.{factor}
use vm_i386_32bit.Instr.SignedMul.{idiv_i}
use vm_i386_32bit.Instr.SignedMul.Quotient.{Divides, Outcomes, dividend, idiv_i-Divides}
use vm_i386_32bit.Examples.{start, register, instruction}

-- EDX and EAX together are -16.
abbrev negative : Cpu
negative = set_var edx 0xFFFFFFFF start

abbrev by_ecx : Insn
by_ecx = instruction 2 (register 19 4) (register 22 4)

idiv_i-Divides_example :
    (q : ℤ) × (r : ℤ) × Divides (dividend negative) (signed 32 3) q r
    × Outcomes q r (advance by_ecx negative) (idiv_i by_ecx negative)
unfolding factor place_of reg_place regs load advance
idiv_i-Divides_example = idiv_i-Divides by_ecx negative 3 refl refl (omega arith) (omega arith)
