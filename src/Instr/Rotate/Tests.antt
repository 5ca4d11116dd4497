-- ===== src/Instr/Rotate/Tests.antt =====
-- The theorem on ROL and ROR at `rol eax, 4` and `ror eax, 4`; EAX is 0xFFFFFFF0.
use vm_i386_32bit.Base.{◌≡◌, refl, arith, false, some}
use vm_i386_32bit.Machine.{Cpu, Var, same_var, eax, eip, eflags}
use vm_i386_32bit.Operand.{Insn}
use vm_i386_32bit.Instr.Rotate.{rol_i, ror_i}
use vm_i386_32bit.Instr.Rotate.Trips.{rol_i-ror_i}
use vm_i386_32bit.Instr.Samples.{eax-IsRegister}
use vm_i386_32bit.Examples.{start, register, immediate, instruction}

abbrev by_4 : Insn
by_4 = instruction 3 (register 19 4) (immediate 4 1)

rol_i-ror_i_example :
    (d : Cpu) × (e : Cpu) × (rol_i by_4 start ≡ some (d, 0))
    × (ror_i by_4 d ≡ some (e, 0))
    × (d.var eax ≡ 0xFFFFFF0F)
    × (e.var eax ≡ 0xFFFFFFF0)
    × ((u : Var)
        → same_var eax u ≡ false
        → same_var eip u ≡ false
        → same_var eflags u ≡ false
        → e.var u ≡ start.var u)
    × (e.mem ≡ start.mem)
rol_i-ror_i_example =
    rol_i-ror_i 4 eax by_4 by_4 start (omega arith) (omega arith) (omega arith) eax-IsRegister refl
      refl eax-IsRegister refl refl
