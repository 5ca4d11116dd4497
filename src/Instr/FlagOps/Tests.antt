-- ===== src/Instr/FlagOps/Tests.antt =====
-- The theorems on the flag instructions at a sample machine.
use vm_i386_32bit.Base.{◌≡◌, refl, arith, some}
use vm_i386_32bit.Machine.{Cpu, eflags, set_var}
use vm_i386_32bit.Instr.FlagOps.{lahf_i, sahf_i}
use vm_i386_32bit.Instr.FlagOps.Effects.{saved, lahf_i-sahf_i}
use vm_i386_32bit.Instr.Samples.{on_ecx}
use vm_i386_32bit.Examples.{start}

-- EFLAGS was overwritten in between.
abbrev between : Cpu
between = set_var eflags 0x2D7 (saved on_ecx start)

lahf_i-sahf_i_example :
    (lahf_i on_ecx start ≡ some (saved on_ecx start, 0))
    × (e : Cpu) × (sahf_i on_ecx between ≡ some (e, 0))
    × (e.var eflags ≡ 0x202)
lahf_i-sahf_i_example = lahf_i-sahf_i on_ecx on_ecx start between (omega arith) refl
