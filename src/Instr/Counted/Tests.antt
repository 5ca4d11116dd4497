-- ===== src/Instr/Counted/Tests.antt =====
-- The theorem on LOOP at a sample machine, which has 3 in ECX.
use vm_i386_32bit.Base.{refl, arith, true, not}
use vm_i386_32bit.Flags.{zf}
use vm_i386_32bit.Machine.{flag}
use vm_i386_32bit.Instr.Counted.{loop_i, loope_i, loopz_i, loopne_i, loopnz_i}
use vm_i386_32bit.Instr.Counted.Inverted.{Turns, loops-Turns}
use vm_i386_32bit.Instr.Samples.{jump}
use vm_i386_32bit.Examples.{start}

loops-Turns_example :
    Turns loop_i true jump start
    × Turns loope_i (flag zf start) jump start
    × Turns loopz_i (flag zf start) jump start
    × Turns loopne_i (not (flag zf start)) jump start
    × Turns loopnz_i (not (flag zf start)) jump start
loops-Turns_example = loops-Turns jump start refl (omega arith)
