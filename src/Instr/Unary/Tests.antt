-- ===== src/Instr/Unary/Tests.antt =====
-- The theorem on INC and DEC at a sample machine.
use vm_i386_32bit.Base.{◌≡◌, false, some}
use vm_i386_32bit.Machine.{Cpu, Var, same_var, eip, eflags, ecx}
use vm_i386_32bit.Instr.Unary.{inc_i, dec_i}
use vm_i386_32bit.Instr.Unary.Trips.{inc_i-dec_i}
use vm_i386_32bit.Instr.Samples.{on_cl, cl-IsRegister}
use vm_i386_32bit.Examples.{start}

inc_i-dec_i_example :
    (d : Cpu) × (inc_i on_cl start ≡ some (d, 0))
    × (e : Cpu) × (dec_i on_cl d ≡ some (e, 0))
    × (e.var ecx ≡ start.var ecx)
    × ((u : Var)
        → same_var ecx u ≡ false
        → same_var eip u ≡ false
        → same_var eflags u ≡ false
        → e.var u ≡ start.var u)
    × (e.mem ≡ start.mem)
inc_i-dec_i_example = inc_i-dec_i on_cl on_cl start cl-IsRegister cl-IsRegister
