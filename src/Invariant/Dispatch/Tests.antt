-- ===== src/Invariant/Dispatch/Tests.antt =====
-- The invariant of the dispatcher at `aam` and a host whose system calls do nothing.
use vm_i386_32bit.Base.{some, none}
use vm_i386_32bit.Machine.{Cpu}
use vm_i386_32bit.Instr.Decimal.{aam_i}
use vm_i386_32bit.Instr.Samples.{on_eax}
use vm_i386_32bit.Examples.{start}

-- AAM has moved EIP and split AL.
abbrev adjusted : Cpu
adjusted = elim (aam_i on_eax start) [ some r ↦ r.0 | none ↦ start ]
