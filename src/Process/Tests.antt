-- ===== src/Process/Tests.antt =====
-- The theorems on the loops and on the breakpoints at sample machines.
use vm_i386_32bit.Base.{◌≡◌, arith, some, ltb, ◌==◌, ◌&&◌, ◌||◌, false}
use vm_i386_32bit.Flags.{cf}
use vm_i386_32bit.Machine.{Cpu, put}
use vm_i386_32bit.Operand.{advance}
use vm_i386_32bit.Process.{Decoder, Breakpoints, max_brk, contains, add_breakpoint}
use vm_i386_32bit.Process.Reached.{start}
use vm_i386_32bit.Process.Slots.{add_breakpoint-contains}
use vm_i386_32bit.Instr.Samples.{on_eax}
use vm_i386_32bit.Examples

-- A program of CLC instructions.
abbrev decode : Decoder
decode c = some ("clc", on_eax)

-- The machine after one of them.
abbrev second : Cpu
second = put cf false (advance on_eax Examples.start)

abbrev no_breakpoints : Breakpoints
no_breakpoints = record { brkpts = λ i. 0; brk_ctr = 0 }

add_breakpoint-contains_example :
    contains
      (add_breakpoint 0x8048000 no_breakpoints).brkpts
      (add_breakpoint 0x8048000 no_breakpoints).brk_ctr
      0x8048000
    ≡ (ltb 1 max_brk && (contains no_breakpoints.brkpts 0 0x8048000 || 0x8048000 == 0x8048000))
add_breakpoint-contains_example =
    add_breakpoint-contains 0x8048000 0x8048000 no_breakpoints (omega arith)
