-- ===== src/Instr/BitTest/Tests.antt =====
-- The theorems on the bit tests and scans at sample instructions; EAX is 0xFFFFFFF0.
use vm_i386_32bit.Base.{◌-◌, refl, arith}
use vm_i386_32bit.Machine.{eax}
use vm_i386_32bit.Operand.{Insn}
use vm_i386_32bit.Instr.BitTest.{bts_i, btr_i, btc_i}
use vm_i386_32bit.Instr.BitTest.Changes.{Turns, bits-Turn}
use vm_i386_32bit.Instr.Samples.{eax-IsRegister}
use vm_i386_32bit.Examples.{start, register, immediate, instruction}

-- Bit 37 of EAX is its bit 5.
abbrev digit_5 : Insn
digit_5 = instruction 4 (register 19 4) (immediate 37 1)

bits-Turn_example :
    Turns (λ b. 1) 5 eax start (bts_i digit_5 start)
    × Turns (λ b. 0) 5 eax start (btr_i digit_5 start)
    × Turns (λ b. 1 - b) 5 eax start (btc_i digit_5 start)
bits-Turn_example = bits-Turn 5 eax digit_5 eax-IsRegister refl refl start (omega arith)
