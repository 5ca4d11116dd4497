-- ===== src/Instr/Convert/Tests.antt =====
-- The theorems on the conversions at a sample machine: EAX is -16, AX and AL are too.
use vm_i386_32bit.Base.{◌+◌, ◌*◌, ◌/◌, ◌%◌, ◌^◌, ◌≡◌, arith, some}
use vm_i386_32bit.Base.Int.{negsuc, signed}
use vm_i386_32bit.Machine.{Cpu, eax, edx}
use vm_i386_32bit.Instr.Convert.{cbw_i, cwde_i, cwd_i, cdq_i}
use vm_i386_32bit.Instr.Convert.Signed.{accumulator-signed, pair-signed}
use vm_i386_32bit.Instr.Samples.{on_ecx}
use vm_i386_32bit.Examples.{start}

accumulator-signed_example :
    (d e : Cpu) × (cbw_i on_ecx start ≡ some (d, 0))
    × (cwde_i on_ecx start ≡ some (e, 0))
    × (signed 16 (d.var eax % 2 ^ 16) ≡ negsuc 15)
    × (d.var eax / 2 ^ 16 ≡ 0xFFFF)
    × (signed 32 (e.var eax) ≡ negsuc 15)
accumulator-signed_example = accumulator-signed on_ecx start (omega arith)

pair-signed_example :
    (d e : Cpu) × (cwd_i on_ecx start ≡ some (d, 0))
    × (cdq_i on_ecx start ≡ some (e, 0))
    × (signed 32 (d.var edx % 2 ^ 16 * 2 ^ 16 + d.var eax % 2 ^ 16) ≡ negsuc 15)
    × (signed 64 (e.var edx * 2 ^ 32 + e.var eax) ≡ negsuc 15)
pair-signed_example = pair-signed on_ecx start (omega arith)
