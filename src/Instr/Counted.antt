-- ===== src/Instr/Counted.antt =====
-- The counted loops of src/instr.c: LOOP and its conditional forms.
pub mod Inverted
mod Tests
use vm_i386_32bit.Base.{ℕ, ◌+◌, ◌-◌, ◌%◌, ◌^◌, Bool, true, some, not, ◌&&◌, ◌==◌, if◌then◌else◌}
use vm_i386_32bit.Flags.{zf}
use vm_i386_32bit.Machine.{Cpu, set_var, flag, u32, ecx, eip}
use vm_i386_32bit.Operand.{Operand, advance}
use vm_i386_32bit.Instr.Arith.{sign_extend8_32}
use vm_i386_32bit.Instr.Handler.{Handler}

-- An operand of one byte is a distance, one of four bytes is the target.
unfoldable pub loop_target : Operand → Cpu → Cpu
loop_target op c =
    if op.size == 1
    then set_var eip (u32 (c.var eip + sign_extend8_32 (op.imm % 2 ^ 8))) c
    else if op.size == 4
    then set_var eip (u32 op.imm) c
    else c

-- The body that the five handlers share: they jump where ECX has become zero.
unfoldable pub loop_if : (Cpu → Bool) → Handler
loop_if taken insn c =
    let c = advance insn c in
    let c = set_var ecx (u32 (c.var ecx + 2 ^ 32 - 1)) c in
    some ((if c.var ecx == 0 && taken c then loop_target insn.op1 c else c), 0)

unfoldable pub loop_i : Handler
loop_i = loop_if λ c. true

unfoldable pub loope_i : Handler
loope_i = loop_if λ c. flag zf c

unfoldable pub loopne_i : Handler
loopne_i = loop_if λ c. not (flag zf c)

unfoldable pub loopnz_i : Handler
loopnz_i = loop_if λ c. not (flag zf c)

unfoldable pub loopz_i : Handler
loopz_i = loop_if λ c. flag zf c
