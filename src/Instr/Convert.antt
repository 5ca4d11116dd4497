-- ===== src/Instr/Convert.antt =====
-- The conversions of src/instr.c within the accumulator: CBW, CWDE, CWD and CDQ.
pub mod Signed
mod Tests
use vm_i386_32bit.Base.{ℕ, ◌/◌, ◌%◌, ◌^◌, bit_and, bit_or, some, ◌==◌, if◌then◌else◌, ◌>>=◌}
use vm_i386_32bit.Flags.{sign}
use vm_i386_32bit.Machine.{Cpu, in_var, set_var, store, eax, edx}
use vm_i386_32bit.Operand.{advance}
use vm_i386_32bit.Instr.Handler.{Handler}

unfoldable pub cbw_i : Handler
cbw_i insn c = do
  let c = advance insn c
  let al = c.var eax % 2 ^ 8
  let ax = c.var eax % 2 ^ 16
  let x = if al / 2 ^ 7 == 0 then bit_and ax (bit_and 0x00FF al) else bit_or ax (bit_or 0xFF00 al)
  c ← store 2 (in_var eax) x c
  some (c, 0)

unfoldable pub cwde_i : Handler
cwde_i insn c =
    let c = advance insn c in
    let ax = c.var eax % 2 ^ 16 in
    let x =
      if ax / 2 ^ 15 == 0
      then bit_and (c.var eax) (bit_and 0x0000FFFF ax)
      else bit_or (c.var eax) (bit_or 0xFFFF0000 ax) in
    some (set_var eax x c, 0)

unfoldable pub cwd_i : Handler
cwd_i insn c = do
  let c = advance insn c
  c ← store 2 (in_var edx) (if sign (c.var eax % 2 ^ 16) 0x10 then 0xFFFF else 0x0000) c
  some (c, 0)

unfoldable pub cdq_i : Handler
cdq_i insn c =
    let c = advance insn c in
    some (set_var edx (if sign (c.var eax) 0x20 then 0xFFFFFFFF else 0x00000000) c, 0)
