-- ===== src/Instr/Unimplemented.antt =====
-- The handlers of src/instr.c that are marked as unimplemented: each of them steps over its
-- instruction.
use vm_i386_32bit.Base.{some}
use vm_i386_32bit.Operand.{advance}
use vm_i386_32bit.Instr.Handler.{Handler}

unfoldable pub hlt_i : Handler
hlt_i insn c = some (advance insn c, 0)

unfoldable pub iret_i : Handler
iret_i insn c = some (advance insn c, 0)

unfoldable pub iretd_i : Handler
iretd_i insn c = some (advance insn c, 0)

unfoldable pub ltr_i : Handler
ltr_i insn c = some (advance insn c, 0)

unfoldable pub lock_i : Handler
lock_i insn c = some (advance insn c, 0)

unfoldable pub wait_i : Handler
wait_i insn c = some (advance insn c, 0)

unfoldable pub shld_i : Handler
shld_i insn c = some (advance insn c, 0)

unfoldable pub cmpxchg : Handler
cmpxchg insn c = some (advance insn c, 0)
