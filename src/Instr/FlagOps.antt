-- ===== src/Instr/FlagOps.antt =====
-- The instructions of src/instr.c on single flags, LAHF and SAHF, and those that do nothing.
pub mod Effects
mod Tests
use vm_i386_32bit.Base.{ℕ, ◌+◌, ◌-◌, ◌*◌, ◌/◌, ◌%◌, ◌^◌, bit_and, true, false, some, ◌>>=◌}
use vm_i386_32bit.Flags.{cf, df, intf, complement_flag}
use vm_i386_32bit.Machine.{Cpu, in_var, put, set_var, store, eax, eflags}
use vm_i386_32bit.Operand.{advance}
use vm_i386_32bit.Instr.Handler.{Handler}

unfoldable pub clc_i : Handler
clc_i insn c = some (put cf false (advance insn c), 0)

unfoldable pub cld_i : Handler
cld_i insn c = some (put df false (advance insn c), 0)

unfoldable pub cli_i : Handler
cli_i insn c = some (put intf false (advance insn c), 0)

unfoldable pub cmc_i : Handler
cmc_i insn c =
    let c = advance insn c in some (set_var eflags (complement_flag cf (c.var eflags)) c, 0)

unfoldable pub stc_i : Handler
stc_i insn c = some (put cf true (advance insn c), 0)

unfoldable pub std_i : Handler
std_i insn c = some (put df true (advance insn c), 0)

unfoldable pub sti_i : Handler
sti_i insn c = some (put intf true (advance insn c), 0)

unfoldable pub clts_i : Handler
clts_i insn c = some (advance insn c, 0)

unfoldable pub nop_i : Handler
nop_i insn c = some (advance insn c, 0)

-- `((uint8_t *)&eax)[1]`, read and written.
unfoldable pub second_byte : ℕ → ℕ
second_byte x = x / 2 ^ 8 % 2 ^ 8

unfoldable pub set_second_byte : (x b : ℕ) → ℕ
unfolding second_byte
set_second_byte x b = x - second_byte x * 2 ^ 8 + b % 2 ^ 8 * 2 ^ 8

unfoldable pub lahf_i : Handler
unfolding set_second_byte
lahf_i insn c =
    let c = advance insn c in
    some (set_var eax (set_second_byte (c.var eax) (bit_and (c.var eflags) 0xFF)) c, 0)

unfoldable pub sahf_i : Handler
unfolding second_byte
sahf_i insn c = do
  let c = advance insn c
  c ← store 1 (in_var eflags) (second_byte (c.var eax)) c
  some (c, 0)
