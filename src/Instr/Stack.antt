-- ===== src/Instr/Stack.antt =====
-- The stack instructions of src/instr.c. The stack pointer wraps on 32 bits.
pub mod Steps
pub mod Trips
pub mod Frames
pub mod Restore
mod Tests
use vm_i386_32bit.Base.{
  ℕ, zero, suc, ◌+◌, ◌-◌, ◌*◌, ◌/◌, ◌%◌, ◌^◌, bit_and, Bool, Option, none, some, ◌==◌,
  if◌then◌else◌, ◌>>=◌,
}
use vm_i386_32bit.Machine.{
  Cpu, Var, in_var, load, store, set_var, u32, read16, read32, write16, write32, eax, ebx, ecx, edx,
  esp, ebp, esi, edi, eip, eflags,
}
use vm_i386_32bit.Operand.{
  Insn, Operand, op_invalid, op_reg, op_imm, op_mem, advance, eff_addr, reg_place, source_value32,
  target_value,
}
use vm_i386_32bit.Instr.Handler.{Handler}

-- `esp -= k` and `esp += k`
abbrev pub esp_down : ℕ → Cpu → Cpu
esp_down k c = set_var esp (u32 (c.var esp + 2 ^ 32 - k)) c

abbrev pub esp_up : ℕ → Cpu → Cpu
esp_up k c = set_var esp (u32 (c.var esp + k)) c

-- `esp -= 4; write32(esp, x)` and `esp -= 2; write16(esp, (uint16_t) x)`
unfoldable pub push32 : ℕ → Cpu → Option Cpu
push32 x c = let c = esp_down 4 c in write32 (c.var esp) x c

unfoldable pub push16 : ℕ → Cpu → Option Cpu
push16 x c = let c = esp_down 2 c in write16 (c.var esp) (x % 2 ^ 16) c

-- `v = read32(esp); esp += 4`, and the same on the low half of a register.
unfoldable pub pop32 : Var → Cpu → Option Cpu
pop32 v c = do x ← read32 (c.var esp) c; some (esp_up 4 (set_var v x c))

unfoldable pub pop16 : Var → Cpu → Option Cpu
pop16 v c = do x ← read16 (c.var esp) c; c ← store 2 (in_var v) x c; some (esp_up 2 c)

unfoldable pub push_i : Handler
push_i insn c = do
  let c = advance insn c
  val ← source_value32 insn.op1 c
  c ← if insn.op1.size == 2 then push16 val c else push32 val c
  some (c, 0)

-- A pop into a register stores before it moves ESP.
unfoldable pub pop_register : Operand → Cpu → Option Cpu
pop_register op c = do
  p ← reg_place op
  let w = if op.size == 2 then 2 else 4
  x ← if op.size == 2 then read16 (c.var esp) c else read32 (c.var esp) c
  c ← store w p x c
  some (esp_up w c)

unfoldable pub pop_memory : Operand → Cpu → Option Cpu
pop_memory op c = do
  addr ← eff_addr op.mem c
  x ← read32 (c.var esp) c
  c ← write32 addr x c
  some (esp_up 4 c)

unfoldable pub pop_operand : Operand → Cpu → Option Cpu
pop_operand op c = elim op.kind [
  | op_reg ↦ pop_register op c
  | op_mem ↦ pop_memory op c
  | op_imm ↦ some c
  | op_invalid ↦ some c
]

unfoldable pub pop_i : Handler
pop_i insn c = do let c = advance insn c; c ← pop_operand insn.op1 c; some (c, 0)

unfoldable pub call_i : Handler
call_i insn c = do
  let c = advance insn c
  val ← target_value insn.op1 c
  c ← push32 (c.var eip) c
  some (set_var eip val c, 0)

-- RET does not move EIP behind itself first.
unfoldable pub ret_i : Handler
ret_i insn c = do
  x ← read32 (c.var esp) c
  let c = esp_up 4 (set_var eip x c)
  some (if insn.op_count == 1 then esp_up (u32 insn.op1.imm) c else c, 0)

-- The operand-size prefix makes LEAVE work on 16 bits; without it the source still reads 16.
unfoldable pub leave_i : Handler
leave_i insn c = do
  let c = advance insn c
  let c = set_var esp (c.var ebp) c
  x ← read16 (c.var esp) c
  if insn.prefix0 == 0x66
      then (do c ← store 2 (in_var ebp) x c; some (esp_up 2 c, 0))
      else some (esp_up 4 (set_var ebp x c), 0)

-- The loop of ENTER, `left` times.
unfoldable pub enter_loop : ℕ → Cpu → Option Cpu
enter_loop zero c = some c
enter_loop (suc left) c = do
  let c = set_var ebp (u32 (c.var ebp + 2 ^ 32 - 4)) c
  c ← push32 (c.var ebp) c
  enter_loop left c

unfoldable pub enter_i : Handler
enter_i insn c = do
  let c = advance insn c
  let level = insn.op2.imm % 2 ^ 8
  c ← push32 (c.var ebp) c
  let frame = c.var esp
  c ← if level == 0 then some c else (do c ← enter_loop (level - 1) c; push32 frame c)
  some (esp_down (insn.op1.imm % 2 ^ 16) (set_var ebp frame c), 0)

unfoldable pub pushad_i : Handler
pushad_i insn c = do
  let c = advance insn c
  let temp = c.var esp
  c ← push32 (c.var eax) c
  c ← push32 (c.var ecx) c
  c ← push32 (c.var edx) c
  c ← push32 (c.var ebx) c
  c ← push32 temp c
  c ← push32 (c.var ebp) c
  c ← push32 (c.var esi) c
  c ← push32 (c.var edi) c
  some (c, 0)

unfoldable pub popad_i : Handler
popad_i insn c = do
  let c = advance insn c
  c ← pop32 edi c
  c ← pop32 esi c
  c ← pop32 ebp c
  let c = esp_up 4 c
  c ← pop32 ebx c
  c ← pop32 edx c
  c ← pop32 ecx c
  c ← pop32 eax c
  some (c, 0)

unfoldable pub pusha_i : Handler
pusha_i insn c = do
  let c = advance insn c
  let temp = c.var esp % 2 ^ 16
  c ← push16 (c.var eax) c
  c ← push16 (c.var ecx) c
  c ← push16 (c.var edx) c
  c ← push16 (c.var ebx) c
  c ← push16 temp c
  c ← push16 (c.var ebp) c
  c ← push16 (c.var esi) c
  c ← push16 (c.var edi) c
  some (c, 0)

unfoldable pub popa_i : Handler
popa_i insn c = do
  let c = advance insn c
  c ← pop16 edi c
  c ← pop16 esi c
  c ← pop16 ebp c
  let c = esp_up 2 c
  c ← pop16 ebx c
  c ← pop16 edx c
  c ← pop16 ecx c
  c ← pop16 eax c
  some (c, 0)

unfoldable pub pushf_i : Handler
pushf_i insn c = do
  let c = advance insn c
  c ← push16 (bit_and (c.var eflags) 0xFFFF) c
  some (c, 0)

unfoldable pub pushfd_i : Handler
pushfd_i insn c = do let c = advance insn c; c ← push32 (c.var eflags) c; some (c, 0)

unfoldable pub popf_i : Handler
popf_i insn c = do let c = advance insn c; c ← pop16 eflags c; some (c, 0)

-- POPFD takes the low half of the popped doubleword.
unfoldable pub popfd_i : Handler
popfd_i insn c = do
  let c = advance insn c
  x ← read32 (c.var esp) c
  c ← store 2 (in_var eflags) (bit_and x 0xFFFF) c
  some (esp_up 4 c, 0)
