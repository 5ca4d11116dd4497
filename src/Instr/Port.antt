-- ===== src/Instr/Port.antt =====
-- The port instructions of src/instr.c: IN, INS, OUT and OUTS. The device /dev/port of the host, its
-- open, pread and pwrite, is a parameter.
use vm_i386_32bit.Base.{
  ℕ, ◌%◌, ◌^◌, Bool, Option, some, not, leb, ◌==◌, to_nat, if◌then◌else◌, ◌>>=◌,
}
use vm_i386_32bit.Machine.{Cpu, Place, in_var, load, store, eax, edx, edi}
use vm_i386_32bit.Operand.{
  Operand, op_invalid, op_reg, op_imm, op_mem, advance, reg_place, place_of,
}
use vm_i386_32bit.Instr.Handler.{Handler}

-- `opened` tells whether `open` succeeds. `pread n port` is the result of a read of `n` bytes and
-- the number in the bytes it delivers, `pwrite n port x` the result of a write of the number `x`.
pub record Ports : Type 0 where
  pub opened : Bool
  pub pread : (n port : ℕ) → ℕ × ℕ
  pub pwrite : (n port x : ℕ) → ℕ

-- As many bytes as the result says are written to the buffer; the result -1 is above `n`.
unfoldable pub port_read : Ports → (n port : ℕ) → Place → Cpu → Option (Cpu × ℕ)
port_read ports n port p c =
    let (res, x) = ports.pread n port in
    if leb res n then (do c ← store res p x c; some (c, res)) else some (c, res)

unfoldable pub port_write : Ports → (n port : ℕ) → Place → Cpu → Option (Cpu × ℕ)
port_write ports n port p c = do x ← load n p c; some (c, ports.pwrite n port x)

-- The device is opened first, and each transfer has 1, 2 or, in all other cases, 4 bytes.
abbrev with_device : Ports → Cpu → Option (Cpu × ℕ) → Option (Cpu × ℕ)
with_device ports c transfer = if ports.opened then transfer else some (c, 1)

abbrev transfer_width : ℕ → ℕ
transfer_width s = if s == 1 then 1 else if s == 2 then 2 else 4

-- An immediate port or a 16-bit register.
unfoldable pub port_number : Operand → Cpu → Option ℕ
port_number op c = elim op.kind [
  | op_imm ↦ some (op.imm % 2 ^ 16)
  | op_reg ↦ (do p ← reg_place op; load 2 p c)
  | op_mem ↦ (do p ← reg_place op; load 2 p c)
  | op_invalid ↦ (do p ← reg_place op; load 2 p c)
]

unfoldable pub in_i : Ports → Handler
in_i ports insn c = do
  let c = advance insn c
  port ← port_number insn.op2 c
  let s1 = insn.op1.size
  with_device ports c (do
    (c, res) ← port_read ports (transfer_width s1) port (in_var eax) c
    some (c, to_nat (not (res == s1))))

unfoldable pub out_i : Ports → Handler
out_i ports insn c = do
  let c = advance insn c
  port ← port_number insn.op1 c
  let s2 = insn.op2.size
  with_device ports c (do
    (c, res) ← port_write ports (transfer_width s2) port (in_var eax) c
    some (c, to_nat (not (res == s2))))

-- The port in DX; the result of the transfer is ignored.
unfoldable pub string_transfer :
    (transfer : Ports → (n port : ℕ) → Place → Cpu → Option (Cpu × ℕ))
    → Ports
    → (n : ℕ) → (Cpu → Option Place)
    → Cpu
    → Option (Cpu × ℕ)
string_transfer transfer ports n place c = do
  port ← load 2 (in_var edx) c
  with_device ports c (do p ← place c; (c, res) ← transfer ports n port p c; some (c, 0))

unfoldable pub ins_i : Ports → Handler
ins_i ports insn c =
    string_transfer port_read ports (transfer_width insn.op1.size) (place_of insn.op1)
      (advance insn c)

unfoldable pub outs_i : Ports → Handler
outs_i ports insn c =
    string_transfer port_write ports (transfer_width insn.op2.size) (place_of insn.op2)
      (advance insn c)

-- The others transfer to and from the register EDI itself.
abbrev in_edi : Cpu → Option Place
in_edi c = some (in_var edi)

unfoldable pub insb_i : Ports → Handler
insb_i ports insn c = string_transfer port_read ports 1 in_edi (advance insn c)

unfoldable pub insw_i : Ports → Handler
insw_i ports insn c = string_transfer port_read ports 2 in_edi (advance insn c)

unfoldable pub insd_i : Ports → Handler
insd_i ports insn c = string_transfer port_read ports 4 in_edi (advance insn c)

unfoldable pub outsb_i : Ports → Handler
outsb_i ports insn c = string_transfer port_write ports 1 in_edi (advance insn c)

unfoldable pub outsw_i : Ports → Handler
outsw_i ports insn c = string_transfer port_write ports 2 in_edi (advance insn c)

unfoldable pub outsd_i : Ports → Handler
outsd_i ports insn c = string_transfer port_write ports 4 in_edi (advance insn c)
