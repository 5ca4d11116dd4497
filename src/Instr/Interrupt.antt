-- ===== src/Instr/Interrupt.antt =====
-- INT and INTO of src/instr.c with the interrupts of src/interrupts.c. The table of system calls of
-- src/trad_syscall.c, whose entries hand their arguments to the host's kernel, is a parameter.
use mathlib.Core.List.{List, [], ◌∷◌}
use vm_i386_32bit.Base.{
  ℕ, zero, suc, ◌%◌, ◌^◌, Option, none, some, ◌==◌, if◌then◌else◌, ◌>>=◌, get_or,
}
use vm_i386_32bit.Machine.{Cpu, set_var, u32, eax}
use vm_i386_32bit.Operand.{advance}
use vm_i386_32bit.Instr.Handler.{Handler, minus}

-- The seven registers are passed by address, so that an interrupt takes and gives a machine; its
-- result is a `uint32_t`.
abbrev pub Interrupt : Type 0
Interrupt = Cpu → Option (Cpu × ℕ)

unfoldable pub unimplemented : Interrupt
unimplemented c = some (c, 0)

-- `*eax = syscalls[*eax](...)`
unfoldable pub int80 : (syscalls : ℕ → Interrupt) → Interrupt
int80 syscalls c = do
  (c, result) ← syscalls (c.var eax) c
  let c = set_var eax (u32 result) c
  some (c, c.var eax)

unfoldable pub repeat : ℕ → Interrupt → List Interrupt → List Interrupt
repeat zero f rest = rest
repeat (suc n) f rest = f ∷ repeat n f rest

-- `idt`: seventeen rows of sixteen entries, the first of the ninth row the system calls'.
unfoldable pub idt : (syscalls : ℕ → Interrupt) → List Interrupt
idt syscalls = repeat 128 unimplemented (int80 syscalls ∷ repeat 143 unimplemented [])

unfoldable pub int_dispatcher : (syscalls : ℕ → Interrupt) → (v : ℕ) → Interrupt
int_dispatcher syscalls v = get_or (idt syscalls) v (λ c. none)

unfoldable pub int_i : (syscalls : ℕ → Interrupt) → Handler
int_i syscalls insn c =
    let c = advance insn c in
    let v = insn.op1.imm % 2 ^ 8 in
    if v == 0 then some (c, minus 1) else int_dispatcher syscalls v c

unfoldable pub into_i : (syscalls : ℕ → Interrupt) → Handler
into_i syscalls insn c = int_dispatcher syscalls 0x4 (advance insn c)
