-- ===== src/Instr/FlagOps/Effects.antt =====
-- What the flag instructions do to each flag.
use vm_i386_32bit.Base.{
  ◌+◌, ◌-◌, ◌%◌, ◌^◌, ◌<◌, ◌≡◌, refl, arith, Bool, false, some, if◌then◌else◌, bit_and-low,
}
use vm_i386_32bit.Flags.{Flag}
use vm_i386_32bit.Flags.Laws.{same_flag}
use vm_i386_32bit.Machine.{Cpu, Var, flag, set_var, same_var, store, u32, eax, eip, eflags}
use vm_i386_32bit.Operand.{Insn, advance}
use vm_i386_32bit.Instr.Handler.{Handler}
use vm_i386_32bit.Instr.FlagOps.{lahf_i, sahf_i, second_byte, set_second_byte}

-- The handler gives the flag `g` the value `b`, moves EIP, and changes nothing else.
pub record Changes (h : Handler) (g : Flag) (b : Bool) (insn : Insn) (c : Cpu) : Type 0 where
  pub after : Cpu
  pub runs : h insn c ≡ some (after, 0)
  pub flags : (f : Flag) → flag f after ≡ (if same_flag f g then b else flag f c)
  pub next : after.var eip ≡ u32 (c.var eip + insn.size)
  pub others :
      (u : Var) → same_var eflags u ≡ false → same_var eip u ≡ false → after.var u ≡ c.var u
  pub memory : after.mem ≡ c.mem

-- LAHF, and a SAHF after it.
abbrev pub saved : Insn → Cpu → Cpu
saved save c = set_var eax (set_second_byte (c.var eax) (c.var eflags % 2 ^ 8)) (advance save c)

module _ (save restore : Insn) (c d : Cpu) (small : c.var eax < 2 ^ 32) where
  -- Where EAX is a 32-bit number, LAHF succeeds, and a SAHF on any machine that has in EAX what
  -- LAHF left there succeeds and puts back the low byte that EFLAGS had before the LAHF, with the
  -- other bits of EFLAGS as they are.
  pub lahf_i-sahf_i :
      d.var eax ≡ (saved save c).var eax
      → (lahf_i save c ≡ some (saved save c, 0))
        × (e : Cpu) × (sahf_i restore d ≡ some (e, 0))
        × (e.var eflags ≡ d.var eflags - d.var eflags % 2 ^ 8 + c.var eflags % 2 ^ 8)
  unfolding lahf_i sahf_i advance store second_byte set_second_byte
  lahf_i-sahf_i kept = (
    rw (bit_and-low 8 (c.var eflags)),
    set_var eflags (d.var eflags - d.var eflags % 2 ^ 8 + second_byte (d.var eax) % 2 ^ 8)
        (advance restore d),
    refl,
    omega (arith, kept),
  )
