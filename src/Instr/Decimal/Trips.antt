-- ===== src/Instr/Decimal/Trips.antt =====
-- AAM splits a byte into two decimal digits, and AAD puts it together again.
use vm_i386_32bit.Base.{ℕ, ◌+◌, ◌-◌, ◌*◌, ◌%◌, ◌^◌, ◌<◌, ◌≡◌, refl, arith, Option, none, some}
use vm_i386_32bit.Machine.{Cpu, load, store, eax}
use vm_i386_32bit.Operand.{Insn, advance}
use vm_i386_32bit.Instr.FlagOps.{second_byte, set_second_byte}
use vm_i386_32bit.Instr.Decimal.{decimal_flags, aad_i, aam_i}

-- The machine after a run that is defined.
abbrev after : Option (Cpu × ℕ) → Cpu → Cpu
after none c = c
after (some r) c = r.0

module _ (split join : Insn) (c : Cpu) where
  -- On every machine AAM succeeds and leaves in AH and AL two numbers of which the second is below
  -- 10 and that make up AL in base 10, and AAD on the machine that it leaves succeeds and puts
  -- them together again: EAX is as it was before the two, but for an AH of 0.
  pub aam_i-aad_i :
      (d : Cpu) × (e : Cpu) × (aam_i split c ≡ some (d, 0))
      × (d.var eax % 2 ^ 8 < 10)
      × (second_byte (d.var eax) * 10 + d.var eax % 2 ^ 8 ≡ c.var eax % 2 ^ 8)
      × (aad_i join d ≡ some (e, 0))
      × (e.var eax ≡ c.var eax - second_byte (c.var eax) * 2 ^ 8)
  unfolding aam_i aad_i decimal_flags second_byte set_second_byte load store advance
  aam_i-aad_i =
      let d = after (aam_i split c) c in
      let e = after (aad_i join d) d in (d, e, refl, omega arith, omega arith, refl, omega arith)
