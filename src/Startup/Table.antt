-- ===== src/Startup/Table.antt =====
-- What `initialize` of src/instr.c leaves: a flat address space behind every selector.
use vm_i386_32bit.Base.{ℕ, ◌+◌, ◌*◌, ◌^◌, bit_or, Option, none, some, if◌then◌else◌, ◌==◌, ◌>>=◌}
use vm_i386_32bit.Machine.{Cpu, load_bytes}
use vm_i386_32bit.Operand.{descriptor_size}
use vm_i386_32bit.Startup.{initialize}

-- The machine that `initialize` leaves.
started : Cpu → Cpu
started c = elim (initialize c) [ some r ↦ r.0 | none ↦ c ]

-- The base and the limit in entry `n`.
abbrev base_at : (n : ℕ) → Cpu → Option ℕ
base_at n c = do
  base_low ← load_bytes 2 (c.gdtr.base + n * descriptor_size + 2) c
  base_mid ← load_bytes 1 (c.gdtr.base + n * descriptor_size + 4) c
  base_high ← load_bytes 1 (c.gdtr.base + n * descriptor_size + 7) c
  some (bit_or (bit_or base_low (base_mid * 2 ^ 16)) (base_high * 2 ^ 24))

abbrev limit_at : (n : ℕ) → Cpu → Option ℕ
limit_at n c = load_bytes 2 (c.gdtr.base + n * descriptor_size) c

-- Of the nine entries the first one has the limit 0.
abbrev limit_of : (n : ℕ) → ℕ
limit_of n = if n == 0 then 0 else 0xFFFF
