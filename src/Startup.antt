-- ===== src/Startup.antt =====
-- The start of the machine in src/instr.c: `initialize` and the descriptor table of `init_gdt`.
pub mod Table
mod Tests
use vm_i386_32bit.Base.{
  ℕ, zero, suc, ◌+◌, ◌-◌, ◌*◌, ◌^◌, Option, some, ltb, ◌==◌, if◌then◌else◌, ◌>>=◌,
}
use vm_i386_32bit.Machine.{Cpu, set_var, store_bytes, esp, cs, ds, ss, es, fs, gs}
use vm_i386_32bit.Operand.{gdt_entries, descriptor_size}

-- STACK_BOTTOM and GDT_ADDR of lib/instr.h.
abbrev pub stack_bottom : ℕ
stack_bottom = 0xFFF00000

abbrev pub gdt_addr : ℕ
gdt_addr = 0xC0FFF000

-- The `switch` of `init_gdt`: the access byte and the granularity of entry `i`.
unfoldable pub gdt_access : (i : ℕ) → ℕ
gdt_access i =
    if i == 0
    then 0x00
    else if i == 1
    then 0x9A
    else if i == 2
    then 0x92
    else if i == 3
    then 0x89
    else if i == 4
    then 0xFA
    else if i == 5
    then 0xF2
    else 0x89

unfoldable pub gdt_granularity : (i : ℕ) → ℕ
gdt_granularity i =
    if i == 1
    then 0xCF
    else if i == 2
    then 0xCF
    else if i == 4
    then 0xCF
    else if i == 5
    then 0xCF
    else 0x00

-- One round of the loop, on the entry at `p`. Only the entries from 6 on have `used` written.
unfoldable pub init_entry : (p i : ℕ) → Cpu → Option Cpu
init_entry p i c = do
  c ← store_bytes 2 p 0xFFFF c
  c ← store_bytes 2 (p + 2) 0x0000 c
  c ← store_bytes 1 (p + 4) 0x00 c
  c ← store_bytes 1 (p + 7) 0x00 c
  c ← store_bytes 1 (p + 5) (gdt_access i) c
  c ← store_bytes 1 (p + 6) (gdt_granularity i) c
  c ← if i == 0 then store_bytes 2 p 0x0000 c else some c
  if ltb 5 i then store_bytes 1 (p + 8) 0 c else some c

-- The entries below `n`, in their order.
unfoldable pub init_gdt : (n table : ℕ) → Cpu → Option Cpu
init_gdt zero table c = some c
init_gdt (suc n) table c = do c ← init_gdt n table c; init_entry (table + n * descriptor_size) n c

-- `initialize`, where `calloc` succeeds: memory of zeros, and 1 for the result.
unfoldable pub initialize : Cpu → Option (Cpu × ℕ)
initialize c = do
  let c = set_var esp stack_bottom c
  let c = set_var cs 0x23 c
  let c = set_var ds 0x2b c
  let c = set_var ss 0x2b c
  let c = set_var es 0x2b c
  let c = set_var fs 0x00 c
  let c = set_var gs 0x00 c
  let c = record c { mem = λ a. 0 }
  c ← init_gdt gdt_entries gdt_addr c
  let c = record c { gdtr = record { limit = gdt_entries * descriptor_size; base = gdt_addr } }
  some (c, 1)
