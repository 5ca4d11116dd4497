-- ===== src/Dispatcher.antt =====
-- The dispatcher of src/instr.c: a linear search for the mnemonic, and the call of its handler.
pub mod Names
pub mod Handlers
pub mod Search
pub mod Samples
mod Tests
use mathlib.Core.List.{List, [], ◌∷◌}
use Prim.Native.String.{String}
use text.Mathlib.Text.{◌==◌}
use vm_i386_32bit.Base.{ℕ, zero, suc, ◌+◌, ◌-◌, ◌^◌, Option, none, some, if◌then◌else◌, get_or}
use vm_i386_32bit.Machine.{Cpu}
use vm_i386_32bit.Operand.{Insn}
use vm_i386_32bit.Dispatcher.Names.{inss}
use vm_i386_32bit.Dispatcher.Handlers.{Host, instructions}
use vm_i386_32bit.Instr.Handler.{minus}

-- NINS of lib/instr.h.
abbrev pub nins : ℕ
nins = 205

-- The loop: the first `i` from the given one on whose name is the mnemonic.
unfoldable pub search_from : (mnemonic : String) → List String → (i : ℕ) → Option ℕ
search_from mnemonic [] i = none
search_from mnemonic (name ∷ names) i =
    if name == mnemonic then some i else search_from mnemonic names (i + 1)

-- `return instructions[i](insn)` if the loop finds an `i`, and `return -1` behind it.
unfoldable pub call_found : Host → Option ℕ → Insn → Cpu → Option (Cpu × ℕ)
call_found host (some i) insn c = get_or (instructions host) i (λ insn c. none) insn c
call_found host none insn c = some (c, minus 1)

unfoldable pub dispatcher : Host → (mnemonic : String) → Insn → Cpu → Option (Cpu × ℕ)
dispatcher host mnemonic insn c = call_found host (search_from mnemonic inss 0) insn c
