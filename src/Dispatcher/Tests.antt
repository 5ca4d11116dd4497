-- ===== src/Dispatcher/Tests.antt =====
-- The theorems on the dispatcher at `aam`, and at `jecxz`, which its table does not have.
use text.Mathlib.Text.{◌==◌}
use text.Mathlib.TextEquality.{eq_iff}
use vm_i386_32bit.Base.{
  ℕ, ◌<◌, ◌≡◌, ◌≢◌, refl, arith, Bool, true, not, some, get_or, all_below, all_below-at,
}
use vm_i386_32bit.Operand.{Insn}
use vm_i386_32bit.Instr.Handler.{minus}
use vm_i386_32bit.Instr.Decimal.{aam_i}
use vm_i386_32bit.Dispatcher.{dispatcher, nins}
use vm_i386_32bit.Dispatcher.Names.{inss}
use vm_i386_32bit.Dispatcher.Search.{dispatcher-instructions, dispatcher-unknown}
use vm_i386_32bit.Dispatcher.Samples.{idle_host}
use vm_i386_32bit.Examples.{start, immediate, nothing, instruction}

abbrev plain : Insn
plain = instruction 2 (immediate 10 1) nothing

dispatcher-instructions_example : dispatcher idle_host "aam" plain start ≡ aam_i plain start
dispatcher-instructions_example = dispatcher-instructions idle_host 2 plain start (omega arith)

is_other : ℕ → Bool
is_other k = not (get_or inss k "" == "jecxz")

all_other : all_below is_other nins ≡ true
unfolding is_other
all_other = refl

other : (k : ℕ) → k < nins → get_or inss k "" ≢ "jecxz"
unfolding is_other
other k h =
    ground (arith, eq_iff (get_or inss k "") "jecxz", all_below-at is_other nins k all_other h)

dispatcher-unknown_example : dispatcher idle_host "jecxz" plain start ≡ some (start, minus 1)
dispatcher-unknown_example = dispatcher-unknown idle_host "jecxz" plain start other
