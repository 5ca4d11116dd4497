-- ===== src/Dispatcher/Search.antt =====
-- What the dispatcher of src/instr.c calls for each mnemonic of its table, and for any other.
use mathlib.Core.List.{List, [], ◌∷◌}
use Prim.Native.String.{String}
use text.Mathlib.TextEquality.{eq_iff}
use vm_i386_32bit.Base
use vm_i386_32bit.Base.{
  ℕ, zero, suc, ◌+◌, ◌<◌, ◌≤◌, ◌≡◌, ◌≢◌, refl, Bool, true, false, ◌&&◌, Option, none, some, arith,
  all_below, all_below-at, get_or, length, ap, if◌then◌else◌,
}
use vm_i386_32bit.Machine.{Cpu}
use vm_i386_32bit.Operand.{Insn}
use vm_i386_32bit.Instr.Handler.{minus}
use vm_i386_32bit.Dispatcher.{search_from, call_found, dispatcher, nins}
use vm_i386_32bit.Dispatcher.Names.{inss}
use vm_i386_32bit.Dispatcher.Handlers.{Host, instructions}

abbrev is_at : Option ℕ → ℕ → Bool
is_at none i = false
is_at (some j) i = Base.◌==◌ j i

-- The search finds each name where it stands.
finds : ℕ → Bool
unfolding search_from
finds n = is_at (search_from (get_or inss n "") inss 0) n

finds_all : all_below finds nins ≡ true
unfolding finds search_from
finds_all = refl

is_at-some : (m : Option ℕ) (i : ℕ) → is_at m i ≡ true → m ≡ some i
is_at-some none i e = absurd cc
is_at-some (some j) i e = ap some (ground arith)

found : (i : ℕ) → i < nins → search_from (get_or inss i "") inss 0 ≡ some i
unfolding finds
found i h =
    is_at-some (search_from (get_or inss i "") inss 0) i (all_below-at finds nins i finds_all h)

module _ (host : Host) (i : ℕ) (insn : Insn) (c : Cpu) (inside : i < nins) where
  -- For each of the 205 places in the table of mnemonics, dispatcher runs for the mnemonic at that
  -- place exactly the handler at the same place of the table of handlers: no mnemonic is hidden by
  -- an earlier one.
  pub dispatcher-instructions :
      dispatcher host (get_or inss i "") insn c
      ≡ get_or (instructions host) i (λ insn c. none) insn c
  unfolding dispatcher call_found
  dispatcher-instructions = rw (found i inside) refl

search_from-none :
    (mnemonic : String) (names : List String) (i : ℕ)
    → ((k : ℕ) → k < length names → get_or names k "" ≢ mnemonic)
    → search_from mnemonic names i ≡ none
unfolding search_from
search_from-none mnemonic [] i other = refl
search_from-none mnemonic (name ∷ names) i other = ground (
  arith,
  eq_iff name mnemonic,
  other 0 (omega arith),
  search_from-none mnemonic names (i + 1) (λ k h. other (suc k) (omega arith)),
)

module _ (host : Host) (mnemonic : String) (insn : Insn) (c : Cpu)
    (other : (k : ℕ) → k < nins → get_or inss k "" ≢ mnemonic) where
  -- For a mnemonic that is none of the 205 in the table, dispatcher returns minus 1 and leaves the
  -- machine, EIP included, as it is.
  pub dispatcher-unknown : dispatcher host mnemonic insn c ≡ some (c, minus 1)
  unfolding dispatcher call_found
  dispatcher-unknown = rw (search_from-none mnemonic inss 0 other) refl
