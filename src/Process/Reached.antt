-- ===== src/Process/Reached.antt =====
-- Every machine that the loops of src/proc.c reach is well-formed.
use Prim.Native.String.{String}
use vm_i386_32bit.Base.{ℕ, ◌≡◌, Bool, true, false, Option, none, some, if◌then◌else◌}
use vm_i386_32bit.Machine.{Cpu}
use vm_i386_32bit.Machine.State.{IsCpu}
use vm_i386_32bit.Operand.{Insn}
use vm_i386_32bit.Dispatcher.Handlers.{Host}
use vm_i386_32bit.Process.{Decoder, Outcome, exited, running, round_on, single_step}
use vm_i386_32bit.Invariant.Rules.{Gives, gives, Gives-run, Gives-at}
use vm_i386_32bit.Invariant.System.{KeepsCpu}
use vm_i386_32bit.Invariant.Dispatch.{dispatcher-Keeps}

-- The machines at the starts of the rounds of a loop that begins with `c`.
pub data Reached (round : Cpu → Option Outcome) (c : Cpu) : Cpu → Type 0 where
  start : Reached round c c
  next : {d e : Cpu} → Reached round c d → round d ≡ some (running e) → Reached round c e

abbrev machine_of : Outcome → Cpu
machine_of (exited c) = c
machine_of (running c) = c

-- The outcomes of a round from a well-formed machine.
abbrev RoundKeeps : (Cpu → Option Outcome) → Type 0
RoundKeeps round = (c : Cpu) → IsCpu c → Gives (λ o. IsCpu (machine_of o)) (round c)

outcome-IsCpu :
    (b : Bool) (c : Cpu) → IsCpu c → IsCpu (machine_of (if b then exited c else running c))
outcome-IsCpu true c ok = ok
outcome-IsCpu false c ok = ok

Reached-IsCpu :
    (round : Cpu → Option Outcome)
    → RoundKeeps round
    → {c d : Cpu} → IsCpu c
    → Reached round c d
    → IsCpu d
Reached-IsCpu round keeps ok start = ok
Reached-IsCpu round keeps ok (next r e) = Gives-at (keeps _ (Reached-IsCpu round keeps ok r)) e

module _ (host : Host) (keeps : (n : ℕ) → KeepsCpu (host.syscalls n)) where
  round_on-Gives :
      (quits : Insn → ℕ → Bool) (decoded : Option (String × Insn)) (c : Cpu)
      → IsCpu c
      → Gives (λ o. IsCpu (machine_of o)) (round_on host quits decoded c)
  unfolding round_on
  round_on-Gives quits none c ok = gives ok
  round_on-Gives quits (some (mnemonic, insn)) c ok =
      Gives-run (dispatcher-Keeps host keeps mnemonic insn c ok)
        λ r k. gives (outcome-IsCpu (quits insn r.1) r.0 k)

  pub single_step-IsCpu :
      (decode : Decoder) (c d : Cpu) → IsCpu c → Reached (single_step host decode) c d → IsCpu d
  unfolding single_step
  single_step-IsCpu decode c d ok r =
      Reached-IsCpu _ (λ c ok. round_on-Gives _ (decode c) c ok) ok r
