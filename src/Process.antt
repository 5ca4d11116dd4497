-- ===== src/Process.antt =====
-- The loops of src/proc.c that disassemble and dispatch, and the list of breakpoints of its
-- interface. What cs_disasm finds at EIP is a parameter, as are the host's devices.
pub mod Reached
pub mod Slots
mod Tests
use Prim.Native.String.{String}
use vm_i386_32bit.Base.{
  ℕ, zero, suc, ◌+◌, ◌-◌, ◌%◌, ◌^◌, Bool, true, false, Option, none, some, ◌&&◌, ◌==◌,
  if◌then◌else◌, ◌>>=◌,
}
use vm_i386_32bit.Machine.{Cpu, u32, eip}
use vm_i386_32bit.Operand.{Insn}
use vm_i386_32bit.Dispatcher.{dispatcher}
use vm_i386_32bit.Dispatcher.Handlers.{Host}

-- `cs_disasm` of one instruction; `none` if it finds none.
abbrev pub Decoder : Type 0
Decoder = Cpu → Option (String × Insn)

-- After a round: `goto exit`, or the next round.
pub data Outcome : Type 0 where
  exited running : Cpu → Outcome

-- The body of a loop, with the test that follows the call of the dispatcher.
unfoldable pub round_on :
    Host → (quits : Insn → (res : ℕ) → Bool) → Option (String × Insn) → Cpu → Option Outcome
round_on host quits none c = some (exited c)
round_on host quits (some (mnemonic, insn)) c = do
  (c, res) ← dispatcher host mnemonic insn c
  some (if quits insn res then exited c else running c)

-- One round of blind_elf_main and blind_raw_main: the code 0xdeadbeef after an INT ends the run.
unfoldable pub blind_round : Host → Decoder → Cpu → Option Outcome
blind_round host decode c =
    round_on host (λ insn res. insn.opcode == 0xCD && res == 0xdeadbeef) (decode c) c

-- The step of the interface, which ends the run on that code after any instruction.
unfoldable pub single_step : Host → Decoder → Cpu → Option Outcome
single_step host decode c = round_on host (λ insn res. 0xdeadbeef == res) (decode c) c

-- MAX_BRK slots, of which the first `brk_ctr` are searched.
abbrev pub max_brk : ℕ
max_brk = 25

pub record Breakpoints : Type 0 where
  pub brkpts : ℕ → ℕ
  pub brk_ctr : ℕ

-- The loop of `contains` from `i` on, with `remaining` elements to go.
unfoldable pub contains_from : (arr : ℕ → ℕ) → (remaining i val : ℕ) → Bool
contains_from arr zero i val = false
contains_from arr (suc remaining) i val =
    if arr i == val then true else contains_from arr remaining (i + 1) val

unfoldable pub contains : (arr : ℕ → ℕ) → (size val : ℕ) → Bool
contains arr size val = contains_from arr size 0 val

abbrev pub write_slot : (i x : ℕ) → (ℕ → ℕ) → ℕ → ℕ
write_slot i x arr j = if i == j then x else arr j

-- `brkpts[brk_ctr] = dir; brk_ctr++; brk_ctr %= MAX_BRK`
unfoldable pub add_breakpoint : (dir : ℕ) → Breakpoints → Breakpoints
add_breakpoint dir b = record {
  brkpts = write_slot b.brk_ctr dir b.brkpts;
  brk_ctr = (b.brk_ctr + 1) % max_brk;
}

-- `dir--; dir %= MAX_BRK; brkpts[dir] = 0`
unfoldable pub delete_breakpoint : (dir : ℕ) → Breakpoints → Breakpoints
delete_breakpoint dir b = record b {
  brkpts = write_slot (u32 (dir + 2 ^ 32 - 1) % max_brk) 0x00000000 b.brkpts;
}

-- One test and round of the command that continues: `none` of an outcome is the end of the loop
-- at a breakpoint.
unfoldable pub continue_round : Host → Decoder → Breakpoints → Cpu → Option (Option Outcome)
continue_round host decode b c =
    if contains b.brkpts b.brk_ctr (c.var eip)
    then some none
    else (do o ← single_step host decode c; some (some o))
