-- ===== src/Instr/Strings/Copy.antt =====
-- REP MOVSB from the first round to the last: the main loop runs the handler again as long as EIP
-- has not moved.
use vm_i386_32bit.Base.{ℕ, suc, ◌+◌, ◌^◌, ◌≤◌, ◌<◌, ◌≡◌, ◌≢◌, ◌⊎◌, false, some}
use vm_i386_32bit.Flags.{df}
use vm_i386_32bit.Machine.{Cpu, flag, u32, mem_size, ecx, esi, edi, eip}
use vm_i386_32bit.Operand.{Insn}
use vm_i386_32bit.Instr.Handler.{Handler}

-- From the first machine the handler runs `n` times until EIP moves, and leaves the second one.
pub data Repeats (h : Handler) (insn : Insn) : ℕ → Cpu → Cpu → Type 0 where
  last : {c d : Cpu} → h insn c ≡ some (d, 0) → d.var eip ≢ c.var eip → Repeats h insn 1 c d
  again :
      {n : ℕ} {c d e : Cpu}
      → h insn c ≡ some (d, 0)
      → d.var eip ≡ c.var eip
      → Repeats h insn n d e
      → Repeats h insn (suc n) c e

-- `n` bytes from ESI on stand from EDI on.
pub record Copied (n : ℕ) (insn : Insn) (c d : Cpu) : Type 0 where
  pub counted : d.var ecx ≡ 0
  pub source : d.var esi ≡ c.var esi + n
  pub target : d.var edi ≡ c.var edi + n
  pub next : d.var eip ≡ u32 (c.var eip + insn.size)
  pub bytes : (i : ℕ) → i < n → d.mem (c.var edi + i) ≡ c.mem (c.var esi + i)
  pub rest : (a : ℕ) → (a < c.var edi) ⊎ (c.var edi + n ≤ a) → d.mem a ≡ c.mem a

-- What a repetition needs: room for `n` bytes, and a target that no later round reads.
pub record Ready (n : ℕ) (insn : Insn) (c : Cpu) : Type 0 where
  pub size : insn.op1.size ≡ 1
  pub length_lo : 0 < insn.size
  pub length_hi : insn.size < 2 ^ 32
  pub eip_small : c.var eip < 2 ^ 32
  pub up : flag df c ≡ false
  pub count : c.var ecx ≡ n
  pub source_room : c.var esi + n ≤ mem_size
  pub target_room : c.var edi + n ≤ mem_size
  pub apart : (c.var edi ≤ c.var esi) ⊎ (c.var esi + n ≤ c.var edi)
  pub octets : (a : ℕ) → c.mem a < 2 ^ 8
