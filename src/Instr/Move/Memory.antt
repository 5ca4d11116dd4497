-- ===== src/Instr/Move/Memory.antt =====
-- MOV with memory operands.
use vm_i386_32bit.Base.{ℕ, ◌+◌, ◌%◌, ◌^◌, ◌≤◌, ◌<◌, ◌≡◌, ◌⊎◌, arith, some, ◌∙◌, ap}
use vm_i386_32bit.Flags.Meaning.{dword}
use vm_i386_32bit.Machine.{Cpu, Var, load, store, mem_size}
use vm_i386_32bit.Machine.Memory.{
  peek, poke, load_bytes-peek, store_bytes-poke, peek-poke, poke_below, poke_above,
}
use vm_i386_32bit.Operand.{Insn, Operand, op_mem, advance, eff_addr, mem_place, source_value32}
use vm_i386_32bit.Instr.Arith.Registers.{IsRegister}
use vm_i386_32bit.Instr.Move.{mov_i, mov_place}
use vm_i386_32bit.Instr.Move.Registers.{mov_i-register}

mov_place-memory :
    (op : Operand) (a b : ℕ) (c : Cpu)
    → op.kind ≡ op_mem
    → eff_addr op.mem c ≡ some a
    → a + 4 ≤ mem_size
    → mov_place op b c ≡ some (record c { mem = poke 4 a b c.mem })
unfolding mov_place mem_place store
mov_place-memory op a b c kind address room = rw (kind, address) (store_bytes-poke 4 a b c room)

source_value32-memory :
    (op : Operand) (a : ℕ) (c : Cpu)
    → op.kind ≡ op_mem
    → eff_addr op.mem c ≡ some a
    → a + 4 ≤ mem_size
    → source_value32 op c ≡ some (peek 4 a c.mem)
unfolding source_value32 mem_place load
source_value32-memory op a c kind address room = rw (kind, address) (load_bytes-peek 4 a c room)

-- The machine after a MOV of `b` into memory.
abbrev pub stored : Insn → (a b : ℕ) → Cpu → Cpu
stored insn a b c = record (advance insn c) { mem = poke 4 a b c.mem }

module _ (insn : Insn) (c : Cpu) (a b : ℕ) (dst : insn.op1.kind ≡ op_mem)
    (address : eff_addr insn.op1.mem (advance insn c) ≡ some a) (room : a + 4 ≤ mem_size)
    (source : source_value32 insn.op2 (advance insn c) ≡ some b) where
  pub mov_i-stored : mov_i insn c ≡ some (stored insn a b c, 0)
  unfolding mov_i advance
  mov_i-stored = rw (source, mov_place-memory insn.op1 a b (advance insn c) dst address room)

  -- When the first operand of a MOV is memory of whatever size, whose address a has four bytes in
  -- the allocation, and the second one has the value b, MOV succeeds with b modulo two to the 32
  -- in the four bytes from a on, and all other memory unchanged.
  pub mov_i-memory :
      (d : Cpu) × (mov_i insn c ≡ some (d, 0))
      × (peek 4 a d.mem ≡ b % 2 ^ 32)
      × ((i : ℕ) → (i < a) ⊎ (a + 4 ≤ i) → d.mem i ≡ c.mem i)
  mov_i-memory = (
    stored insn a b c,
    mov_i-stored,
    peek-poke 4 a b c.mem,
    λ i h. ground (arith, poke_below 4 a b i c.mem, poke_above 4 a b i c.mem),
  )

  -- The doubleword is read back.
  source_value32-stored :
      (fetch : Insn)
      → fetch.op2.kind ≡ op_mem
      → eff_addr fetch.op2.mem (advance fetch (stored insn a b c)) ≡ some a
      → source_value32 fetch.op2 (advance fetch (stored insn a b c)) ≡ some (b % 2 ^ 32)
  unfolding advance
  source_value32-stored fetch src same =
      source_value32-memory fetch.op2 a (advance fetch (stored insn a b c)) src same room
      ∙ ap some (peek-poke 4 a b c.mem)

  -- When the first operand of a MOV is memory whose address a has four bytes in the allocation,
  -- and the second one has the value b, MOV succeeds; and a MOV from memory at the same address
  -- into a 32-bit register other than EIP and EFLAGS then succeeds and leaves b modulo two to the
  -- 32 in the register.
  pub mov_i-read_back :
      {v : Var} (fetch : Insn)
      → IsRegister dword v fetch.op1
      → c.var v < 2 ^ 32
      → fetch.op2.kind ≡ op_mem
      → eff_addr fetch.op2.mem (advance fetch (stored insn a b c)) ≡ some a
      → (mov_i insn c ≡ some (stored insn a b c, 0))
        × (d : Cpu) × (mov_i fetch (stored insn a b c) ≡ some (d, 0))
        × (d.var v ≡ b % 2 ^ 32)
  unfolding advance
  mov_i-read_back {v} fetch reg small src same =
      let e = source_value32-stored fetch src same in
      let r = mov_i-register fetch (stored insn a b c) (b % 2 ^ 32) reg e in
      (mov_i-stored, r.0, r.1, r.2.target ∙ ground (arith, reg.not_eip))
