-- ===== src/Instr/Segment/Trips.antt =====
-- What LGDT reads back of what SGDT wrote, and what BOUND reports.
use native.Mathlib.Decide.{dec_lt}
use vm_i386_32bit.Base.{
  ℕ, ◌+◌, ◌%◌, ◌^◌, ◌≤◌, ◌<◌, ◌≡◌, ◌↔◌, ◌⊎◌, inl, inr, refl, some, arith, bit_and, bit_and-low, ap,
  ◌∙◌,
}
use vm_i386_32bit.Flags.Meaning.{dword}
use vm_i386_32bit.Machine.{Cpu, Var, Gdtr, mem_size, load}
use vm_i386_32bit.Machine.Memory.{
  peek, poke, load_bytes-peek, store_bytes-poke, peek-poke, peek-poke_apart,
}
use vm_i386_32bit.Operand.{Insn, Operand, op_reg, op_mem, advance, eff_addr}
use vm_i386_32bit.Operand.{reg_place}
use vm_i386_32bit.Instr.Arith.Registers.{IsRegister, advance-var}
use vm_i386_32bit.Instr.Handler.{minus}
use vm_i386_32bit.Instr.Segment.{
  load_table, store_table, sgdt_i, lgdt_i, bound_check, bound_operands, bound_i,
}

-- The memory after a table register was stored at `a`.
abbrev pub table_at : ℕ → Gdtr → (ℕ → ℕ) → ℕ → ℕ
table_at a t m = poke 4 (a + 2) (bit_and t.base 0xFFFFFF) (poke 2 a t.limit m)

store_table-table_at :
    (t : Gdtr) (insn : Insn) (c : Cpu) (a : ℕ)
    → eff_addr insn.op1.mem c ≡ some a
    → a + 6 ≤ mem_size
    → store_table t insn c ≡ some (record c { mem = table_at a t c.mem }, 0)
unfolding store_table
store_table-table_at t insn c a at room =
    rw
      (
        at,
        store_bytes-poke 2 a t.limit c (omega arith),
        store_bytes-poke 4 (a + 2) (bit_and t.base 0xFFFFFF)
            (record c { mem = poke 2 a t.limit c.mem }) (omega arith),
      )
      refl

load_table-peek :
    (insn : Insn) (c : Cpu) (a : ℕ)
    → eff_addr insn.op1.mem c ≡ some a
    → a + 6 ≤ mem_size
    → load_table insn c ≡ some (record { limit = peek 2 a c.mem; base = peek 4 (a + 2) c.mem })
unfolding load_table
load_table-peek insn c a at room =
    rw (at, load_bytes-peek 2 a c (omega arith), load_bytes-peek 4 (a + 2) c (omega arith)) refl

-- What is kept of a table register: 16 bits of the limit and 24 of the base.
abbrev kept : Gdtr → Gdtr
kept t = record { limit = t.limit % 2 ^ 16; base = t.base % 2 ^ 24 }

peek-table_at :
    (a : ℕ) (t : Gdtr) (m : ℕ → ℕ)
    → (peek 2 a (table_at a t m) ≡ t.limit % 2 ^ 16)
      × (peek 4 (a + 2) (table_at a t m) ≡ t.base % 2 ^ 24)
peek-table_at a t m = (
  peek-poke_apart 2 4 a (a + 2) _ _ (inl (omega arith)) ∙ peek-poke 2 a t.limit m,
  peek-poke 4 (a + 2) _ _ ∙ omega (arith, bit_and-low 24 t.base),
)

module _ (put get : Insn) (c d : Cpu) (a : ℕ) (at : eff_addr put.op1.mem (advance put c) ≡ some a)
    (room : a + 6 ≤ mem_size) (same : d.mem ≡ table_at a c.gdtr c.mem)
    (again : eff_addr get.op1.mem (advance get d) ≡ some a) where
  -- Where the operand of SGDT has six bytes in the allocation, SGDT succeeds, and LGDT with the
  -- same address on any machine over the memory that it leaves succeeds and puts into GDTR the low
  -- 16 bits of the limit and the low 24 bits of the base that GDTR had.
  pub sgdt_i-lgdt_i :
      (e : Cpu) × (sgdt_i put c ≡ some (e, 0))
      × (e.mem ≡ table_at a c.gdtr c.mem)
      × (lgdt_i get d ≡ some (record (advance get d) { gdtr = kept c.gdtr }, 0))
  unfolding sgdt_i lgdt_i advance
  sgdt_i-lgdt_i =
      let (limit, base) = peek-table_at a c.gdtr c.mem in
      (
        record (advance put c) { mem = table_at a c.gdtr c.mem },
        store_table-table_at c.gdtr put (advance put c) a at room,
        refl,
        rw (load_table-peek get (advance get d) a again room) (rw (same, limit, base) refl),
      )

bound_check-code :
    (r lower upper : ℕ) (c : Cpu)
    → (code : ℕ) × (bound_check r lower upper c ≡ (c, code))
      × ((code ≡ 0) ↔ ((lower ≤ r) × (r ≤ upper)))
      × ((code ≡ 0) ⊎ (code ≡ minus 5))
unfolding bound_check
bound_check-code r lower upper c = elim (dec_lt r lower) [
  | yes p ↦ (minus 5, ground arith, ground arith, inr refl)
  | no p ↦ elim (dec_lt upper r) [
    | yes q ↦ (minus 5, ground arith, ground arith, inr refl)
    | no q ↦ (0, ground arith, ground arith, inl refl)
  ]
]

bound_operands-peek :
    (op1 op2 : Operand) (v : Var) (c : Cpu) (a : ℕ)
    → IsRegister dword v op1
    → eff_addr op2.mem c ≡ some a
    → a + 8 ≤ mem_size
    → bound_operands op1 op2 c
      ≡ some (bound_check (c.var v % 2 ^ 32) (peek 4 a c.mem) (peek 4 (a + 4) c.mem) c)
unfolding bound_operands reg_place load
bound_operands-peek op1 op2 v c a dst at room =
    rw
      (
        dst.variable,
        dst.width,
        at,
        load_bytes-peek 4 a c (omega arith),
        load_bytes-peek 4 (a + 4) c (omega arith),
      )
      refl

bound_i-operands :
    (insn : Insn) (c : Cpu)
    → insn.op1.kind ≡ op_reg
    → insn.op2.kind ≡ op_mem
    → bound_i insn c ≡ bound_operands insn.op1 insn.op2 (advance insn c)
unfolding bound_i
bound_i-operands insn c dst src = simp (bound_i, dst, src)

module _ (insn : Insn) (v : Var) (c : Cpu) (a : ℕ) (dst : IsRegister dword v insn.op1)
    (src : insn.op2.kind ≡ op_mem) (at : eff_addr insn.op2.mem (advance insn c) ≡ some a)
    (room : a + 8 ≤ mem_size) (word : c.var v < 2 ^ 32) where
  -- For a 32-bit register, other than EIP and EFLAGS, that holds a 32-bit number and bounds in
  -- memory at an address from which eight bytes lie in the allocation, BOUND changes nothing but
  -- EIP and returns 0 exactly if the number is at least the doubleword at the address and at most
  -- the one behind it, both without sign; otherwise it returns minus 5.
  pub bound_i-code :
      (code : ℕ) × (bound_i insn c ≡ some (advance insn c, code))
      × ((code ≡ 0) ↔ ((peek 4 a c.mem ≤ c.var v) × (c.var v ≤ peek 4 (a + 4) c.mem)))
      × ((code ≡ 0) ⊎ (code ≡ minus 5))
  unfolding advance
  bound_i-code =
      let after = advance insn c in
      let (code, runs, zero_iff, either) =
        bound_check-code (c.var v) (peek 4 a c.mem) (peek 4 (a + 4) c.mem) after in
      let same : after.var v % 2 ^ 32 ≡ c.var v =
        rw (advance-var insn c v dst.not_eip) (omega arith) in
      (
        code,
        bound_i-operands insn c dst.kind src
            ∙ bound_operands-peek insn.op1 insn.op2 v after a dst at room
            ∙ ap some
                (ap (λ r. bound_check r (peek 4 a c.mem) (peek 4 (a + 4) c.mem) after) same ∙ runs),
        zero_iff,
        either,
      )
