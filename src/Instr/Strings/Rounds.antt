-- ===== src/Instr/Strings/Rounds.antt =====
-- One round of REP MOVSB with DF clear.
use vm_i386_32bit.Base.{
  ℕ, ◌+◌, ◌-◌, ◌%◌, ◌^◌, ◌≤◌, ◌<◌, ◌≡◌, arith, ap, true, false, some, lt→ltb, ◌==◌, if◌then◌else◌,
}
use vm_i386_32bit.Flags.{df}
use vm_i386_32bit.Machine.{
  Cpu, Var, load_byte, load_bytes, store_byte, store_bytes, set_var, flag, u32, mem_size, ecx, esi,
  edi,
}
use vm_i386_32bit.Operand.{Insn, advance}
use vm_i386_32bit.Instr.Arith.{cmp_width}
use vm_i386_32bit.Instr.Strings.{move_string, step_index, count_down, rep_movs_i}

-- The machine after a round, EIP left out.
abbrev pub round : Cpu → Cpu
round c = record c {
  var = λ v.
      (set_var ecx (c.var ecx - 1)
          (set_var esi (c.var esi + 1) (set_var edi (c.var edi + 1) c))).var
        v;
  mem = λ b. if c.var edi == b then c.mem (c.var esi) % 2 ^ 8 else c.mem b;
}

load_bytes-one : (a : ℕ) (c : Cpu) → a < mem_size → load_bytes 1 a c ≡ some (c.mem a)
unfolding load_bytes load_byte
load_bytes-one a c h = rw (lt→ltb a mem_size h) (ap some (omega arith))

store_bytes-one :
    (a x : ℕ) (c : Cpu)
    → a < mem_size
    → store_bytes 1 a x c ≡ some (record c { mem = λ b. if a == b then x % 2 ^ 8 else c.mem b })
unfolding store_bytes store_byte
store_bytes-one a x c h = rw (lt→ltb a mem_size h)

step_index-up :
    (v : Var) (c : Cpu)
    → flag df c ≡ false
    → c.var v < mem_size
    → step_index v 1 c ≡ set_var v (c.var v + 1) c
unfolding step_index
step_index-up v c up h = let e : u32 (c.var v + 1) ≡ c.var v + 1 = omega arith in rw (up, e)

count_down-more :
    (insn : Insn) (c : Cpu)
    → 2 ≤ c.var ecx
    → c.var ecx < 2 ^ 32
    → count_down insn c ≡ set_var ecx (c.var ecx - 1) c
unfolding count_down
count_down-more insn c more small =
    let e : u32 (c.var ecx + 2 ^ 32 - 1) ≡ c.var ecx - 1 = omega arith in
    let n : (c.var ecx - 1 == 0) ≡ false = ground arith in rw (e, n)

count_down-last :
    (insn : Insn) (c : Cpu)
    → c.var ecx ≡ 1
    → count_down insn c ≡ advance insn (set_var ecx (c.var ecx - 1) c)
unfolding count_down
count_down-last insn c last =
    let e : u32 (c.var ecx + 2 ^ 32 - 1) ≡ c.var ecx - 1 = omega arith in
    let n : (c.var ecx - 1 == 0) ≡ true = ground arith in rw (e, n)

module _ (insn : Insn) (c : Cpu) (size : insn.op1.size ≡ 1) (up : flag df c ≡ false)
    (source : c.var esi < mem_size) (target : c.var edi < mem_size) where
  -- The byte is copied.
  abbrev copied : Cpu
  copied = record c { mem = λ b. if c.var edi == b then c.mem (c.var esi) % 2 ^ 8 else c.mem b }

  abbrev stepped : Cpu
  stepped = set_var esi (c.var esi + 1) (set_var edi (c.var edi + 1) copied)

  move_string-one : move_string 1 c ≡ some stepped
  unfolding move_string
  move_string-one = rw (
    load_bytes-one (c.var esi) c source,
    store_bytes-one (c.var edi) (c.mem (c.var esi)) c target,
    step_index-up edi copied up target,
    step_index-up esi (set_var edi (c.var edi + 1) copied) up source,
  )

  pub rep_movs_i-more : 2 ≤ c.var ecx → c.var ecx < 2 ^ 32 → rep_movs_i insn c ≡ some (round c, 0)
  unfolding rep_movs_i cmp_width count_down advance
  rep_movs_i-more more small = rw (size, move_string-one, count_down-more insn stepped more small)

  pub rep_movs_i-last : c.var ecx ≡ 1 → rep_movs_i insn c ≡ some (advance insn (round c), 0)
  unfolding rep_movs_i cmp_width count_down advance
  rep_movs_i-last last = rw (size, move_string-one, count_down-last insn stepped last)
