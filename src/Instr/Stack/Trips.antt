-- ===== src/Instr/Stack/Trips.antt =====
-- What is pushed is popped.
use vm_i386_32bit.Base.{
  ℕ, ◌+◌, ◌-◌, ◌%◌, ◌^◌, ◌≤◌, ◌<◌, ◌≡◌, refl, ap, arith, some, ◌==◌, false, ◌⊎◌,
}
use vm_i386_32bit.Flags.Meaning.{Width, bits, dword, byte, word}
use vm_i386_32bit.Machine.{Cpu, Var, set_var, same_var, u32, mem_size, store, esp, ebp, eip}
use vm_i386_32bit.Machine.Memory.{
  peek, poke, peek-poke, peek-same, peek-half, read16-load_bytes, poke_below, poke_above,
  read32-load_bytes,
}
use vm_i386_32bit.Machine.Registers.{reg_val}
use vm_i386_32bit.Machine.State.{IsBytes, IsCpu, poke-IsBytes}
use vm_i386_32bit.Operand.{Insn, Operand, advance, reg_place, source_value32, target_value}
use vm_i386_32bit.Operand.Laws.{regs-inside}
use vm_i386_32bit.Instr.Arith.Registers.{IsRegister, low, width_of-bits, advance-var}
use vm_i386_32bit.Instr.Arith.Compare.{load-register}
use vm_i386_32bit.Instr.Stack.{
  push_i, pop_i, pop_register, pop_operand, call_i, ret_i, leave_i, esp_up,
}
use vm_i386_32bit.Instr.Stack.Steps.{pushed, popped, push32-pushed}

reg_val-register :
    {w : Width} {v : Var} (op : Operand) (c : Cpu)
    → IsRegister w v op
    → reg_val op.reg c ≡ some (low w (c.var v))
unfolding reg_val
reg_val-register {w} {v} op c dst = rw (
  regs-inside op.reg v dst.variable,
  dst.width,
  not_zero w,
  dst.variable,
  width_of-bits w,
  load-register w v c,
)
  where
    not_zero : (w : Width) → (bits w == 0) ≡ false
    not_zero byte = refl
    not_zero word = refl
    not_zero dword = refl

source_value32-register :
    {v : Var} (op : Operand) (c : Cpu)
    → IsRegister dword v op
    → source_value32 op c ≡ some (low dword (c.var v))
unfolding source_value32
source_value32-register op c src = rw src.kind (reg_val-register op c src)

-- The operand size of a doubleword is not 2.
size_test : {v : Var} (op : Operand) → IsRegister dword v op → (op.size == 2) ≡ false
size_test op src = rw src.size

-- PUSH of a 32-bit register.
pub push_i-pushed :
    {v : Var} (insn : Insn) (c : Cpu)
    → IsCpu c
    → IsRegister dword v insn.op1
    → 4 ≤ c.var esp
    → c.var esp ≤ mem_size
    → push_i insn c ≡ some (pushed (c.var v) (advance insn c), 0)
unfolding push_i advance
push_i-pushed {v} insn c ok src lo hi = rw (
  source_value32-register insn.op1 (advance insn c) src,
  size_test insn.op1 src,
  src.not_eip,
  let e : low dword (c.var v) ≡ c.var v = omega (arith, ok.words v) in e,
  push32-pushed (c.var v) (advance insn c) lo hi,
)

peek-lt : (a : ℕ) (m : ℕ → ℕ) → IsBytes m → peek 4 a m < 2 ^ 32
unfolding peek
peek-lt a m h = omega (arith, h a, h (a + 1), h (a + 1 + 1), h (a + 1 + 1 + 1))

-- A write of 32 bits replaces all of a register.
whole : (x y : ℕ) → x < 2 ^ 32 → y < 2 ^ 32 → x - x % 2 ^ 32 + y % 2 ^ 32 ≡ y
whole x y p q = omega arith

pop_register-popped :
    {t : Var} (op : Operand) (c : Cpu)
    → IsCpu c
    → IsRegister dword t op
    → c.var esp + 4 ≤ mem_size
    → pop_register op c ≡ some (popped t c)
unfolding pop_register reg_place store
pop_register-popped {t} op c ok dst hi = rw (
  dst.variable,
  size_test op dst,
  read32-load_bytes (c.var esp) c ok.bytes hi,
  whole (c.var t) (peek 4 (c.var esp) c.mem) (ok.words t) (peek-lt (c.var esp) c.mem ok.bytes),
)

pop_operand-register :
    {t : Var} (op : Operand) (c : Cpu)
    → IsRegister dword t op
    → pop_operand op c ≡ pop_register op c
unfolding pop_operand
pop_operand-register op c dst = rw dst.kind

advance-IsCpu : (insn : Insn) (c : Cpu) → IsCpu c → IsCpu (advance insn c)
unfolding advance
advance-IsCpu insn c ok = record { words = λ v. ground (arith, ok.words v); bytes = ok.bytes }

-- POP into a 32-bit register.
pub pop_i-popped :
    {t : Var} (insn : Insn) (c : Cpu)
    → IsCpu c
    → IsRegister dword t insn.op1
    → c.var esp + 4 ≤ mem_size
    → pop_i insn c ≡ some (popped t (advance insn c), 0)
unfolding pop_i
pop_i-popped {t} insn c ok dst hi = rw (
  pop_operand-register insn.op1 (advance insn c) dst,
  pop_register-popped insn.op1 (advance insn c) (advance-IsCpu insn c ok) dst
      (rw (advance-var insn c esp refl) hi),
)

pushed-IsCpu : (x : ℕ) (c : Cpu) → IsCpu c → IsCpu (pushed x c)
pushed-IsCpu x c ok = record {
  words = λ v. ground (arith, ok.words v, ok.words esp);
  bytes = poke-IsBytes 4 (c.var esp - 4) x c.mem ok.bytes;
}

-- What a PUSH of `v` followed by a POP into `t` does to the machine.
pub record Moved (v t : Var) (push pop : Insn) (c d : Cpu) : Type 0 where
  pub target : d.var t ≡ c.var v
  pub stack : d.var esp ≡ c.var esp
  pub next : d.var eip ≡ u32 (u32 (c.var eip + push.size) + pop.size)
  pub others :
      (u : Var)
      → same_var t u ≡ false
      → same_var esp u ≡ false
      → same_var eip u ≡ false
      → d.var u ≡ c.var u
  pub memory : (a : ℕ) → (a < c.var esp - 4) ⊎ (c.var esp ≤ a) → d.mem a ≡ c.mem a

module _ {v t : Var} (push pop : Insn) (c : Cpu) (ok : IsCpu c) (src : IsRegister dword v push.op1)
    (dst : IsRegister dword t pop.op1) (apart : same_var esp t ≡ false) (lo : 4 ≤ c.var esp)
    (hi : c.var esp ≤ mem_size) where
  abbrev pub between : Cpu
  between = pushed (c.var v) (advance push c)

  esp_between : between.var esp ≡ c.var esp - 4
  unfolding advance
  esp_between = refl

  read_back : peek 4 (c.var esp - 4) (poke 4 (c.var esp - 4) (c.var v) c.mem) ≡ c.var v % 2 ^ 32
  read_back = peek-poke 4 (c.var esp - 4) (c.var v) c.mem

  -- Where the registers hold 32-bit numbers, the memory bytes, and ESP is at least 4 and within
  -- the allocation, PUSH of a 32-bit register and then POP into a 32-bit register other than ESP
  -- (neither of the two EIP or EFLAGS) both succeed; the second register then has what the first
  -- one had, ESP is where it was, EIP is behind both, and the other registers and all memory but
  -- the four bytes below ESP are unchanged.
  pub push_i-pop_i :
      (m : Cpu) × (d : Cpu) × (push_i push c ≡ some (m, 0))
      × (pop_i pop m ≡ some (d, 0))
      × Moved v t push pop c d
  unfolding advance
  push_i-pop_i = (
    between,
    popped t (advance pop between),
    push_i-pushed push c ok src lo hi,
    pop_i-popped pop between (pushed-IsCpu (c.var v) (advance push c) (advance-IsCpu push c ok)) dst
        (omega arith),
    record {
      target = ground (arith, read_back, ok.words v, dst.not_eip);
      stack = ground (arith, ok.words esp);
      next = ground (arith, dst.not_eip);
      others = λ u ht hs hn. ground arith;
      memory = λ a h. ground (
        arith,
        poke_below 4 (c.var esp - 4) (c.var v) a c.mem,
        poke_above 4 (c.var esp - 4) (c.var v) a c.mem,
      );
    },
  )

-- The machine at the entry of a callee, with the return address on the stack, and the machine
-- after the RET of a callee that left `m`.
abbrev pub entered : Insn → ℕ → Cpu → Cpu
entered call to c = set_var eip to (pushed (u32 (c.var eip + call.size)) (advance call c))

abbrev pub returned : Cpu → Cpu
returned m = esp_up 4 (set_var eip (peek 4 (m.var esp) m.mem) m)

module _ (call ret : Insn) (c m : Cpu) (ok : IsCpu c) (m_ok : IsCpu m) (to : ℕ)
    (target : target_value call.op1 (advance call c) ≡ some to)
    (plain : (ret.op_count == 1) ≡ false) (lo : 4 ≤ c.var esp) (hi : c.var esp ≤ mem_size)
    (level : m.var esp ≡ c.var esp - 4)
    (kept : (a : ℕ) → c.var esp - 4 ≤ a → a < c.var esp → m.mem a ≡ (entered call to c).mem a) where
  call_i-entered : call_i call c ≡ some (entered call to c, 0)
  unfolding call_i advance
  call_i-entered = rw (target, push32-pushed (u32 (c.var eip + call.size)) (advance call c) lo hi)

  return_address : peek 4 (m.var esp) m.mem ≡ u32 (c.var eip + call.size)
  unfolding advance
  return_address = ground (
    arith,
    ap (λ (a : ℕ). peek 4 a m.mem) level,
    peek-same 4 (c.var esp - 4) m.mem (entered call to c).mem (λ a p q. kept a p (omega arith)),
    peek-poke 4 (c.var esp - 4) (u32 (c.var eip + call.size)) c.mem,
  )

  -- Where the registers of a machine hold 32-bit numbers, its memory bytes, ESP is at least 4 and
  -- within the allocation, and the target of a CALL can be read, CALL succeeds with EIP at the
  -- target; and from any such machine with ESP four lower than before the CALL and the same four
  -- bytes from there on, a RET without an operand succeeds with EIP behind the CALL and ESP where
  -- it was before the CALL.
  pub call_i-ret_i :
      (call_i call c ≡ some (entered call to c, 0))
      × (ret_i ret m ≡ some (returned m, 0))
      × ((returned m).var eip ≡ u32 (c.var eip + call.size))
      × ((returned m).var esp ≡ c.var esp)
  unfolding ret_i
  call_i-ret_i = (
    call_i-entered,
    rw (read32-load_bytes (m.var esp) m m_ok.bytes (omega arith), plain),
    return_address,
    ground (arith, ok.words esp),
  )

-- LEAVE without the operand-size prefix.
module _ (insn : Insn) (c : Cpu) (ok : IsCpu c) (plain : (insn.prefix0 == 0x66) ≡ false)
    (room : c.var ebp + 2 ≤ mem_size) where
  -- Where the registers hold 32-bit numbers, the memory bytes, and two bytes from EBP on lie in
  -- the allocation, LEAVE without the operand-size prefix succeeds with ESP four above EBP modulo
  -- two to the 32, and with the low 16 bits alone of the doubleword at EBP in EBP.
  pub leave_i-half :
      (d : Cpu) × (leave_i insn c ≡ some (d, 0))
      × (d.var esp ≡ u32 (c.var ebp + 4))
      × (d.var ebp ≡ peek 4 (c.var ebp) c.mem % 2 ^ 16)
  unfolding leave_i advance
  leave_i-half = (
    esp_up 4 (set_var ebp (peek 2 (c.var ebp) c.mem) (set_var esp (c.var ebp) (advance insn c))),
    rw (
      read16-load_bytes (c.var ebp) (set_var esp (c.var ebp) (advance insn c)) ok.bytes room,
      plain,
    ),
    refl,
    peek-half (c.var ebp) c.mem ok.bytes,
  )
