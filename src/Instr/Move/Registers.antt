-- ===== src/Instr/Move/Registers.antt =====
-- Movement between registers.
use vm_i386_32bit.Base.{ℕ, ◌+◌, ◌≡◌, refl, arith, false, some, bit_and-low, ◌∙◌, ap}
use vm_i386_32bit.Flags.Meaning.{Width, bytes, byte, word, dword}
use vm_i386_32bit.Machine.{Cpu, Var, in_var, store, set_var, same_var, eip, u32}
use vm_i386_32bit.Operand.{Insn, Operand, advance, reg_place, source_value32}
use vm_i386_32bit.Operand.Laws.{place_of-register}
use vm_i386_32bit.Instr.Arith.{masked}
use vm_i386_32bit.Instr.Arith.Registers.{IsRegister, low, merge, advance-var, width_of-bits}
use vm_i386_32bit.Instr.Arith.Compare.{cmp_width-bytes, load-register}
use vm_i386_32bit.Instr.Move.{mov_i, mov_place, xchg_i}

pub store-register :
    (w : Width) (v : Var) (x : ℕ) (c : Cpu)
    → store (bytes w) (in_var v) x c ≡ some (set_var v (merge w (c.var v) x) c)
unfolding store
store-register byte v x c = refl
store-register word v x c = refl
store-register dword v x c = refl

merge-masked : (w : Width) (x y : ℕ) → merge w x (masked (bytes w) y) ≡ merge w x y
merge-masked byte x y = ground (arith, bit_and-low 8 y)
merge-masked word x y = ground (arith, bit_and-low 16 y)
merge-masked dword x y = refl

mov_place-register :
    {w : Width} {v : Var} (op : Operand) (b : ℕ) (c : Cpu)
    → IsRegister w v op
    → mov_place op b c ≡ some (set_var v (merge w (c.var v) b) c)
unfolding mov_place reg_place
mov_place-register {w} {v} op b c dst = rw (
  dst.kind,
  dst.variable,
  dst.width,
  width_of-bits w,
  store-register w v (masked (bytes w) b) c,
  merge-masked w (c.var v) b,
)

-- The low bytes of `v` are those of `x`, EIP is behind the instruction, and nothing else changed.
pub record Loads (w : Width) (v : Var) (x : ℕ) (insn : Insn) (c d : Cpu) : Type 0 where
  pub target : d.var v ≡ merge w (c.var v) x
  pub next : d.var eip ≡ u32 (c.var eip + insn.size)
  pub others : (u : Var) → same_var v u ≡ false → same_var eip u ≡ false → d.var u ≡ c.var u
  pub memory : d.mem ≡ c.mem

pub loaded :
    {w : Width} {v : Var} (op : Operand) (x : ℕ) (insn : Insn) (c : Cpu)
    → IsRegister w v op
    → Loads w v x insn c (set_var v (merge w (c.var v) x) (advance insn c))
unfolding advance
loaded op x insn c dst = record {
  target = ground arith;
  next = ground (arith, dst.not_eip);
  others = λ u hv hi. ground arith;
  memory = refl;
}

pub mov_i-register :
    {w : Width} {v : Var} (insn : Insn) (c : Cpu) (b : ℕ)
    → IsRegister w v insn.op1
    → source_value32 insn.op2 (advance insn c) ≡ some b
    → (d : Cpu) × (mov_i insn c ≡ some (d, 0)) × Loads w v b insn c d
unfolding mov_i
mov_i-register {w} {v} insn c b dst source = (
  set_var v (merge w (c.var v) b) (advance insn c),
  rw (source, mov_place-register insn.op1 b (advance insn c) dst, advance-var insn c v dst.not_eip),
  loaded insn.op1 b insn c dst,
)

-- Both directions of an exchange.
pub record Swaps (w : Width) (v t : Var) (insn : Insn) (c d : Cpu) : Type 0 where
  pub first : low w (d.var v) ≡ low w (c.var t)
  pub second : low w (d.var t) ≡ low w (c.var v)
  pub others :
      (u : Var)
      → same_var v u ≡ false
      → same_var t u ≡ false
      → same_var eip u ≡ false
      → d.var u ≡ c.var u
  pub memory : d.mem ≡ c.mem

low-merge : (w : Width) (x y : ℕ) → low w (merge w x y) ≡ low w y
low-merge byte x y = omega arith
low-merge word x y = omega arith
low-merge dword x y = omega arith

low-low' : (w : Width) (x : ℕ) → low w (low w x) ≡ low w x
low-low' byte x = omega arith
low-low' word x = omega arith
low-low' dword x = omega arith

module _ {w : Width} {v t : Var} (insn : Insn) (c : Cpu) (one : IsRegister w v insn.op1)
    (two : IsRegister w t insn.op2) (apart : same_var t v ≡ false) where
  abbrev swapped : Cpu
  swapped =
      set_var v (merge w (c.var v) (low w (c.var t)))
        (set_var t (merge w (c.var t) (low w (c.var v))) (advance insn c))

  in_v : swapped.var v ≡ merge w (c.var v) (low w (c.var t))
  in_v = ground arith

  in_t : swapped.var t ≡ merge w (c.var t) (low w (c.var v))
  in_t = ground (arith, apart)

  -- For two register operands of the same width of 8, 16 or 32 bits that two different variables
  -- hold, neither of them EIP or EFLAGS, XCHG succeeds and exchanges their low bits, and leaves
  -- the other registers but EIP and the memory as they were.
  pub xchg_i-Swaps : (d : Cpu) × (xchg_i insn c ≡ some (d, 0)) × Swaps w v t insn c d
  unfolding xchg_i advance
  xchg_i-Swaps = (
    swapped,
    rw (
      place_of-register insn.op1 v (advance insn c) one.kind one.variable,
      place_of-register insn.op2 t (advance insn c) two.kind two.variable,
      one.size,
      cmp_width-bytes w,
      load-register w t (advance insn c),
      load-register w v (advance insn c),
      advance-var insn c v one.not_eip,
      advance-var insn c t two.not_eip,
      store-register w t (low w (c.var v)) (advance insn c),
      advance-var insn c t two.not_eip,
      store-register w v (low w (c.var t))
          (set_var t (merge w (c.var t) (low w (c.var v))) (advance insn c)),
      apart,
      advance-var insn c v one.not_eip,
    ),
    record {
      first = ap (low w) in_v ∙ low-merge w (c.var v) (low w (c.var t)) ∙ low-low' w (c.var t);
      second = ap (low w) in_t ∙ low-merge w (c.var t) (low w (c.var v)) ∙ low-low' w (c.var v);
      others = λ u hv ht hi. ground arith;
      memory = refl;
    },
  )
