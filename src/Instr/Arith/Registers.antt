-- ===== src/Instr/Arith/Registers.antt =====
-- The arithmetic handlers on register operands of every width.
use vm_i386_32bit.Base.{
  ℕ, ◌+◌, ◌-◌, ◌%◌, ◌^◌, ◌<◌, ◌≡◌, refl, arith, Bool, false, some, ltb, bit_and-low, ◌∙◌, ap, sym,
}
use vm_i386_32bit.Flags.Meaning.{Width, bits, bytes, byte, word, dword, sum_of}
use vm_i386_32bit.Machine.{Cpu, Var, in_var, load, store, set_var, same_var, eip, eflags, u32}
use vm_i386_32bit.Machine.Registers.{regs, regs_size, width_of}
use vm_i386_32bit.Operand.{Insn, Operand, op_reg, advance, reg_place, source_value}
use vm_i386_32bit.Instr.Arith.{rewrite_place, put_flags, masked, add_place, add_i, base_of}
use vm_i386_32bit.Instr.Arith.Flags.{AddFlags, put_flags-AddFlags, var-put_flags, mem-put_flags}

-- The `w` low bytes of a number, and `x` with its low bytes replaced by those of `y`.
abbrev pub low : Width → ℕ → ℕ
low w x = x % 2 ^ bits w

abbrev pub merge : Width → ℕ → ℕ → ℕ
merge w x y = x - low w x + low w y

-- The operand is a register of width `w` that the variable `v` holds.
pub record IsRegister (w : Width) (v : Var) (op : Operand) : Type 0 where
  pub kind : op.kind ≡ op_reg
  pub variable : regs op.reg ≡ some v
  pub width : regs_size op.reg ≡ bits w
  pub size : op.size ≡ bytes w
  pub not_eip : same_var eip v ≡ false
  pub not_eflags : same_var eflags v ≡ false

pub rewrite_place-register :
    (w : Width) (v : Var) (f : ℕ → ℕ) (c : Cpu)
    → rewrite_place (bytes w) (in_var v) f c
      ≡ some (
        low w (c.var v),
        low w (f (low w (c.var v))),
        set_var v (merge w (c.var v) (f (low w (c.var v)))) c,
      )
unfolding rewrite_place load store
rewrite_place-register byte v f c = ground arith
rewrite_place-register word v f c = ground arith
rewrite_place-register dword v f c = ground arith

pub advance-var :
    (insn : Insn) (c : Cpu) (v : Var) → same_var eip v ≡ false → (advance insn c).var v ≡ c.var v
unfolding advance
advance-var insn c v ne = ground arith

low-masked :
    (w : Width) (a b : ℕ) → b < 2 ^ bits w → low w (u32 (a + masked (bytes w) b + 0)) ≡ sum_of w a b
low-masked byte a b h = ground (arith, bit_and-low 8 b)
low-masked word a b h = ground (arith, bit_and-low 16 b)
low-masked dword a b h = ground arith

pub width_of-bits : (w : Width) → width_of (bits w) ≡ bytes w
unfolding width_of
width_of-bits byte = refl
width_of-bits word = refl
width_of-bits dword = refl

base_of-bytes : (w : Width) → base_of (bytes w) ≡ bits w
base_of-bytes byte = refl
base_of-bytes word = refl
base_of-bytes dword = refl

-- The operand of ADD and ADC, rewritten.
add_place-register :
    {w : Width} {v : Var} (op : Operand) (extra b : ℕ) (c : Cpu)
    → IsRegister w v op
    → add_place op extra b c
      ≡ some (
        low w (c.var v),
        low w (u32 (low w (c.var v) + masked (bytes w) b + extra)),
        set_var v (merge w (c.var v) (u32 (low w (c.var v) + masked (bytes w) b + extra))) c,
      )
unfolding add_place reg_place
add_place-register {w} {v} op extra b c dst =
    rw (dst.kind, dst.variable, dst.width, width_of-bits w)
      (rewrite_place-register w v (λ x. u32 (x + masked (bytes w) b + extra)) c)

-- From `c` to `d` the instruction has written `x` to `w` bytes of `v`, moved EIP behind itself,
-- and changed nothing else but EFLAGS.
pub record Writes (w : Width) (v : Var) (x : ℕ) (insn : Insn) (c d : Cpu) : Type 0 where
  pub target : d.var v ≡ merge w (c.var v) x
  pub next : d.var eip ≡ u32 (c.var eip + insn.size)
  pub others :
      (u : Var)
      → same_var v u ≡ false
      → same_var eip u ≡ false
      → same_var eflags u ≡ false
      → d.var u ≡ c.var u
  pub memory : d.mem ≡ c.mem

pub put_flags-Writes :
    {w : Width} {v : Var} (x y : ℕ) (insn : Insn) (c : Cpu) (op : Operand) (k : Bool)
    (val1 val2 res base : ℕ)
    → IsRegister w v op
    → low w y ≡ low w x
    → Writes w v x insn c
        (put_flags k val1 val2 res base (set_var v (merge w (c.var v) y) (advance insn c)))
unfolding advance
put_flags-Writes {w} {v} x y insn c op k a b r n dst e =
    let d = set_var v (merge w (c.var v) y) (advance insn c) in
    record {
      target =
          var-put_flags v k a b r n d dst.not_eflags
          ∙ ground (arith, ap (λ (t : ℕ). c.var v - low w (c.var v) + t) e);
      next = var-put_flags eip k a b r n d refl ∙ ground (arith, dst.not_eip);
      others = λ u hv hi hf. var-put_flags u k a b r n d hf ∙ ground arith;
      memory = mem-put_flags k a b r n d;
    }

pub low-lt : (w : Width) (x : ℕ) → low w x < 2 ^ bits w
low-lt byte x = omega arith
low-lt word x = omega arith
low-lt dword x = omega arith

pub low-small : (w : Width) (x : ℕ) → x < 2 ^ bits w → low w x ≡ x
low-small byte x h = omega arith
low-small word x h = omega arith
low-small dword x h = omega arith

low-low : (w : Width) (x : ℕ) → low w (low w x) ≡ low w x
low-low byte x = omega arith
low-low word x = omega arith
low-low dword x = omega arith

pub base_of-register :
    {w : Width} {v : Var} (op : Operand) → IsRegister w v op → base_of op.size ≡ bits w
base_of-register {w} op dst = ap base_of dst.size ∙ base_of-bytes w

module _ {w : Width} {v : Var} (insn : Insn) (c : Cpu) (b : ℕ) (dst : IsRegister w v insn.op1)
    (fits : b < 2 ^ bits w) where
  abbrev a : ℕ
  a = low w (c.var v)

  -- The machine after ADD.
  abbrev added : Cpu
  added =
      put_flags (ltb (sum_of w a b) a) a b (sum_of w a b) (bits w)
        (set_var v (merge w (c.var v) (u32 (a + masked (bytes w) b + 0))) (advance insn c))

  add_i-added : source_value insn.op2 (advance insn c) ≡ some b → add_i insn c ≡ some (added, 0)
  unfolding add_i
  add_i-added source = rw (
    source,
    add_place-register insn.op1 0 b (advance insn c) dst,
    advance-var insn c v dst.not_eip,
    low-masked w a b fits,
    base_of-register insn.op1 dst,
  )

  -- When the first operand of an ADD is a register of 8, 16 or 32 bits other than EIP and EFLAGS,
  -- and the second one has a value b below two to that width, ADD succeeds, leaves the sum modulo
  -- two to that width in the register's low bits, moves EIP behind itself and leaves the other
  -- registers but EFLAGS and the memory as they were; CF is set exactly if the sum does not fit
  -- the width without sign, OF exactly if it does not fit with sign, ZF exactly if it is zero, SF
  -- exactly if its leading bit is set, AF exactly if there is a carry out of the low four bits,
  -- and PF exactly if its low byte has an even number of ones.
  pub add_i-register :
      source_value insn.op2 (advance insn c) ≡ some b
      → (d : Cpu) × (add_i insn c ≡ some (d, 0))
        × Writes w v (sum_of w a b) insn c d
        × AddFlags w a b d
  add_i-register source = (
    added,
    add_i-added source,
    put_flags-Writes (sum_of w a b) (u32 (a + masked (bytes w) b + 0)) insn c insn.op1 _ a b _ _ dst
        (low-masked w a b fits ∙ sym (low-low w (a + b))),
    put_flags-AddFlags w a b _ (low-lt w (c.var v)) fits,
  )
