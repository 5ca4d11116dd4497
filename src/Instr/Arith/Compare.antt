-- ===== src/Instr/Arith/Compare.antt =====
-- CMP of a register with a value that fits its width.
use vm_i386_32bit.Base.{ℕ, ◌^◌, ◌<◌, ◌≡◌, refl, arith, false, some, ltb, ◌+◌, bit_and-low, ◌∙◌}
use vm_i386_32bit.Flags.Meaning.{Width, bits, bytes, byte, word, dword, difference_of}
use vm_i386_32bit.Machine.{Cpu, Var, in_var, load, same_var, eip, eflags, u32}
use vm_i386_32bit.Operand.{Insn, Operand, advance, reg_place}
use vm_i386_32bit.Instr.Arith.{put_flags, masked, sub32, cmp_i, cmp_width, cmp_source, cmp_operand}
use vm_i386_32bit.Instr.Arith.Flags.{CmpFlags, put_flags-CmpFlags, var-put_flags, mem-put_flags}
use vm_i386_32bit.Instr.Arith.Registers.{IsRegister, low, low-lt, advance-var, base_of-register}

pub cmp_width-bytes : (w : Width) → cmp_width (bytes w) ≡ bytes w
unfolding cmp_width
cmp_width-bytes byte = refl
cmp_width-bytes word = refl
cmp_width-bytes dword = refl

masked_difference :
    (w : Width) (a b : ℕ) → b < 2 ^ bits w → sub32 a (masked (bytes w) b) ≡ difference_of dword a b
unfolding sub32
masked_difference byte a b h = ground (arith, bit_and-low 8 b)
masked_difference word a b h = ground (arith, bit_and-low 16 b)
masked_difference dword a b h = ground arith

pub load-register :
    (w : Width) (v : Var) (c : Cpu) → load (bytes w) (in_var v) c ≡ some (low w (c.var v))
unfolding load
load-register byte v c = refl
load-register word v c = refl
load-register dword v c = refl

cmp_operand-register :
    {w : Width} {v : Var} (op : Operand) (b : ℕ) (c : Cpu)
    → IsRegister w v op
    → b < 2 ^ bits w
    → cmp_operand op b c ≡ some (low w (c.var v), difference_of dword (low w (c.var v)) b)
unfolding cmp_operand reg_place
cmp_operand-register {w} {v} op b c dst fits = rw (
  dst.kind,
  dst.variable,
  dst.size,
  cmp_width-bytes w,
  load-register w v c,
  masked_difference w (low w (c.var v)) b fits,
)

-- From `c` to `d` the instruction has moved EIP behind itself and changed nothing else but EFLAGS.
pub record Compares (insn : Insn) (c d : Cpu) : Type 0 where
  pub next : d.var eip ≡ u32 (c.var eip + insn.size)
  pub others : (u : Var) → same_var eip u ≡ false → same_var eflags u ≡ false → d.var u ≡ c.var u
  pub memory : d.mem ≡ c.mem

module _ {w : Width} {v : Var} (insn : Insn) (c : Cpu) (b : ℕ) (dst : IsRegister w v insn.op1)
    (fits : b < 2 ^ bits w) where
  -- The first operand.
  abbrev a : ℕ
  a = low w (c.var v)

  abbrev pub compared : Cpu
  compared = put_flags (ltb a b) a b (difference_of dword a b) (bits w) (advance insn c)

  pub cmp_i-compared :
      cmp_source insn.op1.size insn.op2 (advance insn c) ≡ some b
      → cmp_i insn c ≡ some (compared, 0)
  unfolding cmp_i
  cmp_i-compared source = rw (
    source,
    cmp_operand-register insn.op1 b (advance insn c) dst fits,
    advance-var insn c v dst.not_eip,
    base_of-register insn.op1 dst,
  )

  pub compared-Compares : Compares insn c compared
  unfolding advance
  compared-Compares = record {
    next = var-put_flags eip (ltb a b) a b (difference_of dword a b) (bits w) (advance insn c) refl;
    others = λ u hi hf.
        var-put_flags u (ltb a b) a b (difference_of dword a b) (bits w) (advance insn c) hf
        ∙ ground arith;
    memory = mem-put_flags (ltb a b) a b (difference_of dword a b) (bits w) (advance insn c);
  }

  -- When the first operand of a CMP is a register of 8, 16 or 32 bits other than EIP and EFLAGS,
  -- and the second one has a value b below two to that width, CMP succeeds, moves EIP behind
  -- itself and leaves every register but EIP and EFLAGS and the memory as they were; CF is set
  -- exactly if the first number is less without sign, ZF exactly if the two are equal, SF exactly
  -- if the difference taken on 32 bits is at least two to the width less one, AF exactly if there
  -- is a borrow from the low four bits, PF exactly if the low byte of the difference has an even
  -- number of ones, and where OF is set the signed difference fits the width.
  pub cmp_i-register :
      cmp_source insn.op1.size insn.op2 (advance insn c) ≡ some b
      → (d : Cpu) × (cmp_i insn c ≡ some (d, 0)) × Compares insn c d × CmpFlags w a b d
  cmp_i-register source = (
    compared,
    cmp_i-compared source,
    compared-Compares,
    put_flags-CmpFlags w a b (advance insn c) (low-lt w (c.var v)) fits,
  )
