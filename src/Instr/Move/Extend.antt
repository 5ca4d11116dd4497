-- ===== src/Instr/Move/Extend.antt =====
-- The extensions of src/instr.c, and MOVSX and MOVZX.
use vm_i386_32bit.Base.{
  ℕ, ◌+◌, ◌%◌, ◌^◌, ◌<◌, ◌≡◌, arith, bit_or, bit_and-low, bit_or-fields, bit_or_comm, bit_and-pow,
  ap, some, ◌∙◌,
}
use vm_i386_32bit.Base.Int.{signed}
use vm_i386_32bit.Flags.Meaning.{Width, bits, bytes, byte, word, dword}
use vm_i386_32bit.Machine.{Cpu, Var, set_var, u32, eip}
use vm_i386_32bit.Operand.{Insn, Operand, advance, reg_place, source_value32}
use vm_i386_32bit.Instr.Arith.Registers.{IsRegister, merge, advance-var}
use vm_i386_32bit.Instr.Arith.{sign_extend8_16, sign_extend8_32, sign_extend16_32}
use vm_i386_32bit.Instr.Move.{
  zero_extend8_16, zero_extend8_32, zero_extend16_32, set_register, movsx_i, movsx_register,
  movzx_i, movzx_register,
}
use vm_i386_32bit.Instr.Move.Registers.{store-register, loaded}

-- The ones that the extensions put in front of a negative number.
ahead8_32 : (x : ℕ) → x < 2 ^ 8 → bit_or x 0xFFFFFF00 ≡ 0xFFFFFF00 + x
ahead8_32 x h = omega (arith, bit_or_comm x 0xFFFFFF00, bit_or-fields 8 0xFFFFFF x h)

ahead16_32 : (x : ℕ) → x < 2 ^ 16 → bit_or x 0xFFFF0000 ≡ 0xFFFF0000 + x
ahead16_32 x h = omega (arith, bit_or_comm x 0xFFFF0000, bit_or-fields 16 0xFFFF x h)

ahead8_16 : (x : ℕ) → x < 2 ^ 8 → bit_or x 0xFF00 ≡ 0xFF00 + x
ahead8_16 x h = omega (arith, bit_or_comm x 0xFF00, bit_or-fields 8 0xFF x h)

pub sign_extend-signed :
    (x y : ℕ)
    → x < 2 ^ 8
    → y < 2 ^ 16
    → (signed 32 (sign_extend8_32 x) ≡ signed 8 x)
      × (signed 16 (sign_extend8_16 x) ≡ signed 8 x)
      × (signed 32 (sign_extend16_32 y) ≡ signed 16 y)
unfolding sign_extend8_32 sign_extend8_16 sign_extend16_32
sign_extend-signed x y p q = (
  ground (arith, bit_and-pow 7 x, ahead8_32 x p),
  ground (arith, bit_and-pow 7 x, ahead8_16 x p),
  ground (arith, bit_and-pow 15 y, ahead16_32 y q),
)

pub zero_extend-same :
    (x y : ℕ)
    → x < 2 ^ 8
    → y < 2 ^ 16
    → (zero_extend8_32 x ≡ x) × (zero_extend8_16 x ≡ x) × (zero_extend16_32 y ≡ y)
unfolding zero_extend8_32 zero_extend8_16 zero_extend16_32
zero_extend-same x y p q = (
  omega (arith, bit_and-low 8 x),
  omega (arith, bit_and-low 8 x),
  omega (arith, bit_and-low 16 y),
)

-- MOVSX and MOVZX of a byte or a word into a 32-bit register.
set_register-dword :
    {v : Var} (op : Operand) (x : ℕ) (c : Cpu)
    → IsRegister dword v op
    → set_register 4 x op c ≡ some (set_var v (merge dword (c.var v) x) c)
unfolding set_register reg_place
set_register-dword {v} op x c dst = rw (dst.variable, store-register dword v x c)

-- The extended source.
abbrev sign_extended : Width → ℕ → ℕ
sign_extended byte b = sign_extend8_32 (b % 2 ^ 8)
sign_extended word b = sign_extend16_32 (b % 2 ^ 16)
sign_extended dword b = b

abbrev zero_extended : Width → ℕ → ℕ
zero_extended byte b = zero_extend8_32 (b % 2 ^ 8)
zero_extended word b = zero_extend16_32 (b % 2 ^ 16)
zero_extended dword b = b

module _ {v : Var} (w : Width) (insn : Insn) (c : Cpu) (b : ℕ) (narrow : bits w < 32)
    (dst : IsRegister dword v insn.op1) (size : insn.op2.size ≡ bytes w) (small : c.var v < 2 ^ 32)
    (source : source_value32 insn.op2 (advance insn c) ≡ some b) where
  movsx_register-set :
      (w : Width) (op1 op2 : Operand) (c : Cpu)
      → bits w < 32
      → IsRegister dword v op1
      → op2.size ≡ bytes w
      → movsx_register b op1 op2 c ≡ some (set_var v (merge dword (c.var v) (sign_extended w b)) c)
  unfolding movsx_register reg_place sign_extend8_32
  movsx_register-set byte op1 op2 c n dst size =
      rw (dst.size, size, set_register-dword op1 (sign_extend8_32 (b % 2 ^ 8)) c dst)
  movsx_register-set word op1 op2 c n dst size =
      rw (dst.size, size, set_register-dword op1 (sign_extend16_32 (b % 2 ^ 16)) c dst)
  movsx_register-set dword op1 op2 c n dst size = absurd (omega arith)

  movzx_register-set :
      (w : Width) (op1 op2 : Operand) (c : Cpu)
      → bits w < 32
      → IsRegister dword v op1
      → op2.size ≡ bytes w
      → movzx_register b op1 op2 c ≡ some (set_var v (merge dword (c.var v) (zero_extended w b)) c)
  unfolding movzx_register reg_place
  movzx_register-set byte op1 op2 c n dst size =
      rw (dst.size, size, set_register-dword op1 (zero_extend8_32 (b % 2 ^ 8)) c dst)
  movzx_register-set word op1 op2 c n dst size =
      rw (dst.size, size, set_register-dword op1 (zero_extend16_32 (b % 2 ^ 16)) c dst)
  movzx_register-set dword op1 op2 c n dst size = absurd (omega arith)

  sign_extended-signed :
      (w : Width)
      → bits w < 32
      → (sign_extended w b < 2 ^ 32)
        × (signed 32 (sign_extended w b) ≡ signed (bits w) (b % 2 ^ bits w))
  unfolding sign_extend8_32 sign_extend16_32
  sign_extended-signed byte n = (
    ground (arith, ahead8_32 (b % 2 ^ 8) (omega arith)),
    (sign_extend-signed (b % 2 ^ 8) 0 (omega arith) (omega arith)).0,
  )
  sign_extended-signed word n = (
    ground (arith, ahead16_32 (b % 2 ^ 16) (omega arith)),
    (sign_extend-signed 0 (b % 2 ^ 16) (omega arith) (omega arith)).2,
  )
  sign_extended-signed dword n = absurd (omega arith)

  whole : (x y : ℕ) → x < 2 ^ 32 → y < 2 ^ 32 → merge dword x y ≡ y
  whole x y p q = omega arith

  -- For a 32-bit register, other than EIP and EFLAGS, as the destination and a source operand of 8
  -- or 16 bits with the value b, MOVSX succeeds, leaves a number in the register that, as a signed
  -- integer of 32 bits, is the low 8 or 16 bits of b as a signed integer of that width, moves EIP
  -- behind itself and leaves the memory as it was.
  pub movsx_i-signed :
      (d : Cpu) × (movsx_i insn c ≡ some (d, 0))
      × (signed 32 (d.var v) ≡ signed (bits w) (b % 2 ^ bits w))
      × (d.var eip ≡ u32 (c.var eip + insn.size))
      × (d.mem ≡ c.mem)
  unfolding movsx_i advance
  movsx_i-signed =
      let r = loaded insn.op1 (sign_extended w b) insn c dst in
      let s = sign_extended-signed w narrow in
      (
        set_var v (merge dword (c.var v) (sign_extended w b)) (advance insn c),
        rw (
          source,
          dst.kind,
          movsx_register-set w insn.op1 insn.op2 (advance insn c) narrow dst size,
          advance-var insn c v dst.not_eip,
        ),
        ap (signed 32) (r.target ∙ whole (c.var v) (sign_extended w b) small s.0) ∙ s.1,
        r.next,
        r.memory,
      )

  zero_extended-low : (w : Width) → bits w < 32 → zero_extended w b ≡ b % 2 ^ bits w
  zero_extended-low byte n = (zero_extend-same (b % 2 ^ 8) 0 (omega arith) (omega arith)).0
  zero_extended-low word n = (zero_extend-same 0 (b % 2 ^ 16) (omega arith) (omega arith)).2
  zero_extended-low dword n = absurd (omega arith)

  low-fits : (w : Width) → bits w < 32 → b % 2 ^ bits w < 2 ^ 32
  low-fits byte n = omega arith
  low-fits word n = omega arith
  low-fits dword n = absurd (omega arith)

  -- For a 32-bit register, other than EIP and EFLAGS, as the destination and a source operand of 8
  -- or 16 bits with the value b, MOVZX succeeds, leaves the low 8 or 16 bits of b as the register,
  -- moves EIP behind itself and leaves the memory as it was.
  pub movzx_i-low :
      (d : Cpu) × (movzx_i insn c ≡ some (d, 0))
      × (d.var v ≡ b % 2 ^ bits w)
      × (d.var eip ≡ u32 (c.var eip + insn.size))
      × (d.mem ≡ c.mem)
  unfolding movzx_i advance
  movzx_i-low =
      let r = loaded insn.op1 (zero_extended w b) insn c dst in
      let e = zero_extended-low w narrow in
      (
        set_var v (merge dword (c.var v) (zero_extended w b)) (advance insn c),
        rw (
          source,
          dst.kind,
          movzx_register-set w insn.op1 insn.op2 (advance insn c) narrow dst size,
          advance-var insn c v dst.not_eip,
        ),
        r.target
            ∙ ap (merge dword (c.var v)) e
            ∙ whole (c.var v) (b % 2 ^ bits w) small (low-fits w narrow),
        r.next,
        r.memory,
      )
