-- ===== src/Instr/Convert/Signed.antt =====
-- The conversions and the signed numbers in the accumulator.
use vm_i386_32bit.Base.{
  ℕ, zero, suc, ◌+◌, ◌-◌, ◌*◌, ◌/◌, ◌%◌, ◌^◌, ◌<◌, ◌≡◌, refl, arith, bit_and, bit_or, some, bit,
  bit-suc, bit-bit_and, bit-bit_or, bit_and-low, bit_and-le, bit_or-lt, bit_or-fields, eq_of_bits,
  ap, ◌∙◌, ◌==◌, if◌then◌else◌,
}
use native.Mathlib.Nat.{pow-suc, one-le-pow}
use vm_i386_32bit.Base.Int.{signed}
use vm_i386_32bit.Flags.{sign}
use vm_i386_32bit.Machine.{Cpu, store, set_var, eax, edx}
use vm_i386_32bit.Operand.{Insn, advance}
use vm_i386_32bit.Instr.Convert.{cbw_i, cwde_i, cwd_i, cdq_i}

-- Clearing the digits from the `k`-th one on.
low_digits :
    (w k x : ℕ)
    → x < 2 ^ w
    → bit_and x (bit_and (2 ^ k - 1) (bit_and x (2 ^ k - 1))) ≡ bit_and x (2 ^ k - 1)
low_digits w k x h =
    eq_of_bits w (bit_and x (bit_and (2 ^ k - 1) (bit_and x (2 ^ k - 1)))) (bit_and x (2 ^ k - 1))
      (omega (arith, bit_and-le x (bit_and (2 ^ k - 1) (bit_and x (2 ^ k - 1)))))
      (omega (arith, bit_and-le x (2 ^ k - 1)))
      (λ i p. omega (
        arith,
        bit-bit_and i x (bit_and (2 ^ k - 1) (bit_and x (2 ^ k - 1))),
        bit-bit_and i (2 ^ k - 1) (bit_and x (2 ^ k - 1)),
        bit-bit_and i x (2 ^ k - 1),
      ))

cleared : (w k x : ℕ) → x < 2 ^ w → bit_and x (bit_and (2 ^ k - 1) (x % 2 ^ k)) ≡ x % 2 ^ k
cleared w k x h = rw (← bit_and-low k x) (low_digits w k x h)

-- Every digit of a number is in the ones that are set or among those below.
bit-ones : (w i : ℕ) → i < w → bit i (2 ^ w - 1) ≡ 1
bit-ones (suc w) zero h = omega (arith, pow-suc 2 w, one-le-pow w 2)
bit-ones (suc w) (suc i) h =
    let half : (2 ^ suc w - 1) / 2 ≡ 2 ^ w - 1 = omega (arith, pow-suc 2 w, one-le-pow w 2) in
    bit-suc i (2 ^ suc w - 1) ∙ ap (bit i) half ∙ bit-ones w i (omega arith)
bit-ones zero i h = absurd (omega arith)

high_digits :
    (w k m x : ℕ)
    → x < 2 ^ w
    → m < 2 ^ w
    → bit_or m (2 ^ k - 1) ≡ 2 ^ w - 1
    → bit_or x (bit_or m (bit_and x (2 ^ k - 1))) ≡ bit_or m (bit_and x (2 ^ k - 1))
high_digits w k m x h hm cover =
    let y = bit_or m (bit_and x (2 ^ k - 1)) in
    let small : y < 2 ^ w =
      bit_or-lt w m (bit_and x (2 ^ k - 1)) hm (omega (arith, bit_and-le x (2 ^ k - 1))) in
    eq_of_bits w (bit_or x y) y (bit_or-lt w x y h small) small (λ i p. omega (
      arith,
      bit-bit_or i x y,
      bit-bit_or i m (bit_and x (2 ^ k - 1)),
      bit-bit_and i x (2 ^ k - 1),
      bit-bit_or i m (2 ^ k - 1),
      ap (bit i) cover,
      bit-ones w i p,
    ))

filled8 : (x : ℕ) → x < 2 ^ 16 → bit_or x (bit_or 0xFF00 (x % 2 ^ 8)) ≡ 0xFF00 + x % 2 ^ 8
filled8 x h = omega (
  arith,
  high_digits 16 8 0xFF00 x h (omega arith) refl,
  ap (λ (t : ℕ). bit_or x (bit_or 0xFF00 t)) (bit_and-low 8 x),
  ap (λ (t : ℕ). bit_or 0xFF00 t) (bit_and-low 8 x),
  bit_or-fields 8 0xFF (x % 2 ^ 8) (omega arith),
)

filled16 :
    (x : ℕ) → x < 2 ^ 32 → bit_or x (bit_or 0xFFFF0000 (x % 2 ^ 16)) ≡ 0xFFFF0000 + x % 2 ^ 16
filled16 x h = omega (
  arith,
  high_digits 32 16 0xFFFF0000 x h (omega arith) refl,
  ap (λ (t : ℕ). bit_or x (bit_or 0xFFFF0000 t)) (bit_and-low 16 x),
  ap (λ (t : ℕ). bit_or 0xFFFF0000 t) (bit_and-low 16 x),
  bit_or-fields 16 0xFFFF (x % 2 ^ 16) (omega arith),
)

-- The low byte of a register, extended within its low half.
low_byte : (n : ℕ) → n % 2 ^ 16 % 2 ^ 8 ≡ n % 2 ^ 8
low_byte n = omega arith

byte_cleared : (n : ℕ) → bit_and (n % 2 ^ 16) (bit_and 0x00FF (n % 2 ^ 8)) ≡ n % 2 ^ 8
byte_cleared n = rw (← low_byte n) (cleared 16 8 (n % 2 ^ 16) (omega arith))

byte_filled : (n : ℕ) → bit_or (n % 2 ^ 16) (bit_or 0xFF00 (n % 2 ^ 8)) ≡ 0xFF00 + n % 2 ^ 8
byte_filled n = rw (← low_byte n) (filled8 (n % 2 ^ 16) (omega arith))

module _ (insn : Insn) (c : Cpu) (small : c.var eax < 2 ^ 32) where
  -- Where EAX is a 32-bit number, CBW succeeds with AX, as a signed integer, equal to what AL was
  -- as a signed integer and with the upper half of EAX unchanged, and CWDE succeeds with EAX, as a
  -- signed integer, equal to what AX was.
  pub accumulator-signed :
      (d e : Cpu) × (cbw_i insn c ≡ some (d, 0))
      × (cwde_i insn c ≡ some (e, 0))
      × (signed 16 (d.var eax % 2 ^ 16) ≡ signed 8 (c.var eax % 2 ^ 8))
      × (d.var eax / 2 ^ 16 ≡ c.var eax / 2 ^ 16)
      × (signed 32 (e.var eax) ≡ signed 16 (c.var eax % 2 ^ 16))
  unfolding cbw_i cwde_i store advance
  accumulator-signed =
      let ax = c.var eax % 2 ^ 16 in
      let al = c.var eax % 2 ^ 8 in
      let x =
        if al / 2 ^ 7 == 0 then bit_and ax (bit_and 0x00FF al) else bit_or ax (bit_or 0xFF00 al) in
      let y =
        if ax / 2 ^ 15 == 0
        then bit_and (c.var eax) (bit_and 0x0000FFFF ax)
        else bit_or (c.var eax) (bit_or 0xFFFF0000 ax) in
      (
        set_var eax (c.var eax - c.var eax % 2 ^ 16 + x % 2 ^ 16) (advance insn c),
        set_var eax y (advance insn c),
        refl,
        refl,
        ground (arith, byte_cleared (c.var eax), byte_filled (c.var eax)),
        omega arith,
        ground (arith, cleared 32 16 (c.var eax) small, filled16 (c.var eax) small),
      )

  -- Where EAX is a 32-bit number, CWD succeeds with DX and AX together, as a signed integer of 32
  -- bits, equal to what AX was, and CDQ succeeds with EDX and EAX together, as a signed integer of
  -- 64 bits, equal to what EAX was.
  pub pair-signed :
      (d e : Cpu) × (cwd_i insn c ≡ some (d, 0))
      × (cdq_i insn c ≡ some (e, 0))
      × (signed 32 (d.var edx % 2 ^ 16 * 2 ^ 16 + d.var eax % 2 ^ 16)
          ≡ signed 16 (c.var eax % 2 ^ 16))
      × (signed 64 (e.var edx * 2 ^ 32 + e.var eax) ≡ signed 32 (c.var eax))
  unfolding cwd_i cdq_i store advance sign
  pair-signed = (
    set_var edx
        (c.var edx
          - c.var edx % 2 ^ 16
          + (if sign (c.var eax % 2 ^ 16) 0x10 then 0xFFFF else 0x0000) % 2 ^ 16)
        (advance insn c),
    set_var edx (if sign (c.var eax) 0x20 then 0xFFFFFFFF else 0x00000000) (advance insn c),
    refl,
    refl,
    ground arith,
    ground arith,
  )
