-- ===== src/Instr/Rotate/Trips.antt =====
-- ROR undoes ROL by the same immediate count on a 32-bit register.
use vm_i386_32bit.Base.{
  ℕ, zero, suc, ◌+◌, ◌-◌, ◌*◌, ◌/◌, ◌%◌, ◌^◌, ◌≤◌, ◌<◌, ◌≡◌, refl, arith, Bool, true, false, Option,
  some, bit_or, bit_or_comm, bit_or-fields, ltb, ◌||◌, ap, ◌∙◌, sym,
}
use native.Mathlib.Nat.{
  add-mul-mod_self_right, mod-eq_of_lt, mul-le-mul_right, div-lt_iff_lt-mul, mul-add-div_right,
  div-eq_of_lt, div-add-mod', one-le-pow, mod-lt, pow-suc,
}
use vm_i386_32bit.Flags.{cf}
use vm_i386_32bit.Flags.Meaning.{dword}
use vm_i386_32bit.Machine.{
  Cpu, Var, Place, in_var, load, store, put, set_var, same_var, eip, eflags,
}
use vm_i386_32bit.Operand.{Insn, Operand, op_imm, advance}
use vm_i386_32bit.Operand.Laws.{place_of-register}
use vm_i386_32bit.Instr.Arith.{cmp_width}
use vm_i386_32bit.Instr.Arith.Registers.{IsRegister, advance-var}
use vm_i386_32bit.Instr.Shift.{raw_count, digit}
use vm_i386_32bit.Instr.Rotate.{rol_place, ror_place, rotate_with, rol_i, ror_i}

pow-split : (k n : ℕ) → 2 ^ k * 2 ^ n ≡ 2 ^ (k + n)
pow-split zero n = grind arith
pow-split (suc k) n =
    let e : suc k + n ≡ suc (k + n) = omega arith in
    rw (e, pow-suc 2 k, pow-suc 2 (k + n)) (grind (arith, pow-split k n))

-- Turning `x` left by the digits of `p`: its high part comes to stand below its low one.
turned : (p b q r : ℕ) → q < p → r < b → ((q * b + r) * p + q) % (p * b) ≡ r * p + q
turned p b q r hq hr =
    let split : (q * b + r) * p + q ≡ r * p + q + q * (p * b) = grind arith in
    let step : suc r * p ≤ b * p = mul-le-mul_right p hr in
    let room : r * p + p ≤ p * b = grind arith in
    rw (split, add-mul-mod_self_right (r * p + q) q (p * b)) (mod-eq_of_lt (omega arith))

-- And back.
turned_back : (p b q r : ℕ) → q < p → r < b → (r * p + q) * b % (p * b) ≡ q * b
turned_back p b q r hq hr =
    let split : (r * p + q) * b ≡ q * b + r * (p * b) = grind arith in
    let step : suc q * b ≤ p * b = mul-le-mul_right b hq in
    let room : q * b + b ≤ p * b = grind arith in
    rw (split, add-mul-mod_self_right (q * b) r (p * b)) (mod-eq_of_lt (omega arith))

-- A number below `p * b`, split at `b`.
quotient-lt : (p b x : ℕ) → 0 < b → x < p * b → x / b < p
quotient-lt p b x pos h = (div-lt_iff_lt-mul pos).1 h

-- What ROL by `k` stores in a 32-bit register, and what ROR by `k` makes of it.
abbrev rotl : (k x : ℕ) → ℕ
rotl k x = bit_or (x * 2 ^ k) (x / 2 ^ (32 - k)) % 2 ^ 32

abbrev rotr : (k x : ℕ) → ℕ
rotr k x = bit_or (x / 2 ^ k) (x * 2 ^ (32 - k) % 2 ^ 32) % 2 ^ 32

module _ (k x : ℕ) (small : k < 32) (word : x < 2 ^ 32) where
  splits : 2 ^ k * 2 ^ (32 - k) ≡ 2 ^ 32
  splits = let e : k + (32 - k) ≡ 32 = omega arith in pow-split k (32 - k) ∙ ap (λ (n : ℕ). 2 ^ n) e

  high-lt : x / 2 ^ (32 - k) < 2 ^ k
  high-lt =
      quotient-lt (2 ^ k) (2 ^ (32 - k)) x (one-le-pow (32 - k) 2 (omega arith))
        (omega (arith, splits))

  low-lt : x % 2 ^ (32 - k) < 2 ^ (32 - k)
  low-lt = mod-lt x (one-le-pow (32 - k) 2 (omega arith))

  rotl-fields : rotl k x ≡ x % 2 ^ (32 - k) * 2 ^ k + x / 2 ^ (32 - k)
  rotl-fields =
      let p = 2 ^ k in
      let b = 2 ^ (32 - k) in
      let whole = div-add-mod' x b in
      ap (λ t. t % 2 ^ 32) (bit_or-fields k x (x / b) high-lt)
      ∙ ap (λ t. (x * p + x / b) % t) (sym splits)
      ∙ ap (λ t. (t * p + x / b) % (p * b)) (sym whole)
      ∙ turned p b (x / b) (x % b) high-lt low-lt

  rotr-rotl : rotr k (rotl k x) ≡ x
  rotr-rotl =
      let p = 2 ^ k in
      let b = 2 ^ (32 - k) in
      let q = x / b in
      let r = x % b in
      let low : (r * p + q) / p ≡ r =
        mul-add-div_right (one-le-pow k 2 (omega arith)) r q
        ∙ ap (λ t. r + t) (div-eq_of_lt high-lt)
        ∙ omega arith in
      let back : (r * p + q) * b % 2 ^ 32 ≡ q * b =
        ap (λ t. (r * p + q) * b % t) (sym splits) ∙ turned_back p b q r high-lt low-lt in
      ap (rotr k) rotl-fields
      ∙ ap (λ t. bit_or t ((r * p + q) * b % 2 ^ 32) % 2 ^ 32) low
      ∙ ap (λ t. bit_or r t % 2 ^ 32) back
      ∙ ap (λ t. t % 2 ^ 32) (bit_or_comm r (q * b) ∙ bit_or-fields (32 - k) q r low-lt)
      ∙ ap (λ t. t % 2 ^ 32) (div-add-mod' x b)
      ∙ mod-eq_of_lt word

abbrev rol_cf : (k x : ℕ) → Bool
rol_cf k x = digit 0 (x / 2 ^ (32 - k))

abbrev ror_cf : (k x : ℕ) → Bool
ror_cf k x = digit (32 - k) (x * 2 ^ (32 - k) % 2 ^ 32)

guarded : (k : ℕ) → 0 < k → k < 32 → (ltb 31 (32 - k) || ltb 31 k) ≡ false
guarded k lo hi = ground arith

module _ (k : ℕ) (v : Var) (c : Cpu) (lo : 0 < k) (hi : k < 32) (word : c.var v < 2 ^ 32) where
  abbrev x : ℕ
  x = c.var v

  stored : (y : ℕ) → store 4 (in_var v) y c ≡ some (set_var v (y % 2 ^ 32) c)
  unfolding store
  stored y =
      let e : x - x % 2 ^ 32 + y % 2 ^ 32 ≡ y % 2 ^ 32 = omega arith in
      ap (λ (t : ℕ). some (set_var v t c)) e

  loaded : load 4 (in_var v) c ≡ some x
  unfolding load
  loaded = ap (λ (t : ℕ). some t) (mod-eq_of_lt word)

  rol_place-rotl :
      rol_place 4 32 k (in_var v) c ≡ some (put cf (rol_cf k x) (set_var v (rotl k x) c), 0)
  unfolding rol_place
  rol_place-rotl = rw (guarded k lo hi, loaded, stored (bit_or (x * 2 ^ k) (x / 2 ^ (32 - k)))) refl

  ror_place-rotr :
      ror_place 4 32 k (in_var v) c ≡ some (put cf (ror_cf k x) (set_var v (rotr k x) c), 0)
  unfolding ror_place
  ror_place-rotr =
      rw (guarded k lo hi, loaded, stored (bit_or (x / 2 ^ k) (x * 2 ^ (32 - k) % 2 ^ 32))) refl

raw_count-imm :
    (op : Operand) (k : ℕ) (c : Cpu)
    → op.kind ≡ op_imm
    → op.imm ≡ k
    → k < 32
    → raw_count op c ≡ some k
unfolding raw_count
raw_count-imm op k c kind imm hi = let e : op.imm % 2 ^ 8 ≡ k = omega arith in rw (kind, e) refl

rotate_with-register :
    (rotate : (w b count : ℕ) → Place → Cpu → Option (Cpu × ℕ)) (k : ℕ) (v : Var) (insn : Insn)
    (c : Cpu)
    → IsRegister dword v insn.op1
    → insn.op2.kind ≡ op_imm
    → insn.op2.imm ≡ k
    → k < 32
    → rotate_with 0 rotate insn c ≡ rotate 4 32 k (in_var v) (advance insn c)
unfolding rotate_with cmp_width
rotate_with-register rotate k v insn c dst kind imm hi =
    let same : k % 32 ≡ k = omega arith in
    simp (
      raw_count-imm insn.op2 k (advance insn c) kind imm hi,
      place_of-register insn.op1 v (advance insn c) dst.kind dst.variable,
      dst.size,
      same,
    )

-- A variable behind a write to `v` and to a flag.
target :
    (v : Var) (b : Bool) (y : ℕ) (c : Cpu)
    → same_var eflags v ≡ false
    → (put cf b (set_var v y c)).var v ≡ y
target v b y c ne = let self : same_var v v ≡ true = ground arith in ground arith

other :
    (v u : Var) (b : Bool) (y : ℕ) (insn : Insn) (c : Cpu)
    → same_var v u ≡ false
    → same_var eip u ≡ false
    → same_var eflags u ≡ false
    → (put cf b (set_var v y (advance insn c))).var u ≡ c.var u
unfolding advance
other v u b y insn c ne ni nf = ground arith

module _ (k : ℕ) (v : Var) (left right : Insn) (c : Cpu) (lo : 0 < k) (hi : k < 32)
    (word : c.var v < 2 ^ 32) (dst : IsRegister dword v left.op1) (kind : left.op2.kind ≡ op_imm)
    (imm : left.op2.imm ≡ k) (dst_right : IsRegister dword v right.op1)
    (kind_right : right.op2.kind ≡ op_imm) (imm_right : right.op2.imm ≡ k) where
  -- For a 32-bit register, other than EIP and EFLAGS, that holds a 32-bit number and an immediate
  -- count k between 1 and 31, ROL succeeds with the register's low 32 - k digits moved up by k and
  -- its high k digits below them, and ROR by the same count on the machine that it leaves succeeds
  -- and brings the register back; the other registers but EIP and EFLAGS and the memory are as
  -- they were.
  pub rol_i-ror_i :
      (d : Cpu) × (e : Cpu) × (rol_i left c ≡ some (d, 0))
      × (ror_i right d ≡ some (e, 0))
      × (d.var v ≡ c.var v % 2 ^ (32 - k) * 2 ^ k + c.var v / 2 ^ (32 - k))
      × (e.var v ≡ c.var v)
      × ((u : Var)
          → same_var v u ≡ false
          → same_var eip u ≡ false
          → same_var eflags u ≡ false
          → e.var u ≡ c.var u)
      × (e.mem ≡ c.mem)
  unfolding rol_i ror_i advance
  rol_i-ror_i =
      let c' = advance left c in
      let same : c'.var v ≡ c.var v = advance-var left c v dst.not_eip in
      let word : c'.var v < 2 ^ 32 = omega arith in
      let d = put cf (rol_cf k (c'.var v)) (set_var v (rotl k (c'.var v)) c') in
      let turned : d.var v ≡ rotl k (c'.var v) = target v _ _ c' dst.not_eflags in
      let d' = advance right d in
      let kept : d'.var v ≡ rotl k (c'.var v) = advance-var right d v dst.not_eip ∙ turned in
      let word' : d'.var v < 2 ^ 32 = omega arith in
      let e = put cf (ror_cf k (d'.var v)) (set_var v (rotr k (d'.var v)) d') in
      (
        d,
        e,
        rotate_with-register rol_place k v left c dst kind imm hi
            ∙ rol_place-rotl k v c' lo hi word,
        rotate_with-register ror_place k v right d dst_right kind_right imm_right hi
            ∙ ror_place-rotr k v d' lo hi word',
        turned ∙ ap (rotl k) same ∙ rotl-fields k (c.var v) hi (omega arith),
        target v _ _ d' dst.not_eflags ∙ ap (rotr k) kept ∙ rotr-rotl k (c'.var v) hi word ∙ same,
        λ u ne ni nf. other v u _ _ right d ne ni nf ∙ other v u _ _ left c ne ni nf,
        refl,
      )
