-- ===== src/Instr/SignedMul/Quotient.antt =====
-- What the division of signed numbers gives, and IDIV on EDX and EAX together.
use native.Mathlib.Nat.{div-add-mod', mod-lt}
use vm_i386_32bit.Base.{
  ℕ, zero, suc, ◌+◌, ◌*◌, ◌/◌, ◌%◌, ◌^◌, ◌≤◌, ◌<◌, ◌≡◌, ◌⊎◌, inl, inr, refl, arith, Bool,
  Bool-cases, true, false, not, same_bool, Option, none, some, ◌==◌,
}
use vm_i386_32bit.Base.Int.{ℤ, pos, negsuc, signed}
use vm_i386_32bit.Machine.{Cpu, eax, edx, set_var}
use vm_i386_32bit.Operand.{Insn, advance}
use vm_i386_32bit.Instr.Handler.{minus}
use vm_i386_32bit.Instr.MulDiv.{factor}
use vm_i386_32bit.Instr.SignedMul.{
  magnitude, is_negative, with_sign, quotient, remainder, wrap, in_range, idiv32, idiv_i,
}

-- The quotient `q` and the remainder `r` of `a` by `b`, rounded towards 0.
pub record Divides (a b q r : ℤ) : Type 0 where
  pub whole : magnitude q * magnitude b + magnitude r ≡ magnitude a
  pub below : magnitude r < magnitude b
  pub sign : (q ≡ pos 0) ⊎ (is_negative q ≡ not (same_bool (is_negative a) (is_negative b)))
  pub follows : (r ≡ pos 0) ⊎ (is_negative r ≡ is_negative a)

magnitude-with_sign : (s : Bool) (n : ℕ) → magnitude (with_sign s n) ≡ n
magnitude-with_sign true zero = refl
magnitude-with_sign true (suc n) = ground arith
magnitude-with_sign false zero = refl
magnitude-with_sign false (suc n) = ground arith

sign-with_sign : (s : Bool) (n : ℕ) → (with_sign s n ≡ pos 0) ⊎ (is_negative (with_sign s n) ≡ s)
sign-with_sign s zero = inl refl
sign-with_sign true (suc n) = inr (ground arith)
sign-with_sign false (suc n) = inr (ground arith)

divides : (a b : ℤ) → 0 < magnitude b → Divides a b (quotient a b) (remainder a b)
unfolding quotient remainder
divides a b positive =
    let n = magnitude a in
    let m = magnitude b in
    let s = not (same_bool (is_negative a) (is_negative b)) in
    record {
      whole =
          rw (magnitude-with_sign s (n / m), magnitude-with_sign (is_negative a) (n % m))
            (div-add-mod' n m);
      below = rw (magnitude-with_sign (is_negative a) (n % m)) (mod-lt n positive);
      sign = sign-with_sign s (n / m);
      follows = sign-with_sign (is_negative a) (n % m);
    }

signed-wrap : (z : ℤ) → in_range 32 z ≡ true → signed 32 (wrap 32 z) ≡ z
signed-wrap (pos n) h = ground arith
signed-wrap (negsuc n) h = ground arith

magnitude-signed :
    (x : ℕ)
    → 0 < x
    → x < 2 ^ 32
    → (0 < magnitude (signed 32 x)) × (magnitude (signed 32 x) ≤ 2 ^ 31)
magnitude-signed x p h = ground arith

in_range-below : (z : ℤ) → magnitude z < 2 ^ 31 → in_range 32 z ≡ true
in_range-below (pos n) h = ground arith
in_range-below (negsuc n) h = ground arith

-- EDX and EAX together.
abbrev pub dividend : Cpu → ℤ
dividend c = signed 64 (c.var edx * 2 ^ 32 + c.var eax)

-- What a division by `val` leaves where `run` starts at `c`.
pub record Quotients (q r : ℤ) (c : Cpu) (run : Option (Cpu × ℕ)) : Type 0 where
  pub after : Cpu
  pub runs : run ≡ some (after, 0)
  pub quotient_in_eax : signed 32 (after.var eax) ≡ q
  pub remainder_in_edx : signed 32 (after.var edx) ≡ r
  pub memory : after.mem ≡ c.mem

-- The three outcomes: a quotient of 32 bits, the code -1000, and what C leaves undefined.
abbrev pub Outcomes : (q r : ℤ) → (c : Cpu) → Option (Cpu × ℕ) → Type 0
Outcomes q r c run =
    Quotients q r c run
    ⊎ ((in_range 32 q ≡ false) × (run ≡ some (c, minus 1000)))
    ⊎ ((in_range 64 q ≡ false) × (run ≡ none))

idiv32-Outcomes :
    (val : ℕ) (c : Cpu)
    → 0 < val
    → val < 2 ^ 32
    → Outcomes
        (quotient (dividend c) (signed 32 val))
        (remainder (dividend c) (signed 32 val))
        c
        (idiv32 val c)
unfolding idiv32
idiv32-Outcomes val c positive small =
    let q = quotient (dividend c) (signed 32 val) in
    let r = remainder (dividend c) (signed 32 val) in
    let (nonzero, bound) = magnitude-signed val positive small in
    let below = (divides (dividend c) (signed 32 val) nonzero).below in
    elim (Bool-cases (in_range 64 q)) [
      | inr wide ↦ inr (inr (wide, rw wide refl))
      | inl long ↦ elim (Bool-cases (in_range 32 q)) [
        | inr wide ↦ inr (inl (wide, rw (long, wide) refl))
        | inl fits ↦ inl (record {
          after = set_var edx (wrap 32 r) (set_var eax (wrap 32 q) c);
          runs = rw (long, fits) refl;
          quotient_in_eax = signed-wrap q fits;
          remainder_in_edx = signed-wrap r (in_range-below r (omega arith));
          memory = refl;
        })
      ]
    ]

module _ (insn : Insn) (c : Cpu) (val : ℕ) (size : insn.op1.size ≡ 4)
    (value : factor 4 insn.op2 (advance insn c) ≡ some val) (positive : 0 < val)
    (small : val < 2 ^ 32) where
  idiv_i-idiv32 : idiv_i insn c ≡ idiv32 val (advance insn c)
  unfolding idiv_i
  idiv_i-idiv32 = let e : val == 0 ≡ false = ground arith in simp (size, value, e)

  -- For a first operand of four bytes and a second one with a value that is positive and below two
  -- to the 32, let q and r be the quotient, rounded towards 0, and the remainder of EDX and EAX
  -- together, as a signed integer of 64 bits, by that value as one of 32 bits: IDIV leaves q in
  -- EAX and r in EDX, as signed integers of 32 bits, with the memory as it was; or q does not fit
  -- 32 bits and it returns minus 1000 with nothing but EIP changed; or q does not fit 64 bits and
  -- the run is undefined.
  pub idiv_i-Divides :
      (q : ℤ) × (r : ℤ) × Divides (dividend c) (signed 32 val) q r
      × Outcomes q r (advance insn c) (idiv_i insn c)
  unfolding advance
  idiv_i-Divides =
      let (nonzero, bound) = magnitude-signed val positive small in
      (
        quotient (dividend c) (signed 32 val),
        remainder (dividend c) (signed 32 val),
        divides (dividend c) (signed 32 val) nonzero,
        rw idiv_i-idiv32 (idiv32-Outcomes val (advance insn c) positive small),
      )
