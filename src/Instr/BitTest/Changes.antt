-- ===== src/Instr/BitTest/Changes.antt =====
-- What BTS, BTR and BTC do to the digits of a 32-bit register.
use native.Mathlib.Nat.{le-div_iff_mul-le, one-le-pow}
use vm_i386_32bit.Base.{
  ℕ, ◌+◌, ◌-◌, ◌%◌, ◌^◌, ◌≤◌, ◌<◌, ◌≡◌, ◌≢◌, ◌↔◌, refl, arith, true, false, Option, some, bit, ap,
  subst, ◌∙◌,
}
use vm_i386_32bit.Flags.{cf, zero_test}
use vm_i386_32bit.Flags.Laws.{test-put}
use vm_i386_32bit.Flags.Meaning.{dword}
use vm_i386_32bit.Machine.{Cpu, Var, in_var, load, store, flag, set_var, same_var, eflags, u32}
use vm_i386_32bit.Machine.Registers.{regs_size}
use vm_i386_32bit.Operand.{Insn, Operand, op_imm, advance, reg_place}
use vm_i386_32bit.Instr.Arith.Registers.{IsRegister, advance-var}
use vm_i386_32bit.Instr.Arith.Compare.{load-register}
use vm_i386_32bit.Instr.Move.Registers.{store-register}
use vm_i386_32bit.Instr.BitTest.{
  pow_i, bit_width, bit_source, bit_number, change_bit, change_with, put_bit, bts_i, btr_i, btc_i,
}
use vm_i386_32bit.Instr.BitTest.Digits.{Digit, bts-Digit, btr-Digit, btc-Digit}

-- What an instruction that changes the digit `n` of `v` leaves.
pub record Turns (g : ℕ → ℕ) (n : ℕ) (v : Var) (c : Cpu) (run : Option (Cpu × ℕ)) : Type 0 where
  pub after : Cpu
  pub runs : run ≡ some (after, 0)
  pub here : bit n (after.var v) ≡ g (bit n (c.var v))
  pub elsewhere : (j : ℕ) → j < 32 → j ≢ n → bit j (after.var v) ≡ bit j (c.var v)
  pub carry : (flag cf after ≡ true) ↔ (2 ^ n ≤ c.var v)
  pub memory : after.mem ≡ c.mem

put_bit-carry : (x n : ℕ) (c : Cpu) → (flag cf (put_bit x n c) ≡ true) ↔ (2 ^ n ≤ x)
unfolding put_bit zero_test
put_bit-carry x n c =
    let least = le-div_iff_mul-le {k = 2 ^ n} {x = 1} {y = x} (one-le-pow n 2 (omega arith)) in
    simp test-put (ground (arith, least))

put_bit-var :
    (v : Var) (x n : ℕ) (c : Cpu) → same_var eflags v ≡ false → (put_bit x n c).var v ≡ c.var v
unfolding put_bit
put_bit-var v x n c ne = ground (arith, ne)

flag_cf-set_var :
    (v : Var) (y : ℕ) (c : Cpu) → same_var eflags v ≡ false → flag cf (set_var v y c) ≡ flag cf c
flag_cf-set_var v y c ne = ground (arith, ne)

var-set_var : (v : Var) (y : ℕ) (c : Cpu) → (set_var v y c).var v ≡ y
var-set_var v y c = let self : same_var v v ≡ true = ground arith in ground arith

module _ (change : (w x m : ℕ) → ℕ) (g : ℕ → ℕ) (n : ℕ) (v : Var) (c : Cpu)
    (word : c.var v < 2 ^ 32) (ne : same_var eflags v ≡ false)
    (law : Digit g n (c.var v) (change 4 (c.var v) (pow_i 2 n))) where
  abbrev y : ℕ
  y = change 4 (c.var v) (pow_i 2 n)

  loaded : (d : Cpu) → d.var v ≡ c.var v → load 4 (in_var v) d ≡ some (c.var v)
  loaded d e =
      load-register dword v d ∙ ap (λ (t : ℕ). some t) (ap (λ (t : ℕ). t % 2 ^ 32) e ∙ omega arith)

  stored : (d : Cpu) → d.var v ≡ c.var v → store 4 (in_var v) y d ≡ some (set_var v y d)
  stored d e =
      let whole : d.var v - d.var v % 2 ^ 32 + y % 2 ^ 32 ≡ y = omega (arith, law.small) in
      store-register dword v y d ∙ ap (λ (t : ℕ). some (set_var v t d)) whole

  change_bit-Turns : Turns g n v c (change_bit 4 n change (in_var v) c)
  unfolding change_bit put_bit
  change_bit-Turns =
      let d = put_bit (c.var v) n c in
      let same = put_bit-var v (c.var v) n c ne in
      record {
        after = set_var v y d;
        runs = rw (loaded c refl, loaded d same, stored d same) refl;
        here = ap (bit n) (var-set_var v y d) ∙ law.here;
        elsewhere = λ j hj ne. ap (bit j) (var-set_var v y d) ∙ law.elsewhere j hj ne;
        carry = rw (flag_cf-set_var v y d ne) (put_bit-carry (c.var v) n c);
        memory = refl;
      }

module _ (n : ℕ) (v : Var) (insn : Insn) (dst : IsRegister dword v insn.op1)
    (kind : insn.op2.kind ≡ op_imm) (imm : insn.op2.imm % 32 ≡ n) where
  source : (c : Cpu) → bit_source insn.op2 c ≡ some (u32 insn.op2.imm, 8)
  unfolding bit_source
  source c = rw kind refl

  number : bit_number (u32 insn.op2.imm) (regs_size insn.op1.reg) ≡ some n
  unfolding bit_number
  number = rw (dst.width) (ap (λ (t : ℕ). some t) (omega (arith, imm)))

  place : reg_place insn.op1 ≡ some (in_var v)
  unfolding reg_place
  place = rw dst.variable refl

  wide : bit_width insn.op1 ≡ 4
  wide = rw dst.width refl

  change_with-bit :
      (change : (w x m : ℕ) → ℕ) (memory : Operand → (val2 : ℕ) → Cpu → Option (Cpu × ℕ)) (c : Cpu)
      → change_with change memory insn c ≡ change_bit 4 n change (in_var v) (advance insn c)
  unfolding change_with
  change_with-bit change memory c = simp (source (advance insn c), dst.kind, place, number, wide)

  n-lt : n < 32
  n-lt = omega arith

  -- The machine behind EIP's advance holds the same register.
  Turns-advanced :
      {g : ℕ → ℕ} {run : Option (Cpu × ℕ)} (c : Cpu)
      → Turns g n v (advance insn c) run
      → Turns g n v c run
  unfolding advance
  Turns-advanced {g} c t =
      let same = advance-var insn c v dst.not_eip in
      record {
        after = t.after;
        runs = t.runs;
        here = t.here ∙ ap (λ x. g (bit n x)) same;
        elsewhere = λ j hj ne. t.elsewhere j hj ne ∙ ap (bit j) same;
        carry = subst (λ x. (flag cf t.after ≡ true) ↔ (2 ^ n ≤ x)) same t.carry;
        memory = t.memory;
      }

  module _ (c : Cpu) (word : c.var v < 2 ^ 32) where
    -- For a 32-bit register, other than EIP and EFLAGS, that holds a 32-bit number and an
    -- immediate whose remainder by 32 is n, BTS, BTR and BTC succeed, set, clear and complement
    -- the digit n of the register, and leave its 31 other digits and the memory; CF is set exactly
    -- if the register was at least two to the n.
    pub bits-Turn :
        Turns (λ b. 1) n v c (bts_i insn c)
        × Turns (λ b. 0) n v c (btr_i insn c)
        × Turns (λ b. 1 - b) n v c (btc_i insn c)
    unfolding bts_i btr_i btc_i
    bits-Turn =
        let d = advance insn c in
        let small : d.var v < 2 ^ 32 = rw (advance-var insn c v dst.not_eip) word in
        (
          Turns-advanced c (
              rw (change_with-bit _ _ c) (
                change_bit-Turns _ _ n v d small dst.not_eflags
                  (bts-Digit n (d.var v) n-lt small))),
          Turns-advanced c (
              rw (change_with-bit _ _ c) (
                change_bit-Turns _ _ n v d small dst.not_eflags
                  (btr-Digit n (d.var v) n-lt small))),
          Turns-advanced c (
              rw (change_with-bit _ _ c) (
                change_bit-Turns _ _ n v d small dst.not_eflags
                  (btc-Digit n (d.var v) n-lt small))),
        )
