-- ===== src/Instr/Arith/Flags.antt =====
-- The flags that the arithmetic handlers leave, in terms of the numbers added or subtracted.
use vm_i386_32bit.Base.{
  ℕ, ◌+◌, ◌-◌, ◌%◌, ◌^◌, ◌≤◌, ◌<◌, ◌≡◌, ◌↔◌, refl, arith, Bool, true, false, ltb, ◌==◌, ==_iff,
  ltb_iff,
}
use vm_i386_32bit.Base.Int.{signed, Fits, ◌+ℤ◌, ◌-ℤ◌}
use vm_i386_32bit.Flags.{Flag, cf, pf, af, zf, sf, tf, intf, df, of, sign, overflow, parity, adjust}
use vm_i386_32bit.Flags.Laws.{test-put}
use vm_i386_32bit.Flags.Meaning.{
  Width, bits, ones, sum_of, difference_of, overflow-add, overflow-sub-Fits, overflow-sub_wide,
  adjust-add, adjust-sub, sign-bit, sign-ge, parity-even, byte, word, dword,
}
use vm_i386_32bit.Machine.{Cpu, Var, flag, eflags, same_var}
use vm_i386_32bit.Instr.Arith.{put_flags}

-- What each flag is after `put_flags`.
abbrev flag_after : Flag → (carry : Bool) → (val1 val2 res base : ℕ) → Cpu → Bool
flag_after cf carry val1 val2 res base c = carry
flag_after of carry val1 val2 res base c = overflow val1 val2 res base
flag_after sf carry val1 val2 res base c = sign res base
flag_after zf carry val1 val2 res base c = res == 0
flag_after af carry val1 val2 res base c = adjust val1 val2 res
flag_after pf carry val1 val2 res base c = parity res
flag_after f carry val1 val2 res base c = flag f c

pub flag-put_flags :
    (f : Flag) (carry : Bool) (val1 val2 res base : ℕ) (c : Cpu)
    → flag f (put_flags carry val1 val2 res base c) ≡ flag_after f carry val1 val2 res base c
unfolding put_flags
flag-put_flags cf k a b r n c = simp test-put
flag-put_flags of k a b r n c = simp test-put
flag-put_flags sf k a b r n c = simp test-put
flag-put_flags zf k a b r n c = simp test-put
flag-put_flags af k a b r n c = simp test-put
flag-put_flags pf k a b r n c = simp test-put
flag-put_flags tf k a b r n c = simp test-put
flag-put_flags intf k a b r n c = simp test-put
flag-put_flags df k a b r n c = simp test-put

-- No other register is written, and no memory.
pub var-put_flags :
    (v : Var) (carry : Bool) (val1 val2 res base : ℕ) (c : Cpu)
    → same_var eflags v ≡ false
    → (put_flags carry val1 val2 res base c).var v ≡ c.var v
unfolding put_flags
var-put_flags v k a b r n c ne = ground arith

pub mem-put_flags :
    (carry : Bool) (val1 val2 res base : ℕ) (c : Cpu)
    → (put_flags carry val1 val2 res base c).mem ≡ c.mem
unfolding put_flags
mem-put_flags k a b r n c = refl

-- The flags of the sum of `a` and `b` on `w` bits.
pub record AddFlags (w : Width) (a b : ℕ) (c : Cpu) : Type 0 where
  pub carry : (flag cf c ≡ true) ↔ (2 ^ bits w ≤ a + b)
  pub over : (flag of c ≡ false) ↔ Fits (bits w) (signed (bits w) a +ℤ signed (bits w) b)
  pub negative : (flag sf c ≡ true) ↔ (2 ^ (bits w - 1) ≤ sum_of w a b)
  pub zeroed : (flag zf c ≡ true) ↔ (sum_of w a b ≡ 0)
  pub adjusted : (flag af c ≡ true) ↔ (16 ≤ a % 16 + b % 16)
  pub even : (flag pf c ≡ true) ↔ (ones 8 (sum_of w a b) % 2 ≡ 0)

-- The flags of the difference as the handlers leave them: of the overflow flag only that where it
-- is set the signed difference fits.
pub record SubFlags (w : Width) (a b : ℕ) (c : Cpu) : Type 0 where
  pub borrow : (flag cf c ≡ true) ↔ (a < b)
  pub over : flag of c ≡ true → Fits (bits w) (signed (bits w) a -ℤ signed (bits w) b)
  pub negative : (flag sf c ≡ true) ↔ (2 ^ (bits w - 1) ≤ difference_of w a b)
  pub zeroed : (flag zf c ≡ true) ↔ (a ≡ b)
  pub adjusted : (flag af c ≡ true) ↔ (a % 16 < b % 16)
  pub even : (flag pf c ≡ true) ↔ (ones 8 (difference_of w a b) % 2 ≡ 0)

-- The flags of CMP, which takes the sign of the difference on 32 bits at every width.
pub record CmpFlags (w : Width) (a b : ℕ) (c : Cpu) : Type 0 where
  pub borrow : (flag cf c ≡ true) ↔ (a < b)
  pub over : flag of c ≡ true → Fits (bits w) (signed (bits w) a -ℤ signed (bits w) b)
  pub negative : (flag sf c ≡ true) ↔ (2 ^ (bits w - 1) ≤ difference_of dword a b)
  pub zeroed : (flag zf c ≡ true) ↔ (a ≡ b)
  pub adjusted : (flag af c ≡ true) ↔ (a % 16 < b % 16)
  pub even : (flag pf c ≡ true) ↔ (ones 8 (difference_of dword a b) % 2 ≡ 0)

sum_carry :
    (w : Width) (a b : ℕ)
    → a < 2 ^ bits w
    → b < 2 ^ bits w
    → (ltb (sum_of w a b) a ≡ true) ↔ (2 ^ bits w ≤ a + b)
sum_carry byte a b p q = ground arith
sum_carry word a b p q = ground arith
sum_carry dword a b p q = ground arith

sum_of-lt : (w : Width) (a b : ℕ) → sum_of w a b < 2 ^ bits w
sum_of-lt byte a b = omega arith
sum_of-lt word a b = omega arith
sum_of-lt dword a b = omega arith

difference_of-lt : (w : Width) (a b : ℕ) → difference_of w a b < 2 ^ bits w
difference_of-lt byte a b = omega arith
difference_of-lt word a b = omega arith
difference_of-lt dword a b = omega arith

difference_zero :
    (w : Width) (a b : ℕ)
    → a < 2 ^ bits w
    → b < 2 ^ bits w
    → ((difference_of w a b == 0) ≡ true) ↔ (a ≡ b)
difference_zero byte a b p q = ground arith
difference_zero word a b p q = ground arith
difference_zero dword a b p q = ground arith

module _ (w : Width) (a b : ℕ) (c : Cpu) (p : a < 2 ^ bits w) (q : b < 2 ^ bits w) where
  pub put_flags-AddFlags :
      AddFlags w a b (put_flags (ltb (sum_of w a b) a) a b (sum_of w a b) (bits w) c)
  put_flags-AddFlags = record {
    carry = rw flag-put_flags (sum_carry w a b p q);
    over = rw flag-put_flags (overflow-add a b w p q);
    negative = rw flag-put_flags (sign-bit w (sum_of w a b) (sum_of-lt w a b));
    zeroed = rw flag-put_flags (==_iff (sum_of w a b) 0);
    adjusted = rw flag-put_flags (adjust-add a b w);
    even = rw flag-put_flags (parity-even (sum_of w a b));
  }

  pub put_flags-SubFlags : SubFlags w a b (put_flags (ltb a b) a b (difference_of w a b) (bits w) c)
  put_flags-SubFlags = record {
    borrow = rw flag-put_flags (ltb_iff a b);
    over = rw flag-put_flags (overflow-sub-Fits a b w p q);
    negative = rw flag-put_flags (sign-bit w (difference_of w a b) (difference_of-lt w a b));
    zeroed = rw flag-put_flags (difference_zero w a b p q);
    adjusted = rw flag-put_flags (adjust-sub a b w q);
    even = rw flag-put_flags (parity-even (difference_of w a b));
  }

  pub put_flags-CmpFlags :
      CmpFlags w a b (put_flags (ltb a b) a b (difference_of dword a b) (bits w) c)
  put_flags-CmpFlags = record {
    borrow = rw flag-put_flags (ltb_iff a b);
    over = rw flag-put_flags (overflow-sub_wide a b w p q);
    negative = rw flag-put_flags (sign-ge w (difference_of dword a b));
    zeroed = rw flag-put_flags (difference_zero dword a b (wide w a p) (wide w b q));
    adjusted = rw flag-put_flags (adjust-sub a b dword (wide w b q));
    even = rw flag-put_flags (parity-even (difference_of dword a b));
  }
    where
      wide : (w : Width) (x : ℕ) → x < 2 ^ bits w → x < 2 ^ bits dword
      wide byte x h = omega arith
      wide word x h = omega arith
      wide dword x h = h
