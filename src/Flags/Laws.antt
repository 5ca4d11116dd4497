-- ===== src/Flags/Laws.antt =====
-- EFLAGS as nine independent switches.
use vm_i386_32bit.Base.{
  ℕ, ◌-◌, ◌^◌, ◌<◌, ◌≡◌, Bool, true, false, not, arith, ◌==◌, if◌then◌else◌, bit, bit-bit_and,
  bit-bit_or, bit-bit_xor, bit_and-pow, bit_or-lt, bit_and-le,
}
use vm_i386_32bit.Flags.{
  Flag, cf, pf, af, zf, sf, tf, intf, df, of, mask, set_flag, clear_flag, complement_flag,
  test_flag, put_flag,
}

-- The position of a flag's bit.
abbrev pub pos : Flag → ℕ
pos cf = 0
pos pf = 2
pos af = 4
pos zf = 6
pos sf = 7
pos tf = 8
pos intf = 9
pos df = 10
pos of = 11

abbrev pub same_flag : Flag → Flag → Bool
same_flag f g = pos f == pos g

test_flag-bit : (f : Flag) (e : ℕ) → test_flag f e ≡ (bit (pos f) e == 1)
unfolding test_flag
test_flag-bit cf e = ground (arith, bit_and-pow 0 e)
test_flag-bit pf e = ground (arith, bit_and-pow 2 e)
test_flag-bit af e = ground (arith, bit_and-pow 4 e)
test_flag-bit zf e = ground (arith, bit_and-pow 6 e)
test_flag-bit sf e = ground (arith, bit_and-pow 7 e)
test_flag-bit tf e = ground (arith, bit_and-pow 8 e)
test_flag-bit intf e = ground (arith, bit_and-pow 9 e)
test_flag-bit df e = ground (arith, bit_and-pow 10 e)
test_flag-bit of e = ground (arith, bit_and-pow 11 e)

bit-mask : (f g : Flag) → bit (pos f) (mask g) ≡ (if same_flag f g then 1 else 0)
bit-mask f g = ground arith

bit-unmask : (f g : Flag) → bit (pos f) (2 ^ 32 - 1 - mask g) ≡ (if same_flag f g then 0 else 1)
bit-unmask f g = ground arith

-- Setting, clearing or complementing a flag changes that flag and no other.
pub test-set :
    (f g : Flag) (e : ℕ)
    → test_flag f (set_flag g e) ≡ (if same_flag f g then true else test_flag f e)
unfolding set_flag
test-set f g e = ground (
  arith,
  test_flag-bit f (set_flag g e),
  test_flag-bit f e,
  bit-bit_or (pos f) e (mask g),
  bit-mask f g,
)

pub test-clear :
    (f g : Flag) (e : ℕ)
    → test_flag f (clear_flag g e) ≡ (if same_flag f g then false else test_flag f e)
unfolding clear_flag
test-clear f g e = ground (
  arith,
  test_flag-bit f (clear_flag g e),
  test_flag-bit f e,
  bit-bit_and (pos f) e (2 ^ 32 - 1 - mask g),
  bit-unmask f g,
)

pub test-complement :
    (f g : Flag) (e : ℕ)
    → test_flag f (complement_flag g e)
      ≡ (if same_flag f g then not (test_flag f e) else test_flag f e)
unfolding complement_flag
test-complement f g e = ground (
  arith,
  test_flag-bit f (complement_flag g e),
  test_flag-bit f e,
  bit-bit_xor (pos f) e (mask g),
  bit-mask f g,
)

pub test-put :
    (f g : Flag) (b : Bool) (e : ℕ)
    → test_flag f (put_flag g b e) ≡ (if same_flag f g then b else test_flag f e)
unfolding put_flag
test-put f g true e = test-set f g e
test-put f g false e = test-clear f g e

-- The register stays a 32-bit number.
pub put_flag-lt : (f : Flag) (b : Bool) (e : ℕ) → e < 2 ^ 32 → put_flag f b e < 2 ^ 32
unfolding put_flag set_flag clear_flag
put_flag-lt f true e h = bit_or-lt 32 e (mask f) h (ground arith)
put_flag-lt f false e h = omega (arith, bit_and-le e (2 ^ 32 - 1 - mask f))

pub ruleset flag_laws = (test-set, test-clear, test-complement, test-put)
