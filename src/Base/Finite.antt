-- ===== src/Base/Finite.antt =====
-- Tests that hold of all numbers below a bound, found by running them.
use Prim.Native.Nat.{ℕ, zero, suc, ◌<◌}
use mathlib.Core.Bool.{Bool, true, false, ◌&&◌}
use mathlib.Core.Path.{◌≡◌, refl}
use native.Mathlib.Decide.{dec_lt}
use native.Mathlib.Omega.{arith}

abbrev pub all_below : (test : ℕ → Bool) → (n : ℕ) → Bool
all_below test zero = true
all_below test (suc n) = all_below test n && test n

pub both : (a b : Bool) → (a && b) ≡ true → (a ≡ true) × (b ≡ true)
both true b e = (refl, e)
both false b e = absurd cc

pub all_below-at : (test : ℕ → Bool) (n i : ℕ) → all_below test n ≡ true → i < n → test i ≡ true
all_below-at test zero i e h = absurd (omega arith)
all_below-at test (suc n) i e h =
    let (rest, here) = both (all_below test n) (test n) e in
    elim (dec_lt i n) [
      | yes p ↦ all_below-at test n i rest p
      | no p ↦ let last : i ≡ n = omega arith in rw last here
    ]
