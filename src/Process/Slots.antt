-- ===== src/Process/Slots.antt =====
-- What the list of breakpoints of src/proc.c finds after a breakpoint was added.
use native.Mathlib.Decide.{dec_lt}
use vm_i386_32bit.Base.{ℕ, zero, suc, ◌+◌, ◌%◌, ◌≤◌, ◌<◌, ◌≡◌, refl, ◌&&◌, ◌||◌, arith, ltb, ◌==◌}
use vm_i386_32bit.Process.{
  Breakpoints, contains_from, contains, add_breakpoint, max_brk, write_slot,
}

-- The last slot is looked at last.
contains_from-last :
    (arr : ℕ → ℕ) (n i val : ℕ)
    → contains_from arr (suc n) i val ≡ (contains_from arr n i val || (arr (i + n) == val))
unfolding contains_from
contains_from-last arr zero i val = let e : i + 0 ≡ i = omega arith in rw e (ground arith)
contains_from-last arr (suc n) i val =
    let e : i + suc n ≡ i + 1 + n = omega arith in
    rw (e, contains_from-last arr n (i + 1) val) (ground arith)

-- A slot that does not hold the number changes nothing.
contains_from-same :
    (arr brr : ℕ → ℕ) (n i val : ℕ)
    → ((k : ℕ) → i ≤ k → k < i + n → arr k ≡ brr k)
    → contains_from arr n i val ≡ contains_from brr n i val
unfolding contains_from
contains_from-same arr brr zero i val same = refl
contains_from-same arr brr (suc n) i val same = ground (
  arith,
  same i (omega arith) (omega arith),
  contains_from-same arr brr n (i + 1) val (λ k lo hi. same k (omega arith) (omega arith)),
)

module _ (dir val : ℕ) (b : Breakpoints) (room : b.brk_ctr < max_brk) where
  -- Where the counter of breakpoints is below MAX_BRK, a breakpoint is found after another one was
  -- added exactly if the counter does not reach MAX_BRK by it and the breakpoint was found before
  -- or is the one that was added; where the counter reaches MAX_BRK none is found.
  pub add_breakpoint-contains :
      contains (add_breakpoint dir b).brkpts (add_breakpoint dir b).brk_ctr val
      ≡ (ltb (b.brk_ctr + 1) max_brk && (contains b.brkpts b.brk_ctr val || (dir == val)))
  unfolding contains contains_from add_breakpoint
  add_breakpoint-contains = elim (dec_lt (b.brk_ctr + 1) max_brk) [
    | yes p ↦
        let e : (b.brk_ctr + 1) % max_brk ≡ suc b.brk_ctr = omega arith in
        rw
          (
            e,
            contains_from-last (write_slot b.brk_ctr dir b.brkpts) b.brk_ctr 0 val,
            contains_from-same (write_slot b.brk_ctr dir b.brkpts) b.brkpts b.brk_ctr 0 val
                (λ k lo hi. ground arith),
          )
          (ground arith)
    | no p ↦ let e : (b.brk_ctr + 1) % max_brk ≡ 0 = omega arith in rw e (ground arith)
  ]
