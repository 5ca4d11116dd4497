-- ===== src/Instr/Stack/Restore.antt =====
-- POPAD after PUSHAD.
use mathlib.Core.List.{List, [], ◌∷◌}
use vm_i386_32bit.Base.{
  ℕ, ◌+◌, ◌-◌, ◌*◌, ◌≤◌, ◌<◌, ◌≡◌, refl, subst, ◌∙◌, arith, false, some, length,
}
use vm_i386_32bit.Machine.{
  Cpu, Var, set_var, same_var, u32, mem_size, eax, ebx, ecx, edx, esp, ebp, esi, edi,
}
use vm_i386_32bit.Machine.Memory.{peek, peek-same}
use vm_i386_32bit.Machine.State.{IsBytes, IsCpu}
use vm_i386_32bit.Operand.{Insn, advance}
use vm_i386_32bit.Instr.Stack.{pushad_i, popad_i, pop32}
use vm_i386_32bit.Instr.Stack.Steps.{pop32-popped}
use vm_i386_32bit.Instr.Stack.Frames.{Stacked, p8, saved, pushad_i-pushed, p8-esp, p8-Stacked}

-- The machine after the word `x` was popped into `v`.
abbrev taken : Var → ℕ → Cpu → Cpu
taken v x c = set_var esp (c.var esp + 4) (set_var v x c)

pop32-taken :
    (v : Var) (x : ℕ) (c : Cpu)
    → IsBytes c.mem
    → c.var esp + 4 ≤ mem_size
    → same_var v esp ≡ false
    → peek 4 (c.var esp) c.mem ≡ x
    → pop32 v c ≡ some (taken v x c)
pop32-taken v x c bytes hi ne top = pop32-popped v c bytes hi ∙ rw (top, ne, up (c.var esp) hi)
  where
    up : (a : ℕ) → a + 4 ≤ mem_size → u32 (a + 4) ≡ a + 4
    up a h = omega arith

module _ (insn : Insn) (c : Cpu) (bytes : IsBytes c.mem) (hi : c.var esp + 32 ≤ mem_size)
    (x1 x2 x3 x4 x5 x6 x7 x8 : ℕ)
    (s : Stacked (c.var esp) (x1 ∷ x2 ∷ x3 ∷ x4 ∷ x5 ∷ x6 ∷ x7 ∷ x8 ∷ []) c.mem) where
  abbrev q1 : Cpu
  q1 = taken edi x1 (advance insn c)

  abbrev q2 : Cpu
  q2 = taken esi x2 q1

  abbrev q3 : Cpu
  q3 = taken ebp x3 q2

  abbrev q4 : Cpu
  q4 = set_var esp (q3.var esp + 4) q3

  abbrev q5 : Cpu
  q5 = taken ebx x5 q4

  abbrev q6 : Cpu
  q6 = taken edx x6 q5

  abbrev q7 : Cpu
  q7 = taken ecx x7 q6

  abbrev q8 : Cpu
  q8 = taken eax x8 q7

  popad_i-taken : popad_i insn c ≡ some (q8, 0)
  unfolding popad_i advance
  popad_i-taken = rw (
    pop32-taken edi x1 (advance insn c) bytes (omega arith) refl s.0,
    pop32-taken esi x2 q1 bytes (omega arith) refl s.1.0,
    pop32-taken ebp x3 q2 bytes (omega arith) refl s.1.1.0,
    let e : u32 (c.var esp + 4 + 4 + 4 + 4) ≡ c.var esp + 4 + 4 + 4 + 4 = omega arith in e,
    pop32-taken ebx x5 q4 bytes (omega arith) refl s.1.1.1.1.0,
    pop32-taken edx x6 q5 bytes (omega arith) refl s.1.1.1.1.1.0,
    pop32-taken ecx x7 q6 bytes (omega arith) refl s.1.1.1.1.1.1.0,
    pop32-taken eax x8 q7 bytes (omega arith) refl s.1.1.1.1.1.1.1.0,
  )

-- The words of a stack depend on their own bytes alone.
Stacked-same :
    (a b : ℕ) (xs : List ℕ) (m n : ℕ → ℕ)
    → a + 4 * length xs ≤ b
    → ((i : ℕ) → a ≤ i → i < b → m i ≡ n i)
    → Stacked a xs n
    → Stacked a xs m
Stacked-same a b [] m n h same s = tt
Stacked-same a b (x ∷ xs) m n h same s = (
  peek-same 4 a m n (λ i p q. same i p (omega arith)) ∙ s.0,
  Stacked-same (a + 4) b xs m n (omega arith) (λ i p q. same i (omega arith) q) s.1,
)

-- The eight registers of POPAD in `d` are those of `c`.
pub record Restored (c d : Cpu) : Type 0 where
  pub in_eax : d.var eax ≡ c.var eax
  pub in_ecx : d.var ecx ≡ c.var ecx
  pub in_edx : d.var edx ≡ c.var edx
  pub in_ebx : d.var ebx ≡ c.var ebx
  pub in_esp : d.var esp ≡ c.var esp
  pub in_ebp : d.var ebp ≡ c.var ebp
  pub in_esi : d.var esi ≡ c.var esi
  pub in_edi : d.var edi ≡ c.var edi

module _ (insn insn' : Insn) (c m : Cpu) (ok : IsCpu c) (lo : 32 ≤ c.var esp)
    (hi : c.var esp ≤ mem_size) (bytes : IsBytes m.mem) (level : m.var esp ≡ c.var esp - 32)
    (kept : (a : ℕ) → c.var esp - 32 ≤ a → a < c.var esp → m.mem a ≡ (p8 insn c).mem a) where
  still : Stacked (m.var esp) (saved insn c) m.mem
  still = rw level (
      Stacked-same (c.var esp - 32) (c.var esp) (saved insn c) m.mem (p8 insn c).mem (omega arith)
        kept
        (subst (λ a. Stacked a (saved insn c) (p8 insn c).mem) (p8-esp insn c ok lo hi)
          (p8-Stacked insn c ok lo hi)))

  room : m.var esp + 32 ≤ mem_size
  room = omega arith

  -- The machine after the POPAD.
  abbrev restored_cpu : Cpu
  restored_cpu =
      q8 insn' m bytes room (c.var edi) (c.var esi) (c.var ebp) (c.var esp) (c.var ebx) (c.var edx)
        (c.var ecx) (c.var eax) still

  -- Where the registers of a machine hold 32-bit numbers, its memory bytes, and ESP is at least 32
  -- and within the allocation, PUSHAD succeeds; and from any machine over a memory of bytes that
  -- has ESP at the new top and the same 32 bytes from there on, POPAD succeeds and brings EAX,
  -- ECX, EDX, EBX, ESP, EBP, ESI and EDI back to what they were before the PUSHAD.
  pub pushad_i-popad_i :
      (pushad_i insn c ≡ some (p8 insn c, 0))
      × (d : Cpu) × (popad_i insn' m ≡ some (d, 0))
      × Restored c d
  unfolding advance
  pushad_i-popad_i = (
    pushad_i-pushed insn c ok lo hi,
    restored_cpu,
    popad_i-taken insn' m bytes room (c.var edi) (c.var esi) (c.var ebp) (c.var esp) (c.var ebx)
        (c.var edx) (c.var ecx) (c.var eax) still,
    record {
      in_eax = refl;
      in_ecx = refl;
      in_edx = refl;
      in_ebx = refl;
      in_esp = omega arith;
      in_ebp = refl;
      in_esi = refl;
      in_edi = refl;
    },
  )
