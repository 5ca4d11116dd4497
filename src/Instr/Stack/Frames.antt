-- ===== src/Instr/Stack/Frames.antt =====
-- PUSHAD and POPAD against an abstract stack: a list of the words that lie from ESP on.
use mathlib.Core.List.{List, [], ◌∷◌}
use vm_i386_32bit.Base.{ℕ, ◌+◌, ◌-◌, ◌^◌, ◌≤◌, ◌<◌, ◌≡◌, ◌∙◌, arith, some, inr}
use vm_i386_32bit.Machine.{Cpu, mem_size, eax, ebx, ecx, edx, esp, ebp, esi, edi}
use vm_i386_32bit.Machine.Memory.{peek, poke, peek-poke, peek-poke_apart}
use vm_i386_32bit.Machine.State.{IsCpu}
use vm_i386_32bit.Operand.{Insn, advance}
use vm_i386_32bit.Instr.Stack.{pushad_i}
use vm_i386_32bit.Instr.Stack.Steps.{pushed, push32-pushed}

-- The doublewords from `a` on are those of the list.
abbrev pub Stacked : ℕ → List ℕ → (ℕ → ℕ) → Type 0
Stacked a [] m = Unit {0}
Stacked a (x ∷ xs) m = (peek 4 a m ≡ x) × Stacked (a + 4) xs m

Stacked-poke :
    (a b x : ℕ) (xs : List ℕ) (m : ℕ → ℕ) → b + 4 ≤ a → Stacked a xs m → Stacked a xs (poke 4 b x m)
Stacked-poke a b x [] m h s = tt
Stacked-poke a b x (y ∷ ys) m h s =
    (peek-poke_apart 4 4 a b x m (inr h) ∙ s.0, Stacked-poke (a + 4) b x ys m (omega arith) s.1)

-- A push puts its word in front of the list.
pub Stacked-pushed :
    (x : ℕ) (xs : List ℕ) (c : Cpu)
    → x < 2 ^ 32
    → 4 ≤ c.var esp
    → Stacked (c.var esp) xs c.mem
    → Stacked (c.var esp - 4) (x ∷ xs) (pushed x c).mem
Stacked-pushed x xs c small lo s =
    let e : c.var esp - 4 + 4 ≡ c.var esp = omega arith in
    (
      peek-poke 4 (c.var esp - 4) x c.mem ∙ omega arith,
      rw e (Stacked-poke (c.var esp) (c.var esp - 4) x xs c.mem (omega arith) s),
    )

module _ (insn : Insn) (c : Cpu) where
  abbrev p1 : Cpu
  p1 = pushed (c.var eax) (advance insn c)

  abbrev p2 : Cpu
  p2 = pushed (c.var ecx) p1

  abbrev p3 : Cpu
  p3 = pushed (c.var edx) p2

  abbrev p4 : Cpu
  p4 = pushed (c.var ebx) p3

  abbrev p5 : Cpu
  p5 = pushed (c.var esp) p4

  abbrev p6 : Cpu
  p6 = pushed (c.var ebp) p5

  abbrev p7 : Cpu
  p7 = pushed (c.var esi) p6

  abbrev pub p8 : Cpu
  p8 = pushed (c.var edi) p7

  -- The words that PUSHAD leaves, from the new top of the stack.
  abbrev pub saved : List ℕ
  saved =
      c.var edi
      ∷ c.var esi
      ∷ c.var ebp
      ∷ c.var esp
      ∷ c.var ebx
      ∷ c.var edx
      ∷ c.var ecx
      ∷ c.var eax
      ∷ []

module _ (insn : Insn) (c : Cpu) (ok : IsCpu c) (lo : 32 ≤ c.var esp)
    (hi : c.var esp ≤ mem_size) where
  pub pushad_i-pushed : pushad_i insn c ≡ some ((p8 insn c), 0)
  unfolding pushad_i advance
  pushad_i-pushed = rw (
    push32-pushed (c.var eax) (advance insn c) (omega arith) (omega arith),
    push32-pushed (c.var ecx) (p1 insn c) (omega arith) (omega arith),
    push32-pushed (c.var edx) (p2 insn c) (omega arith) (omega arith),
    push32-pushed (c.var ebx) (p3 insn c) (omega arith) (omega arith),
    push32-pushed (c.var esp) (p4 insn c) (omega arith) (omega arith),
    push32-pushed (c.var ebp) (p5 insn c) (omega arith) (omega arith),
    push32-pushed (c.var esi) (p6 insn c) (omega arith) (omega arith),
    push32-pushed (c.var edi) (p7 insn c) (omega arith) (omega arith),
  )

  pub p8-esp : (p8 insn c).var esp ≡ c.var esp - 32
  unfolding advance
  p8-esp = omega arith

  pub p8-Stacked : Stacked ((p8 insn c).var esp) (saved insn c) (p8 insn c).mem
  unfolding advance
  p8-Stacked =
      (Stacked-pushed (c.var edi)
        (c.var esi ∷ c.var ebp ∷ c.var esp ∷ c.var ebx ∷ c.var edx ∷ c.var ecx ∷ c.var eax ∷ [])
        (p7 insn c) (ok.words edi) (omega arith)
        (Stacked-pushed (c.var esi)
          (c.var ebp ∷ c.var esp ∷ c.var ebx ∷ c.var edx ∷ c.var ecx ∷ c.var eax ∷ []) (p6 insn c)
          (ok.words esi) (omega arith)
          (Stacked-pushed (c.var ebp)
            (c.var esp ∷ c.var ebx ∷ c.var edx ∷ c.var ecx ∷ c.var eax ∷ []) (p5 insn c)
            (ok.words ebp) (omega arith)
            (Stacked-pushed (c.var esp) (c.var ebx ∷ c.var edx ∷ c.var ecx ∷ c.var eax ∷ [])
              (p4 insn c) (ok.words esp) (omega arith)
              (Stacked-pushed (c.var ebx) (c.var edx ∷ c.var ecx ∷ c.var eax ∷ []) (p3 insn c)
                (ok.words ebx) (omega arith)
                (Stacked-pushed (c.var edx) (c.var ecx ∷ c.var eax ∷ []) (p2 insn c) (ok.words edx)
                  (omega arith)
                  (Stacked-pushed (c.var ecx) (c.var eax ∷ []) (p1 insn c) (ok.words ecx)
                    (omega arith)
                    (Stacked-pushed (c.var eax) ([]) (advance insn c) (ok.words eax) (omega arith)
                      tt))))))))

  -- Where the registers hold 32-bit numbers, the memory bytes, and ESP is at least 32 and within
  -- the allocation, PUSHAD succeeds with ESP 32 lower, and the stack then reads, from its top,
  -- EDI, ESI, EBP, ESP as it was before, EBX, EDX, ECX and EAX.
  pub pushad_i-Stacked :
      (d : Cpu) × (pushad_i insn c ≡ some (d, 0))
      × (d.var esp ≡ c.var esp - 32)
      × Stacked (d.var esp) (saved insn c) d.mem
  pushad_i-Stacked = ((p8 insn c), pushad_i-pushed, p8-esp, p8-Stacked)
