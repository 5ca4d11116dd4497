-- ===== src/Machine/Registers.antt =====
-- The register tables of src/instr.c, indexed by the register numbers of Capstone, and `reg_val`.
use mathlib.Core.List.{List, [], ◌∷◌}
use vm_i386_32bit.Base.{ℕ, ◌-◌, ◌^◌, Option, none, some, ltb, ◌==◌, if◌then◌else◌, ◌>>=◌, get_or}
use vm_i386_32bit.Machine.{
  Cpu, Var, in_var, load, eax, ebx, ecx, edx, esp, ebp, esi, edi, eip, eflags, cs, ds, ss, es, fs,
  gs,
}

-- `regs`: the variable that holds a register; `none` is NULL.
abbrev pub regs_table : List (Option Var)
regs_table =
    none
    ∷ some eax
    ∷ some eax
    ∷ some eax
    ∷ some ebx
    ∷ some ebx
    ∷ some ebp
    ∷ none
    ∷ some ebx
    ∷ some ecx
    ∷ some ecx
    ∷ some cs
    ∷ some ecx
    ∷ some edx
    ∷ some edi
    ∷ none
    ∷ some edx
    ∷ some ds
    ∷ some edx
    ∷ some eax
    ∷ some ebp
    ∷ some ebx
    ∷ some ecx
    ∷ some edi
    ∷ some edx
    ∷ some eflags
    ∷ some eip
    ∷ none
    ∷ some es
    ∷ some esi
    ∷ some esp
    ∷ none
    ∷ some fs
    ∷ some gs
    ∷ some eip
    ∷ none
    ∷ none
    ∷ none
    ∷ none
    ∷ none
    ∷ none
    ∷ none
    ∷ none
    ∷ none
    ∷ none
    ∷ some esi
    ∷ none
    ∷ some esp
    ∷ none
    ∷ some ss
    ∷ []

-- `regs_size`: the width in bits, 0 for a register that a 32-bit program does not have.
abbrev regs_size_table : List ℕ
regs_size_table =
    0 ∷ 0x08 ∷ 0x08 ∷ 0x10 ∷ 0x08 ∷ 0x08 ∷ 0x10 ∷ 0 ∷ 0x10 ∷ 0x08 ∷ 0x08 ∷ 0x10 ∷ 0x10 ∷ 0x08 ∷ 0x10
    ∷ 0 ∷ 0x08 ∷ 0x10 ∷ 0x10 ∷ 0x20 ∷ 0x20 ∷ 0x20 ∷ 0x20 ∷ 0x20 ∷ 0x20 ∷ 0x20 ∷ 0x20 ∷ 0 ∷ 0x10
    ∷ 0x20 ∷ 0x20 ∷ 0 ∷ 0x10 ∷ 0x10 ∷ 0x10 ∷ 0 ∷ 0 ∷ 0 ∷ 0 ∷ 0 ∷ 0 ∷ 0 ∷ 0 ∷ 0 ∷ 0 ∷ 0x10 ∷ 0 ∷ 0x10
    ∷ 0 ∷ 0x10 ∷ []

-- `regs[r]`; a NULL pointer and a read past the table are both undefined as soon as they are used.
unfoldable pub regs : ℕ → Option Var
regs r = get_or regs_table r none

unfoldable pub regs_size : ℕ → ℕ
regs_size r = get_or regs_size_table r 0

-- The bytes that the `switch` on `regs_size[r]` of the handlers takes: 0x8, 0x10, 0x20 and the
-- default, which is 32 bits.
unfoldable pub width_of : ℕ → ℕ
width_of base = if base == 0x8 then 1 else if base == 0x10 then 2 else 4

-- For a register of the table that has no variable the source's function returns no value.
unfoldable pub reg_val : ℕ → Cpu → Option ℕ
unfolding width_of
reg_val r c =
    if ltb 49 r
    then some (2 ^ 32 - 1)
    else if regs_size r == 0
    then none
    else (do v ← regs r; load (width_of (regs_size r)) (in_var v) c)
