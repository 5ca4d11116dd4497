-- ===== src/Loader.antt =====
-- The initial stack of src/loader.c: read_auxv and load_stack. The entries of /proc/self/auxv, the
-- results of random(), and the element of argv_emu that no line sets are arguments.
pub mod Frame
pub mod Strings
pub mod Auxv
pub mod Vectors
pub mod Whole
mod Tests
use mathlib.Core.List.{List, [], ◌∷◌}
use vm_i386_32bit.Base.{
  ℕ, zero, suc, ◌+◌, ◌%◌, ◌^◌, bit_and, Option, none, some, ◌||◌, ◌==◌, if◌then◌else◌, ◌>>=◌,
  get_elem?, length,
}
use vm_i386_32bit.Machine.{Cpu, store_byte, write32, set_var, u32, eip, esp}
use vm_i386_32bit.Instr.Arith.{sub32}

-- The variables that load_stack and read_elf_file leave for read_auxv.
pub record Values : Type 0 where
  pub ph_addr : ℕ
  pub ph_size : ℕ
  pub ph_num : ℕ
  pub platform_addr : ℕ
  pub execfn : ℕ
  pub rr : ℕ

-- A getter has the value of the entry, which is a 64-bit number, as its argument.
abbrev pub Getter : Type 0
Getter = Values → Cpu → (v : ℕ) → ℕ

unfoldable pub get_at_phdr : Getter
get_at_phdr g c v = g.ph_addr

unfoldable pub get_at_phent : Getter
get_at_phent g c v = g.ph_size

unfoldable pub get_at_phnum : Getter
get_at_phnum g c v = g.ph_num

unfoldable pub get_at_base : Getter
get_at_base g c v = 0x0

unfoldable pub get_at_entry : Getter
get_at_entry g c v = c.var eip

unfoldable pub get_at_generic : Getter
get_at_generic g c v = u32 v

unfoldable pub get_at_platform : Getter
get_at_platform g c v = g.platform_addr

unfoldable pub get_at_base_platform : Getter
get_at_base_platform g c v = g.platform_addr

unfoldable pub get_at_random : Getter
get_at_random g c v = g.rr

unfoldable pub get_at_execfn : Getter
get_at_execfn g c v = g.execfn

-- `n` places of the table for the generic getter.
unfoldable pub generic : ℕ → List Getter → List Getter
generic zero rest = rest
generic (suc n) rest = get_at_generic ∷ generic n rest

unfoldable pub getters : List Getter
getters = generic 3 (
    get_at_phdr
    ∷ get_at_phent
    ∷ get_at_phnum
    ∷ get_at_generic
    ∷ get_at_base
    ∷ get_at_generic
    ∷ get_at_entry
    ∷ generic 5 (
        get_at_platform
        ∷ generic 8
            (get_at_base_platform ∷ get_at_random ∷ generic 5 (get_at_execfn ∷ generic 21 []))))

-- `esp -= 4; write32(esp, x)`
unfoldable pub push_word : (x : ℕ) → Cpu → Option Cpu
push_word x c = let c = set_var esp (sub32 (c.var esp) 4) c in write32 (c.var esp) x c

-- The loop of read_auxv, on the entries that are left: type and value.
unfoldable pub push_entries : Values → List (ℕ × ℕ) → Cpu → Option Cpu
push_entries g [] c = some c
push_entries g ((a_type, a_val) ∷ entries) c =
    if a_type == 0
    then some c
    else if a_type == 32 || a_type == 33
    then push_entries g entries c
    else (do
      getter ← get_elem? getters a_type
      c ← push_word (getter g c a_val) c
      c ← push_word (u32 a_type) c
      push_entries g entries c)

unfoldable pub read_auxv : Values → List (ℕ × ℕ) → Cpu → Option Cpu
read_auxv g entries c = do
  c ← push_word 0x00000000 c
  c ← push_word 0x00000000 c
  push_entries g entries c

-- `memcpy(&mem[a], p, len)`
unfoldable pub copy : (a : ℕ) → (p : List ℕ) → Cpu → Option Cpu
copy a [] c = some c
copy a (x ∷ p) c = do c ← store_byte a x c; copy (a + 1) p c

-- The characters of a string, and the null character behind them.
abbrev pub terminated : List ℕ → List ℕ
terminated [] = 0 ∷ []
terminated (x ∷ p) = x ∷ terminated p

unfoldable pub push_string : (p : List ℕ) → Cpu → Option Cpu
push_string p c =
    let c = set_var esp (sub32 (c.var esp) (length p + 1)) c in copy (c.var esp) (terminated p) c

-- The loop on the strings, the last one first, with the addresses that it stores.
unfoldable pub push_strings : List (List ℕ) → Cpu → Option (Cpu × List ℕ)
push_strings [] c = some (c, [])
push_strings (p ∷ ps) c = do
  (c, addresses) ← push_strings ps c
  c ← push_string p c
  some (c, c.var esp ∷ addresses)

-- A loop on an array of words, the last one first.
unfoldable pub push_words : List ℕ → Cpu → Option Cpu
push_words [] c = some c
push_words (x ∷ xs) c = do c ← push_words xs c; push_word x c

-- The arguments from the second one on: the first two are the emulator's name and its mode.
abbrev pub behind_mode : List (List ℕ) → List (List ℕ)
behind_mode (name ∷ mode ∷ rest) = rest
behind_mode (name ∷ []) = []
behind_mode [] = []

-- argv_emu from index 1 on, whose first element is `unset`.
abbrev pub argv_emu : (argv : List (List ℕ)) → (unset : ℕ) → (addresses : List ℕ) → List ℕ
argv_emu (name ∷ mode ∷ rest) unset addresses = unset ∷ addresses
argv_emu (name ∷ []) unset addresses = []
argv_emu [] unset addresses = []

-- The end of load_stack: the two arrays of pointers, each with a null pointer behind it, and argc.
unfoldable pub push_frame : (argc : ℕ) → (args envs : List ℕ) → Cpu → Option Cpu
push_frame argc args envs c = do
  c ← push_word 0x00000000 c
  c ← push_words envs c
  c ← push_word 0x00000000 c
  c ← push_words args c
  push_word (sub32 argc 1) c

-- "x86"
abbrev platform : List ℕ
platform = 0x78 ∷ 0x38 ∷ 0x36 ∷ []

-- load_stack behind the strings: two random words, the alignment, read_auxv and the frame.
unfoldable pub push_vectors :
    (argc : ℕ)
    → (args envs : List ℕ) → (random0 random1 : ℕ) → (auxv : List (ℕ × ℕ)) → Values
    → Cpu
    → Option (Cpu × Values)
push_vectors argc args envs random0 random1 auxv g c = do
  let g = record g { platform_addr = c.var esp }
  c ← push_word random0 c
  c ← push_word random1 c
  let g = record g { rr = c.var esp }
  let c = set_var esp (bit_and (c.var esp) 0xFFFFFFFC) c
  c ← read_auxv g auxv c
  c ← push_frame argc args envs c
  some (c, g)

unfoldable pub load_stack :
    (argc : ℕ)
    → (argv envp : List (List ℕ)) → (unset random0 random1 : ℕ) → (auxv : List (ℕ × ℕ)) → Values
    → Cpu
    → Option (Cpu × Values)
load_stack argc argv envp unset random0 random1 auxv g c = do
  (c, envs) ← push_strings envp c
  (c, args) ← push_strings (behind_mode argv) c
  c ← push_string platform c
  push_vectors argc (argv_emu argv unset args) envs random0 random1 auxv g c
