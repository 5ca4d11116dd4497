-- ===== src/Loader/Tests.antt =====
-- The theorem on load_stack at two arguments, one of them for the program, and one variable.
use mathlib.Core.List.{List, [], ◌∷◌}
use vm_i386_32bit.Base.{ℕ, arith}
use vm_i386_32bit.Loader.{Values, load_stack}
use vm_i386_32bit.Loader.Whole.{Initial, load_stack-Initial}
use vm_i386_32bit.Examples.{start}

abbrev no_values : Values
no_values = record { ph_addr = 0; ph_size = 0; ph_num = 0; platform_addr = 0; execfn = 0; rr = 0 }

-- "ls" and "A=1"
abbrev arguments : List (List ℕ)
arguments = (0x6c ∷ 0x73 ∷ []) ∷ []

abbrev environment : List (List ℕ)
environment = (0x41 ∷ 0x3d ∷ 0x31 ∷ []) ∷ []

-- The page size, the skipped entry of the VDSO, the address of the platform, and the end.
abbrev entries : List (ℕ × ℕ)
entries = (6, 4096) ∷ (33, 0xF000000000) ∷ (15, 0x7FFF00000000) ∷ (0, 0) ∷ []

load_stack-Initial_example : Initial 3 0x12345678 arguments environment entries start (
    load_stack 3
      ((0x76 ∷ []) ∷ (0x2d ∷ []) ∷ arguments)
      environment
      0x12345678
      7
      8
      entries
      no_values
      start)
load_stack-Initial_example =
    load_stack-Initial 3 0x12345678 7 8 (0x76 ∷ []) (0x2d ∷ []) arguments environment entries
      no_values start (omega arith)
      (record {
        ph_addr = omega arith;
        ph_size = omega arith;
        ph_num = omega arith;
        platform_addr = omega arith;
        execfn = omega arith;
        rr = omega arith;
      })
      (omega arith, (omega arith, (omega arith, (omega arith, tt))))
      ((omega arith, (omega arith, tt)), tt) ((omega arith, (omega arith, (omega arith, tt))), tt)
      (omega arith) (omega arith) (omega arith) (omega arith) (omega arith)
