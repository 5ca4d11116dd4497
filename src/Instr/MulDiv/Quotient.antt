-- ===== src/Instr/MulDiv/Quotient.antt =====
-- What DIV leaves in its registers.
use vm_i386_32bit.Base.{ℕ, ◌+◌, ◌*◌, ◌^◌, ◌≡◌}
use vm_i386_32bit.Machine.{Cpu, eax, edx}
use vm_i386_32bit.Instr.Arith.{cmp_width}

-- The dividend in EDX and EAX.
abbrev pub dividend : Cpu → ℕ
dividend c = c.var edx * 2 ^ 32 + c.var eax

pub four : (s : ℕ) → s ≡ 4 → cmp_width s ≡ 4
unfolding cmp_width
four s e = rw e
