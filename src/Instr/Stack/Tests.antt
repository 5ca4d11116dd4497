-- ===== src/Instr/Stack/Tests.antt =====
-- The theorems on the stack at sample instructions.
use vm_i386_32bit.Base.{◌≡◌, refl, arith, some}
use mathlib.Core.List.{[], ◌∷◌}
use vm_i386_32bit.Machine.{Cpu, eax, ecx, ebp, esp, eip, u32}
use vm_i386_32bit.Machine.Memory.{peek}
use vm_i386_32bit.Machine.State.{IsBytes, IsCpu, poke-IsBytes}
use vm_i386_32bit.Operand.{advance, target_value}
use vm_i386_32bit.Instr.Stack.{push_i, pop_i, call_i, ret_i, pushad_i, popad_i}
use vm_i386_32bit.Instr.Stack.Trips.{Moved, push_i-pop_i, call_i-ret_i, entered, returned}
use vm_i386_32bit.Instr.Stack.Frames.{Stacked, p8, pushad_i-Stacked}
use vm_i386_32bit.Instr.Stack.Restore.{Restored, pushad_i-popad_i}
use vm_i386_32bit.Instr.Samples.{on_eax, on_ecx, jump, eax-IsRegister, ecx-IsRegister, start-IsCpu}
use vm_i386_32bit.Examples.{start}

entered-IsCpu : IsCpu (entered jump 0x8049000 start)
unfolding advance
entered-IsCpu = record {
  words = λ v. ground arith;
  bytes = poke-IsBytes 4 0xFFEFFFFC 0x8048002 start.mem (λ a. omega arith);
}

push_i-pop_i_example :
    (m : Cpu) × (d : Cpu) × (push_i on_eax start ≡ some (m, 0))
    × (pop_i on_ecx m ≡ some (d, 0))
    × Moved eax ecx on_eax on_ecx start d
push_i-pop_i_example =
    push_i-pop_i on_eax on_ecx start start-IsCpu eax-IsRegister ecx-IsRegister refl (omega arith)
      (omega arith)

-- A callee that returns at once.
call_i-ret_i_example :
    (call_i jump start ≡ some (entered jump 0x8049000 start, 0))
    × (ret_i on_eax (entered jump 0x8049000 start)
        ≡ some (returned (entered jump 0x8049000 start), 0))
    × ((returned (entered jump 0x8049000 start)).var eip ≡ 0x8048002)
    × ((returned (entered jump 0x8049000 start)).var esp ≡ 0xFFF00000)
unfolding target_value advance
call_i-ret_i_example =
    call_i-ret_i jump on_eax start (entered jump 0x8049000 start) start-IsCpu entered-IsCpu
      0x8049000 refl refl (omega arith) (omega arith) refl (λ a p q. refl)

pushad_i-Stacked_example :
    (d : Cpu) × (pushad_i on_ecx start ≡ some (d, 0))
    × (d.var esp ≡ 0xFFEFFFE0)
    × Stacked
        (d.var esp)
        (0x2000 ∷ 0x1000 ∷ 0xFFF00010 ∷ 0xFFF00000 ∷ 0x20 ∷ 0x80000000 ∷ 3 ∷ 0xFFFFFFF0 ∷ [])
        d.mem
pushad_i-Stacked_example = pushad_i-Stacked on_ecx start start-IsCpu (omega arith) (omega arith)

all_pushed-IsBytes : IsBytes (p8 on_ecx start).mem
unfolding vm_i386_32bit.Machine.Memory.poke advance
all_pushed-IsBytes = search (poke-IsBytes, start-IsCpu.bytes) depth 12

pushad_i-popad_i_example :
    (pushad_i on_ecx start ≡ some (p8 on_ecx start, 0))
    × (d : Cpu) × (popad_i on_eax (p8 on_ecx start) ≡ some (d, 0))
    × Restored start d
unfolding advance
pushad_i-popad_i_example =
    pushad_i-popad_i on_ecx on_eax start (p8 on_ecx start) start-IsCpu (omega arith) (omega arith)
      all_pushed-IsBytes refl (λ a p q. refl)
