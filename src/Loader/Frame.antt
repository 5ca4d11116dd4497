-- ===== src/Loader/Frame.antt =====
-- The words that the initial stack of src/loader.c holds from ESP on.
use mathlib.Core.List.{List, [], ◌∷◌, ◌++◌}
use vm_i386_32bit.Base.{
  ℕ, ◌+◌, ◌-◌, ◌*◌, ◌^◌, ◌≤◌, ◌<◌, ◌≡◌, refl, ◌∙◌, arith, Option, false, some, length, ◌>>=◌,
}
use vm_i386_32bit.Machine.{Cpu, Var, set_var, same_var, u32, mem_size, esp}
use vm_i386_32bit.Machine.Memory.{poke_above, store_bytes-poke, write32-store_bytes}
use vm_i386_32bit.Instr.Arith.{sub32}
use vm_i386_32bit.Instr.Stack.Steps.{pushed}
use vm_i386_32bit.Instr.Stack.Frames.{Stacked, Stacked-pushed}
use vm_i386_32bit.Loader.{push_word, push_words, push_frame}

push_word-pushed :
    (x : ℕ) (c : Cpu) → 4 ≤ c.var esp → c.var esp ≤ mem_size → push_word x c ≡ some (pushed x c)
unfolding push_word sub32
push_word-pushed x c lo hi =
    let e : u32 (c.var esp + 2 ^ 32 - 4) ≡ c.var esp - 4 = omega arith in
    rw (e, write32-store_bytes (c.var esp - 4) x (set_var esp (c.var esp - 4) c) (omega arith))
      (store_bytes-poke 4 (c.var esp - 4) x (set_var esp (c.var esp - 4) c) (omega arith))

-- A run that pushes `n` words, after which those of `ws` are on the stack.
pub record Pushes (n : ℕ) (ws : List ℕ) (c : Cpu) (run : Option Cpu) : Type 0 where
  pub after : Cpu
  pub runs : run ≡ some after
  pub top : after.var esp + 4 * n ≡ c.var esp
  pub stack : Stacked (after.var esp) ws after.mem
  pub above : (b : ℕ) → c.var esp ≤ b → after.mem b ≡ c.mem b
  pub others : (v : Var) → same_var esp v ≡ false → after.var v ≡ c.var v

-- Words of 32 bits.
abbrev pub Words : List ℕ → Type 0
Words [] = Unit {0}
Words (x ∷ xs) = (x < 2 ^ 32) × Words xs

-- There is room for `n` words above `ws`.
pub record Room (n : ℕ) (ws : List ℕ) (c : Cpu) : Type 0 where
  pub enough : 4 * n ≤ c.var esp
  pub inside : c.var esp ≤ mem_size
  pub held : Stacked (c.var esp) ws c.mem

pub Room-less : {n k : ℕ} {ws : List ℕ} {c : Cpu} → n ≤ k → Room k ws c → Room n ws c
Room-less h room =
    let enough = room.enough in
    record { enough = omega arith; inside = room.inside; held = room.held }

-- Two runs, one after the other, in the room for both.
pub Pushes-then :
    {n k : ℕ} {us ws vs : List ℕ} {c : Cpu} {run : Option Cpu} (m : ℕ) (f : Cpu → Option Cpu)
    → n + m ≡ k
    → Room k us c
    → Pushes n ws c run
    → ((d : Cpu)
        → ((v : Var) → same_var esp v ≡ false → d.var v ≡ c.var v)
        → Room m ws d
        → Pushes m vs d (f d))
    → Pushes k vs c (run >>= f)
Pushes-then m f sum room first next =
    let lo = room.enough in
    let hi = room.inside in
    let top = first.top in
    let second =
      next first.after first.others
        (record { enough = omega arith; inside = omega arith; held = first.stack }) in
    let top2 = second.top in
    record {
      after = second.after;
      runs = rw first.runs second.runs;
      top = omega arith;
      stack = second.stack;
      above = λ b h. second.above b (omega arith) ∙ first.above b h;
      others = λ v ne. second.others v ne ∙ first.others v ne;
    }

pub push_word-Pushes :
    (x : ℕ) (ws : List ℕ) (c : Cpu) → x < 2 ^ 32 → Room 1 ws c → Pushes 1 (x ∷ ws) c (push_word x c)
push_word-Pushes x ws c small room =
    let lo = room.enough in
    record {
      after = pushed x c;
      runs = push_word-pushed x c (omega arith) room.inside;
      top = omega arith;
      stack = Stacked-pushed x ws c small (omega arith) room.held;
      above = λ b h. poke_above 4 (c.var esp - 4) x b c.mem (omega arith);
      others = λ v ne. ground arith;
    }

pub nothing-Pushes : (ws : List ℕ) (c : Cpu) → Room 0 ws c → Pushes 0 ws c (some c)
nothing-Pushes ws c room = record {
  after = c;
  runs = refl;
  top = omega arith;
  stack = room.held;
  above = λ b h. refl;
  others = λ v ne. refl;
}

pub push_words-Pushes :
    (xs ws : List ℕ) (c : Cpu)
    → Words xs
    → Room (length xs) ws c
    → Pushes (length xs) (xs ++ ws) c (push_words xs c)
unfolding push_words
push_words-Pushes [] ws c w room = nothing-Pushes ws c room
push_words-Pushes (x ∷ xs) ws c w room =
    Pushes-then 1 (push_word x) (omega arith) room
      (push_words-Pushes xs ws c w.1 (Room-less (omega arith) room))
      (λ d kept. push_word-Pushes x (xs ++ ws) d w.0)

-- From the new top on: argc less one, the pointers to the arguments and a null pointer, the
-- pointers to the environment and a null pointer.
abbrev pub frame : (argc : ℕ) → (args envs ws : List ℕ) → List ℕ
frame argc args envs ws = sub32 argc 1 ∷ (args ++ (0 ∷ (envs ++ (0 ∷ ws))))

sub32-lt : (a b : ℕ) → sub32 a b < 2 ^ 32
unfolding sub32
sub32-lt a b = omega arith

module _ (argc : ℕ) (args envs ws : List ℕ) (c : Cpu) (args_small : Words args)
    (envs_small : Words envs) where
  pub push_frame-Pushes :
      Room (length args + length envs + 3) ws c
      → Pushes
          (length args + length envs + 3)
          (frame argc args envs ws)
          c
          (push_frame argc args envs c)
  unfolding push_frame
  push_frame-Pushes room =
      Pushes-then (length args + length envs + 2) _ (omega arith) room
        (push_word-Pushes 0 ws c (omega arith) (Room-less (omega arith) room))
        λ d kept room.
          Pushes-then (length args + 2) _ (omega arith) room
            (push_words-Pushes envs (0 ∷ ws) d envs_small (Room-less (omega arith) room))
            λ d kept room.
              Pushes-then (length args + 1) _ (omega arith) room
                (push_word-Pushes 0 (envs ++ (0 ∷ ws)) d (omega arith)
                  (Room-less (omega arith) room))
                λ d kept room.
                  Pushes-then 1 _ (omega arith) room
                    (push_words-Pushes args (0 ∷ (envs ++ (0 ∷ ws))) d args_small
                      (Room-less (omega arith) room))
                    λ d kept room. push_word-Pushes (sub32 argc 1) _ d (sub32-lt argc 1) room
