-- ===== src/Loader/Whole.antt =====
-- The initial stack that load_stack of src/loader.c leaves.
use mathlib.Core.List.{List, [], ◌∷◌}
use vm_i386_32bit.Base.{
  ℕ, ◌+◌, ◌*◌, ◌^◌, ◌≤◌, ◌<◌, ◌≡◌, inr, refl, ◌∙◌, arith, Option, some, length,
}
use vm_i386_32bit.Machine.{Cpu, mem_size, eip, esp}
use vm_i386_32bit.Instr.Stack.Frames.{Stacked}
use vm_i386_32bit.Loader.{Values, platform, push_string, push_strings, load_stack}
use vm_i386_32bit.Loader.Frame.{Words, frame}
use vm_i386_32bit.Loader.Auxv.{IsValues, Known, count, vector}
use vm_i386_32bit.Loader.Strings.{
  AllHeld, AllHeld-lower, Chars, AllChars, total, push_strings-AllHeld, push_string-Held,
}
use vm_i386_32bit.Loader.Vectors.{push_vectors-Vectors}

-- The strings of the arguments and of the environment.
record Placed (rest envp : List (List ℕ)) (c : Cpu) : Type 0 where
  first : Cpu
  second : Cpu
  after : Cpu
  envs : List ℕ
  args : List ℕ
  runs_envp : push_strings envp c ≡ some (first, envs)
  runs_rest : push_strings rest first ≡ some (second, args)
  runs_platform : push_string platform second ≡ some after
  top : after.var esp + 4 + total rest + total envp ≡ c.var esp
  same : after.var eip ≡ c.var eip
  counted : (length args ≡ length rest) × (length envs ≡ length envp)
  words : Words args × Words envs
  args_held : AllHeld (after.var esp) after.mem args rest
  envs_held : AllHeld (after.var esp) after.mem envs envp

strings-Placed :
    (rest envp : List (List ℕ)) (c : Cpu)
    → AllChars rest
    → AllChars envp
    → total envp + total rest + 4 ≤ c.var esp
    → c.var esp ≤ mem_size
    → Placed rest envp c
strings-Placed rest envp c rest_chars envp_chars lo hi =
    let e = push_strings-AllHeld envp c envp_chars (omega arith) hi in
    let e_top = e.top in
    let a = push_strings-AllHeld rest e.after rest_chars (omega arith) (omega arith) in
    let a_top = a.top in
    let chars : Chars platform = (omega arith, (omega arith, (omega arith, tt))) in
    let (p, p_runs, p_top, p_held, p_out, p_others) =
      push_string-Held platform a.after chars (omega arith) (omega arith) in
    record {
      first = e.after;
      second = a.after;
      after = p;
      envs = e.addresses;
      args = a.addresses;
      runs_envp = e.runs;
      runs_rest = a.runs;
      runs_platform = p_runs;
      top = omega arith;
      same = p_others eip refl ∙ a.others eip refl ∙ e.others eip refl;
      counted = (a.counted, e.counted);
      words = (a.words, e.words);
      args_held =
          AllHeld-lower (a.after.var esp) (p.var esp) a.after.mem p.mem (omega arith)
            (λ b h. p_out b (inr h)) a.held;
      envs_held =
          AllHeld-lower (e.after.var esp) (p.var esp) e.after.mem p.mem (omega arith)
            (λ b h. p_out b (inr (omega arith)) ∙ a.above b h) e.held;
    }

-- A run of load_stack that succeeds, and what it leaves from ESP on.
pub record Initial (argc unset : ℕ) (rest envp : List (List ℕ)) (auxv : List (ℕ × ℕ)) (c : Cpu)
    (run : Option (Cpu × Values)) : Type 0 where
  pub after : Cpu
  pub values : Values
  pub runs : run ≡ some (after, values)
  pub args : List ℕ
  pub envs : List ℕ
  pub stack :
      Stacked
        (after.var esp)
        (frame argc (unset ∷ args) envs (vector values c auxv (0 ∷ 0 ∷ [])))
        after.mem
  pub args_held : AllHeld (after.var esp) after.mem args rest
  pub envs_held : AllHeld (after.var esp) after.mem envs envp

-- The bytes that load_stack takes at most.
abbrev pub needed : (rest envp : List (List ℕ)) → List (ℕ × ℕ) → ℕ
needed rest envp auxv = total envp + total rest + 4 * (count auxv + length rest + length envp + 10)

module _ (argc unset random0 random1 : ℕ) (name mode : List ℕ) (rest envp : List (List ℕ))
    (auxv : List (ℕ × ℕ)) (g : Values) (c : Cpu) (small : c.var eip < 2 ^ 32) (ok : IsValues g)
    (known : Known auxv) (rest_chars : AllChars rest) (envp_chars : AllChars envp)
    (unset_small : unset < 2 ^ 32) (small0 : random0 < 2 ^ 32) (small1 : random1 < 2 ^ 32)
    (lo : needed rest envp auxv ≤ c.var esp) (hi : c.var esp ≤ mem_size) where
  -- Where argv has a name, a mode and further arguments, the strings consist of bytes, the types
  -- of the auxiliary entries are below 53, ESP has room for the strings, the vectors and 40 bytes
  -- more and is within the allocation, and EIP, the variables of the loader, the two random
  -- numbers and the element of argv_emu that is never set are 32-bit numbers, load_stack succeeds;
  -- from the new ESP on lie argc less one, the unset element, the pointers to the further
  -- arguments, a null pointer, the pointers to the environment, a null pointer, and for each
  -- auxiliary entry before the first AT_NULL, but for the two skipped types, the last one first,
  -- its type and the value of its getter, then two zeros; each pointer points at the bytes of its
  -- string with a null character behind them.
  pub load_stack-Initial :
      Initial argc unset rest envp auxv c
        (load_stack argc (name ∷ mode ∷ rest) envp unset random0 random1 auxv g c)
  unfolding load_stack
  load_stack-Initial =
      let p = strings-Placed rest envp c rest_chars envp_chars (omega arith) hi in
      let p_top = p.top in
      let args_counted = p.counted.0 in
      let envs_counted = p.counted.1 in
      let t =
        push_vectors-Vectors argc (unset ∷ p.args) p.envs auxv (unset_small, p.words.0) p.words.1
          known random0 random1 small0 small1 g c p.after ok small p.same
          (record { enough = omega arith; inside = omega arith; held = tt }) in
      let lower = t.lower in
      record {
        after = t.after;
        values = t.values;
        runs = rw (p.runs_envp, p.runs_rest, p.runs_platform) t.runs;
        args = p.args;
        envs = p.envs;
        stack = t.stack;
        args_held =
            AllHeld-lower (p.after.var esp) (t.after.var esp) p.after.mem t.after.mem lower
              (λ b h. t.above b h) p.args_held;
        envs_held =
            AllHeld-lower (p.after.var esp) (t.after.var esp) p.after.mem t.after.mem lower
              (λ b h. t.above b h) p.envs_held;
      }
