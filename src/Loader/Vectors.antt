-- ===== src/Loader/Vectors.antt =====
-- What load_stack of src/loader.c pushes behind the strings.
use mathlib.Core.List.{List, [], ◌∷◌}
use vm_i386_32bit.Base.{
  ℕ, ◌+◌, ◌/◌, ◌%◌, ◌^◌, ◌≤◌, ◌<◌, ◌≡◌, refl, ◌∙◌, arith, Option, none, some, sym, length, ap,
  bit_and, bit_and-low, bit_and_step, ◌>>=◌,
}
use vm_i386_32bit.Machine.{Cpu, set_var, eip, esp}
use vm_i386_32bit.Instr.Stack.Frames.{Stacked}
use vm_i386_32bit.Loader.{Values, push_word, push_frame, push_vectors, read_auxv}
use vm_i386_32bit.Loader.Frame.{
  Pushes, Pushes-then, Room, Room-less, Words, frame, push_word-Pushes, push_frame-Pushes,
}
use vm_i386_32bit.Loader.Auxv.{IsValues, Known, count, vector, read_auxv-Pushes}

-- `esp &= ~0x3`
align-mod : (x : ℕ) → x < 2 ^ 32 → bit_and x 0xFFFFFFFC + x % 4 ≡ x
align-mod x h =
    let one = bit_and_step x 0xFFFFFFFC in
    let two = bit_and_step (x / 2) 0x7FFFFFFE in let low = bit_and-low 30 (x / 2 / 2) in omega arith

-- What push_vectors leaves.
pub record Vectors (argc : ℕ) (args envs : List ℕ) (auxv : List (ℕ × ℕ)) (base c : Cpu)
    (run : Option (Cpu × Values)) : Type 0 where
  pub after : Cpu
  pub values : Values
  pub runs : run ≡ some (after, values)
  pub stack :
      Stacked
        (after.var esp)
        (frame argc args envs (vector values base auxv (0 ∷ 0 ∷ [])))
        after.mem
  pub lower : after.var esp ≤ c.var esp
  pub above : (b : ℕ) → c.var esp ≤ b → after.mem b ≡ c.mem b

module _ (argc : ℕ) (args envs : List ℕ) (auxv : List (ℕ × ℕ)) (args_small : Words args)
    (envs_small : Words envs) (known : Known auxv) where
  abbrev pub words : ℕ
  words = (2 + count auxv) + (length args + length envs + 3)

  -- read_auxv and the frame behind it.
  tail-Pushes :
      (g : Values) (c d : Cpu)
      → IsValues g
      → c.var eip < 2 ^ 32
      → d.var eip ≡ c.var eip
      → Room words [] d
      → Pushes words
          (frame argc args envs (vector g c auxv (0 ∷ 0 ∷ [])))
          d
          (read_auxv g auxv d >>= push_frame argc args envs)
  tail-Pushes g c d ok small same room =
      Pushes-then (length args + length envs + 3) (push_frame argc args envs) refl room
        (read_auxv-Pushes g c ok small auxv d known same (Room-less (omega arith) room))
        λ e kept room.
          push_frame-Pushes argc args envs (vector g c auxv (0 ∷ 0 ∷ [])) e args_small envs_small
            room

  -- The two random words.
  randoms-Pushes :
      (random0 random1 : ℕ) (c : Cpu)
      → random0 < 2 ^ 32
      → random1 < 2 ^ 32
      → Room 2 [] c
      → Pushes 2 (random1 ∷ random0 ∷ []) c (push_word random0 c >>= push_word random1)
  randoms-Pushes random0 random1 c small0 small1 room =
      Pushes-then 1 (push_word random1) refl room
        (push_word-Pushes random0 [] c small0 (Room-less (omega arith) room))
        λ d kept room. push_word-Pushes random1 (random0 ∷ []) d small1 room

bind_assoc :
    {A B C : Type 0} (m : Option A) (f : A → Option B) (g : B → Option C)
    → ((m >>= f) >>= g) ≡ (m >>= λ a. f a >>= g)
bind_assoc none f g = refl
bind_assoc (some a) f g = refl

module _ (argc : ℕ) (args envs : List ℕ) (auxv : List (ℕ × ℕ)) (args_small : Words args)
    (envs_small : Words envs) (known : Known auxv) (random0 random1 : ℕ) (small0 : random0 < 2 ^ 32)
    (small1 : random1 < 2 ^ 32) where
  pub push_vectors-Vectors :
      (g : Values) (base c : Cpu)
      → IsValues g
      → base.var eip < 2 ^ 32
      → c.var eip ≡ base.var eip
      → Room (words argc args envs auxv args_small envs_small known + 3) [] c
      → Vectors argc args envs auxv base c (push_vectors argc args envs random0 random1 auxv g c)
  unfolding push_vectors
  push_vectors-Vectors g base c ok small same room =
      let n = words argc args envs auxv args_small envs_small known in
      let lo = room.enough in
      let hi = room.inside in
      let r =
        randoms-Pushes argc args envs auxv args_small envs_small known random0 random1 c small0
          small1 (Room-less (omega arith) room) in
      let r_top = r.top in
      let align = align-mod (r.after.var esp) (omega arith) in
      let d = set_var esp (bit_and (r.after.var esp) 0xFFFFFFFC) r.after in
      let v = record g { platform_addr = c.var esp; rr = r.after.var esp } in
      let v_ok : IsValues v = record {
        ph_addr = ok.ph_addr;
        ph_size = ok.ph_size;
        ph_num = ok.ph_num;
        platform_addr = omega arith;
        execfn = ok.execfn;
        rr = omega arith;
      } in
      let t =
        tail-Pushes argc args envs auxv args_small envs_small known v base d v_ok small
          (r.others eip refl ∙ same)
          (record { enough = omega arith; inside = omega arith; held = tt }) in
      let t_top = t.top in
      let finish : Cpu → Option (Cpu × Values) = λ e. some (e, v) in
      let behind : Cpu → Option (Cpu × Values) = λ e.
        (let v = record g { platform_addr = c.var esp; rr = e.var esp } in
          read_auxv v auxv (set_var esp (bit_and (e.var esp) 0xFFFFFFFC) e) >>= λ h.
          push_frame argc args envs h >>= λ h. some (h, v)) in
      record {
        after = t.after;
        values = v;
        runs =
            sym (bind_assoc (push_word random0 c) (push_word random1) behind)
            ∙ ap (λ m. m >>= behind) r.runs
            ∙ sym (bind_assoc (read_auxv v auxv d) (push_frame argc args envs) finish)
            ∙ ap (λ m. m >>= finish) t.runs;
        stack = t.stack;
        lower = omega arith;
        above = λ b h. t.above b (omega arith) ∙ r.above b h;
      }
