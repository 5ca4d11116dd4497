-- ===== src/Loader/Strings.antt =====
-- A string that load_stack of src/loader.c has pushed is on the stack with its null character.
use mathlib.Core.List.{List, [], ◌∷◌}
use vm_i386_32bit.Base.{
  ℕ, zero, suc, ◌+◌, ◌-◌, ◌%◌, ◌^◌, ◌≤◌, ◌<◌, ◌≡◌, ◌⊎◌, inl, inr, refl, ◌∙◌, arith, Option, false,
  some, length, get_or, ap, ltb, true, ◌==◌, if◌then◌else◌,
}
use vm_i386_32bit.Machine.{Cpu, Var, set_var, same_var, store_byte, u32, mem_size, esp}
use vm_i386_32bit.Instr.Arith.{sub32}
use vm_i386_32bit.Loader.Frame.{Words}
use vm_i386_32bit.Loader.{copy, terminated, push_string, push_strings}

-- Bytes.
abbrev pub Chars : List ℕ → Type 0
Chars [] = Unit {0}
Chars (x ∷ p) = (x < 2 ^ 8) × Chars p

-- A run that writes the bytes of `p` to `a` and the bytes behind it, and nothing else.
pub record Copies (a : ℕ) (p : List ℕ) (c : Cpu) (run : Option Cpu) : Type 0 where
  pub after : Cpu
  pub runs : run ≡ some after
  pub copied : (i : ℕ) → i < length p → after.mem (a + i) ≡ get_or p i 0
  pub outside : (b : ℕ) → (b < a) ⊎ (a + length p ≤ b) → after.mem b ≡ c.mem b
  pub registers : after.var ≡ c.var

-- The machine after one byte was written.
abbrev written : (a x : ℕ) → Cpu → Cpu
written a x c = record c { mem = λ b. if a == b then x % 2 ^ 8 else c.mem b }

copy-Copies :
    (a : ℕ) (p : List ℕ) (c : Cpu) → Chars p → a + length p ≤ mem_size → Copies a p c (copy a p c)
unfolding copy store_byte
copy-Copies a [] c chars room = record {
  after = c;
  runs = refl;
  copied = λ i h. absurd (omega arith);
  outside = λ b h. refl;
  registers = refl;
}
copy-Copies a (x ∷ p) c chars room =
    let rest = copy-Copies (a + 1) p (written a x c) chars.1 (omega arith) in
    let inside : ltb a mem_size ≡ true = ground arith in
    record {
      after = rest.after;
      runs = rw inside rest.runs;
      copied = at rest;
      outside = λ b h. rest.outside b (ground arith) ∙ ground arith;
      registers = rest.registers;
    }
  where
    at :
        (rest : Copies (a + 1) p (written a x c) (copy (a + 1) p (written a x c))) (i : ℕ)
        → i < suc (length p)
        → rest.after.mem (a + i) ≡ get_or (x ∷ p) i 0
    at rest zero h =
        let e : a + 0 ≡ a = omega arith in
        let self : (written a x c).mem a ≡ x = ground (arith, chars.0) in
        rw e (rest.outside a (inl (omega arith)) ∙ self)
    at rest (suc i) h =
        let e : a + suc i ≡ a + 1 + i = omega arith in rw e (rest.copied i (omega arith))

length-terminated : (p : List ℕ) → length (terminated p) ≡ length p + 1
length-terminated [] = refl
length-terminated (x ∷ p) = let e = length-terminated p in omega arith

terminated-Chars : (p : List ℕ) → Chars p → Chars (terminated p)
terminated-Chars [] chars = (omega arith, tt)
terminated-Chars (x ∷ p) chars = (chars.0, terminated-Chars p chars.1)

terminated-char : (p : List ℕ) (i : ℕ) → i < length p → get_or (terminated p) i 0 ≡ get_or p i 0
terminated-char [] i h = absurd (omega arith)
terminated-char (x ∷ p) zero h = refl
terminated-char (x ∷ p) (suc i) h = terminated-char p i (omega arith)

terminated-null : (p : List ℕ) → get_or (terminated p) (length p) 0 ≡ 0
terminated-null [] = refl
terminated-null (x ∷ p) = terminated-null p

-- The string `p` and a null character lie at `a`.
pub record Held (a : ℕ) (p : List ℕ) (m : ℕ → ℕ) : Type 0 where
  pub chars : (i : ℕ) → i < length p → m (a + i) ≡ get_or p i 0
  pub null : m (a + length p) ≡ 0

-- The strings lie at the addresses, one by one, none of them below `low`.
pub data AllHeld (low : ℕ) (m : ℕ → ℕ) : List ℕ → List (List ℕ) → Type 0 where
  nil : AllHeld low m [] []
  cons :
      {a : ℕ} {p : List ℕ} {xs : List ℕ} {ps : List (List ℕ)}
      → low ≤ a
      → Held a p m
      → AllHeld low m xs ps
      → AllHeld low m (a ∷ xs) (p ∷ ps)

Held-same :
    (low a : ℕ) (p : List ℕ) (m n : ℕ → ℕ)
    → low ≤ a
    → ((b : ℕ) → low ≤ b → n b ≡ m b)
    → Held a p m
    → Held a p n
Held-same low a p m n above same h = record {
  chars = λ i hi. same (a + i) (omega arith) ∙ h.chars i hi;
  null = same (a + length p) (omega arith) ∙ h.null;
}

-- What lies from the old top on is not touched below it.
pub AllHeld-lower :
    (low lower : ℕ) (m n : ℕ → ℕ) {xs : List ℕ} {ps : List (List ℕ)}
    → lower ≤ low
    → ((b : ℕ) → low ≤ b → n b ≡ m b)
    → AllHeld low m xs ps
    → AllHeld lower n xs ps
AllHeld-lower low lower m n h same nil = nil
AllHeld-lower low lower m n h same (cons above held rest) =
    cons (omega arith) (Held-same low _ _ m n above same held)
      (AllHeld-lower low lower m n h same rest)

-- The bytes that strings take.
abbrev pub total : List (List ℕ) → ℕ
total [] = 0
total (p ∷ ps) = length p + 1 + total ps

abbrev pub AllChars : List (List ℕ) → Type 0
AllChars [] = Unit {0}
AllChars (p ∷ ps) = Chars p × AllChars ps

module _ (p : List ℕ) (c : Cpu) (chars : Chars p) (lo : length p + 1 ≤ c.var esp)
    (hi : c.var esp ≤ mem_size) where
  pub push_string-Held :
      (d : Cpu) × (push_string p c ≡ some d)
      × (d.var esp + length p + 1 ≡ c.var esp)
      × Held (d.var esp) p d.mem
      × ((b : ℕ) → (b < d.var esp) ⊎ (c.var esp ≤ b) → d.mem b ≡ c.mem b)
      × ((v : Var) → same_var esp v ≡ false → d.var v ≡ c.var v)
  unfolding push_string sub32
  push_string-Held =
      let n = length-terminated p in
      let a = u32 (c.var esp + 2 ^ 32 - u32 (length p + 1)) in
      let same : a + length p + 1 ≡ c.var esp = omega arith in
      let run =
        copy-Copies a (terminated p) (set_var esp a c) (terminated-Chars p chars) (omega arith) in
      let top : run.after.var esp ≡ a = ap (λ f. f esp) run.registers in
      (
        run.after,
        run.runs,
        omega arith,
        record {
          chars = λ i h. rw top (run.copied i (omega arith) ∙ terminated-char p i h);
          null = rw top (run.copied (length p) (omega arith) ∙ terminated-null p);
        },
        λ b h. run.outside b (elim h [ inl q ↦ inl (omega arith) | inr q ↦ inr (omega arith) ]),
        λ v ne. ap (λ f. f v) run.registers ∙ ground (arith, ne),
      )

-- A run of the loop on strings that succeeds.
pub record Strings (ps : List (List ℕ)) (c : Cpu) (run : Option (Cpu × List ℕ)) : Type 0 where
  pub after : Cpu
  pub addresses : List ℕ
  pub runs : run ≡ some (after, addresses)
  pub top : after.var esp + total ps ≡ c.var esp
  pub counted : length addresses ≡ length ps
  pub words : Words addresses
  pub held : AllHeld (after.var esp) after.mem addresses ps
  pub above : (b : ℕ) → c.var esp ≤ b → after.mem b ≡ c.mem b
  pub others : (v : Var) → same_var esp v ≡ false → after.var v ≡ c.var v

pub push_strings-AllHeld :
    (ps : List (List ℕ)) (c : Cpu)
    → AllChars ps
    → total ps ≤ c.var esp
    → c.var esp ≤ mem_size
    → Strings ps c (push_strings ps c)
unfolding push_strings
push_strings-AllHeld [] c chars lo hi = record {
  after = c;
  addresses = [];
  runs = refl;
  top = omega arith;
  counted = refl;
  words = tt;
  held = nil;
  above = λ b h. refl;
  others = λ v ne. refl;
}
push_strings-AllHeld (p ∷ ps) c chars lo hi =
    let rest = push_strings-AllHeld ps c chars.1 (omega arith) hi in
    let top = rest.top in
    let (d, runs, lower, held, outside, others) =
      push_string-Held p rest.after chars.0 (omega arith) (omega arith) in
    record {
      after = d;
      addresses = d.var esp ∷ rest.addresses;
      runs = rw (rest.runs, runs) refl;
      top = omega arith;
      counted = ap suc rest.counted;
      words = (omega arith, rest.words);
      held = cons (omega arith) held (
          AllHeld-lower (rest.after.var esp) (d.var esp) rest.after.mem d.mem (omega arith)
            (λ b h. outside b (inr h)) rest.held);
      above = λ b h. outside b (inr (omega arith)) ∙ rest.above b h;
      others = λ v ne. others v ne ∙ rest.others v ne;
    }
