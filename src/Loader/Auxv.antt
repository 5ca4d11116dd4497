-- ===== src/Loader/Auxv.antt =====
-- The auxiliary vector that read_auxv of src/loader.c pushes.
use mathlib.Core.List.{List, [], ◌∷◌}
use vm_i386_32bit.Base.{
  ℕ, zero, suc, ◌+◌, ◌^◌, ◌<◌, ◌≡◌, refl, ◌∙◌, arith, Bool, true, false, Option, none, some, length,
  get_elem?, ap, sym, subst, ◌||◌, ◌==◌, if◌then◌else◌, ◌>>=◌,
}
use vm_i386_32bit.Machine.{Cpu, u32, eip}
use vm_i386_32bit.Loader.{
  Values, Getter, get_at_phdr, get_at_phent, get_at_phnum, get_at_base, get_at_entry,
  get_at_generic, get_at_platform, get_at_base_platform, get_at_random, get_at_execfn, generic,
  getters, push_word, push_entries, read_auxv,
}
use vm_i386_32bit.Loader.Frame.{
  Pushes, Room, Room-less, Pushes-then, nothing-Pushes, push_word-Pushes,
}

-- The variables hold 32 bits.
pub record IsValues (g : Values) : Type 0 where
  pub ph_addr : g.ph_addr < 2 ^ 32
  pub ph_size : g.ph_size < 2 ^ 32
  pub ph_num : g.ph_num < 2 ^ 32
  pub platform_addr : g.platform_addr < 2 ^ 32
  pub execfn : g.execfn < 2 ^ 32
  pub rr : g.rr < 2 ^ 32

-- A getter gives 32 bits, and reads no register but EIP.
record IsGetter (f : Getter) : Type 0 where
  fits : (g : Values) (c : Cpu) (v : ℕ) → IsValues g → c.var eip < 2 ^ 32 → f g c v < 2 ^ 32
  reads : (g : Values) (c d : Cpu) (v : ℕ) → d.var eip ≡ c.var eip → f g d v ≡ f g c v

data AllGetters : List Getter → Type 0 where
  nil : AllGetters []
  cons : {f : Getter} {fs : List Getter} → IsGetter f → AllGetters fs → AllGetters (f ∷ fs)

infixr 5 ◌&◌
◌&◌ : {f : Getter} {fs : List Getter} → IsGetter f → AllGetters fs → AllGetters (f ∷ fs)
p & ps = cons p ps

generic-AllGetters : (n : ℕ) (rest : List Getter) → AllGetters rest → AllGetters (generic n rest)
unfolding generic get_at_generic
generic-AllGetters zero rest ok = ok
generic-AllGetters (suc n) rest ok =
    record { fits = λ g c v ok small. omega arith; reads = λ g c d v e. refl }
    & generic-AllGetters n rest ok

getters-AllGetters : AllGetters getters
unfolding getters get_at_phdr get_at_phent get_at_phnum get_at_base get_at_entry get_at_generic
    get_at_platform get_at_base_platform get_at_random get_at_execfn
getters-AllGetters = generic-AllGetters 3 _ (
    field (λ g. g.ph_addr) (λ g ok. ok.ph_addr)
    & field (λ g. g.ph_size) (λ g ok. ok.ph_size)
    & field (λ g. g.ph_num) (λ g ok. ok.ph_num)
    & value
    & field (λ g. 0) (λ g ok. omega arith)
    & value
    & record { fits = λ g c v ok small. small; reads = λ g c d v e. e }
    & generic-AllGetters 5 _ (
        field (λ g. g.platform_addr) (λ g ok. ok.platform_addr)
        & generic-AllGetters 8 _ (
            field (λ g. g.platform_addr) (λ g ok. ok.platform_addr)
            & field (λ g. g.rr) (λ g ok. ok.rr)
            & generic-AllGetters 5 _
                (field (λ g. g.execfn) (λ g ok. ok.execfn) & generic-AllGetters 21 [] nil))))
  where
    value : IsGetter get_at_generic
    value = record { fits = λ g c v ok small. omega arith; reads = λ g c d v e. refl }

    field : (f : Values → ℕ) → ((g : Values) → IsValues g → f g < 2 ^ 32) → IsGetter (λ g c v. f g)
    field f small = record { fits = λ g c v ok _. small g ok; reads = λ g c d v e. refl }

-- A place of a list of getters.
getter_at :
    (fs : List Getter) (t : ℕ)
    → AllGetters fs
    → t < length fs
    → (f : Getter) × (get_elem? fs t ≡ some f) × IsGetter f
getter_at [] t nil h = absurd (omega arith)
getter_at (f ∷ fs) zero (cons good ok) h = (f, refl, good)
getter_at (f ∷ fs) (suc t) (cons good ok) h = getter_at fs t ok (omega arith)

getters-length : length getters ≡ 53
unfolding getters generic
getters-length = refl

-- What the getter of an entry's type gives.
abbrev pub value_of : Values → Cpu → (a_type a_val : ℕ) → ℕ
value_of g c a_type a_val = elim (get_elem? getters a_type) [ some f ↦ f g c a_val | none ↦ 0 ]

-- The entries before the first AT_NULL and without those of the two skipped types, the last one
-- first, in front of the words `ws`; and their number.
abbrev pub vector : Values → Cpu → List (ℕ × ℕ) → List ℕ → List ℕ
vector g c [] ws = ws
vector g c ((a_type, a_val) ∷ entries) ws =
    if a_type == 0
    then ws
    else if a_type == 32 || a_type == 33
    then vector g c entries ws
    else vector g c entries (u32 a_type ∷ value_of g c a_type a_val ∷ ws)

abbrev pub count : List (ℕ × ℕ) → ℕ
count [] = 0
count ((a_type, a_val) ∷ entries) =
    if a_type == 0
    then 0
    else if a_type == 32 || a_type == 33
    then count entries
    else 2 + count entries

-- The types are those of the table.
abbrev pub Known : List (ℕ × ℕ) → Type 0
Known [] = Unit {0}
Known ((a_type, a_val) ∷ entries) = (a_type < 53) × Known entries

Pushes-if :
    (b : Bool) {n m : ℕ} {us ws vs : List ℕ} {d : Cpu} {run other : Option Cpu}
    → Room (if b then n else m) us d
    → (Room n us d → Pushes n ws d run)
    → (Room m us d → Pushes m vs d other)
    → Pushes (if b then n else m) (if b then ws else vs) d (if b then run else other)
Pushes-if true room p q = p room
Pushes-if false room p q = q room

module _ (g : Values) (c : Cpu) (ok : IsValues g) (small : c.var eip < 2 ^ 32) where
  push_entries-Pushes :
      (entries : List (ℕ × ℕ)) (ws : List ℕ) (d : Cpu)
      → Known entries
      → d.var eip ≡ c.var eip
      → Room (count entries) ws d
      → Pushes (count entries) (vector g c entries ws) d (push_entries g entries d)
  unfolding push_entries
  push_entries-Pushes [] ws d known same room = nothing-Pushes ws d room
  push_entries-Pushes ((a_type, a_val) ∷ entries) ws d known same room =
      Pushes-if (a_type == 0) room (nothing-Pushes ws d) λ room.
        Pushes-if (a_type == 32 || a_type == 33) room
          (push_entries-Pushes entries ws d known.1 same)
          λ room.
            let length_53 = getters-length in
            let (f, at, good) = getter_at getters a_type getters-AllGetters (omega arith) in
            let value : value_of g c a_type a_val ≡ f g c a_val =
              ap (λ m. elim m [ some f ↦ f g c a_val | none ↦ 0 ]) at in
            let fits : value_of g c a_type a_val < 2 ^ 32 =
              rw value (good.fits g c a_val ok small) in
            let read : f g d a_val ≡ value_of g c a_type a_val =
              good.reads g c d a_val same ∙ sym value in
            let rest : ℕ → Option Cpu = λ x.
              push_word x d >>= λ e. push_word (u32 a_type) e >>= λ h. push_entries g entries h in
            let run : (get_elem? getters a_type >>= λ getter. rest (getter g d a_val))
                ≡ rest (value_of g c a_type a_val) =
              ap (λ m. m >>= λ getter. rest (getter g d a_val)) at ∙ ap rest read in
            subst
              (λ r.
                Pushes (2 + count entries)
                  (vector g c entries (u32 a_type ∷ value_of g c a_type a_val ∷ ws)) d r)
              (sym run)
              (Pushes-then (suc (count entries)) _ (omega arith) room
                (push_word-Pushes (value_of g c a_type a_val) ws d fits
                  (Room-less (omega arith) room))
                λ e kept room.
                  Pushes-then (count entries) (push_entries g entries) (omega arith) room
                    (push_word-Pushes (u32 a_type) (value_of g c a_type a_val ∷ ws) e (omega arith)
                      (Room-less (omega arith) room))
                    λ h kept_too room.
                      push_entries-Pushes entries _ h known.1
                        (kept_too eip refl ∙ kept eip refl ∙ same) room)

  pub read_auxv-Pushes :
      (entries : List (ℕ × ℕ)) (d : Cpu)
      → Known entries
      → d.var eip ≡ c.var eip
      → Room (2 + count entries) [] d
      → Pushes (2 + count entries) (vector g c entries (0 ∷ 0 ∷ [])) d (read_auxv g entries d)
  unfolding read_auxv
  read_auxv-Pushes entries d known same room =
      Pushes-then (suc (count entries)) _ (omega arith) room
        (push_word-Pushes 0 [] d (omega arith) (Room-less (omega arith) room))
        λ e kept room.
          Pushes-then (count entries) (push_entries g entries) (omega arith) room
            (push_word-Pushes 0 (0 ∷ []) e (omega arith) (Room-less (omega arith) room))
            λ h kept_too room.
              push_entries-Pushes entries _ h known (kept_too eip refl ∙ kept eip refl ∙ same) room
