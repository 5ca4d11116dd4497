-- ===== src/Invariant/Rules.antt =====
-- What all defined results of a run have, by one rule for each way to put runs together.
use vm_i386_32bit.Base.{
  ap, subst, ℕ, zero, suc, ◌+◌, ◌/◌, ◌^◌, ◌<◌, ◌≡◌, refl, Bool, true, false, Option, none, some,
  arith, if◌then◌else◌, ◌>>=◌,
}
use vm_i386_32bit.Machine.{Cpu, Var, set_var, store_byte, store_bytes}
use vm_i386_32bit.Machine.State.{IsCpu}
use vm_i386_32bit.Operand.{Insn, OpType, op_invalid, op_reg, op_imm, op_mem, advance}
use vm_i386_32bit.Instr.Handler.{Handler}

pub data Gives {ℓ} {A : Type ℓ} (P : A → Type 0) : Option A → Type ℓ where
  undefined : Gives P none
  gives : {a : A} → P a → Gives P (some a)

module _ {ℓ} {A : Type ℓ} {P : A → Type 0} where
  pub Gives-at : {m : Option A} {a : A} → Gives P m → m ≡ some a → P a
  Gives-at undefined e = absurd cc
  Gives-at {a = a} (gives {a = x} p) e = subst P (ap (λ m. elim m [ some y ↦ y | none ↦ a ]) e) p

module _ {ℓ κ} {A : Type ℓ} {B : Type κ} {P : A → Type 0} {Q : B → Type 0} where
  pub Gives-bind :
      {m : Option A} {f : A → Option B}
      → Gives P m
      → ((a : A) → P a → Gives Q (f a))
      → Gives Q (m >>= f)
  Gives-bind undefined k = undefined
  Gives-bind (gives p) k = k _ p

module _ {ℓ κ} {A : Type ℓ} {B : Type κ} {Q : B → Type 0} where
  -- A step of which nothing is needed.
  pub Gives-skip : (m : Option A) (f : A → Option B) → ((a : A) → Gives Q (f a)) → Gives Q (m >>= f)
  Gives-skip none f k = undefined
  Gives-skip (some a) f k = k a

module _ {ℓ} {A : Type ℓ} {P : A → Type 0} where
  pub Gives-if : (b : Bool) {m n : Option A} → Gives P m → Gives P n → Gives P (if b then m else n)
  Gives-if true p q = p
  Gives-if false p q = q

module _ {ℓ} {A : Type ℓ} {P : A → Type 0} where
  -- The branches on the type of an operand.
  pub Gives-kind :
      (k : OpType) {invalid reg imm mem : Option A}
      → Gives P invalid
      → Gives P reg
      → Gives P imm
      → Gives P mem
      → Gives P (elim k [ op_invalid ↦ invalid | op_reg ↦ reg | op_imm ↦ imm | op_mem ↦ mem ])
  Gives-kind op_invalid p q r s = p
  Gives-kind op_reg p q r s = q
  Gives-kind op_imm p q r s = r
  Gives-kind op_mem p q r s = s

module _ {ℓ} {A : Type ℓ} {P : A → Type 0} where
  -- A test that the first branch relies on, and one that is an `elim`.
  pub Gives-when :
      (b : Bool) {m n : Option A}
      → (b ≡ true → Gives P m)
      → Gives P n
      → Gives P (if b then m else n)
  Gives-when true p q = p refl
  Gives-when false p q = q

  pub Gives-test :
      (b : Bool) {m n : Option A}
      → Gives P m
      → Gives P n
      → Gives P (elim b [ true ↦ m | false ↦ n ])
  Gives-test true p q = p
  Gives-test false p q = q

module _ {ℓ} {A : Type ℓ} {P Q : A → Type 0} where
  pub Gives-weaken : ((a : A) → P a → Q a) → {m : Option A} → Gives P m → Gives Q m
  Gives-weaken f undefined = undefined
  Gives-weaken f (gives p) = gives (f _ p)

-- A handler that keeps machines well-formed.
abbrev pub Keeps : Handler → Type 0
Keeps h = (insn : Insn) (c : Cpu) → IsCpu c → Gives (λ r. IsCpu r.0) (h insn c)

pub set_var-IsCpu : (v : Var) (x : ℕ) (c : Cpu) → x < 2 ^ 32 → IsCpu c → IsCpu (set_var v x c)
set_var-IsCpu v x c h ok = record { words = λ w. ground (arith, ok.words w); bytes = ok.bytes }

pub if-IsCpu : (b : Bool) (c d : Cpu) → IsCpu c → IsCpu d → IsCpu (if b then c else d)
if-IsCpu true c d p q = p
if-IsCpu false c d p q = q

pub pair-IsCpu : (b : Bool) (x y : Cpu × ℕ) → IsCpu x.0 → IsCpu y.0 → IsCpu (if b then x else y).0
pair-IsCpu true x y p q = p
pair-IsCpu false x y p q = q

pub advance-IsCpu : (insn : Insn) (c : Cpu) → IsCpu c → IsCpu (advance insn c)
unfolding advance
advance-IsCpu insn c ok = record { words = λ v. ground (arith, ok.words v); bytes = ok.bytes }

pub store_byte-IsCpu : (a x : ℕ) (c : Cpu) → IsCpu c → Gives IsCpu (store_byte a x c)
unfolding store_byte
store_byte-IsCpu a x c ok =
    Gives-if _ (gives (record { words = ok.words; bytes = λ b. ground (arith, ok.bytes b) }))
      undefined

pub store_bytes-IsCpu : (w a x : ℕ) (c : Cpu) → IsCpu c → Gives IsCpu (store_bytes w a x c)
unfolding store_bytes
store_bytes-IsCpu zero a x c ok = gives ok
store_bytes-IsCpu (suc w) a x c ok =
    Gives-bind (store_byte-IsCpu a x c ok) λ d ok'. store_bytes-IsCpu w (a + 1) (x / 2 ^ 8) d ok'

module _ {κ} {B : Type κ} {Q : B → Type 0} where
  -- A step that gives a machine.
  pub Gives-write :
      {m : Option Cpu} {f : Cpu → Option B}
      → Gives IsCpu m
      → ((c : Cpu) → IsCpu c → Gives Q (f c))
      → Gives Q (m >>= f)
  Gives-write = Gives-bind

  -- A step that gives a 32-bit number.
  pub Gives-read :
      {m : Option ℕ} {f : ℕ → Option B}
      → Gives (λ x. x < 2 ^ 32) m
      → ((x : ℕ) → x < 2 ^ 32 → Gives Q (f x))
      → Gives Q (m >>= f)
  Gives-read = Gives-bind

  -- A step that gives two numbers and a machine, and one that gives a machine and a code.
  pub Gives-rewrite :
      {m : Option (ℕ × ℕ × Cpu)} {f : ℕ × ℕ × Cpu → Option B}
      → Gives (λ r. IsCpu r.2) m
      → ((r : ℕ × ℕ × Cpu) → IsCpu r.2 → Gives Q (f r))
      → Gives Q (m >>= f)
  Gives-rewrite = Gives-bind

  pub Gives-run :
      {m : Option (Cpu × ℕ)} {f : Cpu × ℕ → Option B}
      → Gives (λ r. IsCpu r.0) m
      → ((r : Cpu × ℕ) → IsCpu r.0 → Gives Q (f r))
      → Gives Q (m >>= f)
  Gives-run = Gives-bind

  -- A step that gives a number and a machine.
  pub Gives-shift :
      {m : Option (ℕ × Cpu)} {f : ℕ × Cpu → Option B}
      → Gives (λ r. IsCpu r.1) m
      → ((r : ℕ × Cpu) → IsCpu r.1 → Gives Q (f r))
      → Gives Q (m >>= f)
  Gives-shift = Gives-bind

-- The results of a rewrite, and those of a handler.
abbrev pub Rewrites : Option (ℕ × ℕ × Cpu) → Type 0
Rewrites = Gives (λ r. IsCpu r.2)

abbrev pub Runs : Option (Cpu × ℕ) → Type 0
Runs = Gives (λ r. IsCpu r.0)
