-- ===== src/Instr/Shift/Trips.antt =====
-- SHL and SHR by an immediate count on a register.
use vm_i386_32bit.Base.{
  ℕ, ◌-◌, ◌*◌, ◌/◌, ◌%◌, ◌^◌, ◌<◌, ◌≡◌, refl, arith, Bool, true, false, not, same_bool, none,
  Option, some, ltb, ◌==◌, if◌then◌else◌, ◌||◌, ap, ◌∙◌,
}
use native.Mathlib.Nat.{mul-div_cancel, one-le-pow}
use vm_i386_32bit.Flags.{cf, of}
use vm_i386_32bit.Flags.Meaning.{Width, bits, bytes, byte, word, dword}
use vm_i386_32bit.Machine.{Cpu, Var, in_var, put, flag, set_var, same_var, eflags}
use vm_i386_32bit.Operand.{Insn, Operand, op_imm, advance, reg_place}
use vm_i386_32bit.Instr.Arith.{base_of, cmp_width}
use vm_i386_32bit.Instr.Arith.Registers.{IsRegister, low, low-small, merge, advance-var}
use vm_i386_32bit.Instr.Arith.Compare.{cmp_width-bytes, load-register}
use vm_i386_32bit.Instr.Move.Registers.{store-register}
use vm_i386_32bit.Instr.Shift.{
  raw_count, shift_count, shift_flags, shift_place, digit, sal_register, shr_register, shift_if,
  shl_i, shr_i,
}

shift_place-register :
    (w : Width) (v : Var) (out : ℕ → Bool) (f : ℕ → ℕ) (c : Cpu)
    → same_var eflags v ≡ false
    → shift_place (bytes w) (in_var v) out f c
      ≡ some (
        low w (merge w (c.var v) (f (low w (c.var v)))),
        set_var v (merge w (c.var v) (f (low w (c.var v)))) (put cf (out (low w (c.var v))) c),
      )
unfolding shift_place
shift_place-register w v out f c ne =
    let d = put cf (out (low w (c.var v))) c in
    let kept : d.var v ≡ c.var v = ground (arith, ne) in
    let self : same_var v v ≡ true = ground arith in
    rw (
      load-register w v c,
      load-register w v d,
      kept,
      store-register w v (f (low w (c.var v))) d,
      kept,
      load-register w v (set_var v (merge w (c.var v) (f (low w (c.var v)))) d),
      self,
    )

-- A count between 1 and the width less one.
shift_count-imm :
    (w : Width) (s1 k : ℕ) (op : Operand) (c : Cpu)
    → s1 ≡ bytes w
    → op.kind ≡ op_imm
    → op.imm ≡ k
    → k < bits w
    → shift_count s1 op c ≡ some k
unfolding shift_count raw_count
shift_count-imm w s1 k op c size kind imm h = rw (kind, imm, size) (in_width w k h)
  where
    in_width :
        (w : Width) (k : ℕ)
        → k < bits w
        → (if bytes w == 0 then none else some (k % 2 ^ 8 % (bytes w * 8))) ≡ some k
    in_width byte k h = ground arith
    in_width word k h = ground arith
    in_width dword k h = ground arith

var-shift_flags :
    (u : Var) (res base : ℕ) (c : Cpu)
    → same_var eflags u ≡ false
    → (shift_flags res base c).var u ≡ c.var u
unfolding shift_flags
var-shift_flags u res base c ne = ground arith

mem-shift_flags : (res base : ℕ) (c : Cpu) → (shift_flags res base c).mem ≡ c.mem
unfolding shift_flags
mem-shift_flags res base c = refl

-- Only flags differ between the two machines.
record SameButFlags (c d : Cpu) : Type 0 where
  vars : (u : Var) → same_var eflags u ≡ false → d.var u ≡ c.var u
  memory : d.mem ≡ c.mem

put_if-same : (b : Bool) (x : Bool) (c : Cpu) → SameButFlags c (if b then put of x c else c)
put_if-same true x c = record { vars = λ u ne. ground arith; memory = refl }
put_if-same false x c = record { vars = λ u ne. refl; memory = refl }

-- A shift that succeeds with `y` in the low bits of `v`.
record Shifted (w : Width) (v : Var) (y : ℕ) (c : Cpu) (run : Option (Cpu × ℕ)) : Type 0 where
  after : Cpu
  runs : run ≡ some (after, 0)
  target : after.var v ≡ merge w (c.var v) y
  others : (u : Var) → same_var v u ≡ false → same_var eflags u ≡ false → after.var u ≡ c.var u
  memory : after.mem ≡ c.mem

guard :
    (w : Width) (s k : ℕ)
    → s ≡ bytes w
    → 0 < k
    → k < bits w
    → (ltb 31 (s * 8 - k) || ltb 31 k) ≡ false
guard byte s k e lo hi = ground arith
guard word s k e lo hi = ground arith
guard dword s k e lo hi = ground arith

sized : (w : Width) (s : ℕ) → s ≡ bytes w → cmp_width s ≡ bytes w
sized w s e = ap cmp_width e ∙ cmp_width-bytes w

sal_register-Shifted :
    {w : Width} {v : Var} (k : ℕ) (op : Operand) (c : Cpu)
    → IsRegister w v op
    → 0 < k
    → k < bits w
    → Shifted w v (low w (c.var v) * 2 ^ k) c (sal_register k op c)
unfolding sal_register reg_place
sal_register-Shifted {w} {v} k op c dst lo hi =
    let a = low w (c.var v) in
    let d = set_var v (merge w (c.var v) (a * 2 ^ k)) (put cf (digit (op.size * 8 - k) a) c) in
    let res = low w (merge w (c.var v) (a * 2 ^ k)) in
    let o =
      if k == 1 then put of (not (same_bool (digit (op.size * 8 - 1) res) (flag cf d))) d else d in
    let s = put_if-same (k == 1) (not (same_bool (digit (op.size * 8 - 1) res) (flag cf d))) d in
    record {
      after = shift_flags res (base_of op.size) o;
      runs = rw (
        dst.variable,
        guard w op.size k dst.size lo hi,
        sized w op.size dst.size,
        shift_place-register w v (digit (op.size * 8 - k)) (λ x. x * 2 ^ k) c dst.not_eflags,
      );
      target =
          var-shift_flags v res (base_of op.size) o dst.not_eflags
          ∙ s.vars v dst.not_eflags
          ∙ ground arith;
      others = λ u nv nf. var-shift_flags u res (base_of op.size) o nf ∙ s.vars u nf ∙ ground arith;
      memory = mem-shift_flags res (base_of op.size) o ∙ s.memory;
    }

shr_register-Shifted :
    {w : Width} {v : Var} (k : ℕ) (op : Operand) (c : Cpu)
    → IsRegister w v op
    → 0 < k
    → k < bits w
    → Shifted w v (low w (c.var v) / 2 ^ k) c (shr_register k op c)
unfolding shr_register reg_place
shr_register-Shifted {w} {v} k op c dst lo hi =
    let a = low w (c.var v) in
    let d = set_var v (merge w (c.var v) (a / 2 ^ k)) (put cf (digit (k - 1) a) c) in
    let res = low w (merge w (c.var v) (a / 2 ^ k)) in
    let o = put of (if k == 1 then digit (op.size * 8 - 1) res else false) d in
    let n : ltb 31 k ≡ false = narrow w k hi in
    record {
      after = shift_flags res (base_of op.size) o;
      runs = rw (
        dst.variable,
        n,
        sized w op.size dst.size,
        shift_place-register w v (digit (k - 1)) (λ x. x / 2 ^ k) c dst.not_eflags,
      );
      target =
          var-shift_flags v res (base_of op.size) o dst.not_eflags ∙ ground (arith, dst.not_eflags);
      others = λ u nv nf. var-shift_flags u res (base_of op.size) o nf ∙ ground arith;
      memory = mem-shift_flags res (base_of op.size) o;
    }
  where
    narrow : (w : Width) (k : ℕ) → k < bits w → ltb 31 k ≡ false
    narrow byte k h = ground arith
    narrow word k h = ground arith
    narrow dword k h = ground arith

-- A register operand and an immediate count take the handler to its shift.
shift_if-register :
    {w : Width} {v : Var} (shift : ℕ → Operand → Cpu → Option (Cpu × ℕ)) (k : ℕ) (insn : Insn)
    (c : Cpu)
    → IsRegister w v insn.op1
    → insn.op2.kind ≡ op_imm
    → insn.op2.imm ≡ k
    → 0 < k
    → k < bits w
    → shift_if shift insn c ≡ shift k insn.op1 (advance insn c)
unfolding shift_if advance
shift_if-register {w} shift k insn c dst kind imm lo hi =
    let n : (k == 0) ≡ false = ground arith in
    simp (
      shift_count-imm w insn.op1.size k insn.op2 (advance insn c) dst.size kind imm hi,
      n,
      dst.kind,
    )

module _ {w : Width} {v : Var} (up down : Insn) (c : Cpu) (k : ℕ) (one : IsRegister w v up.op1)
    (two : IsRegister w v down.op1) (up_kind : up.op2.kind ≡ op_imm) (up_count : up.op2.imm ≡ k)
    (down_kind : down.op2.kind ≡ op_imm) (down_count : down.op2.imm ≡ k) (lo : 0 < k)
    (hi : k < bits w) (room : low w (c.var v) * 2 ^ k < 2 ^ bits w) where
  restored : (x : ℕ) → merge w (merge w x (low w x * 2 ^ k)) (low w x) ≡ x
  restored x = back w x (low w x * 2 ^ k)
    where
      back : (w : Width) (x y : ℕ) → merge w (merge w x y) (low w x) ≡ x
      back byte x y = omega arith
      back word x y = omega arith
      back dword x y = omega arith

  low-merge : (x y : ℕ) → low w (merge w x y) ≡ low w y
  low-merge x y = lower w x y
    where
      lower : (w : Width) (x y : ℕ) → low w (merge w x y) ≡ low w y
      lower byte x y = omega arith
      lower word x y = omega arith
      lower dword x y = omega arith

  -- For two operands that name the same register of 8, 16 or 32 bits, other than EIP and EFLAGS,
  -- and an immediate count k that is positive and below the width, where the number in the
  -- register times two to the k fits the width, SHL succeeds with that product in the register's
  -- low bits, and SHR by k on the machine that it leaves succeeds, brings the register back, and
  -- leaves the memory as it was before.
  pub shl_i-shr_i :
      (d : Cpu) × (shl_i up c ≡ some (d, 0))
      × (low w (d.var v) ≡ low w (c.var v) * 2 ^ k)
      × (e : Cpu) × (shr_i down d ≡ some (e, 0))
      × (e.var v ≡ c.var v)
      × (e.mem ≡ c.mem)
  unfolding shl_i shr_i advance
  shl_i-shr_i =
      let a = low w (c.var v) in
      let s = sal_register-Shifted k up.op1 (advance up c) one lo hi in
      let d = s.after in
      let kept : (advance up c).var v ≡ c.var v = advance-var up c v one.not_eip in
      let t = shr_register-Shifted k down.op1 (advance down d) two lo hi in
      let kept' : (advance down d).var v ≡ d.var v = advance-var down d v two.not_eip in
      let in_d : d.var v ≡ merge w (c.var v) (a * 2 ^ k) =
        s.target ∙ ap (λ x. merge w x (low w x * 2 ^ k)) kept in
      let shifted : low w (d.var v) ≡ a * 2 ^ k =
        ap (low w) in_d ∙ low-merge (c.var v) (a * 2 ^ k) ∙ low-small w (a * 2 ^ k) room in
      (
        d,
        shift_if-register sal_register k up c one up_kind up_count lo hi ∙ s.runs,
        shifted,
        t.after,
        shift_if-register shr_register k down d two down_kind down_count lo hi ∙ t.runs,
        t.target
            ∙ ap (λ x. merge w x (low w x / 2 ^ k)) kept'
            ∙ ap (λ y. merge w (d.var v) (y / 2 ^ k)) shifted
            ∙ ap (merge w (d.var v)) (mul-div_cancel a (one-le-pow k 2 (omega arith)))
            ∙ ap (λ x. merge w x a) in_d
            ∙ restored (c.var v),
        t.memory ∙ s.memory,
      )
