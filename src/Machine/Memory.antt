-- ===== src/Machine/Memory.antt =====
-- Laws of the memory accessors.
use vm_i386_32bit.Base.{
  ℕ, zero, suc, ◌+◌, ◌*◌, ◌/◌, ◌%◌, ◌^◌, ◌≤◌, ◌<◌, ◌≡◌, refl, arith, bit_and, some, bit_and-low,
  bit_or-bytes, bit_or-fields, bit_or_comm, ◌∙◌, ◌⊎◌, lt→ltb, ◌==◌, if◌then◌else◌, Option, none,
  ◌>>=◌, ap,
}
use native.Mathlib.Nat.{pow-suc, div-div-eq-div-mul}
use native.Mathlib.Numerals.{towards_suc}
use vm_i386_32bit.Machine.{
  Cpu, mem_size, u32, load_byte, store_byte, load_bytes, store_bytes, write32, read16, read32,
}

-- The number in `w` bytes from `a` on, and the memory after a number was written there.
unfoldable pub peek : ℕ → ℕ → (ℕ → ℕ) → ℕ
peek zero a m = 0
peek (suc w) a m = m a + 2 ^ 8 * peek w (a + 1) m

unfoldable pub poke : ℕ → ℕ → ℕ → (ℕ → ℕ) → ℕ → ℕ
poke zero a x m = m
poke (suc w) a x m = poke w (a + 1) (x / 2 ^ 8) (λ b. if a == b then x % 2 ^ 8 else m b)

-- Inside the allocation an access is defined.
pub load_bytes-peek :
    (w a : ℕ) (c : Cpu) → a + w ≤ mem_size → load_bytes w a c ≡ some (peek w a c.mem)
unfolding load_bytes load_byte peek
load_bytes-peek zero a c h = refl
load_bytes-peek (suc w) a c h =
    rw (lt→ltb a mem_size (omega arith), load_bytes-peek w (a + 1) c (omega arith))

pub store_bytes-poke :
    (w a x : ℕ) (c : Cpu)
    → a + w ≤ mem_size
    → store_bytes w a x c ≡ some (record c { mem = poke w a x c.mem })
unfolding store_bytes store_byte poke
store_bytes-poke zero a x c h = refl
store_bytes-poke (suc w) a x c h =
    rw (lt→ltb a mem_size (omega arith)) (store_bytes-poke w (a + 1) (x / 2 ^ 8) _ (omega arith))

pub poke_below : (w a x b : ℕ) (m : ℕ → ℕ) → b < a → poke w a x m b ≡ m b
unfolding poke
poke_below zero a x b m h = refl
poke_below (suc w) a x b m h =
    ground (arith, poke_below w (a + 1) (x / 2 ^ 8) b (λ d. if a == d then x % 2 ^ 8 else m d))

pub poke_above : (w a x b : ℕ) (m : ℕ → ℕ) → a + w ≤ b → poke w a x m b ≡ m b
unfolding poke
poke_above zero a x b m h = refl
poke_above (suc w) a x b m h =
    ground (arith, poke_above w (a + 1) (x / 2 ^ 8) b (λ d. if a == d then x % 2 ^ 8 else m d))

-- A number of `w + 1` bytes is its lowest byte and the rest.
mod-suc : (w x : ℕ) → x % 2 ^ (8 * suc w) ≡ x % 2 ^ 8 + 2 ^ 8 * (x / 2 ^ 8 % 2 ^ (8 * w))
mod-suc w x = omega (
  arith,
  wide,
  quot,
  ap (λ (t : ℕ). t * (x / 2 ^ (8 * suc w))) wide,
  ap (λ (t : ℕ). 2 ^ (8 * w) * t) quot,
)
  where
    wide : 2 ^ (8 * suc w) ≡ 2 ^ 8 * 2 ^ (8 * w)
    wide = rw (eight w) (simp towards_suc (simp pow-suc (omega arith)))
      where
        eight : (n : ℕ) → 8 * suc n ≡ 8 * n + 8
        eight n = omega arith

    quot : x / 2 ^ (8 * suc w) ≡ x / 2 ^ 8 / 2 ^ (8 * w)
    quot = rw (wide, ← div-div-eq-div-mul x (2 ^ 8) (2 ^ (8 * w)))

pub peek-poke : (w a x : ℕ) (m : ℕ → ℕ) → peek w a (poke w a x m) ≡ x % 2 ^ (8 * w)
unfolding peek poke
peek-poke zero a x m = omega arith
peek-poke (suc w) a x m = ground (
  arith,
  poke_below w (a + 1) (x / 2 ^ 8) a (λ d. if a == d then x % 2 ^ 8 else m d),
  peek-poke w (a + 1) (x / 2 ^ 8) (λ d. if a == d then x % 2 ^ 8 else m d),
  mod-suc w x,
)

-- A read at one place is untouched by a write at another.
pub peek-poke_apart :
    (v w a b x : ℕ) (m : ℕ → ℕ) → (a + v ≤ b) ⊎ (b + w ≤ a) → peek v a (poke w b x m) ≡ peek v a m
unfolding peek
peek-poke_apart zero w a b x m h = refl
peek-poke_apart (suc v) w a b x m h =
    ground (arith, poke_below w b x a m, poke_above w b x a m, peek-poke_apart v w (a + 1) b x m)

-- A read depends on its own bytes alone.
pub peek-same :
    (w a : ℕ) (m n : ℕ → ℕ) → ((b : ℕ) → a ≤ b → b < a + w → m b ≡ n b) → peek w a m ≡ peek w a n
unfolding peek
peek-same zero a m n h = refl
peek-same (suc w) a m n h = ground (
  arith,
  h a (omega arith) (omega arith),
  peek-same w (a + 1) m n (λ b lo hi. h b (omega arith) (omega arith)),
)

store_byte-low : (a x : ℕ) (c : Cpu) → store_byte a (bit_and x 0xFF) c ≡ store_byte a x c
unfolding store_byte
store_byte-low a x c = rw (bit_and-low 8 x, mod_mod x)
  where
    mod_mod : (n : ℕ) → n % 2 ^ 8 % 2 ^ 8 ≡ n % 2 ^ 8
    mod_mod n = omega arith

bind-some {ℓ} : {A : Type ℓ} (m : Option A) → (m >>= some) ≡ m
bind-some none = refl
bind-some (some x) = refl

-- Where no address wraps, the accessors of the stack are plain little-endian accesses.
pub write32-store_bytes :
    (a x : ℕ) (c : Cpu) → a + 4 ≤ mem_size → write32 a x c ≡ store_bytes 4 a x c
unfolding write32 store_bytes
write32-store_bytes a x c h = simp (
  store_byte-low,
  let e : u32 (a + 1) ≡ a + 1 = omega arith in e,
  let e : u32 (a + 2) ≡ a + 1 + 1 = omega arith in e,
  let e : u32 (a + 3) ≡ a + 1 + 1 + 1 = omega arith in e,
  let e : x / 2 ^ 16 ≡ x / 2 ^ 8 / 2 ^ 8 = omega arith in e,
  let e : x / 2 ^ 24 ≡ x / 2 ^ 8 / 2 ^ 8 / 2 ^ 8 = omega arith in e,
  bind-some,
)

pub read32-load_bytes :
    (a : ℕ) (c : Cpu)
    → ((b : ℕ) → c.mem b < 2 ^ 8)
    → a + 4 ≤ mem_size
    → read32 a c ≡ some (peek 4 a c.mem)
unfolding read32 load_byte peek
read32-load_bytes a c bytes h =
    rw
      (
        lt→ltb a mem_size (omega arith),
        let e : u32 (a + 1) ≡ a + 1 = omega arith in e,
        let e : u32 (a + 2) ≡ a + 1 + 1 = omega arith in e,
        let e : u32 (a + 3) ≡ a + 1 + 1 + 1 = omega arith in e,
        lt→ltb (a + 1) mem_size (omega arith),
        lt→ltb (a + 1 + 1) mem_size (omega arith),
        lt→ltb (a + 1 + 1 + 1) mem_size (omega arith),
      )
      (ap some (bit_or-bytes _ _ _ (c.mem (a + 1 + 1 + 1)) (bytes _) (bytes _) (bytes _)))

pub read16-load_bytes :
    (a : ℕ) (c : Cpu)
    → ((b : ℕ) → c.mem b < 2 ^ 8)
    → a + 2 ≤ mem_size
    → read16 a c ≡ some (peek 2 a c.mem)
unfolding read16 load_byte peek
read16-load_bytes a c bytes h =
    rw
      (
        lt→ltb a mem_size (omega arith),
        let e : u32 (a + 1) ≡ a + 1 = omega arith in e,
        lt→ltb (a + 1) mem_size (omega arith),
        bit_or_comm (c.mem a) (c.mem (a + 1) * 2 ^ 8),
        bit_or-fields 8 (c.mem (a + 1)) (c.mem a) (bytes a),
      )
      (ap some (omega arith))

-- Two bytes are the low half of four.
pub peek-half : (a : ℕ) (m : ℕ → ℕ) → ((b : ℕ) → m b < 2 ^ 8) → peek 2 a m ≡ peek 4 a m % 2 ^ 16
unfolding peek
peek-half a m bytes = omega (arith, bytes a, bytes (a + 1))

poke-bytes : (w a x : ℕ) (m : ℕ → ℕ) → ((b : ℕ) → m b < 2 ^ 8) → (b : ℕ) → poke w a x m b < 2 ^ 8
unfolding poke
poke-bytes zero a x m h b = h b
poke-bytes (suc w) a x m h b =
    poke-bytes w (a + 1) (x / 2 ^ 8) (λ d. if a == d then x % 2 ^ 8 else m d)
      (λ d. ground (arith, h d)) b

module _ (a x : ℕ) (c : Cpu) (bytes : (b : ℕ) → c.mem b < 2 ^ 8) (room : a + 4 ≤ mem_size) where
  -- For an address whose four bytes lie in the allocation of a memory of bytes, write32 succeeds,
  -- read32 at the address then returns the value modulo two to the 32, and every byte below the
  -- address and from four above it on is as it was.
  pub read32-write32 :
      (d : Cpu) × (write32 a x c ≡ some d)
      × (read32 a d ≡ some (x % 2 ^ 32))
      × ((b : ℕ) → (b < a) ⊎ (a + 4 ≤ b) → d.mem b ≡ c.mem b)
  read32-write32 =
      let d = record c { mem = poke 4 a x c.mem } in
      (
        d,
        write32-store_bytes a x c room ∙ store_bytes-poke 4 a x c room,
        read32-load_bytes a d (poke-bytes 4 a x c.mem bytes) room ∙ ap some (peek-poke 4 a x c.mem),
        λ b h. ground (arith, poke_below 4 a x b c.mem, poke_above 4 a x b c.mem),
      )
