-- ===== src/Memory.antt =====
-- The shared region that `start` points at, and the accesses of every file of src/ to it.
-- A pointer into the region is its offset from `start`, as `get_offset_for_data` gives it, and
-- NULL is 0. The region is an array of 64-bit words, each at its byte offset, a multiple of 8; a
-- narrower field is the bits of its word, least significant byte first.
use sosp_paper19_ae.Base.{
  ◌≡◌, refl, ◌≢◌, eq→==, ne→==, ℕ, ◌+◌, ◌-◌, ◌*◌, ◌/◌, ◌%◌, ◌^◌, ◌&&◌, ltb, leb, ◌==◌,
  if◌then◌else◌,
}

abbrev pub Mem : Type 0
Mem = ℕ → ℕ

-- `*(uint64_t*) (start + a) = v`
unfoldable pub store : Mem → ℕ → ℕ → Mem
store m a v b = if b == a then v else m b

pub store_self : (m : Mem) (a v : ℕ) → store m a v a ≡ v
unfolding store
store_self m a v = rw (eq→== a a refl) refl

pub store_other : (m : Mem) (a v b : ℕ) → b ≢ a → store m a v b ≡ m b
unfolding store
store_other m a v b ne = rw (ne→== b a ne) refl

-- `memset(start + a, 0, size)`
unfoldable pub memset : Mem → ℕ → ℕ → Mem
memset m a size b = if leb a b && ltb b (a + size) then 0 else m b

abbrev pub u16 : ℕ → ℕ
u16 n = n % 2 ^ 16

abbrev pub u32 : ℕ → ℕ
u32 n = n % 2 ^ 32

abbrev pub u64 : ℕ → ℕ
u64 n = n % 2 ^ 64

-- The halves of a word.
abbrev pub lo32 : ℕ → ℕ
lo32 w = w % 2 ^ 32

abbrev pub hi32 : ℕ → ℕ
hi32 w = w / 2 ^ 32 % 2 ^ 32

abbrev pub with_lo32 : ℕ → ℕ → ℕ
with_lo32 w v = hi32 w * 2 ^ 32 + v % 2 ^ 32

abbrev pub with_hi32 : ℕ → ℕ → ℕ
with_hi32 w v = v % 2 ^ 32 * 2 ^ 32 + lo32 w

-- The 16 bits of a word from bit 0 and from bit 16.
abbrev pub bits0 : ℕ → ℕ
bits0 w = w % 2 ^ 16

abbrev pub bits16 : ℕ → ℕ
bits16 w = w / 2 ^ 16 % 2 ^ 16

abbrev pub with_bits0 : ℕ → ℕ → ℕ
with_bits0 w v = w / 2 ^ 16 * 2 ^ 16 + v % 2 ^ 16

abbrev pub with_bits16 : ℕ → ℕ → ℕ
with_bits16 w v = w / 2 ^ 32 * 2 ^ 32 + v % 2 ^ 16 * 2 ^ 16 + w % 2 ^ 16

-- The low byte of a word, which holds a `bool`.
abbrev pub byte0 : ℕ → ℕ
byte0 w = w % 2 ^ 8

abbrev pub with_byte0 : ℕ → ℕ → ℕ
with_byte0 w v = w / 2 ^ 8 * 2 ^ 8 + v % 2 ^ 8

-- A `uint32_t` at an offset that is a multiple of 4.
unfoldable pub load32 : Mem → ℕ → ℕ
load32 m a = if a % 8 == 0 then lo32 (m a) else hi32 (m (a - 4))

unfoldable pub store32 : Mem → ℕ → ℕ → Mem
unfolding store
store32 m a v =
    if a % 8 == 0 then store m a (with_lo32 (m a) v) else store m (a - 4) (with_hi32 (m (a - 4)) v)

-- A command either returns, or traps on a NULL pointer or on a division by 0, or has run out of fuel.
pub data Run {ℓ} (A : Type ℓ) : Type ℓ where
  ok : A → Mem → Run A
  fault : Run A
  out_of_fuel : Run A

abbrev pub Cmd {ℓ} : Type ℓ → Type ℓ
Cmd A = Mem → Run A

abbrev pub pure {ℓ} : {A : Type ℓ} → A → Cmd A
pure = ok

abbrev pub and_then {ℓ κ} : {A : Type ℓ} {B : Type κ} → Run A → (A → Cmd B) → Run B
and_then (ok a m) k = k a m
and_then fault k = fault
and_then out_of_fuel k = out_of_fuel

infixl 5 ◌>>=◌ ◌>>◌
abbrev pub ◌>>=◌ {ℓ κ} : {A : Type ℓ} {B : Type κ} → Cmd A → (A → Cmd B) → Cmd B
m >>= k = λ h. and_then (m h) k

abbrev pub ◌>>◌ {ℓ} : {B : Type ℓ} → Cmd (Unit {0}) → Cmd B → Cmd B
m >> n = m >>= λ _. n

-- Reads of the region, and an update of it.
abbrev pub gets {ℓ} : {A : Type ℓ} → (Mem → A) → Cmd A
gets f m = ok (f m) m

abbrev pub modify : (Mem → Mem) → Cmd (Unit {0})
modify f m = ok tt (f m)

abbrev pub peek : ℕ → Cmd ℕ
peek a m = ok (m a) m

abbrev pub poke : ℕ → ℕ → Cmd (Unit {0})
poke a v m = ok tt (store m a v)

-- A use of `p->…`.
abbrev pub deref : ℕ → Cmd (Unit {0})
deref p m = if p == 0 then fault else ok tt m

-- A division by `d`.
abbrev pub divide_by : ℕ → Cmd (Unit {0})
divide_by d m = if d == 0 then fault else ok tt m
