-- ===== src/Libc/Memory/Block.antt =====
-- The block operations of libc/string.c, address by address.
use lxos.Base.{
  ℕ, zero, suc, ◌+◌, ◌-◌, ◌*◌, ◌/◌, ◌%◌, ◌≤◌, ◌<◌, ◌≡◌, ◌⊎◌, inl, inr, arith, if◌then◌else◌,
}
use lxos.Libc.Memory.{
  Ptr, Memory, put, within, copy_up, copy_down, memmove, stosb, stosl, put32, get32, splat, memset,
}

-- The forward loop is right when the target does not start inside the rest of the source.
pub copy_up_lem :
    (n : ℕ) (s d : Ptr) (m : Memory) (a : ℕ)
    → (d ≤ s) ⊎ (s + n ≤ d)
    → copy_up n s d m a ≡ (if within d n a then m (s + (a - d)) else m a)
unfolding copy_up put
copy_up_lem zero s d m a h = ground arith
copy_up_lem (suc n) s d m a h =
    ground (arith, copy_up_lem n (s + 1) (d + 1) (put m d (m s)) a (apart h))
  where
    apart : (d ≤ s) ⊎ (s + suc n ≤ d) → (d + 1 ≤ s + 1) ⊎ (s + 1 + n ≤ d + 1)
    apart (inl p) = inl (omega arith)
    apart (inr p) = inr (omega arith)

-- The backward loop, given the ends, is right when the source does not end inside the target.
copy_down_lem :
    (n : ℕ) (s d : Ptr) (m : Memory) (a : ℕ)
    → s < d
    → copy_down n (s + n) (d + n) m a ≡ (if within d n a then m (s + (a - d)) else m a)
unfolding copy_down put
copy_down_lem zero s d m a h = ground arith
copy_down_lem (suc n) s d m a h =
    let es : s + suc n - 1 ≡ s + n = omega arith in
    let ed : d + suc n - 1 ≡ d + n = omega arith in
    rw (es, ed) (ground (arith, copy_down_lem n s d (put m (d + n) (m (s + n))) a h))

-- memmove leaves in the `n` bytes at `dst` the bytes that stood at `src` before the call, whether
-- the two ranges overlap or not, and changes no other byte.
pub memmove_lem :
    (dst src : Ptr) (n : ℕ) (m : Memory) (a : ℕ)
    → memmove dst src n m a ≡ (if within dst n a then m (src + (a - dst)) else m a)
unfolding memmove
memmove_lem dst src n m a = ground (arith, copy_up_lem n src dst m a, copy_down_lem n src dst m a)

stosb_lem :
    (n : ℕ) (p : Ptr) (c : ℕ) (m : Memory) (a : ℕ)
    → stosb n p c m a ≡ (if within p n a then c % 256 else m a)
unfolding stosb put
stosb_lem zero p c m a = ground arith
stosb_lem (suc n) p c m a = ground (arith, stosb_lem n (p + 1) c (put m p (c % 256)) a)

put32-splat :
    (c : ℕ) (m : Memory) (p : Ptr) (a : ℕ)
    → c < 256
    → put32 m p (splat c) a ≡ (if within p 4 a then c else m a)
unfolding put32
put32-splat c m p a h =
    let e0 : splat c % 256 ≡ c = omega arith in
    let e1 : splat c / 256 % 256 ≡ c = omega arith in
    let e2 : splat c / 65536 % 256 ≡ c = omega arith in
    let e3 : splat c / 16777216 % 256 ≡ c = omega arith in rw (e0, e1, e2, e3) (ground arith)

stosl_lem :
    (n : ℕ) (p : Ptr) (c : ℕ) (m : Memory) (a : ℕ)
    → c < 256
    → stosl n p (splat c) m a ≡ (if within p (4 * n) a then c else m a)
unfolding stosl
stosl_lem zero p c m a h = ground arith
stosl_lem (suc n) p c m a h =
    ground (arith, stosl_lem n (p + 4) c (put32 m p (splat c)) a h, put32-splat c m p a h)

-- memset writes the low byte of `c` to the `n` bytes at `dst` and changes no other byte, on the
-- path that stores whole words as on the one that stores bytes.
pub memset_lem :
    (dst : Ptr) (c n : ℕ) (m : Memory) (a : ℕ)
    → memset dst c n m a ≡ (if within dst n a then c % 256 else m a)
unfolding memset
memset_lem dst c n m a = ground (arith, stosl_lem (n / 4) dst (c % 256) m a, stosb_lem n dst c m a)

-- A word reads back as it was stored.
pub get32-put32 : (m : Memory) (p : Ptr) (w : ℕ) → w < 4294967296 → get32 (put32 m p w) p ≡ w
unfolding get32 put32
get32-put32 m p w h = ground arith

pub put32-other : (x : Memory) (p w a : ℕ) → (a < p) ⊎ (p + 4 ≤ a) → put32 x p w a ≡ x a
unfolding put32
put32-other x p w a far = ground arith

-- the same bytes make the same number
pub get32-same :
    (x y : Memory) (p : ℕ) → ((a : ℕ) → p ≤ a → a < p + 4 → x a ≡ y a) → get32 x p ≡ get32 y p
unfolding get32
get32-same x y p same = rw (
  same p (omega arith) (omega arith),
  same (p + 1) (omega arith) (omega arith),
  same (p + 2) (omega arith) (omega arith),
  same (p + 3) (omega arith) (omega arith),
)
