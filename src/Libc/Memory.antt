-- ===== src/Libc/Memory.antt =====
-- The flat memory that a C pointer reads and writes, and the block operations over it: memset and
-- memmove of libc/string.c, memory_copy and memory_set of libc/mem.c. An address is a number, and
-- a byte is the number that a memory holds there.
pub mod Block
use lxos.Base.{
  ℕ, zero, suc, ◌+◌, ◌-◌, ◌*◌, ◌/◌, ◌%◌, ◌^◌, Bool, ◌&&◌, ltb, leb, ◌==◌, if◌then◌else◌,
}

abbrev pub Ptr : Type 0
Ptr = ℕ

abbrev pub Memory : Type 0
Memory = ℕ → ℕ

-- `*p = v` for a byte `v`
unfoldable pub put : Memory → Ptr → ℕ → Memory
put m p v q = if q == p then v else m q

-- `a` is one of the `n` addresses from `p` on
abbrev pub within : Ptr → ℕ → ℕ → Bool
within p n a = leb p a && ltb a (p + n)

-- the forward loop of memmove, `*d++ = *s++`, which is memory_copy's loop too
unfoldable pub copy_up : ℕ → (s d : Ptr) → Memory → Memory
copy_up zero s d m = m
copy_up (suc n) s d m = copy_up n (s + 1) (d + 1) (put m d (m s))

-- the backward loop, `*--d = *--s`, from the two ends
unfoldable pub copy_down : ℕ → (s d : Ptr) → Memory → Memory
copy_down zero s d m = m
copy_down (suc n) s d m = copy_down n (s - 1) (d - 1) (put m (d - 1) (m (s - 1)))

unfoldable pub memmove : (dst src : Ptr) → ℕ → Memory → Memory
unfolding copy_up copy_down
memmove dst src n m =
    if ltb src dst && ltb dst (src + n)
    then copy_down n (src + n) (dst + n) m
    else copy_up n src dst m

-- `rep stosb`: `n` copies of the low byte of `c`
unfoldable pub stosb : ℕ → Ptr → ℕ → Memory → Memory
stosb zero p c m = m
stosb (suc n) p c m = stosb n (p + 1) c (put m p (c % 256))

-- a 32-bit store, least significant byte first
unfoldable pub put32 : Memory → Ptr → ℕ → Memory
unfolding put
put32 m p w =
    put (put (put (put m p (w % 256)) (p + 1) (w / 256 % 256)) (p + 2) (w / 65536 % 256)) (p + 3)
      (w / 16777216 % 256)

unfoldable pub get32 : Memory → Ptr → ℕ
get32 m p = m p + 256 * m (p + 1) + 65536 * m (p + 2) + 16777216 * m (p + 3)

-- `rep stosl`: `n` copies of the word `w`
unfoldable pub stosl : ℕ → Ptr → ℕ → Memory → Memory
unfolding put32
stosl zero p w m = m
stosl (suc n) p w m = stosl n (p + 4) w (put32 m p w)

-- `(c<<24)|(c<<16)|(c<<8)|c` for a byte `c`: the four fields do not overlap
abbrev splat : ℕ → ℕ
splat c = c * 16777216 + c * 65536 + c * 256 + c

unfoldable pub memset : (dst : Ptr) → (c n : ℕ) → Memory → Memory
unfolding stosb stosl
memset dst c n m =
    if dst % 4 == 0 && n % 4 == 0 then stosl (n / 4) dst (splat (c % 256)) m else stosb n dst c m

-- libc/mem.c; a `nbytes` below 1 copies nothing
unfoldable pub memory_copy : (source dest : Ptr) → (nbytes : ℕ) → Memory → Memory
unfolding copy_up
memory_copy source dest nbytes m = copy_up nbytes source dest m

unfoldable pub memory_set : (dest : Ptr) → (val len : ℕ) → Memory → Memory
unfolding stosb
memory_set dest val len m = stosb len dest val m
