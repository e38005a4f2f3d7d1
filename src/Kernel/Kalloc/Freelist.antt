-- ===== src/Kernel/Kalloc/Freelist.antt =====
-- The list of free pages of kernel/kalloc.c.
use lxos.Base.{
  ℕ, zero, suc, ◌+◌, ◌-◌, ◌/◌, ◌%◌, ◌<◌, ◌≤◌, ◌≡◌, ◌≢◌, ◌⊎◌, false, refl, sym, arith, ◌==◌, ◌∙◌,
  Bool-cases, inl, inr, leb, leb→le, List, [], ◌∷◌, All,
}
use mathlib.Core.Path.{subst}
use native.Mathlib.Decide.{dec_lt}
use lxos.Libc.Memory.{Ptr, Memory, put32, get32, memset, put}
use lxos.Libc.Memory.Block.{memset_lem, get32-put32}
use lxos.Kernel.Kalloc.{Kmem, kfree, kalloc, freerange_loop, freerange, pg_round_up}

-- a page address: aligned, not null, and a 32-bit word
pub record IsPage (p : Ptr) : Type 0 where
  pub aligned : p % 4096 ≡ 0
  pub ne_null : 0 < p
  pub word : p < 4294967296

-- from `p` on the list runs through the distinct pages `xs` and ends
abbrev pub Links : Memory → Ptr → List Ptr → Type 0
Links m p [] = p ≡ 0
Links m p (x ∷ xs) = (p ≡ x) × IsPage x × All (λ y. x ≢ y) xs × Links m (get32 m x) xs

abbrev pub tail : List Ptr → List Ptr
tail [] = []
tail (x ∷ xs) = xs

abbrev pub head_or : Ptr → List Ptr → Ptr
head_or d [] = d
head_or d (x ∷ xs) = x

abbrev pub IsFree : Kmem → List Ptr → Type 0
IsFree k xs = Links k.mem k.freelist xs

put32_outside : (m : Memory) (v w a : ℕ) → (a < v) ⊎ (v + 3 < a) → put32 m v w a ≡ m a
unfolding put32 put
put32_outside m v w a (inl h) = ground arith
put32_outside m v w a (inr h) = ground arith

aligned : (a : ℕ) → pg_round_up a % 4096 ≡ 0
unfolding pg_round_up
aligned a = omega arith

positive : (a : ℕ) → 0 < a → a + 4095 < 4294967296 → 0 < pg_round_up a
unfolding pg_round_up
positive a pos small = omega arith

memset_outside :
    (dst c n : ℕ) (m : Memory) (a : ℕ) → (a < dst) ⊎ (dst + n ≤ a) → memset dst c n m a ≡ m a
memset_outside dst c n m a (inl h) = ground (arith, memset_lem dst c n m a)
memset_outside dst c n m a (inr h) = ground (arith, memset_lem dst c n m a)

-- kfree writes inside the freed page alone.
pub kfree_frame :
    (v : Ptr) (k : Kmem) (a : ℕ) → (a < v) ⊎ (v + 4095 < a) → (kfree v k).mem a ≡ k.mem a
unfolding kfree
kfree_frame v k a (inl h) =
    put32_outside (memset v 1 4096 k.mem) v k.freelist a (inl h)
    ∙ memset_outside v 1 4096 k.mem a (inl h)
kfree_frame v k a (inr h) =
    put32_outside (memset v 1 4096 k.mem) v k.freelist a (inr (omega arith))
    ∙ memset_outside v 1 4096 k.mem a (inr (omega arith))

get32-kfree :
    (v : Ptr) (k : Kmem) (x : Ptr)
    → IsPage v
    → IsPage x
    → v ≢ x
    → get32 (kfree v k).mem x ≡ get32 k.mem x
unfolding get32
get32-kfree v k x pv px ne = elim (dec_lt x v) [
  | yes lt ↦ ground (
    arith,
    kfree_frame v k x (inl (omega arith)),
    kfree_frame v k (x + 1) (inl (omega arith)),
    kfree_frame v k (x + 2) (inl (omega arith)),
    kfree_frame v k (x + 3) (inl (omega arith)),
  )
  | no ge ↦ ground (
    arith,
    kfree_frame v k x (inr (omega arith)),
    kfree_frame v k (x + 1) (inr (omega arith)),
    kfree_frame v k (x + 2) (inr (omega arith)),
    kfree_frame v k (x + 3) (inr (omega arith)),
  )
]

Links-kfree :
    (v : Ptr) (k : Kmem) (p : Ptr) (xs : List Ptr)
    → IsPage v
    → All (λ y. v ≢ y) xs
    → Links k.mem p xs
    → Links (kfree v k).mem p xs
Links-kfree v k p [] pv out l = l
Links-kfree v k p (x ∷ xs) pv out (e, px, new, rest) = (
  e,
  px,
  new,
  rw (get32-kfree v k x pv px out.0) (Links-kfree v k (get32 k.mem x) xs pv out.1 rest),
)

-- the list is a list of 32-bit words
freelist-word : (k : Kmem) (xs : List Ptr) → IsFree k xs → k.freelist < 4294967296
freelist-word k [] h = omega arith
freelist-word k (x ∷ xs) (e, px, new, rest) = omega (arith, px.word)

-- kfree of a page that is not free puts it in front of the free pages.
pub kfree-IsFree :
    (v : Ptr) (k : Kmem) (xs : List Ptr)
    → IsPage v
    → All (λ y. v ≢ y) xs
    → IsFree k xs
    → IsFree (kfree v k) (v ∷ xs)
unfolding kfree
kfree-IsFree v k xs pv out h =
    let back : get32 (kfree v k).mem v ≡ k.freelist =
      get32-put32 (memset v 1 4096 k.mem) v k.freelist (freelist-word k xs h) in
    (refl, pv, out, rw back (Links-kfree v k k.freelist xs pv out h))

-- kalloc takes the first free page, and the others stay free; with no free page it returns 0 and
-- changes nothing. It never writes memory.
pub kalloc-IsFree :
    (k : Kmem) (xs : List Ptr)
    → IsFree k xs
    → IsFree (kalloc k).1 (tail xs) × ((kalloc k).0 ≡ head_or 0 xs) × ((kalloc k).1.mem ≡ k.mem)
unfolding kalloc
kalloc-IsFree k [] h = rw h (refl, refl, refl)
kalloc-IsFree k (x ∷ xs) (e, px, new, rest) =
    let some_page : (k.freelist == 0) ≡ false = ground (arith, px.ne_null) in
    rw some_page (subst (λ y. Links k.mem (get32 k.mem y) xs) (sym e) rest, e, refl)

-- `n` pages from `p` on, the last one first, and behind them `xs`
unfoldable pub freed : ℕ → Ptr → List Ptr → List Ptr
freed zero p xs = xs
freed (suc n) p xs = freed n (p + 4096) (p ∷ xs)

-- none of the pages lies between `p` and `vend`
abbrev pub Outside : (p vend : Ptr) → List Ptr → Type 0
Outside p vend xs = All (λ y. (y < p) ⊎ (vend ≤ y)) xs

Outside-new : (p vend : Ptr) (xs : List Ptr) → p < vend → Outside p vend xs → All (λ y. p ≢ y) xs
Outside-new p vend [] lt o = tt
Outside-new p vend (y ∷ xs) lt (inl h, o) = (omega arith, Outside-new p vend xs lt o)
Outside-new p vend (y ∷ xs) lt (inr h, o) = (omega arith, Outside-new p vend xs lt o)

Outside-next : (p vend : Ptr) (xs : List Ptr) → Outside p vend xs → Outside (p + 4096) vend xs
Outside-next p vend [] o = tt
Outside-next p vend (y ∷ xs) (inl h, o) = (inl (omega arith), Outside-next p vend xs o)
Outside-next p vend (y ∷ xs) (inr h, o) = (inr h, Outside-next p vend xs o)

freerange_loop-IsFree :
    (rounds : ℕ) (p vend : Ptr) (k : Kmem) (xs : List Ptr)
    → (vend - p) / 4096 < rounds
    → p % 4096 ≡ 0
    → 0 < p
    → vend ≤ 4294967296
    → Outside p vend xs
    → IsFree k xs
    → IsFree (freerange_loop rounds p vend k) (freed ((vend - p) / 4096) p xs)
unfolding freerange_loop freed
freerange_loop-IsFree zero p vend k xs r al pos top o h = absurd (omega arith)
freerange_loop-IsFree (suc rounds) p vend k xs r al pos top o h =
    elim (Bool-cases (leb (p + 4096) vend)) [
      | inl fits ↦
          let le : p + 4096 ≤ vend = leb→le _ _ fits in
          let count : (vend - p) / 4096 ≡ suc ((vend - (p + 4096)) / 4096) = omega arith in
          let page : IsPage p = record { aligned = al; ne_null = pos; word = omega arith } in
          rw (fits, count)
            (freerange_loop-IsFree rounds (p + 4096) vend (kfree p k) (p ∷ xs) (omega arith)
              (omega arith) (omega arith) top (inl (omega arith), Outside-next p vend xs o)
              (kfree-IsFree p k xs page (Outside-new p vend xs (omega arith) o) h))
      | inr full ↦ let none_left : (vend - p) / 4096 ≡ 0 = ground arith in rw (full, none_left) h
    ]

-- freerange puts every whole page between `vstart`, rounded up, and `vend` in front of the free
-- pages, and no other: with free pages outside that range, the list of free pages stays one of
-- distinct pages. Null is not among them if `vstart` is not.
pub freerange-IsFree :
    (vstart vend : Ptr) (k : Kmem) (xs : List Ptr)
    → 0 < vstart
    → vstart + 4095 < 4294967296
    → vend ≤ 4294967296
    → Outside (pg_round_up vstart) vend xs
    → IsFree k xs
    → IsFree
        (freerange vstart vend k)
        (freed ((vend - pg_round_up vstart) / 4096) (pg_round_up vstart) xs)
unfolding freerange
freerange-IsFree vstart vend k xs pos small top o h =
    freerange_loop-IsFree (vend / 4096 + 1) (pg_round_up vstart) vend k xs (omega arith)
      (aligned vstart) (positive vstart pos small) top o h
