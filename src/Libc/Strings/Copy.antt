-- ===== src/Libc/Strings/Copy.antt =====
-- strncpy, safestrcpy and reverse of libc/string.c.
use lxos.Base.{
  ℕ, zero, suc, ◌+◌, ◌-◌, ◌<◌, ◌≤◌, ◌≡◌, ◌≢◌, ◌⊎◌, ◌&&◌, refl, some, arith, ◌==◌, if◌then◌else◌,
  Bool-cases, inl, inr, ltb, leb, ==_iff, ltb→lt, ◌∙◌,
}
use lxos.Libc.Memory.{Ptr, Memory, put, within}
use lxos.Libc.Strings.{pad, strncpy, safestrcpy_loop, safestrcpy, reverse_loop, reverse}
use lxos.Libc.Strings.Length.{IsString, strlen-IsString}

-- the bytes before the first zero, `n` at most
unfoldable pub strnlen : ℕ → Ptr → Memory → ℕ
strnlen zero t m = 0
strnlen (suc n) t m = let rest = strnlen n (t + 1) m in if m t == 0 then 0 else suc rest

strnlen-le : (n : ℕ) (t : Ptr) (m : Memory) → strnlen n t m ≤ n
unfolding strnlen
strnlen-le zero t m = omega arith
strnlen-le (suc n) t m = ground (arith, strnlen-le n (t + 1) m)

pad_lem : (n : ℕ) (s : Ptr) (m : Memory) (a : ℕ) → pad n s m a ≡ (if within s n a then 0 else m a)
unfolding pad put
pad_lem zero s m a = ground arith
pad_lem (suc n) s m a = ground (arith, pad_lem n (s + 1) (put m s 0) a)

-- a write outside the text read does not change its length
strnlen-put :
    (n : ℕ) (t p : Ptr) (v : ℕ) (m : Memory)
    → (p < t) ⊎ (t + n ≤ p)
    → strnlen n t (put m p v) ≡ strnlen n t m
unfolding strnlen put
strnlen-put zero t p v m h = refl
strnlen-put (suc n) t p v m (inl h) =
    ground (arith, strnlen-put n (t + 1) p v m (inl (omega arith)))
strnlen-put (suc n) t p v m (inr h) =
    ground (arith, strnlen-put n (t + 1) p v m (inr (omega arith)))

-- the two ranges of `n` bytes at `s` and `t` do not meet
abbrev pub Apart : (s t : Ptr) → ℕ → Type 0
Apart s t n = (s + n ≤ t) ⊎ (t + n ≤ s)

Apart-next : (s t : Ptr) (n : ℕ) → Apart s t (suc n) → Apart (s + 1) (t + 1) n
Apart-next s t n (inl h) = inl (omega arith)
Apart-next s t n (inr h) = inr (omega arith)

Apart-shrink : (s t : Ptr) (n : ℕ) → Apart s t (suc n) → Apart s t n
Apart-shrink s t n (inl h) = inl (omega arith)
Apart-shrink s t n (inr h) = inr (omega arith)

Apart-outside : (s t : Ptr) (n : ℕ) → Apart s t (suc n) → (s < t + 1) ⊎ (t + 1 + n ≤ s)
Apart-outside s t n (inl h) = inl (omega arith)
Apart-outside s t n (inr h) = inr (omega arith)

-- what strncpy puts `j` bytes behind the start of the target
unfoldable pub padded : ℕ → Ptr → Memory → ℕ → ℕ
padded n t m j = if ltb j (strnlen n t m) then m (t + j) else 0

padded_end : (n : ℕ) (t : Ptr) (m : Memory) (j : ℕ) → m t ≡ 0 → padded (suc n) t m j ≡ 0
unfolding padded strnlen
padded_end n t m j h = ground arith

padded_head : (n : ℕ) (t : Ptr) (m : Memory) → padded (suc n) t m 0 ≡ m t
unfolding padded strnlen
padded_head n t m = ground arith

padded_tail :
    (n : ℕ) (t p : Ptr) (v : ℕ) (m : Memory) (j : ℕ)
    → (p < t + 1) ⊎ (t + 1 + n ≤ p)
    → m t ≢ 0
    → j < n
    → padded n (t + 1) (put m p v) j ≡ padded (suc n) t m (j + 1)
unfolding padded strnlen put
padded_tail n t p v m j (inl h) ne lt = ground (arith, strnlen-put n (t + 1) p v m (inl h))
padded_tail n t p v m j (inr h) ne lt = ground (arith, strnlen-put n (t + 1) p v m (inr h))

strncpy_end :
    (n : ℕ) (s t : Ptr) (m : Memory) (a : ℕ)
    → m t ≡ 0
    → pad n (s + 1) (put m s (m t)) a
      ≡ (if within s (suc n) a then padded (suc n) t m (a - s) else m a)
unfolding put
strncpy_end n s t m a end =
    ground (arith, pad_lem n (s + 1) (put m s (m t)) a, padded_end n t m (a - s) end)

-- from the bytes behind the first to all of them
strncpy_more :
    (n : ℕ) (s t : Ptr) (m : Memory) (a : ℕ)
    → Apart s t (suc n)
    → m t ≢ 0
    → (if within (s + 1) n a
        then padded n (t + 1) (put m s (m t)) (a - (s + 1))
        else put m s (m t) a)
      ≡ (if within s (suc n) a then padded (suc n) t m (a - s) else m a)
unfolding put
strncpy_more n s t m a h more =
    ground (
      arith,
      padded_head n t m,
      padded_tail n t s (m t) m (a - (s + 1)) (Apart-outside s t n h) more,
    )

-- strncpy writes exactly `n` bytes at `s`: those of the source before its first zero, then zeros;
-- no other byte changes. The two ranges of `n` bytes must not meet.
pub strncpy_lem :
    (n : ℕ) (s t : Ptr) (m : Memory) (a : ℕ)
    → Apart s t n
    → strncpy s t n m a ≡ (if within s n a then padded n t m (a - s) else m a)
unfolding strncpy
strncpy_lem zero s t m a h = ground arith
strncpy_lem (suc n) s t m a h = elim (Bool-cases (m t == 0)) [
  | inl end ↦ rw end (strncpy_end n s t m a ((==_iff _ _).0 end))
  | inr more ↦ rw more (
      strncpy_lem n (s + 1) (t + 1) (put m s (m t)) a (Apart-next s t n h)
      ∙ strncpy_more n s t m a h (λ z. ground arith))
]

-- `m'` holds at `s` the text of `t`, cut to `n` bytes, with its final zero, and is `m` elsewhere
record IsCopy (n : ℕ) (s t : Ptr) (m m' : Memory) : Type 0 where
  text : (i : ℕ) → i < strnlen n t m → m' (s + i) ≡ m (t + i)
  ends : m' (s + strnlen n t m) ≡ 0
  frame : (a : ℕ) → (a < s) ⊎ (s + n < a) → m' a ≡ m a

-- one byte more in front
IsCopy-step :
    (n : ℕ) (s t : Ptr) (m m' : Memory)
    → Apart s t (suc (suc n))
    → m t ≢ 0
    → IsCopy n (s + 1) (t + 1) (put m s (m t)) m'
    → IsCopy (suc n) s t m m'
unfolding put strnlen
IsCopy-step n s t m m' h ne c = record {
  text = head;
  ends = ground (arith, same, c.ends);
  frame = λ a o. elim o [
    | inl lt ↦ ground (arith, c.frame a (inl (omega arith)))
    | inr lt ↦ ground (arith, c.frame a (inr (omega arith)))
  ];
}
  where
    same : strnlen n (t + 1) (put m s (m t)) ≡ strnlen n (t + 1) m
    same = strnlen-put n (t + 1) s (m t) m (Apart-outside s t n (Apart-shrink s t (suc n) h))

    head : (i : ℕ) → i < strnlen (suc n) t m → m' (s + i) ≡ m (t + i)
    head zero lt = ground (arith, c.frame s (inl (omega arith)))
    head (suc i) lt = ground (arith, same, strnlen-le n (t + 1) m, c.text i)

IsCopy-stop :
    (n : ℕ) (s t : Ptr) (m : Memory)
    → m t ≡ 0
    → IsCopy (suc n) s t m (put (put m s (m t)) (s + 1) 0)
unfolding put strnlen
IsCopy-stop n s t m end = record {
  text = λ i lt. ground arith;
  ends = ground arith;
  frame = λ a o. ground arith;
}

safestrcpy_loop-IsCopy :
    (n : ℕ) (s t : Ptr) (m : Memory) → Apart s t (suc n) → IsCopy n s t m (safestrcpy_loop s t n m)
unfolding safestrcpy_loop put strnlen
safestrcpy_loop-IsCopy zero s t m h = record {
  text = λ i lt. elim lt [ ];
  ends = ground arith;
  frame = λ a o. ground arith;
}
safestrcpy_loop-IsCopy (suc n) s t m h = elim (Bool-cases (m t == 0)) [
  | inl end ↦ rw end (IsCopy-stop n s t m ((==_iff _ _).0 end))
  | inr more ↦ rw more (
      IsCopy-step n s t m _ h (λ z. ground arith)
        (safestrcpy_loop-IsCopy n (s + 1) (t + 1) (put m s (m t)) (Apart-next s t (suc n) h)))
]

-- safestrcpy with room for `n + 1` bytes leaves at `s` the first bytes of the source, `n` at most,
-- with a zero behind them, and writes no byte outside its room.
pub safestrcpy-IsCopy :
    (n : ℕ) (s t : Ptr) (m : Memory)
    → Apart s t (suc n)
    → ((i : ℕ) → i < strnlen n t m → safestrcpy s t (suc n) m (s + i) ≡ m (t + i))
      × (safestrcpy s t (suc n) m (s + strnlen n t m) ≡ 0)
      × (strnlen n t m ≤ n)
      × ((a : ℕ) → (a < s) ⊎ (s + n < a) → safestrcpy s t (suc n) m a ≡ m a)
unfolding safestrcpy
safestrcpy-IsCopy n s t m h =
    let c = safestrcpy_loop-IsCopy n s t m h in (c.text, c.ends, strnlen-le n t m, c.frame)

-- `m'` is `m` with the bytes from `i` to `j` of the string at `s` mirrored.
abbrev IsMirror : (s i j : ℕ) → (m m' : Memory) → Type 0
IsMirror s i j m m' =
    (x : ℕ) → m' (s + x) ≡ (if leb i x && leb x j then m (s + (i + j - x)) else m (s + x))

IsMirror-step :
    (s i j : ℕ) (m m' : Memory)
    → i < j
    → IsMirror s (i + 1) (j - 1) (put (put m (s + i) (m (s + j))) (s + j) (m (s + i))) m'
    → IsMirror s i j m m'
unfolding put
IsMirror-step s i j m m' lt h x = ground (arith, h x)

reverse_loop-IsMirror :
    (fuel : ℕ) (s i j : ℕ) (m : Memory)
    → j ≤ i + fuel
    → IsMirror s i j m (reverse_loop fuel s i j m)
unfolding reverse_loop
reverse_loop-IsMirror zero s i j m h = λ x. ground arith
reverse_loop-IsMirror (suc fuel) s i j m h = elim (Bool-cases (ltb i j)) [
  | inl lt ↦
      let m1 = put (put m (s + i) (m (s + j))) (s + j) (m (s + i)) in
      rw lt (
        IsMirror-step s i j m (reverse_loop fuel s (i + 1) (j - 1) m1) (ltb→lt i j lt)
          (reverse_loop-IsMirror fuel s (i + 1) (j - 1) m1 (ground arith)))
  | inr ge ↦ rw ge (λ x. ground arith)
]

-- reverse puts the byte `i` of a string at the place `i` from its end, for every `i`, and the final
-- zero stays.
pub reverse-IsMirror :
    {k : ℕ} (fuel : ℕ) (s : Ptr) (m : Memory)
    → IsString m s k
    → k < fuel
    → (m' : Memory) × (reverse fuel s m ≡ some m')
      × ((i : ℕ) → i < k → m' (s + i) ≡ m (s + (k - 1 - i)))
      × (m' (s + k) ≡ 0)
unfolding reverse
reverse-IsMirror {k} fuel s m h f =
    let mirror = reverse_loop-IsMirror k s 0 (k - 1) m (omega arith) in
    (
      reverse_loop k s 0 (k - 1) m,
      rw (strlen-IsString fuel s m h f),
      (λ i lt. ground (arith, mirror i)),
      ground (arith, mirror k, h.ends),
    )
