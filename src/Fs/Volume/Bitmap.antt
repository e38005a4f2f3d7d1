-- ===== src/Fs/Volume/Bitmap.antt =====
-- balloc and bfree of fs/fs.c as operations on the set of blocks in use.
use lxos.Base.{
  ℕ, zero, suc, ◌+◌, ◌-◌, ◌*◌, ◌/◌, ◌%◌, ◌≡◌, ◌≢◌, ◌<◌, ◌≤◌, ◌⊎◌, inl, inr, refl, sym, ◌∙◌, ap,
  Option, none, some, ltb, ◌==◌, arith, Option-cases, Bool-cases, ==_iff,
}
use lxos.Base.Bits.{bit-set, bit-set-other}
use lxos.Libc.Memory.{put}
use lxos.Drivers.Device.{Data}
use lxos.Fs.Volume.{
  Volume, bpb, minus_one, bblock, store, kprint, bzero, bit, set_bit, find_clear, balloc_loop,
}

-- the bit of a block in the bitmap
abbrev pub used : Volume → (dev b : ℕ) → ℕ
used s dev b = bit (s.block dev (bblock b s.sb)) (b % bpb)

pub bit-set_bit : (x : Data) (bi : ℕ) → bit x bi ≡ 0 → bit (set_bit x bi) bi ≡ 1
unfolding put
bit-set_bit x bi h = ground (arith, bit-set (x (bi / 8)) (bi % 8) (omega arith) h)

pub bit-set_bit-other :
    (x : Data) (bi c : ℕ) → bit x bi ≡ 0 → c ≢ bi → bit (set_bit x bi) c ≡ bit x c
unfolding put
bit-set_bit-other x bi c h ne = elim (Bool-cases (c / 8 == bi / 8)) [
  | inr e ↦ ground arith
  | inl e ↦
      let same = (==_iff _ _).0 e in
      let apart : c % 8 ≢ bi % 8 = λ k. ne (omega (arith, k, same)) in
      ground (
        arith,
        bit-set-other (x (bi / 8)) (bi % 8) (omega arith) (c % 8) (omega arith) h apart,
        same,
      )
]

-- the first clear bit from `bi` on, below the size of the volume
record IsFirst (x : Data) (b bi count size : ℕ) (o : Option ℕ) : Type 0 where
  found : (i : ℕ) → o ≡ some i → (bi ≤ i) × (i < bi + count) × (b + i < size) × (bit x i ≡ 0)
  before : (i j : ℕ) → o ≡ some i → bi ≤ j → j < i → bit x j ≢ 0
  all_set : o ≡ none → (j : ℕ) → bi ≤ j → j < bi + count → b + j < size → bit x j ≢ 0

find_clear-IsFirst :
    (rounds b bi size : ℕ) (x : Data) → IsFirst x b bi rounds size (find_clear rounds b bi size x)
unfolding find_clear
find_clear-IsFirst zero b bi size x = record {
  found = ground arith;
  before = ground arith;
  all_set = λ e j h1 h2 h3. absurd (omega (arith, h1, h2));
}
find_clear-IsFirst (suc rounds) b bi size x =
    let t = find_clear-IsFirst rounds b (bi + 1) size x in
    record {
      found = λ i e. ground (arith, t.found i);
      before = λ i j e h1 h2 c.
          let here : j ≡ bi → bit x j ≡ bit x bi = λ h. ap (λ n. bit x n) h in
          ground (arith, t.before i j, here);
      all_set = λ e j h1 h2 h3 c. elim (Bool-cases (j == bi)) [
        | inl h ↦
            let here : bit x j ≡ bit x bi = ap (λ n. bit x n) ((==_iff j bi).0 h) in
            ground (arith, here, h3)
        | inr h ↦
            let none_left : find_clear rounds b (bi + 1) size x ≡ none = ground arith in
            t.all_set none_left j (ground arith) (omega (arith, h2)) h3 c
      ];
    }

-- The block that balloc gives out, and the two stores that mark it and clear it.
abbrev pub taken : (dev a : ℕ) → Volume → Volume
taken dev a s =
    bzero dev a (store dev (bblock a s.sb) (set_bit (s.block dev (bblock a s.sb)) (a % bpb)) s)

-- the first free block from `b` on, or -1 when there is none
abbrev pub IsChoice : (dev b : ℕ) → Volume → ℕ × Volume → Type 0
IsChoice dev b s (a, s') =
    ((a ≡ minus_one)
      × (s' ≡ kprint "balloc: out of blocks" s)
      × ((c : ℕ) → b ≤ c → c < s.sb.size → used s dev c ≢ 0))
    ⊎ ((b ≤ a)
        × (a < s.sb.size)
        × (used s dev a ≡ 0)
        × ((c : ℕ) → b ≤ c → c < a → used s dev c ≢ 0)
        × (s' ≡ taken dev a s))

used-block :
    (s : Volume) (dev b i : ℕ)
    → b % bpb ≡ 0
    → i < bpb
    → used s dev (b + i) ≡ bit (s.block dev (bblock b s.sb)) i
used-block s dev b i h lt =
    let quotient : (b + i) / bpb ≡ b / bpb = omega arith in
    let remainder : (b + i) % bpb ≡ i = omega arith in rw (quotient, remainder)

-- what a whole block of the bitmap says of the blocks that it stands for
block_in_use :
    (s : Volume) (dev b count : ℕ)
    → b % bpb ≡ 0
    → ((i : ℕ) → i < count → i < bpb → b + i < s.sb.size → bit (s.block dev (bblock b s.sb)) i ≢ 0)
    → (c : ℕ) → b ≤ c
    → c < b + count
    → c < b + bpb
    → c < s.sb.size
    → used s dev c ≢ 0
block_in_use s dev b count h full c low high near below free =
    let sum : b + (c - b) ≡ c = omega arith in
    let lt : c - b < bpb = omega arith in
    let same : used s dev c ≡ bit (s.block dev (bblock b s.sb)) (c - b) =
      ap (λ n. used s dev n) (sym sum) ∙ used-block s dev b (c - b) h lt in
    full (c - b) (omega arith) lt (omega arith) (sym same ∙ free)

skip_block :
    (s : Volume) (dev b : ℕ) (r : ℕ × Volume)
    → b % bpb ≡ 0
    → ((i : ℕ) → i < bpb → b + i < s.sb.size → bit (s.block dev (bblock b s.sb)) i ≢ 0)
    → IsChoice dev (b + bpb) s r
    → IsChoice dev b s r
skip_block s dev b (a, s') h full (inl (e, same, rest)) = inl (
  e,
  same,
  λ c low below. elim (Bool-cases (ltb c (b + bpb))) [
    | inl near ↦
        block_in_use s dev b bpb h (λ i _. full i) c low (ground arith) (ground arith) below
    | inr far ↦ rest c (ground arith) below
  ],
)
skip_block s dev b (a, s') h full (inr (low, below, free, rest, same)) = inr (
  omega (arith, low),
  below,
  free,
  (λ c low' lt. elim (Bool-cases (ltb c (b + bpb))) [
    | inl near ↦
        block_in_use s dev b bpb h (λ i _. full i) c low' (ground arith) (ground arith)
          (omega (arith, lt, below))
    | inr far ↦ rest c (ground arith) lt
  ]),
  same,
)

take_block :
    (s : Volume) (dev b i : ℕ)
    → b % bpb ≡ 0
    → IsFirst (s.block dev (bblock b s.sb)) b 0 bpb s.sb.size (some i)
    → IsChoice dev b s (
      b + i,
      bzero dev (b + i) (store dev (bblock b s.sb) (set_bit (s.block dev (bblock b s.sb)) i) s),
    )
take_block s dev b i h t =
    let (_, lt, below, free) = t.found i refl in
    let quotient : (b + i) / bpb ≡ b / bpb = omega (arith, lt) in
    let remainder : (b + i) % bpb ≡ i = omega (arith, lt) in
    let state : bzero dev (b + i)
          (store dev (bblock b s.sb) (set_bit (s.block dev (bblock b s.sb)) i) s)
        ≡ taken dev (b + i) s =
      rw (quotient, remainder) in
    inr (
      omega arith,
      below,
      used-block s dev b i h lt ∙ free,
      (λ c low lt'.
          block_in_use s dev b i h (λ j j1 _ _. t.before i j refl (omega arith) j1) c low lt'
            (omega (arith, lt', lt)) (omega (arith, lt', below))),
      state,
    )

pub balloc_loop-IsChoice :
    (rounds dev b : ℕ) (s : Volume)
    → b % bpb ≡ 0
    → s.sb.size < b + rounds * bpb
    → IsChoice dev b s (balloc_loop rounds dev b s)
unfolding balloc_loop
balloc_loop-IsChoice zero dev b s h enough =
    inl (refl, refl, λ c h1 h2. absurd (omega (arith, h1, h2)))
balloc_loop-IsChoice (suc rounds) dev b s h enough =
    let t = balloc_loop-IsChoice rounds dev (b + bpb) s (omega arith) (omega arith) in
    let x = s.block dev (bblock b s.sb) in
    let first = find_clear-IsFirst bpb b 0 s.sb.size x in
    elim (Bool-cases (ltb b s.sb.size)) [
      | inr past ↦ rw past (inl (refl, refl, λ c h1 h2. absurd (ground arith)))
      | inl below ↦ elim (Option-cases (find_clear bpb b 0 s.sb.size x)) [
        | inl e ↦
            rw (below, e)
              (skip_block s dev b _ h (λ i lt. first.all_set e i (omega arith) (omega (arith, lt)))
                t)
        | inr (i, e) ↦ rw (below, e) (take_block s dev b i h (rw e at first))
      ]
    ]
