-- ===== src/Fs/Inodes/Fields.antt =====
-- The fields of an inode in the bytes of its image: fs/fs.c and include/fs.h.
use lxos.Base.{
  ℕ, zero, suc, ◌+◌, ◌-◌, ◌*◌, ◌≡◌, ◌<◌, ◌≤◌, ◌⊎◌, inl, inr, refl, sym, ◌∙◌, ◌==◌, arith,
  Bool-cases, ==_iff, lt→ltb,
}
use lxos.Libc.Memory.{put, put32, get32}
use lxos.Libc.Memory.Block.{get32-put32, put32-other, get32-same}
use lxos.Drivers.Device.{Data}
use lxos.Fs.Volume.{Inode}
use lxos.Fs.Inodes.{put16, get16, put_addrs, put_inode, get_inode}

put16-other : (x : Data) (p w a : ℕ) → (a < p) ⊎ (p + 2 ≤ a) → put16 x p w a ≡ x a
unfolding put16 put
put16-other x p w a far = ground arith

get16-put16 : (x : Data) (p w : ℕ) → w < 65536 → get16 (put16 x p w) p ≡ w
unfolding put16 get16 put
get16-put16 x p w lt = ground arith

get16-same :
    (x y : Data) (p : ℕ) → ((a : ℕ) → p ≤ a → a < p + 2 → x a ≡ y a) → get16 x p ≡ get16 y p
unfolding get16
get16-same x y p same =
    rw (same p (omega arith) (omega arith), same (p + 1) (omega arith) (omega arith))

put_addrs-other :
    (n : ℕ) (addrs : ℕ → ℕ) (p : ℕ) (x : Data) (a : ℕ)
    → n ≤ 13
    → (a < p + 12 + 4 * (13 - n)) ⊎ (p + 64 ≤ a)
    → put_addrs n addrs p x a ≡ x a
unfolding put_addrs
put_addrs-other zero addrs p x a le far = refl
put_addrs-other (suc n) addrs p x a le far =
    put_addrs-other n addrs p _ a (omega (arith, le)) (ground arith)
    ∙ put32-other x (p + 12 + 4 * (12 - n)) (addrs (12 - n)) a (ground arith)

get32-put_addrs :
    (n : ℕ) (addrs : ℕ → ℕ) (p : ℕ) (x : Data) (i : ℕ)
    → n ≤ 13
    → 13 - n ≤ i
    → i < 13
    → addrs i < 4294967296
    → get32 (put_addrs n addrs p x) (p + 12 + 4 * i) ≡ addrs i
unfolding put_addrs
get32-put_addrs zero addrs p x i le low high word = absurd (omega (arith, low, high))
get32-put_addrs (suc n) addrs p x i le low high word = elim (Bool-cases (i == 12 - n)) [
  | inr far ↦ get32-put_addrs n addrs p _ i (omega (arith, le)) (ground arith) high word
  | inl here ↦
      let same = (==_iff i (12 - n)).0 here in
      get32-same _ (put32 x (p + 12 + 4 * (12 - n)) (addrs (12 - n))) (p + 12 + 4 * i) (λ a h1 h2.
        put_addrs-other n addrs p _ a (omega (arith, le)) (inl (omega (arith, same, h2, le, high))))
      ∙ rw (← same) (get32-put32 x (p + 12 + 4 * i) (addrs i) word)
]

-- The fields that an inode shares with its image.
pub record SameFields (v w : Inode) : Type 0 where
  pub itype : w.itype ≡ v.itype
  pub major : w.major ≡ v.major
  pub minor : w.minor ≡ v.minor
  pub nlink : w.nlink ≡ v.nlink
  pub size : w.size ≡ v.size
  pub addrs : (i : ℕ) → i < 13 → w.addrs i ≡ v.addrs i

-- The fields are numbers of the widths that the image has for them.
pub record IsInode (v : Inode) : Type 0 where
  pub itype : v.itype < 65536
  pub major : v.major < 65536
  pub minor : v.minor < 65536
  pub nlink : v.nlink < 65536
  pub size : v.size < 4294967296
  pub addrs : (i : ℕ) → i < 13 → v.addrs i < 4294967296

module _ (v : Inode) (p : ℕ) (x : Data) where
  abbrev shorts_1 : Data
  shorts_1 = put16 x p v.itype

  abbrev shorts_2 : Data
  shorts_2 = put16 shorts_1 (p + 2) v.major

  abbrev shorts_3 : Data
  shorts_3 = put16 shorts_2 (p + 4) v.minor

  abbrev shorts_4 : Data
  shorts_4 = put16 shorts_3 (p + 6) v.nlink

  abbrev pub fields : Data
  fields = put32 shorts_4 (p + 8) v.size

  above_size : (a : ℕ) → a < p + 8 → put_inode v p x a ≡ shorts_4 a
  unfolding put_inode
  above_size a lt =
      put_addrs-other 13 v.addrs p fields a (omega arith) (inl (omega (arith, lt)))
      ∙ put32-other shorts_4 (p + 8) v.size a (inl lt)

  pub put_inode-other : (a : ℕ) → (a < p) ⊎ (p + 64 ≤ a) → put_inode v p x a ≡ x a
  unfolding put_inode
  put_inode-other a far =
      put_addrs-other 13 v.addrs p fields a (omega arith) (ground arith)
      ∙ put32-other shorts_4 (p + 8) v.size a (ground arith)
      ∙ put16-other shorts_3 (p + 6) v.nlink a (ground arith)
      ∙ put16-other shorts_2 (p + 4) v.minor a (ground arith)
      ∙ put16-other shorts_1 (p + 2) v.major a (ground arith)
      ∙ put16-other x p v.itype a (ground arith)

  sized : (a : ℕ) → p + 8 ≤ a → a < p + 8 + 4 → put_inode v p x a ≡ fields a
  unfolding put_inode
  sized a h1 h2 = put_addrs-other 13 v.addrs p fields a (omega arith) (inl (omega (arith, h2)))

  get32-put_inode :
      (i : ℕ)
      → i < 13
      → v.addrs i < 4294967296
      → get32 (put_inode v p x) (p + 12 + 4 * i) ≡ v.addrs i
  unfolding put_inode
  get32-put_inode i lt word =
      get32-put_addrs 13 v.addrs p fields i (omega arith) (omega arith) lt word

  pub get_inode-put_inode : (w : Inode) → IsInode v → SameFields v (get_inode (put_inode v p x) p w)
  unfolding get_inode
  get_inode-put_inode w h = record {
    itype =
        get16-same _ shorts_1 p (λ a h1 h2.
          above_size a (omega (arith, h2))
          ∙ put16-other shorts_3 (p + 6) v.nlink a (inl (omega (arith, h2)))
          ∙ put16-other shorts_2 (p + 4) v.minor a (inl (omega (arith, h2)))
          ∙ put16-other shorts_1 (p + 2) v.major a (inl (omega (arith, h2))))
        ∙ get16-put16 x p v.itype h.itype;
    major =
        get16-same _ shorts_2 (p + 2) (λ a h1 h2.
          above_size a (omega (arith, h2))
          ∙ put16-other shorts_3 (p + 6) v.nlink a (inl (omega (arith, h2)))
          ∙ put16-other shorts_2 (p + 4) v.minor a (inl (omega (arith, h2))))
        ∙ get16-put16 shorts_1 (p + 2) v.major h.major;
    minor =
        get16-same _ shorts_3 (p + 4) (λ a h1 h2.
          above_size a (omega (arith, h2))
          ∙ put16-other shorts_3 (p + 6) v.nlink a (inl (omega (arith, h2))))
        ∙ get16-put16 shorts_2 (p + 4) v.minor h.minor;
    nlink =
        get16-same _ shorts_4 (p + 6) (λ a h1 h2. above_size a (omega (arith, h2)))
        ∙ get16-put16 shorts_3 (p + 6) v.nlink h.nlink;
    size = get32-same _ fields (p + 8) sized ∙ get32-put32 shorts_4 (p + 8) v.size h.size;
    addrs = λ i lt. rw (lt→ltb i 13 lt) (get32-put_inode i lt (h.addrs i lt));
  }

-- Two images that agree in their 64 bytes are the same.
pub get_inode-same :
    (x y : Data) (p : ℕ) (w : Inode)
    → ((a : ℕ) → p ≤ a → a < p + 64 → x a ≡ y a)
    → SameFields (get_inode x p w) (get_inode y p w)
unfolding get_inode
get_inode-same x y p w same = record {
  itype = get16-same y x p (λ a h1 h2. sym (same a (omega (arith, h1)) (omega (arith, h2))));
  major = get16-same y x (p + 2) (λ a h1 h2. sym (same a (omega (arith, h1)) (omega (arith, h2))));
  minor = get16-same y x (p + 4) (λ a h1 h2. sym (same a (omega (arith, h1)) (omega (arith, h2))));
  nlink = get16-same y x (p + 6) (λ a h1 h2. sym (same a (omega (arith, h1)) (omega (arith, h2))));
  size = get32-same y x (p + 8) (λ a h1 h2. sym (same a (omega (arith, h1)) (omega (arith, h2))));
  addrs = λ i lt. rw (lt→ltb i 13 lt) (
      get32-same y x (p + 12 + 4 * i)
        (λ a h1 h2. sym (same a (omega (arith, h1)) (omega (arith, h2, lt)))));
}
