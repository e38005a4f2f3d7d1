-- ===== src/Fs/Content/Ranges.antt =====
-- A write to a range of a file, seen in the blocks of the volume, and two writes that follow each other.
use lxos.Base.{
  ℕ, ◌+◌, ◌-◌, ◌*◌, ◌≡◌, ◌≢◌, ◌<◌, ◌≤◌, ◌⊎◌, inl, inr, refl, sym, ◌∙◌, ap, true, false, ltb,
  if◌then◌else◌, arith, Bool-cases,
}
use lxos.Libc.Memory.{Ptr, Memory, get32, within}
use lxos.Fs.Volume.{Volume, bsize}
use lxos.Fs.Inodes.{ndirect}
use lxos.Fs.Content.Mapping.{address, byte_of, IsMapped}

-- The first `count` blocks of the file are different ones, and none is its indirect block.
pub record IsSeparate (s : Volume) (ip : Ptr) (count : ℕ) : Type 0 where
  pub distinct : (a b : ℕ) → a < count → b < count → address s ip a ≡ address s ip b → a ≡ b
  pub apart : 12 < count → (bn : ℕ) → bn < count → (s.inode ip).addrs ndirect ≢ address s ip bn

-- the byte `i` of the block `bn` after a write of `n` bytes from `src` at `off`
abbrev pub new_byte : Volume → (ip src : Ptr) → (off n bn i : ℕ) → ℕ
new_byte s ip src off n bn i =
    if within off n (bn * bsize + i)
    then s.mem (src + (bn * bsize + i - off))
    else byte_of s ip bn i

-- `s'` is `s` after the write of `n` bytes from `src` to the file's bytes from `off` on.
pub record Wrote (s : Volume) (ip src : Ptr) (off n count : ℕ) (s' : Volume) : Type 0 where
  pub inode : s'.inode ≡ s.inode
  pub sb : s'.sb ≡ s.sb
  pub mem : s'.mem ≡ s.mem
  pub bytes :
      (bn i : ℕ)
      → bn < count
      → i < bsize
      → s'.block (s.inode ip).dev (address s ip bn) i ≡ new_byte s ip src off n bn i
  pub others :
      (d b : ℕ)
      → (d ≢ (s.inode ip).dev) ⊎ ((bn : ℕ) → bn < count → b ≢ address s ip bn)
      → s'.block d b ≡ s.block d b

module _ (s : Volume) (ip src : Ptr) (off n count : ℕ) (s' : Volume) where
  -- the write leaves the map of the file as it is
  pub Wrote-address :
      IsMapped s ip count
      → IsSeparate s ip count
      → Wrote s ip src off n count s'
      → (bn : ℕ) → bn < count
      → address s' ip bn ≡ address s ip bn
  Wrote-address h sep w bn lt = elim (Bool-cases (ltb bn ndirect)) [
    | inl e ↦ rw e (ap (λ f. (f ip).addrs bn) w.inode)
    | inr e ↦
        let kept =
          w.others (s.inode ip).dev ((s.inode ip).addrs ndirect) (inr (sep.apart (ground arith))) in
        rw e (
          ap (λ f. get32 (s'.block (f ip).dev ((f ip).addrs ndirect)) (4 * (bn - ndirect))) w.inode
          ∙ ap (λ x. get32 x (4 * (bn - ndirect))) kept)
  ]

  pub Wrote-IsMapped :
      IsMapped s ip count
      → IsSeparate s ip count
      → Wrote s ip src off n count s'
      → IsMapped s' ip count
  Wrote-IsMapped h sep w = record {
    fits = h.fits;
    blocks = λ bn lt z. h.blocks bn lt (sym (Wrote-address h sep w bn lt) ∙ z);
    indirect = λ lt z. h.indirect lt (ap (λ f. (f ip).addrs ndirect) (sym w.inode) ∙ z);
  }

  pub Wrote-IsSeparate :
      IsMapped s ip count
      → IsSeparate s ip count
      → Wrote s ip src off n count s'
      → IsSeparate s' ip count
  Wrote-IsSeparate h sep w = record {
    distinct = λ a b lt lt' e.
        sep.distinct a b lt lt'
          (sym (Wrote-address h sep w a lt) ∙ e ∙ Wrote-address h sep w b lt');
    apart = λ lt bn lt' e.
        sep.apart lt bn lt'
          (ap (λ f. (f ip).addrs ndirect) (sym w.inode) ∙ e ∙ Wrote-address h sep w bn lt');
  }

-- two ranges that follow each other, at the place `x`
join_ranges :
    (mem : Memory) (src off n m x old : ℕ)
    → m ≤ n
    → (if within (off + m) (n - m) x
        then mem (src + m + (x - (off + m)))
        else (if within off m x then mem (src + (x - off)) else old))
      ≡ (if within off n x then mem (src + (x - off)) else old)
join_ranges mem src off n m x old le = elim (Bool-cases (within (off + m) (n - m) x)) [
  | inl rest ↦
      let all : within off n x ≡ true = ground arith in
      let place : src + m + (x - (off + m)) ≡ src + (x - off) = ground arith in
      rw (rest, all) (ap mem place)
  | inr out ↦ elim (Bool-cases (within off m x)) [
    | inl first ↦ let all : within off n x ≡ true = ground arith in rw (out, first, all) refl
    | inr later ↦ let all : within off n x ≡ false = ground arith in rw (out, later, all) refl
  ]
]

-- a write in two parts
module _ (s : Volume) (ip src : Ptr) (off n m count : ℕ) (s1 s2 : Volume) (le : m ≤ n)
    (h : IsMapped s ip count) (sep : IsSeparate s ip count) (w : Wrote s ip src off m count s1)
    (r : Wrote s1 ip (src + m) (off + m) (n - m) count s2) where
  same_dev : (s1.inode ip).dev ≡ (s.inode ip).dev
  same_dev = ap (λ f. (f ip).dev) w.inode

  same_byte :
      (t : Volume) (bn i : ℕ)
      → bn < count
      → t.block (s1.inode ip).dev (address s1 ip bn) i
        ≡ t.block (s.inode ip).dev (address s ip bn) i
  same_byte t bn i lt =
      ap (λ d. t.block d (address s1 ip bn) i) same_dev
      ∙ ap (λ b. t.block (s.inode ip).dev b i) (Wrote-address s ip src off m count s1 h sep w bn lt)

  append_bytes :
      (bn i : ℕ)
      → bn < count
      → i < bsize
      → s2.block (s.inode ip).dev (address s ip bn) i ≡ new_byte s ip src off n bn i
  append_bytes bn i lt lt' =
      sym (same_byte s2 bn i lt)
      ∙ r.bytes bn i lt lt'
      ∙ ap
          (λ old.
            if within (off + m) (n - m) (bn * bsize + i)
            then s1.mem (src + m + (bn * bsize + i - (off + m)))
            else old)
          (same_byte s1 bn i lt ∙ w.bytes bn i lt lt')
      ∙ ap
          (λ mem.
            if within (off + m) (n - m) (bn * bsize + i)
            then mem (src + m + (bn * bsize + i - (off + m)))
            else new_byte s ip src off m bn i)
          w.mem
      ∙ join_ranges s.mem src off n m (bn * bsize + i) (byte_of s ip bn i) le

  append_others :
      (d b : ℕ)
      → (d ≢ (s.inode ip).dev) ⊎ ((bn : ℕ) → bn < count → b ≢ address s ip bn)
      → s2.block d b ≡ s.block d b
  append_others d b (inl ne) = r.others d b (inl (λ e. ne (e ∙ same_dev))) ∙ w.others d b (inl ne)
  append_others d b (inr far) =
      r.others d b
        (inr (λ bn lt e. far bn lt (e ∙ Wrote-address s ip src off m count s1 h sep w bn lt)))
      ∙ w.others d b (inr far)

  pub Wrote-append : Wrote s ip src off n count s2
  Wrote-append = record {
    inode = r.inode ∙ w.inode;
    sb = r.sb ∙ w.sb;
    mem = r.mem ∙ w.mem;
    bytes = append_bytes;
    others = append_others;
  }
