-- ===== src/Fs/Directories/Lookup.antt =====
-- dirlookup of fs/fs.c and the entries of a directory.
use lxos.Base.{
  ℕ, zero, suc, ◌+◌, ◌-◌, ◌*◌, ◌/◌, ◌%◌, ◌≡◌, ◌≢◌, ◌<◌, ◌≤◌, ◌⊎◌, inl, inr, refl, ◌∙◌, ap, Bool,
  true, false, not, ◌&&◌, ◌||◌, Option, none, some, ltb, leb, ◌==◌, if◌then◌else◌, arith,
  Bool-cases, ltb→lt,
}
use lxos.Libc.Memory.{Ptr, Memory, within}
use lxos.Libc.Strings.{strncmp}
use lxos.Base.Int.{ℤ, sub_ℕ}
use lxos.Fs.Volume.{Volume, bsize}
use lxos.Fs.Inodes.{get16, iget}
use lxos.Fs.Content.{Operation, t_dev}
use lxos.Fs.Content.Mapping.{byte, IsMapped}
use lxos.Fs.Content.Reading.{readi-filled, delivered, filled, with_mem}
use lxos.Fs.Directories.{
  t_dir, dirsiz, dirent_size, is_zero, namecmp, put_offset, read_entry, dirlookup_loop, dirlookup,
}

-- the inode number of the entry at `off`
abbrev pub entry_inum : Volume → Ptr → (off : ℕ) → ℕ
entry_inum s dp off = byte s dp off + 256 * byte s dp (off + 1)

-- the first `n` bytes of the name agree with those of the file from `at` on, or end with them
unfoldable pub has_name : ℕ → Volume → (dp p : Ptr) → (at : ℕ) → Bool
has_name zero s dp p at = true
has_name (suc n) s dp p at =
    let rest = has_name n s dp (p + 1) (at + 1) in
    if s.mem p == byte s dp at then (if s.mem p == 0 then true else rest) else false

-- the entry at `off` is in use and has the name
abbrev pub is_entry : Volume → (dp name : Ptr) → (off : ℕ) → Bool
is_entry s dp name off = not (entry_inum s dp off == 0) && has_name dirsiz s dp name (off + 2)

-- the offset of the first such entry from `off` on
unfoldable pub first_entry : ℕ → Volume → (dp name : Ptr) → (off : ℕ) → Option ℕ
first_entry zero s dp name off = none
first_entry (suc rounds) s dp name off =
    let rest = first_entry rounds s dp name (off + dirent_size) in
    if ltb off (s.inode dp).size then (if is_entry s dp name off then some off else rest) else none

-- two ranges that agree, at the first place and behind it
abbrev Agree : (n : ℕ) → (f : Memory) → (p : ℕ) → (g : Memory) → (q : ℕ) → Type 0
Agree n f p g q = (i : ℕ) → i < n → f (p + i) ≡ g (q + i)

same_first : (n : ℕ) (f : Memory) (p : ℕ) (g : Memory) (q : ℕ) → Agree (suc n) f p g q → f p ≡ g q
same_first n f p g q h =
    let left : p ≡ p + 0 = omega arith in
    let right : q + 0 ≡ q = omega arith in ap f left ∙ h 0 (omega arith) ∙ ap g right

same_rest :
    (n : ℕ) (f : Memory) (p : ℕ) (g : Memory) (q : ℕ)
    → Agree (suc n) f p g q
    → Agree n f (p + 1) g (q + 1)
same_rest n f p g q h i lt =
    let left : p + 1 + i ≡ p + suc i = omega arith in
    let right : q + suc i ≡ q + 1 + i = omega arith in
    ap f left ∙ h (suc i) (omega (arith, lt)) ∙ ap g right

-- The comparison of two strings of one memory, one of which was read from the file.
compare_step :
    (a b a' b' : ℕ) (rest : ℤ) (rest' : Bool)
    → a ≡ a'
    → b ≡ b'
    → is_zero rest ≡ rest'
    → is_zero (if not (a == 0) && a == b then rest else sub_ℕ a b)
      ≡ (if a' == b' then (if a' == 0 then true else rest') else false)
compare_step a b a' b' rest rest' same_a same_b t = ground (arith, same_a, same_b, t)

strncmp-has_name :
    (n : ℕ) (s : Volume) (dp p q : Ptr) (at : ℕ) (m : Memory)
    → Agree n m p s.mem p
    → Agree n m q (λ i. byte s dp i) at
    → is_zero (strncmp p q n m) ≡ has_name n s dp p at
unfolding strncmp has_name
strncmp-has_name zero s dp p q at m left right = refl
strncmp-has_name (suc n) s dp p q at m left right =
    let t =
      strncmp-has_name n s dp (p + 1) (q + 1) (at + 1) m (same_rest n m p s.mem p left)
        (same_rest n m q (λ i. byte s dp i) at right) in
    compare_step (m p) (m q) (s.mem p) (byte s dp at) (strncmp (p + 1) (q + 1) n m) _
      (same_first n m p s.mem p left) (same_first n m q (λ i. byte s dp i) at right) t

-- A directory of whole entries, whose blocks are there, and a buffer for an entry that does not
-- overlap the name.
pub record IsDirectory (s : Volume) (dp name de : Ptr) (count : ℕ) : Type 0 where
  pub dir : (s.inode dp).itype ≡ t_dir
  pub mapped : IsMapped s dp count
  pub sized : (s.inode dp).size ≤ count * bsize
  pub whole : (s.inode dp).size % dirent_size ≡ 0
  pub apart : (name + dirsiz ≤ de) ⊎ (de + dirent_size ≤ name)

-- `m` is the memory of `s` but for the buffer
abbrev pub KeepsOutside : Volume → (de : Ptr) → Memory → Type 0
KeepsOutside s de m = (a : ℕ) → within de dirent_size a ≡ false → m a ≡ s.mem a

-- The outcome of a search that meets the entry, or none.
abbrev pub Looked : Volume → (dp poff de : Ptr) → Option ℕ → Option (Ptr × Volume) → Type 0
Looked s dp poff de none r = (m : Memory) × KeepsOutside s de m × (r ≡ some (0, with_mem m s))
Looked s dp poff de (some off) r =
    (m : Memory) × KeepsOutside s de m
    × (r ≡ iget (s.inode dp).dev (entry_inum s dp off) (put_offset poff off (with_mem m s)))

module _ (table : ℕ → Option Operation) (s : Volume) (dp name poff de : Ptr) (count : ℕ)
    (h : IsDirectory s dp name de count) where
  abbrev after_entry : (off : ℕ) → Memory → Memory
  after_entry off m = filled s dp de off dirent_size m

  read_entry-after :
      (off : ℕ) (m : Memory)
      → off % dirent_size ≡ 0
      → off < (s.inode dp).size
      → read_entry table dp de off "dirlookup read" (with_mem m s) ≡ with_mem (after_entry off m) s
  unfolding read_entry
  read_entry-after off m aligned below =
      let file : (s.inode dp).itype ≢ t_dev = λ e. absurd (omega (arith, e, h.dir)) in
      let size_word : (s.inode dp).size < 4294967296 = omega (arith, h.sized, h.mapped.fits) in
      let room : off + dirent_size ≤ (s.inode dp).size = omega (arith, aligned, below, h.whole) in
      let read =
        readi-filled table dp de off dirent_size count (with_mem m s) file
          (record { fits = h.mapped.fits; blocks = h.mapped.blocks; indirect = h.mapped.indirect })
          h.sized (omega (arith, below, size_word)) (omega arith) in
      let good : (ltb (s.inode dp).size off || leb 4294967296 (off + dirent_size)) ≡ false =
        ground (arith, room) in
      let all : delivered (with_mem m s) dp off dirent_size ≡ dirent_size = ground (arith, room) in
      rw (read, good, all) refl

  after_entry-keeps :
      (off : ℕ) (m : Memory) → KeepsOutside s de m → KeepsOutside s de (after_entry off m)
  after_entry-keeps off m keep a out = rw out (keep a out)

  after_entry-byte :
      (off : ℕ) (m : Memory) (i : ℕ)
      → i < dirent_size
      → after_entry off m (de + i) ≡ byte s dp (off + i)
  after_entry-byte off m i lt =
      let inner : within de dirent_size (de + i) ≡ true = ground arith in
      let place : off + (de + i - de) ≡ off + i = omega arith in
      rw inner (ap (λ k. byte s dp k) place)

  after_entry-inum : (off : ℕ) (m : Memory) → get16 (after_entry off m) de ≡ entry_inum s dp off
  unfolding get16
  after_entry-inum off m =
      let first : after_entry off m de ≡ byte s dp off =
        ap (after_entry off m) (omega arith)
        ∙ after_entry-byte off m 0 (omega arith)
        ∙ ap (λ k. byte s dp k) (omega arith) in
      ap (λ b. b + 256 * after_entry off m (de + 1)) first
      ∙ ap (λ b. byte s dp off + 256 * b) (after_entry-byte off m 1 (omega arith))

  after_entry-name :
      (off : ℕ) (m : Memory)
      → KeepsOutside s de m
      → is_zero (namecmp name (de + 2) (after_entry off m)) ≡ has_name dirsiz s dp name (off + 2)
  after_entry-name off m keep =
      strncmp-has_name dirsiz s dp name (de + 2) (off + 2) (after_entry off m)
        (λ i lt.
          let out : within de dirent_size (name + i) ≡ false = ground (arith, h.apart) in
          after_entry-keeps off m keep (name + i) out)
        (λ i lt.
          let left : de + 2 + i ≡ de + (2 + i) = omega arith in
          let right : off + (2 + i) ≡ off + 2 + i = omega arith in
          ap (after_entry off m) left
          ∙ after_entry-byte off m (2 + i) (omega (arith, lt))
          ∙ ap (λ k. byte s dp k) right)

  dirlookup_loop-first :
      (rounds off : ℕ) (m : Memory)
      → KeepsOutside s de m
      → off % dirent_size ≡ 0
      → Looked s dp poff de
          (first_entry rounds s dp name off)
          (dirlookup_loop table rounds off dp name poff de (with_mem m s))
  unfolding dirlookup_loop first_entry
  dirlookup_loop-first zero off m keep aligned = (m, keep, refl)
  dirlookup_loop-first (suc rounds) off m keep aligned =
      let m' = after_entry off m in
      let keep' = after_entry-keeps off m keep in
      let t = dirlookup_loop-first rounds (off + dirent_size) m' keep' (omega (arith, aligned)) in
      elim (Bool-cases (ltb off (s.inode dp).size)) [
        | inr e ↦ rw e (m, keep, refl)
        | inl e ↦
            let read = read_entry-after off m aligned (ltb→lt _ _ e) in
            elim (Bool-cases (is_entry s dp name off)) [
              | inl hit ↦
                  rw (e, hit, read, after_entry-inum off m, after_entry-name off m keep, hit)
                    (m', keep', refl)
              | inr miss ↦
                  rw (e, miss, read, after_entry-inum off m, after_entry-name off m keep, miss) t
            ]
      ]

-- In a directory of whole entries, whose blocks are there, and with a local buffer for an entry
-- that does not overlap the name, dirlookup gets the inode of the first entry that is in use
-- and has the name, and stores its offset where `poff` points; with no such entry it returns
-- null. An entry has the name if its 14 bytes agree with it, up to a zero that ends both. But
-- for that, only the local buffer changes.
pub dirlookup-Looked :
    (table : ℕ → Option Operation) (s : Volume) (dp name poff de : Ptr) (count : ℕ)
    → IsDirectory s dp name de count
    → Looked s dp poff de
        (first_entry ((s.inode dp).size / dirent_size + 2) s dp name 0)
        (dirlookup table dp name poff de s)
unfolding dirlookup
dirlookup-Looked table s dp name poff de count h =
    let known : ((s.inode dp).itype == t_dir) ≡ true = ground (arith, h.dir) in
    rw known (
      dirlookup_loop-first table s dp name poff de count h ((s.inode dp).size / dirent_size + 2) 0
        s.mem (λ a out. refl) (omega arith))
