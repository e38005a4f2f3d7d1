-- ===== src/Kernel/Loader/Format.antt =====
-- exec on a file that is not in ELF format.
use lxos.Base.{
  ℕ, ◌+◌, ◌-◌, ◌*◌, ◌≡◌, ◌≢◌, ◌<◌, ◌≤◌, refl, sym, ◌∙◌, ap, ◌⊎◌, inl, inr, Bool, true, false, ◌&&◌,
  ◌||◌, Option, some, ltb, leb, ◌==◌, arith, Bool-cases,
}
use lxos.Libc.Memory.{Ptr, within, get32}
use lxos.Fs.Volume.{Volume, minus_one, kprint}
use lxos.Fs.Inodes.{ilock}
use lxos.Fs.Content.{Operation, readi, iunlockput, t_dev}
use lxos.Fs.Content.Mapping.{byte, IsMapped}
use lxos.Fs.Content.Reading.{readi-filled, delivered, filled, with_mem}
use lxos.Fs.Content.Frame.{readi-frame, ilock-mem, iunlockput-mem}
use lxos.Fs.Directories.{namex}
use lxos.Kernel.Loader.{
  Addresses, Exec, with_volume, elf_magic, elfhdr_size, give_up_image, exec_file, exec,
}

-- The process and the processor are as they were.
abbrev pub Kept : Exec → Exec → Type 0
Kept s s' = (s'.proc ≡ s.proc) × (s'.cpu ≡ s.cpu)

-- the word that a file begins with
abbrev pub magic_of : Volume → Ptr → ℕ
magic_of v ip = byte v ip 0 + 256 * byte v ip 1 + 65536 * byte v ip 2 + 16777216 * byte v ip 3

-- the volume once exec has locked the file `ip`
abbrev pub locked : (ip : Ptr) → Volume → Volume
locked ip v = kprint "ready check elf header\n" (ilock ip v)

module _ (table : ℕ → Option Operation) (fuel : ℕ) (A : Addresses) where
  -- the result of readi for the header of the file `ip`, and the memory with what it has read
  abbrev pub header : (ip : Ptr) → Volume → ℕ × Volume
  header ip v = readi table ip A.elf 0 elfhdr_size (kprint "ready check elf header\n" (ilock ip v))

  abbrev pub is_elf : (ip : Ptr) → Volume → Bool
  is_elf ip v = (header ip v).0 == elfhdr_size && get32 (header ip v).1.mem A.elf == elf_magic

  give_up_image-unlocked :
      (ip : Ptr) (s : Exec)
      → (ip == 0) ≡ false
      → give_up_image 0 ip s ≡ some (minus_one, with_volume (iunlockput ip s.vol) s)
  unfolding give_up_image
  give_up_image-unlocked ip s z = rw (z) refl

  filled-byte :
      (v : Volume) (ip i : ℕ) → i < 52 → filled v ip A.elf 0 52 v.mem (A.elf + i) ≡ byte v ip i
  filled-byte v ip i lt =
      let inside : within A.elf 52 (A.elf + i) ≡ true = ground arith in
      let place : 0 + (A.elf + i - A.elf) ≡ i = omega arith in
      rw inside (ap (λ j. byte v ip j) place)

  filled-magic :
      (v : Volume) (ip : Ptr) → get32 (filled v ip A.elf 0 52 v.mem) A.elf ≡ magic_of v ip
  unfolding get32
  filled-magic v ip =
      let m = filled v ip A.elf 0 52 v.mem in
      let start : A.elf + 0 ≡ A.elf = omega arith in
      let first : m A.elf ≡ byte v ip 0 = ap m (sym start) ∙ filled-byte v ip 0 (omega arith) in
      omega (
        arith,
        first,
        filled-byte v ip 1 (omega arith),
        filled-byte v ip 2 (omega arith),
        filled-byte v ip 3 (omega arith),
      )

  -- what readi does for the header, for the volume `v` with the file locked
  header_read :
      (ip : Ptr) (v : Volume) (count : ℕ)
      → (v.inode ip).itype ≢ t_dev
      → IsMapped v ip count
      → (v.inode ip).size ≤ count * 512
      → readi table ip A.elf 0 52 v
        ≡ (delivered v ip 0 52, with_mem (filled v ip A.elf 0 (delivered v ip 0 52) v.mem) v)
  header_read ip v count plain h sized =
      let inside : (ltb (v.inode ip).size 0 || leb 4294967296 (0 + 52)) ≡ false = ground arith in
      readi-filled table ip A.elf 0 52 count v plain h sized (omega arith) (omega arith)
      ∙ rw inside refl

  no_magic :
      (ip : Ptr) (v : Volume) (count : ℕ)
      → (v.inode ip).itype ≢ t_dev
      → IsMapped v ip count
      → (v.inode ip).size ≤ count * 512
      → ((v.inode ip).size < 52) ⊎ (magic_of v ip ≢ elf_magic)
      → ((readi table ip A.elf 0 52 v).0 == 52
          && get32 (readi table ip A.elf 0 52 v).1.mem A.elf == elf_magic)
        ≡ false
  no_magic ip v count plain h sized why =
      let read = header_read ip v count plain h sized in
      elim (Bool-cases (ltb (v.inode ip).size 52)) [
        | inl e ↦
            let short : ((v.inode ip).size - 0 == 52) ≡ false = ground (arith, e) in
            rw (read, e, short) refl
        | inr e ↦
            let wrong : (magic_of v ip == elf_magic) ≡ false = ground (arith, why, e) in
            rw (read, e, filled-magic v ip, wrong) refl
      ]

  -- exec returns -1 for a file that is no device, has its blocks, and is shorter than an ELF header or does not
  -- begin with the magic number. The process, the processor and the free pages then are as before, and in
  -- the memory only the bytes of `elf` can have changed since the path was looked up.
  pub exec-NotElf :
      (path argv ip : Ptr) (v : Volume) (s : Exec) (count : ℕ)
      → namex table fuel false A.name A.de s.proc.cwd path (kprint "real exec: \n" s.vol)
        ≡ some (ip, v)
      → 1 ≤ ip
      → ((locked ip v).inode ip).itype ≢ t_dev
      → IsMapped (locked ip v) ip count
      → ((locked ip v).inode ip).size ≤ count * 512
      → (((locked ip v).inode ip).size < 52) ⊎ (magic_of (locked ip v) ip ≢ elf_magic)
      → (s' : Exec) × (exec table fuel A path argv s ≡ some (minus_one, s'))
        × Kept s s'
        × (s'.freelist ≡ s.freelist)
        × ((a : Ptr) → within A.elf 52 a ≡ false → s'.vol.mem a ≡ v.mem a)
  unfolding exec exec_file
  exec-NotElf path argv ip v s count found there plain h sized why =
      let z : (ip == 0) ≡ false = ground arith in
      let bad : is_elf ip v ≡ false = no_magic ip (locked ip v) count plain h sized why in
      let s1 = with_volume (header ip v).1 s in
      let unlocked = give_up_image-unlocked ip s1 z in
      (
        with_volume (iunlockput ip s1.vol) s1,
        rw (exec, found, z, exec_file, bad, unlocked) refl,
        (refl, refl),
        refl,
        (λ a out.
            ap (λ m. m a) (iunlockput-mem ip s1.vol)
            ∙ readi-frame table ip A.elf 0 52 (locked ip v) a plain (ground (arith, out))
            ∙ ap (λ m. m a) (ilock-mem ip v)),
      )
