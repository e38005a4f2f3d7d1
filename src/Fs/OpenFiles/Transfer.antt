-- ===== src/Fs/OpenFiles/Transfer.antt =====
-- fileread of fs/file.c.
use lxos.Base.{
  ℕ, ◌+◌, ◌*◌, ◌%◌, ◌≡◌, ◌≢◌, ◌<◌, ◌≤◌, inl, inr, refl, ◌∙◌, ap, true, false, not, ◌||◌, Option,
  ltb, leb, ◌==◌, if◌then◌else◌, arith, Bool-cases,
}
use lxos.Libc.Memory.{Ptr}
use lxos.Fs.Volume.{Volume, bsize, minus_one}
use lxos.Fs.Inodes.{positive, ilock, iunlock}
use lxos.Fs.Content.{Operation, readi, t_dev}
use lxos.Fs.Content.Mapping.{IsMapped}
use lxos.Fs.Content.Reading.{readi-filled, delivered, filled, with_mem}
use lxos.Fs.OpenFiles.{Files, fd_inode, set_file, set_vol, advance, fileread}

-- The inode is in the cache, and in use.
pub record IsLoaded (s : Volume) (ip : Ptr) : Type 0 where
  pub not_null : ip ≢ 0
  pub in_use : positive (s.inode ip).ref ≡ true
  pub loaded : (s.inode ip).valid ≡ true

module _ (s : Volume) (ip : Ptr) (h : IsLoaded s ip) where
  quiet : (ip == 0 || not (positive (s.inode ip).ref)) ≡ false
  quiet = ground (arith, h.not_null, h.in_use)

  pub ilock-loaded : ilock ip s ≡ s
  unfolding ilock
  ilock-loaded = rw (quiet, h.loaded) refl

  pub iunlock-loaded : iunlock ip s ≡ s
  unfolding iunlock
  iunlock-loaded = rw quiet refl

fileread_runs :
    (table : ℕ → Option Operation) (f addr : Ptr) (n r : ℕ) (s : Files) (vol : Volume)
    → (s.file f).readable ≡ true
    → (s.file f).ftype ≡ fd_inode
    → readi table (s.file f).ip addr (s.file f).off n (ilock (s.file f).ip s.vol) ≡ (r, vol)
    → fileread table f addr n s ≡ (r, set_vol (iunlock (s.file f).ip vol) (advance f r s))
unfolding fileread
fileread_runs table f addr n r s vol open_read inode_file read =
    rw (read, open_read, inode_file) refl

-- the offset behind what was read
moved :
    (off r : ℕ)
    → off < 2147483648
    → r < 2147483648
    → (if positive r then (off + r) % 4294967296 else off) ≡ off + r
moved off r h h' = ground arith

-- fileread of a file that is open for reading on a loaded inode, whose blocks are there, delivers the
-- bytes from the file's offset on, to the end of the file at most, returns how many they are, and
-- moves the offset behind them. With the offset behind the end it returns -1 and changes nothing.
pub fileread-delivered :
    (table : ℕ → Option Operation) (f addr : Ptr) (n count : ℕ) (s : Files)
    → (s.file f).readable ≡ true
    → (s.file f).ftype ≡ fd_inode
    → IsLoaded s.vol (s.file f).ip
    → (s.vol.inode (s.file f).ip).itype ≢ t_dev
    → IsMapped s.vol (s.file f).ip count
    → (s.vol.inode (s.file f).ip).size ≤ count * bsize
    → (s.file f).off < 2147483648
    → n < 2147483648
    → fileread table f addr n s ≡ (
        if ltb (s.vol.inode (s.file f).ip).size (s.file f).off
        then (minus_one, set_vol s.vol (set_file f (s.file f) s))
        else (
          delivered s.vol (s.file f).ip (s.file f).off n,
          set_vol
              (with_mem
                (filled s.vol
                  (s.file f).ip
                  addr
                  (s.file f).off
                  (delivered s.vol (s.file f).ip (s.file f).off n)
                  s.vol.mem)
                s.vol)
              (set_file f
                (record (s.file f) {
                  off = (s.file f).off + delivered s.vol (s.file f).ip (s.file f).off n;
                })
                s),
        ))
fileread-delivered table f addr n count s open_read inode_file h plain mapped sized off_word
      n_word =
    let ip = (s.file f).ip in
    let off = (s.file f).off in
    let r = delivered s.vol ip off n in
    let read =
      readi-filled table ip addr off n count s.vol plain mapped sized (omega arith) (omega arith) in
    let loaded = ap (readi table ip addr off n) (ilock-loaded s.vol ip h) in
    elim (Bool-cases (ltb (s.vol.inode ip).size off)) [
      | inl e ↦
          let refused : (ltb (s.vol.inode ip).size off || leb 4294967296 (off + n)) ≡ true =
            ground arith in
          rw e (
            fileread_runs table f addr n minus_one s s.vol open_read inode_file
              (loaded ∙ read ∙ rw refused refl)
            ∙ ap (λ vol. (minus_one, set_vol vol (set_file f (s.file f) s)))
                (iunlock-loaded s.vol ip h))
      | inr e ↦
          let accepted : (ltb (s.vol.inode ip).size off || leb 4294967296 (off + n)) ≡ false =
            ground arith in
          let vol = with_mem (filled s.vol ip addr off r s.vol.mem) s.vol in
          let small : r < 2147483648 = ground arith in
          rw e (
            fileread_runs table f addr n r s vol open_read inode_file
              (loaded ∙ read ∙ rw accepted refl)
            ∙ ap (λ v. (r, set_vol v (advance f r s)))
                (iunlock-loaded vol ip
                  (record { not_null = h.not_null; in_use = h.in_use; loaded = h.loaded }))
            ∙ ap (λ o. (r, set_vol vol (set_file f (record (s.file f) { off = o }) s)))
                (moved off r off_word small))
    ]
