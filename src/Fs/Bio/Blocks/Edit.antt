-- ===== src/Fs/Bio/Blocks/Edit.antt =====
-- The sequence by which fs/fs.c changes a block: bread, stores to the buffer's data, bwrite, brelse.
use lxos.Base.{
  ℕ, ◌^◌, ◌<◌, ◌≤◌, ◌≡◌, refl, sym, ap, ◌∙◌, arith, List, [], ◌∷◌, ◌++◌, ◌==◌, if◌then◌else◌, true,
  ◌&&◌, Option, none, some, length, Bool-cases, inl, inr, ==_iff,
}
use lxos.Libc.Memory.{Ptr}
use lxos.Drivers.Device.{Data, Device, IsDisk}
use lxos.Drivers.Ide.{Machine, set_buf}
use lxos.Drivers.Ide.Commands.{update_self}
use lxos.Fs.Bio.{bread, bwrite, brelse}
use lxos.Fs.Bio.Cache.{lru_release}
use lxos.Fs.Bio.Blocks.Invariant.{has, IsCache, IsCache-update}
use lxos.Fs.Bio.Blocks.Read.{Taken, Available, FewUsers, bread-Taken}
use lxos.Fs.Bio.Blocks.Write.{Written, bwrite-Written, brelse-IsCache, brelse-device}

-- the stores to `bp->data`, as a function of the old data
abbrev pub set_content : {D : Device} → Ptr → (Data → Data) → Machine D → Machine D
set_content b f s = set_buf b (record (s.buf b) { content = f (s.buf b).content }) s

unfoldable pub edit :
    {D : Device} → (fuel blockno : ℕ) → (Data → Data) → Machine D → Option (Machine D)
edit fuel blockno f s = elim (bread fuel 1 blockno s) [
  | none ↦ none
  | some (b, s1) ↦ elim (bwrite fuel b (set_content b f s1)) [
    | none ↦ none
    | some s2 ↦ some (brelse b s2)
  ]
]

-- a buffer of the ring has others before and behind it
has-split :
    (b : Ptr) (xs : List Ptr)
    → has b xs ≡ true
    → (ys : List Ptr) × (zs : List Ptr) × (xs ≡ ys ++ b ∷ zs)
has-split b [] h = absurd (cc)
has-split b (x ∷ xs) h = elim (Bool-cases (b == x)) [
  | inl here ↦ ([], xs, ap (λ y. y ∷ xs) (sym ((==_iff b x).0 here)))
  | inr far ↦ let (ys, zs, e) = has-split b xs (ground arith) in (x ∷ ys, zs, ap (λ t. x ∷ t) e)
]

module _ {D : Device} (s s1 : Machine D) (xs : List Ptr) (b blockno : ℕ) (f : Data → Data) where
  -- A buffer in use may hold what the disk does not.
  set_content-IsCache : Taken s s1 xs b blockno → IsCache (set_content b f s1) xs
  set_content-IsCache k =
      IsCache-update s1 (set_content b f s1) xs b _ k.cache refl refl refl k.cache.queue
        (λ q hq nq dq. refl)
        (record {
          clean = rw update_self (k.cache.settled b k.member).clean;
          named = rw update_self (k.cache.settled b k.member).named;
          coherent = rw update_self (λ va un. absurd (omega (arith, k.used, un)));
        })
        (λ dv q hq nq dq eq. nq (k.cache.unique q b hq k.member dq k.dev eq))

-- the release at the end, of a buffer that was written
module _ {D : Device} (s1 s2 : Machine D) (xs : List Ptr) (b : Ptr) where
  release-IsCache :
      has b xs ≡ true
      → 0 < (s1.buf b).refcnt
      → (s1.buf b).refcnt < 2 ^ 32
      → Written s1 s2 xs b
      → (zs : List Ptr) × IsCache (brelse b s2) zs
  release-IsCache member used bounded w =
      let (ys, zs, e) = has-split b xs member in
      let count : (s2.buf b).refcnt ≡ (s1.buf b).refcnt = ap (λ v. v.refcnt) w.buffer in
      let number : (s2.buf b).blockno ≡ (s1.buf b).blockno = ap (λ v. v.blockno) w.buffer in
      let held : (s2.buf b).content ≡ (s1.buf b).content = ap (λ v. v.content) w.buffer in
      let on_disk : D.sector s2.device 1 (s1.buf b).blockno ≡ (s1.buf b).content =
        w.sectors 1 (s1.buf b).blockno ∙ ground arith in
      (
        lru_release ys b zs s2,
        brelse-IsCache s2 ys b zs (rw e at w.cache) (rw count used) (rw count bounded)
            (λ va last. held ∙ sym on_disk ∙ ap (D.sector s2.device 1) (sym number)),
      )

edit_runs :
    {D : Device} (fuel blockno : ℕ) (f : Data → Data) (s : Machine D) (b : Ptr) (s1 s3 : Machine D)
    → bread fuel 1 blockno s ≡ some (b, s1)
    → bwrite fuel b (set_content b f s1) ≡ some s3
    → edit fuel blockno f s ≡ some (brelse b s3)
unfolding edit
edit_runs fuel blockno f s b s1 s3 read run = rw (edit, read, run) refl

-- bread, a change of the buffer's data by `f`, bwrite and brelse of a block of the root device that
-- nobody uses: on a settled cache with a buffer for the block, and with fuel enough, they return, the
-- disk then holds in that block what `f` makes of it, and the same as before elsewhere, and the cache
-- is settled again.
pub edit-Edited :
    {D : Device} (K : IsDisk D) (fuel blockno : ℕ) (f : Data → Data) (s : Machine D) (xs : List Ptr)
    → K.patience ≤ fuel
    → 2 ≤ fuel
    → length xs < fuel
    → blockno < 2 ^ 28
    → IsCache s xs
    → Available s xs blockno
    → FewUsers s xs
    → ((p : Ptr)
        → has p xs ≡ true
        → (s.buf p).dev ≡ 1
        → (s.buf p).blockno ≡ blockno
        → (s.buf p).refcnt ≡ 0)
    → (s' : Machine D) × (zs : List Ptr) × (edit fuel blockno f s ≡ some s')
      × IsCache s' zs
      × ((d l : ℕ)
          → D.sector s'.device d l ≡ (
              if d == 1 && l == blockno
              then f (D.sector s.device 1 blockno)
              else D.sector s.device d l))
edit-Edited {D} K fuel blockno f s xs big two long small c room few idle =
    let (b, s1, read, k, va) = bread-Taken K fuel s xs blockno big two long small c room few in
    let s2 = set_content b f s1 in
    let at : s2.buf b ≡ record (s1.buf b) { content = f (s1.buf b).content } =
      update_self s1.buf b _ in
    let dev1 : (s2.buf b).dev ≡ 1 = ap (λ v. v.dev) at ∙ k.dev in
    let number : (s2.buf b).blockno ≡ blockno = ap (λ v. v.blockno) at ∙ k.block in
    let held : (s2.buf b).content ≡ f (D.sector s.device 1 blockno) =
      ap (λ v. v.content) at ∙ ap f (k.content va idle) in
    let (s3, run, w) =
      bwrite-Written K fuel s2 xs b big two (set_content-IsCache s s1 xs b blockno f k) k.member
        dev1 (rw number small) in
    let (zs, settled) = release-IsCache s2 s3 xs b k.member (rw at k.used) (rw at k.bounded) w in
    (
      brelse b s3,
      zs,
      edit_runs fuel blockno f s b s1 s3 read run,
      settled,
      λ d l.
          ap (λ st. D.sector st d l) (brelse-device s3 [] b [])
          ∙ w.sectors d l
          ∙ rw (number, held)
              (ap (λ y. if d == 1 && l == blockno then f (D.sector s.device 1 blockno) else y)
                (k.sectors d l)),
    )
