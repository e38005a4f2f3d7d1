-- ===== src/Fs/Bio/Blocks/Write.antt =====
-- bwrite and brelse of fs/bio.c, the invariant of the cache and the disk.
use mathlib.Core.Path.{subst}
use lxos.Base.{
  ℕ, ◌+◌, ◌^◌, ◌<◌, ◌≤◌, ◌≡◌, ◌≢◌, refl, sym, ap, ◌∙◌, arith, List, [], ◌∷◌, ◌++◌, ◌==◌,
  if◌then◌else◌, true, false, ◌||◌, ◌&&◌, some, Bool-cases, inl, inr, ==_iff,
}
use lxos.Libc.Memory.{Ptr}
use lxos.Drivers.Device.{Device, IsDisk}
use lxos.Drivers.Ide.{Buf, Machine, update, set_buf}
use lxos.Drivers.Ide.Transfer.{Transferred, iderw-Transferred}
use lxos.Drivers.Ide.Commands.{update_self, update-update}
use lxos.Fs.Bio.{bwrite, brelse, push_front, unlink}
use lxos.Fs.Bio.Ring.{NotIn, All-append, All-join}
use lxos.Fs.Bio.Lists.{IsRing}
use lxos.Fs.Bio.Cache.{brelse-lru_release, lru_release, payload-brelse}
use lxos.Fs.Bio.Blocks.Invariant.{has, IsSettled, IsCache, IsCache-update, NotIn-ne}

-- The block of the buffer `b` stands on the disk as it stands in the buffer.
pub record Written {D : Device} (s s' : Machine D) (xs : List Ptr) (b : Ptr) : Type 0 where
  pub cache : IsCache s' xs
  pub buffer : s'.buf b ≡ record (s.buf b) { valid = true; dirty = false; qnext = 0 }
  pub others : (q : Ptr) → q ≢ b → s'.buf q ≡ s.buf q
  pub sectors :
      (d l : ℕ)
      → D.sector s'.device d l
        ≡ (if d == 1 && l == (s.buf b).blockno then (s.buf b).content else D.sector s.device d l)

update_ne : (f : Ptr → Buf) (b q : Ptr) (v : Buf) → q ≢ b → update f b v q ≡ f q
unfolding update
update_ne f b q v ne = ground arith

module _ {D : Device} {s s2 : Machine D} {xs : List Ptr} {b : Ptr} where
  -- the transfer of the buffer, once it is marked dirty
  iderw-Written :
      IsCache s xs
      → has b xs ≡ true
      → (s.buf b).dev ≡ 1
      → Transferred b (set_buf b (record (s.buf b) { dirty = true }) s) s2
      → Written s s2 xs b
  iderw-Written c h dev1 t = record {
    cache =
        IsCache-update s s2 xs b clean_buf c store refl refl t.queue
          (λ q hq nq dq.
            sectors 1 (s.buf q).blockno ∙ kept q (λ e. nq (c.unique q b hq h dq dev1 e)))
          (record {
            clean = rw at_b refl;
            named = rw at_b (λ va. dev1);
            coherent = rw at_b (λ va un. sym (sectors 1 (s.buf b).blockno ∙ ground arith));
          })
          (λ dv q hq nq dq eq. nq (c.unique q b hq h dq dev1 eq));
    buffer = at_b;
    others = λ q ne. ap (λ f. f q) store ∙ update_other q ne;
    sectors = sectors;
  }
    where
      clean_buf : Buf
      clean_buf = record (s.buf b) { valid = true; dirty = false; qnext = 0 }

      store : s2.buf ≡ update s.buf b clean_buf
      store = t.store ∙ rw (update-update, update_self) refl

      at_b : s2.buf b ≡ clean_buf
      at_b = ap (λ f. f b) store ∙ update_self s.buf b clean_buf

      sectors :
          (d l : ℕ)
          → D.sector s2.device d l ≡ (
              if d == 1 && l == (s.buf b).blockno then (s.buf b).content else D.sector s.device d l)
      sectors d l = t.sectors d l ∙ rw (update_self, dev1) refl

      kept :
          (q : Ptr)
          → (s.buf q).blockno ≢ (s.buf b).blockno
          → (if 1 == 1 && (s.buf q).blockno == (s.buf b).blockno
              then (s.buf b).content
              else D.sector s.device 1 (s.buf q).blockno)
            ≡ D.sector s.device 1 (s.buf q).blockno
      kept q ne = ground arith

      update_other : (q : Ptr) → q ≢ b → update s.buf b clean_buf q ≡ s.buf q
      update_other q ne = update_ne s.buf b q clean_buf ne

module _ {D : Device} (K : IsDisk D) (fuel : ℕ) (s : Machine D) (xs : List Ptr) (b : Ptr) where
  -- bwrite of a buffer that holds a block of the root device returns, and the disk then holds the
  -- buffer's bytes in that block and is the same elsewhere. The buffer is valid and clean, no other
  -- buffer changes, and the cache stays settled.
  pub bwrite-Written :
      K.patience ≤ fuel
      → 2 ≤ fuel
      → IsCache s xs
      → has b xs ≡ true
      → (s.buf b).dev ≡ 1
      → (s.buf b).blockno < 2 ^ 28
      → (s' : Machine D) × (bwrite fuel b s ≡ some s') × Written s s' xs b
  unfolding bwrite
  bwrite-Written big two c h dev1 small =
      let ne : b ≢ 0 = NotIn-ne 0 b xs c.ne_null h in
      let s1 = set_buf b (record (s.buf b) { dirty = true }) s in
      let at : s1.buf b ≡ record (s.buf b) { dirty = true } = update_self s.buf b _ in
      let (s2, run, t) =
        iderw-Transferred K fuel big b s1 ne (rw at small) two c.queue (rw at refl) in
      (s2, run, iderw-Written c h dev1 t)

has-append : (p : Ptr) (xs ys : List Ptr) → has p (xs ++ ys) ≡ (has p xs || has p ys)
has-append p [] ys = refl
has-append p (x ∷ xs) ys = ground (arith, has-append p xs ys)

module _ {D : Device} (s : Machine D) (ys : List Ptr) (b : Ptr) (zs : List Ptr) where
  pub brelse-device : (brelse b s).device ≡ s.device
  unfolding brelse push_front unlink
  brelse-device = ground arith

  brelse-queue : (brelse b s).idequeue ≡ s.idequeue
  unfolding brelse push_front unlink
  brelse-queue = ground arith

  has-release : (p : Ptr) → has p (lru_release ys b zs s) ≡ has p (ys ++ b ∷ zs)
  unfolding lru_release
  has-release p = ground (arith, has-append p ys zs, has-append p ys (b ∷ zs))

  NotIn-release : NotIn 0 (ys ++ b ∷ zs) → NotIn 0 (lru_release ys b zs s)
  unfolding lru_release
  NotIn-release n =
      let (l, r) = All-append (λ q. 0 ≢ q) ys (b ∷ zs) n in
      elim (Bool-cases ((s.buf b).refcnt == 1)) [
        | inl last ↦ rw last (r.0, All-join (λ q. 0 ≢ q) ys zs l r.1)
        | inr more ↦ rw more n
      ]

  -- a release changes nothing of a buffer but its place and its count
  data-brelse :
      (p : Ptr)
      → ◌≡◌ {A = Buf}
          (record ((brelse b s).buf p) { prev = 0; next = 0; refcnt = 0 })
          (record (s.buf p) { prev = 0; next = 0; refcnt = 0 })
  unfolding update
  data-brelse p =
      ap {A = Buf} {B = Buf} (λ v. record v { refcnt = 0 }) (payload-brelse b s p) ∙ ground arith

  count-brelse : (p : Ptr) → p ≢ b → ((brelse b s).buf p).refcnt ≡ (s.buf p).refcnt
  unfolding update
  count-brelse p ne = ap (λ v. v.refcnt) (payload-brelse b s p) ∙ ground arith

  -- brelse keeps the cache settled, in its new order, if the last user of a valid buffer has
  -- written it: what the buffer holds is what the disk holds.
  pub brelse-IsCache :
      IsCache s (ys ++ b ∷ zs)
      → 0 < (s.buf b).refcnt
      → (s.buf b).refcnt < 2 ^ 32
      → ((s.buf b).valid ≡ true
          → (s.buf b).refcnt ≡ 1
          → (s.buf b).content ≡ D.sector s.device 1 (s.buf b).blockno)
      → IsCache (brelse b s) (lru_release ys b zs s)
  brelse-IsCache c used small kept = record {
    ring = order.0;
    ne_null = NotIn-release c.ne_null;
    queue = brelse-queue ∙ c.queue;
    settled = λ p h.
        let o = c.settled p (rw (has-release p) at h) in
        record {
          clean = dirty p ∙ o.clean;
          named = λ va. dev p ∙ o.named (sym (valid p) ∙ va);
          coherent = λ va un.
              content p
              ∙ last p o (sym (valid p) ∙ va) un
              ∙ (λ i. D.sector (sym brelse-device i) 1 (sym (blockno p) i));
        };
    unique = λ p q hp hq dp dq ee.
        c.unique p q (rw (has-release p) at hp) (rw (has-release q) at hq) (sym (dev p) ∙ dp)
          (sym (dev q) ∙ dq) (sym (blockno p) ∙ ee ∙ blockno q);
  }
    where
      order :
          IsRing (brelse b s) (lru_release ys b zs s)
          × (((brelse b s).buf b).refcnt + 1 ≡ (s.buf b).refcnt)
      order = brelse-lru_release ys b zs s c.ring used small

      dirty : (p : Ptr) → ((brelse b s).buf p).dirty ≡ (s.buf p).dirty
      dirty p = ap (λ v. v.dirty) (data-brelse p)

      valid : (p : Ptr) → ((brelse b s).buf p).valid ≡ (s.buf p).valid
      valid p = ap (λ v. v.valid) (data-brelse p)

      dev : (p : Ptr) → ((brelse b s).buf p).dev ≡ (s.buf p).dev
      dev p = ap (λ v. v.dev) (data-brelse p)

      blockno : (p : Ptr) → ((brelse b s).buf p).blockno ≡ (s.buf p).blockno
      blockno p = ap (λ v. v.blockno) (data-brelse p)

      content : (p : Ptr) → ((brelse b s).buf p).content ≡ (s.buf p).content
      content p = ap (λ v. v.content) (data-brelse p)

      last :
          (p : Ptr)
          → IsSettled s p
          → (s.buf p).valid ≡ true
          → ((brelse b s).buf p).refcnt ≡ 0
          → (s.buf p).content ≡ D.sector s.device 1 (s.buf p).blockno
      last p o va un = elim (Bool-cases (p == b)) [
        | inl same ↦
            let pb : p ≡ b = (==_iff p b).0 same in
            let one : (s.buf b).refcnt ≡ 1 =
              omega (arith, order.1, ap (λ x. ((brelse b s).buf x).refcnt) pb) in
            subst (λ x. (s.buf x).content ≡ D.sector s.device 1 (s.buf x).blockno) (sym pb)
              (kept (sym (ap (λ x. (s.buf x).valid) pb) ∙ va) one)
        | inr other ↦ o.coherent va (sym (count-brelse p (λ r. ground arith)) ∙ un)
      ]
