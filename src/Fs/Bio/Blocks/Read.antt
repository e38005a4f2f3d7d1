-- ===== src/Fs/Bio/Blocks/Read.antt =====
-- bget and bread of fs/bio.c, the invariant of the cache and the disk.
use mathlib.Core.List.{reverse, reverse_aux}
use mathlib.Core.Path.{subst}
use lxos.Base.{
  ℕ, ◌+◌, ◌%◌, ◌^◌, ◌<◌, ◌≤◌, ◌≡◌, ◌≢◌, refl, sym, ap, ◌∙◌, arith, List, [], ◌∷◌, ◌==◌,
  if◌then◌else◌, true, false, ◌||◌, some, length, Bool-cases, inl, inr, ==_iff,
}
use lxos.Libc.Memory.{Ptr}
use lxos.Drivers.Device.{Device, IsDisk}
use lxos.Drivers.Ide.{Machine, set_buf, iderw}
use lxos.Drivers.Ide.Transfer.{Transferred, iderw-Transferred}
use lxos.Drivers.Ide.Commands.{update_self}
use lxos.Fs.Bio.{head, bget, bread, is_block, is_unused}
use lxos.Fs.Bio.Lists.{find}
use lxos.Fs.Bio.Cache.{lru_get, bget-lru_get}
use lxos.Fs.Bio.Blocks.Invariant.{has, IsCache, IsCache-update, find-hit, find-miss, NotIn-ne}

-- The buffer `b` is taken for the block `blockno` of the root device. If nobody used the block, and
-- the buffer is valid, it holds what the disk holds.
pub record Taken {D : Device} (s s' : Machine D) (xs : List Ptr) (b blockno : ℕ) : Type 0 where
  pub cache : IsCache s' xs
  pub member : has b xs ≡ true
  pub dev : (s'.buf b).dev ≡ 1
  pub block : (s'.buf b).blockno ≡ blockno
  pub used : 0 < (s'.buf b).refcnt
  pub bounded : (s'.buf b).refcnt < 2 ^ 32
  pub sectors : (d l : ℕ) → D.sector s'.device d l ≡ D.sector s.device d l
  pub content :
      (s'.buf b).valid ≡ true
      → ((p : Ptr)
          → has p xs ≡ true
          → (s.buf p).dev ≡ 1
          → (s.buf p).blockno ≡ blockno
          → (s.buf p).refcnt ≡ 0)
      → (s'.buf b).content ≡ D.sector s.device 1 blockno

has-reverse_aux : (p : Ptr) (xs ys : List Ptr) → has p (reverse_aux xs ys) ≡ (has p xs || has p ys)
has-reverse_aux p [] ys = refl
has-reverse_aux p (x ∷ xs) ys = ground (arith, has-reverse_aux p xs (x ∷ ys))

has-reverse : (p : Ptr) (xs : List Ptr) → has p (reverse xs) ≡ true → has p xs ≡ true
has-reverse p xs h = ground (arith, has-reverse_aux p xs [])

module _ {D : Device} (s : Machine D) (xs : List Ptr) (blockno : ℕ) (c : IsCache s xs) where
  take_cached :
      (b : Ptr)
      → has b xs ≡ true
      → is_block 1 blockno (s.buf b) ≡ true
      → (s.buf b).refcnt + 1 < 2 ^ 32
      → Taken s
          (set_buf b (record (s.buf b) { refcnt = ((s.buf b).refcnt + 1) % 2 ^ 32 }) s)
          xs
          b
          blockno
  take_cached b h t small =
      let v = record (s.buf b) { refcnt = ((s.buf b).refcnt + 1) % 2 ^ 32 } in
      let dev1 : (s.buf b).dev ≡ 1 = ground arith in
      let block : (s.buf b).blockno ≡ blockno = ground arith in
      record {
        cache =
            IsCache-update s _ xs b v c refl refl refl c.queue (λ q hq nq dq. refl)
              (record {
                clean = rw update_self (c.settled b h).clean;
                named = rw update_self (c.settled b h).named;
                coherent = rw update_self (λ va un. absurd (omega arith));
              })
              (λ dv q hq nq dq eq. nq (c.unique q b hq h dq dev1 eq));
        member = h;
        dev = rw update_self dev1;
        block = rw update_self block;
        used = rw update_self (omega arith);
        bounded = rw update_self (omega arith);
        sectors = λ d l. refl;
        content = rw update_self (λ va idle.
            (c.settled b h).coherent va (idle b h dev1 block) ∙ ap (D.sector s.device 1) block);
      }

  take_unused :
      (b : Ptr)
      → has b xs ≡ true
      → ((p : Ptr) → has p xs ≡ true → is_block 1 blockno (s.buf p) ≡ false)
      → Taken s
          (set_buf b
            (record (s.buf b) {
              dev = 1;
              blockno = blockno;
              valid = false;
              dirty = false;
              refcnt = 1;
            })
            s)
          xs
          b
          blockno
  take_unused b h missing = record {
    cache =
        IsCache-update s _ xs b _ c refl refl refl c.queue (λ q hq nq dq. refl)
          (record {
            clean = rw update_self refl;
            named = rw update_self (λ va. absurd (cc));
            coherent = rw update_self (λ va un. absurd (cc));
          })
          (λ dv q hq nq dq eq. ground (arith, missing q hq));
    member = h;
    dev = rw update_self refl;
    block = rw update_self refl;
    used = rw update_self (omega arith);
    bounded = rw update_self (omega arith);
    sectors = λ d l. refl;
    content = rw update_self (λ va idle. absurd (cc));
  }

-- the block is cached, or some buffer is unused
abbrev pub Available : {D : Device} → Machine D → List Ptr → ℕ → Type 0
Available s xs blockno =
    find (is_block 1 blockno) xs s ≡ head → find is_unused (reverse xs) s ≢ head

-- no count of users is about to wrap round
abbrev pub FewUsers : {D : Device} → Machine D → List Ptr → Type 0
FewUsers s xs = (p : Ptr) → has p xs ≡ true → (s.buf p).refcnt + 1 < 2 ^ 32

module _ {D : Device} (s : Machine D) (xs : List Ptr) (blockno : ℕ) (c : IsCache s xs) where
  lru_get-Taken :
      Available s xs blockno
      → FewUsers s xs
      → Taken s (lru_get 1 blockno xs s).1 xs (lru_get 1 blockno xs s).0 blockno
  unfolding lru_get
  lru_get-Taken room few = elim (Bool-cases (find (is_block 1 blockno) xs s == head)) [
    | inr cached ↦
        let (h, t) = find-hit (is_block 1 blockno) s xs _ refl (λ e. ground arith) in
        rw cached (take_cached s xs blockno c (find (is_block 1 blockno) xs s) h t (few _ h))
    | inl none_cached ↦
        let miss : find (is_block 1 blockno) xs s ≡ head = (==_iff _ _).0 none_cached in
        let free : (find is_unused (reverse xs) s == head) ≡ false = ground (arith, room miss) in
        let (h, t) = find-hit is_unused s (reverse xs) _ refl (room miss) in
        rw (none_cached, free)
          (take_unused s xs blockno c (find is_unused (reverse xs) s) (has-reverse _ xs h)
            (find-miss (is_block 1 blockno) s xs miss c.ring.apart))
  ]

-- the read that fills a buffer which is not valid yet
module _ {D : Device} {s s1 s2 : Machine D} {xs : List Ptr} {b blockno : ℕ} where
  fill-Taken :
      Taken s s1 xs b blockno
      → (s1.buf b).valid ≡ false
      → Transferred b s1 s2
      → Taken s s2 xs b blockno × ((s2.buf b).valid ≡ true)
  fill-Taken k invalid t = (
    record {
      cache =
          IsCache-update s1 s2 xs b _ k.cache t.store refl refl t.queue
            (λ q hq nq dq. unchanged 1 (s1.buf q).blockno)
            (record {
              clean = rw at_b refl;
              named = rw at_b (λ va. k.dev);
              coherent = rw at_b (λ va un. absurd (omega (arith, k.used)));
            })
            (λ dv q hq nq dq eq. nq (k.cache.unique q b hq k.member dq k.dev eq));
      member = k.member;
      dev = rw at_b k.dev;
      block = rw at_b k.block;
      used = rw at_b k.used;
      bounded = rw at_b k.bounded;
      sectors = λ d l. unchanged d l ∙ k.sectors d l;
      content = rw at_b (λ va idle. got);
    },
    rw at_b refl,
  )
    where
      clean : (s1.buf b).dirty ≡ false
      clean = (k.cache.settled b k.member).clean

      at_b : s2.buf b ≡ record (s1.buf b) {
        valid = true;
        dirty = false;
        qnext = 0;
        content =
            if (s1.buf b).dirty
            then (s1.buf b).content
            else D.sector s1.device ((s1.buf b).dev % 2) (s1.buf b).blockno;
      }
      at_b = ap (λ f. f b) t.store ∙ update_self s1.buf b _

      unchanged : (d l : ℕ) → D.sector s2.device d l ≡ D.sector s1.device d l
      unchanged d l = t.sectors d l ∙ rw clean refl

      got :
          (if (s1.buf b).dirty
            then (s1.buf b).content
            else D.sector s1.device ((s1.buf b).dev % 2) (s1.buf b).blockno)
          ≡ D.sector s.device 1 blockno
      got = rw (clean, k.dev, k.block) (k.sectors 1 blockno)

-- bread from its parts
module _ {D : Device} (fuel blockno : ℕ) (b : Ptr) (s s1 : Machine D) where
  bread_cached :
      bget fuel 1 blockno s ≡ some (b, s1)
      → b ≢ 0
      → (s1.buf b).valid ≡ true
      → bread fuel 1 blockno s ≡ some (b, s1)
  unfolding bread
  bread_cached got ne va = ground arith

  bread_filled :
      (s2 : Machine D)
      → bget fuel 1 blockno s ≡ some (b, s1)
      → b ≢ 0
      → (s1.buf b).valid ≡ false
      → iderw fuel b s1 ≡ some s2
      → bread fuel 1 blockno s ≡ some (b, s2)
  unfolding bread
  bread_filled s2 got ne invalid run = ground arith

module _ {D : Device} (K : IsDisk D) (fuel : ℕ) (s : Machine D) (xs : List Ptr) (blockno : ℕ) where
  -- On a settled cache, with a buffer for the block and fuel enough, bread returns a valid buffer
  -- that is taken for the block: the cache stays settled, the disk is the same, and unless
  -- someone else uses the block the buffer holds what the disk holds.
  pub bread-Taken :
      K.patience ≤ fuel
      → 2 ≤ fuel
      → length xs < fuel
      → blockno < 2 ^ 28
      → IsCache s xs
      → Available s xs blockno
      → FewUsers s xs
      → (b : Ptr) × (s' : Machine D) × (bread fuel 1 blockno s ≡ some (b, s'))
        × Taken s s' xs b blockno
        × ((s'.buf b).valid ≡ true)
  bread-Taken big two long small c room few =
      let b = (lru_get 1 blockno xs s).0 in
      let s1 = (lru_get 1 blockno xs s).1 in
      let got = bget-lru_get fuel 1 blockno s xs c.ring long in
      let k : Taken s s1 xs b blockno = lru_get-Taken s xs blockno c room few in
      let ne : b ≢ 0 = NotIn-ne 0 b xs c.ne_null k.member in
      elim (Bool-cases (s1.buf b).valid) [
        | inl va ↦ (b, s1, bread_cached fuel blockno b s s1 got ne va, k, va)
        | inr invalid ↦
            let (s2, run, t) =
              iderw-Transferred K fuel big b s1 ne (subst (λ x. x < 2 ^ 28) (sym k.block) small) two
                k.cache.queue (ground arith) in
            let (k2, va) = fill-Taken k invalid t in
            (b, s2, bread_filled fuel blockno b s s1 s2 got ne invalid run, k2, va)
      ]
