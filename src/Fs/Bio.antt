-- ===== src/Fs/Bio.antt =====
-- The buffer cache of fs/bio.c: NBUF buffers on a doubly linked ring through `bcache.head`, the one
-- used last in front. Buffer `i` of the array stands at address `i + 1`, and the head behind them.
pub mod Ring
pub mod Lists
pub mod Cache
pub mod Blocks
use lxos.Base.{
  ℕ, zero, suc, ◌+◌, ◌%◌, ◌^◌, Bool, true, false, not, ◌&&◌, Option, none, some, ◌∷◌, ◌==◌,
  if◌then◌else◌,
}
use lxos.Libc.Memory.{Ptr}
use lxos.Drivers.Device.{Device}
use lxos.Drivers.Ide.{Buf, Machine, update, set_buf, iderw}

abbrev pub nbuf : ℕ
nbuf = 30

-- &bcache.head
abbrev pub head : Ptr
head = 31

abbrev pub is_block : (dev blockno : ℕ) → Buf → Bool
is_block dev blockno v = v.dev == dev && v.blockno == blockno

abbrev pub is_unused : Buf → Bool
is_unused v = v.refcnt == 0 && not v.dirty

module _ {D : Device} where
  abbrev pub set_next : Ptr → Ptr → Machine D → Machine D
  set_next p v s = set_buf p (record (s.buf p) { next = v }) s

  abbrev pub set_prev : Ptr → Ptr → Machine D → Machine D
  set_prev p v s = set_buf p (record (s.buf p) { prev = v }) s

  -- the four stores that put `b` behind the head, in binit and in brelse
  unfoldable pub push_front : Ptr → Machine D → Machine D
  push_front b s =
      let s1 = set_next b (s.buf head).next s in
      let s2 = set_prev b head s1 in let s3 = set_prev (s2.buf head).next b s2 in set_next head b s3

  unfoldable pub binit_loop : (rounds b : ℕ) → Machine D → Machine D
  binit_loop zero b s = s
  binit_loop (suc rounds) b s = binit_loop rounds (b + 1) (push_front b s)

  unfoldable pub binit : Machine D → Machine D
  binit s = binit_loop nbuf 1 (set_next head head (set_prev head head s))

  -- a walk from `b` until the test passes or the head is reached: where it stops
  unfoldable pub scan : (Buf → Bool) → (Buf → Ptr) → ℕ → Ptr → Machine D → Option Ptr
  scan test step zero b s = none
  scan test step (suc fuel) b s =
      let rest = scan test step fuel (step (s.buf b)) s in
      if b == head then some b else if test (s.buf b) then some b else rest

  -- The result 0 is the null pointer of `bget: no buffers`.
  unfoldable pub bget : ℕ → (dev blockno : ℕ) → Machine D → Option (Ptr × Machine D)
  bget fuel dev blockno s =
      elim (scan (is_block dev blockno) (λ v. v.next) fuel (s.buf head).next s) [
        | none ↦ none
        | some b ↦
            if not (b == head)
            then some
                (b, set_buf b (record (s.buf b) { refcnt = ((s.buf b).refcnt + 1) % 2 ^ 32 }) s)
            else elim (scan is_unused (λ v. v.prev) fuel (s.buf head).prev s) [
              | none ↦ none
              | some c ↦
                  if not (c == head)
                  then some (
                    c,
                    set_buf c
                        (record (s.buf c) {
                          dev = dev;
                          blockno = blockno;
                          valid = false;
                          dirty = false;
                          refcnt = 1;
                        })
                        s,
                  )
                  else some (0, record s { log = "bget: no buffers" ∷ s.log })
            ]
      ]

  -- bread follows the null pointer of a bget that found no buffer: `none` is that fault, too.
  unfoldable pub bread : ℕ → (dev blockno : ℕ) → Machine D → Option (Ptr × Machine D)
  bread fuel dev blockno s = elim (bget fuel dev blockno s) [
    | none ↦ none
    | some (b, s1) ↦
        if b == 0
        then none
        else if (s1.buf b).valid
        then some (b, s1)
        else elim (iderw fuel b s1) [ none ↦ none | some s2 ↦ some (b, s2) ]
  ]

  unfoldable pub bwrite : ℕ → Ptr → Machine D → Option (Machine D)
  bwrite fuel b s = iderw fuel b (set_buf b (record (s.buf b) { dirty = true }) s)

  -- the two stores that take `b` out of the ring
  unfoldable pub unlink : Ptr → Machine D → Machine D
  unlink b s =
      let s1 = set_prev (s.buf b).next (s.buf b).prev s in
      set_next (s1.buf b).prev (s1.buf b).next s1

  -- `refcnt` is unsigned: a release of a free buffer wraps round
  unfoldable pub brelse : Ptr → Machine D → Machine D
  brelse b s =
      let s1 =
        set_buf b (record (s.buf b) { refcnt = ((s.buf b).refcnt + 4294967295) % 2 ^ 32 }) s in
      if (s1.buf b).refcnt == 0 then push_front b (unlink b s1) else s1
