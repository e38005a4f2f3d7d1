-- ===== src/Fs/Bio/Cache.antt =====
-- bget and brelse of fs/bio.c as the policy that they carry out on the list of buffers: the block if
-- it is cached, else the unused buffer that was released longest ago.
use mathlib.Core.List.{reverse, reverse_aux}
use lxos.Base.{
  ℕ, ◌+◌, ◌%◌, ◌^◌, ◌<◌, ◌≡◌, ◌≢◌, refl, sym, ap, ◌∙◌, arith, List, [], ◌∷◌, ◌++◌, ◌==◌,
  if◌then◌else◌, Bool, true, false, not, some, length, fun_ext, Bool-cases, inl, inr,
}
use lxos.Libc.Memory.{Ptr}
use lxos.Drivers.Device.{Device}
use lxos.Drivers.Ide.{Buf, Machine, update, set_buf}
use lxos.Fs.Bio.{
  head, push_front, unlink, scan, bget, brelse, is_block, is_unused, set_next, set_prev,
}
use lxos.Drivers.Ide.Commands.{update_self}
use lxos.Fs.Bio.Ring.{NotIn-append, Chain-reverse, NotIn, NotIn-middle}
use lxos.Fs.Bio.Lists.{
  IsRing, IsRing-push_front, IsRing-unlink, IsRing-same, find, scan-find_from, next_of, prev_of,
}

length-reverse_aux : (xs ys : List Ptr) → length (reverse_aux xs ys) ≡ length xs + length ys
length-reverse_aux [] ys = omega arith
length-reverse_aux (x ∷ xs) ys = omega (arith, length-reverse_aux xs (x ∷ ys))

NotIn-reverse_aux :
    (a : Ptr) (xs ys : List Ptr) → NotIn a xs → NotIn a ys → NotIn a (reverse_aux xs ys)
NotIn-reverse_aux a [] ys n m = m
NotIn-reverse_aux a (x ∷ xs) ys (e, n) m = NotIn-reverse_aux a xs (x ∷ ys) n (e, m)

-- a buffer without its place in the ring
abbrev pub payload : Buf → Buf
payload v = record v { prev = 0; next = 0 }

module _ {D : Device} where
  -- the buffer for a block, and the cache with it taken: what bget is to do
  unfoldable pub lru_get : (dev blockno : ℕ) → List Ptr → Machine D → Ptr × Machine D
  lru_get dev blockno xs s =
      let b = find (is_block dev blockno) xs s in
      let c = find is_unused (reverse xs) s in
      if not (b == head)
      then (b, set_buf b (record (s.buf b) { refcnt = ((s.buf b).refcnt + 1) % 2 ^ 32 }) s)
      else if not (c == head)
      then (
        c,
        set_buf c
            (record (s.buf c) {
              dev = dev;
              blockno = blockno;
              valid = false;
              dirty = false;
              refcnt = 1;
            })
            s,
      )
      else (0, record s { log = "bget: no buffers" ∷ s.log })

  scan_forward :
      (test : Buf → Bool) (fuel : ℕ) (s : Machine D) (xs : List Ptr)
      → IsRing s xs
      → length xs < fuel
      → scan test (λ v. v.next) fuel (s.buf head).next s ≡ some (find test xs s)
  scan_forward test fuel s xs r f =
      scan-find_from test (λ v. v.next) (λ v. v.prev) fuel head xs s r.apart r.chain f

  scan_backward :
      (test : Buf → Bool) (fuel : ℕ) (s : Machine D) (xs : List Ptr)
      → IsRing s xs
      → length xs < fuel
      → scan test (λ v. v.prev) fuel (s.buf head).prev s ≡ some (find test (reverse xs) s)
  scan_backward test fuel s xs r f =
      scan-find_from test (λ v. v.prev) (λ v. v.next) fuel head (reverse xs) s
        (NotIn-reverse_aux head xs [] r.apart tt)
        (Chain-reverse (next_of s) (prev_of s) head xs head r.chain)
        (omega (arith, length-reverse_aux xs []))

  -- On a ring of the buffers `xs`, with fuel for its length, bget returns, and takes the first buffer
  -- with the block; if there is none, the last one in the ring that is unused, with the block's name
  -- and not valid; if there is none of those either, it returns null.
  pub bget-lru_get :
      (fuel dev blockno : ℕ) (s : Machine D) (xs : List Ptr)
      → IsRing s xs
      → length xs < fuel
      → bget fuel dev blockno s ≡ some (lru_get dev blockno xs s)
  unfolding bget lru_get
  bget-lru_get fuel dev blockno s xs r f = ground (
    arith,
    scan_forward (is_block dev blockno) fuel s xs r f,
    scan_backward is_unused fuel s xs r f,
  )

  pub payload-set_next :
      (p v : Ptr) (s : Machine D) (q : Ptr) → payload ((set_next p v s).buf q) ≡ payload (s.buf q)
  unfolding update
  payload-set_next p v s q = ground arith

  pub payload-set_prev :
      (p v : Ptr) (s : Machine D) (q : Ptr) → payload ((set_prev p v s).buf q) ≡ payload (s.buf q)
  unfolding update
  payload-set_prev p v s q = ground arith

  pub payload-push_front :
      (b : Ptr) (s : Machine D) (q : Ptr) → payload ((push_front b s).buf q) ≡ payload (s.buf q)
  unfolding push_front
  payload-push_front b s q =
      let s1 = set_next b (s.buf head).next s in
      let s2 = set_prev b head s1 in
      let s3 = set_prev (s2.buf head).next b s2 in
      payload-set_next head b s3 q
      ∙ payload-set_prev (s2.buf head).next b s2 q
      ∙ payload-set_prev b head s1 q
      ∙ payload-set_next b (s.buf head).next s q

  payload-unlink :
      (b : Ptr) (s : Machine D) (q : Ptr) → payload ((unlink b s).buf q) ≡ payload (s.buf q)
  unfolding unlink
  payload-unlink b s q =
      let s1 = set_prev (s.buf b).next (s.buf b).prev s in
      payload-set_next (s1.buf b).prev (s1.buf b).next s1 q
      ∙ payload-set_prev (s.buf b).next (s.buf b).prev s q

  -- brelse changes the data of one buffer, in its count of users.
  pub payload-brelse :
      (b : Ptr) (s : Machine D) (q : Ptr)
      → payload ((brelse b s).buf q)
        ≡ payload (
            update s.buf b
              (record (s.buf b) { refcnt = ((s.buf b).refcnt + 4294967295) % 2 ^ 32 })
              q)
  unfolding brelse
  payload-brelse b s q =
      let s1 =
        set_buf b (record (s.buf b) { refcnt = ((s.buf b).refcnt + 4294967295) % 2 ^ 32 }) s in
      elim (Bool-cases ((s1.buf b).refcnt == 0)) [
        | inl last ↦ rw last (payload-push_front b (unlink b s1) q ∙ payload-unlink b s1 q)
        | inr more ↦ rw more refl
      ]

  IsRing-release :
      (b : Ptr) (s : Machine D) (xs : List Ptr) (r : ℕ)
      → IsRing s xs
      → IsRing (set_buf b (record (s.buf b) { refcnt = r }) s) xs
  unfolding update
  IsRing-release b s xs r h =
      IsRing-same s _ xs (fun_ext λ q. ground arith) (fun_ext λ q. ground arith) h

  -- the order of the ring after a release of `b`
  unfoldable pub lru_release : List Ptr → Ptr → List Ptr → Machine D → List Ptr
  lru_release ys b zs s = if (s.buf b).refcnt == 1 then b ∷ ys ++ zs else ys ++ b ∷ zs

  -- brelse takes one user from a buffer in use. If that was the last one the buffer goes to the
  -- front of the ring and the others keep their order; else the ring stays as it is.
  pub brelse-lru_release :
      (ys : List Ptr) (b : Ptr) (zs : List Ptr) (s : Machine D)
      → IsRing s (ys ++ b ∷ zs)
      → 0 < (s.buf b).refcnt
      → (s.buf b).refcnt < 2 ^ 32
      → IsRing (brelse b s) (lru_release ys b zs s)
        × (((brelse b s).buf b).refcnt + 1 ≡ (s.buf b).refcnt)
  unfolding brelse lru_release
  brelse-lru_release ys b zs s r used small = (order, count)
    where
      s1 : Machine D
      s1 = set_buf b (record (s.buf b) { refcnt = ((s.buf b).refcnt + 4294967295) % 2 ^ 32 }) s

      left : (s1.buf b).refcnt + 1 ≡ (s.buf b).refcnt
      left = rw update_self (omega arith)

      ring : IsRing s1 (ys ++ b ∷ zs)
      ring = IsRing-release b s (ys ++ b ∷ zs) _ r

      off_head : b ≢ head
      off_head = λ e. (NotIn-append head ys (b ∷ zs) r.apart).1.0 (sym e)

      front : IsRing (push_front b (unlink b s1)) (b ∷ ys ++ zs)
      front =
          IsRing-push_front b (unlink b s1) (ys ++ zs) off_head (NotIn-middle ys b zs r.distinct)
            (IsRing-unlink ys b zs s1 ring)

      order : IsRing (brelse b s) (lru_release ys b zs s)
      order = elim (Bool-cases ((s1.buf b).refcnt == 0)) [
        | inl last ↦
            let one : ((s.buf b).refcnt == 1) ≡ true = ground (arith, left) in rw (last, one) front
        | inr more ↦
            let several : ((s.buf b).refcnt == 1) ≡ false = ground (arith, left) in
            rw (more, several) ring
      ]

      count : ((brelse b s).buf b).refcnt + 1 ≡ (s.buf b).refcnt
      count = ap (λ v. v.refcnt + 1) (payload-brelse b s b) ∙ rw update_self (omega arith)
