-- ===== src/Fs/Content/Writing.antt =====
-- The loop of writei of fs/fs.c.
use lxos.Base.{
  ℕ, zero, suc, ◌+◌, ◌-◌, ◌*◌, ◌/◌, ◌%◌, ◌≡◌, ◌≢◌, ◌<◌, ◌≤◌, ◌⊎◌, inl, inr, refl, sym, ◌∙◌, ap,
  true, false, ◌&&◌, ltb, ◌==◌, if◌then◌else◌, arith, Bool-cases, ==_iff, ltb→lt,
}
use lxos.Libc.Memory.{Ptr, within}
use lxos.Fs.Volume.{Volume, bsize, store}
use lxos.Fs.Content.{bmap, writei_loop, copy_out, portion}
use lxos.Fs.Content.Mapping.{address, byte_of, IsMapped, bmap-address}
use lxos.Fs.Content.Ranges.{
  IsSeparate, new_byte, Wrote, Wrote-IsMapped, Wrote-IsSeparate, Wrote-append,
}

-- one round of the loop
module _ (s : Volume) (ip src : Ptr) (off m count : ℕ) (sep : IsSeparate s ip count)
    (fits : off % bsize + m ≤ bsize) (inside : off / bsize < count) where
  abbrev pub after_round : Volume
  after_round =
      store (s.inode ip).dev (address s ip (off / bsize))
        (copy_out m (off % bsize) (s.block (s.inode ip).dev (address s ip (off / bsize))) src s.mem)
        s

  this_block :
      (i : ℕ)
      → i < bsize
      → copy_out m (off % bsize) (s.block (s.inode ip).dev (address s ip (off / bsize))) src s.mem i
        ≡ new_byte s ip src off m (off / bsize) i
  unfolding copy_out
  this_block i lt = elim (Bool-cases (within (off % bsize) m i)) [
    | inl e ↦
        let e' : within off m (off / bsize * bsize + i) ≡ true = ground arith in
        let place : src + (i - off % bsize) ≡ src + (off / bsize * bsize + i - off) =
          ground arith in
        rw (e, e') (ap s.mem place)
    | inr e ↦
        let e' : within off m (off / bsize * bsize + i) ≡ false = ground arith in rw (e, e') refl
  ]

  other_block :
      (bn i : ℕ) → i < bsize → bn ≢ off / bsize → new_byte s ip src off m bn i ≡ byte_of s ip bn i
  other_block bn i lt ne = let e : within off m (bn * bsize + i) ≡ false = ground arith in rw e refl

  round_block :
      (d b : ℕ)
      → after_round.block d b ≡ (
          if d == (s.inode ip).dev && b == address s ip (off / bsize)
          then copy_out m
              (off % bsize)
              (s.block (s.inode ip).dev (address s ip (off / bsize)))
              src
              s.mem
          else s.block d b)
  unfolding store
  round_block d b = refl

  round_bytes :
      (bn i : ℕ)
      → bn < count
      → i < bsize
      → after_round.block (s.inode ip).dev (address s ip bn) i ≡ new_byte s ip src off m bn i
  round_bytes bn i lt lt' =
      ap (λ x. x i) (round_block (s.inode ip).dev (address s ip bn))
      ∙ elim (Bool-cases (bn == off / bsize)) [
        | inl e ↦
            let here = (==_iff bn (off / bsize)).0 e in
            let hit : ((s.inode ip).dev == (s.inode ip).dev
                  && address s ip bn == address s ip (off / bsize))
                ≡ true =
              ground (arith, ap (λ n. address s ip n) here) in
            rw hit (this_block i lt' ∙ ap (λ n. new_byte s ip src off m n i) (sym here))
        | inr e ↦
            let ne : bn ≢ off / bsize = ground arith in
            let differ : address s ip bn ≢ address s ip (off / bsize) =
              λ z. ne (sep.distinct bn (off / bsize) lt inside z) in
            let miss : ((s.inode ip).dev == (s.inode ip).dev
                  && address s ip bn == address s ip (off / bsize))
                ≡ false =
              ground arith in
            rw miss (sym (other_block bn i lt' ne))
      ]

  round_others :
      (d b : ℕ)
      → (d ≢ (s.inode ip).dev) ⊎ ((bn : ℕ) → bn < count → b ≢ address s ip bn)
      → after_round.block d b ≡ s.block d b
  round_others d b (inl ne) =
      let miss : (d == (s.inode ip).dev && b == address s ip (off / bsize)) ≡ false =
        ground arith in
      round_block d b ∙ rw miss refl
  round_others d b (inr far) =
      let ne = far (off / bsize) inside in
      let miss : (d == (s.inode ip).dev && b == address s ip (off / bsize)) ≡ false =
        ground arith in
      round_block d b ∙ rw miss refl

  round-Wrote : Wrote s ip src off m count after_round
  unfolding store
  round-Wrote = record {
    inode = refl;
    sb = refl;
    mem = refl;
    bytes = round_bytes;
    others = round_others;
  }

Wrote-zero : (s : Volume) (ip src : Ptr) (off n count : ℕ) → n ≡ 0 → Wrote s ip src off n count s
Wrote-zero s ip src off n count z = record {
  inode = refl;
  sb = refl;
  mem = refl;
  bytes = λ bn i lt lt'.
      let out : within off n (bn * bsize + i) ≡ false = ground (arith, z) in rw out refl;
  others = λ d b far. refl;
}

writei_loop_round :
    (rounds tot n : ℕ) (ip src : Ptr) (off : ℕ) (s : Volume)
    → ltb tot n ≡ true
    → bmap ip (off / bsize) s ≡ (address s ip (off / bsize), s)
    → writei_loop (suc rounds) tot n ip src off s
      ≡ writei_loop rounds
          (tot + portion n tot off)
          n
          ip
          (src + portion n tot off)
          (off + portion n tot off)
          (store
            (s.inode ip).dev
            (address s ip (off / bsize))
            (copy_out
              (portion n tot off)
              (off % bsize)
              (s.block (s.inode ip).dev (address s ip (off / bsize)))
              src
              s.mem)
            s)
unfolding writei_loop
writei_loop_round rounds tot n ip src off s e here = rw (e, here) refl

pub writei_loop-Wrote :
    (rounds tot n : ℕ) (ip src : Ptr) (off count : ℕ) (s : Volume)
    → IsMapped s ip count
    → IsSeparate s ip count
    → tot ≤ n
    → n - tot ≤ rounds
    → off + (n - tot) ≤ count * bsize
    → Wrote s ip src off (n - tot) count (writei_loop rounds tot n ip src off s)
unfolding writei_loop
writei_loop-Wrote zero tot n ip src off count s h sep le enough inside =
    Wrote-zero s ip src off (n - tot) count (omega (arith, enough))
writei_loop-Wrote (suc rounds) tot n ip src off count s h sep le enough inside =
    elim (Bool-cases (ltb tot n)) [
      | inr e ↦ rw e (Wrote-zero s ip src off (n - tot) count (ground arith))
      | inl e ↦
          let m = portion n tot off in
          let some_left : tot < n = ltb→lt tot n e in
          let at : off / bsize < count = omega (arith, some_left, inside) in
          let here = bmap-address s ip count (off / bsize) h at in
          let left : n - (tot + m) ≡ n - tot - m = omega arith in
          let small : m ≤ n - tot = ground arith in
          let fits : off % bsize + m ≤ bsize = ground arith in
          let more : 1 ≤ m = ground arith in
          let s1 = after_round s ip src off m count sep fits at in
          let w = round-Wrote s ip src off m count sep fits at in
          let rest =
            writei_loop-Wrote rounds (tot + m) n ip (src + m) (off + m) count s1
              (Wrote-IsMapped s ip src off m count s1 h sep w)
              (Wrote-IsSeparate s ip src off m count s1 h sep w) (omega (arith, small, some_left))
              (omega (arith, enough, more)) (omega (arith, inside, small)) in
          let rest' : Wrote s1 ip (src + m) (off + m) (n - tot - m) count _ = rw (← left) rest in
          rw (writei_loop_round rounds tot n ip src off s e here)
            (Wrote-append s ip src off (n - tot) m count s1 _ small h sep w rest')
    ]
