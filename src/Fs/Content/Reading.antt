-- ===== src/Fs/Content/Reading.antt =====
-- readi of fs/fs.c and the bytes of a file.
use lxos.Base.{
  ℕ, zero, suc, ◌+◌, ◌-◌, ◌*◌, ◌/◌, ◌%◌, ◌≡◌, ◌≢◌, ◌<◌, ◌≤◌, inl, inr, refl, sym, ◌∙◌, ap, fun_ext,
  true, false, ◌||◌, Option, ltb, leb, ◌==◌, if◌then◌else◌, arith, Bool-cases, ltb→lt,
}
use lxos.Libc.Memory.{Ptr, Memory, within}
use lxos.Fs.Volume.{Volume, bsize, minus_one}
use lxos.Fs.Content.{bmap, readi_loop, readi, copy_in, portion, Operation, t_dev}
use lxos.Fs.Content.Mapping.{address, byte, byte_of, byte-block, IsMapped, bmap-address}

-- the memory with the `n` bytes of the file from `off` on at `dst`
abbrev pub filled : Volume → Ptr → (dst : Ptr) → (off n : ℕ) → Memory → Memory
filled s ip dst off n mem a = if within dst n a then byte s ip (off + (a - dst)) else mem a

abbrev pub with_mem : Memory → Volume → Volume
with_mem mem s = record s { mem = mem }

-- one round, and then the rest
filled-step :
    (s : Volume) (ip dst : Ptr) (off n m : ℕ)
    → m ≤ n
    → off % bsize + m ≤ bsize
    → filled s ip
        (dst + m)
        (off + m)
        (n - m)
        (copy_in m dst (s.block (s.inode ip).dev (address s ip (off / bsize))) (off % bsize) s.mem)
      ≡ filled s ip dst off n s.mem
unfolding copy_in
filled-step s ip dst off n m le fits = fun_ext (λ a. elim (Bool-cases (within dst m a)) [
  | inl first ↦
      let here : byte s ip (off + (a - dst))
          ≡ byte_of s ip (off / bsize) (off % bsize + (a - dst)) =
        byte-block s ip off (a - dst) (ground arith) in
      let all : within dst n a ≡ true = ground arith in
      let past : within (dst + m) (n - m) a ≡ false = ground arith in
      rw (first, all, past) (sym here)
  | inr later ↦ elim (Bool-cases (within (dst + m) (n - m) a)) [
    | inl rest ↦
        let all : within dst n a ≡ true = ground arith in
        let place : off + m + (a - (dst + m)) ≡ off + (a - dst) = ground arith in
        rw (rest, all) (ap (λ i. byte s ip i) place)
    | inr out ↦ let all : within dst n a ≡ false = ground arith in rw (out, all, later) refl
  ]
])

readi_loop_round :
    (rounds tot n : ℕ) (ip dst : Ptr) (off b : ℕ) (s : Volume)
    → ltb tot n ≡ true
    → bmap ip (off / bsize) s ≡ (b, s)
    → readi_loop (suc rounds) tot n ip dst off s
      ≡ readi_loop rounds
          (tot + portion n tot off)
          n
          ip
          (dst + portion n tot off)
          (off + portion n tot off)
          (with_mem
            (copy_in (portion n tot off) dst (s.block (s.inode ip).dev b) (off % bsize) s.mem)
            s)
unfolding readi_loop
readi_loop_round rounds tot n ip dst off b s e here = rw (e, here) refl

readi_loop-filled :
    (rounds tot n : ℕ) (ip dst : Ptr) (off count : ℕ) (s : Volume)
    → IsMapped s ip count
    → tot ≤ n
    → n - tot ≤ rounds
    → off + (n - tot) ≤ count * bsize
    → readi_loop rounds tot n ip dst off s ≡ with_mem (filled s ip dst off (n - tot) s.mem) s
unfolding readi_loop
readi_loop-filled zero tot n ip dst off count s h le enough inside =
    ap (λ mem. with_mem mem s) (fun_ext (λ a. ground arith))
readi_loop-filled (suc rounds) tot n ip dst off count s h le enough inside =
    elim (Bool-cases (ltb tot n)) [
      | inr e ↦ rw e (ap (λ mem. with_mem mem s) (fun_ext (λ a. ground arith)))
      | inl e ↦
          let m = portion n tot off in
          let some_left : tot < n = ltb→lt tot n e in
          let here = bmap-address s ip count (off / bsize) h (omega (arith, some_left, inside)) in
          let left : n - (tot + m) ≡ n - tot - m = omega arith in
          let small : m ≤ n - tot = ground arith in
          let fits : off % bsize + m ≤ bsize = ground arith in
          let more : 1 ≤ m = ground arith in
          let s1 = with_mem (copy_in m dst (byte_of s ip (off / bsize)) (off % bsize) s.mem) s in
          let rest =
            readi_loop-filled rounds (tot + m) n ip (dst + m) (off + m) count s1
              (record { fits = h.fits; blocks = h.blocks; indirect = h.indirect })
              (omega (arith, small, some_left)) (omega (arith, enough, more))
              (omega (arith, inside, small)) in
          readi_loop_round rounds tot n ip dst off (address s ip (off / bsize)) s e here
          ∙ rest
          ∙ ap (λ mem. with_mem mem s)
              (ap (λ k. filled s ip (dst + m) (off + m) k s1.mem) left
                ∙ filled-step s ip dst off (n - tot) m small fits)
    ]

-- the bytes that readi delivers: to the end of the file at most
abbrev pub delivered : Volume → Ptr → (off n : ℕ) → ℕ
delivered s ip off n = if ltb (s.inode ip).size (off + n) then (s.inode ip).size - off else n

-- readi of a file that is no device and whose blocks are there, with `off` and `n` of 32 bits,
-- delivers the bytes from `off` on, to the end of the file at most, to the `n` bytes at `dst`,
-- changes nothing else, and returns how many they are. With an `off` behind the end, or when
-- `off + n` does not fit into 32 bits, it returns -1 and changes nothing.
pub readi-filled :
    (table : ℕ → Option Operation) (ip dst : Ptr) (off n count : ℕ) (s : Volume)
    → (s.inode ip).itype ≢ t_dev
    → IsMapped s ip count
    → (s.inode ip).size ≤ count * bsize
    → off < 4294967296
    → n < 4294967296
    → readi table ip dst off n s ≡ (
        if ltb (s.inode ip).size off || leb 4294967296 (off + n)
        then (minus_one, s)
        else (delivered s ip off n, with_mem (filled s ip dst off (delivered s ip off n) s.mem) s))
unfolding readi
readi-filled table ip dst off n count s plain h sized off_word n_word =
    let file : ((s.inode ip).itype == t_dev) ≡ false = ground arith in
    let size_word : (s.inode ip).size < 4294967296 = omega (arith, sized, h.fits) in
    elim (Bool-cases (ltb (s.inode ip).size off || leb 4294967296 (off + n))) [
      | inl e ↦
          let e' : (ltb (s.inode ip).size off || ltb ((off + n) % 4294967296) off) ≡ true =
            ground arith in
          rw (file, e, e') refl
      | inr e ↦
          let e' : (ltb (s.inode ip).size off || ltb (off + n) off) ≡ false = ground arith in
          let all : delivered s ip off n - 0 ≡ delivered s ip off n = omega arith in
          let last : (off + n) % 4294967296 ≡ off + n = ground arith in
          let loop =
            readi_loop-filled (delivered s ip off n) 0 (delivered s ip off n) ip dst off count s h
              (omega arith) (omega arith) (ground (arith, sized)) in
          rw (file, e, last, e')
            (ap (λ t. (delivered s ip off n, t))
              (loop ∙ ap (λ k. with_mem (filled s ip dst off k s.mem) s) all))
    ]
