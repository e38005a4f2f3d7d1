-- ===== src/Kernel/Syscall/Arguments.antt =====
-- argptr and argstr of kernel/syscall.c and the bounds of the process.
use lxos.Base.{
  ℕ, zero, suc, ◌+◌, ◌-◌, ◌*◌, ◌%◌, ◌≡◌, ◌≢◌, ◌<◌, ◌≤◌, ◌⊎◌, inl, inr, refl, sym, ◌∙◌, ap, Option,
  none, some, ltb, leb, ◌==◌, if◌then◌else◌, arith, Bool-cases, Option-cases, ltb→lt, ==_iff,
}
use lxos.Libc.Memory.{Ptr, get32}
use lxos.Kernel.Syscall.{Task, getint, getstr_loop, getstr, argint, argptr, argstr}

-- The answer about a pointer argument: the word on the stack and the range that it names.
pub record Checked (t : Task) (at size : ℕ) (o : Option Ptr) : Type 0 where
  pub accepted :
      (p : Ptr)
      → o ≡ some p
      → (at + 4 ≤ t.sz) × (p ≡ get32 t.mem at) × (p < t.sz) × (p + size ≤ t.sz)
  pub refused :
      o ≡ none
      → (t.sz < at + 4)
        ⊎ (2147483648 ≤ size)
        ⊎ (t.sz ≤ get32 t.mem at)
        ⊎ (t.sz < get32 t.mem at + size)

getint-some :
    (t : Task) (at : ℕ)
    → t.sz ≤ 2147483648
    → at < 4294967296
    → getint t at ≡ (if leb (at + 4) t.sz then some (get32 t.mem at) else none)
unfolding getint
getint-some t at low word = ground arith

abbrev pub place : Task → ℕ → ℕ
place t n = (t.esp + 4 + 4 * n) % 4294967296

-- For sizes up to 2 GiB, argptr accepts exactly the pointers whose `size` bytes are all inside the
-- process, and whose place on the stack is; `size` must not be negative. It returns the word there.
pub argptr-Checked :
    (n size : ℕ) (t : Task)
    → t.sz ≤ 2147483648
    → size < 4294967296
    → Checked t (place t n) size (argptr n size t)
unfolding argptr argint
argptr-Checked n size t low word =
    let known = getint-some t (place t n) low (omega arith) in
    elim (Bool-cases (leb (place t n + 4) t.sz)) [
      | inr e ↦ rw (argptr, known, e) (record { accepted = ground arith; refused = ground arith })
      | inl e ↦
          rw (argptr, known, e)
            (record { accepted = ground (arith, low); refused = ground (arith, low) })
    ]

-- the walk from `s` to the first zero below the end
record Walked (t : Task) (addr s : ℕ) (o : Option ℕ) : Type 0 where
  stops :
      (n : ℕ)
      → o ≡ some n
      → (s ≤ addr + n)
        × (addr + n < t.sz)
        × (t.mem (addr + n) ≡ 0)
        × ((a : ℕ) → s ≤ a → a < addr + n → t.mem a ≢ 0)
  runs : o ≡ none → (a : ℕ) → s ≤ a → a < t.sz → t.mem a ≢ 0

Walked-zero :
    (t : Task) (addr s : ℕ) → addr ≤ s → s < t.sz → t.mem s ≡ 0 → Walked t addr s (some (s - addr))
Walked-zero t addr s le below z = record {
  stops = λ n e.
      let at : addr + n ≡ s = ground (arith, e) in
      (
        omega (arith, at),
        omega (arith, at, below),
        ap t.mem at ∙ z,
        λ a h1 h2. absurd (omega (arith, h1, h2, at)),
      );
  runs = ground arith;
}

Walked-next :
    (t : Task) (addr s : ℕ) (o : Option ℕ)
    → t.mem s ≢ 0
    → Walked t addr (s + 1) o
    → Walked t addr s o
Walked-next t addr s o ne w = record {
  stops = λ n e.
      let (low, high, z, before) = w.stops n e in
      (
        omega (arith, low),
        high,
        z,
        λ a h1 h2. elim (Bool-cases (a == s)) [
          | inl here ↦ λ z'. ne (ap t.mem (sym ((==_iff a s).0 here)) ∙ z')
          | inr far ↦ before a (ground arith) h2
        ],
      );
  runs = λ e a h1 h2. elim (Bool-cases (a == s)) [
    | inl here ↦ λ z'. ne (ap t.mem (sym ((==_iff a s).0 here)) ∙ z')
    | inr far ↦ w.runs e a (ground arith) h2
  ];
}

getstr_loop-Walked :
    (rounds : ℕ) (t : Task) (addr s : ℕ)
    → addr ≤ s
    → t.sz ≤ s + rounds
    → Walked t addr s (getstr_loop rounds t addr s)
unfolding getstr_loop
getstr_loop-Walked zero t addr s le enough = record {
  stops = ground arith;
  runs = λ e a h1 h2. absurd (omega (arith, h1, h2));
}
getstr_loop-Walked (suc rounds) t addr s le enough =
    let w = getstr_loop-Walked rounds t addr (s + 1) (omega arith) (omega arith) in
    elim (Bool-cases (ltb s t.sz)) [
      | inr e ↦ rw e (record { stops = ground arith; runs = λ z a h1 h2. absurd (ground arith) })
      | inl e ↦ elim (Bool-cases (t.mem s == 0)) [
        | inl z ↦ rw (e, z) (Walked-zero t addr s le (ltb→lt s t.sz e) ((==_iff _ 0).0 z))
        | inr nz ↦ rw (e, nz) (Walked-next t addr s _ (ground arith) w)
      ]
    ]

-- The answer about a string argument, whose pointer stands at `at`.
pub record StringArgument (t : Task) (at : ℕ) (o : Option (ℕ × Ptr)) : Type 0 where
  pub accepted :
      (n : ℕ) (p : Ptr)
      → o ≡ some (n, p)
      → (at + 4 ≤ t.sz)
        × (p ≡ get32 t.mem at)
        × (p + n < t.sz)
        × (t.mem (p + n) ≡ 0)
        × ((a : ℕ) → p ≤ a → a < p + n → t.mem a ≢ 0)
  pub refused : o ≡ none → (t.sz < at + 4) ⊎ ((a : ℕ) → get32 t.mem at ≤ a → a < t.sz → t.mem a ≢ 0)

-- For sizes up to 2 GiB, argstr accepts exactly the pointers to a string that ends inside the
-- process, and returns the string's length with the pointer.
pub argstr-StringArgument :
    (n : ℕ) (t : Task) → t.sz ≤ 2147483648 → StringArgument t (place t n) (argstr n t)
unfolding argstr argint getstr
argstr-StringArgument n t low =
    let known = getint-some t (place t n) low (omega arith) in
    let p = get32 t.mem (place t n) in
    let w = getstr_loop-Walked (t.sz - p) t p p (omega arith) (omega arith) in
    elim (Bool-cases (leb (place t n + 4) t.sz)) [
      | inr e ↦ rw (argstr, known, e) (record { accepted = ground arith; refused = ground arith })
      | inl e ↦ elim (Bool-cases (leb t.sz p)) [
        | inl past ↦
            rw (argstr, known, e, past)
              (record {
                accepted = ground arith;
                refused = λ z. inr (λ a h1 h2. absurd (ground arith));
              })
        | inr inside ↦ elim (Option-cases (getstr_loop (t.sz - p) t p p)) [
          | inl o ↦
              rw (argstr, known, e, inside, o)
                (record { accepted = ground arith; refused = λ z. inr (w.runs o) })
          | inr (len, o) ↦
              rw (argstr, known, e, inside, o)
                (record {
                  accepted = λ n' p' z.
                      let same_len : n' ≡ len = ground (arith, z) in
                      let same_ptr : p' ≡ p = ground (arith, z) in
                      let (_, below, zero_byte, before) = w.stops len o in
                      rw (same_len, same_ptr) (ground (arith, e), refl, below, zero_byte, before);
                  refused = ground arith;
                })
        ]
      ]
    ]
