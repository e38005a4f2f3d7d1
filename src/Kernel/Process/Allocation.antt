-- ===== src/Kernel/Process/Allocation.antt =====
-- allocproc of kernel/proc.c.
use lxos.Base.{
  ℕ, zero, suc, ◌+◌, ◌-◌, ◌≡◌, ◌≢◌, ◌<◌, ◌≤◌, ◌⊎◌, inr, refl, ◌∙◌, ap, true, false, ◌==◌, arith,
}
use lxos.Libc.Memory.{Ptr, Memory, put32, get32, memset, within}
use lxos.Libc.Memory.Block.{memset_lem, get32-put32, put32-other, get32-same}
use lxos.Kernel.Kalloc.{kalloc}
use lxos.Kernel.Process.{
  Table, Proc, embryo, is_unused, nproc, kstacksize, registers_size, context_size, context_at,
  build_stack, start_proc, allocproc_loop, allocproc,
}

module _ (trapret forkret : ℕ) (kstack : Ptr) (m : Memory) where
  abbrev with_return : Memory
  with_return = put32 m (kstack + kstacksize - registers_size - 4) trapret

  abbrev with_context : Memory
  with_context = memset (context_at kstack) 0 context_size with_return

  -- the first return of the new process goes to forkret, and the next to trapret
  pub build_stack-returns :
      trapret < 4294967296
      → forkret < 4294967296
      → (get32 (build_stack trapret forkret kstack m) (context_at kstack + 16) ≡ forkret)
        × (get32 (build_stack trapret forkret kstack m) (context_at kstack + 20) ≡ trapret)
  unfolding build_stack
  build_stack-returns word word' =
      let above : context_at kstack + 20 ≡ kstack + kstacksize - registers_size - 4 = omega arith in
      (
        get32-put32 with_context (context_at kstack + 16) forkret word',
        get32-same _ with_return (context_at kstack + 20) (λ a h1 h2.
              put32-other with_context (context_at kstack + 16) forkret a (inr (omega (arith, h1)))
              ∙ memset_lem (context_at kstack) 0 context_size with_return a
              ∙ ground arith)
            ∙ ap (get32 with_return) above
            ∙ get32-put32 m (kstack + kstacksize - registers_size - 4) trapret word,
      )

  pub build_stack-outside :
      (a : ℕ)
      → (a < kstack) ⊎ (kstack + kstacksize ≤ a)
      → build_stack trapret forkret kstack m a ≡ m a
  unfolding build_stack
  build_stack-outside a far =
      put32-other with_context (context_at kstack + 16) forkret a (ground arith)
      ∙ memset_lem (context_at kstack) 0 context_size with_return a
      ∙ rw (outside_context a far)
          (put32-other m (kstack + kstacksize - registers_size - 4) trapret a (ground arith))
    where
      outside_context :
          (a : ℕ)
          → (a < kstack) ⊎ (kstack + kstacksize ≤ a)
          → within (context_at kstack) context_size a ≡ false
      outside_context a far = ground arith

-- the page that kalloc gives out
abbrev pub page : Table → Ptr
page t = (kalloc t.kmem).0

-- the first process after a success
abbrev pub started : Table → Proc
started t = record (t.proc 1) {
  state = embryo;
  pid = t.nextpid;
  kstack = page t;
  tf = page t + kstacksize - registers_size;
  context = context_at (page t);
}

-- What allocproc makes of a table, when the first process is UNUSED and there is a page for its stack.
pub record Started (trapret forkret : ℕ) (t t' : Table) : Type 0 where
  pub first : t'.proc 1 ≡ started t
  pub others : (q : ℕ) → q ≢ 1 → t'.proc q ≡ t.proc q
  pub nextpid : t'.nextpid ≡ t.nextpid + 1
  pub freelist : t'.kmem.freelist ≡ (kalloc t.kmem).1.freelist
  pub to_forkret : get32 t'.kmem.mem (context_at (page t) + 16) ≡ forkret
  pub to_trapret : get32 t'.kmem.mem (context_at (page t) + 20) ≡ trapret
  pub memory :
      (a : ℕ) → (a < page t) ⊎ (page t + kstacksize ≤ a) → t'.kmem.mem a ≡ (kalloc t.kmem).1.mem a

module _ (trapret forkret : ℕ) where
  loop-busy :
      (rounds : ℕ) (t : Table)
      → is_unused (t.proc 1).state ≡ false
      → allocproc_loop trapret forkret rounds 1 t ≡ (0, t)
  unfolding allocproc_loop
  loop-busy zero t busy = refl
  loop-busy (suc rounds) t busy = rw busy (loop-busy rounds t busy)

  allocproc-start :
      (t : Table)
      → is_unused (t.proc 1).state ≡ true
      → allocproc trapret forkret t ≡ start_proc trapret forkret 1 t
  unfolding allocproc allocproc_loop
  allocproc-start t free = rw free refl

-- When the first process is UNUSED and kalloc has a page, allocproc returns the first process, as an
-- EMBYRO with the next number and a stack in that page, from which it returns to forkret and then to
-- trapret. No other process changes, and no memory outside the page.
pub allocproc-Started :
    (trapret forkret : ℕ) (t : Table)
    → trapret < 4294967296
    → forkret < 4294967296
    → is_unused (t.proc 1).state ≡ true
    → page t ≢ 0
    → ((allocproc trapret forkret t).0 ≡ 1)
      × Started trapret forkret t (allocproc trapret forkret t).1
unfolding start_proc
allocproc-Started trapret forkret t word word' free some_page =
    let e : (page t == 0) ≡ false = ground arith in
    let stack = build_stack-returns trapret forkret (page t) (kalloc t.kmem).1.mem word word' in
    rw (allocproc-start trapret forkret t free, start_proc, e)
      (
        refl,
        record {
          first = refl;
          others = ground arith;
          nextpid = refl;
          freelist = refl;
          to_forkret = stack.0;
          to_trapret = stack.1;
          memory = build_stack-outside trapret forkret (page t) (kalloc t.kmem).1.mem;
        },
      )

-- When the first process is in use, allocproc returns null and changes nothing, however many of the
-- other 63 processes are UNUSED.
pub allocproc-busy :
    (trapret forkret : ℕ) (t : Table)
    → is_unused (t.proc 1).state ≡ false
    → allocproc trapret forkret t ≡ (0, t)
unfolding allocproc
allocproc-busy trapret forkret t busy = loop-busy trapret forkret nproc t busy
