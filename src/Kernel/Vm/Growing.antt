-- ===== src/Kernel/Vm/Growing.antt =====
-- allocuvm of kernel/vm.c: the pages that it takes and maps, and those that it gives back.
use lxos.Base.{
  ℕ, zero, suc, ◌+◌, ◌*◌, ◌/◌, ◌%◌, ◌^◌, ◌≡◌, ◌<◌, ◌≤◌, ◌⊎◌, inl, inr, refl, ◌∙◌, ap, true, false,
  Option, none, some, ltb, leb, ◌==◌, arith, Bool-cases, Option-cases, ltb→lt, ==_iff,
}
use mathlib.Core.Path.{subst}
use lxos.Libc.Memory.{Ptr, memset, put32}
use lxos.Kernel.Kalloc.{Kmem, kalloc, pgsize, pg_round_up}
use lxos.Kernel.Vm.{
  Space, kprint, free, kernbase, v2p, mappages, deallocuvm, pte_wu, mappages_loop, walkpgdir,
  set_mem, or_flags,
}
use lxos.Kernel.Vm.User.{give_up, allocuvm_loop, allocuvm, give_up_page}
use lxos.Kernel.Vm.Ends.{mappages-ends, deallocuvm-ends}

-- the space with a page taken, its content zero
abbrev pub with_page : (mem : Ptr) → Kmem → Space → Space
with_page mem k s = record s { kmem = record k { mem = memset mem 0 4096 k.mem } }

-- The page `mem`, the first free one, is zeroed and mapped at `a` for the user to read and write.
pub record Mapped (pgdir a : Ptr) (s s' : Space) : Type 0 where
  pub mem : Ptr
  pub rest : Kmem
  pub taken : kalloc s.kmem ≡ (mem, rest)
  pub not_null : 1 ≤ mem
  pub mapped : mappages pgdir a 4096 (v2p mem) pte_wu (with_page mem rest s) ≡ some (0, s')

-- From `a` on, page by page, up to `newsz`.
pub data Grown (pgdir newsz : ℕ) : (a : ℕ) → Space → Space → Type 0 where
  all : (a : ℕ) (s : Space) → newsz ≤ a → Grown pgdir newsz a s s
  one_page :
      (a : ℕ) (s s1 s' : Space)
      → a < newsz
      → Mapped pgdir a s s1
      → Grown pgdir newsz (a + 4096) s1 s'
      → Grown pgdir newsz a s s'

-- From `a` on there are pages, up to one below `newsz` for which there is no free page or no page for its
-- table: then deallocuvm gives back what lies between the sizes, and the page without a table is freed.
pub data Short (pgdir oldsz newsz : ℕ) : (a : ℕ) → Space → Space → Type 0 where
  no_page :
      (a : ℕ) (s s' : Space) (k : Kmem) (r : ℕ)
      → a < newsz
      → kalloc s.kmem ≡ (0, k)
      → deallocuvm pgdir newsz oldsz (kprint "allocuvm out of memory\n" (record s { kmem = k }))
        ≡ some (r, s')
      → Short pgdir oldsz newsz a s s'
  no_table :
      (a : ℕ) (s s1 s2 : Space) (k : Kmem) (mem r : ℕ)
      → a < newsz
      → kalloc s.kmem ≡ (mem, k)
      → 1 ≤ mem
      → mappages pgdir a 4096 (v2p mem) pte_wu (with_page mem k s) ≡ some (4294967295, s1)
      → deallocuvm pgdir newsz oldsz (kprint "allocuvm out of memory (2)\n" s1) ≡ some (r, s2)
      → Short pgdir oldsz newsz a s (free mem s2)
  later :
      (a : ℕ) (s s1 s' : Space)
      → a < newsz
      → Mapped pgdir a s s1
      → Short pgdir oldsz newsz (a + 4096) s1 s'
      → Short pgdir oldsz newsz a s s'

-- The two results of a call.
abbrev pub Allocated : (pgdir oldsz newsz a : ℕ) → Space → Option (ℕ × Space) → Type 0
Allocated pgdir oldsz newsz a s o =
    (s' : Space) × (((o ≡ some (newsz, s')) × Grown pgdir newsz a s s')
      ⊎ ((o ≡ some (0, s')) × Short pgdir oldsz newsz a s s'))

-- the result of mappages, if it ends
abbrev IsStatus : Option (ℕ × Space) → Type 0
IsStatus none = Unit
IsStatus (some (r, s)) = (r ≡ 0) ⊎ (r ≡ 4294967295)

mappages_loop-IsStatus :
    (rounds : ℕ) (pgdir : Ptr) (a last pa perm : ℕ) (s : Space)
    → IsStatus (mappages_loop rounds pgdir a last pa perm s)
unfolding mappages_loop
mappages_loop-IsStatus zero pgdir a last pa perm s = tt
mappages_loop-IsStatus (suc rounds) pgdir a last pa perm s =
    let (pte, s1) = walkpgdir pgdir a s in
    let s2 = set_mem (put32 s1.kmem.mem pte (or_flags (or_flags pa perm) 1)) s1 in
    let next =
      mappages_loop-IsStatus rounds pgdir ((a + pgsize) % 2 ^ 32) last ((pa + pgsize) % 2 ^ 32) perm
        s2 in
    elim (Bool-cases (pte == 0)) [
      | inl e ↦ rw (mappages_loop, e) (inr refl)
      | inr e ↦ elim (Bool-cases (a == last)) [
        | inl f ↦ rw (mappages_loop, e, f) (inl refl)
        | inr f ↦ rw (mappages_loop, e, f) next
      ]
    ]

mappages-IsStatus :
    (pgdir : Ptr) (va size pa perm : ℕ) (s : Space) → IsStatus (mappages pgdir va size pa perm s)
unfolding mappages
mappages-IsStatus pgdir va size pa perm s = mappages_loop-IsStatus 1048576 pgdir _ _ pa perm s

give_up-run :
    (pgdir : Ptr) (oldsz newsz r : ℕ) (s s' : Space)
    → deallocuvm pgdir newsz oldsz s ≡ some (r, s')
    → give_up pgdir oldsz newsz s ≡ some (0, s')
unfolding give_up
give_up-run pgdir oldsz newsz r s s' e = rw (give_up, e) refl

given_back :
    (pgdir : Ptr) (oldsz newsz : ℕ) (s : Space)
    → newsz < 2147483648
    → (r : ℕ) × (s' : Space) × (deallocuvm pgdir newsz oldsz s ≡ some (r, s'))
given_back pgdir oldsz newsz s h = elim (Option-cases (deallocuvm pgdir newsz oldsz s)) [
  | inl e ↦ absurd (deallocuvm-ends pgdir newsz oldsz s (omega arith) e)
  | inr ((r, s'), e) ↦ (r, s', e)
]

module _ (pgdir oldsz newsz : ℕ) (small : newsz < 2147483648) where
  -- a round that finds no page
  no_page_left :
      (rounds a : ℕ) (s : Space)
      → ltb a newsz ≡ true
      → ((kalloc s.kmem).0 == 0) ≡ true
      → Allocated pgdir oldsz newsz a s (allocuvm_loop (suc rounds) pgdir a oldsz newsz s)
  unfolding allocuvm_loop
  no_page_left rounds a s more f =
      let (mem, k) = kalloc s.kmem in
      let s1 = kprint "allocuvm out of memory\n" (record s { kmem = k }) in
      let (r, s2, back) = given_back pgdir oldsz newsz s1 small in
      (
        s2,
        inr (
          rw (allocuvm_loop, more, f) (give_up-run pgdir oldsz newsz r s1 s2 back),
          Short.no_page a s s2 k r (ltb→lt a newsz more) (ap (λ m. (m, k)) ((==_iff mem 0).0 f))
              back,
        ),
      )

  module _ (rounds a : ℕ) (s s1 : Space) (more : ltb a newsz ≡ true)
      (there : ((kalloc s.kmem).0 == 0) ≡ false) where
    abbrev page_here : Ptr
    page_here = (kalloc s.kmem).0

    abbrev paged : Space
    paged = with_page page_here (kalloc s.kmem).1 s

    -- a round that finds no page for the table
    no_table_left :
        mappages pgdir a 4096 (v2p page_here) pte_wu paged ≡ some (4294967295, s1)
        → Allocated pgdir oldsz newsz a s (allocuvm_loop (suc rounds) pgdir a oldsz newsz s)
    unfolding allocuvm_loop give_up_page
    no_table_left failed =
        let s2 = kprint "allocuvm out of memory (2)\n" s1 in
        let (r, s3, back) = given_back pgdir oldsz newsz s2 small in
        (
          free page_here s3,
          inr (
            rw (allocuvm_loop, more, there, failed)
                (rw (give_up-run pgdir oldsz newsz r s2 s3 back) refl),
            Short.no_table a s s1 s3 (kalloc s.kmem).1 page_here r (ltb→lt a newsz more) refl
                (ground arith) failed back,
          ),
        )

    -- a round that others follow
    page_taken :
        mappages pgdir a 4096 (v2p page_here) pte_wu paged ≡ some (0, s1)
        → Allocated pgdir oldsz newsz
            (a + 4096)
            s1
            (allocuvm_loop rounds pgdir (a + 4096) oldsz newsz s1)
        → Allocated pgdir oldsz newsz a s (allocuvm_loop (suc rounds) pgdir a oldsz newsz s)
    unfolding allocuvm_loop
    page_taken done (s', rest) =
        let here : Mapped pgdir a s s1 = record {
          mem = page_here;
          rest = (kalloc s.kmem).1;
          taken = refl;
          not_null = ground arith;
          mapped = done;
        } in
        let lt = ltb→lt a newsz more in
        elim rest [
          | inl (run, grown) ↦ (
            s',
            inl (rw (allocuvm_loop, more, there, done) run, Grown.one_page a s s1 s' lt here grown),
          )
          | inr (run, short) ↦ (
            s',
            inr (rw (allocuvm_loop, more, there, done) run, Short.later a s s1 s' lt here short),
          )
        ]

  allocuvm_loop-Allocated :
      (rounds a : ℕ) (s : Space)
      → 0 < rounds
      → newsz + 4096 ≤ a + rounds * 4096
      → Allocated pgdir oldsz newsz a s (allocuvm_loop rounds pgdir a oldsz newsz s)
  unfolding allocuvm_loop
  allocuvm_loop-Allocated zero a s some_round enough = absurd (omega (arith, some_round))
  allocuvm_loop-Allocated (suc rounds) a s some_round enough =
      let (mem, k) = kalloc s.kmem in
      elim (Bool-cases (ltb a newsz)) [
        | inr stop ↦ (s, inl (rw (allocuvm_loop, stop) refl, Grown.all a s (ground (arith, stop))))
        | inl more ↦ elim (Bool-cases (mem == 0)) [
          | inl f ↦ no_page_left rounds a s more f
          | inr f ↦
              let status = mappages-IsStatus pgdir a 4096 (v2p mem) pte_wu (with_page mem k s) in
              elim (Option-cases (mappages pgdir a 4096 (v2p mem) pte_wu (with_page mem k s))) [
                | inl g ↦ absurd (
                    mappages-ends pgdir a 4096 (v2p mem) pte_wu (with_page mem k s)
                      (ground (arith, more, small)) g)
                | inr ((r, s1), g) ↦ elim (subst IsStatus g status) [
                  | inr bad ↦ no_table_left rounds a s s1 more f (g ∙ ap (λ x. some (x, s1)) bad)
                  | inl good ↦ page_taken rounds a s s1 more f (g ∙ ap (λ x. some (x, s1)) good) (
                      allocuvm_loop-Allocated rounds (a + 4096) s1 (ground (arith, more, enough))
                        (omega (arith, enough)))
                ]
              ]
        ]
      ]

-- allocuvm, for a new size below the kernel's part of the address space and not below the old one, ends with one
-- of two results. The new size: from the old size's next page on, each page up to the new size has been
-- taken from the free list, zeroed, and mapped for the user, in this order. Or 0: the pages have been mapped
-- up to one for which there was no free page, or none for its table; deallocuvm then has run from the new
-- size to the old one, and a page that has no table is freed.
pub allocuvm-Allocated :
    (pgdir : Ptr) (oldsz newsz : ℕ) (s : Space)
    → newsz < 2147483648
    → oldsz ≤ newsz
    → Allocated pgdir oldsz newsz ((oldsz + 4095) / 4096 * 4096) s (allocuvm pgdir oldsz newsz s)
unfolding allocuvm pg_round_up
allocuvm-Allocated pgdir oldsz newsz s h1 h2 =
    let small : leb kernbase newsz ≡ false = ground arith in
    let grows : ltb newsz oldsz ≡ false = ground arith in
    let start : pg_round_up oldsz ≡ (oldsz + 4095) / 4096 * 4096 = omega (arith, h1, h2) in
    rw (small, grows, start)
      (allocuvm_loop-Allocated pgdir oldsz newsz h1 (newsz / pgsize + 2)
        ((oldsz + 4095) / 4096 * 4096) s (omega arith) (omega (arith, h2)))
