-- ===== src/Kernel/Vm/Mapping.antt =====
-- One page that mappages of kernel/vm.c maps, as the page tables show it afterwards.
use lxos.Base.{
  ℕ, suc, ◌+◌, ◌*◌, ◌/◌, ◌%◌, ◌^◌, ◌≡◌, ◌≢◌, ◌<◌, ◌≤◌, ◌⊎◌, inl, inr, true, false, some, ◌==◌,
  arith, Bool-cases, refl, ◌∙◌, sym, ap, if◌then◌else◌,
}
use mathlib.Core.Path.{subst}
use lxos.Libc.Memory.{Ptr, Memory, put32, get32, memset}
use lxos.Libc.Memory.Block.{get32-put32, get32-same, put32-other}
use lxos.Kernel.Kalloc.{kalloc, pgsize, pg_round_down}
use lxos.Kernel.Vm.{
  Space, set_mem, p2v, v2p, ptx, pte_addr, is_present, is_user, or_flags, pde_at, find_pte,
  walkpgdir, mappages_loop, mappages,
}
use lxos.Kernel.Vm.User.{uva2ka}

-- the entry that mappages writes
abbrev pub page_entry : (pa perm : ℕ) → ℕ
page_entry pa perm = or_flags (or_flags pa perm) 1

page_entry_lem :
    (pa perm : ℕ)
    → pa % 4096 ≡ 0
    → pa < 4294967296
    → perm < 8
    → (page_entry pa perm < 4294967296)
      × (pte_addr (page_entry pa perm) ≡ pa)
      × (is_present (page_entry pa perm) ≡ true)
      × (is_user (page_entry pa perm) ≡ (perm / 4 == 1))
page_entry_lem pa perm al word h = ground arith

-- the entry of a new table in the directory
link_lem :
    (pgtab : ℕ)
    → pgtab % 4096 ≡ 0
    → pgtab < 4294967296
    → (or_flags (v2p pgtab) 7 < 4294967296)
      × (is_present (or_flags (v2p pgtab) 7) ≡ true)
      × (p2v (pte_addr (or_flags (v2p pgtab) 7)) ≡ pgtab)
link_lem pgtab al word = ground arith

module _ (pgdir va : Ptr) (s : Space) where
  -- the state behind walkpgdir when it makes a table in the first free page
  abbrev linked : Space
  linked =
      let cleared = memset s.kmem.freelist 0 pgsize s.kmem.mem in
      record s {
        kmem = record {
          mem = put32 cleared (pde_at pgdir va) (or_flags (v2p s.kmem.freelist) 7);
          freelist = get32 s.kmem.mem s.kmem.freelist;
        };
      }

  walk_there :
      is_present (get32 s.kmem.mem (pde_at pgdir va)) ≡ true
      → walkpgdir pgdir va s ≡ (p2v (pte_addr (get32 s.kmem.mem (pde_at pgdir va))) + 4 * ptx va, s)
  unfolding walkpgdir
  walk_there e = rw e refl

  walk_none :
      is_present (get32 s.kmem.mem (pde_at pgdir va)) ≡ false
      → (s.kmem.freelist == 0) ≡ true
      → (walkpgdir pgdir va s).0 ≡ 0
  unfolding walkpgdir kalloc
  walk_none e f =
      let none_left : kalloc s.kmem ≡ (0, s.kmem) = rw (kalloc, f) refl in rw (e, none_left) refl

  walk_new :
      is_present (get32 s.kmem.mem (pde_at pgdir va)) ≡ false
      → (s.kmem.freelist == 0) ≡ false
      → walkpgdir pgdir va s ≡ (s.kmem.freelist + 4 * ptx va, linked)
  unfolding walkpgdir kalloc
  walk_new e f = rw (e, f) (rw f refl)

  -- behind walkpgdir the directory has an entry for the table, where the entry of the page is
  record IsWalked (r : Ptr × Space) : Type 0 where
    present : is_present (get32 r.1.kmem.mem (pde_at pgdir va)) ≡ true
    table : p2v (pte_addr (get32 r.1.kmem.mem (pde_at pgdir va))) + 4 * ptx va ≡ r.0

  walkpgdir-IsWalked :
      s.kmem.freelist % 4096 ≡ 0
      → s.kmem.freelist < 4294967296
      → (walkpgdir pgdir va s).0 ≢ 0
      → IsWalked (walkpgdir pgdir va s)
  walkpgdir-IsWalked al word ne =
      elim (Bool-cases (is_present (get32 s.kmem.mem (pde_at pgdir va)))) [
        | inl e ↦ subst IsWalked (sym (walk_there e)) (record { present = e; table = refl })
        | inr e ↦ elim (Bool-cases (s.kmem.freelist == 0)) [
          | inl f ↦ absurd (ne (walk_none e f))
          | inr f ↦
              let l = link_lem s.kmem.freelist al word in
              let back =
                get32-put32 (memset s.kmem.freelist 0 pgsize s.kmem.mem) (pde_at pgdir va)
                  (or_flags (v2p s.kmem.freelist) 7) l.0 in
              subst IsWalked (sym (walk_new e f)) (record {
                present = ap is_present back ∙ l.1;
                table = ap (λ w. p2v (pte_addr w) + 4 * ptx va) back ∙ ap (λ q. q + 4 * ptx va) l.2;
              })
        ]
      ]

mappages_loop_one :
    (rounds : ℕ) (pgdir va pa perm : ℕ) (s : Space)
    → mappages_loop (suc rounds) pgdir va va pa perm s ≡ (
        let (pte, s1) = walkpgdir pgdir va s in
        if pte == 0
        then some (4294967295, s1)
        else some (0, set_mem (put32 s1.kmem.mem pte (page_entry pa perm)) s1))
unfolding mappages_loop
mappages_loop_one rounds pgdir va pa perm s =
    let same : (va == va) ≡ true = ground arith in rw same refl

-- mappages of a single page, with the walk that it takes
mappages_one :
    (pgdir va size pa perm : ℕ) (s : Space)
    → va % 4096 ≡ 0
    → va < 4294967296
    → 0 < size
    → size ≤ 4096
    → mappages pgdir va size pa perm s ≡ (
        let (pte, s1) = walkpgdir pgdir va s in
        if pte == 0
        then some (4294967295, s1)
        else some (0, set_mem (put32 s1.kmem.mem pte (page_entry pa perm)) s1))
unfolding mappages pg_round_down
mappages_one pgdir va size pa perm s al word pos le =
    let first : va / 4096 * 4096 ≡ va = omega arith in
    let last : (va + size + 4294967295) % 2 ^ 32 / 4096 * 4096 ≡ va = ground arith in
    rw (first, last) (mappages_loop_one 1048575 pgdir va pa perm s)

pub find_pte_from :
    (pgdir va : Ptr) (m : Memory) (d : ℕ)
    → get32 m (pde_at pgdir va) ≡ d
    → is_present d ≡ true
    → find_pte pgdir va m ≡ p2v (pte_addr d) + 4 * ptx va
unfolding find_pte
find_pte_from pgdir va m d e there = rw (e, there) refl

pub uva2ka_from :
    (pgdir va : Ptr) (m : Memory) (pte e : ℕ)
    → find_pte pgdir va m ≡ pte
    → (pte == 0) ≡ false
    → get32 m pte ≡ e
    → is_present e ≡ true
    → uva2ka pgdir va m ≡ some (if is_user e then p2v (pte_addr e) else 0)
unfolding uva2ka
uva2ka_from pgdir va m pte e found ne same there = rw (found, ne, same, there) refl

-- A page that mappages maps for the user with `PTE_U` in `perm` is where uva2ka finds it, and one
-- that it maps without is none that uva2ka gives out: the result of mappages is 0, and uva2ka then
-- returns the kernel's address of `pa`, or null. The page and `pa` are aligned, the entry lies
-- outside the directory, and a free page for a missing table is aligned.
pub uva2ka-mappages :
    (pgdir va size pa perm : ℕ) (s : Space)
    → va % 4096 ≡ 0
    → va < 4294967296
    → 0 < size
    → size ≤ 4096
    → pa % 4096 ≡ 0
    → pa < 4294967296
    → perm < 8
    → s.kmem.freelist % 4096 ≡ 0
    → s.kmem.freelist < 4294967296
    → (walkpgdir pgdir va s).0 ≢ 0
    → ((walkpgdir pgdir va s).0 + 4 ≤ pgdir) ⊎ (pgdir + 4096 ≤ (walkpgdir pgdir va s).0)
    → (s' : Space) × (mappages pgdir va size pa perm s ≡ some (0, s'))
      × (uva2ka pgdir va s'.kmem.mem ≡ some (if perm / 4 == 1 then p2v pa else 0))
uva2ka-mappages pgdir va size pa perm s h1 h2 h3 h4 h5 h6 h7 h8 h9 ne far =
    let w = walkpgdir-IsWalked pgdir va s h8 h9 ne in
    let (pte, s1) = walkpgdir pgdir va s in
    let m = s1.kmem.mem in
    let m' = put32 m pte (page_entry pa perm) in
    let l = page_entry_lem pa perm h5 h6 h7 in
    let there : (pte == 0) ≡ false = ground arith in
    let kept : get32 m' (pde_at pgdir va) ≡ get32 m (pde_at pgdir va) =
      get32-same m' m (pde_at pgdir va)
        (λ a low high. put32-other m pte (page_entry pa perm) a (ground arith)) in
    let back : get32 m' pte ≡ page_entry pa perm = get32-put32 m pte (page_entry pa perm) l.0 in
    (
      set_mem m' s1,
      mappages_one pgdir va size pa perm s h1 h2 h3 h4 ∙ rw there refl,
      uva2ka_from pgdir va m' pte (page_entry pa perm)
            (find_pte_from pgdir va m' (get32 m (pde_at pgdir va)) kept w.present ∙ w.table) there
            back l.2
          ∙ ap (λ b. some (if b then p2v (pte_addr (page_entry pa perm)) else 0)) l.3
          ∙ ap (λ q. some (if perm / 4 == 1 then p2v q else 0)) l.1,
    )
