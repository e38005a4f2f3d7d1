-- ===== src/Kernel/Vm/Ends.antt =====
-- The loops of kernel/vm.c over the pages of an address space.
use lxos.Base.{
  ℕ, zero, suc, ◌+◌, ◌-◌, ◌*◌, ◌/◌, ◌%◌, ◌^◌, ◌≡◌, ◌≢◌, ◌<◌, ◌≤◌, inl, inr, none, some, leb, ◌==◌,
  arith, Bool-cases, Option-cases, if◌then◌else◌, List, [], ◌∷◌, All,
}
use lxos.Libc.Memory.{Ptr, put32, memset}
use lxos.Kernel.Kalloc.{kalloc, pgsize, pg_round_up, pg_round_down}
use lxos.Kernel.Vm.{
  Space, set_mem, kernbase, find_pte, walkpgdir, or_flags, mappages_loop, mappages, skip_table,
  drop_page, deallocuvm_loop, deallocuvm, freevm, Kmap, kmap, map_rows, setupkvm,
}

some_ne_none {ℓ} : {A : Type ℓ} (a : A) → some a ≢ none
some_ne_none a e = cc

mappages_loop-ends :
    (rounds : ℕ) (pgdir : Ptr) (a last pa perm : ℕ) (s : Space)
    → a < 4294967296
    → last < 4294967296
    → a % 4096 ≡ 0
    → last % 4096 ≡ 0
    → (last + 4294967296 - a) % 4294967296 / 4096 < rounds
    → mappages_loop rounds pgdir a last pa perm s ≢ none
unfolding mappages_loop
mappages_loop-ends zero pgdir a last pa perm s h1 h2 h3 h4 h5 = absurd (omega arith)
mappages_loop-ends (suc rounds) pgdir a last pa perm s h1 h2 h3 h4 h5 = ground (
  arith,
  mappages_loop-ends rounds pgdir ((a + 4096) % 2 ^ 32) last ((pa + 4096) % 2 ^ 32) perm (
      set_mem
        (put32 (walkpgdir pgdir a s).1.kmem.mem (walkpgdir pgdir a s).0
          (or_flags (or_flags pa perm) 1))
        (walkpgdir pgdir a s).1),
)

pub mappages-ends :
    (pgdir : Ptr) (va size pa perm : ℕ) (s : Space)
    → va < 4294967296
    → mappages pgdir va size pa perm s ≢ none
unfolding mappages pg_round_down
mappages-ends pgdir va size pa perm s h =
    mappages_loop-ends 1048576 pgdir _ _ pa perm s (omega (arith, h)) (omega arith) (omega arith)
      (omega arith) (omega arith)

-- the page that the next round looks at
abbrev next_page : Ptr → (pte : Ptr) → Ptr
next_page a pte = ((if pte == 0 then skip_table a else a) + 4096) % 2 ^ 32

next_page-above :
    (a pte : ℕ)
    → a % 4096 ≡ 0
    → a < 4290772992
    → (a + 4096 ≤ next_page a pte) × (next_page a pte % 4096 ≡ 0)
next_page-above a pte h lt = ground arith

deallocuvm_loop-ends :
    (rounds : ℕ) (pgdir : Ptr) (a oldsz : ℕ) (s : Space)
    → oldsz ≤ 4290772992
    → a % 4096 ≡ 0
    → 0 < rounds
    → oldsz + 4096 ≤ a + rounds * 4096
    → deallocuvm_loop rounds pgdir a oldsz s ≢ none
unfolding deallocuvm_loop
deallocuvm_loop-ends zero pgdir a oldsz s h1 h2 h3 h4 = absurd (omega arith)
deallocuvm_loop-ends (suc rounds) pgdir a oldsz s h1 h2 h3 h4 =
    let pte = find_pte pgdir a s.kmem.mem in
    ground (
      arith,
      next_page-above a pte h2,
      deallocuvm_loop-ends rounds pgdir (next_page a pte) oldsz
          (if pte == 0 then s else drop_page pte s) h1,
    )

pub deallocuvm-ends :
    (pgdir : Ptr) (oldsz newsz : ℕ) (s : Space)
    → oldsz ≤ 4290772992
    → deallocuvm pgdir oldsz newsz s ≢ none
unfolding deallocuvm pg_round_up
deallocuvm-ends pgdir oldsz newsz s h = ground (
  arith,
  deallocuvm_loop-ends (oldsz / pgsize + 2) pgdir (pg_round_up newsz) oldsz s h (omega arith)
      (omega arith) (omega arith),
)

freevm-ends : (pgdir : Ptr) (s : Space) → freevm pgdir s ≢ none
unfolding freevm
freevm-ends pgdir s = ground (arith, deallocuvm-ends pgdir kernbase 0 s (omega arith))

map_rows-ends :
    (ks : List Kmap) (pgdir : Ptr) (s : Space)
    → All (λ k. k.virt < 4294967296) ks
    → map_rows ks pgdir s ≢ none
unfolding map_rows
map_rows-ends [] pgdir s h = some_ne_none (pgdir, s)
map_rows-ends (k ∷ ks) pgdir s h =
    elim (Option-cases (
      mappages pgdir k.virt ((k.phys_end + 4294967296 - k.phys_start) % 2 ^ 32) k.phys_start k.perm
        s)) [
          | inl e ↦ absurd (mappages-ends pgdir k.virt _ k.phys_start k.perm s h.0 e)
          | inr ((r, s1), e) ↦ elim (Bool-cases (leb 2147483648 r)) [
            | inr f ↦ rw (map_rows, e, f) (map_rows-ends ks pgdir s1 h.1)
            | inl f ↦ elim (Option-cases (freevm pgdir s1)) [
              | inl g ↦ absurd (freevm-ends pgdir s1 g)
              | inr (s2, g) ↦ rw (map_rows, e, f, g) (some_ne_none (0, s2))
            ]
          ]
        ]

kmap-words : (data_at : Ptr) → data_at < 4294967296 → All (λ k. k.virt < 4294967296) (kmap data_at)
kmap-words data_at h = (omega arith, (omega arith, (h, (omega arith, tt))))

setupkvm-ends : (data_at : Ptr) (s : Space) → data_at < 4294967296 → setupkvm data_at s ≢ none
unfolding setupkvm
setupkvm-ends data_at s h =
    let (pgdir, k) = kalloc s.kmem in
    let s1 : Space = record s { kmem = record k { mem = memset pgdir 0 pgsize k.mem } } in
    elim (Bool-cases (pgdir == 0)) [
      | inl e ↦ rw (setupkvm, e) (some_ne_none _)
      | inr e ↦ rw (setupkvm, e) (map_rows-ends (kmap data_at) pgdir s1 (kmap-words data_at h))
    ]
