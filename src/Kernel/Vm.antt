-- ===== src/Kernel/Vm.antt =====
-- The page tables of kernel/vm.c, with the macros of include/mmu.h. A page directory and its page
-- tables are pages of the kernel's memory: an entry is the 32-bit word at its address. The state is
-- the page allocator's, whose memory is the kernel's, and the messages. A result of type `Option`
-- is `none` where the code goes on through a null pointer.
pub mod User
pub mod Ends
pub mod Growing
pub mod Copying
pub mod Mapping
use lxos.Base.{
  ℕ, zero, suc, ◌+◌, ◌-◌, ◌*◌, ◌/◌, ◌%◌, ◌^◌, Bool, true, false, not, ◌&&◌, ◌||◌, Option, none,
  some, List, [], ◌∷◌, ltb, leb, ◌==◌, if◌then◌else◌,
}
use Prim.Native.String.{String}
use lxos.Libc.Memory.{Ptr, Memory, put32, get32, memset, memmove}
use lxos.Fs.Volume.{minus_one}
use lxos.Kernel.Kalloc.{Kmem, kalloc, kfree, pgsize, pg_round_up, pg_round_down}

pub record Space : Type 0 where
  pub kmem : Kmem
  pub log : List String

abbrev pub kprint : String → Space → Space
kprint text s = record s { log = text ∷ s.log }

abbrev pub set_mem : Memory → Space → Space
set_mem m s = record s { kmem = record s.kmem { mem = m } }

abbrev pub free : Ptr → Space → Space
free v s = record s { kmem = kfree v s.kmem }

abbrev pub kernbase : ℕ
kernbase = 0x80000000

abbrev pub v2p : Ptr → ℕ
v2p a = (a + 0x80000000) % 2 ^ 32

abbrev pub p2v : ℕ → Ptr
p2v a = (a + 0x80000000) % 2 ^ 32

-- the indices in the directory and in the table
abbrev pub pdx : Ptr → ℕ
pdx va = va / 4194304 % 1024

abbrev pub ptx : Ptr → ℕ
ptx va = va / 4096 % 1024

-- PGADDR of fields that do not overlap
abbrev pub pgaddr : (d t o : ℕ) → Ptr
pgaddr d t o = (d * 4194304 + t * 4096 + o) % 2 ^ 32

abbrev pub npdentries : ℕ
npdentries = 1024

abbrev pub pte_addr : ℕ → ℕ
pte_addr e = e / 4096 * 4096

-- `e & PTE_P` and `e & PTE_U`: whether they are not 0
abbrev pub is_present : ℕ → Bool
is_present e = e % 2 == 1

abbrev pub is_user : ℕ → Bool
is_user e = e / 4 % 2 == 1

abbrev pub or_flag : ℕ → ℕ → ℕ
or_flag a b = if a == 0 then b else 1

-- `x | y` for flags `y` below 8
abbrev pub or_flags : ℕ → ℕ → ℕ
or_flags x y =
    x / 8 * 8
    + or_flag (x / 4 % 2) (y / 4 % 2) * 4
    + or_flag (x / 2 % 2) (y / 2 % 2) * 2
    + or_flag (x % 2) (y % 2)

abbrev pub pte_w : ℕ
pte_w = 2

-- `PTE_W|PTE_U`
abbrev pub pte_wu : ℕ
pte_wu = 6

abbrev pub pde_at : Ptr → (va : Ptr) → Ptr
pde_at pgdir va = pgdir + 4 * pdx va

-- walkpgdir without `alloc`: the address of the entry, or null
unfoldable pub find_pte : Ptr → (va : Ptr) → Memory → Ptr
find_pte pgdir va m =
    let pde = get32 m (pde_at pgdir va) in
    if is_present pde then p2v (pte_addr pde) + 4 * ptx va else 0

-- walkpgdir with `alloc`: a table that is missing is made
unfoldable pub walkpgdir : Ptr → (va : Ptr) → Space → Ptr × Space
walkpgdir pgdir va s =
    let pde = get32 s.kmem.mem (pde_at pgdir va) in
    let (pgtab, k) = kalloc s.kmem in
    let cleared = memset pgtab 0 pgsize k.mem in
    let linked = put32 cleared (pde_at pgdir va) (or_flags (v2p pgtab) 7) in
    if is_present pde
    then (p2v (pte_addr pde) + 4 * ptx va, s)
    else if pgtab == 0
    then (0, record s { kmem = k })
    else (pgtab + 4 * ptx va, record s { kmem = record k { mem = linked } })

-- The loop of mappages, from the page `a` to the page `last`; it ends where the two are the same.
unfoldable pub mappages_loop : ℕ → Ptr → (a last pa perm : ℕ) → Space → Option (ℕ × Space)
mappages_loop zero pgdir a last pa perm s = none
mappages_loop (suc rounds) pgdir a last pa perm s =
    let (pte, s1) = walkpgdir pgdir a s in
    let s2 = set_mem (put32 s1.kmem.mem pte (or_flags (or_flags pa perm) 1)) s1 in
    let rest =
      mappages_loop rounds pgdir ((a + pgsize) % 2 ^ 32) last ((pa + pgsize) % 2 ^ 32) perm s2 in
    if pte == 0 then some (minus_one, s1) else if a == last then some (0, s2) else rest

-- `a` reaches any page of the address space within as many rounds as it has pages.
unfoldable pub mappages : Ptr → (va size pa perm : ℕ) → Space → Option (ℕ × Space)
mappages pgdir va size pa perm s =
    mappages_loop 1048576 pgdir (pg_round_down va)
      (pg_round_down ((va + size + 4294967295) % 2 ^ 32)) pa perm s

-- the page that deallocuvm goes to from `a` when it finds no table
abbrev pub skip_table : Ptr → Ptr
skip_table a = (pgaddr (pdx a + 1) 0 0 + 4294963200) % 2 ^ 32

-- deallocuvm's body for an entry that is there
unfoldable pub drop_page : (pte : Ptr) → Space → Space
drop_page pte s =
    let e = get32 s.kmem.mem pte in
    let s1 = if pte_addr e == 0 then kprint "kfree faild" s else s in
    let s2 = free (p2v (pte_addr e)) s1 in
    if is_present e then set_mem (put32 s2.kmem.mem pte 0) s2 else s

unfoldable pub deallocuvm_loop : ℕ → Ptr → (a oldsz : ℕ) → Space → Option Space
deallocuvm_loop zero pgdir a oldsz s = none
deallocuvm_loop (suc rounds) pgdir a oldsz s =
    let pte = find_pte pgdir a s.kmem.mem in
    let a1 = if pte == 0 then skip_table a else a in
    let s1 = if pte == 0 then s else drop_page pte s in
    let rest = deallocuvm_loop rounds pgdir ((a1 + pgsize) % 2 ^ 32) oldsz s1 in
    if ltb a oldsz then rest else some s

-- A round for each page, and the test that ends the loop.
unfoldable pub deallocuvm : Ptr → (oldsz newsz : ℕ) → Space → Option (ℕ × Space)
deallocuvm pgdir oldsz newsz s =
    if leb oldsz newsz
    then some (oldsz, s)
    else elim (deallocuvm_loop (oldsz / pgsize + 2) pgdir (pg_round_up newsz) oldsz s) [
      | none ↦ none
      | some s1 ↦ some (newsz, s1)
    ]

-- the loop of freevm over the directory's entries
unfoldable pub free_tables : ℕ → Ptr → (i : ℕ) → Space → Space
free_tables zero pgdir i s = s
free_tables (suc rounds) pgdir i s =
    let e = get32 s.kmem.mem (pgdir + 4 * i) in
    free_tables rounds pgdir (i + 1) (if is_present e then free (p2v (pte_addr e)) s else s)

unfoldable pub freevm : Ptr → Space → Option Space
freevm pgdir s = elim (deallocuvm pgdir kernbase 0 s) [
  | none ↦ none
  | some (_, s1) ↦ some (free pgdir (free_tables npdentries pgdir 0 s1))
]

-- a row of `kmap`
pub record Kmap : Type 0 where
  pub virt : Ptr
  pub phys_start : ℕ
  pub phys_end : ℕ
  pub perm : ℕ

-- `data_at` is the address that the linker script gives to the kernel's data.
abbrev pub kmap : (data_at : Ptr) → List Kmap
kmap data_at =
    record { virt = 0x80000000; phys_start = 0; phys_end = 0x100000; perm = pte_w }
    ∷ record { virt = 0x80100000; phys_start = 0x100000; phys_end = v2p data_at; perm = 0 }
    ∷ record { virt = data_at; phys_start = v2p data_at; phys_end = 0xe000000; perm = pte_w }
    ∷ record { virt = 0xfe000000; phys_start = 0xfe000000; phys_end = 0; perm = pte_w }
    ∷ []

unfoldable pub map_rows : List Kmap → Ptr → Space → Option (Ptr × Space)
map_rows [] pgdir s = some (pgdir, s)
map_rows (k ∷ ks) pgdir s =
    elim (mappages pgdir k.virt ((k.phys_end + 4294967296 - k.phys_start) % 2 ^ 32) k.phys_start
      k.perm s) [
        | none ↦ none
        | some (r, s1) ↦ elim (leb 2147483648 r) [
          | false ↦ map_rows ks pgdir s1
          | true ↦ elim (freevm pgdir s1) [ none ↦ none | some s2 ↦ some (0, s2) ]
        ]
      ]

-- the new directory, or null
unfoldable pub setupkvm : (data_at : Ptr) → Space → Option (Ptr × Space)
setupkvm data_at s =
    let (pgdir, k) = kalloc s.kmem in
    let s1 = record s { kmem = record k { mem = memset pgdir 0 pgsize k.mem } } in
    elim (pgdir == 0) [
      | true ↦ some (0, record s { kmem = k })
      | false ↦ map_rows (kmap data_at) pgdir s1
    ]
