-- ===== src/Kernel/Vm/User.antt =====
-- The user's part of an address space in kernel/vm.c: inituvm, allocuvm, loaduvm, clearpteu, uva2ka
-- and copyout.
use lxos.Base.{
  ℕ, zero, suc, ◌+◌, ◌-◌, ◌*◌, ◌/◌, ◌%◌, ◌^◌, true, false, ◌&&◌, Option, none, some, ◌∷◌, ltb, leb,
  ◌==◌, if◌then◌else◌,
}
use lxos.Libc.Memory.{Ptr, Memory, put32, get32, memset, memmove}
use lxos.Kernel.Kalloc.{kalloc, pgsize, pg_round_up, pg_round_down}
use lxos.Fs.Volume.{Volume, minus_one}
use lxos.Fs.Content.{Operation, readi}
use lxos.Kernel.Vm.{
  Space, kprint, set_mem, free, kernbase, v2p, p2v, pte_addr, is_present, is_user, pte_wu, find_pte,
  mappages, deallocuvm,
}

-- A null page from kalloc is written through.
unfoldable pub inituvm : Ptr → (init : Ptr) → (sz : ℕ) → Space → Option Space
inituvm pgdir init sz s =
    let s0 = if leb pgsize sz then kprint "inituvm: more than a page" s else s in
    let (mem, k) = kalloc s0.kmem in
    let s1 = record s0 { kmem = record k { mem = memset mem 0 pgsize k.mem } } in
    elim (mem == 0) [
      | true ↦ none
      | false ↦ elim (mappages pgdir 0 pgsize (v2p mem) pte_wu s1) [
        | none ↦ none
        | some (_, s2) ↦ some (set_mem (memmove mem init sz s2.kmem.mem) s2)
      ]
    ]

-- the two failures of allocuvm, which give the pages back
unfoldable pub give_up : Ptr → (oldsz newsz : ℕ) → Space → Option (ℕ × Space)
give_up pgdir oldsz newsz s = elim (deallocuvm pgdir newsz oldsz s) [
  | none ↦ none
  | some (_, s1) ↦ some (0, s1)
]

unfoldable pub give_up_page : (mem : Ptr) → Option (ℕ × Space) → Option (ℕ × Space)
give_up_page mem none = none
give_up_page mem (some (r, s)) = some (r, free mem s)

unfoldable pub allocuvm_loop : ℕ → Ptr → (a oldsz newsz : ℕ) → Space → Option (ℕ × Space)
allocuvm_loop zero pgdir a oldsz newsz s = none
allocuvm_loop (suc rounds) pgdir a oldsz newsz s =
    let (mem, k) = kalloc s.kmem in
    let s1 = record s { kmem = record k { mem = memset mem 0 pgsize k.mem } } in
    elim (ltb a newsz) [
      | false ↦ some (newsz, s)
      | true ↦ elim (mem == 0) [
        | true ↦
            give_up pgdir oldsz newsz (kprint "allocuvm out of memory\n" (record s { kmem = k }))
        | false ↦ elim (mappages pgdir a pgsize (v2p mem) pte_wu s1) [
          | none ↦ none
          | some (r, s2) ↦ elim (leb 2147483648 r) [
            | false ↦ allocuvm_loop rounds pgdir (a + pgsize) oldsz newsz s2
            | true ↦
                give_up_page mem
                  (give_up pgdir oldsz newsz (kprint "allocuvm out of memory (2)\n" s2))
          ]
        ]
      ]
    ]

-- A round for each page, and the test that ends the loop. `newsz` is below KERNBASE, so that `a`
-- does not wrap.
unfoldable pub allocuvm : Ptr → (oldsz newsz : ℕ) → Space → Option (ℕ × Space)
allocuvm pgdir oldsz newsz s =
    if leb kernbase newsz
    then some (0, s)
    else if ltb newsz oldsz
    then some (oldsz, s)
    else allocuvm_loop (newsz / pgsize + 2) pgdir (pg_round_up oldsz) oldsz newsz s

-- The loop of loaduvm, which reads a page at a time. The state is the file system's, with the
-- kernel's memory.
module _ (table : ℕ → Option Operation) where
  unfoldable pub loaduvm_loop :
      ℕ → Ptr → (addr ip : Ptr) → (offset i sz : ℕ) → Volume → Option (ℕ × Volume)
  loaduvm_loop zero pgdir addr ip offset i sz s = none
  loaduvm_loop (suc rounds) pgdir addr ip offset i sz s =
      let pte = find_pte pgdir ((addr + i) % 2 ^ 32) s.mem in
      let pa = pte_addr (get32 s.mem pte) in
      let n = if ltb (sz - i) pgsize then sz - i else pgsize in
      let (r, s1) = readi table ip (p2v pa) ((offset + i) % 2 ^ 32) n s in
      let rest = loaduvm_loop rounds pgdir addr ip offset (i + pgsize) sz s1 in
      if ltb i sz
      then (if pte == 0 then none else if r == n then rest else some (minus_one, s1))
      else some (0, s)

  unfoldable pub loaduvm : Ptr → (addr ip : Ptr) → (offset sz : ℕ) → Volume → Option (ℕ × Volume)
  loaduvm pgdir addr ip offset sz s =
      let s0 =
        if addr % pgsize == 0
        then s
        else record s { log = "loaduvm: addr must be page aligned" ∷ s.log } in
      loaduvm_loop (sz / pgsize + 2) pgdir addr ip offset 0 sz s0

unfoldable pub clearpteu : Ptr → (uva : Ptr) → Space → Option Space
clearpteu pgdir uva s =
    let pte = find_pte pgdir uva s.kmem.mem in
    let e = get32 s.kmem.mem pte in
    if pte == 0 then none else some (set_mem (put32 s.kmem.mem pte (e - e / 4 % 2 * 4)) s)

-- the kernel's address of a user's page, or null when the user may not use it
unfoldable pub uva2ka : Ptr → (uva : Ptr) → Memory → Option Ptr
uva2ka pgdir uva m =
    let pte = find_pte pgdir uva m in
    let e = get32 m pte in
    if pte == 0 then none else some (if is_present e && is_user e then p2v (pte_addr e) else 0)

unfoldable pub copyout_loop : ℕ → Ptr → (va p len : ℕ) → Memory → Option (ℕ × Memory)
copyout_loop zero pgdir va p len m = none
copyout_loop (suc rounds) pgdir va p len m = elim (len == 0) [
  | true ↦ some (0, m)
  | false ↦ elim (uva2ka pgdir (pg_round_down va) m) [
    | none ↦ none
    | some pa0 ↦ elim (pa0 == 0) [
      | true ↦ some (minus_one, m)
      | false ↦
          let o = va - pg_round_down va in
          let n = if ltb len (pgsize - o) then len else pgsize - o in
          copyout_loop rounds pgdir ((pg_round_down va + pgsize) % 2 ^ 32) (p + n) (len - n)
            (memmove (pa0 + o) p n m)
    ]
  ]
]

-- A round for each page that the `len` bytes touch, and the test that ends the loop.
unfoldable pub copyout : Ptr → (va p len : ℕ) → Memory → Option (ℕ × Memory)
copyout pgdir va p len m = copyout_loop (len / pgsize + 3) pgdir va p len m
