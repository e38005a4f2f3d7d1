-- ===== src/Tests/Spaces.antt =====
-- An address space with one user page: the directory at 8192, its table at 12288, and the page 1 in
-- the frame at 20480.
use lxos.Base.{
  ℕ, zero, suc, ◌*◌, ◌≡◌, ◌<◌, ◌≤◌, inl, inr, refl, ◌∙◌, some, [], ◌==◌, if◌then◌else◌, arith,
}
use lxos.Libc.Memory.{Memory, Ptr, get32}
use lxos.Libc.Memory.Block.{get32-same}
use lxos.Kernel.Vm.{Space, walkpgdir, mappages}
use lxos.Kernel.Vm.User.{uva2ka, copyout, allocuvm}
use lxos.Kernel.Vm.Mapping.{find_pte_from, uva2ka_from, uva2ka-mappages}
use lxos.Kernel.Vm.Copying.{IsClear, IsOpen, Copied, copyout-Copied}
use lxos.Kernel.Vm.Growing.{Allocated, allocuvm-Allocated}

abbrev tables : Memory
tables a =
    if a == 8192
    then 7
    else if a == 8193
    then 48
    else if a == 8195
    then 128
    else if a == 12292
    then 7
    else if a == 12293
    then 80
    else if a == 12295
    then 128
    else if a == 100
    then 65
    else 0

abbrev frame : ℕ → Ptr
frame j = 20480

page_there :
    (m : Memory) (j : ℕ)
    → ((a : Ptr) → IsClear frame 1 2 a → m a ≡ tables a)
    → 1 ≤ j
    → j < 2
    → uva2ka 8192 (j * 4096) m ≡ some 20480
page_there m zero same low high = absurd (omega arith)
page_there m (suc zero) same low high =
    let clear : (a : ℕ) → a < 20480 → m a ≡ tables a = λ a lt. same a (λ j _ _. inl lt) in
    let directory : get32 m 8192 ≡ 2147495943 =
      get32-same m tables 8192 (λ a _ h. clear a (omega (arith, h))) ∙ (unfold get32 in refl) in
    let table : get32 m 12292 ≡ 2147504135 =
      get32-same m tables 12292 (λ a _ h. clear a (omega (arith, h))) ∙ (unfold get32 in refl) in
    uva2ka_from 8192 4096 m 12292 2147504135 (find_pte_from 8192 4096 m 2147495943 directory refl)
      refl table refl
page_there m (suc (suc j)) same low high = absurd (omega arith)

page-IsOpen : IsOpen 8192 tables frame 1 2
page-IsOpen = record {
  there = λ m j same low high. page_there m j same low high;
  ne_null = λ j _ _. omega arith;
  apart = λ i j h1 h2 h3 h4 ne. absurd (ne (omega (arith, h1, h2, h3, h4)));
}

copyout-Copied_example :
    (m' : Memory) × (copyout 8192 4101 100 3 tables ≡ some (0, m'))
    × Copied frame 4101 100 3 tables tables m'
copyout-Copied_example =
    copyout-Copied 8192 tables frame 1 2 4101 100 3 page-IsOpen (omega arith) (omega arith)
      (omega arith) (λ i lt j _ _. inl (omega (arith, lt)))

abbrev space : Space
space = record { kmem = record { mem = tables; freelist = 0 }; log = [] }

walk_found : (walkpgdir 8192 8192 space).0 ≡ 12296
walk_found = unfold walkpgdir get32 in refl

uva2ka-mappages_example :
    (s' : Space) × (mappages 8192 8192 4096 24576 6 space ≡ some (0, s'))
    × (uva2ka 8192 8192 s'.kmem.mem ≡ some 2147508224)
uva2ka-mappages_example =
    uva2ka-mappages 8192 8192 4096 24576 6 space refl (omega arith) (omega arith) (omega arith) refl
      (omega arith) (omega arith) refl (omega arith) (omega (arith, walk_found))
      (inr (omega (arith, walk_found)))

-- the same with a free page
abbrev roomy : Space
roomy = record space { kmem = record { mem = tables; freelist = 2147508224 } }

allocuvm-Allocated_example : Allocated 8192 4096 8192 4096 roomy (allocuvm 8192 4096 8192 roomy)
allocuvm-Allocated_example = allocuvm-Allocated 8192 4096 8192 roomy (omega arith) (omega arith)
