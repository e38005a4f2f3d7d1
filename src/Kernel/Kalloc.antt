-- ===== src/Kernel/Kalloc.antt =====
-- The page allocator of kernel/kalloc.c: a list of free pages that is threaded through the first
-- word of each free page.
pub mod Freelist
use lxos.Base.{ℕ, zero, suc, ◌+◌, ◌*◌, ◌/◌, ◌%◌, ◌^◌, leb, ◌==◌, if◌then◌else◌}
use lxos.Libc.Memory.{Ptr, Memory, put32, get32, memset}

abbrev pub pgsize : ℕ
pgsize = 4096

-- PGROUNDUP and PGROUNDDOWN of include/mmu.h on 32-bit words
unfoldable pub pg_round_up : ℕ → ℕ
pg_round_up sz = (sz + 4095) % 2 ^ 32 / 4096 * 4096

unfoldable pub pg_round_down : ℕ → ℕ
pg_round_down a = a / 4096 * 4096

pub record Kmem : Type 0 where
  pub mem : Memory
  pub freelist : Ptr

unfoldable pub kfree : Ptr → Kmem → Kmem
unfolding memset put32
kfree v k = record { mem = put32 (memset v 1 pgsize k.mem) v k.freelist; freelist = v }

-- the page, or 0 when there is none
unfoldable pub kalloc : Kmem → Ptr × Kmem
unfolding get32
kalloc k =
    if k.freelist == 0 then (0, k) else (k.freelist, record k { freelist = get32 k.mem k.freelist })

-- the loop of freerange, for `rounds` pages at most
unfoldable pub freerange_loop : ℕ → (p vend : Ptr) → Kmem → Kmem
unfolding kfree
freerange_loop zero p vend k = k
freerange_loop (suc rounds) p vend k =
    let rest = freerange_loop rounds (p + pgsize) vend (kfree p k) in
    if leb (p + pgsize) vend then rest else k

-- kinit1 and kinit2 are calls of this. The loop ends before `vend / 4096 + 1` pages.
unfoldable pub freerange : (vstart vend : Ptr) → Kmem → Kmem
unfolding freerange_loop pg_round_up
freerange vstart vend k = freerange_loop (vend / 4096 + 1) (pg_round_up vstart) vend k
