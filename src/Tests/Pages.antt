-- ===== src/Tests/Pages.antt =====
-- The page allocator on a small range.
use lxos.Base.{◌-◌, ◌/◌, refl, arith, [], ◌∷◌}
use lxos.Kernel.Kalloc.{Kmem, kfree, freerange, pg_round_up}
use lxos.Kernel.Kalloc.Freelist.{IsFree, kfree-IsFree, freerange-IsFree, freed}

abbrev nothing_free : Kmem
nothing_free = record { mem = λ a. 0; freelist = 0 }

freerange-IsFree_example :
    IsFree
      (freerange 5000 20000 nothing_free)
      (freed ((20000 - pg_round_up 5000) / 4096) (pg_round_up 5000) [])
freerange-IsFree_example =
    freerange-IsFree 5000 20000 nothing_free [] (omega arith) (omega arith) (omega arith) tt refl

one-IsFree : IsFree (kfree 8192 nothing_free) (8192 ∷ [])
one-IsFree =
    kfree-IsFree 8192 nothing_free []
      (record { aligned = refl; ne_null = omega arith; word = omega arith }) tt refl
