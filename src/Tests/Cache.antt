-- ===== src/Tests/Cache.antt =====
-- The theorems about the buffer cache, on a cache of one buffer and on that of binit.
use lxos.Base.{List, ◌&&◌, ℕ, ◌≡◌, refl, arith, ◌==◌, if◌then◌else◌, some, [], ◌∷◌}
use lxos.Libc.Memory.{Ptr}
use lxos.Drivers.Ide.{Machine}
use lxos.Fs.Bio.{head, nbuf, binit, bget, is_block}
use lxos.Fs.Bio.Lists.{IsRing, find, numbered}
use lxos.Fs.Bio.Cache.{lru_get, bget-lru_get}
use lxos.Fs.Bio.Blocks.{IsCache}
use lxos.Fs.Bio.Blocks.Init.{binit-IsCache}
use lxos.Fs.Bio.Blocks.Edit.{edit, edit-Edited}
use lxos.Tests.Disk.{disk, disk-IsDisk, zeroed, reset}

binit-IsCache_example : IsCache (binit reset) (numbered nbuf)
binit-IsCache_example =
    binit-IsCache reset
      (record { invalid = λ p. refl; clean = λ p. refl; unnamed = λ p. refl; queue = refl })

-- one buffer, at address 1, used `n` times for block 70 and not read yet
abbrev tiny : ℕ → Machine disk
tiny n = record reset {
  buf = λ p. record zeroed {
    dev = 1;
    blockno = 70;
    refcnt = n;
    prev = if p == head then 1 else head;
    next = if p == head then 1 else head;
    content = λ o. 9;
  };
}

tiny-IsRing : (n : ℕ) → IsRing (tiny n) (1 ∷ [])
tiny-IsRing n = record {
  chain = (refl, refl, (refl, refl));
  distinct = (tt, tt);
  apart = (omega arith, tt);
}

tiny-IsCache : (n : ℕ) → IsCache (tiny n) (1 ∷ [])
tiny-IsCache n = record {
  ring = tiny-IsRing n;
  ne_null = (omega arith, tt);
  queue = refl;
  settled = λ p h. record { clean = refl; named = λ va. absurd (cc); coherent = λ va. absurd (cc) };
  unique = λ p q hp hq dp dq e. ground arith;
}

bget-lru_get_example : bget 5 1 70 (tiny 0) ≡ some (lru_get 1 70 (1 ∷ []) (tiny 0))
bget-lru_get_example = bget-lru_get 5 1 70 (tiny 0) (1 ∷ []) (tiny-IsRing 0) (omega arith)

found : find (is_block 1 70) (1 ∷ []) (tiny 0) ≡ 1
unfolding find
found = refl

edit-Edited_example :
    (s' : Machine disk) × (zs : List Ptr) × (edit 5 70 (λ x i. 7) (tiny 0) ≡ some s')
    × IsCache s' zs
    × ((d l : ℕ)
        → disk.sector s'.device d l
          ≡ (if d == 1 && l == 70 then (λ i. 7) else disk.sector (tiny 0).device d l))
unfolding disk-IsDisk
edit-Edited_example =
    edit-Edited disk-IsDisk 5 70 (λ x i. 7) (tiny 0) (1 ∷ []) (omega arith) (omega arith)
      (omega arith) (omega arith) (tiny-IsCache 0) (λ e. absurd (omega (arith, found)))
      (λ p h. omega arith) (λ p h d b. refl)
