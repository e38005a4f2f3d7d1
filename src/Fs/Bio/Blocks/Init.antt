-- ===== src/Fs/Bio/Blocks/Init.antt =====
-- binit of fs/bio.c and the invariant of the cache.
use lxos.Base.{ℕ, zero, suc, ◌+◌, ◌≡◌, refl, ap, ◌∙◌, arith, true, false}
use lxos.Libc.Memory.{Ptr}
use lxos.Drivers.Device.{Device}
use lxos.Drivers.Ide.{Machine}
use lxos.Fs.Bio.{head, nbuf, binit, binit_loop, push_front, set_next, set_prev}
use lxos.Fs.Bio.Lists.{numbered, binit-IsRing}
use lxos.Fs.Bio.Ring.{NotIn}
use lxos.Fs.Bio.Cache.{payload, payload-push_front, payload-set_next, payload-set_prev}
use lxos.Fs.Bio.Blocks.Invariant.{IsCache}

-- Static storage: no buffer is valid, dirty or named, and the queue of the disk is empty.
pub record IsZeroed {D : Device} (s : Machine D) : Type 0 where
  pub invalid : (p : Ptr) → (s.buf p).valid ≡ false
  pub clean : (p : Ptr) → (s.buf p).dirty ≡ false
  pub unnamed : (p : Ptr) → (s.buf p).dev ≡ 0
  pub queue : s.idequeue ≡ 0

zero-NotIn : (n : ℕ) → NotIn 0 (numbered n)
zero-NotIn zero = tt
zero-NotIn (suc n) = (omega arith, zero-NotIn n)

module _ {D : Device} where
  payload-binit_loop :
      (rounds b : ℕ) (s : Machine D) (q : Ptr)
      → payload ((binit_loop rounds b s).buf q) ≡ payload (s.buf q)
  unfolding binit_loop
  payload-binit_loop zero b s q = refl
  payload-binit_loop (suc rounds) b s q =
      payload-binit_loop rounds (b + 1) (push_front b s) q ∙ payload-push_front b s q

  payload-binit : (s : Machine D) (q : Ptr) → payload ((binit s).buf q) ≡ payload (s.buf q)
  unfolding binit
  payload-binit s q =
      payload-binit_loop nbuf 1 (set_next head head (set_prev head head s)) q
      ∙ payload-set_next head head (set_prev head head s) q
      ∙ payload-set_prev head head s q

  queue-binit_loop : (rounds b : ℕ) (s : Machine D) → (binit_loop rounds b s).idequeue ≡ s.idequeue
  unfolding binit_loop push_front
  queue-binit_loop zero b s = refl
  queue-binit_loop (suc rounds) b s = queue-binit_loop rounds (b + 1) (push_front b s)

  queue-binit : (s : Machine D) → (binit s).idequeue ≡ s.idequeue
  unfolding binit
  queue-binit s = queue-binit_loop nbuf 1 (set_next head head (set_prev head head s))

  -- From static storage binit makes a settled cache, in which every buffer is in the ring once, the
  -- last of the array in front.
  pub binit-IsCache : (s : Machine D) → IsZeroed s → IsCache (binit s) (numbered nbuf)
  binit-IsCache s z = record {
    ring = binit-IsRing s;
    ne_null = zero-NotIn nbuf;
    queue = queue-binit s ∙ z.queue;
    settled = λ p h. record {
      clean = ap (λ v. v.dirty) (payload-binit s p) ∙ z.clean p;
      named = λ va. absurd (still_invalid p va);
      coherent = λ va. absurd (still_invalid p va);
    };
    unique = λ p q hp hq dp dq e. absurd (still_unnamed p dp);
  }
    where
      still_invalid : (p : Ptr) → ((binit s).buf p).valid ≡ true → ⊥
      still_invalid p va =
          let f : ((binit s).buf p).valid ≡ false =
            ap (λ v. v.valid) (payload-binit s p) ∙ z.invalid p in
          cc

      still_unnamed : (p : Ptr) → ((binit s).buf p).dev ≡ 1 → ⊥
      still_unnamed p d =
          let f : ((binit s).buf p).dev ≡ 0 = ap (λ v. v.dev) (payload-binit s p) ∙ z.unnamed p in
          omega arith
