-- ===== src/Fs/Bio/Blocks/Invariant.antt =====
-- The invariant of the cache, and the one lemma by which a change of one buffer keeps it.
use lxos.Base.{
  ◌≡◌, ◌≢◌, ◌⊎◌, sym, ap, ◌∙◌, arith, List, [], ◌∷◌, ◌==◌, Bool, true, false, ◌||◌, fun_ext,
  Bool-cases, inl, inr, ==_iff,
}
use mathlib.Core.Path.{subst}
use lxos.Libc.Memory.{Ptr}
use lxos.Drivers.Device.{Device}
use lxos.Drivers.Ide.{Buf, Machine, update}
use lxos.Fs.Bio.{head}
use lxos.Fs.Bio.Ring.{NotIn}
use lxos.Fs.Bio.Lists.{IsRing, IsRing-same, find}

abbrev pub has : Ptr → List Ptr → Bool
has p [] = false
has p (x ∷ xs) = p == x || has p xs

-- A buffer between two operations: none is dirty, a valid one holds a block of the root device, and
-- a valid one that nobody uses holds what the disk holds.
pub record IsSettled {D : Device} (s : Machine D) (p : Ptr) : Type 0 where
  pub clean : (s.buf p).dirty ≡ false
  pub named : (s.buf p).valid ≡ true → (s.buf p).dev ≡ 1
  pub coherent :
      (s.buf p).valid ≡ true
      → (s.buf p).refcnt ≡ 0
      → (s.buf p).content ≡ D.sector s.device 1 (s.buf p).blockno

pub record IsCache {D : Device} (s : Machine D) (xs : List Ptr) : Type 0 where
  pub ring : IsRing s xs
  pub ne_null : NotIn 0 xs
  pub queue : s.idequeue ≡ 0
  pub settled : (p : Ptr) → has p xs ≡ true → IsSettled s p
  -- a block of the root device is in one buffer at most
  pub unique :
      (p q : Ptr)
      → has p xs ≡ true
      → has q xs ≡ true
      → (s.buf p).dev ≡ 1
      → (s.buf q).dev ≡ 1
      → (s.buf p).blockno ≡ (s.buf q).blockno
      → p ≡ q

pub NotIn-ne : (a p : Ptr) (xs : List Ptr) → NotIn a xs → has p xs ≡ true → p ≢ a
NotIn-ne a p [] n h = absurd (cc)
NotIn-ne a p (x ∷ xs) (e, n) h = elim (Bool-cases (p == x)) [
  | inl same ↦ λ r. e (ground arith)
  | inr other ↦ NotIn-ne a p xs n (ground arith)
]

-- what a walk that finds a buffer, or finds none, tells
module _ {D : Device} (test : Buf → Bool) (s : Machine D) where
  pub find-hit :
      (xs : List Ptr) (b : Ptr)
      → find test xs s ≡ b
      → b ≢ head
      → (has b xs ≡ true) × (test (s.buf b) ≡ true)
  unfolding find
  find-hit [] b e ne = absurd (ne (sym e))
  find-hit (x ∷ xs) b e ne = elim (Bool-cases (test (s.buf x))) [
    | inl t ↦ let xb : x ≡ b = rw t at e in (ground arith, rw (← xb) t)
    | inr f ↦ let (h, t) = find-hit xs b (rw f at e) ne in (ground arith, t)
  ]

  pub find-miss :
      (xs : List Ptr)
      → find test xs s ≡ head
      → NotIn head xs
      → (p : Ptr) → has p xs ≡ true
      → test (s.buf p) ≡ false
  unfolding find
  find-miss [] e n p h = absurd (cc)
  find-miss (x ∷ xs) e (nx, n) p h = elim (Bool-cases (test (s.buf x))) [
    | inl t ↦ absurd (nx (sym (rw t at e)))
    | inr f ↦ elim (Bool-cases (p == x)) [
      | inl same ↦ let px : p ≡ x = (==_iff p x).0 same in rw px f
      | inr other ↦ find-miss xs (rw f at e) n p (ground arith)
    ]
  ]

-- A step that changes one buffer `b` and the sectors of no other valid buffer keeps the invariant,
-- if the buffer's new value does.
pub IsCache-update :
    {D : Device} (s t : Machine D) (xs : List Ptr) (b : Ptr) (v : Buf)
    → IsCache s xs
    → t.buf ≡ update s.buf b v
    → v.next ≡ (s.buf b).next
    → v.prev ≡ (s.buf b).prev
    → t.idequeue ≡ 0
    → ((q : Ptr)
        → has q xs ≡ true
        → q ≢ b
        → (s.buf q).dev ≡ 1
        → D.sector t.device 1 (s.buf q).blockno ≡ D.sector s.device 1 (s.buf q).blockno)
    → IsSettled t b
    → (v.dev ≡ 1
        → (q : Ptr) → has q xs ≡ true
        → q ≢ b
        → (s.buf q).dev ≡ 1
        → (s.buf q).blockno ≢ v.blockno)
    → IsCache t xs
unfolding update
IsCache-update {D} s t xs b v c e en ep queue sectors new apart = record {
  ring =
      IsRing-same s t xs (fun_ext λ q. ap (λ f. (f q).next) e ∙ ground arith)
        (fun_ext λ q. ap (λ f. (f q).prev) e ∙ ground arith) c.ring;
  ne_null = c.ne_null;
  queue = queue;
  settled = λ p h. elim (Bool-cases (p == b)) [
    | inl same ↦ let pb : p ≡ b = (==_iff p b).0 same in subst (IsSettled t) (sym pb) new
    | inr other ↦ old p h (λ r. ground arith) (c.settled p h)
  ];
  unique = λ p q hp hq. single p q hp hq (Bool-cases (p == b)) (Bool-cases (q == b));
}
  where
    at_other : (p : Ptr) → p ≢ b → t.buf p ≡ s.buf p
    at_other p ne = ap (λ f. f p) e ∙ ground arith

    at_b : t.buf b ≡ v
    at_b = ap (λ f. f b) e ∙ ground arith

    old : (p : Ptr) → has p xs ≡ true → p ≢ b → IsSettled s p → IsSettled t p
    old p h ne o = record {
      clean = rw (at_other p ne) o.clean;
      named = rw (at_other p ne) o.named;
      coherent = rw (at_other p ne) (λ va un. o.coherent va un ∙ sym (sectors p h ne (o.named va)));
    }

    single :
        (p q : Ptr)
        → has p xs ≡ true
        → has q xs ≡ true
        → ((p == b) ≡ true) ⊎ ((p == b) ≡ false)
        → ((q == b) ≡ true) ⊎ ((q == b) ≡ false)
        → (t.buf p).dev ≡ 1
        → (t.buf q).dev ≡ 1
        → (t.buf p).blockno ≡ (t.buf q).blockno
        → p ≡ q
    single p q hp hq (inl pb) (inl qb) dp dq ee = ground arith
    single p q hp hq (inl pb) (inr qb) dp dq ee =
        let eb : p ≡ b = (==_iff p b).0 pb in
        let nq : q ≢ b = λ r. ground arith in
        let tp : t.buf p ≡ v = rw eb at_b in
        let tq : t.buf q ≡ s.buf q = at_other q nq in
        absurd (apart (rw tp at dp) q hq nq (rw tq at dq) (sym (rw (tp, tq) at ee)))
    single p q hp hq (inr pb) (inl qb) dp dq ee =
        let eb : q ≡ b = (==_iff q b).0 qb in
        let np : p ≢ b = λ r. ground arith in
        let tq : t.buf q ≡ v = rw eb at_b in
        let tp : t.buf p ≡ s.buf p = at_other p np in
        absurd (apart (rw tq at dq) p hp np (rw tp at dp) (rw (tp, tq) at ee))
    single p q hp hq (inr pb) (inr qb) dp dq ee =
        let tp : t.buf p ≡ s.buf p = at_other p (λ r. ground arith) in
        let tq : t.buf q ≡ s.buf q = at_other q (λ r. ground arith) in
        c.unique p q hp hq (rw tp at dp) (rw tq at dq) (rw (tp, tq) at ee)
