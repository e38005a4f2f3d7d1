-- ===== src/Fs/Bio/Lists.antt =====
-- The ring of the cache, and its pointer stores and walks in terms of the list of its buffers.
use lxos.Base.{
  ℕ, zero, suc, ◌+◌, ◌<◌, ◌≡◌, ◌≢◌, sym, ◌∙◌, arith, List, [], ◌∷◌, ◌++◌, ◌==◌, if◌then◌else◌, Bool,
  false, some, length, fun_ext,
}
use mathlib.Core.Path.{subst, subst₂}
use lxos.Libc.Memory.{Ptr}
use lxos.Drivers.Device.{Device}
use lxos.Drivers.Ide.{Buf, Machine, update}
use lxos.Fs.Bio.{binit_loop, binit, nbuf, head, push_front, unlink, scan}
use lxos.Fs.Bio.Ring.{
  Chain, NotIn, Distinct, link, Chain-push, Chain-unlink, Chain-middle, NotIn-append, All-join,
  ne-first, first, Distinct-drop, NotIn-middle,
}

abbrev pub next_of : {D : Device} → Machine D → Ptr → Ptr
next_of s p = (s.buf p).next

abbrev pub prev_of : {D : Device} → Machine D → Ptr → Ptr
prev_of s p = (s.buf p).prev

-- the buffers of the ring are `xs`, the one used last in front
pub record IsRing {D : Device} (s : Machine D) (xs : List Ptr) : Type 0 where
  pub chain : Chain (next_of s) (prev_of s) head xs head
  pub distinct : Distinct xs
  pub apart : NotIn head xs

module _ {D : Device} where
  next-push_front :
      (b : Ptr) (s : Machine D)
      → b ≢ head
      → next_of (push_front b s) ≡ link (link (next_of s) b (next_of s head)) head b
  unfolding push_front update
  next-push_front b s ne = fun_ext λ q. ground arith

  prev-push_front :
      (b : Ptr) (s : Machine D)
      → b ≢ head
      → prev_of (push_front b s) ≡ link (link (prev_of s) b head) (next_of s head) b
  unfolding push_front update
  prev-push_front b s ne = fun_ext λ q. ground arith

  next-unlink :
      (b : Ptr) (s : Machine D)
      → next_of s b ≢ b
      → next_of (unlink b s) ≡ link (next_of s) (prev_of s b) (next_of s b)
  unfolding unlink update
  next-unlink b s ne = fun_ext λ q. ground arith

  prev-unlink :
      (b : Ptr) (s : Machine D)
      → prev_of (unlink b s) ≡ link (prev_of s) (next_of s b) (prev_of s b)
  unfolding unlink update
  prev-unlink b s = fun_ext λ q. ground arith

  pub IsRing-push_front :
      (b : Ptr) (s : Machine D) (xs : List Ptr)
      → b ≢ head
      → NotIn b xs
      → IsRing s xs
      → IsRing (push_front b s) (b ∷ xs)
  IsRing-push_front b s xs ne new r = record {
    chain =
        subst₂ (λ f g. Chain f g head (b ∷ xs) head) (sym (next-push_front b s ne))
          (sym (prev-push_front b s ne))
          (Chain-push (next_of s) (prev_of s) b head xs ne new r.apart r.distinct r.chain);
    distinct = (new, r.distinct);
    apart = ((λ e. ne (sym e)), r.apart);
  }

  pub IsRing-unlink :
      (ys : List Ptr) (b : Ptr) (zs : List Ptr) (s : Machine D)
      → IsRing s (ys ++ b ∷ zs)
      → IsRing (unlink b s) (ys ++ zs)
  IsRing-unlink ys b zs s r =
      let (hl, hr) = NotIn-append head ys (b ∷ zs) r.apart in
      let own = NotIn-append b ys zs (NotIn-middle ys b zs r.distinct) in
      let behind : next_of s b ≡ first zs head =
        Chain-middle (next_of s) (prev_of s) head ys b zs head r.chain in
      let moved : next_of s b ≢ b =
        λ e. ne-first b zs head own.1 (λ q. hr.0 (sym q)) (sym e ∙ behind) in
      record {
        chain =
            subst₂ (λ f g. Chain f g head (ys ++ zs) head) (sym (next-unlink b s moved))
              (sym (prev-unlink b s))
              (Chain-unlink (next_of s) (prev_of s) head ys b zs head r.apart r.apart r.distinct
                r.chain);
        distinct = Distinct-drop ys b zs r.distinct;
        apart = All-join (λ q. head ≢ q) ys zs hl hr.1;
      }

  -- The ring depends on the links alone.
  pub IsRing-same :
      (s t : Machine D) (xs : List Ptr)
      → next_of t ≡ next_of s
      → prev_of t ≡ prev_of s
      → IsRing s xs
      → IsRing t xs
  IsRing-same s t xs en ep r = record {
    chain = subst₂ (λ f g. Chain f g head xs head) (sym en) (sym ep) r.chain;
    distinct = r.distinct;
    apart = r.apart;
  }

  -- where a walk over the buffers `xs` stops
  unfoldable pub find : (Buf → Bool) → List Ptr → Machine D → Ptr
  find test [] s = head
  find test (x ∷ xs) s = let rest = find test xs s in if test (s.buf x) then x else rest

  pub scan-find_from :
      (test : Buf → Bool) (step back : Buf → Ptr) (fuel : ℕ) (a : Ptr) (xs : List Ptr)
      (s : Machine D)
      → NotIn head xs
      → Chain (λ p. step (s.buf p)) (λ p. back (s.buf p)) a xs head
      → length xs < fuel
      → scan test step fuel (step (s.buf a)) s ≡ some (find test xs s)
  unfolding scan find
  scan-find_from test step back zero a xs s n c f = absurd (omega arith)
  scan-find_from test step back (suc fuel) a [] s n (e, e') f = rw e
  scan-find_from test step back (suc fuel) a (x ∷ xs) s (nx, n) (e, e', c) f =
      let there : (x == head) ≡ false = ground arith in
      rw (e, there) (ground (arith, scan-find_from test step back fuel x xs s n c (omega arith)))

-- the buffers of binit, the last one in front
abbrev pub numbered : ℕ → List Ptr
numbered zero = []
numbered (suc n) = suc n ∷ numbered n

numbered-NotIn : (n b : ℕ) → n < b → NotIn b (numbered n)
numbered-NotIn zero b lt = tt
numbered-NotIn (suc n) b lt = (omega arith, numbered-NotIn n b (omega arith))

module _ {D : Device} where
  binit_loop-IsRing :
      (rounds k n : ℕ) (s : Machine D)
      → rounds + k ≡ n
      → n < head
      → IsRing s (numbered k)
      → IsRing (binit_loop rounds (k + 1) s) (numbered n)
  unfolding binit_loop
  binit_loop-IsRing zero k n s e lt r =
      let e' : k ≡ n = omega arith in subst (λ x. IsRing s (numbered x)) e' r
  binit_loop-IsRing (suc rounds) k n s e lt r =
      let at : k + 1 ≡ suc k = omega arith in
      let at' : suc k + 1 ≡ k + 1 + 1 = omega arith in
      subst (λ x. IsRing (binit_loop rounds x (push_front (k + 1) s)) (numbered n)) at'
        (binit_loop-IsRing rounds (suc k) n (push_front (k + 1) s) (omega arith) lt (
          subst (λ x. IsRing (push_front x s) (suc k ∷ numbered k)) (sym at)
            (IsRing-push_front (suc k) s (numbered k) (omega arith)
              (numbered-NotIn k (suc k) (omega arith)) r)))

  -- After binit the ring holds every buffer once, the last of the array in front.
  pub binit-IsRing : (s : Machine D) → IsRing (binit s) (numbered nbuf)
  unfolding binit update
  binit-IsRing s =
      binit_loop-IsRing nbuf 0 nbuf _ (omega arith) (omega arith)
        (record { chain = (ground arith, ground arith); distinct = tt; apart = tt })
