-- ===== src/Fs/Bio/Ring.antt =====
-- Doubly linked lists as two functions on addresses: what the pointer stores of fs/bio.c do to one.
use mathlib.Core.List.{reverse, reverse_aux}
use lxos.Base.{◌≡◌, ◌≢◌, sym, ◌∙◌, arith, List, [], ◌∷◌, ◌++◌, All, ◌==◌, if◌then◌else◌}
use lxos.Libc.Memory.{Ptr}

-- From `a` the links `f` lead through `xs` to `z`, and the links `g` lead back.
abbrev pub Chain : (f g : Ptr → Ptr) → Ptr → List Ptr → Ptr → Type 0
Chain f g a [] z = (f a ≡ z) × (g z ≡ a)
Chain f g a (x ∷ xs) z = (f a ≡ x) × (g x ≡ a) × Chain f g x xs z

abbrev pub NotIn : Ptr → List Ptr → Type 0
NotIn a xs = All (λ q. a ≢ q) xs

abbrev pub Distinct : List Ptr → Type 0
Distinct [] = Unit
Distinct (x ∷ xs) = NotIn x xs × Distinct xs

abbrev pub first : List Ptr → Ptr → Ptr
first [] z = z
first (x ∷ xs) z = x

abbrev pub link : (Ptr → Ptr) → Ptr → Ptr → Ptr → Ptr
link f p v q = if q == p then v else f q

pub All-append {ℓ} : (P : Ptr → Type ℓ) (xs ys : List Ptr) → All P (xs ++ ys) → All P xs × All P ys
All-append P [] ys h = (tt, h)
All-append P (x ∷ xs) ys (p, h) = let (l, r) = All-append P xs ys h in ((p, l), r)

pub All-join {ℓ} : (P : Ptr → Type ℓ) (xs ys : List Ptr) → All P xs → All P ys → All P (xs ++ ys)
All-join P [] ys l r = r
All-join P (x ∷ xs) ys (p, l) r = (p, All-join P xs ys l r)

pub NotIn-append : (a : Ptr) (xs ys : List Ptr) → NotIn a (xs ++ ys) → NotIn a xs × NotIn a ys
NotIn-append a xs ys h = All-append (λ q. a ≢ q) xs ys h

-- read from the other end, the links change their parts
Chain-onto :
    (f g : Ptr → Ptr) (a : Ptr) (xs : List Ptr) (z : Ptr) (acc : List Ptr) (w : Ptr)
    → Chain f g a xs z
    → Chain g f a acc w
    → Chain g f z (reverse_aux xs (a ∷ acc)) w
Chain-onto f g a [] z acc w (e, e') t = (e', e, t)
Chain-onto f g a (x ∷ xs) z acc w (e, e', h) t = Chain-onto f g x xs z (a ∷ acc) w h (e', e, t)

pub Chain-reverse :
    (f g : Ptr → Ptr) (a : Ptr) (xs : List Ptr) (z : Ptr)
    → Chain f g a xs z
    → Chain g f z (reverse xs) a
Chain-reverse f g a [] z (e, e') = (e', e)
Chain-reverse f g a (x ∷ xs) z (e, e', h) = Chain-onto f g x xs z [] a h (e', e)

-- stores away from a chain leave it alone
Chain-frame :
    (f g : Ptr → Ptr) (p v q w : Ptr) (a : Ptr) (xs : List Ptr) (z : Ptr)
    → p ≢ a
    → NotIn p xs
    → NotIn q xs
    → q ≢ z
    → Chain f g a xs z
    → Chain (link f p v) (link g q w) a xs z
Chain-frame f g p v q w a [] z pa px qx qz (e, e') = (ground arith, ground arith)
Chain-frame f g p v q w a (x ∷ xs) z pa (px, pxs) (qx, qxs) qz (e, e', h) =
    (ground arith, ground arith, Chain-frame f g p v q w x xs z px pxs qxs qz h)

-- what `push_front` does: `b` between `h` and the old first
pub Chain-push :
    (f g : Ptr → Ptr) (b h : Ptr) (xs : List Ptr)
    → b ≢ h
    → NotIn b xs
    → NotIn h xs
    → Distinct xs
    → Chain f g h xs h
    → Chain (link (link f b (f h)) h b) (link (link g b h) (f h) b) h (b ∷ xs) h
Chain-push f g b h [] ne out hout d (e, e') =
    (ground arith, ground arith, (ground arith, ground arith))
Chain-push f g b h (x ∷ xs) ne (bx, bxs) (hx, hxs) (xxs, d) (e, e', t) =
    let old = Chain-frame f g b (f h) b h x xs h bx bxs bxs ne t in
    (
      ground arith,
      ground arith,
      (
        ground arith,
        ground arith,
        Chain-frame (link f b (f h)) (link g b h) h b (f h) b x xs h hx hxs (rw e xxs)
            (rw e (λ r. hx (sym r))) old,
      ),
    )

-- what stands before and behind `b`
pub Chain-middle :
    (f g : Ptr → Ptr) (a : Ptr) (ys : List Ptr) (b : Ptr) (zs : List Ptr) (z : Ptr)
    → Chain f g a (ys ++ b ∷ zs) z
    → f b ≡ first zs z
Chain-middle f g a [] b [] z (e, e', t) = t.0
Chain-middle f g a [] b (x ∷ zs) z (e, e', t) = t.0
Chain-middle f g a (y ∷ ys) b zs z (e, e', t) = Chain-middle f g y ys b zs z t

Chain-before :
    (f g : Ptr → Ptr) (a c : Ptr) (ys : List Ptr) (b : Ptr) (zs : List Ptr) (z : Ptr)
    → NotIn c ys
    → c ≢ a
    → Chain f g a (ys ++ b ∷ zs) z
    → c ≢ g b
Chain-before f g a c [] b zs z n ca (e, e', t) = λ r. ca (r ∙ e')
Chain-before f g a c (y ∷ ys) b zs z (ny, n) ca (e, e', t) = Chain-before f g y c ys b zs z n ny t

pub ne-first : (y : Ptr) (zs : List Ptr) (z : Ptr) → NotIn y zs → y ≢ z → y ≢ first zs z
ne-first y [] z n ne = ne
ne-first y (x ∷ zs) z n ne = n.0

-- what `unlink` does
pub Chain-unlink :
    (f g : Ptr → Ptr) (a : Ptr) (ys : List Ptr) (b : Ptr) (zs : List Ptr) (z : Ptr)
    → NotIn a (ys ++ b ∷ zs)
    → NotIn z (ys ++ b ∷ zs)
    → Distinct (ys ++ b ∷ zs)
    → Chain f g a (ys ++ b ∷ zs) z
    → Chain (link f (g b) (f b)) (link g (f b) (g b)) a (ys ++ zs) z
Chain-unlink f g a [] b [] z na nz d (e, e', t) = (ground arith, ground arith)
Chain-unlink f g a [] b (x ∷ zs) z na nz d (e, e', (k, k', t)) = (
  ground arith,
  ground arith,
  Chain-frame f g (g b) (f b) (f b) (g b) x zs z (rw e' na.1.0) (rw e' na.1.1) (rw k d.1.0)
      (rw k (λ r. nz.1.0 (sym r))) t,
)
Chain-unlink f g a (y ∷ ys) b zs z (ay, na) (zy, nz) (yd, d) (e, e', t) =
    let away = Chain-before f g y a ys b zs z (NotIn-append a ys (b ∷ zs) na).0 ay t in
    let fb : f b ≡ first zs z = Chain-middle f g y ys b zs z t in
    let own : y ≢ f b =
      rw fb (ne-first y zs z (NotIn-append y ys (b ∷ zs) yd).1.1 (λ r. zy (sym r))) in
    (ground arith, ground arith, Chain-unlink f g y ys b zs z yd nz d t)

-- Distinct lists without one of their members.
pub Distinct-drop :
    (ys : List Ptr) (b : Ptr) (zs : List Ptr) → Distinct (ys ++ b ∷ zs) → Distinct (ys ++ zs)
Distinct-drop [] b zs (n, d) = d
Distinct-drop (y ∷ ys) b zs (n, d) =
    let (l, r) = NotIn-append y ys (b ∷ zs) n in
    (All-join (λ q. y ≢ q) ys zs l r.1, Distinct-drop ys b zs d)

pub NotIn-middle :
    (ys : List Ptr) (b : Ptr) (zs : List Ptr) → Distinct (ys ++ b ∷ zs) → NotIn b (ys ++ zs)
NotIn-middle [] b zs (n, d) = n
NotIn-middle (y ∷ ys) b zs (n, d) =
    let (l, r) = NotIn-append y ys (b ∷ zs) n in ((λ e. r.0 (sym e)), NotIn-middle ys b zs d)
