-- ===== src/Fs/Directories/Elements.antt =====
-- skipelem of fs/fs.c and the elements of a path.
use lxos.Base.{
  ℕ, zero, suc, ◌+◌, ◌-◌, ◌≡◌, ◌≢◌, ◌<◌, ◌≤◌, ◌⊎◌, inl, inr, refl, sym, ◌∙◌, ap, true, false, ◌&&◌,
  ◌||◌, some, ltb, leb, ◌==◌, if◌then◌else◌, arith, Bool-cases,
}
use lxos.Libc.Memory.{Ptr, Memory, put, within}
use lxos.Libc.Memory.Block.{memmove_lem}
use lxos.Fs.Directories.{dirsiz, skip_slashes, skip_name, copy_name, skipelem}

abbrev slash : ℕ
slash = 47

-- The two loops stop behind a run of `k` bytes, with more fuel than that.
skip_slashes-run :
    (fuel k : ℕ) (p : Ptr) (m : Memory)
    → k < fuel
    → ((i : ℕ) → i < k → m (p + i) ≡ slash)
    → m (p + k) ≢ slash
    → skip_slashes fuel p m ≡ some (p + k)
unfolding skip_slashes
skip_slashes-run zero k p m lt run stop = absurd (omega arith)
skip_slashes-run (suc fuel) zero p m lt run stop =
    let here : p + 0 ≡ p = omega arith in
    let out : (m p == slash) ≡ false = ground (arith, ap m here) in rw (out, here) refl
skip_slashes-run (suc fuel) (suc k) p m lt run stop =
    let here : p + 0 ≡ p = omega arith in
    let more : p + 1 + k ≡ p + suc k = omega arith in
    let hit : (m p == slash) ≡ true = ground (arith, ap m here, run 0 (omega arith)) in
    let t =
      skip_slashes-run fuel k (p + 1) m (omega (arith, lt))
        (λ i l.
          let next : p + 1 + i ≡ p + suc i = omega arith in
          ap m next ∙ run (suc i) (omega (arith, l)))
        (λ z. stop (ap m (sym more) ∙ z)) in
    rw hit (t ∙ ap some more)

skip_name-run :
    (fuel k : ℕ) (p : Ptr) (m : Memory)
    → k < fuel
    → ((i : ℕ) → i < k → (m (p + i) ≢ slash) × (m (p + i) ≢ 0))
    → (m (p + k) ≡ slash) ⊎ (m (p + k) ≡ 0)
    → skip_name fuel p m ≡ some (p + k)
unfolding skip_name
skip_name-run zero k p m lt run stop = absurd (omega arith)
skip_name-run (suc fuel) zero p m lt run stop =
    let here : p + 0 ≡ p = omega arith in
    let out : (m p == slash || m p == 0) ≡ true = ground (arith, ap m here) in rw (out, here) refl
skip_name-run (suc fuel) (suc k) p m lt run stop =
    let here : p + 0 ≡ p = omega arith in
    let more : p + 1 + k ≡ p + suc k = omega arith in
    let hit : (m p == slash || m p == 0) ≡ false = ground (arith, ap m here, run 0 (omega arith)) in
    let t =
      skip_name-run fuel k (p + 1) m (omega (arith, lt))
        (λ i l.
          let next : p + 1 + i ≡ p + suc i = omega arith in
          let (a, b) = run (suc i) (omega (arith, l)) in
          ((λ z. a (ap m (sym next) ∙ z)), (λ z. b (ap m (sym next) ∙ z))))
        (elim stop [ inl z ↦ inl (ap m more ∙ z) | inr z ↦ inr (ap m more ∙ z) ]) in
    rw hit (t ∙ ap some more)

-- A path of `k` slashes, an element of `n` bytes, `j` slashes, and what follows.
pub record IsPath (m : Memory) (path : Ptr) (k n j : ℕ) : Type 0 where
  pub slashes : (i : ℕ) → i < k → m (path + i) ≡ slash
  pub some_byte : 0 < n
  pub element : (i : ℕ) → i < n → (m (path + k + i) ≢ slash) × (m (path + k + i) ≢ 0)
  pub stop : (m (path + k + n) ≡ slash) ⊎ (m (path + k + n) ≡ 0)
  pub trailing : (i : ℕ) → i < j → m (path + k + n + i) ≡ slash
  pub rest : m (path + k + n + j) ≢ slash

-- The memory with the name, cut at DIRSIZ bytes, and with a zero behind a shorter one.
abbrev pub with_name : Memory → (name s : Ptr) → (len : ℕ) → Memory
with_name m name s len a =
    if within name dirsiz a && ltb (a - name) len
    then m (s + (a - name))
    else if a == name + len && ltb len dirsiz
    then 0
    else m a

copy_name-with_name :
    (name s : Ptr) (len : ℕ) (m : Memory) (a : ℕ)
    → copy_name name s len m a ≡ with_name m name s len a
unfolding copy_name put
copy_name-with_name name s len m a = elim (Bool-cases (leb dirsiz len)) [
  | inl e ↦ rw e (memmove_lem name s dirsiz m a ∙ ground arith)
  | inr e ↦ rw e (ground (arith, memmove_lem name s len m a))
]

with_name-outside :
    (m : Memory) (name s : Ptr) (len a : ℕ)
    → (a < name) ⊎ (name + dirsiz ≤ a)
    → with_name m name s len a ≡ m a
with_name-outside m name s len a far = ground arith

module _ (fuel : ℕ) (path name : Ptr) (m : Memory) (k n j : ℕ) (h : IsPath m path k n j)
    (enough : k + n + j < fuel) (apart : (name + dirsiz ≤ path) ⊎ (path + k + n + j < name)) where
  abbrev named : Memory
  named = copy_name name (path + k) n m

  behind : (i : ℕ) → i ≤ j → named (path + k + n + i) ≡ m (path + k + n + i)
  behind i le =
      copy_name-with_name name (path + k) n m (path + k + n + i)
      ∙ with_name-outside m name (path + k) n (path + k + n + i) (ground arith)

  skipelem-runs : skipelem fuel path name m ≡ some (path + k + n + j, named)
  unfolding skipelem
  skipelem-runs =
      let start : path + k + 0 ≡ path + k = omega arith in
      let first = h.element 0 h.some_byte in
      let none_slash : m (path + k) ≢ slash = λ z. first.0 (ap m start ∙ z) in
      let leading = skip_slashes-run fuel k path m (omega (arith, enough)) h.slashes none_slash in
      let full : (m (path + k) == 0) ≡ false = ground (arith, ap m start, first.1) in
      let body = skip_name-run fuel n (path + k) m (omega (arith, enough)) h.element h.stop in
      let length : path + k + n - (path + k) ≡ n = omega arith in
      let last =
        skip_slashes-run fuel j (path + k + n) named (omega (arith, enough))
          (λ i lt. behind i (omega (arith, lt)) ∙ h.trailing i lt)
          (λ z. h.rest (sym (behind j (omega arith)) ∙ z)) in
      rw (leading, skipelem, full, body, length, last)
        (ap (λ l. some (path + k + n + j, copy_name name (path + k) l m)) length)

-- skipelem of a path of slashes, an element, slashes and a rest returns the rest. The bytes at
-- `name` are those of the element, 14 at most, with a zero behind a shorter one, and no other byte
-- changes. The fuel must exceed the bytes skipped, and `name` must not overlap them.
pub skipelem-IsPath :
    (fuel : ℕ) (path name : Ptr) (m : Memory) (k n j : ℕ)
    → IsPath m path k n j
    → k + n + j < fuel
    → (name + dirsiz ≤ path) ⊎ (path + k + n + j < name)
    → (m' : Memory) × (skipelem fuel path name m ≡ some (path + k + n + j, m'))
      × ((a : ℕ) → m' a ≡ with_name m name (path + k) n a)
skipelem-IsPath fuel path name m k n j h enough apart = (
  copy_name name (path + k) n m,
  skipelem-runs fuel path name m k n j h enough apart,
  copy_name-with_name name (path + k) n m,
)
