-- ===== src/Lock/Counting.antt =====
-- How the counts of lock.c change: the values of a store, the owners of a node, the queue.
use mathlib.Core.Path.{subst, fun_ext}
use reiser.Base.{
  ℕ, zero, suc, ◌+◌, ◌≤◌, ◌≡◌, refl, sym, ap, ◌∙◌, Bool, true, false, List, [], ◌∷◌, if◌then◌else◌,
  if_cases, Bool-cases, inl, inr, ◌==◌, ℤ, pos, negsuc, suc_ℤ, pred_ℤ, put, count_if, count,
  count_if-le-length, length, ◌<◌, arith,
}
use reiser.Lock.Primitives.{del_requestor}
use reiser.Lock.Longterm.{released, copied}
use reiser.Lock.View.{Core, Thread, Counted, IsView}

pub IsView-ext :
    {zs zs' : ℕ → Core} {ts ts' : ℕ → Thread}
    → ((n : ℕ) → zs' n ≡ zs n)
    → ((t : ℕ) → ts' t ≡ ts t)
    → IsView zs ts
    → IsView zs' ts'
IsView-ext {zs} {zs'} {ts} {ts'} e f v =
    subst (λ a. IsView a ts') (sym (fun_ext e)) (subst (IsView zs) (sym (fun_ext f)) v)

-- A measure of the values of a store that grows, or falls, at one place.
pub put_more {ℓ} :
    {A : Type ℓ} (m : A → ℕ) (f : ℕ → A) (i : ℕ) (a : A) (d : ℕ)
    → m a ≡ d + m (f i)
    → (j : ℕ) → m (put f i a j) ≡ (if j == i then d else 0) + m (f j)
put_more m f i a d h j =
    let same : (j == i) ≡ true → m (f j) ≡ m (f i) =
      λ e. ap (λ k. m (f k)) {x = j} {y = i} (ground arith) in
    if_cases (λ x. m x ≡ (if j == i then d else 0) + m (f j)) (j == i)
      (λ e. ground (arith, same e, h)) (λ e. ground (arith, e))

pub put_less {ℓ} :
    {A : Type ℓ} (m : A → ℕ) (f : ℕ → A) (i : ℕ) (a : A) (d : ℕ)
    → d + m a ≡ m (f i)
    → (j : ℕ) → (if j == i then d else 0) + m (put f i a j) ≡ m (f j)
put_less m f i a d h j =
    let same : (j == i) ≡ true → m (f j) ≡ m (f i) =
      λ e. ap (λ k. m (f k)) {x = j} {y = i} (ground arith) in
    if_cases (λ x. (if j == i then d else 0) + m x ≡ m (f j)) (j == i)
      (λ e. ground (arith, same e, h)) (λ e. ground (arith, e))

-- What a thread must find of a node to lock it.
abbrev pub MayLock : Bool → ℤ → List ℕ → ℕ → Type 0
MayLock true (pos n) ids t = Unit
MayLock true (negsuc n) ids t = ⊥
MayLock false (pos n) ids t = n ≡ 0
MayLock false (negsuc n) ids t = count t ids ≡ suc n

abbrev pub taken : Bool → ℤ → ℤ
taken read r = if read then suc_ℤ r else pred_ℤ r

pub taken-Counted :
    (read : Bool) (r : ℤ) (ids : List ℕ) (t : ℕ)
    → Counted r ids
    → MayLock read r ids t
    → Counted (taken read r) (t ∷ ids)
taken-Counted true (pos n) ids t c m = omega arith
taken-Counted true (negsuc n) ids t c m = elim m [ ]
taken-Counted false (pos zero) [] t c m = (refl, t, ground arith)
taken-Counted false (pos zero) (u ∷ ids) t c m = absurd (omega arith)
taken-Counted false (pos (suc n)) ids t c m = absurd (omega arith)
taken-Counted false (negsuc n) ids t (l, u, c) m = (omega arith, t, ground arith)

pub apart : (t u : ℕ) (ids : List ℕ) → (t == u) ≡ false → count t ids + count u ids ≤ length ids
apart t u [] e = omega arith
apart t u (x ∷ ids) e = ground (arith, apart t u ids e)

-- Where every element is `u` and some are `t`, every element is `t`.
pub all_of :
    (t u : ℕ) (ids : List ℕ) → count u ids ≡ length ids → 0 < count t ids → count t ids ≡ length ids
all_of t u ids e h = elim (Bool-cases (t == u)) [
  | inl same ↦ ap (λ k. count k ids) {x = t} {y = u} (ground arith) ∙ e
  | inr other ↦ absurd (omega (arith, apart t u ids other))
]

pub released-Counted :
    (r : ℤ) (ids ids' : List ℕ) (t : ℕ)
    → Counted r ids
    → suc (length ids') ≡ length ids
    → ((u : ℕ) → (if t == u then 1 else 0) + count u ids' ≡ count u ids)
    → Counted (released r) ids'
released-Counted (pos zero) ids ids' t c l e = absurd (omega arith)
released-Counted (pos (suc k)) ids ids' t c l e = omega arith
released-Counted (negsuc zero) ids ids' t (m, u, c) l e = omega arith
released-Counted (negsuc (suc k)) ids ids' t (m, u, c) l e =
    (omega arith, u, ground (arith, e u, count_if-le-length (λ b. b == u) ids'))

pub copied-Counted :
    (r : ℤ) (ids : List ℕ) (t : ℕ) → Counted r ids → 0 < count t ids → Counted (copied r) (t ∷ ids)
copied-Counted (pos zero) [] t c h = absurd (omega arith)
copied-Counted (pos zero) (u ∷ ids) t c h = absurd (omega arith)
copied-Counted (pos (suc k)) ids t c h = omega arith
copied-Counted (negsuc k) ids t (m, u, c) h =
    (omega arith, t, ground (arith, all_of t u ids (c ∙ sym m)))

-- A test that turns to true for `t` counts the elements `t` too.
pub raised-count :
    (p q : ℕ → Bool) (t : ℕ) (xs : List ℕ)
    → ((u : ℕ) → (u == t) ≡ false → q u ≡ p u)
    → p t ≡ false
    → q t ≡ true
    → count_if q xs ≡ count_if p xs + count t xs
raised-count p q t [] same h k = omega arith
raised-count p q t (x ∷ xs) same h k =
    let at = λ (e : (x == t) ≡ true) (f : ℕ → Bool). ap f {x = x} {y = t} (ground arith) in
    let rest = raised-count p q t xs same h k in
    elim (Bool-cases (x == t)) [
      | inl e ↦ ground (arith, rest, at e p, at e q)
      | inr e ↦ ground (arith, rest, same x e)
    ]

pub del_requestor-count :
    (p : ℕ → Bool) (t : ℕ) (us : List ℕ)
    → 1 ≤ count t us
    → (if p t then 1 else 0) + count_if p (del_requestor t us) ≡ count_if p us
del_requestor-count p t [] h = absurd (omega arith)
del_requestor-count p t (u ∷ us) h =
    if_cases (λ (r : List ℕ). (if p t then 1 else 0) + count_if p r ≡ count_if p (u ∷ us)) (u == t)
      (λ e. ap (λ a. (if p a then 1 else 0) + count_if p us) {x = t} {y = u} (ground arith))
      (λ e. ground (arith, del_requestor-count p t us))
