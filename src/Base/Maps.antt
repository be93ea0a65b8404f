-- ===== src/Base/Maps.antt =====
-- Functions as stores, and counting in lists.
use Prim.Native.Nat.{ℕ, ◌+◌, ◌≤◌}
use mathlib.Core.Path.{◌≡◌, refl, fun_ext}
use mathlib.Core.Logic.{inl, inr}
use mathlib.Core.Bool.{Bool, true, false}
use mathlib.Core.List.{List, [], ◌∷◌, ◌++◌}
use native.Mathlib.Omega.{arith}
use reiser.Base.Tests.{if◌then◌else◌, ◌==◌, Bool-cases}
use reiser.Base.Lists.{length}

abbrev pub put {ℓ} : {A : Type ℓ} → (ℕ → A) → ℕ → A → ℕ → A
put f i a j = if j == i then a else f j

-- How many elements pass a test.
abbrev pub count_if {ℓ} : {A : Type ℓ} → (A → Bool) → List A → ℕ
count_if p [] = 0
count_if p (x ∷ xs) = (if p x then 1 else 0) + count_if p xs

abbrev pub count : ℕ → List ℕ → ℕ
count a xs = count_if (λ b. b == a) xs

pub count_if-append {ℓ} :
    {A : Type ℓ} (p : A → Bool) (xs ys : List A)
    → count_if p (xs ++ ys) ≡ count_if p xs + count_if p ys
count_if-append p [] ys = omega arith
count_if-append p (x ∷ xs) ys = omega (arith, count_if-append p xs ys)

-- A test that changes for one number only counts the same where that number is not.
pub count_if-put :
    (p q : ℕ → Bool) (t : ℕ) (xs : List ℕ)
    → ((u : ℕ) → (u == t) ≡ false → p u ≡ q u)
    → count t xs ≡ 0
    → count_if p xs ≡ count_if q xs
count_if-put p q t [] same h = refl
count_if-put p q t (x ∷ xs) same h = ground (arith, same x, count_if-put p q t xs same)

pub count_if-le-length {ℓ} : {A : Type ℓ} (p : A → Bool) (xs : List A) → count_if p xs ≤ length xs
count_if-le-length p [] = omega arith
count_if-le-length p (x ∷ xs) = ground (arith, count_if-le-length p xs)

pub put_at {ℓ} : {A : Type ℓ} (f : ℕ → A) (i : ℕ) (a : A) → put f i a i ≡ a
put_at f i a = let e : (i == i) ≡ true = ground arith in rw e

pub put_ne {ℓ} :
    {A : Type ℓ} (f : ℕ → A) (i : ℕ) (a : A) (j : ℕ) → (j == i) ≡ false → put f i a j ≡ f j
put_ne f i a j e = rw e

-- What a function of the values sees of a changed store.
pub put_map {ℓ κ} :
    {A : Type ℓ} {B : Type κ} (g : A → B) (f : ℕ → A) (i : ℕ) (a : A)
    → (λ j. g (put f i a j)) ≡ put (λ j. g (f j)) i (g a)
put_map g f i a = fun_ext (λ j. elim (Bool-cases (j == i)) [ inl e ↦ rw e | inr e ↦ rw e ])

pub put-put {ℓ} : {A : Type ℓ} (f : ℕ → A) (i : ℕ) (a b : A) → put (put f i a) i b ≡ put f i b
put-put f i a b = fun_ext (λ j. elim (Bool-cases (j == i)) [ inl e ↦ rw e | inr e ↦ rw e ])
