-- ===== src/Discard/Cover.antt =====
-- Which blocks a list of extents has, and the lists that sort_and_join makes.
use mathlib.Core.Bool.{Bool-set}
use mathlib.Core.List.{Perm, foldr}
use mathlib.Core.List.Perm
use reiser.Base.{
  ℕ, ◌+◌, ◌-◌, ◌^◌, ◌≤◌, ◌<◌, ◌≡◌, refl, ap, ◌∙◌, Bool, true, false, ◌&&◌, ◌||◌, Option, none, some,
  List, [], ◌∷◌, ◌++◌, ◌⊎◌, if◌then◌else◌, if_cases, inl, inr, ltb, leb, add64, sub64, arith,
}
use reiser.Discard.Extents.{Extent, end_of, entry_merge_entry}

-- An extent is not empty and ends on the device.
abbrev pub fits : Extent → Bool
fits e = ltb 0 e.len && ltb (e.start + e.len) (2 ^ 64)

abbrev pub all_fit : List Extent → Bool
all_fit es = foldr (λ e r. fits e && r) true es

abbrev pub covers : ℕ → Extent → Bool
covers b e = leb e.start b && ltb b (e.start + e.len)

abbrev pub covered : ℕ → List Extent → Bool
covered b es = foldr (λ e r. covers b e || r) false es

and_swap : (a b x : Bool) → (a && (b && x)) ≡ (b && (a && x))
and_swap true true x = refl
and_swap true false x = refl
and_swap false true x = refl
and_swap false false x = refl

or_swap : (a b x : Bool) → (a || (b || x)) ≡ (b || (a || x))
or_swap true true x = refl
or_swap true false x = refl
or_swap false true x = refl
or_swap false false x = refl

pub covered-perm : (b : ℕ) {es fs : List Extent} → Perm es fs → covered b es ≡ covered b fs
covered-perm b p =
    Perm.foldr-eq Bool-set (λ e r. covers b e || r) (λ e f x. or_swap (covers b e) (covers b f) x) p
      false

pub all_fit-perm : {es fs : List Extent} → Perm es fs → all_fit es ≡ all_fit fs
all_fit-perm p =
    Perm.foldr-eq Bool-set (λ e r. fits e && r) (λ e f x. and_swap (fits e) (fits f) x) p true

pub all_fit-append :
    (es fs : List Extent) → all_fit es ≡ true → all_fit fs ≡ true → all_fit (es ++ fs) ≡ true
all_fit-append [] fs h k = k
all_fit-append (e ∷ es) fs h k = ground (arith, h, all_fit-append es fs (ground (arith, h)) k)

pub covered-append :
    (b : ℕ) (es fs : List Extent) → covered b (es ++ fs) ≡ (covered b es || covered b fs)
covered-append b [] fs = refl
covered-append b (e ∷ es) fs =
    ap (λ r. covers b e || r) (covered-append b es fs)
    ∙ or_assoc (covers b e) (covered b es) (covered b fs)
  where
    or_assoc : (x y z : Bool) → (x || (y || z)) ≡ ((x || y) || z)
    or_assoc true y z = refl
    or_assoc false y z = refl

-- What merging two extents gives.
pub record Merged (to from : Extent) (e : Extent) : Type 0 where
  pub fit : fits e ≡ true
  pub same : (b : ℕ) → covers b e ≡ (covers b to || covers b from)
  pub lower : (e.start ≤ to.start) × (e.start ≤ from.start)
  pub first : to.start ≤ from.start → e.start ≡ to.start

-- Two extents become one that has the blocks of both, or there is a gap between them.
abbrev pub MergeResult : Extent → Extent → Option Extent → Type 0
MergeResult to from (some e) = Merged to from e
MergeResult to from none = (from.start + from.len < to.start) ⊎ (to.start + to.len < from.start)

sub64-le : (a b : ℕ) → b ≤ a → a < 2 ^ 64 → sub64 a b ≡ a - b
sub64-le a b h k = omega arith

-- The union of two extents without a gap between them.
union-Merged :
    (to from e : Extent)
    → fits to ≡ true
    → fits from ≡ true
    → to.start ≤ from.start + from.len
    → from.start ≤ to.start + to.len
    → e.start ≡ (if ltb from.start to.start then from.start else to.start)
    → e.start + e.len ≡ (
        if ltb (to.start + to.len) (from.start + from.len)
        then from.start + from.len
        else to.start + to.len)
    → Merged to from e
union-Merged to from e f g h k l m = record {
  fit = ground arith;
  same = λ b. ground arith;
  lower = (ground arith, ground arith);
  first = λ d. ground arith;
}

pub entry_merge_entry_lem :
    (to from : Extent)
    → fits to ≡ true
    → fits from ≡ true
    → MergeResult to from (entry_merge_entry to from)
unfolding entry_merge_entry
entry_merge_entry_lem to from f g =
    let end = add64 from.start from.len in
    let to_end = end_of to in
    let a : end ≡ from.start + from.len = ground (arith, g) in
    let c : to_end ≡ to.start + to.len = ground (arith, f) in
    if_cases (MergeResult to from) (leb to.start end)
      (λ h.
        if_cases (MergeResult to from) (leb from.start to_end)
          (λ k.
            let start = if ltb from.start to.start then from.start else to.start in
            let last = if ltb to_end end then end else to_end in
            let joined : Extent = record { start = start; len = sub64 last start } in
            union-Merged to from joined f g (ground (arith, a, h)) (ground (arith, c, k)) refl
              (ground (arith, a, c, h, k, sub64-le last start)))
          (λ k. inr (ground (arith, c, k))))
      (λ h. inl (ground (arith, a, h)))
