-- ===== src/Discard/Joined.antt =====
-- The lists that blocknr_list_sort_and_join makes: the same blocks, in extents with gaps between them.
use mathlib.Core.List.{Perm}
use reiser.Base.{
  ℕ, suc, ◌+◌, ◌≤◌, ◌<◌, ◌≡◌, refl, ap, ◌∙◌, Bool, true, false, ◌&&◌, ◌||◌, Option, none, some,
  List, [], ◌∷◌, inl, inr, ltb, ◌==◌, Bool-cases, ℤ, pos, negsuc, arith,
}
use reiser.Discard.Extents.{
  Extent, entry_merge_entry, entry_compare, join_from, join_sorted, sort_and_join,
}
use reiser.Discard.Cover.{
  fits, all_fit, covers, covered, covered-perm, all_fit-perm, MergeResult, entry_merge_entry_lem,
}

-- What list_sort promises of two neighbours.
abbrev pub not_after : ℤ → Bool
not_after (pos n) = n == 0
not_after (negsuc n) = true

abbrev pub is_sorted : List Extent → Bool
is_sorted [] = true
is_sorted (e ∷ []) = true
is_sorted (e ∷ f ∷ es) = not_after (entry_compare e f) && is_sorted (f ∷ es)

-- The extents begin no lower than `k`, each one behind the one before it.
abbrev Ascending : ℕ → List Extent → Type 0
Ascending k [] = Unit
Ascending k (e ∷ es) = (k ≤ e.start) × Ascending e.start es

-- The extents begin no lower than `k`, and between two of them is a block of neither.
abbrev pub Apart : ℕ → List Extent → Type 0
Apart k [] = Unit
Apart k (e ∷ es) = (k ≤ e.start) × Apart (suc (e.start + e.len)) es

compare-start : (e f : Extent) → not_after (entry_compare e f) ≡ true → e.start ≤ f.start
unfolding entry_compare
compare-start e f h = elim (Bool-cases (ltb f.start e.start)) [
  | inl d ↦
      let before : ltb e.start f.start ≡ false = ground (arith, d) in
      let after : entry_compare e f ≡ pos 1 = (rw (before, d)) in
      absurd (ground (arith, ap not_after after, h))
  | inr d ↦ ground (arith, d)
]

is_sorted-Ascending :
    (e : Extent) (es : List Extent) → is_sorted (e ∷ es) ≡ true → Ascending e.start es
is_sorted-Ascending e [] h = tt
is_sorted-Ascending e (f ∷ es) h =
    (compare-start e f (ground (arith, h)), is_sorted-Ascending f es (ground (arith, h)))

Ascending-lower : (j k : ℕ) (es : List Extent) → j ≤ k → Ascending k es → Ascending j es
Ascending-lower j k [] h a = tt
Ascending-lower j k (e ∷ es) h (b, a) = (omega arith, a)

-- A list made of an extent and a list.
pub record Joined (es out : List Extent) (k : ℕ) : Type 0 where
  pub apart : Apart k out
  pub fit : all_fit out ≡ true
  pub same : (b : ℕ) → covered b out ≡ covered b es

join_from_lem :
    (entry : Extent) (rest : List Extent) (k : ℕ)
    → k ≤ entry.start
    → Ascending entry.start rest
    → fits entry ≡ true
    → all_fit rest ≡ true
    → Joined (entry ∷ rest) (join_from entry rest) k
unfolding join_from
join_from_lem entry [] k h a f g = record {
  apart = (h, tt);
  fit = ground (arith, f);
  same = λ b. refl;
}
join_from_lem entry (next ∷ rest) k h (l, a) f g =
    let g1 : fits next ≡ true = ground (arith, g) in
    let g2 : all_fit rest ≡ true = ground (arith, g) in
    elim (entry_merge_entry entry next)
        as (λ (x : Option Extent).
          MergeResult entry next x
          → Joined (entry ∷ next ∷ rest)
              (elim x as (λ y. List Extent) [
                | some joined ↦ join_from joined rest
                | none ↦ entry ∷ join_from next rest
              ])
              k) [
                | some joined ↦ λ m.
                    let e = m.first l in
                    let j =
                      join_from_lem joined rest k (omega (arith, e))
                        (Ascending-lower joined.start next.start rest (omega (arith, e)) a) m.fit
                        g2 in
                    record {
                      apart = j.apart;
                      fit = j.fit;
                      same = λ b. ground (arith, j.same b, m.same b);
                    }
                | none ↦ λ m.
                    let gap : entry.start + entry.len < next.start = elim m [
                      | inl d ↦ absurd (omega (arith, d, l))
                      | inr d ↦ d
                    ] in
                    let j =
                      join_from_lem next rest (suc (entry.start + entry.len)) (omega (arith, gap)) a
                        g1 g2 in
                    record {
                      apart = (h, j.apart);
                      fit = ground (arith, f, j.fit);
                      same = λ b. ap (λ r. covers b entry || r) (j.same b);
                    }
              ]
      (entry_merge_entry_lem entry next f g1)

join_sorted_lem :
    (es : List Extent) → is_sorted es ≡ true → all_fit es ≡ true → Joined es (join_sorted es) 0
unfolding join_sorted
join_sorted_lem [] h f = record { apart = tt; fit = refl; same = λ b. refl }
join_sorted_lem (e ∷ es) h f =
    join_from_lem e es 0 (omega arith) (is_sorted-Ascending e es h) (ground (arith, f))
      (ground (arith, f))

-- For a list of extents that are not empty and end below 2^64, and a list_sort that gives a sorted
-- permutation of it, blocknr_list_sort_and_join gives extents with a gap between any two neighbours, in
-- ascending order, which are again not empty and end below 2^64, and which have the same blocks.
pub sort_and_join_lem :
    (list_sort : (Extent → Extent → ℤ) → List Extent → List Extent) (blist : List Extent)
    → Perm (list_sort entry_compare blist) blist
    → is_sorted (list_sort entry_compare blist) ≡ true
    → all_fit blist ≡ true
    → Joined blist (sort_and_join list_sort blist) 0
unfolding sort_and_join
sort_and_join_lem list_sort blist p s f =
    let j = join_sorted_lem (list_sort entry_compare blist) s (all_fit-perm p ∙ f) in
    record { apart = j.apart; fit = j.fit; same = λ b. j.same b ∙ covered-perm b p }
