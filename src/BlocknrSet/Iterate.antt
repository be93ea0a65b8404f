-- ===== src/BlocknrSet/Iterate.antt =====
-- blocknr_set_iterator goes through what the set holds, item by item.
use reiser.Base.{
  ℕ, zero, suc, ◌+◌, ◌≡◌, refl, sym, ap, ◌∙◌, Bool, true, false, Option, none, some, List, [], ◌∷◌,
  ◌++◌, get_or, if◌then◌else◌, Bool-cases, inl, inr, ◌==◌, arith,
}
use reiser.BlocknrSet.Entry.{Bse, Item, pair_index, singles, pairs, items, set_items}
use reiser.BlocknrSet.Ops.{
  stops, iterate_singles, iterate_pairs, iterate_entry, iterate_entries, blocknr_set_iterator,
}

module _ {ℓ} {D : Type ℓ} (actor : D → ℕ → Option ℕ → ℕ × D) (delete : Bool) where
  -- The actor on each item in turn, up to the first error that stops.
  walk : List Item → D → ℕ × D
  walk [] d = (0, d)
  walk ((a, b) ∷ rest) d =
      let (ret, d') = actor d a b in
      let onward = walk rest d' in if stops actor delete ret then (ret, d') else onward

  -- What one part of a walk hands to the next.
  abbrev resume : (D → ℕ × D) → ℕ × D → ℕ × D
  resume next (ret, d) = if ret == 0 then next d else (ret, d)

  resume_stopped :
      (next : D → ℕ × D) (r : ℕ × D) → stops actor delete r.0 ≡ true → resume next r ≡ r
  resume_stopped next r e = ground arith

  walk-append : (xs ys : List Item) (d : D) → walk (xs ++ ys) d ≡ resume (walk ys) (walk xs d)
  unfolding walk
  walk-append [] ys d = refl
  walk-append ((a, b) ∷ xs) ys d = elim (Bool-cases (stops actor delete (actor d a b).0)) [
    | inl e ↦ rw e (sym (resume_stopped (walk ys) (actor d a b) e))
    | inr e ↦ rw e (walk-append xs ys (actor d a b).1)
  ]

  iterate_singles-walk :
      (entries : List ℕ) (i n : ℕ) (d : D)
      → iterate_singles actor delete entries i n d ≡ walk (singles entries i n) d
  unfolding walk iterate_singles singles
  iterate_singles-walk entries i zero d = refl
  iterate_singles-walk entries i (suc n) d =
      let (ret, d') = actor d (get_or entries i 0) none in
      ap (λ rest. if stops actor delete ret then (ret, d') else rest)
        (iterate_singles-walk entries (i + 1) n d')

  iterate_pairs-walk :
      (entries : List ℕ) (i n : ℕ) (d : D)
      → iterate_pairs actor delete entries i n d ≡ walk (pairs entries i n) d
  unfolding walk iterate_pairs pairs
  iterate_pairs-walk entries i zero d = refl
  iterate_pairs-walk entries i (suc n) d =
      let (ret, d') =
        actor d (get_or entries (pair_index i) 0) (some (get_or entries (pair_index i + 1) 0)) in
      ap (λ rest. if stops actor delete ret then (ret, d') else rest)
        (iterate_pairs-walk entries (i + 1) n d')

  iterate_entry-walk :
      (entry : Bse) (d : D) → iterate_entry actor delete entry d ≡ walk (items entry) d
  unfolding iterate_entry items
  iterate_entry-walk entry d =
      let s = iterate_singles-walk entry.entries 0 entry.nr_singles d in
      rw
        (
          walk-append (singles entry.entries 0 entry.nr_singles)
              (pairs entry.entries 0 entry.nr_pairs) d,
          ← s,
        )
        (ap
          (λ rest.
            if (iterate_singles actor delete entry.entries 0 entry.nr_singles d).0 == 0
            then rest
            else iterate_singles actor delete entry.entries 0 entry.nr_singles d)
          (iterate_pairs-walk entry.entries 0 entry.nr_pairs
            (iterate_singles actor delete entry.entries 0 entry.nr_singles d).1))

  iterate_entries-walk :
      (bset : List Bse) (d : D) → iterate_entries actor delete bset d ≡ walk (set_items bset) d
  unfolding iterate_entries set_items
  iterate_entries-walk [] d = unfold walk in refl
  iterate_entries-walk (entry ∷ rest) d =
      let e = iterate_entry-walk entry d in
      rw (walk-append (items entry) (set_items rest) d, ← e)
        (ap
          (λ onward.
            if (iterate_entry actor delete entry d).0 == 0
            then onward
            else iterate_entry actor delete entry d)
          (iterate_entries-walk rest (iterate_entry actor delete entry d).1))

  iterator-walk :
      (bset : List Bse) (d : D)
      → blocknr_set_iterator actor delete bset d
        ≡ ((walk (set_items bset) d).0, (walk (set_items bset) d).1, (if delete then [] else bset))
  unfolding blocknr_set_iterator
  iterator-walk bset d =
      ap (λ (r : ℕ × D). (r.0, r.1, (if delete then [] else bset))) (iterate_entries-walk bset d)

module _ {ℓ} {D : Type ℓ} (actor : D → ℕ → Option ℕ → ℕ × D) where
  -- The actor on every item, whatever it answers.
  abbrev pub for_each : List Item → D → D
  for_each [] d = d
  for_each ((a, b) ∷ rest) d = for_each rest (actor d a b).1

  -- The actor on the items up to the first that it does not answer with 0: that answer, or 0.
  abbrev pub until_error : List Item → D → ℕ × D
  until_error [] d = (0, d)
  until_error ((a, b) ∷ rest) d =
      let onward = until_error rest (actor d a b).1 in
      if (actor d a b).0 == 0 then onward else actor d a b

  walk-for_each : (xs : List Item) (d : D) → walk actor true xs d ≡ (0, for_each xs d)
  unfolding walk
  walk-for_each [] d = refl
  walk-for_each ((a, b) ∷ xs) d =
      let ih = walk-for_each xs (actor d a b).1 in
      elim (Bool-cases ((actor d a b).0 == 0)) [ inl e ↦ rw e ih | inr e ↦ rw e ih ]

  walk-until_error : (xs : List Item) (d : D) → walk actor false xs d ≡ until_error xs d
  unfolding walk
  walk-until_error [] d = refl
  walk-until_error ((a, b) ∷ xs) d =
      let ih = walk-until_error xs (actor d a b).1 in
      elim (Bool-cases ((actor d a b).0 == 0)) [ inl e ↦ rw e ih | inr e ↦ rw e refl ]

  -- blocknr_set_iterator with `delete` calls the actor on each item that the set holds, in order,
  -- singles and pairs alike, whatever it answers; it returns 0 and leaves the set empty. Without
  -- `delete` it stops at the first answer that is not 0 and returns that one, or returns 0 at the
  -- end; it leaves the set as it was.
  pub blocknr_set_iterator_lem :
      (bset : List Bse) (d : D)
      → (blocknr_set_iterator actor true bset d ≡ (0, for_each (set_items bset) d, []))
        × (blocknr_set_iterator actor false bset d
            ≡ ((until_error (set_items bset) d).0, (until_error (set_items bset) d).1, bset))
  blocknr_set_iterator_lem bset d = (
    iterator-walk actor true bset d
        ∙ ap (λ (r : ℕ × D). (r.0, r.1, [])) (walk-for_each (set_items bset) d),
    iterator-walk actor false bset d
        ∙ ap (λ (r : ℕ × D). (r.0, r.1, bset)) (walk-until_error (set_items bset) d),
  )
