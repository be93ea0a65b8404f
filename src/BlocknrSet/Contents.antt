-- ===== src/BlocknrSet/Contents.antt =====
-- What an entry holds after a single or a pair is put in, and after the last one is taken out.
use mathlib.Core.List.{append_assoc, append-nil, perm_middle, Perm}
use mathlib.Core.Path.{subst}
use native.Mathlib.Numerals.{add-one}
use reiser.Base.{
  ℕ, zero, suc, ◌+◌, ◌-◌, ◌*◌, ◌≤◌, ◌<◌, ◌≡◌, ◌≢◌, refl, sym, ap, ◌∙◌, none, some, List, [], ◌∷◌,
  ◌++◌, length, get_or, set, length-set, get_or-set_self, get_or-set_ne, arith,
}
use reiser.BlocknrSet.Entry.{
  Bse, bse_put_single, bse_put_pair, entries_number, pair_index, Item, singles, pairs, pair_item,
  items,
}

pub record IsBse (bse : Bse) : Type 0 where
  pub room : bse.nr_singles + 2 * bse.nr_pairs ≤ entries_number
  pub array : length bse.entries ≡ entries_number

singles-snoc :
    (entries : List ℕ) (i n : ℕ)
    → singles entries i (n + 1) ≡ singles entries i n ++ ((get_or entries (i + n) 0, none) ∷ [])
unfolding singles
singles-snoc entries i n = rw (add-one n) (go i n)
  where
    go :
        (i n : ℕ)
        → singles entries i (suc n) ≡ singles entries i n ++ ((get_or entries (i + n) 0, none) ∷ [])
    go i zero = ap (λ k. (get_or entries k 0, none) ∷ []) (omega arith)
    go i (suc n) = ap (◌∷◌ (get_or entries i 0, none)) (
        go (i + 1) n
        ∙ ap (λ k. singles entries (i + 1) n ++ ((get_or entries k 0, none) ∷ [])) (omega arith))

pairs-snoc :
    (entries : List ℕ) (i n : ℕ)
    → pairs entries i (n + 1) ≡ pairs entries i n ++ (pair_item entries (i + n) ∷ [])
unfolding pairs
pairs-snoc entries i n = rw (add-one n) (go i n)
  where
    go : (i n : ℕ) → pairs entries i (suc n) ≡ pairs entries i n ++ (pair_item entries (i + n) ∷ [])
    go i zero = ap (λ k. pair_item entries k ∷ []) (omega arith)
    go i (suc n) = ap (◌∷◌ (pair_item entries i)) (
        go (i + 1) n
        ∙ ap (λ k. pairs entries (i + 1) n ++ (pair_item entries k ∷ [])) (omega arith))

-- A write behind the singles changes none of them.
singles-set :
    (entries : List ℕ) (j v i n : ℕ)
    → i + n ≤ j
    → singles (set entries j v) i n ≡ singles entries i n
unfolding singles
singles-set entries j v i zero h = refl
singles-set entries j v i (suc n) h =
    cc
      (get_or-set_ne entries j i v 0 (omega arith), singles-set entries j v (i + 1) n (omega arith))

pair_item-set :
    (entries : List ℕ) (j v i : ℕ)
    → j ≢ pair_index i
    → j ≢ pair_index i + 1
    → pair_item (set entries j v) i ≡ pair_item entries i
pair_item-set entries j v i h k =
    cc (
      get_or-set_ne entries j (pair_index i) v 0 h,
      get_or-set_ne entries j (pair_index i + 1) v 0 k,
    )

-- A write before the pairs changes none of them.
pairs-set :
    (entries : List ℕ) (j v i n : ℕ)
    → j + 2 * (i + n) < entries_number
    → pairs (set entries j v) i n ≡ pairs entries i n
unfolding pairs
pairs-set entries j v i zero h = refl
pairs-set entries j v i (suc n) h = cc (
  pair_item-set entries j v i (omega arith) (omega arith),
  pairs-set entries j v (i + 1) n (omega arith),
)

-- An item at the end of the first part stands anywhere.
perm_end : (xs ys : List Item) (x : Item) → Perm ((xs ++ (x ∷ [])) ++ ys) (x ∷ (xs ++ ys))
perm_end xs ys x =
    subst (λ l. Perm l (x ∷ (xs ++ ys))) (sym (append_assoc xs (x ∷ []) ys)) (perm_middle xs ys)

perm_last : (xs ys : List Item) (x : Item) → Perm (xs ++ (ys ++ (x ∷ []))) (x ∷ (xs ++ ys))
perm_last xs ys x =
    subst (λ l. Perm l (x ∷ (xs ++ ys))) (append_assoc xs ys (x ∷ []))
      (subst (λ l. Perm ((xs ++ ys) ++ (x ∷ [])) (x ∷ l)) (append-nil (xs ++ ys))
        (perm_middle (xs ++ ys) []))

module _ (bse : Bse) (v : IsBse bse) where
  pub bse_put_single-IsBse :
      (x : ℕ) → bse.nr_singles + 2 * bse.nr_pairs < entries_number → IsBse (bse_put_single bse x)
  unfolding bse_put_single
  bse_put_single-IsBse x h = ground (arith, length-set bse.entries bse.nr_singles x)

  pub bse_put_pair-IsBse :
      (a b : ℕ)
      → bse.nr_singles + 2 * bse.nr_pairs + 1 < entries_number
      → IsBse (bse_put_pair bse a b)
  unfolding bse_put_pair
  bse_put_pair-IsBse a b h = ground (
    arith,
    length-set bse.entries (pair_index bse.nr_pairs) a,
    length-set (set bse.entries (pair_index bse.nr_pairs) a) (pair_index bse.nr_pairs + 1) b,
  )

  -- A single goes in, and nothing that was there is overwritten.
  pub items-put_single :
      (x : ℕ)
      → bse.nr_singles + 2 * bse.nr_pairs < entries_number
      → Perm (items (bse_put_single bse x)) ((x, none) ∷ items bse)
  unfolding bse_put_single items
  items-put_single x h =
      let (e, n, p) : List ℕ × ℕ × ℕ = (bse.entries, bse.nr_singles, bse.nr_pairs) in
      let placed : get_or (set e n x) (0 + n) 0 ≡ x =
        ap (λ k. get_or (set e n x) k 0) (omega arith)
        ∙ get_or-set_self e n x 0 (omega (arith, v.room, v.array)) in
      let content : singles (set e n x) 0 (n + 1) ++ pairs (set e n x) 0 p
          ≡ (singles e 0 n ++ ((x, none) ∷ [])) ++ pairs e 0 p =
        cc (
          singles-snoc (set e n x) 0 n,
          singles-set e n x 0 n (omega arith),
          placed,
          pairs-set e n x 0 p (omega (arith, v.room)),
        ) in
      subst (λ l. Perm l ((x, none) ∷ items bse)) (sym content)
        (perm_end (singles e 0 n) (pairs e 0 p) (x, none))

  -- So does a pair.
  pub items-put_pair :
      (a b : ℕ)
      → bse.nr_singles + 2 * bse.nr_pairs + 1 < entries_number
      → Perm (items (bse_put_pair bse a b)) ((a, some b) ∷ items bse)
  unfolding bse_put_pair items
  items-put_pair a b h =
      let (e, n, p) : List ℕ × ℕ × ℕ = (bse.entries, bse.nr_singles, bse.nr_pairs) in
      let at = pair_index p in
      let e' = set e at a in
      let written = set e' (at + 1) b in
      let first : get_or written (pair_index (0 + p)) 0 ≡ a =
        ap (λ k. get_or written (pair_index k) 0) {x = 0 + p} {y = p} (omega arith)
        ∙ get_or-set_ne e' (at + 1) at b 0 (omega arith)
        ∙ get_or-set_self e at a 0 (omega (arith, v.room, v.array)) in
      let second : get_or written (pair_index (0 + p) + 1) 0 ≡ b =
        ap (λ k. get_or written (pair_index k + 1) 0) {x = 0 + p} {y = p} (omega arith)
        ∙ get_or-set_self e' (at + 1) b 0 (omega (arith, v.room, v.array, length-set e at a)) in
      let content : singles written 0 n ++ pairs written 0 (p + 1)
          ≡ singles e 0 n ++ (pairs e 0 p ++ ((a, some b) ∷ [])) =
        cc (
          pairs-snoc written 0 p,
          singles-set e' (at + 1) b 0 n (omega arith),
          singles-set e at a 0 n (omega arith),
          first,
          second,
          pairs-set e' (at + 1) b 0 p (omega arith),
          pairs-set e at a 0 p (omega arith),
        ) in
      subst (λ l. Perm l ((a, some b) ∷ items bse)) (sym content)
        (perm_last (singles e 0 n) (pairs e 0 p) (a, some b))

  -- The last single, or the last pair, is taken out by counting one less.
  pub items-drop_single :
      0 < bse.nr_singles
      → Perm (items bse) (
          (get_or bse.entries (bse.nr_singles - 1) 0, none)
          ∷ items (record bse { nr_singles = bse.nr_singles - 1 }))
  unfolding items
  items-drop_single h =
      let (e, n, p) : List ℕ × ℕ × ℕ = (bse.entries, bse.nr_singles, bse.nr_pairs) in
      let content : singles e 0 n ++ pairs e 0 p
          ≡ (singles e 0 (n - 1) ++ ((get_or e (n - 1) 0, none) ∷ [])) ++ pairs e 0 p =
        cc (
          ap (singles e 0) {x = n} {y = n - 1 + 1} (omega arith),
          singles-snoc e 0 (n - 1),
          ap (λ k. get_or e k 0) {x = 0 + (n - 1)} {y = n - 1} (omega arith),
        ) in
      subst (λ l. Perm l ((get_or e (n - 1) 0, none) ∷ (singles e 0 (n - 1) ++ pairs e 0 p)))
        (sym content) (perm_end (singles e 0 (n - 1)) (pairs e 0 p) (get_or e (n - 1) 0, none))

  pub items-drop_pair :
      0 < bse.nr_pairs
      → Perm (items bse) (
          pair_item bse.entries (bse.nr_pairs - 1)
          ∷ items (record bse { nr_pairs = bse.nr_pairs - 1 }))
  unfolding items
  items-drop_pair h =
      let (e, n, p) : List ℕ × ℕ × ℕ = (bse.entries, bse.nr_singles, bse.nr_pairs) in
      let content : singles e 0 n ++ pairs e 0 p
          ≡ singles e 0 n ++ (pairs e 0 (p - 1) ++ (pair_item e (p - 1) ∷ [])) =
        cc (
          ap (pairs e 0) {x = p} {y = p - 1 + 1} (omega arith),
          pairs-snoc e 0 (p - 1),
          ap (pair_item e) {x = 0 + (p - 1)} {y = p - 1} (omega arith),
        ) in
      subst (λ l. Perm l (pair_item e (p - 1) ∷ (singles e 0 n ++ pairs e 0 (p - 1)))) (sym content)
        (perm_last (singles e 0 n) (pairs e 0 (p - 1)) (pair_item e (p - 1)))
