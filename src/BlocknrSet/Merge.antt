-- ===== src/BlocknrSet/Merge.antt =====
-- blocknr_set_merge: nothing is lost, and nothing is made up.
use mathlib.Core.List.{append_assoc, append-nil, perm_middle, perm_append_comm, Perm}
use mathlib.Core.List.Perm
use mathlib.Core.Path.{subst}
use reiser.Base.{
  ℕ, zero, suc, ◌+◌, ◌-◌, ◌*◌, ◌<◌, ◌≡◌, refl, sym, ap, ◌∙◌, true, List, [], ◌∷◌, ◌++◌, get_or,
  if_cases, ◌==◌, arith,
}
use reiser.BlocknrSet.Entry.{
  Bse, bse_avail, bse_put_single, bse_get_pair, bse_put_pair, entries_number, Item, singles, pairs,
  items, set_items,
}
use reiser.BlocknrSet.Ops.{combine_singles, combine_pairs, combine, blocknr_set_merge}
use reiser.BlocknrSet.Contents.{
  IsBse, bse_put_single-IsBse, bse_put_pair-IsBse, items-put_single, items-put_pair,
  items-drop_single, items-drop_pair,
}
use reiser.BlocknrSet.Add.{IsBlocknrSet, bse_avail-used}

-- One item goes from the second list to the first.
perm_pour :
    (xs ys xs' ys' : List Item) (x : Item)
    → Perm xs' (x ∷ xs)
    → Perm ys (x ∷ ys')
    → Perm (xs' ++ ys') (xs ++ ys)
perm_pour xs ys xs' ys' x p q =
    Perm.trans (Perm.append_right ys' p)
      (Perm.trans (Perm.symm (perm_middle xs ys')) (Perm.append_left xs (Perm.symm q)))

-- What the two loops keep: both entries are within their arrays, and hold together what they held.
pub record Poured (into from into' from' : Bse) : Type 0 where
  pub into_valid : IsBse into'
  pub from_valid : IsBse from'
  pub same_items : Perm (items into' ++ items from') (items into ++ items from)

Poured-refl : (into from : Bse) → IsBse into → IsBse from → Poured into from into from
Poured-refl into from v w = record { into_valid = v; from_valid = w; same_items = Perm.refl _ }

Poured-trans : {a b c d e f : Bse} → Poured a b c d → Poured c d e f → Poured a b e f
Poured-trans p q = record {
  into_valid = q.into_valid;
  from_valid = q.from_valid;
  same_items = Perm.trans q.same_items p.same_items;
}

module _ (into from : Bse) (v : IsBse into) (w : IsBse from) where
  pour_single :
      into.nr_singles + 2 * into.nr_pairs < entries_number
      → 0 < from.nr_singles
      → Poured into from
          (bse_put_single into (get_or from.entries (from.nr_singles - 1) 0))
          (record from { nr_singles = from.nr_singles - 1 })
  pour_single room some_left = record {
    into_valid = bse_put_single-IsBse into v _ room;
    from_valid = record { room = omega (arith, w.room); array = w.array };
    same_items =
        perm_pour (items into) (items from) _ _ _
          (items-put_single into v (get_or from.entries (from.nr_singles - 1) 0) room)
          (items-drop_single from w some_left);
  }

  pour_pair :
      into.nr_singles + 2 * into.nr_pairs + 1 < entries_number
      → 0 < from.nr_pairs
      → Poured into from
          (bse_put_pair into
            (bse_get_pair from (from.nr_pairs - 1)).0
            (bse_get_pair from (from.nr_pairs - 1)).1)
          (record from { nr_pairs = from.nr_pairs - 1 })
  unfolding bse_get_pair
  pour_pair room some_left =
      let (a, b) = bse_get_pair from (from.nr_pairs - 1) in
      record {
        into_valid = bse_put_pair-IsBse into v a b room;
        from_valid = record { room = omega (arith, w.room); array = w.array };
        same_items =
            perm_pour (items into) (items from) _ _ _ (items-put_pair into v a b room)
              (items-drop_pair from w some_left);
      }

-- After the first loop: the room that is left is counted right.
abbrev SinglesResult : Bse → Bse → ℕ × Bse × Bse → Type 0
SinglesResult into from (k, into', from') =
    Poured into from into' from' × (into'.nr_singles + 2 * into'.nr_pairs + k ≡ entries_number)

combine_singles_lem :
    (k : ℕ) (into from : Bse)
    → IsBse into
    → IsBse from
    → into.nr_singles + 2 * into.nr_pairs + k ≡ entries_number
    → SinglesResult into from (combine_singles k into from)
unfolding combine_singles
combine_singles_lem zero into from v w e = (Poured-refl into from v w, e)
combine_singles_lem (suc k) into from v w e =
    let last = from.nr_singles - 1 in
    let into' = bse_put_single into (get_or from.entries last 0) in
    let from' = record from { nr_singles = last } in
    if_cases (SinglesResult into from) (from.nr_singles == 0) (λ _. (Poured-refl into from v w, e))
      (λ more.
        let p = pour_single into from v w (omega arith) (ground arith) in
        let rest =
          combine_singles_lem k into' from' p.into_valid p.from_valid
            (unfold bse_put_single in omega arith) in
        (Poured-trans p rest.0, rest.1))

abbrev PairsResult : Bse → Bse → Bse × Bse → Type 0
PairsResult into from (into', from') = Poured into from into' from'

combine_pairs_lem :
    (k : ℕ) (into from : Bse)
    → IsBse into
    → IsBse from
    → into.nr_singles + 2 * into.nr_pairs + k ≡ entries_number
    → PairsResult into from (combine_pairs k into from)
unfolding combine_pairs
combine_pairs_lem zero into from v w e = Poured-refl into from v w
combine_pairs_lem (suc zero) into from v w e = Poured-refl into from v w
combine_pairs_lem (suc (suc k)) into from v w e =
    let last = from.nr_pairs - 1 in
    let into' = bse_put_pair into (bse_get_pair from last).0 (bse_get_pair from last).1 in
    let from' = record from { nr_pairs = last } in
    if_cases (PairsResult into from) (from.nr_pairs == 0) (λ _. Poured-refl into from v w)
      (λ more.
        let p = pour_pair into from v w (omega arith) (ground arith) in
        Poured-trans p (
          combine_pairs_lem k into' from' p.into_valid p.from_valid
            (unfold bse_put_pair in omega arith)))

combine_lem :
    (into from : Bse) → IsBse into → IsBse from → PairsResult into from (combine into from)
unfolding combine
combine_lem into from v w =
    let (k, into', from') = combine_singles (bse_avail into) into from in
    let s =
      combine_singles_lem (bse_avail into) into from v w (omega (arith, bse_avail-used into v)) in
    Poured-trans s.0 (combine_pairs_lem k into' from' s.0.into_valid s.0.from_valid s.1)

IsBlocknrSet-append :
    (xs ys : List Bse) → IsBlocknrSet xs → IsBlocknrSet ys → IsBlocknrSet (xs ++ ys)
IsBlocknrSet-append [] ys v w = w
IsBlocknrSet-append (x ∷ xs) ys v w = (v.0, IsBlocknrSet-append xs ys v.1 w)

set_items-append : (xs ys : List Bse) → set_items (xs ++ ys) ≡ set_items xs ++ set_items ys
unfolding set_items
set_items-append [] ys = refl
set_items-append (x ∷ xs) ys =
    ap (◌++◌ (items x)) (set_items-append xs ys)
    ∙ sym (append_assoc (items x) (set_items xs) (set_items ys))

-- An entry with all of its slots free holds nothing.
items-empty : (bse : Bse) → IsBse bse → (bse_avail bse == entries_number) ≡ true → items bse ≡ []
unfolding items singles pairs
items-empty bse v e =
    let room = bse_avail-used bse v in
    let s : bse.nr_singles ≡ 0 = ground arith in
    let p : bse.nr_pairs ≡ 0 = ground arith in rw (s, p)

-- What is left after a merge: nothing in the first set, and in the second all that both held.
abbrev pub MergeResult : List Bse → List Bse → List Bse × List Bse → Type 0
MergeResult from into (from', into') =
    (from' ≡ []) × IsBlocknrSet into' × Perm (set_items into') (set_items from ++ set_items into)

-- The second part of the first half and the first part of the second half change places.
perm_middle_swap : (i f s t : List Item) → Perm ((i ++ f) ++ (s ++ t)) ((i ++ s) ++ (f ++ t))
perm_middle_swap i f s t =
    let inner =
      subst (λ l. Perm (f ++ (s ++ t)) l) (append_assoc s f t)
        (subst (λ l. Perm l ((s ++ f) ++ t)) (append_assoc f s t)
          (Perm.append_right t (perm_append_comm f s))) in
    subst (λ l. Perm l ((i ++ s) ++ (f ++ t))) (sym (append_assoc i f (s ++ t)))
      (subst (Perm (i ++ (f ++ (s ++ t)))) (sym (append_assoc i s (f ++ t)))
        (Perm.append_left i inner))

perm_regroup :
    (a i f si sf : List Item) → Perm a (i ++ f) → Perm (a ++ (si ++ sf)) ((f ++ sf) ++ (i ++ si))
perm_regroup a i f si sf p =
    Perm.trans (Perm.append_right (si ++ sf) p)
      (Perm.trans (perm_middle_swap i f si sf) (perm_append_comm (i ++ si) (f ++ sf)))

module _ (i f : Bse) (into from : List Bse) (w : IsBlocknrSet from) (v : IsBlocknrSet into) where
  merge_emptied :
      (i' f' : Bse)
      → Poured i f i' f'
      → items f' ≡ []
      → MergeResult (f ∷ from) (i ∷ into) ([], i' ∷ (into ++ from))
  unfolding set_items
  merge_emptied i' f' p e =
      let same : Perm (items i') (items i ++ items f) =
        subst (λ l. Perm l (items i ++ items f)) (ap (◌++◌ (items i')) e ∙ append-nil (items i'))
          p.same_items in
      (
        refl,
        (p.into_valid, IsBlocknrSet-append into from v w),
        rw (set_items-append into from)
            (perm_regroup (items i') (items i) (items f) (set_items into) (set_items from) same),
      )

  merge_left_over :
      (i' f' : Bse)
      → Poured i f i' f'
      → MergeResult (f ∷ from) (i ∷ into) ([], f' ∷ i' ∷ (into ++ from))
  unfolding set_items
  merge_left_over i' f' p =
      let both = Perm.trans (perm_append_comm (items f') (items i')) p.same_items in
      (
        refl,
        (p.from_valid, (p.into_valid, IsBlocknrSet-append into from v w)),
        rw (set_items-append into from) (
            subst (λ l. Perm l ((items f ++ set_items from) ++ (items i ++ set_items into)))
              (append_assoc (items f') (items i') (set_items into ++ set_items from))
              (perm_regroup (items f' ++ items i') (items i) (items f) (set_items into)
                (set_items from) both)),
      )

-- blocknr_set_merge of two sets whose entries are within their arrays. It leaves the first set
-- empty, and in the second exactly what both held, as often, with its entries within their arrays.
pub blocknr_set_merge_lem :
    (from into : List Bse)
    → IsBlocknrSet from
    → IsBlocknrSet into
    → MergeResult from into (blocknr_set_merge from into)
unfolding blocknr_set_merge set_items
blocknr_set_merge_lem [] into w v = (refl, v, Perm.refl (set_items into))
blocknr_set_merge_lem (f ∷ from) [] w v = (
  refl,
  w,
  subst (Perm (set_items (f ∷ from))) (sym (append-nil (set_items (f ∷ from)))) (Perm.refl _),
)
blocknr_set_merge_lem (f ∷ from) (i ∷ into) w v =
    let (i', f') = combine i f in
    let p = combine_lem i f v.0 w.0 in
    if_cases (MergeResult (f ∷ from) (i ∷ into)) (bse_avail f' == entries_number)
      (λ e. merge_emptied i f into from w.1 v.1 i' f' p (items-empty f' p.from_valid e))
      (λ _. merge_left_over i f into from w.1 v.1 i' f' p)
