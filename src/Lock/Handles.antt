-- ===== src/Lock/Handles.antt =====
-- What the steps on lock handles do to the view of the state: releases, priorities, moves and copies.
use mathlib.Core.Path.{subst, fun_ext}
use reiser.Base.{
  ℕ, suc, ◌+◌, ◌-◌, ◌≡◌, refl, sym, ap, ◌∙◌, Bool, true, false, Option, none, some, List, [], ◌∷◌,
  if◌then◌else◌, if_cases, Bool-cases, inl, inr, ◌==◌, put, put_at, put_ne, put_map, put-put,
  count_if, count, length, arith,
}
use reiser.Lock.State.{Link, Zlock, Stack, World, put_zlock}
use reiser.Lock.Primitives.{
  unlink_object, del_link, del_lock, clear_signal, raise_locks, set_signal, is_signaled,
  check_deadlock_condition, needs_signal, lower_lock, lower_locks,
}
use reiser.Lock.Longterm.{drop_signal, released, release_lock}
use reiser.Lock.View.{owner_ids, lock_nodes, Core, core, Thread, thread, zs_of, ts_of}

-- Who owns a handle of a node, and on which node a handle of a thread is.
abbrev pub owner_of : ℕ → List Link → Option ℕ
owner_of h [] = none
owner_of h (l ∷ ls) = if l.handle == h then some l.owner else owner_of h ls

abbrev pub node_of : ℕ → List (ℕ × ℕ) → Option ℕ
node_of h [] = none
node_of h ((k, n) ∷ ls) = if k == h then some n else node_of h ls

abbrev pub Holds : World → (handle t n : ℕ) → Type 0
Holds w handle t n =
    (owner_of handle (w.zlocks n).owners ≡ some t) × (node_of handle (w.stacks t).locks ≡ some n)

pub del_link-count :
    (p : ℕ → Bool) (h t : ℕ) (ls : List Link)
    → owner_of h ls ≡ some t
    → (if p t then 1 else 0) + count_if p (owner_ids (del_link h ls)) ≡ count_if p (owner_ids ls)
del_link-count p h t [] e = absurd (ground (arith, e))
del_link-count p h t (l ∷ ls) e = elim (Bool-cases (l.handle == h)) [
  | inl d ↦ let same : l.owner ≡ t = ground (arith, e, d) in ground (arith, d, ap p same)
  | inr d ↦ ground (arith, d, del_link-count p h t ls (ground (arith, e, d)))
]

pub del_link-length :
    (h t : ℕ) (ls : List Link)
    → owner_of h ls ≡ some t
    → suc (length (owner_ids (del_link h ls))) ≡ length (owner_ids ls)
del_link-length h t [] e = absurd (ground (arith, e))
del_link-length h t (l ∷ ls) e = elim (Bool-cases (l.handle == h)) [
  | inl d ↦ ground (arith, d)
  | inr d ↦ ground (arith, d, del_link-length h t ls (ground (arith, e, d)))
]

pub del_lock-count :
    (p : ℕ → Bool) (h n : ℕ) (ls : List (ℕ × ℕ))
    → node_of h ls ≡ some n
    → (if p n then 1 else 0) + count_if p (lock_nodes (del_lock h ls)) ≡ count_if p (lock_nodes ls)
del_lock-count p h n [] e = absurd (ground (arith, e))
del_lock-count p h n ((k, m) ∷ ls) e = elim (Bool-cases (k == h)) [
  | inl d ↦ let same : m ≡ n = ground (arith, e, d) in ground (arith, d, ap p same)
  | inr d ↦ ground (arith, d, del_lock-count p h n ls (ground (arith, e, d)))
]

pub set_signal-ids : (h : ℕ) (ls : List Link) → owner_ids (set_signal h ls) ≡ owner_ids ls
set_signal-ids h [] = refl
set_signal-ids h (l ∷ ls) =
    if_cases (λ (r : List Link). owner_ids r ≡ owner_ids (l ∷ ls)) (l.handle == h) (λ e. refl)
      (λ e. ap (λ us. l.owner ∷ us) (set_signal-ids h ls))

pub clear_signal-ids : (h : ℕ) (ls : List Link) → owner_ids (clear_signal h ls) ≡ owner_ids ls
clear_signal-ids h [] = refl
clear_signal-ids h (l ∷ ls) =
    if_cases (λ (r : List Link). owner_ids r ≡ owner_ids (l ∷ ls)) (l.handle == h) (λ e. refl)
      (λ e. ap (λ us. l.owner ∷ us) (clear_signal-ids h ls))

-- A change of the counter of owners.
abbrev changed : (ℕ → ℕ → ℕ) → ℕ → Core → Core
changed op d z = record z { nr_hipri_owners = op z.nr_hipri_owners d }

core-changed :
    (op : ℕ → ℕ → ℕ) (zlocks : ℕ → Zlock) (n k : ℕ) (z : Zlock)
    → ((a : ℕ) → op a 0 ≡ a)
    → core z ≡ changed op 1 (core (zlocks n))
    → core (put zlocks n z k) ≡ changed op (if n == k then 1 else 0) (core (zlocks k))
core-changed op zlocks n k z unit h = elim (Bool-cases (n == k)) [
  | inl e ↦
      subst (λ m. core (put zlocks n z m) ≡ changed op 1 (core (zlocks m))) {x = n} {y = k}
        (ground arith) (ap core (put_at zlocks n z) ∙ h)
      ∙ (rw e)
  | inr e ↦
      let other : (k == n) ≡ false = ground arith in
      ap core (put_ne zlocks n z k other)
      ∙ ap (λ a. record (core (zlocks k)) { nr_hipri_owners = a })
          (sym (unit (zlocks k).nr_hipri_owners))
      ∙ (rw e)
]

abbrev plus : ℕ → ℕ → ℕ
plus a b = a + b

abbrev minus : ℕ → ℕ → ℕ
minus a b = a - b

pub raise_locks-core :
    (ls : List (ℕ × ℕ)) (zlocks : ℕ → Zlock) (k : ℕ)
    → let z = core (zlocks k) in
      core (raise_locks ls zlocks k)
      ≡ record z { nr_hipri_owners = z.nr_hipri_owners + count k (lock_nodes ls) }
unfolding raise_locks
raise_locks-core [] zlocks k =
    ap (λ a. record (core (zlocks k)) { nr_hipri_owners = a }) (omega arith)
raise_locks-core ((h, n) ∷ ls) zlocks k =
    let z = zlocks n in
    let z' = record z {
      nr_hipri_owners = z.nr_hipri_owners + 1;
      owners = clear_signal h z.owners;
    } in
    let here =
      core-changed plus zlocks n k z' (λ a. omega arith)
        (ap (λ (us : List ℕ). record (core z) { nr_hipri_owners = z.nr_hipri_owners + 1; ids = us })
          (clear_signal-ids h z.owners)) in
    raise_locks-core ls (put zlocks n z') k
    ∙ ap (changed plus (count k (lock_nodes ls))) here
    ∙ ap (λ a. record (core (zlocks k)) { nr_hipri_owners = a }) (omega arith)

lower_lock-core :
    (h : ℕ) (z : Zlock)
    → core (lower_lock h z) ≡ record (core z) { nr_hipri_owners = z.nr_hipri_owners - 1 }
unfolding check_deadlock_condition
lower_lock-core h z =
    let z' = record z { nr_hipri_owners = z.nr_hipri_owners - 1 } in
    if_cases (λ (a : Zlock). core a ≡ core z') (needs_signal h z')
      (λ e. ap (λ (us : List ℕ). record (core z') { ids = us }) (set_signal-ids h z.owners))
      (λ e. refl)

pub lower_locks-core :
    (ls : List (ℕ × ℕ)) (a : ℕ) (zlocks : ℕ → Zlock) (k : ℕ)
    → let z = core (zlocks k) in
      core ((lower_locks ls a zlocks).1 k)
      ≡ record z { nr_hipri_owners = z.nr_hipri_owners - count k (lock_nodes ls) }
unfolding lower_locks check_deadlock_condition
lower_locks-core [] a zlocks k =
    ap (λ a. record (core (zlocks k)) { nr_hipri_owners = a }) (omega arith)
lower_locks-core ((h, n) ∷ ls) a zlocks k =
    let z = zlocks n in
    let a' =
      if needs_signal h (record z { nr_hipri_owners = z.nr_hipri_owners - 1 }) then a + 1 else a in
    lower_locks-core ls a' (put zlocks n (lower_lock h z)) k
    ∙ ap (changed minus (count k (lock_nodes ls)))
        (core-changed minus zlocks n k (lower_lock h z) (λ a. omega arith) (lower_lock-core h z))
    ∙ ap (λ a. record (core (zlocks k)) { nr_hipri_owners = a }) (omega arith)

pub release-zs :
    (w : World) (n : ℕ) (z : Zlock) (me h : ℕ)
    → zs_of (release_lock (put_zlock w n z) me h n)
      ≡ put (zs_of w) n (record (core z) {
        nr_readers = released z.nr_readers;
        ids = owner_ids (del_link h z.owners);
      })
unfolding release_lock unlink_object
release-zs w n z me h =
    let self : (n == n) ≡ true = ground arith in
    fun_ext (λ k. elim (Bool-cases (k == n)) [ inl e ↦ rw (e, self) | inr e ↦ rw e ])

abbrev pub cut : ℕ → Stack → Stack
cut h s = record s { locks = del_lock h s.locks }

pub drop_signal-cut :
    (b : Bool) (s : Stack) (h : ℕ)
    → thread (cut h (drop_signal b s))
      ≡ record (thread s) { nodes = lock_nodes (del_lock h s.locks) }
drop_signal-cut true s h = refl
drop_signal-cut false s h = refl

pub release-ts :
    (w : World) (n : ℕ) (z : Zlock) (me h : ℕ)
    → ts_of (release_lock (put_zlock w n z) me h n)
      ≡ put
          (ts_of w)
          me
          (record (ts_of w me) { nodes = lock_nodes (del_lock h (w.stacks me).locks) })
unfolding release_lock unlink_object
release-ts w n z me h =
    let b = is_signaled h (put w.zlocks n z n).owners in
    let s = drop_signal b (w.stacks me) in
    let threads : (ℕ → Stack) → ℕ → Thread = λ f t. thread (f t) in
    ap threads (
      ap (λ (a : Stack). put (put w.stacks me s) me (cut h a)) (put_at w.stacks me s)
      ∙ put-put w.stacks me s (cut h s))
    ∙ put_map thread w.stacks me (cut h s)
    ∙ ap (λ (th : Thread). put (ts_of w) me th) (drop_signal-cut b (w.stacks me) h)
