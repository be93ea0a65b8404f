-- ===== src/Lock/Copies.antt =====
-- move_lh and copy_lh keep the counters of the locks.
use mathlib.Core.Path.{subst, fun_ext}
use reiser.Base.{
  ℕ, ◌+◌, ◌≤◌, ◌≡◌, refl, sym, ap, ◌∙◌, Bool, true, false, List, [], ◌∷◌, ◌++◌, if◌then◌else◌,
  if_cases, ◌==◌, ℤ, pos, negsuc, put, put_at, put_map, put-put, count_if, count, count_if-append,
  length, arith,
}
use reiser.Lock.State.{Stack, World, put_zlock, put_stack}
use reiser.Lock.Primitives.{link_object, unlink_object, del_link, del_lock, set_signal, is_signaled}
use reiser.Lock.Longterm.{copied, move_lh, copy_lh}
use reiser.Lock.View.{
  owner_ids, lock_nodes, Core, core, Thread, thread, Counted, IsCore, pri_of, mode_of, may_wait,
  IsView, zs_of, ts_of, put_cases, put_same, IsCore-same,
}
use reiser.Lock.Counting.{copied-Counted}
use reiser.Lock.ViewSteps.{grant_core, grant_thread, grant-IsView}
use reiser.Lock.System.{Sound, to_sound, put-IsSystem}
use reiser.Lock.Effects.{linked-zs, linked-ts}
use reiser.Lock.Handles.{Holds, del_link-count, del_link-length, del_lock-count, set_signal-ids}

-- The signal of a handle is not in the view.
signal-zs :
    (w : World) (n h : ℕ)
    → zs_of (put_zlock w n (record (w.zlocks n) { owners = set_signal h (w.zlocks n).owners }))
      ≡ zs_of w
signal-zs w n h =
    let z = w.zlocks n in
    fun_ext (
      put_same core w.zlocks n (record z { owners = set_signal h z.owners })
        (ap (λ (us : List ℕ). record (core z) { ids = us }) (set_signal-ids h z.owners)))

signaled-Sound :
    {asleep : ℕ → Bool} (w : World) (n h : ℕ) (b : Bool)
    → Sound asleep w
    → Sound asleep (
        if b
        then put_zlock w n (record (w.zlocks n) { owners = set_signal h (w.zlocks n).owners })
        else w)
signaled-Sound w n h true v =
    let w' = put_zlock w n (record (w.zlocks n) { owners = set_signal h (w.zlocks n).owners }) in
    to_sound w' (signal-zs w n h) refl v
signaled-Sound w n h false v = v

-- A node and a thread whose lists only change their order.
module _ {zs : ℕ → Core} {ts : ℕ → Thread} (v : IsView zs ts) where
  reordered-Counted :
      (r : ℤ) (ids ids' : List ℕ)
      → length ids' ≡ length ids
      → ((u : ℕ) → count u ids' ≡ count u ids)
      → Counted r ids
      → Counted r ids'
  reordered-Counted (pos n) ids ids' l e c = l ∙ c
  reordered-Counted (negsuc n) ids ids' l e (m, u, c) = (l ∙ m, u, e u ∙ c)

  reorder-IsView :
      (n t : ℕ) (ids nodes : List ℕ)
      → length ids ≡ length (zs n).ids
      → ((p : ℕ → Bool) → count_if p ids ≡ count_if p (zs n).ids)
      → ((p : ℕ → Bool) → count_if p nodes ≡ count_if p (ts t).nodes)
      → IsView (put zs n (record (zs n) { ids = ids })) (put ts t (record (ts t) { nodes = nodes }))
  reorder-IsView n t ids nodes l e f =
      let c = v.cores n in
      let z' = record (zs n) { ids = ids } in
      let th' = record (ts t) { nodes = nodes } in
      let P = λ (k : ℕ) (z : Core). IsCore (pri_of ts) (mode_of ts) z in
      record {
        cores = λ k.
            IsCore-same (put_same (λ th. th.curpri) ts t th' refl)
              (put_same (λ th. th.mode) ts t th' refl)
              (put_cases P zs n z'
                (record {
                  counted =
                      reordered-Counted (zs n).nr_readers (zs n).ids ids l (λ u. e (λ b. b == u))
                        c.counted;
                  hipri_owners = c.hipri_owners ∙ sym (e (pri_of ts));
                  hipri_requests = c.hipri_requests;
                  hipri_writes = c.hipri_writes;
                })
                (λ k d. v.cores k) k);
        queued = λ k u.
            subst (λ c. c ≤ may_wait (put ts t th' u) k)
              (sym (put_same (λ z. count u z.requestors) zs n z' refl k))
              (subst (λ c. count u (zs k).requestors ≤ c)
                (sym (put_same (λ th. may_wait th k) ts t th' refl u)) (v.queued k u));
        held = λ k u.
            put_same (λ z. count u z.ids) zs n z' (e (λ b. b == u)) k
            ∙ v.held k u
            ∙ sym (put_same (λ th. count k th.nodes) ts t th' (f (λ b. b == k)) u);
      }

pub move_lh-Sound :
    {asleep : ℕ → Bool} (w : World) (me new old n : ℕ)
    → Holds w old me n
    → Sound asleep w
    → Sound asleep (move_lh w me new old n)
unfolding move_lh unlink_object
move_lh-Sound w me new old n (o, l) v =
    let z = w.zlocks n in
    let s = w.stacks me in
    let z' = record z { owners = del_link old z.owners } in
    let s' = record s { locks = del_lock old s.locks } in
    let w1 = unlink_object w old me n in
    let linked = link_object w1 new me n in
    let nodes = lock_nodes (del_lock old s.locks) ++ n ∷ [] in
    let th' = record (thread s) { nodes = nodes } in
    signaled-Sound linked n new (is_signaled old z.owners) (
      to_sound linked (linked-zs (put_stack w me s') n z' new me)
        (linked-ts w1 n new me
          ∙ ap (λ (th : Thread). put (ts_of w1) me (grant_thread n th))
              (ap thread (put_at w.stacks me s'))
          ∙ ap (λ (f : ℕ → Thread). put f me th') (put_map thread w.stacks me s')
          ∙ put-put (ts_of w) me (thread s') th')
        (put-IsSystem v n me (record (core z) { ids = me ∷ owner_ids z'.owners }) th'
          (reorder-IsView v.view n me (me ∷ owner_ids z'.owners) nodes
            (del_link-length old me z.owners o) (λ p. del_link-count p old me z.owners o)
            (λ p.
              count_if-append p (lock_nodes (del_lock old s.locks)) (n ∷ [])
              ∙ omega (arith, del_lock-count p old n s.locks l)))
          refl refl refl))

pub copy_lh-Sound :
    {asleep : ℕ → Bool} (w : World) (me new old n : ℕ)
    → Holds w old me n
    → Sound asleep w
    → Sound asleep (copy_lh w me new old n)
unfolding copy_lh
copy_lh-Sound w me new old n (o, l) v =
    let z = w.zlocks n in
    let s = w.stacks me in
    let b = is_signaled old z.owners in
    let z1 = record z {
      nr_readers = copied z.nr_readers;
      nr_hipri_owners = if s.curpri then z.nr_hipri_owners + 1 else z.nr_hipri_owners;
    } in
    let s1 = if b then record s { nr_signaled = s.nr_signaled + 1 } else s in
    let w1 = put_stack (put_zlock w n z1) me s1 in
    let linked = link_object w1 new me n in
    let same : ts_of w1 ≡ ts_of w = fun_ext (
      put_same thread w.stacks me s1
        (if_cases (λ (a : Stack). thread a ≡ thread s) b (λ e. refl) (λ e. refl))) in
    signaled-Sound linked n new b (
      to_sound linked (linked-zs (put_stack w me s1) n z1 new me)
        (linked-ts w1 n new me ∙ ap (λ (f : ℕ → Thread). put f me (grant_thread n (f me))) same)
        (put-IsSystem v n me (grant_core (copied z.nr_readers) s.curpri me (core z))
          (grant_thread n (thread s))
          (grant-IsView v.view n me (copied z.nr_readers) (
            copied-Counted z.nr_readers (owner_ids z.owners) me (v.view.cores n).counted
              (ground (arith, del_link-count (λ b. b == me) old me z.owners o))))
          refl refl refl))
