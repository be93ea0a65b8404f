-- ===== src/Lock/Effects.antt =====
-- What the steps of lock.c do to the view of the state that forgets handles and signals.
use mathlib.Core.Path.{subst, fun_ext}
use reiser.Base.{
  ℕ, ◌+◌, ◌≡◌, refl, sym, ap, ◌∙◌, true, false, List, [], ◌∷◌, ◌++◌, if◌then◌else◌, if_cases,
  Bool-cases, inl, inr, put, put_at, put_map, put-put,
}
use reiser.Lock.State.{no_lock, is_read, Answer, Link, Zlock, Stack, World, put_zlock}
use reiser.Lock.Primitives.{
  signal_owners, signal_links, wake_up_all_lopri_owners, link_object, count_lock, lock_object,
  uncount_request, del_requestor, remove_lock_request, finish_request,
}
use reiser.Lock.Counting.{taken}
use reiser.Lock.View.{
  owner_ids, lock_nodes, Core, core, Thread, thread, IsView, zs_of, ts_of, IsWorld, put_same,
}
use reiser.Lock.ViewSteps.{grant_core, grant_thread}
use reiser.Lock.QueueSteps.{dequeue_core}

pub to_world :
    (w : World) {zs : ℕ → Core} {ts : ℕ → Thread}
    → zs_of w ≡ zs
    → ts_of w ≡ ts
    → IsView zs ts
    → IsWorld w
to_world w {zs} {ts} e f v = subst (λ a. IsView a (ts_of w)) (sym e) (subst (IsView zs) (sym f) v)

signal_links-ids : (ls : List Link) → owner_ids (signal_links ls) ≡ owner_ids ls
signal_links-ids [] = refl
signal_links-ids (l ∷ ls) = ap (λ us. l.owner ∷ us) (signal_links-ids ls)

signal_owners-thread :
    (ls : List Link) (stacks : ℕ → Stack) (t : ℕ)
    → thread (signal_owners ls stacks t) ≡ thread (stacks t)
unfolding signal_owners
signal_owners-thread [] stacks t = refl
signal_owners-thread (l ∷ ls) stacks t =
    let s = stacks l.owner in
    let s' = record s { nr_signaled = s.nr_signaled + 1; wakeup = true } in
    signal_owners-thread ls (if l.signaled then stacks else put stacks l.owner s') t
    ∙ if_cases (λ (f : ℕ → Stack). thread (f t) ≡ thread (stacks t)) l.signaled (λ e. refl)
        (λ e. put_same thread stacks l.owner s' refl t)

pub wake_up-zs : (w : World) (n : ℕ) → zs_of (wake_up_all_lopri_owners w n) ≡ zs_of w
unfolding wake_up_all_lopri_owners
wake_up-zs w n =
    let z = w.zlocks n in
    fun_ext (
      put_same core w.zlocks n (record z { owners = signal_links z.owners })
        (ap (λ (us : List ℕ). record (core z) { ids = us }) (signal_links-ids z.owners)))

pub wake_up-ts : (w : World) (n : ℕ) → ts_of (wake_up_all_lopri_owners w n) ≡ ts_of w
unfolding wake_up_all_lopri_owners
wake_up-ts w n = fun_ext (signal_owners-thread (w.zlocks n).owners w.stacks)

pub lock_nodes-append :
    (ls : List (ℕ × ℕ)) (h n : ℕ) → lock_nodes (ls ++ (h, n) ∷ []) ≡ lock_nodes ls ++ n ∷ []
lock_nodes-append [] h n = refl
lock_nodes-append ((k, m) ∷ ls) h n = ap (λ us. m ∷ us) (lock_nodes-append ls h n)

-- The node after a link is as if the counters and the list changed at once.
pub linked-zs :
    (w : World) (n : ℕ) (z : Zlock) (h t : ℕ)
    → zs_of (link_object (put_zlock w n z) h t n)
      ≡ put (zs_of w) n (record (core z) { ids = t ∷ owner_ids z.owners })
unfolding link_object
linked-zs w n z h t =
    let link : Link = record { handle = h; owner = t; signaled = false } in
    let add = λ (z : Zlock). record z { owners = link ∷ z.owners } in
    let cores : (ℕ → Zlock) → ℕ → Core = λ f k. core (f k) in
    ap cores (
      ap (λ (a : Zlock). put (put w.zlocks n z) n (add a)) (put_at w.zlocks n z)
      ∙ put-put w.zlocks n z (add z))
    ∙ put_map core w.zlocks n (add z)

pub linked-ts :
    (w : World) (n : ℕ) (h t : ℕ)
    → ts_of (link_object w h t n) ≡ put (ts_of w) t (grant_thread n (ts_of w t))
unfolding link_object
linked-ts w n h t =
    let s = w.stacks t in
    put_map thread w.stacks t (record s { locks = s.locks ++ (h, n) ∷ [] })
    ∙ ap (λ (us : List ℕ). put (ts_of w) t (record (ts_of w t) { nodes = us }))
        (lock_nodes-append s.locks h n)

pub lock_object-zs :
    (w : World) (t : ℕ)
    → let s = w.stacks t in
      let n = s.request.node in
      zs_of (lock_object w t)
      ≡ put (zs_of w) n (
          grant_core
            (taken (is_read s.request.mode) (w.zlocks n).nr_readers)
            s.curpri
            t
            (zs_of w n))
unfolding lock_object
lock_object-zs w t =
    let s = w.stacks t in
    let n = s.request.node in
    linked-zs w n (count_lock s.request.mode s.curpri (w.zlocks n)) s.request.handle t

pub lock_object-ts :
    (w : World) (t : ℕ)
    → ts_of (lock_object w t) ≡ put (ts_of w) t (grant_thread (w.stacks t).request.node (ts_of w t))
unfolding lock_object
lock_object-ts w t =
    let s = w.stacks t in
    let n = s.request.node in
    linked-ts (put_zlock w n (count_lock s.request.mode s.curpri (w.zlocks n))) n s.request.handle t

uncount-core :
    (z : Zlock) (s : Stack) (t : ℕ)
    → let z' = uncount_request s.request.mode s.curpri z in
      core (record z' { requestors = del_requestor t z'.requestors })
      ≡ dequeue_core (thread s) t (core z)
uncount-core z s t = elim (Bool-cases s.curpri) [ inl e ↦ rw e | inr e ↦ rw e ]

pub remove_lock_request-zs :
    (w : World) (t : ℕ)
    → let n = (w.stacks t).request.node in
      zs_of (remove_lock_request w t) ≡ put (zs_of w) n (dequeue_core (ts_of w t) t (zs_of w n))
unfolding remove_lock_request
remove_lock_request-zs w t =
    let s = w.stacks t in
    let n = s.request.node in
    let z = uncount_request s.request.mode s.curpri (w.zlocks n) in
    put_map core w.zlocks n (record z { requestors = del_requestor t z.requestors })
    ∙ ap (λ (c : Core). put (zs_of w) n c) (uncount-core (w.zlocks n) s t)

pub finish_request-ts :
    (w : World) (t : ℕ) (answer : Answer)
    → ts_of (finish_request w t answer) ≡ put (ts_of w) t (record (ts_of w t) { mode = no_lock })
unfolding finish_request
finish_request-ts w t answer =
    let s = w.stacks t in
    put_map thread w.stacks t
      (record s { request = record s.request { ret_code = answer; mode = no_lock }; wakeup = true })
