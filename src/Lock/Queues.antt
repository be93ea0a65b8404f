-- ===== src/Lock/Queues.antt =====
-- The requests in the queue of a node: those that are granted, and those of a node that dies.
use mathlib.Core.Path.{subst}
use reiser.Base.{
  ℕ, ◌≤◌, ◌≡◌, refl, sym, ap, ◌∙◌, Bool, List, [], ◌∷◌, if_cases, Bool-cases, inl, inr, ◌==◌,
  put_at, count, arith,
}
use reiser.Lock.State.{
  is_read, Answer, ok, einval, e_repeat, e_deadlock, capture_failed, World, znode_is_write_locked,
}
use reiser.Lock.Primitives.{
  lock_object, can_lock_object, del_requestor, remove_lock_request, finish_request,
}
use reiser.Lock.Longterm.{invalidate_requests, dispatch}
use reiser.Lock.View.{owner_ids, Core, Thread, zs_of, ts_of, put_same}
use reiser.Lock.Counting.{taken, del_requestor-count}
use reiser.Lock.ViewSteps.{grant_core, grant_thread}
use reiser.Lock.QueueSteps.{dequeue_core}
use reiser.Lock.System.{Sound, to_sound, finish-IsSystem}
use reiser.Lock.Effects.{lock_object-zs, lock_object-ts, remove_lock_request-zs, finish_request-ts}
use reiser.Lock.Requests.{lock_object-Sound, compatible-MayLock, can_lock_object-compatible}

-- Whether the threads of a list are in the queue of the node.
abbrev pub Left : World → ℕ → List ℕ → Type 0
Left w n us = (u : ℕ) → count u us ≤ count u (w.zlocks n).requestors

module _ {asleep : ℕ → Bool} (w : World) (v : Sound asleep w) where
  -- A thread in the queue of a node asks for the node.
  pub queued-node : (n t : ℕ) → 1 ≤ count t (w.zlocks n).requestors → (w.stacks t).request.node ≡ n
  queued-node n t h = elim (Bool-cases ((w.stacks t).request.node == n)) [
    | inl e ↦ ground arith
    | inr e ↦ absurd (ground (arith, e, v.view.queued n t))
  ]

  pub finish-Sound :
      (n t : ℕ) (answer : Answer)
      → 1 ≤ count t (w.zlocks n).requestors
      → Sound asleep (finish_request (remove_lock_request w t) t answer)
  unfolding remove_lock_request finish_request
  finish-Sound n t answer h =
      let node = queued-node n t h in
      to_sound (finish_request (remove_lock_request w t) t answer) (remove_lock_request-zs w t)
        (finish_request-ts (remove_lock_request w t) t answer)
        (finish-IsSystem v t (subst (λ k. 1 ≤ count t (w.zlocks k).requestors) (sym node) h))

pub finish-queue :
    (w : World) (n t : ℕ) (answer : Answer)
    → (w.stacks t).request.node ≡ n
    → ((finish_request (remove_lock_request w t) t answer).zlocks n).requestors
      ≡ del_requestor t (w.zlocks n).requestors
unfolding remove_lock_request finish_request
finish-queue w n t answer e =
    let at = (w.stacks t).request.node in
    let z' = dequeue_core (ts_of w t) t (zs_of w at) in
    subst
      (λ k.
        (zs_of (remove_lock_request w t) k).requestors ≡ del_requestor t (w.zlocks k).requestors)
      e
      (ap (λ (f : ℕ → Core). (f at).requestors) (remove_lock_request-zs w t)
        ∙ ap (λ (z : Core). z.requestors) (put_at (zs_of w) at z'))

finish-Left :
    (w : World) (n t : ℕ) (us : List ℕ) (answer : Answer)
    → (w.stacks t).request.node ≡ n
    → Left w n (t ∷ us)
    → Left (finish_request (remove_lock_request w t) t answer) n us
finish-Left w n t us answer e left u =
    let del =
      del_requestor-count (λ b. b == u) t (w.zlocks n).requestors (ground (arith, left t)) in
    subst (λ qs. count u us ≤ count u qs) (sym (finish-queue w n t answer e))
      (omega (arith, del, left u))

pub invalidate_requests-Sound :
    {asleep : ℕ → Bool} (us : List ℕ) (w : World) (n : ℕ)
    → Left w n us
    → Sound asleep w
    → Sound asleep (invalidate_requests us w)
unfolding invalidate_requests
invalidate_requests-Sound [] w n left v = v
invalidate_requests-Sound (t ∷ us) w n left v =
    let h : 1 ≤ count t (w.zlocks n).requestors = ground (arith, left t) in
    let e = queued-node w v n t h in
    invalidate_requests-Sound us (finish_request (remove_lock_request w t) t einval) n
      (finish-Left w n t us einval e left) (finish-Sound w v n t einval h)

granted-queue :
    (w : World) (t k : ℕ) → ((lock_object w t).zlocks k).requestors ≡ (w.zlocks k).requestors
granted-queue w t k =
    let s = w.stacks t in
    let n = s.request.node in
    let z' =
      grant_core (taken (is_read s.request.mode) (w.zlocks n).nr_readers) s.curpri t (zs_of w n) in
    ap (λ (f : ℕ → Core). (f k).requestors) (lock_object-zs w t)
    ∙ put_same (λ (z : Core). z.requestors) (zs_of w) n z' refl k

granted-node :
    (w : World) (t : ℕ) → ((lock_object w t).stacks t).request.node ≡ (w.stacks t).request.node
granted-node w t =
    let n = (w.stacks t).request.node in
    ap (λ (f : ℕ → Thread). (f t).node) (lock_object-ts w t)
    ∙ ap (λ (th : Thread). th.node) (put_at (ts_of w) t (grant_thread n (ts_of w t)))

-- One request that is granted.
granted-Sound :
    {asleep : ℕ → Bool} (w : World) (n t : ℕ) (us : List ℕ)
    → Left w n (t ∷ us)
    → Sound asleep w
    → can_lock_object w t ≡ ok
    → let w' = finish_request (remove_lock_request (lock_object w t) t) t ok in
      Sound asleep w' × Left w' n us
granted-Sound w n t us left v e =
    let s = w.stacks t in
    let z = w.zlocks s.request.node in
    let h : 1 ≤ count t (w.zlocks n).requestors = ground (arith, left t) in
    let locked = lock_object w t in
    let queue = granted-queue w t n in
    let left' : Left locked n (t ∷ us) =
      λ u. subst (λ qs. count u (t ∷ us) ≤ count u qs) (sym queue) (left u) in
    (
      finish-Sound locked
          (lock_object-Sound w t v (
            compatible-MayLock z s.request.mode (owner_ids z.owners) t
              (can_lock_object-compatible w t e)))
          n t ok (subst (λ qs. 1 ≤ count t qs) (sym queue) h),
      finish-Left locked n t us ok (granted-node w t ∙ queued-node w v n t h) left',
    )

pub dispatch-Sound :
    {asleep : ℕ → Bool} (us : List ℕ) (w : World) (me n : ℕ)
    → Left w n us
    → Sound asleep w
    → Sound asleep (dispatch me n us w)
unfolding dispatch
dispatch-Sound [] w me n left v = v
dispatch-Sound {asleep} (t ∷ us) w me n left v =
    let granted = finish_request (remove_lock_request (lock_object w t) t) t ok in
    let skipped = dispatch-Sound us w me n (λ u. omega (arith, left u)) v in
    if_cases (λ (w : World). Sound asleep w) (znode_is_write_locked (w.zlocks n) me) (λ d. v)
      (λ d.
        (elim (can_lock_object w t)
            as (λ (x : Answer).
              can_lock_object w t ≡ x
              → Sound asleep (dispatch me n us (elim x as (λ y. World) [ ok ↦ granted | _ ↦ w ]))) [
                | ok ↦ λ e.
                    let (v', left') = granted-Sound w n t us left v e in
                    dispatch-Sound us granted me n left' v'
                | einval ↦ λ e. skipped
                | e_repeat ↦ λ e. skipped
                | e_deadlock ↦ λ e. skipped
                | capture_failed k ↦ λ e. skipped
              ])
          refl)
