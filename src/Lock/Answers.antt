-- ===== src/Lock/Answers.antt =====
-- What the threads that wait for a node are told, and what they have then.
use mathlib.Core.Path.{subst}
use reiser.Base.{
  ℕ, ◌≤◌, ◌<◌, ◌≡◌, refl, ap, ◌∙◌, Bool, true, false, none, some, List, [], ◌∷◌, ◌++◌, if_cases,
  Bool-cases, inl, inr, ◌==◌, put_at, count, arith,
}
use reiser.Lock.State.{
  no_lock, Answer, ok, einval, e_repeat, e_deadlock, capture_failed, Stack, World,
  znode_is_write_locked,
}
use reiser.Lock.Primitives.{
  link_object, lock_object, can_lock_object, del_requestor, remove_lock_request, finish_request,
}
use reiser.Lock.Longterm.{
  invalidate_requests, invalidate_all_lock_requests, dispatch, dispatch_lock_requests,
}
use reiser.Lock.System.{Sound}
use reiser.Lock.Queues.{queued-node, finish-Sound, finish-queue}
use reiser.Lock.Handles.{Holds, node_of}

node_of-append :
    (h n : ℕ) (ls : List (ℕ × ℕ)) → node_of h ls ≡ none → node_of h (ls ++ (h, n) ∷ []) ≡ some n
node_of-append h n [] e = ground arith
node_of-append h n ((k, m) ∷ ls) e = elim (Bool-cases (k == h)) [
  | inl d ↦ absurd (ground (arith, e, d))
  | inr d ↦ ground (arith, d, node_of-append h n ls (ground (arith, e, d)))
]

lock_object-Holds :
    (w : World) (t : ℕ)
    → let request = (w.stacks t).request in
      node_of request.handle (w.stacks t).locks ≡ none
      → Holds (lock_object w t) request.handle t request.node
unfolding lock_object link_object
lock_object-Holds w t e =
    let request = (w.stacks t).request in
    let at_node : (request.node == request.node) ≡ true = ground arith in
    let at_thread : (t == t) ≡ true = ground arith in
    let at_handle : (request.handle == request.handle) ≡ true = ground arith in
    (
      rw (at_node, at_handle),
      rw (at_thread, node_of-append request.handle request.node (w.stacks t).locks e),
    )

-- The request of a thread is done, and the thread is woken.
abbrev pub IsAnswered : World → ℕ → Answer → Type 0
IsAnswered w t answer =
    ((w.stacks t).request.mode ≡ no_lock)
    × ((w.stacks t).request.ret_code ≡ answer)
    × ((w.stacks t).wakeup ≡ true)

finish-IsAnswered :
    (w : World) (t : ℕ) (answer : Answer) → IsAnswered (finish_request w t answer) t answer
unfolding finish_request
finish-IsAnswered w t answer =
    let s = w.stacks t in
    let s' = record s {
      request = record s.request { ret_code = answer; mode = no_lock };
      wakeup = true;
    } in
    let e = put_at w.stacks t s' in
    (
      ap (λ (s : Stack). s.request.mode) e,
      ap (λ (s : Stack). s.request.ret_code) e,
      ap (λ (s : Stack). s.wakeup) e,
    )

-- The end of a request is seen by its thread only.
other-finish :
    (w : World) (t u : ℕ) (answer : Answer)
    → (u == t) ≡ false
    → (finish_request (remove_lock_request w t) t answer).stacks u ≡ w.stacks u
unfolding finish_request remove_lock_request
other-finish w t u answer e = rw e

other-granted :
    (w : World) (t u : ℕ)
    → (u == t) ≡ false
    → (finish_request (remove_lock_request (lock_object w t) t) t ok).stacks u ≡ w.stacks u
unfolding finish_request remove_lock_request lock_object link_object
other-granted w t u e = rw e

dispatch-other :
    (us : List ℕ) (w : World) (me n t : ℕ)
    → count t us ≡ 0
    → (dispatch me n us w).stacks t ≡ w.stacks t
unfolding dispatch
dispatch-other [] w me n t h = refl
dispatch-other (u ∷ us) w me n t h =
    let granted = finish_request (remove_lock_request (lock_object w u) u) u ok in
    let skipped = dispatch-other us w me n t (omega (arith, h)) in
    if_cases (λ (w' : World). w'.stacks t ≡ w.stacks t) (znode_is_write_locked (w.zlocks n) me)
      (λ d. refl)
      (λ d.
        elim (can_lock_object w u)
          as (λ (x : Answer).
            (dispatch me n us (elim x as (λ y. World) [ ok ↦ granted | _ ↦ w ])).stacks t
            ≡ w.stacks t) [
              | ok ↦
                  dispatch-other us granted me n t (omega (arith, h))
                  ∙ other-granted w u t (ground (arith, h))
              | einval ↦ skipped
              | e_repeat ↦ skipped
              | e_deadlock ↦ skipped
              | capture_failed k ↦ skipped
            ])

invalidate-other :
    (us : List ℕ) (w : World) (t : ℕ)
    → count t us ≡ 0
    → (invalidate_requests us w).stacks t ≡ w.stacks t
unfolding invalidate_requests
invalidate-other [] w t h = refl
invalidate-other (u ∷ us) w t h =
    invalidate-other us (finish_request (remove_lock_request w u) u einval) t (omega arith)
    ∙ other-finish w u t einval (ground arith)

dispatch-granted :
    (w : World) (me n t : ℕ) (us : List ℕ)
    → znode_is_write_locked (w.zlocks n) me ≡ false
    → can_lock_object w t ≡ ok
    → dispatch me n (t ∷ us) w
      ≡ dispatch me n us (finish_request (remove_lock_request (lock_object w t) t) t ok)
unfolding dispatch
dispatch-granted w me n t us free e =
    let granted = finish_request (remove_lock_request (lock_object w t) t) t ok in
    if_cases (λ (w' : World). w' ≡ dispatch me n us granted) (znode_is_write_locked (w.zlocks n) me)
      (λ d. absurd (ground (arith, d, free)))
      (λ d.
        ap (λ (x : Answer). dispatch me n us (elim x as (λ y. World) [ ok ↦ granted | _ ↦ w ])) e)

finish-locks :
    (w : World) (t : ℕ) (answer : Answer)
    → ((finish_request (remove_lock_request w t) t answer).stacks t).locks ≡ (w.stacks t).locks
unfolding finish_request remove_lock_request
finish-locks w t answer = let e : (t == t) ≡ true = ground arith in rw e

-- In a state that is sound (IsSound), the first request of the queue of a node, if it may lock the
-- node with a handle that its thread does not use yet, and if the thread that dispatches does not
-- hold the node for writing, is answered with success, its thread is woken, and its handle is among
-- the locks of its thread.
pub dispatch_first :
    {asleep : ℕ → Bool} (w : World) (me n t : ℕ) (us : List ℕ)
    → Sound asleep w
    → (w.zlocks n).requestors ≡ t ∷ us
    → znode_is_write_locked (w.zlocks n) me ≡ false
    → can_lock_object w t ≡ ok
    → node_of (w.stacks t).request.handle (w.stacks t).locks ≡ none
    → let w' = dispatch_lock_requests w me n in
      IsAnswered w' t ok × (node_of (w.stacks t).request.handle (w'.stacks t).locks ≡ some n)
unfolding dispatch_lock_requests
dispatch_first w me n t us v queue free e fresh =
    let locked = lock_object w t in
    let granted = finish_request (remove_lock_request locked t) t ok in
    let once : count t us ≡ 0 = ground (arith, ap (count t) queue, v.view.queued n t) in
    let same : (dispatch me n us granted).stacks t ≡ granted.stacks t =
      dispatch-other us granted me n t once in
    let whole : dispatch me n (w.zlocks n).requestors w ≡ dispatch me n us granted =
      ap (λ qs. dispatch me n qs w) queue ∙ dispatch-granted w me n t us free e in
    let all : (dispatch_lock_requests w me n).stacks t ≡ granted.stacks t =
      ap (λ (w' : World). w'.stacks t) whole ∙ same in
    let done = finish-IsAnswered (remove_lock_request locked t) t ok in
    (
      (
        ap (λ (s : Stack). s.request.mode) all ∙ done.0,
        ap (λ (s : Stack). s.request.ret_code) all ∙ done.1,
        ap (λ (s : Stack). s.wakeup) all ∙ done.2,
      ),
      ap (λ (s : Stack). node_of (w.stacks t).request.handle s.locks) all
          ∙ ap (node_of (w.stacks t).request.handle) (finish-locks locked t ok)
          ∙ (lock_object-Holds w t fresh).1
          ∙ ap some (queued-node w v n t (ground (arith, ap (count t) queue))),
    )

invalidate-empty :
    {asleep : ℕ → Bool} (us : List ℕ) (w : World) (n : ℕ)
    → Sound asleep w
    → (w.zlocks n).requestors ≡ us
    → ((invalidate_requests us w).zlocks n).requestors ≡ []
unfolding invalidate_requests
invalidate-empty [] w n v e = e
invalidate-empty (t ∷ us) w n v e =
    let h : 1 ≤ count t (w.zlocks n).requestors = ground (arith, ap (count t) e) in
    let self : (t == t) ≡ true = ground arith in
    let first : del_requestor t (t ∷ us) ≡ us = (rw self) in
    invalidate-empty us (finish_request (remove_lock_request w t) t einval) n
      (finish-Sound w v n t einval h)
      (finish-queue w n t einval (queued-node w v n t h) ∙ ap (del_requestor t) e ∙ first)

invalidate-each :
    (us : List ℕ) (w : World) (t : ℕ)
    → count t us ≡ 1
    → IsAnswered (invalidate_requests us w) t einval
unfolding invalidate_requests
invalidate-each [] w t h = absurd (omega (arith, h))
invalidate-each (u ∷ us) w t h =
    let w' = finish_request (remove_lock_request w u) u einval in
    elim (Bool-cases (u == t)) [
      | inl d ↦
          let all = invalidate-other us w' t (ground (arith, h, d)) in
          let done : IsAnswered w' t einval =
            subst (λ k. IsAnswered (finish_request (remove_lock_request w k) k einval) t einval)
              {x = t} {y = u} (ground arith)
              (finish-IsAnswered (remove_lock_request w t) t einval) in
          (
            ap (λ (s : Stack). s.request.mode) all ∙ done.0,
            ap (λ (s : Stack). s.request.ret_code) all ∙ done.1,
            ap (λ (s : Stack). s.wakeup) all ∙ done.2,
          )
      | inr d ↦ invalidate-each us w' t (ground (arith, h, d))
    ]

-- In a state that is sound (IsSound), when all the requests for a node are invalidated, its queue
-- becomes empty, and each thread that was in it is woken and told that the node is invalid.
pub invalidate_all :
    {asleep : ℕ → Bool} (w : World) (n t : ℕ)
    → Sound asleep w
    → 0 < count t (w.zlocks n).requestors
    → let w' = invalidate_all_lock_requests w n in
      IsAnswered w' t einval × ((w'.zlocks n).requestors ≡ [])
unfolding invalidate_all_lock_requests
invalidate_all w n t v h = (
  invalidate-each (w.zlocks n).requestors w t (ground (arith, h, v.view.queued n t)),
  invalidate-empty (w.zlocks n).requestors w n v refl,
)
