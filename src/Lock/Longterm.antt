-- ===== src/Lock/Longterm.antt =====
-- Taking and releasing a long term lock: longterm_lock_znode, longterm_unlock_znode,
-- reiser4_invalidate_lock, move_lh and copy_lh. Each function is what runs between two points where
-- the guard of the node is free or the thread sleeps. `me` is the current thread.
use reiser.Base.{
  ℕ, zero, suc, ◌+◌, ◌-◌, Bool, true, false, ◌&&◌, List, [], ◌∷◌, if◌then◌else◌, ◌==◌, pos, negsuc,
  suc_ℤ, ℤ, ◌++◌,
}
use reiser.Lock.State.{
  Mode, no_lock, is_no_lock, is_write, Answer, ok, einval, e_repeat, e_deadlock, Stack, World,
  put_zlock, put_stack, is_locked, is_wlocked, is_wlocked_once, znode_is_write_locked,
}
use reiser.Lock.Primitives.{
  wake_up_all_lopri_owners, link_object, unlink_object, lock_object, recursive,
  check_deadlock_condition, can_lock_object, set_high_priority, set_low_priority,
  remove_lock_request, finish_request, is_signaled, set_signal,
}

unfoldable pub invalidate_requests : List ℕ → World → World
unfolding remove_lock_request finish_request
invalidate_requests [] w = w
invalidate_requests (t ∷ ts) w =
    invalidate_requests ts (finish_request (remove_lock_request w t) t einval)

unfoldable pub invalidate_all_lock_requests : World → ℕ → World
unfolding invalidate_requests
invalidate_all_lock_requests w n = invalidate_requests (w.zlocks n).requestors w

-- The loop over the requestors of node `n`, those that are left.
unfoldable pub dispatch : ℕ → ℕ → List ℕ → World → World
unfolding znode_is_write_locked can_lock_object lock_object remove_lock_request finish_request
dispatch me n [] w = w
dispatch me n (t ∷ ts) w =
    let granted = finish_request (remove_lock_request (lock_object w t) t) t ok in
    let rest = dispatch me n ts (elim (can_lock_object w t) [ ok ↦ granted | _ ↦ w ]) in
    if znode_is_write_locked (w.zlocks n) me then w else rest

unfoldable pub dispatch_lock_requests : World → (me n : ℕ) → World
unfolding dispatch
dispatch_lock_requests w me n = dispatch me n (w.zlocks n).requestors w

abbrev pub drop_signal : Bool → Stack → Stack
drop_signal signaled s = if signaled then record s { nr_signaled = s.nr_signaled - 1 } else s

-- `handle` is on the node `n`.
unfoldable pub invalidate_lock : World → (me handle n : ℕ) → World
unfolding unlink_object invalidate_all_lock_requests
invalidate_lock w me handle n =
    let signaled = is_signaled handle (w.zlocks n).owners in
    let w1 = put_stack w me (drop_signal signaled (w.stacks me)) in
    let w2 = put_zlock w1 n (record (w1.zlocks n) { is_dying = true }) in
    let w3 = unlink_object w2 handle me n in
    invalidate_all_lock_requests (put_zlock w3 n (record (w3.zlocks n) { nr_readers = pos 0 })) n

-- What a release adds to the readers: -1 for a read lock, +1 otherwise.
abbrev pub released : ℤ → ℤ
released (pos zero) = pos 1
released (pos (suc k)) = pos k
released (negsuc k) = suc_ℤ (negsuc k)

-- What a copy of a handle adds: the opposite.
abbrev pub copied : ℤ → ℤ
copied (pos zero) = negsuc 0
copied (pos (suc k)) = pos (suc (suc k))
copied (negsuc k) = negsuc (suc k)

-- The release of the lock itself: the counters and the two lists.
unfoldable pub release_lock : World → (me handle n : ℕ) → World
unfolding unlink_object
release_lock w me handle n =
    let z = w.zlocks n in
    let signaled = is_signaled handle z.owners in
    let w1 = put_stack w me (drop_signal signaled (w.stacks me)) in
    let w2 = unlink_object w1 handle me n in
    let z' = w2.zlocks n in put_zlock w2 n (record z' { nr_readers = released z.nr_readers })

-- The signals to the low priority owners, if the deadlock condition holds.
unfoldable pub signal_deadlock : World → ℕ → World
unfolding check_deadlock_condition wake_up_all_lopri_owners
signal_deadlock w n =
    if check_deadlock_condition (w.zlocks n) then wake_up_all_lopri_owners w n else w

-- forget_znode (tree.c) takes the node out of the tree and invalidates its lock.
unfoldable pub longterm_unlock_znode : World → (me handle n : ℕ) → World
unfolding invalidate_lock release_lock dispatch_lock_requests signal_deadlock
longterm_unlock_znode w me handle n =
    let hipri = (w.stacks me).curpri in
    let z = w.zlocks n in
    let w1 =
      put_zlock w n (record z {
        nr_hipri_owners = if hipri then z.nr_hipri_owners - 1 else z.nr_hipri_owners;
      }) in
    let w2 = release_lock w1 me handle n in
    let w3 = if is_wlocked (w2.zlocks n) then w2 else dispatch_lock_requests w2 me n in
    if is_wlocked_once z && z.heard_banshee
    then invalidate_lock w1 me handle n
    else signal_deadlock w3 n

-- The answer of a call, or that the thread sleeps.
pub data Outcome : Type 0 where
  returns : Answer → Outcome
  sleeps : Outcome
  -- go on in the loop of longterm_lock_znode
  loops : Outcome

abbrev pub set_mode : World → ℕ → Mode → World
set_mode w me mode =
    let s = w.stacks me in put_stack w me (record s { request = record s.request { mode = mode } })

unfoldable pub lock_tail : World → ℕ → Answer → Outcome × World
unfolding lock_object
lock_tail w me ok = (returns ok, set_mode (lock_object w me) me no_lock)
lock_tail w me answer = (returns answer, w)

-- longterm_lock_znode up to its first wait: the priority, the request, and a recursive write lock.
unfoldable pub lock_begin : World → (me handle n : ℕ) → Mode → (hipri : Bool) → World
unfolding set_high_priority set_low_priority
lock_begin w me handle n mode hipri =
    let w1 = if hipri then set_high_priority w me else set_low_priority w me in
    let s = w1.stacks me in
    put_stack w1 me
      (record s { request = record s.request { mode = mode; handle = handle; node = n } })

unfoldable pub lock_recursive : World → ℕ → Outcome × World
unfolding lock_tail recursive
lock_recursive w me =
    let request = (w.stacks me).request in
    if is_locked (w.zlocks request.node) && is_write request.mode && recursive w me
    then lock_tail w me ok
    else (loops, w)

-- The test before the node is captured.
unfoldable pub first_test : World → (me : ℕ) → (non_blocking : Bool) → Outcome × World
unfolding can_lock_object
first_test w me non_blocking = elim (can_lock_object w me) [
  | einval ↦ (returns einval, w)
  | e_repeat ↦ if non_blocking then (returns e_repeat, w) else (loops, w)
  | other ↦ (loops, w)
]

unfoldable pub prepare_to_sleep : Stack → Answer
prepare_to_sleep s = if s.nr_signaled == 0 then ok else e_deadlock

-- The request joins the queue of its node.
unfoldable pub enqueue_request : World → ℕ → (hipri : Bool) → World
unfolding wake_up_all_lopri_owners
enqueue_request w me hipri =
    let request = (w.stacks me).request in
    let n = request.node in
    let z = w.zlocks n in
    let counted = record z {
      nr_hipri_requests = z.nr_hipri_requests + 1;
      nr_hipri_write_requests =
          if is_write request.mode
          then z.nr_hipri_write_requests + 1
          else z.nr_hipri_write_requests;
    } in
    let w1 = put_zlock w n counted in
    let w2 = if z.nr_hipri_owners == 0 then wake_up_all_lopri_owners w1 n else w1 in
    let w3 = if hipri then w2 else w in
    put_zlock w3 n (record (w3.zlocks n) { requestors = (w3.zlocks n).requestors ++ me ∷ [] })

-- What follows the capture of the node, up to the return or the sleep. `captured` is what
-- reiser4_try_capture returned; where the node was in the atom already it is not called and 0 stands
-- for it.
unfoldable pub lock_captured : World → ℕ → (hipri non_blocking : Bool) → Answer → Outcome × World
unfolding lock_tail can_lock_object prepare_to_sleep enqueue_request
lock_captured w me hipri non_blocking ok = elim (can_lock_object w me) [
  | e_repeat ↦
      if non_blocking then (returns e_repeat, w) else elim (prepare_to_sleep (w.stacks me)) [
        | ok ↦ (sleeps, enqueue_request w me hipri)
        | answer ↦ (returns answer, w)
      ]
  | answer ↦ lock_tail w me answer
]
lock_captured w me hipri non_blocking answer = (returns answer, set_mode w me no_lock)

-- What a thread does when it wakes up: its request is done, or it is removed and the loop goes on.
unfoldable pub lock_resume : World → ℕ → Outcome × World
unfolding remove_lock_request
lock_resume w me =
    let s = w.stacks me in
    let w1 = put_stack w me (record s { wakeup = false }) in
    if is_no_lock s.request.mode
    then (returns s.request.ret_code, w1)
    else (loops, remove_lock_request w1 me)

-- The read lock without flags, behind the capture of the node: 1 is `loops`.
unfoldable pub tryfast_captured : World → ℕ → Answer → Outcome × World
unfolding lock_tail can_lock_object
tryfast_captured w me ok = elim (can_lock_object w me) [
  | e_repeat ↦ (loops, w)
  | answer ↦ lock_tail w me answer
]
tryfast_captured w me answer = (returns answer, set_mode w me no_lock)

-- move_lh, from `old` to `new`
unfoldable pub move_lh : World → (me new old n : ℕ) → World
unfolding unlink_object link_object
move_lh w me new old n =
    let signaled = is_signaled old (w.zlocks n).owners in
    let w1 = link_object (unlink_object w old me n) new me n in
    let z = w1.zlocks n in
    if signaled then put_zlock w1 n (record z { owners = set_signal new z.owners }) else w1

unfoldable pub copy_lh : World → (me new old n : ℕ) → World
unfolding link_object
copy_lh w me new old n =
    let z = w.zlocks n in
    let s = w.stacks me in
    let signaled = is_signaled old z.owners in
    let z1 = record z {
      nr_readers = copied z.nr_readers;
      nr_hipri_owners = if s.curpri then z.nr_hipri_owners + 1 else z.nr_hipri_owners;
    } in
    let s1 = if signaled then record s { nr_signaled = s.nr_signaled + 1 } else s in
    let w1 = put_stack (put_zlock w n z1) me s1 in
    let w2 = link_object w1 new me n in
    let z2 = w2.zlocks n in
    if signaled then put_zlock w2 n (record z2 { owners = set_signal new z2.owners }) else w2
