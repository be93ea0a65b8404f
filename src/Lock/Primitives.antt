-- ===== src/Lock/Primitives.antt =====
-- The steps of lock.c that run under the guard of one node, or over the locks of one thread.
use reiser.Base.{
  ℕ, ◌+◌, ◌-◌, Bool, true, false, ◌&&◌, not, List, [], ◌∷◌, ◌++◌, if◌then◌else◌, ltb, ◌==◌, suc_ℤ,
  pred_ℤ, put,
}
use reiser.Lock.State.{
  Mode, no_lock, is_read, is_write, Answer, ok, einval, e_repeat, Link, Zlock, Stack, World,
  put_zlock, put_stack, can_be_rlocked, lock_mode_compatible, first_is,
}

abbrev pub signal_link : Link → Link
signal_link l = record l { signaled = true }

abbrev pub reiser4_wake_up : Stack → Stack
reiser4_wake_up s = record s { wakeup = true }

-- the owners that a signal still has to reach
unfoldable pub signal_owners : List Link → (ℕ → Stack) → ℕ → Stack
signal_owners [] stacks = stacks
signal_owners (l ∷ ls) stacks =
    let s = stacks l.owner in
    signal_owners ls (
      if l.signaled
      then stacks
      else put stacks l.owner (record s { nr_signaled = s.nr_signaled + 1; wakeup = true }))

abbrev pub signal_links : List Link → List Link
signal_links [] = []
signal_links (l ∷ ls) = signal_link l ∷ signal_links ls

unfoldable pub wake_up_all_lopri_owners : World → ℕ → World
unfolding signal_owners
wake_up_all_lopri_owners w n =
    let z = w.zlocks n in
    record {
      zlocks = put w.zlocks n (record z { owners = signal_links z.owners });
      stacks = signal_owners z.owners w.stacks;
    }

-- A handle goes to the end of the list of its stack and to the head of that of its node.
unfoldable pub link_object : World → (handle t n : ℕ) → World
link_object w handle t n =
    let z = w.zlocks n in
    let s = w.stacks t in
    let link : Link = record { handle = handle; owner = t; signaled = false } in
    record {
      zlocks = put w.zlocks n (record z { owners = link ∷ z.owners });
      stacks = put w.stacks t (record s { locks = s.locks ++ (handle, n) ∷ [] });
    }

-- `list_del` of the handle from either list
abbrev pub del_link : ℕ → List Link → List Link
del_link h [] = []
del_link h (l ∷ ls) = let rest = l ∷ del_link h ls in if l.handle == h then ls else rest

abbrev pub del_lock : ℕ → List (ℕ × ℕ) → List (ℕ × ℕ)
del_lock h [] = []
del_lock h ((k, n) ∷ ls) = let rest = (k, n) ∷ del_lock h ls in if k == h then ls else rest

unfoldable pub unlink_object : World → (handle t n : ℕ) → World
unlink_object w handle t n =
    let z = w.zlocks n in
    let s = w.stacks t in
    record {
      zlocks = put w.zlocks n (record z { owners = del_link handle z.owners });
      stacks = put w.stacks t (record s { locks = del_lock handle s.locks });
    }

-- `list_del(&requestor->requestors_link)`
abbrev pub del_requestor : ℕ → List ℕ → List ℕ
del_requestor t [] = []
del_requestor t (u ∷ us) = let rest = u ∷ del_requestor t us in if u == t then us else rest

-- The reader count and the priority of lock_object; link_object is the rest of it.
abbrev pub count_lock : Mode → Bool → Zlock → Zlock
count_lock mode curpri z = record z {
  nr_readers = if is_read mode then suc_ℤ z.nr_readers else pred_ℤ z.nr_readers;
  nr_hipri_owners = if curpri then z.nr_hipri_owners + 1 else z.nr_hipri_owners;
}

unfoldable pub lock_object : World → ℕ → World
unfolding link_object
lock_object w t =
    let s = w.stacks t in
    let n = s.request.node in
    link_object (put_zlock w n (count_lock s.request.mode s.curpri (w.zlocks n))) s.request.handle t
      n

-- Whether the first owner of the node is the thread that asks for it.
unfoldable pub recursive : World → ℕ → Bool
recursive w t = first_is t (w.zlocks (w.stacks t).request.node).owners

unfoldable pub check_deadlock_condition : Zlock → Bool
check_deadlock_condition z = ltb 0 z.nr_hipri_requests && z.nr_hipri_owners == 0

unfoldable pub check_livelock_condition : Zlock → Mode → Bool
check_livelock_condition z mode =
    is_read mode && can_be_rlocked z && ltb 0 z.nr_hipri_write_requests

unfoldable pub can_lock_object : World → ℕ → Answer
unfolding check_deadlock_condition check_livelock_condition lock_mode_compatible
can_lock_object w t =
    let s = w.stacks t in
    let z = w.zlocks s.request.node in
    if z.is_dying
    then einval
    else if not s.curpri && check_deadlock_condition z
    then e_repeat
    else if s.curpri && check_livelock_condition z s.request.mode
    then e_repeat
    else if not (lock_mode_compatible z s.request.mode)
    then e_repeat
    else ok

-- Clears the signal of a handle.
abbrev pub clear_signal : ℕ → List Link → List Link
clear_signal h [] = []
clear_signal h (l ∷ ls) =
    let rest = l ∷ clear_signal h ls in
    if l.handle == h then record l { signaled = false } ∷ ls else rest

-- the loop over the locks of a thread that becomes a high priority owner of their nodes
unfoldable pub raise_locks : List (ℕ × ℕ) → (ℕ → Zlock) → ℕ → Zlock
raise_locks [] zlocks = zlocks
raise_locks ((h, n) ∷ locks) zlocks =
    let z = zlocks n in
    raise_locks locks (
      put zlocks n
        (record z { nr_hipri_owners = z.nr_hipri_owners + 1; owners = clear_signal h z.owners }))

unfoldable pub set_high_priority : World → ℕ → World
unfolding raise_locks
set_high_priority w t =
    let s = w.stacks t in
    if s.curpri then w else record {
      zlocks = raise_locks s.locks w.zlocks;
      stacks = put w.stacks t (record s { curpri = true; nr_signaled = 0 });
    }

-- Sets the signal of a handle.
abbrev pub set_signal : ℕ → List Link → List Link
set_signal h [] = []
set_signal h (l ∷ ls) =
    let rest = l ∷ set_signal h ls in if l.handle == h then signal_link l ∷ ls else rest

abbrev pub is_signaled : ℕ → List Link → Bool
is_signaled h [] = false
is_signaled h (l ∷ ls) = let rest = is_signaled h ls in if l.handle == h then l.signaled else rest

-- one lock of a thread that becomes a low priority owner, and whether it is to be signaled
abbrev pub needs_signal : ℕ → Zlock → Bool
needs_signal h z = check_deadlock_condition z && not (is_signaled h z.owners)

abbrev pub lower_lock : ℕ → Zlock → Zlock
lower_lock h z =
    let z' = record z { nr_hipri_owners = z.nr_hipri_owners - 1 } in
    if needs_signal h z' then record z' { owners = set_signal h z'.owners } else z'

unfoldable pub lower_locks : List (ℕ × ℕ) → ℕ → (ℕ → Zlock) → ℕ × (ℕ → Zlock)
unfolding check_deadlock_condition
lower_locks [] nr_signaled zlocks = (nr_signaled, zlocks)
lower_locks ((h, n) ∷ locks) nr_signaled zlocks =
    let z = zlocks n in
    lower_locks locks
      (if needs_signal h (record z { nr_hipri_owners = z.nr_hipri_owners - 1 })
        then nr_signaled + 1
        else nr_signaled)
      (put zlocks n (lower_lock h z))

unfoldable pub set_low_priority : World → ℕ → World
unfolding lower_locks
set_low_priority w t =
    let s = w.stacks t in
    let (nr_signaled, zlocks) = lower_locks s.locks s.nr_signaled w.zlocks in
    if s.curpri
    then record {
      zlocks = zlocks;
      stacks = put w.stacks t (record s { curpri = false; nr_signaled = nr_signaled });
    }
    else w

-- The request that leaves the queue of its node.
abbrev pub uncount_request : Mode → Bool → Zlock → Zlock
uncount_request mode curpri z =
    if curpri
    then record z {
      nr_hipri_requests = z.nr_hipri_requests - 1;
      nr_hipri_write_requests =
          if is_write mode then z.nr_hipri_write_requests - 1 else z.nr_hipri_write_requests;
    }
    else z

unfoldable pub remove_lock_request : World → ℕ → World
remove_lock_request w t =
    let s = w.stacks t in
    let n = s.request.node in
    let z = uncount_request s.request.mode s.curpri (w.zlocks n) in
    put_zlock w n (record z { requestors = del_requestor t z.requestors })

-- The end of a request: its answer is set, its thread is woken, and its mode says that it is done.
unfoldable pub finish_request : World → ℕ → Answer → World
finish_request w t answer =
    let s = w.stacks t in
    put_stack w t
      (record s { request = record s.request { ret_code = answer; mode = no_lock }; wakeup = true })
