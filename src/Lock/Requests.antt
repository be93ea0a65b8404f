-- ===== src/Lock/Requests.antt =====
-- The priority and the request of a thread, and when it may lock a node.
use reiser.Base.{
  ℕ, ◌≡◌, refl, sym, ap, ◌∙◌, Bool, true, false, List, [], ◌∷◌, if_cases, Bool-cases, inl, inr,
  ◌==◌, ◌<◌, ℤ, pos, negsuc, put, put_ne, put_map, count, arith,
}
use reiser.Lock.State.{
  Mode, no_lock, read_lock, write_lock, is_read, is_write, ok, Link, Zlock, Stack, World, put_stack,
  is_wlocked, lock_mode_compatible, first_is,
}
use reiser.Lock.Primitives.{
  lock_object, can_lock_object, raise_locks, set_high_priority, lower_locks, set_low_priority,
}
use reiser.Lock.View.{Counted, owner_ids, Core, core, Thread, thread, zs_of, ts_of, put_same}
use reiser.Lock.Counting.{MayLock, taken, taken-Counted, all_of}
use reiser.Lock.ViewSteps.{grant_core, grant_thread, grant-IsView}
use reiser.Lock.QueueSteps.{request-IsView}
use reiser.Lock.PrioritySteps.{raise-IsView, lower-IsView}
use reiser.Lock.System.{Sound, to_sound, same-IsSystem, put-IsSystem}
use reiser.Lock.Effects.{lock_object-zs, lock_object-ts}
use reiser.Lock.Handles.{raise_locks-core, lower_locks-core}

module _ {asleep : ℕ → Bool} (w : World) (me : ℕ) (v : Sound asleep w) where
  pub set_high_priority-Sound : asleep me ≡ false → Sound asleep (set_high_priority w me)
  unfolding set_high_priority
  set_high_priority-Sound a =
      let s = w.stacks me in
      let s' = record s { curpri = true; nr_signaled = 0 } in
      let zlocks = raise_locks s.locks w.zlocks in
      let w' : World = record { zlocks = zlocks; stacks = put w.stacks me s' } in
      if_cases (λ (w : World). Sound asleep w) s.curpri (λ e. v)
        (λ e. to_sound w' refl (put_map thread w.stacks me s') (
          same-IsSystem v
            (raise-IsView v.view me (zs_of w') (v.awake me a) e (raise_locks-core s.locks w.zlocks))
            (λ k. ap (λ (z : Core). z.requestors) (raise_locks-core s.locks w.zlocks k))
            (λ u b. put_same (λ (th : Thread). th.mode) (ts_of w) me (thread s') refl u)
            (λ u b. put_same (λ (th : Thread). th.node) (ts_of w) me (thread s') refl u)))

  pub set_low_priority-Sound : asleep me ≡ false → Sound asleep (set_low_priority w me)
  unfolding set_low_priority
  set_low_priority-Sound a =
      let s = w.stacks me in
      let lowered = lower_locks s.locks s.nr_signaled w.zlocks in
      let s' = record s { curpri = false; nr_signaled = lowered.0 } in
      let w' : World = record { zlocks = lowered.1; stacks = put w.stacks me s' } in
      if_cases (λ (w : World). Sound asleep w) s.curpri
        (λ e. to_sound w' refl (put_map thread w.stacks me s') (
          same-IsSystem v
            (lower-IsView v.view me (zs_of w') (v.awake me a) e
              (lower_locks-core s.locks s.nr_signaled w.zlocks))
            (λ k.
              ap (λ (z : Core). z.requestors) (lower_locks-core s.locks s.nr_signaled w.zlocks k))
            (λ u b. put_same (λ (th : Thread). th.mode) (ts_of w) me (thread s') refl u)
            (λ u b. put_same (λ (th : Thread). th.node) (ts_of w) me (thread s') refl u)))
        (λ e. v)

  -- A thread that does not sleep changes its request.
  pub request-Sound :
      (s' : Stack) (node : ℕ) (mode : Mode)
      → asleep me ≡ false
      → thread s' ≡ record (ts_of w me) { node = node; mode = mode }
      → Sound asleep (put_stack w me s')
  request-Sound s' node mode a e =
      let th' = record (ts_of w me) { node = node; mode = mode } in
      let other = λ (u : ℕ) (b : asleep u ≡ true).
        put_ne (ts_of w) me th' u (elim (Bool-cases (u == me)) [
          | inl d ↦ absurd (ground (arith, a, b, ap asleep {x = u} {y = me} (ground arith)))
          | inr d ↦ d
        ]) in
      to_sound (put_stack w me s') refl
        (put_map thread w.stacks me s' ∙ ap (λ (th : Thread). put (ts_of w) me th) e)
        (same-IsSystem v (request-IsView v.view me node mode (v.awake me a)) (λ k. refl)
          (λ u b. ap (λ (th : Thread). th.mode) (other u b))
          (λ u b. ap (λ (th : Thread). th.node) (other u b)))

  -- The thread locks the node that it asks for.
  pub lock_object-Sound :
      let s = w.stacks me in
      let z = w.zlocks s.request.node in
      MayLock (is_read s.request.mode) z.nr_readers (owner_ids z.owners) me
      → Sound asleep (lock_object w me)
  lock_object-Sound m =
      let s = w.stacks me in
      let n = s.request.node in
      let z = w.zlocks n in
      let r = taken (is_read s.request.mode) z.nr_readers in
      to_sound (lock_object w me) (lock_object-zs w me) (lock_object-ts w me) (
        put-IsSystem v n me (grant_core r s.curpri me (core z)) (grant_thread n (thread s))
          (grant-IsView v.view n me r (
            taken-Counted (is_read s.request.mode) z.nr_readers (owner_ids z.owners) me
              (v.view.cores n).counted m))
          refl refl refl)

readers-MayLock :
    (z : Zlock) (r : ℤ) (mode : Mode) (ids : List ℕ) (t : ℕ)
    → lock_mode_compatible (record z { nr_readers = r }) mode ≡ true
    → MayLock (is_read mode) r ids t
unfolding lock_mode_compatible
readers-MayLock z (pos n) read_lock ids t e = tt
readers-MayLock z (pos n) write_lock ids t e = ground (arith, e)
readers-MayLock z (negsuc n) read_lock ids t e = absurd (ground (arith, e))
readers-MayLock z (negsuc n) write_lock ids t e = absurd (ground (arith, e))
readers-MayLock z r no_lock ids t e = absurd (ground (arith, e))

-- What can_lock_object grants keeps readers and writers apart.
pub compatible-MayLock :
    (z : Zlock) (mode : Mode) (ids : List ℕ) (t : ℕ)
    → lock_mode_compatible z mode ≡ true
    → MayLock (is_read mode) z.nr_readers ids t
unfolding lock_mode_compatible
compatible-MayLock z mode ids t e = readers-MayLock z z.nr_readers mode ids t e

pub can_lock_object-compatible :
    (w : World) (t : ℕ)
    → can_lock_object w t ≡ ok
    → lock_mode_compatible (w.zlocks (w.stacks t).request.node) (w.stacks t).request.mode ≡ true
unfolding can_lock_object
can_lock_object-compatible w t e = ground (arith, e)

-- A thread that is the first owner of a write locked node holds all its handles.
pub recursive-MayLock :
    (z : Zlock) (r : ℤ) (mode : Mode) (me : ℕ) (ls : List Link)
    → is_write mode ≡ true
    → first_is me ls ≡ true
    → is_wlocked (record z { nr_readers = r }) ≡ true
    → Counted r (owner_ids ls)
    → MayLock (is_read mode) r (owner_ids ls) me
recursive-MayLock z (pos n) mode me ls m f e c = absurd (ground (arith, e))
recursive-MayLock z (negsuc n) mode me [] m f e c = absurd (ground (arith, f))
recursive-MayLock z (negsuc n) read_lock me (l ∷ ls) m f e c = absurd (ground (arith, m))
recursive-MayLock z (negsuc n) no_lock me (l ∷ ls) m f e c = absurd (ground (arith, m))
recursive-MayLock z (negsuc n) write_lock me (l ∷ ls) m f e (len, u, c) =
    let held : 0 < count me (owner_ids (l ∷ ls)) = ground (arith, f) in
    all_of me u (owner_ids (l ∷ ls)) (c ∙ sym len) held ∙ len
