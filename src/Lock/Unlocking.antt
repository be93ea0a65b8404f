-- ===== src/Lock/Unlocking.antt =====
-- longterm_unlock_znode keeps the counters of the locks and their queues, also where the node dies.
use mathlib.Core.Path.{fun_ext}
use reiser.Base.{
  ℕ, zero, suc, ◌-◌, ◌≡◌, refl, sym, ap, ◌∙◌, Bool, true, ◌&&◌, if◌then◌else◌, if_cases, Bool-cases,
  inl, inr, ◌==◌, ℤ, pos, negsuc, put, put_at, put_map, put-put, arith,
}
use reiser.Lock.State.{Zlock, Stack, World, put_zlock, put_stack, is_wlocked, is_wlocked_once}
use reiser.Lock.Primitives.{
  wake_up_all_lopri_owners, del_link, del_lock, unlink_object, check_deadlock_condition,
  is_signaled,
}
use reiser.Lock.Longterm.{
  invalidate_all_lock_requests, dispatch_lock_requests, drop_signal, invalidate_lock, released,
  release_lock, signal_deadlock, longterm_unlock_znode,
}
use reiser.Lock.View.{owner_ids, lock_nodes, Core, core, Thread, thread, zs_of, ts_of}
use reiser.Lock.ViewSteps.{release-IsView}
use reiser.Lock.System.{Sound, to_sound, put-IsSystem}
use reiser.Lock.Effects.{wake_up-zs, wake_up-ts}
use reiser.Lock.Handles.{
  Holds, del_link-count, del_link-length, del_lock-count, release-zs, release-ts, drop_signal-cut,
  cut,
}
use reiser.Lock.Queues.{invalidate_requests-Sound, dispatch-Sound}

-- The node of a handle that a thread of this priority gives up.
abbrev pub given_up : Bool → Zlock → Zlock
given_up hipri z = record z {
  nr_hipri_owners = if hipri then z.nr_hipri_owners - 1 else z.nr_hipri_owners;
}

-- The node and the thread without the handle.
abbrev left_core : Bool → ℕ → Zlock → Core
left_core hipri h z = record (core (given_up hipri z)) {
  nr_readers = released z.nr_readers;
  ids = owner_ids (del_link h z.owners);
}

abbrev left_thread : ℕ → Stack → Thread
left_thread h s = record (thread s) { nodes = lock_nodes (del_lock h s.locks) }

-- The lock of a dying node without the handle, its requests still in the queue.
abbrev detached : World → (me handle n : ℕ) → World
detached w me handle n =
    let signaled = is_signaled handle (w.zlocks n).owners in
    let w1 = put_stack w me (drop_signal signaled (w.stacks me)) in
    let w2 = put_zlock w1 n (record (w1.zlocks n) { is_dying = true }) in
    let w3 = unlink_object w2 handle me n in
    put_zlock w3 n (record (w3.zlocks n) { nr_readers = pos 0 })

detached-zs :
    (w : World) (n : ℕ) (z : Zlock) (me h : ℕ)
    → zs_of (detached (put_zlock w n z) me h n)
      ≡ put
          (zs_of w)
          n
          (record (core z) { nr_readers = pos 0; ids = owner_ids (del_link h z.owners) })
unfolding unlink_object
detached-zs w n z me h =
    let self : (n == n) ≡ true = ground arith in
    fun_ext (λ k. elim (Bool-cases (k == n)) [ inl e ↦ rw (e, self) | inr e ↦ rw e ])

detached-ts :
    (w : World) (n : ℕ) (z : Zlock) (me h : ℕ)
    → ts_of (detached (put_zlock w n z) me h n) ≡ put (ts_of w) me (left_thread h (w.stacks me))
unfolding unlink_object
detached-ts w n z me h =
    let b = is_signaled h (put w.zlocks n z n).owners in
    let s = drop_signal b (w.stacks me) in
    let threads : (ℕ → Stack) → ℕ → Thread = λ f t. thread (f t) in
    ap threads (
      ap (λ (a : Stack). put (put w.stacks me s) me (cut h a)) (put_at w.stacks me s)
      ∙ put-put w.stacks me s (cut h s))
    ∙ put_map thread w.stacks me (cut h s)
    ∙ ap (λ (th : Thread). put (ts_of w) me th) (drop_signal-cut b (w.stacks me) h)

released_once :
    (z : Zlock) (r : ℤ) → is_wlocked_once (record z { nr_readers = r }) ≡ true → released r ≡ pos 0
released_once z (pos k) e = absurd (ground (arith, e))
released_once z (negsuc zero) e = refl
released_once z (negsuc (suc k)) e = absurd (ground (arith, e))

signal_deadlock-Sound :
    {asleep : ℕ → Bool} (w : World) (n : ℕ) → Sound asleep w → Sound asleep (signal_deadlock w n)
unfolding signal_deadlock
signal_deadlock-Sound {asleep} w n v =
    if_cases (λ (w : World). Sound asleep w) (check_deadlock_condition (w.zlocks n))
      (λ e. to_sound (wake_up_all_lopri_owners w n) (wake_up-zs w n) (wake_up-ts w n) v) (λ e. v)

module _ {asleep : ℕ → Bool} (w : World) (me h n : ℕ) (own : Holds w h me n)
    (v : Sound asleep w) where
  -- A system in which the node and the thread have lost the handle.
  given_up-Sound :
      (w' : World)
      → zs_of w' ≡ put (zs_of w) n (left_core (w.stacks me).curpri h (w.zlocks n))
      → ts_of w' ≡ put (ts_of w) me (left_thread h (w.stacks me))
      → Sound asleep w'
  given_up-Sound w' e f =
      let z = w.zlocks n in
      let s = w.stacks me in
      let z' = left_core s.curpri h z in
      let th' = left_thread h s in
      to_sound w' e f (
        put-IsSystem v n me z' th'
          (release-IsView v.view n me z' th' (λ p. del_link-count p h me z.owners own.0)
            (λ p. del_lock-count p h n s.locks own.1) (del_link-length h me z.owners own.0) refl
            refl refl refl refl refl refl refl)
          refl refl refl)

  pub released-Sound :
      Sound asleep
        (release_lock (put_zlock w n (given_up (w.stacks me).curpri (w.zlocks n))) me h n)
  released-Sound =
      let z = given_up (w.stacks me).curpri (w.zlocks n) in
      given_up-Sound (release_lock (put_zlock w n z) me h n) (release-zs w n z me h)
        (release-ts w n z me h)

  detached-Sound :
      is_wlocked_once (w.zlocks n) ≡ true
      → Sound asleep (detached (put_zlock w n (given_up (w.stacks me).curpri (w.zlocks n))) me h n)
  detached-Sound once =
      let z = given_up (w.stacks me).curpri (w.zlocks n) in
      let left = left_core (w.stacks me).curpri h (w.zlocks n) in
      given_up-Sound (detached (put_zlock w n z) me h n)
        (detached-zs w n z me h
          ∙ ap (λ (r : ℤ). put (zs_of w) n (record left { nr_readers = r }))
              (sym (released_once (w.zlocks n) (w.zlocks n).nr_readers once)))
        (detached-ts w n z me h)

  pub longterm_unlock_znode-Sound : Sound asleep (longterm_unlock_znode w me h n)
  unfolding longterm_unlock_znode invalidate_lock invalidate_all_lock_requests
      dispatch_lock_requests
  longterm_unlock_znode-Sound =
      let z = w.zlocks n in
      let w1 = put_zlock w n (given_up (w.stacks me).curpri z) in
      let w2 = release_lock w1 me h n in
      let w3 = if is_wlocked (w2.zlocks n) then w2 else dispatch_lock_requests w2 me n in
      let dead = detached w1 me h n in
      if_cases (λ (w : World). Sound asleep w) (is_wlocked_once z && z.heard_banshee)
        (λ e.
          invalidate_requests-Sound (dead.zlocks n).requestors dead n (λ u. omega arith)
            (detached-Sound (ground (arith, e))))
        (λ e. signal_deadlock-Sound w3 n (
          if_cases (λ (w : World). Sound asleep w) (is_wlocked (w2.zlocks n)) (λ d. released-Sound)
            (λ d.
              dispatch-Sound (w2.zlocks n).requestors w2 me n (λ u. omega arith) released-Sound)))
