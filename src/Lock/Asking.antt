-- ===== src/Lock/Asking.antt =====
-- longterm_lock_znode keeps the counters of the locks and their queues.
use mathlib.Core.Path.{fun_ext}
use reiser.Base.{
  ℕ, ◌≡◌, refl, ap, ◌∙◌, Bool, true, false, ◌&&◌, if◌then◌else◌, if_cases, put, arith,
}
use reiser.Lock.State.{
  Mode, no_lock, is_no_lock, is_read, is_write, Answer, ok, einval, e_repeat, e_deadlock,
  capture_failed, World, put_stack, is_locked, is_wlocked,
}
use reiser.Lock.Primitives.{
  lock_object, recursive, can_lock_object, set_high_priority, set_low_priority, remove_lock_request,
}
use reiser.Lock.Longterm.{
  Outcome, returns, sleeps, loops, set_mode, lock_tail, lock_begin, lock_recursive,
  prepare_to_sleep, enqueue_request, lock_captured, lock_resume, tryfast_captured,
}
use reiser.Lock.View.{owner_ids, Thread, thread, ts_of, put_same}
use reiser.Lock.Counting.{MayLock}
use reiser.Lock.System.{Sound, to_sound, enqueue-IsSystem, wake-IsSystem, leave-IsSystem}
use reiser.Lock.Effects.{remove_lock_request-zs}
use reiser.Lock.Requests.{
  set_high_priority-Sound, set_low_priority-Sound, request-Sound, lock_object-Sound,
  compatible-MayLock, can_lock_object-compatible, recursive-MayLock,
}
use reiser.Lock.Enqueue.{enqueue_request-zs, enqueue_request-ts}

-- The set of the sleeping threads after a call.
abbrev pub asleep_after : Outcome → (ℕ → Bool) → ℕ → ℕ → Bool
asleep_after sleeps asleep me = put asleep me true
asleep_after (returns a) asleep me = asleep
asleep_after loops asleep me = asleep

abbrev pub Kept : (ℕ → Bool) → ℕ → Outcome × World → Type 0
Kept asleep me (outcome, w) = Sound (asleep_after outcome asleep me) w

module _ {asleep : ℕ → Bool} (w : World) (me : ℕ) (v : Sound asleep w) (a : asleep me ≡ false) where
  pub set_mode-Sound : (mode : Mode) → Sound asleep (set_mode w me mode)
  set_mode-Sound mode =
      let s = w.stacks me in
      request-Sound w me v (record s { request = record s.request { mode = mode } }) s.request.node
        mode a refl

  pub lock_begin-Sound :
      (handle n : ℕ) (mode : Mode) (hipri : Bool)
      → Sound asleep (lock_begin w me handle n mode hipri)
  unfolding lock_begin
  lock_begin-Sound handle n mode hipri =
      let w1 = if hipri then set_high_priority w me else set_low_priority w me in
      let s = w1.stacks me in
      let v1 : Sound asleep w1 =
        if_cases (λ (w : World). Sound asleep w) hipri (λ e. set_high_priority-Sound w me v a)
          (λ e. set_low_priority-Sound w me v a) in
      request-Sound w1 me v1
        (record s { request = record s.request { mode = mode; handle = handle; node = n } }) n mode
        a refl

  granted-Kept :
      let s = w.stacks me in
      let z = w.zlocks s.request.node in
      MayLock (is_read s.request.mode) z.nr_readers (owner_ids z.owners) me
      → Kept asleep me (lock_tail w me ok)
  unfolding lock_tail
  granted-Kept m =
      let w1 = lock_object w me in
      let s = w1.stacks me in
      request-Sound w1 me (lock_object-Sound w me v m)
        (record s { request = record s.request { mode = no_lock } }) s.request.node no_lock a refl

  pub answered-Kept :
      (answer : Answer) → can_lock_object w me ≡ answer → Kept asleep me (lock_tail w me answer)
  unfolding lock_tail
  answered-Kept ok e =
      let s = w.stacks me in
      let z = w.zlocks s.request.node in
      granted-Kept (
        compatible-MayLock z s.request.mode (owner_ids z.owners) me
          (can_lock_object-compatible w me e))
  answered-Kept einval e = v
  answered-Kept e_repeat e = v
  answered-Kept e_deadlock e = v
  answered-Kept (capture_failed k) e = v

  -- A writer may lock the node again: the node it has locked is write locked once for each handle.
  pub lock_recursive-Kept :
      (let request = (w.stacks me).request in
        is_write request.mode ≡ true
        → recursive w me ≡ true
        → is_wlocked (w.zlocks request.node) ≡ true)
      → Kept asleep me (lock_recursive w me)
  unfolding lock_recursive recursive
  lock_recursive-Kept h =
      let request = (w.stacks me).request in
      let z = w.zlocks request.node in
      if_cases (λ (r : Outcome × World). Kept asleep me r)
        (is_locked z && is_write request.mode && recursive w me)
        (λ e.
          let m : is_write request.mode ≡ true = ground (arith, e) in
          let f : recursive w me ≡ true = ground (arith, e) in
          granted-Kept (
            recursive-MayLock z z.nr_readers request.mode me z.owners m f (h m f)
              (v.view.cores request.node).counted))
        (λ e. v)

  pub enqueue_request-Sound :
      (hipri : Bool)
      → hipri ≡ (w.stacks me).curpri
      → is_no_lock (w.stacks me).request.mode ≡ false
      → Sound (put asleep me true) (enqueue_request w me hipri)
  enqueue_request-Sound hipri e m =
      to_sound (enqueue_request w me hipri) (enqueue_request-zs w me hipri e)
        (enqueue_request-ts w me hipri) (enqueue-IsSystem v me a m)

  pub lock_captured-Kept :
      (hipri non_blocking : Bool) (captured : Answer)
      → hipri ≡ (w.stacks me).curpri
      → is_no_lock (w.stacks me).request.mode ≡ false
      → Kept asleep me (lock_captured w me hipri non_blocking captured)
  unfolding lock_captured
  lock_captured-Kept hipri non_blocking ok e m =
      (elim (can_lock_object w me)
          as (λ (x : Answer).
            can_lock_object w me ≡ x
            → Kept asleep me (elim x [
              | e_repeat ↦
                  if non_blocking
                  then (returns e_repeat, w)
                  else elim (prepare_to_sleep (w.stacks me)) [
                    | ok ↦ (sleeps, enqueue_request w me hipri)
                    | answer ↦ (returns answer, w)
                  ]
              | answer ↦ lock_tail w me answer
            ])) [
              | e_repeat ↦ λ f.
                  if_cases (λ (r : Outcome × World). Kept asleep me r) non_blocking (λ g. v)
                    (λ g.
                      elim (prepare_to_sleep (w.stacks me))
                        as (λ (x : Answer). Kept asleep me (elim x [
                          | ok ↦ (sleeps, enqueue_request w me hipri)
                          | answer ↦ (returns answer, w)
                        ])) [
                          | ok ↦ enqueue_request-Sound hipri e m
                          | einval ↦ v
                          | e_repeat ↦ v
                          | e_deadlock ↦ v
                          | capture_failed k ↦ v
                        ])
              | ok ↦ λ f. answered-Kept ok f
              | einval ↦ λ f. answered-Kept einval f
              | e_deadlock ↦ λ f. answered-Kept e_deadlock f
              | capture_failed k ↦ λ f. answered-Kept (capture_failed k) f
            ])
        refl
  lock_captured-Kept hipri non_blocking einval e m = set_mode-Sound no_lock
  lock_captured-Kept hipri non_blocking e_repeat e m = set_mode-Sound no_lock
  lock_captured-Kept hipri non_blocking e_deadlock e m = set_mode-Sound no_lock
  lock_captured-Kept hipri non_blocking (capture_failed k) e m = set_mode-Sound no_lock

  -- The read lock without flags.
  pub tryfast_captured-Kept : (captured : Answer) → Kept asleep me (tryfast_captured w me captured)
  unfolding tryfast_captured
  tryfast_captured-Kept ok =
      (elim (can_lock_object w me)
          as (λ (x : Answer).
            can_lock_object w me ≡ x
            → Kept asleep me (elim x [ e_repeat ↦ (loops, w) | answer ↦ lock_tail w me answer ])) [
              | e_repeat ↦ λ f. v
              | ok ↦ λ f. answered-Kept ok f
              | einval ↦ λ f. answered-Kept einval f
              | e_deadlock ↦ λ f. answered-Kept e_deadlock f
              | capture_failed k ↦ λ f. answered-Kept (capture_failed k) f
            ])
        refl
  tryfast_captured-Kept einval = set_mode-Sound no_lock
  tryfast_captured-Kept e_repeat = set_mode-Sound no_lock
  tryfast_captured-Kept e_deadlock = set_mode-Sound no_lock
  tryfast_captured-Kept (capture_failed k) = set_mode-Sound no_lock

-- A thread wakes up.
pub lock_resume-Sound :
    {asleep : ℕ → Bool} (w : World) (me : ℕ)
    → Sound asleep w
    → asleep me ≡ true
    → Sound (put asleep me false) (lock_resume w me).1
unfolding lock_resume
lock_resume-Sound {asleep} w me v a =
    let s = w.stacks me in
    let w1 = put_stack w me (record s { wakeup = false }) in
    let same : ts_of w1 ≡ ts_of w =
      fun_ext (put_same thread w.stacks me (record s { wakeup = false }) refl) in
    let v1 : Sound asleep w1 = to_sound w1 refl same v in
    if_cases (λ (r : Outcome × World). Sound (put asleep me false) r.1) (is_no_lock s.request.mode)
      (λ e. wake-IsSystem v1 me (ap (λ (f : ℕ → Thread). is_no_lock (f me).mode) same ∙ e))
      (λ e.
        to_sound (remove_lock_request w1 me) (remove_lock_request-zs w1 me) refl
          (leave-IsSystem v1 me a (ap (λ (f : ℕ → Thread). is_no_lock (f me).mode) same ∙ e)))
