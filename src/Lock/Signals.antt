-- ===== src/Lock/Signals.antt =====
-- The signals that keep threads of low priority from sleeping while one of high priority waits.
use reiser.Base.{
  ℕ, ◌+◌, ◌≤◌, ◌<◌, ◌≡◌, ap, ◌∙◌, true, false, ◌&&◌, not, List, [], ◌∷◌, if◌then◌else◌, if_cases,
  ◌==◌, put, put_at, count_if, count, arith,
}
use reiser.Lock.State.{is_write, Answer, ok, e_repeat, e_deadlock, Link, Zlock, Stack, World}
use reiser.Lock.Primitives.{signal_owners, wake_up_all_lopri_owners, can_lock_object}
use reiser.Lock.Longterm.{
  Outcome, returns, sleeps, prepare_to_sleep, enqueue_request, lock_captured, lock_tail,
}
use reiser.Lock.View.{owner_ids}
use reiser.Lock.Counting.{put_more}

-- The handles of a thread on a node that are signaled, and those that are not.
abbrev pub signals : ℕ → List Link → ℕ
signals t ls = count_if (λ (l : Link). l.owner == t && l.signaled) ls

abbrev unsignaled : ℕ → List Link → ℕ
unsignaled t ls = count_if (λ (l : Link). l.owner == t && not l.signaled) ls

signals-all : (t : ℕ) (ls : List Link) → signals t ls + unsignaled t ls ≡ count t (owner_ids ls)
signals-all t [] = omega arith
signals-all t (l ∷ ls) = ground (arith, signals-all t ls)

signal_owners-nr_signaled :
    (ls : List Link) (stacks : ℕ → Stack) (t : ℕ)
    → (signal_owners ls stacks t).nr_signaled ≡ (stacks t).nr_signaled + unsignaled t ls
unfolding signal_owners
signal_owners-nr_signaled [] stacks t = omega arith
signal_owners-nr_signaled (l ∷ ls) stacks t =
    let s = stacks l.owner in
    let s' = record s { nr_signaled = s.nr_signaled + 1; wakeup = true } in
    let stacks' = if l.signaled then stacks else put stacks l.owner s' in
    let here : (stacks' t).nr_signaled
        ≡ (stacks t).nr_signaled + (if l.owner == t && not l.signaled then 1 else 0) =
      if_cases
        (λ (f : ℕ → Stack).
          (f t).nr_signaled
          ≡ (stacks t).nr_signaled + (if l.owner == t && not l.signaled then 1 else 0))
        l.signaled (λ d. ground (arith, d))
        (λ d. ground (
          arith,
          d,
          put_more (λ (s : Stack). s.nr_signaled) stacks l.owner s' 1 (omega arith) t,
        )) in
    omega (arith, signal_owners-nr_signaled ls stacks' t, here)

-- The request that wakes the owners.
enqueue-nr_signaled :
    (w : World) (me t : ℕ)
    → let z = w.zlocks (w.stacks me).request.node in
      z.nr_hipri_owners ≡ 0
      → ((enqueue_request w me true).stacks t).nr_signaled
        ≡ (w.stacks t).nr_signaled + unsignaled t z.owners
unfolding enqueue_request wake_up_all_lopri_owners
enqueue-nr_signaled w me t h =
    let request = (w.stacks me).request in
    let n = request.node in
    let z = w.zlocks n in
    let counted = record z {
      nr_hipri_requests = z.nr_hipri_requests + 1;
      nr_hipri_write_requests =
          if is_write request.mode
          then z.nr_hipri_write_requests + 1
          else z.nr_hipri_write_requests;
    } in
    if_cases
      (λ (w' : World). (w'.stacks t).nr_signaled ≡ (w.stacks t).nr_signaled + unsignaled t z.owners)
      (z.nr_hipri_owners == 0)
      (λ d.
        ap (λ (a : Zlock). (signal_owners a.owners w.stacks t).nr_signaled)
          (put_at w.zlocks n counted)
        ∙ signal_owners-nr_signaled z.owners w.stacks t)
      (λ d. absurd (ground (arith, d, h)))

captured_sleeps :
    (w : World) (me : ℕ)
    → can_lock_object w me ≡ e_repeat
    → prepare_to_sleep (w.stacks me) ≡ ok
    → lock_captured w me true false ok ≡ (sleeps, enqueue_request w me true)
unfolding lock_captured
captured_sleeps w me e f =
    let asked : Answer → Outcome × World = λ x. elim x as (λ y. Outcome × World) [
      | ok ↦ (sleeps, enqueue_request w me true)
      | answer ↦ (returns answer, w)
    ] in
    ap
      (λ (x : Answer). elim x as (λ y. Outcome × World) [
        | e_repeat ↦ asked (prepare_to_sleep (w.stacks me))
        | answer ↦ lock_tail w me answer
      ])
      e
    ∙ ap asked f

signaled-prepare : (s : Stack) → 0 < s.nr_signaled → prepare_to_sleep s ≡ e_deadlock
unfolding prepare_to_sleep
signaled-prepare s h = let e : (s.nr_signaled == 0) ≡ false = ground (arith, h) in rw e

-- When a request of high priority finds a node that it cannot lock and that has no owner of high
-- priority, and its thread has no signal itself, then the thread sleeps, and a thread with a handle
-- on the node that tries to sleep afterwards is told of the deadlock instead, provided that it
-- counted at least the signals of its handles on that node.
pub deadlock_signaled :
    (w : World) (me t : ℕ)
    → let z = w.zlocks (w.stacks me).request.node in
      can_lock_object w me ≡ e_repeat
      → prepare_to_sleep (w.stacks me) ≡ ok
      → z.nr_hipri_owners ≡ 0
      → signals t z.owners ≤ (w.stacks t).nr_signaled
      → 0 < count t (owner_ids z.owners)
      → let r = lock_captured w me true false ok in
        (r.0 ≡ sleeps) × (prepare_to_sleep (r.1.stacks t) ≡ e_deadlock)
deadlock_signaled w me t e f h s own =
    let z = w.zlocks (w.stacks me).request.node in
    let whole = captured_sleeps w me e f in
    let told : 0 < ((enqueue_request w me true).stacks t).nr_signaled =
      omega (arith, enqueue-nr_signaled w me t h, signals-all t z.owners, s, own) in
    (
      ap (λ (r : Outcome × World). r.0) whole,
      ap (λ (r : Outcome × World). prepare_to_sleep (r.1.stacks t)) whole
          ∙ signaled-prepare ((enqueue_request w me true).stacks t) told,
    )
