-- ===== src/Lock/QueueSteps.antt =====
-- Requests that change, and that join and leave a queue, and that the counters still count.
use mathlib.Core.Path.{subst}
use reiser.Base.{
  ℕ, ◌+◌, ◌-◌, ◌≤◌, ◌≡◌, refl, sym, ap, ◌∙◌, Bool, false, ◌&&◌, [], ◌∷◌, ◌++◌, if◌then◌else◌,
  Bool-cases, inl, inr, ◌==◌, put, put_ne, count, count_if-append, arith,
}
use reiser.Lock.State.{Mode, is_no_lock, is_write}
use reiser.Lock.Primitives.{del_requestor}
use reiser.Lock.Counting.{del_requestor-count}
use reiser.Lock.View.{
  Core, Thread, IsCore, pri_of, mode_of, may_wait, IsView, IsAwake, put_cases, put_same,
  IsCore-same, IsCore-request,
}

-- The request of a thread joins the queue.
abbrev pub enqueue_core : Thread → ℕ → Core → Core
enqueue_core th t z = record z {
  nr_hipri_requests = if th.curpri then z.nr_hipri_requests + 1 else z.nr_hipri_requests;
  nr_hipri_write_requests =
      if th.curpri && is_write th.mode
      then z.nr_hipri_write_requests + 1
      else z.nr_hipri_write_requests;
  requestors = z.requestors ++ t ∷ [];
}

-- The request of a thread leaves the queue.
abbrev pub dequeue_core : Thread → ℕ → Core → Core
dequeue_core th t z = record z {
  nr_hipri_requests = if th.curpri then z.nr_hipri_requests - 1 else z.nr_hipri_requests;
  nr_hipri_write_requests =
      if th.curpri && is_write th.mode
      then z.nr_hipri_write_requests - 1
      else z.nr_hipri_write_requests;
  requestors = del_requestor t z.requestors;
}

module _ {zs : ℕ → Core} {ts : ℕ → Thread} (v : IsView zs ts) where
  -- A thread that is in no queue changes its request.
  pub request-IsView :
      (t node : ℕ) (mode : Mode)
      → IsAwake zs t
      → IsView zs (put ts t (record (ts t) { node = node; mode = mode }))
  request-IsView t node mode awake =
      let th' = record (ts t) { node = node; mode = mode } in
      record {
        cores = λ k.
            IsCore-same (put_same (λ th. th.curpri) ts t th' refl) (λ u. refl)
              (IsCore-request (zs k) t (awake k) (λ u e. ap (λ th. th.mode) (put_ne ts t th' u e))
                (v.cores k));
        queued = λ k.
            put_cases (λ u th. count u (zs k).requestors ≤ may_wait th k) ts t th'
              (omega (arith, awake k)) (λ u e. v.queued k u);
        held = λ k u. v.held k u ∙ sym (put_same (λ th. count k th.nodes) ts t th' refl u);
      }

  -- The request of a thread leaves the queue of its node.
  pub dequeue-IsView :
      (t : ℕ)
      → let n = (ts t).node in
        1 ≤ count t (zs n).requestors
        → IsView (put zs n (dequeue_core (ts t) t (zs n))) ts
          × IsAwake (put zs n (dequeue_core (ts t) t (zs n))) t
  dequeue-IsView t h =
      let n = (ts t).node in
      let z' = dequeue_core (ts t) t (zs n) in
      let c = v.cores n in
      let del = λ (p : ℕ → Bool). del_requestor-count p t (zs n).requestors h in
      let P = λ (k : ℕ) (z : Core). IsCore (pri_of ts) (mode_of ts) z in
      let once = v.queued n t in
      (
        record {
          cores =
              put_cases P zs n z'
                (record {
                  counted = ground (arith, c.counted);
                  hipri_owners = ground (arith, c.hipri_owners);
                  hipri_requests = ground (arith, c.hipri_requests, del (pri_of ts));
                  hipri_writes =
                      ground
                        (arith, c.hipri_writes, del (λ u. (ts u).curpri && is_write (ts u).mode));
                })
                (λ k e. v.cores k);
          queued = λ k u.
              put_cases (λ j z. count u z.requestors ≤ may_wait (ts u) j) zs n z'
                (ground (arith, del (λ b. b == u), v.queued n u)) (λ j e. v.queued j u) k;
          held = λ k u. put_same (λ z. count u z.ids) zs n z' (ground arith) k ∙ v.held k u;
        },
        put_cases (λ j z. count t z.requestors ≡ 0) zs n z'
            (ground (arith, del (λ b. b == t), once)) (λ j e. ground (arith, v.queued j t)),
      )

  enqueued :
      (t u : ℕ)
      → let n = (ts t).node in
        IsAwake zs t
        → is_no_lock (ts t).mode ≡ false
        → count u ((zs n).requestors ++ t ∷ []) ≤ may_wait (ts u) n
  enqueued t u awake h =
      let n = (ts t).node in
      let app = λ (u : ℕ). count_if-append (λ b. b == u) (zs n).requestors (t ∷ []) in
      elim (Bool-cases (t == u)) [
        | inl e ↦
            subst (λ m. count m ((zs n).requestors ++ t ∷ []) ≤ may_wait (ts m) n) {x = t} {y = u}
              (ground arith) (ground (arith, app t, awake n, h))
        | inr e ↦ ground (arith, app u, e, v.queued n u)
      ]

  -- The request of a thread that is in no queue joins the queue of its node.
  pub enqueue-IsView :
      (t : ℕ)
      → let n = (ts t).node in
        IsAwake zs t
        → is_no_lock (ts t).mode ≡ false
        → IsView (put zs n (enqueue_core (ts t) t (zs n))) ts
  enqueue-IsView t awake h =
      let n = (ts t).node in
      let z' = enqueue_core (ts t) t (zs n) in
      let c = v.cores n in
      let P = λ (k : ℕ) (z : Core). IsCore (pri_of ts) (mode_of ts) z in
      let app = λ (p : ℕ → Bool). count_if-append p (zs n).requestors (t ∷ []) in
      record {
        cores =
            put_cases P zs n z'
              (record {
                counted = c.counted;
                hipri_owners = c.hipri_owners;
                hipri_requests = ground (arith, c.hipri_requests, app (pri_of ts));
                hipri_writes =
                    ground
                      (arith, c.hipri_writes, app (λ u. (ts u).curpri && is_write (ts u).mode));
              })
              (λ k e. v.cores k);
        queued = λ k u.
            put_cases (λ j z. count u z.requestors ≤ may_wait (ts u) j) zs n z'
              (enqueued t u awake h) (λ j e. v.queued j u) k;
        held = λ k u. put_same (λ z. count u z.ids) zs n z' refl k ∙ v.held k u;
      }
