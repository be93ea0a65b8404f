-- ===== src/Lock/PrioritySteps.antt =====
-- A thread that changes its priority, and the counters of the nodes that it has locked.
use mathlib.Core.Path.{subst}
use reiser.Base.{
  ℕ, ◌+◌, ◌-◌, ◌≤◌, ◌≡◌, refl, sym, ap, ◌∙◌, true, false, ◌&&◌, ◌==◌, put, put_ne, count_if, count,
  count_if-put, arith,
}
use reiser.Lock.State.{is_write}
use reiser.Lock.Counting.{IsView-ext, raised-count}
use reiser.Lock.View.{Core, Thread, IsCore, pri_of, mode_of, may_wait, IsView, IsAwake, put_same}

module _ {zs : ℕ → Core} {ts : ℕ → Thread} (v : IsView zs ts) where
  priority-IsCore :
      (z : Core) (t : ℕ) (th' : Thread)
      → count t z.requestors ≡ 0
      → th'.mode ≡ (ts t).mode
      → IsCore (pri_of ts) (mode_of ts) z
      → (k : ℕ) → k ≡ count_if (pri_of (put ts t th')) z.ids
      → IsCore (pri_of (put ts t th')) (mode_of (put ts t th')) (record z { nr_hipri_owners = k })
  priority-IsCore z t th' awake mode c k e =
      let same = λ (u : ℕ) (d : (u == t) ≡ false). put_ne ts t th' u d in
      record {
        counted = c.counted;
        hipri_owners = e;
        hipri_requests =
            c.hipri_requests
            ∙ count_if-put (pri_of ts) (pri_of (put ts t th')) t z.requestors
                (λ u d. ap (λ th. th.curpri) (sym (same u d))) awake;
        hipri_writes =
            c.hipri_writes
            ∙ count_if-put (λ u. (ts u).curpri && is_write (ts u).mode)
                (λ u. (put ts t th' u).curpri && is_write (put ts t th' u).mode) t z.requestors
                (λ u d. ap (λ th. th.curpri && is_write th.mode) (sym (same u d))) awake;
      }

  -- The priority of a thread changes, and with it the counts of its locks.
  pub raise-IsView :
      (t : ℕ) (zs' : ℕ → Core)
      → IsAwake zs t
      → (ts t).curpri ≡ false
      → ((k : ℕ)
          → zs' k
            ≡ record (zs k) { nr_hipri_owners = (zs k).nr_hipri_owners + count k (ts t).nodes })
      → IsView zs' (put ts t (record (ts t) { curpri = true }))
  raise-IsView t zs' awake low e =
      let th' = record (ts t) { curpri = true } in
      IsView-ext e (λ u. refl)
        (record {
          cores = λ k.
              priority-IsCore (zs k) t th' (awake k) refl (v.cores k)
                ((zs k).nr_hipri_owners + count k (ts t).nodes)
                (omega (
                  arith,
                  raised-count (pri_of ts) (pri_of (put ts t th')) t (zs k).ids
                      (λ u d. ap (λ th. th.curpri) (put_ne ts t th' u d)) low (ground arith),
                  v.held k t,
                  (v.cores k).hipri_owners,
                ));
          queued = λ k u.
              subst (λ c. count u (zs k).requestors ≤ c)
                (sym (put_same (λ th. may_wait th k) ts t th' refl u)) (v.queued k u);
          held = λ k u. v.held k u ∙ sym (put_same (λ th. count k th.nodes) ts t th' refl u);
        })

  pub lower-IsView :
      (t : ℕ) (zs' : ℕ → Core)
      → IsAwake zs t
      → (ts t).curpri ≡ true
      → ((k : ℕ)
          → zs' k
            ≡ record (zs k) { nr_hipri_owners = (zs k).nr_hipri_owners - count k (ts t).nodes })
      → IsView zs' (put ts t (record (ts t) { curpri = false }))
  lower-IsView t zs' awake high e =
      let th' = record (ts t) { curpri = false } in
      IsView-ext e (λ u. refl)
        (record {
          cores = λ k.
              priority-IsCore (zs k) t th' (awake k) refl (v.cores k)
                ((zs k).nr_hipri_owners - count k (ts t).nodes)
                (omega (
                  arith,
                  raised-count (pri_of (put ts t th')) (pri_of ts) t (zs k).ids
                      (λ u d. ap (λ th. th.curpri) (sym (put_ne ts t th' u d))) (ground arith) high,
                  v.held k t,
                  (v.cores k).hipri_owners,
                ));
          queued = λ k u.
              subst (λ c. count u (zs k).requestors ≤ c)
                (sym (put_same (λ th. may_wait th k) ts t th' refl u)) (v.queued k u);
          held = λ k u. v.held k u ∙ sym (put_same (λ th. count k th.nodes) ts t th' refl u);
        })
