-- ===== src/Lock/ViewSteps.antt =====
-- Locks and releases on the view, and that its counters still count.
use mathlib.Core.Path.{subst}
use reiser.Base.{
  ℕ, suc, ◌+◌, ◌-◌, ◌≤◌, ◌≡◌, refl, sym, ap, ◌∙◌, Bool, ◌&&◌, not, [], ◌∷◌, ◌++◌, if◌then◌else◌,
  ◌==◌, ℤ, put, count_if, count, count_if-append, length, arith,
}
use reiser.Lock.State.{is_no_lock, is_write}
use reiser.Lock.Longterm.{released}
use reiser.Lock.Counting.{put_more, put_less, released-Counted}
use reiser.Lock.View.{
  Core, Thread, Counted, IsCore, pri_of, mode_of, may_wait, IsView, put_cases, put_same,
  IsCore-same,
}

-- The thread locks the node.
abbrev pub grant_core : ℤ → Bool → ℕ → Core → Core
grant_core readers curpri t z = record z {
  nr_readers = readers;
  nr_hipri_owners = if curpri then z.nr_hipri_owners + 1 else z.nr_hipri_owners;
  ids = t ∷ z.ids;
}

abbrev pub grant_thread : ℕ → Thread → Thread
grant_thread n th = record th { nodes = th.nodes ++ n ∷ [] }

module _ {zs : ℕ → Core} {ts : ℕ → Thread} (v : IsView zs ts) where
  -- Cores after a change at one node that other threads' fields do not see.
  grant-IsCore :
      (n t : ℕ) (readers : ℤ)
      → Counted readers (t ∷ (zs n).ids)
      → IsCore (pri_of ts) (mode_of ts) (grant_core readers (ts t).curpri t (zs n))
  grant-IsCore n t readers m =
      let c = v.cores n in
      record {
        counted = m;
        hipri_owners = ground (arith, c.hipri_owners);
        hipri_requests = c.hipri_requests;
        hipri_writes = c.hipri_writes;
      }

  pub grant-IsView :
      (n t : ℕ) (readers : ℤ)
      → Counted readers (t ∷ (zs n).ids)
      → IsView
          (put zs n (grant_core readers (ts t).curpri t (zs n)))
          (put ts t (grant_thread n (ts t)))
  grant-IsView n t readers m =
      let z' = grant_core readers (ts t).curpri t (zs n) in
      let th' = grant_thread n (ts t) in
      record {
        cores = λ k.
            IsCore-same (put_same (λ th. th.curpri) ts t th' refl)
              (put_same (λ th. th.mode) ts t th' refl)
              (put_cases (λ k z. IsCore (pri_of ts) (mode_of ts) z) zs n z'
                (grant-IsCore n t readers m) (λ k e. v.cores k) k);
        queued = λ k u.
            subst (λ c. c ≤ may_wait (put ts t th' u) k)
              (sym (put_same (λ z. count u z.requestors) zs n z' refl k))
              (subst (λ c. count u (zs k).requestors ≤ c)
                (sym (put_same (λ th. may_wait th k) ts t th' refl u)) (v.queued k u));
        held = λ k u.
            let l = put_more (λ z. count u z.ids) zs n z' (if t == u then 1 else 0) refl k in
            let r =
              put_more (λ th. count k th.nodes) ts t th' (if n == k then 1 else 0)
                (count_if-append (λ b. b == k) (ts t).nodes (n ∷ []) ∙ omega arith) u in
            ground (arith, l, r, v.held k u);
      }

  -- A handle of the thread leaves the node.
  pub release-IsView :
      (n t : ℕ) (z' : Core) (th' : Thread)
      → ((p : ℕ → Bool) → (if p t then 1 else 0) + count_if p z'.ids ≡ count_if p (zs n).ids)
      → ((p : ℕ → Bool) → (if p n then 1 else 0) + count_if p th'.nodes ≡ count_if p (ts t).nodes)
      → suc (length z'.ids) ≡ length (zs n).ids
      → z'.nr_readers ≡ released (zs n).nr_readers
      → z'.nr_hipri_owners
        ≡ (if (ts t).curpri then (zs n).nr_hipri_owners - 1 else (zs n).nr_hipri_owners)
      → z'.nr_hipri_requests ≡ (zs n).nr_hipri_requests
      → z'.nr_hipri_write_requests ≡ (zs n).nr_hipri_write_requests
      → z'.requestors ≡ (zs n).requestors
      → th'.curpri ≡ (ts t).curpri
      → th'.node ≡ (ts t).node
      → th'.mode ≡ (ts t).mode
      → IsView (put zs n z') (put ts t th')
  release-IsView n t z' th' ids nodes len readers owners requests writes queue pri node mode =
      let c = v.cores n in
      let P = λ (k : ℕ) (z : Core). IsCore (pri_of ts) (mode_of ts) z in
      record {
        cores = λ k.
            IsCore-same (put_same (λ th. th.curpri) ts t th' pri)
              (put_same (λ th. th.mode) ts t th' mode)
              (put_cases P zs n z'
                (record {
                  counted =
                      subst (λ r. Counted r z'.ids) (sym readers)
                        (released-Counted (zs n).nr_readers (zs n).ids z'.ids t c.counted len
                          (λ u. ids (λ b. b == u)));
                  hipri_owners = ground (arith, ids (pri_of ts), owners, c.hipri_owners);
                  hipri_requests =
                      requests ∙ c.hipri_requests ∙ ap (count_if (pri_of ts)) (sym queue);
                  hipri_writes =
                      writes
                      ∙ c.hipri_writes
                      ∙ ap (count_if (λ u. (ts u).curpri && is_write (ts u).mode)) (sym queue);
                })
                (λ k e. v.cores k) k);
        queued = λ k u.
            subst (λ c. c ≤ may_wait (put ts t th' u) k)
              (sym (put_same (λ z. count u z.requestors) zs n z' (ap (count u) queue) k))
              (subst (λ c. count u (zs k).requestors ≤ c)
                (sym (
                  put_same (λ th. may_wait th k) ts t th'
                    (ap (λ a. if a == k && not (is_no_lock th'.mode) then 1 else 0) node
                      ∙ ap (λ a. if (ts t).node == k && not (is_no_lock a) then 1 else 0) mode)
                    u))
                (v.queued k u));
        held = λ k u.
            let l =
              put_less (λ z. count u z.ids) zs n z' (if t == u then 1 else 0) (ids (λ b. b == u))
                k in
            let r =
              put_less (λ th. count k th.nodes) ts t th' (if n == k then 1 else 0)
                (nodes (λ b. b == k)) u in
            ground (arith, l, r, v.held k u);
      }
