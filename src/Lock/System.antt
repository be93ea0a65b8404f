-- ===== src/Lock/System.antt =====
-- The locks together with the set of the threads that sleep in longterm_lock_znode.
use mathlib.Core.Path.{subst}
use reiser.Base.{
  ℕ, ◌≤◌, ◌≡◌, refl, sym, ap, ◌∙◌, Bool, true, false, [], ◌∷◌, Bool-cases, inl, inr, ◌==◌, put,
  put_at, put_ne, count, count_if-append, arith,
}
use reiser.Lock.State.{no_lock, is_no_lock, World}
use reiser.Lock.Counting.{del_requestor-count}
use reiser.Lock.View.{Core, Thread, IsView, IsAwake, zs_of, ts_of, put_cases, put_same}
use reiser.Lock.QueueSteps.{
  dequeue_core, enqueue_core, dequeue-IsView, request-IsView, enqueue-IsView,
}

-- A sleeping thread whose request is not done is in the queue of the node it asks for; a thread that
-- does not sleep is in no queue.
pub record IsSystem (asleep : ℕ → Bool) (zs : ℕ → Core) (ts : ℕ → Thread) : Type 0 where
  pub view : IsView zs ts
  pub waits :
      (t : ℕ)
      → asleep t ≡ true
      → is_no_lock (ts t).mode ≡ false
      → 1 ≤ count t (zs (ts t).node).requestors
  pub awake : (t : ℕ) → asleep t ≡ false → IsAwake zs t

abbrev pub Sound : (ℕ → Bool) → World → Type 0
Sound asleep w = IsSystem asleep (zs_of w) (ts_of w)

pub to_sound :
    (w : World) {asleep : ℕ → Bool} {zs : ℕ → Core} {ts : ℕ → Thread}
    → zs_of w ≡ zs
    → ts_of w ≡ ts
    → IsSystem asleep zs ts
    → Sound asleep w
to_sound w {asleep} {zs} e f v =
    subst (λ a. IsSystem asleep a (ts_of w)) (sym e) (subst (IsSystem asleep zs) (sym f) v)

module _ {asleep : ℕ → Bool} {zs : ℕ → Core} {ts : ℕ → Thread} (s : IsSystem asleep zs ts) where
  -- A step that leaves the queues and the requests of the sleeping threads alone.
  pub same-IsSystem :
      {zs' : ℕ → Core} {ts' : ℕ → Thread}
      → IsView zs' ts'
      → ((k : ℕ) → (zs' k).requestors ≡ (zs k).requestors)
      → ((t : ℕ) → asleep t ≡ true → (ts' t).mode ≡ (ts t).mode)
      → ((t : ℕ) → asleep t ≡ true → (ts' t).node ≡ (ts t).node)
      → IsSystem asleep zs' ts'
  same-IsSystem {zs'} {ts'} v queues modes nodes = record {
    view = v;
    waits = λ t a m.
        subst (λ c. 1 ≤ c)
          (ap (λ n. count t (zs n).requestors) (sym (nodes t a))
            ∙ ap (count t) (sym (queues (ts' t).node)))
          (s.waits t a (ap is_no_lock (sym (modes t a)) ∙ m));
    awake = λ t a k. ap (count t) (queues k) ∙ s.awake t a k;
  }

  pub put-IsSystem :
      (n t : ℕ) (z' : Core) (th' : Thread)
      → IsView (put zs n z') (put ts t th')
      → z'.requestors ≡ (zs n).requestors
      → th'.mode ≡ (ts t).mode
      → th'.node ≡ (ts t).node
      → IsSystem asleep (put zs n z') (put ts t th')
  put-IsSystem n t z' th' v queue mode node =
      same-IsSystem v (put_same (λ z. z.requestors) zs n z' queue)
        (λ u a. put_same (λ th. th.mode) ts t th' mode u)
        (λ u a. put_same (λ th. th.node) ts t th' node u)

  -- The request of a thread leaves the queue and is done.
  pub finish-IsSystem :
      (t : ℕ)
      → let n = (ts t).node in
        1 ≤ count t (zs n).requestors
        → IsSystem asleep
            (put zs n (dequeue_core (ts t) t (zs n)))
            (put ts t (record (ts t) { mode = no_lock }))
  finish-IsSystem t h =
      let n = (ts t).node in
      let z' = dequeue_core (ts t) t (zs n) in
      let th' = record (ts t) { mode = no_lock } in
      let (v, awake) = dequeue-IsView s.view t h in
      let del = λ (u : ℕ). del_requestor-count (λ b. b == u) t (zs n).requestors h in
      record {
        view = request-IsView v t n no_lock awake;
        waits = λ u a m. elim (Bool-cases (u == t)) [
          | inl e ↦
              let same : put ts t th' u ≡ th' =
                ap (put ts t th') {x = u} {y = t} (ground arith) ∙ put_at ts t th' in
              absurd (ground (arith, ap (λ th. is_no_lock th.mode) (sym same) ∙ m))
          | inr e ↦
              let same = put_ne ts t th' u e in
              subst (λ (th : Thread). 1 ≤ count u (put zs n z' th.node).requestors) (sym same)
                (put_cases
                  (λ (k : ℕ) (z : Core).
                    (zs k).requestors ≡ (zs (ts u).node).requestors → 1 ≤ count u z.requestors)
                  zs n z'
                  (λ q.
                    let c = s.waits u a (ap (λ th. is_no_lock th.mode) (sym same) ∙ m) in
                    ground (arith, del u, ap (count u) q, c))
                  (λ k d q.
                    subst (λ us. 1 ≤ count u us) (sym q)
                      (s.waits u a (ap (λ th. is_no_lock th.mode) (sym same) ∙ m)))
                  (ts u).node refl)
        ];
        awake = λ u a.
            put_cases (λ (k : ℕ) (z : Core). count u z.requestors ≡ 0) zs n z'
              (omega (arith, del u, s.awake u a n)) (λ k e. s.awake u a k);
      }

  -- The request of a thread joins the queue, and the thread sleeps.
  pub enqueue-IsSystem :
      (t : ℕ)
      → let n = (ts t).node in
        asleep t ≡ false
        → is_no_lock (ts t).mode ≡ false
        → IsSystem (put asleep t true) (put zs n (enqueue_core (ts t) t (zs n))) ts
  enqueue-IsSystem t a m =
      let n = (ts t).node in
      let z' = enqueue_core (ts t) t (zs n) in
      let app = λ (u : ℕ). count_if-append (λ b. b == u) (zs n).requestors (t ∷ []) in
      record {
        view = enqueue-IsView s.view t (s.awake t a) m;
        waits =
            put_cases
              (λ (u : ℕ) (b : Bool).
                b ≡ true
                → is_no_lock (ts u).mode ≡ false
                → 1 ≤ count u (put zs n z' (ts u).node).requestors)
              asleep t true
              (λ b c.
                subst (λ (z : Core). 1 ≤ count t z.requestors) (sym (put_at zs n z'))
                  (ground (arith, app t)))
              (λ u e b c.
                put_cases
                  (λ (k : ℕ) (z : Core). 1 ≤ count u (zs k).requestors → 1 ≤ count u z.requestors)
                  zs n z' (λ d. omega (arith, app u)) (λ k f d. d) (ts u).node (s.waits u b c));
        awake =
            put_cases (λ (u : ℕ) (b : Bool). b ≡ false → IsAwake (put zs n z') u) asleep t true
              (λ b. absurd (ground (arith, b)))
              (λ u e b.
                let other : (t == u) ≡ false = ground arith in
                put_cases (λ (k : ℕ) (z : Core). count u z.requestors ≡ 0) zs n z'
                  (ground (arith, app u, s.awake u b n, other)) (λ k f. s.awake u b k));
      }

  -- The thread wakes up: its request is done, or leaves the queue.
  pub wake-IsSystem : (t : ℕ) → is_no_lock (ts t).mode ≡ true → IsSystem (put asleep t false) zs ts
  wake-IsSystem t m = record {
    view = s.view;
    waits =
        put_cases
          (λ (u : ℕ) (b : Bool).
            b ≡ true → is_no_lock (ts u).mode ≡ false → 1 ≤ count u (zs (ts u).node).requestors)
          asleep t false (λ b c. absurd (ground (arith, b))) (λ u e. s.waits u);
    awake =
        put_cases (λ (u : ℕ) (b : Bool). b ≡ false → IsAwake zs u) asleep t false
          (λ b k. ground (arith, s.view.queued k t)) (λ u e. s.awake u);
  }

  pub leave-IsSystem :
      (t : ℕ)
      → let n = (ts t).node in
        asleep t ≡ true
        → is_no_lock (ts t).mode ≡ false
        → IsSystem (put asleep t false) (put zs n (dequeue_core (ts t) t (zs n))) ts
  leave-IsSystem t a m =
      let n = (ts t).node in
      let z' = dequeue_core (ts t) t (zs n) in
      let h = s.waits t a m in
      let del = λ (u : ℕ). del_requestor-count (λ b. b == u) t (zs n).requestors h in
      record {
        view = (dequeue-IsView s.view t h).0;
        waits =
            put_cases
              (λ (u : ℕ) (b : Bool).
                b ≡ true
                → is_no_lock (ts u).mode ≡ false
                → 1 ≤ count u (put zs n z' (ts u).node).requestors)
              asleep t false (λ b c. absurd (ground (arith, b)))
              (λ u e b c.
                let other : (t == u) ≡ false = ground arith in
                put_cases
                  (λ (k : ℕ) (z : Core). 1 ≤ count u (zs k).requestors → 1 ≤ count u z.requestors)
                  zs n z' (λ d. ground (arith, del u, other)) (λ k f d. d) (ts u).node
                  (s.waits u b c));
        awake =
            put_cases (λ (u : ℕ) (b : Bool). b ≡ false → IsAwake (put zs n z') u) asleep t false
              (λ b. (dequeue-IsView s.view t h).1)
              (λ u e b.
                put_cases (λ (k : ℕ) (z : Core). count u z.requestors ≡ 0) zs n z'
                  (omega (arith, del u, s.awake u b n)) (λ k f. s.awake u b k));
      }
