-- ===== src/Lock/Enqueue.antt =====
-- What a request that joins the queue of its node does to the view.
use reiser.Base.{
  ℕ, ◌+◌, ◌≡◌, refl, sym, ap, ◌∙◌, Bool, true, false, [], ◌∷◌, ◌++◌, if◌then◌else◌, ◌==◌, put,
  put_at, put_map, put-put,
}
use reiser.Lock.State.{Mode, is_write, Zlock, World, put_zlock}
use reiser.Lock.Primitives.{wake_up_all_lopri_owners}
use reiser.Lock.Longterm.{enqueue_request}
use reiser.Lock.View.{Core, core, zs_of, ts_of}
use reiser.Lock.QueueSteps.{enqueue_core}
use reiser.Lock.Effects.{wake_up-zs, wake_up-ts}

-- What a request adds to the counters of its node.
abbrev counted_request : Bool → Mode → Zlock → Zlock
counted_request true mode z = record z {
  nr_hipri_requests = z.nr_hipri_requests + 1;
  nr_hipri_write_requests =
      if is_write mode then z.nr_hipri_write_requests + 1 else z.nr_hipri_write_requests;
}
counted_request false mode z = z

abbrev joined : ℕ → Core → Core
joined me z = record z { requestors = z.requestors ++ me ∷ [] }

signaled-zs :
    (w : World) (n : ℕ) (b : Bool) → zs_of (if b then wake_up_all_lopri_owners w n else w) ≡ zs_of w
signaled-zs w n true = wake_up-zs w n
signaled-zs w n false = refl

signaled-ts :
    (w : World) (n : ℕ) (b : Bool) → ts_of (if b then wake_up_all_lopri_owners w n else w) ≡ ts_of w
signaled-ts w n true = wake_up-ts w n
signaled-ts w n false = refl

pub enqueue_request-zs :
    (w : World) (me : ℕ) (hipri : Bool)
    → hipri ≡ (w.stacks me).curpri
    → let n = (w.stacks me).request.node in
      zs_of (enqueue_request w me hipri)
      ≡ put (zs_of w) n (enqueue_core (ts_of w me) me (zs_of w n))
unfolding enqueue_request
enqueue_request-zs w me true e =
    let s = w.stacks me in
    let n = s.request.node in
    let z = w.zlocks n in
    let counted = counted_request true s.request.mode z in
    let w1 = put_zlock w n counted in
    let w2 = if z.nr_hipri_owners == 0 then wake_up_all_lopri_owners w1 n else w1 in
    let waited : zs_of w2 ≡ put (zs_of w) n (core counted) =
      signaled-zs w1 n (z.nr_hipri_owners == 0) ∙ put_map core w.zlocks n counted in
    put_map core w2.zlocks n
      (record (w2.zlocks n) { requestors = (w2.zlocks n).requestors ++ me ∷ [] })
    ∙ ap (λ (f : ℕ → Core). put f n (joined me (f n))) waited
    ∙ ap (λ (a : Core). put (put (zs_of w) n (core counted)) n (joined me a))
        (put_at (zs_of w) n (core counted))
    ∙ put-put (zs_of w) n (core counted) (joined me (core counted))
    ∙ (rw (sym e))
enqueue_request-zs w me false e =
    let s = w.stacks me in
    let n = s.request.node in
    put_map core w.zlocks n
      (record (w.zlocks n) { requestors = (w.zlocks n).requestors ++ me ∷ [] })
    ∙ (rw (sym e))

pub enqueue_request-ts :
    (w : World) (me : ℕ) (hipri : Bool) → ts_of (enqueue_request w me hipri) ≡ ts_of w
unfolding enqueue_request
enqueue_request-ts w me true =
    let s = w.stacks me in
    let n = s.request.node in
    let z = w.zlocks n in
    signaled-ts (put_zlock w n (counted_request true s.request.mode z)) n (z.nr_hipri_owners == 0)
enqueue_request-ts w me false = refl
