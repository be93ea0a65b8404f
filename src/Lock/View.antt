-- ===== src/Lock/View.antt =====
-- What the counters of the locks count, on a view of the state that forgets handles and signals.
use mathlib.Core.Path.{subst, fun_ext}
use reiser.Base.{
  ℕ, suc, ◌≤◌, ◌≡◌, refl, sym, ap, ◌∙◌, Bool, false, ◌&&◌, not, List, [], ◌∷◌, if◌then◌else◌,
  if_cases, ◌==◌, ℤ, pos, negsuc, put, count_if, count, count_if-put, length, arith,
}
use reiser.Lock.State.{Mode, is_no_lock, is_write, Link, Zlock, Stack, World}

abbrev pub owner_ids : List Link → List ℕ
owner_ids [] = []
owner_ids (l ∷ ls) = l.owner ∷ owner_ids ls

abbrev pub lock_nodes : List (ℕ × ℕ) → List ℕ
lock_nodes [] = []
lock_nodes ((h, n) ∷ ls) = n ∷ lock_nodes ls

pub record Core : Type 0 where
  pub nr_readers : ℤ
  pub nr_hipri_owners : ℕ
  pub nr_hipri_requests : ℕ
  pub nr_hipri_write_requests : ℕ
  pub ids : List ℕ
  pub requestors : List ℕ

abbrev pub core : Zlock → Core
core z = record {
  nr_readers = z.nr_readers;
  nr_hipri_owners = z.nr_hipri_owners;
  nr_hipri_requests = z.nr_hipri_requests;
  nr_hipri_write_requests = z.nr_hipri_write_requests;
  ids = owner_ids z.owners;
  requestors = z.requestors;
}

pub record Thread : Type 0 where
  pub curpri : Bool
  pub node : ℕ
  pub mode : Mode
  pub nodes : List ℕ

abbrev pub thread : Stack → Thread
thread s = record {
  curpri = s.curpri;
  node = s.request.node;
  mode = s.request.mode;
  nodes = lock_nodes s.locks;
}

-- A node is free, read locked once for each handle, or write locked once for each handle, all of them
-- of one thread.
abbrev pub Counted : ℤ → List ℕ → Type 0
Counted (pos n) ids = length ids ≡ n
Counted (negsuc n) ids = (length ids ≡ suc n) × (t : ℕ) × (count t ids ≡ suc n)

pub record IsCore (pri : ℕ → Bool) (mode : ℕ → Mode) (z : Core) : Type 0 where
  pub counted : Counted z.nr_readers z.ids
  pub hipri_owners : z.nr_hipri_owners ≡ count_if pri z.ids
  pub hipri_requests : z.nr_hipri_requests ≡ count_if pri z.requestors
  pub hipri_writes :
      z.nr_hipri_write_requests ≡ count_if (λ t. pri t && is_write (mode t)) z.requestors

abbrev pub pri_of : (ℕ → Thread) → ℕ → Bool
pri_of ts t = (ts t).curpri

abbrev pub mode_of : (ℕ → Thread) → ℕ → Mode
mode_of ts t = (ts t).mode

-- A thread waits at most once, and only for the node and with the mode of its request.
abbrev pub may_wait : Thread → ℕ → ℕ
may_wait th n = if th.node == n && not (is_no_lock th.mode) then 1 else 0

pub record IsView (zs : ℕ → Core) (ts : ℕ → Thread) : Type 0 where
  pub cores : (n : ℕ) → IsCore (pri_of ts) (mode_of ts) (zs n)
  pub queued : (n t : ℕ) → count t (zs n).requestors ≤ may_wait (ts t) n
  pub held : (n t : ℕ) → count t (zs n).ids ≡ count n (ts t).nodes

abbrev pub zs_of : World → ℕ → Core
zs_of w n = core (w.zlocks n)

abbrev pub ts_of : World → ℕ → Thread
ts_of w t = thread (w.stacks t)

abbrev pub IsWorld : World → Type 0
IsWorld w = IsView (zs_of w) (ts_of w)

-- The thread is in no queue.
abbrev pub IsAwake : (ℕ → Core) → ℕ → Type 0
IsAwake zs t = (n : ℕ) → count t (zs n).requestors ≡ 0

-- What holds of a changed store.
pub put_cases {ℓ κ} :
    {A : Type ℓ} (P : ℕ → A → Type κ) (f : ℕ → A) (i : ℕ) (a : A)
    → P i a
    → ((j : ℕ) → (j == i) ≡ false → P j (f j))
    → (j : ℕ) → P j (put f i a j)
put_cases P f i a h k j =
    if_cases (P j) (j == i) (λ e. subst (λ m. P m a) {x = i} {y = j} (ground arith) h) (k j)

pub put_same {ℓ κ} :
    {A : Type ℓ} {B : Type κ} (g : A → B) (f : ℕ → A) (i : ℕ) (a : A)
    → g a ≡ g (f i)
    → (j : ℕ) → g (put f i a j) ≡ g (f j)
put_same g f i a h = put_cases (λ j b. g b ≡ g (f j)) f i a h (λ j e. refl)

-- Threads that differ in what no counter reads.
pub IsCore-same :
    {pri pri' : ℕ → Bool} {mode mode' : ℕ → Mode} {z : Core}
    → ((t : ℕ) → pri' t ≡ pri t)
    → ((t : ℕ) → mode' t ≡ mode t)
    → IsCore pri mode z
    → IsCore pri' mode' z
IsCore-same {pri} {pri'} {mode} {mode'} {z} p m c =
    subst (λ q. IsCore q mode' z) (sym (fun_ext p))
      (subst (λ q. IsCore pri q z) (sym (fun_ext m)) c)

-- A thread in no queue may change its request.
pub IsCore-request :
    {pri : ℕ → Bool} {mode mode' : ℕ → Mode} (z : Core) (t : ℕ)
    → count t z.requestors ≡ 0
    → ((u : ℕ) → (u == t) ≡ false → mode' u ≡ mode u)
    → IsCore pri mode z
    → IsCore pri mode' z
IsCore-request {pri} {mode} {mode'} z t h same c = record {
  counted = c.counted;
  hipri_owners = c.hipri_owners;
  hipri_requests = c.hipri_requests;
  hipri_writes =
      c.hipri_writes
      ∙ count_if-put (λ u. pri u && is_write (mode u)) (λ u. pri u && is_write (mode' u)) t
          z.requestors (λ u e. ap (λ k. pri u && is_write k) (sym (same u e))) h;
}
