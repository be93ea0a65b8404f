-- ===== src/Lock/Reach.antt =====
-- The locks as a system of threads: what one call does between two sleeps, in any order.
use reiser.Base.{ℕ, ◌≡◌, refl, Bool, true, false, put, arith}
use reiser.Lock.State.{
  Mode, is_no_lock, is_write, Answer, Stack, World, is_wlocked, init_lock, init_lock_stack,
}
use reiser.Lock.Primitives.{recursive}
use reiser.Lock.Longterm.{
  Outcome, lock_begin, lock_recursive, lock_captured, lock_resume, tryfast_captured,
  longterm_unlock_znode, move_lh, copy_lh,
}
use reiser.Lock.System.{Sound}
use reiser.Lock.Handles.{Holds}
use reiser.Lock.Copies.{move_lh-Sound, copy_lh-Sound}
use reiser.Lock.Asking.{
  asleep_after, lock_begin-Sound, lock_recursive-Kept, lock_captured-Kept, tryfast_captured-Kept,
  lock_resume-Sound,
}
use reiser.Lock.Unlocking.{longterm_unlock_znode-Sound}

-- The locks, and the threads that sleep in longterm_lock_znode.
pub record System : Type 0 where
  pub world : World
  pub asleep : ℕ → Bool

-- What a call of a thread leaves behind.
abbrev pub after : System → ℕ → Outcome × World → System
after s me (outcome, w) = record { world = w; asleep = asleep_after outcome s.asleep me }

-- A step of a thread that does not sleep, or the end of its sleep. The guards are the conditions that
-- the assertions of lock.c put on a caller: a handle that is released, moved or copied is held; a lock
-- that is asked for a second time is a write lock; the node that is waited for is asked for with a mode
-- and with the priority of the thread.
pub data Step (s : System) : System → Type 0 where
  begin :
      (me handle n : ℕ) (mode : Mode) (hipri : Bool)
      → s.asleep me ≡ false
      → Step s (record s { world = lock_begin s.world me handle n mode hipri })
  try_fast :
      (me : ℕ) (captured : Answer)
      → s.asleep me ≡ false
      → Step s (after s me (tryfast_captured s.world me captured))
  again :
      (me : ℕ)
      → s.asleep me ≡ false
      → (let request = (s.world.stacks me).request in
          is_write request.mode ≡ true
          → recursive s.world me ≡ true
          → is_wlocked (s.world.zlocks request.node) ≡ true)
      → Step s (after s me (lock_recursive s.world me))
  ask :
      (me : ℕ) (hipri non_blocking : Bool) (captured : Answer)
      → s.asleep me ≡ false
      → hipri ≡ (s.world.stacks me).curpri
      → is_no_lock (s.world.stacks me).request.mode ≡ false
      → Step s (after s me (lock_captured s.world me hipri non_blocking captured))
  resume :
      (me : ℕ)
      → s.asleep me ≡ true
      → Step s (record { world = (lock_resume s.world me).1; asleep = put s.asleep me false })
  unlock :
      (me handle n : ℕ)
      → Holds s.world handle me n
      → Step s (record s { world = longterm_unlock_znode s.world me handle n })
  move :
      (me new old n : ℕ)
      → Holds s.world old me n
      → Step s (record s { world = move_lh s.world me new old n })
  copy :
      (me new old n : ℕ)
      → Holds s.world old me n
      → Step s (record s { world = copy_lh s.world me new old n })

pub data Reach (s : System) : System → Type 0 where
  here : Reach s s
  next : {t u : System} → Reach s t → Step t u → Reach s u

abbrev pub IsSound : System → Type 0
IsSound s = Sound s.asleep s.world

pub Step-IsSound : {s t : System} → Step s t → IsSound s → IsSound t
Step-IsSound {s} (begin me handle n mode hipri a) v =
    lock_begin-Sound s.world me v a handle n mode hipri
Step-IsSound {s} (try_fast me captured a) v = tryfast_captured-Kept s.world me v a captured
Step-IsSound {s} (again me a h) v = lock_recursive-Kept s.world me v a h
Step-IsSound {s} (ask me hipri non_blocking captured a p m) v =
    lock_captured-Kept s.world me v a hipri non_blocking captured p m
Step-IsSound {s} (resume me a) v = lock_resume-Sound s.world me v a
Step-IsSound {s} (unlock me handle n own) v = longterm_unlock_znode-Sound s.world me handle n own v
Step-IsSound {s} (move me new old n own) v = move_lh-Sound s.world me new old n own v
Step-IsSound {s} (copy me new old n own) v = copy_lh-Sound s.world me new old n own v

-- No lock is held and nobody waits.
abbrev pub initial : (ℕ → Bool) → (ℕ → Bool) → (ℕ → Stack) → System
initial is_dying heard_banshee stacks = record {
  world = record {
    zlocks = λ n. init_lock (is_dying n) (heard_banshee n);
    stacks = λ t. init_lock_stack (stacks t);
  };
  asleep = λ t. false;
}

initial-IsSound :
    (is_dying heard_banshee : ℕ → Bool) (stacks : ℕ → Stack)
    → IsSound (initial is_dying heard_banshee stacks)
unfolding init_lock init_lock_stack
initial-IsSound is_dying heard_banshee stacks = record {
  view = record {
    cores = λ n. record {
      counted = refl;
      hipri_owners = refl;
      hipri_requests = refl;
      hipri_writes = refl;
    };
    queued = λ n t. omega arith;
    held = λ n t. refl;
  };
  waits = λ t a. absurd (ground (arith, a));
  awake = λ t a n. refl;
}

Reach-IsSound : {s t : System} → Reach s t → IsSound s → IsSound t
Reach-IsSound here v = v
Reach-IsSound (next r st) v = Step-IsSound st (Reach-IsSound r v)

-- In every state that the calls of lock.c reach from the start, in any order and by any threads, a node
-- that is not write locked has one reader for each of its handles and a node that is write locked has
-- all its handles from one thread, one for each recursion; the counters of a node count its owners of
-- high priority, its requests of high priority and those of them for writing; the lists of handles of
-- nodes and of threads agree; a thread is in a queue only once, for the node of its request; and it is in
-- that queue whenever it sleeps with a request that is not done, and in none when it does not sleep.
pub reachable-IsSound :
    {s : System} (is_dying heard_banshee : ℕ → Bool) (stacks : ℕ → Stack)
    → Reach (initial is_dying heard_banshee stacks) s
    → IsSound s
reachable-IsSound is_dying heard_banshee stacks r =
    Reach-IsSound r (initial-IsSound is_dying heard_banshee stacks)
