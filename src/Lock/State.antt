-- ===== src/Lock/State.antt =====
-- The state of the long term locks: `struct zlock`, `lock_handle`, `lock_request` and `lock_stack` of
-- lock.h. A node, a lock handle and a lock stack (one to a thread) is named by a number. A list of
-- lock handles holds what stands in them: the list of a node the owner and the signal, that of a stack
-- the node. The counters count handles and requests in memory and stay below 2^31.
use reiser.Base.{ℕ, Bool, true, false, ◌&&◌, ◌||◌, not, List, [], ◌∷◌, ◌==◌, ℤ, pos, negsuc, put}

-- znode_lock_mode
pub data Mode : Type 0 where
  no_lock read_lock write_lock : Mode

abbrev pub is_no_lock : Mode → Bool
is_no_lock no_lock = true
is_no_lock _ = false

abbrev pub is_read : Mode → Bool
is_read read_lock = true
is_read _ = false

abbrev pub is_write : Mode → Bool
is_write write_lock = true
is_write _ = false

-- `int` answers: 0, -EINVAL, -E_REPEAT, -E_DEADLOCK, or what the capture of the node returned
pub data Answer : Type 0 where
  ok einval e_repeat e_deadlock : Answer
  capture_failed : ℕ → Answer

-- a lock handle on the list of owners of its node
pub record Link : Type 0 where
  pub handle : ℕ
  pub owner : ℕ
  pub signaled : Bool

pub record Zlock : Type 0 where
  pub nr_readers : ℤ
  pub nr_hipri_owners : ℕ
  pub nr_hipri_requests : ℕ
  pub nr_hipri_write_requests : ℕ
  pub owners : List Link
  pub requestors : List ℕ
  -- the flags JNODE_IS_DYING and JNODE_HEARD_BANSHEE of the node
  pub is_dying : Bool
  pub heard_banshee : Bool

pub record Request : Type 0 where
  pub handle : ℕ
  pub node : ℕ
  pub mode : Mode
  pub ret_code : Answer

pub record Stack : Type 0 where
  pub nr_signaled : ℕ
  pub curpri : Bool
  -- the handles of all locks, each with its node
  pub locks : List (ℕ × ℕ)
  pub request : Request
  pub wakeup : Bool

pub record World : Type 0 where
  pub zlocks : ℕ → Zlock
  pub stacks : ℕ → Stack

abbrev pub put_zlock : World → ℕ → Zlock → World
put_zlock w n z = record w { zlocks = put w.zlocks n z }

abbrev pub put_stack : World → ℕ → Stack → World
put_stack w t s = record w { stacks = put w.stacks t s }

-- lock_is_locked, lock_is_wlocked, lock_is_wlocked_once and lock_can_be_rlocked
abbrev pub is_locked : Zlock → Bool
is_locked z = elim z.nr_readers [ pos n ↦ not (n == 0) | negsuc n ↦ true ]

abbrev pub is_wlocked : Zlock → Bool
is_wlocked z = elim z.nr_readers [ pos n ↦ false | negsuc n ↦ true ]

abbrev pub is_wlocked_once : Zlock → Bool
is_wlocked_once z = elim z.nr_readers [ pos n ↦ false | negsuc n ↦ n == 0 ]

abbrev pub can_be_rlocked : Zlock → Bool
can_be_rlocked z = elim z.nr_readers [ pos n ↦ true | negsuc n ↦ false ]

unfoldable pub lock_mode_compatible : Zlock → Mode → Bool
lock_mode_compatible z mode =
    (is_write mode && not (is_locked z)) || (is_read mode && can_be_rlocked z)

abbrev pub first_is : ℕ → List Link → Bool
first_is t [] = false
first_is t (l ∷ ls) = l.owner == t

-- for the thread `me`
unfoldable pub znode_is_write_locked : Zlock → ℕ → Bool
znode_is_write_locked z me = is_wlocked z && first_is me z.owners

unfoldable pub init_lock_stack : Stack → Stack
init_lock_stack s = record s { locks = []; curpri = true }

-- the flags are the node's
unfoldable pub init_lock : Bool → Bool → Zlock
init_lock is_dying heard_banshee = record {
  nr_readers = pos 0;
  nr_hipri_owners = 0;
  nr_hipri_requests = 0;
  nr_hipri_write_requests = 0;
  owners = [];
  requestors = [];
  is_dying = is_dying;
  heard_banshee = heard_banshee;
}
