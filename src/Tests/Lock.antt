-- ===== src/Tests/Lock.antt =====
-- lock.c on three threads: thread 0 takes node 3 for writing twice, thread 1 waits for it with low
-- priority, thread 2 with high priority.
use reiser.Base.{ℕ, true, false, ◌≡◌, refl, some, [], pos, arith}
use reiser.Lock.State.{
  no_lock, read_lock, write_lock, ok, einval, e_deadlock, Stack, World, put_zlock, init_lock,
  init_lock_stack, znode_is_write_locked,
}
use reiser.Lock.Longterm.{
  sleeps, returns, lock_begin, lock_captured, longterm_unlock_znode, copy_lh, lock_resume,
  release_lock, dispatch_lock_requests, invalidate_all_lock_requests, prepare_to_sleep,
}
use reiser.Lock.Handles.{Holds, node_of}
use reiser.Lock.Reach.{
  System, after, Reach, here, next, begin, ask, unlock, copy, initial, IsSound, reachable-IsSound,
}
use reiser.Lock.Unlocking.{given_up, released-Sound}
use reiser.Lock.Exclusion.{write_lock_exclusive}
use reiser.Lock.Answers.{IsAnswered, dispatch_first, invalidate_all}
use reiser.Lock.Signals.{deadlock_signaled}

abbrev blank : Stack
blank = record {
  nr_signaled = 0;
  curpri = true;
  locks = [];
  request = record { handle = 0; node = 0; mode = no_lock; ret_code = ok };
  wakeup = false;
}

abbrev start : System
start = initial (λ n. false) (λ n. false) (λ t. blank)

abbrev asking : System
asking = record start { world = lock_begin start.world 0 50 3 write_lock false }

abbrev locked : System
locked = after asking 0 (lock_captured asking.world 0 false false ok)

abbrev copied_once : System
copied_once = record locked { world = copy_lh locked.world 0 51 50 3 }

abbrev second : System
second = record locked { world = lock_begin locked.world 1 60 3 read_lock false }

abbrev waiting : System
waiting = after second 1 (lock_captured second.world 1 false false ok)

abbrev third : System
third = record waiting { world = lock_begin waiting.world 2 70 3 write_lock true }

abbrev freed : System
freed = record waiting { world = longterm_unlock_znode waiting.world 0 50 3 }

locked-Reach : Reach start locked
unfolding lock_begin lock_captured init_lock init_lock_stack
locked-Reach =
    next (next here (begin 0 50 3 write_lock false refl)) (ask 0 false false ok refl refl refl)

locked-Holds : Holds locked.world 50 0 3
unfolding lock_begin lock_captured init_lock init_lock_stack
locked-Holds = (refl, refl)

copied-Reach : Reach start copied_once
copied-Reach = next locked-Reach (copy 0 51 50 3 locked-Holds)

waiting-Reach : Reach start waiting
unfolding lock_begin lock_captured init_lock init_lock_stack
waiting-Reach =
    next (next locked-Reach (begin 1 60 3 read_lock false refl))
      (ask 1 false false ok refl refl refl)

third-Reach : Reach start third
unfolding lock_begin lock_captured init_lock init_lock_stack
third-Reach = next waiting-Reach (begin 2 70 3 write_lock true refl)

waiting-Holds : Holds waiting.world 50 0 3
unfolding lock_begin lock_captured init_lock init_lock_stack
waiting-Holds = (refl, refl)

freed-Reach : Reach start freed
freed-Reach = next waiting-Reach (unlock 0 50 3 waiting-Holds)

-- Thread 1 sleeps until thread 0 unlocks the node, and has the lock then.
second_waits :
    ((lock_captured second.world 1 false false ok).0 ≡ sleeps) × (waiting.asleep 1 ≡ true)
unfolding lock_begin lock_captured init_lock init_lock_stack
second_waits = (refl, refl)

freed_lock :
    ((freed.world.zlocks 3).nr_readers ≡ pos 1)
    × ((lock_resume freed.world 1).0 ≡ returns ok)
    × Holds freed.world 60 1 3
unfolding lock_begin lock_captured longterm_unlock_znode lock_resume init_lock init_lock_stack
freed_lock = (refl, refl, (refl, refl))

reachable-IsSound_example : IsSound freed
reachable-IsSound_example = reachable-IsSound (λ n. false) (λ n. false) (λ t. blank) freed-Reach

abbrev owner : ℕ
owner = 0

write_lock_exclusive_example : owner ≡ owner
unfolding lock_begin lock_captured copy_lh init_lock init_lock_stack
write_lock_exclusive_example =
    write_lock_exclusive (λ n. false) (λ n. false) (λ t. blank) 50 51 0 0 3 copied-Reach refl
      (refl, refl) (refl, refl)

-- The node between its release and the dispatch of its queue.
abbrev released_node : World
released_node =
    release_lock (put_zlock waiting.world 3 (given_up false (waiting.world.zlocks 3))) 0 50 3

dispatch_first_example :
    let w = dispatch_lock_requests released_node 0 3 in
    IsAnswered w 1 ok × (node_of 60 (w.stacks 1).locks ≡ some 3)
unfolding lock_begin lock_captured release_lock znode_is_write_locked init_lock init_lock_stack
dispatch_first_example =
    dispatch_first released_node 0 3 1 []
      (released-Sound waiting.world 0 50 3 waiting-Holds
        (reachable-IsSound (λ n. false) (λ n. false) (λ t. blank) waiting-Reach))
      refl refl refl refl

invalidate_all_example :
    let w = invalidate_all_lock_requests waiting.world 3 in
    IsAnswered w 1 einval × ((w.zlocks 3).requestors ≡ [])
unfolding lock_begin lock_captured init_lock init_lock_stack
invalidate_all_example =
    invalidate_all waiting.world 3 1
      (reachable-IsSound (λ n. false) (λ n. false) (λ t. blank) waiting-Reach) (omega arith)

deadlock_signaled_example :
    let r = lock_captured third.world 2 true false ok in
    (r.0 ≡ sleeps) × (prepare_to_sleep (r.1.stacks 0) ≡ e_deadlock)
unfolding lock_begin lock_captured prepare_to_sleep init_lock init_lock_stack
deadlock_signaled_example =
    deadlock_signaled third.world 2 0 refl refl refl (omega arith) (omega arith)
