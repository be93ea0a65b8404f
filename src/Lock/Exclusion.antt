-- ===== src/Lock/Exclusion.antt =====
-- Who can hold a lock at the same time.
use reiser.Base.{
  ℕ, ◌<◌, ◌≡◌, sym, ap, ◌∙◌, Bool, true, false, List, Bool-cases, inl, inr, ◌==◌, ℤ, pos, negsuc,
  count, length, arith,
}
use reiser.Lock.State.{Zlock, Stack, World, is_wlocked}
use reiser.Lock.View.{Counted, owner_ids}
use reiser.Lock.Counting.{all_of, apart}
use reiser.Lock.Handles.{Holds, del_link-count}
use reiser.Lock.Reach.{System, Reach, initial, reachable-IsSound}

Holds-count : (w : World) (h t n : ℕ) → Holds w h t n → 0 < count t (owner_ids (w.zlocks n).owners)
Holds-count w h t n own = ground (arith, del_link-count (λ b. b == t) h t (w.zlocks n).owners own.0)

one_owner :
    (z : Zlock) (r : ℤ) (ids : List ℕ) (t u : ℕ)
    → Counted r ids
    → is_wlocked (record z { nr_readers = r }) ≡ true
    → 0 < count t ids
    → 0 < count u ids
    → t ≡ u
one_owner z (pos n) ids t u c e ht hu = absurd (ground (arith, e))
one_owner z (negsuc n) ids t u (len, x, c) e ht hu =
    let all = c ∙ sym len in
    elim (Bool-cases (t == u)) [
      | inl same ↦ ground arith
      | inr other ↦
          absurd (omega (arith, apart t u ids other, all_of t x ids all ht, all_of u x ids all hu))
    ]

-- Two threads that hold a write locked node, in a state that the locks can reach, are one thread.
pub write_lock_exclusive :
    {s : System} (is_dying heard_banshee : ℕ → Bool) (stacks : ℕ → Stack) (h k t u n : ℕ)
    → Reach (initial is_dying heard_banshee stacks) s
    → is_wlocked (s.world.zlocks n) ≡ true
    → Holds s.world h t n
    → Holds s.world k u n
    → t ≡ u
write_lock_exclusive {s} is_dying heard_banshee stacks h k t u n r e ht hu =
    let z = s.world.zlocks n in
    let v = reachable-IsSound is_dying heard_banshee stacks r in
    one_owner z z.nr_readers (owner_ids z.owners) t u (v.view.cores n).counted e
      (Holds-count s.world h t n ht) (Holds-count s.world k u n hu)

readers_of :
    (z : Zlock) (r : ℤ) (ids : List ℕ)
    → Counted r ids
    → is_wlocked (record z { nr_readers = r }) ≡ false
    → r ≡ pos (length ids)
readers_of z (pos n) ids c e = ap pos (sym c)
readers_of z (negsuc n) ids c e = absurd (ground (arith, e))

-- In a state that the locks can reach, a node that is not write locked counts a reader for each handle
-- on it.
pub read_lock_counts :
    {s : System} (is_dying heard_banshee : ℕ → Bool) (stacks : ℕ → Stack) (n : ℕ)
    → Reach (initial is_dying heard_banshee stacks) s
    → is_wlocked (s.world.zlocks n) ≡ false
    → (s.world.zlocks n).nr_readers ≡ pos (length (owner_ids (s.world.zlocks n).owners))
read_lock_counts {s} is_dying heard_banshee stacks n r e =
    let z = s.world.zlocks n in
    let v = reachable-IsSound is_dying heard_banshee stacks r in
    readers_of z z.nr_readers (owner_ids z.owners) (v.view.cores n).counted e
