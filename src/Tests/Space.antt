-- ===== src/Tests/Space.antt =====
-- block_alloc.c on a device of 100 blocks.
use reiser.Base.{
  ◌≤◌, ℕ, ◌+◌, ◌-◌, ◌≡◌, refl, true, false, Option, none, some, ltb, if◌then◌else◌, arith,
}
use reiser.Space.State.{Sb, Fs, Flags, not_counted, unallocated}
use reiser.Space.Grab.{
  commit_and_retry, retry_after_commit, grab_locked, or_release, success, failed, enospc, grab,
  grab_space, grab_reserved,
}
use reiser.Space.Alloc.{
  Hint, no_region, region, Allocator, alloc_blocks, account_allocated, account_freed,
}
use reiser.Space.Invariant.{
  IsValid, to_used, to_flush, fake_to_free, perform, perform-IsValid, Returns,
}
use reiser.Space.Refine.{counters, move, Kind, perform_refines}
use reiser.Space.Reserve.{Committed, Obtained, grab_space_lem}
use reiser.Space.Stages.{Within, freed-allocated}
use reiser.Space.Mutex.{Told, grab_reserved-Told}
use reiser.Bitmap.Alloc.{Nodes, bitmap_allocator}
use reiser.Bitmap.Client.{bitmap_allocator-Completed}
use reiser.Space.Allocation.{Completed, alloc_blocks-Completed}

abbrev device : Sb
device = record {
  block_count = 100;
  blocks_reserved = 5;
  blocks_used = 40;
  blocks_free = 50;
  blocks_grabbed = 4;
  blocks_fake_allocated_unformatted = 1;
  blocks_fake_allocated = 2;
  blocks_flush_reserved = 2;
  blocks_clustered = 1;
  min_blocks_used = 21;
  blocknr_hint_default = 30;
  delete_mutex_owner = none;
  rdonly = false;
}

abbrev mounted : Fs
mounted = record {
  sb = device;
  ctx = record { grabbed_blocks = 3; grab_enabled = true; ro = false };
  atom = record { flush_reserved = 2; nr_blocks_allocated = 7 };
  fake_gen = 0;
}

mounted-IsValid : IsValid 1 0 mounted
mounted-IsValid = omega arith

abbrev plain : Flags
plain = record {
  reserved = false;
  can_commit = true;
  formatted = true;
  defer = false;
  permanent = true;
  force = false;
  use_default_search_start = false;
}

-- A commit that frees all that the deleted files used, and moves a grabbed block of this context to
-- the flush reserve of its atom.
abbrev freeing : Fs → Fs
freeing fs = record fs {
  sb = record fs.sb {
    blocks_free = fs.sb.blocks_free + (fs.sb.blocks_used - fs.sb.min_blocks_used);
    blocks_used = fs.sb.min_blocks_used;
    blocks_grabbed = fs.sb.blocks_grabbed - 1;
    blocks_flush_reserved = fs.sb.blocks_flush_reserved + 1;
  };
  ctx = record fs.ctx { grabbed_blocks = fs.ctx.grabbed_blocks - 1; grab_enabled = false };
  atom = record fs.atom { flush_reserved = fs.atom.flush_reserved + 1 };
}

freeing-Committed : Committed mounted (freeing mounted)
freeing-Committed = record {
  contexts = 1;
  atoms = 0;
  valid = omega arith;
  same_reserved = refl;
  writable = refl;
}

-- A plain allocator whose state is the first block that it has not given away.
abbrev bump : Allocator ℕ
bump = record {
  alloc = λ next hint n.
      if ltb 100 (next + n) then (no_region enospc, next) else (region next n, next + n);
  dealloc = λ next start len. next;
}

bump-Within : (s : ℕ) (hint : Hint) (n : ℕ) → 1 ≤ n → Within n (bump.alloc s hint n).0
bump-Within s hint n h = ground arith

abbrev uncounted : Hint
uncounted = record {
  blk = 30;
  max_dist = 0;
  level = 1;
  block_stage = not_counted;
  backward = false;
}

-- 47 blocks are more than the reserve leaves of the 50 free ones: the request succeeds after a commit.
grab_after_commit : (grab_space freeing mounted 47 plain).1.ctx.grabbed_blocks ≡ 49
unfolding grab_space commit_and_retry grab retry_after_commit
grab_after_commit = refl

grab_refused : (grab mounted 47 plain).0 ≡ failed enospc
unfolding grab
grab_refused = refl

used_blocks : Option Fs → ℕ
used_blocks none = 0
used_blocks (some fs) = fs.sb.blocks_used

used_after : used_blocks (perform (to_used 3) mounted) ≡ 43
unfolding used_blocks perform
used_after = refl

perform-IsValid_example : Returns (IsValid 1 0) (perform (fake_to_free 2 true) mounted)
perform-IsValid_example =
    perform-IsValid (fake_to_free 2 true) mounted mounted-IsValid (omega arith)

perform_refines_example :
    Returns
      (λ fs. counters fs ≡ move Kind.grabbed Kind.flush 3 (counters mounted))
      (perform (to_flush 3) mounted)
perform_refines_example = perform_refines (to_flush 3) mounted mounted-IsValid (omega arith)

grab_space_lem_example :
    Obtained 1 0 47 plain mounted
      (freeing mounted)
      freeing-Committed
      (grab_space freeing mounted 47 plain)
grab_space_lem_example =
    grab_space_lem freeing 1 0 47 plain mounted freeing-Committed mounted-IsValid (omega arith) refl

freed-allocated_example :
    Returns
      (λ fs. account_freed fs unallocated 2 plain ≡ mounted)
      (account_allocated mounted unallocated 2 plain)
freed-allocated_example =
    freed-allocated unallocated 2 plain mounted mounted-IsValid (omega arith) (λ e. cc)

alloc_blocks-Completed_example :
    Completed 1 0 47 not_counted plain mounted
      (freeing mounted)
      freeing-Committed
      (alloc_blocks bump freeing mounted 40 uncounted 47 plain)
alloc_blocks-Completed_example =
    alloc_blocks-Completed bump freeing bump-Within 1 0 47 plain mounted 40 uncounted
      freeing-Committed mounted-IsValid (omega arith) (omega arith) (omega arith) refl tt

-- Task 7 asks for more than there is, takes the delete mutex, and is told after giving it back.
grab_reserved-Told_example : Told 7 (grab_reserved (λ fs. fs) (λ fs. fs) 7 mounted 60 plain)
grab_reserved-Told_example = grab_reserved-Told (λ fs. fs) (λ fs. fs) 7 mounted 60 plain

reserved_refused : (grab_reserved (λ fs. fs) (λ fs. fs) 7 mounted 60 plain).0 ≡ failed enospc
unfolding grab_reserved grab_space commit_and_retry grab grab_locked or_release retry_after_commit
reserved_refused = refl

-- The same call on bitmaps in which every block is free.
abbrev all_free : Nodes
all_free i = record {
  wpage = (λ j. false);
  cpage = (λ j. false);
  first_zero_bit = 0;
  loaded = true;
}

bitmap_allocator-Completed_example :
    Completed 1 0 10 not_counted plain mounted (freeing mounted) freeing-Committed (
      alloc_blocks
        (bitmap_allocator 8 (λ i. success) (λ b n o. o) 100)
        freeing
        mounted
        all_free
        uncounted
        10
        plain)
bitmap_allocator-Completed_example =
    bitmap_allocator-Completed 8 (λ i. success) (λ b n o. o) 100 freeing 1 0 10 plain mounted
      all_free uncounted freeing-Committed mounted-IsValid (omega arith) (omega arith) (omega arith)
      refl tt
