-- ===== src/Space/Alloc.antt =====
-- Allocating and freeing real disk blocks: reiser4_alloc_blocks, reiser4_dealloc_blocks,
-- allocate_blocks_unformatted, apply_dset and the default search hint of block_alloc.c.
-- The space allocator (plugin/space/) is behind the interface `Allocator`.
use reiser.Base.{
  ℕ, ◌^◌, ◌%◌, Bool, true, false, Option, none, some, if◌then◌else◌, ltb, ◌>>=◌, add64, sub64,
}
use reiser.Space.State.{
  Fs, Flags, Stage, not_counted, grabbed, flush_reserved, unallocated, allocated,
}
use reiser.Space.Transfer.{
  grabbed2free, grabbed2used, fake_allocated2used, flush_reserved2used, used2free, used2grabbed,
  used2fake_allocated, used2flush_reserved,
}
use reiser.Space.Grab.{Errno, Status, success, failed, grab_space}

-- `struct reiser4_blocknr_hint`
pub record Hint : Type 0 where
  pub blk : ℕ
  pub max_dist : ℕ
  pub level : ℕ
  pub block_stage : Stage
  pub backward : Bool

-- what sa_alloc_blocks returns: an error, or a region with its start and length
pub data Region : Type 0 where
  no_region : Errno → Region
  region : ℕ → ℕ → Region

-- sa_alloc_blocks and sa_dealloc_blocks, over the allocator's own state
pub record Allocator (S : Type 0) : Type 0 where
  pub alloc : S → Hint → ℕ → Region × S
  pub dealloc : S → ℕ → ℕ → S

unfoldable pub update_blocknr_hint_default : Fs → ℕ → Fs
update_blocknr_hint_default fs block =
    if ltb block fs.sb.block_count
    then record fs { sb = record fs.sb { blocknr_hint_default = block } }
    else fs

unfoldable pub get_blocknr_hint_default : Fs → ℕ
get_blocknr_hint_default fs = fs.sb.blocknr_hint_default

abbrev pub is_not_counted : Stage → Bool
is_not_counted not_counted = true
is_not_counted _ = false

-- the switch on the stage of the blocks that got allocated
unfoldable pub account_allocated : Fs → Stage → ℕ → Flags → Option Fs
unfolding grabbed2used fake_allocated2used flush_reserved2used
account_allocated fs not_counted len flags = grabbed2used fs len
account_allocated fs grabbed len flags = grabbed2used fs len
account_allocated fs unallocated len flags = some (fake_allocated2used fs len flags.formatted)
account_allocated fs flush_reserved len flags = some (flush_reserved2used fs len)
account_allocated fs allocated len flags = some fs

unfoldable pub count_permanent : Fs → ℕ → Flags → Fs
count_permanent fs len flags =
    if flags.permanent
    then record fs {
      atom = record fs.atom { nr_blocks_allocated = add64 fs.atom.nr_blocks_allocated len };
    }
    else fs

-- the switch on the target stage of the blocks that got freed
unfoldable pub account_freed : Fs → Stage → ℕ → Flags → Fs
unfolding used2free used2grabbed used2fake_allocated used2flush_reserved
account_freed fs not_counted len flags = used2free fs len
account_freed fs grabbed len flags = used2grabbed fs len
account_freed fs unallocated len flags = used2fake_allocated fs len flags.formatted
account_freed fs flush_reserved len flags = used2flush_reserved fs len
account_freed fs allocated len flags = fs

unfoldable pub uncount_permanent : Fs → ℕ → Flags → Fs
uncount_permanent fs len flags =
    if flags.permanent
    then record fs {
      atom = record fs.atom { nr_blocks_allocated = sub64 fs.atom.nr_blocks_allocated len };
    }
    else fs

abbrev pub start_hint : Fs → Hint → Flags → Hint
start_hint fs hint flags =
    if flags.use_default_search_start
    then record hint { blk = fs.sb.blocknr_hint_default }
    else hint

abbrev permanent_only : Flags
permanent_only = record {
  reserved = false;
  can_commit = false;
  formatted = false;
  defer = false;
  permanent = true;
  force = false;
  use_default_search_start = false;
}

-- A call returns its status, the counters, the state of the allocator, and the region. A call that
-- fails does not write the start, which is 0 here.
pub record Outcome (S : Type 0) : Type 0 where
  pub status : Status
  pub fs : Fs
  pub space : S
  pub start : ℕ
  pub len : ℕ

module _ {S : Type 0} (sa : Allocator S) (commit_all : Fs → Fs) where
  -- what follows the allocator's answer
  unfoldable pub finish_alloc : Fs → S → Stage → Region → ℕ → Flags → Option (Outcome S)
  finish_alloc fs space stage (region start len) needed flags = do
    fs' ← account_allocated (count_permanent fs len flags) stage len flags
    some (record { status = success; fs = fs'; space = space; start = start; len = len })
  finish_alloc fs space stage (no_region e) needed flags = do
    fs' ← if is_not_counted stage then grabbed2free fs needed else some fs
    some (record { status = failed e; fs = fs'; space = space; start = 0; len = needed })

  unfoldable pub call_allocator : Fs → S → Hint → ℕ → Flags → Option (Outcome S)
  call_allocator fs space hint needed flags =
      let (answer, space') = sa.alloc space hint (needed % 2 ^ 32) in
      finish_alloc fs space' hint.block_stage answer needed flags

  -- the answer of reiser4_grab_space_force
  unfoldable pub after_grab : Status × Fs → S → Hint → ℕ → Flags → Option (Outcome S)
  after_grab (failed e, fs) space hint needed flags =
      some (record { status = failed e; fs = fs; space = space; start = 0; len = needed })
  after_grab (success, fs) space hint needed flags = call_allocator fs space hint needed flags

  unfoldable pub alloc_blocks : Fs → S → Hint → ℕ → Flags → Option (Outcome S)
  alloc_blocks fs space hint needed flags =
      let hint' = start_hint fs hint flags in
      if is_not_counted hint'.block_stage
      then after_grab (grab_space commit_all fs needed (record flags { force = true })) space hint'
          needed flags
      else call_allocator fs space hint' needed flags

  -- What is returned is the outcome of the allocation, and the hint for the next one.
  unfoldable pub allocate_blocks_unformatted : Fs → S → Hint → ℕ → Stage → Option (Outcome S × Hint)
  allocate_blocks_unformatted fs space preceder wanted stage =
      let hint = record preceder { max_dist = 0; block_stage = stage } in
      do
        out ← alloc_blocks fs space hint wanted permanent_only
        some (out, record hint { blk = sub64 (add64 out.start out.len) 1 })

module _ {S : Type 0} (sa : Allocator S) where
  -- `dset_add` is the loop round atom_dset_deferred_add_extent (txnmgr.c): what it returns, and the
  -- atom's delete set after it.
  module _ {D : Type 0} (dset_add : D → ℕ → ℕ → Status × D) where
    unfoldable pub dealloc_blocks : Fs → S → D → ℕ → ℕ → Stage → Flags → Status × Fs × S × D
    dealloc_blocks fs space dset start len stage flags =
        if flags.defer
        then (let (ret, dset') = dset_add dset start len in (ret, fs, space, dset'))
        else (
          success,
          account_freed (uncount_permanent fs len flags) stage len flags,
          sa.dealloc space start len,
          dset,
        )

  -- The actor of the delete set; `none` is a single block.
  unfoldable pub apply_dset : Fs → S → ℕ → Option ℕ → Fs × S
  apply_dset fs space a none = (used2free fs 1, sa.dealloc space a 1)
  apply_dset fs space a (some len) = (used2free fs len, sa.dealloc space a len)
