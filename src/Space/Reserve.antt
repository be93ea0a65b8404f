-- ===== src/Space/Reserve.antt =====
-- Grabbing space (reiser4_grab, reiser4_grab_space): what a refused and a granted request leave, also
-- after a commit.
use reiser.Base.{
  ℕ, ◌+◌, ◌^◌, ◌≤◌, ◌<◌, ◌≡◌, ◌||◌, ◌⊎◌, inl, inr, if_cases, refl, not, ◌&&◌, Bool, true, false,
  if◌then◌else◌, arith,
}
use reiser.Space.State.{Fs, Flags, check_block_counters}
use reiser.Space.Grab.{
  enospc, Status, success, failed, grab, retry_after_commit, commit_and_retry, grab_space,
}
use reiser.Space.Invariant.{IsValid}

-- Valid counters pass the check that the source runs after every change.
pub check_block_counters_valid :
    {contexts atoms : ℕ} {fs : Fs} → IsValid contexts atoms fs → check_block_counters fs.sb ≡ true
unfolding check_block_counters
check_block_counters_valid v = ground arith

-- The free space that a request may not touch.
abbrev pub kept_back : Fs → Flags → ℕ
kept_back fs flags = if flags.reserved then 0 else fs.sb.blocks_reserved

pub record Granted (contexts atoms count : ℕ) (flags : Flags) (fs fs' : Fs) : Type 0 where
  pub valid : IsValid contexts atoms fs'
  pub taken : fs'.sb.blocks_free + count ≡ fs.sb.blocks_free
  pub owned : fs'.ctx.grabbed_blocks ≡ fs.ctx.grabbed_blocks + count
  pub used : fs'.sb.blocks_used ≡ fs.sb.blocks_used
  pub same_atom : fs'.atom ≡ fs.atom
  pub spared : kept_back fs flags ≤ fs'.sb.blocks_free
  pub disabled : fs'.ctx.grab_enabled ≡ false

-- What a request for `count` blocks may come back with.
abbrev pub GrabResult : (contexts atoms count : ℕ) → Flags → Fs → Status × Fs → Type 0
GrabResult contexts atoms count flags fs (success, fs') = Granted contexts atoms count flags fs fs'
GrabResult contexts atoms count flags fs (failed e, fs') =
    (e ≡ enospc) × (fs' ≡ fs) × (fs.sb.blocks_free < count + kept_back fs flags)

-- reiser4_grab, on a writable file system with valid counters and where the request and the reserve
-- do not wrap: it grants the request, or fails with ENOSPC, which it does only where the free blocks
-- do not cover the request and the reserve that is kept back from it, and then nothing changes.
pub grab_lem :
    (count : ℕ) (flags : Flags) {contexts atoms : ℕ} (fs : Fs)
    → IsValid contexts atoms fs
    → count + fs.sb.blocks_reserved < 2 ^ 64
    → fs.sb.rdonly ≡ false
    → GrabResult contexts atoms count flags fs (grab fs count flags)
unfolding grab
grab_lem count flags fs v small w = ground arith

-- What the source relies on of a commit of all transactions, which may move the blocks of this context
-- and of every atom: it leaves valid counters, the reserve of the super block, which is constant, and a
-- writable file system.
pub record Committed (fs after : Fs) : Type 0 where
  pub contexts : ℕ
  pub atoms : ℕ
  pub valid : IsValid contexts atoms after
  pub same_reserved : after.sb.blocks_reserved ≡ fs.sb.blocks_reserved
  pub writable : after.sb.rdonly ≡ false

-- The state in which the request is tried again.
abbrev pub enable : Fs → Fs
enable fs = record fs { ctx = record fs.ctx { grab_enabled = true } }

-- The free blocks do not cover a request and the reserve that is kept back from it.
abbrev pub Short : ℕ → Flags → Fs → Type 0
Short count flags fs = fs.sb.blocks_free < count + kept_back fs flags

-- A request that may commit does not fail at the first attempt.
abbrev pub Final : Flags → Status × Fs → Type 0
Final flags (success, fs') = Unit
Final flags (failed e, fs') = flags.can_commit ≡ false

-- The answer is that of the first attempt, or, where that finds too few blocks and the request may
-- commit, of a second one on what the commit has left.
abbrev pub Obtained :
    (contexts atoms count : ℕ) → Flags → (fs after : Fs) → Committed fs after → Status × Fs → Type 0
Obtained contexts atoms count flags fs after c r =
    (GrabResult contexts atoms count flags fs r × Final flags r)
    ⊎ (Short count flags fs
        × (flags.can_commit ≡ true)
        × GrabResult c.contexts c.atoms count flags (enable after) r)

pub enable-IsValid :
    {contexts atoms : ℕ} (fs : Fs) → IsValid contexts atoms fs → IsValid contexts atoms (enable fs)
enable-IsValid fs v = ground arith

-- Either switch opens the gate.
gate {ℓ} :
    {A : Type ℓ} (P : A → Type ℓ) (f e : Bool) (first second : A)
    → P first
    → (if f || e
        then P (if not f && not e then second else first)
        else ((if not f && not e then second else first) ≡ second))
gate P true e first second h = h
gate P false true first second h = h
gate P false false first second h = refl

module _ (commit_all : Fs → Fs) (contexts atoms count : ℕ) (flags : Flags) (fs : Fs)
    (c : Committed fs (commit_all fs)) (v : IsValid contexts atoms fs)
    (small : count + fs.sb.blocks_reserved < 2 ^ 64) (writable : fs.sb.rdonly ≡ false) where
  retry_lem :
      GrabResult c.contexts c.atoms count flags
        (enable (commit_all fs))
        (retry_after_commit commit_all fs count flags)
  unfolding retry_after_commit
  retry_lem =
      let after = commit_all fs in
      grab_lem count flags (enable after) (enable-IsValid after c.valid) (rw c.same_reserved small)
        c.writable

  commit_and_retry-Obtained :
      (r : Status × Fs)
      → GrabResult contexts atoms count flags fs r
      → Obtained contexts atoms count flags fs
          (commit_all fs)
          c
          (commit_and_retry commit_all count flags r)
  unfolding commit_and_retry
  commit_and_retry-Obtained (success, fs') g = inl (g, tt)
  commit_and_retry-Obtained (failed enospc, fs') g =
      if_cases (Obtained contexts atoms count flags fs (commit_all fs) c) flags.can_commit
        (λ t. inr (g.2, t, rw g.1 retry_lem)) (λ f. inl (g, f))
  commit_and_retry-Obtained (failed e, fs') g = absurd cc

  -- reiser4_grab_space, on a writable file system with valid counters, where the request and the reserve
  -- do not wrap, and where a commit of all transactions leaves valid counters, the same reserve and a
  -- writable file system. Where grabbing is enabled or forced, the answer is that of reiser4_grab: the
  -- blocks are taken from the free ones and owned besides those of before, the reserve is spared
  -- and grabbing is disabled; or it is ENOSPC, nothing is changed, the free blocks do not cover the
  -- request and its reserve, and the request may not commit. Or they do not cover it at first and the
  -- request may commit, and the answer is that of reiser4_grab on what the commit has left. Where
  -- grabbing is disabled and not forced, it returns 0 and changes nothing.
  pub grab_space_lem :
      if flags.force || fs.ctx.grab_enabled
      then Obtained contexts atoms count flags fs
          (commit_all fs)
          c
          (grab_space commit_all fs count flags)
      else (grab_space commit_all fs count flags ≡ (success, fs))
  unfolding grab_space
  grab_space_lem =
      gate (Obtained contexts atoms count flags fs (commit_all fs) c) flags.force
        fs.ctx.grab_enabled _ _
        (commit_and_retry-Obtained (grab fs count flags) (grab_lem count flags fs v small writable))
