-- ===== src/Space/Stages.antt =====
-- Allocation and deallocation of real blocks, stage by stage.
use reiser.Base.{
  ℕ, ◌+◌, ◌^◌, ◌≤◌, ◌<◌, ◌≡◌, ◌≢◌, refl, ap, Option, none, some, if◌then◌else◌, arith, ◌>>=◌,
}
use reiser.Space.State.{
  Sb, Ctx, Fs, Flags, Stage, not_counted, grabbed, flush_reserved, unallocated, allocated,
}
use reiser.Space.Transfer.{grabbed2free}
use reiser.Space.Grab.{Errno, Status, success, failed}
use reiser.Space.Alloc.{
  Region, no_region, region, Allocator, account_allocated, count_permanent, Outcome, is_not_counted,
  finish_alloc, account_freed,
}
use reiser.Space.Invariant.{IsValid, fake, Returns}

-- Where blocks of the stage are counted before they are allocated, there are `n` of them.
abbrev pub Has : Stage → ℕ → Flags → Fs → Type 0
Has not_counted n flags fs = n ≤ fs.ctx.grabbed_blocks
Has grabbed n flags fs = n ≤ fs.ctx.grabbed_blocks
Has unallocated n flags fs = n ≤ fake flags.formatted fs.sb
Has flush_reserved n flags fs = (n ≤ fs.atom.flush_reserved) × (n < 2 ^ 32)
Has allocated n flags fs = Unit

-- How many of `len` blocks of the stage become used ones, and how many are no longer grabbed.
abbrev pub mapped : Stage → ℕ → ℕ
mapped allocated len = 0
mapped _ len = len

abbrev pub spent : Stage → ℕ → ℕ
spent not_counted len = len
spent grabbed len = len
spent _ len = 0

-- The blocks that an uncounted allocation grabs for itself.
abbrev pub grabbed_by : Stage → ℕ → ℕ
grabbed_by not_counted needed = needed
grabbed_by _ needed = 0

-- The blocks of the stage have become used ones.
abbrev Mapped : (contexts atoms : ℕ) → Stage → ℕ → (fs fs' : Fs) → Type 0
Mapped contexts atoms stage len fs fs' =
    IsValid contexts atoms fs'
    × (fs'.sb.blocks_used ≡ fs.sb.blocks_used + mapped stage len)
    × (fs'.sb.blocks_free ≡ fs.sb.blocks_free)
    × (fs'.ctx.grabbed_blocks + spent stage len ≡ fs.ctx.grabbed_blocks)

-- Mapping blocks of any stage to disk keeps the counters valid, and never meets the `BUG_ON`.
account_allocated-Mapped :
    (stage : Stage) (n : ℕ) (flags : Flags) {contexts atoms : ℕ} (fs : Fs)
    → IsValid contexts atoms fs
    → Has stage n flags fs
    → Returns (Mapped contexts atoms stage n fs) (account_allocated fs stage n flags)
unfolding account_allocated
account_allocated-Mapped not_counted n flags fs v h = ground arith
account_allocated-Mapped _ n flags fs v h = ground arith

-- From valid counters, with `n` blocks counted in a stage other than BLOCK_NOT_COUNTED, a deallocation
-- of `n` blocks to the stage takes back an allocation of `n` blocks from it: every counter of the super
-- block, the context and the atom is as it was.
pub freed-allocated :
    (stage : Stage) (n : ℕ) (flags : Flags) {contexts atoms : ℕ} (fs : Fs)
    → IsValid contexts atoms fs
    → Has stage n flags fs
    → stage ≢ not_counted
    → Returns (λ fs'. account_freed fs' stage n flags ≡ fs) (account_allocated fs stage n flags)
unfolding account_allocated account_freed
freed-allocated not_counted n flags fs v h ne = absurd (ne refl)
freed-allocated _ n flags fs v h ne = ground arith

-- A region that the allocator returns is no longer than what it was asked for.
abbrev pub Within : ℕ → Region → Type 0
Within n (no_region e) = Unit
Within n (region start len) = len ≤ n

-- What an allocation of `len` of the `needed` blocks leaves: the used blocks are `len` more (none more for
-- blocks that were counted as used), an uncounted request has taken the needed blocks from the free
-- ones and still owns those that it did not use, and no other blocks have left the free ones.
pub record Allocated (contexts atoms needed len : ℕ) (stage : Stage) (fs fs' : Fs) : Type 0 where
  pub valid : IsValid contexts atoms fs'
  pub within : len ≤ needed
  pub used : fs'.sb.blocks_used ≡ fs.sb.blocks_used + mapped stage len
  pub free : fs'.sb.blocks_free + grabbed_by stage needed ≡ fs.sb.blocks_free
  pub owned :
      fs'.ctx.grabbed_blocks + spent stage len ≡ fs.ctx.grabbed_blocks + grabbed_by stage needed

-- What an allocation that fails leaves: the blocks of before, also those that it grabbed itself.
pub record Undone (contexts atoms : ℕ) (fs fs' : Fs) : Type 0 where
  pub valid : IsValid contexts atoms fs'
  pub used : fs'.sb.blocks_used ≡ fs.sb.blocks_used
  pub free : fs'.sb.blocks_free ≡ fs.sb.blocks_free
  pub owned : fs'.ctx.grabbed_blocks ≡ fs.ctx.grabbed_blocks
  pub same_atom : fs'.atom ≡ fs.atom

-- How an allocation of at most `needed` blocks from the state `fs` may end.
abbrev pub Ends :
    {S : Type 0} → (contexts atoms needed : ℕ) → Stage → Fs → Status → Outcome S → Type 0
Ends contexts atoms needed stage fs success out =
    Allocated contexts atoms needed out.len stage fs out.fs
Ends contexts atoms needed stage fs (failed e) out = Undone contexts atoms fs out.fs

abbrev pub Finished :
    {S : Type 0} → (contexts atoms needed : ℕ) → Stage → Fs → Option (Outcome S) → Type 0
Finished contexts atoms needed stage fs none = ⊥
Finished contexts atoms needed stage fs (some out) =
    Ends contexts atoms needed stage fs out.status out

-- The state in which the allocator is called: the blocks of an uncounted allocation are grabbed.
pub record Ready (contexts atoms needed : ℕ) (stage : Stage) (flags : Flags) (fs fs' : Fs)
    : Type 0 where
  pub valid : IsValid contexts atoms fs'
  pub has : Has stage needed flags fs'
  pub used : fs'.sb.blocks_used ≡ fs.sb.blocks_used
  pub free : fs'.sb.blocks_free + grabbed_by stage needed ≡ fs.sb.blocks_free
  pub owned : fs'.ctx.grabbed_blocks ≡ fs.ctx.grabbed_blocks + grabbed_by stage needed
  pub same_atom : fs'.atom ≡ fs.atom

-- What a permanent allocation leaves alone.
count_permanent_lem :
    (n : ℕ) (flags : Flags) {contexts atoms : ℕ} (fs : Fs)
    → IsValid contexts atoms fs
    → let fs' = count_permanent fs n flags in
      IsValid contexts atoms fs' × (fs'.sb ≡ fs.sb) × (fs'.ctx ≡ fs.ctx)
unfolding count_permanent
count_permanent_lem n flags fs v = ground arith

Has-count_permanent :
    (stage : Stage) (len needed : ℕ) (flags : Flags) (fs : Fs)
    → len ≤ needed
    → Has stage needed flags fs
    → Has stage len flags (count_permanent fs len flags)
unfolding count_permanent
Has-count_permanent not_counted len needed flags fs w h = ground arith
Has-count_permanent _ len needed flags fs w h = ground arith

refund_lem :
    (stage : Stage) (needed : ℕ) (flags : Flags) {contexts atoms : ℕ} (base fs : Fs)
    → Ready contexts atoms needed stage flags base fs
    → Returns
        (Undone contexts atoms base)
        (if is_not_counted stage then grabbed2free fs needed else some fs)
unfolding grabbed2free
refund_lem not_counted needed flags base fs r = ground arith
refund_lem _ needed flags base fs r = ground arith

module _ {S : Type 0} (sa : Allocator S) (commit_all : Fs → Fs) where
  complete :
      (stage : Stage) (contexts atoms needed start len : ℕ) (flags : Flags) (space : S)
      (base fs fs2 : Fs) (m : Option Fs)
      → Ready contexts atoms needed stage flags base fs
      → (fs2.sb ≡ fs.sb) × (fs2.ctx ≡ fs.ctx)
      → Returns (Mapped contexts atoms stage len fs2) m
      → len ≤ needed
      → Finished contexts atoms needed stage base (
          m >>= λ fs'.
          some (record { status = success; fs = fs'; space = space; start = start; len = len }))
  complete stage contexts atoms needed start len flags space base fs fs2 none d e r w = r
  complete stage contexts atoms needed start len flags space base fs fs2 (some fs') d (e, f)
        (v, u, g, o) w =
      let u2 : fs2.sb.blocks_used ≡ fs.sb.blocks_used = ap (λ (x : Sb). x.blocks_used) e in
      let g2 : fs2.sb.blocks_free ≡ fs.sb.blocks_free = ap (λ (x : Sb). x.blocks_free) e in
      let o2 : fs2.ctx.grabbed_blocks ≡ fs.ctx.grabbed_blocks =
        ap (λ (x : Ctx). x.grabbed_blocks) f in
      record {
        valid = v;
        within = w;
        used = omega (arith, d.used, u, u2);
        free = omega (arith, d.free, g, g2);
        owned = omega (arith, d.owned, o, o2);
      }

  give_up :
      (stage : Stage) (contexts atoms needed : ℕ) (e : Errno) (base : Fs) (space : S)
      (m : Option Fs)
      → Returns (Undone contexts atoms base) m
      → Finished contexts atoms needed stage base (
          m >>= λ fs'.
          some (record { status = failed e; fs = fs'; space = space; start = 0; len = needed }))
  give_up stage contexts atoms needed e base space none r = r
  give_up stage contexts atoms needed e base space (some fs') r = r

  pub finish_alloc-Finished :
      (stage : Stage) (answer : Region) (needed : ℕ) (flags : Flags) {contexts atoms : ℕ}
      (base fs : Fs) (space : S)
      → Ready contexts atoms needed stage flags base fs
      → Within needed answer
      → Finished contexts atoms needed stage base
          (finish_alloc sa commit_all fs space stage answer needed flags)
  unfolding finish_alloc
  finish_alloc-Finished stage (region start len) needed flags {contexts} {atoms} base fs space d w =
      let counted = count_permanent_lem len flags fs d.valid in
      complete stage contexts atoms needed start len flags space base fs
        (count_permanent fs len flags)
        (account_allocated (count_permanent fs len flags) stage len flags) d (counted.1, counted.2)
        (account_allocated-Mapped stage len flags (count_permanent fs len flags) counted.0
          (Has-count_permanent stage len needed flags fs w d.has))
        w
  finish_alloc-Finished stage (no_region e) needed flags {contexts} {atoms} base fs space d w =
      give_up stage contexts atoms needed e base space
        (if is_not_counted stage then grabbed2free fs needed else some fs)
        (refund_lem stage needed flags base fs d)
