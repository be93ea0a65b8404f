-- ===== src/Space/Invariant.antt =====
-- What the counters promise, and that every transfer whose source counter holds enough keeps it.
use reiser.Base.{ℕ, ◌+◌, ◌^◌, ◌≤◌, ◌<◌, ◌≡◌, Bool, Option, none, some, if◌then◌else◌, arith}
use reiser.Space.State.{Sb, Fs}
use reiser.Space.Transfer.{
  grabbed2fake_allocated_formatted, grabbed2fake_allocated_unformatted, grabbed2cluster_reserved,
  cluster_reserved2grabbed, cluster_reserved2free, grabbed2used, fake_allocated2used,
  flush_reserved2used, used2fake_allocated, used2flush_reserved, fake_allocated2grabbed,
  fake_allocated2free, grabbed2free, grabbed2free_mark, grabbed2flush_reserved_nolock,
  flush_reserved2grabbed, all_grabbed2free, used2grabbed, used2free,
}

-- The counters at their exact values: `contexts` blocks are grabbed by the other contexts, and
-- `atoms` blocks are reserved for flush by the other atoms. Real block numbers have 63 bits.
pub record IsValid (contexts atoms : ℕ) (fs : Fs) : Type 0 where
  pub total :
      fs.sb.blocks_free + fs.sb.blocks_used + fs.sb.blocks_grabbed + fs.sb.blocks_fake_allocated
        + fs.sb.blocks_fake_allocated_unformatted + fs.sb.blocks_flush_reserved
        + fs.sb.blocks_clustered
      ≡ fs.sb.block_count
  pub small : fs.sb.block_count < 2 ^ 63
  pub grabbed_sum : fs.sb.blocks_grabbed ≡ fs.ctx.grabbed_blocks + contexts
  pub flush_sum : fs.sb.blocks_flush_reserved ≡ fs.atom.flush_reserved + atoms
  pub least_used : fs.sb.min_blocks_used ≤ fs.sb.blocks_used

-- One call of a function of `Transfer`.
pub data Call : Type 0 where
  to_fake_formatted to_free_all : Call
  to_fake_unformatted to_cluster cluster_to_grabbed cluster_to_free to_used flush_to_used
        used_to_flush to_free to_free_mark to_flush flush_to_grabbed used_to_grabbed used_to_free :
      ℕ → Call
  fake_to_used used_to_fake fake_to_grabbed fake_to_free : ℕ → Bool → Call

unfoldable pub perform : Call → Fs → Option Fs
unfolding grabbed2fake_allocated_formatted grabbed2fake_allocated_unformatted
    grabbed2cluster_reserved cluster_reserved2grabbed cluster_reserved2free grabbed2used
    fake_allocated2used flush_reserved2used used2fake_allocated used2flush_reserved
    fake_allocated2grabbed fake_allocated2free grabbed2free grabbed2free_mark
    grabbed2flush_reserved_nolock flush_reserved2grabbed all_grabbed2free used2grabbed used2free
perform to_fake_formatted fs = grabbed2fake_allocated_formatted fs
perform to_free_all fs = all_grabbed2free fs
perform (to_fake_unformatted n) fs = grabbed2fake_allocated_unformatted fs n
perform (to_cluster n) fs = grabbed2cluster_reserved fs n
perform (cluster_to_grabbed n) fs = some (cluster_reserved2grabbed fs n)
perform (cluster_to_free n) fs = cluster_reserved2free fs n
perform (to_used n) fs = grabbed2used fs n
perform (flush_to_used n) fs = some (flush_reserved2used fs n)
perform (used_to_flush n) fs = some (used2flush_reserved fs n)
perform (to_free n) fs = grabbed2free fs n
perform (to_free_mark n) fs = grabbed2free_mark fs n
perform (to_flush n) fs = grabbed2flush_reserved_nolock fs n
perform (flush_to_grabbed n) fs = some (flush_reserved2grabbed fs n)
perform (used_to_grabbed n) fs = some (used2grabbed fs n)
perform (used_to_free n) fs = some (used2free fs n)
perform (fake_to_used n f) fs = some (fake_allocated2used fs n f)
perform (used_to_fake n f) fs = some (used2fake_allocated fs n f)
perform (fake_to_grabbed n f) fs = some (fake_allocated2grabbed fs n f)
perform (fake_to_free n f) fs = fake_allocated2free fs n f

abbrev pub fake : Bool → Sb → ℕ
fake formatted sb =
    if formatted then sb.blocks_fake_allocated else sb.blocks_fake_allocated_unformatted

-- What the assertions of the source ask of a call; and, which they do not ask, that an amount that is
-- counted in 32 bits by the atom fits into them.
abbrev pub Allowed : Call → Fs → Type 0
Allowed to_fake_formatted fs = 1 ≤ fs.ctx.grabbed_blocks
Allowed to_free_all fs = Unit
Allowed (to_fake_unformatted n) fs = n ≤ fs.ctx.grabbed_blocks
Allowed (to_cluster n) fs = n ≤ fs.ctx.grabbed_blocks
Allowed (cluster_to_grabbed n) fs = n ≤ fs.sb.blocks_clustered
Allowed (cluster_to_free n) fs = n ≤ fs.sb.blocks_clustered
Allowed (to_used n) fs = n ≤ fs.ctx.grabbed_blocks
Allowed (flush_to_used n) fs = (n ≤ fs.atom.flush_reserved) × (n < 2 ^ 32)
Allowed (used_to_flush n) fs = (n + fs.sb.min_blocks_used ≤ fs.sb.blocks_used) × (n < 2 ^ 32)
Allowed (to_free n) fs = n ≤ fs.ctx.grabbed_blocks
Allowed (to_free_mark n) fs = n ≤ fs.ctx.grabbed_blocks
Allowed (to_flush n) fs = (n ≤ fs.ctx.grabbed_blocks) × (n < 2 ^ 32)
Allowed (flush_to_grabbed n) fs = (n ≤ fs.atom.flush_reserved) × (n < 2 ^ 32)
Allowed (used_to_grabbed n) fs = n + fs.sb.min_blocks_used ≤ fs.sb.blocks_used
Allowed (used_to_free n) fs = n + fs.sb.min_blocks_used ≤ fs.sb.blocks_used
Allowed (fake_to_used n f) fs = n ≤ fake f fs.sb
Allowed (used_to_fake n f) fs = n + fs.sb.min_blocks_used ≤ fs.sb.blocks_used
Allowed (fake_to_grabbed n f) fs = n ≤ fake f fs.sb
Allowed (fake_to_free n f) fs = n ≤ fake f fs.sb

-- The call returns, and what it returns has the property.
abbrev pub Returns : (Fs → Type 0) → Option Fs → Type 0
Returns P none = ⊥
Returns P (some fs) = P fs

-- From valid counters, every call whose source counter holds the blocks that the assertions ask for, and
-- which moves fewer than 2^32 blocks where it changes the flush reserve of the atom (a __u32, to which
-- the code cuts the amount without a test), returns (no `BUG_ON`), wraps nowhere, and leaves valid
-- counters: the sum over all of them is still the size of the device, and the shares of the other
-- contexts and atoms are what they were.
pub perform-IsValid :
    (call : Call) {contexts atoms : ℕ} (fs : Fs)
    → IsValid contexts atoms fs
    → Allowed call fs
    → Returns (IsValid contexts atoms) (perform call fs)
unfolding perform
perform-IsValid to_fake_formatted fs v h = ground arith
perform-IsValid _ fs v h = ground arith
