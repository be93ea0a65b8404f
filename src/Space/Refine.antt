-- ===== src/Space/Refine.antt =====
-- Each call moves one number of blocks from one counter to another, and touches nothing else.
use reiser.Base.{ℕ, ◌+◌, ◌-◌, ◌≡◌, Bool, true, false, arith}
use reiser.Space.State.{Fs}
use reiser.Space.Invariant.{
  IsValid, Call, to_fake_formatted, to_free_all, to_fake_unformatted, to_cluster,
  cluster_to_grabbed, cluster_to_free, to_used, flush_to_used, used_to_flush, to_free, to_free_mark,
  to_flush, flush_to_grabbed, used_to_grabbed, used_to_free, fake_to_used, used_to_fake,
  fake_to_grabbed, fake_to_free, perform, Allowed, Returns,
}

-- The states that a block can be counted in.
pub data Kind : Type 0 where
  free used grabbed formatted unformatted flush clustered : Kind

-- How many blocks there are of each kind.
pub record Counters : Type 0 where
  pub free_blocks : ℕ
  pub used_blocks : ℕ
  pub grabbed_blocks : ℕ
  pub formatted_blocks : ℕ
  pub unformatted_blocks : ℕ
  pub flush_blocks : ℕ
  pub clustered_blocks : ℕ

abbrev pub counters : Fs → Counters
counters fs = record {
  free_blocks = fs.sb.blocks_free;
  used_blocks = fs.sb.blocks_used;
  grabbed_blocks = fs.sb.blocks_grabbed;
  formatted_blocks = fs.sb.blocks_fake_allocated;
  unformatted_blocks = fs.sb.blocks_fake_allocated_unformatted;
  flush_blocks = fs.sb.blocks_flush_reserved;
  clustered_blocks = fs.sb.blocks_clustered;
}

-- The counters with one of them changed.
abbrev change : Kind → (ℕ → ℕ) → Counters → Counters
change free f c = record c { free_blocks = f c.free_blocks }
change used f c = record c { used_blocks = f c.used_blocks }
change grabbed f c = record c { grabbed_blocks = f c.grabbed_blocks }
change formatted f c = record c { formatted_blocks = f c.formatted_blocks }
change unformatted f c = record c { unformatted_blocks = f c.unformatted_blocks }
change flush f c = record c { flush_blocks = f c.flush_blocks }
change clustered f c = record c { clustered_blocks = f c.clustered_blocks }

abbrev pub move : Kind → Kind → ℕ → Counters → Counters
move from to n c = change to (λ k. k + n) (change from (λ k. k - n) c)

abbrev fake_kind : Bool → Kind
fake_kind true = formatted
fake_kind false = unformatted

abbrev pub source : Call → Kind
source (cluster_to_grabbed n) = clustered
source (cluster_to_free n) = clustered
source (flush_to_used n) = flush
source (flush_to_grabbed n) = flush
source (used_to_flush n) = used
source (used_to_grabbed n) = used
source (used_to_free n) = used
source (used_to_fake n f) = used
source (fake_to_used n f) = fake_kind f
source (fake_to_grabbed n f) = fake_kind f
source (fake_to_free n f) = fake_kind f
source _ = grabbed

abbrev pub target : Call → Kind
target to_fake_formatted = formatted
target (to_fake_unformatted n) = unformatted
target (to_cluster n) = clustered
target (cluster_to_grabbed n) = grabbed
target (to_used n) = used
target (flush_to_used n) = used
target (used_to_flush n) = flush
target (to_flush n) = flush
target (flush_to_grabbed n) = grabbed
target (used_to_grabbed n) = grabbed
target (fake_to_used n f) = used
target (used_to_fake n f) = fake_kind f
target (fake_to_grabbed n f) = grabbed
target _ = free

abbrev pub amount : Call → Fs → ℕ
amount to_fake_formatted fs = 1
amount to_free_all fs = fs.ctx.grabbed_blocks
amount (to_free_mark n) fs = fs.ctx.grabbed_blocks - n
amount (to_fake_unformatted n) fs = n
amount (to_cluster n) fs = n
amount (cluster_to_grabbed n) fs = n
amount (cluster_to_free n) fs = n
amount (to_used n) fs = n
amount (flush_to_used n) fs = n
amount (used_to_flush n) fs = n
amount (to_free n) fs = n
amount (to_flush n) fs = n
amount (flush_to_grabbed n) fs = n
amount (used_to_grabbed n) fs = n
amount (used_to_free n) fs = n
amount (fake_to_used n f) fs = n
amount (used_to_fake n f) fs = n
amount (fake_to_grabbed n f) fs = n
amount (fake_to_free n f) fs = n

-- From valid counters, a call that the assertions allow takes its amount off its source counter
-- and adds it to its target counter, exactly; the other five counters stay what they were.
pub perform_refines :
    (call : Call) {contexts atoms : ℕ} (fs : Fs)
    → IsValid contexts atoms fs
    → Allowed call fs
    → Returns
        (λ fs'. counters fs' ≡ move (source call) (target call) (amount call fs) (counters fs))
        (perform call fs)
unfolding perform
perform_refines to_fake_formatted fs v h = ground arith
perform_refines (fake_to_used n true) fs v h = ground arith
perform_refines (fake_to_used n false) fs v h = ground arith
perform_refines (used_to_fake n true) fs v h = ground arith
perform_refines (used_to_fake n false) fs v h = ground arith
perform_refines (fake_to_grabbed n true) fs v h = ground arith
perform_refines (fake_to_grabbed n false) fs v h = ground arith
perform_refines (fake_to_free n true) fs v h = ground arith
perform_refines (fake_to_free n false) fs v h = ground arith
perform_refines _ fs v h = ground arith
