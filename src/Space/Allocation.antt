-- ===== src/Space/Allocation.antt =====
-- reiser4_alloc_blocks as a whole: grabbing where the blocks are not counted, the space allocator,
-- and the counters.
use mathlib.Core.Path.{subst}
use reiser.Base.{
  ◌≤◌, ℕ, ◌+◌, ◌^◌, ◌%◌, ◌<◌, ◌≡◌, ◌⊎◌, ◌∙◌, inl, inr, Option, refl, sym, true, false, if_cases,
  arith,
}
use reiser.Space.State.{
  Fs, Flags, Stage, not_counted, grabbed, flush_reserved, unallocated, allocated,
}
use reiser.Space.Grab.{Status, success, failed, grab_space}
use reiser.Space.Alloc.{
  Hint, Allocator, Outcome, is_not_counted, start_hint, call_allocator, after_grab, alloc_blocks,
}
use reiser.Space.Invariant.{IsValid}
use reiser.Space.Reserve.{
  Granted, GrabResult, Short, Committed, Obtained, enable, enable-IsValid, grab_space_lem,
}
use reiser.Space.Stages.{Has, Within, Ready, Undone, Finished, finish_alloc-Finished}

-- What the caller must have counted: blocks that are not counted are grabbed by the call itself.
abbrev pub Needs : Stage → ℕ → Flags → Fs → Type 0
Needs not_counted n flags fs = Unit
Needs grabbed n flags fs = Has grabbed n flags fs
Needs unallocated n flags fs = Has unallocated n flags fs
Needs flush_reserved n flags fs = Has flush_reserved n flags fs
Needs allocated n flags fs = Unit

block_stage-start_hint :
    (fs : Fs) (hint : Hint) (flags : Flags)
    → (start_hint fs hint flags).block_stage ≡ hint.block_stage
block_stage-start_hint fs hint flags = ground arith

stage_of_test : (stage : Stage) → is_not_counted stage ≡ true → not_counted ≡ stage
stage_of_test not_counted e = refl
stage_of_test _ e = cc

counted_Ready :
    (stage : Stage) (n : ℕ) (flags : Flags) {contexts atoms : ℕ} (fs : Fs)
    → is_not_counted stage ≡ false
    → IsValid contexts atoms fs
    → Needs stage n flags fs
    → Ready contexts atoms n stage flags fs fs
counted_Ready not_counted n flags fs e v h = cc
counted_Ready grabbed n flags fs e v h = ground arith
counted_Ready flush_reserved n flags fs e v h = ground arith
counted_Ready unallocated n flags fs e v h = ground arith
counted_Ready allocated n flags fs e v h = ground arith

Granted-Ready :
    (contexts atoms needed : ℕ) (flags forced : Flags) (fs fs' : Fs)
    → Granted contexts atoms needed forced fs fs'
    → Ready contexts atoms needed not_counted flags fs fs'
Granted-Ready contexts atoms needed flags forced fs fs' g = record {
  valid = g.valid;
  has = omega (arith, g.owned);
  used = g.used;
  free = g.taken;
  owned = g.owned;
  same_atom = g.same_atom;
}

same-Undone :
    {contexts atoms : ℕ} (fs fs' : Fs)
    → IsValid contexts atoms fs
    → fs' ≡ fs
    → Undone contexts atoms fs fs'
same-Undone {contexts} {atoms} fs fs' v e =
    subst (λ x. Undone contexts atoms fs x) (sym e)
      (record { valid = v; used = refl; free = refl; owned = refl; same_atom = refl })

-- The allocation ends from the state of the call; or, of uncounted blocks where the free ones do not
-- cover them and the flags let it commit, from the state that the commit leaves.
abbrev pub Completed :
    {S : Type 0}
    → (contexts atoms needed : ℕ) → Stage
    → Flags
    → (fs after : Fs) → Committed fs after
    → Option (Outcome S)
    → Type 0
Completed contexts atoms needed stage flags fs after c r =
    Finished contexts atoms needed stage fs r
    ⊎ (stage ≡ not_counted
        × Short needed flags fs
        × (flags.can_commit ≡ true)
        × Finished c.contexts c.atoms needed stage (enable after) r)

module _ {S : Type 0} (sa : Allocator S) (commit_all : Fs → Fs)
    (bounded : (s : S) (hint : Hint) (n : ℕ) → 1 ≤ n → Within n (sa.alloc s hint n).0) where
  call_allocator-Finished :
      (contexts atoms needed : ℕ) (flags : Flags) (base fs : Fs) (space : S) (hint : Hint)
      → 1 ≤ needed
      → needed < 2 ^ 31
      → Ready contexts atoms needed hint.block_stage flags base fs
      → Finished contexts atoms needed hint.block_stage base
          (call_allocator sa commit_all fs space hint needed flags)
  unfolding call_allocator
  call_allocator-Finished contexts atoms needed flags base fs space hint m n d =
      let int : needed % 2 ^ 32 ≡ needed = omega arith in
      let r = sa.alloc space hint (needed % 2 ^ 32) in
      finish_alloc-Finished sa commit_all hint.block_stage r.0 needed flags base fs r.1 d
        (subst (λ k. Within k r.0) int (bounded space hint (needed % 2 ^ 32) (omega arith)))

  after_grab-Finished :
      (contexts atoms needed : ℕ) (flags forced : Flags) (base : Fs) (r : Status × Fs) (space : S)
      (hint : Hint)
      → not_counted ≡ hint.block_stage
      → 1 ≤ needed
      → needed < 2 ^ 31
      → IsValid contexts atoms base
      → GrabResult contexts atoms needed forced base r
      → Finished contexts atoms needed hint.block_stage base
          (after_grab sa commit_all r space hint needed flags)
  unfolding after_grab
  after_grab-Finished contexts atoms needed flags forced base (success, fs) space hint e m n v g =
      call_allocator-Finished contexts atoms needed flags base fs space hint m n (
        subst (λ s. Ready contexts atoms needed s flags base fs) e
          (Granted-Ready contexts atoms needed flags forced base fs g))
  after_grab-Finished contexts atoms needed flags forced base (failed x, fs) space hint e m n v g =
      same-Undone base fs v g.1

  after_grab-Completed :
      (contexts atoms needed : ℕ) (flags forced : Flags) (fs after : Fs) (c : Committed fs after)
      (r : Status × Fs) (space : S) (hint : Hint)
      → not_counted ≡ hint.block_stage
      → 1 ≤ needed
      → needed < 2 ^ 31
      → IsValid contexts atoms fs
      → Obtained contexts atoms needed forced fs after c r
      → (forced.can_commit ≡ flags.can_commit)
      → (forced.reserved ≡ flags.reserved)
      → Completed contexts atoms needed hint.block_stage flags fs after c
          (after_grab sa commit_all r space hint needed flags)
  after_grab-Completed contexts atoms needed flags forced fs after c r space hint e m n v (inl g) a
        b =
      inl (after_grab-Finished contexts atoms needed flags forced fs r space hint e m n v g.0)
  after_grab-Completed contexts atoms needed flags forced fs after c r space hint e m n v (inr g) a
        b =
      inr (
        sym e,
        ground (arith, g.0, b),
        sym a ∙ g.1,
        after_grab-Finished c.contexts c.atoms needed flags forced (enable after) r space hint e m n
            (enable-IsValid after c.valid) g.2,
      )

  -- reiser4_alloc_blocks, on a writable file system with valid counters, of at least one and fewer than
  -- 2^31 blocks that are counted in their stage (or not counted at all) and do not wrap with the
  -- reserve, with an allocator that does not give more than it is asked for, and where a commit of all
  -- transactions leaves valid counters, the same reserve and a writable file system. It always
  -- returns, with valid counters. On success the used blocks are more by the length of the region,
  -- which the allocator keeps within the request (by none where the blocks were counted as used), an
  -- uncounted request has taken its blocks from the free ones and owns those that it did not use, a
  -- request for grabbed blocks owns fewer by that length, and no other block has left the free ones; on
  -- failure the used, free and grabbed blocks and the atom are as before. Where the blocks are
  -- uncounted, not covered, and the flags let it commit, this may be said of the state that the commit
  -- left instead of the one before the call.
  pub alloc_blocks-Completed :
      (contexts atoms needed : ℕ) (flags : Flags) (fs : Fs) (space : S) (hint : Hint)
      (c : Committed fs (commit_all fs))
      → IsValid contexts atoms fs
      → 1 ≤ needed
      → needed < 2 ^ 31
      → needed + fs.sb.blocks_reserved < 2 ^ 64
      → fs.sb.rdonly ≡ false
      → Needs hint.block_stage needed flags fs
      → Completed contexts atoms needed hint.block_stage flags fs
          (commit_all fs)
          c
          (alloc_blocks sa commit_all fs space hint needed flags)
  unfolding alloc_blocks
  alloc_blocks-Completed contexts atoms needed flags fs space hint c v m n small w h =
      let hint' = start_hint fs hint flags in
      let e = block_stage-start_hint fs hint flags in
      let forced = record flags { force = true } in
      let h' : Needs hint'.block_stage needed flags fs =
        subst (λ s. Needs s needed flags fs) (sym e) h in
      let P = λ (s : Stage) (r : Option (Outcome S)).
        Completed contexts atoms needed s flags fs (commit_all fs) c r in
      subst (λ s. P s (alloc_blocks sa commit_all fs space hint needed flags)) e
        (if_cases (P hint'.block_stage) (is_not_counted hint'.block_stage)
          (λ t.
            after_grab-Completed contexts atoms needed flags forced fs (commit_all fs) c
              (grab_space commit_all fs needed forced) space hint'
              (stage_of_test hint'.block_stage t) m n v
              (grab_space_lem commit_all contexts atoms needed forced fs c v small w) refl refl)
          (λ f. inl (
            call_allocator-Finished contexts atoms needed flags fs fs space hint' m n
              (counted_Ready hint'.block_stage needed flags fs f v h'))))
