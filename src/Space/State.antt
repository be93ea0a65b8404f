-- ===== src/Space/State.antt =====
-- The state of block_alloc.c: the counters of `reiser4_super_info_data` (super.h), of
-- `reiser4_context` (context.h) and of `txn_atom` (txnmgr.h), with the `sub_from_*` and `add_to_*`
-- functions. `assert` is empty without REISER4_DEBUG, so a subtraction wraps; `BUG_ON` stops.
use reiser.Base.{ℕ, Bool, Option, none, some, if◌then◌else◌, ltb, ◌==◌, add64, sub64, to_u32}

pub record Sb : Type 0 where
  pub block_count : ℕ
  pub blocks_reserved : ℕ
  pub blocks_used : ℕ
  pub blocks_free : ℕ
  pub blocks_grabbed : ℕ
  pub blocks_fake_allocated_unformatted : ℕ
  pub blocks_fake_allocated : ℕ
  pub blocks_flush_reserved : ℕ
  pub blocks_clustered : ℕ
  pub min_blocks_used : ℕ
  pub blocknr_hint_default : ℕ
  -- the task that owns `delete_mutex`
  pub delete_mutex_owner : Option ℕ
  pub rdonly : Bool

-- the context of the running thread
pub record Ctx : Type 0 where
  pub grabbed_blocks : ℕ
  pub grab_enabled : Bool
  pub ro : Bool

-- the atom of the running thread
pub record Atom : Type 0 where
  pub flush_reserved : ℕ
  pub nr_blocks_allocated : ℕ

pub record Fs : Type 0 where
  pub sb : Sb
  pub ctx : Ctx
  pub atom : Atom
  -- the static counter of fake block numbers
  pub fake_gen : ℕ

-- `enum reiser4_ba_flags`, a field for each bit
pub record Flags : Type 0 where
  pub reserved : Bool
  pub can_commit : Bool
  pub formatted : Bool
  pub defer : Bool
  pub permanent : Bool
  pub force : Bool
  pub use_default_search_start : Bool

-- `block_stage_t`
pub data Stage : Type 0 where
  not_counted grabbed flush_reserved unallocated allocated : Stage

-- `BUG_ON`
unfoldable pub sub_from_ctx_grabbed : Ctx → ℕ → Option Ctx
sub_from_ctx_grabbed ctx count =
    if ltb ctx.grabbed_blocks count
    then none
    else some (record ctx { grabbed_blocks = sub64 ctx.grabbed_blocks count })

unfoldable pub add_to_ctx_grabbed : Ctx → ℕ → Ctx
add_to_ctx_grabbed ctx count = record ctx { grabbed_blocks = add64 ctx.grabbed_blocks count }

unfoldable pub sub_from_sb_grabbed : Sb → ℕ → Sb
sub_from_sb_grabbed sb count = record sb { blocks_grabbed = sub64 sb.blocks_grabbed count }

unfoldable pub sub_from_sb_flush_reserved : Sb → ℕ → Sb
sub_from_sb_flush_reserved sb count = record sb {
  blocks_flush_reserved = sub64 sb.blocks_flush_reserved count;
}

unfoldable pub sub_from_sb_fake_allocated : Sb → ℕ → Bool → Sb
sub_from_sb_fake_allocated sb count formatted =
    if formatted
    then record sb { blocks_fake_allocated = sub64 sb.blocks_fake_allocated count }
    else record sb {
      blocks_fake_allocated_unformatted = sub64 sb.blocks_fake_allocated_unformatted count;
    }

unfoldable pub sub_from_sb_used : Sb → ℕ → Sb
sub_from_sb_used sb count = record sb { blocks_used = sub64 sb.blocks_used count }

unfoldable pub sub_from_cluster_reserved : Sb → ℕ → Sb
sub_from_cluster_reserved sb count = record sb {
  blocks_clustered = sub64 sb.blocks_clustered count;
}

-- The parameter is a `__u32`, while `flush_reserved` has 64 bits.
unfoldable pub add_to_atom_flush_reserved_nolock : Atom → ℕ → Atom
add_to_atom_flush_reserved_nolock atom count = record atom {
  flush_reserved = add64 atom.flush_reserved (to_u32 count);
}

unfoldable pub sub_from_atom_flush_reserved_nolock : Atom → ℕ → Atom
sub_from_atom_flush_reserved_nolock atom count = record atom {
  flush_reserved = sub64 atom.flush_reserved (to_u32 count);
}

unfoldable pub check_block_counters : Sb → Bool
check_block_counters sb =
    sb.block_count
    == add64
        (add64
          (add64
            (add64 (add64 (add64 sb.blocks_grabbed sb.blocks_free) sb.blocks_used)
              sb.blocks_fake_allocated)
            sb.blocks_fake_allocated_unformatted)
          sb.blocks_flush_reserved)
        sb.blocks_clustered
