-- ===== src/Space/Transfer.antt =====
-- The functions of block_alloc.c that move blocks from one counter to another. Each is a function
-- of the whole state; `none` is the `BUG_ON` of `sub_from_ctx_grabbed`. A `count` of C type `int`
-- is taken to be non-negative. The spin locks make each function one step.
use reiser.Base.{
  ℕ, ◌+◌, ◌^◌, ◌/◌, ◌%◌, Bool, true, false, Option, none, some, if◌then◌else◌, ◌==◌, ◌>>=◌, add64,
  sub64,
}
use reiser.Space.State.{
  Fs, sub_from_ctx_grabbed, add_to_ctx_grabbed, sub_from_sb_grabbed, sub_from_sb_flush_reserved,
  sub_from_sb_fake_allocated, sub_from_sb_used, sub_from_cluster_reserved,
  add_to_atom_flush_reserved_nolock, sub_from_atom_flush_reserved_nolock,
}

unfoldable pub grabbed2fake_allocated_head : Fs → ℕ → Option Fs
unfolding sub_from_ctx_grabbed sub_from_sb_grabbed
grabbed2fake_allocated_head fs count = do
  ctx ← sub_from_ctx_grabbed fs.ctx count
  some (record fs { ctx = ctx; sb = sub_from_sb_grabbed fs.sb count })

unfoldable pub grabbed2fake_allocated_formatted : Fs → Option Fs
unfolding grabbed2fake_allocated_head
grabbed2fake_allocated_formatted fs = do
  fs' ← grabbed2fake_allocated_head fs 1
  some (record fs' {
    sb = record fs'.sb { blocks_fake_allocated = add64 fs'.sb.blocks_fake_allocated 1 };
  })

unfoldable pub grabbed2fake_allocated_unformatted : Fs → ℕ → Option Fs
unfolding grabbed2fake_allocated_head
grabbed2fake_allocated_unformatted fs count = do
  fs' ← grabbed2fake_allocated_head fs count
  let unformatted = add64 fs'.sb.blocks_fake_allocated_unformatted count
  some (record fs' { sb = record fs'.sb { blocks_fake_allocated_unformatted = unformatted } })

unfoldable pub grabbed2cluster_reserved : Fs → ℕ → Option Fs
unfolding sub_from_ctx_grabbed sub_from_sb_grabbed
grabbed2cluster_reserved fs count = do
  ctx ← sub_from_ctx_grabbed fs.ctx count
  let sb = sub_from_sb_grabbed fs.sb count
  some (record fs {
    ctx = ctx;
    sb = record sb { blocks_clustered = add64 sb.blocks_clustered count };
  })

unfoldable pub cluster_reserved2grabbed : Fs → ℕ → Fs
unfolding sub_from_cluster_reserved add_to_ctx_grabbed
cluster_reserved2grabbed fs count =
    let sb = sub_from_cluster_reserved fs.sb count in
    record fs {
      sb = record sb { blocks_grabbed = add64 sb.blocks_grabbed count };
      ctx = add_to_ctx_grabbed fs.ctx count;
    }

unfoldable pub grabbed2free : Fs → ℕ → Option Fs
unfolding sub_from_ctx_grabbed sub_from_sb_grabbed
grabbed2free fs count = do
  ctx ← sub_from_ctx_grabbed fs.ctx count
  let sb = sub_from_sb_grabbed fs.sb count
  some (record fs { ctx = ctx; sb = record sb { blocks_free = add64 sb.blocks_free count } })

unfoldable pub cluster_reserved2free : Fs → ℕ → Option Fs
unfolding cluster_reserved2grabbed grabbed2free
cluster_reserved2free fs count = grabbed2free (cluster_reserved2grabbed fs count) count

-- `BUG_ON` where one of the two status bits of the number is set; `|=` then adds both.
unfoldable pub assign_fake_blocknr : Fs → ℕ → Option (ℕ × Fs)
assign_fake_blocknr fs count =
    if fs.fake_gen / 2 ^ 62 % 4 == 0
    then some
        (fs.fake_gen + 0xC000_0000_0000_0000, record fs { fake_gen = add64 fs.fake_gen count })
    else none

unfoldable pub assign_fake_blocknr_formatted : Fs → Option (ℕ × Fs)
unfolding assign_fake_blocknr grabbed2fake_allocated_formatted
assign_fake_blocknr_formatted fs = do
  (blocknr, fs') ← assign_fake_blocknr fs 1
  fs'' ← grabbed2fake_allocated_formatted fs'
  some (blocknr, fs'')

unfoldable pub fake_blocknr_unformatted : Fs → ℕ → Option (ℕ × Fs)
unfolding assign_fake_blocknr grabbed2fake_allocated_unformatted
fake_blocknr_unformatted fs count = do
  (blocknr, fs') ← assign_fake_blocknr fs count
  fs'' ← grabbed2fake_allocated_unformatted fs' count
  some (blocknr, fs'')

-- the top bit of the 64
unfoldable pub blocknr_is_fake : ℕ → Bool
blocknr_is_fake da = if da / 2 ^ 63 % 2 == 0 then false else true

unfoldable pub grabbed2used : Fs → ℕ → Option Fs
unfolding sub_from_ctx_grabbed sub_from_sb_grabbed
grabbed2used fs count = do
  ctx ← sub_from_ctx_grabbed fs.ctx count
  let sb = sub_from_sb_grabbed fs.sb count
  some (record fs { ctx = ctx; sb = record sb { blocks_used = add64 sb.blocks_used count } })

unfoldable pub fake_allocated2used : Fs → ℕ → Bool → Fs
unfolding sub_from_sb_fake_allocated
fake_allocated2used fs count formatted =
    let sb = sub_from_sb_fake_allocated fs.sb count formatted in
    record fs { sb = record sb { blocks_used = add64 sb.blocks_used count } }

unfoldable pub flush_reserved2used : Fs → ℕ → Fs
unfolding sub_from_atom_flush_reserved_nolock sub_from_sb_flush_reserved
flush_reserved2used fs count =
    let sb = sub_from_sb_flush_reserved fs.sb count in
    record fs {
      atom = sub_from_atom_flush_reserved_nolock fs.atom count;
      sb = record sb { blocks_used = add64 sb.blocks_used count };
    }

unfoldable pub used2fake_allocated : Fs → ℕ → Bool → Fs
unfolding sub_from_sb_used
used2fake_allocated fs count formatted =
    let sb =
      if formatted
      then record fs.sb { blocks_fake_allocated = add64 fs.sb.blocks_fake_allocated count }
      else record fs.sb {
        blocks_fake_allocated_unformatted = add64 fs.sb.blocks_fake_allocated_unformatted count;
      } in
    record fs { sb = sub_from_sb_used sb count }

unfoldable pub used2flush_reserved : Fs → ℕ → Fs
unfolding add_to_atom_flush_reserved_nolock sub_from_sb_used
used2flush_reserved fs count =
    let sb = record fs.sb { blocks_flush_reserved = add64 fs.sb.blocks_flush_reserved count } in
    record fs {
      atom = add_to_atom_flush_reserved_nolock fs.atom count;
      sb = sub_from_sb_used sb count;
    }

unfoldable pub fake_allocated2grabbed : Fs → ℕ → Bool → Fs
unfolding add_to_ctx_grabbed sub_from_sb_fake_allocated
fake_allocated2grabbed fs count formatted =
    let sb = record fs.sb { blocks_grabbed = add64 fs.sb.blocks_grabbed count } in
    record fs {
      ctx = add_to_ctx_grabbed fs.ctx count;
      sb = sub_from_sb_fake_allocated sb count formatted;
    }

unfoldable pub fake_allocated2free : Fs → ℕ → Bool → Option Fs
unfolding fake_allocated2grabbed grabbed2free
fake_allocated2free fs count formatted =
    grabbed2free (fake_allocated2grabbed fs count formatted) count

unfoldable pub grabbed2free_mark : Fs → ℕ → Option Fs
unfolding grabbed2free
grabbed2free_mark fs mark = grabbed2free fs (sub64 fs.ctx.grabbed_blocks mark)

unfoldable pub grabbed2flush_reserved_nolock : Fs → ℕ → Option Fs
unfolding sub_from_ctx_grabbed add_to_atom_flush_reserved_nolock sub_from_sb_grabbed
grabbed2flush_reserved_nolock fs count = do
  ctx ← sub_from_ctx_grabbed fs.ctx count
  let sb = record fs.sb { blocks_flush_reserved = add64 fs.sb.blocks_flush_reserved count }
  some (record fs {
    ctx = ctx;
    atom = add_to_atom_flush_reserved_nolock fs.atom count;
    sb = sub_from_sb_grabbed sb count;
  })

unfoldable pub grabbed2flush_reserved : Fs → ℕ → Option Fs
unfolding grabbed2flush_reserved_nolock
grabbed2flush_reserved fs count = grabbed2flush_reserved_nolock fs count

unfoldable pub flush_reserved2grabbed : Fs → ℕ → Fs
unfolding add_to_ctx_grabbed sub_from_atom_flush_reserved_nolock sub_from_sb_flush_reserved
flush_reserved2grabbed fs count =
    let sb = record fs.sb { blocks_grabbed = add64 fs.sb.blocks_grabbed count } in
    record fs {
      ctx = add_to_ctx_grabbed fs.ctx count;
      atom = sub_from_atom_flush_reserved_nolock fs.atom count;
      sb = sub_from_sb_flush_reserved sb count;
    }

unfoldable pub all_grabbed2free : Fs → Option Fs
unfolding grabbed2free
all_grabbed2free fs = grabbed2free fs fs.ctx.grabbed_blocks

unfoldable pub used2grabbed : Fs → ℕ → Fs
unfolding add_to_ctx_grabbed sub_from_sb_used
used2grabbed fs count =
    let sb = record fs.sb { blocks_grabbed = add64 fs.sb.blocks_grabbed count } in
    record fs { ctx = add_to_ctx_grabbed fs.ctx count; sb = sub_from_sb_used sb count }

unfoldable pub used2free : Fs → ℕ → Fs
unfolding sub_from_sb_used
used2free fs count =
    let sb = record fs.sb { blocks_free = add64 fs.sb.blocks_free count } in
    record fs { sb = sub_from_sb_used sb count }
