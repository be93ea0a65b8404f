-- ===== src/Space/Grab.antt =====
-- Grabbing free space: reiser4_grab, reiser4_grab_space, reiser4_grab_reserved and
-- reiser4_release_reserved of block_alloc.c.
use reiser.Base.{
  ℕ, Bool, true, false, ◌&&◌, ◌||◌, not, Option, none, some, if◌then◌else◌, ltb, ◌==◌, add64, sub64,
}
use reiser.Space.State.{Fs, Flags, add_to_ctx_grabbed}

pub data Errno : Type 0 where
  enospc enomem eio einval e_repeat : Errno

-- the `int` that a call returns: 0, or a negated error number
pub data Status : Type 0 where
  success : Status
  failed : Errno → Status

unfoldable pub grab : Fs → ℕ → Flags → Status × Fs
unfolding add_to_ctx_grabbed
grab fs count flags =
    if fs.sb.rdonly
    then (success, record fs { ctx = record fs.ctx { grab_enabled = false; ro = true } })
    else if (flags.reserved && ltb fs.sb.blocks_free count)
        || (not flags.reserved && ltb fs.sb.blocks_free (add64 count fs.sb.blocks_reserved))
    then (failed enospc, fs)
    else (
      success,
      record fs {
        ctx = record (add_to_ctx_grabbed fs.ctx count) { grab_enabled = false };
        sb = record fs.sb {
          blocks_grabbed = add64 fs.sb.blocks_grabbed count;
          blocks_free = sub64 fs.sb.blocks_free count;
        };
      },
    )

abbrev pub is_enospc : Status → Bool
is_enospc (failed enospc) = true
is_enospc _ = false

abbrev pub is_failed : Status → Bool
is_failed success = false
is_failed (failed e) = true

-- `commit_all` is what txnmgr_force_commit_all (txnmgr.c) leaves.
module _ (commit_all : Fs → Fs) where
  unfoldable pub retry_after_commit : Fs → ℕ → Flags → Status × Fs
  retry_after_commit fs count flags =
      let fs' = commit_all fs in
      grab (record fs' { ctx = record fs'.ctx { grab_enabled = true } }) count flags

  -- what follows the first attempt
  unfoldable pub commit_and_retry : ℕ → Flags → Status × Fs → Status × Fs
  commit_and_retry count flags (ret, fs) =
      if is_enospc ret && flags.can_commit then retry_after_commit fs count flags else (ret, fs)

  unfoldable pub grab_space : Fs → ℕ → Flags → Status × Fs
  grab_space fs count flags =
      if not flags.force && not fs.ctx.grab_enabled
      then (success, fs)
      else commit_and_retry count flags (grab fs count flags)

-- `delete_mutex_owner == current`, for the task `me`
abbrev pub owns_mutex : ℕ → Option ℕ → Bool
owns_mutex me none = false
owns_mutex me (some owner) = owner == me

unfoldable pub release_reserved : ℕ → Fs → Fs
release_reserved me fs =
    if owns_mutex me fs.sb.delete_mutex_owner
    then record fs { sb = record fs.sb { delete_mutex_owner = none } }
    else fs

-- `wait` is the state in which mutex_lock returns: what the other tasks did meanwhile.
module _ (commit_all wait : Fs → Fs) where
  unfoldable pub or_release : ℕ → Status × Fs → Status × Fs
  or_release me (ret, fs) =
      if is_failed ret then (failed enospc, release_reserved me fs) else (success, fs)

  unfoldable pub grab_locked : ℕ → Fs → ℕ → Flags → Status × Fs
  grab_locked me fs count flags =
      let fs' = wait fs in
      or_release me (
        grab_space commit_all (record fs' { sb = record fs'.sb { delete_mutex_owner = some me } })
          count (record flags { reserved = true }))

  unfoldable pub grab_reserved : ℕ → Fs → ℕ → Flags → Status × Fs
  grab_reserved me fs count flags =
      if owns_mutex me fs.sb.delete_mutex_owner
      then or_release me
          (grab_space commit_all fs count (record flags { reserved = true; can_commit = false }))
      else let (ret, fs') = grab_space commit_all fs count flags in
        if is_failed ret then grab_locked me fs' count flags else (success, fs')
