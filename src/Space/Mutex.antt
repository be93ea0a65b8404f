-- ===== src/Space/Mutex.antt =====
-- Who holds the delete mutex after a request for reserved space.
use reiser.Base.{ℕ, ◌≡◌, refl, Bool, true, false, some, if_intro, arith}
use reiser.Space.State.{Fs, Flags}
use reiser.Space.Grab.{
  enospc, Status, success, failed, is_failed, grab_space, owns_mutex, release_reserved, or_release,
  grab_locked, grab_reserved,
}

owns : ℕ → Fs → Bool
owns me fs = owns_mutex me fs.sb.delete_mutex_owner

-- What the task may be told: the only failure is ENOSPC, and after it the task does not own the mutex.
abbrev pub Told : ℕ → Status × Fs → Type 0
Told me (success, fs) = Unit
Told me (failed e, fs) = (e ≡ enospc) × (owns_mutex me fs.sb.delete_mutex_owner ≡ false)

owns_mutex-release :
    (me : ℕ) (fs : Fs) → owns_mutex me (release_reserved me fs).sb.delete_mutex_owner ≡ false
unfolding release_reserved
owns_mutex-release me fs = ground arith

module _ (commit_all wait : Fs → Fs) (me : ℕ) where
  or_release-Told : (r : Status × Fs) → Told me (or_release commit_all wait me r)
  unfolding or_release
  or_release-Told (success, fs) = tt
  or_release-Told (failed e, fs) = (refl, owns_mutex-release me fs)

  grab_locked-Told :
      (fs : Fs) (count : ℕ) (flags : Flags)
      → Told me (grab_locked commit_all wait me fs count flags)
  unfolding grab_locked
  grab_locked-Told fs count flags =
      let fs' = wait fs in
      or_release-Told (
        grab_space commit_all (record fs' { sb = record fs'.sb { delete_mutex_owner = some me } })
          count (record flags { reserved = true }))

  -- reiser4_grab_reserved fails with ENOSPC only; whichever of its three requests failed, nested or
  -- not, the task does not own the delete mutex when it is told so.
  pub grab_reserved-Told :
      (fs : Fs) (count : ℕ) (flags : Flags)
      → Told me (grab_reserved commit_all wait me fs count flags)
  unfolding grab_reserved
  grab_reserved-Told fs count flags =
      let nested = record flags { reserved = true; can_commit = false } in
      let first = grab_space commit_all fs count flags in
      if_intro (Told me) (owns_mutex me fs.sb.delete_mutex_owner)
        (or_release-Told (grab_space commit_all fs count nested))
        (if_intro (Told me) (is_failed first.0) (grab_locked-Told first.1 count flags) tt)
