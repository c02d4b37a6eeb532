-- ===== src/Lock.antt =====
-- Resource locks: lib/lock.c. A lock is a file that is created exclusively; the file system is APR's.
pub mod Protocol
mod Tests
use mapcache.Base.{
  ℕ, Text, codes, text_eq, ◌≡◌, Bool, true, false, ◌||◌, List, [], ◌∷◌, ◌++◌, map, ◌==◌,
  if◌then◌else◌,
}

-- What the code relies on of `apr_file_open` with APR_CREATE|APR_EXCL, `apr_stat` and
-- `apr_file_remove`: which names exist. An exclusive open fails if the name exists, and may fail for
-- another reason (`denied`: no right, no space, no directory); otherwise it creates the file. A name whose
-- `apr_stat` is anything but "no such file" counts as existing.
pub record Files : Type 1 where
  pub Fs : Type 0
  pub exists : Fs → Text → Bool
  pub denied : Fs → Text → Bool
  pub create : Fs → Text → Fs
  pub remove : Fs → Text → Fs
  pub exists-create :
      (f : Fs) (n m : Text) → exists (create f n) m ≡ (if text_eq n m then true else exists f m)
  pub exists-remove :
      (f : Fs) (n m : Text) → exists (remove f n) m ≡ (if text_eq n m then false else exists f m)

safe_byte : ℕ → ℕ
safe_byte c = if c == b' ' || c == b'/' || c == b'~' || c == b'.' then b'#' else c

-- `lock_filename_for_resource`; MAPCACHE_LOCKFILE_PREFIX is "_gc_lock".
pub lock_filename : Text → Text → Text
unfolding safe_byte
lock_filename lockdir resource =
    lockdir ++ (codes "/_gc_lock" ++ (map safe_byte resource ++ codes ".lck"))

module _ (fs : Files) where
  open fs use {Fs, exists, denied, create, remove}

  -- `mapcache_lock_or_wait_for_resource`. MAPCACHE_TRUE: the lock is ours. MAPCACHE_FALSE: it was another's,
  -- and the call has waited until the polls of the file system found it free; `wait` is what the
  -- others have made of the file system by then. It is MAPCACHE_FALSE at once if the open is denied and no
  -- file is there.
  unfoldable pub lock_or_wait : (Fs → Text → Fs) → Text → Text → Fs → Bool × Fs
  lock_or_wait wait lockdir resource f =
      let name = lock_filename lockdir resource in
      if exists f name
      then (false, wait f name)
      else if denied f name
      then (false, f)
      else (true, create f name)

  -- `mapcache_unlock_resource`
  unfoldable pub unlock : Text → Text → Fs → Fs
  unlock lockdir resource f = remove f (lock_filename lockdir resource)
