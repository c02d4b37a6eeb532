-- ===== src/Disk/Files.antt =====
-- The operations of the disk cache on the files: lib/cache_disk.c, with NOMMAP not defined and HAVE_SYMLINK
-- defined. The file system is APR's, and a parameter; so are the codecs and what other processes do
-- while one waits for a lock.
use mapcache.Base.{
  ℕ, to_u32, Text, Bool, true, false, ◌&&◌, Option, none, some, [], ltb, ◌==◌, if◌then◌else◌, ◌>>=◌,
}
use mapcache.Context.{Context, set_error, has_error, check_error}
use mapcache.Types.{Tile}
use mapcache.Fetch.{CacheResult, success, cache_miss, failure}
use mapcache.Disk.{DiskCache, tile_key}

-- What an operation of APR returns: APR_SUCCESS, ENOENT, EEXIST or another code.
pub data Status : Type 0 where
  done no_entry exists failed : Status

abbrev pub is_done : Status → Bool
is_done done = true
is_done _ = false

-- APR's file system: `apr_stat`, `apr_file_remove`, `apr_dir_make_recursive`, `apr_file_open` for reading,
-- `apr_file_info_get` (size and time), `apr_mmap_create`, `apr_file_open` for creating and writing,
-- `apr_file_write` (with the number of bytes written), `apr_file_close`, and `symlink`.
pub record FileSystem : Type 1 where
  pub Fs : Type 0
  pub stat : Text → Fs → Bool
  pub remove : Text → Fs → Status × Fs
  pub make_dir : Text → Fs → Status × Fs
  pub open_read : Text → Fs → Status
  pub info : Text → Fs → ℕ × ℕ
  pub mmap : Text → ℕ → Fs → Option Text
  pub open_write : Text → Fs → Status × Fs
  pub write : Text → Text → Fs → Status × ℕ × Fs
  pub close : Text → Fs → Status × Fs
  pub symlink : Text → Text → Fs → Bool × Fs

-- The highest level that is cached, if it is set; the level of the tile is converted to unsigned.
abbrev pub beyond_maxzoom : DiskCache → Tile → Bool
beyond_maxzoom dc t = ltb 0 dc.maxzoom && ltb dc.maxzoom (to_u32 t.z)

module _ (fs : FileSystem) (dc : DiskCache) where
  open fs use {Fs, stat, remove, open_read, info, mmap}

  -- `_mapcache_cache_disk_has_tile`
  unfoldable pub has_tile : Tile → Context → Fs → Option Bool
  has_tile t ctx f =
      let answer = tile_key dc t >>= λ name. some (if has_error ctx then false else stat name f) in
      if beyond_maxzoom dc t then some false else answer

  remove_error : Status → Context → Context
  remove_error done ctx = ctx
  remove_error no_entry ctx = ctx
  remove_error _ ctx = set_error 500 "failed to remove file %s: %s" ctx

  unfoldable pub removed : Context → Status × Fs → Context × Fs
  unfolding remove_error
  removed ctx (st, f) = (remove_error st ctx, f)

  -- `_mapcache_cache_disk_delete`
  unfoldable pub delete : Tile → Context → Fs → Option (Context × Fs)
  unfolding removed
  delete t ctx f = do
    name ← tile_key dc t
    some (if check_error ctx then (ctx, f) else removed ctx (remove name f))

  -- The memory map of an open file, in the buffer of the tile.
  take_map : Tile → Context → Option Text → CacheResult × Tile × Context
  take_map t ctx none =
      (failure, record t { encoded_data = some [] }, set_error 500 "mmap error: %s" ctx)
  take_map t ctx (some bytes) = (success, record t { encoded_data = some bytes }, ctx)

  read_file : Text → Tile → Context → Fs → ℕ × ℕ → CacheResult × Tile × Context
  unfolding take_map
  read_file name t ctx f (size, mtime) =
      if size == 0
      then (failure, t, set_error 500 "tile %s has no data" ctx)
      else take_map (record t { mtime = mtime }) ctx (mmap name size f)

  unfoldable pub opened : Text → Tile → Context → Fs → Status → CacheResult × Tile × Context
  unfolding read_file
  opened name t ctx f done = read_file name t ctx f (info name f)
  opened name t ctx f no_entry = (cache_miss, t, ctx)
  opened name t ctx f _ = (failure, t, set_error 500 "failed to open file %s: %s" ctx)

  -- `_mapcache_cache_disk_get`
  unfoldable pub get : Tile → Context → Fs → Option (CacheResult × Tile × Context)
  unfolding opened
  get t ctx f =
      let answer = tile_key dc t >>= λ name.
      some (if has_error ctx then (failure, t, ctx) else opened name t ctx f (open_read name f)) in
      if beyond_maxzoom dc t then some (cache_miss, t, ctx) else answer
