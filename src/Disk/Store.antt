-- ===== src/Disk/Store.antt =====
-- The disk cache of lib/cache_disk.c on a disk that works, as a map from the names of files to their contents.
use mapcache.Base.{
  ℕ, Text, text_eq, false, Option, none, some, [], ◌∷◌, length, if◌then◌else◌, ◌≡◌, refl, ap, ◌⊎◌,
  arith,
}
use mapcache.Context.{Context, set_error, has_error, check_error}
use mapcache.Types.{Tile}
use mapcache.Fetch.{CacheResult, success, cache_miss, failure}
use mapcache.Tileset.{is_some}
use mapcache.Disk.{DiskCache, tile_key}
use mapcache.Disk.Files.{
  FileSystem, Status, done, exists, no_entry, beyond_maxzoom, removed, has_tile, delete, get,
  opened,
}

-- A disk with room, on which every directory can be made: `file` is what the name of a file leads to.
pub record Works (fs : FileSystem) : Type 0 where
  pub file : Text → fs.Fs → Option Text
  pub stats : (n : Text) (f : fs.Fs) → fs.stat n f ≡ is_some (file n f)
  pub removes :
      (n : Text) (f : fs.Fs) → (fs.remove n f).0 ≡ (if is_some (file n f) then done else no_entry)
  pub file-remove :
      (n m : Text) (f : fs.Fs) → file m (fs.remove n f).1 ≡ (if text_eq n m then none else file m f)
  pub makes : (d : Text) (f : fs.Fs) → ((fs.make_dir d f).0 ≡ done) ⊎ ((fs.make_dir d f).0 ≡ exists)
  pub file-make_dir : (d m : Text) (f : fs.Fs) → file m (fs.make_dir d f).1 ≡ file m f
  pub reads :
      (n : Text) (f : fs.Fs) → fs.open_read n f ≡ (if is_some (file n f) then done else no_entry)
  pub sizes : (n : Text) (f : fs.Fs) {b : Text} → file n f ≡ some b → (fs.info n f).0 ≡ length b
  pub maps : (n : Text) (f : fs.Fs) {b : Text} → file n f ≡ some b → fs.mmap n (length b) f ≡ some b
  pub creates : (n : Text) (f : fs.Fs) → (fs.open_write n f).0 ≡ done
  pub file-open_write :
      (n m : Text) (f : fs.Fs)
      → file n f ≡ none
      → file m (fs.open_write n f).1 ≡ (if text_eq n m then some [] else file m f)
  pub writes :
      (n b : Text) (f : fs.Fs)
      → file n f ≡ some []
      → ((fs.write n b f).0 ≡ done) × ((fs.write n b f).1 ≡ length b)
  pub file-write :
      (n b m : Text) (f : fs.Fs)
      → file n f ≡ some []
      → file m (fs.write n b f).2 ≡ (if text_eq n m then some b else file m f)
  pub closes : (n : Text) (f : fs.Fs) → (fs.close n f).0 ≡ done
  pub file-close : (n m : Text) (f : fs.Fs) → file m (fs.close n f).1 ≡ file m f

-- What a map from names to contents answers to a get: nothing, an error for an empty file, or the data.
abbrev pub answer : ℕ → Tile → Context → Option Text → CacheResult × Tile × Context
answer mtime t ctx none = (cache_miss, t, ctx)
answer mtime t ctx (some []) = (failure, t, set_error 500 "tile %s has no data" ctx)
answer mtime t ctx (some (c ∷ b)) =
    (success, record t { encoded_data = some (c ∷ b); mtime = mtime }, ctx)

module _ (fs : FileSystem) (works : Works fs) (dc : DiskCache) where
  open works use {file}

  -- Only the file `n` is changed, and it now is `v`.
  abbrev pub Updated : Text → Option Text → fs.Fs → fs.Fs → Type 0
  Updated n v f f' = (m : Text) → file m f' ≡ (if text_eq n m then v else file m f)

  opened_file :
      (n : Text) (t : Tile) (ctx : Context) (f : fs.Fs) (c : Option Text)
      → file n f ≡ c
      → opened fs dc n t ctx f (if is_some c then done else no_entry)
        ≡ answer (fs.info n f).1 t ctx c
  unfolding opened
  opened_file n t ctx f none e = refl
  opened_file n t ctx f (some []) e = ground (arith, works.sizes n f e)
  opened_file n t ctx f (some (c ∷ b)) e = ground (arith, works.sizes n f e, works.maps n f e)

  -- A tile whose name is known, at a level that is cached, and no error so far.
  pub record Ready (t : Tile) (ctx : Context) (name : Text) : Type 0 where
    pub cached : beyond_maxzoom dc t ≡ false
    pub key : tile_key dc t ≡ some name
    pub no_error : ctx.errcode ≡ 0

  not_failing : {t : Tile} {ctx : Context} {name : Text} → Ready t ctx name → has_error ctx ≡ false
  not_failing r = ground (arith, r.no_error)

  pub unchecked :
      {t : Tile} {ctx : Context} {name : Text} → Ready t ctx name → check_error ctx ≡ false
  unchecked r = ground (arith, r.no_error)

  pub get_lem :
      (t : Tile) (ctx : Context) (f : fs.Fs) {name : Text}
      → Ready t ctx name
      → get fs dc t ctx f ≡ some (answer (fs.info name f).1 t ctx (file name f))
  unfolding get
  get_lem t ctx f {name} r =
      rw (r.cached, r.key, not_failing r, works.reads name f)
        (ap some (opened_file name t ctx f (file name f) refl))

  pub has_tile_lem :
      (t : Tile) (ctx : Context) (f : fs.Fs) {name : Text}
      → Ready t ctx name
      → has_tile fs dc t ctx f ≡ some (is_some (file name f))
  unfolding has_tile
  has_tile_lem t ctx f {name} r = rw (r.cached, r.key) (rw r.no_error (rw (works.stats name f)))

  removed_quietly :
      (st : Status) (c : Option Text) (ctx : Context) (f : fs.Fs)
      → st ≡ (if is_some c then done else no_entry)
      → removed fs dc ctx (st, f) ≡ (ctx, f)
  unfolding removed
  removed_quietly st none ctx f e = rw e
  removed_quietly st (some b) ctx f e = rw e

  pub removed_lem :
      (n : Text) (ctx : Context) (f : fs.Fs)
      → removed fs dc ctx (fs.remove n f) ≡ (ctx, (fs.remove n f).1)
  removed_lem n ctx f =
      removed_quietly (fs.remove n f).0 (file n f) ctx (fs.remove n f).1 (works.removes n f)

  pub delete_lem :
      (t : Tile) (ctx : Context) (f : fs.Fs) {name : Text}
      → Ready t ctx name
      → (f' : fs.Fs) × (delete fs dc t ctx f ≡ some (ctx, f')) × Updated name none f f'
  unfolding delete
  delete_lem t ctx f {name} r = (
    (fs.remove name f).1,
    rw (r.key, unchecked r, removed_lem name ctx f),
    λ m. works.file-remove name m f,
  )
