-- ===== src/Disk/Stored.antt =====
-- Setting a tile in the disk cache of lib/cache_disk.c on a disk that works, without links to blank tiles.
use Prim.Native.String.{String}
use mapcache.Base.{
  ℕ, zero, suc, pos_part, Text, text_eq, text_eq_refl, Bool, true, false, none, some, [], length,
  ◌==◌, if◌then◌else◌, ◌≡◌, refl, ap, ◌∙◌, inl, inr, arith,
}
use mapcache.Context.{Context, check_error}
use mapcache.Types.{ImageFormat, Tile}
use mapcache.Lock.{Files}
use mapcache.Tileset.{is_some}
use mapcache.Disk.{DiskCache, tilecache}
use mapcache.Disk.Names.{SameSet, same_cell, text_eq-same_cell, tile_key-directory}
use mapcache.Disk.Files.{FileSystem, has_tile, delete, get}
use mapcache.Disk.Writing.{
  Writer, Written, go, directory, encode, make_directory, create_loop, write_file, try_blank,
  set_file, set,
}
use mapcache.Disk.Store.{
  Works, answer, Ready, Updated, removed_lem, unchecked, get_lem, has_tile_lem, delete_lem,
}

module _ (fs : FileSystem) (works : Works fs) (dc : DiskCache) (lk : Files)
    (env : Writer fs.Fs lk.Fs) where
  open works use {file}

  abbrev State : Type 0
  State = Written fs lk dc

  ==_refl : (n : ℕ) → (n == n) ≡ true
  ==_refl n = ground arith

  made_lem :
      (msg : String) (dir : Text) (w : State)
      → make_directory fs lk dc env msg dir w ≡ go (record w { disk = (fs.make_dir dir w.disk).1 })
  unfolding make_directory
  made_lem msg dir w = elim (works.makes dir w.disk) [
    | inl h ↦ rw (h, make_directory)
    | inr h ↦ rw (h, make_directory)
  ]

  create_lem :
      (rounds : ℕ) (dir name : Text) (w : State)
      → create_loop fs lk dc env rounds dir name w
        ≡ go (record w { disk = (fs.open_write name w.disk).1 })
  unfolding create_loop
  create_lem zero dir name w = rw (works.creates name w.disk)
  create_lem (suc rounds) dir name w = rw (works.creates name w.disk)

  write_lem :
      (name b : Text) (w : State)
      → w.tile.encoded_data ≡ some b
      → file name w.disk ≡ some []
      → write_file fs lk dc env name w
        ≡ go (record w { disk = (fs.close name (fs.write name b w.disk).2).1 })
  unfolding write_file
  write_lem name b w d e =
      rw (d, (works.writes name b w.disk e).0, (works.writes name b w.disk e).1)
        (rw (works.closes name (fs.write name b w.disk).2, ==_refl (length b)))

  -- How the data of the tile comes about: it is there, or the image is encoded without an error.
  pub data Encoded (ctx : Context) (t : Tile) (b : Text) : Tile → Type 0 where
    already : t.encoded_data ≡ some b → Encoded ctx t b t
    written :
        {fmt : ImageFormat}
        → t.encoded_data ≡ none
        → t.tileset.format ≡ some fmt
        → env.format_write t.raw_image ctx ≡ (ctx, some b)
        → Encoded ctx t b (record t { encoded_data = some b })

  encode_lem :
      (w : State) (b : Text) {t' : Tile}
      → Encoded w.ctx w.tile b t'
      → check_error w.ctx ≡ false
      → (encode fs lk dc env w ≡ go (record w { tile = t' })) × (t'.encoded_data ≡ some b)
  unfolding encode
  encode_lem w b (already e) c = (rw e, e)
  encode_lem w b (written e fm h) c = (ground arith, refl)

  -- The disk after the file `name` is stored in the directory `dir`.
  abbrev cleared : Text → Text → fs.Fs → fs.Fs
  cleared dir name f = (fs.remove name (fs.make_dir dir f).1).1

  abbrev empty : Text → Text → fs.Fs → fs.Fs
  empty dir name f = (fs.open_write name (cleared dir name f)).1

  abbrev stored : Text → Text → Text → fs.Fs → fs.Fs
  stored dir name b f = (fs.close name (fs.write name b (empty dir name f)).2).1

  file-cleared :
      (dir name m : Text) (f : fs.Fs)
      → file m (cleared dir name f) ≡ (if text_eq name m then none else file m f)
  file-cleared dir name m f = rw (works.file-remove, works.file-make_dir)

  gone : (dir name : Text) (f : fs.Fs) → file name (cleared dir name f) ≡ none
  gone dir name f = rw (file-cleared, text_eq_refl)

  file-empty :
      (dir name m : Text) (f : fs.Fs)
      → file m (empty dir name f) ≡ (if text_eq name m then some [] else file m f)
  file-empty dir name m f =
      works.file-open_write name m (cleared dir name f) (gone dir name f)
      ∙ ground (arith, file-cleared dir name m f)

  blank_file : (dir name : Text) (f : fs.Fs) → file name (empty dir name f) ≡ some []
  blank_file dir name f = rw (file-empty, text_eq_refl)

  stored-Updated :
      (dir name b : Text) (f : fs.Fs) → Updated fs works dc name (some b) f (stored dir name b f)
  stored-Updated dir name b f m =
      works.file-close name m _
      ∙ works.file-write name b m (empty dir name f) (blank_file dir name f)
      ∙ ground (arith, file-empty dir name m f)

  module _ (plain : dc.symlink_blank ≡ false) where
    set_file_lem :
        (dir name b : Text) (w : State) {t' : Tile}
        → Encoded w.ctx w.tile b t'
        → check_error w.ctx ≡ false
        → set_file fs lk dc env dir name w
          ≡ go (record w { tile = t'; disk = stored dir name b w.disk })
    unfolding set_file try_blank
    set_file_lem dir name b w {t'} enc c =
        let made : State = record w { disk = (fs.make_dir dir w.disk).1 } in
        let after : State = record w { disk = cleared dir name w.disk } in
        let full : State = record w { tile = t' } in
        let (encoded, data_is) = encode_lem after b enc c in
        rw
          (
            made_lem "failed to create directory %s: %s" dir w,
            removed_lem fs works dc name w.ctx made.disk,
            plain,
            encoded,
            create_lem (pos_part dc.creation_retry) dir name (record after { tile = t' }),
          )
          (write_lem name b (record after { tile = t'; disk = empty dir name w.disk }) data_is
            (blank_file dir name w.disk))

    set_lem :
        (t : Tile) (ctx : Context) (f : fs.Fs) (locks : lk.Fs) {name dir b : Text} {t' : Tile}
        → Ready fs works dc t ctx name
        → directory name ≡ some dir
        → Encoded ctx t b t'
        → set fs lk dc env (record { tile = t; ctx = ctx; disk = f; locks = locks })
          ≡ some (record { tile = t'; ctx = ctx; disk = stored dir name b f; locks = locks })
    unfolding set
    set_lem t ctx f locks {name} {dir} {b} r d enc =
        rw (r.cached, r.key, d, unchecked fs works dc r)
          (rw (
            set_file_lem dir name b (record { tile = t; ctx = ctx; disk = f; locks = locks }) enc
              (unchecked fs works dc r)))

    -- On a disk that works, without links to blank tiles, the disk cache is a map from the names of the
    -- tiles to their data. For a tile with a name, at a level that is cached, and with no error so far: a get
    -- answers what the file holds (a miss without a file, an error for an empty one); a test for the tile
    -- says whether there is a file; a delete takes out this file and no other, also if it is not there; and
    -- a set, which encodes the image of the tile if it has no data yet, changes this file and no other, and
    -- leaves the data in the tile. None of them reports an error otherwise.
    pub disk_refines :
        (t : Tile) (ctx : Context) (f : fs.Fs) (locks : lk.Fs) {name dir b : Text} {t' : Tile}
        → Ready fs works dc t ctx name
        → directory name ≡ some dir
        → Encoded ctx t b t'
        → (get fs dc t ctx f ≡ some (answer (fs.info name f).1 t ctx (file name f)))
          × (has_tile fs dc t ctx f ≡ some (is_some (file name f)))
          × ((f' : fs.Fs) × (delete fs dc t ctx f ≡ some (ctx, f'))
              × Updated fs works dc name none f f')
          × ((f' : fs.Fs) × (set fs lk dc env
                  (record { tile = t; ctx = ctx; disk = f; locks = locks })
                ≡ some (record { tile = t'; ctx = ctx; disk = f'; locks = locks }))
              × Updated fs works dc name (some b) f f')
    disk_refines t ctx f locks {name} {dir} {b} r d enc = (
      get_lem fs works dc t ctx f r,
      has_tile_lem fs works dc t ctx f r,
      delete_lem fs works dc t ctx f r,
      (stored dir name b f, set_lem t ctx f locks r d enc, stored-Updated dir name b f),
    )

    -- With the layout tilecache, after a tile is set with the data `b`, a get of any tile of the same tileset, grid
    -- and dimensions answers from `b` if it has the same column, row and level, and otherwise as the
    -- disk was before. The disk works, blank tiles are not linked, both levels are cached, and there is no error
    -- so far.
    pub get-set :
        (t u : Tile) (ctx : Context) (f : fs.Fs) (locks : lk.Fs) {base name k b : Text} {t' : Tile}
        → dc.layout ≡ tilecache
        → dc.base_directory ≡ some base
        → SameSet t u
        → Ready fs works dc t ctx name
        → Ready fs works dc u ctx k
        → Encoded ctx t b t'
        → (w : State) × (set fs lk dc env (record { tile = t; ctx = ctx; disk = f; locks = locks })
            ≡ some w)
          × (get fs dc u ctx w.disk
              ≡ some
                  (answer (fs.info k w.disk).1 u ctx (if same_cell t u then some b else file k f)))
    get-set t u ctx f locks {base} {name} {k} {b} {t'} l bd same r q enc =
        let (dir, d) = tile_key-directory dc t l bd r.key in
        let f' = stored dir name b f in
        (
          record { tile = t'; ctx = ctx; disk = f'; locks = locks },
          set_lem t ctx f locks r d enc,
          get_lem fs works dc u ctx f' q
              ∙ ap (λ c. some (answer (fs.info k f').1 u ctx c))
                  (stored-Updated dir name b f k
                    ∙ ap (λ (x : Bool). if x then some b else file k f)
                        (text_eq-same_cell dc t u l bd same r.key q.key)),
        )
