-- ===== src/Disk/Writing.antt =====
-- `_mapcache_cache_disk_set` of lib/cache_disk.c, with HAVE_SYMLINK defined.
use Prim.Native.String.{String}
use mapcache.Base.{
  ℕ, zero, suc, pos_part, Text, codes, not, Option, none, some, [], ◌∷◌, length, ◌==◌,
  if◌then◌else◌,
}
use mapcache.Context.{Context, set_error, check_error}
use mapcache.Types.{Image, Tile}
use mapcache.Image.{blank_color}
use mapcache.Lock.{Files, lock_or_wait, unlock}
use mapcache.Disk.{DiskCache, tile_key, blank_directory, blank_tile_key}
use mapcache.Disk.Blank.{relative_path}
use mapcache.Disk.Files.{FileSystem, is_done, exists, done, beyond_maxzoom, removed}

-- Up to the last '/', which is taken out; no result if there is none.
unfoldable pub directory : Text → Option Text
directory [] = none
directory (c ∷ s) = elim (directory s) [
  | none ↦ if c == b'/' then some [] else none
  | some d ↦ some (c ∷ d)
]

-- What the function needs: the format of the tileset, the decoder, the directory of the locks, and what others
-- do to the files and to the locks while one waits.
pub record Writer (Fs Locks : Type 0) : Type 0 where
  pub format_write : Option Image → Context → Context × Option Text
  pub decode : Option Text → Context → Context × Option Image
  pub lockdir : Text
  pub others : Text → Fs → Fs
  pub wait : Locks → Text → Locks

module _ (fs : FileSystem) (lk : Files) (dc : DiskCache) where
  open fs use {Fs, remove, make_dir, open_read, open_write, write, close, symlink}

  -- The state of the call.
  pub record Written : Type 0 where
    pub tile : Tile
    pub ctx : Context
    pub disk : Fs
    pub locks : lk.Fs

  -- A part of the function goes on, returns from the function, or is undefined.
  pub data Step : Type 0 where
    go : Written → Step
    ret : Written → Step
    fault : Step

  infixl 5 ◌>>=◌
  abbrev pub ◌>>=◌ : Step → (Written → Step) → Step
  go w >>= k = k w
  ret w >>= k = ret w
  fault >>= k = fault

  abbrev pub finish : Step → Option Written
  finish (go w) = some w
  finish (ret w) = some w
  finish fault = none

  abbrev fail : String → Written → Step
  fail msg w = ret (record w { ctx = set_error 500 msg w.ctx })

  abbrev check : Written → Step
  check w = if check_error w.ctx then ret w else go w

  module _ (env : Writer Fs lk.Fs) where
    -- `if(!tile->encoded_data)`: encode, and return if that fails.
    unfoldable pub encode : Written → Step
    encode w = elim w.tile.encoded_data [
      | some _ ↦ go w
      | none ↦ elim w.tile.tileset.format [
        | none ↦ fault
        | some _ ↦
            let (ctx, bytes) = env.format_write w.tile.raw_image w.ctx in
            check (record w { tile = record w.tile { encoded_data = bytes }; ctx = ctx })
      ]
    ]

    -- `apr_dir_make_recursive`, where EEXIST is no failure.
    unfoldable pub make_directory : String → Text → Written → Step
    make_directory msg dir w =
        let (st, f) = make_dir dir w.disk in
        elim st [
          | done ↦ go (record w { disk = f })
          | exists ↦ go (record w { disk = f })
          | _ ↦ fail msg (record w { disk = f })
        ]

    -- `apr_file_open` of the file of a tile, where the directory is made again before each further try.
    unfoldable pub create_loop : ℕ → Text → Text → Written → Step
    create_loop zero dir name w =
        let (st, f) = open_write name w.disk in
        if is_done st
        then go (record w { disk = f })
        else fail "failed to create file %s: %s" (record w { disk = f })
    create_loop (suc rounds) dir name w =
        let (st, f) = open_write name w.disk in
        let again =
          make_directory "failed to create file, can not create directory %s: %s" dir
            (record w { disk = f })
          >>= create_loop rounds dir name in
        if is_done st then go (record w { disk = f }) else again

    -- `symlink`, with the same tries.
    link_loop : ℕ → Text → Text → Text → Written → Step
    link_loop zero dir target name w =
        let (linked, f) = symlink target name w.disk in
        if linked
        then go (record w { disk = f })
        else fail "failed to link tile %s to %s: %s" (record w { disk = f })
    link_loop (suc rounds) dir target name w =
        let (linked, f) = symlink target name w.disk in
        let again =
          make_directory "failed to create symlink, can not create directory %s: %s" dir
            (record w { disk = f })
          >>= link_loop rounds dir target name in
        if linked then go (record w { disk = f }) else again

    -- A short write is reported, and the file is closed all the same.
    close_file : Text → ℕ → Text → Written → Step
    close_file name n bytes w =
        let msg : String = "failed to write image data to %s, wrote %d of %d bytes" in
        let ctx = if n == length bytes then w.ctx else set_error 500 msg w.ctx in
        let (st, f) = close name w.disk in
        if is_done st
        then go (record w { ctx = ctx; disk = f })
        else fail "failed to close file %s:%s" (record w { ctx = ctx; disk = f })

    unfoldable pub write_file : Text → Written → Step
    unfolding close_file
    write_file name w = elim w.tile.encoded_data [
      | none ↦ fault
      | some bytes ↦
          let (st, n, f) = write name bytes w.disk in
          if is_done st
          then close_file name n bytes (record w { disk = f })
          else fail "failed to write data to file %s (wrote %d of %d bytes): %s"
              (record w { disk = f })
    ]

    release : Text → Written → Written
    release blankname w = record w { locks = unlock lk env.lockdir blankname w.locks }

    -- The blank file under its lock, which is given back on every path.
    write_blank : Text → Text → Written → Step
    unfolding release
    write_blank blankname bytes w =
        let (st, n, f) = write blankname bytes w.disk in
        let w' : Written = release blankname (record w { disk = f }) in
        if not (is_done st)
        then fail "failed to write data to file %s (wrote %d of %d bytes): %s" w'
        else if not (n == length bytes)
        then fail "failed to write image data to %s, wrote %d of %d bytes" w'
        else go (record w' { disk = (close blankname f).1 })

    create_blank : Text → Written → Step
    unfolding write_blank
    create_blank blankname w = elim w.tile.encoded_data [
      | none ↦ fault
      | some bytes ↦
          let (st, f) = open_write blankname w.disk in
          if is_done st
          then write_blank blankname bytes (record w { disk = f })
          else fail "failed to create file %s: %s" (release blankname (record w { disk = f }))
    ]

    -- If another process has the lock, the blank file is there when it gives the lock back.
    lock_blank : Text → Written → Step
    unfolding create_blank
    lock_blank blankname w =
        let (is_locked, locks) = lock_or_wait lk env.wait env.lockdir blankname w.locks in
        if is_locked
        then create_blank blankname (record w { locks = locks })
        else go (record w { locks = locks; disk = env.others blankname w.disk })

    -- The blank file is made if it cannot be opened.
    ensure_blank : Text → Text → Written → Step
    unfolding encode make_directory lock_blank
    ensure_blank blankname blankdir w =
        let fresh =
          encode w
          >>= make_directory "failed to create directory %s for blank tiles" blankdir
          >>= lock_blank blankname in
        if is_done (open_read blankname w.disk)
        then go (record w { disk = (close blankname w.disk).1 })
        else fresh

    base : Text
    base = elim dc.base_directory [ none ↦ codes "(null)" | some b ↦ b ]

    -- A link from the tile to the blank file, and the return from the function.
    link_blank : Text → Text → Text → Written → Step
    unfolding link_loop
    link_blank dir name blankname w = elim (relative_path name blankname) [
      | none ↦ fault
      | some target ↦ do
        w ← check w
        w ← link_loop (pos_part dc.creation_retry) dir target name w
        ret w
    ]

    set_blank : Text → Text → Image → Written → Step
    unfolding ensure_blank base link_blank
    set_blank dir name img w = elim (blank_tile_key base w.tile img.pixels) [
      | none ↦ fault
      | some blankname ↦ do
        w ← ensure_blank blankname (blank_directory base w.tile) w
        link_blank dir name blankname w
    ]

    -- `if(!tile->raw_image)`: decode, and return if that fails.
    decode_tile : Written → Step
    decode_tile w = elim w.tile.raw_image [
      | some _ ↦ go w
      | none ↦
          let (ctx, img) = env.decode w.tile.encoded_data w.ctx in
          check (record w { tile = record w.tile { raw_image = img }; ctx = ctx })
    ]

    test_blank : Text → Text → Written → Step
    unfolding set_blank
    test_blank dir name w = elim w.tile.raw_image [
      | none ↦ fault
      | some img ↦
          let (img', is_blank) = blank_color img in
          let w' : Written = record w { tile = record w.tile { raw_image = some img' } } in
          let linked = set_blank dir name img' w' in if is_blank then linked else go w'
    ]

    -- The part under HAVE_SYMLINK.
    unfoldable pub try_blank : Text → Text → Written → Step
    unfolding decode_tile test_blank
    try_blank dir name w =
        let linked = decode_tile w >>= test_blank dir name in
        if dc.symlink_blank then linked else go w

    -- What follows the name of the file.
    unfoldable pub set_file : Text → Text → Written → Step
    unfolding make_directory try_blank encode create_loop write_file
    set_file dir name w = do
      w ← make_directory "failed to create directory %s: %s" dir w
      let (ctx, f) = removed fs dc w.ctx (remove name w.disk)
      w ← try_blank dir name (record w { ctx = ctx; disk = f })
      w ← encode w
      w ← create_loop (pos_part dc.creation_retry) dir name w
      write_file name w

    named : Written → Option Text → Step
    unfolding set_file
    named w none = fault
    named w (some name) =
        let stored : Step = elim (directory name) [
          | none ↦ fault
          | some dir ↦ set_file dir name w
        ] in
        if check_error w.ctx then ret w else stored

    -- `_mapcache_cache_disk_set`; no result is undefined behaviour. Beyond the highest cached level the
    -- tile is only encoded.
    unfoldable pub set : Written → Option Written
    unfolding named encode
    set w =
        let stored = named w (tile_key dc w.tile) in
        let skipped = encode w in finish (if beyond_maxzoom dc w.tile then skipped else stored)
