-- ===== src/Fetch.antt =====
-- Fetching a tile: `mapcache_tileset_tile_get`, `mapcache_tileset_tile_delete` and
-- `mapcache_tileset_render_metatile` of lib/tileset.c.
--
-- Caches and sources are tables of function pointers, and here records of operations on a store, which
-- stands for all that they keep. The locks are files of another directory. Time is in microseconds.
pub mod Outcomes
pub mod Locks
pub mod Deletion
pub mod Rendered
mod Tests
use Prim.Native.String.{String}
use mapcache.Base.{
  ℕ, zero, suc, ◌+◌, ◌*◌, ℤ, pos, ◌+ℤ◌, ◌-ℤ◌, ◌*ℤ◌, quot_ℤ, to_u32, to_i32, ltb_ℤ, ◌==ℤ◌, Text,
  Bool, true, false, not, ◌&&◌, ◌||◌, Option, none, some, List, [], ◌∷◌, ◌==◌, if◌then◌else◌, ◌>>=◌,
}
use mapcache.Context.{Context, set_error, check_error, clear_errors}
use mapcache.Types.{Tileset, Tile, Map, Metatile, Image}
use mapcache.Lock.{Files, lock_or_wait, unlock}
use mapcache.Tileset.{is_some}
use mapcache.Tileset.Metatiles.{metatile_get, resource_key}
use mapcache.Split.{split}

-- What `tile_get` of a cache returns: MAPCACHE_SUCCESS, MAPCACHE_CACHE_MISS or another code.
pub data CacheResult : Type 0 where
  success cache_miss failure : CacheResult

-- `struct mapcache_cache`: the operations on tiles. `tile_set` keeps the data that it has encoded in
-- the tile.
pub record Cache (S : Type 0) : Type 0 where
  pub tile_get : Tile → Context → S → CacheResult × Tile × Context × S
  pub tile_delete : Tile → Context → S → Context × S
  pub tile_set : Tile → Context → S → Tile × Context × S
  pub tile_multi_set : Option (List Tile → Context → S → List Tile × Context × S)

-- What surrounds the call: the cache of the tileset, `render_map` of its source, the codecs, the clock,
-- the mode and the lock directory of the configuration, and what the other threads do while one waits.
pub record Env (S : Type 0) : Type 0 where
  pub cache : Cache S
  pub render_map : Map → Context → S → Map × Context × S
  pub decode : Option Text → Context → Context × Option Image
  pub now : S → ℕ
  pub non_blocking : Bool
  pub lockdir : Text
  pub others : Text → S → S

-- The tile takes a copy of the data of the only tile of its metatile.
take_first : ℤ → List Tile → Tile → Tile
take_first ntiles [] t = t
take_first ntiles (first ∷ _) t =
    if ntiles ==ℤ pos 1 && is_some first.encoded_data
    then record t { encoded_data = first.encoded_data; mtime = 0 }
    else t

pub take_data : Metatile → Tile → Tile
unfolding take_first
take_data mt t = take_first mt.ntiles mt.tiles t

module _ {S : Type 0} (env : Env S) where
  -- `tile_set` of one tile after another, up to the first error.
  set_loop : List Tile → Context → S → List Tile × Context × S
  set_loop [] ctx s = ([], ctx, s)
  set_loop (t ∷ ts) ctx s =
      let (t', ctx', s') = env.cache.tile_set t ctx s in
      let (ts', ctx'', s'') : List Tile × Context × S = set_loop ts ctx' s' in
      if check_error ctx' then (t' ∷ ts, ctx', s') else (t' ∷ ts', ctx'', s'')

  set_tiles : List Tile → Context → S → List Tile × Context × S
  unfolding set_loop
  set_tiles ts ctx s = elim env.cache.tile_multi_set [
    | none ↦ set_loop ts ctx s
    | some set ↦ set ts ctx s
  ]

  store_split : S → Metatile × Context → Metatile × Context × S
  unfolding set_tiles
  store_split s (mt, ctx) =
      let (ts, ctx', s') = set_tiles mt.tiles ctx s in
      if check_error ctx then (mt, ctx, s) else (record mt { tiles = ts }, ctx', s')

  -- What follows the call of the source.
  after_render : Metatile → Map × Context × S → Option (Metatile × Context × S)
  unfolding store_split
  after_render mt (m, ctx, s) =
      let mt' : Metatile = record mt { map = m } in
      let rest = split env.decode mt' ctx >>= λ r. some (store_split s r) in
      if check_error ctx then some (mt', ctx, s) else rest

  -- `mapcache_tileset_render_metatile`
  pub render_metatile : Metatile → Context → S → Option (Metatile × Context × S)
  unfolding after_render
  render_metatile mt ctx s = after_render mt (env.render_map mt.map ctx s)

  -- A tile that was not there is no error.
  forgive : Context → Context
  forgive ctx = if ctx.errcode == 404 then clear_errors ctx else ctx

  -- The other tiles of the metatile, up to the first error.
  pub delete_loop : Tile → List Tile → Context → S → Context × S
  unfolding forgive
  delete_loop t [] ctx s = (ctx, s)
  delete_loop t (u ∷ us) ctx s =
      let (ctx', s') = env.cache.tile_delete u ctx s in
      let skipped = delete_loop t us ctx s in
      let rest = delete_loop t us (forgive ctx') s' in
      if u.x ==ℤ t.x && u.y ==ℤ t.y
      then skipped
      else if check_error (forgive ctx')
      then (forgive ctx', s')
      else rest

  delete_others : Tile → S → Context × Option Metatile → Option (Context × S)
  unfolding delete_loop
  delete_others t s (ctx, none) = none
  delete_others t s (ctx, some mt) = some (delete_loop t mt.tiles ctx s)

  -- `mapcache_tileset_tile_delete`; no result is the use of a metatile that is NULL.
  pub tile_delete : Tile → Bool → Context → S → Option (Context × S)
  unfolding delete_others
  tile_delete t whole_metatile ctx s =
      let (ctx', s') = env.cache.tile_delete t ctx s in
      let rest = metatile_get t ctx' >>= delete_others t s' in
      if check_error ctx' || not whole_metatile then some (ctx', s') else rest

  seconds : ℤ → ℤ
  seconds n = n *ℤ pos 1000000

  -- The tile is in the cache, and is older than the tileset allows.
  pub is_stale : CacheResult → Tile → S → Bool
  unfolding seconds
  is_stale success t s =
      not (t.tileset.auto_expire ==ℤ pos 0)
      && (not (t.mtime == 0)
          && (is_some t.tileset.source
              && ltb_ℤ (pos t.mtime +ℤ seconds t.tileset.auto_expire) (pos (env.now s))))
  is_stale _ t s = false

  -- `update the tile expiration time`
  pub update_expires : Tile → S → Tile
  unfolding seconds
  update_expires t s =
      let left = pos t.mtime +ℤ seconds t.tileset.auto_expire -ℤ pos (env.now s) in
      if not (t.tileset.auto_expire ==ℤ pos 0) && not (t.mtime == 0)
      then record t { expires = to_i32 (to_u32 (quot_ℤ left (pos 1000000))) }
      else t

  module _ (fs : Files) where
    open fs use {Fs}

    -- The tile, the errors, the locks and the store after a call.
    pub record Run : Type 0 where
      pub tile : Tile
      pub ctx : Context
      pub locks : Fs
      pub store : S

    module _ (wait : Fs → Text → Fs) where
      -- The lock of the metatile is ours: render it, and give the lock back.
      unlocked : Metatile → Tile → Fs → Metatile × Context × S → Run
      unfolding take_data update_expires
      unlocked mt t f (mt', ctx, s) = record {
        tile = update_expires (take_data mt' t) s;
        ctx = ctx;
        locks = unlock fs env.lockdir (resource_key mt') f;
        store = s;
      }

      -- Another thread had the lock, and has finished.
      waited : Tile → Context → Fs → Text → S → Run
      unfolding update_expires
      waited t ctx f key s =
          let s' = env.others key s in
          record { tile = update_expires t s'; ctx = ctx; locks = f; store = s' }

      -- After the lock is taken, or another thread has given it back.
      with_lock : Metatile → Tile → Context → S → Bool × Fs → Option Run
      unfolding unlocked waited render_metatile
      with_lock mt t ctx s (is_locked, f) =
          let run = render_metatile mt ctx s >>= λ r. some (unlocked mt t f r) in
          if is_locked then run else some (waited t ctx f (resource_key mt) s)

      render_or_wait : Tile → Fs → S → Context × Option Metatile → Option Run
      unfolding with_lock
      render_or_wait t f s (ctx, none) = none
      render_or_wait t f s (ctx, some mt) =
          with_lock mt t ctx s (lock_or_wait fs wait env.lockdir (resource_key mt) f)

      -- The tile is not in the cache.
      on_miss : Tile → Context → Fs → S → Option Run
      unfolding render_or_wait
      on_miss t ctx f s =
          let run = metatile_get t ctx >>= render_or_wait t f s in
          if not (is_some t.tileset.source)
          then some (record { tile = record t { nodata = true }; ctx = ctx; locks = f; store = s })
          else if env.non_blocking
          then (some (record {
            tile = t;
            ctx = set_error 404 "tile not in cache, and configured for readonly mode" ctx;
            locks = f;
            store = s;
          }))
          else run

      after_delete : Tile → Fs → Context × S → Option Run
      unfolding on_miss
      after_delete t f (ctx, s) =
          let run = on_miss t ctx f s in
          if check_error ctx
          then some (record { tile = t; ctx = ctx; locks = f; store = s })
          else run

      -- The tile as the cache has left it.
      on_answer : CacheResult → Tile → Context → Fs → S → Option Run
      unfolding on_miss update_expires
      on_answer cache_miss t ctx f s = on_miss t ctx f s
      on_answer _ t ctx f s =
          some (record { tile = update_expires t s; ctx = ctx; locks = f; store = s })

      -- What follows the answer of the cache.
      after_get : Fs → CacheResult × Tile × Context × S → Option Run
      unfolding tile_delete after_delete on_answer is_stale
      after_get f (ret, t, ctx, s) =
          let expired = tile_delete t true ctx s >>= after_delete t f in
          let answer = on_answer ret t ctx f s in
          if check_error ctx
          then some (record { tile = t; ctx = ctx; locks = f; store = s })
          else if is_stale ret t s
          then expired
          else answer

      -- `mapcache_tileset_tile_get`
      unfoldable pub tile_get : Tile → Context → Fs → S → Option Run
      unfolding after_get
      tile_get t ctx f s = after_get f (env.cache.tile_get t ctx s)
