-- ===== src/Prefetch.antt =====
-- Fetching several tiles at once: `mapcache_prefetch_tiles` and `_thread_get_tile` of lib/core.c, built with
-- threads and without the thread pool.
--
-- Threads are created and joined by APR, which is taken to succeed. They run here one after another, in
-- the order in which they are launched.
pub mod Launch
pub mod Joined
mod Tests
use Prim.Native.String.{String}
use mapcache.Base.{
  ℕ, ℤ, ◌==ℤ◌, quot_ℤ, Text, Bool, true, false, not, ◌&&◌, ◌||◌, Option, none, some, List, [], ◌∷◌,
  ◌==◌, if◌then◌else◌, ◌>>=◌, length,
}
use mapcache.Context.{
  Message, Context, set_error, check_error, has_error, copy, init, get_error, get_error_message,
}
use mapcache.Types.{Tileset, Tile}
use mapcache.Lock.{Files}
use mapcache.Fetch.{Env, Run, tile_get}

-- `_thread_tile`: a tile, and whether a thread is launched for it
pub record ThreadTile : Type 0 where
  pub tile : Tile
  pub launch : Bool

-- Pointers to tilesets are compared by `same_tileset`.
module _ (same_tileset : Tileset → Tileset → Bool) where
  pub is_same_metatile : Tile → Tile → Bool
  is_same_metatile t u =
      same_tileset t.tileset u.tileset
      && (quot_ℤ t.x t.tileset.metasize_x ==ℤ quot_ℤ u.x u.tileset.metasize_x
          && quot_ℤ t.y t.tileset.metasize_y ==ℤ quot_ℤ u.y u.tileset.metasize_y)

  -- The loop `while(j>=0)` over the tiles before, the last one first.
  pub is_rendered : Tile → List ThreadTile → Bool
  unfolding is_same_metatile
  is_rendered t [] = false
  is_rendered t (m ∷ ms) = if m.launch && is_same_metatile t m.tile then true else is_rendered t ms

  pub mark_loop : List ThreadTile → List Tile → List ThreadTile
  unfolding is_rendered
  mark_loop before [] = []
  mark_loop before (t ∷ ts) =
      let m : ThreadTile = record { tile = t; launch = not (is_rendered t before) } in
      m ∷ mark_loop (m ∷ before) ts

-- The main context after the threads are joined: errors of a thread are reported to it, as one message.
pub join_loop : (Option Message → String) → List Context → Context → Context
join_loop joined [] ctx = ctx
join_loop joined (c ∷ cs) ctx =
    join_loop joined cs
      (if has_error c then set_error (get_error c) (joined (get_error_message c)) ctx else ctx)

module _ {S : Type 0} (env_of : Tileset → Env S) (fs : Files) (wait : fs.Fs → Text → fs.Fs) where
  open fs use {Fs}

  -- The locks and the stores.
  pub record World : Type 0 where
    pub locks : Fs
    pub store : S

  -- `mapcache_tileset_tile_get` with the cache and the source of the tileset of the tile
  pub fetch : Tile → Context → World → Option (Tile × Context × World)
  fetch t ctx w = do
    run ← tile_get (env_of t.tileset) fs wait t ctx w.locks w.store
    some (run.tile, run.ctx, record { locks = run.locks; store = run.store })

  -- One tile after another, up to the first error.
  pub fetch_loop : List Tile → Context → World → Option (List Tile × Context × World)
  unfolding fetch
  fetch_loop [] ctx w = some ([], ctx, w)
  fetch_loop (t ∷ ts) ctx w = do
    (t', ctx', w') ← fetch t ctx w
    if check_error ctx'
        then some (t' ∷ ts, ctx', w')
        else (do (ts', ctx'', w'') ← fetch_loop ts ctx' w'; some (t' ∷ ts', ctx'', w''))

  -- The threads: each fetches its tile with a context of its own, a clone of the main one.
  thread_loop : List ThreadTile → Context → World → Option (List ThreadTile × List Context × World)
  unfolding fetch
  thread_loop [] ctx w = some ([], [], w)
  thread_loop (m ∷ ms) ctx w =
      if m.launch
      then (do
        (t, c, w') ← fetch m.tile (copy ctx init) w
        (ms', cs, w'') ← thread_loop ms ctx w'
        some (record m { tile = t } ∷ ms', c ∷ cs, w''))
      else (do (ms', cs, w') ← thread_loop ms ctx w; some (m ∷ ms', cs, w'))

  tiles_of : List ThreadTile → List Tile
  tiles_of [] = []
  tiles_of (m ∷ ms) = m.tile ∷ tiles_of ms

  -- The tiles that did not get a thread.
  rest_loop : List ThreadTile → Context → World → Option (List Tile × Context × World)
  unfolding fetch tiles_of
  rest_loop [] ctx w = some ([], ctx, w)
  rest_loop (m ∷ ms) ctx w =
      if m.launch
      then (do (ts, ctx', w') ← rest_loop ms ctx w; some (m.tile ∷ ts, ctx', w'))
      else (do
        (t, ctx', w') ← fetch m.tile ctx w
        if check_error ctx'
            then some (t ∷ tiles_of ms, ctx', w')
            else (do (ts, ctx'', w'') ← rest_loop ms ctx' w'; some (t ∷ ts, ctx'', w'')))

  -- `mapcache_prefetch_tiles`
  unfoldable pub prefetch_tiles :
      (Tileset → Tileset → Bool)
      → (Option Message → String)
      → Bool
      → List Tile
      → Context
      → World
      → Option (List Tile × Context × World)
  unfolding fetch_loop thread_loop rest_loop mark_loop join_loop
  prefetch_tiles same_tileset joined threaded_fetching ts ctx w =
      if length ts == 1 || not threaded_fetching then fetch_loop ts ctx w else (do
        (ms, cs, w') ← thread_loop (mark_loop same_tileset [] ts) ctx w
        rest_loop ms (join_loop joined cs ctx) w')
