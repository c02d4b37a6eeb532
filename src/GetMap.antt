-- ===== src/GetMap.antt =====
-- The request for a map of lib/core.c: `mapcache_fetch_maps` and `mapcache_core_get_map`.
--
-- What the threads, the locks, the caches and the sources are is told in Prefetch and Fetch, and what the
-- codecs, the clock and the tables of headers are in Core. The pointers to the tiles of a map are shared
-- with the list of all tiles, so the tiles that are fetched are divided among the maps again. The sizes of a map
-- are not negative. `none` is a run without a result, as in these.
pub mod Tiles
pub mod Overlays
pub mod Answered
mod Tests
use Prim.Native.String.{String}
use mapcache.Base.{
  ℕ, zero, suc, ◌+◌, ℤ, pos, ltb_ℤ, ◌==ℤ◌, pos_part, Text, Bool, true, false, not, ◌&&◌, ◌||◌,
  Option, none, some, List, [], ◌∷◌, ◌++◌, map, take, drop, length, ltb, ◌==◌, if◌then◌else◌, ◌>>=◌,
}
use mapcache.Context.{Message, Context, set_error, check_error, has_error}
use mapcache.Types.{Dimensions, ImageFormat, Image, Tileset, Tile, Map}
use mapcache.Lock.{Files}
use mapcache.Image.{merge}
use mapcache.Tileset.{is_some}
use mapcache.Fetch.{Env}
use mapcache.Prefetch.{World, prefetch_tiles}
use mapcache.Core.{Services, Response, response_create, count_data, content_type, expiry_headers}
use mapcache.Maps.{get_map_tiles}
use mapcache.Maps.Assemble.{ResampleMode, Painter, assemble_map_tiles}

-- `mapcache_getmap_strategy`: MAPCACHE_GETMAP_ERROR, MAPCACHE_GETMAP_ASSEMBLE and MAPCACHE_GETMAP_FORWARD
pub data Strategy : Type 0 where
  error assemble forward : Strategy

-- `struct mapcache_request_get_map`; `nmaps` is the length of `maps`.
pub record Request : Type 0 where
  pub maps : List Map
  pub getmap_strategy : Strategy
  pub resample_mode : ResampleMode
  pub getmap_format : ImageFormat

-- `!a || b < a`: the delay `b` replaces `a`.
abbrev pub replaced_by : ℤ → ℤ → ℤ
replaced_by a b = if a ==ℤ pos 0 || ltb_ℤ b a then b else a

-- A tile with data changes the time and the delay of its map.
unfoldable pub update_map : Tile → Map → Map
update_map t m = record m {
  mtime = if ltb m.mtime t.mtime then t.mtime else m.mtime;
  expires = replaced_by m.expires t.expires;
}

unfoldable pub update_loop : List Tile → Map → Map
unfolding update_map
update_loop [] m = m
update_loop (t ∷ ts) m = update_loop ts (if t.nodata then m else update_map t m)

abbrev pub with_dimensions : Map → Tile → Tile
with_dimensions m t = record t { dimensions = m.dimensions }

-- The tiles of all maps in one list, each with the dimensions of its map.
unfoldable pub all_tiles : List Map → List (List Tile) → List Tile
all_tiles [] tss = []
all_tiles (m ∷ ms) [] = []
all_tiles (m ∷ ms) (ts ∷ tss) = map (with_dimensions m) ts ++ all_tiles ms tss

unfoldable pub divide : List (List Tile) → List Tile → List (List Tile)
divide [] ts = []
divide (g ∷ gs) ts = take (length g) ts ∷ divide gs (drop (length g) ts)

-- The first map that has data, and the maps after it.
find_base : List Map → Option (Map × List Map)
find_base [] = none
find_base (m ∷ ms) = if m.nodata then find_base ms else some (m, ms)

-- `none` within an answer is NULL.
abbrev pub Answer : Type 0 → Type 0
Answer A = Context × Option A

abbrev and_then : {A B : Type 0} → Answer A → (A → Context → Answer B) → Answer B
and_then (ctx, none) f = (ctx, none)
and_then (ctx, some a) f = f a ctx

-- A decoder gives an image or an error, so two maps that are merged have images.
merged : Map → Option Image → Option Image → Context → Answer Map
unfolding merge
merged base (some under) (some over) ctx =
    let (img, ctx') = merge under over ctx in
    (ctx', if has_error ctx' then none else some (record base { raw_image = some img }))
merged base _ _ ctx = (ctx, none)

-- The base with the time and the delay of an overlay.
with_times : Map → Map → Map
with_times m base = record base {
  mtime = if ltb base.mtime m.mtime then m.mtime else base.mtime;
  expires = replaced_by base.expires m.expires;
}

-- The overlays of assembled maps.
overlay_loop : List Map → Map → Context → Answer Map
unfolding merged with_times
overlay_loop [] base ctx = (ctx, some base)
overlay_loop (m ∷ ms) base ctx =
    if m.nodata
    then overlay_loop ms base ctx
    else and_then (merged base base.raw_image m.raw_image ctx)
        (λ base' ctx'. overlay_loop ms (with_times m base') ctx')

pub assembled : List Map → Context → Answer Map
unfolding find_base overlay_loop
assembled ms ctx = elim (find_base ms) [
  | none ↦ (
    set_error 404
        "no tiles containing image data could be retrieved to create map (not in cache, and/or no source configured)"
        ctx,
    none,
  )
  | some (base, rest) ↦ overlay_loop rest base ctx
]

module _ (services : Services) where
  -- The image of a rendered map, decoded unless it has one.
  with_image : Map → Context → Answer Map
  with_image m ctx = elim m.raw_image [
    | none ↦
        let (ctx', image) = services.decode m.encoded_data ctx in
        (ctx', if has_error ctx' then none else some (record m { raw_image = image }))
    | some _ ↦ (ctx, some m)
  ]

  -- An overlay on the base. The time of the base stays.
  forward_overlay : Map → Map → Context → Answer Map
  unfolding with_image merged
  forward_overlay base m ctx = and_then (with_image m ctx) (λ over ctx'.
      and_then (merged base base.raw_image over.raw_image ctx') (λ base' ctx''.
        (ctx'', some (record base' { expires = replaced_by base'.expires over.expires }))))

  -- The response for the map that is left.
  finish : Option ImageFormat → Map → Answer Text → Answer Response
  finish format base (ctx, body) = (
    ctx,
    some
        (record (expiry_headers services base.expires
          (content_type services format (record response_create { body = body }))) {
            mtime = base.mtime;
          }),
  )

  respond : ImageFormat → Map → Context → Answer Response
  unfolding finish
  respond format base ctx = elim base.raw_image [
    | none ↦ finish none base (ctx, base.encoded_data)
    | some image ↦
        let (ctx', body) = services.write format image ctx in
        if has_error ctx' then (ctx', none) else finish (some format) base (ctx', body)
  ]

sources_exist : List Map → Bool
sources_exist [] = true
sources_exist (m ∷ ms) = is_some m.tileset.source && sources_exist ms

module _ (table_set : Dimensions → Text → Text → Dimensions) (painter : Painter) where
  -- `mapcache_tileset_get_map_tiles` of each map
  get_tiles : List Map → Context → Option (Context × List (List Tile))
  unfolding get_map_tiles
  get_tiles [] ctx = some (ctx, [])
  get_tiles (m ∷ ms) ctx = do
    (ctx', ts) ←
        get_map_tiles painter.doubles table_set m.tileset m.grid_link m.extent (pos_part m.width)
          (pos_part m.height) ctx
    (ctx'', tss) ← get_tiles ms ctx'
    some (ctx'', ts ∷ tss)

  -- The last loop's body: a map from its tiles.
  unfoldable pub finish_map : ResampleMode → Map → List Tile → Context → Option (Map × Context)
  unfolding update_loop assemble_map_tiles
  finish_map mode m ts ctx =
      let m' = update_loop ts m in
      if count_data ts == 0 then some (record m' { nodata = true }, ctx) else (do
        (image, ctx') ←
            assemble_map_tiles painter m.grid_link m.extent (pos_part m.width) (pos_part m.height)
              mode ts ctx
        some (record m' { raw_image = some image }, ctx'))

  finish_maps : ResampleMode → List Map → List (List Tile) → Context → Option (List Map × Context)
  unfolding finish_map
  finish_maps mode [] tss ctx = some ([], ctx)
  finish_maps mode (m ∷ ms) [] ctx = some (m ∷ ms, ctx)
  finish_maps mode (m ∷ ms) (ts ∷ tss) ctx = do
    (m', ctx') ← finish_map mode m ts ctx
    (ms', ctx'') ← finish_maps mode ms tss ctx'
    some (m' ∷ ms', ctx'')

module _ {S : Type 0} (services : Services) (env_of : Tileset → Env S) (fs : Files)
    (wait : fs.Fs → Text → fs.Fs) (same_tileset : Tileset → Tileset → Bool)
    (joined : Option Message → String) (threaded_fetching non_blocking : Bool)
    (table_set : Dimensions → Text → Text → Dimensions) (painter : Painter) where
  -- `mapcache_fetch_maps`
  pub fetch_maps :
      ResampleMode
      → List Map
      → Context
      → World env_of fs wait
      → Option (List Map × Context × World env_of fs wait)
  unfolding get_tiles all_tiles divide finish_maps
  fetch_maps mode ms ctx w = do
    (ctx₁, tss) ← get_tiles table_set painter ms ctx
    (ts, ctx₂, w') ←
        prefetch_tiles env_of fs wait same_tileset joined threaded_fetching (all_tiles ms tss) ctx₁
          w
    if check_error ctx₂ then some (ms, ctx₂, w') else (do
      (ms', ctx₃) ← finish_maps table_set painter mode ms (divide tss ts) ctx₂
      some (ms', ctx₃, w'))

  render : Map → Context → World env_of fs wait → Map × Context × World env_of fs wait
  render m ctx w =
      let (m', ctx', store) = (env_of m.tileset).render_map m ctx w.store in
      (m', ctx', record w { store = store })

  forward_loop : List Map → Map → Context → World env_of fs wait → Answer Map × World env_of fs wait
  unfolding render forward_overlay
  forward_loop [] base ctx w = ((ctx, some base), w)
  forward_loop (m ∷ ms) base ctx w =
      let (m', ctx', w') = render m ctx w in
      let (ctx'', result) = forward_overlay services base m' ctx' in
      if has_error ctx'
      then ((ctx', none), w')
      else elim result [ none ↦ ((ctx'', none), w') | some base' ↦ forward_loop ms base' ctx'' w' ]

  -- The maps from the sources, the first one below the others.
  forward_maps : Map → List Map → Context → World env_of fs wait → Answer Map × World env_of fs wait
  unfolding render with_image forward_loop
  forward_maps m ms ctx w =
      let (base, ctx', w') = render m ctx w in
      let (ctx'', result) = with_image services base ctx' in
      if has_error ctx'
      then ((ctx', none), w')
      else if ltb 0 (length ms)
      then elim result [ none ↦ ((ctx'', none), w') | some base' ↦ forward_loop ms base' ctx'' w' ]
      else ((ctx', some base), w')

  -- The base map of the answer, by the strategy of the request.
  base_map : Request → Context → World env_of fs wait → Option (Answer Map × World env_of fs wait)
  unfolding fetch_maps assembled sources_exist forward_maps
  base_map r ctx w = elim r.getmap_strategy [
    | error ↦ some ((set_error 404 "full wms support disabled" ctx, none), w)
    | assemble ↦ (do
      (ms, ctx', w') ← fetch_maps r.resample_mode r.maps ctx w
      some (if has_error ctx' then (ctx', none) else assembled ms ctx', w'))
    | forward ↦
        if non_blocking
        then some ((set_error 400 "failed getmap, readonly mode" ctx, none), w)
        else elim r.maps [
          | [] ↦ none
          | m ∷ ms ↦
              if sources_exist (m ∷ ms)
              then some (forward_maps m ms ctx w)
              else some (
                (
                  set_error 404 "cannot forward request for tileset %s: no source configured" ctx,
                  none,
                ),
                w,
              )
        ]
  ]

  -- `mapcache_core_get_map`
  unfoldable pub get_map :
      Request → Context → World env_of fs wait → Option (Answer Response × World env_of fs wait)
  unfolding base_map respond
  get_map r ctx w = do
    (answer, w') ← base_map r ctx w
    some (and_then answer (respond services r.getmap_format), w')
