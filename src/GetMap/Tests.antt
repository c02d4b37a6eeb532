-- ===== src/GetMap/Tests.antt =====
-- Maps at concrete inputs.
use mapcache.Base.{
  pos, Text, codes, true, false, ◌≡◌, refl, none, some, List, [], ◌∷◌, ◌-ℤ◌, ◌+ℤ◌, ◌*ℤ◌, quot_ℤ,
  show_ℤ,
}
use mapcache.Context.{Context, init, has_error, set_error}
use mapcache.Types.{Tile, Map}
use mapcache.Samples.{png, small_link, small_tileset, small_tile, listed_files}
use mapcache.Imageio.{gc_png}
use mapcache.Fetch.{success, Cache, Env, tile_get}
use mapcache.Prefetch.{World, prefetch_tiles}
use mapcache.Core.{Services, Response, count_data, content_type, expiry_headers, response_create}
use mapcache.Grid.{get_extent}
use mapcache.Grid.Lookup.Points.{exact}
use mapcache.Grid.Lookup.{get_closest_level, get_xy, get_resolution}
use mapcache.Maps.Assemble.{nearest, Painter}
use mapcache.GetMap.{Request, assemble, fetch_maps, get_map, finish_map, update_loop}
use mapcache.GetMap.Tiles.{Newest, Shown, finish_map-Newest}
use mapcache.GetMap.Overlays.{Latest}
use mapcache.GetMap.Answered.{get_map-Latest}

-- A cache that has every tile.
abbrev full_cache : Cache (List Text)
full_cache = record {
  tile_get =
      λ t ctx s. (success, record t { encoded_data = some (codes "tile"); mtime = 50 }, ctx, s);
  tile_delete = λ t ctx s. (ctx, s);
  tile_set = λ t ctx s. (t, ctx, s);
  tile_multi_set = none;
}

abbrev full_env : Env (List Text)
full_env = record {
  cache = full_cache;
  render_map = λ m ctx s. (m, ctx, s);
  decode = λ b ctx. (ctx, none);
  now = λ s. 0;
  non_blocking = false;
  lockdir = codes "/tmp";
  others = λ k s. s;
}

abbrev services : Services
services = record {
  write = λ f img ctx. (ctx, some (codes "map"));
  decode = λ b ctx. (ctx, none);
  header_sniff = λ b. gc_png;
  table_set = λ h k v. (k, v) ∷ h;
  rfc822_date = λ t. codes "later";
  now = 1000000;
  default_image_format = png;
}

-- Decoding leaves the image as it is.
abbrev painter : Painter
painter = record {
  doubles = exact;
  decode_to_image = λ b img ctx. (img, ctx);
  copy_bilinear = λ src dst x y w h. dst;
}

-- A map of one tile.
abbrev one_tile : Map
one_tile = record {
  tileset = small_tileset (pos 0);
  grid_link = small_link;
  dimensions = none;
  encoded_data = none;
  raw_image = none;
  nodata = false;
  width = pos 1;
  height = pos 1;
  extent = record { minx = pos 1; miny = pos 1; maxx = pos 2; maxy = pos 2 };
  mtime = 0;
  expires = pos 0;
}

abbrev request : Request
request = record {
  maps = one_tile ∷ [];
  getmap_strategy = assemble;
  resample_mode = nearest;
  getmap_format = png;
}

abbrev start : World (λ t. full_env) listed_files (λ f n. f)
start = record { locks = []; store = [] }

abbrev answer : Response
answer = record {
  body = some (codes "map");
  headers =
      (codes "Expires", codes "later")
      ∷ (codes "Cache-Control", codes "max-age=300")
      ∷ (codes "Content-Type", codes "image/png")
      ∷ [];
  code = 200;
  mtime = 50;
}

answered :
    get_map services
      (λ t. full_env)
      listed_files
      (λ f n. f)
      (λ a b. true)
      (λ ms. "")
      false
      false
      (λ t k v. t)
      painter
      request
      init
      start
    ≡ some ((init, some answer), start)
unfolding get_map get_closest_level ◌-ℤ◌ ◌+ℤ◌ ◌*ℤ◌ get_xy quot_ℤ prefetch_tiles tile_get get_extent
    count_data content_type expiry_headers response_create show_ℤ get_resolution set_error
answered = refl

get_map-Latest_example :
    (ms : List Map) × (c : Context) × (fetch_maps services
        (λ t. full_env)
        listed_files
        (λ f n. f)
        (λ a b. true)
        (λ ms. "")
        false
        false
        (λ t k v. t)
        painter
        nearest
        (one_tile ∷ [])
        init
        start
      ≡ some (ms, c, start))
    × (has_error c ≡ false)
    × (answer.code ≡ 200)
    × Latest answer.mtime ms
get_map-Latest_example =
    get_map-Latest services (λ t. full_env) listed_files (λ f n. f) (λ a b. true) (λ ms. "") false
      false (λ t k v. t) painter request init init start start answer refl answered

-- A tile with data, one without, and a map of the two.
abbrev shown : Tile
shown = record (small_tile (pos 1)) {
  encoded_data = some (codes "tile");
  mtime = 50;
  expires = pos 60;
}

abbrev not_shown : Tile
not_shown = record (small_tile (pos 1)) { nodata = true; mtime = 70 }

finished :
    (m : Map) × (c : Context) × (finish_map
        (λ t k v. t)
        painter
        nearest
        one_tile
        (not_shown ∷ shown ∷ [])
        init
      ≡ some (m, c))
unfolding finish_map ◌-ℤ◌ ◌+ℤ◌ ◌*ℤ◌ get_extent quot_ℤ count_data
finished = (_, _, refl)

finish_map-Newest_example :
    Newest one_tile finished.0 (not_shown ∷ shown ∷ []) × Shown finished.0 (not_shown ∷ shown ∷ [])
finish_map-Newest_example =
    finish_map-Newest (λ t k v. t) painter nearest one_tile finished.0 (not_shown ∷ shown ∷ []) init
      finished.1 finished.2

-- A tile that does not expire hides the delay of the tiles before it, but not of those after it.
no_delay : (update_loop (shown ∷ record shown { expires = pos 0 } ∷ []) one_tile).expires ≡ pos 0
unfolding update_loop
no_delay = refl

some_delay : (update_loop (record shown { expires = pos 0 } ∷ shown ∷ []) one_tile).expires ≡ pos 60
unfolding update_loop
some_delay = refl
