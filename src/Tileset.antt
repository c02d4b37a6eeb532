-- ===== src/Tileset.antt =====
-- Tilesets: checks and construction of lib/tileset.c. Metatiles are in a module below, and what fetches and
-- renders tiles is in the module Fetch.
pub mod Checks
pub mod Metatiles
mod Tests
use Prim.Native.String.{String}
use mapcache.Base.{
  ℕ, zero, suc, ◌+◌, ◌-◌, ◌*◌, ◌%◌, ◌^◌, ℤ, pos, negsuc, ◌+ℤ◌, ◌-ℤ◌, ◌*ℤ◌, quot_ℤ, to_u32, to_i32,
  ltb_ℤ, leb_ℤ, ◌==ℤ◌, pos_part, show_ℤ, Text, codes, Bool, true, false, not, ◌&&◌, ◌||◌, Option,
  none, some, List, [], ◌∷◌, ◌++◌, ltb, leb, ◌==◌, if◌then◌else◌, ◌>>=◌, length,
}
use mathlib.Core.List.{map, foldl}
use mapcache.Context.{Context, set_error}
use mapcache.Types.{
  Extent, GridLevel, GridOrigin, bottom_left, top_left, bottom_right, top_right, Grid, GridLink,
  SourceType, Image, ImageFormat, Dimension, Dimensions, Tileset, Tile, Map, Metatile, at,
}
use mapcache.Grid.{is_supported}

pub is_gdal : Option SourceType → Bool
is_gdal (some SourceType.gdal) = true
is_gdal _ = false

abbrev pub is_some {ℓ} : {A : Type ℓ} → Option A → Bool
is_some none = false
is_some (some _) = true

abbrev pub is_empty {ℓ} : {A : Type ℓ} → List A → Bool
is_empty [] = true
is_empty (x ∷ xs) = false

-- Metatiling, buffering and watermarks need the pixels of an image.
abbrev pub needs_format : Tileset → Bool
needs_format ts =
    not (ts.metasize_x ==ℤ pos 1)
    || (not (ts.metasize_y ==ℤ pos 1) || (not (ts.metabuffer ==ℤ pos 0) || is_some ts.watermark))

-- `mapcache_tileset_configuration_check`, without USE_PROJ
pub configuration_check : Tileset → Context → Context
unfolding is_gdal
configuration_check ts ctx =
    if not (is_some ts.cache)
    then set_error 400 "tileset \"%s\" has no cache configured." ctx
    else if is_empty ts.grid_links
    then set_error 400 "tileset \"%s\" has no grids configured" ctx
    else if not (is_some ts.format) && is_gdal ts.source
    then set_error 400
        "tileset \"%s\" references a gdal source. <format> tag is missing and mandatory in this case"
        ctx
    else if ltb_ℤ ts.metabuffer (pos 0)
        || (ltb_ℤ ts.metasize_x (pos 1) || ltb_ℤ ts.metasize_y (pos 1))
    then set_error 400 "tileset \"%s\" has invalid metasize %d,%d or metabuffer %d" ctx
    else if not (is_some ts.format) && needs_format ts
    then (if is_some ts.watermark
        then set_error 400
            "tileset \"%s\" has no <format> configured, but it is needed for the watermark" ctx
        else set_error 400
            "tileset \"%s\" has no <format> configured, but it is needed for metatiling" ctx)
    else ctx

-- `mapcache_tileset_tile_validate`; `none` is a read behind the end of `grid_limits`.
unfoldable pub tile_validate : Tile → Context → Option Context
tile_validate t ctx =
    if ltb_ℤ t.z t.grid_link.minz || leb_ℤ t.grid_link.maxz t.z
    then some (set_error 404 "invalid tile z level" ctx)
    else do
      limits ← at t.grid_link.grid_limits t.z
      some (
          if ltb_ℤ t.x limits.minx || leb_ℤ limits.maxx t.x
          then set_error 404 "tile x=%d not in [%d,%d[" ctx
          else if ltb_ℤ t.y limits.miny || leb_ℤ limits.maxy t.y
          then set_error 404 "tile y=%d not in [%d,%d[" ctx
          else ctx)

-- `mapcache_tileset_create`
pub create : Tileset
create = record {
  name = [];
  grid_links = [];
  metasize_x = pos 1;
  metasize_y = pos 1;
  metabuffer = pos 0;
  expires = pos 300;
  auto_expire = pos 0;
  cache = none;
  source = none;
  format = none;
  dimensions = none;
  watermark = none;
  elevation = false;
}

-- `mapcache_tileset_clone`: `elevation` is not copied, and memory from `apr_pcalloc` is zero.
pub clone : Tileset → Tileset
clone src = record src { elevation = false }

-- The table of default values, by `apr_table_set`, which is APR's.
module _ (table_set : Dimensions → Text → Text → Dimensions) where
  default_dimensions : Option (List Dimension) → Option Dimensions
  default_dimensions none = none
  default_dimensions (some ds) = some (foldl (λ t d. table_set t d.name d.default_value) [] ds)

  -- `mapcache_tileset_tile_create`
  unfoldable pub tile_create : Tileset → GridLink → Tile
  unfolding default_dimensions
  tile_create ts link = record {
    tileset = ts;
    grid_link = link;
    x = pos 0;
    y = pos 0;
    z = pos 0;
    encoded_data = none;
    raw_image = none;
    mtime = 0;
    expires = if ts.auto_expire ==ℤ pos 0 then ts.expires else ts.auto_expire;
    dimensions = default_dimensions ts.dimensions;
    nodata = false;
  }

  -- `mapcache_tileset_map_create`, and the map within `mapcache_tileset_feature_info_create`
  pub map_create : Tileset → GridLink → Map
  unfolding default_dimensions
  map_create ts link = record {
    tileset = ts;
    grid_link = link;
    dimensions = default_dimensions ts.dimensions;
    encoded_data = none;
    raw_image = none;
    nodata = false;
    width = pos 0;
    height = pos 0;
    extent = record { minx = pos 0; miny = pos 0; maxx = pos 0; maxy = pos 0 };
    mtime = 0;
    expires = pos 0;
  }
