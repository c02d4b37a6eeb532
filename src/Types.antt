-- ===== src/Types.antt =====
-- The shared data of include/mapcache.h: grids, tilesets, tiles, maps and metatiles.
--
-- Doubles (extents, resolutions) are integers in one common small unit, so sums and products are exact;
-- the rounding of floating point is not modelled. Resolutions and tile sizes are not negative. A pointer
-- that may be NULL is an Option. A cache and a source are kept as what tells one from another; their
-- operations are interfaces of the functions that call them. Pools, and fields that no modelled
-- operation reads, are left out.
use mapcache.Base.{ℕ, ℤ, pos, negsuc, Text, Bool, Option, none, List, get_elem?}

-- `struct mapcache_extent` and `struct mapcache_extent_i`
pub record Extent : Type 0 where
  pub minx : ℤ
  pub miny : ℤ
  pub maxx : ℤ
  pub maxy : ℤ

-- `struct mapcache_grid_level`
pub record GridLevel : Type 0 where
  pub resolution : ℕ
  pub maxx : ℕ
  pub maxy : ℕ

-- `mapcache_grid_origin`
pub data GridOrigin : Type 0 where
  bottom_left top_left bottom_right top_right : GridOrigin

-- `struct mapcache_grid`; `nlevels` is the length of `levels`.
pub record Grid : Type 0 where
  pub name : Text
  pub srs : Text
  pub extent : Extent
  pub tile_sx : ℕ
  pub tile_sy : ℕ
  pub levels : List GridLevel
  pub origin : GridOrigin

-- `struct mapcache_grid_link`
pub record GridLink : Type 0 where
  pub grid : Grid
  pub restricted_extent : Option Extent
  pub grid_limits : List Extent
  pub minz : ℤ
  pub maxz : ℤ

-- `mapcache_source_type`
pub data SourceType : Type 0 where
  wms mapserver dummy gdal tms : SourceType

-- `struct mapcache_image_format`
pub record ImageFormat : Type 0 where
  pub extension : Text
  pub mime_type : Option Text

-- `mapcache_image_blank_type` and `mapcache_image_alpha_type`: what is known so far
pub data Known : Type 0 where
  unknown known_yes known_no : Known

-- `struct mapcache_image`: rows of `stride` bytes, four to a pixel. `pixels` is the memory from `data` on.
pub record Image : Type 0 where
  pub w : ℕ
  pub h : ℕ
  pub stride : ℕ
  pub pixels : List ℕ
  pub is_blank : Known
  pub has_alpha : Known
  pub is_elevation : Bool

-- the name and the default value of a `struct mapcache_dimension`
pub record Dimension : Type 0 where
  pub name : Text
  pub default_value : Text

-- an `apr_table_t` of dimension values, in its order
abbrev pub Dimensions : Type 0
Dimensions = List (Text × Text)

-- `struct mapcache_tileset`
pub record Tileset : Type 0 where
  pub name : Text
  pub grid_links : List GridLink
  pub metasize_x : ℤ
  pub metasize_y : ℤ
  pub metabuffer : ℤ
  pub expires : ℤ
  pub auto_expire : ℤ
  pub cache : Option ℕ
  pub source : Option SourceType
  pub format : Option ImageFormat
  pub dimensions : Option (List Dimension)
  pub watermark : Option Image
  pub elevation : Bool

-- `struct mapcache_tile`
pub record Tile : Type 0 where
  pub tileset : Tileset
  pub grid_link : GridLink
  pub x : ℤ
  pub y : ℤ
  pub z : ℤ
  pub encoded_data : Option Text
  pub raw_image : Option Image
  pub mtime : ℕ
  pub expires : ℤ
  pub dimensions : Option Dimensions
  pub nodata : Bool

-- `struct mapcache_map`
pub record Map : Type 0 where
  pub tileset : Tileset
  pub grid_link : GridLink
  pub dimensions : Option Dimensions
  pub encoded_data : Option Text
  pub raw_image : Option Image
  pub nodata : Bool
  pub width : ℤ
  pub height : ℤ
  pub extent : Extent
  pub mtime : ℕ
  pub expires : ℤ

-- `struct mapcache_metatile`
pub record Metatile : Type 0 where
  pub map : Map
  pub x : ℤ
  pub y : ℤ
  pub z : ℤ
  pub metasize_x : ℤ
  pub metasize_y : ℤ
  pub ntiles : ℤ
  pub tiles : List Tile

-- `levels[z]` and `grid_limits[z]`: `none` is a read out of bounds.
abbrev pub at {ℓ} : {A : Type ℓ} → List A → ℤ → Option A
at xs (pos n) = get_elem? xs n
at xs (negsuc n) = none
