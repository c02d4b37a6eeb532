-- ===== src/Samples.antt =====
-- Sample data for the runs and instances of the other modules: grids, tilesets on them, tiles, an image,
-- and a file system.
use mapcache.Base.{
  replicate, text_eq, text_eq_refl, text_eq_sound, ◌≡◌, Bool, if◌then◌else◌, refl, arith, ◌<◌, ℕ,
  ◌*◌, ◌^◌, ℤ, pos, negsuc, Text, codes, true, false, none, some, List, [], ◌∷◌,
}
use mapcache.Types.{
  Extent, GridLevel, GridOrigin, bottom_left, Grid, GridLink, ImageFormat, Image, SourceType,
  Tileset, Tile, unknown,
}
use mapcache.Lock.{Files}
use mapcache.Tileset.Metatiles.Blocks.{OnLevel}

-- One tile of 256 pixels at level 0, two by two at level 1, and four by four at level 2.
abbrev pub world : Extent
world = record { minx = negsuc 511; miny = negsuc 511; maxx = pos 512; maxy = pos 512 }

abbrev pub grid_with : GridOrigin → Grid
grid_with o = record {
  name = codes "g";
  srs = codes "EPSG:3857";
  extent = world;
  tile_sx = 256;
  tile_sy = 256;
  levels =
      record { resolution = 4; maxx = 1; maxy = 1 }
      ∷ record { resolution = 2; maxx = 2; maxy = 2 }
      ∷ record { resolution = 1; maxx = 4; maxy = 4 }
      ∷ [];
  origin = o;
}

abbrev pub grid : Grid
grid = grid_with bottom_left

abbrev pub grid_link : GridLink
grid_link = record {
  grid = grid;
  restricted_extent = none;
  grid_limits =
      record { minx = pos 0; miny = pos 0; maxx = pos 1; maxy = pos 1 }
      ∷ record { minx = pos 0; miny = pos 0; maxx = pos 2; maxy = pos 2 }
      ∷ record { minx = pos 0; miny = pos 0; maxx = pos 4; maxy = pos 4 }
      ∷ [];
  minz = pos 0;
  maxz = pos 3;
}

abbrev pub png : ImageFormat
png = record { extension = codes "png"; mime_type = some (codes "image/png") }

abbrev pub tileset : Tileset
tileset = record {
  name = codes "osm";
  grid_links = grid_link ∷ [];
  metasize_x = pos 3;
  metasize_y = pos 2;
  metabuffer = pos 10;
  expires = pos 300;
  auto_expire = pos 0;
  cache = some 1;
  source = some SourceType.wms;
  format = some png;
  dimensions = none;
  watermark = none;
  elevation = false;
}

-- The tile at column 3 and row 1 of level 2.
abbrev pub tile : Tile
tile = record {
  tileset = tileset;
  grid_link = grid_link;
  x = pos 3;
  y = pos 1;
  z = pos 2;
  encoded_data = none;
  raw_image = none;
  mtime = 0;
  expires = pos 300;
  dimensions = none;
  nodata = false;
}

-- The level of the tile, where the tile is.
abbrev pub finest : GridLevel
finest = record { resolution = 1; maxx = 4; maxy = 4 }

pub tile-OnLevel : OnLevel tile finest
tile-OnLevel = record {
  x = 3;
  y = 1;
  size_x = 3;
  size_y = 2;
  at_x = refl;
  at_y = refl;
  metasize_x = refl;
  metasize_y = refl;
  level = refl;
  supported = refl;
  inside = (omega arith, omega arith);
  sizes = (omega arith, omega arith, omega arith, omega arith);
  level_sizes = (omega arith, omega arith);
}

-- Tiles of two by two pixels, two by two of them, in metatiles of `size` by `size` tiles with a buffer of one.
abbrev pub small_level : GridLevel
small_level = record { resolution = 1; maxx = 2; maxy = 2 }

abbrev pub small_link : GridLink
small_link = record grid_link {
  grid = record grid {
    extent = record { minx = pos 0; miny = pos 0; maxx = pos 4; maxy = pos 4 };
    tile_sx = 2;
    tile_sy = 2;
    levels = small_level ∷ [];
  };
  maxz = pos 1;
}

abbrev pub small_tileset : ℤ → Tileset
small_tileset size = record tileset {
  grid_links = small_link ∷ [];
  metasize_x = size;
  metasize_y = size;
  metabuffer = pos 1;
}

abbrev pub small_tile : ℤ → Tile
small_tile size = record tile {
  tileset = small_tileset size;
  grid_link = small_link;
  x = pos 1;
  y = pos 0;
  z = pos 0;
}

abbrev pub small_on_level : (n : ℕ) → 0 < n → n < 2 ^ 31 → OnLevel (small_tile (pos n)) small_level
small_on_level n p b = record {
  x = 1;
  y = 0;
  size_x = n;
  size_y = n;
  at_x = refl;
  at_y = refl;
  metasize_x = refl;
  metasize_y = refl;
  level = refl;
  supported = refl;
  inside = (omega arith, omega arith);
  sizes = (p, b, p, b);
  level_sizes = (omega arith, omega arith);
}

-- A map of `n` by `n` pixels, all grey.
abbrev pub grey : ℕ → Image
grey n = record {
  w = n;
  h = n;
  stride = 4 * n;
  pixels = replicate (4 * n * n) 128;
  is_blank = unknown;
  has_alpha = unknown;
  is_elevation = false;
}

-- A set of names.
abbrev pub names_exist : List Text → Text → Bool
names_exist [] n = false
names_exist (m ∷ f) n = if text_eq m n then true else names_exist f n

abbrev pub names_remove : List Text → Text → List Text
names_remove [] n = []
names_remove (m ∷ f) n = if text_eq n m then names_remove f n else m ∷ names_remove f n

pub exist-remove :
    (f : List Text) (n m : Text)
    → names_exist (names_remove f n) m ≡ (if text_eq n m then false else names_exist f m)
exist-remove [] n m = ground arith
exist-remove (k ∷ f) n m = ground (
  arith,
  exist-remove f n m,
  text_eq_sound n k,
  text_eq_sound k m,
  text_eq_refl n,
  text_eq_refl m,
)

-- A file system: the list of the names that exist.
abbrev pub listed_files : Files
listed_files = record {
  Fs = List Text;
  exists = names_exist;
  denied = λ f n. false;
  create = λ f n. n ∷ f;
  remove = names_remove;
  exists-create = λ f n m. refl;
  exists-remove = exist-remove;
}
