-- ===== src/Disk.antt =====
-- The disk cache, lib/cache_disk.c: the names of the files of the tiles. `none` is undefined behaviour:
-- the use of NULL or of a path that was never set, a level out of bounds, a loop that does not end.
pub mod Blank
pub mod Links
pub mod Files
pub mod Writing
pub mod Names
pub mod Store
pub mod Stored
mod Tests
use mapcache.Base.{
  ℕ, suc, ℤ, pos, ◌-ℤ◌, to_u32, to_i32, quot_ℤ, rem_ℤ, Text, codes, show_ℤ, show_padded, show_hex,
  show_upper_hex, Bool, ◌||◌, Option, none, some, List, [], ◌∷◌, ◌++◌, length, ◌==◌, if◌then◌else◌,
  ◌>>=◌,
}
use mathlib.Core.List.{reverse, map}
use mapcache.Types.{GridLevel, Tile, Dimensions, at}
use mapcache.Util.{str_find, str_replace, str_sanitize}
use mapcache.TileKey.{extension}

-- Which function `tile_key` points to.
pub data Layout : Type 0 where
  tilecache arcgis template : Layout

-- `struct mapcache_cache_disk`
pub record DiskCache : Type 0 where
  pub base_directory : Option Text
  pub filename_template : Option Text
  pub symlink_blank : Bool
  pub creation_retry : ℤ
  pub maxzoom : ℕ
  pub layout : Layout

-- A directory for each dimension, in the order given.
add_dimensions : Text → Dimensions → Option Text
add_dimensions path [] = some path
add_dimensions path ((k, v) ∷ dims) = do
  dimval ← str_sanitize (suc (length v)) v (codes "/.") b'#'
  add_dimensions (path ++ b'/' ∷ dimval) dims

-- The loop runs from the last dimension to the first.
base_path : Text → Text → Text → Option Dimensions → Option Text
unfolding add_dimensions
base_path base name grid_name none = some (base ++ b'/' ∷ (name ++ b'/' ∷ grid_name))
base_path base name grid_name (some dims) =
    add_dimensions (base ++ b'/' ∷ (name ++ b'/' ∷ grid_name)) (reverse dims)

-- `_mapcache_cache_disk_base_tile_key`
pub base_tile_key : Text → Tile → Option Text
unfolding base_path
base_tile_key base t = base_path base t.tileset.name t.grid_link.grid.name t.dimensions

-- `a / 1000000`, `(a / 1000) % 1000` and `a % 1000`
abbrev pub millions : ℤ → ℤ
millions a = quot_ℤ a (pos 1000000)

abbrev pub thousands : ℤ → ℤ
thousands a = rem_ℤ (quot_ℤ a (pos 1000)) 1000

abbrev pub ones : ℤ → ℤ
ones a = rem_ℤ a 1000

-- `%03d/%03d/%03d` of the three, and what follows.
unfoldable pub coordinate_then : ℤ → Text → Text
unfolding show_padded quot_ℤ rem_ℤ
coordinate_then a rest =
    show_padded 3 (millions a)
    ++ b'/' ∷ (show_padded 3 (thousands a) ++ b'/' ∷ (show_padded 3 (ones a) ++ rest))

-- The value of a placeholder, or else the other value of the placeholder that counts the other way.
fill : Text → Text → Text → Text → Option Text → Option Text
fill path name value inv_name inv_value = elim (str_find name path) [
  | none ↦ do v ← inv_value; some (str_replace path inv_name v)
  | some _ ↦ some (str_replace path name value)
]

-- `maxx - x - 1` of an unsigned and an `int`, printed as an `int`
inverse : (GridLevel → ℕ) → Tile → ℤ → Option Text
inverse max t a = do
  l ← at t.grid_link.grid.levels t.z
  some (show_ℤ (to_i32 (to_u32 (pos (max l) -ℤ a -ℤ pos 1))))

-- '.' and '/' are replaced.
safe_byte : ℕ → ℕ
safe_byte c = if c == b'.' || c == b'/' then b'#' else c

dim_string : Dimensions → Text
unfolding safe_byte
dim_string [] = []
dim_string ((k, v) ∷ dims) = b'#' ∷ (k ++ b'#' ∷ (map safe_byte v ++ dim_string dims))

fill_dimensions : Text → Option Dimensions → Text
unfolding dim_string
fill_dimensions path none = path
fill_dimensions path (some dims) = str_replace path (codes "{dim}") (dim_string (reverse dims))

-- `_mapcache_cache_disk_template_tile_key`
pub template_tile_key : Text → Tile → Option Text
unfolding fill inverse fill_dimensions
template_tile_key path t = do
  let path = str_replace path (codes "{tileset}") t.tileset.name
  let path = str_replace path (codes "{grid}") t.grid_link.grid.name
  let path = str_replace path (codes "{ext}") (extension t.tileset)
  path ← fill path (codes "{x}") (show_ℤ t.x) (codes "{inv_x}") (inverse (λ l. l.maxx) t t.x)
  path ← fill path (codes "{y}") (show_ℤ t.y) (codes "{inv_y}") (inverse (λ l. l.maxy) t t.y)
  let levels = pos (length t.grid_link.grid.levels)
  let inv_z = show_ℤ (levels -ℤ t.z -ℤ pos 1)
  path ← fill path (codes "{z}") (show_ℤ t.z) (codes "{inv_z}") (some inv_z)
  some (fill_dimensions path t.dimensions)

-- The part of a name behind the directory of the tileset, the grid and the dimensions.
abbrev pub tilecache_position : Tile → Text
tilecache_position t =
    show_padded 2 t.z
    ++ b'/' ∷ coordinate_then t.x (b'/' ∷ coordinate_then t.y (b'.' ∷ extension t.tileset))

-- `_mapcache_cache_disk_tilecache_tile_key`: without a base directory it is the template.
pub tilecache_tile_key : DiskCache → Tile → Option Text
unfolding template_tile_key base_tile_key
tilecache_tile_key dc t = elim dc.base_directory [
  | none ↦ do path ← dc.filename_template; template_tile_key path t
  | some base ↦ do start ← base_tile_key base t; some (start ++ b'/' ∷ tilecache_position t)
]

abbrev pub arcgis_position : Tile → Text
arcgis_position t =
    b'L'
    ∷ (show_padded 2 t.z
        ++ b'/'
          ∷ (b'R'
              ∷ (show_hex 8 (to_u32 t.y)
                  ++ b'/' ∷ (b'C' ∷ (show_hex 8 (to_u32 t.x) ++ b'.' ∷ extension t.tileset)))))

-- `_mapcache_cache_disk_arcgis_tile_key`: without a base directory the path is never set.
pub arcgis_tile_key : DiskCache → Tile → Option Text
unfolding base_tile_key
arcgis_tile_key dc t = do
  base ← dc.base_directory
  start ← base_tile_key base t
  some (start ++ b'/' ∷ arcgis_position t)

-- The call of `tile_key`
unfoldable pub tile_key : DiskCache → Tile → Option Text
unfolding tilecache_tile_key arcgis_tile_key template_tile_key coordinate_then show_padded
tile_key dc t = elim dc.layout [
  | tilecache ↦ tilecache_tile_key dc t
  | arcgis ↦ arcgis_tile_key dc t
  | template ↦ do path ← dc.filename_template; template_tile_key path t
]

-- The bytes of a color, `%02X` each; a pixel has four.
color_text : List ℕ → Option Text
color_text (r ∷ g ∷ b ∷ a ∷ rest) =
    some (show_upper_hex 2 r ++ (show_upper_hex 2 g ++ (show_upper_hex 2 b ++ show_upper_hex 2 a)))
color_text _ = none

-- The directory of blank tiles.
pub blank_directory : Text → Tile → Text
blank_directory base t =
    base ++ b'/' ∷ (t.tileset.name ++ b'/' ∷ (t.grid_link.grid.name ++ codes "/blanks"))

-- `_mapcache_cache_disk_blank_tile_key`
pub blank_tile_key : Text → Tile → List ℕ → Option Text
unfolding color_text blank_directory
blank_tile_key base t pixels = do
  color ← color_text pixels
  some (blank_directory base t ++ b'/' ∷ (color ++ b'.' ∷ extension t.tileset))
