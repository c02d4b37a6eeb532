-- ===== src/TileKey.antt =====
-- The keys under which tiles are cached: `mapcache_util_get_tile_dimkey` and `mapcache_util_get_tile_key` of
-- lib/util.c. `none` is a sanitizing loop that does not end.
pub mod Distinct
pub mod DimKeys
mod Tests
use mapcache.Base.{
  ℕ, suc, ◌+◌, Text, codes, show_ℤ, Option, none, some, List, [], ◌∷◌, ◌++◌, length, ◌>>=◌,
}
use mathlib.Core.List.{reverse, map}
use mapcache.Types.{ImageFormat, Tileset, Tile, Dimensions}
use mapcache.Util.{str_find, str_replace, str_sanitize}

-- The arguments `sanitized_chars` and `sanitize_to`, or NULL.
abbrev pub Sanitizer : Type 0
Sanitizer = Option (Text × Text)

-- `sanitized_chars ? sanitize_to : "#"`, and `*sanitize_to`
abbrev pub separator : Sanitizer → Text
separator none = codes "#"
separator (some (chars, to)) = to

abbrev pub first_byte : Text → ℕ
first_byte [] = 0
first_byte (c ∷ s) = c

abbrev pub sanitize_key : Sanitizer → Text → Option Text
sanitize_key none key = some key
sanitize_key (some (chars, to)) key = str_sanitize (suc (length key)) key chars (first_byte to)

-- The loop over the values, from the last dimension to the first.
abbrev pub join : Text → List Text → Text
join sep [] = []
join sep (v ∷ []) = v
join sep (v ∷ w ∷ vs) = v ++ (sep ++ join sep (w ∷ vs))

abbrev pub values : Dimensions → List Text
values = map (λ e. e.1)

-- `mapcache_util_get_tile_dimkey`
unfoldable pub get_tile_dimkey : Sanitizer → Option Dimensions → Option Text
get_tile_dimkey san none = some []
get_tile_dimkey san (some []) = sanitize_key san []
get_tile_dimkey san (some (e ∷ [])) = sanitize_key san e.1
get_tile_dimkey san (some (e ∷ d ∷ es)) =
    some (join (separator san) (reverse (values (e ∷ d ∷ es))))

abbrev pub extension : Tileset → Text
extension ts = elim ts.format [ none ↦ codes "png" | some f ↦ f.extension ]

-- `if(strstr(path, placeholder)) path = str_replace(path, placeholder, value)`, with the value computed
-- only then
replace_if_found : Text → Text → Option Text → Option Text
replace_if_found path placeholder value = elim (str_find placeholder path) [
  | none ↦ some path
  | some _ ↦ do v ← value; some (str_replace path placeholder v)
]

-- A key from a template.
pub template_key : Tile → Text → Sanitizer → Option Text
unfolding replace_if_found
template_key t template san = do
  let path = str_replace template (codes "{x}") (show_ℤ t.x)
  let path = str_replace path (codes "{y}") (show_ℤ t.y)
  let path = str_replace path (codes "{z}") (show_ℤ t.z)
  path ← replace_if_found path (codes "{dim}") (get_tile_dimkey san t.dimensions)
  path ← replace_if_found path (codes "{tileset}") (some t.tileset.name)
  path ← replace_if_found path (codes "{grid}") (some t.grid_link.grid.name)
  replace_if_found path (codes "{ext}") (some (extension t.tileset))

-- The dimensions with a '/' behind them, if the tile has a table of them.
dim_part : Sanitizer → Option Dimensions → Option Text
dim_part san none = some []
dim_part san (some dims) = do key ← get_tile_dimkey san (some dims); some (key ++ b'/' ∷ [])

-- `mapcache_util_get_tile_key`
unfoldable pub get_tile_key : Tile → Option Text → Sanitizer → Option Text
unfolding dim_part
get_tile_key t (some template) san = template_key t template san
get_tile_key t none san = do
  dims ← dim_part san t.dimensions
  some (
      t.tileset.name
      ++ b'/'
        ∷ (t.grid_link.grid.name
            ++ b'/'
              ∷ (dims
                  ++ (show_ℤ t.z
                      ++ b'/'
                        ∷ (show_ℤ t.y ++ b'/' ∷ (show_ℤ t.x ++ b'/' ∷ extension t.tileset))))))
