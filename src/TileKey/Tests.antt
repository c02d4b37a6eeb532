-- ===== src/TileKey/Tests.antt =====
-- Keys of sample tiles, and the theorems about keys at concrete inputs.
use mapcache.Base.{codes, show_ℤ, ◌≡◌, refl, none, some, [], ◌∷◌}
use mapcache.Types.{Tile}
use mapcache.Samples.{tile}
use mapcache.TileKey.{get_tile_dimkey, template_key, get_tile_key}
use mapcache.Util.{str_find, str_replace}
use mapcache.TileKey.Distinct.{SlashFree, SamePlace, get_tile_key_distinct}

abbrev tile_of_day : Tile
tile_of_day = record tile { dimensions = some ((codes "day", codes "12") ∷ []) }

key_of_tile : get_tile_key tile none none ≡ some (codes "osm/g/2/1/3/png")
unfolding get_tile_key show_ℤ
key_of_tile = refl

key_of_day : get_tile_key tile_of_day none none ≡ some (codes "osm/g/12/2/1/3/png")
unfolding get_tile_key get_tile_dimkey show_ℤ
key_of_day = refl

key_of_template :
    get_tile_key tile_of_day (some (codes "{tileset}#{dim}#{z}#{y}#{x}")) none
    ≡ some (codes "osm#12#2#1#3")
unfolding get_tile_key template_key get_tile_dimkey show_ℤ str_find str_replace
key_of_template = refl

abbrev tile-SlashFree : SlashFree none tile_of_day
unfolding get_tile_dimkey
tile-SlashFree = record {
  name_free = refl;
  grid_free = refl;
  key = codes "12";
  dimkey = refl;
  key_free = refl;
}

get_tile_key_distinct_example :
    (tile_of_day.tileset.name ≡ tile_of_day.tileset.name)
    × (tile_of_day.grid_link.grid.name ≡ tile_of_day.grid_link.grid.name)
    × (codes "12" ≡ codes "12")
    × SamePlace tile_of_day tile_of_day
unfolding get_tile_key get_tile_dimkey show_ℤ
get_tile_key_distinct_example =
    get_tile_key_distinct none tile_of_day tile_of_day {k = codes "osm/g/12/2/1/3/png"}
      tile-SlashFree tile-SlashFree tt refl refl
