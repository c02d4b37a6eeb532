-- ===== src/Ve/Tests.antt =====
-- Runs of the parser of lib/service_ve.c, and its theorem at a concrete input.
use mapcache.Base.{ℕ, ◌+ℤ◌, ◌*ℤ◌, codes, true, none, some, List, [], ◌∷◌, ◌≡◌, refl, arith}
use mapcache.Context.{init}
use mapcache.Types.{Tile, Dimensions}
use mapcache.Samples.{tileset, grid_link, finest}
use mapcache.Tileset.{tile_validate}
use mapcache.Config.{Config}
use mapcache.Request.Checked.{answered, Exact}
use mapcache.Ve.{quadkey_loop, digit_bits, add_bit, parse_request}
use mapcache.Ve.Placed.{Known, FromTopLeft, parse_request-quadkey}

abbrev table_set : Dimensions → (List ℕ) → (List ℕ) → Dimensions
table_set t k v = (k, v) ∷ t

abbrev config : Config
config = record { is_normal = true; tilesets = (codes "osm", tileset) ∷ [] }

-- The example of the documentation of quadkeys: column 3 and row 5 of level 3.
column_and_row : quadkey_loop 0 0 (codes "213") ≡ some (3, 5)
unfolding quadkey_loop digit_bits add_bit
column_and_row = refl

not_a_digit : quadkey_loop 0 0 (codes "24") ≡ none
unfolding quadkey_loop digit_bits add_bit
not_a_digit = refl

finest-Exact : Exact grid_link.grid finest
unfolding ◌+ℤ◌ ◌*ℤ◌
finest-Exact = refl

abbrev known : Known config (codes "osm") (codes "g") 2
known = record {
  tileset = tileset;
  link = grid_link;
  level = finest;
  name_plain = refl;
  has_tileset = refl;
  has_link = refl;
  has_level = refl;
  supported = refl;
  exact = finest-Exact;
  size = omega arith;
  not_first = omega arith;
  not_last = omega arith;
  in_word = omega arith;
}

parse_request-quadkey_example :
    (t : Tile) × (t.tileset ≡ tileset)
    × (t.grid_link ≡ grid_link)
    × FromTopLeft t finest 3 1 2
    × (parse_request table_set (some (codes "osm@g")) (some (codes "13")) config init
        ≡ answered t (tile_validate t init))
parse_request-quadkey_example =
    parse_request-quadkey table_set config (codes "osm") (codes "g") 2 3 1 init known (omega arith)
      (omega arith) (omega arith)
