-- ===== src/Tms/Tests.antt =====
-- Runs of the parser of lib/service_tms.c, and its theorems at concrete inputs.
use mapcache.Base.{
  ℤ, pos, negsuc, to_i32, to_u32, map, ◌+ℤ◌, ◌-ℤ◌, ◌*ℤ◌, Text, codes, true, Option, none, some,
  List, [], ◌∷◌, ◌≡◌, refl, arith,
}
use mapcache.Context.{Context, init}
use mapcache.Types.{Tile, Dimensions}
use mapcache.Samples.{tileset, grid_link, finest}
use mapcache.Tileset.{tile_create, tile_validate}
use mapcache.Config.{Config}
use mapcache.Request.{Request, get_tile, parse_int, tokens, from_other_side}
use mapcache.Request.Checked.{answered, Exact}
use mapcache.Tms.{
  Service, conflicting, tms, gmaps, parse_request, find_layer, reversed, place, checked, parts_loop,
  requested, ask_tiles, layers_loop,
}
use mapcache.Tms.Rounds.{Good, All}
use mapcache.Tms.Layers.{parse_request-Good}
use mapcache.Tms.Placed.{FromCorner}
use mapcache.Tms.Roundtrip.{Known, path_of, parse_request-path}

abbrev table_set : Dimensions → Text → Text → Dimensions
table_set t k v = (k, v) ∷ t

abbrev config : Config
config = record {
  is_normal = true;
  tilesets = (codes "osm", tileset) ∷ (codes "sat", tileset) ∷ [];
}

minus_seven : parse_int (codes " -7.png") ≡ (negsuc 6, codes ".png")
unfolding parse_int to_i32 to_u32
minus_seven = refl

overflows : (parse_int (codes "4294967297")).0 ≡ pos 1
unfolding parse_int to_i32 to_u32
overflows = refl

no_number : parse_int (codes "x1") ≡ (pos 0, codes "x1")
unfolding parse_int to_i32 to_u32
no_number = refl

three_tokens : tokens b'/' (codes "//a/b//c/") ≡ codes "a" ∷ codes "b" ∷ codes "c" ∷ []
unfolding tokens
three_tokens = refl

abbrev rows : Option (Option Request × Context) → Option (List (ℤ × ℤ × ℤ))
rows (some (some (get_tile ts), ctx)) = some (map (λ t. (t.x, t.y, t.z)) ts)
rows _ = none

abbrev ask : Service → Text → Option (Option Request × Context)
ask s path = parse_request table_set s (some path) config init

two_layers :
    rows (ask tms (codes "/1.0.0/osm;sat/2/3/0.png"))
    ≡ some ((pos 3, pos 0, pos 2) ∷ (pos 3, pos 0, pos 2) ∷ [])
unfolding parse_request parts_loop parse_int requested ask_tiles layers_loop find_layer reversed
    place checked tokens from_other_side tile_create tile_validate conflicting to_i32 to_u32
two_layers = refl

-- The gmaps service reverses the row once more for each layer.
two_gmaps_layers :
    rows (ask gmaps (codes "/osm;sat/2/3/0.png"))
    ≡ some ((pos 3, pos 3, pos 2) ∷ (pos 3, pos 0, pos 2) ∷ [])
unfolding parse_request parts_loop parse_int requested ask_tiles layers_loop find_layer reversed
    place checked tokens from_other_side tile_create tile_validate conflicting to_i32 to_u32 ◌-ℤ◌
two_gmaps_layers = refl

-- A level that does not exist is read out of bounds.
no_such_level : ask gmaps (codes "/osm/7/0/0.png") ≡ none
unfolding parse_request parts_loop parse_int requested ask_tiles layers_loop find_layer reversed
    place checked tokens from_other_side tile_create tile_validate conflicting to_i32 to_u32
no_such_level = refl

finest-Exact : Exact grid_link.grid finest
unfolding ◌+ℤ◌ ◌*ℤ◌
finest-Exact = refl

abbrev known : Known config (codes "osm") 2
known = record {
  tileset = tileset;
  link = grid_link;
  links = [];
  level = finest;
  name_part = refl;
  one_layer = refl;
  has_tileset = refl;
  has_links = refl;
  has_level = refl;
  supported = refl;
  exact = finest-Exact;
  size = omega arith;
}

parse_request-path_example :
    (t : Tile) × (t.tileset ≡ tileset)
    × (t.grid_link ≡ grid_link)
    × FromCorner tms t finest 3 1 2
    × (ask tms (path_of tms (codes "osm") 2 3 1 (codes "png")) ≡ answered t (tile_validate t init))
parse_request-path_example =
    parse_request-path table_set tms config (codes "osm") (codes "png") 2 3 1 init known refl
      (omega arith) (omega arith) (omega arith)

abbrev two_tiles : List Tile
two_tiles =
    record (tile_create table_set tileset grid_link) { x = pos 3; y = pos 0; z = pos 2 }
    ∷ record (tile_create table_set tileset grid_link) { x = pos 3; y = pos 0; z = pos 2 }
    ∷ []

asks_two : ask tms (codes "/1.0.0/osm;sat/2/3/0.png") ≡ some (some (get_tile two_tiles), init)
unfolding parse_request parts_loop parse_int requested ask_tiles layers_loop find_layer reversed
    place checked tokens from_other_side tile_create tile_validate conflicting to_i32 to_u32
asks_two = refl

parse_request-Good_example : (g : Text) × All (Good g) two_tiles × (init ≡ init)
parse_request-Good_example =
    parse_request-Good table_set tms (some (codes "/1.0.0/osm;sat/2/3/0.png")) config init
      (refl, refl) asks_two
