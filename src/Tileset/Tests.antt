-- ===== src/Tileset/Tests.antt =====
-- Runs of the tileset operations, and the theorems about them at concrete inputs.
use mapcache.Base.{
  pos, ◌≡◌, refl, true, codes, ◌⊎◌, some, get_elem?, quot_ℤ, to_u32, to_i32, ◌+ℤ◌, ◌-ℤ◌, ◌*ℤ◌,
  show_ℤ,
}
use mapcache.Context.{Context, init, has_error}
use mapcache.Types.{Extent, Tile, Metatile}
use mapcache.Samples.{tileset, tile, finest, tile-OnLevel}
use mapcache.Tileset.{configuration_check, tile_validate}
use mapcache.Tileset.Checks.{InRange, tile_validate_lem, WellConfigured, configuration_check_lem}
use mapcache.Tileset.Metatiles.{
  metatile_get, metatile_on, metatile_at, tiles_loop, meta_index, meta_size, resource_key,
}
use mapcache.Tileset.Metatiles.Members.{Holds, Member, metatile_get-Holds, metatile_get-Member}
use mapcache.Tileset.Metatiles.Keys.{IsPlaced, resource_key_distinct}

abbrev tile_limits : Extent
tile_limits = record { minx = pos 0; miny = pos 0; maxx = pos 4; maxy = pos 4 }

tile_validate_lem_example :
    (ctx' : Context) × (tile_validate tile init ≡ some ctx')
    × (((ctx' ≡ init) × InRange tile tile_limits)
        ⊎ ((has_error ctx' ≡ true) × (InRange tile tile_limits → ⊥)))
tile_validate_lem_example = tile_validate_lem tile tile_limits refl init refl refl

configuration_check_lem_example :
    ((configuration_check tileset init ≡ init) × WellConfigured tileset)
    ⊎ ((has_error (configuration_check tileset init) ≡ true) × (WellConfigured tileset → ⊥))
configuration_check_lem_example = configuration_check_lem tileset init refl refl

metatile_get-Holds_example :
    (mt : Metatile) × (metatile_get tile init ≡ some (init, some mt))
    × Holds tile finest tile-OnLevel mt
metatile_get-Holds_example = metatile_get-Holds tile finest tile-OnLevel init

-- The tile above the sample tile's metatile's first one.
abbrev neighbour : Tile
neighbour = record tile { y = pos 0; expires = pos 0 }

found : metatile_get tile init ≡ some (init, some (metatile_on tile finest))
unfolding metatile_get
found = refl

first_entry : get_elem? (metatile_on tile finest).tiles 0 ≡ some neighbour
unfolding metatile_at tiles_loop meta_index meta_size quot_ℤ to_u32 to_i32 ◌+ℤ◌ ◌-ℤ◌ ◌*ℤ◌
first_entry = refl

metatile_get-Member_example : Member tile finest tile-OnLevel neighbour
metatile_get-Member_example = metatile_get-Member tile finest tile-OnLevel init 0 found first_entry

metatile-IsPlaced : IsPlaced (metatile_on tile finest)
unfolding metatile_at tiles_loop meta_index meta_size quot_ℤ to_u32 to_i32 ◌+ℤ◌ ◌-ℤ◌ ◌*ℤ◌
metatile-IsPlaced = record { x = 1; y = 0; z = 2; at_x = refl; at_y = refl; at_z = refl }

resource_key_distinct_example :
    ((metatile_on tile finest).x ≡ (metatile_on tile finest).x)
    × ((metatile_on tile finest).y ≡ (metatile_on tile finest).y)
    × ((metatile_on tile finest).z ≡ (metatile_on tile finest).z)
resource_key_distinct_example =
    resource_key_distinct (metatile_on tile finest) (metatile_on tile finest) metatile-IsPlaced
      metatile-IsPlaced refl

sample_key : resource_key (metatile_on tile finest) ≡ codes "2-0-1-osm"
unfolding resource_key show_ℤ metatile_at tiles_loop meta_index meta_size quot_ℤ to_u32 to_i32 ◌+ℤ◌
    ◌-ℤ◌ ◌*ℤ◌
sample_key = refl
