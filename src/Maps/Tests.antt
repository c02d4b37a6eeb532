-- ===== src/Maps/Tests.antt =====
-- The tiles of a map at concrete inputs.
use mapcache.Base.{
  none, pos, negsuc, ◌-ℤ◌, ◌+ℤ◌, ◌*ℤ◌, quot_ℤ, arith, ◌≡◌, refl, some, List, [], ◌∷◌,
}
use mapcache.Context.{Context, init, set_error}
use mapcache.Types.{Extent, Tile}
use mapcache.Samples.{tileset, grid, grid_link, finest}
use mapcache.Grid.Lookup.Points.{exact}
use mapcache.Grid.Lookup.{get_resolution, get_closest_level, get_xy}
use mapcache.Maps.{get_map_tiles, tile_on}
use mapcache.Maps.Loops.{Among}
use mapcache.Maps.Assemble.{no_corners, corners_loop, top_left_loop}
use mapcache.Maps.TopLeft.{TopLeft, assertion_holds}

-- A box that reaches beyond the grid on the right.
abbrev box : Extent
box = record { minx = pos 300; miny = negsuc 99; maxx = pos 800; maxy = pos 200 }

abbrev limits : Extent
limits = record { minx = pos 0; miny = pos 0; maxx = pos 4; maxy = pos 4 }

closest : get_closest_level grid_link (get_resolution box 500 300) ≡ some (pos 2)
unfolding get_closest_level get_resolution ◌-ℤ◌ ◌+ℤ◌ ◌*ℤ◌
closest = refl

-- The lower and the upper tile in the last column.
abbrev lower : Tile
lower = tile_on (λ t k v. t) tileset grid_link (pos 2) (pos 3) (pos 1)

abbrev upper : Tile
upper = tile_on (λ t k v. t) tileset grid_link (pos 2) (pos 3) (pos 2)

abbrev two_tiles : List Tile
two_tiles = lower ∷ upper ∷ []

-- The tiles in the columns behind the last one are left out, and their errors cleared.
beyond_grid :
    get_map_tiles exact (λ t k v. t) tileset grid_link box 500 300 init ≡ some (init, two_tiles)
unfolding get_map_tiles get_closest_level get_resolution get_xy set_error ◌-ℤ◌ ◌+ℤ◌ ◌*ℤ◌ quot_ℤ
beyond_grid = refl

assertion_holds_example :
    (v : Tile) × (top_left_loop grid.origin (corners_loop two_tiles no_corners) two_tiles none
      ≡ some v)
    × Among two_tiles v
    × TopLeft grid.origin two_tiles v
assertion_holds_example =
    assertion_holds exact (λ t k v. t) tileset grid_link box finest (pos 2) limits 500 300 init init
      lower (upper ∷ []) closest refl refl (omega arith) (omega arith) refl
      (omega arith, omega arith) (omega arith, omega arith) (omega arith, omega arith) (refl, refl)
      beyond_grid
