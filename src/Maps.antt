-- ===== src/Maps.antt =====
-- The tiles of a map: `mapcache_tileset_get_map_tiles` of lib/tileset.c.
--
-- The sizes of a map in pixels are not negative. The array of pointers is a list, so the count of the
-- rectangle, which only bounds the array, is not computed.
pub mod Loops
pub mod Cover
pub mod Assemble
pub mod Corners
pub mod TopLeft
mod Tests
use mapcache.Base.{
  ℕ, zero, suc, ◌+◌, ℤ, pos, ◌+ℤ◌, ◌-ℤ◌, ltb_ℤ, max_ℤ, min_ℤ, pos_part, Text, Bool, Option, none,
  some, List, [], ◌∷◌, ◌++◌, if◌then◌else◌, ◌>>=◌,
}
use mapcache.Context.{Context, has_error, clear_errors}
use mapcache.Types.{Extent, Grid, GridLink, Dimensions, Tileset, Tile}
use mapcache.Grid.{is_supported}
use mapcache.Grid.Lookup.{Doubles, get_resolution, get_closest_level, get_xy}
use mapcache.Tileset.{tile_create, tile_validate}

-- How many numbers there are from `a` up to `b`, which is not below it.
abbrev pub count_to : ℤ → ℤ → ℕ
count_to a b = suc (pos_part (b -ℤ a))

module _ (table_set : Dimensions → Text → Text → Dimensions) (ts : Tileset) (link : GridLink)
    (level : ℤ) where
  -- The new tile of the loops' body.
  unfoldable pub tile_on : ℤ → ℤ → Tile
  unfolding tile_create
  tile_on x y = record (tile_create table_set ts link) { x = x; y = y; z = level }

  -- The loop over the rows of one column, with `n` rounds left.
  unfoldable pub rows_loop : ℤ → ℤ → ℕ → Context → Option (Context × List Tile)
  unfolding tile_on tile_validate clear_errors
  rows_loop x y zero ctx = some (ctx, [])
  rows_loop x y (suc n) ctx = do
    ctx' ← tile_validate (tile_on x y) ctx
    (ctx'', tiles) ← rows_loop x (y +ℤ pos 1) n (if has_error ctx' then clear_errors ctx' else ctx')
    some (ctx'', if has_error ctx' then tiles else tile_on x y ∷ tiles)

  -- The loop over the columns, with `n` rounds left.
  unfoldable pub columns_loop : ℤ → ℕ → ℤ → ℕ → Context → Option (Context × List Tile)
  unfolding rows_loop
  columns_loop x zero y rows ctx = some (ctx, [])
  columns_loop x (suc n) y rows ctx = do
    (ctx', column) ← rows_loop x y rows ctx
    (ctx'', rest) ← columns_loop (x +ℤ pos 1) n y rows ctx'
    some (ctx'', column ++ rest)

  -- The tiles between two corners of the rectangle.
  unfoldable pub rectangle : ℤ × ℤ → ℤ × ℤ → Context → Option (Context × List Tile)
  unfolding columns_loop
  rectangle bl tr ctx =
      let mx = min_ℤ tr.0 bl.0 in
      let my = min_ℤ tr.1 bl.1 in
      columns_loop mx (count_to mx (max_ℤ tr.0 bl.0)) my (count_to my (max_ℤ tr.1 bl.1)) ctx

-- `mapcache_tileset_get_map_tiles`. The corners have no value if the origin is not supported.
unfoldable pub get_map_tiles :
    Doubles
    → (Dimensions → Text → Text → Dimensions)
    → Tileset
    → GridLink
    → Extent
    → ℕ
    → ℕ
    → Context
    → Option (Context × List Tile)
unfolding rectangle
get_map_tiles doubles table_set ts link bbox width height ctx = do
  level ← get_closest_level link (get_resolution bbox width height)
  (ctx', bl_x, bl_y) ← get_xy doubles ctx link.grid bbox.minx bbox.miny level (pos 0) (pos 0)
  (ctx'', tr_x, tr_y) ← get_xy doubles ctx' link.grid bbox.maxx bbox.maxy level (pos 0) (pos 0)
  if is_supported link.grid.origin
      then rectangle table_set ts link level (bl_x, bl_y) (tr_x, tr_y) ctx''
      else none
