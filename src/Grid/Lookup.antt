-- ===== src/Grid/Lookup.antt =====
-- From coordinates back to levels and tiles: the second half of lib/grid.c.
pub mod Points
pub mod Closest
use Prim.Native.String.{String}
use mapcache.Base.{◌≤ℤ◌, ◌<◌, ◌^◌, ◌≡◌}
use mapcache.Base.{
  ℕ, zero, suc, ◌+◌, ◌*◌, ℤ, pos, negsuc, ◌+ℤ◌, ◌-ℤ◌, ◌*ℤ◌, quot_ℤ, abs_ℤ, ltb_ℤ, pos_part, Bool,
  ◌||◌, Option, none, some, List, [], ◌∷◌, ltb, leb, ◌==◌, if◌then◌else◌, ◌>>=◌,
}
use mapcache.Context.{Context, set_error}
use mapcache.Types.{
  Extent, GridLevel, GridOrigin, bottom_left, top_left, bottom_right, top_right, Grid, GridLink, at,
}
use mapcache.Grid.{span, is_supported}

-- A quotient of doubles.
pub record Fraction : Type 0 where
  pub num : ℤ
  pub den : ℕ

-- `mapcache_grid_get_horizontal_resolution`
abbrev pub get_horizontal_resolution : Extent → ℕ → Fraction
get_horizontal_resolution bbox width = record { num = bbox.maxx -ℤ bbox.minx; den = width }

-- `mapcache_grid_get_vertical_resolution`
abbrev pub get_vertical_resolution : Extent → ℕ → Fraction
get_vertical_resolution bbox height = record { num = bbox.maxy -ℤ bbox.miny; den = height }

-- `mapcache_grid_get_resolution`: the larger of the two
unfoldable pub get_resolution : Extent → ℕ → ℕ → Fraction
get_resolution bbox sx sy =
    let rx = get_horizontal_resolution bbox sx in
    let ry = get_vertical_resolution bbox sy in
    if ltb_ℤ (ry.num *ℤ pos rx.den) (rx.num *ℤ pos ry.den) then rx else ry

-- `fabs(level->resolution - resolution)`, as a multiple of `1 / den`
abbrev pub distance : GridLevel → Fraction → ℕ
distance l r = abs_ℤ (pos (l.resolution * r.den) -ℤ r.num)

abbrev pub max_size : Grid → ℕ
max_size g = if ltb g.tile_sy g.tile_sx then g.tile_sx else g.tile_sy

-- `fabs(...) < *resolution / max(tile_sx, tile_sy)`
abbrev pub is_near : Grid → Fraction → GridLevel → Bool
is_near g r l = ltb_ℤ (pos (distance l r * max_size g)) r.num

find_level : Grid → Fraction → ℕ → List GridLevel → Option (ℕ × GridLevel)
find_level g r i [] = none
find_level g r i (l ∷ ls) = if is_near g r l then some (i, l) else find_level g r (i + 1) ls

-- `mapcache_grid_get_level`: the level and its number, or `none` for MAPCACHE_FAILURE
pub get_level : Grid → Fraction → Option (ℕ × GridLevel)
unfolding find_level
get_level g r = find_level g r 0 g.levels

-- The loop of `mapcache_grid_get_closest_level`, with `n` rounds left.
closest_loop : Grid → Fraction → ℕ → ℤ → ℕ → ℤ → Option ℤ
closest_loop g r zero i dst level = some level
closest_loop g r (suc n) i dst level = do
  l ← at g.levels i
  let closer = ltb (distance l r) dst
  closest_loop g r n (i +ℤ pos 1) (if closer then distance l r else dst)
      (if closer then i else level)

-- `mapcache_grid_get_closest_level`
unfoldable pub get_closest_level : GridLink → Fraction → Option ℤ
unfolding closest_loop
get_closest_level link r = do
  first ← at link.grid.levels link.minz
  let next = link.minz +ℤ pos 1
  closest_loop link.grid r (pos_part (link.maxz -ℤ next)) next (distance first r) (pos 0)

-- Whole numbers of units in a distance, with the roundings of doubles: `quotient d unit` is
-- `(int)(fl(d) / fl(unit))` of an exact distance and an exact size, where every operation rounds. It
-- grows with `d`; and within the first 2^31 tiles, where three roundings change a quotient by less
-- than a thousandth, a distance that is a thousandth of a tile away from the edges of tile `k` gives `k`.
-- On an edge either neighbour may be given. No quotient overflows the int.
pub record Doubles : Type 0 where
  pub quotient : ℤ → ℕ → ℤ
  pub monotone : (unit : ℕ) (a b : ℤ) → a ≤ℤ b → quotient a unit ≤ℤ quotient b unit
  pub inside :
      (unit k : ℕ) (d : ℤ)
      → 0 < unit
      → k < 2 ^ 31
      → pos (1000 * (k * unit) + unit) ≤ℤ pos 1000 *ℤ d
      → pos 1000 *ℤ d +ℤ pos unit ≤ℤ pos (1000 * (k * unit + unit))
      → quotient d unit ≡ pos k

-- `(int)(d / unit)` without rounding, and `(int)(d / unit + 0.5)`
abbrev pub truncated : ℤ → ℕ → ℤ
truncated d unit = quot_ℤ d (pos unit)

abbrev pub rounded : ℤ → ℕ → ℤ
rounded d unit = quot_ℤ (pos 2 *ℤ d +ℤ pos unit) (pos (2 * unit))

-- The distance of a point from the grid's corner, to the right, and up or down with the tile rows.
abbrev pub from_left : Grid → ℤ → ℤ
from_left g dx = dx -ℤ g.extent.minx

abbrev pub along_rows : Grid → GridOrigin → ℤ → ℤ
along_rows g bottom_left dy = dy -ℤ g.extent.miny
along_rows g _ dy = g.extent.maxy -ℤ dy

-- A division by zero has no value.
abbrev divide_by {ℓ} : {A : Type ℓ} → GridLevel → Grid → A → Option A
divide_by l g a = if span l g.tile_sx == 0 || span l g.tile_sy == 0 then none else some a

-- `mapcache_grid_get_xy`: `x` and `y` are what the out-parameters held before.
unfoldable pub get_xy : Doubles → Context → Grid → ℤ → ℤ → ℤ → ℤ → ℤ → Option (Context × ℤ × ℤ)
get_xy doubles ctx g dx dy z x y = do
  l ← at g.levels z
  let found : Context × ℤ × ℤ = (
    ctx,
    doubles.quotient (from_left g dx) (span l g.tile_sx),
    doubles.quotient (along_rows g g.origin dy) (span l g.tile_sy),
  )
  if is_supported g.origin
      then divide_by l g found
      else some (set_error 500 "####BUG##### origin not implemented" ctx, x, y)

-- The side of a box that the rows are counted from.
abbrev pub near_side : GridOrigin → Extent → ℤ
near_side bottom_left e = e.miny
near_side _ e = e.maxy

-- `fabs(d - n * res * size) / res > 1`
abbrev pub is_off : GridLevel → ℤ → ℤ → ℕ → Bool
is_off l d n size = ltb l.resolution (abs_ℤ (d -ℤ n *ℤ pos (span l size)))

-- A tile of the grid, as `mapcache_grid_get_cell` reports it.
pub record Cell : Type 0 where
  pub x : ℤ
  pub y : ℤ
  pub z : ℕ

cell_at : Grid → Extent → ℕ → GridLevel → Option Cell
cell_at g bbox z l =
    let dx = from_left g bbox.minx in
    let dy = along_rows g g.origin (near_side g.origin bbox) in
    let x = rounded dx (span l g.tile_sx) in
    let y = rounded dy (span l g.tile_sy) in
    if is_off l dx x g.tile_sx || is_off l dy y g.tile_sy
    then none
    else some (record { x = x; y = y; z = z })

-- `mapcache_grid_get_cell`; `none` is MAPCACHE_FAILURE, after which no caller reads the cell.
pub get_cell : Grid → Extent → Option Cell
unfolding cell_at
get_cell g bbox = do
  found ← get_level g (get_resolution bbox g.tile_sx g.tile_sy)
  if is_supported g.origin then cell_at g bbox found.0 found.1 else none
