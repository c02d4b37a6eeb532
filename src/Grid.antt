-- ===== src/Grid.antt =====
-- Tile grids: lib/grid.c. A level divides the plane into tiles of `tile_sx * resolution` by
-- `tile_sy * resolution` units, counted from a corner of the grid's extent. A quotient of doubles is a
-- `Fraction`, or is rounded at once, exactly; `none` is a read out of bounds or a division by zero.
pub mod Limits
pub mod Lookup
mod Tests
use Prim.Native.String.{String}
use mapcache.Base.{
  ℕ, zero, suc, ◌+◌, ◌-◌, ◌*◌, ◌^◌, ℤ, pos, negsuc, ◌+ℤ◌, ◌-ℤ◌, ◌*ℤ◌, quot_ℤ, floor_ℤ, ceil_ℤ,
  abs_ℤ, to_u32, ltb_ℤ, Text, codes, Bool, true, false, ◌||◌, Option, none, some, List, [], ◌∷◌,
  ◌++◌, ltb, ◌==◌, if◌then◌else◌, ◌>>=◌,
}
use mapcache.Context.{Context, set_error}
use mapcache.Types.{
  Extent, GridLevel, GridOrigin, bottom_left, top_left, bottom_right, top_right, Grid, GridLink, at,
}

-- The step between two tile edges.
abbrev pub span : GridLevel → ℕ → ℕ
span level size = level.resolution * size

-- `res * n * size`
abbrev pub offset : GridLevel → ℤ → ℕ → ℤ
offset level n size = pos level.resolution *ℤ n *ℤ pos size

unfoldable pub extent_of : Grid → GridLevel → ℤ → ℤ → GridOrigin → Extent
extent_of g l x y bottom_left = record {
  minx = g.extent.minx +ℤ offset l x g.tile_sx;
  miny = g.extent.miny +ℤ offset l y g.tile_sy;
  maxx = g.extent.minx +ℤ offset l (x +ℤ pos 1) g.tile_sx;
  maxy = g.extent.miny +ℤ offset l (y +ℤ pos 1) g.tile_sy;
}
extent_of g l x y _ = record {
  minx = g.extent.minx +ℤ offset l x g.tile_sx;
  miny = g.extent.maxy -ℤ offset l (y +ℤ pos 1) g.tile_sy;
  maxx = g.extent.minx +ℤ offset l (x +ℤ pos 1) g.tile_sx;
  maxy = g.extent.maxy -ℤ offset l y g.tile_sy;
}

-- The two origins that the code supports.
abbrev pub is_supported : GridOrigin → Bool
is_supported bottom_left = true
is_supported top_left = true
is_supported _ = false

-- `mapcache_grid_get_extent`; `bbox` is what the out-parameter held before.
unfoldable pub get_extent : Context → Grid → ℤ → ℤ → ℤ → Extent → Option (Context × Extent)
unfolding extent_of
get_extent ctx g x y z bbox = do
  level ← at g.levels z
  some (
      if is_supported g.origin
      then (ctx, extent_of g level x y g.origin)
      else (set_error 500 "grid origin not implemented" ctx, bbox))

-- What follows the first ':' of the SRS, or all of it.
after_colon : Text → Text → Text
after_colon whole [] = whole
after_colon whole (c ∷ s) = if c == b':' then s else after_colon whole s

pub get_crs : Grid → Text
unfolding after_colon
get_crs g = codes "urn:ogc:def:crs:EPSG:6.3:" ++ after_colon g.srs g.srs

pub get_srs : Grid → Text
get_srs g = g.srs

-- `double epsilon = 0.0000001` is one part in this many.
abbrev pub epsilon_parts : ℕ
epsilon_parts = 10 ^ 7

-- `floor(d / unit + epsilon)` and `ceil(d / unit - epsilon)`
pub floor_eps : ℤ → ℕ → ℤ
floor_eps d unit = floor_ℤ (pos epsilon_parts *ℤ d +ℤ pos unit) (epsilon_parts * unit)

pub ceil_eps : ℤ → ℕ → ℤ
ceil_eps d unit = ceil_ℤ (pos epsilon_parts *ℤ d -ℤ pos unit) (epsilon_parts * unit)

pub unbounded_limits : Grid → GridLevel → Extent → ℤ → GridOrigin → Extent → Extent
unfolding floor_eps ceil_eps
unbounded_limits g l e tolerance bottom_left old = record {
  minx = floor_eps (e.minx -ℤ g.extent.minx) (span l g.tile_sx) -ℤ tolerance;
  miny = floor_eps (e.miny -ℤ g.extent.miny) (span l g.tile_sy) -ℤ tolerance;
  maxx = ceil_eps (e.maxx -ℤ g.extent.minx) (span l g.tile_sx) +ℤ tolerance;
  maxy = ceil_eps (e.maxy -ℤ g.extent.miny) (span l g.tile_sy) +ℤ tolerance;
}
unbounded_limits g l e tolerance top_left old = record {
  minx = floor_eps (e.minx -ℤ g.extent.minx) (span l g.tile_sx) -ℤ tolerance;
  miny = floor_eps (g.extent.maxy -ℤ e.maxy) (span l g.tile_sy) -ℤ tolerance;
  maxx = ceil_eps (e.maxx -ℤ g.extent.minx) (span l g.tile_sx) +ℤ tolerance;
  maxy = ceil_eps (g.extent.maxy -ℤ e.miny) (span l g.tile_sy) +ℤ tolerance;
}
unbounded_limits g l e tolerance _ old = old

-- `if (n < 0) n = 0` and `if (n > max) n = max`: the second test compares an `int` with an `unsigned int`.
abbrev pub clamp_low : ℤ → ℤ
clamp_low n = if ltb_ℤ n (pos 0) then pos 0 else n

abbrev pub clamp_high : ℤ → ℕ → ℤ
clamp_high n max = if ltb max (to_u32 n) then pos max else n

abbrev clamp_limits : GridLevel → Extent → Extent
clamp_limits l e = record {
  minx = clamp_low e.minx;
  miny = clamp_low e.miny;
  maxx = clamp_high e.maxx l.maxx;
  maxy = clamp_high e.maxy l.maxy;
}

pub level_limits : Grid → Extent → ℤ → GridLevel → Extent → Extent
unfolding unbounded_limits
level_limits g e tolerance l old = clamp_limits l (unbounded_limits g l e tolerance g.origin old)

-- `mapcache_grid_compute_limits`: a level at a time, over the array `limits`; `none` if that is shorter.
limits_loop : Grid → Extent → ℤ → List GridLevel → List Extent → Option (List Extent)
limits_loop g e tolerance [] rest = some rest
limits_loop g e tolerance (l ∷ ls) [] = none
limits_loop g e tolerance (l ∷ ls) (old ∷ rest) = do
  done ← limits_loop g e tolerance ls rest
  some (level_limits g e tolerance l old ∷ done)

pub compute_limits : Grid → Extent → List Extent → ℤ → Option (List Extent)
unfolding limits_loop
compute_limits g e limits tolerance = limits_loop g e tolerance g.levels limits
