-- ===== src/Grid/Tests.antt =====
-- Runs of the grid operations, and the theorems about them at concrete inputs.
use mapcache.Base.{pos, negsuc, floor_ℤ, ceil_ℤ, to_u32, ◌-ℤ◌, ◌+ℤ◌, ◌*ℤ◌, ◌≡◌, refl, some, arith}
use mapcache.Context.{init}
use mapcache.Types.{Extent}
use mapcache.Samples.{finest, grid}
use mapcache.Grid.{get_extent, level_limits, unbounded_limits, extent_of}
use mapcache.Grid.Limits.{InLimits, InLevel, FitsInt, level_limits_cover, level_limits-InLevel}
use mapcache.Grid.Lookup.{Fraction, get_xy}
use mapcache.Grid.Lookup.Points.{exact, get_xy-get_extent}
use mapcache.Grid.Lookup.Closest.{Closest}

abbrev box : Extent
box = record { minx = pos 10; miny = negsuc 199; maxx = pos 20; maxy = negsuc 99 }

abbrev outside : Extent
outside = record { minx = negsuc 2000; miny = negsuc 199; maxx = negsuc 1500; maxy = negsuc 99 }

abbrev none_yet : Extent
none_yet = record { minx = pos 0; miny = pos 0; maxx = pos 0; maxy = pos 0 }

box_limits :
    level_limits grid box (pos 0) finest none_yet
    ≡ record { minx = pos 2; miny = pos 1; maxx = pos 3; maxy = pos 2 }
unfolding level_limits ◌-ℤ◌ to_u32 floor_ℤ ◌+ℤ◌ ◌*ℤ◌ ceil_ℤ
box_limits = refl

box-FitsInt : FitsInt finest (unbounded_limits grid finest box (pos 0) grid.origin none_yet)
unfolding unbounded_limits ◌-ℤ◌ floor_ℤ ◌+ℤ◌ ◌*ℤ◌ ceil_ℤ
box-FitsInt = (omega arith, omega arith, (omega arith, omega arith), (omega arith, omega arith))

outside-FitsInt : FitsInt finest (unbounded_limits grid finest outside (pos 0) grid.origin none_yet)
unfolding unbounded_limits ◌-ℤ◌ floor_ℤ ◌+ℤ◌ ◌*ℤ◌ ceil_ℤ
outside-FitsInt = (omega arith, omega arith, (omega arith, omega arith), (omega arith, omega arith))

level_limits_cover_example :
    InLimits (level_limits grid box (pos 0) finest none_yet) (pos 2) (pos 1)
unfolding extent_of ◌-ℤ◌ ◌+ℤ◌ ◌*ℤ◌
level_limits_cover_example =
    level_limits_cover grid finest 2 1 0 box none_yet refl (omega arith) (omega arith) (omega arith)
      (omega arith) box-FitsInt (omega arith, omega arith, omega arith, omega arith)

level_limits-InLevel_example : InLevel finest (level_limits grid box (pos 0) finest none_yet)
level_limits-InLevel_example = level_limits-InLevel grid box (pos 0) finest none_yet box-FitsInt

abbrev corner_tile : Extent
corner_tile = record { minx = pos 0; miny = negsuc 255; maxx = pos 256; maxy = pos 0 }

corner_extent : get_extent init grid (pos 2) (pos 1) (pos 2) none_yet ≡ some (init, corner_tile)
unfolding get_extent ◌+ℤ◌ ◌*ℤ◌
corner_extent = refl

get_xy-get_extent_example :
    get_xy exact init grid (pos 10) (negsuc 99) (pos 2) (pos 0) (pos 0) ≡ some (init, pos 2, pos 1)
unfolding ◌-ℤ◌ ◌*ℤ◌
get_xy-get_extent_example =
    get_xy-get_extent exact init grid 2 1 (pos 2) (pos 10) (negsuc 99) (pos 0) (pos 0) none_yet refl
      (omega arith) (omega arith) corner_extent (omega arith, omega arith, omega arith, omega arith)

abbrev three_units : Fraction
three_units = record { num = pos 3; den = 1 }
