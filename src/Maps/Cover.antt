-- ===== src/Maps/Cover.antt =====
-- The tiles of a map cover the map: `mapcache_tileset_get_map_tiles` of lib/tileset.c.
use mapcache.Base.{
  ℕ, ◌<◌, ℤ, pos, ◌+ℤ◌, ◌-ℤ◌, ◌≤ℤ◌, max_ℤ, min_ℤ, pos_part, neg_part, int_laws, Text, true, false,
  ◌==◌, ◌≡◌, refl, some, List, arith,
}
use mapcache.Context.{Context}
use mapcache.Types.{Extent, GridLevel, Grid, GridLink, Dimensions, Tileset, Tile, at}
use mapcache.Grid.{span, is_supported}
use mapcache.Grid.Lookup.{Doubles, get_resolution, get_closest_level, get_xy, from_left, along_rows}
use mapcache.Tileset.Checks.{InRange}
use mapcache.Maps.{count_to, tile_on, rectangle, get_map_tiles}
use mapcache.Maps.Loops.{Among, Clean, Gives, columns_loop-Gives}

-- `b` is one of `a` and `c`, or between them.
abbrev pub Between : ℤ → ℤ → ℤ → Type 0
Between a b c = (min_ℤ c a ≤ℤ b) × (b ≤ℤ max_ℤ c a)

difference : (a b : ℤ) → a ≤ℤ b → neg_part (b -ℤ a) ≡ 0
unfolding ◌-ℤ◌
difference a b h = ground arith

offset_of :
    (low high b : ℤ) → low ≤ℤ b → b ≤ℤ high → (i : ℕ) × (i < count_to low high) × (b ≡ low +ℤ pos i)
offset_of low high b h k =
    let d : neg_part (b -ℤ low) ≡ 0 = difference low b h in
    let e : neg_part (high -ℤ low) ≡ 0 = difference low high (omega arith) in
    (pos_part (b -ℤ low), omega (int_laws, d, e), omega (int_laws, d))

-- The column and the row of a point on a level.
abbrev pub column_of : Doubles → Grid → GridLevel → ℤ → ℤ
column_of doubles g l dx = doubles.quotient (from_left g dx) (span l g.tile_sx)

abbrev pub row_of : Doubles → Grid → GridLevel → ℤ → ℤ
row_of doubles g l dy = doubles.quotient (along_rows g g.origin dy) (span l g.tile_sy)

-- A point of a box, its sides included.
abbrev pub Within : Extent → ℤ → ℤ → Type 0
Within e dx dy = (e.minx ≤ℤ dx) × (dx ≤ℤ e.maxx) × (e.miny ≤ℤ dy) × (dy ≤ℤ e.maxy)

get_xy-some :
    (doubles : Doubles) (ctx : Context) (g : Grid) (l : GridLevel) (z dx dy : ℤ)
    → at g.levels z ≡ some l
    → is_supported g.origin ≡ true
    → 0 < span l g.tile_sx
    → 0 < span l g.tile_sy
    → get_xy doubles ctx g dx dy z (pos 0) (pos 0)
      ≡ some (ctx, column_of doubles g l dx, row_of doubles g l dy)
unfolding get_xy
get_xy-some doubles ctx g l z dx dy e s a b =
    let a' : (span l g.tile_sx == 0) ≡ false = ground arith in
    let b' : (span l g.tile_sy == 0) ≡ false = ground arith in rw (e, s, a', b') refl

module _ (doubles : Doubles) (table_set : Dimensions → Text → Text → Dimensions) (ts : Tileset)
    (link : GridLink) (bbox : Extent) (l : GridLevel) (level : ℤ) (limits : Extent) where
  -- The tiles of a map: valid ones, that the box meets, and all such.
  pub record Covers (tiles : List Tile) : Type 0 where
    pub valid : (t : Tile) → Among tiles t → InRange t limits × (t.z ≡ level)
    pub needed :
        (t : Tile)
        → Among tiles t
        → Between
            (column_of doubles link.grid l bbox.minx)
            t.x
            (column_of doubles link.grid l bbox.maxx)
          × Between
              (row_of doubles link.grid l bbox.miny)
              t.y
              (row_of doubles link.grid l bbox.maxy)
    pub covered :
        (dx dy : ℤ)
        → Within bbox dx dy
        → InRange
            (tile_on table_set ts link level
              (column_of doubles link.grid l dx)
              (row_of doubles link.grid l dy))
            limits
        → Among tiles (
            tile_on table_set ts link level
              (column_of doubles link.grid l dx)
              (row_of doubles link.grid l dy))

  abbrev pub low_x : ℤ
  low_x = min_ℤ (column_of doubles link.grid l bbox.maxx) (column_of doubles link.grid l bbox.minx)

  abbrev pub high_x : ℤ
  high_x = max_ℤ (column_of doubles link.grid l bbox.maxx) (column_of doubles link.grid l bbox.minx)

  abbrev pub low_y : ℤ
  low_y = min_ℤ (row_of doubles link.grid l bbox.maxy) (row_of doubles link.grid l bbox.miny)

  abbrev pub high_y : ℤ
  high_y = max_ℤ (row_of doubles link.grid l bbox.maxy) (row_of doubles link.grid l bbox.miny)

  module _ (width height : ℕ) (ctx : Context)
      (chosen : get_closest_level link (get_resolution bbox width height) ≡ some level)
      (on_level : at link.grid.levels level ≡ some l)
      (supported : is_supported link.grid.origin ≡ true) (wide : 0 < span l link.grid.tile_sx)
      (high : 0 < span l link.grid.tile_sy) (found : at link.grid_limits level ≡ some limits)
      (clean : Clean ctx) where
    pub get_map_tiles-Gives :
        Gives table_set ts link level limits found
          (get_map_tiles doubles table_set ts link bbox width height ctx)
          low_x
          (count_to low_x high_x)
          low_y
          (count_to low_y high_y)
    unfolding get_map_tiles rectangle
    get_map_tiles-Gives =
        let bl =
          get_xy-some doubles ctx link.grid l level bbox.minx bbox.miny on_level supported wide
            high in
        let tr =
          get_xy-some doubles ctx link.grid l level bbox.maxx bbox.maxy on_level supported wide
            high in
        let (ctx', tiles, f, c', g) =
          columns_loop-Gives table_set ts link level limits found low_x (count_to low_x high_x)
            low_y (count_to low_y high_y) ctx clean in
        (ctx', tiles, rw (chosen, bl, tr, supported, f) refl, c', g)
