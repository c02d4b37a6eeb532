-- ===== src/Tms/Placed.antt =====
-- Where the tiles of the requests of lib/service_tms.c lie: rows are counted from the bottom by tms, and from the top by
-- gmaps.
use mapcache.Base.{ℕ, ◌-◌, ◌^◌, ◌<◌, ℤ, pos, ◌+ℤ◌, ◌-ℤ◌, some, ◌≡◌, refl, ap, ◌∙◌, true, arith}
use mapcache.Types.{
  GridLevel, GridOrigin, bottom_left, top_left, bottom_right, top_right, Grid, Tile, at,
}
use mapcache.Grid.{offset, is_supported, extent_of}
use mapcache.Request.{value, from_other_side}
use mapcache.Request.Checked.{from_other_side_lem, Exact, other_side}
use mapcache.Tms.{Service, tms, gmaps, reversed, place_on, level_of}

-- The row `y` of a service, as an edge of the tile in column `a` and row `b` of a grid.
abbrev pub Row : Service → Grid → GridLevel → GridOrigin → ℤ → ℤ → ℕ → Type 0
Row tms g l o a b y = (extent_of g l a b o).miny ≡ g.extent.miny +ℤ offset l (pos y) g.tile_sy
Row gmaps g l o a b y = (extent_of g l a b o).maxy ≡ g.extent.maxy -ℤ offset l (pos y) g.tile_sy

-- The tile of the level that is `x` tiles to the right of the left edge of the grid, and in row `y` of the service.
pub record FromCorner (s : Service) (t : Tile) (l : GridLevel) (x y z : ℕ) : Type 0 where
  pub at_level : t.z ≡ pos z
  pub left :
      (extent_of t.grid_link.grid l t.x t.y t.grid_link.grid.origin).minx
      ≡ t.grid_link.grid.extent.minx +ℤ offset l (pos x) t.grid_link.grid.tile_sx
  pub row : Row s t.grid_link.grid l t.grid_link.grid.origin t.x t.y y

-- The row that the tile gets, on each origin.
abbrev pub row_of : Service → GridOrigin → GridLevel → ℕ → ℤ
row_of tms bottom_left l y = pos y
row_of tms top_left l y = from_other_side l.maxy (pos y)
row_of gmaps bottom_left l y = from_other_side l.maxy (pos y)
row_of gmaps top_left l y = from_other_side l.maxy (from_other_side l.maxy (pos y))
row_of s o l y = pos y

twice : (m y : ℕ) → y < m → m < 2 ^ 31 → from_other_side m (from_other_side m (pos y)) ≡ pos y
twice m y h b =
    let back : m - (m - y - 1) - 1 ≡ y = omega arith in
    ap (from_other_side m) (from_other_side_lem m y h b)
    ∙ from_other_side_lem m (m - y - 1) (omega arith) b
    ∙ ap pos back

pub Row-row_of :
    (s : Service) (o : GridOrigin) (g : Grid) (l : GridLevel) (a : ℤ) (y : ℕ)
    → is_supported o ≡ true
    → Exact g l
    → l.maxy < 2 ^ 31
    → y < l.maxy
    → Row s g l o a (row_of s o l y) y
unfolding extent_of
Row-row_of tms bottom_left g l a y s exact b h = refl
Row-row_of tms top_left g l a y s exact b h =
    ap (λ r. g.extent.maxy -ℤ offset l (r +ℤ pos 1) g.tile_sy) (from_other_side_lem l.maxy y h b)
    ∙ (other_side g l y exact h).0
Row-row_of gmaps bottom_left g l a y s exact b h =
    ap (λ r. g.extent.miny +ℤ offset l (r +ℤ pos 1) g.tile_sy) (from_other_side_lem l.maxy y h b)
    ∙ (other_side g l y exact h).1
Row-row_of gmaps top_left g l a y s exact b h =
    ap (λ r. g.extent.maxy -ℤ offset l r g.tile_sy) (twice l.maxy y h b)
Row-row_of tms bottom_right g l a y s exact b h = cc
Row-row_of tms top_right g l a y s exact b h = cc
Row-row_of gmaps bottom_right g l a y s exact b h = cc
Row-row_of gmaps top_right g l a y s exact b h = cc

pub left_edge :
    (o : GridOrigin) (g : Grid) (l : GridLevel) (x : ℕ) (b : ℤ)
    → (extent_of g l (pos x) b o).minx ≡ g.extent.minx +ℤ offset l (pos x) g.tile_sx
unfolding extent_of
left_edge bottom_left g l x b = refl
left_edge top_left g l x b = refl
left_edge bottom_right g l x b = refl
left_edge top_right g l x b = refl

pub placed :
    (s : Service) (o : GridOrigin) (t : Tile) (l : GridLevel) (x y z : ℕ)
    → at t.grid_link.grid.levels (pos z) ≡ some l
    → is_supported o ≡ true
    → (row : ℤ) × (reversed s t.grid_link (pos z) (pos y) ≡ value row)
      × (place_on o t (pos x) row (pos z)
          ≡ value (record t { x = pos x; y = row_of s o l y; z = pos z }))
unfolding reversed place_on level_of
placed tms bottom_left t l x y z e s = (pos y, refl, refl)
placed tms top_left t l x y z e s = (pos y, refl, rw e refl)
placed gmaps bottom_left t l x y z e s = (from_other_side l.maxy (pos y), rw e refl, refl)
placed gmaps top_left t l x y z e s = (from_other_side l.maxy (pos y), rw e refl, rw e refl)
placed tms bottom_right t l x y z e s = cc
placed tms top_right t l x y z e s = cc
placed gmaps bottom_right t l x y z e s = cc
placed gmaps top_right t l x y z e s = cc
