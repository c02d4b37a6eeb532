-- ===== src/Ve/Placed.antt =====
-- A request of lib/service_ve.c asks for the tile that its quadkey names, counted from the top left corner.
use mapcache.Base.{
  ℕ, ◌^◌, ◌<◌, ◌≤◌, pos, ◌+ℤ◌, ◌-ℤ◌, Text, Bool-cases, true, false, Option, none, some, [], ◌∷◌,
  ◌++◌, length, ltb, leb, ◌≡◌, refl, sym, ap, subst, ◌∙◌, arith, has_byte, inl, inr, ◌||◌,
}
use mapcache.Context.{Context, check_error}
use mapcache.Types.{
  GridLevel, GridOrigin, bottom_left, top_left, bottom_right, top_right, GridLink, Dimensions,
  Tileset, Tile, at,
}
use mapcache.Grid.{offset, is_supported, extent_of}
use mapcache.Tileset.{tile_create, tile_validate}
use mapcache.Config.{Config, get_tileset}
use mapcache.Request.{value, split_at, find_link, from_other_side, finish}
use mapcache.Request.Checked.{answered, from_other_side_lem, Exact, other_side}
use mapcache.Ve.{checked, find_layer, read_quadkey, place, parse_request}
use mapcache.Ve.Quadkey.{quadkey, quadkey_loop-quadkey, length-quadkey}

-- A layer name@grid that the configuration has, and a level of its grid that can be addressed.
pub record Known (cfg : Config) (name grid : Text) (z : ℕ) : Type 0 where
  pub tileset : Tileset
  pub link : GridLink
  pub level : GridLevel
  pub name_plain : has_byte b'@' name ≡ false
  pub has_tileset : get_tileset cfg name ≡ some tileset
  pub has_link : find_link grid tileset.grid_links ≡ some link
  pub has_level : at link.grid.levels (pos z) ≡ some level
  pub supported : is_supported link.grid.origin ≡ true
  pub exact : Exact link.grid level
  pub size : level.maxy < 2 ^ 31
  pub not_first : 0 < z
  pub not_last : z < length link.grid.levels
  pub in_word : z ≤ 31

-- The tile of the level whose upper left corner is `x` tiles to the right of that of the grid, and `y` below it.
pub record FromTopLeft (t : Tile) (l : GridLevel) (x y z : ℕ) : Type 0 where
  pub at_level : t.z ≡ pos z
  pub left :
      (extent_of t.grid_link.grid l t.x t.y t.grid_link.grid.origin).minx
      ≡ t.grid_link.grid.extent.minx +ℤ offset l (pos x) t.grid_link.grid.tile_sx
  pub top :
      (extent_of t.grid_link.grid l t.x t.y t.grid_link.grid.origin).maxy
      ≡ t.grid_link.grid.extent.maxy -ℤ offset l (pos y) t.grid_link.grid.tile_sy

split_at-name :
    (name grid : Text) → has_byte b'@' name ≡ false → split_at (name ++ b'@' ∷ grid) ≡ (name, grid)
unfolding split_at
split_at-name [] grid h = refl
split_at-name (c ∷ name) grid h = ground (arith, split_at-name name grid)

place_cases :
    (o : GridOrigin) (t : Tile) (l : GridLevel) (x y z : ℕ)
    → t.grid_link.grid.origin ≡ o
    → at t.grid_link.grid.levels (pos z) ≡ some l
    → is_supported o ≡ true
    → Exact t.grid_link.grid l
    → l.maxy < 2 ^ 31
    → y < l.maxy
    → (t' : Tile) × (place t x y z ≡ value t')
      × (t'.grid_link ≡ t.grid_link)
      × (t'.tileset ≡ t.tileset)
      × FromTopLeft t' l x y z
unfolding place extent_of
place_cases bottom_left t l x y z o has s exact b h =
    let g = t.grid_link.grid in
    (
      record t { x = pos x; y = from_other_side l.maxy (pos y); z = pos z },
      ground arith,
      refl,
      refl,
      record {
        at_level = refl;
        left =
            subst
              (λ o.
                (extent_of g l (pos x) (from_other_side l.maxy (pos y)) o).minx
                ≡ g.extent.minx +ℤ offset l (pos x) g.tile_sx)
              (sym o) refl;
        top =
            subst
              (λ o.
                (extent_of g l (pos x) (from_other_side l.maxy (pos y)) o).maxy
                ≡ g.extent.maxy -ℤ offset l (pos y) g.tile_sy)
              (sym o)
              (ap (λ r. g.extent.miny +ℤ offset l (r +ℤ pos 1) g.tile_sy)
                  (from_other_side_lem l.maxy y h b)
                ∙ (other_side g l y exact h).1);
      },
    )
place_cases top_left t l x y z o has s exact b h =
    let g = t.grid_link.grid in
    (
      record t { x = pos x; y = pos y; z = pos z },
      ground arith,
      refl,
      refl,
      record {
        at_level = refl;
        left =
            subst
              (λ o.
                (extent_of g l (pos x) (pos y) o).minx
                ≡ g.extent.minx +ℤ offset l (pos x) g.tile_sx)
              (sym o) refl;
        top =
            subst
              (λ o.
                (extent_of g l (pos x) (pos y) o).maxy
                ≡ g.extent.maxy -ℤ offset l (pos y) g.tile_sy)
              (sym o) refl;
      },
    )
place_cases bottom_right t l x y z o has s exact b h = cc
place_cases top_right t l x y z o has s exact b h = cc

found :
    (cfg : Config) (name grid : Text) (z : ℕ) (ctx : Context) (k : Known cfg name grid z)
    → find_layer cfg (some (name ++ b'@' ∷ grid)) ctx ≡ value (k.tileset, k.link)
unfolding find_layer
found cfg name grid z ctx k =
    rw (split_at-name name grid k.name_plain, k.has_tileset) (rw k.has_link refl)

read :
    (cfg : Config) (name grid : Text) (z x y : ℕ) (ctx : Context) (k : Known cfg name grid z)
    → x < 2 ^ z
    → y < 2 ^ z
    → read_quadkey k.link (some (quadkey z x y)) ctx ≡ value (x, y, z)
unfolding read_quadkey
read cfg name grid z x y ctx k h g =
    let low : (ltb z 1 || leb (length k.link.grid.levels) z) ≡ false =
      ground (arith, k.not_first, k.not_last) in
    let word : ltb 31 z ≡ false = ground (arith, k.in_word) in
    rw (length-quadkey z x y, low, word, quadkey_loop-quadkey z x y h g)
      (ap (λ n. value (x, y, n)) (length-quadkey z x y))

answered_lem :
    (t : Tile) (ctx : Context) (o : Option Context)
    → tile_validate t ctx ≡ o
    → finish (checked t ctx) ≡ answered t o
unfolding checked
answered_lem t ctx none e = rw e refl
answered_lem t ctx (some ctx') e = elim (Bool-cases (check_error ctx')) [
  | inl c ↦ rw (e, c) refl
  | inr c ↦ rw (e, c) refl
]

-- A ve request for name@grid and the quadkey of column `x` and row `y` on a level. It is for one tile of that
-- tileset and grid, the one `x` tiles to the right of the upper left corner of the grid and `y` below it, on
-- both origins that extents are computed for. If the tile is valid, the request is made of it alone; if not, there is
-- no request, and the error is that of the check. The tileset, the grid and the level exist, the level has
-- at most 31 digits and is not the first, its rows fill the grid, and the column and row are on it.
pub parse_request-quadkey :
    (table_set : Dimensions → Text → Text → Dimensions) (cfg : Config) (name grid : Text)
    (z x y : ℕ) (ctx : Context) (k : Known cfg name grid z)
    → x < 2 ^ z
    → y < 2 ^ z
    → y < k.level.maxy
    → (t : Tile) × (t.tileset ≡ k.tileset)
      × (t.grid_link ≡ k.link)
      × FromTopLeft t k.level x y z
      × (parse_request table_set (some (name ++ b'@' ∷ grid)) (some (quadkey z x y)) cfg ctx
          ≡ answered t (tile_validate t ctx))
unfolding parse_request tile_create
parse_request-quadkey table_set cfg name grid z x y ctx k h g m =
    let (t, placed, same, owner, corner) =
      place_cases k.link.grid.origin (tile_create table_set k.tileset k.link) k.level x y z refl
        k.has_level k.supported k.exact k.size m in
    (
      t,
      owner,
      same,
      corner,
      rw (found cfg name grid z ctx k) (
          rw (read cfg name grid z x y ctx k h g)
            (rw placed (answered_lem t ctx (tile_validate t ctx) refl))),
    )
