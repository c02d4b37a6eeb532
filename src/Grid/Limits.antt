-- ===== src/Grid/Limits.antt =====
-- The tile ranges of `mapcache_grid_compute_limits` of lib/grid.c.
use mapcache.Base.{
  ℕ, ◌+◌, ◌*◌, ◌^◌, ◌<◌, ℤ, pos, negsuc, ◌+ℤ◌, ◌-ℤ◌, ◌*ℤ◌, ◌≤ℤ◌, ◌<ℤ◌, floor_ℤ, ceil_ℤ, int_laws,
  pos+pos, pos*_parts, floor_ℤ-le, lt-ceil_ℤ, IsInt, to_u32-pos, to_u32-negsuc, ◌≡◌, ap, subst, ◌∙◌,
  true, arith,
}
use mapcache.Types.{
  Extent, GridLevel, GridOrigin, bottom_left, top_left, bottom_right, top_right, Grid,
}
use mapcache.Grid.{
  span, offset, is_supported, extent_of, epsilon_parts, floor_eps, ceil_eps, unbounded_limits,
  clamp_low, clamp_high, level_limits,
}
use mapcache.Grid.Lookup.Points.{offset_pos}

clamp_high_lem :
    (n : ℤ) (max : ℕ)
    → IsInt n
    → max < 2 ^ 31
    → (pos 0 ≤ℤ clamp_high n max) × (clamp_high n max ≤ℤ pos max)
clamp_high_lem (pos n) max i m = ground (arith, to_u32-pos n)
clamp_high_lem (negsuc n) max i m = ground (arith, to_u32-negsuc n)

lt-clamp_high :
    (n : ℤ) (max x : ℕ) → IsInt n → max < 2 ^ 31 → x < max → pos x <ℤ n → pos x <ℤ clamp_high n max
lt-clamp_high (pos n) max x i m h lt = ground (arith, to_u32-pos n)
lt-clamp_high (negsuc n) max x i m h lt = absurd (omega arith)

clamp_low-le : (n : ℤ) (x : ℕ) → n ≤ℤ pos x → clamp_low n ≤ℤ pos x
clamp_low-le n x h = ground arith

floor_eps-le :
    (d : ℤ) (u x tolerance : ℕ)
    → 0 < u
    → pos u <ℤ pos epsilon_parts *ℤ (pos (x * u + u) -ℤ d)
    → clamp_low (floor_eps d u -ℤ pos tolerance) ≤ℤ pos x
unfolding floor_eps
floor_eps-le d u x tolerance p h =
    clamp_low-le (floor_ℤ (pos epsilon_parts *ℤ d +ℤ pos u) (epsilon_parts * u) -ℤ pos tolerance) x
      (omega (
        int_laws,
        floor_ℤ-le (pos epsilon_parts *ℤ d +ℤ pos u) (epsilon_parts * u) x (omega arith) (
            omega (
              int_laws,
              pos*_parts epsilon_parts d,
              pos*_parts epsilon_parts (pos (x * u + u) -ℤ d),
            )),
      ))

lt-ceil_eps :
    (d : ℤ) (u x tolerance max : ℕ)
    → 0 < u
    → pos u <ℤ pos epsilon_parts *ℤ (d -ℤ pos (x * u))
    → IsInt (ceil_eps d u +ℤ pos tolerance)
    → max < 2 ^ 31
    → x < max
    → pos x <ℤ clamp_high (ceil_eps d u +ℤ pos tolerance) max
unfolding ceil_eps
lt-ceil_eps d u x tolerance max p h i m lt =
    lt-clamp_high (ceil_ℤ (pos epsilon_parts *ℤ d -ℤ pos u) (epsilon_parts * u) +ℤ pos tolerance)
      max x i m lt
      (omega (
        int_laws,
        lt-ceil_ℤ (pos epsilon_parts *ℤ d -ℤ pos u) (epsilon_parts * u) x (omega arith) (
            omega
              (int_laws, pos*_parts epsilon_parts d, pos*_parts epsilon_parts (d -ℤ pos (x * u)))),
      ))

-- The lower limits are not negative, and the upper limits are at most the level's size.
abbrev pub InLevel : GridLevel → Extent → Type 0
InLevel l limits =
    (pos 0 ≤ℤ limits.minx)
    × (pos 0 ≤ℤ limits.miny)
    × (pos 0 ≤ℤ limits.maxx)
    × (limits.maxx ≤ℤ pos l.maxx)
    × (pos 0 ≤ℤ limits.maxy)
    × (limits.maxy ≤ℤ pos l.maxy)

-- The sizes of the level, and the upper limits before they are cut, are values of an `int`.
abbrev pub FitsInt : GridLevel → Extent → Type 0
FitsInt l limits = (l.maxx < 2 ^ 31) × (l.maxy < 2 ^ 31) × IsInt limits.maxx × IsInt limits.maxy

-- The lower limits of a level are not negative, and the upper limits are not negative and not above the
-- level's sizes, if these sizes and the limits before they are cut are values of an `int`. The lower limits
-- have no bound from above: for an extent to the right of the grid they lie beyond the level.
pub level_limits-InLevel :
    (g : Grid) (e : Extent) (tolerance : ℤ) (l : GridLevel) (old : Extent)
    → FitsInt l (unbounded_limits g l e tolerance g.origin old)
    → InLevel l (level_limits g e tolerance l old)
unfolding level_limits
level_limits-InLevel g e tolerance l old (mx, my, ix, iy) =
    let u = unbounded_limits g l e tolerance g.origin old in
    let (a, b) = clamp_high_lem u.maxx l.maxx ix mx in
    let (c, d) = clamp_high_lem u.maxy l.maxy iy my in (low u.minx, low u.miny, a, b, c, d)
  where
    low : (n : ℤ) → pos 0 ≤ℤ clamp_low n
    low n = ground arith

-- `x` and `y` lie within the limits.
abbrev pub InLimits : Extent → ℤ → ℤ → Type 0
InLimits limits x y =
    (limits.minx ≤ℤ x) × (x <ℤ limits.maxx) × (limits.miny ≤ℤ y) × (y <ℤ limits.maxy)

-- The boxes `t` and `e` overlap on each axis, by more than `epsilon` times a tile's size.
abbrev pub Overlaps : Grid → GridLevel → Extent → Extent → Type 0
Overlaps g l t e =
    (pos (span l g.tile_sx) <ℤ pos epsilon_parts *ℤ (t.maxx -ℤ e.minx))
    × (pos (span l g.tile_sx) <ℤ pos epsilon_parts *ℤ (e.maxx -ℤ t.minx))
    × (pos (span l g.tile_sy) <ℤ pos epsilon_parts *ℤ (t.maxy -ℤ e.miny))
    × (pos (span l g.tile_sy) <ℤ pos epsilon_parts *ℤ (e.maxy -ℤ t.miny))

-- The edges of a tile, counted from the grid's corner or from the extent.
far_right : (a b e : ℤ) (k : ℕ) → b ≡ pos k → a +ℤ b -ℤ e ≡ pos k -ℤ (e -ℤ a)
far_right a b e k h = rw h (omega int_laws)

near_left : (a b e : ℤ) (k : ℕ) → b ≡ pos k → e -ℤ (a +ℤ b) ≡ e -ℤ a -ℤ pos k
near_left a b e k h = rw h (omega int_laws)

far_down : (a b e : ℤ) (k : ℕ) → b ≡ pos k → e -ℤ (a -ℤ b) ≡ pos k -ℤ (a -ℤ e)
far_down a b e k h = rw h (omega int_laws)

near_up : (a b e : ℤ) (k : ℕ) → b ≡ pos k → a -ℤ b -ℤ e ≡ a -ℤ e -ℤ pos k
near_up a b e k h = rw h (omega int_laws)

module _ (g : Grid) (l : GridLevel) (x y : ℕ) where
  moved :
      (u : ℕ) {a b : ℤ} → a ≡ b → pos u <ℤ pos epsilon_parts *ℤ a → pos u <ℤ pos epsilon_parts *ℤ b
  moved u e h = subst (λ t. pos u <ℤ pos epsilon_parts *ℤ t) e h

  next_edge : (n s : ℕ) → offset l (pos n +ℤ pos 1) s ≡ pos (n * span l s + span l s)
  next_edge n s = rw pos+pos (offset_pos l (n + 1) s ∙ ap pos (omega arith))

  -- Every tile of the level that overlaps the extent lies within the limits.
  cover :
      (e old : Extent) (tolerance : ℕ) (o : GridOrigin)
      → is_supported o ≡ true
      → 0 < span l g.tile_sx
      → 0 < span l g.tile_sy
      → x < l.maxx
      → y < l.maxy
      → FitsInt l (unbounded_limits g l e (pos tolerance) o old)
      → Overlaps g l (extent_of g l (pos x) (pos y) o) e
      → let u = unbounded_limits g l e (pos tolerance) o old in
        (clamp_low u.minx ≤ℤ pos x)
        × (pos x <ℤ clamp_high u.maxx l.maxx)
        × (clamp_low u.miny ≤ℤ pos y)
        × (pos y <ℤ clamp_high u.maxy l.maxy)
  unfolding unbounded_limits extent_of
  cover e old tolerance bottom_left s px py hx hy (mx, my, ix, iy) (a, b, c, d) = (
    floor_eps-le (e.minx -ℤ g.extent.minx) (span l g.tile_sx) x tolerance px
        (moved _ (far_right g.extent.minx _ e.minx _ (next_edge x g.tile_sx)) a),
    lt-ceil_eps (e.maxx -ℤ g.extent.minx) (span l g.tile_sx) x tolerance l.maxx px
        (moved _ (near_left g.extent.minx _ e.maxx _ (offset_pos l x g.tile_sx)) b) ix mx hx,
    floor_eps-le (e.miny -ℤ g.extent.miny) (span l g.tile_sy) y tolerance py
        (moved _ (far_right g.extent.miny _ e.miny _ (next_edge y g.tile_sy)) c),
    lt-ceil_eps (e.maxy -ℤ g.extent.miny) (span l g.tile_sy) y tolerance l.maxy py
        (moved _ (near_left g.extent.miny _ e.maxy _ (offset_pos l y g.tile_sy)) d) iy my hy,
  )
  cover e old tolerance top_left s px py hx hy (mx, my, ix, iy) (a, b, c, d) = (
    floor_eps-le (e.minx -ℤ g.extent.minx) (span l g.tile_sx) x tolerance px
        (moved _ (far_right g.extent.minx _ e.minx _ (next_edge x g.tile_sx)) a),
    lt-ceil_eps (e.maxx -ℤ g.extent.minx) (span l g.tile_sx) x tolerance l.maxx px
        (moved _ (near_left g.extent.minx _ e.maxx _ (offset_pos l x g.tile_sx)) b) ix mx hx,
    floor_eps-le (g.extent.maxy -ℤ e.maxy) (span l g.tile_sy) y tolerance py
        (moved _ (far_down g.extent.maxy _ e.maxy _ (next_edge y g.tile_sy)) d),
    lt-ceil_eps (g.extent.maxy -ℤ e.miny) (span l g.tile_sy) y tolerance l.maxy py
        (moved _ (near_up g.extent.maxy _ e.miny _ (offset_pos l y g.tile_sy)) c) iy my hy,
  )
  cover e old tolerance bottom_right s px py hx hy f h = cc
  cover e old tolerance top_right s px py hx hy f h = cc

-- On a supported origin the tiles of a level that overlap the restricted extent, by more than `epsilon`
-- times a tile on each side, are all within the limits computed for it, for tiles that are not empty, a
-- tolerance that is not negative, and numbers that are values of an `int`.
pub level_limits_cover :
    (g : Grid) (l : GridLevel) (x y tolerance : ℕ) (e old : Extent)
    → is_supported g.origin ≡ true
    → 0 < span l g.tile_sx
    → 0 < span l g.tile_sy
    → x < l.maxx
    → y < l.maxy
    → FitsInt l (unbounded_limits g l e (pos tolerance) g.origin old)
    → Overlaps g l (extent_of g l (pos x) (pos y) g.origin) e
    → InLimits (level_limits g e (pos tolerance) l old) (pos x) (pos y)
unfolding level_limits
level_limits_cover g l x y tolerance e old s px py hx hy f o =
    cover g l x y e old tolerance g.origin s px py hx hy f o

-- An extent that ends left of the grid's first column is not noticed: its limits take in every column,
-- since a negative upper limit is compared as an unsigned number, for values of an `int`.
pub level_limits_left :
    (g : Grid) (e : Extent) (tolerance : ℤ) (l : GridLevel) (old : Extent)
    → FitsInt l (unbounded_limits g l e tolerance g.origin old)
    → (unbounded_limits g l e tolerance g.origin old).minx ≤ℤ pos 0
    → (unbounded_limits g l e tolerance g.origin old).maxx <ℤ pos 0
    → ((level_limits g e tolerance l old).minx ≡ pos 0)
      × ((level_limits g e tolerance l old).maxx ≡ pos l.maxx)
unfolding level_limits
level_limits_left g e tolerance l old (mx, my, ix, iy) a b = (low _ a, high _ ix b)
  where
    low : (n : ℤ) → n ≤ℤ pos 0 → clamp_low n ≡ pos 0
    low (pos n) h = ground arith
    low (negsuc n) h = ground arith

    high : (n : ℤ) → IsInt n → n <ℤ pos 0 → clamp_high n l.maxx ≡ pos l.maxx
    high (pos n) i h = absurd (omega arith)
    high (negsuc n) i h = ground (arith, to_u32-negsuc n)
