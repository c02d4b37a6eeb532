-- ===== src/Grid/Lookup/Points.antt =====
-- The tile of a point: `mapcache_grid_get_xy` and `mapcache_grid_get_extent` of lib/grid.c.
use mapcache.Base.{pos_part, neg_part, pos*_parts, suc, ◌^◌, ◌-ℤ◌, ◌*ℤ◌, sub_ℕ}
use mapcache.Base.{
  ℕ, ◌+◌, ◌*◌, ◌/◌, ◌<◌, ◌≤◌, ℤ, pos, negsuc, ◌+ℤ◌, ◌≤ℤ◌, ◌<ℤ◌, quot_ℤ, int_laws, pos+pos, pos*pos,
  ◌≡◌, ap, sym, subst, ◌∙◌, true, some, inl, inr, Option-cases, arith,
}
use mapcache.Context.{Context}
use mapcache.Types.{
  Extent, GridLevel, GridOrigin, bottom_left, top_left, bottom_right, top_right, Grid, at,
}
use mapcache.Grid.{span, offset, is_supported, extent_of, get_extent}
use mapcache.Grid.Lookup.{Doubles, truncated, from_left, along_rows, get_xy}

div_between : (n k u : ℕ) → k * u ≤ n → n < k * u + u → n / u ≡ k
div_between n k u a b = grind arith

truncated_between :
    (d : ℤ) (k u : ℕ) → pos (k * u) ≤ℤ d → d <ℤ pos (k * u + u) → truncated d u ≡ pos k
unfolding quot_ℤ
truncated_between (pos n) k u a b = ap pos (div_between n k u (omega arith) (omega arith))
truncated_between (negsuc n) k u a b = absurd (omega arith)

div_mono : (m n u : ℕ) → m ≤ n → m / u ≤ n / u
div_mono m n u h = grind arith

opposite_mono : (m n : ℕ) → n ≤ m → sub_ℕ 0 m ≤ℤ sub_ℕ 0 n
opposite_mono m n h = ground arith

opposite_below : (m n : ℕ) → sub_ℕ 0 m ≤ℤ pos n
opposite_below m n = ground arith

pub truncated_mono : (u : ℕ) (a b : ℤ) → a ≤ℤ b → truncated a u ≤ℤ truncated b u
unfolding quot_ℤ
truncated_mono u (pos m) (pos n) h = omega (arith, div_mono m n u (omega arith))
truncated_mono u (pos m) (negsuc n) h = absurd (omega arith)
truncated_mono u (negsuc m) (pos n) h = opposite_below (suc m / u) (n / u)
truncated_mono u (negsuc m) (negsuc n) h =
    opposite_mono (suc m / u) (suc n / u) (div_mono (suc n) (suc m) u (omega arith))

pub within_edges :
    (unit k : ℕ) (d : ℤ)
    → 0 < unit
    → k < 2 ^ 31
    → pos (1000 * (k * unit) + unit) ≤ℤ pos 1000 *ℤ d
    → pos 1000 *ℤ d +ℤ pos unit ≤ℤ pos (1000 * (k * unit + unit))
    → truncated d unit ≡ pos k
within_edges unit k d h i a b =
    let (p, q) = pos*_parts 1000 d in
    truncated_between d k unit (omega (int_laws, p, q)) (omega (int_laws, p, q))

-- Arithmetic without rounding is one that the code may meet.
abbrev pub exact : Doubles
exact = record { quotient = truncated; monotone = truncated_mono; inside = within_edges }

pub offset_pos : (l : GridLevel) (n s : ℕ) → offset l (pos n) s ≡ pos (n * span l s)
offset_pos l n s = rw (pos*pos, pos*pos) (ap pos (omega arith))

tile_edges :
    (low high d : ℤ) (k u : ℕ)
    → low ≡ pos k
    → high ≡ pos (k + u)
    → high -ℤ low <ℤ pos 1000 *ℤ (d -ℤ low)
    → high -ℤ low <ℤ pos 1000 *ℤ (high -ℤ d)
    → (pos (1000 * k + u) ≤ℤ pos 1000 *ℤ d)
      × (pos 1000 *ℤ d +ℤ pos u ≤ℤ pos (1000 * (k + u)))
      × (0 < u)
tile_edges low high d k u e f a b =
    let (p, q) = pos*_parts 1000 (d -ℤ low) in
    let (p', q') = pos*_parts 1000 (high -ℤ d) in
    let (p'', q'') = pos*_parts 1000 d in
    let lp = ap pos_part e in
    let ln = ap neg_part e in
    let hp = ap pos_part f in
    let hn = ap neg_part f in (omega int_laws, omega int_laws, omega int_laws)

same_margin : (a b c d : ℤ) → b ≡ a → d ≡ c → a <ℤ pos 1000 *ℤ c → b <ℤ pos 1000 *ℤ d
same_margin a b c d e f h = rw (e, f) h

-- A distance that is more than a thousandth of the tile away from both edges of tile `k`.
tile_of_distance :
    (doubles : Doubles) (l : GridLevel) (k s : ℕ) (d : ℤ)
    → k < 2 ^ 31
    → offset l (pos k +ℤ pos 1) s -ℤ offset l (pos k) s <ℤ pos 1000 *ℤ (d -ℤ offset l (pos k) s)
    → offset l (pos k +ℤ pos 1) s -ℤ offset l (pos k) s
      <ℤ pos 1000 *ℤ (offset l (pos k +ℤ pos 1) s -ℤ d)
    → (doubles.quotient d (span l s) ≡ pos k) × (0 < span l s)
tile_of_distance doubles l k s d h a b =
    let e : offset l (pos k) s ≡ pos (k * span l s) = offset_pos l k s in
    let f : offset l (pos k +ℤ pos 1) s ≡ pos (k * span l s + span l s) =
      rw pos+pos (offset_pos l (k + 1) s ∙ ap pos (omega arith)) in
    let (p, q, u) = tile_edges _ _ d (k * span l s) (span l s) e f a b in
    (doubles.inside (span l s) k d u h p q, u)

-- A point of an extent, more than a thousandth of its width or height away from its sides.
abbrev pub Inside : Extent → ℤ → ℤ → Type 0
Inside e dx dy =
    (e.maxx -ℤ e.minx <ℤ pos 1000 *ℤ (dx -ℤ e.minx))
    × (e.maxx -ℤ e.minx <ℤ pos 1000 *ℤ (e.maxx -ℤ dx))
    × (e.maxy -ℤ e.miny <ℤ pos 1000 *ℤ (dy -ℤ e.miny))
    × (e.maxy -ℤ e.miny <ℤ pos 1000 *ℤ (e.maxy -ℤ dy))

-- What looking up the point `(dx, dy)` finds on one level, and that no division is by zero.
abbrev Found : Doubles → Grid → GridLevel → GridOrigin → ℕ → ℕ → ℤ → ℤ → Type 0
Found doubles g l o x y dx dy =
    (doubles.quotient (from_left g dx) (span l g.tile_sx) ≡ pos x)
    × (0 < span l g.tile_sx)
    × (doubles.quotient (along_rows g o dy) (span l g.tile_sy) ≡ pos y)
    × (0 < span l g.tile_sy)

point_of_tile :
    (doubles : Doubles) (g : Grid) (l : GridLevel) (x y : ℕ) (dx dy : ℤ) (o : GridOrigin)
    → is_supported o ≡ true
    → x < 2 ^ 31
    → y < 2 ^ 31
    → Inside (extent_of g l (pos x) (pos y) o) dx dy
    → Found doubles g l o x y dx dy
unfolding extent_of
point_of_tile doubles g l x y dx dy bottom_left h i j (a, b, c, d) =
    let (p, q) =
      tile_of_distance doubles l x g.tile_sx (from_left g dx) i
        (same_margin _ _ _ _ (omega int_laws) (omega int_laws) a)
        (same_margin _ _ _ _ (omega int_laws) (omega int_laws) b) in
    let (r, s) =
      tile_of_distance doubles l y g.tile_sy (along_rows g bottom_left dy) j
        (same_margin _ _ _ _ (omega int_laws) (omega int_laws) c)
        (same_margin _ _ _ _ (omega int_laws) (omega int_laws) d) in
    (p, q, r, s)
point_of_tile doubles g l x y dx dy top_left h i j (a, b, c, d) =
    let (p, q) =
      tile_of_distance doubles l x g.tile_sx (from_left g dx) i
        (same_margin _ _ _ _ (omega int_laws) (omega int_laws) a)
        (same_margin _ _ _ _ (omega int_laws) (omega int_laws) b) in
    let (r, s) =
      tile_of_distance doubles l y g.tile_sy (along_rows g top_left dy) j
        (same_margin _ _ _ _ (omega int_laws) (omega int_laws) d)
        (same_margin _ _ _ _ (omega int_laws) (omega int_laws) c) in
    (p, q, r, s)
point_of_tile doubles g l x y dx dy bottom_right h i j k = cc
point_of_tile doubles g l x y dx dy top_right h i j k = cc

-- On a supported origin every point of the extent of a tile with numbers below 2^31 that is more than a
-- thousandth of the width or height away from the sides is looked up as that tile, on its level,
-- whatever the rounding of the divisions. Points nearer to a side are not spoken of.
pub get_xy-get_extent :
    (doubles : Doubles) (ctx : Context) (g : Grid) (x y : ℕ) (z dx dy x' y' : ℤ) (old : Extent)
    {e : Extent}
    → is_supported g.origin ≡ true
    → x < 2 ^ 31
    → y < 2 ^ 31
    → get_extent ctx g (pos x) (pos y) z old ≡ some (ctx, e)
    → Inside e dx dy
    → get_xy doubles ctx g dx dy z x' y' ≡ some (ctx, pos x, pos y)
unfolding get_extent get_xy
get_xy-get_extent doubles ctx g x y z dx dy x' y' old {e} s small small' h i =
    elim (Option-cases (at g.levels z)) [
      | inl no_level ↦ absurd (ground arith)
      | inr (l, at_level) ↦
          let same : extent_of g l (pos x) (pos y) g.origin ≡ e = ground arith in
          let (p, q, r, t) =
            point_of_tile doubles g l x y dx dy g.origin s small small'
              (subst (λ e. Inside e dx dy) (sym same) i) in
          rw (at_level, s) (ground arith)
    ]
