-- ===== src/Maps/TopLeft.antt =====
-- The assertion of `mapcache_tileset_assemble_map_tiles` of lib/tileset.c: there is a tile at the top left.
use mapcache.Base.{
  ℕ, ◌<◌, ℤ, pos, ◌+ℤ◌, ◌≤ℤ◌, ◌==ℤ◌, eq_of_parts, pos_part, neg_part, IsInt, Text, true, ◌&&◌, ◌≡◌,
  refl, ap, sym, subst, ◌∙◌, ◌⊎◌, inl, inr, Option, none, some, List, [], ◌∷◌, Bool-cases, some-inj,
  arith, if◌then◌else◌,
}
use mapcache.Context.{Context}
use mapcache.Types.{
  Extent, GridLevel, GridOrigin, bottom_left, top_left, bottom_right, top_right, GridLink,
  Dimensions, Tileset, Tile, at,
}
use mapcache.Grid.{span, is_supported}
use mapcache.Grid.Lookup.{Doubles, get_resolution, get_closest_level}
use mapcache.Tileset.Checks.{InRange}
use mapcache.Maps.{count_to, tile_on, get_map_tiles}
use mapcache.Maps.Loops.{Among, still_there, Clean, Gathered}
use mapcache.Maps.Cover.{get_map_tiles-Gives, low_x, high_x, low_y, high_y}
use mapcache.Maps.Assemble.{Corners, no_corners, corners_loop, is_top_left, top_left_loop}
use mapcache.Maps.Corners.{
  corners_loop_lem, first_or_later, least_lem, greatest_lem, least_reached, greatest_reached,
}

module _ (o : GridOrigin) (c : Corners) where
  -- A tile of the list that the test holds of.
  abbrev Passes : List Tile → Tile → Type 0
  Passes ts v = Among ts v × (is_top_left o c v ≡ true)

  kept_or_found :
      (ts : List Tile) (found : Option Tile)
      → (top_left_loop o c ts found ≡ found)
        ⊎ ((v : Tile) × (top_left_loop o c ts found ≡ some v) × Passes ts v)
  unfolding top_left_loop
  kept_or_found [] found = inl refl
  kept_or_found (t ∷ ts) found = elim (Bool-cases (is_top_left o c t)) [
    | inl e ↦ rw e (elim (kept_or_found ts (some t)) [
      | inl h ↦ inr (t, h, ((0, refl), e))
      | inr (v, h, (k, p)) ↦ inr (v, h, (still_there t v ts k, p))
    ])
    | inr e ↦ rw e (elim (kept_or_found ts found) [
      | inl h ↦ inl h
      | inr (v, h, (k, p)) ↦ inr (v, h, (still_there t v ts k, p))
    ])
  ]

  passing_found :
      (u : Tile) (ts : List Tile) (found : Option Tile)
      → Passes ts u
      → (v : Tile) × (top_left_loop o c ts found ≡ some v) × Passes ts v
  unfolding top_left_loop
  passing_found u [] found (k, p) = absurd (let e : none ≡ some u = k.1 in cc)
  passing_found u (t ∷ ts) found (k, p) = elim (first_or_later t u ts k) [
    | inl e ↦
        let e' : is_top_left o c t ≡ true = rw e p in
        rw e' (elim (kept_or_found ts (some t)) [
          | inl h ↦ (t, h, ((0, refl), e'))
          | inr (v, h, (k', p')) ↦ (v, h, (still_there t v ts k', p'))
        ])
    | inr k' ↦
        let (v, h, (m, p')) =
          passing_found u ts (if is_top_left o c t then some t else found) (k', p) in
        (v, h, (still_there t v ts m, p'))
  ]

-- The tile is at the left of all tiles, and at the top, which is the last row from below.
abbrev pub TopLeft : GridOrigin → List Tile → Tile → Type 0
TopLeft bottom_left ts t = (u : Tile) → Among ts u → (t.x ≤ℤ u.x) × (u.y ≤ℤ t.y)
TopLeft _ ts t = (u : Tile) → Among ts u → (t.x ≤ℤ u.x) × (t.y ≤ℤ u.y)

both_equal : (a b c d : ℤ) → (a ==ℤ b && c ==ℤ d) ≡ true → (a ≡ b) × (c ≡ d)
both_equal a b c d h = (eq_of_parts a b (ground arith), eq_of_parts c d (ground arith))

equal_both : (a b c d : ℤ) → a ≡ b → c ≡ d → (a ==ℤ b && c ==ℤ d) ≡ true
equal_both a b c d e f = ground (arith, ap pos_part e, ap neg_part e, ap pos_part f, ap neg_part f)

module _ (table_set : Dimensions → Text → Text → Dimensions) (ts : Tileset) (link : GridLink)
    (level : ℤ) (limits : Extent) (found : at link.grid_limits level ≡ some limits) (x y : ℤ)
    (m n : ℕ) (first : Tile) (rest : List Tile)
    (g : Gathered table_set ts link level limits found x m y n (first ∷ rest)) where
  abbrev tiles : List Tile
  tiles = first ∷ rest

  -- The tile in the column of one tile and the row of another is there too.
  crossing :
      (t u : Tile)
      → Among tiles t
      → Among tiles u
      → (v : Tile) × Among tiles v × (v.x ≡ t.x) × (v.y ≡ u.y)
  unfolding tile_on
  crossing t u k k' =
      let (i, j, h, h', e, r) = g.sound t k in
      let (i', j', a, a', e', r') = g.sound u k' in
      let r₁ = subst (λ v. InRange v limits) e r in
      let r₂ = subst (λ v. InRange v limits) e' r' in
      (
        tile_on table_set ts link level (x +ℤ pos i) (y +ℤ pos j'),
        g.complete i j' h a' (record { level = r₁.level; column = r₁.column; row = r₂.row }),
        sym (ap (λ v. v.x) e),
        sym (ap (λ v. v.y) e'),
      )

  -- The tiles' numbers are within an int.
  in_int :
      IsInt limits.maxx
      → IsInt limits.maxy
      → IsInt limits.miny
      → (first.x ≤ℤ no_corners.min_x)
        × (first.y ≤ℤ no_corners.min_y)
        × (no_corners.max_y ≤ℤ first.y)
  in_int a b c =
      let (i, j, h, h', e, r) = g.sound first (0, refl) in
      (omega (arith, r.column, a), omega (arith, r.row, b), omega (arith, r.row, c))

  pub corner_found :
      (o : GridOrigin)
      → is_supported o ≡ true
      → IsInt limits.maxx
      → IsInt limits.maxy
      → IsInt limits.miny
      → (v : Tile) × (top_left_loop o (corners_loop tiles no_corners) tiles none ≡ some v)
        × Among tiles v
        × TopLeft o tiles v
  corner_found bottom_left s a b c =
      let (p, q, r) = in_int a b c in
      let (ex, ey, ez) = corners_loop_lem tiles no_corners in
      let (t, k, e) = least_reached (λ u. u.x) first rest no_corners.min_x p in
      let (u, k', e') = greatest_reached (λ u. u.y) first rest no_corners.max_y r in
      let (w, kw, ew, ew') = crossing t u k k' in
      let passes = equal_both w.x _ w.y _ (ew ∙ e ∙ sym ex) (ew' ∙ e' ∙ sym ez) in
      let (v, f, (kv, pv)) =
        passing_found bottom_left (corners_loop tiles no_corners) w tiles none (kw, passes) in
      let (vx, vy) = both_equal v.x _ v.y _ pv in
      let (_, below, _) = least_lem (λ u. u.x) tiles no_corners.min_x in
      let (_, above, _) = greatest_lem (λ u. u.y) tiles no_corners.max_y in
      (
        v,
        f,
        kv,
        λ z kz. (
          subst (λ b. b ≤ℤ z.x) (sym (vx ∙ ex)) (below z kz),
          subst (λ b. z.y ≤ℤ b) (sym (vy ∙ ez)) (above z kz),
        ),
      )
  corner_found top_left s a b c =
      let (p, q, r) = in_int a b c in
      let (ex, ey, ez) = corners_loop_lem tiles no_corners in
      let (t, k, e) = least_reached (λ u. u.x) first rest no_corners.min_x p in
      let (u, k', e') = least_reached (λ u. u.y) first rest no_corners.min_y q in
      let (w, kw, ew, ew') = crossing t u k k' in
      let passes = equal_both w.x _ w.y _ (ew ∙ e ∙ sym ex) (ew' ∙ e' ∙ sym ey) in
      let (v, f, (kv, pv)) =
        passing_found top_left (corners_loop tiles no_corners) w tiles none (kw, passes) in
      let (vx, vy) = both_equal v.x _ v.y _ pv in
      let (_, below, _) = least_lem (λ u. u.x) tiles no_corners.min_x in
      let (_, above, _) = least_lem (λ u. u.y) tiles no_corners.min_y in
      (
        v,
        f,
        kv,
        λ z kz. (
          subst (λ b. b ≤ℤ z.x) (sym (vx ∙ ex)) (below z kz),
          subst (λ b. b ≤ℤ z.y) (sym (vy ∙ ey)) (above z kz),
        ),
      )
  corner_found bottom_right s a b c = cc
  corner_found top_right s a b c = cc

-- If the level of a map is found, its grid has a supported origin and tiles of some size, the link has
-- limits for the level that fit an int, and a request without an error so far gets tiles of the map, then
-- one of them is the tile at the top left: it is found, and no other tile is further left or further up,
-- so the assertion of the assembly holds.
pub assertion_holds :
    (doubles : Doubles) (table_set : Dimensions → Text → Text → Dimensions) (ts : Tileset)
    (link : GridLink) (bbox : Extent) (l : GridLevel) (level : ℤ) (limits : Extent)
    (width height : ℕ) (ctx ctx' : Context) (first : Tile) (rest : List Tile)
    → get_closest_level link (get_resolution bbox width height) ≡ some level
    → at link.grid.levels level ≡ some l
    → is_supported link.grid.origin ≡ true
    → 0 < span l link.grid.tile_sx
    → 0 < span l link.grid.tile_sy
    → at link.grid_limits level ≡ some limits
    → IsInt limits.maxx
    → IsInt limits.maxy
    → IsInt limits.miny
    → Clean ctx
    → get_map_tiles doubles table_set ts link bbox width height ctx ≡ some (ctx', first ∷ rest)
    → (v : Tile) × (top_left_loop link.grid.origin
          (corners_loop (first ∷ rest) no_corners)
          (first ∷ rest)
          none
        ≡ some v)
      × Among (first ∷ rest) v
      × TopLeft link.grid.origin (first ∷ rest) v
assertion_holds doubles table_set ts link bbox l level limits width height ctx ctx' first rest e on
      s a b found ix iy iz c h =
    let (d, tiles, f, c', g) =
      get_map_tiles-Gives doubles table_set ts link bbox l level limits width height ctx e on s a b
        found c in
    let same : tiles ≡ first ∷ rest = ap (λ r. r.1) (some-inj (sym f ∙ h)) in
    let lx = low_x doubles table_set ts link bbox l level limits in
    let ly = low_y doubles table_set ts link bbox l level limits in
    let m = count_to lx (high_x doubles table_set ts link bbox l level limits) in
    let n = count_to ly (high_y doubles table_set ts link bbox l level limits) in
    corner_found table_set ts link level limits found lx ly m n first rest
      (subst (λ x. Gathered table_set ts link level limits found lx m ly n x) same g)
      link.grid.origin s ix iy iz
