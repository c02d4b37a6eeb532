-- ===== src/Split/Windows.antt =====
-- Where a tile lies in the map of its metatile: the place in the image and the place on the ground.
use mapcache.Base.{
  ℕ, ◌+◌, ◌-◌, ◌*◌, ◌/◌, ◌<◌, ◌≤◌, pos, ◌+ℤ◌, ◌-ℤ◌, ◌*ℤ◌, ◌≤ℤ◌, pos*pos, pos+pos, pos-pos, ◌≡◌, ap,
  ap₂, sym, subst, ◌∙◌, true, arith,
}
use mapcache.Types.{
  GridLevel, Extent, GridOrigin, bottom_left, top_left, bottom_right, top_right, Tile, Map,
}
use mapcache.Grid.{extent_of, offset, is_supported}
use mapcache.Tileset.Metatiles.{metatile_at, metatile_on, metatile_extent}
use mapcache.Tileset.Metatiles.Blocks.{
  OnLevel, blx, bly, sx, sy, column_count, row_count, column_index, row_index,
}
use mapcache.Split.Offsets.{
  balance, balance_down, balance_up, ring_one, ring_down, rows_up, rows_enough, fits_column,
  fits_up, rest_of,
}
use mapcache.Split.{split_x, split_y}

-- A tile on level `l`, and the buffer of its tileset.
module _ (t : Tile) (l : GridLevel) (v : OnLevel t l) (b : ℕ)
    (buffer : t.tileset.metabuffer ≡ pos b) where
  abbrev r : ℕ
  r = l.resolution

  abbrev whole : Map
  whole = (metatile_on t l).map

  abbrev tx : ℕ
  tx = t.grid_link.grid.tile_sx

  abbrev ty : ℕ
  ty = t.grid_link.grid.tile_sy

  -- The map is `sx` by `sy` tiles, with the buffer at each side.
  pub width-pos : whole.width ≡ pos (sx t l v * tx + 2 * b)
  unfolding metatile_at
  width-pos = rw (column_count t l v, buffer, pos*pos (sx t l v) tx, pos*pos 2 b, pos+pos)

  pub height-pos : whole.height ≡ pos (sy t l v * ty + 2 * b)
  unfolding metatile_at
  height-pos = rw (row_count t l v, buffer, pos*pos (sy t l v) ty, pos*pos 2 b, pos+pos)

  times : (k s T : ℕ) → pos k *ℤ (pos r *ℤ pos s *ℤ pos T) ≡ pos (r * (k * s) * T)
  times k s T =
      rw (pos*pos r s, pos*pos (r * s) T, pos*pos k (r * s * T))
        (ap pos (let e : k * (r * s * T) ≡ r * (k * s) * T = grind arith in e))

  tiles_wide : (n T : ℕ) → pos r *ℤ pos n *ℤ pos T ≡ pos (r * n * T)
  tiles_wide n T = rw (pos*pos r n, pos*pos (r * n) T)

  extent-pos :
      whole.extent
      ≡ metatile_extent t.grid_link.grid.extent
          (pos (r * blx t l v * tx))
          (pos (r * bly t l v * ty))
          (pos (r * sx t l v * tx))
          (pos (r * sy t l v * ty))
          (pos (r * b))
          t.grid_link.grid.origin
  unfolding metatile_at
  extent-pos = λ k.
      metatile_extent t.grid_link.grid.extent
        ((ap₂ (λ m s. m *ℤ (pos r *ℤ s *ℤ pos tx)) (column_index t l v) v.metasize_x
            ∙ times (v.x / v.size_x) v.size_x tx)
          k)
        ((ap₂ (λ m s. m *ℤ (pos r *ℤ s *ℤ pos ty)) (row_index t l v) v.metasize_y
            ∙ times (v.y / v.size_y) v.size_y ty)
          k)
        ((ap (λ n. pos r *ℤ n *ℤ pos tx) (column_count t l v) ∙ tiles_wide (sx t l v) tx) k)
        ((ap (λ n. pos r *ℤ n *ℤ pos ty) (row_count t l v) ∙ tiles_wide (sy t l v) ty) k)
        ((ap (λ n. pos r *ℤ n) buffer ∙ pos*pos r b) k) t.grid_link.grid.origin

  -- The pixel (px, py) of the map is the first one of the tile in column `i` and row `j`: the tile is
  -- inside of the map without its buffer, and its upper left corner is at the right place on the ground.
  pub record Window (i j px py : ℕ) : Type 0 where
    pub starts_x : split_x whole tx i ≡ pos px
    pub starts_y : split_y whole t.grid_link.grid.origin ty j ≡ pos py
    pub fits_x : (b ≤ px) × (pos (px + tx + b) ≤ℤ whole.width)
    pub fits_y : (b ≤ py) × (pos (py + ty + b) ≤ℤ whole.height)
    pub ground_x :
        (extent_of t.grid_link.grid l
          (pos (blx t l v + i))
          (pos (bly t l v + j))
          t.grid_link.grid.origin).minx
        ≡ whole.extent.minx +ℤ pos r *ℤ pos px
    pub ground_y :
        (extent_of t.grid_link.grid l
          (pos (blx t l v + i))
          (pos (bly t l v + j))
          t.grid_link.grid.origin).maxy
        ≡ whole.extent.maxy -ℤ pos r *ℤ pos py

  -- The row of pixels at which the tiles of row `j` begin.
  abbrev pub pixel_row : ℕ → GridOrigin → ℕ
  pixel_row j top_left = b + j * ty
  pixel_row j _ = b + (sy t l v - (j + 1)) * ty

  module _ (i j : ℕ) (in_x : i < sx t l v) (in_y : j < sy t l v) where
    starts_x-pos : split_x whole tx i ≡ pos (b + i * tx)
    unfolding split_x metatile_at
    starts_x-pos = rw (buffer, pos*pos, pos+pos)

    from_bottom :
        whole.height -ℤ (whole.tileset.metabuffer +ℤ pos (j + 1) *ℤ pos ty)
        ≡ pos (b + (sy t l v - (j + 1)) * ty)
    unfolding metatile_at
    from_bottom =
        ap₂ (λ h m. h -ℤ (m +ℤ pos (j + 1) *ℤ pos ty)) height-pos buffer
        ∙ ap (λ n. pos (n * ty + 2 * b) -ℤ (pos b +ℤ pos (j + 1) *ℤ pos ty))
            (sym (rest_of (sy t l v) j in_y))
        ∙ rw (pos*pos, pos+pos)
            (pos-pos ((j + 1 + (sy t l v - (j + 1))) * ty + 2 * b) (b + (j + 1) * ty)
              (rows_enough b j (sy t l v - (j + 1)) ty))
        ∙ ap pos (rows_up b j (sy t l v - (j + 1)) ty)

    starts_y-pos : (o : GridOrigin) → split_y whole o ty j ≡ pos (pixel_row j o)
    unfolding split_y metatile_at
    starts_y-pos top_left = rw (buffer, pos*pos, pos+pos)
    starts_y-pos bottom_left = from_bottom
    starts_y-pos bottom_right = from_bottom
    starts_y-pos top_right = from_bottom

    fits_from_bottom : b + (sy t l v - (j + 1)) * ty + ty + b ≤ sy t l v * ty + 2 * b
    fits_from_bottom =
        subst (λ n. b + (sy t l v - (j + 1)) * ty + ty + b ≤ n * ty + 2 * b)
          (rest_of (sy t l v) j in_y) (fits_up b j (sy t l v - (j + 1)) ty)

    fits_row : (o : GridOrigin) → pixel_row j o + ty + b ≤ sy t l v * ty + 2 * b
    fits_row top_left =
        subst (λ n. b + j * ty + ty + b ≤ n * ty + 2 * b) (rest_of (sy t l v) j in_y)
          (fits_column b j (sy t l v - (j + 1)) ty)
    fits_row bottom_left = fits_from_bottom
    fits_row bottom_right = fits_from_bottom
    fits_row top_right = fits_from_bottom

    abbrev corner : GridOrigin → Extent
    corner o =
        metatile_extent t.grid_link.grid.extent (pos (r * blx t l v * tx))
          (pos (r * bly t l v * ty)) (pos (r * sx t l v * tx)) (pos (r * sy t l v * ty))
          (pos (r * b)) o

    abbrev ground : GridOrigin → Extent
    ground o = extent_of t.grid_link.grid l (pos (blx t l v + i)) (pos (bly t l v + j)) o

    step_pos : (n T : ℕ) → pos r *ℤ pos n *ℤ pos T ≡ pos (r * n * T)
    step_pos n T = rw (pos*pos r n, pos*pos (r * n) T)

    left :
        t.grid_link.grid.extent.minx +ℤ offset l (pos (blx t l v + i)) tx
        ≡ t.grid_link.grid.extent.minx
          +ℤ pos (r * blx t l v * tx)
          -ℤ pos (r * b)
          +ℤ pos r *ℤ pos (b + i * tx)
    left =
        ap (λ n. t.grid_link.grid.extent.minx +ℤ n) (step_pos (blx t l v + i) tx)
        ∙ balance t.grid_link.grid.extent.minx (r * (blx t l v + i) * tx) (r * blx t l v * tx)
            (r * b) (r * (b + i * tx)) (ring_one r b i tx (blx t l v))
        ∙ ap (λ n. t.grid_link.grid.extent.minx +ℤ pos (r * blx t l v * tx) -ℤ pos (r * b) +ℤ n)
            (sym (pos*pos r (b + i * tx)))

    at_left : (o : GridOrigin) → (ground o).minx ≡ (corner o).minx +ℤ pos r *ℤ pos (b + i * tx)
    unfolding extent_of metatile_extent
    at_left bottom_left = left
    at_left top_left = left
    at_left bottom_right = left
    at_left top_right = left

    from_top :
        t.grid_link.grid.extent.maxy -ℤ offset l (pos (bly t l v + j)) ty
        ≡ t.grid_link.grid.extent.maxy
          -ℤ pos (r * bly t l v * ty)
          +ℤ pos (r * b)
          -ℤ pos r *ℤ pos (b + j * ty)
    from_top =
        ap (λ n. t.grid_link.grid.extent.maxy -ℤ n) (step_pos (bly t l v + j) ty)
        ∙ balance_down t.grid_link.grid.extent.maxy (r * (bly t l v + j) * ty) (r * bly t l v * ty)
            (r * b) (r * (b + j * ty)) (ring_one r b j ty (bly t l v))
        ∙ ap (λ n. t.grid_link.grid.extent.maxy -ℤ pos (r * bly t l v * ty) +ℤ pos (r * b) -ℤ n)
            (sym (pos*pos r (b + j * ty)))

    down_ring :
        (k : ℕ)
        → r * (bly t l v + j + 1) * ty + r * (b + k * ty)
          ≡ r * bly t l v * ty + r * b + r * (j + 1 + k) * ty
    down_ring k = ring_down r b (bly t l v) ty j k

    down_balance :
        r * (bly t l v + j + 1) * ty + r * (b + (sy t l v - (j + 1)) * ty)
        ≡ r * bly t l v * ty + r * b + r * sy t l v * ty
    down_balance =
        down_ring (sy t l v - (j + 1))
        ∙ ap (λ n. r * bly t l v * ty + r * b + r * n * ty) (rest_of (sy t l v) j in_y)

    from_miny :
        t.grid_link.grid.extent.miny +ℤ offset l (pos (bly t l v + j) +ℤ pos 1) ty
        ≡ t.grid_link.grid.extent.miny
          +ℤ pos (r * bly t l v * ty)
          -ℤ pos (r * b)
          +ℤ pos (r * sy t l v * ty)
          +ℤ pos 2 *ℤ pos (r * b)
          -ℤ pos r *ℤ pos (b + (sy t l v - (j + 1)) * ty)
    from_miny =
        ap (λ n. t.grid_link.grid.extent.miny +ℤ offset l n ty) (pos+pos (bly t l v + j) 1)
        ∙ ap (λ n. t.grid_link.grid.extent.miny +ℤ n) (step_pos (bly t l v + j + 1) ty)
        ∙ balance_up t.grid_link.grid.extent.miny (r * (bly t l v + j + 1) * ty)
            (r * bly t l v * ty) (r * b) (r * sy t l v * ty) (r * (b + (sy t l v - (j + 1)) * ty))
            down_balance
        ∙ ap
            (λ n.
              t.grid_link.grid.extent.miny
              +ℤ pos (r * bly t l v * ty)
              -ℤ pos (r * b)
              +ℤ pos (r * sy t l v * ty)
              +ℤ pos 2 *ℤ pos (r * b)
              -ℤ n)
            (sym (pos*pos r (b + (sy t l v - (j + 1)) * ty)))

    at_top :
        (o : GridOrigin)
        → is_supported o ≡ true
        → (ground o).maxy ≡ (corner o).maxy -ℤ pos r *ℤ pos (pixel_row j o)
    unfolding extent_of metatile_extent
    at_top top_left s = from_top
    at_top bottom_left s = from_miny
    at_top bottom_right s = cc
    at_top top_right s = cc

    b_le_row : (o : GridOrigin) → b ≤ pixel_row j o
    b_le_row top_left = omega arith
    b_le_row bottom_left = omega arith
    b_le_row bottom_right = omega arith
    b_le_row top_right = omega arith

    fits_col : b + i * tx + tx + b ≤ sx t l v * tx + 2 * b
    fits_col =
        subst (λ n. b + i * tx + tx + b ≤ n * tx + 2 * b) (rest_of (sx t l v) i in_x)
          (fits_column b i (sx t l v - (i + 1)) tx)

    -- The tiles of the metatile of a tile, one by one: the image of the tile in column `i` and row `j`
    -- begins at the pixel (b + i * tx, pixel_row j) of the map, from which a whole tile and the buffer around it fit into the map, and
    -- the extent of the tile on the grid begins, to the left and at the top, where that pixel does.
    pub split-Window : Window i j (b + i * tx) (pixel_row j t.grid_link.grid.origin)
    split-Window = record {
      starts_x = starts_x-pos;
      starts_y = starts_y-pos t.grid_link.grid.origin;
      fits_x = (
        omega arith,
        subst (λ n. pos (b + i * tx + tx + b) ≤ℤ n) (sym width-pos) (omega (arith, fits_col)),
      );
      fits_y = (
        b_le_row t.grid_link.grid.origin,
        subst (λ n. pos (pixel_row j t.grid_link.grid.origin + ty + b) ≤ℤ n) (sym height-pos)
            (omega (arith, fits_row t.grid_link.grid.origin)),
      );
      ground_x =
          at_left t.grid_link.grid.origin
          ∙ ap (λ e. e.minx +ℤ pos r *ℤ pos (b + i * tx)) (sym extent-pos);
      ground_y =
          at_top t.grid_link.grid.origin v.supported
          ∙ ap (λ e. e.maxy -ℤ pos r *ℤ pos (pixel_row j t.grid_link.grid.origin)) (sym extent-pos);
    }
