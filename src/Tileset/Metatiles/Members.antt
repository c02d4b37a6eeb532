-- ===== src/Tileset/Metatiles/Members.antt =====
-- The array of tiles of the metatile that `mapcache_tileset_metatile_get` of lib/tileset.c gives.
use mapcache.Base.{
  ℕ, ◌+◌, ◌-◌, ◌*◌, ◌<◌, pos, pos_part, ◌≡◌, refl, ap, ap₂, sym, subst, ◌∙◌, some, get_elem?,
  length, arith,
}
use mapcache.Context.{Context}
use mapcache.Types.{GridLevel, Tile, Metatile}
use mapcache.Tileset.Metatiles.{meta_index, subtile, metatile_at, metatile_on, metatile_get}
use mapcache.Tileset.Metatiles.Axis.{meta_index-pos, axis_same}
use mapcache.Tileset.Metatiles.Blocks.{
  length-tiles_loop, get_elem?-tiles_loop, tiles_loop_all, OnLevel, blx, bly, sx, sy,
  metatile_get-on, bounds_x, bounds_y, metatile_on-Numbers,
}

module _ (t : Tile) (l : GridLevel) (v : OnLevel t l) where
  abbrev found : Metatile
  found = metatile_on t l

  open (metatile_on-Numbers t l v) use {columns, rows, count, tiles}

  -- What the array of a metatile says of the tile `t` that it is for.
  pub record Holds (mt : Metatile) : Type 0 where
    pub full : pos (length mt.tiles) ≡ mt.ntiles
    pub column : ℕ
    pub row : ℕ
    pub in_columns : column < pos_part mt.metasize_x
    pub in_rows : row < pos_part mt.metasize_y
    pub entry :
        get_elem? mt.tiles (column * pos_part mt.metasize_y + row) ≡ some (subtile t t.x t.y)

  -- For a tile on a level whose numbers are in range, on a supported origin: a metatile is given without an
  -- error, the tile stands in its array, and the array has `ntiles` entries.
  pub metatile_get-Holds :
      (ctx : Context) → (mt : Metatile) × (metatile_get t ctx ≡ some (ctx, some mt)) × Holds mt
  metatile_get-Holds ctx = (
    found,
    metatile_get-on t l v ctx,
    record {
      full =
          ap (λ xs. pos (length xs)) tiles
          ∙ ap pos (length-tiles_loop _ 0 (sx t l v) (sy t l v))
          ∙ sym count;
      column = v.x - blx t l v;
      row = v.y - bly t l v;
      in_columns =
          subst (λ n. v.x - blx t l v < pos_part n) (sym columns) (omega (arith, bounds_x t l v));
      in_rows =
          subst (λ n. v.y - bly t l v < pos_part n) (sym rows) (omega (arith, bounds_y t l v));
      entry =
          (λ k. get_elem? (tiles k) ((v.x - blx t l v) * pos_part (rows k) + (v.y - bly t l v)))
          ∙ get_elem?-tiles_loop _ 0 (v.x - blx t l v) (sx t l v) (sy t l v) (v.y - bly t l v)
              (omega (arith, bounds_x t l v)) (omega (arith, bounds_y t l v))
          ∙ ap₂ (λ a b. some (subtile t a b)) (own_x ∙ sym v.at_x) (own_y ∙ sym v.at_y);
    },
  )
    where
      own_x : pos (blx t l v + (0 + (v.x - blx t l v))) ≡ pos v.x
      own_x = ap pos (omega (arith, bounds_x t l v))

      own_y : pos (bly t l v + (v.y - bly t l v)) ≡ pos v.y
      own_y = ap pos (omega (arith, bounds_y t l v))

  -- What is said of an entry `s`: it is a tile of the same level, and asking for its metatile gives the
  -- same metatile.
  pub record Member (s : Tile) : Type 0 where
    pub x : ℕ
    pub y : ℕ
    pub at_x : s.x ≡ pos x
    pub at_y : s.y ≡ pos y
    pub at_z : s.z ≡ t.z
    pub inside : (x < l.maxx) × (y < l.maxy)
    pub same : (ctx : Context) → metatile_get s ctx ≡ metatile_get t ctx

  module _ (i j : ℕ) (in_x : i < sx t l v) (in_y : j < sy t l v) where
    abbrev neighbour : Tile
    neighbour = subtile t (pos (blx t l v + i)) (pos (bly t l v + j))

    in_level : (blx t l v + i < l.maxx) × (bly t l v + j < l.maxy)
    in_level = (omega (arith, bounds_x t l v), omega (arith, bounds_y t l v))

    neighbour-OnLevel : OnLevel neighbour l
    neighbour-OnLevel = record {
      x = blx t l v + i;
      y = bly t l v + j;
      size_x = v.size_x;
      size_y = v.size_y;
      at_x = refl;
      at_y = refl;
      metasize_x = v.metasize_x;
      metasize_y = v.metasize_y;
      level = v.level;
      supported = v.supported;
      inside = in_level;
      sizes = v.sizes;
      level_sizes = v.level_sizes;
    }

    same_column : meta_index neighbour.x t.tileset.metasize_x ≡ meta_index t.x t.tileset.metasize_x
    same_column =
        ap (meta_index neighbour.x) v.metasize_x
        ∙ meta_index-pos (blx t l v + i) v.size_x
        ∙ ap pos (axis_same v.x v.size_x l.maxx i v.sizes.0 in_x)
        ∙ sym (ap₂ meta_index v.at_x v.metasize_x ∙ meta_index-pos v.x v.size_x)

    same_row : meta_index neighbour.y t.tileset.metasize_y ≡ meta_index t.y t.tileset.metasize_y
    same_row =
        ap (meta_index neighbour.y) v.metasize_y
        ∙ meta_index-pos (bly t l v + j) v.size_y
        ∙ ap pos (axis_same v.y v.size_y l.maxy j v.sizes.2 in_y)
        ∙ sym (ap₂ meta_index v.at_y v.metasize_y ∙ meta_index-pos v.y v.size_y)

    same_metatile : metatile_on neighbour l ≡ metatile_on t l
    unfolding metatile_at
    same_metatile = ap₂ (metatile_at t l) same_column same_row

    neighbour-Member : Member neighbour
    neighbour-Member = record {
      x = blx t l v + i;
      y = bly t l v + j;
      at_x = refl;
      at_y = refl;
      at_z = refl;
      inside = in_level;
      same = λ ctx.
          metatile_get-on neighbour l neighbour-OnLevel ctx
          ∙ ap (λ m. some (ctx, some m)) same_metatile
          ∙ sym (metatile_get-on t l v ctx);
    }

  from_zero : (i : ℕ) → i < 0 + sx t l v → i < sx t l v
  from_zero i h = omega arith

  entry-Member : (k : ℕ) {s : Tile} → get_elem? (metatile_on t l).tiles k ≡ some s → Member s
  entry-Member k h =
      let (i, j, a, b, c, d) =
        tiles_loop_all _ 0 (sx t l v) (sy t l v) k (ap (λ xs. get_elem? xs k) (sym tiles) ∙ h) in
      subst Member (sym d) (neighbour-Member i j (from_zero i b) c)

  -- For a tile on a level whose numbers are in range, on a supported origin: every entry of the array of its
  -- metatile is a tile of the level, and its metatile is this same one.
  pub metatile_get-Member :
      (ctx : Context) (k : ℕ) {mt : Metatile} {s : Tile}
      → metatile_get t ctx ≡ some (ctx, some mt)
      → get_elem? mt.tiles k ≡ some s
      → Member s
  metatile_get-Member ctx k {mt} {s} e h =
      let is : mt ≡ metatile_on t l = cc (metatile_get-on t l v ctx) in
      entry-Member k (ap (λ m. get_elem? m.tiles k) (sym is) ∙ h)
