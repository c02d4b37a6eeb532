-- ===== src/Tileset/Metatiles/Blocks.antt =====
-- The tiles of a metatile: where they stand in its array, and which tiles they are.
use mapcache.Base.{
  ℕ, zero, suc, ◌+◌, ◌-◌, ◌*◌, ◌/◌, ◌^◌, ◌<◌, ◌≤◌, pos, ◌+ℤ◌, ◌*ℤ◌, pos+pos, pos*pos, pos_part, ◌≡◌,
  refl, ap, ap₂, sym, ◌∙◌, true, some, List, [], ◌∷◌, ◌++◌, arith, length, length-append, get_elem?,
  some-inj,
}
use native.Mathlib.Decide.{dec_lt}
use mapcache.Context.{Context}
use mapcache.Types.{GridLevel, Tile, Metatile, at}
use mapcache.Grid.{is_supported}
use mapcache.Tileset.Metatiles.{
  meta_index, meta_size, column_loop, tiles_loop, subtile, metatile_at, metatile_on, metatile_get,
}
use mapcache.Tileset.Metatiles.Axis.{
  first_of_meta, size_of_meta, meta_index-pos, first-pos, meta_size-pos, axis_bounds,
}

module _ {ℓ} {A : Type ℓ} (f : ℕ → ℕ → A) where
  length-column_loop : (i j m : ℕ) → length (column_loop f i j m) ≡ m
  unfolding column_loop
  length-column_loop i j zero = refl
  length-column_loop i j (suc m) = ap suc (length-column_loop i (j + 1) m)

  pub length-tiles_loop : (i n m : ℕ) → length (tiles_loop f i n m) ≡ n * m
  unfolding tiles_loop
  length-tiles_loop i zero m = omega arith
  length-tiles_loop i (suc n) m = omega (
    arith,
    length-append (column_loop f i 0 m) (tiles_loop f (i + 1) n m),
    length-column_loop i 0 m,
    length-tiles_loop (i + 1) n m,
  )

  get_elem?-column_loop :
      (i j m k : ℕ) → k < m → get_elem? (column_loop f i j m) k ≡ some (f i (j + k))
  unfolding column_loop
  get_elem?-column_loop i j zero k h = absurd (omega arith)
  get_elem?-column_loop i j (suc m) zero h = ap (λ t. some (f i t)) (omega arith)
  get_elem?-column_loop i j (suc m) (suc k) h =
      get_elem?-column_loop i (j + 1) m k (omega arith) ∙ ap (λ t. some (f i t)) (omega arith)

get_elem?-append_left {ℓ} :
    {A : Type ℓ} (xs ys : List A) (k : ℕ) → k < length xs → get_elem? (xs ++ ys) k ≡ get_elem? xs k
get_elem?-append_left [] ys k h = absurd (omega arith)
get_elem?-append_left (x ∷ xs) ys zero h = refl
get_elem?-append_left (x ∷ xs) ys (suc k) h = get_elem?-append_left xs ys k (omega arith)

get_elem?-append_right {ℓ} :
    {A : Type ℓ} (xs ys : List A) (k : ℕ) → get_elem? (xs ++ ys) (length xs + k) ≡ get_elem? ys k
get_elem?-append_right [] ys k = ap (get_elem? ys) (omega arith)
get_elem?-append_right (x ∷ xs) ys k =
    let e : suc (length xs) + k ≡ suc (length xs + k) = omega arith in
    rw e (get_elem?-append_right xs ys k)

module _ {ℓ} {A : Type ℓ} (f : ℕ → ℕ → A) where
  -- `tiles[i * m + j]` is the tile of column `i` and row `j`.
  pub get_elem?-tiles_loop :
      (a i n m j : ℕ)
      → i < n
      → j < m
      → get_elem? (tiles_loop f a n m) (i * m + j) ≡ some (f (a + i) j)
  unfolding tiles_loop
  get_elem?-tiles_loop a i zero m j h h' = absurd (omega arith)
  get_elem?-tiles_loop a zero (suc n) m j h h' =
      let e : 0 * m + j ≡ j = omega arith in
      rw e (
        get_elem?-append_left (column_loop f a 0 m) (tiles_loop f (a + 1) n m) j
          (omega (arith, length-column_loop f a 0 m))
        ∙ get_elem?-column_loop f a 0 m j h'
        ∙ ap some (ap₂ f (omega arith) (omega arith)))
  get_elem?-tiles_loop a (suc i) (suc n) m j h h' =
      let e : suc i * m + j ≡ length (column_loop f a 0 m) + (i * m + j) =
        omega (arith, length-column_loop f a 0 m) in
      ap (get_elem? (column_loop f a 0 m ++ tiles_loop f (a + 1) n m)) e
      ∙ get_elem?-append_right (column_loop f a 0 m) (tiles_loop f (a + 1) n m) (i * m + j)
      ∙ get_elem?-tiles_loop (a + 1) i n m j (omega arith) h'
      ∙ ap (λ c. some (f c j)) (omega arith)

  -- Every entry is some `f i j`.
  pub tiles_loop_all :
      (a n m k : ℕ) {t : A}
      → get_elem? (tiles_loop f a n m) k ≡ some t
      → (i j : ℕ) × (a ≤ i) × (i < a + n) × (j < m) × (t ≡ f i j)
  unfolding tiles_loop
  tiles_loop_all a zero m k e = cc
  tiles_loop_all a (suc n) m k {t} e = elim (dec_lt k m) [
    | yes here ↦
        let same : some (f a (0 + k)) ≡ some t =
          sym (
            get_elem?-append_left (column_loop f a 0 m) (tiles_loop f (a + 1) n m) k
              (omega (arith, length-column_loop f a 0 m))
            ∙ get_elem?-column_loop f a 0 m k here)
          ∙ e in
        (a, 0 + k, omega arith, omega arith, omega arith, sym (some-inj same))
    | no there ↦
        let index : k ≡ length (column_loop f a 0 m) + (k - m) =
          omega (arith, length-column_loop f a 0 m) in
        let (i, j, p, q, r, s) = tiles_loop_all (a + 1) n m (k - m) (
          sym (get_elem?-append_right (column_loop f a 0 m) (tiles_loop f (a + 1) n m) (k - m))
          ∙ sym (ap (get_elem? (column_loop f a 0 m ++ tiles_loop f (a + 1) n m)) index)
          ∙ e) in
        (i, j, omega arith, omega arith, r, s)
  ]

-- A tile on level `l` of its grid, with its numbers, and with the settings of its tileset: the origin is
-- supported and no number is out of range.
pub record OnLevel (t : Tile) (l : GridLevel) : Type 0 where
  pub x : ℕ
  pub y : ℕ
  pub size_x : ℕ
  pub size_y : ℕ
  pub at_x : t.x ≡ pos x
  pub at_y : t.y ≡ pos y
  pub metasize_x : t.tileset.metasize_x ≡ pos size_x
  pub metasize_y : t.tileset.metasize_y ≡ pos size_y
  pub level : at t.grid_link.grid.levels t.z ≡ some l
  pub supported : is_supported t.grid_link.grid.origin ≡ true
  pub inside : (x < l.maxx) × (y < l.maxy)
  pub sizes : (0 < size_x) × (size_x < 2 ^ 31) × (0 < size_y) × (size_y < 2 ^ 31)
  pub level_sizes : (l.maxx < 2 ^ 31) × (l.maxy < 2 ^ 31)

module _ (t : Tile) (l : GridLevel) (v : OnLevel t l) where
  -- The first column and row, and the numbers of columns and rows.
  abbrev pub blx : ℕ
  blx = first_of_meta v.x v.size_x

  abbrev pub bly : ℕ
  bly = first_of_meta v.y v.size_y

  abbrev pub sx : ℕ
  sx = size_of_meta blx v.size_x l.maxx

  abbrev pub sy : ℕ
  sy = size_of_meta bly v.size_y l.maxy

  pub metatile_get-on : (ctx : Context) → metatile_get t ctx ≡ some (ctx, some (metatile_on t l))
  unfolding metatile_get
  metatile_get-on ctx =
      rw (v.level, v.supported) (ground (arith, v.metasize_x, v.metasize_y, v.sizes))

  -- The numbers of the metatile.
  pub record Numbers (mt : Metatile) : Type 0 where
    pub index_x : mt.x ≡ pos (v.x / v.size_x)
    pub index_y : mt.y ≡ pos (v.y / v.size_y)
    pub columns : mt.metasize_x ≡ pos sx
    pub rows : mt.metasize_y ≡ pos sy
    pub count : mt.ntiles ≡ pos (sx * sy)
    pub tiles : mt.tiles ≡ tiles_loop (λ i j. subtile t (pos (blx + i)) (pos (bly + j))) 0 sx sy

  pub column_index : meta_index t.x t.tileset.metasize_x ≡ pos (v.x / v.size_x)
  column_index = ap₂ meta_index v.at_x v.metasize_x ∙ meta_index-pos v.x v.size_x

  pub row_index : meta_index t.y t.tileset.metasize_y ≡ pos (v.y / v.size_y)
  row_index = ap₂ meta_index v.at_y v.metasize_y ∙ meta_index-pos v.y v.size_y

  pub first_column : meta_index t.x t.tileset.metasize_x *ℤ t.tileset.metasize_x ≡ pos blx
  first_column = ap₂ (λ a b. meta_index a b *ℤ b) v.at_x v.metasize_x ∙ first-pos v.x v.size_x

  pub first_row : meta_index t.y t.tileset.metasize_y *ℤ t.tileset.metasize_y ≡ pos bly
  first_row = ap₂ (λ a b. meta_index a b *ℤ b) v.at_y v.metasize_y ∙ first-pos v.y v.size_y

  pub bounds_x : (blx ≤ v.x) × (v.x < blx + sx) × (blx + sx ≤ l.maxx)
  bounds_x = axis_bounds v.x v.size_x l.maxx v.sizes.0 v.inside.0

  pub bounds_y : (bly ≤ v.y) × (v.y < bly + sy) × (bly + sy ≤ l.maxy)
  bounds_y = axis_bounds v.y v.size_y l.maxy v.sizes.2 v.inside.1

  pub column_count :
      meta_size
        (meta_index t.x t.tileset.metasize_x *ℤ t.tileset.metasize_x)
        t.tileset.metasize_x
        l.maxx
      ≡ pos sx
  column_count =
      ap₂ (λ a b. meta_size a b l.maxx) first_column v.metasize_x
      ∙ meta_size-pos blx v.size_x l.maxx v.sizes.0 v.sizes.1 (omega (arith, bounds_x))
          v.level_sizes.0

  pub row_count :
      meta_size
        (meta_index t.y t.tileset.metasize_y *ℤ t.tileset.metasize_y)
        t.tileset.metasize_y
        l.maxy
      ≡ pos sy
  row_count =
      ap₂ (λ a b. meta_size a b l.maxy) first_row v.metasize_y
      ∙ meta_size-pos bly v.size_y l.maxy v.sizes.2 v.sizes.3 (omega (arith, bounds_y))
          v.level_sizes.1

  pub metatile_on-Numbers : Numbers (metatile_on t l)
  unfolding metatile_at
  metatile_on-Numbers = record {
    index_x = column_index;
    index_y = row_index;
    columns = column_count;
    rows = row_count;
    count = ap₂ ◌*ℤ◌ column_count row_count ∙ pos*pos sx sy;
    tiles =
        (λ k.
          tiles_loop (λ i j. subtile t (first_column k +ℤ pos i) (first_row k +ℤ pos j)) 0
            (pos_part (column_count k)) (pos_part (row_count k)))
        ∙ (λ k. tiles_loop (λ i j. subtile t (pos+pos blx i k) (pos+pos bly j k)) 0 sx sy);
  }
