-- ===== src/Tileset/Metatiles.antt =====
-- Metatiles: `mapcache_tileset_metatile_get` and `mapcache_tileset_metatile_resource_key` of lib/tileset.c.
pub mod Axis
pub mod Blocks
pub mod Members
pub mod Keys
use Prim.Native.String.{String}
use mapcache.Base.{
  ℕ, zero, suc, ◌+◌, ◌-◌, ◌*◌, ◌%◌, ◌^◌, ℤ, pos, negsuc, ◌+ℤ◌, ◌-ℤ◌, ◌*ℤ◌, ◌==ℤ◌, quot_ℤ, to_u32,
  to_i32, ltb_ℤ, pos_part, show_ℤ, Text, codes, Bool, true, false, ◌||◌, Option, none, some, List,
  [], ◌∷◌, ◌++◌, ltb, leb, ◌==◌, if◌then◌else◌, ◌>>=◌, length,
}
use mathlib.Core.List.{map, flatten}
use mapcache.Context.{Context, set_error}
use mapcache.Types.{
  Extent, GridLevel, GridOrigin, bottom_left, top_left, bottom_right, top_right, Grid, GridLink,
  Dimensions, Tileset, Tile, Map, Metatile, at,
}
use mapcache.Grid.{is_supported}

-- The column (or row) of metatiles that a tile's column (or row) lies in.
unfoldable pub meta_index : ℤ → ℤ → ℤ
meta_index n size = if ltb_ℤ n (pos 0) then quot_ℤ n size -ℤ pos 1 else quot_ℤ n size

-- How many tiles of the metatile that begins at `first` are within the level. The test compares an `int`
-- with an `unsigned int`, and the difference is that of `unsigned int`.
unfoldable pub meta_size : ℤ → ℤ → ℕ → ℤ
meta_size first size max =
    if leb max (to_u32 (first +ℤ size -ℤ pos 1))
    then to_i32 ((max + 2 ^ 32 - to_u32 first) % 2 ^ 32)
    else size

-- `for(i) for(j) tiles[i*m+j] = f i j`, from the indices `i` and `j` on.
pub column_loop {ℓ} : {A : Type ℓ} → (ℕ → ℕ → A) → ℕ → ℕ → ℕ → List A
column_loop f i j zero = []
column_loop f i j (suc m) = f i j ∷ column_loop f i (j + 1) m

unfoldable pub tiles_loop {ℓ} : {A : Type ℓ} → (ℕ → ℕ → A) → ℕ → ℕ → ℕ → List A
unfolding column_loop
tiles_loop f i zero m = []
tiles_loop f i (suc n) m = column_loop f i 0 m ++ tiles_loop f (i + 1) n m

-- The extent of a metatile of `gwidth` by `gheight` with the buffer `gbuffer` around it, whose first edges
-- are `left` and `up` away from the corner of the grid.
unfoldable pub metatile_extent : Extent → ℤ → ℤ → ℤ → ℤ → ℤ → GridOrigin → Extent
metatile_extent e left up gwidth gheight gbuffer bottom_left =
    let minx = e.minx +ℤ left -ℤ gbuffer in
    let miny = e.miny +ℤ up -ℤ gbuffer in
    record {
      minx = minx;
      miny = miny;
      maxx = minx +ℤ gwidth +ℤ pos 2 *ℤ gbuffer;
      maxy = miny +ℤ gheight +ℤ pos 2 *ℤ gbuffer;
    }
metatile_extent e left up gwidth gheight gbuffer _ =
    let minx = e.minx +ℤ left -ℤ gbuffer in
    let maxy = e.maxy -ℤ up +ℤ gbuffer in
    record {
      minx = minx;
      miny = maxy -ℤ gheight -ℤ pos 2 *ℤ gbuffer;
      maxx = minx +ℤ gwidth +ℤ pos 2 *ℤ gbuffer;
      maxy = maxy;
    }

-- A tile of the metatile, before anything is fetched for it.
abbrev pub subtile : Tile → ℤ → ℤ → Tile
subtile t x y = record {
  tileset = t.tileset;
  grid_link = t.grid_link;
  x = x;
  y = y;
  z = t.z;
  encoded_data = none;
  raw_image = none;
  mtime = 0;
  expires = pos 0;
  dimensions = t.dimensions;
  nodata = false;
}

-- The metatile in column `mx` and row `my` of the level `l`, for a tile `t`.
unfoldable pub metatile_at : Tile → GridLevel → ℤ → ℤ → Metatile
unfolding metatile_extent
metatile_at t l mx my =
    let ts = t.tileset in
    let g = t.grid_link.grid in
    let blx = mx *ℤ ts.metasize_x in
    let bly = my *ℤ ts.metasize_y in
    let sx = meta_size blx ts.metasize_x l.maxx in
    let sy = meta_size bly ts.metasize_y l.maxy in
    let res = pos l.resolution in
    record {
      map = record {
        tileset = ts;
        grid_link = t.grid_link;
        dimensions = t.dimensions;
        encoded_data = none;
        raw_image = none;
        nodata = false;
        width = sx *ℤ pos g.tile_sx +ℤ pos 2 *ℤ ts.metabuffer;
        height = sy *ℤ pos g.tile_sy +ℤ pos 2 *ℤ ts.metabuffer;
        extent =
            metatile_extent g.extent (mx *ℤ (res *ℤ ts.metasize_x *ℤ pos g.tile_sx))
              (my *ℤ (res *ℤ ts.metasize_y *ℤ pos g.tile_sy)) (res *ℤ sx *ℤ pos g.tile_sx)
              (res *ℤ sy *ℤ pos g.tile_sy) (res *ℤ ts.metabuffer) g.origin;
        mtime = 0;
        expires = pos 0;
      };
      x = mx;
      y = my;
      z = t.z;
      metasize_x = sx;
      metasize_y = sy;
      ntiles = sx *ℤ sy;
      tiles =
          tiles_loop (λ i j. subtile t (blx +ℤ pos i) (bly +ℤ pos j)) 0 (pos_part sx) (pos_part sy);
    }

-- The metatile that the tile `t` of level `l` lies in.
abbrev pub metatile_on : Tile → GridLevel → Metatile
metatile_on t l =
    metatile_at t l (meta_index t.x t.tileset.metasize_x) (meta_index t.y t.tileset.metasize_y)

-- `mapcache_tileset_metatile_get`; the metatile is `none` for NULL. A level that is not there, or a
-- division by zero, has no result.
unfoldable pub metatile_get : Tile → Context → Option (Context × Option Metatile)
metatile_get t ctx = do
  l ← at t.grid_link.grid.levels t.z
  let zero_size = t.tileset.metasize_x ==ℤ pos 0 || t.tileset.metasize_y ==ℤ pos 0
  let found : Context × Option Metatile =
      if is_supported t.grid_link.grid.origin
      then (ctx, some (metatile_on t l))
      else (set_error 500 "origin not implemented" ctx, none)
  if zero_size then none else some found

underscore_slash : ℕ → ℕ
underscore_slash c = if c == b'/' then b'_' else c

-- `mapcache_tileset_metatile_resource_key`
unfoldable pub resource_key : Metatile → Text
unfolding underscore_slash
resource_key mt =
    show_ℤ mt.z
    ++ b'-'
      ∷ (show_ℤ mt.y
          ++ b'-'
            ∷ (show_ℤ mt.x
                ++ b'-'
                  ∷ (mt.map.tileset.name
                      ++ ((if ltb 1 (length mt.map.tileset.grid_links)
                            then mt.map.grid_link.grid.name
                            else [])
                          ++ elim mt.map.dimensions [
                            | none ↦ []
                            | some ds ↦ flatten (map (λ e. map underscore_slash e.1) ds)
                          ]))))
