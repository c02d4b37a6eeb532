-- ===== src/Maps/Assemble.antt =====
-- A map from its tiles: `mapcache_tileset_assemble_map_tiles` of lib/tileset.c.
--
-- The box of a map is not reversed. `none` stands for a failed assertion, a write before the image, and a
-- division by zero. The tile at the top left is
-- looked for apart from the loop that copies the tiles, which does not use it. Decoding into an image
-- belongs to the codecs, and bilinear resampling, which computes with floats, is a parameter as well.
use mapcache.Base.{
  ℕ, zero, suc, ◌+◌, ◌*◌, ℤ, pos, negsuc, ◌+ℤ◌, ◌-ℤ◌, ◌*ℤ◌, ltb_ℤ, ◌==ℤ◌, abs_ℤ, pos_part, Text,
  Bool, ◌&&◌, ◌||◌, Option, none, some, List, [], ◌∷◌, ◌++◌, take, drop, set, replicate, ltb, ◌==◌,
  if◌then◌else◌, ◌>>=◌,
}
use mapcache.Context.{Context}
use mapcache.Types.{
  Extent, GridLevel, GridOrigin, bottom_left, top_left, bottom_right, top_right, GridLink, Image,
  Tile, at,
}
use mapcache.Image.{create}
use mapcache.Image.Nearest.{copy_resampled_nearest}
use mapcache.Grid.{get_extent}
use mapcache.Grid.Lookup.{Doubles, Fraction}

-- `mapcache_resample_mode`
pub data ResampleMode : Type 0 where
  nearest bilinear : ResampleMode

pub record Painter : Type 0 where
  pub doubles : Doubles
  pub decode_to_image : Option Text → Image → Context → Image × Context
  pub copy_bilinear : Image → Image → Fraction → Fraction → Fraction → Fraction → Image

-- The least and the greatest column and row: `mx`, `my`, `Mx` and `My`
pub record Corners : Type 0 where
  pub min_x : ℤ
  pub min_y : ℤ
  pub max_x : ℤ
  pub max_y : ℤ

-- The corners before the first tile: INT_MAX and INT_MIN
abbrev pub no_corners : Corners
no_corners = record {
  min_x = pos 2147483647;
  min_y = pos 2147483647;
  max_x = negsuc 2147483647;
  max_y = negsuc 2147483647;
}

unfoldable pub corners_loop : List Tile → Corners → Corners
corners_loop [] c = c
corners_loop (t ∷ ts) c = corners_loop ts (record {
  min_x = if ltb_ℤ t.x c.min_x then t.x else c.min_x;
  min_y = if ltb_ℤ t.y c.min_y then t.y else c.min_y;
  max_x = if ltb_ℤ c.max_x t.x then t.x else c.max_x;
  max_y = if ltb_ℤ c.max_y t.y then t.y else c.max_y;
})

-- The tests of the branches for the origins, and the offsets `ox` and `oy`.
abbrev pub is_top_left : GridOrigin → Corners → Tile → Bool
is_top_left bottom_left c t = t.x ==ℤ c.min_x && t.y ==ℤ c.max_y
is_top_left top_left c t = t.x ==ℤ c.min_x && t.y ==ℤ c.min_y
is_top_left bottom_right c t = t.x ==ℤ c.max_x && t.y ==ℤ c.max_y
is_top_left top_right c t = t.x ==ℤ c.max_x && t.y ==ℤ c.min_y

-- `toplefttile` after the loop: the last tile that the test holds of.
unfoldable pub top_left_loop : GridOrigin → Corners → List Tile → Option Tile → Option Tile
top_left_loop o c [] found = found
top_left_loop o c (t ∷ ts) found =
    top_left_loop o c ts (if is_top_left o c t then some t else found)

columns_before : GridOrigin → Corners → Tile → ℤ
columns_before bottom_left c t = t.x -ℤ c.min_x
columns_before top_left c t = t.x -ℤ c.min_x
columns_before _ c t = c.max_x -ℤ t.x

rows_before : GridOrigin → Corners → Tile → ℤ
rows_before top_left c t = t.y -ℤ c.min_y
rows_before top_right c t = t.y -ℤ c.min_y
rows_before _ c t = c.max_y -ℤ t.y

offset_of : GridOrigin → Corners → Image → Tile → ℤ
unfolding columns_before rows_before
offset_of o c img t =
    let g = t.grid_link.grid in
    let ox = columns_before o c t *ℤ pos g.tile_sx in
    let oy = rows_before o c t *ℤ pos g.tile_sy in oy *ℤ pos img.stride +ℤ ox *ℤ pos 4

write_bytes : List ℕ → ℕ → List ℕ → List ℕ
write_bytes m d [] = m
write_bytes m d (b ∷ bs) = write_bytes (set m d b) (d + 1) bs

-- The loop with `memcpy`, with `n` rows left.
copy_rows : Image → ℕ → ℕ → ℕ → ℕ → List ℕ → List ℕ
unfolding write_bytes
copy_rows raw s d stride zero m = m
copy_rows raw s d stride (suc n) m =
    copy_rows raw (s + raw.stride) (d + stride) stride n
      (write_bytes m d (take raw.stride (drop s raw.pixels)))

-- An image without pixels, as `calloc` makes it.
blank_image : ℕ → ℕ → Image
blank_image w h = record create { w = w; h = h; stride = w * 4; pixels = replicate (w * h * 4) 0 }

module _ (env : Painter) where
  copy_data : Tile → Image → ℕ → Context → Image × Context
  unfolding copy_rows
  copy_data t img d ctx = elim t.raw_image [
    | none ↦
        let fake : Image = record create { stride = img.stride; pixels = drop d img.pixels } in
        let (decoded, ctx') = env.decode_to_image t.encoded_data fake ctx in
        (record img { pixels = take d img.pixels ++ decoded.pixels }, ctx')
    | some raw ↦ (record img { pixels = copy_rows raw 0 d img.stride raw.h img.pixels }, ctx)
  ]

  copy_at : ℤ → Tile → Image → Context → Option (Image × Context)
  unfolding copy_data
  copy_at (pos d) t img ctx = some (copy_data t img d ctx)
  copy_at (negsuc d) t img ctx = none

  copy_loop : GridOrigin → Corners → List Tile → Image → Context → Option (Image × Context)
  unfolding copy_at offset_of
  copy_loop o c [] img ctx = some (img, ctx)
  copy_loop o c (t ∷ ts) img ctx =
      if t.nodata
      then copy_loop o c ts img ctx
      else (do (img', ctx') ← copy_at (offset_of o c img t) t img ctx; copy_loop o c ts img' ctx')

  -- `fabs(f - 1) < 0.0001`
  near_one : Fraction → Bool
  near_one f = ltb (abs_ℤ (f.num -ℤ pos f.den) * 10000) f.den

  resampled : ResampleMode → Image → Image → Fraction → Fraction → Fraction → Fraction → Image
  unfolding copy_resampled_nearest
  resampled bilinear = env.copy_bilinear
  resampled nearest = copy_resampled_nearest

  -- `copy/scale the srcimage onto the destination image`
  scaled : ResampleMode → Extent → Extent → GridLevel → Image → Image → Option Image
  unfolding near_one resampled
  scaled mode bbox tilebbox l src image =
      let dx = pos_part (bbox.maxx -ℤ bbox.minx) in
      let dy = pos_part (bbox.maxy -ℤ bbox.miny) in
      let off_x : Fraction = record {
        num = (tilebbox.minx -ℤ bbox.minx) *ℤ pos image.w;
        den = dx;
      } in
      let off_y : Fraction = record {
        num = (bbox.maxy -ℤ tilebbox.maxy) *ℤ pos image.h;
        den = dy;
      } in
      let hf : Fraction = record { num = pos (l.resolution * image.w); den = dx } in
      let vf : Fraction = record { num = pos (l.resolution * image.h); den = dy } in
      if dx == 0 || (dy == 0 || l.resolution == 0)
      then none
      else some (
          resampled (if near_one hf && near_one vf then nearest else mode) src image off_x off_y hf
            vf)

  -- `mapcache_tileset_assemble_map_tiles`
  unfoldable pub assemble_map_tiles :
      GridLink → Extent → ℕ → ℕ → ResampleMode → List Tile → Context → Option (Image × Context)
  unfolding blank_image corners_loop top_left_loop copy_loop scaled
  assemble_map_tiles link bbox width height mode [] ctx = some (blank_image width height, ctx)
  assemble_map_tiles link bbox width height mode (t ∷ ts) ctx = do
    let c = corners_loop (t ∷ ts) no_corners
    let g = t.grid_link.grid
    let columns = pos_part (c.max_x -ℤ c.min_x +ℤ pos 1)
    let rows = pos_part (c.max_y -ℤ c.min_y +ℤ pos 1)
    (src, ctx') ←
        copy_loop link.grid.origin c (t ∷ ts) (blank_image (columns * g.tile_sx) (rows * g.tile_sy))
          ctx
    first ← top_left_loop link.grid.origin c (t ∷ ts) none
    l ← at first.grid_link.grid.levels first.z
    let zero_box : Extent = record { minx = pos 0; miny = pos 0; maxx = pos 0; maxy = pos 0 }
    (ctx'', tilebbox) ← get_extent ctx' first.grid_link.grid first.x first.y first.z zero_box
    image ← scaled mode bbox tilebbox l src (blank_image width height)
    some (image, ctx'')
