-- ===== src/Split/Pixels.antt =====
-- The pixels of the tiles after a metatile without a watermark is split.
use mapcache.Base.{
  ℕ, ◌+◌, ◌*◌, ◌<◌, pos, ◌+ℤ◌, ◌*ℤ◌, pos+pos, pos*pos, subst, pos_part, Text, false, ◌≡◌, refl, ap,
  ap₂, sym, ◌∙◌, Option, none, some, List, [], get_elem?, length, arith, map, ◌>>=◌,
}
use mapcache.Context.{Context, check_error}
use mapcache.Types.{GridLevel, Image, ImageFormat, Tile, Metatile}
use mapcache.Image.{byte, pixel_at}
use mapcache.Tileset.Metatiles.{tiles_loop, subtile, metatile_at, metatile_on}
use mapcache.Tileset.Metatiles.Blocks.{
  length-tiles_loop, get_elem?-tiles_loop, tiles_loop_all, OnLevel, blx, bly, sx, sy,
  metatile_on-Numbers,
}
use mapcache.Split.Windows.{Window, pixel_row, split-Window}
use mapcache.Split.Loop.{
  byte-drop, loop-plain, set_images-entry, length-set_images, get_elem?-map, rendered,
  split-rendered, split_y-rendered,
}
use mapcache.Split.{
  place_of, data_place, tile_image, Progress, split_loop, set_images, finished, cut, cut_progress,
  split,
}

module _ (t : Tile) (l : GridLevel) (v : OnLevel t l) (b : ℕ)
    (buffer : t.tileset.metabuffer ≡ pos b) where
  abbrev tx : ℕ
  tx = t.grid_link.grid.tile_sx

  abbrev ty : ℕ
  ty = t.grid_link.grid.tile_sy

  abbrev own : Image → Metatile
  own img = rendered (metatile_on t l) img

  -- What the metatile holds for the tile in column `i` and row `j`, whose first pixel is (px, py): an image
  -- of the size of a tile, with the bytes that stand around that pixel in the whole image.
  pub record Part (img : Image) (mt : Metatile) (i j px py : ℕ) : Type 0 where
    pub entry : Tile
    pub image : Image
    pub stands : get_elem? mt.tiles (i * sy t l v + j) ≡ some entry
    pub column : entry.x ≡ pos (blx t l v + i)
    pub row : entry.y ≡ pos (bly t l v + j)
    pub has_image : entry.raw_image ≡ some image
    pub size : (image.w ≡ tx) × (image.h ≡ ty)
    pub bytes :
        (y x q : ℕ)
        → byte image.pixels (pixel_at image y x + q)
          ≡ byte img.pixels (pixel_at img (py + y) (px + x) + q)

  pub record Parts (img : Image) (mt : Metatile) (i j : ℕ) : Type 0 where
    pub px : ℕ
    pub py : ℕ
    pub window : Window t l v b buffer i j px py
    pub part : Part img mt i j px py

  abbrev top : ℕ → ℕ
  top j = pixel_row t l v b buffer j t.grid_link.grid.origin

  place : Image → ℕ × ℕ → ℕ
  place img (i, j) = top j * img.stride + 4 * (b + i * tx)

  module _ (img : Image) where
    data_place-rendered :
        (i j : ℕ)
        → i < sx t l v
        → j < sy t l v
        → data_place (own img) img.stride (i, j) ≡ some (place img (i, j))
    unfolding data_place metatile_at place_of place
    data_place-rendered i j p q =
        let w = split-Window t l v b buffer i j p q in
        ap₂ (λ Y X. place_of (Y *ℤ pos img.stride +ℤ pos 4 *ℤ X))
          (split_y-rendered (metatile_on t l).map (some img) t.grid_link.grid.origin ty j
            ∙ w.starts_y)
          w.starts_x
        ∙ ap place_of (
            ap₂ ◌+ℤ◌ (pos*pos (top j) img.stride) (pos*pos 4 (b + i * tx))
            ∙ pos+pos (top j * img.stride) (4 * (b + i * tx)))

    open (metatile_on-Numbers t l v) use {columns, rows, count, tiles}

    abbrev indices : List (ℕ × ℕ)
    indices = tiles_loop (λ i j. (i, j)) 0 (sx t l v) (sy t l v)

    places_found :
        (n : ℕ) (ij : ℕ × ℕ)
        → get_elem? indices n ≡ some ij
        → data_place (own img) img.stride ij ≡ some (place img ij)
    places_found n ij h =
        let (i, j, a, c, d, e) = tiles_loop_all (λ i j. (i, j)) 0 (sx t l v) (sy t l v) n h in
        subst (λ x. data_place (own img) img.stride x ≡ some (place img x)) (sym e)
          (data_place-rendered i j (omega arith) d)

    -- The metatile after its split.
    abbrev parted : Metatile
    parted = record (own img) {
      tiles =
          set_images (tile_image false (own img) img img.pixels) (map (place img) indices)
            (metatile_on t l).tiles;
    }

    own_tileset : (own img).map.tileset ≡ t.tileset
    unfolding metatile_at
    own_tileset = refl

    cut-rendered :
        (plain : t.tileset.watermark ≡ none) (ctx : Context)
        → check_error ctx ≡ false
        → cut false (own img) img ctx ≡ some (parted, ctx)
    unfolding cut cut_progress finished
    cut-rendered plain ctx e =
        (λ k.
          split_loop false (own img) img
            (tiles_loop (λ i j. (i, j)) 0 (pos_part (columns k)) (pos_part (rows k))) start
          >>= λ p. some (finished false (own img) img p))
        ∙ ap (λ m. m >>= λ p. some (finished false (own img) img p))
            (loop-plain (own img) img (ap (λ ts. ts.watermark) own_tileset ∙ plain) false
              (place img) indices start e places_found)
      where
        start : Progress
        start = record { memory = img.pixels; places = []; ctx = ctx }

    abbrev own_tile : ℕ → ℕ → Tile
    own_tile i j = subtile t (pos (blx t l v + i)) (pos (bly t l v + j))

    parted-length : length parted.tiles ≡ sx t l v * sy t l v
    parted-length =
        length-set_images (tile_image false (own img) img img.pixels) (map (place img) indices)
          (metatile_on t l).tiles
        ∙ ap length tiles
        ∙ length-tiles_loop own_tile 0 (sx t l v) (sy t l v)

    ring_place :
        (y px s py x q : ℕ)
        → py * s + 4 * px + (y * s + x * 4 + q) ≡ (py + y) * s + (px + x) * 4 + q
    ring_place y px s py x q = grind arith

    tile_stands :
        (i j : ℕ)
        → i < sx t l v
        → j < sy t l v
        → get_elem? (metatile_on t l).tiles (i * sy t l v + j) ≡ some (own_tile i j)
    tile_stands i j p q =
        ap (λ ts. get_elem? ts (i * sy t l v + j)) tiles
        ∙ get_elem?-tiles_loop own_tile 0 i (sx t l v) (sy t l v) j p q
        ∙ ap (λ n. some (own_tile n j)) (omega arith)

    place_stands :
        (i j : ℕ)
        → i < sx t l v
        → j < sy t l v
        → get_elem? (map (place img) indices) (i * sy t l v + j) ≡ some (place img (i, j))
    place_stands i j p q = get_elem?-map (place img) indices (i * sy t l v + j) (
        get_elem?-tiles_loop (λ i j. (i, j)) 0 i (sx t l v) (sy t l v) j p q
        ∙ ap (λ n. some (n, j)) (omega arith))

    image_size :
        (k : ℕ)
        → ((tile_image false (own img) img img.pixels k).w ≡ tx)
          × ((tile_image false (own img) img img.pixels k).h ≡ ty)
    unfolding tile_image metatile_at
    image_size k = (refl, refl)

    parted-Part : (i j : ℕ) → i < sx t l v → j < sy t l v → Part img parted i j (b + i * tx) (top j)
    unfolding tile_image place
    parted-Part i j p q = record {
      entry = record (own_tile i j) {
        raw_image = some (tile_image false (own img) img img.pixels (place img (i, j)));
      };
      image = tile_image false (own img) img img.pixels (place img (i, j));
      stands =
          set_images-entry (tile_image false (own img) img img.pixels) (map (place img) indices)
            (metatile_on t l).tiles (i * sy t l v + j) (place img (i, j)) (own_tile i j)
            (place_stands i j p q) (tile_stands i j p q);
      column = refl;
      row = refl;
      has_image = refl;
      size = image_size (place img (i, j));
      bytes = λ y x k.
          byte-drop (place img (i, j)) (y * img.stride + x * 4 + k) img.pixels
          ∙ ap (byte img.pixels) (ring_place y (b + i * tx) img.stride (top j) x k);
    }

    parted-Parts : (i j : ℕ) → i < sx t l v → j < sy t l v → Parts img parted i j
    parted-Parts i j p q = record {
      px = b + i * tx;
      py = top j;
      window = split-Window t l v b buffer i j p q;
      part = parted-Part i j p q;
    }

    -- Splitting the metatile of a tile after its map is rendered, for an image that is not an elevation and
    -- a tileset that has a format and no watermark, succeeds whatever the pixels are, if no error is set.
    -- Each tile of the metatile then has an image of the size of a tile, whose bytes are those of the map
    -- from the tile's window on.
    pub split-Parts :
        (decode : Option Text → Context → Context × Option Image) (ctx : Context)
        (format : ImageFormat)
        → check_error ctx ≡ false
        → t.tileset.format ≡ some format
        → t.tileset.watermark ≡ none
        → img.is_elevation ≡ false
        → (mt : Metatile) × (split decode (own img) ctx ≡ some (mt, ctx))
          × (length mt.tiles ≡ sx t l v * sy t l v)
          × (mt.ntiles ≡ pos (sx t l v * sy t l v))
          × ((i j : ℕ) → i < sx t l v → j < sy t l v → Parts img mt i j)
    split-Parts decode ctx format e f plain flat = (
      parted,
      split-rendered decode (metatile_on t l) img ctx (ap (λ ts. ts.format) own_tileset ∙ f) flat
          ∙ cut-rendered plain ctx e,
      parted-length,
      count,
      parted-Parts,
    )
