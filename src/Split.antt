-- ===== src/Split.antt =====
-- `mapcache_image_metatile_split` of lib/image.c: a rendered metatile is cut into its tiles.
--
-- The images of the tiles point into the pixels of the metatile, so a watermark that is merged into one of
-- them is written into that memory. The loop passes the memory on, and the images are read off at its end.
-- Decoding belongs to libpng and libjpeg and is a parameter.
pub mod Offsets
pub mod Windows
pub mod Loop
pub mod Pixels
pub mod Kept
mod Tests
use Prim.Native.String.{String}
use mapcache.Base.{
  ℕ, zero, suc, ◌+◌, ◌*◌, ◌-◌, ℤ, pos, negsuc, ◌+ℤ◌, ◌-ℤ◌, ◌*ℤ◌, pos_part, Text, Bool, true, false,
  ◌&&◌, ◌||◌, Option, none, some, List, [], ◌∷◌, ◌++◌, if◌then◌else◌, ◌>>=◌, drop, take,
}
use mapcache.Context.{Context, set_error, check_error}
use mapcache.Types.{
  GridOrigin, top_left, bottom_left, bottom_right, top_right, Grid, Tileset, Tile, Map, Metatile,
  Image,
}
use mapcache.Image.{create, merge}
use mapcache.Tileset.Metatiles.{tiles_loop}

-- `sx` and `sy`: where the image of the tile in column `i` and row `j` begins in the map.
pub split_x : Map → ℕ → ℕ → ℤ
split_x m w i = m.tileset.metabuffer +ℤ pos i *ℤ pos w

pub split_y : Map → GridOrigin → ℕ → ℕ → ℤ
split_y m top_left h j = m.tileset.metabuffer +ℤ pos j *ℤ pos h
split_y m _ h j = m.height -ℤ (m.tileset.metabuffer +ℤ pos (j + 1) *ℤ pos h)

-- A place before the first pixel is undefined.
place_of : ℤ → Option ℕ
place_of (pos n) = some n
place_of (negsuc n) = none

-- `&(metatile->data[sy*metatile->stride + 4 * sx])`
pub data_place : Metatile → ℕ → ℕ × ℕ → Option ℕ
unfolding split_x split_y place_of
data_place mt stride (i, j) =
    let g = mt.map.grid_link.grid in
    place_of
      (split_y mt.map g.origin g.tile_sy j *ℤ pos stride +ℤ pos 4 *ℤ split_x mt.map g.tile_sx i)

-- The image of a tile, which points to the place `k` of the memory. An elevation keeps the size of the
-- whole metatile.
pub tile_image : Bool → Metatile → Image → List ℕ → ℕ → Image
tile_image elevation mt whole memory k =
    let g = mt.map.grid_link.grid in
    record create {
      w = if elevation then whole.w else g.tile_sx;
      h = if elevation then whole.h else g.tile_sy;
      stride = whole.stride;
      pixels = drop k memory;
      is_elevation = elevation;
    }

-- The memory of the metatile, the places of the images that are assigned, and the errors.
pub record Progress : Type 0 where
  pub memory : List ℕ
  pub places : List ℕ
  pub ctx : Context

-- The image at the place `k` after the watermark is merged into it, written back to the memory.
with_watermark : Bool → Option Image → Metatile → Image → ℕ → Progress → Progress
unfolding merge
with_watermark false (some mark) mt whole k p =
    let (img, ctx) = merge (tile_image false mt whole p.memory k) mark p.ctx in
    record p { memory = take k p.memory ++ img.pixels; ctx = ctx }
with_watermark _ _ mt whole k p = p

-- The two loops over the columns and rows, which end at the first error.
pub split_loop : Bool → Metatile → Image → List (ℕ × ℕ) → Progress → Option Progress
unfolding with_watermark
split_loop elevation mt whole [] p = some p
split_loop elevation mt whole (ij ∷ rest) p = do
  k ← data_place mt whole.stride ij
  let marked = with_watermark elevation mt.map.tileset.watermark mt whole k p
  let after = split_loop elevation mt whole rest (record marked { places = p.places ++ k ∷ [] })
  if check_error marked.ctx then some marked else after

-- The images of the tiles in the order of the array.
pub set_images : (ℕ → Image) → List ℕ → List Tile → List Tile
set_images image [] ts = ts
set_images image (k ∷ ks) [] = []
set_images image (k ∷ ks) (t ∷ ts) =
    record t { raw_image = some (image k) } ∷ set_images image ks ts

is_elevation : Option Image → Bool
is_elevation none = false
is_elevation (some img) = img.is_elevation

-- The metatile with its images, from what the loop made.
pub finished : Bool → Metatile → Image → Progress → Metatile × Context
unfolding set_images
finished elevation mt whole p = (
  record mt { tiles = set_images (tile_image elevation mt whole p.memory) p.places mt.tiles },
  p.ctx,
)

pub cut_progress : Bool → Metatile → Image → Context → Option Progress
unfolding split_loop
cut_progress elevation mt whole ctx =
    split_loop elevation mt whole
      (tiles_loop (λ i j. (i, j)) 0 (pos_part mt.metasize_x) (pos_part mt.metasize_y))
      (record { memory = whole.pixels; places = []; ctx = ctx })

pub cut : Bool → Metatile → Image → Context → Option (Metatile × Context)
unfolding cut_progress
cut elevation mt whole ctx =
    cut_progress elevation mt whole ctx >>= λ p. some (finished elevation mt whole p)

-- `mt->tiles[0].encoded_data = mt->map.encoded_data`; there is no first tile in an empty array.
set_first : Option Text → List Tile → Option (List Tile)
set_first encoded [] = none
set_first encoded (t ∷ ts) = some (record t { encoded_data = encoded } ∷ ts)

-- The metatile as it is decoded, or as the source rendered it.
whole_image :
    (Option Text → Context → Context × Option Image) → Map → Context → Context × Option Image
whole_image decode m ctx = elim m.raw_image [
  | none ↦ decode m.encoded_data ctx
  | some img ↦ (ctx, some img)
]

cut_found : Bool → Metatile → Context × Option Image → Option (Metatile × Context)
unfolding cut
cut_found elevation mt (ctx, none) =
    some (mt, set_error 500 "failed to load image data from metatile" ctx)
cut_found elevation mt (ctx, some whole) = cut elevation mt whole ctx

-- A tileset without a format: the first tile takes the data of the map.
first_only : Metatile → Context → Option (Metatile × Context)
unfolding set_first
first_only mt ctx =
    set_first mt.map.encoded_data mt.tiles >>= λ ts. some (record mt { tiles = ts }, ctx)

-- `mapcache_image_metatile_split`; no result is an access outside of the pixels or of the tiles.
unfoldable pub split :
    (Option Text → Context → Context × Option Image)
    → Metatile
    → Context
    → Option (Metatile × Context)
unfolding whole_image cut_found is_elevation first_only
split decode mt ctx = elim mt.map.tileset.format [
  | none ↦ first_only mt ctx
  | some f ↦ cut_found (is_elevation mt.map.raw_image) mt (whole_image decode mt.map ctx)
]
