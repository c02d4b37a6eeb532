-- ===== src/Image.antt =====
-- Raw images: `mapcache_image_create`, `mapcache_image_has_alpha`, `mapcache_image_merge` (without pixman) and
-- `mapcache_image_blank_color` of lib/image.c. The code reads and writes rows that its callers have
-- allocated; a read outside of the memory would be undefined, and here gives 0, and a write there is lost.
pub mod Blend
pub mod Scan
pub mod Nearest
mod Tests
use Prim.Native.String.{String}
use mapcache.Base.{
  ℕ, zero, suc, ◌+◌, ◌-◌, ◌*◌, ◌/◌, ◌%◌, Bool, true, false, not, ◌&&◌, ◌||◌, List, [], ◌∷◌, ltb,
  ◌==◌, if◌then◌else◌, get_or, set,
}
use mapcache.Context.{Context, set_error}
use mapcache.Types.{Image, Known, unknown, known_yes, known_no}

-- `mapcache_image_create`
abbrev pub create : Image
create = record {
  w = 0;
  h = 0;
  stride = 0;
  pixels = [];
  is_blank = unknown;
  has_alpha = unknown;
  is_elevation = false;
}

abbrev pub byte : List ℕ → ℕ → ℕ
byte m k = get_or m k 0

-- The first byte of the pixel in row `i` and column `j`.
abbrev pub pixel_at : Image → ℕ → ℕ → ℕ
pixel_at img i j = i * img.stride + j * 4

-- Is `test` true of some pixel of a row, from column `j` on, `n` columns; and of some row.
some_in_row : (ℕ → ℕ → Bool) → ℕ → ℕ → ℕ → Bool
some_in_row test i j zero = false
some_in_row test i j (suc n) = if test i j then true else some_in_row test i (j + 1) n

pub some_pixel : (ℕ → ℕ → Bool) → ℕ → ℕ → ℕ → Bool
unfolding some_in_row
some_pixel test i zero w = false
some_pixel test i (suc n) w = if some_in_row test i 0 w then true else some_pixel test (i + 1) n w

-- `ptr[3] < 255`
abbrev pub is_see_through : Image → ℕ → ℕ → Bool
is_see_through img i j = ltb (byte img.pixels (pixel_at img i j + 3)) 255

abbrev pub answer : Bool → Known
answer true = known_yes
answer false = known_no

abbrev pub is_yes : Known → Bool
is_yes known_yes = true
is_yes _ = false

alpha_of : Image → Known → Known
alpha_of img unknown = answer (some_pixel (is_see_through img) 0 img.h img.w)
alpha_of img k = k

-- `mapcache_image_has_alpha`: the image with what was found out, and the result as a condition of C. For an
-- elevation that is MC_ALPHA_NO, which is 2.
pub image_has_alpha : Image → Image × Bool
unfolding alpha_of
image_has_alpha img = if img.is_elevation then (img, true) else (
  record img { has_alpha = alpha_of img img.has_alpha },
  is_yes (alpha_of img img.has_alpha),
)

-- The four bytes of a pixel are not those of the first pixel.
abbrev pub differs_from_first : Image → ℕ → ℕ → Bool
differs_from_first img i j =
    let k = pixel_at img i j in
    not (
      byte img.pixels k == byte img.pixels 0
      && (byte img.pixels (k + 1) == byte img.pixels 1
          && (byte img.pixels (k + 2) == byte img.pixels 2
              && byte img.pixels (k + 3) == byte img.pixels 3)))

blank_of : Image → Known → Known
blank_of img unknown = answer (not (some_pixel (differs_from_first img) 0 img.h img.w))
blank_of img k = k

-- `mapcache_image_blank_color`
pub blank_color : Image → Image × Bool
unfolding blank_of
blank_color img =
    if img.is_elevation
    then (img, false)
    else (record img { is_blank = blank_of img img.is_blank }, is_yes (blank_of img img.is_blank))

-- One colour byte of the base under an overlay with alpha `oa`, and the alpha byte.
pub blend_byte : ℕ → ℕ → ℕ → ℕ
blend_byte o b oa = (o + (255 - oa) * b / 256) % 256

-- The four bytes at `o` of the overlay on the four bytes at `b` of the base.
pub merge_pixel : List ℕ → ℕ → ℕ → List ℕ → List ℕ
unfolding blend_byte
merge_pixel over o b m =
    let oa = byte over (o + 3) in
    if oa == 0
    then m
    else if oa == 255
    then (set
        (set (set (set m b (byte over o)) (b + 1) (byte over (o + 1))) (b + 2) (byte over (o + 2)))
        (b + 3) oa)
    else (set
        (set
          (set (set m b (blend_byte (byte over o) (byte m b) oa)) (b + 1)
            (blend_byte (byte over (o + 1)) (byte m (b + 1)) oa))
          (b + 2) (blend_byte (byte over (o + 2)) (byte m (b + 2)) oa))
        (b + 3) (blend_byte oa (byte m (b + 3)) oa))

-- The loops over the `n` columns and the `n` rows of the overlay that are left.
merge_row : List ℕ → ℕ → ℕ → ℕ → List ℕ → List ℕ
unfolding merge_pixel
merge_row over o b zero m = m
merge_row over o b (suc n) m = merge_row over (o + 4) (b + 4) n (merge_pixel over o b m)

merge_rows : Image → ℕ → ℕ → ℕ → ℕ → List ℕ → List ℕ
unfolding merge_row
merge_rows overlay stride o b zero m = m
merge_rows overlay stride o b (suc n) m =
    merge_rows overlay stride (o + overlay.stride) (b + stride) n
      (merge_row overlay.pixels o b overlay.w m)

-- `mapcache_image_merge`
unfoldable pub merge : Image → Image → Context → Image × Context
unfolding merge_rows
merge base overlay ctx =
    if base.is_elevation || overlay.is_elevation
    then (base, ctx)
    else if ltb base.w overlay.w || ltb base.h overlay.h
    then (base, set_error 500 "attempting to merge an larger image onto another" ctx)
    else (
      record base {
        pixels =
            merge_rows overlay base.stride 0
              ((base.h - overlay.h) / 2 * base.stride + (base.w - overlay.w) / 2 * 4) overlay.h
              base.pixels;
      },
      ctx,
    )
