-- ===== src/Image/Nearest.antt =====
-- Resampling to the nearest pixel: `mapcache_image_copy_resampled_nearest` of lib/image.c, built without pixman.
--
-- The offsets and the scales are fractions with a denominator above 0, and the scales are above 0.
use mapcache.Base.{
  ℕ, zero, suc, ◌+◌, ◌*◌, ℤ, pos, negsuc, ◌+ℤ◌, ◌-ℤ◌, ◌*ℤ◌, quot_ℤ, Option, none, some, List, ltb,
  if◌then◌else◌, set,
}
use mapcache.Types.{Image}
use mapcache.Grid.Lookup.{Fraction}
use mapcache.Image.{byte}

-- `(int)(((n - off) / scale) + 0.5)`
source_of : Fraction → Fraction → ℕ → ℤ
source_of off scale n =
    quot_ℤ ((pos (n * off.den) -ℤ off.num) *ℤ pos (2 * scale.den) +ℤ pos off.den *ℤ scale.num)
      (pos (2 * off.den) *ℤ scale.num)

-- A number from 0 up to below `size`.
in_size : ℤ → ℕ → Option ℕ
in_size (pos n) size = if ltb n size then some n else none
in_size (negsuc n) size = none

-- The four bytes at `s` of the source, written to `d`.
copy_pixel : List ℕ → ℕ → ℕ → List ℕ → List ℕ
copy_pixel from s d m =
    set (set (set (set m d (byte from s)) (d + 1) (byte from (s + 1))) (d + 2) (byte from (s + 2)))
      (d + 3) (byte from (s + 3))

-- The loops over the columns and the rows of the destination, with `n` rounds left.
nearest_row : Image → Fraction → Fraction → ℕ → ℕ → ℕ → ℕ → List ℕ → List ℕ
unfolding source_of in_size copy_pixel
nearest_row src off scale srcy dstx d zero m = m
nearest_row src off scale srcy dstx d (suc n) m =
    nearest_row src off scale srcy (dstx + 1) (d + 4) n
      (elim (in_size (source_of off scale dstx) src.w) [
        | none ↦ m
        | some srcx ↦ copy_pixel src.pixels (srcy * src.stride + srcx * 4) d m
      ])

nearest_rows :
    Image → ℕ → ℕ → Fraction → Fraction → Fraction → Fraction → ℕ → ℕ → ℕ → List ℕ → List ℕ
unfolding source_of in_size nearest_row
nearest_rows src w stride off_x off_y scale_x scale_y dsty d zero m = m
nearest_rows src w stride off_x off_y scale_x scale_y dsty d (suc n) m =
    nearest_rows src w stride off_x off_y scale_x scale_y (dsty + 1) (d + stride) n
      (elim (in_size (source_of off_y scale_y dsty) src.h) [
        | none ↦ m
        | some srcy ↦ nearest_row src off_x scale_x srcy 0 d w m
      ])

-- `mapcache_image_copy_resampled_nearest`
unfoldable pub copy_resampled_nearest :
    Image → Image → Fraction → Fraction → Fraction → Fraction → Image
unfolding nearest_rows
copy_resampled_nearest src dst off_x off_y scale_x scale_y = record dst {
  pixels = nearest_rows src dst.w dst.stride off_x off_y scale_x scale_y 0 0 dst.h dst.pixels;
}
