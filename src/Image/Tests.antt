-- ===== src/Image/Tests.antt =====
-- Runs of the image operations, and the theorems about them at concrete inputs.
use mapcache.Base.{◌≡◌, refl, true, false, [], ◌∷◌}
use mapcache.Context.{init}
use mapcache.Types.{Image}
use mapcache.Image.{create, image_has_alpha, blank_color, merge}
use mapcache.Image.Scan.{
  Answered, NotOpaque, Differs, image_has_alpha-Answered, blank_color-Answered,
}

-- One row of two pixels, the second one half transparent.
abbrev two_pixels : Image
two_pixels = record create {
  w = 2;
  h = 1;
  stride = 8;
  pixels = 10 ∷ 20 ∷ 30 ∷ 255 ∷ 40 ∷ 50 ∷ 60 ∷ 128 ∷ [];
}

abbrev one_pixel : Image
one_pixel = record create { w = 1; h = 1; stride = 4; pixels = 7 ∷ 8 ∷ 9 ∷ 128 ∷ [] }

-- An overlay of one pixel is centred, here onto the first pixel.
merged_pixels :
    (merge two_pixels one_pixel init).0.pixels ≡ 11 ∷ 17 ∷ 23 ∷ 254 ∷ 40 ∷ 50 ∷ 60 ∷ 128 ∷ []
unfolding merge
merged_pixels = refl

image_has_alpha-Answered_example : Answered two_pixels (NotOpaque two_pixels) image_has_alpha true
image_has_alpha-Answered_example = image_has_alpha-Answered two_pixels refl refl

blank_color-Answered_example : Answered two_pixels (Differs two_pixels) blank_color false
blank_color-Answered_example = blank_color-Answered two_pixels refl refl
