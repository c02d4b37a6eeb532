-- ===== src/Image/Blend.antt =====
-- The arithmetic of `mapcache_image_merge` on colours that are multiplied by their alpha.
use mapcache.Base.{ℕ, ◌+◌, ◌-◌, ◌*◌, ◌/◌, ◌≤◌, ◌≡◌, arith}
use mapcache.Image.{blend_byte}

scaled : (k b a : ℕ) → b ≤ a → k * b / 256 ≤ k * a / 256
scaled k b a h = let e : k * b ≤ k * a = grind arith in omega arith

small : (k b : ℕ) → b ≤ 255 → k * b / 256 ≤ k
small k b h = let e : k * b ≤ k * 255 = grind arith in omega arith

no_wrap : (o b oa : ℕ) → o ≤ oa → oa ≤ 255 → b ≤ 255 → blend_byte o b oa ≡ o + (255 - oa) * b / 256
unfolding blend_byte
no_wrap o b oa h k m = omega (arith, small (255 - oa) b m)

-- For bytes of an overlay and of a base that are multiplied by their alpha, blending does not wrap around,
-- and the result is multiplied by its alpha again: no colour exceeds the blended alpha, which is a byte and
-- not below the alpha of the overlay.
pub blend_byte_lem :
    (o b oa ba : ℕ)
    → o ≤ oa
    → oa ≤ 255
    → b ≤ ba
    → ba ≤ 255
    → (blend_byte o b oa ≡ o + (255 - oa) * b / 256)
      × (blend_byte o b oa ≤ blend_byte oa ba oa)
      × (blend_byte oa ba oa ≤ 255)
      × (oa ≤ blend_byte oa ba oa)
blend_byte_lem o b oa ba h k m n = (
  no_wrap o b oa h k (omega arith),
  omega (
    arith,
    no_wrap o b oa h k (omega arith),
    no_wrap oa ba oa (omega arith) k n,
    scaled (255 - oa) b ba m,
  ),
  omega (arith, no_wrap oa ba oa (omega arith) k n, small (255 - oa) ba n),
  omega (arith, no_wrap oa ba oa (omega arith) k n),
)
