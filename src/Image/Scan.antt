-- ===== src/Image/Scan.antt =====
-- What `mapcache_image_has_alpha` and `mapcache_image_blank_color` find out about an image.
use mapcache.Base.{
  ℕ, zero, suc, ◌+◌, ◌*◌, ◌≤◌, ◌<◌, ◌==◌, ◌≢◌, ◌&&◌, List, Bool, true, false, not, ◌≡◌, refl, ap,
  sym, subst, ◌∙◌, Bool-cases, if_cases, ◌⊎◌, inl, inr, arith,
}
use native.Mathlib.Decide.{dec_lt}
use mapcache.Types.{Image, unknown}
use mapcache.Image.{
  some_in_row, some_pixel, is_see_through, answer, alpha_of, image_has_alpha, differs_from_first,
  blank_of, blank_color, byte,
}

module _ (test : ℕ → ℕ → Bool) where
  some_in_row_sound :
      (i j n : ℕ) → some_in_row test i j n ≡ true → (c : ℕ) × (c < j + n) × (test i c ≡ true)
  unfolding some_in_row
  some_in_row_sound i j zero e = cc
  some_in_row_sound i j (suc n) e = elim (if_cases (test i j) e) [
    | inl (t, _) ↦ (j, omega arith, t)
    | inr (_, f) ↦ let (c, b, t) = some_in_row_sound i (j + 1) n f in (c, omega arith, t)
  ]

  -- Where it is false, it is false of all.
  some_in_row_complete :
      (i j n c : ℕ) → some_in_row test i j n ≡ false → j ≤ c → c < j + n → test i c ≡ false
  unfolding some_in_row
  some_in_row_complete i j zero c e a b = absurd (omega arith)
  some_in_row_complete i j (suc n) c e a b = elim (if_cases (test i j) e) [
    | inl (_, f) ↦ cc
    | inr (f, g) ↦ elim (dec_lt j c) [
      | yes later ↦ some_in_row_complete i (j + 1) n c g (omega (arith, later)) (omega arith)
      | no here ↦ ap (test i) (let e : c ≡ j = omega (arith, here) in e) ∙ f
    ]
  ]

  some_pixel_sound :
      (i n w : ℕ)
      → some_pixel test i n w ≡ true
      → (r : ℕ) × (c : ℕ) × (r < i + n) × (c < w) × (test r c ≡ true)
  unfolding some_pixel
  some_pixel_sound i zero w e = cc
  some_pixel_sound i (suc n) w e = elim (if_cases (some_in_row test i 0 w) e) [
    | inl (t, _) ↦ let (c, b, f) = some_in_row_sound i 0 w t in (i, c, omega arith, omega arith, f)
    | inr (_, f) ↦ let (r, c, a, b, g) = some_pixel_sound (i + 1) n w f in (r, c, omega arith, b, g)
  ]

  some_pixel_complete :
      (i n w r c : ℕ) → some_pixel test i n w ≡ false → i ≤ r → r < i + n → c < w → test r c ≡ false
  unfolding some_pixel
  some_pixel_complete i zero w r c e a b d = absurd (omega arith)
  some_pixel_complete i (suc n) w r c e a b d = elim (if_cases (some_in_row test i 0 w) e) [
    | inl (_, f) ↦ cc
    | inr (f, g) ↦ elim (dec_lt i r) [
      | yes later ↦ some_pixel_complete (i + 1) n w r c g (omega (arith, later)) (omega arith) d
      | no here ↦
          ap (λ x. test x c) (let e : r ≡ i = omega (arith, here) in e)
          ∙ some_in_row_complete i 0 w c f (omega arith) (omega arith)
    ]
  ]

-- What a search of the whole image has found: a pixel, or none.
abbrev pub Found : Image → (ℕ → ℕ → Bool) → Type 0
Found img test = (r : ℕ) × (c : ℕ) × (r < img.h) × (c < img.w) × (test r c ≡ true)

abbrev pub NotFound : Image → (ℕ → ℕ → Bool) → Type 0
NotFound img test = (r c : ℕ) → r < img.h → c < img.w → test r c ≡ false

search :
    (img : Image) (test : ℕ → ℕ → Bool)
    → ((some_pixel test 0 img.h img.w ≡ true) × Found img test)
      ⊎ ((some_pixel test 0 img.h img.w ≡ false) × NotFound img test)
search img test = elim (Bool-cases (some_pixel test 0 img.h img.w)) [
  | inl e ↦
      let (r, c, a, b, t) = some_pixel_sound test 0 img.h img.w e in
      inl (e, (r, c, omega (arith, a), b, t))
  | inr e ↦ inr (
    e,
    λ r c a b. some_pixel_complete test 0 img.h img.w r c e (omega arith) (omega (arith, a)) b,
  )
]

alpha-asked :
    (img : Image) (b : Bool)
    → img.is_elevation ≡ false
    → img.has_alpha ≡ unknown
    → some_pixel (is_see_through img) 0 img.h img.w ≡ b
    → (image_has_alpha img ≡ (record img { has_alpha = answer b }, b))
      × (image_has_alpha (record img { has_alpha = answer b })
          ≡ (record img { has_alpha = answer b }, b))
unfolding image_has_alpha alpha_of
alpha-asked img true e u p = (rw (e, u, p) refl, rw e refl)
alpha-asked img false e u p = (rw (e, u, p) refl, rw e refl)

-- A pixel of an image with a property, and none.
abbrev pub Some : Image → (ℕ → ℕ → Type 0) → Type 0
Some img P = (r : ℕ) × (c : ℕ) × (r < img.h) × (c < img.w) × P r c

abbrev pub None : Image → (ℕ → ℕ → Type 0) → Type 0
None img P = (r c : ℕ) → r < img.h → c < img.w → P r c → ⊥

-- The answer of `ask` about an image: `found` if some pixel has the property.
pub record Answered (img : Image) (P : ℕ → ℕ → Type 0) (ask : Image → Image × Bool) (found : Bool)
    : Type 0 where
  pub right : (((ask img).1 ≡ found) × Some img P) ⊎ (((ask img).1 ≡ not found) × None img P)
  pub again : ask (ask img).0 ≡ ask img

-- The pixel in row `r` and column `c` is not opaque: its fourth byte, the alpha, is below 255.
abbrev pub NotOpaque : Image → ℕ → ℕ → Type 0
NotOpaque img r c = byte img.pixels (r * img.stride + c * 4 + 3) < 255

-- One of the four bytes of the pixel in row `r` and column `c` is not that of the first pixel.
abbrev pub Differs : Image → ℕ → ℕ → Type 0
Differs img r c =
    (k : ℕ) × (k < 4) × (byte img.pixels (r * img.stride + c * 4 + k) ≢ byte img.pixels k)

see_through_sound : (img : Image) (r c : ℕ) → is_see_through img r c ≡ true → NotOpaque img r c
see_through_sound img r c e = ground arith

see_through_complete :
    (img : Image) (r c : ℕ) → is_see_through img r c ≡ false → NotOpaque img r c → ⊥
see_through_complete img r c e h = ground arith

first_different :
    (a b c d a' b' c' d' : ℕ)
    → not (a == a' && (b == b' && (c == c' && d == d'))) ≡ true
    → (a ≢ a') ⊎ ((b ≢ b') ⊎ ((c ≢ c') ⊎ (d ≢ d')))
first_different a b c d a' b' c' d' e = elim (Bool-cases (a == a')) [
  | inr n ↦ inl (λ f. ground (arith, n))
  | inl p ↦ elim (Bool-cases (b == b')) [
    | inr n ↦ inr (inl (λ f. ground (arith, n)))
    | inl q ↦ elim (Bool-cases (c == c')) [
      | inr n ↦ inr (inr (inl (λ f. ground (arith, n))))
      | inl r ↦ inr (inr (inr (λ f. ground (arith, e, p, q, r))))
    ]
  ]
]

plus_zero : (n : ℕ) → n ≡ n + 0
plus_zero n = omega arith

Differs-sound : (img : Image) (r c : ℕ) → differs_from_first img r c ≡ true → Differs img r c
Differs-sound img r c e =
    let k = r * img.stride + c * 4 in
    let m = img.pixels in
    elim (first_different (byte m k) (byte m (k + 1)) (byte m (k + 2)) (byte m (k + 3)) (byte m 0)
      (byte m 1) (byte m 2) (byte m 3) e) [
        | inl n ↦ (0, omega arith, subst (λ q. byte m q ≢ byte m 0) (plus_zero k) n)
        | inr (inl n) ↦ (1, omega arith, n)
        | inr (inr (inl n)) ↦ (2, omega arith, n)
        | inr (inr (inr n)) ↦ (3, omega arith, n)
      ]

all_same :
    (a b c d a' b' c' d' : ℕ)
    → not (a == a' && (b == b' && (c == c' && d == d'))) ≡ false
    → (a ≡ a') × (b ≡ b') × (c ≡ c') × (d ≡ d')
all_same a b c d a' b' c' d' e = (ground arith, ground arith, ground arith, ground arith)

Differs-complete :
    (img : Image) (r c : ℕ) → differs_from_first img r c ≡ false → Differs img r c → ⊥
Differs-complete img r c e (k, h, n) =
    let p = r * img.stride + c * 4 in
    let m = img.pixels in
    let (s, t, u, v) =
      all_same (byte m p) (byte m (p + 1)) (byte m (p + 2)) (byte m (p + 3)) (byte m 0) (byte m 1)
        (byte m 2) (byte m 3) e in
    by_place m p k h s t u v n
  where
    by_place :
        (m : List ℕ) (p k : ℕ)
        → k < 4
        → byte m p ≡ byte m 0
        → byte m (p + 1) ≡ byte m 1
        → byte m (p + 2) ≡ byte m 2
        → byte m (p + 3) ≡ byte m 3
        → byte m (p + k) ≢ byte m k
        → ⊥
    by_place m p zero h s t u v n = n (ap (byte m) (sym (plus_zero p)) ∙ s)
    by_place m p (suc zero) h s t u v n = n t
    by_place m p (suc (suc zero)) h s t u v n = n u
    by_place m p (suc (suc (suc zero))) h s t u v n = n v
    by_place m p (suc (suc (suc (suc k)))) h s t u v n = omega arith

some_of :
    (img : Image) (test : ℕ → ℕ → Bool) (P : ℕ → ℕ → Type 0)
    → ((r c : ℕ) → test r c ≡ true → P r c)
    → Found img test
    → Some img P
some_of img test P sound (r, c, a, b, t) = (r, c, a, b, sound r c t)

none_of :
    (img : Image) (test : ℕ → ℕ → Bool) (P : ℕ → ℕ → Type 0)
    → ((r c : ℕ) → test r c ≡ false → P r c → ⊥)
    → NotFound img test
    → None img P
none_of img test P complete f r c a b = complete r c (f r c a b)

-- For an image of which nothing is known yet and that is no elevation: the answer about transparency is
-- yes, and there is a pixel of the image whose alpha byte is below 255, or no, and there is none. The
-- image remembers the answer, so asking it again gives the same.
pub image_has_alpha-Answered :
    (img : Image)
    → img.is_elevation ≡ false
    → img.has_alpha ≡ unknown
    → Answered img (NotOpaque img) image_has_alpha true
image_has_alpha-Answered img e u = elim (search img (is_see_through img)) [
  | inl (p, f) ↦
      let (a, b) = alpha-asked img true e u p in
      record {
        right = inl (
          ap (λ x. x.1) a,
          some_of img (is_see_through img) (NotOpaque img) (see_through_sound img) f,
        );
        again = ap (λ x. image_has_alpha x.0) a ∙ b ∙ sym a;
      }
  | inr (p, f) ↦
      let (a, b) = alpha-asked img false e u p in
      record {
        right = inr (
          ap (λ x. x.1) a,
          none_of img (is_see_through img) (NotOpaque img) (see_through_complete img) f,
        );
        again = ap (λ x. image_has_alpha x.0) a ∙ b ∙ sym a;
      }
]

blank-asked :
    (img : Image) (b : Bool)
    → img.is_elevation ≡ false
    → img.is_blank ≡ unknown
    → some_pixel (differs_from_first img) 0 img.h img.w ≡ b
    → (blank_color img ≡ (record img { is_blank = answer (not b) }, not b))
      × (blank_color (record img { is_blank = answer (not b) })
          ≡ (record img { is_blank = answer (not b) }, not b))
unfolding blank_color blank_of
blank-asked img true e u p = (rw (e, u, p) refl, rw e refl)
blank-asked img false e u p = (rw (e, u, p) refl, rw e refl)

-- For an image of which nothing is known yet and that is no elevation: the answer whether it has one colour
-- only is no, and there is a pixel of the image that differs from the first one in one of its four bytes,
-- or yes, and there is none.
-- The image remembers the answer, so asking it again gives the same.
pub blank_color-Answered :
    (img : Image)
    → img.is_elevation ≡ false
    → img.is_blank ≡ unknown
    → Answered img (Differs img) blank_color false
blank_color-Answered img e u = elim (search img (differs_from_first img)) [
  | inl (p, f) ↦
      let (a, b) = blank-asked img true e u p in
      record {
        right = inl (
          ap (λ x. x.1) a,
          some_of img (differs_from_first img) (Differs img) (Differs-sound img) f,
        );
        again = ap (λ x. blank_color x.0) a ∙ b ∙ sym a;
      }
  | inr (p, f) ↦
      let (a, b) = blank-asked img false e u p in
      record {
        right = inr (
          ap (λ x. x.1) a,
          none_of img (differs_from_first img) (Differs img) (Differs-complete img) f,
        );
        again = ap (λ x. blank_color x.0) a ∙ b ∙ sym a;
      }
]
