-- ===== src/Split/Loop.antt =====
-- The loop of the split over the tiles, for a tileset without a watermark.
use mapcache.Base.{
  ℕ, zero, suc, ◌+◌, Text, Bool, true, false, ◌≡◌, refl, ap, ap₂, sym, ◌∙◌, Option, none, some,
  List, [], ◌∷◌, ◌++◌, get_elem?, drop, length, arith, map, some-inj,
}
use mathlib.Core.List.{append-nil, append_assoc}
use mapcache.Context.{Context, check_error}
use mapcache.Types.{
  GridOrigin, bottom_left, top_left, bottom_right, top_right, Image, ImageFormat, Tile, Map,
  Metatile,
}
use mapcache.Image.{byte}
use mapcache.Split.{
  split_y, data_place, Progress, with_watermark, split_loop, set_images, cut, split, whole_image,
  cut_found, is_elevation,
}

-- A byte behind a place.
pub byte-drop : (k n : ℕ) (m : List ℕ) → byte (drop k m) n ≡ byte m (k + n)
byte-drop zero n m = ap (byte m) (omega arith)
byte-drop (suc k) n [] = refl
byte-drop (suc k) n (x ∷ m) =
    let e : suc k + n ≡ suc (k + n) = omega arith in rw e (byte-drop k n m)

module _ (mt : Metatile) (whole : Image) (plain : mt.map.tileset.watermark ≡ none) where
  unmarked :
      (elevation : Bool) (k : ℕ) (p : Progress)
      → with_watermark elevation mt.map.tileset.watermark mt whole k p ≡ p
  unfolding with_watermark
  unmarked true k p = refl
  unmarked false k p = rw plain refl

  -- The loop assigns the place of each index in turn.
  pub loop-plain :
      (elevation : Bool) (place : ℕ × ℕ → ℕ) (ijs : List (ℕ × ℕ)) (p : Progress)
      → check_error p.ctx ≡ false
      → ((n : ℕ) (ij : ℕ × ℕ)
          → get_elem? ijs n ≡ some ij
          → data_place mt whole.stride ij ≡ some (place ij))
      → split_loop elevation mt whole ijs p ≡ some (record p { places = p.places ++ map place ijs })
  unfolding split_loop
  loop-plain elevation place [] p e h =
      ap (λ ks. some (record p { places = ks })) (sym (append-nil p.places))
  loop-plain elevation place (ij ∷ ijs) p e h = rw (h 0 ij refl) (
      rw (unmarked elevation (place ij) p, e)
        (loop-plain elevation place ijs (record p { places = p.places ++ place ij ∷ [] }) e
            (λ n x g. h (suc n) x g)
          ∙ ap (λ ks. some (record p { places = ks }))
              (append_assoc p.places (place ij ∷ []) (map place ijs))))

-- The images go to the tiles in their order.
pub set_images-entry :
    (image : ℕ → Image) (ks : List ℕ) (ts : List Tile) (n k : ℕ) (t : Tile)
    → get_elem? ks n ≡ some k
    → get_elem? ts n ≡ some t
    → get_elem? (set_images image ks ts) n ≡ some (record t { raw_image = some (image k) })
unfolding set_images
set_images-entry image [] ts n k t a b = cc
set_images-entry image (x ∷ ks) [] n k t a b = cc
set_images-entry image (x ∷ ks) (y ∷ ts) zero k t a b =
    ap₂ {B = Tile} {C = Option Tile} (λ c d. some (record d { raw_image = some (image c) }))
      (some-inj a) (some-inj b)
set_images-entry image (x ∷ ks) (y ∷ ts) (suc n) k t a b = set_images-entry image ks ts n k t a b

pub length-set_images :
    (image : ℕ → Image) (ks : List ℕ) (ts : List Tile) → length (set_images image ks ts) ≡ length ts
unfolding set_images
length-set_images image [] ts = refl
length-set_images image (k ∷ ks) [] = refl
length-set_images image (k ∷ ks) (t ∷ ts) = ap suc (length-set_images image ks ts)

pub get_elem?-map {ℓ κ} :
    {A : Type ℓ} {B : Type κ} (f : A → B) (xs : List A) (n : ℕ) {a : A}
    → get_elem? xs n ≡ some a
    → get_elem? (map f xs) n ≡ some (f a)
get_elem?-map f [] n e = cc
get_elem?-map f (x ∷ xs) zero e = ap (λ a. some (f a)) (some-inj e)
get_elem?-map f (x ∷ xs) (suc n) e = get_elem?-map f xs n e

-- A metatile after its map is rendered.
abbrev pub rendered : Metatile → Image → Metatile
rendered mt img = record mt { map = record mt.map { raw_image = some img } }

-- With an image, splitting is cutting.
pub split-rendered :
    (decode : Option Text → Context → Context × Option Image) (mt : Metatile) (img : Image)
    (ctx : Context) {f : ImageFormat}
    → mt.map.tileset.format ≡ some f
    → img.is_elevation ≡ false
    → split decode (rendered mt img) ctx ≡ cut false (rendered mt img) img ctx
unfolding split whole_image cut_found is_elevation
split-rendered decode mt img ctx e flat = rw (e, flat) refl

pub split_y-rendered :
    (m : Map) (img : Option Image) (o : GridOrigin) (h j : ℕ)
    → split_y (record m { raw_image = img }) o h j ≡ split_y m o h j
unfolding split_y
split_y-rendered m img bottom_left h j = refl
split_y-rendered m img top_left h j = refl
split_y-rendered m img bottom_right h j = refl
split_y-rendered m img top_right h j = refl
