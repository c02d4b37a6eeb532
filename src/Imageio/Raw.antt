-- ===== src/Imageio/Raw.antt =====
-- Encoding an elevation as raw data and decoding it again.
use mapcache.Base.{
  ℕ, zero, suc, ◌+◌, ◌*◌, ◌^◌, ◌<◌, ◌≤◌, leb, to_i32-pos, Text, codes, true, false, ◌≡◌, refl, ap,
  sym, ◌∙◌, none, some, List, [], ◌∷◌, ◌++◌, length, arith, Bool-cases, inl, inr,
}
use mapcache.Context.{Context, check_error, set_error}
use mapcache.Types.{Image, unknown}
use mapcache.Image.{byte, create}
use mapcache.Imageio.{
  gc_raw, Codecs, header_sniff, copy_bytes, bytes_of_u32, u32_at, raw_encode, raw_create_empty,
  raw_decode_to_image, raw_decode, decode_as, decode, size_of, square_bytes,
}

-- The header of raw data, and the data behind it.
abbrev raw_of : ℕ → List ℕ → Text
raw_of n body = codes "RAW0" ++ (bytes_of_u32 n ++ body)

u32_at-raw_of : (n : ℕ) (body : List ℕ) → n < 2 ^ 32 → u32_at (raw_of n body) 4 ≡ n
unfolding u32_at bytes_of_u32
u32_at-raw_of n body h = omega arith

shift : (x : ℕ) (ys : List ℕ) (k m : ℕ) → copy_bytes (x ∷ ys) (suc k) m ≡ copy_bytes ys k m
unfolding copy_bytes
shift x ys k zero = refl
shift x ys k (suc m) =
    let e : suc k + 1 ≡ suc (k + 1) = omega arith in
    ap (λ t. byte ys k ∷ t) (ap (λ j. copy_bytes (x ∷ ys) j m) e ∙ shift x ys (k + 1) m)

copy_bytes_all : (ys : List ℕ) → copy_bytes ys 0 (length ys) ≡ ys
unfolding copy_bytes
copy_bytes_all [] = refl
copy_bytes_all (y ∷ ys) = ap (λ t. y ∷ t) (shift y ys 0 (length ys) ∙ copy_bytes_all ys)

copy_bytes_body :
    (n : ℕ) (body : List ℕ) (m : ℕ) → copy_bytes (raw_of n body) 8 m ≡ copy_bytes body 0 m
unfolding bytes_of_u32
copy_bytes_body n body m =
    shift _ _ 7 m
    ∙ shift _ _ 6 m
    ∙ shift _ _ 5 m
    ∙ shift _ _ 4 m
    ∙ shift _ _ 3 m
    ∙ shift _ _ 2 m
    ∙ shift _ _ 1 m
    ∙ shift _ _ 0 m

small_square : (n : ℕ) → 4 * n * n < 2 ^ 31 → square_bytes n ≡ some (4 * n * n)
unfolding square_bytes
small_square n h = let e : leb (2 ^ 31) (4 * n * n) ≡ false = ground (arith, h) in rw e refl

small_size : (n : ℕ) → 4 * n * n < 2 ^ 31 → n < 2 ^ 31
small_size zero h = omega arith
small_size (suc n) h = let le : suc n ≤ suc n * suc n = grind arith in omega (arith, h, le)

raw_decode-raw_of :
    (n : ℕ) (body : List ℕ) (ctx : Context)
    → 4 * n * n < 2 ^ 31
    → check_error ctx ≡ false
    → raw_decode (raw_of n body) ctx
      ≡ some (
        ctx,
        some (record create {
          w = n;
          h = n;
          stride = 4 * n;
          pixels = copy_bytes body 0 (4 * n * n);
          is_elevation = true;
        }),
      )
unfolding raw_decode raw_decode_to_image size_of
raw_decode-raw_of n body ctx h ok =
    let b = small_size n h in
    rw
      (
        u32_at-raw_of n body (omega (arith, b)),
        to_i32-pos n b,
        small_square n h,
        ok,
        copy_bytes_body n body (4 * n * n),
      )
      refl

-- No other format takes it.
header_sniff-raw_of :
    (c : Codecs) (n : ℕ) (body : List ℕ) → header_sniff c (some (raw_of n body)) ≡ gc_raw
unfolding header_sniff bytes_of_u32
header_sniff-raw_of c n body = elim (Bool-cases (c.png_sig (raw_of n body))) [
  | inl e ↦ absurd (let f : 82 ≡ 137 = c.png_sig_first (raw_of n body) e in omega arith)
  | inr e ↦ ground (arith, e)
]

decode-sniffed :
    (c : Codecs) (b : Text) (ctx : Context)
    → header_sniff c (some b) ≡ gc_raw
    → decode c (some b) ctx ≡ raw_decode b ctx
unfolding decode decode_as
decode-sniffed c b ctx e = ap (λ f. decode_as c f b ctx) e

raw_encode-elevation :
    (img : Image) (ctx : Context)
    → img.is_elevation ≡ true
    → 4 * img.w * img.w < 2 ^ 31
    → raw_encode img ctx
      ≡ some (ctx, some (raw_of img.w (copy_bytes img.pixels 0 (4 * img.w * img.w))))
unfolding raw_encode
raw_encode-elevation img ctx e h = rw (e, small_square img.w h) refl

-- Encoding a square elevation of tightly packed rows as raw data succeeds without an error, and decoding
-- the data again by its own header gives the same image, if the number of bytes of the pixels fits an `int`.
pub decode-raw_encode :
    (c : Codecs) (img : Image) (ctx : Context)
    → check_error ctx ≡ false
    → img.is_elevation ≡ true
    → 4 * img.w * img.w < 2 ^ 31
    → img.h ≡ img.w
    → img.stride ≡ 4 * img.w
    → length img.pixels ≡ 4 * img.w * img.w
    → (b : Text) × (raw_encode img ctx ≡ some (ctx, some b))
      × (decode c (some b) ctx
          ≡ some (ctx, some (record img { is_blank = unknown; has_alpha = unknown })))
decode-raw_encode c img ctx ok e bound square packed full = (
  raw_of img.w body,
  raw_encode-elevation img ctx e bound,
  decode-sniffed c (raw_of img.w body) ctx (header_sniff-raw_of c img.w body)
      ∙ raw_decode-raw_of img.w body ctx bound ok
      ∙ (λ i. some (
        ctx,
        some (record img {
          h = sym square i;
          stride = sym packed i;
          pixels = same i;
          is_blank = unknown;
          has_alpha = unknown;
          is_elevation = sym e i;
        }),
      )),
)
  where
    body : List ℕ
    body = copy_bytes img.pixels 0 (4 * img.w * img.w)

    is_body : body ≡ img.pixels
    is_body = ap (copy_bytes img.pixels 0) (sym full) ∙ copy_bytes_all img.pixels

    same : copy_bytes body 0 (4 * img.w * img.w) ≡ img.pixels
    same = ap (λ xs. copy_bytes xs 0 (4 * img.w * img.w)) is_body ∙ is_body

-- The raw format makes no empty image: without an error and a message before, the attempt always ends with
-- an error, and never with data.
pub raw_create_empty_fails :
    (width height color : ℕ) (ctx : Context)
    → ctx.errcode ≡ 0
    → ctx.errmsg ≡ none
    → (c : Context) × (raw_create_empty width height color ctx ≡ some (c, none))
      × (check_error c ≡ true)
unfolding raw_create_empty raw_encode set_error
raw_create_empty_fails width height color ctx e m =
    (set_error 500 "can't convert non elevation data to raw" ctx, rw e refl, rw m refl)
