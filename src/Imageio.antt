-- ===== src/Imageio.antt =====
-- Encoded images: the format test and the dispatch of lib/imageio.c, and the raw elevation format of
-- lib/imageio_raw.c. PNG and JPEG are libpng's and libjpeg's, and the JSON codec is a parameter too.
pub mod Raw
mod Tests
use Prim.Native.String.{String}
use mapcache.Base.{
  ℕ, zero, suc, ◌+◌, ◌*◌, ◌/◌, ◌%◌, ◌^◌, ℤ, pos, negsuc, to_i32, Text, codes, Bool, true, false,
  ◌≡◌, ◌&&◌, Option, none, some, List, [], ◌∷◌, ◌++◌, leb, ◌==◌, if◌then◌else◌, ◌>>=◌, length,
  get_elem?, replicate,
}
use mathlib.Core.List.{flatten}
use mapcache.Context.{Context, set_error, check_error}
use mapcache.Types.{Image}
use mapcache.Image.{create, byte}

-- `mapcache_image_format_type`
pub data FormatType : Type 0 where
  gc_unknown gc_png gc_jpeg gc_raw gc_json : FormatType

-- The codecs that are not modelled. `png_sig` is `png_sig_cmp(buf, 0, 8) == 0`: the signature of PNG begins
-- with the byte 137.
pub record Codecs : Type 0 where
  pub png_sig : Text → Bool
  pub png_sig_first : (b : Text) → png_sig b ≡ true → byte b 0 ≡ 137
  pub png_decode : Text → Context → Context × Option Image
  pub jpeg_decode : Text → Context → Context × Option Image
  pub json_decode : Text → Context → Context × Option Image

-- `mapcache_imageio_header_sniff`
pub header_sniff : Codecs → Option Text → FormatType
header_sniff c none = gc_unknown
header_sniff c (some b) =
    if leb 8 (length b) && c.png_sig b
    then gc_png
    else if leb 2 (length b) && (byte b 0 == 255 && byte b 1 == 216)
    then gc_jpeg
    else if leb 4 (length b)
        && (byte b 0 == b'R' && (byte b 1 == b'A' && (byte b 2 == b'W' && byte b 3 == b'0')))
    then gc_raw
    else gc_unknown

-- `n` bytes of `m` from the place `k` on.
pub copy_bytes : List ℕ → ℕ → ℕ → List ℕ
copy_bytes m k zero = []
copy_bytes m k (suc n) = byte m k ∷ copy_bytes m (k + 1) n

-- The four bytes of a `uint32_t` in memory, on a little-endian machine, and back.
pub bytes_of_u32 : ℕ → List ℕ
bytes_of_u32 n = n % 256 ∷ n / 256 % 256 ∷ n / 65536 % 256 ∷ n / 16777216 % 256 ∷ []

pub u32_at : List ℕ → ℕ → ℕ
u32_at m k = byte m k + 256 * byte m (k + 1) + 65536 * byte m (k + 2) + 16777216 * byte m (k + 3)

-- The product `4 * n * n` is computed, and counted up to, in an `int`: from 2^31 on it has no value. A size in
-- bytes below that is at most 4 * 23170 * 23170, so `(int) bufsize`, which is 8 more, does not wrap.
square_bytes : ℕ → Option ℕ
square_bytes n = if leb (2 ^ 31) (4 * n * n) then none else some (4 * n * n)

-- `_mapcache_imageio_raw_encode`
unfoldable pub raw_encode : Image → Context → Option (Context × Option Text)
unfolding copy_bytes bytes_of_u32 square_bytes
raw_encode img ctx =
    let encoded = (do
      count ← square_bytes img.w
      some (ctx, some (codes "RAW0" ++ (bytes_of_u32 img.w ++ copy_bytes img.pixels 0 count)))) in
    if img.is_elevation
    then encoded
    else some (set_error 500 "can't convert non elevation data to raw" ctx, none)

-- `_mapcache_imageio_raw_create_empty`
pub raw_create_empty : ℕ → ℕ → ℕ → Context → Option (Context × Option Text)
unfolding raw_encode
raw_create_empty width height color ctx =
    let empty : Image = record create {
      w = width;
      h = height;
      stride = width * 4;
      pixels = flatten (replicate (width * height) (bytes_of_u32 color));
    } in
    if check_error ctx then some (ctx, none) else raw_encode empty ctx

-- A size is an `int`; a negative one has no meaning.
size_of : ℤ → Option ℕ
size_of (pos n) = some n
size_of (negsuc n) = none

-- `_mapcache_imageio_raw_decode_to_image`, for an image without data
pub raw_decode_to_image : Text → Image → Option Image
unfolding size_of u32_at copy_bytes square_bytes
raw_decode_to_image b img = do
  n ← size_of (to_i32 (u32_at b 4))
  count ← square_bytes n
  some (record img {
    w = n;
    h = n;
    stride = 4 * n;
    pixels = copy_bytes b 8 count;
    is_elevation = true;
  })

-- `_mapcache_imageio_raw_decode`
pub raw_decode : Text → Context → Option (Context × Option Image)
unfolding raw_decode_to_image
raw_decode b ctx = do
  img ← raw_decode_to_image b create
  some (ctx, if check_error ctx then none else some img)

decode_as : Codecs → FormatType → Text → Context → Option (Context × Option Image)
unfolding raw_decode
decode_as c gc_png b ctx = some (c.png_decode b ctx)
decode_as c gc_jpeg b ctx = some (c.jpeg_decode b ctx)
decode_as c gc_raw b ctx = raw_decode b ctx
decode_as c gc_json b ctx = some (c.json_decode b ctx)
decode_as c gc_unknown b ctx =
    some (set_error 500 "mapcache_imageio_decode: unrecognized image format" ctx, none)

-- `mapcache_imageio_decode`
pub decode : Codecs → Option Text → Context → Option (Context × Option Image)
unfolding decode_as header_sniff
decode c none ctx =
    some (set_error 500 "mapcache_imageio_decode: unrecognized image format" ctx, none)
decode c (some b) ctx = decode_as c (header_sniff c (some b)) b ctx
