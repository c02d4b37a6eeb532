-- ===== src/Imageio/Tests.antt =====
-- Runs of the codecs, and the theorems about them at concrete inputs.
use mapcache.Base.{◌≡◌, refl, true, false, true≢false, Text, none, some, [], ◌∷◌, arith}
use mapcache.Context.{init}
use mapcache.Types.{Image}
use mapcache.Image.{create}
use mapcache.Imageio.{Codecs, decode, raw_encode}
use mapcache.Imageio.Raw.{decode-raw_encode}

-- Codecs that know no PNG.
abbrev no_codecs : Codecs
no_codecs = record {
  png_sig = λ b. false;
  png_sig_first = λ b e. absurd (true≢false e refl);
  png_decode = λ b ctx. (ctx, none);
  jpeg_decode = λ b ctx. (ctx, none);
  json_decode = λ b ctx. (ctx, none);
}

abbrev one_height : Image
one_height = record create {
  w = 1;
  h = 1;
  stride = 4;
  pixels = 1 ∷ 2 ∷ 3 ∷ 4 ∷ [];
  is_elevation = true;
}

encoded_height :
    raw_encode one_height init
    ≡ some (init, some (82 ∷ 65 ∷ 87 ∷ 48 ∷ 1 ∷ 0 ∷ 0 ∷ 0 ∷ 1 ∷ 2 ∷ 3 ∷ 4 ∷ []))
unfolding raw_encode
encoded_height = refl

decode-raw_encode_example :
    (b : Text) × (raw_encode one_height init ≡ some (init, some b))
    × (decode no_codecs (some b) init ≡ some (init, some one_height))
decode-raw_encode_example =
    decode-raw_encode no_codecs one_height init refl refl (omega arith) refl refl refl
