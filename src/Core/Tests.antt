-- ===== src/Core/Tests.antt =====
-- Responses at concrete inputs.
use mapcache.Base.{
  ℕ, Text, ◌++◌, ◌==◌, if◌then◌else◌, pos, codes, ◌≡◌, refl, true, none, some, [], ◌∷◌, arith,
}
use mapcache.Context.{init, report, message_text, first, again}
use mapcache.Context.Errors.{Copies, following}
use mapcache.Types.{Tile}
use mapcache.Samples.{tile, png, grey}
use mapcache.Imageio.{gc_png}
use mapcache.Core.{Services, Response}
use mapcache.Core.Answers.{Callees, report_msg, report_empty_img, proxied_url, respond_to_error}
use mapcache.Core.Errors.{respond_to_error-report}

abbrev services : Services
services = record {
  write = λ f img ctx. (ctx, some (codes "merged"));
  decode = λ b ctx. (ctx, none);
  header_sniff = λ b. gc_png;
  table_set = λ h k v. (k, v) ∷ h;
  rfc822_date = λ t. codes "later";
  now = 1000000;
  default_image_format = png;
}

-- Without data, and with data.
abbrev no_data : Tile
no_data = record tile { nodata = true }

abbrev with_data : Tile
with_data = record tile { encoded_data = some (codes "data"); mtime = 77; expires = pos 60 }

abbrev answer : Response
answer = record {
  body = some (codes "data");
  headers =
      (codes "Expires", codes "later")
      ∷ (codes "Cache-Control", codes "max-age=60")
      ∷ (codes "Content-Type", codes "image/png")
      ∷ [];
  code = 200;
  mtime = 77;
}

-- A printf that expands each '%' to a name, whatever its arguments.
abbrev expand : ℕ → Text → Text
expand k [] = []
expand k (c ∷ s) = if c == b'%' then codes "osm" ++ expand k s else c ∷ expand k s

expand_copies : Copies expand
expand_copies k [] t e = refl
expand_copies k (c ∷ s) t e = ground (arith, expand_copies k s t)

-- The first call was given "100%" for its conversion. The second expands that text again, with its own
-- arguments.
abbrev expand_then : ℕ → Text → Text
expand_then k s = if k == 0 then codes "at 100%" else expand k s

expanded_twice : message_text expand_then (again (first "at %s") "no %") ≡ codes "at 100osm\nno osm"
unfolding message_text
expanded_twice = refl

abbrev callees : Callees
callees = record {
  services = services;
  table_unset = λ h k. h;
  printf = expand;
  format_error = none;
  empty_image = none;
  error_image = λ w h msg. grey 1;
}

-- A slash is put between the URL and a path without one, but not taken away where both have one.
one_slash : proxied_url (codes "http://a") (codes "b") ≡ some (codes "http://a/b")
unfolding proxied_url
one_slash = refl

two_slashes : proxied_url (codes "http://a/") (codes "/b") ≡ some (codes "http://a//b")
unfolding proxied_url
two_slashes = refl

respond_to_error-report_example :
    ((respond_to_error callees
        (some report_empty_img)
        (report ((404, "no tile %") ∷ (500, "no source") ∷ []) init)).1.code
      ≡ 404)
    × ((respond_to_error callees
          (some report_msg)
          (report ((404, "no tile %") ∷ (500, "no source") ∷ []) init)).1.body
        ≡ some (expand 0 (codes "no tile %") ++ following expand 1 ((500, "no source") ∷ [])))
respond_to_error-report_example =
    respond_to_error-report callees (some report_empty_img) 404 "no tile %"
      ((500, "no source") ∷ []) init refl (omega arith) refl expand_copies refl
