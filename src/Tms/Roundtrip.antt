-- ===== src/Tms/Roundtrip.antt =====
-- A path that is printed for a tile is parsed to that tile: lib/service_tms.c.
use mapcache.Base.{
  ℕ, ◌^◌, ◌<◌, pos, Text, codes, show_ℤ, show-pos-free, has_byte, has_byte-append, Bool-cases, true,
  false, Option, none, some, List, [], ◌∷◌, ◌++◌, ◌≡◌, refl, ap, ◌∙◌, arith, inl, inr,
}
use mapcache.Context.{Context, check_error}
use mapcache.Types.{GridLevel, GridLink, Dimensions, Tileset, Tile, at}
use mapcache.Grid.{is_supported}
use mapcache.Tileset.{tile_create, tile_validate}
use mapcache.Config.{Config, get_tileset}
use mapcache.Request.{is_digit, Request, get_tile, Reply, value, ◌>>=◌, tokens, finish}
use mapcache.Request.Checked.{Exact, answered}
use mapcache.Request.Numbers.{parse_int-show, parse_int-show_end, show-cons}
use mapcache.Request.Tokens.{IsPart, cons-IsPart, tokens-slash, tokens-part, tokens-last}
use mapcache.Tms.{
  Service, tms, gmaps, Parts, no_parts, parts_loop, find_layer, first_link, layers_loop, checked,
  requested, ask_tiles, parse_request, keys_of, conflicting, place,
}
use mapcache.Tms.Placed.{FromCorner, Row-row_of, row_of, left_edge, placed}

-- The part of the path behind the version.
abbrev pub tile_path : Text → ℕ → ℕ → ℕ → Text → Text
tile_path name z x y ext =
    name
    ++ b'/' ∷ (show_ℤ (pos z) ++ b'/' ∷ (show_ℤ (pos x) ++ b'/' ∷ (show_ℤ (pos y) ++ b'.' ∷ ext)))

-- The path of a tile; gmaps has no version.
abbrev pub path_of : Service → Text → ℕ → ℕ → ℕ → Text → Text
path_of tms name z x y ext = b'/' ∷ (codes "1.0.0" ++ b'/' ∷ tile_path name z x y ext)
path_of gmaps name z x y ext = b'/' ∷ tile_path name z x y ext

abbrev tile_keys : Text → ℕ → ℕ → ℕ → Text → List Text
tile_keys name z x y ext =
    name ∷ show_ℤ (pos z) ∷ show_ℤ (pos x) ∷ (show_ℤ (pos y) ++ b'.' ∷ ext) ∷ []

-- A number is a part of a path, and so is a file name.
number-IsPart : (n : ℕ) → IsPart b'/' (show_ℤ (pos n))
number-IsPart n =
    cons-IsPart b'/' (show_ℤ (pos n)) (show-cons n).2 (show-pos-free b'/' n (inl (omega arith)))

file-IsPart :
    (n : ℕ) (ext : Text) → has_byte b'/' ext ≡ false → IsPart b'/' (show_ℤ (pos n) ++ b'.' ∷ ext)
file-IsPart n ext h =
    cons-IsPart b'/' (show_ℤ (pos n) ++ b'.' ∷ ext) (ap (λ t. t ++ b'.' ∷ ext) (show-cons n).2) (
      has_byte-append b'/' (show_ℤ (pos n)) (b'.' ∷ ext)
      ∙ ground (arith, show-pos-free b'/' n (inl (omega arith)), h))

tokens-tile_path :
    (name ext : Text) (z x y : ℕ)
    → IsPart b'/' name
    → has_byte b'/' ext ≡ false
    → tokens b'/' (tile_path name z x y ext) ≡ tile_keys name z x y ext
tokens-tile_path name ext z x y n e =
    tokens-part b'/' name _ n
    ∙ ap (λ l. name ∷ l)
        (tokens-part b'/' (show_ℤ (pos z)) _ (number-IsPart z)
          ∙ ap (λ l. show_ℤ (pos z) ∷ l)
              (tokens-part b'/' (show_ℤ (pos x)) _ (number-IsPart x)
                ∙ ap (λ l. show_ℤ (pos x) ∷ l) (tokens-last b'/' _ (file-IsPart y ext e))))

abbrev full : Text → ℕ → ℕ → ℕ → Parts
full name z x y = record { index = 5; layer = some name; x = pos x; y = pos y; z = pos z }

abbrev start : Parts
start = record (no_parts gmaps) { index = 1 }

parts-keys :
    (name ext : Text) (z x y : ℕ) (ctx : Context)
    → z < 2 ^ 31
    → x < 2 ^ 31
    → y < 2 ^ 31
    → parts_loop start (tile_keys name z x y ext) ctx ≡ value (full name z x y)
unfolding parts_loop is_digit
parts-keys name ext z x y ctx h g k =
    rw (parse_int-show_end z h, parse_int-show_end x g, parse_int-show y (b'.' ∷ ext) k refl) refl

all_parts :
    (s : Service) (name ext : Text) (z x y : ℕ) (ctx : Context)
    → IsPart b'/' name
    → has_byte b'/' ext ≡ false
    → z < 2 ^ 31
    → x < 2 ^ 31
    → y < 2 ^ 31
    → parts_loop (no_parts s) (keys_of (some (path_of s name z x y ext))) ctx
      ≡ value (full name z x y)
all_parts gmaps name ext z x y ctx n e h g k =
    ap (λ l. parts_loop (no_parts gmaps) l ctx)
      (tokens-slash b'/' _ ∙ tokens-tile_path name ext z x y n e)
    ∙ parts-keys name ext z x y ctx h g k
all_parts tms name ext z x y ctx n e h g k =
    ap (λ l. parts_loop (no_parts tms) l ctx)
      (tokens-slash b'/' _
        ∙ tokens-part b'/' (codes "1.0.0") _ refl
        ∙ ap (λ l. codes "1.0.0" ∷ l) (tokens-tile_path name ext z x y n e))
    ∙ versioned (tile_keys name z x y ext) ctx
    ∙ parts-keys name ext z x y ctx h g k
  where
    versioned :
        (keys : List Text) (ctx : Context)
        → parts_loop (no_parts tms) (codes "1.0.0" ∷ keys) ctx ≡ parts_loop start keys ctx
    versioned keys ctx = unfold parts_loop in refl

-- A tileset of the configuration, named alone, with the first of its grids, and a level of the grid.
pub record Known (cfg : Config) (name : Text) (z : ℕ) : Type 0 where
  pub tileset : Tileset
  pub link : GridLink
  pub links : List GridLink
  pub level : GridLevel
  pub name_part : IsPart b'/' name
  pub one_layer : IsPart b';' name
  pub has_tileset : get_tileset cfg name ≡ some tileset
  pub has_links : tileset.grid_links ≡ link ∷ links
  pub has_level : at link.grid.levels (pos z) ≡ some level
  pub supported : is_supported link.grid.origin ≡ true
  pub exact : Exact link.grid level
  pub size : level.maxy < 2 ^ 31

found :
    (cfg : Config) (name : Text) (z : ℕ) (ctx : Context) (k : Known cfg name z)
    → find_layer cfg name none ctx ≡ value (k.tileset, k.link)
unfolding find_layer first_link
found cfg name z ctx k = rw (k.has_tileset, find_layer) (ap (first_link k.tileset) k.has_links)

-- The list of one tile.
abbrev only : Tile → Reply Context → Reply (List Tile × Context)
only t m = m >>= λ c. value (t ∷ [], c)

checked-answered :
    (t : Tile) (ctx : Context) (o : Option Context)
    → tile_validate t ctx ≡ o
    → finish (◌>>=◌ {B = Request × Context} (only t (checked t ctx)) λ r. value (get_tile r.0, r.1))
      ≡ answered t o
unfolding checked
checked-answered t ctx none e = rw e refl
checked-answered t ctx (some c) e = elim (Bool-cases (check_error c)) [
  | inl h ↦ rw (e, h) refl
  | inr h ↦ rw (e, h) refl
]

-- A tms or gmaps request with the path of column `x` and row `y` on a level of a tileset. It is for one tile of that
-- tileset and its first grid, the one `x` tiles to the right of the left edge of the grid and in row `y`,
-- counted from the bottom for tms and from the top for gmaps, on both origins that extents are computed for. If the
-- tile is valid, the request is made of it alone; if not, there is no request, and the error is that of the check. The
-- name holds no '/' and no ';', and the extension no '/'; the level exists and its rows fill the grid; the
-- row is on it, and the numbers fit an int.
pub parse_request-path :
    (table_set : Dimensions → Text → Text → Dimensions) (s : Service) (cfg : Config)
    (name ext : Text) (z x y : ℕ) (ctx : Context) (k : Known cfg name z)
    → has_byte b'/' ext ≡ false
    → z < 2 ^ 31
    → x < 2 ^ 31
    → y < k.level.maxy
    → (t : Tile) × (t.tileset ≡ k.tileset)
      × (t.grid_link ≡ k.link)
      × FromCorner s t k.level x y z
      × (parse_request table_set s (some (path_of s name z x y ext)) cfg ctx
          ≡ answered t (tile_validate t ctx))
unfolding parse_request requested ask_tiles layers_loop place tile_create conflicting
parse_request-path table_set s cfg name ext z x y ctx k e h g m =
    let o = k.link.grid.origin in
    let blank = tile_create table_set k.tileset k.link in
    let (row, reversed_is, placed_is) = placed s o blank k.level x y z k.has_level k.supported in
    let t : Tile = record blank { x = pos x; y = row_of s o k.level y; z = pos z } in
    (
      t,
      refl,
      refl,
      record {
        at_level = refl;
        left = left_edge o k.link.grid k.level x (row_of s o k.level y);
        row = Row-row_of s o k.link.grid k.level (pos x) y k.supported k.exact k.size m;
      },
      rw (all_parts s name ext z x y ctx k.name_part e h g (omega (arith, m, k.size))) (
          rw (tokens-last b';' name k.one_layer) (
            rw (found cfg name z ctx k) (
              rw (reversed_is)
                (rw placed_is (checked-answered t ctx (tile_validate t ctx) refl))))),
    )
