-- ===== src/Tileset/Checks.antt =====
-- What the checks of a tileset's configuration and of a tile's numbers let through.
use Prim.Native.String.{String}
use mapcache.Base.{
  ℕ, ℤ, ◌==ℤ◌, eq_of_parts, Option, none, List, ◌∷◌, pos, ◌≤ℤ◌, ◌<ℤ◌, ltb_ℤ, leb_ℤ, Bool, true,
  false, not, ◌&&◌, ◌||◌, ◌≡◌, refl, ◌⊎◌, inl, inr, some, [], Bool-cases, true≢false, arith,
}
use mapcache.Context.{Context, set_error, has_error}
use mapcache.Types.{Extent, SourceType, ImageFormat, Tileset, Tile, at}
use mapcache.Tileset.{is_gdal, is_some, is_empty, needs_format, configuration_check, tile_validate}

-- A tile within the limits of its grid link.
pub record InRange (t : Tile) (limits : Extent) : Type 0 where
  pub level : (t.grid_link.minz ≤ℤ t.z) × (t.z <ℤ t.grid_link.maxz)
  pub column : (limits.minx ≤ℤ t.x) × (t.x <ℤ limits.maxx)
  pub row : (limits.miny ≤ℤ t.y) × (t.y <ℤ limits.maxy)

-- The test of one number against its limits.
in_limits : (n low high : ℤ) → (ltb_ℤ n low || leb_ℤ high n) ≡ false → (low ≤ℤ n) × (n <ℤ high)
in_limits n low high e = ground arith

out_of_limits : (n low high : ℤ) → (ltb_ℤ n low || leb_ℤ high n) ≡ true → low ≤ℤ n → n <ℤ high → ⊥
out_of_limits n low high e a b = ground arith

failed :
    (msg : String) (ctx : Context)
    → ctx.errcode ≡ 0
    → ctx.errmsg ≡ none
    → has_error (set_error 404 msg ctx) ≡ true
unfolding set_error
failed msg ctx c m = rw m refl

module _ (t : Tile) (limits : Extent) (found : at t.grid_link.grid_limits t.z ≡ some limits)
    (ctx : Context) (clean : ctx.errcode ≡ 0) (quiet : ctx.errmsg ≡ none) where
  -- If there was no error and no message before, and the grid link has limits for the tile's level, then a
  -- tile whose level, column and row are within their limits leaves the context as it was, and every other
  -- tile sets an error.
  pub tile_validate_lem :
      (ctx' : Context) × (tile_validate t ctx ≡ some ctx')
      × (((ctx' ≡ ctx) × InRange t limits) ⊎ ((has_error ctx' ≡ true) × (InRange t limits → ⊥)))
  unfolding tile_validate
  tile_validate_lem = elim (Bool-cases (ltb_ℤ t.z t.grid_link.minz || leb_ℤ t.grid_link.maxz t.z)) [
    | inl z ↦ (
      set_error 404 "invalid tile z level" ctx,
      rw (z) refl,
      inr (
        failed "invalid tile z level" ctx clean quiet,
        λ r. out_of_limits t.z t.grid_link.minz t.grid_link.maxz z r.level.0 r.level.1,
      ),
    )
    | inr z ↦ elim (Bool-cases (ltb_ℤ t.x limits.minx || leb_ℤ limits.maxx t.x)) [
      | inl x ↦ (
        set_error 404 "tile x=%d not in [%d,%d[" ctx,
        rw (z, found, x) refl,
        inr (
          failed "tile x=%d not in [%d,%d[" ctx clean quiet,
          λ r. out_of_limits t.x limits.minx limits.maxx x r.column.0 r.column.1,
        ),
      )
      | inr x ↦ elim (Bool-cases (ltb_ℤ t.y limits.miny || leb_ℤ limits.maxy t.y)) [
        | inl y ↦ (
          set_error 404 "tile y=%d not in [%d,%d[" ctx,
          rw (z, found, x, y) refl,
          inr (
            failed "tile y=%d not in [%d,%d[" ctx clean quiet,
            λ r. out_of_limits t.y limits.miny limits.maxy y r.row.0 r.row.1,
          ),
        )
        | inr y ↦ (
          ctx,
          rw (z, found, x, y) refl,
          inl (
            refl,
            record {
              level = in_limits t.z t.grid_link.minz t.grid_link.maxz z;
              column = in_limits t.x limits.minx limits.maxx x;
              row = in_limits t.y limits.miny limits.maxy y;
            },
          ),
        )
      ]
    ]
  ]

-- The tests of the code, one for each field.
record Accepted (ts : Tileset) : Type 0 where
  cached : is_some ts.cache ≡ true
  gridded : is_empty ts.grid_links ≡ false
  sizes : (pos 1 ≤ℤ ts.metasize_x) × (pos 1 ≤ℤ ts.metasize_y) × (pos 0 ≤ℤ ts.metabuffer)
  formatted : (is_some ts.format ≡ true) ⊎ ((is_gdal ts.source ≡ false) × (needs_format ts ≡ false))

bad_sizes :
    (b x y : ℤ)
    → (ltb_ℤ b (pos 0) || (ltb_ℤ x (pos 1) || ltb_ℤ y (pos 1))) ≡ true
    → (pos 1 ≤ℤ x) × (pos 1 ≤ℤ y) × (pos 0 ≤ℤ b)
    → ⊥
bad_sizes b x y e h = ground (arith, h)

good_sizes :
    (b x y : ℤ)
    → (ltb_ℤ b (pos 0) || (ltb_ℤ x (pos 1) || ltb_ℤ y (pos 1))) ≡ false
    → (pos 1 ≤ℤ x) × (pos 1 ≤ℤ y) × (pos 0 ≤ℤ b)
good_sizes b x y e = ground arith

no_format :
    (f g n : Bool)
    → (f ≡ true) ⊎ ((g ≡ false) × (n ≡ false))
    → ((not f && g) ≡ true) ⊎ ((not f && n) ≡ true)
    → ⊥
no_format true g n h (inl e) = cc
no_format true g n h (inr e) = cc
no_format false g n (inl e) k = cc
no_format false g n (inr (a, b)) (inl e) = cc
no_format false g n (inr (a, b)) (inr e) = cc

some_format :
    (f g n : Bool)
    → (not f && g) ≡ false
    → (not f && n) ≡ false
    → (f ≡ true) ⊎ ((g ≡ false) × (n ≡ false))
some_format true g n c e = inl refl
some_format false g n c e = inr (c, e)

error :
    (msg : String) (ctx : Context)
    → ctx.errcode ≡ 0
    → ctx.errmsg ≡ none
    → has_error (set_error 400 msg ctx) ≡ true
unfolding set_error
error msg ctx c m = rw m refl

configuration_check-Accepted :
    (ts : Tileset) (ctx : Context)
    → ctx.errcode ≡ 0
    → ctx.errmsg ≡ none
    → ((configuration_check ts ctx ≡ ctx) × Accepted ts)
      ⊎ ((has_error (configuration_check ts ctx) ≡ true) × (Accepted ts → ⊥))
unfolding configuration_check
configuration_check-Accepted ts ctx clean quiet = elim (Bool-cases (is_some ts.cache)) [
  | inr a ↦ inr (rw a (error _ ctx clean quiet), λ w. true≢false w.cached a)
  | inl a ↦ elim (Bool-cases (is_empty ts.grid_links)) [
    | inl b ↦ inr (rw (a, b) (error _ ctx clean quiet), λ w. true≢false b w.gridded)
    | inr b ↦ elim (Bool-cases (not (is_some ts.format) && is_gdal ts.source)) [
      | inl c ↦ inr (
        rw (a, b, c) (error _ ctx clean quiet),
        λ w.
            no_format (is_some ts.format) (is_gdal ts.source) (needs_format ts) w.formatted (inl c),
      )
      | inr c ↦
          elim (Bool-cases (
            ltb_ℤ ts.metabuffer (pos 0)
            || (ltb_ℤ ts.metasize_x (pos 1) || ltb_ℤ ts.metasize_y (pos 1)))) [
              | inl d ↦ inr (
                rw (a, b, c, d) (error _ ctx clean quiet),
                λ w. bad_sizes ts.metabuffer ts.metasize_x ts.metasize_y d w.sizes,
              )
              | inr d ↦ elim (Bool-cases (not (is_some ts.format) && needs_format ts)) [
                | inl e ↦ inr (
                  rw (a, b, c, d, e)
                      (elim (Bool-cases (is_some ts.watermark)) [
                        | inl f ↦ rw f (error _ ctx clean quiet)
                        | inr f ↦ rw f (error _ ctx clean quiet)
                      ]),
                  λ w.
                      no_format (is_some ts.format) (is_gdal ts.source) (needs_format ts)
                        w.formatted (inr e),
                )
                | inr e ↦ inl (
                  rw (a, b, c, d, e) refl,
                  record {
                    cached = a;
                    gridded = b;
                    sizes = good_sizes ts.metabuffer ts.metasize_x ts.metasize_y d;
                    formatted =
                        some_format (is_some ts.format) (is_gdal ts.source) (needs_format ts) c e;
                  },
                )
              ]
            ]
    ]
  ]
]

-- A tileset whose tiles are rendered one by one, without a buffer and a watermark.
pub record OneByOne (ts : Tileset) : Type 0 where
  pub wide : ts.metasize_x ≡ pos 1
  pub high : ts.metasize_y ≡ pos 1
  pub tight : ts.metabuffer ≡ pos 0
  pub unmarked : ts.watermark ≡ none

-- A tileset that can be served: it has a cache and a grid, its sizes make sense, and it has a format, or it has
-- no GDAL source and its tiles are rendered one by one, without a buffer and a watermark.
pub record WellConfigured (ts : Tileset) : Type 0 where
  pub cached : (c : ℕ) × (ts.cache ≡ some c)
  pub gridded : ts.grid_links ≡ [] → ⊥
  pub sizes : (pos 1 ≤ℤ ts.metasize_x) × (pos 1 ≤ℤ ts.metasize_y) × (pos 0 ≤ℤ ts.metabuffer)
  pub formatted :
      ((f : ImageFormat) × (ts.format ≡ some f))
      ⊎ ((ts.source ≡ some SourceType.gdal → ⊥) × OneByOne ts)

is_some_sound : {A : Type 0} (o : Option A) → is_some o ≡ true → (a : A) × (o ≡ some a)
is_some_sound none e = cc
is_some_sound (some a) e = (a, refl)

is_some_complete : {A : Type 0} (o : Option A) (a : A) → o ≡ some a → is_some o ≡ true
is_some_complete o a e = rw e refl

nonempty : {A : Type 0} (xs : List A) → is_empty xs ≡ false → xs ≡ [] → ⊥
nonempty xs e f = let g : is_empty xs ≡ true = rw f refl in true≢false g e

not_empty : {A : Type 0} (xs : List A) → (xs ≡ [] → ⊥) → is_empty xs ≡ false
not_empty [] h = absurd (h refl)
not_empty (x ∷ xs) h = refl

not_gdal : (o : Option SourceType) → (o ≡ some SourceType.gdal → ⊥) → is_gdal o ≡ false
unfolding is_gdal
not_gdal none h = refl
not_gdal (some SourceType.gdal) h = absurd (h refl)
not_gdal (some SourceType.wms) h = refl
not_gdal (some SourceType.mapserver) h = refl
not_gdal (some SourceType.dummy) h = refl
not_gdal (some SourceType.tms) h = refl

no_gdal : (o : Option SourceType) → is_gdal o ≡ false → o ≡ some SourceType.gdal → ⊥
unfolding is_gdal
no_gdal o e f = let g : is_gdal o ≡ true = rw f refl in true≢false g e

is_none : {A : Type 0} (o : Option A) → is_some o ≡ false → o ≡ none
is_none none e = refl
is_none (some a) e = cc

equal : (a b : ℤ) → not (a ==ℤ b) ≡ false → a ≡ b
equal a b e = eq_of_parts a b (ground arith)

plain : (ts : Tileset) → needs_format ts ≡ false → OneByOne ts
plain ts e = record {
  wide = equal ts.metasize_x (pos 1) (ground arith);
  high = equal ts.metasize_y (pos 1) (ground arith);
  tight = equal ts.metabuffer (pos 0) (ground arith);
  unmarked = is_none ts.watermark (ground arith);
}

needs_none : (ts : Tileset) → OneByOne ts → needs_format ts ≡ false
needs_none ts p = rw (p.wide, p.high, p.tight, p.unmarked) refl

Accepted-WellConfigured : (ts : Tileset) → Accepted ts → WellConfigured ts
Accepted-WellConfigured ts a = record {
  cached = is_some_sound ts.cache a.cached;
  gridded = nonempty ts.grid_links a.gridded;
  sizes = a.sizes;
  formatted = elim a.formatted [
    | inl f ↦ inl (is_some_sound ts.format f)
    | inr (g, n) ↦ inr (no_gdal ts.source g, plain ts n)
  ];
}

WellConfigured-Accepted : (ts : Tileset) → WellConfigured ts → Accepted ts
WellConfigured-Accepted ts w = record {
  cached = is_some_complete ts.cache w.cached.0 w.cached.1;
  gridded = not_empty ts.grid_links w.gridded;
  sizes = w.sizes;
  formatted = elim w.formatted [
    | inl (f, e) ↦ inl (is_some_complete ts.format f e)
    | inr (g, p) ↦ inr (not_gdal ts.source g, needs_none ts p)
  ];
}

-- If no error and no message is set, then a configuration is accepted exactly if it has a cache and a grid, its
-- metatile sizes are at least 1 and its buffer is not negative, and it has a format, or else no GDAL
-- source, metatiles of one tile, no buffer and no watermark; otherwise an error is set.
pub configuration_check_lem :
    (ts : Tileset) (ctx : Context)
    → ctx.errcode ≡ 0
    → ctx.errmsg ≡ none
    → ((configuration_check ts ctx ≡ ctx) × WellConfigured ts)
      ⊎ ((has_error (configuration_check ts ctx) ≡ true) × (WellConfigured ts → ⊥))
configuration_check_lem ts ctx clean quiet =
    elim (configuration_check-Accepted ts ctx clean quiet) [
      | inl (e, a) ↦ inl (e, Accepted-WellConfigured ts a)
      | inr (e, h) ↦ inr (e, λ w. h (WellConfigured-Accepted ts w))
    ]
