-- ===== src/Core.antt =====
-- The request for tiles of lib/core.c: `mapcache_core_get_tile` after the tiles are fetched (which is the
-- module Prefetch), and `mapcache_http_response_create`.
--
-- The image formats' writers, the decoder, the clock, dates and the tables of headers belong to the codecs
-- and to APR and are fields of `Services`. The request's own tiles are not given back: a tile that is
-- decoded keeps its image only for the merge.
pub mod Merge
pub mod Responses
pub mod Answers
pub mod Errors
mod Tests
use Prim.Native.String.{String}
use mapcache.Base.{
  ℕ, zero, suc, ◌+◌, ℤ, pos, ◌+ℤ◌, ◌*ℤ◌, ltb_ℤ, ◌==ℤ◌, show_ℤ, Text, codes, text_eq, Bool, true,
  false, not, ◌&&◌, ◌||◌, Option, none, some, List, [], ◌∷◌, ◌++◌, ltb, ◌==◌, if◌then◌else◌, ◌>>=◌,
  length,
}
use mapcache.Context.{Context, set_error, check_error, has_error}
use mapcache.Types.{Tile, Tileset, Image, ImageFormat}
use mapcache.Image.{create, merge}
use mapcache.Imageio.{FormatType, gc_png, gc_jpeg, gc_raw, gc_json, gc_unknown}

-- An `apr_table_t` of HTTP headers
abbrev pub Headers : Type 0
Headers = List (Text × Text)

-- `struct mapcache_http_response` with `data` as `body`
pub record Response : Type 0 where
  pub body : Option Text
  pub headers : Headers
  pub code : ℕ
  pub mtime : ℕ

-- `mapcache_http_response_create`
unfoldable pub response_create : Response
response_create = record { body = none; headers = []; code = 200; mtime = 0 }

-- What the requests use of the codecs, of APR and of the configuration. The date is that of a time.
pub record Services : Type 0 where
  pub write : ImageFormat → Image → Context → Context × Option Text
  pub decode : Option Text → Context → Context × Option Image
  pub header_sniff : Option Text → FormatType
  pub table_set : Headers → Text → Text → Headers
  pub rfc822_date : ℤ → Text
  pub now : ℕ
  pub default_image_format : ImageFormat

-- The later of two times, and the earlier of two delays.
abbrev pub later : ℕ → ℕ → ℕ
later a b = if ltb a b then b else a

abbrev pub sooner : ℤ → ℤ → ℤ
sooner a b = if ltb_ℤ b a then b else a

-- A step's result, or what follows it.
abbrev pub and_then :
    {A B : Type 0} → Context × Option A → (A → Context × Option B) → Context × Option B
and_then (ctx, none) f = (ctx, none)
and_then (ctx, some a) f = f a

-- How many tiles have data.
unfoldable pub count_data : List Tile → ℕ
count_data [] = 0
count_data (t ∷ ts) = (if t.nodata then 0 else 1) + count_data ts

-- The loop over the tiles. `first` is the first tile with data; `base` is its image if there are several.
pub record Merged : Type 0 where
  pub first : Option Tile
  pub base : Image
  pub mtime : ℕ
  pub expires : ℤ
  pub ctx : Context

module _ (env : Services) where
  -- `compute the content-type`
  sniffed_type : FormatType → Headers → Headers
  sniffed_type gc_png h = env.table_set h (codes "Content-Type") (codes "image/png")
  sniffed_type gc_jpeg h = env.table_set h (codes "Content-Type") (codes "image/jpeg")
  sniffed_type _ h = h

  mime_type_of : Option ImageFormat → Option Text
  mime_type_of none = none
  mime_type_of (some f) = f.mime_type

  unfoldable pub content_type : Option ImageFormat → Response → Response
  unfolding sniffed_type mime_type_of
  content_type format r = record r {
    headers = elim (mime_type_of format) [
      | none ↦ sniffed_type (env.header_sniff r.body) r.headers
      | some m ↦ env.table_set r.headers (codes "Content-Type") m
    ];
  }

  -- `compute expiry headers`
  unfoldable pub expiry_headers : ℤ → Response → Response
  expiry_headers expires r =
      let until = pos env.now +ℤ expires *ℤ pos 1000000 in
      if expires ==ℤ pos 0 then r else (record r {
        headers =
            env.table_set
              (env.table_set r.headers (codes "Cache-Control") (codes "max-age=" ++ show_ℤ expires))
              (codes "Expires") (env.rfc822_date until);
      })

  -- The image of a tile, decoded unless it has one.
  pub image_of : Tile → Context → Context × Option Image
  image_of t ctx = elim t.raw_image [
    | none ↦ env.decode t.encoded_data ctx
    | some img ↦ (ctx, some img)
  ]

  first_image : Tile → Context × Option Image → Context × Option Merged
  first_image t (ctx, none) = (ctx, none)
  first_image t (ctx, some img) = (
    ctx,
    some (record { first = some t; base = img; mtime = t.mtime; expires = t.expires; ctx = ctx }),
  )

  pub first_tile : Bool → Tile → Merged → Context × Option Merged
  unfolding first_image image_of
  first_tile several t m =
      if several
      then first_image t (image_of t m.ctx)
      else (m.ctx, some (record m { first = some t; mtime = t.mtime; expires = t.expires }))

  overlay_image : Merged → Context × Option Image → Context × Option Merged
  unfolding merge
  overlay_image m (ctx, none) = (ctx, none)
  overlay_image m (ctx, some overlay) =
      let (base, ctx') = merge m.base overlay ctx in
      (ctx', if has_error ctx' then none else some (record m { base = base; ctx = ctx' }))

  pub overlay_tile : Tile → Merged → Context × Option Merged
  unfolding overlay_image image_of
  overlay_tile t m =
      overlay_image
        (record m { mtime = later m.mtime t.mtime; expires = sooner m.expires t.expires })
        (image_of t m.ctx)

  pub tile_step : Bool → Tile → Merged → Context × Option Merged
  unfolding first_tile overlay_tile
  tile_step several t m = elim m.first [ none ↦ first_tile several t m | some _ ↦ overlay_tile t m ]

  pub merge_loop : Bool → List Tile → Merged → Context × Option Merged
  unfolding tile_step
  merge_loop several [] m = (m.ctx, some m)
  merge_loop several (t ∷ ts) m =
      if t.nodata
      then merge_loop several ts m
      else and_then (tile_step several t m) (merge_loop several ts)

  format_of : Option ImageFormat → Tile → ImageFormat
  format_of (some f) t = f
  format_of none t = elim t.tileset.format [ none ↦ env.default_image_format | some f ↦ f ]

  finish : Option ImageFormat → Merged → Option Text → Context → Context × Option Response
  unfolding content_type expiry_headers
  finish format m encoded ctx = (
    ctx,
    some (
        expiry_headers m.expires
          (content_type format (record response_create { body = encoded; mtime = m.mtime }))),
  )

  written : ImageFormat → Merged → Context × Option Text → Context × Option Response
  unfolding finish
  written format m (ctx, encoded) =
      if has_error ctx then (ctx, none) else finish (some format) m encoded ctx

  -- The response to the merged tiles. There is a first tile, since some tile has data.
  encode_tiles : Bool → Option ImageFormat → Merged → Context × Option Response
  unfolding written finish format_of
  encode_tiles several format m = elim m.first [
    | none ↦ (m.ctx, none)
    | some t ↦
        if several
        then written (format_of format t) m (env.write (format_of format t) m.base m.ctx)
        else finish t.tileset.format m t.encoded_data m.ctx
  ]

  -- `mapcache_core_get_tile`, after the tiles are fetched
  pub get_tile : Option ImageFormat → List Tile → Context → Context × Option Response
  unfolding encode_tiles merge_loop
  get_tile format ts ctx =
      let several = ltb 1 (count_data ts) in
      let start : Merged = record {
        first = none;
        base = create;
        mtime = 0;
        expires = pos 0;
        ctx = ctx;
      } in
      if has_error ctx
      then (ctx, none)
      else if count_data ts == 0
      then (
        set_error 404
            "no tiles containing image data could be retrieved (not in cache, and/or no source configured)"
            ctx,
        none,
      )
      else and_then (merge_loop several ts start) (encode_tiles several format)
