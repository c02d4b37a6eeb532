-- ===== src/Split/Kept.antt =====
-- What a split leaves of a metatile.
use mapcache.Base.{
  Text, Bool, ◌≡◌, refl, ap, sym, ◌∙◌, Option, none, some, List, Option-cases, inl, inr, some-inj,
  mapped,
}
use mapcache.Context.{Context}
use mapcache.Types.{Tile, Metatile, Image, ImageFormat}
use mapcache.Split.{
  split, cut, cut_found, cut_progress, first_only, finished, whole_image, set_first, is_elevation,
}

-- The same metatile but for its array of tiles.
abbrev pub Retiled : Metatile → Metatile → Type 0
Retiled mt mt' = (ts : List Tile) × (mt' ≡ record mt { tiles = ts })

cut_found-Retiled :
    (elevation : Bool) (mt : Metatile) (found : Context × Option Image) {mt' : Metatile}
    {ctx' : Context}
    → cut_found elevation mt found ≡ some (mt', ctx')
    → Retiled mt mt'
unfolding cut_found cut finished
cut_found-Retiled elevation mt (ctx, none) e = (mt.tiles, ap (λ r. r.0) (sym (some-inj e)))
cut_found-Retiled elevation mt (ctx, some whole) e =
    let (p, h, a) = mapped (cut_progress elevation mt whole ctx) (finished elevation mt whole) e in
    ((finished elevation mt whole p).0.tiles, ap (λ r. r.0) a)

first_only-Retiled :
    (mt : Metatile) (ctx : Context) {mt' : Metatile} {ctx' : Context}
    → first_only mt ctx ≡ some (mt', ctx')
    → Retiled mt mt'
unfolding first_only
first_only-Retiled mt ctx e =
    let (ts, h, a) =
      mapped {B = Metatile × Context} (set_first mt.map.encoded_data mt.tiles)
        (λ ts. (record mt { tiles = ts }, ctx)) e in
    (ts, ap (λ r. r.0) a)

split-formatted :
    (decode : Option Text → Context → Context × Option Image) (mt : Metatile) (ctx : Context)
    {f : ImageFormat}
    → mt.map.tileset.format ≡ some f
    → split decode mt ctx
      ≡ cut_found (is_elevation mt.map.raw_image) mt (whole_image decode mt.map ctx)
unfolding split
split-formatted decode mt ctx e = rw (e) refl

split-plain :
    (decode : Option Text → Context → Context × Option Image) (mt : Metatile) (ctx : Context)
    → mt.map.tileset.format ≡ none
    → split decode mt ctx ≡ first_only mt ctx
unfolding split
split-plain decode mt ctx e = rw (e) refl

pub split-Retiled :
    (decode : Option Text → Context → Context × Option Image) (mt : Metatile) (ctx : Context)
    {mt' : Metatile} {ctx' : Context}
    → split decode mt ctx ≡ some (mt', ctx')
    → Retiled mt mt'
split-Retiled decode mt ctx e = elim (Option-cases mt.map.tileset.format) [
  | inl n ↦ first_only-Retiled mt ctx (sym (split-plain decode mt ctx n) ∙ e)
  | inr (f, s) ↦
      cut_found-Retiled (is_elevation mt.map.raw_image) mt (whole_image decode mt.map ctx)
        (sym (split-formatted decode mt ctx s) ∙ e)
]
