-- ===== src/Fetch/Rendered.antt =====
-- A tile that is not in the cache and that the calling thread renders on its own.
use mapcache.Base.{
  ℕ, Text, pos, ◌*◌, ◌+◌, ◌<◌, false, ◌≡◌, refl, ap, ◌∙◌, Option, none, some, List, [], ◌∷◌,
  some-inj, Bool-cases, inl, inr, ◌==ℤ◌, arith, ◌>>=◌, length, get_elem?,
}
use mapcache.Context.{Context, check_error}
use mapcache.Types.{GridLevel, Tile, Map, Metatile, Image, ImageFormat, SourceType}
use mapcache.Lock.{Files, lock_filename, lock_or_wait}
use mapcache.Tileset.Metatiles.{metatile_get, metatile_on, resource_key}
use mapcache.Tileset.Metatiles.Blocks.{OnLevel, sx, sy, metatile_get-on}
use mapcache.Split.{split}
use mapcache.Split.Loop.{rendered}
use mapcache.Split.Pixels.{split-Parts, Parts}
use mapcache.Fetch.{
  Env, Run, cache_miss, tile_get, after_get, on_answer, on_miss, render_or_wait, with_lock,
  unlocked, render_metatile, after_render, store_split, set_tiles, set_loop, is_stale, take_data,
  take_first, update_expires,
}

-- What the sources and the cache do when nothing goes wrong: the map gets the image `img`, and a tile
-- that has an image is encoded by `encode` and stored, one tile at a time.
pub record Working {S : Type 0} (env : Env S) (img : Image) : Type 0 where
  pub encode : Image → Text
  pub store : Tile → S → S
  pub draws :
      (m : Map) (ctx : Context) (s : S)
      → env.render_map m ctx s ≡ (record m { raw_image = some img }, ctx, s)
  pub single : env.cache.tile_multi_set ≡ none
  pub sets :
      (t : Tile) (part : Image) (ctx : Context) (s : S)
      → t.raw_image ≡ some part
      → env.cache.tile_set t ctx s
        ≡ (record t { encoded_data = some (encode part) }, ctx, store t s)

module _ {S : Type 0} (env : Env S) (img : Image) (working : Working env img) where
  set_first-Working :
      (t : Tile) (part : Image) (ctx : Context) (s : S)
      → t.raw_image ≡ some part
      → check_error ctx ≡ false
      → set_tiles env (t ∷ []) ctx s
        ≡ (record t { encoded_data = some (working.encode part) } ∷ [], ctx, working.store t s)
  unfolding set_tiles set_loop
  set_first-Working t part ctx s e ok =
      rw (working.single, set_tiles) (rw (working.sets t part ctx s e, ok) refl)

  abbrev encoded : Tile → Image → Tile
  encoded t part = record t { encoded_data = some (working.encode part) }

  store_split-Working :
      (mt : Metatile) (t : Tile) (part : Image) (ctx : Context) (s : S)
      → mt.tiles ≡ t ∷ []
      → t.raw_image ≡ some part
      → check_error ctx ≡ false
      → store_split env s (mt, ctx)
        ≡ (record mt { tiles = encoded t part ∷ [] }, ctx, working.store t s)
  unfolding store_split
  store_split-Working mt t part ctx s e r ok = rw (ok, e, set_first-Working t part ctx s r ok) refl

  after_render-ok :
      (mt : Metatile) (m : Map) (ctx : Context) (s : S)
      → check_error ctx ≡ false
      → after_render env mt (m, ctx, s)
        ≡ (split env.decode (record mt { map = m }) ctx >>= λ x. some (store_split env s x))
  unfolding after_render
  after_render-ok mt m ctx s ok = rw ok refl

  render-Working :
      (mt mt' : Metatile) (t : Tile) (part : Image) (ctx : Context) (s : S)
      → split env.decode (rendered mt img) ctx ≡ some (mt', ctx)
      → mt'.tiles ≡ t ∷ []
      → t.raw_image ≡ some part
      → check_error ctx ≡ false
      → render_metatile env mt ctx s
        ≡ some (record mt' { tiles = encoded t part ∷ [] }, ctx, working.store t s)
  unfolding render_metatile
  render-Working mt mt' t part ctx s h e r ok =
      ap (after_render env mt) (working.draws mt.map ctx s)
      ∙ after_render-ok mt (record mt.map { raw_image = some img }) ctx s ok
      ∙ ap {B = Option (Metatile × Context × S)} (λ o. o >>= λ x. some (store_split env s x)) h
      ∙ ap some (store_split-Working mt' t part ctx s e r ok)

  only {ℓ} :
      {A : Type ℓ} (xs : List A) {x : A} → length xs ≡ 1 → get_elem? xs 0 ≡ some x → xs ≡ x ∷ []
  only [] n e = cc
  only (y ∷ []) n e = ap (λ z. z ∷ []) (some-inj e)
  only (y ∷ z ∷ zs) n e = absurd (omega arith)

  module _ (t : Tile) (l : GridLevel) (v : OnLevel t l) (b : ℕ)
      (buffer : t.tileset.metabuffer ≡ pos b) (one : sx t l v * sy t l v ≡ 1) where
    module _ (ctx : Context) (ok : check_error ctx ≡ false) (format : ImageFormat)
        (formatted : t.tileset.format ≡ some format) (plain : t.tileset.watermark ≡ none)
        (flat : img.is_elevation ≡ false) where
      abbrev PartOf : Metatile → Type 0
      PartOf mt = Parts t l v b buffer img mt 0 0

      in_first : (0 < sx t l v) × (0 < sy t l v)
      in_first = grind arith

      index : 0 ≡ 0 * sy t l v + 0
      index = omega arith

      -- The metatile of a tile, split into this tile alone.
      alone :
          (mt : Metatile) × (p : PartOf mt) × (split env.decode (rendered (metatile_on t l) img) ctx
            ≡ some (mt, ctx))
          × (mt.tiles ≡ p.part.entry ∷ [])
          × (mt.ntiles ≡ pos 1)
      alone =
          let (mt, e, n, count, parts) =
            split-Parts t l v b buffer img env.decode ctx format ok formatted plain flat in
          let p : PartOf mt = parts 0 0 in_first.0 in_first.1 in
          (
            mt,
            p,
            e,
            only mt.tiles (n ∙ one) (ap (get_elem? mt.tiles) index ∙ p.part.stands),
            count ∙ ap pos one,
          )

      module _ (fs : Files) (wait : fs.Fs → Text → fs.Fs) where
        open fs use {Fs, exists, denied, create}

        take_data-alone :
            (mt : Metatile) (u : Tile) (part : Image)
            → mt.ntiles ≡ pos 1
            → take_data (record mt { tiles = encoded u part ∷ [] }) t
              ≡ record t { encoded_data = some (working.encode part); mtime = 0 }
        unfolding take_data take_first
        take_data-alone mt u part e = rw e refl

        missed :
            (f : Fs) (s : S) (source : SourceType)
            → env.non_blocking ≡ false
            → t.tileset.source ≡ some source
            → after_get env fs wait f (cache_miss, t, ctx, s)
              ≡ (metatile_get t ctx >>= render_or_wait env fs wait t f s)
        unfolding after_get on_answer on_miss is_stale
        missed f s source blocking sourced = rw (ok, sourced, blocking) refl

        locked :
            (f : Fs) (s : S) (mt : Metatile)
            → exists f (lock_filename env.lockdir (resource_key mt)) ≡ false
            → denied f (lock_filename env.lockdir (resource_key mt)) ≡ false
            → render_or_wait env fs wait t f s (ctx, some mt) ≡ (
                render_metatile env mt ctx s >>= λ r. some (
                  unlocked env fs wait mt t
                    (create f (lock_filename env.lockdir (resource_key mt)))
                    r))
        unfolding render_or_wait with_lock lock_or_wait
        locked f s mt free may = rw (free, may) refl

        fresh : (u : Tile) (s : S) → u.mtime ≡ 0 → update_expires env u s ≡ u
        unfolding update_expires
        fresh u s e = elim (Bool-cases (u.tileset.auto_expire ==ℤ pos 0)) [
          | inl c ↦ rw (e, c) refl
          | inr c ↦ rw (e, c) refl
        ]

        unlocked-tile :
            (mt0 mt : Metatile) (u : Tile) (part : Image) (f : Fs) (s : S)
            → mt.ntiles ≡ pos 1
            → (unlocked env fs wait mt0 t f
                (record mt { tiles = encoded u part ∷ [] }, ctx, s)).tile
              ≡ record t { encoded_data = some (working.encode part); mtime = 0 }
        unfolding unlocked
        unlocked-tile mt0 mt u part f s e =
            ap (λ x. update_expires env x s) (take_data-alone mt u part e)
            ∙ fresh (record t { encoded_data = some (working.encode part); mtime = 0 }) s refl

        unlocked-ctx :
            (mt : Metatile) (f : Fs) (r : Metatile × Context × S)
            → (unlocked env fs wait mt t f r).ctx ≡ r.1
        unfolding unlocked
        unlocked-ctx mt f r = refl

        -- A tile whose metatile has no other tile, that is not in the cache, that no other thread renders, whose lock
        -- may be made, and
        -- that is on a level of the grid of a tileset with a source, a format and no watermark, is rendered,
        -- if the source and the cache work and caching is not read-only: the call succeeds without an error,
        -- and the tile has the encoding of its part of the map.
        pub tile_get-Parts :
            (f : Fs) (s s' : S) (source : SourceType)
            → env.cache.tile_get t ctx s ≡ (cache_miss, t, ctx, s')
            → env.non_blocking ≡ false
            → t.tileset.source ≡ some source
            → exists f (lock_filename env.lockdir (resource_key (metatile_on t l))) ≡ false
            → denied f (lock_filename env.lockdir (resource_key (metatile_on t l))) ≡ false
            → (mt : Metatile) × (p : PartOf mt) × (run : Run env fs) × (tile_get env fs wait t ctx f
                  s
                ≡ some run)
              × (run.tile
                  ≡ record t { encoded_data = some (working.encode p.part.image); mtime = 0 })
              × (run.ctx ≡ ctx)
        unfolding tile_get
        tile_get-Parts f s s' source answer blocking sourced free may =
            let mt0 = metatile_on t l in
            let f' = create f (lock_filename env.lockdir (resource_key mt0)) in
            let (mt, p, h, only_tile, count) = alone in
            let r : Metatile × Context × S = (
              record mt { tiles = encoded p.part.entry p.part.image ∷ [] },
              ctx,
              working.store p.part.entry s',
            ) in
            (
              mt,
              p,
              unlocked env fs wait mt0 t f' r,
              ap (after_get env fs wait f) answer
                  ∙ missed f s' source blocking sourced
                  ∙ ap {B = Option (Run env fs)} (λ o. o >>= render_or_wait env fs wait t f s')
                      (metatile_get-on t l v ctx)
                  ∙ locked f s' mt0 free may
                  ∙ ap {B = Option (Run env fs)}
                      (λ o. o >>= λ r. some (unlocked env fs wait mt0 t f' r))
                      (render-Working mt0 mt p.part.entry p.part.image ctx s' h only_tile
                        p.part.has_image ok),
              unlocked-tile mt0 mt p.part.entry p.part.image f' (working.store p.part.entry s')
                  count,
              unlocked-ctx mt0 f' r,
            )
