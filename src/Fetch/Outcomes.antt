-- ===== src/Fetch/Outcomes.antt =====
-- The data that `mapcache_tileset_tile_get` gives back for a tile that is not in the cache.
use mapcache.Base.{
  Text, ℤ, pos, ◌==ℤ◌, Bool, true, false, ◌≡◌, refl, ap, sym, ◌∙◌, ◌⊎◌, inl, inr, some, List, [],
  ◌∷◌, arith, some-inj, true≢false, mapped, Bool-cases, if_cases, ◌>>=◌, not, ◌&&◌, ◌==◌,
}
use mapcache.Context.{Context, check_error}
use mapcache.Types.{Tile, Map, Metatile}
use mapcache.Lock.{Files, lock_filename, lock_or_wait}
use mapcache.Tileset.{is_some}
use mapcache.Tileset.Metatiles.{metatile_get, resource_key}
use mapcache.Split.{split}
use mapcache.Split.Kept.{split-Retiled}
use mapcache.Fetch.{
  Env, Run, cache_miss, tile_get, after_get, on_answer, on_miss, render_or_wait, with_lock,
  unlocked, waited, render_metatile, after_render, store_split, is_stale, take_data, take_first,
  update_expires,
}

single : (n : ℤ) (b : Bool) → (n ==ℤ pos 1 && b) ≡ true → n ≡ pos 1
single n b e = ground arith

take_first-cases :
    (n : ℤ) (ts : List Tile) (t : Tile)
    → ((take_first n ts t).encoded_data ≡ t.encoded_data) ⊎ (n ≡ pos 1)
unfolding take_first
take_first-cases n [] t = inl refl
take_first-cases n (first ∷ ts) t = elim (Bool-cases (n ==ℤ pos 1 && is_some first.encoded_data)) [
  | inl e ↦ inr (single n (is_some first.encoded_data) e)
  | inr e ↦ inl (rw e refl)
]

take_data-cases :
    (mt : Metatile) (t : Tile)
    → ((take_data mt t).encoded_data ≡ t.encoded_data) ⊎ (mt.ntiles ≡ pos 1)
unfolding take_data
take_data-cases mt t = take_first-cases mt.ntiles mt.tiles t

module _ {S : Type 0} (env : Env S) where
  update_expires-data : (t : Tile) (s : S) → (update_expires env t s).encoded_data ≡ t.encoded_data
  unfolding update_expires
  update_expires-data t s =
      elim (Bool-cases (not (t.tileset.auto_expire ==ℤ pos 0) && not (t.mtime == 0))) [
        | inl e ↦ rw e refl
        | inr e ↦ rw e refl
      ]

  -- The number of tiles is that before the rendering.
  store_split-ntiles :
      (s : S) (mt : Metatile) (ctx : Context) → (store_split env s (mt, ctx)).0.ntiles ≡ mt.ntiles
  unfolding store_split
  store_split-ntiles s mt ctx = elim (Bool-cases (check_error ctx)) [
    | inl e ↦ rw e refl
    | inr e ↦ rw e refl
  ]

  after_render-ntiles :
      (mt : Metatile) (r : Map × Context × S) {r' : Metatile × Context × S}
      → after_render env mt r ≡ some r'
      → r'.0.ntiles ≡ mt.ntiles
  unfolding after_render
  after_render-ntiles mt (m, ctx, s) h = elim (if_cases (check_error ctx) h) [
    | inl (_, e) ↦ ap (λ x. x.0.ntiles) (sym (some-inj e))
    | inr (_, e) ↦
        let (r, b, a) =
          mapped {B = Metatile × Context × S} (split env.decode (record mt { map = m }) ctx)
            (store_split env s) e in
        let (ts, c) = split-Retiled env.decode (record mt { map = m }) ctx b in
        ap (λ x. x.0.ntiles) a ∙ store_split-ntiles s r.0 r.1 ∙ ap (λ x. x.ntiles) c
  ]

  render_metatile-ntiles :
      (mt : Metatile) (ctx : Context) (s : S) {r : Metatile × Context × S}
      → render_metatile env mt ctx s ≡ some r
      → r.0.ntiles ≡ mt.ntiles
  unfolding render_metatile
  render_metatile-ntiles mt ctx s h = after_render-ntiles mt (env.render_map mt.map ctx s) h

  module _ (fs : Files) (wait : fs.Fs → Text → fs.Fs) where
    open fs use {Fs, exists}

    -- The data of the tile after a call: what the tile had before, or the metatile has one tile and no
    -- other thread was rendering it.
    abbrev pub Data : Tile → Fs → Metatile → Tile → Type 0
    Data t f mt t' =
        (t'.encoded_data ≡ t.encoded_data)
        ⊎ ((mt.ntiles ≡ pos 1) × (exists f (lock_filename env.lockdir (resource_key mt)) ≡ false))

    with_lock-Data :
        (mt : Metatile) (t : Tile) (ctx : Context) (s : S) (f f' : Fs) (is_locked : Bool)
        {run : Run env fs}
        → (is_locked ≡ true → exists f (lock_filename env.lockdir (resource_key mt)) ≡ false)
        → with_lock env fs wait mt t ctx s (is_locked, f') ≡ some run
        → Data t f mt run.tile
    unfolding with_lock unlocked waited
    with_lock-Data mt t ctx s f f' true free h =
        let (r, e, a) = mapped (render_metatile env mt ctx s) (unlocked env fs wait mt t f') h in
        elim (take_data-cases r.0 t) [
          | inl same ↦
              inl
                (ap (λ x. x.tile.encoded_data) a ∙ update_expires-data (take_data r.0 t) r.2 ∙ same)
          | inr one ↦ inr (sym (render_metatile-ntiles mt ctx s e) ∙ one, free refl)
        ]
    with_lock-Data mt t ctx s f f' false free h = inl (
        ap (λ x. x.tile.encoded_data) (sym (some-inj h))
        ∙ update_expires-data t (env.others (resource_key mt) s))

    lock_free :
        (name : Text) (f : Fs)
        → (lock_or_wait fs wait env.lockdir name f).0 ≡ true
        → exists f (lock_filename env.lockdir name) ≡ false
    unfolding lock_or_wait
    lock_free name f e = elim (Bool-cases (exists f (lock_filename env.lockdir name))) [
      | inl held ↦
          absurd (true≢false {b = (lock_or_wait fs wait env.lockdir name f).0} e (rw held refl))
      | inr free ↦ free
    ]

    rendered-Data :
        (t : Tile) (ctx : Context) (f : Fs) (s : S) (mt : Metatile) {run : Run env fs}
        → metatile_get t ctx ≡ some (ctx, some mt)
        → (metatile_get t ctx >>= render_or_wait env fs wait t f s) ≡ some run
        → Data t f mt run.tile
    unfolding render_or_wait
    rendered-Data t ctx f s mt found h =
        let lock = lock_or_wait fs wait env.lockdir (resource_key mt) f in
        with_lock-Data mt t ctx s f lock.1 lock.0 (lock_free (resource_key mt) f)
          (ap (λ m. m >>= render_or_wait env fs wait t f s) (sym found) ∙ h)

    miss-Data :
        (t : Tile) (ctx : Context) (f : Fs) (s : S) (mt : Metatile) {run : Run env fs}
        → metatile_get t ctx ≡ some (ctx, some mt)
        → after_get env fs wait f (cache_miss, t, ctx, s) ≡ some run
        → Data t f mt run.tile
    unfolding after_get on_answer on_miss is_stale
    miss-Data t ctx f s mt found h = elim (if_cases (check_error ctx) h) [
      | inl (_, e) ↦ inl (ap (λ r. r.tile.encoded_data) (sym (some-inj e)))
      | inr (_, e) ↦ elim (if_cases (not (is_some t.tileset.source)) e) [
        | inl (_, e') ↦ inl (ap (λ r. r.tile.encoded_data) (sym (some-inj e')))
        | inr (_, e') ↦ elim (if_cases env.non_blocking e') [
          | inl (_, e'') ↦ inl (ap (λ r. r.tile.encoded_data) (sym (some-inj e'')))
          | inr (_, e'') ↦ rendered-Data t ctx f s mt found e''
        ]
      ]
    ]

    -- After a miss of the cache, which has left the tile `t'`, the tile gets data only if its metatile has a
    -- single tile and its lock was free. Otherwise it comes back with the data that it had, as after the wait
    -- for another thread.
    pub tile_get-Data :
        (t t' : Tile) (ctx ctx' : Context) (f : Fs) (s s' : S) (mt : Metatile) {run : Run env fs}
        → env.cache.tile_get t ctx s ≡ (cache_miss, t', ctx', s')
        → metatile_get t' ctx' ≡ some (ctx', some mt)
        → tile_get env fs wait t ctx f s ≡ some run
        → Data t' f mt run.tile
    unfolding tile_get
    tile_get-Data t t' ctx ctx' f s s' mt answer found h =
        miss-Data t' ctx' f s' mt found (ap (after_get env fs wait f) (sym answer) ∙ h)
