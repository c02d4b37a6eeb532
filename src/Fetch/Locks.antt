-- ===== src/Fetch/Locks.antt =====
-- The lock files before and after a call of `mapcache_tileset_tile_get` of lib/tileset.c.
use mapcache.Base.{
  Text, Bool, true, false, ◌≡◌, refl, ap, sym, ◌∙◌, ◌⊎◌, inl, inr, Option, none, some, text_eq,
  text_eq_sound, >>=-eq-some, some-inj, mapped, Bool-cases, if_cases, if◌then◌else◌, not,
}
use mapcache.Context.{Context, check_error}
use mapcache.Types.{Tile, Map, Metatile}
use mapcache.Lock.{Files, lock_filename, lock_or_wait, unlock}
use mapcache.Tileset.{is_some}
use mapcache.Tileset.Metatiles.{metatile_get, resource_key}
use mapcache.Split.{split}
use mapcache.Split.Kept.{Retiled, split-Retiled}
use mapcache.Fetch.{
  Env, Run, CacheResult, success, cache_miss, failure, tile_get, after_get, on_answer, after_delete,
  on_miss, render_or_wait, with_lock, unlocked, waited, render_metatile, after_render, store_split,
  tile_delete, is_stale,
}

-- What `render_map` leaves of the map that it renders: what it is a map of.
pub record KeepsMap (m n : Map) : Type 0 where
  pub tileset : n.tileset ≡ m.tileset
  pub grid_link : n.grid_link ≡ m.grid_link
  pub dimensions : n.dimensions ≡ m.dimensions

key_of_kept :
    (mt : Metatile) (m : Map)
    → KeepsMap mt.map m
    → resource_key (record mt { map = m }) ≡ resource_key mt
unfolding resource_key
key_of_kept mt m k = λ i. resource_key (record mt {
  map = record m { tileset = k.tileset i; grid_link = k.grid_link i; dimensions = k.dimensions i };
})

key_of_tiles : (mt mt' : Metatile) → Retiled mt mt' → resource_key mt' ≡ resource_key mt
unfolding resource_key
key_of_tiles mt mt' (ts, e) = ap resource_key e

module _ {S : Type 0} (env : Env S) where
  store_split-key :
      (s : S) (mt : Metatile) (ctx : Context)
      → resource_key (store_split env s (mt, ctx)).0 ≡ resource_key mt
  unfolding store_split resource_key
  store_split-key s mt ctx = elim (Bool-cases (check_error ctx)) [
    | inl e ↦ rw e refl
    | inr e ↦ rw e refl
  ]

  -- The lock of a metatile after it is rendered has the name that it had before.
  module _ (keeps : (m : Map) (ctx : Context) (s : S) → KeepsMap m (env.render_map m ctx s).0) where
    after_render-key :
        (mt : Metatile) (r : Map × Context × S) {r' : Metatile × Context × S}
        → after_render env mt r ≡ some r'
        → resource_key r'.0 ≡ resource_key (record mt { map = r.0 })
    unfolding after_render
    after_render-key mt (m, ctx, s) h = elim (if_cases (check_error ctx) h) [
      | inl (_, e) ↦ ap (λ x. resource_key x.0) (sym (some-inj e))
      | inr (_, e) ↦
          let (r, c, a) =
            mapped {B = Metatile × Context × S} (split env.decode (record mt { map = m }) ctx)
              (store_split env s) e in
          ap (λ x. resource_key x.0) a
          ∙ store_split-key s r.0 r.1
          ∙ key_of_tiles (record mt { map = m }) r.0
              (split-Retiled env.decode (record mt { map = m }) ctx c)
    ]

    render_metatile-key :
        (mt : Metatile) (ctx : Context) (s : S) {r : Metatile × Context × S}
        → render_metatile env mt ctx s ≡ some r
        → resource_key r.0 ≡ resource_key mt
    unfolding render_metatile
    render_metatile-key mt ctx s e =
        after_render-key mt (env.render_map mt.map ctx s) e
        ∙ key_of_kept mt (env.render_map mt.map ctx s).0 (keeps mt.map ctx s)

  module _ (fs : Files) (wait : fs.Fs → Text → fs.Fs) where
    open fs use {Fs, exists, denied, create, remove, exists-create, exists-remove}

    -- What becomes of the lock files `f` of the others: `g` has the same ones, or the call has waited.
    pub Fate : Fs → Fs → Type 0
    Fate f g =
        ((n : Text) → exists g n ≡ exists f n)
        ⊎ ((key : Text) × (exists f (lock_filename env.lockdir key) ≡ true)
            × (g ≡ wait f (lock_filename env.lockdir key)))

    given_back :
        (n : Text) (f : Fs)
        → exists f n ≡ false
        → (m : Text) → exists (remove (create f n) n) m ≡ exists f m
    given_back n f free m = elim (Bool-cases (text_eq n m)) [
      | inl e ↦ rw (exists-remove, e) (sym (ap (exists f) (sym (text_eq_sound n m e)) ∙ free))
      | inr e ↦ rw (exists-remove, exists-create, e) refl
    ]

    module _
        (keeps : (m : Map) (ctx : Context) (s : S) → KeepsMap m (env.render_map m ctx s).0) where
      abbrev lock_name : Metatile → Text
      lock_name mt = lock_filename env.lockdir (resource_key mt)

      locked_run :
          (t : Tile) (f : Fs) (s : S) (mt : Metatile) (ctx : Context) {run : Run env fs}
          → exists f (lock_name mt) ≡ false
          → with_lock env fs wait mt t ctx s (true, create f (lock_name mt)) ≡ some run
          → Fate f run.locks
      unfolding with_lock unlocked unlock Fate
      locked_run t f s mt ctx free h =
          let (r, e, a) =
            mapped (render_metatile env mt ctx s)
              (unlocked env fs wait mt t (create f (lock_name mt))) h in
          let same : lock_name r.0 ≡ lock_name mt =
            ap (lock_filename env.lockdir) (render_metatile-key keeps mt ctx s e) in
          inl (λ n.
            ap (λ x. exists x.locks n) a
            ∙ ap (λ x. exists (remove (create f (lock_name mt)) x) n) same
            ∙ given_back (lock_name mt) f free n)

      waited_run :
          (t : Tile) (f : Fs) (s : S) (mt : Metatile) (ctx : Context) {run : Run env fs}
          → exists f (lock_name mt) ≡ true
          → with_lock env fs wait mt t ctx s (false, wait f (lock_name mt)) ≡ some run
          → Fate f run.locks
      unfolding with_lock waited Fate
      waited_run t f s mt ctx held h =
          inr (resource_key mt, held, ap (λ x. x.locks) (sym (some-inj h)))

      -- A lock that may not be made: nothing is rendered and no file changes.
      refused_run :
          (t : Tile) (f : Fs) (s : S) (mt : Metatile) (ctx : Context) {run : Run env fs}
          → with_lock env fs wait mt t ctx s (false, f) ≡ some run
          → Fate f run.locks
      unfolding with_lock waited Fate
      refused_run t f s mt ctx h = inl (λ n. ap (λ x. exists x.locks n) (sym (some-inj h)))

      abbrev answered : Text → Fs → Bool → Bool → Bool × Fs
      answered name f b c =
          if b then (false, wait f name) else if c then (false, f) else (true, create f name)

      render_or_wait-Fate :
          (t : Tile) (f : Fs) (s : S) (found : Context × Option Metatile) {run : Run env fs}
          → render_or_wait env fs wait t f s found ≡ some run
          → Fate f run.locks
      unfolding render_or_wait lock_or_wait
      render_or_wait-Fate t f s (ctx, none) h = cc
      render_or_wait-Fate t f s (ctx, some mt) h = elim (Bool-cases (exists f (lock_name mt))) [
        | inl held ↦ waited_run t f s mt ctx held (
            ap
              (λ b.
                with_lock env fs wait mt t ctx s
                  (answered (lock_name mt) f b (denied f (lock_name mt))))
              (sym held)
            ∙ h)
        | inr free ↦
            let tried =
              ap
                (λ b.
                  with_lock env fs wait mt t ctx s
                    (answered (lock_name mt) f b (denied f (lock_name mt))))
                (sym free)
              ∙ h in
            elim (Bool-cases (denied f (lock_name mt))) [
              | inl barred ↦ refused_run t f s mt ctx (
                  ap (λ c. with_lock env fs wait mt t ctx s (answered (lock_name mt) f false c))
                    (sym barred)
                  ∙ tried)
              | inr may ↦ locked_run t f s mt ctx free (
                  ap (λ c. with_lock env fs wait mt t ctx s (answered (lock_name mt) f false c))
                    (sym may)
                  ∙ tried)
            ]
      ]

      untouched :
          (f : Fs) {run : Run env fs} (r : Run env fs)
          → r.locks ≡ f
          → some r ≡ some run
          → Fate f run.locks
      unfolding Fate
      untouched f r same h =
          inl (λ n. ap (λ x. exists x.locks n) (sym (some-inj h)) ∙ ap (λ x. exists x n) same)

      on_miss-Fate :
          (t : Tile) (ctx : Context) (f : Fs) (s : S) {run : Run env fs}
          → on_miss env fs wait t ctx f s ≡ some run
          → Fate f run.locks
      unfolding on_miss
      on_miss-Fate t ctx f s h = elim (if_cases (not (is_some t.tileset.source)) h) [
        | inl (_, e) ↦ untouched f _ refl e
        | inr (_, e) ↦ elim (if_cases env.non_blocking e) [
          | inl (_, e') ↦ untouched f _ refl e'
          | inr (_, e') ↦
              let (found, _, a) =
                >>=-eq-some (metatile_get t ctx) (render_or_wait env fs wait t f s) e' in
              render_or_wait-Fate t f s found a
        ]
      ]

      after_delete-Fate :
          (t : Tile) (f : Fs) (r : Context × S) {run : Run env fs}
          → after_delete env fs wait t f r ≡ some run
          → Fate f run.locks
      unfolding after_delete
      after_delete-Fate t f (ctx, s) h = elim (if_cases (check_error ctx) h) [
        | inl (_, e) ↦ untouched f _ refl e
        | inr (_, e) ↦ on_miss-Fate t ctx f s e
      ]

      on_answer-Fate :
          (ret : CacheResult) (t : Tile) (ctx : Context) (f : Fs) (s : S) {run : Run env fs}
          → on_answer env fs wait ret t ctx f s ≡ some run
          → Fate f run.locks
      unfolding on_answer
      on_answer-Fate cache_miss t ctx f s h = on_miss-Fate t ctx f s h
      on_answer-Fate success t ctx f s h = untouched f _ refl h
      on_answer-Fate failure t ctx f s h = untouched f _ refl h

      after_get-Fate :
          (f : Fs) (got : CacheResult × Tile × Context × S) {run : Run env fs}
          → after_get env fs wait f got ≡ some run
          → Fate f run.locks
      unfolding after_get
      after_get-Fate f (ret, t, ctx, s) h = elim (if_cases (check_error ctx) h) [
        | inl (_, e) ↦ untouched f _ refl e
        | inr (_, e) ↦ elim (if_cases (is_stale env ret t s) e) [
          | inl (_, e') ↦
              let (r, _, a) =
                >>=-eq-some (tile_delete env t true ctx s) (after_delete env fs wait t f) e' in
              after_delete-Fate t f r a
          | inr (_, e') ↦ on_answer-Fate ret t ctx f s e'
        ]
      ]

      -- Fetching a tile leaves no lock behind, whichever way it ends, errors of the source, of the split and
      -- of the cache included: afterwards the same lock files exist as before (also if the lock could not be made), or the lock of the metatile
      -- was held by another thread, and the files are those that the wait for it has ended with. The source
      -- must leave the tileset, the grid and the dimensions of the map that it renders.
      pub tile_get-Fate :
          (t : Tile) (ctx : Context) (f : Fs) (s : S) {run : Run env fs}
          → tile_get env fs wait t ctx f s ≡ some run
          → Fate f run.locks
      unfolding tile_get
      tile_get-Fate t ctx f s h = after_get-Fate f (env.cache.tile_get t ctx s) h
