-- ===== src/Fetch/Deletion.antt =====
-- What `mapcache_tileset_tile_delete` of lib/tileset.c leaves of a whole metatile in the cache.
use mapcache.Base.{
  ℕ, ◌+◌, zero, suc, ℤ, pos, ◌==ℤ◌, ◌==◌, ◌&&◌, Bool, true, false, ◌≡◌, refl, ap, ap₂, sym, subst,
  ◌∙◌, ◌⊎◌, ◌≢◌, true≢false, inl, inr, some, List, [], ◌∷◌, Bool-cases, arith, get_elem?, some-inj,
}
use mapcache.Context.{Context, check_error, clear_errors}
use mapcache.Types.{GridLevel, Tile, Metatile}
use mapcache.Tileset.Metatiles.{metatile_get, metatile_on, subtile}
use mapcache.Tileset.Metatiles.Blocks.{
  OnLevel, metatile_get-on, metatile_on-Numbers, tiles_loop_all, blx, bly, sx, sy,
}
use mapcache.Fetch.{Cache, Env, tile_delete, delete_loop, delete_others, forgive}

-- What the cache promises: `present` says which places it has data for, nothing comes back by a deletion,
-- and a tile that is deleted without an error, or is reported as not there, is gone. Any deletion may fail.
pub record Removing {S : Type 0} (cache : Cache S) : Type 0 where
  pub present : S → Tile → Bool
  pub by_place : (s : S) (t : Tile) → present s t ≡ present s (subtile t t.x t.y)
  pub removes :
      (t : Tile) (ctx : Context) (s : S)
      → (check_error (cache.tile_delete t ctx s).0 ≡ false)
        ⊎ ((cache.tile_delete t ctx s).0.errcode ≡ 404)
      → present (cache.tile_delete t ctx s).1 t ≡ false
  pub stays_gone :
      (t u : Tile) (ctx : Context) (s : S)
      → present s u ≡ false
      → present (cache.tile_delete t ctx s).1 u ≡ false

module _ {S : Type 0} (env : Env S) (removing : Removing env.cache) where
  open removing use {present, by_place, removes, stays_gone}

  -- An error that is not forgiven was there before, and it is not that a tile was not there.
  forgive-ok :
      (ctx : Context)
      → check_error (forgive env ctx) ≡ false
      → (check_error ctx ≡ false) ⊎ (ctx.errcode ≡ 404)
  unfolding forgive clear_errors
  forgive-ok ctx h = elim (Bool-cases (ctx.errcode == 404)) [
    | inl e ↦ inr (ground (arith, e))
    | inr e ↦ inl (rw e at h)
  ]

  forgive-failed :
      (ctx : Context) → check_error (forgive env ctx) ≡ true → (forgive env ctx).errcode ≢ 404
  unfolding forgive clear_errors
  forgive-failed ctx h = elim (Bool-cases (ctx.errcode == 404)) [
    | inl e ↦ absurd (let g : false ≡ true = rw e at h in cc)
    | inr e ↦ rw e (λ f. let g : (ctx.errcode == 404) ≡ true = rw f refl in true≢false g e)
  ]

  -- The loop has ended with an error that is not forgiven.
  abbrev pub Failed : Context → Type 0
  Failed ctx = (check_error ctx ≡ true) × (ctx.errcode ≢ 404)

  -- After deleting the tiles `us`: no data for them, nor for what was gone before.
  record Gone (us : List Tile) (s : S) (r : Context × S) : Type 0 where
    ok : check_error r.0 ≡ false
    all : (k : ℕ) (u : Tile) → get_elem? us k ≡ some u → present r.1 u ≡ false
    still : (u : Tile) → present s u ≡ false → present r.1 u ≡ false

  module _ (t : Tile) where
    same_place : (n m : ℤ) (a b : ℤ) → (n ==ℤ a && m ==ℤ b) ≡ true → (n ≡ a) × (m ≡ b)
    same_place n m a b e = ground arith

    OfMetatile : List Tile → Type 0
    OfMetatile us = (k : ℕ) (u : Tile) → get_elem? us k ≡ some u → u ≡ subtile t u.x u.y

    one_more :
        (u : Tile) (us : List Tile) (s s' : S) (r : Context × S)
        → Gone us s' r
        → present s' u ≡ false
        → ((w : Tile) → present s w ≡ false → present s' w ≡ false)
        → Gone (u ∷ us) s r
    one_more u us s s' r g gone keep = record {
      ok = g.ok;
      all = every;
      still = λ w e. g.still w (keep w e);
    }
      where
        every : (k : ℕ) (w : Tile) → get_elem? (u ∷ us) k ≡ some w → present r.1 w ≡ false
        every zero w e = subst (λ x. present r.1 x ≡ false) (some-inj e) (g.still u gone)
        every (suc k) w e = g.all k w e

    own_gone :
        (u : Tile) (s : S)
        → u ≡ subtile t u.x u.y
        → (u.x ≡ t.x) × (u.y ≡ t.y)
        → present s t ≡ false
        → present s u ≡ false
    own_gone u s e (x, y) gone =
        ap (present s) (e ∙ ap₂ (subtile t) x y) ∙ sym (by_place s t) ∙ gone

    step :
        (u : Tile) (us : List Tile) (s s' : S) (r : Context × S)
        → Gone us s' r ⊎ Failed r.0
        → present s' u ≡ false
        → ((w : Tile) → present s w ≡ false → present s' w ≡ false)
        → Gone (u ∷ us) s r ⊎ Failed r.0
    step u us s s' r (inl g) gone keep = inl (one_more u us s s' r g gone keep)
    step u us s s' r (inr f) gone keep = inr f

    delete_loop-Gone :
        (us : List Tile) (ctx : Context) (s : S)
        → OfMetatile us
        → check_error ctx ≡ false
        → present s t ≡ false
        → Gone us s (delete_loop env t us ctx s) ⊎ Failed (delete_loop env t us ctx s).0
    unfolding delete_loop OfMetatile
    delete_loop-Gone [] ctx s of ok gone =
        inl (record { ok = ok; all = λ k u e. cc; still = λ u e. e })
    delete_loop-Gone (u ∷ us) ctx s of ok gone = elim (Bool-cases (u.x ==ℤ t.x && u.y ==ℤ t.y)) [
      | inl e ↦ rw e (
          step u us s s (delete_loop env t us ctx s)
            (delete_loop-Gone us ctx s (λ k w h. of (suc k) w h) ok gone)
            (own_gone u s (of 0 u refl) (same_place u.x u.y t.x t.y e) gone) (λ w h. h))
      | inr e ↦
          let r = env.cache.tile_delete u ctx s in
          elim (Bool-cases (check_error (forgive env r.0))) [
            | inl bad ↦ rw (e, bad) (inr (bad, forgive-failed r.0 bad))
            | inr ok' ↦
                rw (e, ok')
                  (step u us s r.1 (delete_loop env t us (forgive env r.0) r.1)
                    (delete_loop-Gone us (forgive env r.0) r.1 (λ k w h. of (suc k) w h) ok'
                      (stays_gone u t ctx s gone))
                    (removes u ctx s (forgive-ok r.0 ok')) (λ w h. stays_gone u w ctx s h))
          ]
    ]

  tile_delete-loop :
      (t : Tile) (ctx ctx' : Context) (s : S) (mt : Metatile)
      → check_error (env.cache.tile_delete t ctx s).0 ≡ false
      → metatile_get t (env.cache.tile_delete t ctx s).0 ≡ some (ctx', some mt)
      → tile_delete env t true ctx s
        ≡ some (delete_loop env t mt.tiles ctx' (env.cache.tile_delete t ctx s).1)
  unfolding tile_delete delete_others
  tile_delete-loop t ctx ctx' s mt ok found = rw (ok, found) refl

  module _ (t : Tile) (l : GridLevel) (v : OnLevel t l) where
    metatile_on-OfMetatile : OfMetatile t (metatile_on t l).tiles
    unfolding OfMetatile
    metatile_on-OfMetatile k u h =
        let (i, j, _, _, _, e) =
          tiles_loop_all (λ i j. subtile t (pos (blx t l v + i)) (pos (bly t l v + j))) 0 (sx t l v)
            (sy t l v) k (ap (λ ts. get_elem? ts k) (sym (metatile_on-Numbers t l v).tiles) ∙ h) in
        e ∙ sym (ap₂ (subtile t) (ap (λ w. w.x) e) (ap (λ w. w.y) e))

    -- Let a tile lie on a level of its grid, in a cache that brings nothing back by a deletion, and in which a tile
    -- is gone that is deleted without an error or reported as not there. If its own deletion gives no
    -- error, then deleting it with its metatile ends, without an error and with no tile of the
    -- metatile left in the cache, whichever of the others were there, or with the error of another
    -- tile's deletion, which is not that the tile was not there.
    pub tile_delete-gone :
        (ctx : Context) (s : S)
        → check_error (env.cache.tile_delete t ctx s).0 ≡ false
        → (r : Context × S) × (tile_delete env t true ctx s ≡ some r)
          × (((check_error r.0 ≡ false)
                × ((k : ℕ) (u : Tile)
                    → get_elem? (metatile_on t l).tiles k ≡ some u
                    → present r.1 u ≡ false))
              ⊎ Failed r.0)
    tile_delete-gone ctx s ok =
        let got = env.cache.tile_delete t ctx s in
        let mt = metatile_on t l in
        let outcome =
          delete_loop-Gone t mt.tiles got.0 got.1 metatile_on-OfMetatile ok
            (removes t ctx s (inl ok)) in
        (
          delete_loop env t mt.tiles got.0 got.1,
          tile_delete-loop t ctx got.0 s mt ok (metatile_get-on t l v got.0),
          elim outcome [ inl g ↦ inl (g.ok, g.all) | inr f ↦ inr f ],
        )
