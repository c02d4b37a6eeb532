-- ===== src/Fetch/Tests.antt =====
-- A cache and a source to run on, and the theorems about fetching tiles at concrete inputs.
use mapcache.Base.{
  ℕ, ◌*◌, pos, Text, codes, show_ℤ, text_eq, text_eq_refl, true, false, Bool-cases, ◌≡◌, refl, ap,
  ◌⊎◌, ◌∙◌, inl, inr, none, some, List, [], ◌∷◌, ◌++◌, arith, get_elem?, if◌then◌else◌,
}
use mapcache.Context.{Context, init, check_error}
use mapcache.Types.{Tile, Map, Metatile, SourceType}
use mapcache.Samples.{
  png, small_tile, small_level, small_on_level, grey, listed_files, names_exist, names_remove,
  exist-remove,
}
use mapcache.Tileset.Metatiles.{metatile_on}
use mapcache.Tileset.Metatiles.Blocks.{OnLevel, metatile_get-on, sx, sy}
use mapcache.Split.Pixels.{Parts}
use mapcache.Fetch.{success, cache_miss, Cache, Env, Run, tile_get, tile_delete}
use mapcache.Fetch.Locks.{KeepsMap, Fate, tile_get-Fate}
use mapcache.Fetch.Outcomes.{Data, tile_get-Data}
use mapcache.Fetch.Deletion.{Removing, Failed, tile_delete-gone}
use mapcache.Fetch.Rendered.{Working, tile_get-Parts}

abbrev key : Tile → Text
key t = show_ℤ t.x ++ b',' ∷ show_ℤ t.y

-- A cache that remembers which tiles it has, and a source that draws everything grey.
abbrev keys_cache : Cache (List Text)
keys_cache = record {
  tile_get = λ t ctx s. (if names_exist s (key t) then success else cache_miss, t, ctx, s);
  tile_delete = λ t ctx s. (ctx, names_remove s (key t));
  tile_set = λ t ctx s. (record t { encoded_data = some (codes "grey") }, ctx, key t ∷ s);
  tile_multi_set = none;
}

abbrev grey_env : Env (List Text)
grey_env = record {
  cache = keys_cache;
  render_map = λ m ctx s. (record m { raw_image = some (grey 4) }, ctx, s);
  decode = λ b ctx. (ctx, none);
  now = λ s. 0;
  non_blocking = false;
  lockdir = codes "/tmp";
  others = λ k s. s;
}

abbrev grey_working : Working grey_env (grey 4)
grey_working = record {
  encode = λ img. codes "grey";
  store = λ t s. key t ∷ s;
  draws = λ m ctx s. refl;
  single = refl;
  sets = λ t part ctx s e. refl;
}

abbrev one : OnLevel (small_tile (pos 1)) small_level
one = small_on_level 1 (omega arith) (omega arith)

abbrev no_wait : List Text → Text → List Text
no_wait f n = f

one_alone : sx (small_tile (pos 1)) small_level one * sy (small_tile (pos 1)) small_level one ≡ 1
one_alone = refl

tile_get-Parts_example :
    (mt : Metatile) × (p : Parts (small_tile (pos 1)) small_level one 1 refl (grey 4) mt 0 0)
    × (run : Run grey_env listed_files) × (tile_get grey_env listed_files no_wait
          (small_tile (pos 1))
          init
          []
          []
        ≡ some run)
    × (run.tile ≡ record (small_tile (pos 1)) { encoded_data = some (codes "grey"); mtime = 0 })
    × (run.ctx ≡ init)
tile_get-Parts_example =
    tile_get-Parts grey_env (grey 4) grey_working (small_tile (pos 1)) small_level one 1 refl
      one_alone init refl png refl refl refl listed_files no_wait [] [] [] SourceType.wms refl refl
      refl refl refl

-- The call of the example ends.
ends :
    (run : Run grey_env listed_files) × (tile_get grey_env listed_files no_wait
        (small_tile (pos 1))
        init
        []
        []
      ≡ some run)
ends =
    let (mt, p, run, e, _, _) =
      tile_get-Parts grey_env (grey 4) grey_working (small_tile (pos 1)) small_level one 1 refl
        one_alone init refl png refl refl refl listed_files no_wait [] [] [] SourceType.wms refl
        refl refl refl refl in
    (run, e)

keeps_map : (m : Map) (ctx : Context) (s : List Text) → KeepsMap m (grey_env.render_map m ctx s).0
keeps_map m ctx s = record { tileset = refl; grid_link = refl; dimensions = refl }

tile_get-Fate_example : Fate grey_env listed_files no_wait [] ends.0.locks
tile_get-Fate_example =
    tile_get-Fate grey_env listed_files no_wait keeps_map (small_tile (pos 1)) init [] [] ends.1

tile_get-Data_example :
    Data grey_env listed_files no_wait
      (small_tile (pos 1))
      []
      (metatile_on (small_tile (pos 1)) small_level)
      ends.0.tile
tile_get-Data_example =
    tile_get-Data grey_env listed_files no_wait (small_tile (pos 1)) (small_tile (pos 1)) init init
      [] [] [] (metatile_on (small_tile (pos 1)) small_level) refl
      (metatile_get-on (small_tile (pos 1)) small_level one init) ends.1

-- The cache keeps what it promises.
abbrev keys_removing : Removing keys_cache
keys_removing = record {
  present = λ s t. names_exist s (key t);
  by_place = λ s t. refl;
  removes = λ t ctx s h. removed s (key t);
  stays_gone = λ t u ctx s h. still_removed s (key t) (key u) h;
}
  where
    removed : (s : List Text) (k : Text) → names_exist (names_remove s k) k ≡ false
    removed s k =
        exist-remove s k k ∙ ap (λ b. if b then false else names_exist s k) (text_eq_refl k)

    still_removed :
        (s : List Text) (k m : Text)
        → names_exist s m ≡ false
        → names_exist (names_remove s k) m ≡ false
    still_removed s k m h = elim (Bool-cases (text_eq k m)) [
      | inl e ↦ exist-remove s k m ∙ ap (λ b. if b then false else names_exist s m) e
      | inr e ↦ exist-remove s k m ∙ ap (λ b. if b then false else names_exist s m) e ∙ h
    ]

abbrev two : OnLevel (small_tile (pos 2)) small_level
two = small_on_level 2 (omega arith) (omega arith)

-- The four tiles of the metatile are in the cache.
abbrev four_keys : List Text
four_keys = codes "0,0" ∷ codes "0,1" ∷ codes "1,0" ∷ codes "1,1" ∷ []

tile_delete-gone_example :
    (r : Context × List Text) × (tile_delete grey_env (small_tile (pos 2)) true init four_keys
      ≡ some r)
    × (((check_error r.0 ≡ false)
          × ((k : ℕ) (u : Tile)
              → get_elem? (metatile_on (small_tile (pos 2)) small_level).tiles k ≡ some u
              → names_exist r.1 (key u) ≡ false))
        ⊎ Failed grey_env keys_removing r.0)
tile_delete-gone_example =
    tile_delete-gone grey_env keys_removing (small_tile (pos 2)) small_level two init four_keys refl
