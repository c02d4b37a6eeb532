-- ===== src/GetMap/Tiles.antt =====
-- A map and its tiles: the last loop of `mapcache_fetch_maps` of lib/core.c.
use mapcache.Base.{
  zero, suc, ◌≤◌, ◌<◌, pos_part, Text, true, false, ◌≡◌, refl, ap, sym, subst, ◌∙◌, ◌⊎◌, inl, inr,
  some, List, [], ◌∷◌, Bool-cases, if_cases, some-inj, >>=-eq-some, arith, ltb, ◌==◌, if◌then◌else◌,
}
use mapcache.Context.{Context}
use mapcache.Types.{Dimensions, Tile, Map, Image}
use mapcache.Core.{count_data}
use mapcache.Core.Merge.{HasData, skip}
use mapcache.Maps.Assemble.{ResampleMode, Painter, assemble_map_tiles}
use mapcache.GetMap.{update_map, update_loop, finish_map}

-- The time of `n` is that of `m` or of a tile with data, and not before any of them.
pub record Newest (m n : Map) (ts : List Tile) : Type 0 where
  pub grows : m.mtime ≤ n.mtime
  pub after : (t : Tile) → HasData ts t → t.mtime ≤ n.mtime
  pub reached : (n.mtime ≡ m.mtime) ⊎ ((t : Tile) × HasData ts t × (n.mtime ≡ t.mtime))

skip_tile :
    (m n : Map) (u : Tile) (ts : List Tile) → u.nodata ≡ true → Newest m n ts → Newest m n (u ∷ ts)
skip_tile m n u ts e f = record {
  grows = f.grows;
  after = after;
  reached = elim f.reached [ inl a ↦ inl a | inr (t, d, a) ↦ inr (t, skip u ts t d, a) ];
}
  where
    after : (t : Tile) → HasData (u ∷ ts) t → t.mtime ≤ n.mtime
    after t (zero, a, d) =
        absurd (let x : u.nodata ≡ false = ap (λ y. y.nodata) (some-inj a) ∙ d in cc)
    after t (suc k, a, d) = f.after t (k, a, d)

take_tile :
    (m n : Map) (u : Tile) (ts : List Tile)
    → u.nodata ≡ false
    → Newest (update_map u m) n ts
    → Newest m n (u ∷ ts)
unfolding update_map
take_tile m n u ts e f = record {
  grows = earlier.0;
  after = after;
  reached = elim f.reached [
    | inl a ↦ elim (Bool-cases (ltb m.mtime u.mtime)) [
      | inl b ↦ inr (u, (0, refl, e), rw b at a)
      | inr b ↦ inl (rw b at a)
    ]
    | inr (t, d, a) ↦ inr (t, skip u ts t d, a)
  ];
}
  where
    earlier : (m.mtime ≤ n.mtime) × (u.mtime ≤ n.mtime)
    earlier = let g = f.grows in ground arith

    after : (t : Tile) → HasData (u ∷ ts) t → t.mtime ≤ n.mtime
    after t (zero, a, d) = subst (λ v. v.mtime ≤ n.mtime) (some-inj a) earlier.1
    after t (suc k, a, d) = f.after t (k, a, d)

pub update_loop-Newest : (ts : List Tile) (m : Map) → Newest m (update_loop ts m) ts
unfolding update_loop
update_loop-Newest [] m = record {
  grows = omega arith;
  after = λ t (k, e, d). cc;
  reached = inl refl;
}
update_loop-Newest (t ∷ ts) m = elim (Bool-cases t.nodata) [
  | inl e ↦
      let step : m ≡ (if t.nodata then m else update_map t m) = rw e refl in
      subst (λ u. Newest m (update_loop ts u) (t ∷ ts)) step
        (skip_tile m (update_loop ts m) t ts e (update_loop-Newest ts m))
  | inr e ↦
      let step : update_map t m ≡ (if t.nodata then m else update_map t m) = rw e refl in
      subst (λ u. Newest m (update_loop ts u) (t ∷ ts)) step
        (take_tile m (update_loop ts (update_map t m)) t ts e
          (update_loop-Newest ts (update_map t m)))
]

same_time : (m n n' : Map) (ts : List Tile) → n.mtime ≡ n'.mtime → Newest m n ts → Newest m n' ts
same_time m n n' ts e f = record {
  grows = subst (λ k. m.mtime ≤ k) e f.grows;
  after = λ t d. subst (λ k. t.mtime ≤ k) e (f.after t d);
  reached = elim f.reached [ inl a ↦ inl (sym e ∙ a) | inr (t, d, a) ↦ inr (t, d, sym e ∙ a) ];
}

-- Whether a map has data.
abbrev pub Shown : Map → List Tile → Type 0
Shown m ts =
    ((count_data ts ≡ 0) × (m.nodata ≡ true))
    ⊎ ((0 < count_data ts) × ((img : Image) × (m.raw_image ≡ some img)))

-- If a map is made of its tiles, then its time is that which it had before or the time of a tile with data, and
-- it is not before the time of any tile with data; it has an image if some tile has data, and is marked as
-- one without data otherwise.
pub finish_map-Newest :
    (table_set : Dimensions → Text → Text → Dimensions) (painter : Painter) (mode : ResampleMode)
    (m m' : Map) (ts : List Tile) (ctx ctx' : Context)
    → finish_map table_set painter mode m ts ctx ≡ some (m', ctx')
    → Newest m m' ts × Shown m' ts
unfolding finish_map
finish_map-Newest table_set painter mode m m' ts ctx ctx' h =
    elim (if_cases (count_data ts == 0) h) [
      | inl (e, f) ↦
          let g : record (update_loop ts m) { nodata = true } ≡ m' = ap (λ x. x.0) (some-inj f) in
          (
            same_time m (update_loop ts m) m' ts (ap (λ x. x.mtime) g) (update_loop-Newest ts m),
            inl (ground (arith, e), ap (λ x. x.nodata) (sym g)),
          )
      | inr (e, f) ↦
          let (r, a, b) =
            >>=-eq-some
              (assemble_map_tiles painter m.grid_link m.extent (pos_part m.width)
                (pos_part m.height) mode ts ctx)
              _ f in
          let g : record (update_loop ts m) { raw_image = some r.0 } ≡ m' =
            ap (λ x. x.0) (some-inj b) in
          (
            same_time m (update_loop ts m) m' ts (ap (λ x. x.mtime) g) (update_loop-Newest ts m),
            inr (ground (arith, e), (r.0, ap (λ x. x.raw_image) (sym g))),
          )
    ]
