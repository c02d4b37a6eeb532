-- ===== src/Core/Merge.antt =====
-- The loop of `mapcache_core_get_tile` over the tiles: the time and the delay that it gathers.
use mapcache.Base.{
  ℕ, zero, suc, ◌≤◌, ℤ, ◌≤ℤ◌, ltb_ℤ, pos_part, neg_part, Bool, true, false, ◌≡◌, refl, ap, sym,
  subst, ◌∙◌, ◌⊎◌, inl, inr, Option, none, some, List, [], ◌∷◌, get_elem?, Bool-cases, if_cases,
  some-inj, arith, ltb,
}
use mapcache.Context.{Context, has_error}
use mapcache.Types.{Tile, Image}
use mapcache.Image.{merge}
use mapcache.Core.{
  Services, Merged, image_of, first_image, first_tile, overlay_image, overlay_tile, tile_step,
  and_then, merge_loop, later, sooner,
}

later-bounds : (a b : ℕ) → (a ≤ later a b) × (b ≤ later a b)
later-bounds a b = ground arith

sooner-bounds : (a b : ℤ) → (sooner a b ≤ℤ a) × (sooner a b ≤ℤ b)
sooner-bounds a b = ground arith

-- A result that some step gives.
pub step-some :
    {A B : Type 0} (r : Context × Option A) (f : A → Context × Option B) {ctx : Context} {b : B}
    → and_then r f ≡ (ctx, some b)
    → (c : Context) × (a : A) × (r ≡ (c, some a)) × (f a ≡ (ctx, some b))
step-some (c, none) f h = absurd (let e : none ≡ some _ = ap (λ x. x.1) h in cc)
step-some (c, some a) f h = (c, a, refl, h)

-- The times of a merge are bounds for a tile.
abbrev pub Bounds : Merged → Tile → Type 0
Bounds m t = (t.mtime ≤ m.mtime) × (m.expires ≤ℤ t.expires)

-- A later merge keeps the bounds of an earlier one.
abbrev Grows : Merged → Merged → Type 0
Grows m n = (m.mtime ≤ n.mtime) × (n.expires ≤ℤ m.expires)

-- A tile of the list that has data.
abbrev pub HasData : List Tile → Tile → Type 0
HasData ts t = (k : ℕ) × (get_elem? ts k ≡ some t) × (t.nodata ≡ false)

pub skip : (u : Tile) (ts : List Tile) (t : Tile) → HasData ts t → HasData (u ∷ ts) t
skip u ts t (k, e, d) = (suc k, e, d)

-- The merge `n` goes on from the merge `m` over the tiles `ts`: its time is that of `m` or of a tile with
-- data, and not before any of them, and likewise for its delay.
pub record Fresh (m n : Merged) (ts : List Tile) : Type 0 where
  pub grows : Grows m n
  pub bounds : (t : Tile) → HasData ts t → Bounds n t
  pub mtime_of : (n.mtime ≡ m.mtime) ⊎ ((t : Tile) × HasData ts t × (n.mtime ≡ t.mtime))
  pub expires_of : (n.expires ≡ m.expires) ⊎ ((t : Tile) × HasData ts t × (n.expires ≡ t.expires))

skip_tile :
    (m n : Merged) (u : Tile) (ts : List Tile) → u.nodata ≡ true → Fresh m n ts → Fresh m n (u ∷ ts)
skip_tile m n u ts e f = record {
  grows = f.grows;
  bounds = bounds;
  mtime_of = elim f.mtime_of [ inl a ↦ inl a | inr (t, d, a) ↦ inr (t, skip u ts t d, a) ];
  expires_of = elim f.expires_of [ inl a ↦ inl a | inr (t, d, a) ↦ inr (t, skip u ts t d, a) ];
}
  where
    bounds : (t : Tile) → HasData (u ∷ ts) t → Bounds n t
    bounds t (zero, a, d) =
        absurd (let x : u.nodata ≡ false = ap (λ y. y.nodata) (some-inj a) ∙ d in cc)
    bounds t (suc k, a, d) = f.bounds t (k, a, d)

later-of : (a b : ℕ) → (later a b ≡ a) ⊎ (later a b ≡ b)
later-of a b = elim (Bool-cases (ltb a b)) [ inl e ↦ inr (rw e refl) | inr e ↦ inl (rw e refl) ]

sooner-of : (a b : ℤ) → (sooner a b ≡ a) ⊎ (sooner a b ≡ b)
sooner-of a b = elim (Bool-cases (ltb_ℤ b a)) [ inl e ↦ inr (rw e refl) | inr e ↦ inl (rw e refl) ]

take_tile :
    (m p n : Merged) (u : Tile) (ts : List Tile)
    → u.nodata ≡ false
    → p.mtime ≡ later m.mtime u.mtime
    → p.expires ≡ sooner m.expires u.expires
    → Fresh p n ts
    → Fresh m n (u ∷ ts)
take_tile m p n u ts e a b f = record {
  grows = (
    omega (arith, a, later-bounds m.mtime u.mtime, f.grows.0),
    omega (arith, ap pos_part b, ap neg_part b, sooner-bounds m.expires u.expires, f.grows.1),
  );
  bounds = bounds;
  mtime_of = elim f.mtime_of [
    | inl c ↦ elim (later-of m.mtime u.mtime) [
      | inl d ↦ inl (c ∙ a ∙ d)
      | inr d ↦ inr (u, (0, refl, e), c ∙ a ∙ d)
    ]
    | inr (t, d, c) ↦ inr (t, skip u ts t d, c)
  ];
  expires_of = elim f.expires_of [
    | inl c ↦ elim (sooner-of m.expires u.expires) [
      | inl d ↦ inl (c ∙ b ∙ d)
      | inr d ↦ inr (u, (0, refl, e), c ∙ b ∙ d)
    ]
    | inr (t, d, c) ↦ inr (t, skip u ts t d, c)
  ];
}
  where
    own : Bounds n u
    own = (
      omega (arith, a, later-bounds m.mtime u.mtime, f.grows.0),
      omega (arith, ap pos_part b, ap neg_part b, sooner-bounds m.expires u.expires, f.grows.1),
    )

    bounds : (t : Tile) → HasData (u ∷ ts) t → Bounds n t
    bounds t (zero, c, d) = subst (Bounds n) (some-inj c) own
    bounds t (suc k, c, d) = f.bounds t (k, c, d)

same : (m : Merged) → Fresh m m []
same m = record {
  grows = (omega arith, omega arith);
  bounds = λ t (k, e, d). cc;
  mtime_of = inl refl;
  expires_of = inl refl;
}

module _ (env : Services) where
  first_image-Taken :
      (t : Tile) (r : Context × Option Image) {ctx : Context} {n : Merged}
      → first_image env t r ≡ (ctx, some n)
      → (n.mtime ≡ t.mtime) × (n.expires ≡ t.expires) × (n.first ≡ some t)
  unfolding first_image
  first_image-Taken t (c, none) h = absurd (let e : none ≡ some _ = ap (λ x. x.1) h in cc)
  first_image-Taken t (c, some img) {n = n} h =
      let e : some _ ≡ some n = ap (λ x. x.1) h in
      (
        ap (λ x. x.mtime) (sym (some-inj e)),
        ap (λ x. x.expires) (sym (some-inj e)),
        ap (λ x. x.first) (sym (some-inj e)),
      )

  pub first_tile-Taken :
      (several : Bool) (t : Tile) (m : Merged) {ctx : Context} {n : Merged}
      → first_tile env several t m ≡ (ctx, some n)
      → (n.mtime ≡ t.mtime) × (n.expires ≡ t.expires) × (n.first ≡ some t)
  unfolding first_tile
  first_tile-Taken true t m h = first_image-Taken t (image_of env t m.ctx) h
  first_tile-Taken false t m {n = n} h =
      let e : some _ ≡ some n = ap (λ x. x.1) h in
      (
        ap (λ x. x.mtime) (sym (some-inj e)),
        ap (λ x. x.expires) (sym (some-inj e)),
        ap (λ x. x.first) (sym (some-inj e)),
      )

  overlay_image-Kept :
      (m : Merged) (r : Context × Option Image) {ctx : Context} {n : Merged}
      → overlay_image env m r ≡ (ctx, some n)
      → (n.mtime ≡ m.mtime) × (n.expires ≡ m.expires) × (n.first ≡ m.first)
  unfolding overlay_image
  overlay_image-Kept m (c, none) h = absurd (let e : none ≡ some _ = ap (λ x. x.1) h in cc)
  overlay_image-Kept m (c, some overlay) {n = n} h =
      let (base, ctx') : Image × Context = merge m.base overlay c in
      elim (if_cases (has_error ctx') (ap (λ x. x.1) h)) [
        | inl (_, e) ↦ absurd (let f : none ≡ some n = e in cc)
        | inr (_, e) ↦ (
          ap (λ x. x.mtime) (sym (some-inj e)),
          ap (λ x. x.expires) (sym (some-inj e)),
          ap (λ x. x.first) (sym (some-inj e)),
        )
      ]

  overlay_tile-Kept :
      (t : Tile) (m : Merged) {ctx : Context} {n : Merged}
      → overlay_tile env t m ≡ (ctx, some n)
      → (n.mtime ≡ later m.mtime t.mtime)
        × (n.expires ≡ sooner m.expires t.expires)
        × (n.first ≡ m.first)
  unfolding overlay_tile
  overlay_tile-Kept t m h =
      overlay_image-Kept
        (record m { mtime = later m.mtime t.mtime; expires = sooner m.expires t.expires })
        (image_of env t m.ctx) h

  tile_step-started :
      (several : Bool) (t v : Tile) (m : Merged)
      → m.first ≡ some v
      → tile_step env several t m ≡ overlay_tile env t m
  unfolding tile_step
  tile_step-started several t v m e = rw e refl

  pub tile_step-first :
      (several : Bool) (t : Tile) (m : Merged)
      → m.first ≡ none
      → tile_step env several t m ≡ first_tile env several t m
  unfolding tile_step
  tile_step-first several t m e = rw e refl

  pub merge_loop-Fresh :
      (several : Bool) (ts : List Tile) (v : Tile) (m : Merged) {ctx : Context} {n : Merged}
      → m.first ≡ some v
      → merge_loop env several ts m ≡ (ctx, some n)
      → Fresh m n ts
  unfolding merge_loop
  merge_loop-Fresh several [] v m {n = n} e h =
      subst (λ x. Fresh m x []) (some-inj (ap (λ x. x.1) h)) (same m)
  merge_loop-Fresh several (t ∷ ts) v m {n = n} e h = elim (if_cases t.nodata h) [
    | inl (d, h') ↦ skip_tile m n t ts d (merge_loop-Fresh several ts v m e h')
    | inr (d, h') ↦
        let (c, p, a, b) = step-some (tile_step env several t m) (merge_loop env several ts) h' in
        let (x, y, z) = overlay_tile-Kept t m (sym (tile_step-started several t v m e) ∙ a) in
        take_tile m p n t ts d x y (merge_loop-Fresh several ts v p (z ∙ e) b)
  ]
