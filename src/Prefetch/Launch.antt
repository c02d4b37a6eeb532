-- ===== src/Prefetch/Launch.antt =====
-- Which tiles get a thread in `mapcache_prefetch_tiles`.
use mapcache.Base.{
  ℕ, zero, suc, ◌<◌, ℤ, ◌==ℤ◌, eq_of_parts, quot_ℤ, true≢false, Bool, true, false, not, ◌&&◌, ◌≡◌,
  refl, ap, sym, subst, ◌∙◌, ◌⊎◌, inl, inr, some, List, [], ◌∷◌, get_elem?, Bool-cases, some-inj,
  arith,
}
use mapcache.Types.{Tileset, Tile}
use mapcache.Prefetch.{ThreadTile, is_same_metatile, is_rendered, mark_loop}

module _ (same_tileset : Tileset → Tileset → Bool) where
  -- Some launched tile of `ms` has the metatile of `t`, by the test of the code.
  abbrev Rendered : Tile → List ThreadTile → Type 0
  Rendered t ms =
      (i : ℕ) × (m : ThreadTile) × (get_elem? ms i ≡ some m)
      × (m.launch ≡ true)
      × (is_same_metatile same_tileset t m.tile ≡ true)

  is_rendered_sound :
      (t : Tile) (ms : List ThreadTile) → is_rendered same_tileset t ms ≡ true → Rendered t ms
  unfolding is_rendered
  is_rendered_sound t [] e = cc
  is_rendered_sound t (m ∷ ms) e =
      elim (Bool-cases (m.launch && is_same_metatile same_tileset t m.tile)) [
        | inl same ↦ (0, m, refl, ground (arith, same), ground (arith, same))
        | inr other ↦
            let (i, n, a, b, c) = is_rendered_sound t ms (rw other at e) in (suc i, n, a, b, c)
      ]

  is_rendered_complete :
      (t : Tile) (ms : List ThreadTile) (i : ℕ) {m : ThreadTile}
      → is_rendered same_tileset t ms ≡ false
      → get_elem? ms i ≡ some m
      → m.launch ≡ true
      → is_same_metatile same_tileset t m.tile ≡ false
  unfolding is_rendered
  is_rendered_complete t [] i e h l = cc
  is_rendered_complete t (n ∷ ms) zero {m} e h l =
      let same : n ≡ m = some-inj h in
      let l' : n.launch ≡ true = ap (λ x. x.launch) same ∙ l in
      ap (λ x. is_same_metatile same_tileset t x.tile) (sym same) ∙ ground (arith, e, l')
  is_rendered_complete t (n ∷ ms) (suc i) e h l =
      is_rendered_complete t ms i (ground (arith, e)) h l

  -- A launched tile of `marks` before the place `k` has the metatile of `t`.
  abbrev Earlier : Tile → List ThreadTile → ℕ → Type 0
  Earlier t marks k =
      (i : ℕ) × (n : ThreadTile) × (i < k)
      × (get_elem? marks i ≡ some n)
      × (n.launch ≡ true)
      × (is_same_metatile same_tileset t n.tile ≡ true)

  Earlier-suc :
      (before : List ThreadTile) (m : ThreadTile) (ms : List ThreadTile) (k : ℕ) (t : Tile)
      → Rendered t (m ∷ before) ⊎ Earlier t ms k
      → Rendered t before ⊎ Earlier t (m ∷ ms) (suc k)
  Earlier-suc before m ms k t (inl (zero, n, a, b, c)) = inr (0, n, omega arith, a, b, c)
  Earlier-suc before m ms k t (inl (suc i, n, a, b, c)) = inl (i, n, a, b, c)
  Earlier-suc before m ms k t (inr (i, n, h, a, b, c)) = inr (suc i, n, omega arith, a, b, c)

  not_launched :
      (before : List ThreadTile) (ts : List Tile) (k : ℕ) {m : ThreadTile}
      → get_elem? (mark_loop same_tileset before ts) k ≡ some m
      → m.launch ≡ false
      → Rendered m.tile before ⊎ Earlier m.tile (mark_loop same_tileset before ts) k
  unfolding mark_loop
  not_launched before [] k e l = cc
  not_launched before (t ∷ ts) zero {m} e l =
      let same = some-inj e in
      let r : not (is_rendered same_tileset t before) ≡ false = ap (λ x. x.launch) same ∙ l in
      inl (
        subst (λ x. Rendered x before) (ap (λ x. x.tile) same)
          (is_rendered_sound t before (ground (arith, r))))
  not_launched before (t ∷ ts) (suc k) {m} e l =
      let m0 : ThreadTile = record { tile = t; launch = not (is_rendered same_tileset t before) } in
      Earlier-suc before m0 (mark_loop same_tileset (m0 ∷ before) ts) k m.tile
        (not_launched (m0 ∷ before) ts k e l)

  launched :
      (before : List ThreadTile) (ts : List Tile) (k : ℕ) {m : ThreadTile}
      → get_elem? (mark_loop same_tileset before ts) k ≡ some m
      → m.launch ≡ true
      → ((i : ℕ) (n : ThreadTile)
          → get_elem? before i ≡ some n
          → n.launch ≡ true
          → is_same_metatile same_tileset m.tile n.tile ≡ false)
        × ((i : ℕ) (n : ThreadTile)
            → i < k
            → get_elem? (mark_loop same_tileset before ts) i ≡ some n
            → n.launch ≡ true
            → is_same_metatile same_tileset m.tile n.tile ≡ false)
  unfolding mark_loop
  launched before [] k e l = cc
  launched before (t ∷ ts) zero {m} e l =
      let same = some-inj e in
      let r : not (is_rendered same_tileset t before) ≡ true = ap (λ x. x.launch) same ∙ l in
      (
        (λ i n a b.
            ap (λ x. is_same_metatile same_tileset x.tile n.tile) (sym same)
            ∙ is_rendered_complete t before i (ground (arith, r)) a b),
        λ i n h. absurd (omega arith),
      )
  launched before (t ∷ ts) (suc k) {m} e l =
      let m0 : ThreadTile = record { tile = t; launch = not (is_rendered same_tileset t before) } in
      let (a, b) = launched (m0 ∷ before) ts k e l in ((λ i n. a (suc i) n), below m0 a b)
    where
      below :
          (m0 : ThreadTile)
          → ((i : ℕ) (n : ThreadTile)
              → get_elem? (m0 ∷ before) i ≡ some n
              → n.launch ≡ true
              → is_same_metatile same_tileset m.tile n.tile ≡ false)
          → ((i : ℕ) (n : ThreadTile)
              → i < k
              → get_elem? (mark_loop same_tileset (m0 ∷ before) ts) i ≡ some n
              → n.launch ≡ true
              → is_same_metatile same_tileset m.tile n.tile ≡ false)
          → (i : ℕ) (n : ThreadTile) → i < suc k
          → get_elem? (m0 ∷ mark_loop same_tileset (m0 ∷ before) ts) i ≡ some n
          → n.launch ≡ true
          → is_same_metatile same_tileset m.tile n.tile ≡ false
      below m0 a b zero n h = a zero n
      below m0 a b (suc i) n h = b i n (omega arith)

  mark_loop-tile :
      (before : List ThreadTile) (ts : List Tile) (k : ℕ) {m : ThreadTile}
      → get_elem? (mark_loop same_tileset before ts) k ≡ some m
      → get_elem? ts k ≡ some m.tile
  unfolding mark_loop
  mark_loop-tile before [] k e = cc
  mark_loop-tile before (t ∷ ts) zero e = ap (λ x. some x.tile) (some-inj e)
  mark_loop-tile before (t ∷ ts) (suc k) e =
      mark_loop-tile
        (record { tile = t; launch = not (is_rendered same_tileset t before) } ∷ before) ts k e

  -- Two tiles of one metatile: of one tileset, in the same column and row of metatiles.
  pub record SameMetatile (t u : Tile) : Type 0 where
    pub tileset : same_tileset t.tileset u.tileset ≡ true
    pub column : quot_ℤ t.x t.tileset.metasize_x ≡ quot_ℤ u.x u.tileset.metasize_x
    pub row : quot_ℤ t.y t.tileset.metasize_y ≡ quot_ℤ u.y u.tileset.metasize_y

  equal : (a b : ℤ) → (a ==ℤ b) ≡ true → a ≡ b
  equal a b e = eq_of_parts a b (ground arith)

  same_sound : (t u : Tile) → is_same_metatile same_tileset t u ≡ true → SameMetatile t u
  unfolding is_same_metatile
  same_sound t u e = record {
    tileset = ground arith;
    column =
        equal (quot_ℤ t.x t.tileset.metasize_x) (quot_ℤ u.x u.tileset.metasize_x) (ground arith);
    row = equal (quot_ℤ t.y t.tileset.metasize_y) (quot_ℤ u.y u.tileset.metasize_y) (ground arith);
  }

  ==ℤ_refl : (a : ℤ) → (a ==ℤ a) ≡ true
  ==ℤ_refl a = ground arith

  same_complete : (t u : Tile) → is_same_metatile same_tileset t u ≡ false → SameMetatile t u → ⊥
  unfolding is_same_metatile
  same_complete t u e s =
      let g : is_same_metatile same_tileset t u ≡ true =
        rw
          (
            s.tileset,
            s.column,
            s.row,
            ==ℤ_refl (quot_ℤ u.x u.tileset.metasize_x),
            ==ℤ_refl (quot_ℤ u.y u.tileset.metasize_y),
          )
          refl in
      true≢false g e

  -- What is said of the mark of the tile at the place `k`.
  pub record Mark (ts : List Tile) (k : ℕ) (m : ThreadTile) : Type 0 where
    pub own : get_elem? ts k ≡ some m.tile
    pub unique :
        m.launch ≡ true
        → (i : ℕ) (n : ThreadTile) → i < k
        → get_elem? (mark_loop same_tileset [] ts) i ≡ some n
        → n.launch ≡ true
        → SameMetatile m.tile n.tile
        → ⊥
    pub covered :
        m.launch ≡ false
        → (i : ℕ) × (n : ThreadTile) × (i < k)
          × (get_elem? (mark_loop same_tileset [] ts) i ≡ some n)
          × (n.launch ≡ true)
          × SameMetatile m.tile n.tile

  -- One thread is launched for a metatile: a launched tile has another tileset, or another column or row of
  -- metatiles, than every tile launched before it, and a tile without a thread has all three in common
  -- with one launched before it. Tiles are numbered into metatiles by the quotient that rounds to zero.
  pub mark_loop-Mark :
      (ts : List Tile) (k : ℕ) {m : ThreadTile}
      → get_elem? (mark_loop same_tileset [] ts) k ≡ some m
      → Mark ts k m
  mark_loop-Mark ts k {m} e = record {
    own = mark_loop-tile [] ts k e;
    unique = λ l i n h a b. same_complete m.tile n.tile ((launched [] ts k e l).1 i n h a b);
    covered = λ l. elim (not_launched [] ts k e l) [
      | inl (i, n, a, b, c) ↦ cc
      | inr (i, n, h, a, b, c) ↦ (i, n, h, a, b, same_sound m.tile n.tile c)
    ];
  }
