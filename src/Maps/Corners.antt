-- ===== src/Maps/Corners.antt =====
-- The least and the greatest column and row of the tiles of a map: the first loop of
-- `mapcache_tileset_assemble_map_tiles` of lib/tileset.c.
use mapcache.Base.{
  zero, suc, ℤ, ◌≤ℤ◌, ltb_ℤ, eq_of_parts, pos_part, neg_part, Bool, true, false, ◌≡◌, refl, ap, sym,
  subst, ◌∙◌, ◌⊎◌, inl, inr, none, some, List, [], ◌∷◌, some-inj, arith, if◌then◌else◌,
}
use mapcache.Types.{Tile}
use mapcache.Maps.Loops.{Among, still_there}
use mapcache.Maps.Assemble.{Corners, corners_loop}

-- The least of a number of each tile and of `a`, and the greatest.
pub least : (Tile → ℤ) → List Tile → ℤ → ℤ
least f [] a = a
least f (t ∷ ts) a = least f ts (if ltb_ℤ (f t) a then f t else a)

pub greatest : (Tile → ℤ) → List Tile → ℤ → ℤ
greatest f [] a = a
greatest f (t ∷ ts) a = greatest f ts (if ltb_ℤ a (f t) then f t else a)

pub corners_loop_lem :
    (ts : List Tile) (c : Corners)
    → ((corners_loop ts c).min_x ≡ least (λ t. t.x) ts c.min_x)
      × ((corners_loop ts c).min_y ≡ least (λ t. t.y) ts c.min_y)
      × ((corners_loop ts c).max_y ≡ greatest (λ t. t.y) ts c.max_y)
unfolding corners_loop least greatest
corners_loop_lem [] c = (refl, refl, refl)
corners_loop_lem (t ∷ ts) c = corners_loop_lem ts (record {
  min_x = if ltb_ℤ t.x c.min_x then t.x else c.min_x;
  min_y = if ltb_ℤ t.y c.min_y then t.y else c.min_y;
  max_x = if ltb_ℤ c.max_x t.x then t.x else c.max_x;
  max_y = if ltb_ℤ c.max_y t.y then t.y else c.max_y;
})

-- A bound that some tile reaches, or the start.
abbrev pub Reached : (Tile → ℤ) → List Tile → ℤ → ℤ → Type 0
Reached f ts a m = (m ≡ a) ⊎ ((t : Tile) × Among ts t × (f t ≡ m))

carry_on :
    (f : Tile → ℤ) (t : Tile) (ts : List Tile) (a b m : ℤ)
    → (b ≡ a) ⊎ (b ≡ f t)
    → Reached f ts b m
    → Reached f (t ∷ ts) a m
carry_on f t ts a b m (inl e) (inl h) = inl (h ∙ e)
carry_on f t ts a b m (inr e) (inl h) = inr (t, (0, refl), sym (h ∙ e))
carry_on f t ts a b m e (inr (u, k, h)) = inr (u, still_there t u ts k, h)

pub first_or_later : (t u : Tile) (ts : List Tile) → Among (t ∷ ts) u → (t ≡ u) ⊎ Among ts u
first_or_later t u ts (zero, e) = inl (some-inj e)
first_or_later t u ts (suc k, e) = inr (k, e)

smaller : (x a : ℤ) → ((if ltb_ℤ x a then x else a) ≤ℤ a) × ((if ltb_ℤ x a then x else a) ≤ℤ x)
smaller x a = ground arith

larger : (x a : ℤ) → (a ≤ℤ (if ltb_ℤ a x then x else a)) × (x ≤ℤ (if ltb_ℤ a x then x else a))
larger x a = ground arith

chosen : (b : Bool) (x a : ℤ) → ((if b then x else a) ≡ a) ⊎ ((if b then x else a) ≡ x)
chosen true x a = inr refl
chosen false x a = inl refl

pub least_lem :
    (f : Tile → ℤ) (ts : List Tile) (a : ℤ)
    → (least f ts a ≤ℤ a)
      × ((u : Tile) → Among ts u → least f ts a ≤ℤ f u)
      × Reached f ts a (least f ts a)
unfolding least
least_lem f [] a = (omega arith, λ u k. absurd (let e : none ≡ some u = k.1 in cc), inl refl)
least_lem f (t ∷ ts) a =
    let b : ℤ = if ltb_ℤ (f t) a then f t else a in
    let (below, all, reached) = least_lem f ts b in
    let (p, q) = smaller (f t) a in
    (
      omega (arith, below, p),
      λ u k. elim (first_or_later t u ts k) [
        | inl e ↦ subst (λ v. least f ts b ≤ℤ f v) e (omega (arith, below, q))
        | inr k' ↦ all u k'
      ],
      carry_on f t ts a b (least f ts b) (chosen (ltb_ℤ (f t) a) (f t) a) reached,
    )

pub greatest_lem :
    (f : Tile → ℤ) (ts : List Tile) (a : ℤ)
    → (a ≤ℤ greatest f ts a)
      × ((u : Tile) → Among ts u → f u ≤ℤ greatest f ts a)
      × Reached f ts a (greatest f ts a)
unfolding greatest
greatest_lem f [] a = (omega arith, λ u k. absurd (let e : none ≡ some u = k.1 in cc), inl refl)
greatest_lem f (t ∷ ts) a =
    let b : ℤ = if ltb_ℤ a (f t) then f t else a in
    let (above, all, reached) = greatest_lem f ts b in
    let (p, q) = larger (f t) a in
    (
      omega (arith, above, p),
      λ u k. elim (first_or_later t u ts k) [
        | inl e ↦ subst (λ v. f v ≤ℤ greatest f ts b) e (omega (arith, above, q))
        | inr k' ↦ all u k'
      ],
      carry_on f t ts a b (greatest f ts b) (chosen (ltb_ℤ a (f t)) (f t) a) reached,
    )

-- If the start is no better than any of the tiles' numbers, then a tile reaches the bound.
pub least_reached :
    (f : Tile → ℤ) (t : Tile) (ts : List Tile) (a : ℤ)
    → f t ≤ℤ a
    → (u : Tile) × Among (t ∷ ts) u × (f u ≡ least f (t ∷ ts) a)
least_reached f t ts a h =
    let (below, all, reached) = least_lem f (t ∷ ts) a in
    elim reached [
      | inl e ↦
          let m = all t (0, refl) in
          (t, (0, refl), eq_of_parts (f t) _ (omega (arith, m, ap pos_part e, ap neg_part e)))
      | inr r ↦ r
    ]

pub greatest_reached :
    (f : Tile → ℤ) (t : Tile) (ts : List Tile) (a : ℤ)
    → a ≤ℤ f t
    → (u : Tile) × Among (t ∷ ts) u × (f u ≡ greatest f (t ∷ ts) a)
greatest_reached f t ts a h =
    let (above, all, reached) = greatest_lem f (t ∷ ts) a in
    elim reached [
      | inl e ↦
          let m = all t (0, refl) in
          (t, (0, refl), eq_of_parts (f t) _ (omega (arith, m, ap pos_part e, ap neg_part e)))
      | inr r ↦ r
    ]
