-- ===== src/Maps/Loops.antt =====
-- What the loops of `mapcache_tileset_get_map_tiles` gather: the valid tiles of a rectangle.
use mapcache.Base.{
  ℕ, zero, suc, ◌<◌, ℤ, pos, ◌+ℤ◌, int_laws, Text, false, ◌≡◌, refl, ap, sym, subst, ◌∙◌, ◌⊎◌, inl,
  inr, Option, none, some, List, [], ◌∷◌, ◌++◌, get_elem?, some-inj, arith,
}
use mapcache.Context.{Context, has_error, clear_errors}
use mapcache.Types.{Extent, GridLink, Dimensions, Tileset, Tile, at}
use mapcache.Tileset.Checks.{InRange, tile_validate_lem}
use mapcache.Maps.{tile_on, rows_loop, columns_loop}

-- A tile of the list.
abbrev pub Among : List Tile → Tile → Type 0
Among ts t = (k : ℕ) × (get_elem? ts k ≡ some t)

pub still_there : (u t : Tile) (ts : List Tile) → Among ts t → Among (u ∷ ts) t
still_there u t ts (k, e) = (suc k, e)

in_left : (t : Tile) (xs ys : List Tile) → Among xs t → Among (xs ++ ys) t
in_left t [] ys (k, e) = absurd (let f : none ≡ some t = e in cc)
in_left t (a ∷ xs) ys (zero, e) = (zero, e)
in_left t (a ∷ xs) ys (suc k, e) = still_there a t (xs ++ ys) (in_left t xs ys (k, e))

in_right : (t : Tile) (xs ys : List Tile) → Among ys t → Among (xs ++ ys) t
in_right t [] ys m = m
in_right t (a ∷ xs) ys m = still_there a t (xs ++ ys) (in_right t xs ys m)

in_either : (t : Tile) (xs ys : List Tile) → Among (xs ++ ys) t → Among xs t ⊎ Among ys t
in_either t [] ys m = inr m
in_either t (a ∷ xs) ys (zero, e) = inl (zero, e)
in_either t (a ∷ xs) ys (suc k, e) = elim (in_either t xs ys (k, e)) [
  | inl m ↦ inl (still_there a t xs m)
  | inr m ↦ inr m
]

-- No error and no message.
abbrev pub Clean : Context → Type 0
Clean ctx = (ctx.errcode ≡ 0) × (ctx.errmsg ≡ none)

cleared : (ctx : Context) → Clean (clear_errors ctx)
unfolding clear_errors
cleared ctx = (refl, refl)

next : (a : ℤ) (n : ℕ) → (a +ℤ pos 1) +ℤ pos n ≡ a +ℤ pos (suc n)
next a n = omega int_laws

add_zero : (a : ℤ) → a +ℤ pos 0 ≡ a
add_zero a = omega int_laws

module _ (table_set : Dimensions → Text → Text → Dimensions) (ts : Tileset) (link : GridLink)
    (level : ℤ) (limits : Extent) (found : at link.grid_limits level ≡ some limits) where
  abbrev tile : ℤ → ℤ → Tile
  tile = tile_on table_set ts link level

  -- The tiles are the valid ones of a rectangle of `m` columns and `n` rows, whose first tile is `(x, y)`.
  pub record Gathered (x : ℤ) (m : ℕ) (y : ℤ) (n : ℕ) (tiles : List Tile) : Type 0 where
    pub sound :
        (t : Tile)
        → Among tiles t
        → (i : ℕ) × (j : ℕ) × (i < m)
          × (j < n)
          × (t ≡ tile (x +ℤ pos i) (y +ℤ pos j))
          × InRange t limits
    pub complete :
        (i j : ℕ)
        → i < m
        → j < n
        → InRange (tile (x +ℤ pos i) (y +ℤ pos j)) limits
        → Among tiles (tile (x +ℤ pos i) (y +ℤ pos j))

  -- The result of a loop.
  abbrev pub Gives : Option (Context × List Tile) → ℤ → ℕ → ℤ → ℕ → Type 0
  Gives r x m y n =
      (ctx : Context) × (tiles : List Tile) × (r ≡ some (ctx, tiles))
      × Clean ctx
      × Gathered x m y n tiles

  -- One column, by its rows.
  record Column (x y : ℤ) (n : ℕ) (tiles : List Tile) : Type 0 where
    sound :
        (t : Tile)
        → Among tiles t
        → (j : ℕ) × (j < n) × (t ≡ tile x (y +ℤ pos j)) × InRange t limits
    complete :
        (j : ℕ) → j < n → InRange (tile x (y +ℤ pos j)) limits → Among tiles (tile x (y +ℤ pos j))

  no_rows : (x y : ℤ) → Column x y 0 []
  no_rows x y = record {
    sound = λ t m. absurd (let f : none ≡ some t = m.1 in cc);
    complete = λ j h r. absurd (omega arith);
  }

  module _ (x y : ℤ) (n : ℕ) (tiles : List Tile) (c : Column x (y +ℤ pos 1) n tiles) where
    later :
        (t : Tile)
        → Among tiles t
        → (j : ℕ) × (j < suc n) × (t ≡ tile x (y +ℤ pos j)) × InRange t limits
    later t m =
        let (j, h, e, r) = c.sound t m in (suc j, omega arith, e ∙ ap (tile x) (next y j), r)

    still :
        (j : ℕ)
        → j < n
        → InRange (tile x (y +ℤ pos (suc j))) limits
        → Among tiles (tile x (y +ℤ pos (suc j)))
    still j h r =
        subst (λ b. Among tiles (tile x b)) (next y j)
          (c.complete j h (subst (λ b. InRange (tile x b) limits) (sym (next y j)) r))

    take_row : InRange (tile x y) limits → Column x y (suc n) (tile x y ∷ tiles)
    take_row r = record { sound = sound; complete = complete }
      where
        sound :
            (t : Tile)
            → Among (tile x y ∷ tiles) t
            → (j : ℕ) × (j < suc n) × (t ≡ tile x (y +ℤ pos j)) × InRange t limits
        sound t (zero, e) = (
          0,
          omega arith,
          sym (some-inj e) ∙ ap (tile x) (sym (add_zero y)),
          subst (λ u. InRange u limits) (some-inj e) r,
        )
        sound t (suc k, e) = later t (k, e)

        complete :
            (j : ℕ)
            → j < suc n
            → InRange (tile x (y +ℤ pos j)) limits
            → Among (tile x y ∷ tiles) (tile x (y +ℤ pos j))
        complete zero h r' = (0, ap (λ b. some (tile x b)) (sym (add_zero y)))
        complete (suc j) h r' =
            still_there (tile x y) (tile x (y +ℤ pos (suc j))) tiles (still j (omega arith) r')

    skip_row : (InRange (tile x y) limits → ⊥) → Column x y (suc n) tiles
    skip_row out = record { sound = later; complete = complete }
      where
        complete :
            (j : ℕ)
            → j < suc n
            → InRange (tile x (y +ℤ pos j)) limits
            → Among tiles (tile x (y +ℤ pos j))
        complete zero h r = absurd (out (subst (λ b. InRange (tile x b) limits) (add_zero y) r))
        complete (suc j) h r = still j (omega arith) r

  rows-Column :
      (x y : ℤ) (n : ℕ) (ctx : Context)
      → Clean ctx
      → (ctx' : Context) × (tiles : List Tile) × (rows_loop table_set ts link level x y n ctx
          ≡ some (ctx', tiles))
        × Clean ctx'
        × Column x y n tiles
  unfolding rows_loop
  rows-Column x y zero ctx c = (ctx, [], refl, c, no_rows x y)
  rows-Column x y (suc n) ctx c =
      let (ctx', e, v) = tile_validate_lem (tile x y) limits found ctx c.0 c.1 in
      elim v [
        | inl (same, r) ↦
            let fine : has_error ctx' ≡ false = rw (same, c.0) refl in
            let (d, tiles, f, k, col) = rows-Column x (y +ℤ pos 1) n ctx c in
            (d, tile x y ∷ tiles, rw (e, fine, same, f) refl, k, take_row x y n tiles col r)
        | inr (wrong, out) ↦
            let (d, tiles, f, k, col) =
              rows-Column x (y +ℤ pos 1) n (clear_errors ctx') (cleared ctx') in
            (d, tiles, rw (e, wrong, f) refl, k, skip_row x y n tiles col out)
      ]

  module _ (x y : ℤ) (m n : ℕ) (column rest : List Tile) where
    take_column :
        Column x y n column
        → Gathered (x +ℤ pos 1) m y n rest
        → Gathered x (suc m) y n (column ++ rest)
    take_column c g = record { sound = sound; complete = complete }
      where
        sound :
            (t : Tile)
            → Among (column ++ rest) t
            → (i : ℕ) × (j : ℕ) × (i < suc m)
              × (j < n)
              × (t ≡ tile (x +ℤ pos i) (y +ℤ pos j))
              × InRange t limits
        sound t k = elim (in_either t column rest k) [
          | inl a ↦
              let (j, h, e, r) = c.sound t a in
              (0, j, omega arith, h, e ∙ ap (λ b. tile b (y +ℤ pos j)) (sym (add_zero x)), r)
          | inr a ↦
              let (i, j, h, h', e, r) = g.sound t a in
              (suc i, j, omega arith, h', e ∙ ap (λ b. tile b (y +ℤ pos j)) (next x i), r)
        ]

        complete :
            (i j : ℕ)
            → i < suc m
            → j < n
            → InRange (tile (x +ℤ pos i) (y +ℤ pos j)) limits
            → Among (column ++ rest) (tile (x +ℤ pos i) (y +ℤ pos j))
        complete zero j h h' r =
            let own : InRange (tile x (y +ℤ pos j)) limits =
              subst (λ b. InRange (tile b (y +ℤ pos j)) limits) (add_zero x) r in
            subst (λ b. Among (column ++ rest) (tile b (y +ℤ pos j))) (sym (add_zero x))
              (in_left (tile x (y +ℤ pos j)) column rest (c.complete j h' own))
        complete (suc i) j h h' r =
            let own : InRange (tile (x +ℤ pos 1 +ℤ pos i) (y +ℤ pos j)) limits =
              subst (λ b. InRange (tile b (y +ℤ pos j)) limits) (sym (next x i)) r in
            subst (λ b. Among (column ++ rest) (tile b (y +ℤ pos j))) (next x i)
              (in_right (tile (x +ℤ pos 1 +ℤ pos i) (y +ℤ pos j)) column rest
                (g.complete i j (omega arith) h' own))

  pub columns_loop-Gives :
      (x : ℤ) (m : ℕ) (y : ℤ) (n : ℕ) (ctx : Context)
      → Clean ctx
      → Gives (columns_loop table_set ts link level x m y n ctx) x m y n
  unfolding columns_loop
  columns_loop-Gives x zero y n ctx c = (
    ctx,
    [],
    refl,
    c,
    record {
      sound = λ t m. absurd (let f : none ≡ some t = m.1 in cc);
      complete = λ i j h h' r. absurd (omega arith);
    },
  )
  columns_loop-Gives x (suc m) y n ctx c =
      let (ctx', column, e, c', col) = rows-Column x y n ctx c in
      let (ctx'', rest, f, c'', g) = columns_loop-Gives (x +ℤ pos 1) m y n ctx' c' in
      (ctx'', column ++ rest, rw (e, f) refl, c'', take_column x y m n column rest col g)
