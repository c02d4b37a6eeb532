-- ===== src/Request/Checked.antt =====
-- What the checks at the end of the parsers let through, and rows that are counted from the other side.
use Prim.Native.String.{String}
use mapcache.Base.{
  ℕ, if◌then◌else◌, ◌≤ℤ◌, ◌<ℤ◌, ◌+◌, ◌-◌, ◌*◌, ◌^◌, ◌<◌, ◌≤◌, ℤ, pos, ◌+ℤ◌, ◌-ℤ◌, pos+pos, pos-pos,
  to_u32-pos, to_i32-pos, int_laws, ltb_ℤ, leb_ℤ, false, Bool-cases, Option-cases, Option, none,
  some, [], ◌∷◌, ◌≡◌, sym, ap, ◌∙◌, inl, inr, arith, ◌||◌, some-inj,
}
use mapcache.Context.{Context, set_error, check_error}
use mapcache.Types.{Extent, GridLevel, Grid, Tile, at}
use mapcache.Grid.{span, offset}
use mapcache.Grid.Lookup.Points.{offset_pos}
use mapcache.Tileset.{tile_validate}
use mapcache.Tileset.Checks.{InRange}
use mapcache.Request.{Request, get_tile, from_other_side}

-- No error and no message.
abbrev pub Clean : Context → Type 0
Clean ctx = (ctx.errcode ≡ 0) × (ctx.errmsg ≡ none)

-- A tile with limits for its level, and within them.
abbrev pub Served : Tile → Type 0
Served t = (limits : Extent) × (at t.grid_link.grid_limits t.z ≡ some limits) × InRange t limits

-- A failed test leaves an error.
stops :
    (msg : String) (ctx : Context) {ctx' : Context}
    → Clean ctx
    → some (set_error 404 msg ctx) ≡ some ctx'
    → check_error ctx' ≡ false
    → ⊥
unfolding set_error
stops msg ctx (code, quiet) e c = ground (arith, code, quiet, ap check_error (some-inj e))

-- The answer of the tests of the column and the row.
abbrev within : Tile → Context → Extent → Option Context
within t ctx limits = some (
    if ltb_ℤ t.x limits.minx || leb_ℤ limits.maxx t.x
    then set_error 404 "tile x=%d not in [%d,%d[" ctx
    else if ltb_ℤ t.y limits.miny || leb_ℤ limits.maxy t.y
    then set_error 404 "tile y=%d not in [%d,%d[" ctx
    else ctx)

within_passes :
    (t : Tile) (ctx : Context) (limits : Extent) {ctx' : Context}
    → Clean ctx
    → within t ctx limits ≡ some ctx'
    → check_error ctx' ≡ false
    → (limits.minx ≤ℤ t.x)
      × (t.x <ℤ limits.maxx)
      × (limits.miny ≤ℤ t.y)
      × (t.y <ℤ limits.maxy)
      × (ctx' ≡ ctx)
within_passes t ctx limits clean e c =
    elim (Bool-cases (ltb_ℤ t.x limits.minx || leb_ℤ limits.maxx t.x)) [
      | inl x ↦ absurd (stops "tile x=%d not in [%d,%d[" ctx clean (rw x at e) c)
      | inr x ↦ elim (Bool-cases (ltb_ℤ t.y limits.miny || leb_ℤ limits.maxy t.y)) [
        | inl y ↦ absurd (stops "tile y=%d not in [%d,%d[" ctx clean (rw y at (rw x at e)) c)
        | inr y ↦ (
          ground arith,
          ground arith,
          ground arith,
          ground arith,
          sym (some-inj (rw y at (rw x at e))),
        )
      ]
    ]

pub tile_validate_passes :
    (t : Tile) (ctx : Context) {ctx' : Context}
    → Clean ctx
    → tile_validate t ctx ≡ some ctx'
    → check_error ctx' ≡ false
    → Served t × (ctx' ≡ ctx)
unfolding tile_validate
tile_validate_passes t ctx clean e c =
    elim (Bool-cases (ltb_ℤ t.z t.grid_link.minz || leb_ℤ t.grid_link.maxz t.z)) [
      | inl z ↦ absurd (stops "invalid tile z level" ctx clean (rw z at e) c)
      | inr z ↦ elim (Option-cases (at t.grid_link.grid_limits t.z)) [
        | inl l ↦ absurd (ground (arith, rw l at (rw z at e)))
        | inr (limits, l) ↦
            let (a, b, p, q, same) = within_passes t ctx limits clean (rw l at (rw z at e)) c in
            ((limits, l, record { level = ground arith; column = (a, b); row = (p, q) }), same)
      ]
    ]

pub from_other_side_lem :
    (max n : ℕ) → n < max → max < 2 ^ 31 → from_other_side max (pos n) ≡ pos (max - n - 1)
unfolding from_other_side
from_other_side_lem max n h b =
    rw (pos-pos max n (omega arith), pos-pos (max - n) 1 (omega arith))
      (rw (to_u32-pos (max - n - 1) (omega arith)) (to_i32-pos (max - n - 1) (omega arith)))

-- The rows of a level fill the height of the grid.
abbrev pub Exact : Grid → GridLevel → Type 0
Exact g l = g.extent.maxy ≡ g.extent.miny +ℤ offset l (pos l.maxy) g.tile_sy

-- `n` rows and the others together.
rows_split : (l : GridLevel) (m n s : ℕ) → n ≤ m → (m - n) * span l s + n * span l s ≡ m * span l s
rows_split l m n s h = grind arith

taken_off :
    (a b : ℤ) (p q r : ℕ)
    → b ≡ a +ℤ pos r
    → p + q ≡ r
    → (b -ℤ pos p ≡ a +ℤ pos q) × (a +ℤ pos p ≡ b -ℤ pos q)
taken_off a b p q r e h = rw e (omega int_laws, omega int_laws)

-- The row `y` from one side is the row `maxy - y - 1` from the other.
pub other_side :
    (g : Grid) (l : GridLevel) (y : ℕ)
    → Exact g l
    → y < l.maxy
    → (g.extent.maxy -ℤ offset l (pos (l.maxy - y - 1) +ℤ pos 1) g.tile_sy
        ≡ g.extent.miny +ℤ offset l (pos y) g.tile_sy)
      × (g.extent.miny +ℤ offset l (pos (l.maxy - y - 1) +ℤ pos 1) g.tile_sy
          ≡ g.extent.maxy -ℤ offset l (pos y) g.tile_sy)
other_side g l y exact h =
    let rows : l.maxy - y - 1 + 1 ≡ l.maxy - y = omega arith in
    let here : offset l (pos (l.maxy - y - 1) +ℤ pos 1) g.tile_sy
        ≡ pos ((l.maxy - y) * span l g.tile_sy) =
      rw (pos+pos, rows) (offset_pos l (l.maxy - y) g.tile_sy) in
    let there : offset l (pos y) g.tile_sy ≡ pos (y * span l g.tile_sy) =
      offset_pos l y g.tile_sy in
    let full : g.extent.maxy ≡ g.extent.miny +ℤ pos (l.maxy * span l g.tile_sy) =
      exact ∙ ap (λ o. g.extent.miny +ℤ o) (offset_pos l l.maxy g.tile_sy) in
    let both =
      taken_off g.extent.miny g.extent.maxy ((l.maxy - y) * span l g.tile_sy) (y * span l g.tile_sy)
        (l.maxy * span l g.tile_sy) full (rows_split l l.maxy y g.tile_sy (omega arith)) in
    (
      ap (λ o. g.extent.maxy -ℤ o) here ∙ both.0 ∙ ap (λ o. g.extent.miny +ℤ o) (sym there),
      ap (λ o. g.extent.miny +ℤ o) here ∙ both.1 ∙ ap (λ o. g.extent.maxy -ℤ o) (sym there),
    )

-- What the check of a tile makes of the request.
abbrev pub answered : Tile → Option Context → Option (Option Request × Context)
answered t none = none
answered t (some ctx) =
    some (if check_error ctx then (none, ctx) else (some (get_tile (t ∷ [])), ctx))
