-- ===== src/Tms/Rounds.antt =====
-- The rounds of the loop over the layers of a request of lib/service_tms.c.
use mapcache.Base.{
  suc, ℤ, Text, text_eq_sound, false, Bool-cases, Option, none, some, List, [], ◌∷◌, length, ◌≡◌,
  refl, sym, ap, ◌∙◌, arith, inl, inr, subst,
}
use mapcache.Context.{Context, check_error}
use mapcache.Types.{
  GridOrigin, bottom_left, top_left, bottom_right, top_right, GridLink, Dimensions, Tileset, Tile,
}
use mapcache.Tileset.{tile_create, tile_validate}
use mapcache.Config.{Config}
use mapcache.Request.{Reply, value, returned, fault, ◌>>=◌, defined, from_other_side}
use mapcache.Request.Checked.{Clean, Served, tile_validate_passes}
use mapcache.Tms.{
  Service, find_layer, reversed, place, place_on, conflicting, named, checked, layers_loop,
  level_of,
}

-- Inversion of a part of a parser that goes on.
pub >>=-eq-value {ℓ κ} :
    {A : Type ℓ} {B : Type κ} (m : Reply A) (f : A → Reply B) {b : B}
    → (m >>= f) ≡ value b
    → (a : A) × (m ≡ value a) × (f a ≡ value b)
>>=-eq-value (value a) f e = (a, refl, e)
>>=-eq-value (returned ctx) f e = cc
>>=-eq-value fault f e = cc

pub value-inj {ℓ} : {A : Type ℓ} {a b : A} → value a ≡ value b → a ≡ b
value-inj e = cc

-- All elements of a list.
abbrev pub All {ℓ κ} : {A : Type ℓ} → (A → Type κ) → List A → Type κ
All P [] = Unit
All P (x ∷ xs) = P x × All P xs

-- A valid tile of the grid of this name.
abbrev pub Good : Text → Tile → Type 0
Good g t = Served t × (t.grid_link.grid.name ≡ g)

-- The value of a part that only maps another one's.
value_of {ℓ κ} :
    {A : Type ℓ} {B : Type κ} (m : Reply A) (g : A → B) {b : B}
    → (m >>= λ a. value (g a)) ≡ value b
    → (a : A) × (b ≡ g a)
value_of (value a) g e = (a, sym (value-inj e))
value_of (returned ctx) g e = cc
value_of fault g e = cc

place-link :
    (o : GridOrigin) (t : Tile) (x y z : ℤ) {t' : Tile}
    → place_on o t x y z ≡ value t'
    → t'.grid_link ≡ t.grid_link
unfolding place_on
place-link bottom_left t x y z e = ap (λ u. u.grid_link) (sym (value-inj e))
place-link top_left t x y z e =
    ap (λ u. u.grid_link)
      (value_of (level_of t.grid_link z)
        (λ l. record t { x = x; y = from_other_side l.maxy y; z = z }) e).1
place-link bottom_right t x y z e =
    ap (λ u. u.grid_link)
      (value_of (level_of t.grid_link z)
        (λ l. record t { x = from_other_side l.maxx x; y = y; z = z }) e).1
place-link top_right t x y z e =
    ap (λ u. u.grid_link)
      (value_of (level_of t.grid_link z)
        (λ l. record t { x = from_other_side l.maxx x; y = from_other_side l.maxy y; z = z }) e).1

defined-some {ℓ} : {A : Type ℓ} (o : Option A) {a : A} → defined o ≡ value a → o ≡ some a
defined-some none e = cc
defined-some (some a) e = ap some (value-inj e)

checked-value :
    (t : Tile) (ctx : Context) {ctx' : Context}
    → Clean ctx
    → checked t ctx ≡ value ctx'
    → Served t × (ctx' ≡ ctx)
unfolding checked
checked-value t ctx clean e =
    let (ctx₁, v, f) = >>=-eq-value (defined (tile_validate t ctx)) _ e in
    elim (Bool-cases (check_error ctx₁)) [
      | inl c ↦ absurd (ground (arith, rw c at f))
      | inr c ↦
          let same : ctx₁ ≡ _ = value-inj (rw c at f) in
          let (served, old) = tile_validate_passes t ctx clean (defined-some _ v) c in
          (served, sym same ∙ old)
    ]

-- The last part of a round: what the rounds behind it give, and the tile in front.
pushed :
    (t : Tile) (m : Reply (List Tile × Context)) {ts : List Tile} {end : Context}
    → ◌>>=◌ {B = List Tile × Context} m (λ r. value (t ∷ r.0, r.1)) ≡ value (ts, end)
    → (others : List Tile) × (m ≡ value (others, end)) × (ts ≡ t ∷ others)
pushed t (value (others, ctx)) e =
    (others, ap (λ p. value (others, p.1)) (value-inj e), sym (ap (λ p. p.0) (value-inj e)))
pushed t (returned ctx) e = cc
pushed t fault e = cc

module _ (table_set : Dimensions → Text → Text → Dimensions) (s : Service) (cfg : Config)
    (x z : ℤ) where
  -- What one round of the loop over the layers has found.
  record Round (y : ℤ) (gridname : Option Text) (link : Option GridLink) (key : Text)
      (keys : List Text) (ctx : Context) (ts : List Tile) (end : Context) : Type 0 where
    layer : Tileset × GridLink
    row : ℤ
    tile : Tile
    after : Context
    others : List Tile
    agrees : conflicting gridname layer.1 ≡ false
    placed : place (tile_create table_set layer.0 layer.1) x row z ≡ value tile
    passed : checked tile ctx ≡ value after
    continues :
        layers_loop table_set s cfg x row z (named gridname layer.1) (some layer.1) keys after
        ≡ value (others, end)
    joined : ts ≡ tile ∷ others

  round :
      (y : ℤ) (gridname : Option Text) (link : Option GridLink) (key : Text) (keys : List Text)
      (ctx : Context) {ts : List Tile} {end : Context}
      → layers_loop table_set s cfg x y z gridname link (key ∷ keys) ctx ≡ value (ts, end)
      → Round y gridname link key keys ctx ts end
  unfolding layers_loop
  round y gridname link key keys ctx e =
      let (layer, found, e₁) = >>=-eq-value (find_layer cfg key link ctx) _ e in
      elim (Bool-cases (conflicting gridname layer.1)) [
        | inl c ↦ absurd (ground (arith, rw c at e₁))
        | inr c ↦
            let (row, r, e₂) = >>=-eq-value (reversed s layer.1 z y) _ (rw c at e₁) in
            let (tile, p, e₃) =
              >>=-eq-value (place (tile_create table_set layer.0 layer.1) x row z) _ e₂ in
            let (after, q, e₄) = >>=-eq-value (checked tile ctx) _ e₃ in
            let (others, l, j) =
              pushed tile
                (layers_loop table_set s cfg x row z (named gridname layer.1) (some layer.1) keys
                  after)
                e₄ in
            record {
              layer = layer;
              row = row;
              tile = tile;
              after = after;
              others = others;
              agrees = c;
              placed = p;
              passed = q;
              continues = l;
              joined = j;
            }
      ]

  -- The tile of a round.
  Round-Good :
      {y : ℤ} {gridname : Option Text} {link : Option GridLink} {key : Text} {keys : List Text}
      (ctx : Context) {ts : List Tile} {end : Context}
      (r : Round y gridname link key keys ctx ts end)
      → Clean ctx
      → Good r.layer.1.grid.name r.tile × (r.after ≡ ctx)
  unfolding place tile_create
  Round-Good ctx r clean =
      let (served, same) = checked-value r.tile ctx clean r.passed in
      let link_is =
        place-link r.layer.1.grid.origin (tile_create table_set r.layer.0 r.layer.1) x r.row z
          r.placed in
      ((served, ap (λ l. l.grid.name) link_is), same)

  same_name : (g : Text) (link : GridLink) → conflicting (some g) link ≡ false → g ≡ link.grid.name
  unfolding conflicting
  same_name g link c = text_eq_sound g link.grid.name (ground arith)

  -- The rounds behind the first are all on the grid `g`.
  rest-Good :
      (keys : List Text) (y : ℤ) (g : Text) (link : Option GridLink) (ctx : Context)
      {ts : List Tile} {end : Context}
      → Clean ctx
      → layers_loop table_set s cfg x y z (some g) link keys ctx ≡ value (ts, end)
      → All (Good g) ts × (length ts ≡ length keys) × (end ≡ ctx)
  unfolding layers_loop
  rest-Good [] y g link ctx {ts} {end} clean e =
      let none_left : [] ≡ ts = ap (λ p. p.0) (value-inj e) in
      (
        subst (λ l. All (Good g) l) none_left tt,
        sym (ap length none_left),
        sym (ap (λ p. p.1) (value-inj e)),
      )
  rest-Good (key ∷ keys) y g link ctx {ts} {end} clean e =
      let r = round y (some g) link key keys ctx e in
      let (good, same) = Round-Good ctx r clean in
      let name : g ≡ r.layer.1.grid.name = same_name g r.layer.1 r.agrees in
      let next =
        subst
          (λ c.
            layers_loop table_set s cfg x r.row z (some g) (some r.layer.1) keys c
            ≡ value (r.others, end))
          same r.continues in
      let (all, count, clean_end) = rest-Good keys r.row g (some r.layer.1) ctx clean next in
      (
        subst (λ l. All (Good g) l) (sym r.joined)
            (subst (λ n. Good n r.tile) (sym name) good, all),
        ap length r.joined ∙ ap suc count,
        clean_end,
      )

  pub layers-Good :
      (keys : List Text) (y : ℤ) (ctx : Context) {ts : List Tile} {end : Context}
      → Clean ctx
      → layers_loop table_set s cfg x y z none none keys ctx ≡ value (ts, end)
      → (g : Text) × All (Good g) ts × (length ts ≡ length keys) × (end ≡ ctx)
  unfolding layers_loop
  layers-Good [] y ctx {ts} {end} clean e =
      let none_left : [] ≡ ts = ap (λ p. p.0) (value-inj e) in
      (
        [],
        subst (λ l. All (Good []) l) none_left tt,
        sym (ap length none_left),
        sym (ap (λ p. p.1) (value-inj e)),
      )
  layers-Good (key ∷ keys) y ctx {ts} {end} clean e =
      let r = round y none none key keys ctx e in
      let g = r.layer.1.grid.name in
      let (good, same) = Round-Good ctx r clean in
      let next =
        subst
          (λ c.
            layers_loop table_set s cfg x r.row z (some g) (some r.layer.1) keys c
            ≡ value (r.others, end))
          same r.continues in
      let (all, count, clean_end) = rest-Good keys r.row g (some r.layer.1) ctx clean next in
      (
        g,
        subst (λ l. All (Good g) l) (sym r.joined) (good, all),
        ap length r.joined ∙ ap suc count,
        clean_end,
      )
