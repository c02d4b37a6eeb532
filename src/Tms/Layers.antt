-- ===== src/Tms/Layers.antt =====
-- The tiles of a request of lib/service_tms.c are valid, and on one grid.
use mapcache.Base.{
  ltb, ◌&&◌, Text, Bool, true, false, if_cases, ◌==◌, Option, none, some, List, [], if◌then◌else◌,
  ◌≡◌, sym, ap, ◌∙◌, inl, inr, subst, ap₂, some-inj,
}
use mapcache.Context.{Context}
use mapcache.Types.{Dimensions, Tile}
use mapcache.Config.{Config}
use mapcache.Request.{
  Request, get_tile, Reply, value, returned, fault, tokens, finish, tms_capabilities,
}
use mapcache.Request.Checked.{Clean}
use mapcache.Tms.{
  Service, Parts, tms, gmaps, layers_loop, parts_loop, no_parts, keys_of, parse_request, requested,
  ask_tiles, ask_capabilities,
}
use mapcache.Tms.Rounds.{>>=-eq-value, value-inj, All, Good, layers-Good}

asked :
    (m : Reply (Request × Context)) {r : Request} {end : Context}
    → finish m ≡ some (some r, end)
    → m ≡ value (r, end)
asked (value (q, ctx)) e =
    ap value
      (ap₂ (λ a b. (a, b)) (some-inj (ap (λ p. p.0) (some-inj e))) (ap (λ p. p.1) (some-inj e)))
asked (returned ctx) e = cc
asked fault e = cc

tiles_of : Request × Context → List Tile
tiles_of (get_tile ts, ctx) = ts
tiles_of _ = []

tiles-inj :
    {us ts : List Tile} {ctx end : Context}
    → ◌≡◌ {A = Reply (Request × Context)} (value (get_tile us, ctx)) (value (get_tile ts, end))
    → (us ≡ ts) × (ctx ≡ end)
unfolding tiles_of
tiles-inj e = (ap tiles_of (value-inj e), ap (λ p. p.1) (value-inj e))

abbrev answer_tiles : List Tile → Context → Reply (Request × Context)
answer_tiles ts end = value (get_tile ts, end)

neither :
    (b : Bool) (v : Option Text) (ctx ctx' : Context) {end : Context} {ts : List Tile}
    → (if b then value (tms_capabilities v, ctx) else returned ctx') ≡ answer_tiles ts end
    → ⊥
neither true v ctx ctx' e = cc
neither false v ctx ctx' e = cc

not_tiles :
    (s : Service) (p : Parts) (ctx : Context) {ts : List Tile} {end : Context}
    → ask_capabilities s p ctx ≡ value (get_tile ts, end)
    → ⊥
unfolding ask_capabilities
not_tiles s p ctx e = neither (ltb p.index 3 && elim s [ tms ↦ true | gmaps ↦ false ]) _ _ _ e

module _ (table_set : Dimensions → Text → Text → Dimensions) (s : Service) (cfg : Config) where
  layer_tiles :
      (p : Parts) (layer : Option Text) (ctx : Context) {ts : List Tile} {end : Context}
      → Clean ctx
      → ask_tiles table_set s cfg p layer ctx ≡ value (get_tile ts, end)
      → (g : Text) × All (Good g) ts × (end ≡ ctx)
  unfolding ask_tiles
  layer_tiles p none ctx clean e = cc
  layer_tiles p (some layer) ctx clean e =
      let ((us, c), q, f) =
        >>=-eq-value (layers_loop table_set s cfg p.x p.y p.z none none (tokens b';' layer) ctx) _
          e in
      let (g, all, _, same) =
        layers-Good table_set s cfg p.x p.z (tokens b';' layer) p.y ctx clean q in
      (g, subst (λ l. All (Good g) l) (tiles-inj f).0 all, sym (tiles-inj f).1 ∙ same)

  requested-Good :
      (p : Parts) (ctx : Context) {ts : List Tile} {end : Context}
      → Clean ctx
      → requested table_set s cfg p ctx ≡ value (get_tile ts, end)
      → (g : Text) × All (Good g) ts × (end ≡ ctx)
  unfolding requested
  requested-Good p ctx clean e = elim (if_cases (p.index == 5) e) [
    | inl (_, tiles) ↦ layer_tiles p p.layer ctx clean tiles
    | inr (_, other) ↦ absurd (not_tiles s p ctx other)
  ]

-- A request for tiles asks for tiles of one grid only, each valid, whatever the path and the configuration are; and
-- it leaves the context without an error. There was no error and no message before.
pub parse_request-Good :
    (table_set : Dimensions → Text → Text → Dimensions) (s : Service) (path : Option Text)
    (cfg : Config) (ctx : Context) {ts : List Tile} {end : Context}
    → Clean ctx
    → parse_request table_set s path cfg ctx ≡ some (some (get_tile ts), end)
    → (g : Text) × All (Good g) ts × (end ≡ ctx)
unfolding parse_request
parse_request-Good table_set s path cfg ctx clean e =
    let (p, _, q) = >>=-eq-value (parts_loop (no_parts s) (keys_of path) ctx) _ (asked _ e) in
    requested-Good table_set s cfg p ctx clean q
