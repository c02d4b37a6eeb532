-- ===== src/Tms.antt =====
-- Requests of the tms and the gmaps service: `_mapcache_service_tms_parse_request` of lib/service_tms.c. No
-- result is undefined behaviour: a level out of bounds, or a tileset without grids.
pub mod Rounds
pub mod Layers
pub mod Placed
pub mod Roundtrip
mod Tests
use Prim.Native.String.{String}
use mapcache.Base.{
  ℕ, suc, ℤ, pos, negsuc, ltb, ◌==◌, Text, codes, text_eq, Bool, true, false, not, ◌&&◌, Option,
  none, some, List, [], ◌∷◌, if◌then◌else◌,
}
use mapcache.Context.{Context, set_error, check_error}
use mapcache.Types.{
  GridLevel, GridOrigin, bottom_left, top_left, bottom_right, top_right, GridLink, Dimensions,
  Tileset, Tile, at,
}
use mapcache.Tileset.{tile_create, tile_validate}
use mapcache.Config.{Config, get_tileset}
use mapcache.Request.{
  Request, get_tile, tms_capabilities, Reply, value, returned, fault, ◌>>=◌, defined, finish,
  parse_int, tokens, split_at, find_link, from_other_side,
}

-- The two services that share the parser.
pub data Service : Type 0 where
  tms gmaps : Service

-- `reverse_y`, as `mapcache_service_tms_create` and `mapcache_service_gmaps_create` set it
abbrev pub reverse_y : Service → Bool
reverse_y tms = false
reverse_y gmaps = true

-- The local variables of the loop over the path.
pub record Parts : Type 0 where
  pub index : ℕ
  pub layer : Option Text
  pub x : ℤ
  pub y : ℤ
  pub z : ℤ

-- `index` starts behind the version for gmaps.
abbrev pub no_parts : Service → Parts
no_parts s = record {
  index = elim s [ tms ↦ 0 | gmaps ↦ 1 ];
  layer = none;
  x = negsuc 0;
  y = negsuc 0;
  z = negsuc 0;
}

error : {A : Type 0} → String → Context → Reply A
error msg ctx = returned (set_error 404 msg ctx)

-- A number that must be followed by `rest`: nothing, or a '.'.
is_end : Text → Bool
is_end [] = true
is_end (c ∷ s) = false

is_dot : Text → Bool
is_dot [] = false
is_dot (c ∷ s) = c == b'.'

-- One case of the switch; `index` is already the new one.
part : Parts → Text → Context → Reply Parts
unfolding error is_end is_dot
part p key ctx =
    let (n, rest) = parse_int key in
    if p.index == 1
    then (if text_eq (codes "1.0.0") key
        then value p
        else error "received tms request with invalid version %s" ctx)
    else if p.index == 2
    then value (record p { layer = some key })
    else if p.index == 3
    then (if is_end rest then value (record p { z = n }) else error "failed to parse z" ctx)
    else if p.index == 4
    then (if is_end rest then value (record p { x = n }) else error "failed to parse x" ctx)
    else if p.index == 5
    then (if is_dot rest then value (record p { y = n }) else error "failed to parse y" ctx)
    else error "received tms request %s with invalid parameter %s" ctx

-- The loop over the parts of the path.
unfoldable pub parts_loop : Parts → List Text → Context → Reply Parts
unfolding part
parts_loop p [] ctx = value p
parts_loop p (key ∷ keys) ctx =
    part (record p { index = suc p.index }) key ctx >>= λ p'. parts_loop p' keys ctx

-- The link that the loop over the layers has found before stays, so only without one is a grid that is
-- not found an error.
with_link : Tileset → Option GridLink → Option GridLink → Context → Reply (Tileset × GridLink)
unfolding error
with_link ts (some link) old ctx = value (ts, link)
with_link ts none (some link) ctx = value (ts, link)
with_link ts none none ctx = error "received tms request with invalid grid %s" ctx

unfoldable pub first_link : Tileset → List GridLink → Reply (Tileset × GridLink)
first_link ts [] = fault
first_link ts (link ∷ links) = value (ts, link)

-- A layer by the name of a tileset, or by name@grid.
unfoldable pub find_layer : Config → Text → Option GridLink → Context → Reply (Tileset × GridLink)
unfolding with_link first_link error
find_layer cfg key old ctx = elim (get_tileset cfg key) [
  | some ts ↦ first_link ts ts.grid_links
  | none ↦
      let (tname, gname) = split_at key in
      elim (get_tileset cfg tname) [
        | none ↦ error "received tms request with invalid layer %s" ctx
        | some ts ↦ with_link ts (find_link gname ts.grid_links) old ctx
      ]
]

unfoldable pub level_of : GridLink → ℤ → Reply GridLevel
level_of link z = defined (at link.grid.levels z)

-- `if(reverse_y) y = levels[z]->maxy - y - 1`
unfoldable pub reversed : Service → GridLink → ℤ → ℤ → Reply ℤ
unfolding level_of
reversed s link z y =
    let other = level_of link z >>= λ l. value (from_other_side l.maxy y) in
    if reverse_y s then other else value y

-- The switch over the origin of the grid.
unfoldable pub place_on : GridOrigin → Tile → ℤ → ℤ → ℤ → Reply Tile
unfolding level_of
place_on bottom_left t x y z = value (record t { x = x; y = y; z = z })
place_on top_left t x y z = do
  l ← level_of t.grid_link z
  value (record t { x = x; y = from_other_side l.maxy y; z = z })
place_on bottom_right t x y z = do
  l ← level_of t.grid_link z
  value (record t { x = from_other_side l.maxx x; y = y; z = z })
place_on top_right t x y z = do
  l ← level_of t.grid_link z
  value (record t { x = from_other_side l.maxx x; y = from_other_side l.maxy y; z = z })

unfoldable pub place : Tile → ℤ → ℤ → ℤ → Reply Tile
unfolding place_on
place t x y z = place_on t.grid_link.grid.origin t x y z

-- All layers are on the grid of the first one.
unfoldable pub conflicting : Option Text → GridLink → Bool
conflicting none link = false
conflicting (some name) link = not (text_eq name link.grid.name)

abbrev pub named : Option Text → GridLink → Option Text
named none link = some link.grid.name
named (some name) link = some name

unfoldable pub checked : Tile → Context → Reply Context
checked t ctx = do
  ctx' ← defined (tile_validate t ctx)
  if check_error ctx' then returned ctx' else value ctx'

unfoldable pub ask_capabilities : Service → Parts → Context → Reply (Request × Context)
unfolding error
ask_capabilities s p ctx =
    let version = if p.index == 0 then none else some (codes "1.0.0") in
    if ltb p.index 3 && elim s [ tms ↦ true | gmaps ↦ false ]
    then value (tms_capabilities version, ctx)
    else error "received request with wrong number of arguments" ctx

abbrev pub keys_of : Option Text → List Text
keys_of none = []
keys_of (some path) = tokens b'/' path

-- The table of the default dimensions is filled by `apr_table_set`, which is APR's.
module _ (table_set : Dimensions → Text → Text → Dimensions) where
  -- One layer after the other. The row is reversed in place, so each layer reverses what the layer before has
  -- left. `gridname` and `link` are what the layers before have set.
  unfoldable pub layers_loop :
      Service
      → Config
      → ℤ
      → ℤ
      → ℤ
      → Option Text
      → Option GridLink
      → List Text
      → Context
      → Reply (List Tile × Context)
  layers_loop s cfg x y z gridname link [] ctx = value ([], ctx)
  layers_loop s cfg x y z gridname link (key ∷ keys) ctx = find_layer cfg key link ctx >>= λ layer.
      if conflicting gridname layer.1
      then returned (set_error 400 "received tms request with conflicting grids %s and %s" ctx)
      else reversed s layer.1 z y >>= λ y'.
          place (tile_create table_set layer.0 layer.1) x y' z >>= λ t. checked t ctx >>= λ ctx'.
          layers_loop s cfg x y' z (named gridname layer.1) (some layer.1) keys ctx' >>= λ r.
          value (t ∷ r.0, r.1)

  unfoldable pub ask_tiles :
      Service → Config → Parts → Option Text → Context → Reply (Request × Context)
  ask_tiles s cfg p none ctx = fault
  ask_tiles s cfg p (some layer) ctx =
      layers_loop s cfg p.x p.y p.z none none (tokens b';' layer) ctx >>= λ r.
      value (get_tile r.0, r.1)

  -- What the number of parts asks for.
  unfoldable pub requested : Service → Config → Parts → Context → Reply (Request × Context)
  requested s cfg p ctx =
      let layers = ask_tiles s cfg p p.layer ctx in
      if p.index == 5 then layers else ask_capabilities s p ctx

  -- `_mapcache_service_tms_parse_request`
  unfoldable pub parse_request :
      Service → Option Text → Config → Context → Option (Option Request × Context)
  parse_request s path cfg ctx =
      finish (parts_loop (no_parts s) (keys_of path) ctx >>= λ p. requested s cfg p ctx)
