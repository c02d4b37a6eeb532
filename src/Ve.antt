-- ===== src/Ve.antt =====
-- Requests of the ve service: `_mapcache_service_ve_parse_request` of lib/service_ve.c. The parameters are what
-- `apr_table_get` finds. No result is undefined behaviour, among it a shift by more than 30 bits.
pub mod Quadkey
pub mod Placed
mod Tests
use Prim.Native.String.{String}
use mapcache.Base.{
  ℕ, zero, suc, ◌+◌, ◌*◌, ◌/◌, ◌%◌, ◌^◌, ℤ, pos, ltb, leb, ◌==◌, Text, Bool, true, false, ◌||◌,
  Option, none, some, List, [], ◌∷◌, length, if◌then◌else◌,
}
use mapcache.Context.{Context, set_error, check_error}
use mapcache.Types.{
  bottom_left, top_left, bottom_right, top_right, GridLink, Dimensions, Tileset, Tile, at,
}
use mapcache.Tileset.{tile_create, tile_validate}
use mapcache.Config.{Config, get_tileset}
use mapcache.Request.{
  Request, get_tile, Reply, value, returned, fault, ◌>>=◌, defined, finish, split_at, find_link,
  from_other_side,
}

error : {A : Type 0} → ℕ → String → Context → Reply A
error code msg ctx = returned (set_error code msg ctx)

with_grid : Tileset → Option GridLink → Context → Reply (Tileset × GridLink)
unfolding error
with_grid ts none ctx = error 404 "received ve request with invalid grid %s" ctx
with_grid ts (some link) ctx = value (ts, link)

with_tileset : Option Tileset → Text → Context → Reply (Tileset × GridLink)
unfolding error with_grid
with_tileset none gname ctx = error 404 "received ve request with invalid layer %s" ctx
with_tileset (some ts) gname ctx = with_grid ts (find_link gname ts.grid_links) ctx

-- The layer is always name@grid.
unfoldable pub find_layer : Config → Option Text → Context → Reply (Tileset × GridLink)
unfolding error with_tileset
find_layer cfg none ctx = error 400 "received ve request with no layer" ctx
find_layer cfg (some layer) ctx =
    let (tname, gname) = split_at layer in with_tileset (get_tileset cfg tname) gname ctx

-- `n |= 1 << k` for a number that is not negative
unfoldable pub or_bit : ℕ → ℕ → ℕ
or_bit n k = if n / 2 ^ k % 2 == 1 then n else n + 2 ^ k

-- The bits that one digit sets; any other byte is an error.
unfoldable pub digit_bits : ℕ → Option (Bool × Bool)
digit_bits c =
    if c == b'0'
    then some (false, false)
    else if c == b'1'
    then some (true, false)
    else if c == b'2'
    then some (false, true)
    else if c == b'3'
    then some (true, true)
    else none

unfoldable pub add_bit : Bool → ℕ → ℕ → ℕ
unfolding or_bit
add_bit b n k = if b then or_bit n k else n

-- The loop over the digits, from the highest bit to the lowest: `i` is one more than the number of digits left.
unfoldable pub quadkey_loop : ℕ → ℕ → Text → Option (ℕ × ℕ)
quadkey_loop x y [] = some (x, y)
quadkey_loop x y (c ∷ s) = elim (digit_bits c) [
  | none ↦ none
  | some (bx, by) ↦ quadkey_loop (add_bit bx x (length s)) (add_bit by y (length s)) s
]

-- The numbers of the tile.
unfoldable pub read_quadkey : GridLink → Option Text → Context → Reply (ℕ × ℕ × ℕ)
unfolding error quadkey_loop
read_quadkey link none ctx = error 400 "received ve request with no tile quadkey" ctx
read_quadkey link (some quadkey) ctx =
    let z = length quadkey in
    let numbers : Reply (ℕ × ℕ × ℕ) = elim (quadkey_loop 0 0 quadkey) [
      | none ↦ error 404 "Invalid Quadkey sequence" ctx
      | some (x, y) ↦ value (x, y, z)
    ] in
    if ltb z 1 || leb (length link.grid.levels) z
    then error 404 "received ve request with invalid z level %d\n" ctx
    else if ltb 31 z
    then fault
    else numbers

-- The switch over the origin of the grid, and the level.
unfoldable pub place : Tile → ℕ → ℕ → ℕ → Reply Tile
place t x y z = defined (at t.grid_link.grid.levels (pos z)) >>= λ l.
    value (elim t.grid_link.grid.origin [
      | bottom_left ↦ record t { x = pos x; y = from_other_side l.maxy (pos y); z = pos z }
      | top_left ↦ record t { x = pos x; y = pos y; z = pos z }
      | bottom_right ↦ record t { x = from_other_side l.maxx (pos x); y = pos y; z = pos z }
      | top_right ↦ record t {
        x = from_other_side l.maxx (pos x);
        y = from_other_side l.maxy (pos y);
        z = pos z;
      }
    ])

unfoldable pub checked : Tile → Context → Reply (Request × Context)
checked t ctx = do
  ctx' ← defined (tile_validate t ctx)
  if check_error ctx' then returned ctx' else value (get_tile (t ∷ []), ctx')

-- `_mapcache_service_ve_parse_request`
unfoldable pub parse_request :
    (Dimensions → Text → Text → Dimensions)
    → Option Text
    → Option Text
    → Config
    → Context
    → Option (Option Request × Context)
unfolding checked
parse_request table_set layer quadkey cfg ctx = finish (
    find_layer cfg layer ctx >>= λ found. read_quadkey found.1 quadkey ctx >>= λ numbers.
    place (tile_create table_set found.0 found.1) numbers.0 numbers.1 numbers.2 >>= λ t.
    checked t ctx)
