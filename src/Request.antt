-- ===== src/Request.antt =====
-- What the parsers of requests share: numbers and tokens of the C library and of APR, the notation
-- name@grid, and functions that return early with an error.
pub mod Numbers
pub mod Tokens
pub mod Checked
use mapcache.Base.{
  ℕ, zero, suc, ◌+◌, ◌*◌, ◌-◌, ◌^◌, ℤ, pos, negsuc, ◌-ℤ◌, to_u32, to_i32, Text, text_eq, Bool, true,
  false, ◌&&◌, ◌||◌, Option, none, some, List, [], ◌∷◌, ◌++◌, leb, ltb, ◌==◌, if◌then◌else◌,
}
use mapcache.Context.{Context}
use mapcache.Types.{GridLevel, GridLink, Tileset, Tile}

-- The requests that the services make of a path.
pub data Request : Type 0 where
  get_tile : List Tile → Request
  tms_capabilities : Option Text → Request
  kml_capabilities : Option Tile → Option Tileset → Option GridLink → Request

-- A part of a parser goes on with a value, returns from the function with the errors of the context and
-- without a request, or is undefined.
pub data Reply {ℓ} (A : Type ℓ) : Type ℓ where
  value : A → Reply A
  returned : Context → Reply A
  fault : Reply A

infixl 5 ◌>>=◌
abbrev pub ◌>>=◌ {ℓ κ} : {A : Type ℓ} {B : Type κ} → Reply A → (A → Reply B) → Reply B
value a >>= f = f a
returned ctx >>= f = returned ctx
fault >>= f = fault

abbrev pub defined {ℓ} : {A : Type ℓ} → Option A → Reply A
defined none = fault
defined (some a) = value a

-- The request, if there is one, and the errors.
abbrev pub finish : Reply (Request × Context) → Option (Option Request × Context)
finish (value (r, ctx)) = some (some r, ctx)
finish (returned ctx) = some (none, ctx)
finish fault = none

unfoldable pub is_space : ℕ → Bool
is_space c = c == 32 || (leb 9 c && leb c 13)

unfoldable pub skip_space : Text → Text
skip_space [] = []
skip_space (c ∷ s) = if is_space c then skip_space s else c ∷ s

unfoldable pub is_digit : ℕ → Bool
is_digit c = leb 48 c && leb c 57

-- The value of the digits behind `acc`, and what follows them.
unfoldable pub read_digits : ℕ → Text → ℕ × Text
unfolding is_digit
read_digits acc [] = (acc, [])
read_digits acc (c ∷ s) = elim (is_digit c) [
  | true ↦ read_digits (acc * 10 + (c - 48)) s
  | false ↦ (acc, c ∷ s)
]

-- LONG_MAX and LONG_MIN of a 64-bit long, where too large a number ends.
unfoldable pub clamp : Bool → ℕ → ℤ
clamp false n = pos (if ltb n (2 ^ 63) then n else 2 ^ 63 - 1)
clamp true zero = pos 0
clamp true (suc n) = negsuc (if ltb n (2 ^ 63) then n else 2 ^ 63 - 1)

unfoldable pub starts_with_digit : Text → Bool
unfolding is_digit
starts_with_digit [] = false
starts_with_digit (c ∷ s) = is_digit c

unfoldable pub signed : Bool → Text → Text → ℤ × Text
unfolding clamp starts_with_digit
signed neg whole s =
    let (n, rest) = read_digits 0 s in
    if starts_with_digit s then (clamp neg n, rest) else (pos 0, whole)

unfoldable pub behind_sign : Text → Text → ℤ × Text
unfolding signed
behind_sign whole [] = (pos 0, whole)
behind_sign whole (c ∷ s) =
    if c == b'-'
    then signed true whole s
    else if c == b'+'
    then signed false whole s
    else signed false whole (c ∷ s)

-- `strtol(s, &endptr, 10)`: the number, and `endptr`.
unfoldable pub strtol : Text → ℤ × Text
unfolding behind_sign skip_space is_space
strtol s = behind_sign s (skip_space s)

-- `(int)strtol(s, &endptr, 10)`
unfoldable pub parse_int : Text → ℤ × Text
unfolding strtol read_digits
parse_int s = let (n, rest) = strtol s in (to_i32 (to_u32 n), rest)

-- The tokens that `apr_strtok` finds one after the other: the longest parts without the separator.
unfoldable pub tokens_from : ℕ → Text → Text → List Text
tokens_from sep [] [] = []
tokens_from sep (k ∷ ks) [] = (k ∷ ks) ∷ []
tokens_from sep token (c ∷ s) = elim (c == sep) [
  | false ↦ tokens_from sep (token ++ c ∷ []) s
  | true ↦ elim token [ [] ↦ tokens_from sep [] s | k ∷ ks ↦ (k ∷ ks) ∷ tokens_from sep [] s ]
]

unfoldable pub tokens : ℕ → Text → List Text
unfolding tokens_from
tokens sep s = tokens_from sep [] s

-- What stands before the first '@', and what stands behind it, which is empty if there is none.
unfoldable pub split_at : Text → Text × Text
split_at [] = ([], [])
split_at (c ∷ s) = let (name, grid) = split_at s in if c == b'@' then ([], s) else (c ∷ name, grid)

-- The first link to a grid of this name.
abbrev pub find_link : Text → List GridLink → Option GridLink
find_link name [] = none
find_link name (l ∷ ls) = if text_eq l.grid.name name then some l else find_link name ls

-- `max - n - 1`, computed as unsigned int and stored in an int.
unfoldable pub from_other_side : ℕ → ℤ → ℤ
from_other_side max n = to_i32 (to_u32 (pos max -ℤ n -ℤ pos 1))
