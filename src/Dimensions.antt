-- ===== src/Dimensions.antt =====
-- The values of dimensions: the lists of values of lib/dimension.c.
--
-- Regular expressions belong to their library. Intervals are compared as doubles, with `fmod`, and are not modelled.
mod Tests
use Prim.Native.String.{String}
use mapcache.Base.{
  ℕ, zero, suc, ◌+◌, ◌%◌, ℤ, pos, ◌-ℤ◌, ltb_ℤ, ◌==ℤ◌, abs_ℤ, pos_part, Text, text_eq, Bool, true,
  false, ◌&&◌, ◌||◌, List, [], ◌∷◌, ◌++◌, map, leb, ◌==◌, if◌then◌else◌,
}
use mapcache.Context.{Context, set_error}
use mapcache.Request.{tokens}

-- `struct mapcache_dimension_values`
pub record Values : Type 0 where
  pub values : List Text
  pub case_sensitive : Bool

is_empty : Text → Bool
is_empty [] = true
is_empty (c ∷ s) = false

-- `tolower` of the C locale, by which `strcasecmp` compares
lower : ℕ → ℕ
lower c = if leb b'A' c && leb c b'Z' then c + 32 else c

is_same : Bool → Text → Text → Bool
unfolding lower
is_same case_sensitive a b =
    if case_sensitive then text_eq a b else text_eq (map lower a) (map lower b)

values_loop : Bool → Text → List Text → Bool
unfolding is_same
values_loop case_sensitive value [] = false
values_loop case_sensitive value (v ∷ rest) =
    if is_same case_sensitive value v then true else values_loop case_sensitive value rest

-- `_mapcache_dimension_values_validate`
unfoldable pub values_validate : Values → Text → Bool
unfolding values_loop
values_validate d value = values_loop d.case_sensitive value d.values

-- The text of the node, in `_mapcache_dimension_values_parse_xml`; `case_sensitive` is its attribute.
unfoldable pub values_parse : Bool → Text → Context → Values × Context
unfolding is_empty
values_parse case_sensitive entry ctx =
    let d : Values = record { values = tokens b',' entry; case_sensitive = case_sensitive } in
    if is_empty entry
    then (
      record { values = []; case_sensitive = false },
      set_error 400 "failed to parse dimension values: none supplied" ctx,
    )
    else if has_none d.values
    then (d, set_error 400 "<dimension> \"%s\" has no values" ctx)
    else (d, ctx)
  where
    has_none : List Text → Bool
    has_none [] = true
    has_none (v ∷ vs) = false
