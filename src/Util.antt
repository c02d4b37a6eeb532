-- ===== src/Util.antt =====
-- String helpers of lib/util.c: replacing the first occurrence of a substring, and replacing bytes of a
-- set. A string is the list of its bytes; `none` is a loop that does not end.
pub mod Replace
pub mod Sanitize
mod Tests
use mapcache.Base.{
  ℕ, zero, suc, Text, strip_prefix, has_byte, Bool, Option, none, some, List, [], ◌∷◌, ◌++◌, ◌==◌,
  if◌then◌else◌, ◌>>=◌,
}

-- `strstr`: what stands before the first occurrence of `substr`, and what stands behind it.
unfoldable pub str_find : Text → Text → Option (Text × Text)
str_find substr [] = do rest ← strip_prefix substr []; some ([], rest)
str_find substr (c ∷ s) = elim (strip_prefix substr (c ∷ s)) [
  | some rest ↦ some ([], rest)
  | none ↦ do found ← str_find substr s; some (c ∷ found.0, found.1)
]

-- `mapcache_util_str_replace`
unfoldable pub str_replace : Text → Text → Text → Text
unfolding str_find
str_replace string substr replacement = elim (str_find substr string) [
  | none ↦ string
  | some (before, behind) ↦ before ++ (replacement ++ behind)
]

-- `strcspn`: the part before the first byte of the set `from`, and the rest.
pub cut_at_set : Text → Text → Text × Text
cut_at_set from [] = ([], [])
cut_at_set from (c ∷ s) =
    let (kept, rest) = cut_at_set from s in
    if has_byte c from then ([], c ∷ s) else (c ∷ kept, rest)

-- The loop of `mapcache_util_str_sanitize` from a position on, with fuel. Writing the byte 0 ends the
-- string there.
pub sanitize_loop : ℕ → Text → ℕ → Text → Option Text
unfolding cut_at_set
sanitize_loop zero from to s = none
sanitize_loop (suc fuel) from to [] = some []
sanitize_loop (suc fuel) from to (c ∷ s) =
    let (kept, rest) = cut_at_set from (to ∷ s) in
    let next = sanitize_loop fuel from to rest in
    if to == 0 then some [] else do done ← next; some (kept ++ done)

-- `mapcache_util_str_sanitize`
pub str_sanitize : ℕ → Text → Text → ℕ → Option Text
unfolding sanitize_loop
str_sanitize fuel str from to =
    let (kept, rest) = cut_at_set from str in
    do done ← sanitize_loop fuel from to rest; some (kept ++ done)
