-- ===== src/Util/Tests.antt =====
-- Runs of the string helpers, and the theorems about them at concrete inputs.
use mapcache.Base.{◌+◌, Text, codes, ◌≡◌, refl, ◌⊎◌, some, ◌++◌, arith, map, length}
use mapcache.Util.{str_replace, str_sanitize}
use mapcache.Util.Replace.{NowhereIn, First, str_replace_lem}
use mapcache.Util.Sanitize.{sanitized, str_sanitize_total}

replace_first : str_replace (codes "{x}/{y}/{x}") (codes "{x}") (codes "12") ≡ codes "12/{y}/{x}"
unfolding str_replace
replace_first = refl

sanitize_two : str_sanitize 5 (codes "a b/c") (codes " /") b'#' ≡ some (codes "a#b#c")
unfolding str_sanitize
sanitize_two = refl

str_replace_lem_example :
    (NowhereIn (codes "{y}") (codes "{x}/{y}")
      × (str_replace (codes "{x}/{y}") (codes "{y}") (codes "7") ≡ codes "{x}/{y}"))
    ⊎ ((before behind : Text) × First (codes "{y}") (codes "{x}/{y}") before behind
        × (str_replace (codes "{x}/{y}") (codes "{y}") (codes "7")
            ≡ before ++ (codes "7" ++ behind))
        × (length (str_replace (codes "{x}/{y}") (codes "{y}") (codes "7")) + 3 ≡ 8))
str_replace_lem_example = str_replace_lem (codes "{x}/{y}") (codes "{y}") (codes "7")

str_sanitize_total_example :
    str_sanitize 6 (codes "a b/c") (codes " /") b'#'
    ≡ some (map (sanitized (codes " /") b'#') (codes "a b/c"))
str_sanitize_total_example =
    str_sanitize_total (codes " /") b'#' (omega arith) 5 (codes "a b/c") refl (omega arith)
