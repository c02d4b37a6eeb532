-- ===== src/Prefetch/Tests.antt =====
-- The theorems about fetching several tiles at concrete inputs.
use Prim.Native.String.{String}
use mapcache.Base.{
  pos, text_eq, ◌≡◌, refl, true, false, Bool, List, [], ◌∷◌, get_elem?, Option, none, some, quot_ℤ,
}
use mapcache.Context.{Context, Message, first, again, init, has_error}
use mapcache.Types.{Tile, Tileset}
use mapcache.Samples.{tile}
use mapcache.Prefetch.{ThreadTile, mark_loop, join_loop}
use mapcache.Prefetch.Launch.{Mark, mark_loop-Mark}
use mapcache.Prefetch.Joined.{join_loop_reports}

abbrev by_name : Tileset → Tileset → Bool
by_name a b = text_eq a.name b.name

-- Two tiles of one metatile.
abbrev two_tiles : List Tile
two_tiles = tile ∷ record tile { y = pos 0 } ∷ []

abbrev second_mark : ThreadTile
second_mark = record { tile = record tile { y = pos 0 }; launch = false }

second : get_elem? (mark_loop by_name [] two_tiles) 1 ≡ some second_mark
unfolding mark_loop quot_ℤ
second = refl

mark_loop-Mark_example : Mark by_name two_tiles 1 second_mark
mark_loop-Mark_example = mark_loop-Mark by_name two_tiles 1 second

abbrev first_message : Option Message → String
first_message none = ""
first_message (some (first m)) = m
first_message (some (again m n)) = first_message (some m)

abbrev failed : Context
failed = record init { errcode = 404; errmsg = some (first "tile not found") }

join_loop_reports_example : has_error (join_loop first_message (init ∷ failed ∷ []) init) ≡ true
join_loop_reports_example =
    join_loop_reports first_message (init ∷ failed ∷ []) init 1 failed (λ e. refl) refl refl
