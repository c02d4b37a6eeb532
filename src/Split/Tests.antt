-- ===== src/Split/Tests.antt =====
-- The theorems about splitting a metatile at a concrete one.
use mapcache.Base.{ℕ, ◌*◌, ◌<◌, pos, ◌≡◌, refl, Option, none, some, arith, length, Text}
use mapcache.Context.{Context, init}
use mapcache.Types.{Metatile, Image}
use mapcache.Samples.{png, small_tile, small_level, small_on_level, grey}
use mapcache.Tileset.Metatiles.{metatile_on}
use mapcache.Tileset.Metatiles.Blocks.{sx, sy, OnLevel}
use mapcache.Split.{split}
use mapcache.Split.Windows.{Window, split-Window}
use mapcache.Split.Loop.{rendered}
use mapcache.Split.Pixels.{Parts, split-Parts}

abbrev two_on_level : OnLevel (small_tile (pos 2)) small_level
two_on_level = small_on_level 2 (omega arith) (omega arith)

abbrev no_decoder : Option Text → Context → Context × Option Image
no_decoder b ctx = (ctx, none)

split-Window_example : Window (small_tile (pos 2)) small_level two_on_level 1 refl 1 0 3 3
split-Window_example =
    split-Window (small_tile (pos 2)) small_level two_on_level 1 refl 1 0 (omega arith)
      (omega arith)

split-Parts_example :
    (mt : Metatile) × (split no_decoder
        (rendered (metatile_on (small_tile (pos 2)) small_level) (grey 6))
        init
      ≡ some (mt, init))
    × (length mt.tiles
        ≡ sx (small_tile (pos 2)) small_level two_on_level
          * sy (small_tile (pos 2)) small_level two_on_level)
    × (mt.ntiles
        ≡ pos (
            sx (small_tile (pos 2)) small_level two_on_level
            * sy (small_tile (pos 2)) small_level two_on_level))
    × ((i j : ℕ)
        → i < sx (small_tile (pos 2)) small_level two_on_level
        → j < sy (small_tile (pos 2)) small_level two_on_level
        → Parts (small_tile (pos 2)) small_level two_on_level 1 refl (grey 6) mt i j)
split-Parts_example =
    split-Parts (small_tile (pos 2)) small_level two_on_level 1 refl (grey 6) no_decoder init png
      refl refl refl refl
