-- ===== src/Grid/Lookup/Closest.antt =====
-- The search of `mapcache_grid_get_closest_level` of lib/grid.c.
use mapcache.Base.{ℕ, ◌<◌, ◌≤◌, ℤ, pos, ◌≡◌, ◌⊎◌, get_or}
use mapcache.Types.{GridLevel, Grid}
use mapcache.Grid.Lookup.{Fraction, distance}

abbrev no_level : GridLevel
no_level = record { resolution = 0; maxx = 0; maxy = 0 }

-- How far the resolution of level `j` is from `r`.
abbrev pub level_distance : Grid → Fraction → ℕ → ℕ
level_distance g r j = distance (get_or g.levels j no_level) r

module _ (g : Grid) (r : Fraction) (m : ℕ) where
  -- What the loop keeps in `*level`: its initial 0 as long as no level beats level `m`.
  abbrev pub Kept : ℕ → ℕ → ℤ → Type 0
  Kept i dst level =
      ((level ≡ pos 0) × (dst ≡ level_distance g r m))
      ⊎ ((k : ℕ) × (m < k)
          × (k < i)
          × (level ≡ pos k)
          × (dst ≡ level_distance g r k)
          × (dst < level_distance g r m))

  -- No level from `m` up to `i` is closer than `dst`.
  abbrev pub Closest : ℕ → ℕ → Type 0
  Closest i dst = (j : ℕ) → m ≤ j → j < i → dst ≤ level_distance g r j
