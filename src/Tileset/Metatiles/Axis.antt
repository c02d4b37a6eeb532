-- ===== src/Tileset/Metatiles/Axis.antt =====
-- One axis of a metatile: which columns (or rows) it takes in.
use mapcache.Base.{
  ℕ, ◌+◌, ◌-◌, ◌*◌, ◌/◌, ◌%◌, ◌^◌, ◌<◌, ◌≤◌, pos, ◌*ℤ◌, pos+pos, pos-pos, pos*pos, quot_ℤ,
  to_u32-pos, to_i32-pos, div_unique, ◌≡◌, arith, leb, if◌then◌else◌, Bool-cases, inl, inr,
}
use mapcache.Tileset.Metatiles.{meta_index, meta_size}

-- The first tile of the metatile of tile `n`, and how many tiles it has on a level of `max` tiles.
abbrev pub first_of_meta : ℕ → ℕ → ℕ
first_of_meta n size = n / size * size

abbrev pub size_of_meta : ℕ → ℕ → ℕ → ℕ
size_of_meta first size max = if leb max (first + size - 1) then max - first else size

pub meta_index-pos : (n size : ℕ) → meta_index (pos n) (pos size) ≡ pos (n / size)
unfolding meta_index quot_ℤ
meta_index-pos n size = ground arith

pub first-pos :
    (n size : ℕ) → meta_index (pos n) (pos size) *ℤ pos size ≡ pos (first_of_meta n size)
first-pos n size = rw (meta_index-pos, pos*pos)

pub meta_size-pos :
    (first size max : ℕ)
    → 0 < size
    → size < 2 ^ 31
    → first < max
    → max < 2 ^ 31
    → meta_size (pos first) (pos size) max ≡ pos (size_of_meta first size max)
unfolding meta_size
meta_size-pos first size max p s f m =
    rw
      (
        pos+pos,
        pos-pos (first + size) 1 (omega arith),
        to_u32-pos (first + size - 1) (omega arith),
        to_u32-pos first (omega arith),
      )
      (elim (Bool-cases (leb max (first + size - 1))) [
        | inl cut ↦ rw cut (rw wrap (to_i32-pos (max - first) (omega arith)))
        | inr whole ↦ rw whole
      ])
  where
    wrap : (max + 2 ^ 32 - first) % 2 ^ 32 ≡ max - first
    wrap = omega arith

-- A metatile begins at or before its tile, ends behind it, and stays within the level.
pub axis_bounds :
    (n size max : ℕ)
    → 0 < size
    → n < max
    → (first_of_meta n size ≤ n)
      × (n < first_of_meta n size + size_of_meta (first_of_meta n size) size max)
      × (first_of_meta n size + size_of_meta (first_of_meta n size) size max ≤ max)
axis_bounds n size max p h = grind arith

-- All its tiles have the same metatile.
pub axis_same :
    (n size max i : ℕ)
    → 0 < size
    → i < size_of_meta (first_of_meta n size) size max
    → (first_of_meta n size + i) / size ≡ n / size
axis_same n size max i p h = div_unique (n / size) size i (ground arith)
