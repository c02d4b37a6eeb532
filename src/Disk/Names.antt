-- ===== src/Disk/Names.antt =====
-- The names of the tilecache layout of lib/cache_disk.c tell the tiles of a tileset apart.
use mapcache.Base.{
  ℕ, Bool, true, Bool-cases, Option-cases, true≢false, ◌&&◌, ◌==ℤ◌, text_eq, text_eq_sound,
  text_eq_refl, inr, ap₂, [], ◌+◌, ◌*◌, ◌<◌, ◌≢◌, inl, ℤ, pos, negsuc, pos_part, neg_part,
  eq_of_parts, Text, show_padded, show_padded-free, show_padded-injective, cut_unique, ◌≡◌, ap, ◌∙◌,
  sym, some, ◌∷◌, ◌++◌, arith, some-inj, mapped, subst, quot_ℤ, rem_ℤ,
}
use mathlib.Core.List.{append_cancel_left}
use mapcache.Types.{Tile}
use mapcache.TileKey.{extension}
use mapcache.Disk.Writing.{directory}
use mapcache.Disk.{
  DiskCache, tilecache, tile_key, base_path, base_tile_key, tilecache_tile_key, tilecache_position,
  coordinate_then, millions, thousands, ones,
}

coordinate_parts :
    (a : ℤ)
    → (pos_part a
        ≡ 1000000 * pos_part (millions a) + 1000 * pos_part (thousands a) + pos_part (ones a))
      × (neg_part a
          ≡ 1000000 * neg_part (millions a) + 1000 * neg_part (thousands a) + neg_part (ones a))
unfolding quot_ℤ rem_ℤ
coordinate_parts (pos n) = omega arith
coordinate_parts (negsuc n) = ground arith

groups_unique :
    (a b : ℤ) → millions a ≡ millions b → thousands a ≡ thousands b → ones a ≡ ones b → a ≡ b
groups_unique a b m th o = eq_of_parts a b (
    omega (
      arith,
      coordinate_parts a,
      coordinate_parts b,
      ap pos_part m,
      ap pos_part th,
      ap pos_part o,
      ap neg_part m,
      ap neg_part th,
      ap neg_part o,
    ))

-- A text that begins with a padded number is determined by the number and by what follows.
number_unique :
    (c w : ℕ) (a b : ℤ) (s t : Text)
    → c < 48
    → c ≢ b'-'
    → show_padded w a ++ c ∷ s ≡ show_padded w b ++ c ∷ t
    → (a ≡ b) × (s ≡ t)
number_unique c w a b s t h ne e =
    let free = λ (n : ℤ). show_padded-free c w n ne (inl h) in
    let (p, q) = cut_unique c (show_padded w a) (show_padded w b) s t (free a) (free b) e in
    (show_padded-injective w a b p, q)

coordinate_unique :
    (c : ℕ) (a b : ℤ) (s t : Text)
    → c < 48
    → c ≢ b'-'
    → coordinate_then a (c ∷ s) ≡ coordinate_then b (c ∷ t)
    → (a ≡ b) × (s ≡ t)
unfolding coordinate_then
coordinate_unique c a b s t h ne e =
    let (m, e') =
      number_unique b'/' 3 (millions a) (millions b) _ _ (omega arith) (omega arith) e in
    let (th, e'') =
      number_unique b'/' 3 (thousands a) (thousands b) _ _ (omega arith) (omega arith) e' in
    let (o, r) = number_unique c 3 (ones a) (ones b) s t h ne e'' in (groups_unique a b m th o, r)

-- The same column, row and level.
pub record SameCell (t u : Tile) : Type 0 where
  pub same_x : t.x ≡ u.x
  pub same_y : t.y ≡ u.y
  pub same_z : t.z ≡ u.z

position_unique : (t u : Tile) → tilecache_position t ≡ tilecache_position u → SameCell t u
position_unique t u e =
    let (z, e') = number_unique b'/' 2 t.z u.z _ _ (omega arith) (omega arith) e in
    let (x, e'') = coordinate_unique b'/' t.x u.x _ _ (omega arith) (omega arith) e' in
    let (y, _) = coordinate_unique b'.' t.y u.y _ _ (omega arith) (omega arith) e'' in
    record { same_x = x; same_y = y; same_z = z }

-- Tiles of the same tileset, grid and dimensions.
pub record SameSet (t u : Tile) : Type 0 where
  pub same_name : t.tileset.name ≡ u.tileset.name
  pub same_grid : t.grid_link.grid.name ≡ u.grid_link.grid.name
  pub same_dimensions : t.dimensions ≡ u.dimensions
  pub same_extension : extension t.tileset ≡ extension u.tileset

base_tile_key-SameSet :
    (base : Text) (t u : Tile) → SameSet t u → base_tile_key base t ≡ base_tile_key base u
unfolding base_tile_key
base_tile_key-SameSet base t u s =
    λ i. base_path base (s.same_name i) (s.same_grid i) (s.same_dimensions i)

under_base :
    (dc : DiskCache) (t : Tile) {base k : Text}
    → dc.layout ≡ tilecache
    → dc.base_directory ≡ some base
    → tile_key dc t ≡ some k
    → (start : Text) × (base_tile_key base t ≡ some start)
      × (k ≡ start ++ b'/' ∷ tilecache_position t)
unfolding tile_key tilecache_tile_key
under_base dc t {base} l b e =
    mapped (base_tile_key base t) (λ start. start ++ b'/' ∷ tilecache_position t)
      (rw l at (rw b at e))

-- The name of a tile is unique: two tiles of the same tileset, grid and dimensions that
-- are kept in one file have the same column, row and level, also where these are negative or have
-- more than nine digits.
pub tile_key_distinct :
    (dc : DiskCache) (t u : Tile) {base k : Text}
    → dc.layout ≡ tilecache
    → dc.base_directory ≡ some base
    → SameSet t u
    → tile_key dc t ≡ some k
    → tile_key dc u ≡ some k
    → SameCell t u
tile_key_distinct dc t u {base} l b same e e' =
    let (start, p, q) = under_base dc t l b e in
    let (start', p', q') = under_base dc u l b e' in
    let starts : start ≡ start' = some-inj (sym p ∙ base_tile_key-SameSet base t u same ∙ p') in
    position_unique t u (
      behind_slash (
        append_cancel_left start' _ _
          (ap (λ s. s ++ b'/' ∷ tilecache_position t) (sym starts) ∙ sym q ∙ q')))
  where
    behind_slash : {s s' : Text} → b'/' ∷ s ≡ b'/' ∷ s' → s ≡ s'
    behind_slash h = cc

abbrev pub same_cell : Tile → Tile → Bool
same_cell t u = t.x ==ℤ u.x && (t.y ==ℤ u.y && t.z ==ℤ u.z)

same_cell-SameCell : (t u : Tile) → same_cell t u ≡ true → SameCell t u
same_cell-SameCell t u h = record {
  same_x = eq_of_parts t.x u.x (ground arith);
  same_y = eq_of_parts t.y u.y (ground arith);
  same_z = eq_of_parts t.z u.z (ground arith);
}

SameCell-same_cell : (t u : Tile) → SameCell t u → same_cell t u ≡ true
SameCell-same_cell t u s = ground (
  arith,
  ap pos_part s.same_x,
  ap neg_part s.same_x,
  ap pos_part s.same_y,
  ap neg_part s.same_y,
  ap pos_part s.same_z,
  ap neg_part s.same_z,
)

position-SameCell :
    (t u : Tile)
    → SameCell t u
    → extension t.tileset ≡ extension u.tileset
    → tilecache_position t ≡ tilecache_position u
position-SameCell t u s e = λ i.
    show_padded 2 (s.same_z i)
    ++ b'/' ∷ coordinate_then (s.same_x i) (b'/' ∷ coordinate_then (s.same_y i) (b'.' ∷ e i))

-- Two tiles of a set have one name exactly if they are in one cell.
pub text_eq-same_cell :
    (dc : DiskCache) (t u : Tile) {base k k' : Text}
    → dc.layout ≡ tilecache
    → dc.base_directory ≡ some base
    → SameSet t u
    → tile_key dc t ≡ some k
    → tile_key dc u ≡ some k'
    → text_eq k k' ≡ same_cell t u
text_eq-same_cell dc t u {base} {k} {k'} l b same e e' = elim (Bool-cases (text_eq k k')) [
  | inl h ↦
      h
      ∙ sym (
          SameCell-same_cell t u
            (tile_key_distinct dc t u l b same e (e' ∙ ap some (sym (text_eq_sound k k' h)))))
  | inr h ↦ elim (Bool-cases (same_cell t u)) [
    | inl s ↦ absurd (true≢false (one_name (same_cell-SameCell t u s)) h)
    | inr s ↦ h ∙ sym s
  ]
]
  where
    one_name : SameCell t u → text_eq k k' ≡ true
    one_name s =
        let (start, p, q) = under_base dc t l b e in
        let (start', p', q') = under_base dc u l b e' in
        let starts : start ≡ start' = some-inj (sym p ∙ base_tile_key-SameSet base t u same ∙ p') in
        let keys : k ≡ k' =
          q
          ∙ ap₂ (λ s r. s ++ b'/' ∷ r) starts (position-SameCell t u s same.same_extension)
          ∙ sym q' in
        subst (λ z. text_eq k z ≡ true) keys (text_eq_refl k)

directory-slash : (s r : Text) → (d : Text) × (directory (s ++ b'/' ∷ r) ≡ some d)
unfolding directory
directory-slash [] r = elim (Option-cases (directory r)) [
  | inl e ↦ ([], rw (e, directory))
  | inr (d, e) ↦ (b'/' ∷ d, rw (e, directory))
]
directory-slash (c ∷ s) r = let (d, e) = directory-slash s r in (c ∷ d, rw (e, directory))

pub tile_key-directory :
    (dc : DiskCache) (t : Tile) {base k : Text}
    → dc.layout ≡ tilecache
    → dc.base_directory ≡ some base
    → tile_key dc t ≡ some k
    → (d : Text) × (directory k ≡ some d)
tile_key-directory dc t l b e =
    let (start, p, q) = under_base dc t l b e in
    let (d, h) = directory-slash start (tilecache_position t) in (d, ap directory q ∙ h)
