-- ===== src/TileKey/Distinct.antt =====
-- `mapcache_util_get_tile_key` of lib/util.c without a template, for two tiles.
use mapcache.Base.{
  ℤ, Text, show_ℤ, show_ℤ-free, show_ℤ-injective, has_byte, cut_unique, ◌≡◌, sym, ap, ◌∙◌, inl,
  false, Option, none, some, [], ◌∷◌, ◌++◌, arith, >>=-eq-some, some-inj,
}
use mathlib.Core.List.{append_assoc}
use mapcache.Types.{Tile, Dimensions}
use mapcache.TileKey.{Sanitizer, extension, get_tile_dimkey, dim_part, get_tile_key}

-- What is behind the dimensions in a key.
abbrev position : Tile → Text
position t = show_ℤ t.z ++ b'/' ∷ (show_ℤ t.y ++ b'/' ∷ (show_ℤ t.x ++ b'/' ∷ extension t.tileset))

-- The same place in a grid, and the same file extension.
pub record SamePlace (t u : Tile) : Type 0 where
  pub same_x : t.x ≡ u.x
  pub same_y : t.y ≡ u.y
  pub same_z : t.z ≡ u.z
  pub same_extension : extension t.tileset ≡ extension u.tileset

no_slash : (a : ℤ) → has_byte b'/' (show_ℤ a) ≡ false
no_slash a = show_ℤ-free b'/' a (omega arith) (inl (omega arith))

position_unique : (t u : Tile) → position t ≡ position u → SamePlace t u
position_unique t u e =
    let (z, e') = cut_unique b'/' (show_ℤ t.z) (show_ℤ u.z) _ _ (no_slash t.z) (no_slash u.z) e in
    let (y, e'') = cut_unique b'/' (show_ℤ t.y) (show_ℤ u.y) _ _ (no_slash t.y) (no_slash u.y) e' in
    let (x, ext) =
      cut_unique b'/' (show_ℤ t.x) (show_ℤ u.x) _ _ (no_slash t.x) (no_slash u.x) e'' in
    record {
      same_x = show_ℤ-injective t.x u.x x;
      same_y = show_ℤ-injective t.y u.y y;
      same_z = show_ℤ-injective t.z u.z z;
      same_extension = ext;
    }

-- The names that stand in front hold no '/', and neither does the key of the dimensions.
pub record SlashFree (san : Sanitizer) (t : Tile) : Type 0 where
  pub name_free : has_byte b'/' t.tileset.name ≡ false
  pub grid_free : has_byte b'/' t.grid_link.grid.name ≡ false
  pub key : Text
  pub dimkey : get_tile_dimkey san t.dimensions ≡ some key
  pub key_free : has_byte b'/' key ≡ false

-- Both tiles have a table of dimensions, or neither has.
abbrev pub SameKind : Option Dimensions → Option Dimensions → Type 0
SameKind none none = Unit
SameKind (some _) (some _) = Unit
SameKind _ _ = ⊥

with_slash :
    (san : Sanitizer) (d : Dimensions) (k : Text)
    → get_tile_dimkey san (some d) ≡ some k
    → some (k ++ b'/' ∷ []) ≡ dim_part san (some d)
unfolding dim_part
with_slash san d k e = rw e

dims_unique :
    (san : Sanitizer) (d d' : Option Dimensions) {k k' p p' : Text} (s s' : Text)
    → SameKind d d'
    → get_tile_dimkey san d ≡ some k
    → get_tile_dimkey san d' ≡ some k'
    → has_byte b'/' k ≡ false
    → has_byte b'/' k' ≡ false
    → dim_part san d ≡ some p
    → dim_part san d' ≡ some p'
    → p ++ s ≡ p' ++ s'
    → (k ≡ k') × (s ≡ s')
unfolding dim_part get_tile_dimkey
dims_unique san none none s s' kind e e' f f' q q' h = ground arith
dims_unique san none (some d) s s' kind e e' f f' q q' h = absurd kind
dims_unique san (some d) none s s' kind e e' f f' q q' h = absurd kind
dims_unique san (some d) (some d') {k} {k'} {p} {p'} s s' kind e e' f f' q q' h =
    let front : k ++ b'/' ∷ [] ≡ p = some-inj (with_slash san d k e ∙ q) in
    let front' : k' ++ b'/' ∷ [] ≡ p' = some-inj (with_slash san d' k' e' ∙ q') in
    cut_unique b'/' k k' s s' f f' (
      sym (append_assoc k _ s)
      ∙ ap (λ t. t ++ s) front
      ∙ h
      ∙ ap (λ t. t ++ s') (sym front')
      ∙ append_assoc k' _ s')

-- Without a template two tiles that have the same key are in the same tileset and grid, at the same
-- place, with the same key of dimensions, if no name and no key of dimensions holds a '/', and both
-- tiles have dimensions or neither has.
pub get_tile_key_distinct :
    (san : Sanitizer) (t u : Tile) {k : Text}
    → (a : SlashFree san t) (b : SlashFree san u) → SameKind t.dimensions u.dimensions
    → get_tile_key t none san ≡ some k
    → get_tile_key u none san ≡ some k
    → (t.tileset.name ≡ u.tileset.name)
      × (t.grid_link.grid.name ≡ u.grid_link.grid.name)
      × (a.key ≡ b.key)
      × SamePlace t u
unfolding get_tile_key
get_tile_key_distinct san t u a b kind e e' =
    let (p, q, r) = >>=-eq-some (dim_part san t.dimensions) _ e in
    let (p', q', r') = >>=-eq-some (dim_part san u.dimensions) _ e' in
    let (name, s) =
      cut_unique b'/' t.tileset.name u.tileset.name _ _ a.name_free b.name_free
        (some-inj (r ∙ sym r')) in
    let (grid, s') =
      cut_unique b'/' t.grid_link.grid.name u.grid_link.grid.name _ _ a.grid_free b.grid_free s in
    let (key, s'') =
      dims_unique san t.dimensions u.dimensions _ _ kind a.dimkey b.dimkey a.key_free b.key_free q
        q' s' in
    (name, grid, key, position_unique t u s'')
