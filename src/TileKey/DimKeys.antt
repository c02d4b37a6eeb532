-- ===== src/TileKey/DimKeys.antt =====
-- `mapcache_util_get_tile_dimkey` of lib/util.c: the key of a tile's dimensions.
use mapcache.Base.{
  ℕ, Text, has_byte, has_byte-append, ◌≡◌, ◌≢◌, refl, ap, sym, subst, true, false, none, some, List,
  [], ◌∷◌, ◌++◌, arith, length,
}
use mathlib.Core.List.{map, reverse, reverse-cons, append_assoc}
use native.Mathlib.Nat.{le_refl}
use mapcache.Types.{Dimensions}
use mapcache.Util.Sanitize.{sanitized, str_sanitize_total}
use mapcache.TileKey.{Sanitizer, separator, first_byte, join, values, get_tile_dimkey}

no_bad_byte :
    (chars : Text) (to : ℕ) (s : Text) (c : ℕ)
    → has_byte to chars ≡ false
    → has_byte c chars ≡ true
    → has_byte c (map (sanitized chars to) s) ≡ false
no_bad_byte chars to [] c clean bad = refl
no_bad_byte chars to (d ∷ s) c clean bad = ground (arith, no_bad_byte chars to s c clean bad)

-- With one dimension, the key holds none of the bytes to be replaced, if the replacement is no such byte
-- and is not empty.
pub get_tile_dimkey_clean :
    (chars to name v : Text) (c : ℕ)
    → first_byte to ≢ 0
    → has_byte (first_byte to) chars ≡ false
    → has_byte c chars ≡ true
    → (key : Text) × (get_tile_dimkey (some (chars, to)) (some ((name, v) ∷ [])) ≡ some key)
      × (has_byte c key ≡ false)
      × (key ≡ map (sanitized chars (first_byte to)) v)
unfolding get_tile_dimkey
get_tile_dimkey_clean chars to name v c printable clean bad = (
  map (sanitized chars (first_byte to)) v,
  str_sanitize_total chars (first_byte to) printable (length v) v clean (le_refl _),
  no_bad_byte chars (first_byte to) v c clean bad,
  refl,
)

has_byte-join :
    (c : ℕ) (sep : Text) (v : Text) (vs : List Text)
    → has_byte c v ≡ true
    → has_byte c (join sep (vs ++ v ∷ [])) ≡ true
has_byte-join c sep v [] h = h
has_byte-join c sep v (w ∷ []) h = rw (has_byte-append c w, has_byte-append c sep, h) (ground arith)
has_byte-join c sep v (w ∷ x ∷ vs) h =
    rw (has_byte-append c w, has_byte-append c sep, has_byte-join c sep v (x ∷ vs) h) (ground arith)

-- With several dimensions nothing is sanitized: a byte of the first value is a byte of the key, whatever
-- the bytes to be replaced are.
pub get_tile_dimkey_unsanitized :
    (san : Sanitizer) (name v : Text) (e : Text × Text) (es : Dimensions) (c : ℕ)
    → has_byte c v ≡ true
    → (key : Text) × (get_tile_dimkey san (some ((name, v) ∷ e ∷ es)) ≡ some key)
      × (has_byte c key ≡ true)
unfolding get_tile_dimkey
get_tile_dimkey_unsanitized san name v e es c h = (
  _,
  refl,
  subst (λ t. has_byte c (join (separator san) t) ≡ true) (sym (reverse-cons v (values (e ∷ es))))
      (has_byte-join c (separator san) v (reverse (values (e ∷ es))) h),
)

-- Without a sanitizer, values that hold the separator '#' make tiles with different dimensions share one key.
pub get_tile_dimkey_ambiguous :
    (k l a b c : Text)
    → get_tile_dimkey none (some ((k, a) ∷ (l, b ++ b'#' ∷ c) ∷ []))
      ≡ get_tile_dimkey none (some ((k, c ++ b'#' ∷ a) ∷ (l, b) ∷ []))
unfolding get_tile_dimkey
get_tile_dimkey_ambiguous k l a b c = ap some (append_assoc b (b'#' ∷ c) (b'#' ∷ a))
