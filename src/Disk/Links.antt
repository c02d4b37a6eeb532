-- ===== src/Disk/Links.antt =====
-- The relative name that `relative_path` of lib/cache_disk.c gives leads from the directory of the tile to the
-- blank tile.
use mapcache.Base.{
  ℕ, Text, codes, Bool, true, false, [], ◌∷◌, ◌++◌, ◌==◌, if◌then◌else◌, ◌≡◌, refl, has_byte,
}

abbrev pub is_nil : Text → Bool
is_nil [] = true
is_nil (c ∷ s) = false

-- How a file system reads a relative name from a directory, which is written with its '/': at the end it is put
-- behind the directory, "../" takes away one component, which is not empty, and a second '/' means nothing.
pub data Resolves : Text → Text → Text → Type 0 where
  down : {d r x : Text} → x ≡ d ++ r → Resolves d r x
  up :
      {d r x : Text} (d' comp r' : Text)
      → has_byte b'/' comp ≡ false
      → is_nil comp ≡ false
      → d ≡ d' ++ (comp ++ b'/' ∷ [])
      → r ≡ codes "../" ++ r'
      → Resolves d' r' x
      → Resolves d r x
  again : {d r x : Text} (d' : Text) → d ≡ d' ++ b'/' ∷ [] → Resolves d' r x → Resolves d r x

-- The directory `d` with what stands before the last '/' of a name whose component so far is `comp`.
abbrev pub folder : Text → Text → Text → Text
folder d comp [] = d
folder d comp (c ∷ s) =
    if c == b'/' then folder (d ++ (comp ++ b'/' ∷ [])) [] s else folder d (comp ++ c ∷ []) s

-- Two texts that do not begin with the same byte.
abbrev pub Differ : Text → Text → Type 0
Differ [] bs = Unit
Differ (t ∷ ts) [] = Unit
Differ (t ∷ ts) (b ∷ bs) = (t == b) ≡ false

is_nil-snoc : (s : Text) (c : ℕ) → is_nil (s ++ c ∷ []) ≡ false
is_nil-snoc [] c = refl
is_nil-snoc (d ∷ s) c = refl
