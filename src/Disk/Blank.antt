-- ===== src/Disk/Blank.antt =====
-- `relative_path` of lib/cache_disk.c: the name of a blank tile as seen from the directory of another file.
use mapcache.Base.{
  ℕ, zero, suc, Text, codes, Bool, true, not, ◌&&◌, Option, none, some, [], ◌∷◌, ◌++◌, ◌==◌,
  if◌then◌else◌,
}

-- The last common byte of two texts that begin with `c`, and what is behind it in both.
unfoldable pub common : ℕ → Text → Text → ℕ × Text × Text
common c [] bs = (c, [], bs)
common c (t ∷ ts) [] = (c, t ∷ ts, [])
common c (t ∷ ts) (b ∷ bs) = if t == b then common t ts bs else (c, t ∷ ts, b ∷ bs)

-- The slashes of a name, consecutive ones counted once; `prev` says that one has just been read.
unfoldable pub updirs : Bool → Text → ℕ
updirs prev [] = 0
updirs prev (c ∷ s) =
    let rest = updirs (c == b'/') s in if c == b'/' && not prev then suc rest else rest

unfoldable pub climb : ℕ → Text → Text
climb zero s = s
climb (suc n) s = codes "../" ++ climb n s

-- The common part ends at a '/', or the full name is taken.
unfoldable pub from_common : Text → ℕ × Text × Text → Text
from_common blankname (c, ts, bs) = if c == b'/' then climb (updirs true ts) bs else blankname

-- No result is a read behind the end of two empty names.
unfoldable pub relative_path : Text → Text → Option Text
unfolding from_common common updirs climb
relative_path [] [] = none
relative_path [] (b ∷ bs) = some (b ∷ bs)
relative_path (t ∷ ts) [] = some []
relative_path (t ∷ ts) (b ∷ bs) =
    if t == b then some (from_common (b ∷ bs) (common t ts bs)) else some (b ∷ bs)
