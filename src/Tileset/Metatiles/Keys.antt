-- ===== src/Tileset/Metatiles/Keys.antt =====
-- The names under which metatiles are locked.
use mapcache.Base.{
  ℕ, ℤ, pos, show_ℤ, show_ℤ-injective, show-pos-free, has_byte, cut_unique, ◌≡◌, inl, false, arith,
}
use mapcache.Types.{Metatile}
use mapcache.Tileset.Metatiles.{resource_key}

-- The metatile has no negative number.
pub record IsPlaced (mt : Metatile) : Type 0 where
  pub x : ℕ
  pub y : ℕ
  pub z : ℕ
  pub at_x : mt.x ≡ pos x
  pub at_y : mt.y ≡ pos y
  pub at_z : mt.z ≡ pos z

no_dash : (a : ℤ) (n : ℕ) → a ≡ pos n → has_byte b'-' (show_ℤ a) ≡ false
no_dash a n e = rw e (show-pos-free b'-' n (inl (omega arith)))

-- Metatiles without a negative number whose keys are equal have the same place, whatever their tilesets and dimensions are called.
pub resource_key_distinct :
    (m n : Metatile)
    → IsPlaced m
    → IsPlaced n
    → resource_key m ≡ resource_key n
    → (m.x ≡ n.x) × (m.y ≡ n.y) × (m.z ≡ n.z)
unfolding resource_key
resource_key_distinct m n p q e =
    let (z, e') =
      cut_unique b'-' (show_ℤ m.z) (show_ℤ n.z) _ _ (no_dash m.z p.z p.at_z)
        (no_dash n.z q.z q.at_z) e in
    let (y, e'') =
      cut_unique b'-' (show_ℤ m.y) (show_ℤ n.y) _ _ (no_dash m.y p.y p.at_y)
        (no_dash n.y q.y q.at_y) e' in
    let (x, _) =
      cut_unique b'-' (show_ℤ m.x) (show_ℤ n.x) _ _ (no_dash m.x p.x p.at_x)
        (no_dash n.x q.x q.at_x) e'' in
    (show_ℤ-injective m.x n.x x, show_ℤ-injective m.y n.y y, show_ℤ-injective m.z n.z z)
