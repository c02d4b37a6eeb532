-- ===== src/Config.antt =====
-- The tables of a configuration: lib/configuration.c. APR's hash tables are lists of keys with values.
use mapcache.Base.{Text, codes, text_eq, Bool, Option, none, some, List, [], ◌∷◌, if◌then◌else◌}
use mapcache.Types.{Tileset}

-- `apr_hash_get`
abbrev pub hash_get {ℓ} : {A : Type ℓ} → Text → List (Text × A) → Option A
hash_get key [] = none
hash_get key ((k, a) ∷ table) = if text_eq k key then some a else hash_get key table

-- The part of `struct mapcache_cfg` that requests are parsed with; `is_normal` is MAPCACHE_MODE_NORMAL.
pub record Config : Type 0 where
  pub is_normal : Bool
  pub tilesets : List (Text × Tileset)

-- `mapcache_configuration_get_tileset`: a mirror has one tileset.
abbrev pub get_tileset : Config → Text → Option Tileset
get_tileset cfg key =
    if cfg.is_normal then hash_get key cfg.tilesets else hash_get (codes "mirror") cfg.tilesets
