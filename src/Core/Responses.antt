-- ===== src/Core/Responses.antt =====
-- The response to a request for several tiles: its time, its delay and its status.
use mapcache.Base.{
  ℤ, ◌+ℤ◌, ◌*ℤ◌, ◌++◌, codes, show_ℤ, ◌≢◌, ◌⊎◌, zero, suc, pos, pos_part, neg_part, false, ◌≡◌,
  refl, ap, subst, ◌∙◌, inl, inr, List, ◌∷◌, some-inj, arith,
}
use mapcache.Context.{Context}
use mapcache.Types.{Tile}
use mapcache.Core.{Services, Headers, Merged}
use mapcache.Core.Merge.{Bounds, HasData, skip, Fresh}

-- The time and the delay of the tiles together.
pub record Combined (n : Merged) (ts : List Tile) : Type 0 where
  pub bounds : (t : Tile) → HasData ts t → Bounds n t
  pub newest : (t : Tile) × HasData ts t × (n.mtime ≡ t.mtime)
  pub soonest : (t : Tile) × HasData ts t × (n.expires ≡ t.expires)

take_first :
    (p n : Merged) (u : Tile) (ts : List Tile)
    → u.nodata ≡ false
    → p.mtime ≡ u.mtime
    → p.expires ≡ u.expires
    → Fresh p n ts
    → Combined n (u ∷ ts)
take_first p n u ts e a b f = record {
  bounds = bounds;
  newest = elim f.mtime_of [
    | inl c ↦ (u, (0, refl, e), c ∙ a)
    | inr (t, d, c) ↦ (t, skip u ts t d, c)
  ];
  soonest = elim f.expires_of [
    | inl c ↦ (u, (0, refl, e), c ∙ b)
    | inr (t, d, c) ↦ (t, skip u ts t d, c)
  ];
}
  where
    own : Bounds n u
    own = (omega (arith, a, f.grows.0), omega (arith, ap pos_part b, ap neg_part b, f.grows.1))

    bounds : (t : Tile) → HasData (u ∷ ts) t → Bounds n t
    bounds t (zero, c, d) = subst (Bounds n) (some-inj c) own
    bounds t (suc k, c, d) = f.bounds t (k, c, d)

module _ (env : Services) where
  -- The headers for a delay: none for the delay 0, which stands for no expiration, and otherwise the delay
  -- in seconds, and the date that is so many seconds from now.
  pub Announced : ℤ → Headers → Headers → Type 0
  Announced d before after =
      ((d ≡ pos 0) × (after ≡ before))
      ⊎ ((d ≢ pos 0)
          × (after
              ≡ env.table_set
                  (env.table_set before (codes "Cache-Control") (codes "max-age=" ++ show_ℤ d))
                  (codes "Expires") (env.rfc822_date (pos env.now +ℤ d *ℤ pos 1000000))))
