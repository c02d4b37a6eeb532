-- ===== src/Dimensions/Tests.antt =====
-- Values of dimensions at concrete inputs.
use mapcache.Base.{codes, true, false, ◌≡◌, refl}
use mapcache.Context.{init}
use mapcache.Request.{tokens}
use mapcache.Dimensions.{values_parse, values_validate}

-- Case counts only if it is said to.
lower_case : values_validate (values_parse false (codes "Red,Blue") init).0 (codes "red") ≡ true
unfolding values_validate values_parse tokens
lower_case = refl

other_case : values_validate (values_parse true (codes "Red,Blue") init).0 (codes "red") ≡ false
unfolding values_validate values_parse tokens
other_case = refl
