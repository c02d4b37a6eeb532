-- ===== src/Dispatch/Tests.antt =====
-- The choice of a service at concrete inputs.
use mapcache.Base.{Text, codes, Option, none, some, List, [], ◌∷◌, ◌≡◌, refl}
use mapcache.Context.{init}
use mapcache.Dispatch.{Service, dispatch_request}

-- A service whose requests are the paths.
abbrev echo : Text → Service Text
echo name = record { url_prefix = name; parse_request = λ path ctx. (some path, ctx) }

abbrev services : List (Option (Service Text))
services = none ∷ some (echo (codes "tms")) ∷ some (echo (codes "tmsx")) ∷ []

-- The first prefix that fits is taken, and need not end where the name of the service in the path does.
short_prefix :
    dispatch_request services (some (codes "//tmsx/1.0.0")) init
    ≡ (some (codes "x/1.0.0"), some (echo (codes "tms")), init)
unfolding dispatch_request
short_prefix = refl
