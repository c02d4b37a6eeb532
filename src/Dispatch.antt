-- ===== src/Dispatch.antt =====
-- The choice of a service for a request: lib/services.c.
mod Tests
use Prim.Native.String.{String}
use mapcache.Base.{
  ℕ, Text, Bool, true, false, Option, none, some, List, [], ◌∷◌, ◌==◌, if◌then◌else◌,
}
use mapcache.Context.{Context, set_error}

-- `struct mapcache_service`: its prefix, and its parser on the rest of the path. The parameters of the request and
-- the configuration are the parser's own.
pub record Service (R : Type 0) : Type 0 where
  pub url_prefix : Text
  pub parse_request : Text → Context → Option R × Context

-- What is left of a path after a prefix, or `none` where `strncmp` finds a difference.
after_prefix : Text → Text → Option Text
after_prefix [] path = some path
after_prefix (p ∷ ps) [] = none
after_prefix (p ∷ ps) (c ∷ path) = if p == c then after_prefix ps path else none

skip_slashes : Text → Text
skip_slashes [] = []
skip_slashes (c ∷ path) = if c == b'/' then skip_slashes path else c ∷ path

-- The request, the service that is chosen, and the errors.
abbrev pub Choice : Type 0 → Type 0
Choice R = Option R × Option (Service R) × Context

module _ {R : Type 0} where
  -- The service of the loop's body, if it is configured and its prefix begins the path.
  matching : Option (Service R) → Text → Option (Service R × Text)
  unfolding after_prefix
  matching none path = none
  matching (some s) path = elim (after_prefix s.url_prefix path) [
    | none ↦ none
    | some rest ↦ some (s, rest)
  ]

  services_loop : List (Option (Service R)) → Text → Context → Choice R
  unfolding matching
  services_loop [] path ctx = (none, none, set_error 404 "unknown service %s" ctx)
  services_loop (s ∷ rest) path ctx = elim (matching s path) [
    | none ↦ services_loop rest path ctx
    | some (service, left) ↦
        let (request, ctx') = service.parse_request left ctx in (request, some service, ctx')
  ]

  -- `mapcache_service_dispatch_request`
  unfoldable pub dispatch_request : List (Option (Service R)) → Option Text → Context → Choice R
  unfolding services_loop skip_slashes
  dispatch_request services none ctx = (none, none, set_error 404 "missing a service" ctx)
  dispatch_request services (some path) ctx = services_loop services (skip_slashes path) ctx
