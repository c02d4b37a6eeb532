-- ===== src/Context/Tests.antt =====
-- Runs of the error state, and the theorems about it at concrete inputs.
use mapcache.Base.{◌≡◌, refl, some}
use mapcache.Context.{first, again, init, set_error}

-- The second error adds its message and keeps the code of the first.
second_error :
    set_error 500 "no source" (set_error 404 "no tile" init)
    ≡ record init { errcode = 404; errmsg = some (again (first "no tile") "no source") }
unfolding set_error
second_error = refl
