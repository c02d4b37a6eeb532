-- ===== src/Context.antt =====
-- The request context's error state: the `_mapcache_context_*_default` functions of lib/util.c and the
-- GC_HAS_ERROR and GC_CHECK_ERROR macros of include/mapcache.h.
--
-- The text `_errmsg` is kept as a `Message`: the calls of `apr_pvsprintf` that made it, and `message_text` is the
-- text for a printf, which with the arguments of the calls belongs to APR.
pub mod Errors
mod Tests
use Prim.Native.String.{String}
use mapcache.Base.{Text, codes, suc, zero, ◌+◌}
use mapcache.Base.{
  ℕ, ◌<◌, Bool, true, false, Option, none, some, List, [], ◌∷◌, ◌++◌, ltb, ◌==◌, not, if◌then◌else◌,
}

-- A table that `apr_table_set` writes: one value for each key.
abbrev pub Table : Type 0
Table = List (String × String)

-- How `_errmsg` was made. `first msg` expands the format `msg` with its arguments. `again old msg` expands, with
-- the arguments of the new call, the text that was there (expanded already), a newline and `msg`.
pub data Message : Type 0 where
  first : String → Message
  again : Message → String → Message

pub record Context : Type 0 where
  pub errcode : ℕ
  pub errmsg : Option Message
  pub exceptions : Option Table

-- GC_HAS_ERROR, and the test of GC_CHECK_ERROR
abbrev pub has_error : Context → Bool
has_error ctx = ltb 0 ctx.errcode

abbrev pub check_error : Context → Bool
check_error ctx = not (ctx.errcode == 0)

-- `mapcache_context_init`: the fields that it sets, on a zeroed context
abbrev pub init : Context
init = record { errcode = 0; errmsg = none; exceptions = none }

abbrev pub get_error : Context → ℕ
get_error ctx = ctx.errcode

abbrev pub get_error_message : Context → Option Message
get_error_message ctx = ctx.errmsg

-- The number of calls before the last one.
earlier : Message → ℕ
earlier (first msg) = 0
earlier (again old msg) = suc (earlier old)

-- The text, where `printf k` is `apr_pvsprintf` with the arguments of the call after `k` others.
unfoldable pub message_text : (ℕ → Text → Text) → Message → Text
unfolding earlier
message_text printf (first msg) = printf 0 (codes msg)
message_text printf (again old msg) =
    printf (suc (earlier old)) (message_text printf old ++ b'\n' ∷ codes msg)

unfoldable pub set_error : ℕ → String → Context → Context
set_error code msg ctx = elim ctx.errmsg [
  | none ↦ record ctx { errcode = code; errmsg = some (first msg) }
  | some old ↦ record ctx { errmsg = some (again old msg) }
]

-- `apr_table_set` is APR's; `apr_table_make` gives a table with no entry.
pub set_exception : (Table → String → String → Table) → String → String → Context → Context
set_exception table_set key msg ctx = record ctx {
  exceptions =
      some (elim ctx.exceptions [ none ↦ table_set [] key msg | some t ↦ table_set t key msg ]);
}

clear_table : Option Table → Option Table
clear_table none = none
clear_table (some t) = some []

unfoldable pub clear_errors : Context → Context
unfolding clear_table
clear_errors ctx = record { errcode = 0; errmsg = none; exceptions = clear_table ctx.exceptions }

-- The part of `mapcache_context_copy` that concerns errors: the target takes over all of the state.
pub copy : Context → Context → Context
copy src dst = record dst {
  errcode = src.errcode;
  errmsg = src.errmsg;
  exceptions = src.exceptions;
}

-- Errors reported one after another.
pub report : List (ℕ × String) → Context → Context
report [] ctx = ctx
report ((code, msg) ∷ es) ctx = report es (set_error code msg ctx)
