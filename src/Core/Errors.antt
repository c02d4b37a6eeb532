-- ===== src/Core/Errors.antt =====
-- The response to errors, `mapcache_core_respond_to_error` of lib/core.c, and the error state of lib/util.c.
use Prim.Native.String.{String}
use mapcache.Base.{
  ℕ, codes, ◌<◌, ◌≡◌, refl, ap, ◌∙◌, false, Option, none, some, List, ◌∷◌, ◌++◌, arith, ◌==◌,
  has_byte,
}
use mapcache.Context.{Context, Message, message_text, get_error_message, report}
use mapcache.Context.Errors.{Copies, following, report_first}
use mapcache.Core.Answers.{Reporting, report_msg, Callees, respond_to_error}

module _ (env : Callees) where
  coded :
      (how : Option Reporting) (code : ℕ) (ctx : Context)
      → ctx.errcode ≡ code
      → 0 < code
      → (respond_to_error env how ctx).1.code ≡ code
  unfolding respond_to_error
  coded how code ctx e h = let nonzero : (ctx.errcode == 0) ≡ false = ground arith in rw nonzero e

  told :
      (m : Message) (ctx : Context)
      → env.format_error ≡ none
      → ctx.errmsg ≡ some m
      → (respond_to_error env (some report_msg) ctx).1.body ≡ some (message_text env.printf m)
  unfolding respond_to_error
  told m ctx e f = rw (e, f) refl

  -- If errors are reported to a context without a message, the first with a code above 0, then the response has
  -- the code of the first, however errors are shown to the client; and if they are shown as messages,
  -- its body is all the messages, each expanded with its own arguments, in order and with newlines
  -- between. The conditions: the service does not format errors, printf copies what stands before the
  -- first conversion, and no expanded message holds a '%'.
  pub respond_to_error-report :
      (how : Option Reporting) (code : ℕ) (msg : String) (es : List (ℕ × String)) (ctx : Context)
      → get_error_message ctx ≡ none
      → 0 < code
      → env.format_error ≡ none
      → Copies env.printf
      → has_byte b'%' (env.printf 0 (codes msg) ++ following env.printf 1 es) ≡ false
      → ((respond_to_error env how (report ((code, msg) ∷ es) ctx)).1.code ≡ code)
        × ((respond_to_error env (some report_msg) (report ((code, msg) ∷ es) ctx)).1.body
            ≡ some (env.printf 0 (codes msg) ++ following env.printf 1 es))
  respond_to_error-report how code msg es ctx e h f copies free =
      let (a, (m, b, d)) = report_first env.printf copies code msg es ctx e free in
      (
        coded how code (report ((code, msg) ∷ es) ctx) a h,
        told m (report ((code, msg) ∷ es) ctx) f b ∙ ap some d,
      )
