-- ===== src/Core/Answers.antt =====
-- The other requests of lib/core.c: a proxied request, feature info, capabilities, and the response to errors.
--
-- Sources, services and the HTTP client are called through pointers or libraries, and are fields of `Callees`
-- or arguments. The image with an error message is drawn by lib/image_error.c, which is not modelled.
use mapcache.Base.{
  ℕ, Text, codes, text_eq, Bool, true, false, ◌&&◌, Option, none, some, List, [], ◌∷◌, ◌++◌, ◌==◌,
  if◌then◌else◌, ◌>>=◌,
}
use mapcache.Context.{Message, message_text, Context, set_error, clear_errors, has_error}
use mapcache.Types.{Image, Map}
use mapcache.Core.{Headers, Response, response_create, Services}

-- `mapcache_error_reporting`
pub data Reporting : Type 0 where
  report_log report_msg report_error_img report_empty_img report_custom_img : Reporting

-- `struct mapcache_feature_info`
pub record FeatureInfo : Type 0 where
  pub map : Map
  pub format : Text
  pub body : Option Text

-- What these requests use besides the services of Core. `printf k` is
-- `apr_pvsprintf` with the arguments of the call after `k` others.
pub record Callees : Type 0 where
  pub services : Services
  pub table_unset : Headers → Text → Headers
  pub printf : ℕ → Text → Text
  pub format_error : Option (Text → Headers → Text × Headers)
  pub empty_image : Option Text
  pub error_image : ℕ → ℕ → Text → Image

-- `mapcache_feature_info` of a source: its formats, and `query_info`
pub record InfoSource : Type 0 where
  pub info_formats : Option (List Text)
  pub query_info : FeatureInfo → Context → Context × FeatureInfo

-- The answer of a server to a request.
pub record HttpAnswer : Type 0 where
  pub body : Text
  pub headers : Headers
  pub code : ℕ

first_is : ℕ → Text → Bool
first_is c [] = false
first_is c (b ∷ bs) = b == c

-- The last byte of a URL. The byte before an empty one is not its own.
last : Text → Option ℕ
last [] = none
last (b ∷ []) = some b
last (b ∷ c ∷ bs) = last (c ∷ bs)

-- The URL with the path of the request.
unfoldable pub proxied_url : Text → Text → Option Text
unfolding first_is last
proxied_url url path =
    if first_is b'/' path
    then some (url ++ path)
    else (do c ← last url; some (if c == b'/' then url ++ path else url ++ b'/' ∷ path))

module _ (env : Callees) where
  set_header : Headers → Text → Option Text → Headers
  set_header h k none = h
  set_header h k (some v) = env.services.table_set h k v

  -- `mapcache_core_proxy_request`; `do_request` is `mapcache_http_do_request_with_params`.
  pub proxy_request :
      (Text → Context → HttpAnswer × Context)
      → Text
      → Option Text
      → Context
      → Option (Context × Response)
  unfolding proxied_url clear_errors
  proxy_request do_request base path ctx = do
    url ← elim path [ none ↦ some base | some p ↦ proxied_url base p ]
    let (answer, ctx') = do_request url ctx
    let left =
        env.table_unset (env.table_unset answer.headers (codes "Transfer-Encoding"))
          (codes "Connection")
    some (
      if not_zero answer.code && has_error ctx' then clear_errors ctx' else ctx',
      record response_create { body = some answer.body; headers = left; code = answer.code },
    )
    where
      not_zero : ℕ → Bool
      not_zero n = if n == 0 then false else true

  listed : Text → List Text → Bool
  listed f [] = false
  listed f (g ∷ gs) = if text_eq f g then true else listed f gs

  queried : Context × FeatureInfo → Context × Option Response
  queried (ctx, fi) = (
    ctx,
    if has_error ctx
        then none
        else some (record response_create {
          body = fi.body;
          headers = env.services.table_set [] (codes "Content-Type") fi.format;
        }),
  )

  -- `mapcache_core_get_featureinfo`, with the source of the tileset
  pub get_featureinfo : Option InfoSource → FeatureInfo → Context → Context × Option Response
  unfolding listed queried
  get_featureinfo none fi ctx =
      (set_error 404 "cannot query tileset %s: no source defined" ctx, none)
  get_featureinfo (some source) fi ctx = elim source.info_formats [
    | none ↦ (set_error 404 "tileset %s does not support feature info requests" ctx, none)
    | some formats ↦
        if listed fi.format formats
        then queried (source.query_info fi ctx)
        else (set_error 404 "unsupported feature info format %s" ctx, none)
  ]

  -- `mapcache_core_get_capabilities`; `create` is `create_capabilities_response` of the service.
  pub get_capabilities : (Context → Context × (Text × Text)) → Context → Context × Option Response
  get_capabilities create ctx =
      let (ctx', (capabilities, mime_type)) = create ctx in
      (
        ctx',
        if has_error ctx'
            then none
            else some (record response_create {
              body = some capabilities;
              headers = env.services.table_set [] (codes "Content-Type") mime_type;
            }),
      )

  error_message : Option Message → Text
  error_message none = codes "an unspecified error has occured"
  error_message (some m) = message_text env.printf m

  formatted : Text → Headers → Text × Headers
  formatted msg h = elim env.format_error [ none ↦ (msg, h) | some f ↦ f msg h ]

  -- The headers of an image instead of a message.
  image_headers : Text → Headers
  unfolding set_header
  image_headers msg =
      env.services.table_set
        (set_header [] (codes "Content-Type") env.services.default_image_format.mime_type)
        (codes "X-Mapcache-Error") msg

  reported : Option Reporting → Text → Context → Context × (Option Text × Headers)
  unfolding formatted image_headers
  reported (some report_msg) msg ctx =
      let plain = env.services.table_set [] (codes "Content-Type") (codes "text/plain") in
      let (body, h) = formatted msg plain in (ctx, (some body, h))
  reported (some report_empty_img) msg ctx = (ctx, (env.empty_image, image_headers msg))
  reported (some report_error_img) msg ctx =
      let (ctx', body) =
        env.services.write env.services.default_image_format (env.error_image 256 256 msg) ctx in
      (ctx', (body, image_headers msg))
  reported _ msg ctx = (ctx, (none, []))

  -- `mapcache_core_respond_to_error`, with the way of reporting of the configuration, if there is one
  unfoldable pub respond_to_error : Option Reporting → Context → Context × Response
  unfolding error_message reported
  respond_to_error how ctx =
      let (ctx', (body, h)) = reported how (error_message ctx.errmsg) ctx in
      (
        ctx',
        record response_create {
          code = if ctx.errcode == 0 then 500 else ctx.errcode;
          body = body;
          headers = h;
        },
      )
