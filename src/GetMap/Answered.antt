-- ===== src/GetMap/Answered.antt =====
-- The answer to a request for assembled maps: `mapcache_core_get_map` of lib/core.c.
use Prim.Native.String.{String}
use mapcache.Base.{
  ℤ, pos, ◌==ℤ◌, Text, Bool, false, ◌≡◌, refl, ap, sym, subst, ◌∙◌, inl, inr, Option, none, some,
  List, Bool-cases, Option-cases, if_cases, some-inj, >>=-eq-some, if◌then◌else◌,
}
use mapcache.Context.{Message, Context, has_error}
use mapcache.Types.{Dimensions, ImageFormat, Tileset, Map}
use mapcache.Lock.{Files}
use mapcache.Fetch.{Env}
use mapcache.Prefetch.{World}
use mapcache.Core.{Services, Response, response_create, content_type, expiry_headers}
use mapcache.Maps.Assemble.{Painter}
use mapcache.GetMap.{
  Request, assemble, Answer, and_then, fetch_maps, assembled, finish, respond, base_map, get_map,
}
use mapcache.GetMap.Overlays.{Latest, answered, assembled-Latest}

module _ (services : Services) where
  expiry_headers-code : (d : ℤ) (q : Response) → (expiry_headers services d q).code ≡ q.code
  unfolding expiry_headers
  expiry_headers-code d q = elim (Bool-cases (d ==ℤ pos 0)) [
    | inl e ↦ rw e refl
    | inr e ↦ rw e refl
  ]

  finish-kept :
      (format : Option ImageFormat) (base : Map) (body : Answer Text) (ctx : Context) (r : Response)
      → finish services format base body ≡ (ctx, some r)
      → (r.code ≡ 200) × (r.mtime ≡ base.mtime)
  unfolding finish content_type response_create
  finish-kept format base (c, body) ctx r h =
      let e = some-inj (ap (λ x. x.1) h) in
      (
        ap (λ x. x.code) (sym e)
            ∙ expiry_headers-code base.expires
                (content_type services format (record response_create { body = body })),
        ap (λ x. x.mtime) (sym e),
      )

  respond-kept :
      (format : ImageFormat) (base : Map) (ctx ctx' : Context) (r : Response)
      → respond services format base ctx ≡ (ctx', some r)
      → (r.code ≡ 200) × (r.mtime ≡ base.mtime)
  unfolding respond
  respond-kept format base ctx ctx' r h = elim (Option-cases base.raw_image) [
    | inl e ↦ finish-kept none base (ctx, base.encoded_data) ctx' r (rw e at h)
    | inr (image, e) ↦
        let (c, body) : Context × Option Text = services.write format image ctx in
        elim (if_cases (has_error c) (rw e at h)) [
          | inl (_, f) ↦ absurd (let g : none ≡ some r = ap (λ x. x.1) f in cc)
          | inr (_, f) ↦ finish-kept (some format) base (c, body) ctx' r f
        ]
  ]

module _ {S : Type 0} (services : Services) (env_of : Tileset → Env S) (fs : Files)
    (wait : fs.Fs → Text → fs.Fs) (same_tileset : Tileset → Tileset → Bool)
    (joined : Option Message → String) (threaded_fetching non_blocking : Bool)
    (table_set : Dimensions → Text → Text → Dimensions) (painter : Painter) where
  -- If a request for assembled maps is answered, then the maps were fetched without an error, the status is
  -- 200, and the time of the response is that of the newest of the maps that have data.
  pub get_map-Latest :
      (q : Request) (ctx ctx' : Context) (w w' : World env_of fs wait) (r : Response)
      → q.getmap_strategy ≡ assemble
      → get_map services env_of fs wait same_tileset joined threaded_fetching non_blocking table_set
          painter q ctx w
        ≡ some ((ctx', some r), w')
      → (ms : List Map) × (c : Context) × (fetch_maps services env_of fs wait same_tileset joined
            threaded_fetching non_blocking table_set painter q.resample_mode q.maps ctx w
          ≡ some (ms, c, w'))
        × (has_error c ≡ false)
        × (r.code ≡ 200)
        × Latest r.mtime ms
  unfolding get_map base_map
  get_map-Latest q ctx ctx' w w' r s h =
      let ((answer, w₁), a, b) =
        >>=-eq-some
          (base_map services env_of fs wait same_tileset joined threaded_fetching non_blocking
            table_set painter q ctx w)
          _ h in
      let ((ms, c, w₂), f, g) =
        >>=-eq-some
          (fetch_maps services env_of fs wait same_tileset joined threaded_fetching non_blocking
            table_set painter q.resample_mode q.maps ctx w)
          _ (rw (s, base_map) at a) in
      let (same, fine, code, latest) = conclude q.getmap_format ms c ctx' w₂ w₁ w' answer r g b in
      (
        ms,
        c,
        subst
            (λ v.
              fetch_maps services env_of fs wait same_tileset joined threaded_fetching non_blocking
                table_set painter q.resample_mode q.maps ctx w
              ≡ some (ms, c, v))
            same f,
        fine,
        code,
        latest,
      )
    where
      conclude :
          (format : ImageFormat) (ms : List Map) (c ctx' : Context)
          (w₂ w₁ w' : World env_of fs wait) (answer : Answer Map) (r : Response)
          → ◌≡◌ {A = Option (Answer Map × World env_of fs wait)}
              (some (if has_error c then (c, none) else assembled ms c, w₂))
              (some (answer, w₁))
          → ◌≡◌ {A = Option (Answer Response × World env_of fs wait)}
              (some (and_then answer (respond services format), w₁))
              (some ((ctx', some r), w'))
          → (w₂ ≡ w') × (has_error c ≡ false) × (r.code ≡ 200) × Latest r.mtime ms
      conclude format ms c ctx' w₂ w₁ w' answer r g b =
          let same = ap (λ x. x.1) (some-inj g) ∙ ap (λ x. x.1) (some-inj b) in
          let (d, m, e, f) =
            answered answer (respond services format) (ap (λ x. x.0) (some-inj b)) in
          let (code, time) = respond-kept services format m d ctx' r f in
          elim (if_cases (has_error c) (ap (λ x. x.0) (some-inj g) ∙ e)) [
            | inl (_, k) ↦ absurd (let n : none ≡ some m = ap (λ x. x.1) k in cc)
            | inr (fine, k) ↦ (
              same,
              fine,
              code,
              subst (λ t. Latest t ms) (sym time) (assembled-Latest ms c d m k),
            )
          ]
