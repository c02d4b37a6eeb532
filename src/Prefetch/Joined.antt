-- ===== src/Prefetch/Joined.antt =====
-- The errors of the threads of `mapcache_prefetch_tiles`.
use Prim.Native.String.{String}
use mapcache.Base.{
  ℕ, zero, suc, true, false, ◌≡◌, refl, ap, sym, ◌∙◌, inl, inr, Option, none, some, List, [], ◌∷◌,
  get_elem?, Bool-cases, some-inj, if◌then◌else◌, ltb,
}
use mapcache.Context.{Message, Context, has_error, set_error, get_error, get_error_message}
use mapcache.Prefetch.{join_loop}

-- The contexts that the code makes: no message without an error code.
abbrev pub IsSound : Context → Type 0
IsSound ctx = has_error ctx ≡ false → ctx.errmsg ≡ none

-- An error that is set keeps the code that was there, or sets its own if there was no message.
reported :
    (code : ℕ) (msg : String) (ctx : Context) (ms : Option Message)
    → ctx.errmsg ≡ ms
    → IsSound ctx
    → ltb 0 code ≡ true
    → has_error (set_error code msg ctx) ≡ true
unfolding set_error
reported code msg ctx none m s e = rw m e
reported code msg ctx (some x) m s e = elim (Bool-cases (has_error ctx)) [
  | inl yes_error ↦ rw m yes_error
  | inr no_error ↦
      absurd (let f : ◌≡◌ {A = Option Message} (some x) none = sym m ∙ s no_error in cc)
]

sound : (ctx : Context) → has_error ctx ≡ true → IsSound ctx
sound ctx e f = cc

module _ (joined : Option Message → String) where
  -- The main context after one thread is joined.
  abbrev joined_with : Context → Context → Context
  joined_with c ctx =
      if has_error c then set_error (get_error c) (joined (get_error_message c)) ctx else ctx

  kept :
      (cs : List Context) (ctx : Context)
      → has_error ctx ≡ true
      → has_error (join_loop joined cs ctx) ≡ true
  unfolding join_loop
  kept [] ctx e = e
  kept (c ∷ cs) ctx e = elim (Bool-cases (has_error c)) [
    | inl f ↦
        kept cs (joined_with c ctx)
          (rw f (reported c.errcode (joined c.errmsg) ctx ctx.errmsg refl (sound ctx e) f))
    | inr f ↦ kept cs (joined_with c ctx) (rw f e)
  ]

  -- No error of a thread is lost: if the context of some thread has an error, then the main context has one
  -- after the threads are joined, for a main context that has no message without an error code.
  pub join_loop_reports :
      (cs : List Context) (ctx : Context) (k : ℕ) (c : Context)
      → IsSound ctx
      → get_elem? cs k ≡ some c
      → has_error c ≡ true
      → has_error (join_loop joined cs ctx) ≡ true
  unfolding join_loop
  join_loop_reports [] ctx k c s h e = cc
  join_loop_reports (d ∷ cs) ctx zero c s h e =
      let f : has_error d ≡ true = ap has_error (some-inj h) ∙ e in
      kept cs (joined_with d ctx)
        (rw f (reported d.errcode (joined d.errmsg) ctx ctx.errmsg refl s f))
  join_loop_reports (d ∷ cs) ctx (suc k) c s h e = elim (Bool-cases (has_error d)) [
    | inl f ↦
        kept cs (joined_with d ctx)
          (rw f (reported d.errcode (joined d.errmsg) ctx ctx.errmsg refl s f))
    | inr f ↦ join_loop_reports cs (joined_with d ctx) k c (rw f s) h e
  ]

  -- Without an error in a thread, the main context is as it was.
  pub join_loop_quiet :
      (cs : List Context) (ctx : Context)
      → ((k : ℕ) (c : Context) → get_elem? cs k ≡ some c → has_error c ≡ false)
      → join_loop joined cs ctx ≡ ctx
  unfolding join_loop
  join_loop_quiet [] ctx h = refl
  join_loop_quiet (c ∷ cs) ctx h = rw (h 0 c refl) (join_loop_quiet cs ctx (λ k d e. h (suc k) d e))
