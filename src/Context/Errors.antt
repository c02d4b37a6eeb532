-- ===== src/Context/Errors.antt =====
-- Which error and which message several errors leave.
use Prim.Native.String.{String}
use mapcache.Base.{
  ℕ, suc, ◌≡◌, refl, ap, sym, ◌∙◌, false, some, none, List, [], ◌∷◌, ◌++◌, Text, codes, arith,
  has_byte, has_byte-append,
}
use mathlib.Core.List.{append_assoc, append-nil}
use mapcache.Context.{
  Message, first, again, Context, earlier, message_text, set_error, get_error, get_error_message,
  report,
}

module _ (printf : ℕ → Text → Text) where
  -- printf copies what stands before the first conversion.
  abbrev pub Copies : Type 0
  Copies = (k : ℕ) (s t : Text) → has_byte b'%' s ≡ false → printf k (s ++ t) ≡ s ++ printf k t

  -- The messages of the errors after the first `k`, each expanded by itself and behind a newline.
  abbrev pub following : ℕ → List (ℕ × String) → Text
  following k [] = []
  following k ((c, m) ∷ es) = b'\n' ∷ (printf k (codes m) ++ following (suc k) es)

  free_before :
      (s t u : Text)
      → has_byte b'%' (s ++ b'\n' ∷ (t ++ u)) ≡ false
      → has_byte b'%' (s ++ b'\n' ∷ []) ≡ false
  free_before s t u f =
      ground (arith, has_byte-append b'%' s (b'\n' ∷ (t ++ u)), has_byte-append b'%' s (b'\n' ∷ []))

  -- A format behind a text without conversions.
  behind :
      Copies
      → (k : ℕ) (s t u : Text) → has_byte b'%' (s ++ b'\n' ∷ (printf k t ++ u)) ≡ false
      → printf k (s ++ b'\n' ∷ t) ≡ s ++ b'\n' ∷ printf k t
  behind copies k s t u f =
      ap (printf k) (sym (append_assoc s (b'\n' ∷ []) t))
      ∙ copies k (s ++ b'\n' ∷ []) t (free_before s (printf k t) u f)
      ∙ append_assoc s (b'\n' ∷ []) (printf k t)

  -- A message with further ones behind it.
  report_later :
      Copies
      → (es : List (ℕ × String)) (ctx : Context) (m : Message) → ctx.errmsg ≡ some m
      → has_byte b'%' (message_text printf m ++ following (suc (earlier m)) es) ≡ false
      → ((report es ctx).errcode ≡ ctx.errcode)
        × ((n : Message) × ((report es ctx).errmsg ≡ some n)
            × (message_text printf n ≡ message_text printf m ++ following (suc (earlier m)) es))
  unfolding report earlier
  report_later copies [] ctx m e f = (refl, (m, e, sym (append-nil _)))
  report_later copies ((c, n) ∷ es) ctx m e f =
      let k = suc (earlier m) in
      let rest = following (suc k) es in
      let text : message_text printf (again m n)
          ≡ message_text printf m ++ b'\n' ∷ printf k (codes n) =
        unfold message_text in behind copies k (message_text printf m) (codes n) rest f in
      let joined : message_text printf (again m n) ++ rest
          ≡ message_text printf m ++ b'\n' ∷ (printf k (codes n) ++ rest) =
        ap (λ t. t ++ rest) text
        ∙ append_assoc (message_text printf m) (b'\n' ∷ printf k (codes n)) rest in
      let (a, (x, b, d)) =
        report_later copies es (set_error c n ctx) (again m n) (unfold set_error in rw e refl)
          (ap (has_byte b'%') joined ∙ f) in
      (a ∙ (unfold set_error in rw e refl), (x, b, d ∙ joined))

  -- Of the errors that are reported to a context without a message the first gives the code, and the messages
  -- stand in order.
  pub report_first :
      Copies
      → (code : ℕ) (msg : String) (es : List (ℕ × String)) (ctx : Context)
      → get_error_message ctx ≡ none
      → has_byte b'%' (printf 0 (codes msg) ++ following 1 es) ≡ false
      → (get_error (report ((code, msg) ∷ es) ctx) ≡ code)
        × ((n : Message) × (get_error_message (report ((code, msg) ∷ es) ctx) ≡ some n)
            × (message_text printf n ≡ printf 0 (codes msg) ++ following 1 es))
  unfolding report message_text earlier
  report_first copies code msg es ctx e f =
      let (a, (x, b, d)) =
        report_later copies es (set_error code msg ctx) (first msg) (unfold set_error in rw e refl)
          f in
      (a ∙ (unfold set_error in rw e refl), (x, b, d))
