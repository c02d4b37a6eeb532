-- ===== src/Request/Tokens.antt =====
-- The tokens of a path that is put together from parts without the separator.
use mapcache.Base.{
  ℕ, Text, has_byte, true, false, Bool-cases, [], ◌∷◌, ◌++◌, ◌==◌, ◌≡◌, sym, ap, ◌∙◌, arith, inl,
  inr,
}
use mathlib.Core.List.{append_assoc, append-nil}
use mapcache.Request.{tokens_from, tokens}

-- A part of a path.
abbrev pub IsPart : ℕ → Text → Type 0
IsPart sep [] = ⊥
IsPart sep (c ∷ s) = has_byte sep (c ∷ s) ≡ false

pub cons-IsPart :
    (sep : ℕ) (t : Text) {c : ℕ} {s : Text} → t ≡ c ∷ s → has_byte sep t ≡ false → IsPart sep t
cons-IsPart sep [] e h = cc
cons-IsPart sep (d ∷ t) e h = h

-- Reading on in a token.
module _ (sep : ℕ) (rest : Text) where
  onward :
      (s token : Text)
      → has_byte sep s ≡ false
      → tokens_from sep token (s ++ rest) ≡ tokens_from sep (token ++ s) rest
  unfolding tokens_from
  onward [] token h = ap (λ t. tokens_from sep t rest) (sym (append-nil token))
  onward (c ∷ s) token h = elim (Bool-cases (c == sep)) [
    | inl e ↦ absurd (ground (arith, e))
    | inr e ↦
        rw (e, tokens_from)
          (onward s (token ++ c ∷ []) (ground (arith, e))
            ∙ ap (λ t. tokens_from sep t rest) (append_assoc token (c ∷ []) s))
  ]

==_refl : (n : ℕ) → (n == n) ≡ true
==_refl n = ground arith

pub tokens-slash : (sep : ℕ) (s : Text) → tokens sep (sep ∷ s) ≡ tokens sep s
unfolding tokens tokens_from
tokens-slash sep s = rw (==_refl sep, tokens_from)

pub tokens-part :
    (sep : ℕ) (part s : Text) → IsPart sep part → tokens sep (part ++ sep ∷ s) ≡ part ∷ tokens sep s
unfolding tokens
tokens-part sep [] s h = absurd h
tokens-part sep (c ∷ part) s h =
    onward sep (sep ∷ s) (c ∷ part) [] h ∙ rw (==_refl sep, tokens_from)

pub tokens-last : (sep : ℕ) (part : Text) → IsPart sep part → tokens sep part ≡ part ∷ []
unfolding tokens
tokens-last sep [] h = absurd h
tokens-last sep (c ∷ part) h =
    ap (λ t. tokens_from sep [] t) (sym (append-nil (c ∷ part))) ∙ onward sep [] (c ∷ part) [] h
