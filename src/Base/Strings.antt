-- ===== src/Base/Strings.antt =====
-- C strings as lists of bytes, without the terminating zero.
use Prim.Native.Nat.{ℕ}
use Prim.Native.Char.{code}
use Prim.Native.String.{String}
use mathlib.Core.Path.{◌≡◌, refl}
use mathlib.Core.Bool.{Bool, true, false, ◌&&◌}
use mathlib.Core.Option.{Option, none, some}
use mathlib.Core.List.{List, [], ◌∷◌, ◌++◌}
use native.Mathlib.Omega.{arith}
use mapcache.Base.Tests.{◌==◌, if◌then◌else◌}

abbrev pub Text : Type 0
Text = List ℕ

-- The bytes of an ASCII literal.
abbrev pub codes : String → Text
codes String.[] = []
codes (String.◌∷◌ c s) = code c ∷ codes s

-- `!strcmp(s, t)`
abbrev pub text_eq : Text → Text → Bool
text_eq [] [] = true
text_eq [] (d ∷ t) = false
text_eq (c ∷ s) [] = false
text_eq (c ∷ s) (d ∷ t) = c == d && text_eq s t

pub text_eq_refl : (s : Text) → text_eq s s ≡ true
text_eq_refl [] = refl
text_eq_refl (c ∷ s) = ground (arith, text_eq_refl s)

pub text_eq_sound : (s t : Text) → text_eq s t ≡ true → s ≡ t
text_eq_sound [] [] h = refl
text_eq_sound [] (d ∷ t) h = cc
text_eq_sound (c ∷ s) [] h = cc
text_eq_sound (c ∷ s) (d ∷ t) h = ground (arith, text_eq_sound s t)

-- `strncmp(p, s, strlen(p)) == 0`, with what follows the prefix
abbrev pub strip_prefix : Text → Text → Option Text
strip_prefix [] s = some s
strip_prefix (c ∷ p) [] = none
strip_prefix (c ∷ p) (d ∷ s) = if c == d then strip_prefix p s else none

pub strip_prefix-append : (p s : Text) → strip_prefix p (p ++ s) ≡ some s
strip_prefix-append [] s = refl
strip_prefix-append (c ∷ p) s = ground (arith, strip_prefix-append p s)

pub strip_prefix_sound : (p s : Text) {r : Text} → strip_prefix p s ≡ some r → s ≡ p ++ r
strip_prefix_sound [] s h = ground arith
strip_prefix_sound (c ∷ p) [] h = cc
strip_prefix_sound (c ∷ p) (d ∷ s) {r} h = ground (arith, strip_prefix_sound p s {r = r})

-- `strchr(s, c) != NULL` for a byte that is not zero
abbrev pub has_byte : ℕ → Text → Bool
has_byte c [] = false
has_byte c (d ∷ s) = if c == d then true else has_byte c s

pub has_byte-append :
    (c : ℕ) (s t : Text) → has_byte c (s ++ t) ≡ (if has_byte c s then true else has_byte c t)
has_byte-append c [] t = refl
has_byte-append c (d ∷ s) t = ground (arith, has_byte-append c s t)

-- A text that is cut at the first separator is determined by its parts.
pub cut_unique :
    (c : ℕ) (p q s t : Text)
    → has_byte c p ≡ false
    → has_byte c q ≡ false
    → p ++ (c ∷ s) ≡ q ++ (c ∷ t)
    → (p ≡ q) × (s ≡ t)
cut_unique c [] [] s t hp hq e = (refl, cc)
cut_unique c [] (b ∷ q) s t hp hq e = ground arith
cut_unique c (a ∷ p) [] s t hp hq e = ground arith
cut_unique c (a ∷ p) (b ∷ q) s t hp hq e = ground (arith, cut_unique c p q s t)
