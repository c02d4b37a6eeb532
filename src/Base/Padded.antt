-- ===== src/Base/Padded.antt =====
-- `%03d` and the like: decimal texts filled with zeros up to a width; and hexadecimal texts.
use Prim.Native.Nat.{ℕ, zero, suc, ◌+◌, ◌-◌, ◌/◌, ◌%◌, ◌<◌}
use mathlib.Core.Path.{◌≡◌, refl, ap, sym, ◌∙◌}
use mathlib.Core.Bool.{false}
use mathlib.Core.List.{[], ◌∷◌, ◌++◌}
use mathlib.Core.Logic.{◌≢◌, ◌⊎◌}
use native.Mathlib.Omega.{arith}
use mapcache.Base.Tests.{ltb, if◌then◌else◌}
use mapcache.Base.Int.{ℤ, pos, negsuc}
use mapcache.Base.Lists.{length, replicate}
use mapcache.Base.Strings.{Text, has_byte}
use mapcache.Base.Decimal.{digits, value, value-digits, digits-free}

-- Filled from the left with zeros.
pad : ℕ → Text → Text
pad w s = replicate (w - length s) b'0' ++ s

-- `%0wd`: the sign counts as one of the places.
unfoldable pub show_padded : ℕ → ℤ → Text
unfolding pad digits
show_padded w (pos n) = pad w (digits (suc n) n)
show_padded w (negsuc n) = b'-' ∷ pad (w - 1) (digits (suc (suc n)) (suc n))

-- A digit, with the letters from `ten` on.
hex_digit : ℕ → ℕ → ℕ
hex_digit ten d = if ltb d 10 then b'0' + d else ten + d - 10

hex_digits : ℕ → ℕ → ℕ → Text
unfolding hex_digit
hex_digits zero ten n = []
hex_digits (suc fuel) ten n =
    let front = hex_digits fuel ten (n / 16) in
    if ltb n 16 then hex_digit ten n ∷ [] else front ++ hex_digit ten (n % 16) ∷ []

-- `%0wx`
unfoldable pub show_hex : ℕ → ℕ → Text
unfolding hex_digits pad
show_hex w n = pad w (hex_digits (suc n) b'a' n)

-- `%0wX`
unfoldable pub show_upper_hex : ℕ → ℕ → Text
unfolding hex_digits pad
show_upper_hex w n = pad w (hex_digits (suc n) b'A' n)

value-zeros : (k : ℕ) (s : Text) → value 0 (replicate k b'0' ++ s) ≡ value 0 s
unfolding value
value-zeros zero s = refl
value-zeros (suc k) s = value-zeros k s

has_byte-zeros :
    (c k : ℕ) (s : Text) → (c < 48) ⊎ (57 < c) → has_byte c (replicate k b'0' ++ s) ≡ has_byte c s
has_byte-zeros c zero s h = refl
has_byte-zeros c (suc k) s h = ground (arith, has_byte-zeros c k s h)

value-pad : (w n : ℕ) → value 0 (pad w (digits (suc n) n)) ≡ n
unfolding pad
value-pad w n = value-zeros _ _ ∙ value-digits (suc n) n (omega arith)

pad-free : (c w fuel n : ℕ) → (c < 48) ⊎ (57 < c) → has_byte c (pad w (digits fuel n)) ≡ false
unfolding pad
pad-free c w fuel n h = has_byte-zeros c _ _ h ∙ digits-free c fuel n h

pub show_padded-free :
    (c w : ℕ) (a : ℤ) → c ≢ b'-' → (c < 48) ⊎ (57 < c) → has_byte c (show_padded w a) ≡ false
unfolding show_padded
show_padded-free c w (pos n) ne h = pad-free c w (suc n) n h
show_padded-free c w (negsuc n) ne h = ground (arith, pad-free c (w - 1) (suc (suc n)) (suc n) h)

minus_first : (w n : ℕ) (s : Text) → pad w (digits (suc n) n) ≡ b'-' ∷ s → ⊥
minus_first w n s e = absurd (ground (arith, pad-free b'-' w (suc n) n, ap (has_byte b'-') e))

pub show_padded-injective : (w : ℕ) (a b : ℤ) → show_padded w a ≡ show_padded w b → a ≡ b
unfolding show_padded
show_padded-injective w (pos m) (pos n) e =
    ap pos (sym (value-pad w m) ∙ ap (value 0) e ∙ value-pad w n)
show_padded-injective w (pos m) (negsuc n) e = absurd (minus_first w m _ e)
show_padded-injective w (negsuc m) (pos n) e = absurd (minus_first w n _ (sym e))
show_padded-injective w (negsuc m) (negsuc n) e =
    ap negsuc
      (omega (arith, value-pad (w - 1) (suc m), value-pad (w - 1) (suc n), ap (value 0) (tail e)))
  where
    tail : {s t : Text} → b'-' ∷ s ≡ b'-' ∷ t → s ≡ t
    tail e = cc
