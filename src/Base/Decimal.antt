-- ===== src/Base/Decimal.antt =====
-- `%d`: the decimal text of an `int`.
use Prim.Native.Nat.{ℕ, zero, suc, ◌+◌, ◌-◌, ◌*◌, ◌/◌, ◌%◌, ◌<◌}
use mathlib.Core.Path.{◌≡◌, refl, ap, sym, ◌∙◌}
use mathlib.Core.Bool.{false}
use mathlib.Core.List.{[], ◌∷◌, ◌++◌}
use native.Mathlib.Omega.{arith}
use mapcache.Base.Tests.{ltb, Bool-cases, if◌then◌else◌}
use mathlib.Core.Logic.{◌≢◌, ◌⊎◌, inl, inr}
use mapcache.Base.Int.{ℤ, pos, negsuc}
use mapcache.Base.Strings.{Text, has_byte, has_byte-append}

-- The digits of `n`, given as many rounds as there are digits.
unfoldable pub digits : ℕ → ℕ → Text
digits zero n = []
digits (suc fuel) n =
    let front = digits fuel (n / 10) in
    if ltb n 10 then (48 + n) ∷ [] else front ++ (48 + n % 10) ∷ []

unfoldable pub show_ℤ : ℤ → Text
unfolding digits
show_ℤ (pos n) = digits (suc n) n
show_ℤ (negsuc n) = b'-' ∷ digits (suc (suc n)) (suc n)

-- Reading back, from the left.
unfoldable pub value : ℕ → Text → ℕ
value acc [] = acc
value acc (c ∷ s) = value (acc * 10 + (c - 48)) s

pub value-append : (acc : ℕ) (s t : Text) → value acc (s ++ t) ≡ value (value acc s) t
unfolding value
value-append acc [] t = refl
value-append acc (c ∷ s) t = value-append (acc * 10 + (c - 48)) s t

pub value-digits : (fuel n : ℕ) → n < fuel → value 0 (digits fuel n) ≡ n
unfolding digits
value-digits zero n h = elim h [ ]
value-digits (suc fuel) n h = elim (Bool-cases (ltb n 10)) [
  | inl small ↦ rw small (unfold value in omega arith)
  | inr large ↦ rw large (
      value-append 0 (digits fuel (n / 10)) ((48 + n % 10) ∷ [])
      ∙ last (value-digits fuel (n / 10) (ground arith)))
]
  where
    last :
        value 0 (digits fuel (n / 10)) ≡ n / 10
        → value (value 0 (digits fuel (n / 10))) ((48 + n % 10) ∷ []) ≡ n
    last e = unfold value in omega arith

-- A byte outside '0'..'9' is in no number.
pub digits-free : (c fuel n : ℕ) → (c < 48) ⊎ (57 < c) → has_byte c (digits fuel n) ≡ false
unfolding digits
digits-free c zero n h = refl
digits-free c (suc fuel) n h = elim (Bool-cases (ltb n 10)) [
  | inl small ↦ rw small (ground arith)
  | inr large ↦ rw large (rw has_byte-append (rw (digits-free c fuel (n / 10) h) (ground arith)))
]

pub show_ℤ-free : (c : ℕ) (a : ℤ) → c ≢ b'-' → (c < 48) ⊎ (57 < c) → has_byte c (show_ℤ a) ≡ false
unfolding show_ℤ
show_ℤ-free c (pos n) ne h = digits-free c (suc n) n h
show_ℤ-free c (negsuc n) ne h = ground (arith, digits-free c (suc (suc n)) (suc n) h)

minus_first : (n : ℕ) (s : Text) → digits (suc n) n ≡ b'-' ∷ s → ⊥
minus_first n s e = absurd (ground (arith, digits-free b'-' (suc n) n, ap (has_byte b'-') e))

pub show_ℤ-injective : (a b : ℤ) → show_ℤ a ≡ show_ℤ b → a ≡ b
unfolding show_ℤ
show_ℤ-injective (pos m) (pos n) e = ap pos (
    sym (value-digits (suc m) m (omega arith))
    ∙ ap (value 0) e
    ∙ value-digits (suc n) n (omega arith))
show_ℤ-injective (pos m) (negsuc n) e = absurd (minus_first m _ e)
show_ℤ-injective (negsuc m) (pos n) e = absurd (minus_first n _ (sym e))
show_ℤ-injective (negsuc m) (negsuc n) e = ap negsuc (
    omega (
      arith,
      value-digits (suc (suc m)) (suc m),
      value-digits (suc (suc n)) (suc n),
      ap (value 0) (tail e),
    ))
  where
    tail : {s t : Text} → b'-' ∷ s ≡ b'-' ∷ t → s ≡ t
    tail e = cc

pub show-pos-free : (c n : ℕ) → (c < 48) ⊎ (57 < c) → has_byte c (show_ℤ (pos n)) ≡ false
unfolding show_ℤ
show-pos-free c n h = digits-free c (suc n) n h
