-- ===== src/Request/Numbers.antt =====
-- `strtol` reads back the numbers that `%d` has printed.
use mapcache.Base.{
  ℕ, zero, suc, ◌+◌, ◌-◌, ◌*◌, ◌/◌, ◌%◌, ◌^◌, ◌<◌, pos, to_u32, to_i32, to_u32-pos, to_i32-pos,
  Text, show_ℤ, digits, value, value-digits, true, false, Bool-cases, [], ◌∷◌, ◌++◌, ltb, ◌==◌, ◌≡◌,
  refl, sym, ap, ◌∙◌, subst, arith, inl, inr,
}
use mathlib.Core.List.{append-nil}
use mapcache.Request.{
  is_digit, read_digits, is_space, skip_space, starts_with_digit, signed, behind_sign, strtol,
  parse_int, clamp,
}

abbrev AllDigits : Text → Type 0
AllDigits [] = Unit
AllDigits (c ∷ s) = (is_digit c ≡ true) × AllDigits s

-- What may stand behind a number.
abbrev pub NoDigit : Text → Type 0
NoDigit [] = Unit
NoDigit (c ∷ s) = is_digit c ≡ false

AllDigits-append : (s t : Text) → AllDigits s → AllDigits t → AllDigits (s ++ t)
AllDigits-append [] t h g = g
AllDigits-append (c ∷ s) t h g = (h.0, AllDigits-append s t h.1 g)

is_digit-lt : (n : ℕ) → n < 10 → is_digit (48 + n) ≡ true
unfolding is_digit
is_digit-lt n h = ground arith

AllDigits-digits : (fuel n : ℕ) → AllDigits (digits fuel n)
unfolding digits
AllDigits-digits zero n = tt
AllDigits-digits (suc fuel) n = elim (Bool-cases (ltb n 10)) [
  | inl small ↦ rw small (is_digit-lt n (ground arith), tt)
  | inr large ↦ rw large (
      AllDigits-append (digits fuel (n / 10)) _ (AllDigits-digits fuel (n / 10))
        (is_digit-lt (n % 10) (omega arith), tt))
]

read_digits_lem :
    (acc : ℕ) (s rest : Text)
    → AllDigits s
    → NoDigit rest
    → read_digits acc (s ++ rest) ≡ (value acc s, rest)
unfolding read_digits value
read_digits_lem acc [] [] h g = refl
read_digits_lem acc [] (c ∷ rest) h g = rw (g, read_digits)
read_digits_lem acc (c ∷ s) rest h g =
    rw (h.0, read_digits) (read_digits_lem (acc * 10 + (c - 48)) s rest h.1 g)

digit-is_space : (c : ℕ) → is_digit c ≡ true → is_space c ≡ false
unfolding is_digit is_space
digit-is_space c h = ground arith

digit-ne : (c d : ℕ) → d < 48 → is_digit c ≡ true → (c == d) ≡ false
unfolding is_digit
digit-ne c d h g = ground arith

-- A number that begins with a digit.
strtol-digits :
    (c : ℕ) (s rest : Text)
    → AllDigits (c ∷ s)
    → NoDigit rest
    → strtol (c ∷ (s ++ rest)) ≡ (clamp false (value 0 (c ∷ s)), rest)
unfolding strtol behind_sign signed skip_space starts_with_digit
strtol-digits c s rest h g =
    let space : is_space c ≡ false = digit-is_space c h.0 in
    let minus : (c == b'-') ≡ false = digit-ne c b'-' (omega arith) h.0 in
    let plus : (c == b'+') ≡ false = digit-ne c b'+' (omega arith) h.0 in
    rw (space, minus, plus, h.0, read_digits_lem 0 (c ∷ s) rest h g) refl

NonEmpty-snoc : (s : Text) (d : ℕ) → (c : ℕ) × (t : Text) × (s ++ d ∷ [] ≡ c ∷ t)
NonEmpty-snoc [] d = (d, [], refl)
NonEmpty-snoc (c ∷ s) d = (c, s ++ d ∷ [], refl)

NonEmpty-digits : (fuel n : ℕ) → (c : ℕ) × (s : Text) × (digits (suc fuel) n ≡ c ∷ s)
unfolding digits
NonEmpty-digits fuel n = elim (Bool-cases (ltb n 10)) [
  | inl small ↦ (48 + n, [], rw small refl)
  | inr large ↦
      let (c, s, e) = NonEmpty-snoc (digits fuel (n / 10)) (48 + n % 10) in (c, s, rw large e)
]

small_int : (n : ℕ) → n < 2 ^ 31 → to_i32 (to_u32 (clamp false n)) ≡ pos n
unfolding clamp
small_int n h =
    let low : ltb n (2 ^ 63) ≡ true = ground arith in
    rw low (rw (to_u32-pos n (omega arith)) (to_i32-pos n h))

pub parse_int-show :
    (n : ℕ) (rest : Text)
    → n < 2 ^ 31
    → NoDigit rest
    → parse_int (show_ℤ (pos n) ++ rest) ≡ (pos n, rest)
unfolding parse_int show_ℤ
parse_int-show n rest h g =
    let (c, s, e) = NonEmpty-digits n n in
    let number : value 0 (c ∷ s) ≡ n =
      ap (value 0) (sym e) ∙ value-digits (suc n) n (omega arith) in
    let all : AllDigits (c ∷ s) = subst AllDigits e (AllDigits-digits (suc n) n) in
    ap (λ t. parse_int (t ++ rest)) e
    ∙ ap (λ p. (to_i32 (to_u32 p.0), p.1)) (strtol-digits c s rest all g)
    ∙ ap (λ m. (to_i32 (to_u32 (clamp false m)), rest)) number
    ∙ ap (λ m. (m, rest)) (small_int n h)

pub parse_int-show_end : (n : ℕ) → n < 2 ^ 31 → parse_int (show_ℤ (pos n)) ≡ (pos n, [])
parse_int-show_end n h = ap parse_int (sym (append-nil (show_ℤ (pos n)))) ∙ parse_int-show n [] h tt

pub show-cons : (n : ℕ) → (c : ℕ) × (s : Text) × (show_ℤ (pos n) ≡ c ∷ s)
unfolding show_ℤ
show-cons n = NonEmpty-digits n n
