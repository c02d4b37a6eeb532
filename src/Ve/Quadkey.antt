-- ===== src/Ve/Quadkey.antt =====
-- Quadkeys of lib/service_ve.c: one digit for each level, with a bit of the column and a bit of the row.
use mapcache.Base.{
  ℕ, zero, suc, ◌+◌, ◌*◌, ◌/◌, ◌%◌, ◌^◌, ◌<◌, ◌==◌, Text, Bool, true, false, some, [], ◌∷◌, length,
  ◌≡◌, refl, ap, ap₂, ◌∙◌, arith, div_unique,
}
use mapcache.Ve.{or_bit, digit_bits, add_bit, quadkey_loop}

-- Bit `k` of a number.
abbrev pub bit : ℕ → ℕ → Bool
bit n k = n / 2 ^ k % 2 == 1

abbrev pub digit : Bool → Bool → ℕ
digit false false = b'0'
digit true false = b'1'
digit false true = b'2'
digit true true = b'3'

-- The quadkey of a tile at level `z`.
abbrev pub quadkey : ℕ → ℕ → ℕ → Text
quadkey zero x y = []
quadkey (suc k) x y = digit (bit x k) (bit y k) ∷ quadkey k x y

pub length-quadkey : (k x y : ℕ) → length (quadkey k x y) ≡ k
length-quadkey zero x y = refl
length-quadkey (suc k) x y = ap suc (length-quadkey k x y)

digit_bits-digit : (a b : Bool) → digit_bits (digit a b) ≡ some (a, b)
unfolding digit_bits
digit_bits-digit false false = refl
digit_bits-digit true false = refl
digit_bits-digit false true = refl
digit_bits-digit true true = refl

abbrev bit_value : Bool → ℕ
bit_value true = 1
bit_value false = 0

even_bit : (a p : ℕ) → 0 < p → a * (2 * p) / p % 2 ≡ 0
even_bit a p h =
    let e : a * (2 * p) ≡ 2 * a * p + 0 = grind arith in
    rw (e, div_unique (2 * a) p 0 h) (omega arith)

mod_unique : (k u p : ℕ) → p < u → (k * u + p) % u ≡ p
mod_unique k u p h = grind arith

small_bit : (b p r : ℕ) → b < 2 → r < p → b * p + r < 2 * p
small_bit zero p r h g = omega arith
small_bit (suc zero) p r h g = omega arith
small_bit (suc (suc b)) p r h g = absurd (omega arith)

regroup : (q p r : ℕ) → q * p + r ≡ q / 2 * (2 * p) + (q % 2 * p + r)
regroup q p r = let e : q ≡ q / 2 * 2 + q % 2 = omega arith in ap (λ t. t * p + r) e ∙ grind arith

mod_twice : (n p : ℕ) → 0 < p → n % (2 * p) ≡ n / p % 2 * p + n % p
mod_twice n p h =
    let e : n ≡ n / p * p + n % p = grind arith in
    ap (λ t. t % (2 * p)) (e ∙ regroup (n / p) p (n % p))
    ∙ mod_unique (n / p / 2) (2 * p) (n / p % 2 * p + n % p)
        (small_bit (n / p % 2) p (n % p) (omega arith) (grind arith))

pow_suc : (k : ℕ) → 2 ^ suc k ≡ 2 * 2 ^ k
pow_suc k = omega arith

pow_pos : (k : ℕ) → 0 < 2 ^ k
pow_pos zero = omega arith
pow_pos (suc k) = omega (arith, pow_pos k, pow_suc k)

-- Setting a bit below all that are set.
add_bit_lem : (b : Bool) (a k : ℕ) → add_bit b (a * 2 ^ suc k) k ≡ (2 * a + bit_value b) * 2 ^ k
unfolding add_bit or_bit
add_bit_lem false a k = rw pow_suc (grind arith)
add_bit_lem true a k =
    let none_there : (a * 2 ^ suc k / 2 ^ k % 2 == 1) ≡ false =
      rw pow_suc (rw (even_bit a (2 ^ k) (pow_pos k)) refl) in
    rw none_there (rw pow_suc (grind arith))

bit_value_lem : (n : ℕ) → n < 2 → bit_value (n == 1) ≡ n
bit_value_lem zero h = refl
bit_value_lem (suc zero) h = refl
bit_value_lem (suc (suc n)) h = absurd (omega arith)

-- The remainder gains the bit.
mod_bit : (n k : ℕ) → n % 2 ^ suc k ≡ bit_value (bit n k) * 2 ^ k + n % 2 ^ k
mod_bit n k =
    rw (pow_suc, bit_value_lem (n / 2 ^ k % 2) (omega arith)) (mod_twice n (2 ^ k) (pow_pos k))

loop_lem :
    (k a b x y : ℕ)
    → quadkey_loop (a * 2 ^ k) (b * 2 ^ k) (quadkey k x y)
      ≡ some (a * 2 ^ k + x % 2 ^ k, b * 2 ^ k + y % 2 ^ k)
unfolding quadkey_loop
loop_lem zero a b x y = ground arith
loop_lem (suc k) a b x y =
    rw
      (
        digit_bits-digit (bit x k) (bit y k),
        quadkey_loop,
        length-quadkey k x y,
        add_bit_lem (bit x k) a k,
        add_bit_lem (bit y k) b k,
      )
      (loop_lem k (2 * a + bit_value (bit x k)) (2 * b + bit_value (bit y k)) x y
        ∙ ap₂ (λ p q. some (p, q)) (gather a x) (gather b y))
  where
    gather :
        (a n : ℕ)
        → (2 * a + bit_value (bit n k)) * 2 ^ k + n % 2 ^ k ≡ a * 2 ^ suc k + n % 2 ^ suc k
    gather a n = rw (mod_bit n k, pow_suc) (grind arith)

pub quadkey_loop-quadkey :
    (z x y : ℕ) → x < 2 ^ z → y < 2 ^ z → quadkey_loop 0 0 (quadkey z x y) ≡ some (x, y)
quadkey_loop-quadkey z x y h g =
    let start : 0 ≡ 0 * 2 ^ z = omega arith in
    ap₂ (λ p q. quadkey_loop p q (quadkey z x y)) start start
    ∙ loop_lem z 0 0 x y
    ∙ ap₂ (λ p q. some (p, q)) (mod_small x h) (mod_small y g)
  where
    mod_small : (n : ℕ) → n < 2 ^ z → 0 * 2 ^ z + n % 2 ^ z ≡ n
    mod_small n h = grind arith
