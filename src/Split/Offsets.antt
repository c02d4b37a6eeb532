-- ===== src/Split/Offsets.antt =====
-- Numbers that place tiles within a map: distances on the ground, and rows and columns of pixels.
use mapcache.Base.{
  ℕ, ◌+◌, ◌-◌, ◌*◌, ◌<◌, ◌≤◌, ℤ, pos, ◌+ℤ◌, ◌-ℤ◌, ◌*ℤ◌, pos*pos, int_laws, ◌≡◌, arith,
}

-- Moving by two natural numbers and back.
pub balance : (e : ℤ) (a b c d : ℕ) → a + c ≡ b + d → e +ℤ pos a ≡ e +ℤ pos b -ℤ pos c +ℤ pos d
balance e a b c d h = omega (int_laws)

pub balance_down : (e : ℤ) (a b c d : ℕ) → a + c ≡ b + d → e -ℤ pos a ≡ e -ℤ pos b +ℤ pos c -ℤ pos d
balance_down e a b c d h = omega (int_laws)

pub balance_up :
    (e : ℤ) (a b c d f : ℕ)
    → a + f ≡ b + c + d
    → e +ℤ pos a ≡ e +ℤ pos b -ℤ pos c +ℤ pos d +ℤ pos 2 *ℤ pos c -ℤ pos f
balance_up e a b c d f h = rw (pos*pos) (omega (int_laws))

pub ring_one : (r b i T B : ℕ) → r * (B + i) * T + r * b ≡ r * B * T + r * (b + i * T)
ring_one r b i T B = grind arith

pub ring_down :
    (r b B T j k : ℕ)
    → r * (B + j + 1) * T + r * (b + k * T) ≡ r * B * T + r * b + r * (j + 1 + k) * T
ring_down r b B T j k = grind arith

pub rows_up : (b j d T : ℕ) → (j + 1 + d) * T + 2 * b - (b + (j + 1) * T) ≡ b + d * T
rows_up b j d T = let e : (j + 1 + d) * T ≡ (j + 1) * T + d * T = grind arith in omega arith

pub rows_enough : (b j d T : ℕ) → b + (j + 1) * T ≤ (j + 1 + d) * T + 2 * b
rows_enough b j d T = let e : (j + 1 + d) * T ≡ (j + 1) * T + d * T = grind arith in omega arith

pub fits_column : (b i d T : ℕ) → b + i * T + T + b ≤ (i + 1 + d) * T + 2 * b
fits_column b i d T = let e : (i + 1 + d) * T ≡ i * T + T + d * T = grind arith in omega arith

pub fits_up : (b i d T : ℕ) → b + d * T + T + b ≤ (i + 1 + d) * T + 2 * b
fits_up b i d T = let e : (i + 1 + d) * T ≡ i * T + T + d * T = grind arith in omega arith

pub rest_of : (n j : ℕ) → j < n → j + 1 + (n - (j + 1)) ≡ n
rest_of n j h = omega arith
