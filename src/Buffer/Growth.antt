-- ===== src/Buffer/Growth.antt =====
-- The doubling loop of `_mapcache_buffer_realloc` of lib/buffer.c, and the memory that it allocates.
use mapcache.Base.{
  ℕ, zero, suc, ◌+◌, ◌-◌, ◌*◌, ◌^◌, ◌≤◌, ◌<◌, ◌≡◌, refl, ◌⊎◌, inl, inr, some, List, [], ◌∷◌, ◌++◌,
  arith, ap, length, Bool-cases, ltb, ltb→lt, ◌==◌, ◌%◌,
}
use mapcache.Buffer.{Buffer, size_mod, tabulate, grow, realloc}

length-eq-zero : (xs : List ℕ) → length xs ≡ 0 → xs ≡ []
length-eq-zero [] h = refl
length-eq-zero (x ∷ xs) h = absurd (omega arith)

pub length-tabulate : (g : ℕ → ℕ) (i n : ℕ) → length (tabulate g i n) ≡ n
unfolding tabulate
length-tabulate g i zero = refl
length-tabulate g i (suc n) = ap suc (length-tabulate g (i + 1) n)

-- Where the loop stops: at the first power-of-two multiple that is large enough.
abbrev pub Grown : ℕ → ℕ → ℕ → Type 0
Grown len avail r = (len ≤ r) × (avail ≤ r) × ((r ≡ avail) ⊎ (r < 2 * len))

-- The loop ends once `fuel` more bytes would do, and without wrapping around.
pub grow_total :
    (fuel len avail : ℕ)
    → 0 < avail
    → len ≤ 2 ^ 63
    → len ≤ fuel + avail
    → (r : ℕ) × (grow (suc fuel) len avail ≡ some r) × Grown len avail r
unfolding grow
grow_total zero len avail p q f = (avail, ground arith, (omega arith, omega arith, inl refl))
grow_total (suc fuel) len avail p q f = elim (Bool-cases (ltb avail len)) [
  | inl more ↦
      let small : avail < len = ltb→lt avail len more in
      let (r, e, (a, b, c)) =
        grow_total fuel len ((avail + avail) % size_mod) (omega arith) q (omega arith) in
      (r, rw more e, (a, omega arith, doubled r small c))
  | inr done ↦ (avail, rw done, (ground arith, omega arith, inl refl))
]
  where
    doubled :
        (r : ℕ)
        → avail < len
        → (r ≡ (avail + avail) % size_mod) ⊎ (r < 2 * len)
        → (r ≡ avail) ⊎ (r < 2 * len)
    doubled r small (inl e) = inr (omega arith)
    doubled r small (inr h) = inr h

-- `_mapcache_buffer_realloc` keeps the bytes that it had and gives at least `len` of them.
pub realloc_total :
    (g : ℕ → ℕ) (b : Buffer) (len : ℕ)
    → length b.buf ≡ b.avail
    → b.avail < len
    → len ≤ 2 ^ 63
    → (n : ℕ) × (realloc g b len
        ≡ some (record b { buf = b.buf ++ tabulate g b.avail (n - b.avail); avail = n }))
      × Grown len b.avail n
unfolding realloc
realloc_total g b len v small fits = elim (Bool-cases (b.avail == 0)) [
  | inl empty ↦
      let z : b.buf ≡ [] = length-eq-zero b.buf (ground arith) in
      let a : b.avail ≡ 0 = ground arith in
      let s : len - 0 ≡ len = omega arith in
      (len, rw empty (simp (z, a, s)), (omega arith, omega arith, inr (omega arith)))
  | inr more ↦
      let (n, e, k) = grow_total len len b.avail (ground arith) fits (omega arith) in
      (n, rw more (rw e), k)
]
