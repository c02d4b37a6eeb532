-- ===== src/Buffer/Append.antt =====
-- `mapcache_buffer_append` of lib/buffer.c, and appends in a row.
use mapcache.Base.{
  ℕ, zero, suc, ◌+◌, ◌-◌, ◌*◌, ◌%◌, ◌^◌, ◌≤◌, ◌<◌, ◌≡◌, refl, ◌∙◌, ap, ◌⊎◌, inl, inr, some, List,
  [], ◌∷◌, ◌++◌, arith, length, length-append, Bool-cases, ltb, ltb→lt, take, drop, length-take,
  length-drop,
}
use mathlib.Core.List.{append_assoc}
use mapcache.Buffer.{Buffer, size_mod, write_at, tabulate, append, contents, IsValid}
use mapcache.Buffer.Growth.{length-tabulate, realloc_total}

-- The written memory: the old bytes up to `i`, then the new ones.
length-write_at :
    (m : List ℕ) (i : ℕ) (bs : List ℕ)
    → i + length bs ≤ length m
    → length (write_at m i bs) ≡ length m
length-write_at m i bs h = omega (
  arith,
  length-append (take i m) (bs ++ drop (i + length bs) m),
  length-append bs (drop (i + length bs) m),
  length-take i m,
  length-drop (i + length bs) m,
)

take-append_length : (xs ys : List ℕ) (n : ℕ) → n ≡ length xs → take n (xs ++ ys) ≡ xs
take-append_length [] ys zero e = refl
take-append_length [] ys (suc n) e = absurd (omega arith)
take-append_length (x ∷ xs) ys zero e = absurd (omega arith)
take-append_length (x ∷ xs) ys (suc n) e =
    ap (λ t. x ∷ t) (take-append_length xs ys n (omega arith))

take-write_at :
    (m : List ℕ) (i : ℕ) (bs : List ℕ)
    → i ≤ length m
    → take (i + length bs) (write_at m i bs) ≡ take i m ++ bs
take-write_at m i bs h = rw (← append_assoc (take i m) bs (drop (i + length bs) m)) (
    take-append_length (take i m ++ bs) (drop (i + length bs) m) (i + length bs)
      (omega (arith, length-append (take i m) bs, length-take i m)))

take-append_le : (n : ℕ) (xs ys : List ℕ) → n ≤ length xs → take n (xs ++ ys) ≡ take n xs
take-append_le zero xs ys h = refl
take-append_le (suc n) [] ys h = absurd (omega arith)
take-append_le (suc n) (x ∷ xs) ys h = ap (λ t. x ∷ t) (take-append_le n xs ys (omega arith))

-- What one append leaves behind.
pub record Appended (b : Buffer) (bytes : List ℕ) (b' : Buffer) : Type 0 where
  pub valid : IsValid b'
  pub kept : contents b' ≡ contents b ++ bytes
  pub sized : b'.size ≡ b.size + length bytes
  pub bounded : (b'.avail ≡ b.avail) ⊎ (b'.avail < 2 * b'.size)

module _ (g : ℕ → ℕ) (b : Buffer) (bytes : List ℕ) (v : IsValid b) where
  open v use {within, allocated}

  abbrev total : ℕ
  total = (b.size + length bytes) % size_mod

  -- The copy into a memory `m` that starts with the buffer's and has room.
  copied :
      (m : List ℕ) (n : ℕ)
      → b.size + length bytes ≤ 2 ^ 63
      → length m ≡ n
      → b.size + length bytes ≤ n
      → take b.size m ≡ contents b
      → (n ≡ b.avail) ⊎ (n < 2 * total)
      → Appended b bytes (record { buf = write_at m b.size bytes; size = total; avail = n })
  copied m n fits long room same bound = record {
    valid = record {
      within = omega arith;
      allocated = length-write_at m b.size bytes (omega arith) ∙ long;
    };
    kept = rw (sized) (take-write_at m b.size bytes (omega arith) ∙ ap (λ t. t ++ bytes) same);
    sized = sized;
    bounded = bound;
  }
    where
      sized : total ≡ b.size + length bytes
      sized = omega arith

  -- An append to a valid buffer below 2^63 bytes ends, adds the bytes behind those that are there, and at most doubles
  -- the memory that is needed.
  pub append_total :
      b.size + length bytes ≤ 2 ^ 63
      → (b' : Buffer) × (append g b bytes ≡ some (b', length bytes)) × Appended b bytes b'
  unfolding append
  append_total fits = elim (Bool-cases (ltb b.avail total)) [
    | inl more ↦
        let (n, e, (a, c, d)) =
          realloc_total g b total allocated (ltb→lt b.avail total more) (omega arith) in
        (
          _,
          rw more (rw e),
          copied (b.buf ++ tabulate g b.avail (n - b.avail)) n fits
              (omega (
                arith,
                length-append b.buf (tabulate g b.avail (n - b.avail)),
                length-tabulate g b.avail (n - b.avail),
              ))
              (omega arith) (take-append_le b.size b.buf _ (omega arith)) d,
        )
    | inr done ↦ (_, rw done, copied b.buf b.avail fits allocated (ground arith) refl (inl refl))
  ]
