-- ===== src/Util/Sanitize.antt =====
-- `mapcache_util_str_sanitize` of lib/util.c: what it makes of a string, and its loop.
use mapcache.Base.{
  ℕ, zero, suc, ◌≤◌, Text, has_byte, ◌≡◌, ◌≢◌, refl, ap, ap₂, sym, true, false, Bool-cases, none,
  some, inl, inr, [], ◌∷◌, ◌++◌, map, arith, length, if◌then◌else◌, ◌==◌,
}
use mapcache.Util.{cut_at_set, sanitize_loop, str_sanitize}

-- The byte by byte description.
abbrev pub sanitized : Text → ℕ → ℕ → ℕ
sanitized from to c = if has_byte c from then to else c

-- A rest that `strcspn` stops at is empty or begins with a byte of the set.
abbrev Stopped : Text → Text → Type 0
Stopped from [] = Unit
Stopped from (c ∷ s) = has_byte c from ≡ true

record Cut (from : Text) (to : ℕ) (s kept rest : Text) : Type 0 where
  same : kept ++ map (sanitized from to) rest ≡ map (sanitized from to) s
  shorter : length rest ≤ length s
  stopped : Stopped from rest

cut_lem :
    (from : Text) (to : ℕ) (s : Text) → Cut from to s (cut_at_set from s).0 (cut_at_set from s).1
unfolding cut_at_set
cut_lem from to [] = record { same = refl; shorter = omega arith; stopped = tt }
cut_lem from to (c ∷ s) = elim (Bool-cases (has_byte c from)) [
  | inl bad ↦ rw bad (record { same = refl; shorter = omega arith; stopped = bad })
  | inr good ↦
      let k = cut_lem from to s in
      rw good (record {
        same = ap₂ (λ d t. d ∷ t) (sym (ground arith)) k.same;
        shorter = omega (arith, k.shorter);
        stopped = k.stopped;
      })
]

module _ (from : Text) (to : ℕ) (printable : to ≢ 0) where
  not_zero : (to == 0) ≡ false
  not_zero = ground arith

  loop_total :
      (fuel : ℕ) (s : Text)
      → has_byte to from ≡ false
      → length s ≤ fuel
      → Stopped from s
      → sanitize_loop (suc fuel) from to s ≡ some (map (sanitized from to) s)
  unfolding sanitize_loop cut_at_set
  loop_total fuel [] clean f h = refl
  loop_total zero (c ∷ s) clean f h = absurd (omega arith)
  loop_total (suc fuel) (c ∷ s) clean f h =
      let k = cut_lem from to s in
      rw
        (
          clean,
          not_zero,
          loop_total fuel (cut_at_set from s).1 clean (omega (arith, k.shorter)) k.stopped,
          h,
        )
        (ap (λ t. some (to ∷ t)) k.same)

  -- With a replacement that is not itself in the set and not the byte 0, the loop ends with fuel above the
  -- length of the string, and every byte of the set has been replaced.
  pub str_sanitize_total :
      (fuel : ℕ) (str : Text)
      → has_byte to from ≡ false
      → length str ≤ fuel
      → str_sanitize (suc fuel) str from to ≡ some (map (sanitized from to) str)
  unfolding str_sanitize
  str_sanitize_total fuel str clean f =
      let k = cut_lem from to str in
      rw (loop_total fuel (cut_at_set from str).1 clean (omega (arith, k.shorter)) k.stopped)
        (ap some k.same)

  rest_nonempty :
      (a b : Text) (c : ℕ)
      → has_byte c from ≡ true
      → (d : ℕ) × (s : Text) × ((cut_at_set from (a ++ (c ∷ b))).1 ≡ d ∷ s)
  unfolding cut_at_set
  rest_nonempty [] b c bad = (c, b, rw bad)
  rest_nonempty (x ∷ a) b c bad = elim (Bool-cases (has_byte x from)) [
    | inl stops ↦ (x, a ++ (c ∷ b), rw stops)
    | inr passes ↦ let (d, s, e) = rest_nonempty a b c bad in (d, s, rw passes e)
  ]

  loop_diverges :
      (fuel : ℕ) (c : ℕ) (s : Text)
      → has_byte to from ≡ true
      → sanitize_loop fuel from to (c ∷ s) ≡ none
  unfolding sanitize_loop cut_at_set
  loop_diverges zero c s dirty = refl
  loop_diverges (suc fuel) c s dirty = rw (dirty, not_zero, loop_diverges fuel to s dirty)

  -- With a replacement from the set that is not the byte 0, the loop writes it again and again at the first byte of the set, if
  -- there is any, and does not end.
  pub str_sanitize_diverges :
      (fuel : ℕ) (a b : Text) (c : ℕ)
      → has_byte to from ≡ true
      → has_byte c from ≡ true
      → str_sanitize fuel (a ++ (c ∷ b)) from to ≡ none
  unfolding str_sanitize
  str_sanitize_diverges fuel a b c dirty bad =
      let (d, s, e) = rest_nonempty a b c bad in rw (e, loop_diverges fuel d s dirty)
