-- ===== src/Util/Replace.antt =====
-- `mapcache_util_str_replace` of lib/util.c.
use mapcache.Base.{
  ℕ, ◌+◌, Text, strip_prefix, strip_prefix_sound, strip_prefix-append, ◌≡◌, refl, ap, none, some,
  Option-cases, inl, inr, ◌⊎◌, [], ◌∷◌, ◌++◌, arith, length, length-append,
}
use mapcache.Util.{str_find, str_replace}

-- `s` holds `substr` nowhere.
abbrev pub NowhereIn : Text → Text → Type 0
NowhereIn substr s = (a b : Text) → ¬ (s ≡ a ++ (substr ++ b))

-- The first occurrence: no shorter `before` fits.
pub record First (substr s before behind : Text) : Type 0 where
  pub splits : s ≡ before ++ (substr ++ behind)
  pub shortest : (a b : Text) → s ≡ a ++ (substr ++ b) → (d : Text) × (a ≡ before ++ d)

strip_none : (substr s : Text) → strip_prefix substr s ≡ none → (b : Text) → ¬ (s ≡ substr ++ b)
strip_none substr s h b e = cc (strip_prefix-append substr b)

nowhere_nil : (substr : Text) → strip_prefix substr [] ≡ none → NowhereIn substr []
nowhere_nil substr h [] b e = strip_none substr [] h b e
nowhere_nil substr h (x ∷ a) b e = cc

nowhere_cons :
    (substr : Text) (c : ℕ) (s : Text)
    → strip_prefix substr (c ∷ s) ≡ none
    → NowhereIn substr s
    → NowhereIn substr (c ∷ s)
nowhere_cons substr c s h n [] b e = strip_none substr (c ∷ s) h b e
nowhere_cons substr c s h n (x ∷ a) b e = n a b (cc)

First-here : {substr s behind : Text} → s ≡ substr ++ behind → First substr s [] behind
First-here e = record { splits = e; shortest = λ a b h. (a, refl) }

First-cons :
    (substr : Text) (c : ℕ) (s before behind : Text)
    → strip_prefix substr (c ∷ s) ≡ none
    → First substr s before behind
    → First substr (c ∷ s) (c ∷ before) behind
First-cons substr c s before behind h f = record {
  splits = ap (λ t. c ∷ t) f.splits;
  shortest = shortest;
}
  where
    shortest : (a b : Text) → c ∷ s ≡ a ++ (substr ++ b) → (d : Text) × (a ≡ c ∷ (before ++ d))
    shortest [] b e = absurd (strip_none substr (c ∷ s) h b e)
    shortest (x ∷ a) b e = let (d, q) = f.shortest a b (cc) in (d, cc)

-- `strstr` finds the first occurrence, if there is any.
pub str_find_lem :
    (substr s : Text)
    → ((str_find substr s ≡ none) × NowhereIn substr s)
      ⊎ ((before behind : Text) × (str_find substr s ≡ some (before, behind))
          × First substr s before behind)
unfolding str_find
str_find_lem substr [] = elim (Option-cases (strip_prefix substr [])) [
  | inl away ↦ inl (rw away, nowhere_nil substr away)
  | inr (rest, here) ↦ inr ([], rest, rw here, First-here (strip_prefix_sound substr [] here))
]
str_find_lem substr (c ∷ s) = elim (Option-cases (strip_prefix substr (c ∷ s))) [
  | inl away ↦ elim (str_find_lem substr s) [
    | inl (e, n) ↦ inl (rw (away, str_find) (rw e), nowhere_cons substr c s away n)
    | inr (before, behind, e, f) ↦
        inr (
          c ∷ before,
          behind,
          rw (away, str_find) (rw e),
          First-cons substr c s before behind away f,
        )
  ]
  | inr (rest, here) ↦
      inr ([], rest, rw (here, str_find), First-here (strip_prefix_sound substr (c ∷ s) here))
]

-- A string without the substring is copied. In any other the first occurrence, and nothing else, is
-- replaced, and the result and its final zero fill exactly the bytes that the code allocates,
-- `strlen(string) - strlen(substr) + strlen(replacement) + 1`.
pub str_replace_lem :
    (string substr replacement : Text)
    → (NowhereIn substr string × (str_replace string substr replacement ≡ string))
      ⊎ ((before behind : Text) × First substr string before behind
          × (str_replace string substr replacement ≡ before ++ (replacement ++ behind))
          × (length (str_replace string substr replacement) + length substr
              ≡ length string + length replacement))
unfolding str_replace
str_replace_lem string substr replacement = elim (str_find_lem substr string) [
  | inl (e, n) ↦ inl (n, rw (e, str_replace))
  | inr (before, behind, e, f) ↦
      inr
        (before, behind, f, rw (e, str_replace), rw (e, str_replace) (sizes before behind f.splits))
]
  where
    sizes :
        (before behind : Text)
        → string ≡ before ++ (substr ++ behind)
        → length (before ++ (replacement ++ behind)) + length substr
          ≡ length string + length replacement
    sizes before behind e = rw e (
        omega (
          arith,
          length-append before (replacement ++ behind),
          length-append replacement behind,
          length-append before (substr ++ behind),
          length-append substr behind,
        ))
