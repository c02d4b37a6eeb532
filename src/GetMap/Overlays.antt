-- ===== src/GetMap/Overlays.antt =====
-- The overlays of assembled maps, in `mapcache_core_get_map` of lib/core.c.
use mapcache.Base.{
  ℕ, zero, suc, ◌≤◌, true, false, ◌≡◌, refl, ap, sym, subst, ◌∙◌, ◌⊎◌, inl, inr, Option, none, some,
  List, [], ◌∷◌, get_elem?, Bool-cases, Option-cases, if_cases, some-inj, arith, ltb, if◌then◌else◌,
}
use mapcache.Context.{Context, has_error}
use mapcache.Types.{Image, Map}
use mapcache.Image.{merge}
use mapcache.GetMap.{Answer, and_then, find_base, merged, with_times, overlay_loop, assembled}

-- A map of the list that has data.
abbrev pub Shows : List Map → Map → Type 0
Shows ms m = (k : ℕ) × (get_elem? ms k ≡ some m) × (m.nodata ≡ false)

further : (u m : Map) (ms : List Map) → Shows ms m → Shows (u ∷ ms) m
further u m ms (k, e, d) = (suc k, e, d)

-- The time is that of a map with data, and not before any of them.
pub record Latest (time : ℕ) (ms : List Map) : Type 0 where
  pub after : (m : Map) → Shows ms m → m.mtime ≤ time
  pub reached : (m : Map) × Shows ms m × (m.mtime ≡ time)

-- What the overlays make of the time of the base.
record Overlaid (start time : ℕ) (ms : List Map) : Type 0 where
  grows : start ≤ time
  after : (m : Map) → Shows ms m → m.mtime ≤ time
  reached : (start ≡ time) ⊎ ((m : Map) × Shows ms m × (m.mtime ≡ time))

pub answered :
    {A B : Type 0} (r : Answer A) (f : A → Context → Answer B) {ctx : Context} {b : B}
    → and_then r f ≡ (ctx, some b)
    → (c : Context) × (a : A) × (r ≡ (c, some a)) × (f a c ≡ (ctx, some b))
answered (c, none) f h = absurd (let e : none ≡ some _ = ap (λ x. x.1) h in cc)
answered (c, some a) f h = (c, a, refl, h)

merged-time :
    (base : Map) (under over : Option Image) (ctx ctx' : Context) (out : Map)
    → merged base under over ctx ≡ (ctx', some out)
    → out.mtime ≡ base.mtime
unfolding merged
merged-time base (some a) (some b) ctx ctx' out h =
    let (img, c) : Image × Context = merge a b ctx in
    elim (if_cases (has_error c) (ap (λ x. x.1) h)) [
      | inl (_, e) ↦ absurd (let f : none ≡ some out = e in cc)
      | inr (_, e) ↦ ap (λ x. x.mtime) (sym (some-inj e))
    ]
merged-time base none b ctx ctx' out h = absurd (let f : none ≡ some out = ap (λ x. x.1) h in cc)
merged-time base (some a) none ctx ctx' out h =
    absurd (let f : none ≡ some out = ap (λ x. x.1) h in cc)

skip_map :
    (s n : ℕ) (u : Map) (ms : List Map) → u.nodata ≡ true → Overlaid s n ms → Overlaid s n (u ∷ ms)
skip_map s n u ms e f = record {
  grows = f.grows;
  after = after;
  reached = elim f.reached [ inl a ↦ inl a | inr (m, d, a) ↦ inr (m, further u m ms d, a) ];
}
  where
    after : (m : Map) → Shows (u ∷ ms) m → m.mtime ≤ n
    after m (zero, a, d) =
        absurd (let x : u.nodata ≡ false = ap (λ y. y.nodata) (some-inj a) ∙ d in cc)
    after m (suc k, a, d) = f.after m (k, a, d)

take_map :
    (s n : ℕ) (u : Map) (ms : List Map)
    → u.nodata ≡ false
    → Overlaid (if ltb s u.mtime then u.mtime else s) n ms
    → Overlaid s n (u ∷ ms)
take_map s n u ms e f = record {
  grows = earlier.0;
  after = after;
  reached = elim f.reached [
    | inl a ↦ elim (Bool-cases (ltb s u.mtime)) [
      | inl b ↦ inr (u, (0, refl, e), rw b at a)
      | inr b ↦ inl (rw b at a)
    ]
    | inr (m, d, a) ↦ inr (m, further u m ms d, a)
  ];
}
  where
    earlier : (s ≤ n) × (u.mtime ≤ n)
    earlier = let g = f.grows in ground arith

    after : (m : Map) → Shows (u ∷ ms) m → m.mtime ≤ n
    after m (zero, a, d) = subst (λ v. v.mtime ≤ n) (some-inj a) earlier.1
    after m (suc k, a, d) = f.after m (k, a, d)

overlay_loop-Overlaid :
    (ms : List Map) (base : Map) (ctx ctx' : Context) (out : Map)
    → overlay_loop ms base ctx ≡ (ctx', some out)
    → Overlaid base.mtime out.mtime ms
unfolding overlay_loop with_times
overlay_loop-Overlaid [] base ctx ctx' out h =
    let e : base ≡ out = some-inj (ap (λ x. x.1) h) in
    subst (λ b. Overlaid base.mtime b.mtime []) e
      (record { grows = omega arith; after = λ m (k, a, d). cc; reached = inl refl })
overlay_loop-Overlaid (m ∷ ms) base ctx ctx' out h = elim (if_cases m.nodata h) [
  | inl (e, f) ↦ skip_map base.mtime out.mtime m ms e (overlay_loop-Overlaid ms base ctx ctx' out f)
  | inr (e, f) ↦
      let (c, b, a, g) =
        answered (merged base base.raw_image m.raw_image ctx)
          (λ base' ctx'. overlay_loop ms (with_times m base') ctx') f in
      let same = merged-time base base.raw_image m.raw_image ctx c b a in
      take_map base.mtime out.mtime m ms e (
        subst (λ s. Overlaid (if ltb s m.mtime then m.mtime else s) out.mtime ms) same
          (overlay_loop-Overlaid ms (with_times m b) c ctx' out g))
]

past_empty : (m u : Map) (ms : List Map) → m.nodata ≡ true → Shows (m ∷ ms) u → Shows ms u
past_empty m u ms e (zero, a, d) =
    absurd (let x : m.nodata ≡ false = ap (λ y. y.nodata) (some-inj a) ∙ d in cc)
past_empty m u ms e (suc k, a, d) = (k, a, d)

base_and_overlays :
    (m : Map) (ms : List Map) (n : ℕ) → m.nodata ≡ false → Overlaid m.mtime n ms → Latest n (m ∷ ms)
base_and_overlays m ms n e f = record {
  after = after;
  reached = elim f.reached [
    | inl a ↦ (m, (0, refl, e), a)
    | inr (u, d, a) ↦ (u, further m u ms d, a)
  ];
}
  where
    after : (u : Map) → Shows (m ∷ ms) u → u.mtime ≤ n
    after u (zero, a, d) = subst (λ v. v.mtime ≤ n) (some-inj a) f.grows
    after u (suc k, a, d) = f.after u (k, a, d)

found_first :
    (ms : List Map) (base : Map) (rest : List Map) (n : ℕ)
    → find_base ms ≡ some (base, rest)
    → Overlaid base.mtime n rest
    → Latest n ms
unfolding find_base
found_first [] base rest n h f = cc
found_first (m ∷ ms) base rest n h f = elim (if_cases m.nodata h) [
  | inl (e, g) ↦
      let l = found_first ms base rest n g f in
      record {
        after = λ u d. l.after u (past_empty m u ms e d);
        reached = (l.reached.0, further m l.reached.0 ms l.reached.1, l.reached.2);
      }
  | inr (e, g) ↦
      let same : m ≡ base = ap (λ x. x.0) (some-inj g) in
      let same' : ms ≡ rest = ap (λ x. x.1) (some-inj g) in
      base_and_overlays m ms n e (
        subst (λ t. Overlaid t n ms) (ap (λ v. v.mtime) (sym same))
          (subst (λ us. Overlaid base.mtime n us) (sym same') f))
]

pub assembled-Latest :
    (ms : List Map) (ctx ctx' : Context) (out : Map)
    → assembled ms ctx ≡ (ctx', some out)
    → Latest out.mtime ms
unfolding assembled
assembled-Latest ms ctx ctx' out h = elim (Option-cases (find_base ms)) [
  | inl e ↦ absurd (
      let g : (_, none) ≡ (ctx', some out) = rw (e, assembled) at h in
      let f : none ≡ some out = ap (λ x. x.1) g in cc)
  | inr ((base, rest), e) ↦
      found_first ms base rest out.mtime e
        (overlay_loop-Overlaid rest base ctx ctx' out (rw (e, assembled) at h))
]
