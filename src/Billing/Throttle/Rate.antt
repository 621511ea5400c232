-- ===== src/Billing/Throttle/Rate.antt =====
-- How many lines a key emits, and that the map keeps its keys (src/middleware/warn-throttle.ts).
use materios_gateway.Prelude.{
  ℕ, suc, ◌+◌, ◌*◌, ◌/◌, ◌≤◌, ◌≡◌, ◌≢◌, refl, ap, ◌∙◌, Text, text_eq, text_eq_iff, text_eq_refl,
  is_some, true, false, Option, none, some, List, [], ◌∷◌, All, length, arith, if◌then◌else◌,
  Bool-cases, inl, inr,
}
use materios_gateway.Billing.Throttle.{
  throttle_ms, Emission, Warning, last_emitted, set_emitted, is_recent, warn_throttled, emissions,
  warn_all,
}

text_eq_trans : (a b c : Text) → text_eq a b ≡ true → text_eq a c ≡ text_eq b c
text_eq_trans a b c h = rw ((text_eq_iff a b).0 h) refl

last_emitted-set_emitted :
    (key j : Text) (now : ℕ) (es : List Emission)
    → last_emitted key (set_emitted j now es)
      ≡ (if text_eq j key then some now else last_emitted key es)
last_emitted-set_emitted key j now [] = refl
last_emitted-set_emitted key j now (e ∷ es) = elim (Bool-cases (text_eq e.key j)) [
  | inl same ↦ ground (arith, text_eq_trans e.key j key same)
  | inr other ↦ ground (
    arith,
    last_emitted-set_emitted key j now es,
    text_eq_iff j key,
    text_eq_iff e.key key,
    text_eq_iff e.key j,
  )
]

-- A key that the map holds stays, whatever is warned of.
pub warn_throttled-kept :
    (key j : Text) (now : ℕ) (es : List Emission)
    → is_some (last_emitted key es) ≡ true
    → is_some (last_emitted key (warn_throttled j now es).1) ≡ true
unfolding warn_throttled
warn_throttled-kept key j now es h = elim (Bool-cases (is_recent (last_emitted j es) now)) [
  | inl recent ↦ simp recent h
  | inr due ↦ simp due (ground (arith, last_emitted-set_emitted key j now es))
]

-- The key of a warning is in the map after it.
pub warn_throttled-held :
    (j : Text) (now : ℕ) (es : List Emission)
    → is_some (last_emitted j (warn_throttled j now es).1) ≡ true
unfolding warn_throttled
warn_throttled-held j now es = elim (Bool-cases (is_recent (last_emitted j es) now)) [
  | inl recent ↦ simp recent (ground arith)
  | inr due ↦ simp due (ground (arith, last_emitted-set_emitted j j now es, text_eq_refl j))
]

abbrev After : Option ℕ → ℕ → Type 0
After none t = Unit {0}
After (some prev) t = prev + throttle_ms ≤ t

abbrev Spaced : Option ℕ → List ℕ → Type 0
Spaced prev [] = Unit {0}
Spaced prev (t ∷ ts) = After prev t × Spaced (some t) ts

not_recent-After : (o : Option ℕ) (t : ℕ) → is_recent o t ≡ false → After o t
not_recent-After none t h = tt
not_recent-After (some prev) t h = ground arith

emissions-Spaced :
    (key : Text) (ws : List Warning) (es : List Emission)
    → Spaced (last_emitted key es) (emissions key ws es)
unfolding emissions warn_throttled
emissions-Spaced key [] es = tt
emissions-Spaced key (w ∷ ws) es = elim (Bool-cases (is_recent (last_emitted w.key es) w.at)) [
  | inl recent ↦ simp recent (emissions-Spaced key ws es)
  | inr due ↦
      let ih = emissions-Spaced key ws (set_emitted w.key w.at es) in
      let moved = last_emitted-set_emitted key w.key w.at es in
      elim (Bool-cases (text_eq w.key key)) [
        | inl same ↦
            simp (due, same)
              (
                rw (← (text_eq_iff w.key key).0 same) (not_recent-After _ w.at due),
                rw (moved ∙ ap (λ b. if b then some w.at else last_emitted key es) same) at ih,
              )
        | inr other ↦
            simp (due, other)
              (rw (moved ∙ ap (λ b. if b then some w.at else last_emitted key es) other) at ih)
      ]
]

-- The emitted times of a sequence of warnings are those of its warnings.
emissions-All {ℓ} :
    (P : ℕ → Type ℓ) (key : Text) (ws : List Warning) (es : List Emission)
    → All (λ w. P w.at) ws
    → All P (emissions key ws es)
unfolding emissions warn_throttled
emissions-All P key [] es h = tt
emissions-All P key (w ∷ ws) es (p, h) =
    elim (Bool-cases (is_recent (last_emitted w.key es) w.at)) [
      | inl recent ↦ simp recent (emissions-All P key ws es h)
      | inr due ↦
          let ih = emissions-All P key ws (set_emitted w.key w.at es) h in
          elim (Bool-cases (text_eq w.key key)) [
            | inl same ↦ simp (due, same) (p, ih)
            | inr other ↦ simp (due, other) ih
          ]
    ]

Spaced-count :
    (prev u : ℕ) (ts : List ℕ)
    → Spaced (some prev) ts
    → All (λ t. t ≤ u) ts
    → prev ≤ u
    → prev + length ts * throttle_ms ≤ u
Spaced-count prev u [] s h le = omega arith
Spaced-count prev u (t ∷ ts) (gap, s) (h, hs) le = omega (arith, Spaced-count t u ts s hs h)

uppers : (s u : ℕ) (ts : List ℕ) → All (λ t. (s ≤ t) × (t ≤ u)) ts → All (λ t. t ≤ u) ts
uppers s u [] h = tt
uppers s u (t ∷ ts) ((lo, hi), h) = (hi, uppers s u ts h)

Spaced-within :
    (o : Option ℕ) (s d : ℕ) (ts : List ℕ)
    → Spaced o ts
    → All (λ t. (s ≤ t) × (t ≤ s + d)) ts
    → length ts * throttle_ms ≤ d + throttle_ms
Spaced-within o s d [] sp h = omega arith
Spaced-within o s d (t ∷ ts) (gap, sp) ((lo, hi), hs) =
    omega (arith, Spaced-count t (s + d) ts sp (uppers s (s + d) ts hs) hi)

-- Among warnings that are raised within `d` milliseconds, however many and for whatever keys, a
-- key emits at most one line and one more for each full minute of that span, whatever the map
-- held before.
pub emissions_bound :
    (s d : ℕ) (key : Text) (ws : List Warning) (es : List Emission)
    → All (λ w. (s ≤ w.at) × (w.at ≤ s + d)) ws
    → length (emissions key ws es) ≤ 1 + d / throttle_ms
emissions_bound s d key ws es h = omega (
  arith,
  Spaced-within (last_emitted key es) s d (emissions key ws es) (emissions-Spaced key ws es)
      (emissions-All (λ t. (s ≤ t) × (t ≤ s + d)) key ws es h),
)

-- A key that the map lacks.
abbrev pub Absent : List Emission → Text → Type 0
Absent es key = last_emitted key es ≡ none

abbrev pub Distinct : List Warning → Type 0
Distinct [] = Unit {0}
Distinct (w ∷ ws) = All (λ v. v.key ≢ w.key) ws × Distinct ws

length-set_emitted :
    (key : Text) (now : ℕ) (es : List Emission)
    → Absent es key
    → length (set_emitted key now es) ≡ suc (length es)
length-set_emitted key now [] h = refl
length-set_emitted key now (e ∷ es) h = ground (arith, length-set_emitted key now es)

set_emitted-Absent :
    (w : Warning) (vs : List Warning) (es : List Emission)
    → All (λ v. v.key ≢ w.key) vs
    → All (λ v. Absent es v.key) vs
    → All (λ v. Absent (set_emitted w.key w.at es) v.key) vs
set_emitted-Absent w [] es d h = tt
set_emitted-Absent w (v ∷ vs) es (ne, d) (a, h) = (
  ground (arith, last_emitted-set_emitted v.key w.key w.at es, text_eq_iff w.key v.key),
  set_emitted-Absent w vs es d h,
)

pub warn_all_fresh :
    (ws : List Warning) (es : List Emission)
    → Distinct ws
    → All (λ w. Absent es w.key) ws
    → length (warn_all ws es) ≡ length es + length ws
unfolding warn_all warn_throttled
warn_all_fresh [] es d h = omega arith
warn_all_fresh (w ∷ ws) es (ne, d) (a, h) = simp a (
    omega (
      arith,
      warn_all_fresh ws (set_emitted w.key w.at es) d (set_emitted-Absent w ws es ne h),
      length-set_emitted w.key w.at es a,
    ))
