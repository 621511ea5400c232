-- ===== src/Billing/Classify/Laws.antt =====
-- Which classes requests can have (src/middleware/billing-402.ts).
use materios_gateway.Prelude.{
  ℕ, ◌≡◌, ◌≢◌, refl, String, Text, str_eq, codes, text_eq_iff, eq_iff, ◌⊎◌, Bool, true, false, ◌||◌,
  Option, none, some, List, [], ◌∷◌, ◌++◌, any, arith, and-true, ◌&&◌, not, Bool-cases,
  Option-cases, inl, inr,
}
use materios_gateway.Billing.Throttle.{Emission, Warning}
use materios_gateway.Billing.Classify.{
  Guards, first_of, gated, reads, writes, guards, is, to_upper, is_canonical, assert_endpoint_class,
  class_or_warn, unclassified, classify_endpoint, is_unpriced,
}

-- Every class that governance may price, and the two that are never priced.
abbrev pub is_known : String → Bool
is_known c = any (str_eq c) (
    "free" ∷ "admin" ∷ "billing_usage_query" ∷ "manifest_post" ∷ "chunk_upload"
    ∷ "manifest_certified_patch" ∷ "receipt_submit" ∷ "batch_metadata" ∷ "tee_evidence_submit"
    ∷ "tee_evidence_mark_submitted" ∷ [])

abbrev only : (String → Bool) → Guards → Bool
only q [] = true
only q ((test, c) ∷ gs) = (q c || not test) && only q gs

only-append :
    (q : String → Bool) (gs hs : Guards)
    → only q gs ≡ true
    → only q hs ≡ true
    → only q (gs ++ hs) ≡ true
only-append q [] hs h k = k
only-append q ((test, c) ∷ gs) hs h k = ground (arith, only-append q gs hs)

-- The class of a chain of guards passes a test that the classes of all guards pass, but of those
-- that do not hold.
first_of-only :
    (q : String → Bool) (gs : Guards) (c : String)
    → only q gs ≡ true
    → first_of gs ≡ some c
    → q c ≡ true
first_of-only q [] c h e = absurd (cc)
first_of-only q ((test, d) ∷ gs) c h e = elim (Bool-cases test) [
  | inl holds ↦
      let same : d ≡ c = ground arith in
      let passed : (q d || not test) ≡ true = (and-true _ _ h).0 in rw (← same) (ground arith)
  | inr fails ↦ first_of-only q gs c (and-true _ _ h).1 (simp fails at e)
]

abbrev is_checked : String → Bool
is_checked c = is_known c && is_canonical c

gated-checked : (m p : Text) → only is_checked (gated m p) ≡ true
unfolding gated
gated-checked m p = refl

reads-checked : (p : Text) → only is_checked (reads p) ≡ true
unfolding reads
reads-checked p = refl

writes-checked : (m p : Text) → only is_checked (writes m p) ≡ true
unfolding writes
writes-checked m p = refl

guards-checked : (m p : Text) → only is_checked (guards m p) ≡ true
unfolding guards
guards-checked m p = elim (Bool-cases (is "GET" m)) [
  | inl get ↦
      simp get (only-append is_checked (gated m p) (reads p) (gated-checked m p) (reads-checked p))
  | inr other ↦
      simp other
        (only-append is_checked (gated m p) (writes m p) (gated-checked m p) (writes-checked m p))
]

checked-assert : (c : String) → is_checked c ≡ true → assert_endpoint_class c ≡ some c
unfolding assert_endpoint_class
checked-assert c h = let canonical : is_canonical c ≡ true = (and-true _ _ h).1 in rw canonical refl

-- The class of a request is that of its first guard, or `free`.
abbrev pub or_free : Option String → String
or_free none = "free"
or_free (some c) = c

or_free-only :
    (q : String → Bool) (gs : Guards)
    → only q gs ≡ true
    → q "free" ≡ true
    → q (or_free (first_of gs)) ≡ true
or_free-only q gs h free = elim (Option-cases (first_of gs)) [
  | inl missing ↦ simp missing free
  | inr (c, found) ↦ simp found (first_of-only q gs c h found)
]

class_or_warn-some :
    (o : Option String) (w : Warning) (es : List Emission)
    → is_checked (or_free o) ≡ true
    → (class_or_warn o w es).0 ≡ some (or_free o)
class_or_warn-some none w es h = checked-assert "free" refl
class_or_warn-some (some c) w es h = checked-assert c h

pub classify_endpoint-or_free :
    (verb p : Text) (now : ℕ) (es : List Emission)
    → (classify_endpoint verb p now es).0 ≡ some (or_free (first_of (guards (to_upper verb) p)))
unfolding classify_endpoint
classify_endpoint-or_free verb p now es =
    let m = to_upper verb in
    class_or_warn-some (first_of (guards m p)) (unclassified m p now) es
      (or_free-only is_checked (guards m p) (guards-checked m p) refl)

gated-unpriced : (m p : Text) → only is_unpriced (gated m p) ≡ true
unfolding gated
gated-unpriced m p = refl

reads-unpriced : (p : Text) → is "/billing/usage" p ≡ false → only is_unpriced (reads p) ≡ true
unfolding reads
reads-unpriced p h = simp h refl

guards-unpriced :
    (p : Text) → is "/billing/usage" p ≡ false → only is_unpriced (guards (codes "GET") p) ≡ true
unfolding guards
guards-unpriced p h =
    only-append is_unpriced (gated (codes "GET") p) (reads p) (gated-unpriced (codes "GET") p)
      (reads-unpriced p h)

-- A GET request is never priced, but for the billing query itself: its class is `free` or `admin`.
pub classify_endpoint-reads :
    (verb p : Text) (now : ℕ) (es : List Emission) (c : String)
    → to_upper verb ≡ codes "GET"
    → p ≢ codes "/billing/usage"
    → (classify_endpoint verb p now es).0 ≡ some c
    → (c ≡ "free") ⊎ (c ≡ "admin")
classify_endpoint-reads verb p now es c get other e =
    let asked : is "/billing/usage" p ≡ false =
      ground (arith, text_eq_iff (codes "/billing/usage") p) in
    let found : or_free (first_of (guards (to_upper verb) p)) ≡ c =
      cc (classify_endpoint-or_free verb p now es) in
    let unpriced : is_unpriced (or_free (first_of (guards (codes "GET") p))) ≡ true =
      or_free-only is_unpriced (guards (codes "GET") p) (guards-unpriced p asked) refl in
    let here : is_unpriced c ≡ true = rw (← found, get) unpriced in
    ground (arith, eq_iff c "free", eq_iff c "admin")
