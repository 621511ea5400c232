-- ===== src/Billing/Classify/Paths.antt =====
-- The classes of the paths of an upload, and the warnings of other paths
-- (src/middleware/billing-402.ts).
use materios_gateway.Prelude.{
  ℕ, String, Option, is_some, ◌≡◌, refl, text_eq, Text, codes, text_eq_iff, Bool, true, false, ◌&&◌,
  ltb, length, not, none, some, List, [], ◌∷◌, ◌++◌, ◌==◌, arith, and-true, ◌∙◌,
}
use mathlib.Core.List.{append-nil}
use materios_gateway.Merkle.{every}
use materios_gateway.Tokens.{starts_with}
use materios_gateway.Auth.Upload.{is_digit}
use materios_gateway.Billing.Throttle.{Emission, Warning, last_emitted, warn_throttled}
use materios_gateway.Billing.Throttle.Rate.{warn_throttled-kept, warn_throttled-held}
use materios_gateway.Billing.Classify.{
  first_of, gated, writes, guards, is, to_upper, split_path, path_is, classify_endpoint,
  unclassified, class_or_warn,
}
use materios_gateway.Billing.Classify.Laws.{classify_endpoint-or_free}

abbrev pub no_slash : Text → Bool
no_slash t = every (λ c. not (c == b'/')) t

split_path-segment :
    (t r : Text) → no_slash t ≡ true → split_path (t ++ b'/' ∷ r) ≡ t ∷ split_path r
split_path-segment [] r h = refl
split_path-segment (c ∷ cs) r h =
    let tail = split_path-segment cs r (and-true _ _ h).1 in rw tail (ground arith)

split_path-last : (t : Text) → no_slash t ≡ true → split_path t ≡ t ∷ []
split_path-last [] h = refl
split_path-last (c ∷ cs) h =
    let tail = split_path-last cs (and-true _ _ h).1 in rw tail (ground arith)

digits-no_slash : (t : Text) → every is_digit t ≡ true → no_slash t ≡ true
digits-no_slash [] h = refl
digits-no_slash (c ∷ cs) h = ground (arith, digits-no_slash cs)

-- The path of a chunk, and what follows it.
abbrev pub chunk_path : Text → Text → Text → Text
chunk_path id i rest = codes "/blobs/" ++ (id ++ b'/' ∷ (codes "chunks/" ++ (i ++ rest)))

module _ (id i : Text) (named : no_slash id ≡ true) (given_id : ltb 0 (length id) ≡ true)
    (number : every is_digit i ≡ true) (given_i : ltb 0 (length i) ≡ true) where
  chunk_guards : first_of (guards (codes "PUT") (chunk_path id i [])) ≡ some "chunk_upload"
  unfolding guards gated writes path_is
  chunk_guards =
      rw (append-nil i, split_path-segment id (codes "chunks/" ++ i) named)
        (rw (split_path-last i (digits-no_slash i number)) (rw (given_id, given_i, number) refl))

  slash_guards : first_of (guards (codes "PUT") (chunk_path id i (codes "/"))) ≡ none
  unfolding guards gated writes path_is
  slash_guards = rw (split_path-segment id (codes "chunks/" ++ (i ++ codes "/")) named) (
      rw (split_path-segment i [] (digits-no_slash i number)) (rw (given_id, given_i, number) refl))

  -- Every upload of a chunk is priced as one: the class of `PUT /blobs/<id>/chunks/<i>` is
  -- `chunk_upload`, whatever the id, if it is not empty and has no slash, and whatever the number.
  chunk_upload_priced :
      (verb : Text) (now : ℕ) (es : List Emission)
      → to_upper verb ≡ codes "PUT"
      → (classify_endpoint verb (chunk_path id i []) now es).0 ≡ some "chunk_upload"
  chunk_upload_priced verb now es put =
      classify_endpoint-or_free verb (chunk_path id i []) now es ∙ rw (put, chunk_guards) refl

  -- The same path with a slash at its end has the class `free`.
  pub chunk_upload_unpriced :
      (verb : Text) (now : ℕ) (es : List Emission)
      → to_upper verb ≡ codes "PUT"
      → (classify_endpoint verb (chunk_path id i (codes "/")) now es).0 ≡ some "free"
  chunk_upload_unpriced verb now es put =
      classify_endpoint-or_free verb (chunk_path id i (codes "/")) now es
      ∙ rw (put, slash_guards) refl

no_slash-starts_with :
    (s pre : Text) → no_slash s ≡ true → no_slash pre ≡ false → starts_with s pre ≡ false
no_slash-starts_with s [] h k = absurd (cc)
no_slash-starts_with [] (p ∷ ps) h k = refl
no_slash-starts_with (c ∷ cs) (p ∷ ps) h k = ground (arith, no_slash-starts_with cs ps)

no_slash-text_eq : (a s : Text) → no_slash a ≡ false → no_slash s ≡ true → text_eq a s ≡ false
no_slash-text_eq a s h k = ground (arith, text_eq_iff a s)

-- A first segment that no route of the gateway has.
abbrev pub is_stray : Text → Bool
is_stray s = no_slash s && (not (is "health" s) && (not (is "status" s) && not (is "heartbeats" s)))

and-false : (b : Bool) → (b && false) ≡ false
and-false b = ground arith

not-false : (b : Bool) → not b ≡ true → b ≡ false
not-false b h = ground arith

stray_tests :
    (s : Text)
    → is_stray s ≡ true
    → (text_eq (codes "health") s ≡ false)
      × (text_eq (codes "status") s ≡ false)
      × (text_eq (codes "heartbeats") s ≡ false)
stray_tests s h =
    let rest = and-true _ _ (and-true _ _ h).1 in
    (not-false _ rest.0, not-false _ (and-true _ _ rest.1).0, not-false _ (and-true _ _ rest.1).1)

stray_guards : (s : Text) → is_stray s ≡ true → first_of (guards (codes "POST") (b'/' ∷ s)) ≡ none
unfolding guards gated writes path_is
stray_guards s h =
    let plain : no_slash s ≡ true = (and-true _ _ h).0 in
    rw (split_path-last s plain) (
      rw
        (
          no_slash-starts_with s (codes "status/") plain refl,
          no_slash-starts_with s (codes "admin/") plain refl,
          no_slash-starts_with s (codes "auth/token/") plain refl,
          no_slash-starts_with s (codes "faucet/") plain refl,
          no_slash-text_eq (codes "auth/token") s refl plain,
          no_slash-text_eq (codes "auth/tokens") s refl plain,
          no_slash-text_eq (codes "operators/register") s refl plain,
          no_slash-text_eq (codes "operators/create-invite") s refl plain,
          no_slash-text_eq (codes "metering/submit") s refl plain,
          no_slash-text_eq (codes "v2/attestation_evidence") s refl plain,
        )
        (simp (and-false, (stray_tests s h).0, (stray_tests s h).1, (stray_tests s h).2) refl))

stray_warned :
    (s : Text) (now : ℕ) (es : List Emission)
    → is_stray s ≡ true
    → (classify_endpoint (codes "POST") (b'/' ∷ s) now es).1
      ≡ (let w = unclassified (codes "POST") (b'/' ∷ s) now in (warn_throttled w.key w.at es).1)
unfolding classify_endpoint
stray_warned s now es h = rw (stray_guards s h) refl

stray_key :
    (s : Text) (now : ℕ)
    → no_slash s ≡ true
    → (unclassified (codes "POST") (b'/' ∷ s) now).key
      ≡ codes "billing.unclassified_route:POST:/" ++ s
unfolding unclassified
stray_key s now h = rw (split_path-last s h) refl

-- A request, as the classification sees it.
pub record Arrival : Type 0 where
  pub verb : Text
  pub path : Text
  pub at : ℕ

-- The warnings' map after a sequence of requests.
unfoldable pub classify_all : List Arrival → List Emission → List Emission
classify_all [] es = es
classify_all (a ∷ as') es = classify_all as' (classify_endpoint a.verb a.path a.at es).1

class_or_warn-kept :
    (key : Text) (o : Option String) (w : Warning) (es : List Emission)
    → is_some (last_emitted key es) ≡ true
    → is_some (last_emitted key (class_or_warn o w es).1) ≡ true
class_or_warn-kept key none w es h = warn_throttled-kept key w.key w.at es h
class_or_warn-kept key (some c) w es h = h

classify_all-kept :
    (key : Text) (as' : List Arrival) (es : List Emission)
    → is_some (last_emitted key es) ≡ true
    → is_some (last_emitted key (classify_all as' es)) ≡ true
unfolding classify_all classify_endpoint
classify_all-kept key [] es h = h
classify_all-kept key (a ∷ as') es h =
    classify_all-kept key as' _
      (class_or_warn-kept key (first_of (guards (to_upper a.verb) a.path)) _ es h)

abbrev pub post_stray : Text → ℕ → Arrival
post_stray s now = record { verb = codes "POST"; path = b'/' ∷ s; at = now }

-- A request `POST /<s>`, for a first segment without a slash that no route of the gateway has,
-- leaves a key of its own in the map of warnings: the map has it after any further requests, by
-- whatever methods and paths and at whatever times, whatever came before.
pub stray_key_kept :
    (s : Text) (now : ℕ) (before later : List Arrival) (es : List Emission)
    → is_stray s ≡ true
    → is_some (
        last_emitted
          (codes "billing.unclassified_route:POST:/" ++ s)
          (classify_all (before ++ post_stray s now ∷ later) es))
      ≡ true
unfolding classify_all
stray_key_kept s now [] later es h =
    let key = stray_key s now (and-true _ _ h).0 in
    let w = unclassified (codes "POST") (b'/' ∷ s) now in
    classify_all-kept (codes "billing.unclassified_route:POST:/" ++ s) later _
      (rw (stray_warned s now es h, ← key) (warn_throttled-held w.key w.at es))
stray_key_kept s now (a ∷ before) later es h = stray_key_kept s now before later _ h
