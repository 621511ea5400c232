-- ===== src/Billing/Classify.antt =====
-- The billing class of a request: `classifyEndpoint` (src/middleware/billing-402.ts). A pattern of the
-- source is the list of what the pattern asks of each part of the path between two slashes.
pub mod Laws
pub mod Paths
use materios_gateway.Prelude.{
  ℕ, ◌+◌, ◌-◌, String, Text, text_eq, codes, str_eq, Bool, true, false, ◌&&◌, ◌||◌, Option, none,
  some, List, [], ◌∷◌, ◌++◌, any, drop, length, leb, ltb, ◌==◌, if◌then◌else◌,
}
use materios_gateway.Merkle.{every}
use materios_gateway.Tokens.{starts_with}
use materios_gateway.Auth.Upload.{is_digit}
use materios_gateway.Billing.Throttle.{Emission, Warning, warn_throttled}

abbrev pub ends_with : Text → Text → Bool
ends_with t s = leb (length s) (length t) && text_eq (drop (length t - length s) t) s

-- `s.toUpperCase()`; a method has ASCII letters.
abbrev pub to_upper : Text → Text
to_upper [] = []
to_upper (c ∷ cs) = (if leb b'a' c && leb c b'z' then c - 32 else c) ∷ to_upper cs

abbrev pub is_lower_hex : ℕ → Bool
is_lower_hex c = is_digit c || (leb b'a' c && leb c b'f')

-- `[^/]+`, `\d+`, `[a-f0-9]{64}`, `(a|b)` and a text that stands for itself.
pub data Piece : Type 0 where
  segment digits hex64 : Piece
  one_of : List String → Piece

abbrev pub literal : String → Piece
literal s = one_of (s ∷ [])

abbrev pub accepts : Piece → Text → Bool
accepts segment t = ltb 0 (length t)
accepts digits t = ltb 0 (length t) && every is_digit t
accepts hex64 t = length t == 64 && every is_lower_hex t
accepts (one_of ss) t = any (λ s. text_eq (codes s) t) ss

abbrev pub to_last : Text → List Text → List Text
to_last c [] = c ∷ []
to_last c (t ∷ ts) = (c ++ t) ∷ ts

-- `p.split("/")`
abbrev pub split_path : Text → List Text
split_path [] = [] ∷ []
split_path (c ∷ cs) =
    let rest = split_path cs in if c == b'/' then [] ∷ rest else to_last (c ∷ []) rest

abbrev pub all_accept : List Piece → List Text → Bool
all_accept [] [] = true
all_accept [] (t ∷ ts) = false
all_accept (p ∷ ps) [] = false
all_accept (p ∷ ps) (t ∷ ts) = accepts p t && all_accept ps ts

-- `^/…/…$`
unfoldable pub path_is : List Piece → Text → Bool
path_is ps p = all_accept (literal "" ∷ ps) (split_path p)

-- `/…/…$`, anywhere
unfoldable pub path_ends : List Piece → Text → Bool
path_ends ps p =
    let ts = split_path p in
    ltb (length ps) (length ts) && all_accept ps (drop (length ts - length ps) ts)

-- A chain of guards: the class of the first that holds.
abbrev pub Guards : Type 0
Guards = List (Bool × String)

abbrev pub first_of : Guards → Option String
first_of [] = none
first_of ((test, c) ∷ gs) = if test then some c else first_of gs

abbrev pub is : String → Text → Bool
is s t = text_eq (codes s) t

-- The guards before those of the reads.
unfoldable pub gated : Text → Text → Guards
gated m p =
    (is "/health" p || (is "/status" p || starts_with p (codes "/status/")), "free")
    ∷ (starts_with p (codes "/admin/"), "admin")
    ∷ (is "/auth/token" p || (starts_with p (codes "/auth/token/") || is "/auth/tokens" p), "admin")
    ∷ (is "POST" m && is "/operators/register" p, "admin")
    ∷ (is "POST" m && is "/operators/create-invite" p, "admin")
    ∷ (
      is "PATCH" m && path_is (literal "operators" ∷ segment ∷ literal "session-keys" ∷ []) p,
      "admin",
    )
    ∷ (
      is "PUT" m
          && path_is
              (literal "midnight"
                ∷ one_of ("mainnet" ∷ "preprod" ∷ [])
                ∷ literal "objects"
                ∷ one_of ("members" ∷ "plans" ∷ "sets" ∷ [])
                ∷ hex64
                ∷ [])
              p,
      "admin",
    )
    ∷ []

-- The guards of a GET request.
unfoldable pub reads : Text → Guards
reads p =
    (starts_with p (codes "/blobs/") && ends_with p (codes "/manifest"), "free")
    ∷ (starts_with p (codes "/blobs/") && ends_with p (codes "/status"), "free")
    ∷ (starts_with p (codes "/blobs/") && path_ends (literal "chunks" ∷ digits ∷ []) p, "free")
    ∷ (starts_with p (codes "/chunks/"), "free")
    ∷ (starts_with p (codes "/locators/"), "free")
    ∷ (starts_with p (codes "/batches/"), "free")
    ∷ (is "/billing/usage" p, "billing_usage_query")
    ∷ (is "/chain-info" p, "free")
    ∷ (is "/faucet/status" p, "free")
    ∷ (starts_with p (codes "/heartbeats/"), "free")
    ∷ (path_is (literal "operators" ∷ segment ∷ literal "session-keys" ∷ []) p, "free")
    ∷ (path_is (literal "operators" ∷ literal "status" ∷ segment ∷ []) p, "free")
    ∷ (is "/v2/attestation_evidence/pending" p, "admin")
    ∷ (true, "free")
    ∷ []

-- The guards of the writes.
unfoldable pub writes : Text → Text → Guards
writes m p =
    (
      is "POST" m && path_is (literal "blobs" ∷ segment ∷ literal "manifest" ∷ []) p,
      "manifest_post",
    )
    ∷ (
      is "PUT" m && path_is (literal "blobs" ∷ segment ∷ literal "chunks" ∷ digits ∷ []) p,
      "chunk_upload",
    )
    ∷ (
      is "PATCH" m && path_is (literal "blobs" ∷ segment ∷ literal "certified" ∷ []) p,
      "manifest_certified_patch",
    )
    ∷ (is "POST" m && is "/metering/submit" p, "receipt_submit")
    ∷ (
      (is "POST" m || is "PUT" m) && path_is (literal "batches" ∷ segment ∷ []) p,
      "batch_metadata",
    )
    ∷ (is "POST" m && is "/v2/attestation_evidence" p, "tee_evidence_submit")
    ∷ (
      is "POST" m
          && path_is
              (literal "v2"
                ∷ literal "attestation_evidence"
                ∷ segment
                ∷ literal "mark_submitted"
                ∷ [])
              p,
      "tee_evidence_mark_submitted",
    )
    ∷ (is "POST" m && is "/heartbeats" p, "free")
    ∷ (is "POST" m && starts_with p (codes "/faucet/"), "free")
    ∷ []

-- All guards of a request, in their order; `m` is in capitals.
unfoldable pub guards : Text → Text → Guards
guards m p = gated m p ++ (if is "GET" m then reads p else writes m p)

-- `/^[a-z0-9_]+$/`
abbrev pub is_canonical : String → Bool
is_canonical c =
    ltb 0 (length (codes c))
    && every (λ x. (leb b'a' x && leb x b'z') || (is_digit x || x == b'_')) (codes c)

-- `none` is the error that is thrown.
unfoldable pub assert_endpoint_class : String → Option String
assert_endpoint_class c = if is_canonical c then some c else none

abbrev pub second : List Text → Text
second (s ∷ (t ∷ ts)) = t
second ts = []

-- The warning about a request that no guard admits.
unfoldable pub unclassified : Text → Text → ℕ → Warning
unclassified m p now = record {
  key = codes "billing.unclassified_route:" ++ (m ++ (codes ":/" ++ second (split_path p)));
  at = now;
}

-- The class, or the error; and the warnings' map.
abbrev pub class_or_warn : Option String → Warning → List Emission → Option String × List Emission
class_or_warn (some c) w es = (assert_endpoint_class c, es)
class_or_warn none w es = (assert_endpoint_class "free", (warn_throttled w.key w.at es).1)

unfoldable pub classify_endpoint : Text → Text → ℕ → List Emission → Option String × List Emission
classify_endpoint verb p now es =
    let m = to_upper verb in class_or_warn (first_of (guards m p)) (unclassified m p now) es

-- A class that the check lets pass.
abbrev pub is_unpriced : String → Bool
is_unpriced c = str_eq c "free" || str_eq c "admin"
