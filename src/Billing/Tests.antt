-- ===== src/Billing/Tests.antt =====
-- Warnings, classes and prices on concrete inputs, and the theorems at such inputs.
use materios_gateway.Prelude.{
  ◌+◌, ◌/◌, ◌≤◌, ◌≡◌, refl, Text, codes, true, none, some, [], ◌∷◌, length, is_some, arith,
}
use materios_gateway.Billing.Throttle.{last_emitted, warn_throttled, emissions, throttle_ms}
use materios_gateway.Billing.Throttle.Rate.{emissions_bound}
use materios_gateway.Billing.Classify.{
  gated, reads, writes, guards, path_is, path_ends, assert_endpoint_class, unclassified,
  classify_endpoint,
}
use materios_gateway.Billing.Classify.Paths.{
  chunk_path, chunk_upload_unpriced, Arrival, post_stray, classify_all, stray_key_kept,
}
use materios_gateway.Billing.Pricing.{
  json_per_byte, other, decode_pricing_model, query_endpoint_price,
}

abbrev put : Text
put = codes "put"

throttled :
    emissions
      (codes "k")
      (record { key = codes "k"; at = 5 }
        ∷ record { key = codes "k"; at = 60004 }
        ∷ record { key = codes "j"; at = 60004 }
        ∷ record { key = codes "k"; at = 60005 }
        ∷ [])
      []
    ≡ 5 ∷ 60005 ∷ []
unfolding emissions warn_throttled
throttled = refl

emissions_bound_example :
    length (
      emissions
        (codes "k")
        (record { key = codes "k"; at = 5 }
          ∷ record { key = codes "k"; at = 60004 }
          ∷ record { key = codes "k"; at = 60005 }
          ∷ [])
        [])
    ≤ 1 + 60000 / throttle_ms
emissions_bound_example =
    emissions_bound 5 60000 (codes "k")
      (record { key = codes "k"; at = 5 }
        ∷ record { key = codes "k"; at = 60004 }
        ∷ record { key = codes "k"; at = 60005 }
        ∷ [])
      [] (omega arith)

class_mark :
    (classify_endpoint (codes "post") (codes "/v2/attestation_evidence/0x1/mark_submitted") 0 []).0
    ≡ some "tee_evidence_mark_submitted"
unfolding classify_endpoint guards gated writes path_is assert_endpoint_class
class_mark = refl

class_chunk : (classify_endpoint (codes "GET") (codes "/blobs/a/chunks/12") 0 []).0 ≡ some "free"
unfolding classify_endpoint guards gated reads path_is path_ends assert_endpoint_class
class_chunk = refl

class_stray : classify_endpoint (codes "POST") (codes "/observations/submit") 8 [] ≡ (
  some "free",
  record { key = codes "billing.unclassified_route:POST:/observations"; at = 8 } ∷ [],
)
unfolding classify_endpoint guards gated writes path_is assert_endpoint_class unclassified
    warn_throttled
class_stray = refl

chunk_upload_unpriced_example :
    (classify_endpoint put (chunk_path (codes "ab") (codes "7") (codes "/")) 0 []).0 ≡ some "free"
chunk_upload_unpriced_example =
    chunk_upload_unpriced (codes "ab") (codes "7") refl refl refl refl put 0 [] refl

abbrev visit : Arrival
visit = record { verb = codes "GET"; path = codes "/health"; at = 70000 }

stray_key_kept_example :
    is_some (
      last_emitted
        (codes "billing.unclassified_route:POST:/u1")
        (classify_all (visit ∷ post_stray (codes "u1") 9 ∷ visit ∷ []) []))
    ≡ true
stray_key_kept_example = stray_key_kept (codes "u1") 9 (visit ∷ []) (visit ∷ []) [] refl

two_strays :
    length
      (classify_all (post_stray (codes "u1") 9 ∷ visit ∷ post_stray (codes "u2") 90000 ∷ []) [])
    ≡ 2
unfolding classify_all classify_endpoint guards gated reads writes path_is path_ends unclassified
    warn_throttled
two_strays = refl

price_unknown :
    query_endpoint_price
      (λ c. some (other (codes "Tiered" ∷ codes "x" ∷ [])))
      "chunk_upload"
      3
      70
      []
    ≡ (some 0, record { key = codes "billing.unknown_pricing_variant:Tiered,x"; at = 70 } ∷ [])
unfolding query_endpoint_price decode_pricing_model warn_throttled
price_unknown = refl

price_json :
    (query_endpoint_price (λ c. some (json_per_byte none (some 5))) "c" 3 70 []).0 ≡ some 15
unfolding query_endpoint_price decode_pricing_model
price_json = refl
