-- ===== src/Billing/Pricing.antt =====
-- The price of a request from the price model on the chain: `decodePricingModel` and
-- `queryEndpointPrice` (src/billing/chain_query.ts). `read` is the chain's storage; it answers `none`
-- where there is no connection or no pallet, or the read throws.
use materios_gateway.Prelude.{
  ℕ, ◌-◌, ◌*◌, ◌^◌, String, Text, codes, Bool, true, false, Option, none, some, List, [], ◌∷◌, ◌++◌,
  ltb, if◌then◌else◌,
}
use materios_gateway.Billing.Throttle.{Emission, warn_throttled}

abbrev pub u128_max : ℕ
u128_max = 2 ^ 128 - 1

-- What the decoder of @polkadot/api returns: a codec with `isPerCall`, `isPerByte`, `asPerCall` and
-- the unit price of `asPerByte`; a plain object with `PerCall`, or with the `unit_price` and the
-- `unitPrice` of `PerByte`; or something else. The last field has the keys of the object.
pub data RawPricing : Type 0 where
  codec : Bool → Bool → Option ℕ → Option ℕ → List Text → RawPricing
  json_per_call : ℕ → RawPricing
  json_per_byte : Option ℕ → Option ℕ → RawPricing
  other : List Text → RawPricing

abbrev pub saturate : ℕ → ℕ
saturate product = if ltb u128_max product then u128_max else product

-- `a ?? b ?? 0`
abbrev pub or_zero : Option ℕ → Option ℕ → ℕ
or_zero (some a) b = a
or_zero none (some b) = b
or_zero none none = 0

-- `keys.join(",")`
abbrev pub join_keys : List Text → Text
join_keys [] = []
join_keys (k ∷ []) = k
join_keys (k ∷ (l ∷ ls)) = k ++ codes "," ++ join_keys (l ∷ ls)

abbrev pub unknown_variant : List Text → ℕ → List Emission → ℕ × List Emission
unknown_variant keys now es =
    (0, (warn_throttled (codes "billing.unknown_pricing_variant:" ++ join_keys keys) now es).1)

abbrev pub per_byte : Bool → Option ℕ → List Text → ℕ → ℕ → List Emission → ℕ × List Emission
per_byte true (some unit) keys bytes now es = (saturate (unit * bytes), es)
per_byte true none keys bytes now es = unknown_variant keys now es
per_byte false unit keys bytes now es = unknown_variant keys now es

-- The price, and the warnings' map.
unfoldable pub decode_pricing_model : RawPricing → ℕ → ℕ → List Emission → ℕ × List Emission
decode_pricing_model (codec true by_byte (some price) unit keys) bytes now es = (price, es)
decode_pricing_model (codec true by_byte none unit keys) bytes now es =
    per_byte by_byte unit keys bytes now es
decode_pricing_model (codec false by_byte price unit keys) bytes now es =
    per_byte by_byte unit keys bytes now es
decode_pricing_model (json_per_call price) bytes now es = (price, es)
decode_pricing_model (json_per_byte unit unit') bytes now es =
    (saturate (or_zero unit unit' * bytes), es)
decode_pricing_model (other keys) bytes now es = unknown_variant keys now es

abbrev quote_raw : Option RawPricing → ℕ → ℕ → List Emission → Option ℕ × List Emission
quote_raw none bytes now es = (none, es)
quote_raw (some raw) bytes now es =
    let (price, es') = decode_pricing_model raw bytes now es in (some price, es')

unfoldable pub query_endpoint_price :
    (Text → Option RawPricing) → String → ℕ → ℕ → List Emission → Option ℕ × List Emission
query_endpoint_price read endpoint_class bytes now es =
    quote_raw (read (codes endpoint_class)) bytes now es
