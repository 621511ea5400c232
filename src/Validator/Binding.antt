-- ===== src/Validator/Binding.antt =====
-- What a content hash stands for (src/schemas/compute_metering_v1.ts).
use materios_gateway.Prelude.{
  ℕ, ◌^◌, ◌<◌, ◌≡◌, ◌≢◌, ◌⊎◌, refl, ap, sym, ◌∙◌, String, Text, text_eq, text_eq_iff, codes, Bool,
  true, Option, none, some, List, [], ◌∷◌, All, arith, if◌then◌else◌, Bool-cases, inl, inr,
}
use materios_gateway.Merkle.{Buffer, every}
use materios_gateway.Sql.{count}
use materios_gateway.Cbor.{Number, EntryValue, text, number, is_ascii}
use materios_gateway.Cbor.Entries.{IsPlainEntry}
use materios_gateway.Cbor.Maps.{decode_map-encode_map}
use materios_gateway.Validator.Checks.{Json, pass}
use materios_gateway.Validator.{
  MeteringBody, Validated, ValidateOptions, entries, milliseconds, canonical_body,
  validate_compute_metering,
}
use materios_gateway.Validator.Sound.{IsAdmitted, validate_compute_metering_sound}
use materios_gateway.Validator.Total.{id-ascii, hex-ascii}

module _ {F : Type 0} where
  abbrev field_of : Text → List (Text × EntryValue F) → Option (EntryValue F)
  field_of k [] = none
  field_of k ((j, v) ∷ es) = if text_eq j k then some v else field_of k es

  abbrev has_key : Text → Text × EntryValue F → Bool
  has_key k (j, v) = text_eq j k

  -- An entry that a list of entries has under its key.
  abbrev Under : List (Text × EntryValue F) → Text × EntryValue F → Type 0
  Under fs (j, v) = field_of j fs ≡ some v

  fields_agree :
      (k : Text) (fs gs es : List (Text × EntryValue F))
      → All (Under fs) es
      → All (Under gs) es
      → 0 < count (has_key k) es
      → field_of k fs ≡ field_of k gs
  fields_agree k fs gs [] h h' some_key = absurd (omega arith)
  fields_agree k fs gs ((j, v) ∷ es) (a, h) (b, h') some_key = elim (Bool-cases (text_eq j k)) [
    | inl same ↦ let eq = (text_eq_iff j k).0 same in rw (← eq) (a ∙ sym b)
    | inr other ↦ fields_agree k fs gs es h h' (ground arith)
  ]

module _ {F : Type 0} where
  text_inj : (a b : Text) → ◌≡◌ {A = Option (EntryValue F)} (some (text a)) (some (text b)) → a ≡ b
  text_inj a b e = cc

  number_inj :
      (a b : Number F) → ◌≡◌ {A = Option (EntryValue F)} (some (number a)) (some (number b)) → a ≡ b
  number_inj a b e = cc

  milliseconds_inj :
      (m n : ℕ)
      → ◌≡◌ {A = Option (EntryValue F)} (some (milliseconds m)) (some (milliseconds n))
      → m ≡ n
  milliseconds_inj m n e = cc

module _ {F : Type 0} (bits : F → ℕ) (of_bits : ℕ → F) (is_negative : F → Bool)
    (exceeds : Number F → ℕ → ℕ → ℕ → Bool) (sha256_hex : Buffer → Text)
    (signature_verify : Buffer → Text → Text → Option Bool) (wide : (f : F) → bits f < 2 ^ 64)
    (inverse : (f : F) → of_bits (bits f) ≡ f) where
  record Plain (r : MeteringBody F) : Type 0 where
    worker : every is_ascii r.worker_id ≡ true
    tenant : every is_ascii r.tenant_id ≡ true
    pubkey : every is_ascii r.worker_pubkey ≡ true

  Plain-entries : (r : MeteringBody F) → Plain r → All (IsPlainEntry bits of_bits) (entries r)
  Plain-entries r p = (
    (refl, refl),
    (
      (refl, p.worker),
      (
        (refl, p.tenant),
        (
          (refl, tt),
          (
            (refl, tt),
            (
              (refl, tt),
              (
                (refl, tt),
                ((refl, tt), ((refl, tt), ((refl, tt), ((refl, tt), ((refl, p.pubkey), tt))))),
              ),
            ),
          ),
        ),
      ),
    ),
  )

  own_entries : (r : MeteringBody F) → All (Under (entries r)) (entries r)
  own_entries r = (
    refl,
    (refl, (refl, (refl, (refl, (refl, (refl, (refl, (refl, (refl, (refl, (refl, tt))))))))))),
  )

  canonical_body-injective :
      (r r' : MeteringBody F) (body : Buffer)
      → Plain r
      → Plain r'
      → canonical_body bits is_negative exceeds sha256_hex signature_verify r ≡ some body
      → canonical_body bits is_negative exceeds sha256_hex signature_verify r' ≡ some body
      → r ≡ r'
  unfolding canonical_body
  canonical_body-injective r r' body p p' e e' =
      let (es, read, counted, keep, canonical) =
        decode_map-encode_map bits of_bits wide inverse (entries r) body (Plain-entries r p) e in
      let (es', read', counted', keep', canonical') =
        decode_map-encode_map bits of_bits wide inverse (entries r') body (Plain-entries r' p')
          e' in
      let same : es ≡ es' = cc in
      let mine : All (Under (entries r)) es = keep (Under (entries r)) (own_entries r) in
      let yours : All (Under (entries r')) es =
        rw same (keep' (Under (entries r')) (own_entries r')) in
      let agree = λ (k : Text) (h : 0 < count (has_key {F = F} k) (entries r)).
        fields_agree k (entries r) (entries r') es mine yours
          (omega (arith, counted (has_key k), h)) in
      let e0 : r.worker_id ≡ r'.worker_id =
        text_inj _ _ (agree (codes "worker_id") (omega arith)) in
      let e1 : r.tenant_id ≡ r'.tenant_id =
        text_inj _ _ (agree (codes "tenant_id") (omega arith)) in
      let e2 : r.period_start ≡ r'.period_start =
        milliseconds_inj _ _ (agree (codes "period_start") (omega arith)) in
      let e3 : r.period_end ≡ r'.period_end =
        milliseconds_inj _ _ (agree (codes "period_end") (omega arith)) in
      let e4 : r.cpu_seconds ≡ r'.cpu_seconds =
        number_inj _ _ (agree (codes "cpu_seconds") (omega arith)) in
      let e5 : r.ram_gb_hours ≡ r'.ram_gb_hours =
        number_inj _ _ (agree (codes "ram_gb_hours") (omega arith)) in
      let e6 : r.disk_gb_hours ≡ r'.disk_gb_hours =
        number_inj _ _ (agree (codes "disk_gb_hours") (omega arith)) in
      let e7 : r.net_bytes_in ≡ r'.net_bytes_in =
        number_inj _ _ (agree (codes "net_bytes_in") (omega arith)) in
      let e8 : r.net_bytes_out ≡ r'.net_bytes_out =
        number_inj _ _ (agree (codes "net_bytes_out") (omega arith)) in
      let e9 : r.gpu_seconds ≡ r'.gpu_seconds =
        number_inj _ _ (agree (codes "gpu_seconds") (omega arith)) in
      let e10 : r.worker_pubkey ≡ r'.worker_pubkey =
        text_inj _ _ (agree (codes "worker_pubkey") (omega arith)) in
      ground arith

  admitted-Plain :
      (opts : ValidateOptions) (fields : String → Option (Json F)) (r : MeteringBody F)
      → IsAdmitted bits is_negative exceeds sha256_hex signature_verify opts fields r
      → Plain r
  admitted-Plain opts fields r a = record {
    worker = id-ascii r.worker_id a.worker.1;
    tenant = id-ascii r.tenant_id a.tenant.1;
    pubkey = hex-ascii 64 r.worker_pubkey a.pubkey.1;
  }

  -- Two records that pass, whenever and under whatever bounds, with one content hash are the same but
  -- for their signatures, or there are two different buffers with the same hash; if the bit patterns
  -- of fractions have 64 bits and stand for them.
  pub content_hash-binding :
      (raw raw' : Option (String → Option (Json F))) (opts opts' : ValidateOptions)
      (v v' : Validated F)
      → validate_compute_metering bits is_negative exceeds sha256_hex signature_verify raw opts
        ≡ pass v
      → validate_compute_metering bits is_negative exceeds sha256_hex signature_verify raw' opts'
        ≡ pass v'
      → v.content_hash ≡ v'.content_hash
      → (v.metering.body ≡ v'.metering.body)
        ⊎ ((a : Buffer) × (b : Buffer) × (a ≢ b) × (sha256_hex a ≡ sha256_hex b))
  content_hash-binding raw raw' opts opts' v v' e e' same_hash =
      let (fields, given, a, s) =
        validate_compute_metering_sound bits is_negative exceeds sha256_hex signature_verify opts
          raw v e in
      let (fields', given', a', s') =
        validate_compute_metering_sound bits is_negative exceeds sha256_hex signature_verify opts'
          raw' v' e' in
      elim (Bool-cases (text_eq v.canonical_body v'.canonical_body)) [
        | inl equal ↦
            let same = (text_eq_iff v.canonical_body v'.canonical_body).0 equal in
            inl (
              canonical_body-injective v.metering.body v'.metering.body v'.canonical_body
                (admitted-Plain opts fields v.metering.body a)
                (admitted-Plain opts' fields' v'.metering.body a') (s.encoded ∙ ap some same)
                s'.encoded)
        | inr other ↦ inr (
          v.canonical_body,
          v'.canonical_body,
          (λ same. absurd (ground (arith, text_eq_iff v.canonical_body v'.canonical_body))),
          sym s.hashed ∙ same_hash ∙ s'.hashed,
        )
      ]
