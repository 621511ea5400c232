-- ===== src/Validator/Sound.antt =====
-- What a validated record is (src/schemas/compute_metering_v1.ts).
use materios_gateway.Prelude.{
  ℕ, ◌+◌, ◌-◌, ◌<◌, ◌≤◌, ◌≡◌, refl, ap, sym, String, Text, Bool, true, false, Option, none, some,
  arith,
}
use mathlib.Core.Path.{subst}
use materios_gateway.Merkle.{Buffer}
use materios_gateway.Cbor.{Number}
use materios_gateway.Validator.Checks.{
  pass, Code, Json, string, numeric, is_id, is_hex, max_period_ms, future_skew_ms,
}
use materios_gateway.Validator.Ensures.{
  Ensures, passes, throws, Ensures-bind, Ensures-mono, Ensures-throws, Ensures-pass_at,
  guard-Ensures, root-Ensures, schema_field-Ensures, id_field-Ensures, hex_field-Ensures,
  period_start_field-Ensures, period_end_field-Ensures, whole_field-Ensures, real_field-Ensures,
  Spells, IsWhole, IsReal,
}
use materios_gateway.Validator.{
  MeteringBody, Validated, ValidateOptions, schema_version, canonical_body, body_or_throw, is_valid,
  verify_body, validate_compute_metering,
}

module _ {F : Type 0} (bits : F → ℕ) (is_negative : F → Bool)
    (exceeds : Number F → ℕ → ℕ → ℕ → Bool) (sha256_hex : Buffer → Text)
    (signature_verify : Buffer → Text → Text → Option Bool) where
  -- The record is the one that was given, and its values are those that the schema admits.
  pub record IsAdmitted (opts : ValidateOptions) (fields : String → Option (Json F))
      (r : MeteringBody F) : Type 0 where
    pub version : fields "schema_version" ≡ some (string schema_version)
    pub worker : (fields "worker_id" ≡ some (string r.worker_id)) × (is_id r.worker_id ≡ true)
    pub tenant : (fields "tenant_id" ≡ some (string r.tenant_id)) × (is_id r.tenant_id ≡ true)
    pub starts : Spells (fields "period_start") r.period_start × (0 < r.period_start)
    pub ends : Spells (fields "period_end") r.period_end
    pub forward : r.period_start < r.period_end
    pub short : r.period_end ≤ r.period_start + max_period_ms
    pub not_ahead : r.period_end ≤ opts.now_ms + future_skew_ms
    pub monotonic : opts.last_period_start ≤ r.period_start
    pub cpu :
        (fields "cpu_seconds" ≡ some (numeric r.cpu_seconds))
        × IsReal is_negative r.cpu_seconds
        × (exceeds r.cpu_seconds (r.period_end - r.period_start) 1_000 opts.bounds.max_cpu_cores
            ≡ false)
    pub ram :
        (fields "ram_gb_hours" ≡ some (numeric r.ram_gb_hours))
        × IsReal is_negative r.ram_gb_hours
        × (exceeds r.ram_gb_hours (r.period_end - r.period_start) 3_600_000 opts.bounds.max_ram_gb
            ≡ false)
    pub disk :
        (fields "disk_gb_hours" ≡ some (numeric r.disk_gb_hours))
        × IsReal is_negative r.disk_gb_hours
        × (exceeds r.disk_gb_hours (r.period_end - r.period_start) 3_600_000 opts.bounds.max_disk_gb
            ≡ false)
    pub net_in : (fields "net_bytes_in" ≡ some (numeric r.net_bytes_in)) × IsWhole r.net_bytes_in
    pub net_out :
        (fields "net_bytes_out" ≡ some (numeric r.net_bytes_out)) × IsWhole r.net_bytes_out
    pub gpu :
        (fields "gpu_seconds" ≡ some (numeric r.gpu_seconds))
        × IsReal is_negative r.gpu_seconds
        × (exceeds r.gpu_seconds (r.period_end - r.period_start) 1_000 opts.bounds.max_gpu_count
            ≡ false)
    pub pubkey :
        (fields "worker_pubkey" ≡ some (string r.worker_pubkey))
        × (is_hex 64 r.worker_pubkey ≡ true)

  -- The signature is that of the canonical body, under the record's own key, and the hash is its.
  pub record IsSigned (fields : String → Option (Json F)) (v : Validated F) : Type 0 where
    pub given :
        (fields "worker_signature" ≡ some (string v.metering.worker_signature))
        × (is_hex 128 v.metering.worker_signature ≡ true)
    pub encoded :
        canonical_body bits is_negative exceeds sha256_hex signature_verify v.metering.body
        ≡ some v.canonical_body
    pub hashed : v.content_hash ≡ sha256_hex v.canonical_body
    pub signed :
        signature_verify v.canonical_body v.metering.worker_signature v.metering.body.worker_pubkey
        ≡ some true

  valid-some :
      (o : Option Bool)
      → is_valid bits is_negative exceeds sha256_hex signature_verify o ≡ true
      → o ≡ some true
  valid-some none h = absurd (cc)
  valid-some (some b) h = ap some h

  body_or_throw-Ensures :
      (o : Option Buffer)
      → Ensures
          (λ b. o ≡ some b)
          (o ≡ none)
          (body_or_throw bits is_negative exceeds sha256_hex signature_verify o)
  body_or_throw-Ensures none = throws refl
  body_or_throw-Ensures (some b) = passes refl

  module _ {T : Type 0} (opts : ValidateOptions) where
    verify_body-Ensures :
        (fields : String → Option (Json F)) (r : MeteringBody F) (signature : Text)
        → (canonical_body bits is_negative exceeds sha256_hex signature_verify r ≡ none → T)
        → (fields "worker_signature" ≡ some (string signature)) × (is_hex 128 signature ≡ true)
        → Ensures
            (λ v. (v.metering.body ≡ r) × IsSigned fields v)
            T
            (verify_body bits is_negative exceeds sha256_hex signature_verify r signature)
    unfolding verify_body
    verify_body-Ensures fields r signature fatal given =
        Ensures-bind (Ensures-throws fatal (body_or_throw-Ensures _)) (λ body encoded.
          Ensures-bind (guard-Ensures _ Code.signature_invalid "worker_signature") (λ u signed.
            passes (
              refl,
              record {
                given = given;
                encoded = encoded;
                hashed = refl;
                signed = valid-some _ signed;
              },
            )))

    pub validate-Ensures :
        (raw : Option (String → Option (Json F)))
        → ((fields : String → Option (Json F)) (r : MeteringBody F)
            → IsAdmitted opts fields r
            → canonical_body bits is_negative exceeds sha256_hex signature_verify r ≡ none
            → T)
        → Ensures
            (λ v.
              (fields : String → Option (Json F)) × (raw ≡ some fields)
              × IsAdmitted opts fields v.metering.body
              × IsSigned fields v)
            T
            (validate_compute_metering bits is_negative exceeds sha256_hex signature_verify raw
              opts)
    unfolding validate_compute_metering
    validate-Ensures raw fatal = Ensures-bind (root-Ensures raw) (λ fields object.
        Ensures-bind (schema_field-Ensures schema_version _) (λ u version.
          Ensures-bind (id_field-Ensures "worker_id" _) (λ worker_id worker.
            Ensures-bind (id_field-Ensures "tenant_id" _) (λ tenant_id tenant.
              Ensures-bind (period_start_field-Ensures _) (λ start starts.
                Ensures-bind (period_end_field-Ensures start opts.now_ms _) (λ stop ends.
                  Ensures-bind (guard-Ensures _ Code.not_monotonic "period_start") (λ u' monotonic.
                    Ensures-bind (real_field-Ensures is_negative _ "cpu_seconds" _) (λ cpu cpu_lem.
                      Ensures-bind (real_field-Ensures is_negative _ "ram_gb_hours" _)
                        (λ ram ram_lem.
                          Ensures-bind (real_field-Ensures is_negative _ "disk_gb_hours" _)
                            (λ disk disk_lem.
                              Ensures-bind (whole_field-Ensures is_negative _ "net_bytes_in" _)
                                (λ net_in in_lem.
                                  Ensures-bind (whole_field-Ensures is_negative _ "net_bytes_out" _)
                                    (λ net_out out_lem.
                                      Ensures-bind
                                        (real_field-Ensures is_negative _ "gpu_seconds" _)
                                        (λ gpu gpu_lem.
                                          Ensures-bind (hex_field-Ensures 64 "worker_pubkey" _)
                                            (λ pubkey pubkey_lem.
                                              Ensures-bind
                                                (hex_field-Ensures 128 "worker_signature" _)
                                                (λ signature signature_lem.
                                                  let admitted : IsAdmitted opts fields _ = record {
                                                    version = version;
                                                    worker = worker;
                                                    tenant = tenant;
                                                    starts = starts;
                                                    ends = ends.0;
                                                    forward = ends.1;
                                                    short = ends.2;
                                                    not_ahead = ends.3;
                                                    monotonic = ground arith;
                                                    cpu = cpu_lem;
                                                    ram = ram_lem;
                                                    disk = disk_lem;
                                                    net_in = in_lem;
                                                    net_out = out_lem;
                                                    gpu = gpu_lem;
                                                    pubkey = pubkey_lem;
                                                  } in
                                                  Ensures-mono
                                                    (verify_body-Ensures fields _ signature
                                                      (fatal fields _ admitted) signature_lem)
                                                    (λ v h. (
                                                      fields,
                                                      object,
                                                      subst (IsAdmitted opts fields) (sym h.0)
                                                          admitted,
                                                      h.1,
                                                    )))))))))))))))))

  -- A record that passes is the one that was given, within the schema: its ids, its period, which
  -- is not empty, at most a day long, not ahead of the clock by more than a minute and not before
  -- the worker's last one, its numbers within their caps, its keys in hex. Its signature verifies,
  -- under its own key, for its canonical body, whose hash is its content hash.
  pub validate_compute_metering_sound :
      (opts : ValidateOptions) (raw : Option (String → Option (Json F))) (v : Validated F)
      → validate_compute_metering bits is_negative exceeds sha256_hex signature_verify raw opts
        ≡ pass v
      → (fields : String → Option (Json F)) × (raw ≡ some fields)
        × IsAdmitted opts fields v.metering.body
        × IsSigned fields v
  validate_compute_metering_sound opts raw v e =
      Ensures-pass_at (validate-Ensures {T = Unit {0}} opts raw (λ fields r admitted h. tt)) e
