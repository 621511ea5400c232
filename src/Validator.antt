-- ===== src/Validator.antt =====
-- The validator of metering records (src/schemas/compute_metering_v1.ts): `canonicalBody` and
-- `validateComputeMeteringV1`. Parameters are the platform's: SHA-256 in hex, the bit patterns and the
-- arithmetic of floating point, and the verifier of sr25519 (@polkadot/util-crypto) on the body, and
-- on the signature and the key in hex; `none` where it throws.
pub mod Checks
pub mod Ensures
pub mod Sound
pub mod Binding
pub mod Total
mod Tests
use materios_gateway.Prelude.{
  ℕ, ◌+◌, ◌-◌, String, Text, text_eq, codes, Bool, true, false, not, ◌&&◌, Option, none, some, List,
  [], ◌∷◌, length, leb, ltb, if◌then◌else◌,
}
use materios_gateway.Merkle.{Buffer}
use materios_gateway.Metering.Workers.{WorkerBounds}
use materios_gateway.Cbor.{
  ℤ, pos, negsuc, Number, integer, fraction, EntryValue, text, number, encode_map, js_safe_int,
}
use materios_gateway.Validator.Checks.{
  Check, pass, fail, thrown, ◌>>=◌, Code, Json, Kind, whole, real, guard, schema_field, id_field,
  period_start_field, period_end_field, numeric_field, hex_field, not_monotonic, signature_invalid,
}

-- The record without its signature, and with it.
pub record MeteringBody (F : Type 0) : Type 0 where
  pub worker_id : Text
  pub tenant_id : Text
  pub period_start : ℕ
  pub period_end : ℕ
  pub cpu_seconds : Number F
  pub ram_gb_hours : Number F
  pub disk_gb_hours : Number F
  pub net_bytes_in : Number F
  pub net_bytes_out : Number F
  pub gpu_seconds : Number F
  pub worker_pubkey : Text

pub record ComputeMetering (F : Type 0) : Type 0 where
  pub body : MeteringBody F
  pub worker_signature : Text

pub record Validated (F : Type 0) : Type 0 where
  pub metering : ComputeMetering F
  pub content_hash : Text
  pub schema_hash : Text
  pub canonical_body : Buffer

pub record ValidateOptions : Type 0 where
  pub bounds : WorkerBounds
  pub last_period_start : ℕ
  pub now_ms : ℕ

abbrev pub schema_version : Text
schema_version = codes "compute_metering_v1"

module _ {F : Type 0} where
  abbrev pub milliseconds : ℕ → EntryValue F
  milliseconds n = number (integer (pos n))

  abbrev pub entries : MeteringBody F → List (Text × EntryValue F)
  entries r =
      (codes "schema_version", text schema_version)
      ∷ (codes "worker_id", text r.worker_id)
      ∷ (codes "tenant_id", text r.tenant_id)
      ∷ (codes "period_start", milliseconds r.period_start)
      ∷ (codes "period_end", milliseconds r.period_end)
      ∷ (codes "cpu_seconds", number r.cpu_seconds)
      ∷ (codes "ram_gb_hours", number r.ram_gb_hours)
      ∷ (codes "disk_gb_hours", number r.disk_gb_hours)
      ∷ (codes "net_bytes_in", number r.net_bytes_in)
      ∷ (codes "net_bytes_out", number r.net_bytes_out)
      ∷ (codes "gpu_seconds", number r.gpu_seconds)
      ∷ (codes "worker_pubkey", text r.worker_pubkey)
      ∷ []

-- `exceeds v ms unit bound` is `v > ms / unit * bound` in floating point.
module _ {F : Type 0} (bits : F → ℕ) (is_negative : F → Bool)
    (exceeds : Number F → ℕ → ℕ → ℕ → Bool) (sha256_hex : Buffer → Text)
    (signature_verify : Buffer → Text → Text → Option Bool) where
  unfoldable pub canonical_body : MeteringBody F → Option Buffer
  canonical_body r = encode_map bits (entries r)

  abbrev pub body_or_throw : Option Buffer → Check Buffer
  body_or_throw none = thrown
  body_or_throw (some body) = pass body

  abbrev pub is_valid : Option Bool → Bool
  is_valid none = false
  is_valid (some b) = b

  -- `canonicalContentHash` and the check of the signature
  unfoldable pub verify_body : MeteringBody F → Text → Check (Validated F)
  verify_body r signature = do
    body ← body_or_throw (canonical_body r)
    _ ←
        guard (is_valid (signature_verify body signature r.worker_pubkey)) signature_invalid
          "worker_signature"
    pass record {
      metering = record { body = r; worker_signature = signature };
      content_hash = sha256_hex body;
      schema_hash = sha256_hex schema_version;
      canonical_body = body;
    }

  unfoldable pub validate_compute_metering :
      Option (String → Option (Json F)) → ValidateOptions → Check (Validated F)
  validate_compute_metering raw opts = do
    fields ← Checks.root raw
    _ ← schema_field schema_version (fields "schema_version")
    worker_id ← id_field "worker_id" (fields "worker_id")
    tenant_id ← id_field "tenant_id" (fields "tenant_id")
    period_start ← period_start_field (fields "period_start")
    period_end ← period_end_field period_start opts.now_ms (fields "period_end")
    _ ← guard (not (ltb period_start opts.last_period_start)) not_monotonic "period_start"
    let ms = period_end - period_start
    let b = opts.bounds
    cpu ←
        numeric_field is_negative real (λ v. exceeds v ms 1_000 b.max_cpu_cores) "cpu_seconds"
          (fields "cpu_seconds")
    ram ←
        numeric_field is_negative real (λ v. exceeds v ms 3_600_000 b.max_ram_gb) "ram_gb_hours"
          (fields "ram_gb_hours")
    disk ←
        numeric_field is_negative real (λ v. exceeds v ms 3_600_000 b.max_disk_gb) "disk_gb_hours"
          (fields "disk_gb_hours")
    net_in ← numeric_field is_negative whole (λ v. false) "net_bytes_in" (fields "net_bytes_in")
    net_out ← numeric_field is_negative whole (λ v. false) "net_bytes_out" (fields "net_bytes_out")
    gpu ←
        numeric_field is_negative real (λ v. exceeds v ms 1_000 b.max_gpu_count) "gpu_seconds"
          (fields "gpu_seconds")
    pubkey ← hex_field 64 "worker_pubkey" (fields "worker_pubkey")
    signature ← hex_field 128 "worker_signature" (fields "worker_signature")
    verify_body
        record {
          worker_id = worker_id;
          tenant_id = tenant_id;
          period_start = period_start;
          period_end = period_end;
          cpu_seconds = cpu;
          ram_gb_hours = ram;
          disk_gb_hours = disk;
          net_bytes_in = net_in;
          net_bytes_out = net_out;
          gpu_seconds = gpu;
          worker_pubkey = pubkey;
        }
        signature
