-- ===== src/Validator/Tests.antt =====
-- A record that passes and records that do not, and the theorems at such records. The stand-ins for
-- the platform are one fraction, exact caps, a hash that is one text and a verifier of every signature.
use materios_gateway.Prelude.{
  ℕ, zero, suc, ◌*◌, ◌^◌, ◌≡◌, ◌≢◌, ◌≤◌, ◌⊎◌, refl, String, str_eq, Text, codes, Bool, true, false,
  Option, none, some, [], ◌++◌, ltb, arith, if◌then◌else◌,
}
use materios_gateway.Merkle.{Buffer}
use materios_gateway.Metering.Workers.{default_bounds}
use materios_gateway.Cbor.{
  Number, pos, negsuc, integer, fraction, infinite, encode_uint, encode_text, encode_entries,
  encode_map,
}
use materios_gateway.Validator.Checks.{
  Check, pass, fail, thrown, ◌>>=◌, Code, guard, Json, string, numeric, root, text_field,
  schema_field, id_field, hex_field, period_start_field, period_end_field, whole_number,
  real_number, number_of, numeric_field,
}
use materios_gateway.Validator.{
  Validated, ValidateOptions, canonical_body, verify_body, validate_compute_metering,
}
use materios_gateway.Validator.Sound.{IsAdmitted, IsSigned, validate_compute_metering_sound}
use materios_gateway.Validator.Total.{validate_compute_metering_total}
use materios_gateway.Validator.Binding.{content_hash-binding}

abbrev Half : Type 0
Half = Unit {0}

abbrev half_bits : Half → ℕ
half_bits f = 0x3FE0000000000000

abbrev of_bits : ℕ → Half
of_bits n = tt

abbrev above_zero : Half → Bool
above_zero f = false

abbrev over : Number Half → ℕ → ℕ → ℕ → Bool
over (integer (pos n)) ms unit bound = ltb (ms * bound) (n * unit)
over (integer (negsuc n)) ms unit bound = false
over (fraction f) ms unit bound = false
over infinite ms unit bound = true

abbrev one_hash : Buffer → Text
one_hash b = codes "h"

abbrev accepts_all : Buffer → Text → Text → Option Bool
accepts_all b s k = some true

abbrev repeat : ℕ → Text → Text
repeat zero t = []
repeat (suc n) t = t ++ repeat n t

abbrev whole_json : ℕ → Option (Json Half)
whole_json n = some (numeric (integer (pos n)))

abbrev given : String → Option (Json Half)
given k =
    if str_eq k "schema_version"
    then some (string (codes "compute_metering_v1"))
    else if str_eq k "worker_id"
    then some (string (codes "worker-1"))
    else if str_eq k "tenant_id"
    then some (string (codes "tenant-1"))
    else if str_eq k "period_start"
    then whole_json 1_000_000
    else if str_eq k "period_end"
    then whole_json 4_600_000
    else if str_eq k "cpu_seconds"
    then some (numeric (fraction tt))
    else if str_eq k "worker_pubkey"
    then some (string (repeat 32 (codes "ab")))
    else if str_eq k "worker_signature"
    then some (string (repeat 64 (codes "cd")))
    else whole_json 7

abbrev opts : ValidateOptions
opts = record { bounds = default_bounds; last_period_start = 900_000; now_ms = 4_600_000 }

abbrev check : Option (String → Option (Json Half)) → ValidateOptions → Check (Validated Half)
check = validate_compute_metering half_bits above_zero over one_hash accepts_all

abbrev body_of : Check (Validated Half) → Buffer
body_of (pass v) = v.canonical_body
body_of (fail c k) = []
body_of thrown = []

abbrev expected : Buffer → Validated Half
expected body = record {
  metering = record {
    body = record {
      worker_id = codes "worker-1";
      tenant_id = codes "tenant-1";
      period_start = 1_000_000;
      period_end = 4_600_000;
      cpu_seconds = fraction tt;
      ram_gb_hours = integer (pos 7);
      disk_gb_hours = integer (pos 7);
      net_bytes_in = integer (pos 7);
      net_bytes_out = integer (pos 7);
      gpu_seconds = integer (pos 7);
      worker_pubkey = repeat 32 (codes "ab");
    };
    worker_signature = repeat 64 (codes "cd");
  };
  content_hash = codes "h";
  schema_hash = codes "h";
  canonical_body = body;
}

abbrev accepted : Validated Half
accepted = expected (body_of (check (some given) opts))

given_passes : check (some given) opts ≡ pass accepted
unfolding validate_compute_metering ◌>>=◌ guard root text_field schema_field id_field hex_field
    period_start_field period_end_field whole_number real_number number_of numeric_field verify_body
    canonical_body encode_map encode_entries encode_text encode_uint
given_passes = refl

array_fails : check none opts ≡ fail Code.wrong_type none
unfolding validate_compute_metering ◌>>=◌ root
array_fails = refl

early_fails :
    check (some given) (record opts { last_period_start = 1_000_001 })
    ≡ fail Code.not_monotonic (some "period_start")
unfolding validate_compute_metering ◌>>=◌ guard root text_field schema_field id_field
    period_start_field period_end_field
early_fails = refl

-- A whole number above 2 ^ 53 - 1 under a cap that admits it.
huge_thrown :
    check
      (some (λ k. if str_eq k "gpu_seconds" then whole_json (2 ^ 53) else given k))
      (record opts { bounds = record default_bounds { max_gpu_count = 2 ^ 53 } })
    ≡ thrown
unfolding validate_compute_metering ◌>>=◌ guard root text_field schema_field id_field hex_field
    period_start_field period_end_field whole_number real_number number_of numeric_field verify_body
    canonical_body encode_map encode_entries encode_text encode_uint
huge_thrown = refl

validate_compute_metering_sound_example :
    (fields : String → Option (Json Half)) × (some given ≡ some fields)
    × IsAdmitted half_bits above_zero over one_hash accepts_all opts fields accepted.metering.body
    × IsSigned half_bits above_zero over one_hash accepts_all fields accepted
validate_compute_metering_sound_example =
    validate_compute_metering_sound half_bits above_zero over one_hash accepts_all opts (some given)
      accepted given_passes

over_caps :
    (n ms unit bound : ℕ)
    → 1_000 ≤ unit
    → over (integer (pos n)) ms unit bound ≡ false
    → n ≤ ms * bound
over_caps n ms unit bound h e = grind arith

validate_compute_metering_total_example : check (some given) opts ≢ thrown
validate_compute_metering_total_example =
    validate_compute_metering_total half_bits above_zero over one_hash accepts_all over_caps
      (some given) opts (omega arith) (omega arith)

content_hash-binding_example :
    (accepted.metering.body ≡ accepted.metering.body)
    ⊎ ((a : Buffer) × (b : Buffer) × (a ≢ b) × (one_hash a ≡ one_hash b))
content_hash-binding_example =
    content_hash-binding half_bits of_bits above_zero over one_hash accepts_all (λ f. omega arith)
      (λ f. refl) (some given) (some given) opts opts accepted accepted given_passes given_passes
      refl
