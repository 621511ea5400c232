-- ===== src/Validator/Total.antt =====
-- When the validator throws no error (src/schemas/compute_metering_v1.ts).
use materios_gateway.Prelude.{
  ℕ, ◌+◌, ◌-◌, ◌*◌, ◌≤◌, ◌≡◌, ◌≢◌, refl, String, Text, codes, Bool, true, false, Option, none, some,
  List, [], ◌∷◌, ◌++◌, All, length, and-true, arith, Option-cases, inl, inr,
}
use materios_gateway.Merkle.{Buffer, every}
use materios_gateway.Metering.Workers.{WorkerBounds}
use materios_gateway.Cbor.{
  Number, integer, fraction, infinite, pos, negsuc, EntryValue, number, is_ascii, js_safe_int, utf8,
  encode_uint, encode_text, encode_value, encode_entries, encode_map,
}
use materios_gateway.Cbor.Laws.{utf8_ascii}
use materios_gateway.Billing.Classify.{is_lower_hex}
use materios_gateway.Validator.Checks.{
  Json, thrown, is_id, is_id_char, is_hex, max_period_ms, future_skew_ms,
}
use materios_gateway.Validator.Ensures.{Ensures-ne_thrown, IsWhole, IsReal}
use materios_gateway.Validator.{
  MeteringBody, ValidateOptions, entries, canonical_body, validate_compute_metering,
}
use materios_gateway.Validator.Sound.{IsAdmitted, validate-Ensures}

uint_ne_none : (major n : ℕ) → n ≤ js_safe_int → encode_uint major n ≢ none
unfolding encode_uint
uint_ne_none major n h = λ e. ground arith

encode_uint_total :
    (major n : ℕ) → n ≤ js_safe_int → (bs : Buffer) × (encode_uint major n ≡ some bs)
encode_uint_total major n h = elim (Option-cases (encode_uint major n)) [
  | inl missing ↦ absurd (uint_ne_none major n h missing)
  | inr found ↦ found
]

encode_text_total :
    (t : Text) → length (utf8 t) ≤ js_safe_int → (bs : Buffer) × (encode_text t ≡ some bs)
unfolding encode_text
encode_text_total t h =
    let (head, found) = encode_uint_total 3 (length (utf8 t)) h in (head ++ utf8 t, rw found refl)

-- The characters of an id, and of hex.
every-weaken :
    (p q : ℕ → Bool) (t : Text)
    → ((c : ℕ) → p c ≡ true → q c ≡ true)
    → every p t ≡ true
    → every q t ≡ true
every-weaken p q [] w h = refl
every-weaken p q (c ∷ cs) w h =
    let head = w c (and-true _ _ h).0 in
    let tail = every-weaken p q cs w (and-true _ _ h).1 in ground arith

pub id-ascii : (t : Text) → is_id t ≡ true → every is_ascii t ≡ true
id-ascii t h = every-weaken is_id_char is_ascii t (λ c e. ground arith) (and-true _ _ h).0

pub hex-ascii : (n : ℕ) (t : Text) → is_hex n t ≡ true → every is_ascii t ≡ true
hex-ascii n t h = every-weaken is_lower_hex is_ascii t (λ c e. ground arith) (and-true _ _ h).1

id_text_total : (t : Text) → is_id t ≡ true → (bs : Buffer) × (encode_text t ≡ some bs)
id_text_total t h =
    let plain = utf8_ascii t (id-ascii t h) in encode_text_total t (rw plain (ground arith))

hex_text_total : (t : Text) → is_hex 64 t ≡ true → (bs : Buffer) × (encode_text t ≡ some bs)
hex_text_total t h =
    let plain = utf8_ascii t (hex-ascii 64 t h) in encode_text_total t (rw plain (ground arith))

module _ {F : Type 0} (bits : F → ℕ) where
  abbrev Encodes : Text × EntryValue F → Type 0
  Encodes (k, v) =
      ((bs : Buffer) × (encode_text k ≡ some bs))
      × ((bs : Buffer) × (encode_value bits v ≡ some bs))

  encode_entries_total :
      (es : List (Text × EntryValue F))
      → All Encodes es
      → (enc : List (Buffer × Buffer)) × (encode_entries bits es ≡ some enc)
        × (length enc ≡ length es)
  unfolding encode_entries
  encode_entries_total [] h = ([], refl, refl)
  encode_entries_total ((k, v) ∷ es) ((a, b), h) =
      let (rest, found, same) = encode_entries_total es h in
      ((a.0, b.0) ∷ rest, rw (a.1, b.1) (rw found refl), rw same refl)

  encode_map_total :
      (es : List (Text × EntryValue F))
      → All Encodes es
      → length es ≤ js_safe_int
      → encode_map bits es ≢ none
  unfolding encode_map
  encode_map_total es h small =
      let (enc, found, same) = encode_entries_total es h in
      let (head, headed) = encode_uint_total 5 (length enc) (rw same small) in
      rw (found, headed) (λ e. cc)

  real_total :
      (is_negative : F → Bool) (v : Number F) (cap : ℕ)
      → IsReal is_negative v
      → ((n : ℕ) → v ≡ integer (pos n) → n ≤ cap)
      → cap ≤ js_safe_int
      → (bs : Buffer) × (encode_value bits (number v) ≡ some bs)
  real_total is_negative (integer (pos n)) cap h within small =
      encode_uint_total 0 n (omega (arith, within n refl))
  real_total is_negative (integer (negsuc n)) cap h within small = absurd h
  real_total is_negative (fraction f) cap h within small = (_, refl)
  real_total is_negative infinite cap h within small = absurd h

  whole_total :
      (v : Number F) → IsWhole v → (bs : Buffer) × (encode_value bits (number v) ≡ some bs)
  whole_total (integer (pos n)) h = encode_uint_total 0 n h
  whole_total (integer (negsuc n)) h = absurd h
  whole_total (fraction f) h = absurd h
  whole_total infinite h = absurd h

module _ {F : Type 0} (bits : F → ℕ) (is_negative : F → Bool)
    (exceeds : Number F → ℕ → ℕ → ℕ → Bool) (sha256_hex : Buffer → Text)
    (signature_verify : Buffer → Text → Text → Option Bool)
    (caps : (n ms unit bound : ℕ)
      → 1_000 ≤ unit
      → exceeds (integer (pos n)) ms unit bound ≡ false
      → n ≤ ms * bound) where
  -- The largest bound of which a day's milliseconds have no more than 2 ^ 53 - 1.
  abbrev pub safe_bound : ℕ
  safe_bound = 104_249_991

  abbrev pub IsModest : WorkerBounds → Type 0
  IsModest b =
      (b.max_cpu_cores ≤ safe_bound)
      × (b.max_ram_gb ≤ safe_bound)
      × (b.max_disk_gb ≤ safe_bound)
      × (b.max_gpu_count ≤ safe_bound)

  capped :
      (v : Number F) (ms unit bound : ℕ)
      → 1_000 ≤ unit
      → IsReal is_negative v
      → exceeds v ms unit bound ≡ false
      → ms ≤ max_period_ms
      → bound ≤ safe_bound
      → (bs : Buffer) × (encode_value bits (number v) ≡ some bs)
  capped v ms unit bound fine h e short modest =
      real_total bits is_negative v (ms * bound) h
        (λ n same. caps n ms unit bound fine (rw (← same) e)) (grind arith)

  key : (k : Text) → length (utf8 k) ≤ 23 → (bs : Buffer) × (encode_text k ≡ some bs)
  key k h = encode_text_total k (omega (arith, h))

  canonical_body_total :
      (opts : ValidateOptions) (fields : String → Option (Json F)) (r : MeteringBody F)
      → IsModest opts.bounds
      → opts.now_ms + future_skew_ms ≤ js_safe_int
      → IsAdmitted bits is_negative exceeds sha256_hex signature_verify opts fields r
      → canonical_body bits is_negative exceeds sha256_hex signature_verify r ≢ none
  unfolding canonical_body
  canonical_body_total opts fields r (cores, rams, disks, gpus) clock a =
      let ms = r.period_end - r.period_start in
      let short : ms ≤ max_period_ms = omega (arith, a.short) in
      encode_map_total bits (entries r)
        (
          (
            key (codes "schema_version") (omega arith),
            key (codes "compute_metering_v1") (omega arith),
          ),
          (
            (key (codes "worker_id") (omega arith), id_text_total r.worker_id a.worker.1),
            (
              (key (codes "tenant_id") (omega arith), id_text_total r.tenant_id a.tenant.1),
              (
                (
                  key (codes "period_start") (omega arith),
                  encode_uint_total 0 r.period_start (omega (arith, a.forward, a.not_ahead)),
                ),
                (
                  (
                    key (codes "period_end") (omega arith),
                    encode_uint_total 0 r.period_end (omega (arith, a.not_ahead)),
                  ),
                  (
                    (
                      key (codes "cpu_seconds") (omega arith),
                      capped r.cpu_seconds ms 1_000 _ (omega arith) a.cpu.1 a.cpu.2 short cores,
                    ),
                    (
                      (
                        key (codes "ram_gb_hours") (omega arith),
                        capped r.ram_gb_hours ms 3_600_000 _ (omega arith) a.ram.1 a.ram.2 short
                            rams,
                      ),
                      (
                        (
                          key (codes "disk_gb_hours") (omega arith),
                          capped r.disk_gb_hours ms 3_600_000 _ (omega arith) a.disk.1 a.disk.2
                              short disks,
                        ),
                        (
                          (
                            key (codes "net_bytes_in") (omega arith),
                            whole_total bits r.net_bytes_in a.net_in.1,
                          ),
                          (
                            (
                              key (codes "net_bytes_out") (omega arith),
                              whole_total bits r.net_bytes_out a.net_out.1,
                            ),
                            (
                              (
                                key (codes "gpu_seconds") (omega arith),
                                capped r.gpu_seconds ms 1_000 _ (omega arith) a.gpu.1 a.gpu.2 short
                                    gpus,
                              ),
                              (
                                (
                                  key (codes "worker_pubkey") (omega arith),
                                  hex_text_total r.worker_pubkey a.pubkey.1,
                                ),
                                tt,
                              ),
                            ),
                          ),
                        ),
                      ),
                    ),
                  ),
                ),
              ),
            ),
          ),
        )
        (omega arith)

  -- No input makes the validator throw, if no registered bound is above 104249991 and the clock's
  -- reading is a safe integer with a minute to spare; if a whole number within a cap is at most the
  -- cap's milliseconds times its bound, where these are divided by at least a thousand.
  pub validate_compute_metering_total :
      (raw : Option (String → Option (Json F))) (opts : ValidateOptions)
      → IsModest opts.bounds
      → opts.now_ms + future_skew_ms ≤ js_safe_int
      → validate_compute_metering bits is_negative exceeds sha256_hex signature_verify raw opts
        ≢ thrown
  validate_compute_metering_total raw opts modest clock =
      Ensures-ne_thrown
        (validate-Ensures bits is_negative exceeds sha256_hex signature_verify {T = ⊥} opts raw
          (λ fields r a e. canonical_body_total opts fields r modest clock a e))
        (λ h. h)
