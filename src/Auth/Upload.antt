-- ===== src/Auth/Upload.antt =====
-- Upload signatures (src/upload-auth.ts). `sha256_hex` is the platform's SHA-256 of a body in hex,
-- and `sr25519_verify` the verifier of @polkadot/util-crypto; `none` where it throws.
pub mod Laws
pub mod Once
use materios_gateway.Prelude.{
  ℕ, zero, suc, ◌+◌, ◌-◌, ◌*◌, ◌/◌, ◌%◌, String, Text, str_eq, codes, lower, Bool, true, false, not,
  ◌&&◌, ◌||◌, Option, none, some, List, [], ◌∷◌, ◌++◌, map, any, length, leb, ltb, ◌==◌, is_some,
  if◌then◌else◌,
}
use materios_gateway.Merkle.{Buffer, every, is_hex_char, from_hex}
use materios_gateway.Quota.Tables.{UsedSig}
use materios_gateway.Quota.Signatures.{claim_upload_signatures}
use materios_gateway.Auth.Account.{decode_account_id}

pub record UploadConfig : Type 0 where
  pub batch_writer_addresses : List String
  pub upload_sig_max_age_sec : ℕ
  -- `PROCESS_START_SEC`
  pub process_start_sec : ℕ

-- The headers that are texts, and what the v2 message binds.
pub record UploadRequest : Type 0 where
  pub x_upload_sig_v2 : Option Text
  pub x_upload_sig : Option Text
  pub x_uploader_address : Option String
  pub x_upload_ts : Option Text
  pub method : Text
  pub original_url : Text
  pub raw_body : Buffer

pub data UploadError : Type 0 where
  missing_headers batch_writer_needs_v2 timestamp_rejected predates_start : UploadError
  undecodable_address verifier_threw : UploadError
  malformed_signature invalid_signature : ℕ → UploadError

pub record UploadSig : Type 0 where
  pub address : String
  pub version : ℕ
  pub ts : ℕ
  pub signatures : List Text

pub data UploadAuthResult : Type 0 where
  valid : UploadSig → UploadAuthResult
  invalid : UploadError → UploadAuthResult

unfoldable pub has_upload_signature : UploadRequest → Bool
has_upload_signature req = is_some req.x_upload_sig_v2 || is_some req.x_upload_sig

-- A header that is there and not empty.
abbrev pub given : Option Text → Option Text
given none = none
given (some []) = none
given (some (c ∷ cs)) = some (c ∷ cs)

abbrev pub given_address : Option String → Option String
given_address none = none
given_address (some a) = if str_eq a "" then none else some a

abbrev pub is_digit : ℕ → Bool
is_digit c = leb b'0' c && leb c b'9'

abbrev pub number_of_digits : ℕ → Text → ℕ
number_of_digits n [] = n
number_of_digits n (c ∷ cs) = number_of_digits (n * 10 + (c - b'0')) cs

-- `/^\d+$/.test(s) ? Number(s) : NaN`
abbrev pub parse_ts : Text → Option ℕ
parse_ts [] = none
parse_ts (c ∷ cs) = if every is_digit (c ∷ cs) then some (number_of_digits 0 (c ∷ cs)) else none

-- `Math.abs(a - b)`
abbrev pub distance : ℕ → ℕ → ℕ
distance a b = (a - b) + (b - a)

-- A number in decimal, as a template prints it; `fuel` is more than the number.
abbrev pub decimal_from : ℕ → ℕ → Text → Text
decimal_from zero n out = out
decimal_from (suc fuel) n out =
    let digit = b'0' + n % 10 in
    let rest = decimal_from fuel (n / 10) (digit ∷ out) in if ltb n 10 then digit ∷ out else rest

unfoldable pub decimal : ℕ → Text
decimal n = decimal_from (suc n) n []

-- `.join("|")`
abbrev pub join : List Text → Text
join [] = []
join (t ∷ []) = t
join (t ∷ (u ∷ us)) = t ++ (b'|' ∷ join (u ∷ us))

-- `originalUrl.split("?")[0]`
abbrev pub path_of : Text → Text
path_of [] = []
path_of (c ∷ cs) = if c == b'?' then [] else c ∷ path_of cs

unfoldable pub upload_sig_v2_message : Text → Text → Text → Text → Text → ℕ → Text
upload_sig_v2_message method path body_sha256 id address ts =
    join (codes "materios-upload-v2" ∷ method ∷ path ∷ body_sha256 ∷ id ∷ address ∷ decimal ts ∷ [])

unfoldable pub upload_sig_v1_message : Text → Text → ℕ → Text
upload_sig_v1_message id address ts =
    join (codes "materios-upload-v1" ∷ id ∷ address ∷ decimal ts ∷ [])

-- `sig.replace(/^0x/, "")`
abbrev pub strip_0x : Text → Text
strip_0x (c ∷ (d ∷ cs)) = if c == b'0' && d == b'x' then cs else c ∷ (d ∷ cs)
strip_0x s = s

unfoldable pub signature_key : Text → Text
signature_key sig = map lower (strip_0x sig)

-- `/^(0x)?[0-9a-fA-F]{128}$/`
unfoldable pub sig_hex : Text → Bool
sig_hex sig = every is_hex_char (strip_0x sig) && length (strip_0x sig) == 128

-- The 64 bytes of a signature.
abbrev pub sig_bytes : Text → Buffer
sig_bytes sig = from_hex (strip_0x sig)

-- A signature that the request carries: the version of its header, and the message that it signs.
pub record Carried : Type 0 where
  pub header : ℕ
  pub sig : Text
  pub message : Text

abbrev pub carry : ℕ → Option Text → Text → List Carried
carry header none message = []
carry header (some s) message = record { header = header; sig = s; message = message } ∷ []

-- Record every signature of a verified request as used.
unfoldable pub spend_upload_sig : UploadConfig → UploadSig → ℕ → List UsedSig → Bool × List UsedSig
spend_upload_sig cfg sig now used =
    if ltb cfg.upload_sig_max_age_sec (distance now sig.ts)
    then (false, used)
    else claim_upload_signatures sig.signatures (sig.ts + cfg.upload_sig_max_age_sec) now used

abbrev pub includes_address : List String → String → Bool
includes_address addresses a = any (str_eq a) addresses

-- The loop over the signatures: the first error, or none.
unfoldable pub check_carried :
    (Text → Buffer → Buffer → Option Bool) → Buffer → List Carried → Option UploadError
check_carried sr25519_verify public_key [] = none
check_carried sr25519_verify public_key (c ∷ cs) =
    if not (sig_hex c.sig)
    then some (malformed_signature c.header)
    else elim (sr25519_verify c.message (sig_bytes c.sig) public_key) [
      | none ↦ some verifier_threw
      | some false ↦ some (invalid_signature c.header)
      | some true ↦ check_carried sr25519_verify public_key cs
    ]

-- The signatures of a request, v2 first.
unfoldable pub carried : (Buffer → Text) → UploadRequest → Text → String → ℕ → List Carried
carried sha256_hex req id address ts =
    carry 2 (given req.x_upload_sig_v2) (
      upload_sig_v2_message req.method (path_of req.original_url) (sha256_hex req.raw_body) id
        (codes address) ts)
    ++ carry 1 (given req.x_upload_sig) (upload_sig_v1_message id (codes address) ts)

module _ (sha256_hex : Buffer → Text) (decode_address : String → Option Buffer)
    (sr25519_verify : Text → Buffer → Buffer → Option Bool) where
  abbrev pub verify_at : UploadConfig → UploadRequest → Text → ℕ → String → ℕ → UploadAuthResult
  verify_at cfg req id now address ts =
      if ltb cfg.upload_sig_max_age_sec (distance now ts)
      then invalid timestamp_rejected
      else if ltb ts cfg.process_start_sec
      then invalid predates_start
      else elim (decode_account_id decode_address address) [
        | none ↦ invalid undecodable_address
        | some public_key ↦
            elim (check_carried sr25519_verify public_key (carried sha256_hex req id address ts)) [
              | some e ↦ invalid e
              | none ↦ valid (record {
                address = address;
                version = if is_some (given req.x_upload_sig_v2) then 2 else 1;
                ts = ts;
                signatures = map (λ c. signature_key c.sig) (carried sha256_hex req id address ts);
              })
            ]
      ]

  abbrev pub verify_headers :
      UploadConfig → UploadRequest → Text → ℕ → Option String → Option Text → UploadAuthResult
  verify_headers cfg req id now none ts = invalid missing_headers
  verify_headers cfg req id now (some address) none = invalid missing_headers
  verify_headers cfg req id now (some address) (some ts_text) =
      if not (is_some (given req.x_upload_sig_v2)) && not (is_some (given req.x_upload_sig))
      then invalid missing_headers
      else if not (is_some (given req.x_upload_sig_v2))
          && includes_address cfg.batch_writer_addresses address
      then invalid batch_writer_needs_v2
      else elim (parse_ts ts_text) [
        | none ↦ invalid timestamp_rejected
        | some ts ↦ verify_at cfg req id now address ts
      ]

  -- Verifies the signatures in the headers of a request, at `now` (seconds). Records nothing.
  unfoldable pub verify_upload_sig : UploadConfig → UploadRequest → Text → ℕ → UploadAuthResult
  verify_upload_sig cfg req id now =
      verify_headers cfg req id now (given_address req.x_uploader_address) (given req.x_upload_ts)
