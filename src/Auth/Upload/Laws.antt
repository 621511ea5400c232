-- ===== src/Auth/Upload/Laws.antt =====
-- Laws of `verifyUploadSig` and of the reuse key (src/upload-auth.ts).
use mathlib.Core.Path.{subst}
use materios_gateway.Prelude.{
  ℕ, ◌≤◌, ◌<◌, ◌≡◌, ◌≢◌, ◌↔◌, ◌⊎◌, refl, sym, ap, ◌∙◌, String, Text, Bool, true, false, not, ◌&&◌,
  ◌||◌, Option, none, some, List, [], ◌∷◌, arith, map, length, ltb, ◌==◌, ==_iff, is_some, and-true,
  if◌then◌else◌, All, Bool-cases, Option-cases, inl, inr,
}
use materios_gateway.Merkle.{Buffer, every, is_hex_char, from_hex, to_hex}
use materios_gateway.Merkle.Hex.{from_hex-to_hex, hex_value-lt, lower-to_hex}
use materios_gateway.Auth.Account.{decode_account_id}
use materios_gateway.Auth.Upload.{
  UploadConfig, UploadRequest, UploadSig, valid, given, given_address, parse_ts, distance, strip_0x,
  signature_key, sig_hex, sig_bytes, Carried, check_carried, carried, verify_at, verify_headers,
  verify_upload_sig, includes_address,
}

sig-parts :
    (s : Text)
    → sig_hex s ≡ true
    → (every is_hex_char (strip_0x s) ≡ true) × (length (strip_0x s) ≡ 128)
unfolding sig_hex
sig-parts s h = let (hex, len) = and-true _ _ h in (hex, (==_iff _ 128).0 len)

key-to_hex : (s : Text) → sig_hex s ≡ true → signature_key s ≡ to_hex (sig_bytes s)
key-to_hex s h =
    let (hex, len) = sig-parts s h in
    unfold signature_key in lower-to_hex (strip_0x s) hex (omega arith)

to_hex-of-from_hex : (s : Text) → All (λ b. b < 256) (from_hex s)
to_hex-of-from_hex [] = tt
to_hex-of-from_hex (c ∷ []) = tt
to_hex-of-from_hex (h ∷ (l ∷ cs)) =
    (omega (arith, hex_value-lt h, hex_value-lt l), to_hex-of-from_hex cs)

-- Two well-formed spellings of a signature have the same reuse key exactly when they are the same
-- 64 bytes: neither a prefix nor the case of the digits makes a used signature new.
pub signature_key_iff :
    (s t : Text)
    → sig_hex s ≡ true
    → sig_hex t ≡ true
    → (signature_key s ≡ signature_key t) ↔ (sig_bytes s ≡ sig_bytes t)
signature_key_iff s t hs ht = (
  (λ e.
      sym (from_hex-to_hex (sig_bytes s) (to_hex-of-from_hex (strip_0x s)))
      ∙ (ap from_hex (sym (key-to_hex s hs) ∙ (e ∙ key-to_hex t ht))
          ∙ from_hex-to_hex (sig_bytes t) (to_hex-of-from_hex (strip_0x t)))),
  (λ e. key-to_hex s hs ∙ (ap to_hex e ∙ sym (key-to_hex t ht))),
)

module _ (sr25519_verify : Text → Buffer → Buffer → Option Bool) where
  -- The signature is 64 bytes of hex and verifies for its message under the key.
  abbrev pub Verifies : Buffer → Carried → Type 0
  Verifies key c =
      (sig_hex c.sig ≡ true) × (sr25519_verify c.message (sig_bytes c.sig) key ≡ some true)

  check_carried_sound :
      (key : Buffer) (cs : List Carried)
      → check_carried sr25519_verify key cs ≡ none
      → All (Verifies key) cs
  unfolding check_carried
  check_carried_sound key [] h = tt
  check_carried_sound key (c ∷ cs) h = elim (Bool-cases (sig_hex c.sig)) [
    | inr malformed ↦ absurd (ground arith)
    | inl hex ↦ elim (verdict (sr25519_verify c.message (sig_bytes c.sig) key)) [
      | inl good ↦ ((hex, good), check_carried_sound key cs (ground arith))
      | inr bad ↦ elim bad [ inl wrong ↦ absurd (ground arith) | inr threw ↦ absurd (ground arith) ]
    ]
  ]
    where
      verdict : (o : Option Bool) → (o ≡ some true) ⊎ ((o ≡ some false) ⊎ (o ≡ none))
      verdict none = inr (inr refl)
      verdict (some true) = inl refl
      verdict (some false) = inr (inl refl)

module _ (sha256_hex : Buffer → Text) (decode_address : String → Option Buffer)
    (sr25519_verify : Text → Buffer → Buffer → Option Bool) where
  -- What stands behind a verified request.
  pub record IsVerified (cfg : UploadConfig) (req : UploadRequest) (id : Text) (now : ℕ)
      (sig : UploadSig) : Type 0 where
    pub address : given_address req.x_uploader_address ≡ some sig.address
    pub fresh : distance now sig.ts ≤ cfg.upload_sig_max_age_sec
    pub since_start : cfg.process_start_sec ≤ sig.ts
    pub key : Buffer
    pub decoded : decode_account_id decode_address sig.address ≡ some key
    pub verified : All (Verifies sr25519_verify key) (carried sha256_hex req id sig.address sig.ts)
    pub one : carried sha256_hex req id sig.address sig.ts ≢ []
    pub keys :
        sig.signatures
        ≡ map (λ c. signature_key c.sig) (carried sha256_hex req id sig.address sig.ts)
    pub version : sig.version ≡ (if is_some (given req.x_upload_sig_v2) then 2 else 1)
    pub batch :
        (not (includes_address cfg.batch_writer_addresses sig.address) || sig.version == 2) ≡ true

  carried-ne-nil :
      (req : UploadRequest) (id : Text) (address : String) (ts : ℕ)
      → (not (is_some (given req.x_upload_sig_v2)) && not (is_some (given req.x_upload_sig)))
        ≡ false
      → carried sha256_hex req id address ts ≢ []
  unfolding carried
  carried-ne-nil req id address ts h = elim (Option-cases (given req.x_upload_sig_v2)) [
    | inr (v2, some_v2) ↦ ground arith
    | inl no_v2 ↦ elim (Option-cases (given req.x_upload_sig)) [
      | inr (v1, some_v1) ↦ ground arith
      | inl no_v1 ↦ absurd (ground arith)
    ]
  ]

  verify_at_sound :
      (cfg : UploadConfig) (req : UploadRequest) (id : Text) (now : ℕ) (address : String) (ts : ℕ)
      (sig : UploadSig)
      → given_address req.x_uploader_address ≡ some address
      → (not (is_some (given req.x_upload_sig_v2)) && not (is_some (given req.x_upload_sig)))
        ≡ false
      → (not (is_some (given req.x_upload_sig_v2))
          && includes_address cfg.batch_writer_addresses address)
        ≡ false
      → verify_at sha256_hex decode_address sr25519_verify cfg req id now address ts ≡ valid sig
      → IsVerified cfg req id now sig
  verify_at_sound cfg req id now address ts sig given_a some_sig batch e =
      elim (Bool-cases (ltb cfg.upload_sig_max_age_sec (distance now ts))) [
        | inl stale ↦ absurd (ground arith)
        | inr fresh ↦ elim (Bool-cases (ltb ts cfg.process_start_sec)) [
          | inl old ↦ absurd (ground arith)
          | inr since ↦ elim (Option-cases (decode_account_id decode_address address)) [
            | inl undecodable ↦ absurd (ground arith)
            | inr (key, decoded) ↦
                elim (Option-cases
                  (check_carried sr25519_verify key (carried sha256_hex req id address ts))) [
                    | inr (error, failed) ↦ absurd (ground arith)
                    | inl passed ↦
                        let made : UploadSig = record {
                          address = address;
                          version = if is_some (given req.x_upload_sig_v2) then 2 else 1;
                          ts = ts;
                          signatures =
                              map (λ c. signature_key c.sig) (carried sha256_hex req id address ts);
                        } in
                        let same : made ≡ sig = ground arith in
                        subst (IsVerified cfg req id now) same (record {
                          address = given_a;
                          fresh = ground arith;
                          since_start = ground arith;
                          key = key;
                          decoded = decoded;
                          verified = check_carried_sound sr25519_verify key _ passed;
                          one = carried-ne-nil req id address ts some_sig;
                          keys = refl;
                          version = refl;
                          batch = ground arith;
                        })
                  ]
          ]
        ]
      ]

  -- A request is let through only where its address decodes to a key under which every signature
  -- that it carries (there is one) verifies for the message that binds it, its timestamp is within
  -- the window and not before the start of the process, and a batch writer has signed with v2; the
  -- reuse keys are those of all the signatures, and the version is that of the best header.
  pub verify_upload_sig_sound :
      (cfg : UploadConfig) (req : UploadRequest) (id : Text) (now : ℕ) (sig : UploadSig)
      → verify_upload_sig sha256_hex decode_address sr25519_verify cfg req id now ≡ valid sig
      → IsVerified cfg req id now sig
  unfolding verify_upload_sig
  verify_upload_sig_sound cfg req id now sig e =
      elim (Option-cases (given_address req.x_uploader_address)) [
        | inl no_address ↦ absurd (ground arith)
        | inr (address, given_a) ↦ elim (Option-cases (given req.x_upload_ts)) [
          | inl no_ts ↦ absurd (ground arith)
          | inr (ts_text, given_ts) ↦
              with_headers address ts_text given_a (rw (given_a, given_ts) at e)
        ]
      ]
    where
      with_headers :
          (address : String) (ts_text : Text)
          → given_address req.x_uploader_address ≡ some address
          → verify_headers sha256_hex decode_address sr25519_verify cfg req id now
              (some address)
              (some ts_text)
            ≡ valid sig
          → IsVerified cfg req id now sig
      with_headers address ts_text given_a e =
          elim (Bool-cases
            (not (is_some (given req.x_upload_sig_v2)) && not (is_some (given req.x_upload_sig)))) [
              | inl no_sig ↦ absurd (ground arith)
              | inr some_sig ↦
                  elim (Bool-cases (
                    not (is_some (given req.x_upload_sig_v2))
                    && includes_address cfg.batch_writer_addresses address)) [
                      | inl writer ↦ absurd (ground arith)
                      | inr batch ↦ elim (Option-cases (parse_ts ts_text)) [
                        | inl unread ↦ absurd (ground arith)
                        | inr (ts, read) ↦
                            verify_at_sound cfg req id now address ts sig given_a some_sig batch
                              (rw (some_sig, batch, read) at e)
                      ]
                    ]
            ]
