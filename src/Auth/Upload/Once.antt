-- ===== src/Auth/Upload/Once.antt =====
-- Laws of `spendUploadSig` (src/upload-auth.ts) over the store of used signatures.
use native.Mathlib.Nat.{le_trans}
use materios_gateway.Prelude.{
  ℕ, ◌+◌, ◌≤◌, ◌≡◌, Text, true, false, List, [], ◌∷◌, arith, ltb, All, Bool-cases, inl, inr,
}
use materios_gateway.Quota.Tables.{UsedSig}
use materios_gateway.Quota.Signatures.{claim_upload_signatures, includes}
use materios_gateway.Quota.Signatures.Replay.{Claim, claims, claim_once}
use materios_gateway.Auth.Upload.{UploadConfig, UploadSig, distance, spend_upload_sig}

in_time :
    (t limit : ℕ) (between : List Claim)
    → All (λ c. c.now ≤ t) between
    → t ≤ limit
    → All (λ c. c.now ≤ limit) between
in_time t limit [] h le = tt
in_time t limit (c ∷ cs) (first, rest) le = (le_trans first le, in_time t limit cs rest le)

-- Once a request's signatures are spent, no request that carries one of them for the same timestamp
-- is let through again: at any later time its freshness check fails or the store still has the
-- signature, whatever was claimed in between, as long as the clock did not run ahead of that time.
pub spend_once :
    (cfg : UploadConfig) (sig sig' : UploadSig) (now now' : ℕ) (used : List UsedSig)
    (between : List Claim) (s : Text)
    → (spend_upload_sig cfg sig now used).0 ≡ true
    → All (λ c. c.now ≤ now') between
    → sig'.ts ≡ sig.ts
    → includes s sig.signatures ≡ true
    → includes s sig'.signatures ≡ true
    → (spend_upload_sig cfg sig' now' (claims between (spend_upload_sig cfg sig now used).1)).0
      ≡ false
unfolding spend_upload_sig
spend_once cfg sig sig' now now' used between s spent before same_ts among among' =
    elim (Bool-cases (ltb cfg.upload_sig_max_age_sec (distance now' sig'.ts))) [
      | inl stale ↦ rw stale
      | inr fresh ↦ elim (Bool-cases (ltb cfg.upload_sig_max_age_sec (distance now sig.ts))) [
        | inl was_stale ↦ absurd (ground arith)
        | inr was_fresh ↦
            let le : now' ≤ sig.ts + cfg.upload_sig_max_age_sec = ground arith in
            let done : (claim_upload_signatures sig.signatures (sig.ts + cfg.upload_sig_max_age_sec)
                  now used).0
                ≡ true =
              rw was_fresh at spent in
            rw (fresh, was_fresh)
              (claim_once sig.signatures (sig.ts + cfg.upload_sig_max_age_sec) now used between s
                sig'.signatures (sig'.ts + cfg.upload_sig_max_age_sec) now' done
                (in_time now' (sig.ts + cfg.upload_sig_max_age_sec) between before le) le among
                among')
      ]
    ]
