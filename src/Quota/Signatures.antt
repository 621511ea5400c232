-- ===== src/Quota/Signatures.antt =====
-- The store of used upload signatures in quota.db (src/quota.ts, `claimUploadSignatures`).
pub mod Replay
pub mod Keys
use materios_gateway.Prelude.{
  ℕ, Text, text_eq, Bool, true, false, not, ◌&&◌, List, [], ◌∷◌, ◌++◌, any, ltb, if◌then◌else◌,
}
use materios_gateway.Sql.{delete}
use materios_gateway.Quota.Tables.{UsedSig}

-- `xs.includes(s)`
abbrev pub includes : Text → List Text → Bool
includes s xs = any (text_eq s) xs

-- `[...new Set(sigs)]`: each text once, where it first stands
abbrev pub unique_from : List Text → List Text → List Text
unique_from seen [] = []
unique_from seen (s ∷ ss) =
    let old = unique_from seen ss in
    let new = s ∷ unique_from (s ∷ seen) ss in if includes s seen then old else new

unfoldable pub unique : List Text → List Text
unique sigs = unique_from [] sigs

-- `SELECT 1 FROM used_upload_sigs WHERE sig = ?`
abbrev pub is_used : List UsedSig → Text → Bool
is_used used s = any (λ r. text_eq r.sig s) used

abbrev pub record_all : List Text → ℕ → List UsedSig → List UsedSig
record_all [] expires used = used
record_all (s ∷ ss) expires used =
    record_all ss expires (used ++ record { sig = s; expires_at = expires } ∷ [])

abbrev pub purge : ℕ → List UsedSig → List UsedSig
purge now = delete (λ r. ltb r.expires_at now)

unfoldable pub claim_upload_signatures : List Text → ℕ → ℕ → List UsedSig → Bool × List UsedSig
claim_upload_signatures sigs expires now used =
    let kept = purge now used in
    if any (is_used kept) (unique sigs)
    then (false, kept)
    else (true, record_all (unique sigs) expires kept)
