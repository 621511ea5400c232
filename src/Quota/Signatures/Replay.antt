-- ===== src/Quota/Signatures/Replay.antt =====
-- Sequences of calls of `claimUploadSignatures` (src/quota.ts).
use materios_gateway.Prelude.{
  ℕ, ◌≤◌, ◌≡◌, refl, ◌∙◌, Text, text_eq, text_eq_iff, Bool, true, false, ◌&&◌, List, [], ◌∷◌, arith,
  any, any-append, All, leb, Bool-cases, inl, inr,
}
use materios_gateway.Quota.Tables.{UsedSig}
use materios_gateway.Quota.Signatures.{
  includes, unique_from, unique, is_used, record_all, purge, claim_upload_signatures,
}

-- The store holds `s`, and keeps it until at least `t`.
abbrev pub is_kept : ℕ → Text → List UsedSig → Bool
is_kept t s used = any (λ r. text_eq r.sig s && leb t r.expires_at) used

is_kept-purge :
    (t now : ℕ) (s : Text) (used : List UsedSig)
    → now ≤ t
    → is_kept t s used ≡ true
    → is_kept t s (purge now used) ≡ true
is_kept-purge t now s [] le h = h
is_kept-purge t now s (r ∷ used) le h = ground (arith, is_kept-purge t now s used le)

is_kept-is_used :
    (t : ℕ) (s : Text) (used : List UsedSig) → is_kept t s used ≡ true → is_used used s ≡ true
is_kept-is_used t s [] h = h
is_kept-is_used t s (r ∷ used) h = ground (arith, is_kept-is_used t s used)

is_kept-record_all :
    (t : ℕ) (s : Text) (ss : List Text) (expires : ℕ) (used : List UsedSig)
    → is_kept t s used ≡ true
    → is_kept t s (record_all ss expires used) ≡ true
is_kept-record_all t s [] expires used h = h
is_kept-record_all t s (x ∷ ss) expires used h =
    is_kept-record_all t s ss expires _
      (any-append (λ r. text_eq r.sig s && leb t r.expires_at) used _ ∙ ground (arith, h))

-- What is recorded is kept.
record_all-is_kept :
    (s : Text) (ss : List Text) (expires : ℕ) (used : List UsedSig)
    → includes s ss ≡ true
    → is_kept expires s (record_all ss expires used) ≡ true
record_all-is_kept s [] expires used h = absurd (cc)
record_all-is_kept s (x ∷ ss) expires used h = elim (Bool-cases (text_eq s x)) [
  | inl e ↦ is_kept-record_all expires s ss expires _ (
      any-append (λ r. text_eq r.sig s && leb expires r.expires_at) used _
      ∙ ground (arith, text_eq_iff s x, text_eq_iff x s))
  | inr e ↦ record_all-is_kept s ss expires _ (ground arith)
]

-- Deduplication loses nothing.
includes-unique_from :
    (s : Text) (seen ss : List Text)
    → includes s ss ≡ true
    → includes s seen ≡ false
    → includes s (unique_from seen ss) ≡ true
includes-unique_from s seen [] h new = h
includes-unique_from s seen (x ∷ ss) h new =
    ground
      (arith, text_eq_iff s x, includes-unique_from s seen ss, includes-unique_from s (x ∷ seen) ss)

includes-unique : (s : Text) (ss : List Text) → includes s ss ≡ true → includes s (unique ss) ≡ true
unfolding unique
includes-unique s ss h = includes-unique_from s [] ss h refl

any-includes :
    (p : Text → Bool) (s : Text) (ss : List Text)
    → includes s ss ≡ true
    → p s ≡ true
    → any p ss ≡ true
any-includes p s [] h k = h
any-includes p s (x ∷ ss) h k = elim (Bool-cases (text_eq s x)) [
  | inl e ↦ let same : s ≡ x = (text_eq_iff s x).0 e in rw (rw same at k)
  | inr e ↦ ground (arith, any-includes p s ss)
]

-- A claim that succeeds keeps every one of its signatures until it expires.
pub claim-is_kept :
    (sigs : List Text) (expires now : ℕ) (used : List UsedSig) (s : Text)
    → includes s sigs ≡ true
    → (claim_upload_signatures sigs expires now used).0 ≡ true
    → is_kept expires s (claim_upload_signatures sigs expires now used).1 ≡ true
unfolding claim_upload_signatures
claim-is_kept sigs expires now used s h done =
    ground
      (arith, record_all-is_kept s (unique sigs) expires (purge now used), includes-unique s sigs h)

-- Any claim made in time, of whatever signatures and with whatever result, keeps it too.
pub claim_keeps :
    (t : ℕ) (s : Text) (sigs : List Text) (expires now : ℕ) (used : List UsedSig)
    → now ≤ t
    → is_kept t s used ≡ true
    → is_kept t s (claim_upload_signatures sigs expires now used).1 ≡ true
unfolding claim_upload_signatures
claim_keeps t s sigs expires now used le h = ground (
  arith,
  is_kept-purge t now s used le h,
  is_kept-record_all t s (unique sigs) expires (purge now used),
)

-- A claim made in time of signatures among which is a kept one fails.
pub claim_refuses :
    (t : ℕ) (s : Text) (sigs : List Text) (expires now : ℕ) (used : List UsedSig)
    → now ≤ t
    → is_kept t s used ≡ true
    → includes s sigs ≡ true
    → (claim_upload_signatures sigs expires now used).0 ≡ false
unfolding claim_upload_signatures
claim_refuses t s sigs expires now used le h among = ground (
  arith,
  is_kept-is_used t s (purge now used) (is_kept-purge t now s used le h),
  any-includes (is_used (purge now used)) s (unique sigs) (includes-unique s sigs among),
)

pub record Claim : Type 0 where
  pub sigs : List Text
  pub expires : ℕ
  pub now : ℕ

pub claims : List Claim → List UsedSig → List UsedSig
claims [] used = used
claims (c ∷ cs) used = claims cs (claim_upload_signatures c.sigs c.expires c.now used).1

claims_keep :
    (t : ℕ) (s : Text) (cs : List Claim) (used : List UsedSig)
    → All (λ c. c.now ≤ t) cs
    → is_kept t s used ≡ true
    → is_kept t s (claims cs used) ≡ true
unfolding claims
claims_keep t s [] used le h = h
claims_keep t s (c ∷ cs) used (first, rest) h =
    claims_keep t s cs _ rest (claim_keeps t s c.sigs c.expires c.now used first h)

-- Once a claim has succeeded, each of its signatures is refused until it expires: any later claim
-- that carries one of them and is made by then fails, whatever claims were made in between by then.
pub claim_once :
    (sigs : List Text) (expires now : ℕ) (used : List UsedSig) (between : List Claim) (s : Text)
    (sigs' : List Text) (expires' now' : ℕ)
    → (claim_upload_signatures sigs expires now used).0 ≡ true
    → All (λ c. c.now ≤ expires) between
    → now' ≤ expires
    → includes s sigs ≡ true
    → includes s sigs' ≡ true
    → (claim_upload_signatures sigs' expires' now'
        (claims between (claim_upload_signatures sigs expires now used).1)).0
      ≡ false
claim_once sigs expires now used between s sigs' expires' now' done in_time le among among' =
    claim_refuses expires s sigs' expires' now' _ le
      (claims_keep expires s between _ in_time (claim-is_kept sigs expires now used s among done))
      among'
