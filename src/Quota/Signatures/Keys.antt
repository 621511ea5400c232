-- ===== src/Quota/Signatures/Keys.antt =====
-- The primary key of used_upload_sigs under `claimUploadSignatures` (src/quota.ts).
use materios_gateway.Prelude.{
  ℕ, ◌≡◌, refl, ◌∙◌, Text, text_eq, text_eq_iff, true, false, ◌||◌, List, [], ◌∷◌, ◌++◌, arith, any,
  Bool-cases, inl, inr,
}
use materios_gateway.Quota.Tables.{UsedSig}
use materios_gateway.Quota.Signatures.{
  includes, unique_from, unique, is_used, record_all, purge, claim_upload_signatures,
}

-- No signature has two rows.
abbrev pub HasKeys : List UsedSig → Type 0
HasKeys [] = Unit
HasKeys (r ∷ used) = (is_used used r.sig ≡ false) × HasKeys used

-- No text stands twice.
abbrev IsUnique : List Text → Type 0
IsUnique [] = Unit
IsUnique (s ∷ ss) = (includes s ss ≡ false) × IsUnique ss

is_used-purge :
    (now : ℕ) (s : Text) (used : List UsedSig)
    → is_used used s ≡ false
    → is_used (purge now used) s ≡ false
is_used-purge now s [] h = h
is_used-purge now s (r ∷ used) h = ground (arith, is_used-purge now s used)

purge-HasKeys : (now : ℕ) (used : List UsedSig) → HasKeys used → HasKeys (purge now used)
purge-HasKeys now [] h = tt
purge-HasKeys now (r ∷ used) (first, rest) =
    ground (arith, purge-HasKeys now used rest, is_used-purge now r.sig used first)

includes-unique_from_seen :
    (s : Text) (seen ss : List Text)
    → includes s seen ≡ true
    → includes s (unique_from seen ss) ≡ false
includes-unique_from_seen s seen [] h = refl
includes-unique_from_seen s seen (x ∷ ss) h = elim (Bool-cases (includes x seen)) [
  | inl old ↦ rw old (includes-unique_from_seen s seen ss h)
  | inr new ↦ elim (Bool-cases (text_eq s x)) [
    | inl e ↦ let same : s ≡ x = (text_eq_iff s x).0 e in absurd (cc (rw same at h, new))
    | inr e ↦ rw (new, e) (includes-unique_from_seen s (x ∷ seen) ss (rw e h))
  ]
]

unique_from-IsUnique : (seen ss : List Text) → IsUnique (unique_from seen ss)
unique_from-IsUnique seen [] = tt
unique_from-IsUnique seen (x ∷ ss) = elim (Bool-cases (includes x seen)) [
  | inl old ↦ rw old (unique_from-IsUnique seen ss)
  | inr new ↦ rw new (
    includes-unique_from_seen x (x ∷ seen) ss (ground (arith, text_eq_iff x x)),
    unique_from-IsUnique (x ∷ seen) ss,
  )
]

is_used-append :
    (used : List UsedSig) (s t : Text) (expires : ℕ)
    → is_used (used ++ record { sig = s; expires_at = expires } ∷ []) t
      ≡ (is_used used t || text_eq s t)
is_used-append [] s t expires = ground arith
is_used-append (r ∷ used) s t expires = ground (arith, is_used-append used s t expires)

append-HasKeys :
    (used : List UsedSig) (s : Text) (expires : ℕ)
    → HasKeys used
    → is_used used s ≡ false
    → HasKeys (used ++ record { sig = s; expires_at = expires } ∷ [])
append-HasKeys [] s expires h new = (refl, tt)
append-HasKeys (r ∷ used) s expires (first, rest) new = (
  is_used-append used s r.sig expires ∙ ground (arith, text_eq_iff s r.sig, text_eq_iff r.sig s),
  append-HasKeys used s expires rest (ground arith),
)

-- None of the new texts is used.
abbrev AllNew : List UsedSig → List Text → Type 0
AllNew used [] = Unit
AllNew used (s ∷ ss) = (is_used used s ≡ false) × AllNew used ss

AllNew-of_any :
    (used : List UsedSig) (ss : List Text) → any (is_used used) ss ≡ false → AllNew used ss
AllNew-of_any used [] h = tt
AllNew-of_any used (s ∷ ss) h = (ground arith, AllNew-of_any used ss (ground arith))

AllNew-append :
    (used : List UsedSig) (s : Text) (expires : ℕ) (ss : List Text)
    → AllNew used ss
    → includes s ss ≡ false
    → AllNew (used ++ record { sig = s; expires_at = expires } ∷ []) ss
AllNew-append used s expires [] h new = tt
AllNew-append used s expires (x ∷ ss) (first, rest) new = (
  is_used-append used s x expires ∙ ground arith,
  AllNew-append used s expires ss rest (ground arith),
)

record_all-HasKeys :
    (ss : List Text) (expires : ℕ) (used : List UsedSig)
    → IsUnique ss
    → AllNew used ss
    → HasKeys used
    → HasKeys (record_all ss expires used)
record_all-HasKeys [] expires used u new h = h
record_all-HasKeys (s ∷ ss) expires used (us, u) (ns, new) h =
    record_all-HasKeys ss expires _ u (AllNew-append used s expires ss new us)
      (append-HasKeys used s expires h ns)

-- A claim never inserts a signature that has a row, also where the request carries one twice: the
-- store keeps one row to a signature.
claim-HasKeys :
    (sigs : List Text) (expires now : ℕ) (used : List UsedSig)
    → HasKeys used
    → HasKeys (claim_upload_signatures sigs expires now used).1
unfolding claim_upload_signatures unique
claim-HasKeys sigs expires now used h =
    elim (Bool-cases (any (is_used (purge now used)) (unique_from [] sigs))) [
      | inl seen ↦ rw seen (purge-HasKeys now used h)
      | inr new ↦ rw new (
          record_all-HasKeys (unique_from [] sigs) expires (purge now used)
            (unique_from-IsUnique [] sigs)
            (AllNew-of_any (purge now used) (unique_from [] sigs) new) (purge-HasKeys now used h))
    ]
