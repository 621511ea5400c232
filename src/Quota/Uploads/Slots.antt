-- ===== src/Quota/Uploads/Slots.antt =====
-- Concurrency slots under the quota functions of src/quota.ts.
use materios_gateway.Prelude.{
  ℕ, ◌+◌, ◌≤◌, ◌≡◌, ◌≢◌, refl, sym, ◌∙◌, String, str_eq, eq_refl, str_eq-ne, Bool, true, ◌&&◌, List,
  [], ◌∷◌, arith, leb, if◌then◌else◌, Bool-cases, inl, inr,
}
use materios_gateway.Sql.{count, delete, update, insert_or_replace}
use materios_gateway.Sql.Laws.{
  count-append, count-delete-le, count-update, count-update-le, count-insert_or_replace-le,
}
use materios_gateway.Quota.Tables.{InflightRow, Ledger, active, is_active, is_allowed}
use materios_gateway.Quota.Uploads.{
  Uploader, active_of, upload_of, touch, finish, clean_stale_inflight, start_upload,
  charge_daily_bytes, record_chunk_bytes, finalize_upload,
}

-- The number of slots that an owner holds.
abbrev pub slots : String → Ledger → ℕ
slots o l = count (active_of o) l.inflight

-- An upload that is started within the limit leaves the owner within it, and no one else with more
-- slots than before.
pub start_upload-slots :
    (u : Uploader) (hash : String) (now : ℕ) (l : Ledger) (o : String)
    → let l' = (start_upload u hash now l).1 in
      (slots u.owner l ≤ u.max_concurrent → slots u.owner l' ≤ u.max_concurrent)
      × (o ≢ u.owner → slots o l' ≤ slots o l)
unfolding start_upload clean_stale_inflight
start_upload-slots u hash now l o = elim (Bool-cases (leb u.max_concurrent (count mine cleaned))) [
  | inl full ↦ rw full ((λ h. omega (arith, fewer mine)), (λ ne. fewer (active_of o)))
  | inr free ↦ rw free (
    (λ h. ground (arith, opened mine)),
    (λ ne.
        ground (
          arith,
          fewer (active_of o),
          opened (active_of o),
          str_eq-ne u.owner o (λ e. ne (sym e)),
        )),
  )
]
  where
    mine : InflightRow → Bool
    mine = active_of u.owner

    cleaned : List InflightRow
    cleaned = clean_stale_inflight u.owner now l.inflight

    row : InflightRow
    row = record { upload_id = hash; owner = u.owner; started_at = now; bytes = 0; status = active }

    fewer : (p : InflightRow → Bool) → count p cleaned ≤ count p l.inflight
    fewer p = count-delete-le p _ l.inflight

    opened :
        (p : InflightRow → Bool)
        → count p (insert_or_replace (λ r. str_eq r.upload_id hash) row cleaned)
          ≤ count p cleaned + (if p row then 1 else 0)
    opened p = count-insert_or_replace-le p (λ r. str_eq r.upload_id hash) row cleaned

-- Neither a charge nor a chunk takes or frees a slot.
pub charge_daily_bytes-slots :
    (u : Uploader) (bytes now : ℕ) (l : Ledger) (o : String)
    → slots o (charge_daily_bytes u bytes now l).1 ≡ slots o l
unfolding charge_daily_bytes
charge_daily_bytes-slots u bytes now l o = ground arith

pub record_chunk_bytes-slots :
    (u : Uploader) (hash : String) (bytes now : ℕ) (l : Ledger) (o : String)
    → slots o (record_chunk_bytes u hash bytes now l).1 ≡ slots o l
unfolding record_chunk_bytes
record_chunk_bytes-slots u hash bytes now l o =
    elim (Bool-cases (is_allowed (charge_daily_bytes u bytes now l).0)) [
      | inl e ↦ rw e (
          count-update (active_of o) (upload_of hash u.owner) (touch bytes now) _ (λ _. refl)
          ∙ charge_daily_bytes-slots u bytes now l o)
      | inr e ↦ rw e (charge_daily_bytes-slots u bytes now l o)
    ]

-- A finalisation, allowed or not, takes no slot.
pub finalize_upload-slots-le :
    (u : Uploader) (hash : String) (now : ℕ) (l : Ledger) (o : String)
    → slots o (finalize_upload u hash now l).1 ≤ slots o l
unfolding finalize_upload
finalize_upload-slots-le u hash now l o =
    elim (Bool-cases (is_allowed (finalize_upload u hash now l).0)) [
      | inl e ↦ ground (arith, fewer)
      | inr e ↦ ground (arith, fewer)
    ]
  where
    fewer :
        count (active_of o) (update (upload_of hash u.owner) finish l.inflight)
        ≤ count (active_of o) l.inflight
    fewer =
        count-update-le (active_of o) (upload_of hash u.owner) finish l.inflight
          (λ r h. ground arith)

-- `SELECT … WHERE upload_id = ? AND key_hash = ? AND status = 'active'`
abbrev pub holds : String → String → Ledger → ℕ
holds hash o l = count (λ r. upload_of hash o r && is_active r.status) l.inflight

finish-frees :
    (hash o : String) (rows : List InflightRow)
    → count (λ r. upload_of hash o r && is_active r.status) (update (upload_of hash o) finish rows)
      ≡ 0
finish-frees hash o [] = refl
finish-frees hash o (r ∷ rows) = ground (arith, finish-frees hash o rows)

-- Whatever the reply, a finalised upload holds no slot: an uploader over the receipt limit is
-- refused the receipt and gets the slot back.
finalize_upload_frees :
    (u : Uploader) (hash : String) (now : ℕ) (l : Ledger)
    → holds hash u.owner (finalize_upload u hash now l).1 ≡ 0
unfolding finalize_upload
finalize_upload_frees u hash now l = ground (arith, finish-frees hash u.owner l.inflight)

count-delete_none :
    (p q : InflightRow → Bool) (rows : List InflightRow)
    → ((r : InflightRow) → p r ≡ true → q r ≡ true)
    → count p (delete q rows) ≡ 0
count-delete_none p q [] h = refl
count-delete_none p q (r ∷ rows) h = ground (arith, count-delete_none p q rows h, h r)

-- An upload id names one row: when an upload is started, the uploader holds it once, and nobody
-- else holds it, even who held it before.
pub start_upload_takes :
    (u : Uploader) (hash : String) (now : ℕ) (l : Ledger) (o : String)
    → is_allowed (start_upload u hash now l).0 ≡ true
    → holds hash o (start_upload u hash now l).1 ≡ (if str_eq u.owner o then 1 else 0)
unfolding start_upload
start_upload_takes u hash now l o h =
    elim (Bool-cases (leb u.max_concurrent (count (active_of u.owner) cleaned))) [
      | inl full ↦ ground arith
      | inr free ↦ rw free (ground (arith, count-append p kept (row ∷ []), gone, eq_refl hash))
    ]
  where
    p : InflightRow → Bool
    p r = upload_of hash o r && is_active r.status

    cleaned : List InflightRow
    cleaned = clean_stale_inflight u.owner now l.inflight

    kept : List InflightRow
    kept = delete (λ r. str_eq r.upload_id hash) cleaned

    row : InflightRow
    row = record { upload_id = hash; owner = u.owner; started_at = now; bytes = 0; status = active }

    gone : count p kept ≡ 0
    gone = count-delete_none p (λ r. str_eq r.upload_id hash) cleaned (λ r k. ground arith)
