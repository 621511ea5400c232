-- ===== src/Quota/Uploads/Run.antt =====
-- Sequences of calls of the quota functions of src/quota.ts.
use native.Mathlib.Nat.{le_trans}
use materios_gateway.Prelude.{
  ℕ, ◌+◌, ◌≤◌, ◌≡◌, String, str_eq, eq_iff, Bool, true, ◌&&◌, List, [], ◌∷◌, arith, All, and-true,
  ==_iff, ◌==◌, if◌then◌else◌, Bool-cases, inl, inr,
}
use materios_gateway.Quota.Tables.{Ledger, QuotaCheckResult, is_allowed, today}
use materios_gateway.Quota.Uploads.{
  Uploader, start_upload, charge_daily_bytes, record_chunk_bytes, charge_manifest_bytes,
  finalize_upload, get_daily_usage,
}
use materios_gateway.Quota.Uploads.Usage.{
  finalize_upload_usage, start_upload_usage, charge_daily_bytes_usage, record_chunk_bytes_usage,
  charge_daily_bytes_within, finalize_upload_within,
}
use materios_gateway.Quota.Uploads.Slots.{
  slots, start_upload-slots, charge_daily_bytes-slots, record_chunk_bytes-slots,
  finalize_upload-slots-le,
}

-- What a route asks of the quotas, with the time at which it asks.
pub data Request : Type 0 where
  start : String → ℕ → Request
  chunk : String → ℕ → ℕ → Request
  manifest : ℕ → ℕ → Request
  finalize : String → ℕ → Request

pub serve : Uploader → Request → Ledger → QuotaCheckResult × Ledger
serve u (start hash now) = start_upload u hash now
serve u (chunk hash bytes now) = record_chunk_bytes u hash bytes now
serve u (manifest bytes now) = charge_manifest_bytes u bytes now
serve u (finalize hash now) = finalize_upload u hash now

pub run : List (Uploader × Request) → Ledger → Ledger
run [] l = l
run ((u, r) ∷ rs) l = run rs (serve u r l).1

-- The limits of each owner.
pub record Limits : Type 0 where
  pub receipts : String → ℕ
  pub bytes : String → ℕ
  pub concurrent : String → ℕ

-- The uploader's limits are those of its owner.
pub record IsUnder (lim : Limits) (u : Uploader) : Type 0 where
  pub receipts : u.max_receipts ≡ lim.receipts u.owner
  pub bytes : u.max_bytes ≡ lim.bytes u.owner
  pub concurrent : u.max_concurrent ≡ lim.concurrent u.owner

pub record IsWithin (lim : Limits) (l : Ledger) : Type 0 where
  pub receipts : (o : String) (d : ℕ) → (get_daily_usage o d l).receipts_today ≤ lim.receipts o
  pub bytes : (o : String) (d : ℕ) → (get_daily_usage o d l).bytes_today ≤ lim.bytes o
  pub concurrent : (o : String) → slots o l ≤ lim.concurrent o

-- A counter that grows only at its own owner and day, and only within the limit there.
grown-le :
    (usage limit : String → ℕ → ℕ) (o o' : String) (d d' n : ℕ) (ok : Bool)
    → (ok ≡ true → usage o d + n ≤ limit o d)
    → usage o' d' ≤ limit o' d'
    → usage o' d' + (if ok && (str_eq o o' && d == d') then n else 0) ≤ limit o' d'
grown-le usage limit o o' d d' n ok within old =
    elim (Bool-cases (ok && (str_eq o o' && d == d'))) [
      | inl grows ↦
          let (is_ok, same) = and-true _ _ grows in
          let (so, sd) = and-true _ _ same in
          let o-eq : o ≡ o' = (eq_iff o o').0 so in
          let d-eq : d ≡ d' = (==_iff d d').0 sd in rw (grows, ← o-eq, ← d-eq) (within is_ok)
      | inr stays ↦ rw stays (omega arith)
    ]

module _ (lim : Limits) (u : Uploader) (under : IsUnder lim u) (l : Ledger)
    (h : IsWithin lim l) where
  start-IsWithin : (hash : String) (now : ℕ) → IsWithin lim (start_upload u hash now l).1
  start-IsWithin hash now = record {
    receipts = λ o d. rw (start_upload_usage u hash now l o d) (h.receipts o d);
    bytes = λ o d. rw (start_upload_usage u hash now l o d) (h.bytes o d);
    concurrent = λ o.
        let (own, others) = start_upload-slots u hash now l o in
        elim (Bool-cases (str_eq o u.owner)) [
          | inl e ↦
              let o-eq : o ≡ u.owner = (eq_iff o u.owner).0 e in
              rw (o-eq, ← under.concurrent) (own (rw under.concurrent (h.concurrent u.owner)))
          | inr e ↦ le_trans (others (λ k. cc (e, (eq_iff o u.owner).1 k))) (h.concurrent o)
        ];
  }

  charge-IsWithin : (bytes now : ℕ) → IsWithin lim (charge_daily_bytes u bytes now l).1
  charge-IsWithin bytes now = record {
    receipts = λ o d. rw (charge_daily_bytes_usage u bytes now l o d).1 (h.receipts o d);
    bytes = λ o d. rw (charge_daily_bytes_usage u bytes now l o d).0 (
        grown-le (λ o d. (get_daily_usage o d l).bytes_today) (λ o d. lim.bytes o) u.owner o
          (today now) d bytes (is_allowed (charge_daily_bytes u bytes now l).0)
          (λ ok. rw (← under.bytes) (charge_daily_bytes_within u bytes now l ok)) (h.bytes o d));
    concurrent = λ o. rw (charge_daily_bytes-slots u bytes now l o) (h.concurrent o);
  }

  chunk-IsWithin :
      (hash : String) (bytes now : ℕ) → IsWithin lim (record_chunk_bytes u hash bytes now l).1
  chunk-IsWithin hash bytes now =
      let charged = charge-IsWithin bytes now in
      record {
        receipts =
            λ o d. rw (record_chunk_bytes_usage u hash bytes now l o d) (charged.receipts o d);
        bytes = λ o d. rw (record_chunk_bytes_usage u hash bytes now l o d) (charged.bytes o d);
        concurrent = λ o. rw (record_chunk_bytes-slots u hash bytes now l o) (h.concurrent o);
      }

  finalize-IsWithin : (hash : String) (now : ℕ) → IsWithin lim (finalize_upload u hash now l).1
  finalize-IsWithin hash now = record {
    receipts = λ o d. rw (finalize_upload_usage u hash now l o d).0 (
        grown-le (λ o d. (get_daily_usage o d l).receipts_today) (λ o d. lim.receipts o) u.owner o
          (today now) d 1 (is_allowed (finalize_upload u hash now l).0)
          (λ ok. rw (← under.receipts) (omega (arith, finalize_upload_within u hash now l ok)))
          (h.receipts o d));
    bytes = λ o d. rw (finalize_upload_usage u hash now l o d).1 (h.bytes o d);
    concurrent = λ o. le_trans (finalize_upload-slots-le u hash now l o) (h.concurrent o);
  }

  serve-IsWithin : (r : Request) → IsWithin lim (serve u r l).1
  unfolding serve charge_manifest_bytes
  serve-IsWithin (start hash now) = start-IsWithin hash now
  serve-IsWithin (chunk hash bytes now) = chunk-IsWithin hash bytes now
  serve-IsWithin (manifest bytes now) = charge-IsWithin bytes now
  serve-IsWithin (finalize hash now) = finalize-IsWithin hash now

-- No sequence of requests, by whatever uploaders at whatever times, takes an owner over its
-- receipts a day, its bytes a day or its concurrent uploads, if each uploader comes with the
-- limits of its owner and the tables are within the limits at the start.
pub run-IsWithin :
    (lim : Limits) (rs : List (Uploader × Request)) (l : Ledger)
    → All (λ r. IsUnder lim r.0) rs
    → IsWithin lim l
    → IsWithin lim (run rs l)
unfolding run
run-IsWithin lim [] l under h = h
run-IsWithin lim ((u, r) ∷ rs) l (first, rest) h =
    run-IsWithin lim rs (serve u r l).1 rest (serve-IsWithin lim u first l h r)
