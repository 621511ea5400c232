-- ===== src/Quota/Uploads/Usage.antt =====
-- The counters that `getDailyUsage` reads under the quota functions of src/quota.ts.
use mathlib.Core.Option
use materios_gateway.Prelude.{
  ℕ, ap, ◌+◌, ◌≤◌, ◌<◌, ◌≡◌, refl, String, str_eq, eq_iff, eq_refl, Bool, true, false, ◌&&◌, some,
  List, arith, any, and-true, ==_iff, ◌∙◌, ltb, leb, ◌==◌, if◌then◌else◌, Bool-cases, inl, inr,
}
use materios_gateway.Sql.{get, update, insert_or_ignore}
use materios_gateway.Sql.Laws.{
  any-get, any-false-get, get-append_none, get-update_self, get-update_other,
  get-insert_or_ignore_other,
}
use materios_gateway.Quota.Tables.{DailyRow, Ledger, is_allowed, today}
use materios_gateway.Quota.Uploads.{
  Uploader, add_bytes, add_receipt, counter_in, on_day, bytes_in, receipts_in, fresh_day,
  charge_daily_bytes, record_chunk_bytes, start_upload, finalize_upload, get_daily_usage,
}

on_day_self : (o : String) (d : ℕ) → on_day o d (fresh_day o d) ≡ true
on_day_self o d = rw (eq_refl o) (ground arith)

-- Two keys that select one row are one key.
on_day_same :
    (o o' : String) (d d' : ℕ) (r : DailyRow)
    → on_day o d r ≡ true
    → on_day o' d' r ≡ true
    → (str_eq o o' && d == d') ≡ true
on_day_same o o' d d' r h k = ground (arith, eq_iff o o', eq_iff r.owner o, eq_iff r.owner o')

-- Opening a day changes no counter that is read.
module _ (counter : DailyRow → ℕ) where
  counter_in-open_day :
      (o o' : String) (d d' : ℕ) (rows : List DailyRow)
      → counter (fresh_day o d) ≡ 0
      → counter_in counter (get (on_day o' d') (insert_or_ignore (on_day o d) (fresh_day o d) rows))
        ≡ counter_in counter (get (on_day o' d') rows)
  counter_in-open_day o o' d d' rows z = elim (Bool-cases (on_day o' d' (fresh_day o d))) [
    | inr other ↦
        rw (get-insert_or_ignore_other (on_day o' d') (on_day o d) (fresh_day o d) rows other)
    | inl same ↦
        let (eo, ed) = and-true _ _ same in
        let o-eq : o ≡ o' = (eq_iff o o').0 eo in
        let d-eq : d ≡ d' = (==_iff d d').0 ed in
        rw (← o-eq, ← d-eq) (counter_in-open_own o d rows z)
  ]
    where
      counter_in-open_own :
          (o : String) (d : ℕ) (rows : List DailyRow)
          → counter (fresh_day o d) ≡ 0
          → counter_in counter
              (get (on_day o d) (insert_or_ignore (on_day o d) (fresh_day o d) rows))
            ≡ counter_in counter (get (on_day o d) rows)
      counter_in-open_own o d rows z = elim (Bool-cases (any (on_day o d) rows)) [
        | inl old ↦ rw old
        | inr new ↦
            let e = any-false-get (on_day o d) rows new in
            rw (new, get-append_none (on_day o d) rows _ e, e, on_day_self o d) z
      ]

-- A write that keeps a row's key, under that key and under another.
get-write_self :
    (o : String) (d : ℕ) (f : DailyRow → DailyRow) (rows : List DailyRow)
    → ((r : DailyRow) → on_day o d (f r) ≡ on_day o d r)
    → get (on_day o d) (update (on_day o d) f rows) ≡ Option.map f (get (on_day o d) rows)
get-write_self o d f rows keep = get-update_self (on_day o d) f rows (λ r h. keep r ∙ h)

get-write_other :
    (o o' : String) (d d' : ℕ) (f : DailyRow → DailyRow) (rows : List DailyRow)
    → ((r : DailyRow) → on_day o' d' (f r) ≡ on_day o' d' r)
    → (str_eq o o' && d == d') ≡ false
    → get (on_day o' d') (update (on_day o d) f rows) ≡ get (on_day o' d') rows
get-write_other o o' d d' f rows keep ne =
    get-update_other (on_day o' d') (on_day o d) f rows
      (λ r h. let p = not_both r h in (p, keep r ∙ p))
  where
    not_both : (r : DailyRow) → on_day o d r ≡ true → on_day o' d' r ≡ false
    not_both r h = elim (Bool-cases (on_day o' d' r)) [
      | inl k ↦ absurd (cc (ne, on_day_same o o' d d' r h k))
      | inr k ↦ k
    ]

-- The row that a charge reads is there.
own_row :
    (o : String) (d : ℕ) (rows : List DailyRow)
    → (r : DailyRow) × (get (on_day o d) (insert_or_ignore (on_day o d) (fresh_day o d) rows)
        ≡ some r)
own_row o d rows = elim (Bool-cases (any (on_day o d) rows)) [
  | inl old ↦ let (r, e) = any-get (on_day o d) rows old in (r, rw old e)
  | inr new ↦ (
    fresh_day o d,
    rw
        (
          new,
          get-append_none (on_day o d) rows _ (any-false-get (on_day o d) rows new),
          on_day_self o d,
        )
        refl,
  )
]

-- Opening a day and adding `n` to a counter there adds `n` to that counter alone.
module _ (counter : DailyRow → ℕ) (f : DailyRow → DailyRow) (n : ℕ)
    (keep : (o : String) (d : ℕ) (r : DailyRow) → on_day o d (f r) ≡ on_day o d r)
    (adds : (r : DailyRow) → counter (f r) ≡ counter r + n) where
  counter_in-write :
      (o o' : String) (d d' : ℕ) (rows : List DailyRow)
      → counter (fresh_day o d) ≡ 0
      → counter_in counter (
          get
            (on_day o' d')
            (update (on_day o d) f (insert_or_ignore (on_day o d) (fresh_day o d) rows)))
        ≡ counter_in counter (get (on_day o' d') rows) + (if str_eq o o' && d == d' then n else 0)
  counter_in-write o o' d d' rows z = elim (Bool-cases (str_eq o o' && d == d')) [
    | inr other ↦
        rw (other, get-write_other o o' d d' f _ (keep o' d') other)
          (counter_in-open_day counter o o' d d' rows z ∙ omega arith)
    | inl same ↦
        let (eo, ed) = and-true _ _ same in
        let o-eq : o ≡ o' = (eq_iff o o').0 eo in
        let d-eq : d ≡ d' = (==_iff d d').0 ed in
        let (r, found) = own_row o d rows in
        let before = counter_in-open_day counter o o d d rows z in
        rw (same, ← o-eq, ← d-eq, get-write_self o d f _ (keep o d), found)
          (adds r ∙ ap (λ (k : ℕ). k + n) (rw found at before))
  ]

-- A charge adds its bytes, if it is allowed, to the counter of its owner and day; it changes no
-- other counter of bytes and no counter of receipts, whatever its outcome.
pub charge_daily_bytes_usage :
    (u : Uploader) (bytes now : ℕ) (l : Ledger) (o : String) (d : ℕ)
    → let (c, l') = charge_daily_bytes u bytes now l in
      ((get_daily_usage o d l').bytes_today
        ≡ (get_daily_usage o d l).bytes_today
          + (if is_allowed c && (str_eq u.owner o && today now == d) then bytes else 0))
      × ((get_daily_usage o d l').receipts_today ≡ (get_daily_usage o d l).receipts_today)
unfolding charge_daily_bytes get_daily_usage
charge_daily_bytes_usage u bytes now l o d =
    elim (Bool-cases (ltb u.max_bytes (bytes_in (get at_day opened) + bytes))) [
      | inl over ↦ rw over (
        counter_in-open_day (λ r. r.bytes) u.owner o (today now) d l.daily refl ∙ omega arith,
        counter_in-open_day (λ r. r.receipts) u.owner o (today now) d l.daily refl,
      )
      | inr within ↦ rw within (
        counter_in-write (λ r. r.bytes) (add_bytes bytes) bytes (λ _ _ _. refl) (λ _. refl) u.owner
            o (today now) d l.daily refl,
        counter_in-write (λ r. r.receipts) (add_bytes bytes) 0 (λ _ _ _. refl) (λ r. omega arith)
              u.owner o (today now) d l.daily refl
            ∙ ground arith,
      )
    ]
  where
    at_day : DailyRow → Bool
    at_day = on_day u.owner (today now)

    opened : List DailyRow
    opened = insert_or_ignore at_day (fresh_day u.owner (today now)) l.daily

-- A chunk charges its bytes as a manifest does.
pub record_chunk_bytes_usage :
    (u : Uploader) (hash : String) (bytes now : ℕ) (l : Ledger) (o : String) (d : ℕ)
    → get_daily_usage o d (record_chunk_bytes u hash bytes now l).1
      ≡ get_daily_usage o d (charge_daily_bytes u bytes now l).1
unfolding record_chunk_bytes get_daily_usage
record_chunk_bytes_usage u hash bytes now l o d =
    elim (Bool-cases (is_allowed (charge_daily_bytes u bytes now l).0)) [
      | inl e ↦ rw e
      | inr e ↦ rw e
    ]

-- A finalisation counts one receipt, if it is allowed, for its owner and day; it changes no other
-- counter of receipts and no counter of bytes.
pub finalize_upload_usage :
    (u : Uploader) (hash : String) (now : ℕ) (l : Ledger) (o : String) (d : ℕ)
    → let (c, l') = finalize_upload u hash now l in
      ((get_daily_usage o d l').receipts_today
        ≡ (get_daily_usage o d l).receipts_today
          + (if is_allowed c && (str_eq u.owner o && today now == d) then 1 else 0))
      × ((get_daily_usage o d l').bytes_today ≡ (get_daily_usage o d l).bytes_today)
unfolding finalize_upload get_daily_usage
finalize_upload_usage u hash now l o d =
    elim (Bool-cases (leb u.max_receipts (receipts_in (get at_day opened)))) [
      | inl over ↦ rw over (
        counter_in-open_day (λ r. r.receipts) u.owner o (today now) d l.daily refl ∙ omega arith,
        counter_in-open_day (λ r. r.bytes) u.owner o (today now) d l.daily refl,
      )
      | inr within ↦ rw within (
        counter_in-write (λ r. r.receipts) add_receipt 1 (λ _ _ _. refl) (λ _. refl) u.owner o
            (today now) d l.daily refl,
        counter_in-write (λ r. r.bytes) add_receipt 0 (λ _ _ _. refl) (λ r. omega arith) u.owner o
              (today now) d l.daily refl
            ∙ ground arith,
      )
    ]
  where
    at_day : DailyRow → Bool
    at_day = on_day u.owner (today now)

    opened : List DailyRow
    opened = insert_or_ignore at_day (fresh_day u.owner (today now)) l.daily

-- An allowed charge stays within the owner's limit, and so does an allowed receipt.
pub charge_daily_bytes_within :
    (u : Uploader) (bytes now : ℕ) (l : Ledger)
    → is_allowed (charge_daily_bytes u bytes now l).0 ≡ true
    → (get_daily_usage u.owner (today now) l).bytes_today + bytes ≤ u.max_bytes
unfolding charge_daily_bytes get_daily_usage
charge_daily_bytes_within u bytes now l h =
    ground (
      arith,
      counter_in-open_day (λ r. r.bytes) u.owner u.owner (today now) (today now) l.daily refl,
    )

pub finalize_upload_within :
    (u : Uploader) (hash : String) (now : ℕ) (l : Ledger)
    → is_allowed (finalize_upload u hash now l).0 ≡ true
    → (get_daily_usage u.owner (today now) l).receipts_today < u.max_receipts
unfolding finalize_upload get_daily_usage
finalize_upload_within u hash now l h = ground (
  arith,
  counter_in-open_day (λ r. r.receipts) u.owner u.owner (today now) (today now) l.daily refl,
)

-- Starting an upload changes no counter.
pub start_upload_usage :
    (u : Uploader) (hash : String) (now : ℕ) (l : Ledger) (o : String) (d : ℕ)
    → get_daily_usage o d (start_upload u hash now l).1 ≡ get_daily_usage o d l
unfolding start_upload get_daily_usage
start_upload_usage u hash now l o d = ground arith

-- A chunk is allowed exactly when its charge is.
pub record_chunk_bytes-allowed :
    (u : Uploader) (hash : String) (bytes now : ℕ) (l : Ledger)
    → (record_chunk_bytes u hash bytes now l).0 ≡ (charge_daily_bytes u bytes now l).0
unfolding record_chunk_bytes
record_chunk_bytes-allowed u hash bytes now l =
    elim (Bool-cases (is_allowed (charge_daily_bytes u bytes now l).0)) [
      | inl e ↦ rw e
      | inr e ↦ rw e
    ]
