-- ===== src/Cleanup/Clears.antt =====
-- What the cleanup leaves is current (src/cleanup.ts).
use mathlib.Core.Path.{subst}
use materios_gateway.Prelude.{
  ℕ, ◌+◌, ◌*◌, ◌≤◌, ◌≡◌, sym, ◌⊎◌, inl, inr, Text, false, Option, none, some, List, [], ◌∷◌, All,
  arith, Bool-cases,
}
use materios_gateway.Sql.{delete}
use materios_gateway.Cleanup.{
  ReceiptDir, IndexFile, ReceiptMeta, BlobStore, CleanupConfig, ReceiptStatus, not_found, pending,
  certified, rpc_error, is_past_cert, is_expired, is_doomed, is_due, by_receipt_status, keep_if,
  check_meta, run_receipt_exists_check, run_cleanup, ms_per_day,
}
use materios_gateway.Cleanup.Keeps.{sweep-delete}

-- At most the time after certification has passed; the time 0 counts as none.
abbrev pub IsCertCurrent : CleanupConfig → ℕ → Option ℕ → Type 0
IsCertCurrent cfg now none = Unit {0}
IsCertCurrent cfg now (some t) = (t ≡ 0) ⊎ (now ≤ t + cfg.blob_ttl_after_cert_days * ms_per_day)

abbrev pub IsMetaCurrent : CleanupConfig → ℕ → Option ReceiptMeta → Type 0
IsMetaCurrent cfg now none = Unit {0}
IsMetaCurrent cfg now (some m) =
    (now ≤ m.created_at + cfg.blob_ttl_max_days * ms_per_day) × IsCertCurrent cfg now m.certified_at

-- No mark, and no time that has run out.
abbrev pub IsCurrent : CleanupConfig → ℕ → ReceiptDir → Type 0
IsCurrent cfg now d = (d.deleting ≡ false) × IsMetaCurrent cfg now d.meta

cert-current :
    (cfg : CleanupConfig) (now : ℕ) (o : Option ℕ)
    → is_past_cert cfg now o ≡ false
    → IsCertCurrent cfg now o
cert-current cfg now none h = tt
cert-current cfg now (some t) h = ground arith

meta-current :
    (cfg : CleanupConfig) (now : ℕ) (o : Option ReceiptMeta)
    → is_expired cfg now o ≡ false
    → IsMetaCurrent cfg now o
meta-current cfg now none h = tt
meta-current cfg now (some m) h = (ground arith, cert-current cfg now m.certified_at (ground arith))

delete-IsCurrent :
    (cfg : CleanupConfig) (now : ℕ) (ds : List ReceiptDir)
    → All (IsCurrent cfg now) (delete (is_doomed cfg now) ds)
delete-IsCurrent cfg now [] = tt
delete-IsCurrent cfg now (d ∷ ds) = elim (Bool-cases (is_doomed cfg now d)) [
  | inl doomed ↦ rw doomed (delete-IsCurrent cfg now ds)
  | inr alive ↦
      let here : IsCurrent cfg now d = (ground arith, meta-current cfg now d.meta (ground arith)) in
      let left : delete (is_doomed cfg now) (d ∷ ds) ≡ d ∷ delete (is_doomed cfg now) ds =
        rw alive in
      subst (All (IsCurrent cfg now)) (sym left) (here, delete-IsCurrent cfg now ds)
]

status-IsCurrent :
    (cfg : CleanupConfig) (now check_now : ℕ) (s : ReceiptStatus) (m : ReceiptMeta) (d : ReceiptDir)
    (st : BlobStore)
    → now ≤ check_now
    → IsCurrent cfg now d
    → IsMetaCurrent cfg now (some m)
    → All (IsCurrent cfg now) st.receipts
    → All (IsCurrent cfg now) (keep_if (by_receipt_status s check_now m d) st).receipts
status-IsCurrent cfg now check_now rpc_error m d st le h hm rest = (h, rest)
status-IsCurrent cfg now check_now not_found m d st le h hm rest = rest
status-IsCurrent cfg now check_now certified m d st le h hm rest =
    ((h.0, (hm.0, inr (omega arith))), rest)
status-IsCurrent cfg now check_now pending m d st le h hm rest = ((h.0, hm), rest)

module _ (sha256_of_hex : Text → Text) (check_receipt_status : Text → ReceiptStatus) where
  meta-IsCurrent :
      (cfg : CleanupConfig) (now check_now : ℕ) (o : Option ReceiptMeta) (d : ReceiptDir)
      (st : BlobStore)
      → now ≤ check_now
      → IsCurrent cfg now d
      → IsMetaCurrent cfg now o
      → All (IsCurrent cfg now) st.receipts
      → All
          (IsCurrent cfg now)
          (keep_if (check_meta sha256_of_hex check_receipt_status cfg check_now o d) st).receipts
  meta-IsCurrent cfg now check_now none d st le h hm rest = (h, rest)
  meta-IsCurrent cfg now check_now (some m) d st le h hm rest =
      elim (Bool-cases (is_due cfg check_now m)) [
        | inr later ↦ rw later (h, rest)
        | inl due ↦ rw due (status-IsCurrent cfg now check_now _ m d st le h hm rest)
      ]

  check-IsCurrent :
      (cfg : CleanupConfig) (now check_now : ℕ) (ds : List ReceiptDir) (index : List IndexFile)
      → now ≤ check_now
      → All (IsCurrent cfg now) ds
      → All
          (IsCurrent cfg now)
          (run_receipt_exists_check sha256_of_hex check_receipt_status cfg check_now ds
            index).receipts
  unfolding run_receipt_exists_check
  check-IsCurrent cfg now check_now [] index le h = tt
  check-IsCurrent cfg now check_now (d ∷ ds) index le (here, h) =
      meta-IsCurrent cfg now check_now d.meta d _ le here here.1
        (check-IsCurrent cfg now check_now ds _ le h)

  -- After a cleanup that no failure interrupts, no receipt that is left has the mark of a deletion,
  -- is older than the longest time, or is certified for longer than the time after that; if the
  -- second reading of the clock is not before the first.
  pub run_cleanup-IsCurrent :
      (cfg : CleanupConfig) (now check_now : ℕ) (st : BlobStore)
      → now ≤ check_now
      → All
          (IsCurrent cfg now)
          (run_cleanup sha256_of_hex check_receipt_status cfg now check_now st).receipts
  unfolding run_cleanup
  run_cleanup-IsCurrent cfg now check_now st le = check-IsCurrent cfg now check_now _ _ le (
      subst (All (IsCurrent cfg now)) (sym (sweep-delete cfg now st.receipts st.index))
        (delete-IsCurrent cfg now st.receipts))
