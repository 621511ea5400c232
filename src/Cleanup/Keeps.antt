-- ===== src/Cleanup/Keeps.antt =====
-- Receipts that the cleanup leaves (src/cleanup.ts).
use materios_gateway.Prelude.{
  ℕ, ◌+◌, ◌*◌, ◌<◌, ◌≤◌, ◌≡◌, ◌≢◌, refl, ap, sym, ◌∙◌, ◌⊎◌, inl, inr, Text, text_eq, text_eq_refl,
  Bool, true, false, Option, none, some, List, [], ◌∷◌, ◌++◌, any, arith, Bool-cases,
}
use mathlib.Core.Path.{subst}
use materios_gateway.Sql.{delete}
use materios_gateway.Cleanup.{
  ReceiptDir, IndexFile, ReceiptMeta, BlobStore, CleanupConfig, ReceiptStatus, not_found, pending,
  certified, rpc_error, is_past_cert, is_doomed, is_due, by_receipt_status, keep_if, check_meta,
  compute_receipt_id, run_receipt_exists_check, run_cleanup, sweep, delete_index, ms_per_day,
  ms_per_hour,
}

abbrev pub of_hash : Text → ReceiptDir → Bool
of_hash h d = text_eq d.content_hash h

-- The sweep deletes what is doomed, and nothing else.
pub sweep-delete :
    (cfg : CleanupConfig) (now : ℕ) (ds : List ReceiptDir) (index : List IndexFile)
    → (sweep cfg now ds index).receipts ≡ delete (is_doomed cfg now) ds
unfolding sweep
sweep-delete cfg now [] index = refl
sweep-delete cfg now (d ∷ ds) index = elim (Bool-cases (is_doomed cfg now d)) [
  | inr alive ↦ simp alive (ap (λ xs. d ∷ xs) (sweep-delete cfg now ds index))
  | inl doomed ↦ simp doomed (sweep-delete cfg now ds (delete_index d.content_hash index))
]

delete-around :
    (p : ReceiptDir → Bool) (before rest : List ReceiptDir) (d : ReceiptDir)
    → p d ≡ false
    → delete p (before ++ d ∷ rest) ≡ delete p before ++ d ∷ delete p rest
delete-around p [] rest d h = rw h refl
delete-around p (x ∷ before) rest d h = elim (Bool-cases (p x)) [
  | inl gone ↦ rw gone (delete-around p before rest d h)
  | inr left ↦ rw left (ap (λ xs. x ∷ xs) (delete-around p before rest d h))
]

by_receipt_status-keeps :
    (s : ReceiptStatus) (now : ℕ) (m : ReceiptMeta) (d : ReceiptDir) (st : BlobStore)
    → s ≢ not_found
    → any (of_hash d.content_hash) (keep_if (by_receipt_status s now m d) st).receipts ≡ true
by_receipt_status-keeps rpc_error now m d st h = rw (text_eq_refl d.content_hash) refl
by_receipt_status-keeps not_found now m d st h = absurd (h refl)
by_receipt_status-keeps certified now m d st h = rw (text_eq_refl d.content_hash) refl
by_receipt_status-keeps pending now m d st h = rw (text_eq_refl d.content_hash) refl

keep_if-any :
    (q : ReceiptDir → Bool) (o : Option ReceiptDir) (st : BlobStore)
    → any q st.receipts ≡ true
    → any q (keep_if o st).receipts ≡ true
keep_if-any q none st h = h
keep_if-any q (some d) st h = ground (arith, h)

not_past :
    (cfg : CleanupConfig) (now : ℕ) (o : Option ℕ)
    → ((t : ℕ) → o ≡ some t → now ≤ t + cfg.blob_ttl_after_cert_days * ms_per_day)
    → is_past_cert cfg now o ≡ false
not_past cfg now none h = refl
not_past cfg now (some t) h = ground (arith, h t refl)

module _ (sha256_of_hex : Text → Text) (check_receipt_status : Text → ReceiptStatus) where
  abbrev pub status_of : ReceiptDir → ReceiptStatus
  status_of d =
      check_receipt_status (compute_receipt_id sha256_of_hex check_receipt_status d.content_hash)

  meta-keeps :
      (cfg : CleanupConfig) (now : ℕ) (m : ReceiptMeta) (d : ReceiptDir) (st : BlobStore)
      → (now < m.created_at + cfg.receipt_grace_hours * ms_per_hour) ⊎ (status_of d ≢ not_found)
      → any
          (of_hash d.content_hash)
          (keep_if (check_meta sha256_of_hex check_receipt_status cfg now (some m) d) st).receipts
        ≡ true
  meta-keeps cfg now m d st (inl young) =
      let early : is_due cfg now m ≡ false = ground arith in
      rw (early, text_eq_refl d.content_hash) refl
  meta-keeps cfg now m d st (inr known) = elim (Bool-cases (is_due cfg now m)) [
    | inl due ↦ rw due (by_receipt_status-keeps (status_of d) now m d st known)
    | inr later ↦ rw (later, text_eq_refl d.content_hash) refl
  ]

  check-keeps :
      (cfg : CleanupConfig) (now : ℕ) (before rest : List ReceiptDir) (d : ReceiptDir)
      (m : ReceiptMeta) (index : List IndexFile)
      → d.meta ≡ some m
      → (now < m.created_at + cfg.receipt_grace_hours * ms_per_hour) ⊎ (status_of d ≢ not_found)
      → any
          (of_hash d.content_hash)
          (run_receipt_exists_check sha256_of_hex check_receipt_status cfg now
            (before ++ d ∷ rest)
            index).receipts
        ≡ true
  unfolding run_receipt_exists_check
  check-keeps cfg now [] rest d m index e known =
      subst
        (λ o.
          (st : BlobStore)
          → any (of_hash d.content_hash)
              (keep_if (check_meta sha256_of_hex check_receipt_status cfg now o d) st).receipts
            ≡ true)
        (sym e) (λ st. meta-keeps cfg now m d st known) _
  check-keeps cfg now (x ∷ before) rest d m index e known =
      keep_if-any (of_hash d.content_hash)
        (check_meta sha256_of_hex check_receipt_status cfg now x.meta x) _
        (check-keeps cfg now before rest d m _ e known)

  -- A receipt without a mark, at most the longest time old, and if it is certified at most the time
  -- after that, is still there after a cleanup, if it is in its grace period or the chain does not
  -- answer that it is unknown.
  pub run_cleanup_keeps :
      (cfg : CleanupConfig) (now check_now : ℕ) (before rest : List ReceiptDir) (d : ReceiptDir)
      (m : ReceiptMeta) (index : List IndexFile)
      → d.deleting ≡ false
      → d.meta ≡ some m
      → now ≤ m.created_at + cfg.blob_ttl_max_days * ms_per_day
      → ((t : ℕ) → m.certified_at ≡ some t → now ≤ t + cfg.blob_ttl_after_cert_days * ms_per_day)
      → (check_now < m.created_at + cfg.receipt_grace_hours * ms_per_hour)
        ⊎ (status_of d ≢ not_found)
      → any
          (of_hash d.content_hash)
          (run_cleanup sha256_of_hex check_receipt_status cfg now check_now
            (record { receipts = before ++ d ∷ rest; index = index })).receipts
        ≡ true
  unfolding run_cleanup
  run_cleanup_keeps cfg now check_now before rest d m index unmarked e fresh fresh_cert known =
      let p = is_doomed cfg now in
      let recent = not_past cfg now m.certified_at fresh_cert in
      let alive : p d ≡ false = rw (unmarked, e, recent) (ground arith) in
      let left =
        sweep-delete cfg now (before ++ d ∷ rest) index ∙ delete-around p before rest d alive in
      subst
        (λ ds.
          (i : List IndexFile)
          → any (of_hash d.content_hash)
              (run_receipt_exists_check sha256_of_hex check_receipt_status cfg check_now ds
                i).receipts
            ≡ true)
        (sym left) (λ i. check-keeps cfg check_now (delete p before) (delete p rest) d m i e known)
        _
