-- ===== src/Cleanup/Tests.antt =====
-- A store with four receipts, and the theorems at it.
use materios_gateway.Prelude.{
  ℕ, ◌*◌, ◌≡◌, ◌≢◌, refl, inr, Text, text_eq, codes, true, false, Option, none, some, [], ◌∷◌, All,
  any, map, arith, if◌then◌else◌,
}
use materios_gateway.Cleanup.{
  ReceiptDir, ReceiptMeta, BlobStore, CleanupConfig, ReceiptStatus, not_found, certified,
  delete_index, sweep, run_receipt_exists_check, run_cleanup, ms_per_day,
}
use materios_gateway.Cleanup.Clears.{IsCurrent, run_cleanup-IsCurrent}
use materios_gateway.Cleanup.Keeps.{of_hash, run_cleanup_keeps}

abbrev cfg : CleanupConfig
cfg = record { blob_ttl_after_cert_days = 30; blob_ttl_max_days = 90; receipt_grace_hours = 24 }

abbrev meta_at : ℕ → Option ℕ → ReceiptMeta
meta_at created cert = record {
  created_at = created;
  certified_at = cert;
  key_name = [];
  uploader_address = [];
  last_receipt_check = none;
  receipt_on_chain = none;
}

abbrev dir : Text → ReceiptMeta → ReceiptDir
dir h m = record { content_hash = h; meta = some m; deleting = false }

abbrev old : ReceiptDir
old = dir (codes "a0") (meta_at 1 none)

abbrev paid : ReceiptDir
paid = dir (codes "b0") (meta_at (60 * ms_per_day) (some (61 * ms_per_day)))

abbrev orphan : ReceiptDir
orphan = dir (codes "c0") (meta_at (98 * ms_per_day) none)

abbrev found : ReceiptDir
found = dir (codes "d0") (meta_at (98 * ms_per_day) none)

abbrev store : BlobStore
store = record {
  receipts = old ∷ paid ∷ orphan ∷ found ∷ [];
  index =
      record { receipt_id = codes "1"; target = codes "a0" }
      ∷ record { receipt_id = codes "4"; target = codes "d0" }
      ∷ [];
}

abbrev digest : Text → Text
digest h = h

abbrev chain : Text → ReceiptStatus
chain id = if text_eq id (codes "0xd0") then certified else not_found

abbrev clock : ℕ
clock = 100 * ms_per_day

one_left :
    map (λ d. d.content_hash) (run_cleanup digest chain cfg clock clock store).receipts
    ≡ codes "d0" ∷ []
unfolding run_cleanup run_receipt_exists_check sweep
one_left = refl

index_left :
    map (λ i. i.target) (run_cleanup digest chain cfg clock clock store).index ≡ codes "d0" ∷ []
unfolding run_cleanup run_receipt_exists_check sweep delete_index
index_left = refl

resumed :
    map
      (λ d. d.content_hash)
      (sweep cfg clock (record found { deleting = true } ∷ orphan ∷ []) store.index).receipts
    ≡ codes "c0" ∷ []
unfolding sweep
resumed = refl

not_unknown : certified ≢ not_found
not_unknown e = absurd (cc)

run_cleanup-IsCurrent_example :
    All (IsCurrent cfg clock) (run_cleanup digest chain cfg clock clock store).receipts
run_cleanup-IsCurrent_example =
    run_cleanup-IsCurrent digest chain cfg clock clock store (omega arith)

run_cleanup_keeps_example :
    any (of_hash (codes "d0")) (run_cleanup digest chain cfg clock clock store).receipts ≡ true
run_cleanup_keeps_example =
    run_cleanup_keeps digest chain cfg clock clock (old ∷ paid ∷ orphan ∷ []) [] found
      (meta_at (98 * ms_per_day) none) store.index refl refl (omega arith) (λ t e. absurd (cc))
      (inr not_unknown)
