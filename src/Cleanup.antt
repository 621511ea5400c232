-- ===== src/Cleanup.antt =====
-- The removal of old receipts (src/cleanup.ts). Times are in milliseconds. The store is the list of
-- the receipt directories and that of the index files, in the order of readdir; file operations
-- succeed; `deleting` is the mark of a deletion that an earlier process did not finish.
-- `sha256_of_hex` is the SHA-256 in hex of the bytes that a hex text stands for,
-- `check_receipt_status` the chain's answer for a receipt id. Directories are named by 32-byte hex
-- ids and dates parse; counts that are only logged are left out.
pub mod Clears
pub mod Keeps
mod Tests
use materios_gateway.Prelude.{
  ℕ, ◌+◌, ◌-◌, ◌*◌, Text, text_eq, codes, Bool, true, false, not, ◌&&◌, ◌||◌, Option, none, some,
  List, [], ◌∷◌, ◌++◌, length, ltb, leb, is_some, ◌==◌, if◌then◌else◌,
}

pub record ReceiptMeta : Type 0 where
  pub created_at : ℕ
  pub certified_at : Option ℕ
  pub key_name : Text
  pub uploader_address : Text
  pub last_receipt_check : Option ℕ
  pub receipt_on_chain : Option Bool

-- `meta` is none where receipt.meta.json does not exist or parse; `deleting` says that there is a
-- file .deleting.
pub record ReceiptDir : Type 0 where
  pub content_hash : Text
  pub meta : Option ReceiptMeta
  pub deleting : Bool

-- A file of index/receipt-to-content, with its trimmed content.
pub record IndexFile : Type 0 where
  pub receipt_id : Text
  pub target : Text

pub record BlobStore : Type 0 where
  pub receipts : List ReceiptDir
  pub index : List IndexFile

pub record CleanupConfig : Type 0 where
  pub blob_ttl_after_cert_days : ℕ
  pub blob_ttl_max_days : ℕ
  pub receipt_grace_hours : ℕ

pub data ReceiptStatus : Type 0 where
  not_found pending certified rpc_error : ReceiptStatus

abbrev pub ms_per_day : ℕ
ms_per_day = 86_400_000

abbrev pub ms_per_hour : ℕ
ms_per_hour = 3_600_000

-- The first index file that points to the receipt is removed.
unfoldable pub delete_index : Text → List IndexFile → List IndexFile
delete_index h [] = []
delete_index h (i ∷ is) = if text_eq i.target h then is else i ∷ delete_index h is

-- The time 0 counts as none.
abbrev pub is_past_cert : CleanupConfig → ℕ → Option ℕ → Bool
is_past_cert cfg now none = false
is_past_cert cfg now (some t) = ltb 0 t && ltb (t + cfg.blob_ttl_after_cert_days * ms_per_day) now

abbrev pub is_expired : CleanupConfig → ℕ → Option ReceiptMeta → Bool
is_expired cfg now none = false
is_expired cfg now (some m) =
    is_past_cert cfg now m.certified_at
    || ltb (m.created_at + cfg.blob_ttl_max_days * ms_per_day) now

abbrev pub is_doomed : CleanupConfig → ℕ → ReceiptDir → Bool
is_doomed cfg now d = d.deleting || is_expired cfg now d.meta

abbrev pub keep : ReceiptDir → BlobStore → BlobStore
keep d st = record st { receipts = d ∷ st.receipts }

-- The first loop of runCleanup, in a process that is not interrupted. The mark that is written
-- before a deletion goes with the directory.
unfoldable pub sweep : CleanupConfig → ℕ → List ReceiptDir → List IndexFile → BlobStore
sweep cfg now [] index = record { receipts = []; index = index }
sweep cfg now (d ∷ ds) index =
    let unlinked = if is_doomed cfg now d then delete_index d.content_hash index else index in
    let rest = sweep cfg now ds unlinked in if is_doomed cfg now d then rest else keep d rest

abbrev pub is_true : Option Bool → Bool
is_true none = false
is_true (some b) = b

abbrev pub is_recent_check : ℕ → Option ℕ → Bool
is_recent_check now none = false
is_recent_check now (some t) = ltb now (t + ms_per_hour)

abbrev pub is_due : CleanupConfig → ℕ → ReceiptMeta → Bool
is_due cfg now m =
    not (is_some m.certified_at || is_true m.receipt_on_chain)
    && not (ltb now (m.created_at + cfg.receipt_grace_hours * ms_per_hour))
    && not (is_recent_check now m.last_receipt_check)

-- `none` is a receipt that is deleted.
abbrev pub by_receipt_status : ReceiptStatus → ℕ → ReceiptMeta → ReceiptDir → Option ReceiptDir
by_receipt_status rpc_error now m d = some d
by_receipt_status not_found now m d = none
by_receipt_status certified now m d = some (record d {
  meta = some (record m {
    certified_at = some now;
    receipt_on_chain = some true;
    last_receipt_check = some now;
  });
})
by_receipt_status pending now m d = some (record d {
  meta = some (record m { receipt_on_chain = some true; last_receipt_check = some now });
})

-- What the second loop leaves of the store, from what it leaves of the first receipt and the rest.
abbrev pub keep_if : Option ReceiptDir → BlobStore → BlobStore
keep_if none st = st
keep_if (some d) st = keep d st

abbrev pub index_after : Option ReceiptDir → Text → List IndexFile → List IndexFile
index_after none h index = delete_index h index
index_after (some d) h index = index

abbrev pub strip_id_prefix : Text → Text
strip_id_prefix (c ∷ (d ∷ cs)) = if c == b'0' && d == b'x' then cs else c ∷ (d ∷ cs)
strip_id_prefix hex = hex

module _ (sha256_of_hex : Text → Text) (check_receipt_status : Text → ReceiptStatus) where
  abbrev pub compute_receipt_id : Text → Text
  compute_receipt_id h = codes "0x" ++ sha256_of_hex (strip_id_prefix h)

  abbrev pub check_meta : CleanupConfig → ℕ → Option ReceiptMeta → ReceiptDir → Option ReceiptDir
  check_meta cfg now none d = some d
  check_meta cfg now (some m) d =
      if is_due cfg now m
      then by_receipt_status (check_receipt_status (compute_receipt_id d.content_hash)) now m d
      else some d

  unfoldable pub run_receipt_exists_check :
      CleanupConfig → ℕ → List ReceiptDir → List IndexFile → BlobStore
  run_receipt_exists_check cfg now [] index = record { receipts = []; index = index }
  run_receipt_exists_check cfg now (d ∷ ds) index =
      let checked = check_meta cfg now d.meta d in
      keep_if checked
        (run_receipt_exists_check cfg now ds (index_after checked d.content_hash index))

  -- Both loops read the clock.
  unfoldable pub run_cleanup : CleanupConfig → ℕ → ℕ → BlobStore → BlobStore
  run_cleanup cfg now check_now st =
      let swept = sweep cfg now st.receipts st.index in
      run_receipt_exists_check cfg check_now swept.receipts swept.index
