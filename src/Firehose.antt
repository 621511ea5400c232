-- ===== src/Firehose.antt =====
-- The bus of receipt events and its buffered writers (src/firehose/bus.ts). The bus calls its
-- subscribers in the order in which they subscribed; here a subscriber is the writer of a client,
-- as in src/routes/firehose.ts, and one that throws is isolated by the bus.
pub mod Refine
mod Tests
use materios_gateway.Prelude.{
  ℕ, zero, suc, ◌+◌, ◌-◌, String, Bool, true, false, Option, none, some, List, [], ◌∷◌, ◌++◌,
  length, ltb, ◌==◌, if◌then◌else◌,
}

pub data CardanoNetwork : Type 0 where
  preprod mainnet : CardanoNetwork

pub record ReceiptSubmitted : Type 0 where
  pub content_hash : String
  pub receipt_id : String
  pub submitter : String
  pub schema_hash : String
  pub submitted_at_ms : ℕ
  pub block_number : ℕ

pub record ReceiptCertified : Type 0 where
  pub content_hash : String
  pub receipt_id : String
  pub cert_hash : String
  pub signer_count : ℕ
  pub certified_at_block : ℕ
  pub certified_at_ms : ℕ

pub record ReceiptAnchored : Type 0 where
  pub content_hash : Option String
  pub receipt_id : Option String
  pub root_hash : String
  pub anchor_id : String
  pub cardano_tx_hash : String
  pub cardano_network : CardanoNetwork
  pub anchored_at_block : ℕ
  pub anchored_at_ms : ℕ

pub data FirehoseEvent : Type 0 where
  receipt_submitted : ReceiptSubmitted → FirehoseEvent
  receipt_certified : ReceiptCertified → FirehoseEvent
  receipt_anchored : ReceiptAnchored → FirehoseEvent
  rpc_disconnected rpc_reconnected : ℕ → FirehoseEvent

-- The timer of a writer runs while it is not disposed.
pub record BufferedWriter : Type 0 where
  pub soft_cap : ℕ
  pub queue : List FirehoseEvent
  pub dropped : ℕ
  pub disposed : Bool

pub new_writer : ℕ → BufferedWriter
new_writer soft_cap = record { soft_cap = soft_cap; queue = []; dropped = 0; disposed = false }

-- `while (queue.length > softCap) { queue.shift(); dropped += 1; }`: the queue and the count. A
-- round shortens the queue.
abbrev pub trim : ℕ → List FirehoseEvent → ℕ → List FirehoseEvent × ℕ
trim soft_cap [] dropped = ([], dropped)
trim soft_cap (e ∷ es) dropped =
    let shifted = trim soft_cap es (dropped + 1) in
    if ltb soft_cap (length (e ∷ es)) then shifted else (e ∷ es, dropped)

unfoldable pub push : FirehoseEvent → BufferedWriter → BufferedWriter
push e w =
    if w.disposed
    then w
    else (let (queue, dropped) = trim w.soft_cap (w.queue ++ e ∷ []) w.dropped in
        record w { queue = queue; dropped = dropped })

-- A tick of the timer: what is handed to `onFlush`, and the writer. An `onFlush` that throws has no
-- other effect.
abbrev pub flush_queue :
    List FirehoseEvent → BufferedWriter → Option (List FirehoseEvent) × BufferedWriter
flush_queue [] w = (none, w)
flush_queue (e ∷ es) w = (some (e ∷ es), record w { queue = []; dropped = 0 })

unfoldable pub flush : BufferedWriter → Option (List FirehoseEvent) × BufferedWriter
flush w = if w.disposed then (none, w) else flush_queue w.queue w

unfoldable pub dispose : BufferedWriter → BufferedWriter
dispose w = if w.disposed then w else record w { disposed = true; queue = []; dropped = 0 }

pub record Client : Type 0 where
  pub id : ℕ
  pub writer : BufferedWriter

abbrev pub FirehoseBus : Type 0
FirehoseBus = List Client

abbrev pub has_client : ℕ → FirehoseBus → Bool
has_client id [] = false
has_client id (c ∷ cs) = if c.id == id then true else has_client id cs

-- `Set.add`
unfoldable pub subscribe : Client → FirehoseBus → FirehoseBus
subscribe c bus = if has_client c.id bus then bus else bus ++ c ∷ []

-- The disposer: `Set.delete`
unfoldable pub unsubscribe : ℕ → FirehoseBus → FirehoseBus
unsubscribe id [] = []
unsubscribe id (c ∷ cs) = if c.id == id then cs else c ∷ unsubscribe id cs

unfoldable pub publish : FirehoseEvent → FirehoseBus → FirehoseBus
publish e [] = []
publish e (c ∷ cs) = record c { writer = push e c.writer } ∷ publish e cs
