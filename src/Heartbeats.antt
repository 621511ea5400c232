-- ===== src/Heartbeats.antt =====
-- The store of heartbeats (src/heartbeat-store.ts), and how the route POST /heartbeats admits one
-- that is parsed and authenticated, with a whole timestamp (src/routes/heartbeats.ts). Rows of a log
-- stand in the order of their ids. `signature_verify` is that of @polkadot/util-crypto on the signing
-- string, the signature and the validator; `none` where it throws. Times are in milliseconds.
pub mod Replay
pub mod Runs
mod Tests
use materios_gateway.Prelude.{
  ℕ, suc, ◌+◌, ◌-◌, ◌*◌, ◌/◌, Text, text_eq, codes, Bool, true, false, ◌&&◌, Option, none, some,
  List, [], ◌∷◌, ◌++◌, length, drop, ltb, leb, ◌==◌, if◌then◌else◌,
}
use materios_gateway.Sql.{get, delete, upsert}
use materios_gateway.Auth.Upload.{given, decimal, distance}
use materios_gateway.Cbor.{ℤ, pos, negsuc}

pub record HeartbeatRow : Type 0 where
  pub validator_id : Text
  pub label : Text
  pub seq : ℕ
  pub payload : Text
  pub signature : Text
  pub received_at : ℕ
  pub best_block : ℕ
  pub finalized_block : ℕ
  pub finality_gap : ℕ
  pub pending_receipts : ℕ
  pub certs_submitted : ℕ
  pub substrate_connected : ℕ
  pub version : Text
  pub uptime_seconds : ℕ
  pub clock_skew_secs : ℤ

pub data RejectReason : Type 0 where
  skew_too_large : ℤ → RejectReason
  no_signature bad_signature : RejectReason

pub record RejectRow : Type 0 where
  pub validator_id : Text
  pub received_at : ℕ
  pub reason : RejectReason
  pub ip : Text

pub record LogRow : Type 0 where
  pub validator_id : Text
  pub received_at : ℕ
  pub best_block : ℕ

-- The last time at which a validator posted.
pub record LastPost : Type 0 where
  pub validator_id : Text
  pub time : ℕ

pub record HeartbeatState : Type 0 where
  pub latest : List HeartbeatRow
  pub reject_log : List RejectRow
  pub history : List LogRow
  pub last_post : List LastPost

-- What the route reads of a body, after its checks.
pub record Beat : Type 0 where
  pub validator_id : Text
  pub seq : ℕ
  pub timestamp : ℕ
  pub best_block : ℕ
  pub finalized_block : Option ℕ
  pub finality_gap : Option ℕ
  pub pending_receipts : Option ℕ
  pub certs_submitted : Option ℕ
  pub substrate_connected : Bool
  pub version : Option Text
  pub uptime_seconds : Option ℕ
  pub payload : Text

abbrev pub of_validator : Text → HeartbeatRow → Bool
of_validator v r = text_eq r.validator_id v

abbrev pub seq_of : Option HeartbeatRow → Option ℕ
seq_of none = none
seq_of (some r) = some r.seq

unfoldable pub get_last_seq : Text → List HeartbeatRow → Option ℕ
get_last_seq v rows = seq_of (get (of_validator v) rows)

-- The conflict sets every column but the key.
unfoldable pub upsert_heartbeat : HeartbeatRow → List HeartbeatRow → List HeartbeatRow
upsert_heartbeat row = upsert (of_validator row.validator_id) row (λ r. row)

abbrev pub reject_cap : ℕ
reject_cap = 1_000

-- The insertion, and the deletion of all but the newest rows.
unfoldable pub log_reject : RejectRow → List RejectRow → List RejectRow
log_reject row rows = let all = rows ++ row ∷ [] in drop (length all - reject_cap) all

-- The timer's deletion of rows that are older than five minutes.
unfoldable pub cleanup_log : ℕ → List LogRow → List LogRow
cleanup_log now rows = delete (λ r. ltb r.received_at (now - 5 * 60 * 1_000)) rows

abbrev pub min_post_interval_ms : ℕ
min_post_interval_ms = 10_000

abbrev pub or_nought : Option ℕ → ℕ
or_nought none = 0
or_nought (some n) = n

abbrev pub or_empty : Option Text → Text
or_empty none = []
or_empty (some t) = t

abbrev pub join_bars : List Text → Text
join_bars [] = []
join_bars (t ∷ []) = t
join_bars (t ∷ (u ∷ us)) = t ++ b'|' ∷ join_bars (u ∷ us)

unfoldable pub signing_string : Beat → Text
signing_string b = join_bars (
    codes "materios-heartbeat-v1"
    ∷ b.validator_id
    ∷ decimal b.seq
    ∷ decimal b.timestamp
    ∷ decimal b.best_block
    ∷ decimal (or_nought b.finalized_block)
    ∷ decimal (or_nought b.finality_gap)
    ∷ decimal (or_nought b.pending_receipts)
    ∷ decimal (or_nought b.certs_submitted)
    ∷ decimal (if b.substrate_connected then 1 else 0)
    ∷ or_empty b.version
    ∷ decimal (or_nought b.uptime_seconds)
    ∷ [])

abbrev pub minus : ℕ → ℕ → ℤ
minus a b = if leb b a then pos (a - b) else negsuc (b - a - 1)

-- `Map.get` and `Map.set`; the time of a validator who has not posted is 0, which counts as none.
abbrev pub post_time : Text → List LastPost → ℕ
post_time v [] = 0
post_time v (p ∷ ps) = if text_eq p.validator_id v then p.time else post_time v ps

abbrev pub set_post_time : Text → ℕ → List LastPost → List LastPost
set_post_time v now [] = record { validator_id = v; time = now } ∷ []
set_post_time v now (p ∷ ps) =
    if text_eq p.validator_id v then record p { time = now } ∷ ps else p ∷ set_post_time v now ps

-- `failed` is the reply 500 to an error that is thrown.
pub data Reply : Type 0 where
  accepted : ℕ → ℤ → Reply
  rate_limited : ℕ → Reply
  skewed : ℤ → Reply
  stale : ℕ → ℕ → Reply
  missing_signature invalid_signature failed : Reply

abbrev pub rejected : Beat → RejectReason → Text → ℕ → HeartbeatState → HeartbeatState
rejected b reason ip now st = record st {
  reject_log =
      log_reject
        (record { validator_id = b.validator_id; received_at = now; reason = reason; ip = ip })
        st.reject_log;
}

abbrev pub row_of : Text → Beat → Text → ℕ → HeartbeatRow
row_of label b signature now = record {
  validator_id = b.validator_id;
  label = label;
  seq = b.seq;
  payload = b.payload;
  signature = signature;
  received_at = now;
  best_block = b.best_block;
  finalized_block = or_nought b.finalized_block;
  finality_gap = or_nought b.finality_gap;
  pending_receipts = or_nought b.pending_receipts;
  certs_submitted = or_nought b.certs_submitted;
  substrate_connected = if b.substrate_connected then 1 else 0;
  version = or_empty b.version;
  uptime_seconds = or_nought b.uptime_seconds;
  clock_skew_secs = minus b.timestamp (now / 1_000);
}

abbrev pub is_stale : Option ℕ → ℕ → Bool
is_stale none seq = false
is_stale (some last) seq = leb seq last

module _ (signature_verify : Text → Text → Text → Option Bool) where
  abbrev pub by_verdict :
      Option Bool → Text → Beat → Text → Text → ℕ → HeartbeatState → Reply × HeartbeatState
  by_verdict none label b signature ip now st = (failed, st)
  by_verdict (some false) label b signature ip now st =
      (invalid_signature, rejected b bad_signature ip now st)
  by_verdict (some true) label b signature ip now st = (
    accepted b.seq (minus b.timestamp (now / 1_000)),
    record st {
      latest = upsert_heartbeat (row_of label b signature now) st.latest;
      history =
          st.history
          ++ record { validator_id = b.validator_id; received_at = now; best_block = b.best_block }
            ∷ [];
      last_post = set_post_time b.validator_id now st.last_post;
    },
  )

  abbrev pub by_header :
      Option Text → Text → Beat → Text → ℕ → HeartbeatState → Reply × HeartbeatState
  by_header none label b ip now st = (missing_signature, rejected b no_signature ip now st)
  by_header (some signature) label b ip now st =
      by_verdict (signature_verify (signing_string b) signature b.validator_id) label b signature ip
        now st

  -- From the rate limit on: `label` is that of the registry or the key, `header` is
  -- `x-heartbeat-sig`.
  unfoldable pub admit :
      Text → Beat → Option Text → Text → ℕ → HeartbeatState → Reply × HeartbeatState
  admit label b header ip now st =
      let last = post_time b.validator_id st.last_post in
      let last_seq = get_last_seq b.validator_id st.latest in
      if ltb 0 last && ltb (now - last) min_post_interval_ms
      then (rate_limited ((min_post_interval_ms + last - now + 999) / 1_000), st)
      else if ltb 120 (distance b.timestamp (now / 1_000))
      then (
        skewed (minus b.timestamp (now / 1_000)),
        rejected b (skew_too_large (minus b.timestamp (now / 1_000))) ip now st,
      )
      else if is_stale last_seq b.seq
      then (stale (or_nought last_seq) b.seq, st)
      else by_header (given header) label b ip now st
