-- ===== src/Heartbeats/Tests.antt =====
-- Heartbeats of one validator, and the theorems at them. The stand-in for the platform accepts one
-- signature.
use materios_gateway.Prelude.{
  ◌≡◌, refl, Text, text_eq, codes, Bool, true, false, Option, none, some, [], ◌∷◌, length, arith,
}
use materios_gateway.Auth.Upload.{decimal}
use materios_gateway.Cbor.{negsuc}
use materios_gateway.Heartbeats.{
  HeartbeatState, Beat, accepted, rate_limited, skewed, stale, invalid_signature, skew_too_large,
  get_last_seq, upsert_heartbeat, log_reject, cleanup_log, signing_string, admit,
}
use materios_gateway.Heartbeats.Runs.{
  Attempt, posted, cleaned, is_accepted, post, run, replay_refused, run-IsBounded, IsBounded,
}

abbrev verifies : Text → Text → Text → Option Bool
verifies message signature validator = some (text_eq signature (codes "good"))

abbrev beat : Beat
beat = record {
  validator_id = codes "5V";
  seq = 7;
  timestamp = 1_000;
  best_block = 40;
  finalized_block = some 38;
  finality_gap = none;
  pending_receipts = none;
  certs_submitted = some 2;
  substrate_connected = true;
  version = some (codes "1.2");
  uptime_seconds = none;
  payload = codes "{}";
}

abbrev attempt : Attempt
attempt = record {
  label = codes "val";
  beat = beat;
  header = some (codes "good");
  ip = codes "::1";
  now = 1_001_500;
}

abbrev empty : HeartbeatState
empty = record { latest = []; reject_log = []; history = []; last_post = [] }

signed_text : signing_string beat ≡ codes "materios-heartbeat-v1|5V|7|1000|40|38|0|0|2|1|1.2|0"
unfolding signing_string decimal
signed_text = refl

beat_accepted : (post verifies attempt empty).0 ≡ accepted 7 (negsuc 0)
unfolding admit get_last_seq
beat_accepted = refl

again_limited : (post verifies attempt (post verifies attempt empty).1).0 ≡ rate_limited 10
unfolding admit get_last_seq
again_limited = refl

later_stale :
    (post verifies
      (record attempt { now = 1_020_000; header = some (codes "good") })
      (post verifies attempt empty).1).0
    ≡ stale 7 7
unfolding admit get_last_seq upsert_heartbeat
later_stale = refl

far_skewed : (post verifies (record attempt { now = 1_200_000 }) empty) ≡ (
  skewed (negsuc 199),
  record empty {
    reject_log =
        record {
          validator_id = codes "5V";
          received_at = 1_200_000;
          reason = skew_too_large (negsuc 199);
          ip = codes "::1";
        }
        ∷ [];
  },
)
unfolding admit log_reject
far_skewed = refl

forged :
    (post verifies (record attempt { header = some (codes "bad") }) empty).0 ≡ invalid_signature
unfolding admit get_last_seq
forged = refl

cleaned_up :
    length (
      cleanup_log 400_000 (record { validator_id = []; received_at = 99_999; best_block = 1 } ∷ []))
    ≡ 0
unfolding cleanup_log
cleaned_up = refl

was_accepted : is_accepted (post verifies attempt empty).0 ≡ true
unfolding admit get_last_seq
was_accepted = refl

replay_refused_example :
    is_accepted
      (post verifies
        (record attempt { now = 1_900_000 })
        (run verifies (cleaned 1_500_000 ∷ []) (post verifies attempt empty).1)).0
    ≡ false
replay_refused_example =
    replay_refused verifies attempt (record attempt { now = 1_900_000 }) (cleaned 1_500_000 ∷ [])
      empty was_accepted refl (omega arith)

run-IsBounded_example :
    IsBounded verifies
      (run verifies (posted (record attempt { header = none }) ∷ cleaned 5 ∷ []) empty)
run-IsBounded_example =
    run-IsBounded verifies (posted (record attempt { header = none }) ∷ cleaned 5 ∷ []) empty
      (omega arith)
