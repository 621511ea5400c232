-- ===== src/Heartbeats/Replay.antt =====
-- What a run of heartbeats does to the store (src/routes/heartbeats.ts, src/heartbeat-store.ts).
use materios_gateway.Prelude.{
  ◌/◌, ◌&&◌, ap, sym, ◌∙◌, ℕ, zero, suc, ◌+◌, ◌-◌, ◌≤◌, ◌≡◌, Text, text_eq, text_eq_iff, Bool, true,
  false, Option, none, some, List, [], ◌∷◌, ◌++◌, any, length, drop, ltb, arith, if◌then◌else◌,
  Bool-cases, inl, inr,
}
use mathlib.Core.Path.{subst}
use materios_gateway.Sql.{get, update}
use materios_gateway.Auth.Upload.{given, distance}
use materios_gateway.Heartbeats.{
  HeartbeatRow, HeartbeatState, RejectRow, Beat, of_validator, seq_of, get_last_seq,
  upsert_heartbeat, log_reject, reject_cap, is_stale, row_of, by_verdict, by_header, admit,
  signing_string, post_time, min_post_interval_ms,
}

seq-update :
    (v : Text) (row : HeartbeatRow) (rows : List HeartbeatRow)
    → seq_of (get (of_validator v) (update (of_validator row.validator_id) (λ r. row) rows)) ≡ (
        if text_eq row.validator_id v && any (of_validator row.validator_id) rows
        then some row.seq
        else seq_of (get (of_validator v) rows))
seq-update v row [] = ground arith
seq-update v row (r ∷ rows) = ground (
  arith,
  seq-update v row rows,
  text_eq_iff r.validator_id v,
  text_eq_iff row.validator_id v,
  text_eq_iff r.validator_id row.validator_id,
)

seq-append :
    (v : Text) (row : HeartbeatRow) (rows : List HeartbeatRow)
    → any (of_validator row.validator_id) rows ≡ false
    → seq_of (get (of_validator v) (rows ++ row ∷ []))
      ≡ (if text_eq row.validator_id v then some row.seq else seq_of (get (of_validator v) rows))
seq-append v row [] h = ground arith
seq-append v row (r ∷ rows) h = ground (
  arith,
  seq-append v row rows,
  text_eq_iff r.validator_id v,
  text_eq_iff row.validator_id v,
  text_eq_iff r.validator_id row.validator_id,
)

-- The last sequence number of a validator, and no other, is that of the row that is written.
pub get_last_seq-upsert :
    (v : Text) (row : HeartbeatRow) (rows : List HeartbeatRow)
    → get_last_seq v (upsert_heartbeat row rows)
      ≡ (if text_eq row.validator_id v then some row.seq else get_last_seq v rows)
unfolding get_last_seq upsert_heartbeat
get_last_seq-upsert v row rows = elim (Bool-cases (any (of_validator row.validator_id) rows)) [
  | inl known ↦ rw known (ground (arith, seq-update v row rows))
  | inr fresh ↦ rw fresh (seq-append v row rows fresh)
]

-- A validator's last number is at least `n`.
abbrev pub Reached : ℕ → Option ℕ → Type 0
Reached n none = ⊥
Reached n (some m) = n ≤ m

pub Reached-stale : (n seq : ℕ) (o : Option ℕ) → Reached n o → seq ≤ n → is_stale o seq ≡ true
Reached-stale n seq none h le = absurd h
Reached-stale n seq (some m) h le = ground arith

Reached-fresh :
    (n seq : ℕ) (o : Option ℕ) → Reached n o → is_stale o seq ≡ false → Reached n (some seq)
Reached-fresh n seq none h e = absurd h
Reached-fresh n seq (some m) h e = ground arith

-- Each row of the log of rejections but the newest ones is deleted.
length-drop_le : (k n : ℕ) (rows : List RejectRow) → length rows ≤ k + n → length (drop k rows) ≤ n
length-drop_le zero n rows h = omega (arith, h)
length-drop_le (suc k) n [] h = omega arith
length-drop_le (suc k) n (r ∷ rows) h = length-drop_le k n rows (omega (arith, h))

pub log_reject-bound :
    (row : RejectRow) (rows : List RejectRow) → length (log_reject row rows) ≤ reject_cap
unfolding log_reject
log_reject-bound row rows =
    length-drop_le (length (rows ++ row ∷ []) - reject_cap) reject_cap (rows ++ row ∷ [])
      (omega arith)

module _ (signature_verify : Text → Text → Text → Option Bool) where
  by_verdict-Reached :
      (n : ℕ) (v : Text) (o : Option Bool) (label : Text) (b : Beat) (signature ip : Text) (now : ℕ)
      (st : HeartbeatState)
      → is_stale (get_last_seq b.validator_id st.latest) b.seq ≡ false
      → Reached n (get_last_seq v st.latest)
      → Reached n
          (get_last_seq v (by_verdict signature_verify o label b signature ip now st).1.latest)
  by_verdict-Reached n v none label b signature ip now st fresh h = h
  by_verdict-Reached n v (some false) label b signature ip now st fresh h = h
  by_verdict-Reached n v (some true) label b signature ip now st fresh h =
      elim (Bool-cases (text_eq b.validator_id v)) [
        | inl mine ↦
            let same = (text_eq_iff b.validator_id v).0 mine in
            subst (Reached n)
              (sym (
                get_last_seq-upsert v (row_of label b signature now) st.latest
                ∙ ap (λ t. if t then some b.seq else get_last_seq v st.latest) mine))
              (Reached-fresh n b.seq (get_last_seq b.validator_id st.latest)
                (subst (λ k. Reached n (get_last_seq k st.latest)) (sym same) h) fresh)
        | inr other ↦
            subst (Reached n)
              (sym (
                get_last_seq-upsert v (row_of label b signature now) st.latest
                ∙ ap (λ t. if t then some b.seq else get_last_seq v st.latest) other))
              h
      ]

  by_header-Reached :
      (n : ℕ) (v : Text) (o : Option Text) (label : Text) (b : Beat) (ip : Text) (now : ℕ)
      (st : HeartbeatState)
      → is_stale (get_last_seq b.validator_id st.latest) b.seq ≡ false
      → Reached n (get_last_seq v st.latest)
      → Reached n (get_last_seq v (by_header signature_verify o label b ip now st).1.latest)
  by_header-Reached n v none label b ip now st fresh h = h
  by_header-Reached n v (some signature) label b ip now st fresh h =
      by_verdict-Reached n v (signature_verify (signing_string b) signature b.validator_id) label b
        signature ip now st fresh h

  pub admit-Reached :
      (n : ℕ) (v : Text) (label : Text) (b : Beat) (header : Option Text) (ip : Text) (now : ℕ)
      (st : HeartbeatState)
      → Reached n (get_last_seq v st.latest)
      → Reached n (get_last_seq v (admit signature_verify label b header ip now st).1.latest)
  unfolding admit
  admit-Reached n v label b header ip now st h =
      let last = post_time b.validator_id st.last_post in
      elim (Bool-cases (ltb 0 last && ltb (now - last) min_post_interval_ms)) [
        | inl limited ↦ simp limited h
        | inr rested ↦ elim (Bool-cases (ltb 120 (distance b.timestamp (now / 1_000)))) [
          | inl far ↦ simp (rested, far) h
          | inr near ↦ elim (Bool-cases (is_stale (get_last_seq b.validator_id st.latest) b.seq)) [
            | inl old ↦ simp (rested, near, old) h
            | inr fresh ↦
                simp (rested, near, fresh)
                  (by_header-Reached n v (given header) label b ip now st fresh h)
          ]
        ]
      ]
