-- ===== src/Heartbeats/Runs.antt =====
-- Runs of heartbeats: replays and the log of rejections (src/routes/heartbeats.ts,
-- src/heartbeat-store.ts).
use mathlib.Core.Path.{subst}
use materios_gateway.Prelude.{
  ◌/◌, ◌&&◌, ap, sym, ◌∙◌, ℕ, ◌-◌, ◌≤◌, ◌≡◌, refl, Text, text_eq_refl, Bool, true, false, Option,
  none, some, List, [], ◌∷◌, length, ltb, arith, if◌then◌else◌, Bool-cases, inl, inr,
}
use materios_gateway.Auth.Upload.{given, distance}
use materios_gateway.Heartbeats.{
  HeartbeatState, RejectReason, no_signature, bad_signature, Beat, Reply, accepted, rate_limited,
  skewed, stale, missing_signature, invalid_signature, failed, get_last_seq, reject_cap,
  cleanup_log, is_stale, row_of, rejected, by_verdict, by_header, admit, signing_string, post_time,
  min_post_interval_ms,
}
use materios_gateway.Heartbeats.Replay.{
  Reached, Reached-stale, admit-Reached, get_last_seq-upsert, log_reject-bound,
}

pub record Attempt : Type 0 where
  pub label : Text
  pub beat : Beat
  pub header : Option Text
  pub ip : Text
  pub now : ℕ

-- What happens to the store: posts, and the timer's cleanup.
pub data Event : Type 0 where
  posted : Attempt → Event
  cleaned : ℕ → Event

abbrev pub is_accepted : Reply → Bool
is_accepted (accepted seq skew) = true
is_accepted (rate_limited after) = false
is_accepted (skewed skew) = false
is_accepted (stale last seq) = false
is_accepted missing_signature = false
is_accepted invalid_signature = false
is_accepted failed = false

module _ (signature_verify : Text → Text → Text → Option Bool) where
  abbrev pub post : Attempt → HeartbeatState → Reply × HeartbeatState
  post a st = admit signature_verify a.label a.beat a.header a.ip a.now st

  abbrev pub happen : Event → HeartbeatState → HeartbeatState
  happen (posted a) st = (post a st).1
  happen (cleaned now) st = record st { history = cleanup_log now st.history }

  unfoldable pub run : List Event → HeartbeatState → HeartbeatState
  run [] st = st
  run (e ∷ es) st = run es (happen e st)

  run-Reached :
      (n : ℕ) (v : Text) (es : List Event) (st : HeartbeatState)
      → Reached n (get_last_seq v st.latest)
      → Reached n (get_last_seq v (run es st).latest)
  unfolding run
  run-Reached n v [] st h = h
  run-Reached n v (posted a ∷ es) st h =
      run-Reached n v es (post a st).1
        (admit-Reached signature_verify n v a.label a.beat a.header a.ip a.now st h)
  run-Reached n v (cleaned now ∷ es) st h = run-Reached n v es (happen (cleaned now) st) h

  verdict-Reached :
      (o : Option Bool) (label : Text) (b : Beat) (signature ip : Text) (now : ℕ)
      (st : HeartbeatState)
      → is_accepted (by_verdict signature_verify o label b signature ip now st).0 ≡ true
      → Reached b.seq (
          get_last_seq b.validator_id
            (by_verdict signature_verify o label b signature ip now st).1.latest)
  verdict-Reached none label b signature ip now st e = absurd (cc)
  verdict-Reached (some false) label b signature ip now st e = absurd (cc)
  verdict-Reached (some true) label b signature ip now st e =
      subst (Reached b.seq)
        (sym (
          get_last_seq-upsert b.validator_id (row_of label b signature now) st.latest
          ∙ ap (λ t. if t then some b.seq else get_last_seq b.validator_id st.latest)
              (text_eq_refl b.validator_id)))
        (omega arith)

  header-Reached :
      (o : Option Text) (label : Text) (b : Beat) (ip : Text) (now : ℕ) (st : HeartbeatState)
      → is_accepted (by_header signature_verify o label b ip now st).0 ≡ true
      → Reached b.seq
          (get_last_seq b.validator_id (by_header signature_verify o label b ip now st).1.latest)
  header-Reached none label b ip now st e = absurd (cc)
  header-Reached (some signature) label b ip now st e =
      verdict-Reached (signature_verify (signing_string b) signature b.validator_id) label b
        signature ip now st e

  -- What an attempt that passes the first three checks comes to.
  record Passed (a : Attempt) (st : HeartbeatState) : Type 0 where
    fresh : is_stale (get_last_seq a.beat.validator_id st.latest) a.beat.seq ≡ false
    same : post a st ≡ by_header signature_verify (given a.header) a.label a.beat a.ip a.now st

  post-Passed : (a : Attempt) (st : HeartbeatState) → is_accepted (post a st).0 ≡ true → Passed a st
  unfolding admit
  post-Passed a st e =
      let b = a.beat in
      let last = post_time b.validator_id st.last_post in
      elim (Bool-cases (ltb 0 last && ltb (a.now - last) min_post_interval_ms)) [
        | inl limited ↦ absurd (ground arith)
        | inr rested ↦ elim (Bool-cases (ltb 120 (distance b.timestamp (a.now / 1_000)))) [
          | inl far ↦ absurd (ground arith)
          | inr near ↦ elim (Bool-cases (is_stale (get_last_seq b.validator_id st.latest) b.seq)) [
            | inl old ↦ absurd (ground arith)
            | inr fresh ↦ record { fresh = fresh; same = simp (rested, near, fresh) refl }
          ]
        ]
      ]

  -- A heartbeat that was accepted is never accepted again, nor any of the same validator with a
  -- sequence number that is not above its own, whatever is posted and cleaned up in between.
  pub replay_refused :
      (a later : Attempt) (es : List Event) (st : HeartbeatState)
      → is_accepted (post a st).0 ≡ true
      → later.beat.validator_id ≡ a.beat.validator_id
      → later.beat.seq ≤ a.beat.seq
      → is_accepted (post later (run es (post a st).1)).0 ≡ false
  replay_refused a later es st e same le =
      elim (Bool-cases (is_accepted (post later (run es (post a st).1)).0)) [
        | inr refused ↦ refused
        | inl again ↦
            let p = post-Passed a st e in
            let q = post-Passed later (run es (post a st).1) again in
            let v = a.beat.validator_id in
            let first : Reached a.beat.seq (get_last_seq v (post a st).1.latest) =
              subst (λ r. Reached a.beat.seq (get_last_seq v r.1.latest)) (sym p.same)
                (header-Reached (given a.header) a.label a.beat a.ip a.now st
                  (ap (λ r. is_accepted r.0) (sym p.same) ∙ e)) in
            let kept = run-Reached a.beat.seq v es (post a st).1 first in
            let old = Reached-stale a.beat.seq later.beat.seq _ kept le in
            let old' =
              ap (λ k. is_stale (get_last_seq k (run es (post a st).1).latest) later.beat.seq) same
              ∙ old in
            absurd (cc (q.fresh, old'))
      ]

  abbrev pub IsBounded : HeartbeatState → Type 0
  IsBounded st = length st.reject_log ≤ reject_cap

  rejected-IsBounded :
      (b : Beat) (reason : RejectReason) (ip : Text) (now : ℕ) (st : HeartbeatState)
      → IsBounded (rejected b reason ip now st)
  rejected-IsBounded b reason ip now st = log_reject-bound _ st.reject_log

  verdict-IsBounded :
      (o : Option Bool) (label : Text) (b : Beat) (signature ip : Text) (now : ℕ)
      (st : HeartbeatState)
      → IsBounded st
      → IsBounded (by_verdict signature_verify o label b signature ip now st).1
  verdict-IsBounded none label b signature ip now st h = h
  verdict-IsBounded (some false) label b signature ip now st h =
      rejected-IsBounded b bad_signature ip now st
  verdict-IsBounded (some true) label b signature ip now st h = h

  header-IsBounded :
      (o : Option Text) (label : Text) (b : Beat) (ip : Text) (now : ℕ) (st : HeartbeatState)
      → IsBounded st
      → IsBounded (by_header signature_verify o label b ip now st).1
  header-IsBounded none label b ip now st h = rejected-IsBounded b no_signature ip now st
  header-IsBounded (some signature) label b ip now st h =
      verdict-IsBounded (signature_verify (signing_string b) signature b.validator_id) label b
        signature ip now st h

  post-IsBounded : (a : Attempt) (st : HeartbeatState) → IsBounded st → IsBounded (post a st).1
  unfolding admit
  post-IsBounded a st h =
      let b = a.beat in
      let last = post_time b.validator_id st.last_post in
      elim (Bool-cases (ltb 0 last && ltb (a.now - last) min_post_interval_ms)) [
        | inl limited ↦ simp limited h
        | inr rested ↦ elim (Bool-cases (ltb 120 (distance b.timestamp (a.now / 1_000)))) [
          | inl far ↦ simp (rested, far) (rejected-IsBounded b _ a.ip a.now st)
          | inr near ↦ elim (Bool-cases (is_stale (get_last_seq b.validator_id st.latest) b.seq)) [
            | inl old ↦ simp (rested, near, old) h
            | inr fresh ↦
                simp (rested, near, fresh)
                  (header-IsBounded (given a.header) a.label b a.ip a.now st h)
          ]
        ]
      ]

  -- The log of rejections never holds more than 1000 rows, whatever is posted.
  pub run-IsBounded : (es : List Event) (st : HeartbeatState) → IsBounded st → IsBounded (run es st)
  unfolding run
  run-IsBounded [] st h = h
  run-IsBounded (posted a ∷ es) st h = run-IsBounded es (post a st).1 (post-IsBounded a st h)
  run-IsBounded (cleaned now ∷ es) st h = run-IsBounded es (happen (cleaned now) st) h
