-- ===== src/Firehose/Refine.antt =====
-- A writer keeps the newest events that were pushed since it last flushed (src/firehose/bus.ts).
use materios_gateway.Prelude.{
  ℕ, zero, suc, ◌+◌, ◌-◌, ◌≤◌, ◌≡◌, refl, ap, sym, ◌∙◌, false, Option, none, some, List, [], ◌∷◌,
  ◌++◌, length, drop, length-append, ltb, arith, Bool-cases, inl, inr,
}
use mathlib.Core.Path.{subst}
use native.Mathlib.Nat.{zero-add}
use materios_gateway.Firehose.{
  FirehoseEvent, BufferedWriter, new_writer, trim, push, flush, flush_queue,
}

-- What a client's connection does to its writer.
pub data Action : Type 0 where
  pushing : FirehoseEvent → Action
  ticking : Action

-- The abstract writer: all events since the last flush, of which the newest are sent.
abbrev pub newest : ℕ → List FirehoseEvent → List FirehoseEvent
newest cap es = drop (length es - cap) es

abbrev pub spec_tick :
    List FirehoseEvent → List FirehoseEvent → Option (List FirehoseEvent) × List FirehoseEvent
spec_tick [] es = (none, es)
spec_tick (s ∷ ss) es = (some (s ∷ ss), [])

abbrev pub spec_step :
    ℕ → Action → List FirehoseEvent → Option (List FirehoseEvent) × List FirehoseEvent
spec_step cap (pushing e) es = (none, es ++ e ∷ [])
spec_step cap ticking es = spec_tick (newest cap es) es

abbrev pub step : Action → BufferedWriter → Option (List FirehoseEvent) × BufferedWriter
step (pushing e) w = (none, push e w)
step ticking w = flush w

-- The batches that a sequence of actions flushes.
unfoldable pub spec_run : ℕ → List Action → List FirehoseEvent → List (Option (List FirehoseEvent))
spec_run cap [] es = []
spec_run cap (a ∷ as') es = let (out, es') = spec_step cap a es in out ∷ spec_run cap as' es'

unfoldable pub run : List Action → BufferedWriter → List (Option (List FirehoseEvent))
run [] w = []
run (a ∷ as') w = let (out, w') = step a w in out ∷ run as' w'

trim-drop :
    (cap : ℕ) (es : List FirehoseEvent) (dropped : ℕ)
    → trim cap es dropped ≡ (drop (length es - cap) es, dropped + (length es - cap))
trim-drop cap [] dropped =
    let none_over : 0 - cap ≡ 0 = omega arith in rw (none_over) (ground arith)
trim-drop cap (e ∷ es) dropped = elim (Bool-cases (ltb cap (length (e ∷ es)))) [
  | inl over ↦
      let one_more : length (e ∷ es) - cap ≡ suc (length es - cap) = ground arith in
      let counted : dropped + suc (length es - cap) ≡ dropped + 1 + (length es - cap) =
        omega arith in
      rw (over, one_more, counted) (trim-drop cap es (dropped + 1))
  | inr fits ↦
      let none_over : length (e ∷ es) - cap ≡ 0 = ground arith in
      rw (fits, none_over) (ground arith)
]

drop-append :
    (k : ℕ) (xs ys : List FirehoseEvent) → k ≤ length xs → drop k xs ++ ys ≡ drop k (xs ++ ys)
drop-append zero xs ys h = refl
drop-append (suc k) [] ys h = absurd (omega arith)
drop-append (suc k) (x ∷ xs) ys h = drop-append k xs ys (omega arith)

drop-nil : (n : ℕ) → drop {A = FirehoseEvent} n [] ≡ []
drop-nil zero = refl
drop-nil (suc n) = refl

drop-drop : (a b : ℕ) (xs : List FirehoseEvent) → drop a (drop b xs) ≡ drop (b + a) xs
drop-drop a zero xs = rw zero-add refl
drop-drop a (suc b) [] = drop-nil a ∙ sym (drop-nil (suc b + a))
drop-drop a (suc b) (x ∷ xs) =
    let next : suc b + a ≡ suc (b + a) = omega arith in rw next (drop-drop a b xs)

length-drop : (k : ℕ) (xs : List FirehoseEvent) → length (drop k xs) ≡ length xs - k
length-drop zero xs = omega arith
length-drop (suc k) [] = omega arith
length-drop (suc k) (x ∷ xs) = omega (arith, length-drop k xs)

-- Trimming after each event keeps the newest of all.
newest-append :
    (cap : ℕ) (es : List FirehoseEvent) (e : FirehoseEvent)
    → drop (length (newest cap es ++ e ∷ []) - cap) (newest cap es ++ e ∷ [])
      ≡ newest cap (es ++ e ∷ [])
newest-append cap es e =
    let k = length es - cap in
    let joined = drop-append k es (e ∷ []) (omega arith) in
    let count = length-drop k (es ++ e ∷ []) in
    let total = length-append {A = FirehoseEvent} es (e ∷ []) in
    let same : k + (length (drop k (es ++ e ∷ [])) - cap) ≡ length (es ++ e ∷ []) - cap =
      omega arith in
    rw joined (
      drop-drop (length (drop k (es ++ e ∷ [])) - cap) k (es ++ e ∷ [])
      ∙ ap (λ n. drop n (es ++ e ∷ [])) same)

-- A writer that stands for a list of events.
pub record Holds (w : BufferedWriter) (es : List FirehoseEvent) : Type 0 where
  pub open_lem : w.disposed ≡ false
  pub queued : w.queue ≡ newest w.soft_cap es
  pub counted : w.dropped ≡ length es - w.soft_cap

push-Holds :
    (e : FirehoseEvent) (w : BufferedWriter) (es : List FirehoseEvent)
    → Holds w es
    → Holds (push e w) (es ++ e ∷ [])
unfolding push
push-Holds e w es h =
    let all = w.queue ++ e ∷ [] in
    let t = trim-drop w.soft_cap all w.dropped in
    simp (h.open_lem) record {
      open_lem = refl;
      queued =
          ap (λ x. x.0) t
          ∙ ap (λ q. drop (length (q ++ e ∷ []) - w.soft_cap) (q ++ e ∷ [])) h.queued
          ∙ newest-append w.soft_cap es e;
      counted =
          ap (λ x. x.1) t
          ∙ omega (
            arith,
            ap length h.queued,
            length-drop (length es - w.soft_cap) es,
            length-append {A = FirehoseEvent} w.queue (e ∷ []),
            length-append {A = FirehoseEvent} es (e ∷ []),
            h.counted,
          );
    }

spec_tick-Holds :
    (w : BufferedWriter) (es queue : List FirehoseEvent)
    → Holds w es
    → w.queue ≡ queue
    → ((flush_queue queue w).0 ≡ (spec_tick queue es).0)
      × Holds (flush_queue queue w).1 (spec_tick queue es).1
spec_tick-Holds w es [] h e = (refl, h)
spec_tick-Holds w es (q ∷ qs) h e =
    (refl, record { open_lem = h.open_lem; queued = ground arith; counted = omega arith })

flush-Holds :
    (w : BufferedWriter) (es : List FirehoseEvent)
    → Holds w es
    → ((flush w).0 ≡ (spec_tick (newest w.soft_cap es) es).0)
      × Holds (flush w).1 (spec_tick (newest w.soft_cap es) es).1
unfolding flush
flush-Holds w es h =
    let ticked = spec_tick-Holds w es w.queue h refl in
    simp (h.open_lem) (
      subst
        (λ q.
          ((flush_queue w.queue w).0 ≡ (spec_tick q es).0)
          × Holds (flush_queue w.queue w).1 (spec_tick q es).1)
        h.queued ticked)

push-soft_cap : (e : FirehoseEvent) (w : BufferedWriter) → (push e w).soft_cap ≡ w.soft_cap
unfolding push
push-soft_cap e w = ground arith

flush_queue-soft_cap :
    (q : List FirehoseEvent) (w : BufferedWriter) → (flush_queue q w).1.soft_cap ≡ w.soft_cap
flush_queue-soft_cap [] w = refl
flush_queue-soft_cap (e ∷ es) w = refl

flush-soft_cap : (w : BufferedWriter) → (flush w).1.soft_cap ≡ w.soft_cap
unfolding flush
flush-soft_cap w = ground (arith, flush_queue-soft_cap w.queue w)

flush-at :
    (cap : ℕ) (w : BufferedWriter) (es : List FirehoseEvent)
    → Holds w es
    → w.soft_cap ≡ cap
    → ((flush w).0 ≡ (spec_tick (newest cap es) es).0)
      × Holds (flush w).1 (spec_tick (newest cap es) es).1
flush-at cap w es h c =
    subst
      (λ k.
        ((flush w).0 ≡ (spec_tick (newest k es) es).0)
        × Holds (flush w).1 (spec_tick (newest k es) es).1)
      c (flush-Holds w es h)

run-Holds :
    (as' : List Action) (cap : ℕ) (w : BufferedWriter) (es : List FirehoseEvent)
    → Holds w es
    → w.soft_cap ≡ cap
    → run as' w ≡ spec_run cap as' es
unfolding run spec_run
run-Holds [] cap w es h c = refl
run-Holds (pushing e ∷ as') cap w es h c =
    ap (λ r. none ∷ r)
      (run-Holds as' cap (push e w) (es ++ e ∷ []) (push-Holds e w es h) (push-soft_cap e w ∙ c))
run-Holds (ticking ∷ as') cap w es h c =
    let ticked = flush-at cap w es h c in
    ap (λ o. o ∷ run as' (flush w).1) ticked.0
    ∙ ap (λ r. (spec_tick (newest cap es) es).0 ∷ r)
        (run-Holds as' cap (flush w).1 (spec_tick (newest cap es) es).1 ticked.1
          (flush-soft_cap w ∙ c))

-- A new writer flushes, under whatever pushes and ticks of its timer, just what a list of all events
-- since the last flush would send if it sent its newest, as many as the cap: no event but the oldest
-- is dropped, none is sent twice, and their order is kept.
pub run_refines : (cap : ℕ) (as' : List Action) → run as' (new_writer cap) ≡ spec_run cap as' []
unfolding new_writer
run_refines cap as' =
    run-Holds as' cap (new_writer cap) []
      (record { open_lem = refl; queued = rw (drop-nil (0 - cap)) refl; counted = omega arith })
      refl

-- A writer that holds a list of events has no more of them queued than its cap, and has counted each
-- other one as dropped.
Holds-bound :
    (w : BufferedWriter) (es : List FirehoseEvent)
    → Holds w es
    → (length w.queue ≤ w.soft_cap) × (length w.queue + w.dropped ≡ length es)
Holds-bound w es h =
    let counted = h.counted in
    let queued = ap length h.queued in
    let count = length-drop (length es - w.soft_cap) es in (omega arith, omega arith)
