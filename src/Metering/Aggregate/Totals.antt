-- ===== src/Metering/Aggregate/Totals.antt =====
-- Laws of the single pass of `aggregateRecords` (src/billing/aggregate.ts).
use native.Mathlib.Nat.{zero-add}
use materios_gateway.Prelude.{
  ℕ, ◌+◌, ◌^◌, ◌≤◌, ◌≡◌, refl, ap, ◌∙◌, String, Bool, true, false, ◌||◌, Option, none, some, List,
  [], ◌∷◌, arith, All, any, length, ltb, ◌==◌, is_some, Bool-cases, inl, inr,
}
use materios_gateway.Sql.{count}
use materios_gateway.Metering.{Floats}
use materios_gateway.Metering.Aggregate.{
  AggregatableRecord, BillingAggregate, is_certified, is_tee_attested, add_worker, earlier, later,
  add_record, add_all, aggregate_records, empty_aggregate,
}

abbrev pub sum_of {ℓ} : {A : Type ℓ} → (A → ℕ) → List A → ℕ
sum_of f [] = 0
sum_of f (x ∷ xs) = f x + sum_of f xs

-- `lo` is at most the time and `hi` at least.
abbrev pub Spans : Option ℕ → Option ℕ → ℕ → Type 0
Spans none hi t = ⊥
Spans (some lo) none t = ⊥
Spans (some lo) (some hi) t = (lo ≤ t) × (t ≤ hi)

Spans-widen : (lo hi : Option ℕ) (s m : ℕ) → Spans lo hi m → Spans (earlier lo s) (later hi s) m
Spans-widen none hi s m h = absurd h
Spans-widen (some lo) none s m h = absurd h
Spans-widen (some lo) (some hi) s m (h, k) = elim (Bool-cases (ltb s lo)) [
  | inl e ↦ elim (Bool-cases (ltb hi s)) [
    | inl d ↦ rw (e, d) (ground arith)
    | inr d ↦ rw (e, d) (ground arith)
  ]
  | inr e ↦ elim (Bool-cases (ltb hi s)) [
    | inl d ↦ rw (e, d) (ground arith)
    | inr d ↦ rw (e, d) (ground arith)
  ]
]

Spans-new : (lo hi : Option ℕ) (s : ℕ) → Spans (earlier lo s) (later hi s) s
Spans-new none none s = ground arith
Spans-new none (some hi) s = elim (Bool-cases (ltb hi s)) [
  | inl d ↦ rw d (ground arith)
  | inr d ↦ rw d (ground arith)
]
Spans-new (some lo) none s = elim (Bool-cases (ltb s lo)) [
  | inl e ↦ rw e (ground arith)
  | inr e ↦ rw e (ground arith)
]
Spans-new (some lo) (some hi) s = elim (Bool-cases (ltb s lo)) [
  | inl e ↦ elim (Bool-cases (ltb hi s)) [
    | inl d ↦ rw (e, d) (ground arith)
    | inr d ↦ rw (e, d) (ground arith)
  ]
  | inr e ↦ elim (Bool-cases (ltb hi s)) [
    | inl d ↦ rw (e, d) (ground arith)
    | inr d ↦ rw (e, d) (ground arith)
  ]
]

module _ (F : Floats) where
  abbrev pub certified_record : AggregatableRecord F.Real → Bool
  certified_record r = is_certified r.attestation_status

  abbrev pub anchored_record : AggregatableRecord F.Real → Bool
  anchored_record r = is_some r.cardano_anchor_tx

  abbrev pub tee_record : AggregatableRecord F.Real → Bool
  tee_record r = is_tee_attested r.composite_trust_score

  add_all-counts :
      (t : BillingAggregate F.Real) (ws : List String) (rs : List (AggregatableRecord F.Real))
      → (((add_all F t ws rs).record_count ≡ t.record_count + length rs)
          × ((add_all F t ws rs).certified_count ≡ t.certified_count + count certified_record rs))
        × (((add_all F t ws rs).anchored_count ≡ t.anchored_count + count anchored_record rs)
            × ((add_all F t ws rs).tee_attested_count ≡ t.tee_attested_count + count tee_record rs))
  add_all-counts t ws [] = omega arith
  add_all-counts t ws (r ∷ rs) =
      let ih = add_all-counts (add_record F t r) (add_worker r.worker_id ws) rs in
      ground (arith, ih)

  module _ (zero_lem : F.zero_real ≡ F.of_safe 0)
      (exact : (a b : ℕ)
        → a + b ≤ 2 ^ 53
        → F.add_real (F.of_safe a) (F.of_safe b) ≡ F.of_safe (a + b)) where
    -- A total that the loop adds up is the sum.
    add_all-total :
        (total : BillingAggregate F.Real → F.Real) (of : AggregatableRecord F.Real → ℕ)
        → ((t : BillingAggregate F.Real) (r : AggregatableRecord F.Real)
            → total (add_record F t r) ≡ F.add_real (total t) (F.of_safe (of r)))
        → ((t : BillingAggregate F.Real) (k : ℕ)
            → total (record t { unique_workers = k }) ≡ total t)
        → (t : BillingAggregate F.Real) (ws : List String) (rs : List (AggregatableRecord F.Real))
          (n : ℕ)
        → total t ≡ F.of_safe n
        → n + sum_of of rs ≤ 2 ^ 53
        → total (add_all F t ws rs) ≡ F.of_safe (n + sum_of of rs)
    add_all-total total of step last t ws [] n e h =
        let same : n ≡ n + 0 = omega arith in last t (length ws) ∙ e ∙ ap (λ k. F.of_safe k) same
    add_all-total total of step last t ws (r ∷ rs) n e h =
        let same : n + of r + sum_of of rs ≡ n + sum_of of (r ∷ rs) = omega arith in
        add_all-total total of step last (add_record F t r) (add_worker r.worker_id ws) rs
          (n + of r)
          (step t r
            ∙ ap (λ x. F.add_real x (F.of_safe (of r))) e
            ∙ exact n (of r) (omega (arith, h)))
          (omega (arith, h))
        ∙ ap (λ k. F.of_safe k) same

    aggregate-total :
        (total : BillingAggregate F.Real → F.Real) (of : AggregatableRecord F.Real → ℕ)
        → ((t : BillingAggregate F.Real) (r : AggregatableRecord F.Real)
            → total (add_record F t r) ≡ F.add_real (total t) (F.of_safe (of r)))
        → ((t : BillingAggregate F.Real) (k : ℕ)
            → total (record t { unique_workers = k }) ≡ total t)
        → total (empty_aggregate F) ≡ F.zero_real
        → (rs : List (AggregatableRecord F.Real)) → sum_of of rs ≤ 2 ^ 53
        → total (aggregate_records F rs) ≡ F.of_safe (sum_of of rs)
    unfolding aggregate_records
    aggregate-total total of step last start rs h =
        add_all-total total of step last (empty_aggregate F) [] rs 0 (start ∙ zero_lem)
          (omega (arith, h))
        ∙ ap (λ k. F.of_safe k) (zero-add (sum_of of rs))

    -- The loop's counters are the number of records, of certified ones, of anchored ones and of those
    -- with a trust score of one or more; and its totals of bytes are the sums, if these are at most
    -- 2^53, up to which the addition of floating-point integers is supposed to be exact.
    pub aggregate_records_lem :
        (rs : List (AggregatableRecord F.Real))
        → sum_of (λ r. r.net_bytes_in) rs ≤ 2 ^ 53
        → sum_of (λ r. r.net_bytes_out) rs ≤ 2 ^ 53
        → ((((aggregate_records F rs).record_count ≡ length rs)
              × ((aggregate_records F rs).certified_count ≡ count certified_record rs))
            × (((aggregate_records F rs).anchored_count ≡ count anchored_record rs)
                × ((aggregate_records F rs).tee_attested_count ≡ count tee_record rs)))
          × (((aggregate_records F rs).net_bytes_in_total
                ≡ F.of_safe (sum_of (λ r. r.net_bytes_in) rs))
              × ((aggregate_records F rs).net_bytes_out_total
                  ≡ F.of_safe (sum_of (λ r. r.net_bytes_out) rs)))
    unfolding aggregate_records
    aggregate_records_lem rs h k =
        let counts = add_all-counts (empty_aggregate F) [] rs in
        (
          ground (arith, counts),
          (
            aggregate-total (λ t. t.net_bytes_in_total) (λ r. r.net_bytes_in) (λ t r. refl)
                (λ t n. refl) refl rs h,
            aggregate-total (λ t. t.net_bytes_out_total) (λ r. r.net_bytes_out) (λ t r. refl)
                (λ t n. refl) refl rs k,
          ),
        )

  Spans-kept :
      (t : BillingAggregate F.Real) (ws : List String) (rs : List (AggregatableRecord F.Real))
      (m : ℕ)
      → Spans t.first_record_ms t.last_record_ms m
      → Spans (add_all F t ws rs).first_record_ms (add_all F t ws rs).last_record_ms m
  Spans-kept t ws [] m h = h
  Spans-kept t ws (r ∷ rs) m h =
      Spans-kept (add_record F t r) (add_worker r.worker_id ws) rs m
        (Spans-widen t.first_record_ms t.last_record_ms r.period_start_ms m h)

  span-All :
      (t : BillingAggregate F.Real) (ws : List String) (rs : List (AggregatableRecord F.Real))
      → All
          (λ r.
            Spans
              (add_all F t ws rs).first_record_ms
              (add_all F t ws rs).last_record_ms
              r.period_start_ms)
          rs
  span-All t ws [] = tt
  span-All t ws (r ∷ rs) = (
    Spans-kept (add_record F t r) (add_worker r.worker_id ws) rs r.period_start_ms
        (Spans-new t.first_record_ms t.last_record_ms r.period_start_ms),
    span-All (add_record F t r) (add_worker r.worker_id ws) rs,
  )

  -- The totals' first and last time are those of a record of the list, or there is no record.
  abbrev pub attained : Option ℕ → List (AggregatableRecord F.Real) → Bool
  attained none [] = true
  attained none (r ∷ rs) = false
  attained (some m) rs = any (λ r. r.period_start_ms == m) rs

  first_from :
      (t : BillingAggregate F.Real) (ws : List String) (rs : List (AggregatableRecord F.Real))
      (s : ℕ)
      → t.first_record_ms ≡ some s
      → (m : ℕ) × (((add_all F t ws rs).first_record_ms ≡ some m)
          × ((s == m || any (λ r. r.period_start_ms == m) rs) ≡ true))
  first_from t ws [] s e = (s, (e, ground arith))
  first_from t ws (r ∷ rs) s e = elim (Bool-cases (ltb r.period_start_ms s)) [
    | inl new ↦
        let (m, (same, from)) =
          first_from (add_record F t r) (add_worker r.worker_id ws) rs r.period_start_ms
            (rw (e, new) refl) in
        (m, (same, ground arith))
    | inr old ↦
        let (m, (same, from)) =
          first_from (add_record F t r) (add_worker r.worker_id ws) rs s (rw (e, old) refl) in
        (m, (same, ground arith))
  ]

  last_from :
      (t : BillingAggregate F.Real) (ws : List String) (rs : List (AggregatableRecord F.Real))
      (s : ℕ)
      → t.last_record_ms ≡ some s
      → (m : ℕ) × (((add_all F t ws rs).last_record_ms ≡ some m)
          × ((s == m || any (λ r. r.period_start_ms == m) rs) ≡ true))
  last_from t ws [] s e = (s, (e, ground arith))
  last_from t ws (r ∷ rs) s e = elim (Bool-cases (ltb s r.period_start_ms)) [
    | inl new ↦
        let (m, (same, from)) =
          last_from (add_record F t r) (add_worker r.worker_id ws) rs r.period_start_ms
            (rw (e, new) refl) in
        (m, (same, ground arith))
    | inr old ↦
        let (m, (same, from)) =
          last_from (add_record F t r) (add_worker r.worker_id ws) rs s (rw (e, old) refl) in
        (m, (same, ground arith))
  ]

  -- Every record starts between the first and the last time of the totals, and both are the start
  -- of a record; they are null where there is no record.
  aggregate_records-Spans :
      (rs : List (AggregatableRecord F.Real))
      → All
          (λ r.
            Spans
              (aggregate_records F rs).first_record_ms
              (aggregate_records F rs).last_record_ms
              r.period_start_ms)
          rs
        × ((attained (aggregate_records F rs).first_record_ms rs ≡ true)
            × (attained (aggregate_records F rs).last_record_ms rs ≡ true))
  unfolding aggregate_records
  aggregate_records-Spans [] = (tt, (refl, refl))
  aggregate_records-Spans (r ∷ rs) =
      let one = add_record F (empty_aggregate F) r in
      let (m, (first, from)) = first_from one (r.worker_id ∷ []) rs r.period_start_ms refl in
      let (n, (last, upto)) = last_from one (r.worker_id ∷ []) rs r.period_start_ms refl in
      (span-All (empty_aggregate F) [] (r ∷ rs), (rw first from, rw last upto))
