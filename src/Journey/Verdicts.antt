-- ===== src/Journey/Verdicts.antt =====
-- Laws of the verdicts of src/routes/spo-journey-state.ts.
use materios_gateway.Prelude.{
  ℕ, ◌+◌, ◌≤◌, ◌≡◌, refl, Bool, true, false, not, ◌||◌, Option, none, some, arith, All, leb, ltb,
  is_some, Bool-cases, Option-cases, inl, inr,
}
use materios_gateway.Journey.{
  JourneyInputs, Milestone, MilestoneStatus, done, active, pending, warning, unknown, authoring_by,
  liveness_by, registered_by, selected_by, finality_by, registered_milestone, selected_milestone,
  authoring_milestone, liveness_milestone, finality_milestone, compute_journey, window_blocks,
  grace_blocks, heartbeat_stale_seconds, at_tip_blocks, finality_lag_blocks,
}

by_status :
    (best : ℕ) (last first : Option ℕ)
    → (liveness_by best last first).status ≡ (authoring_by best last first).status
by_status best (some last) first = elim (Bool-cases (leb best (last + window_blocks))) [
  | inl e ↦ rw e refl
  | inr e ↦ ground arith
]
by_status best none (some first) = elim (Bool-cases (leb best (first + grace_blocks))) [
  | inl e ↦ let d : ltb (first + grace_blocks) best ≡ false = ground arith in rw (e, d) refl
  | inr e ↦ let d : ltb (first + grace_blocks) best ≡ true = ground arith in rw (e, d) refl
]
by_status best none none = refl

-- The liveness filter and the authoring milestone never disagree: for every input they have the same
-- status, though they are computed by different conditions.
pub liveness-authoring :
    (i : JourneyInputs) → (liveness_milestone i).status ≡ (authoring_milestone i).status
unfolding liveness_milestone authoring_milestone
liveness-authoring i = by_status i.best_block i.last_authored i.first_selected

evicted_by :
    (best best' : ℕ) (last first : Option ℕ)
    → best ≤ best'
    → (liveness_by best last first).status ≡ warning
    → (liveness_by best' last first).status ≡ warning
evicted_by best best' (some last) first le h = elim (Bool-cases (leb best (last + window_blocks))) [
  | inl e ↦ absurd (ground arith)
  | inr e ↦ let d : leb best' (last + window_blocks) ≡ false = ground arith in ground arith
]
evicted_by best best' none (some first) le h = elim (Bool-cases (leb best (first + grace_blocks))) [
  | inl e ↦ absurd (ground arith)
  | inr e ↦ let d : leb best' (first + grace_blocks) ≡ false = ground arith in rw d refl
]
evicted_by best best' none none le h = absurd (ground arith)

-- A validator that the liveness filter shows as evicted stays so as the chain grows, as long as it
-- authors no block and its first selection is what it was.
liveness_evicted :
    (i : JourneyInputs) (best' : ℕ)
    → i.best_block ≤ best'
    → (liveness_milestone i).status ≡ warning
    → (liveness_milestone (record i { best_block = best' })).status ≡ warning
unfolding liveness_milestone
liveness_evicted i best' le h = evicted_by i.best_block best' i.last_authored i.first_selected le h

abbrev pub is_warning : MilestoneStatus → Bool
is_warning warning = true
is_warning done = false
is_warning active = false
is_warning pending = false
is_warning unknown = false

-- A warning comes with guidance.
abbrev pub is_helpful : Milestone → Bool
is_helpful m = not (is_warning m.status) || is_some m.guidance

registered-helpful : (r : Option Bool) → is_helpful (registered_by r) ≡ true
registered-helpful none = refl
registered-helpful (some true) = refl
registered-helpful (some false) = refl

selected-helpful : (i : JourneyInputs) (f : Option ℕ) → is_helpful (selected_by i f) ≡ true
selected-helpful i none = refl
selected-helpful i (some first) = refl

authoring-helpful :
    (best : ℕ) (last first : Option ℕ) → is_helpful (authoring_by best last first) ≡ true
authoring-helpful best (some last) first = elim (Bool-cases (leb best (last + window_blocks))) [
  | inl e ↦ rw e refl
  | inr e ↦ rw e refl
]
authoring-helpful best none (some first) = elim (Bool-cases (ltb (first + grace_blocks) best)) [
  | inl e ↦ rw e refl
  | inr e ↦ rw e refl
]
authoring-helpful best none none = refl

liveness-helpful :
    (best : ℕ) (last first : Option ℕ) → is_helpful (liveness_by best last first) ≡ true
liveness-helpful best (some last) first = elim (Bool-cases (leb best (last + window_blocks))) [
  | inl e ↦ rw e refl
  | inr e ↦ ground arith
]
liveness-helpful best none (some first) = elim (Bool-cases (leb best (first + grace_blocks))) [
  | inl e ↦ rw e refl
  | inr e ↦ rw e refl
]
liveness-helpful best none none = refl

finality-helpful : (i : JourneyInputs) → is_helpful (finality_by i i.heartbeat) ≡ true
finality-helpful i = elim (Option-cases i.heartbeat) [
  | inl missing ↦ rw missing refl
  | inr (hb, found) ↦ elim (Bool-cases (ltb heartbeat_stale_seconds hb.age_seconds)) [
    | inl stale ↦ rw (found, stale) refl
    | inr fresh ↦ elim (Bool-cases (leb i.best_block (hb.best_block + at_tip_blocks))) [
      | inl tip ↦
          elim (Bool-cases (ltb (hb.finalized_block + finality_lag_blocks) i.finalized_block)) [
            | inl lags ↦ rw (found, fresh, tip, lags) refl
            | inr tracks ↦ rw (found, fresh, tip, tracks) refl
          ]
      | inr behind ↦ rw (found, fresh, behind) refl
    ]
  ]
]

-- Every milestone of a journey that is a warning tells the operator what to do.
pub compute_journey-helpful :
    (i : JourneyInputs) → All (λ m. is_helpful m ≡ true) (compute_journey i)
unfolding compute_journey registered_milestone selected_milestone authoring_milestone
    liveness_milestone finality_milestone
compute_journey-helpful i = (
  registered-helpful i.registration_seen,
  (
    selected-helpful i i.first_selected,
    (
      authoring-helpful i.best_block i.last_authored i.first_selected,
      (liveness-helpful i.best_block i.last_authored i.first_selected, (finality-helpful i, tt)),
    ),
  ),
)
