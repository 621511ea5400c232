-- ===== src/Journey/Tests.antt =====
-- Journeys of concrete validators, and the theorems at such inputs.
use materios_gateway.Prelude.{◌≡◌, refl, true, false, none, some, All}
use materios_gateway.Journey.{
  JourneyInputs, warning, tenths_of_days, format_block_age, authoring_milestone, liveness_milestone,
  finality_milestone, compute_journey,
}
use materios_gateway.Journey.Verdicts.{liveness-authoring, is_helpful, compute_journey-helpful}

abbrev silent : JourneyInputs
silent = record {
  best_block = 50_000;
  finalized_block = 49_990;
  first_selected = some 30_000;
  last_authored = none;
  in_current_committee = false;
  in_next_committee = true;
  registration_seen = some true;
  heartbeat = some (record { best_block = 49_950; finalized_block = 49_000; age_seconds = 20 });
}

age_of_genesis : format_block_age 30_000 ≡ tenths_of_days 21
unfolding format_block_age
age_of_genesis = refl

silent_evicted : (liveness_milestone silent).status ≡ warning
unfolding liveness_milestone
silent_evicted = refl

silent_diverged : (finality_milestone silent).status ≡ warning
unfolding finality_milestone
silent_diverged = refl

liveness-authoring_example :
    (liveness_milestone silent).status ≡ (authoring_milestone silent).status
liveness-authoring_example = liveness-authoring silent

compute_journey-helpful_example : All (λ m. is_helpful m ≡ true) (compute_journey silent)
compute_journey-helpful_example = compute_journey-helpful silent
