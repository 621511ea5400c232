-- ===== src/Journey.antt =====
-- The milestones of the SPO journey page (src/routes/spo-journey-state.ts). A detail is the choice of
-- its text with the numbers that the text shows; `toLocaleString` and the wording are left out, and
-- a title follows from the milestone's id. Block numbers and ages are whole numbers. A comparison of
-- two blocks is written without subtraction where the source's difference could be negative.
pub mod Verdicts
mod Tests
use materios_gateway.Prelude.{
  ℕ, ◌+◌, ◌-◌, ◌*◌, ◌/◌, Bool, true, false, Option, none, some, List, [], ◌∷◌, leb, ltb, is_some,
  not, ◌&&◌, if◌then◌else◌,
}

abbrev pub grace_blocks : ℕ
grace_blocks = 14_400

abbrev pub window_blocks : ℕ
window_blocks = 28_800

abbrev pub slot_seconds : ℕ
slot_seconds = 6

abbrev pub at_tip_blocks : ℕ
at_tip_blocks = 60

abbrev pub finality_lag_blocks : ℕ
finality_lag_blocks = 600

abbrev pub heartbeat_stale_seconds : ℕ
heartbeat_stale_seconds = 600

pub record JourneyHeartbeat : Type 0 where
  pub best_block : ℕ
  pub finalized_block : ℕ
  pub age_seconds : ℕ

pub record JourneyInputs : Type 0 where
  pub best_block : ℕ
  pub finalized_block : ℕ
  pub first_selected : Option ℕ
  pub last_authored : Option ℕ
  pub in_current_committee : Bool
  pub in_next_committee : Bool
  pub registration_seen : Option Bool
  pub heartbeat : Option JourneyHeartbeat

pub data MilestoneStatus : Type 0 where
  done active pending warning unknown : MilestoneStatus

pub data MilestoneId : Type 0 where
  registered selected authoring liveness finality : MilestoneId

-- `formatBlockAge`: a number with its unit; days in tenths.
pub data Age : Type 0 where
  seconds minutes hours tenths_of_days : ℕ → Age

pub format_block_age : ℕ → Age
format_block_age blocks =
    let s = blocks * slot_seconds in
    if ltb s 60
    then seconds s
    else if ltb s 3_600
    then minutes ((s + 30) / 60)
    else if ltb s 86_400
    then hours ((s + 1_800) / 3_600)
    else tenths_of_days ((s + 4_320) / 8_640)

pub data Membership : Type 0 where
  current_committee next_committee no_committee : Membership

pub data Detail : Type 0 where
  registration_found not_checked no_registration : Detail
  first_selected_at : ℕ → Age → Membership → Detail
  not_selected : Detail
  authored_at authored_beyond_window : ℕ → Age → Detail
  never_authored : Detail
  blocks_remaining : ℕ → Detail
  authoring_later : Detail
  within_window in_grace not_applicable evicted : Detail
  no_heartbeat : Detail
  heartbeats_stopped : ℕ → Detail
  finality_lags : ℕ → ℕ → ℕ → Detail
  finality_tracks : ℕ → ℕ → Detail
  syncing : ℕ → Detail

pub data Guidance : Type 0 where
  submit_registration wait_for_epoch use_snapshot bring_online enable_heartbeats : Guidance
  replace_database : Guidance

pub record Milestone : Type 0 where
  pub id : MilestoneId
  pub status : MilestoneStatus
  pub detail : Detail
  pub guidance : Option Guidance

abbrev pub milestone : MilestoneId → MilestoneStatus → Detail → Option Guidance → Milestone
milestone id status detail guidance = record {
  id = id;
  status = status;
  detail = detail;
  guidance = guidance;
}

abbrev pub registered_by : Option Bool → Milestone
registered_by none = milestone registered unknown not_checked none
registered_by (some true) = milestone registered done registration_found none
registered_by (some false) = milestone registered pending no_registration (some submit_registration)

pub registered_milestone : JourneyInputs → Milestone
registered_milestone i = registered_by i.registration_seen

abbrev membership : JourneyInputs → Membership
membership i =
    if i.in_current_committee
    then current_committee
    else if i.in_next_committee
    then next_committee
    else no_committee

abbrev pub selected_by : JourneyInputs → Option ℕ → Milestone
selected_by i none = milestone selected pending not_selected (some wait_for_epoch)
selected_by i (some first) =
    milestone selected done
      (first_selected_at first (format_block_age (i.best_block - first)) (membership i)) none

pub selected_milestone : JourneyInputs → Milestone
selected_milestone i = selected_by i i.first_selected

abbrev pub authoring_by : ℕ → Option ℕ → Option ℕ → Milestone
authoring_by best (some last) first =
    if leb best (last + window_blocks)
    then milestone authoring done (authored_at last (format_block_age (best - last))) none
    else milestone authoring warning (authored_beyond_window last (format_block_age (best - last)))
        (some use_snapshot)
authoring_by best none (some first) =
    if ltb (first + grace_blocks) best
    then milestone authoring warning never_authored (some use_snapshot)
    else milestone authoring active (blocks_remaining (grace_blocks + first - best)) none
authoring_by best none none = milestone authoring pending authoring_later none

pub authoring_milestone : JourneyInputs → Milestone
authoring_milestone i = authoring_by i.best_block i.last_authored i.first_selected

abbrev liveness_warning : Milestone
liveness_warning = milestone liveness warning evicted (some bring_online)

-- `last !== null && best - last <= WINDOW_BLOCKS`
abbrev authored_in_window : ℕ → Option ℕ → Bool
authored_in_window best none = false
authored_in_window best (some last) = leb best (last + window_blocks)

-- `first !== null && best - first <= GRACE_BLOCKS`
abbrev selected_in_grace : ℕ → Option ℕ → Bool
selected_in_grace best none = false
selected_in_grace best (some first) = leb best (first + grace_blocks)

abbrev pub liveness_by : ℕ → Option ℕ → Option ℕ → Milestone
liveness_by best last first =
    if authored_in_window best last
    then milestone liveness done within_window none
    else if not (is_some last) && selected_in_grace best first
    then milestone liveness active in_grace none
    else if not (is_some first) && not (is_some last)
    then milestone liveness pending not_applicable none
    else liveness_warning

pub liveness_milestone : JourneyInputs → Milestone
liveness_milestone i = liveness_by i.best_block i.last_authored i.first_selected

abbrev pub finality_by : JourneyInputs → Option JourneyHeartbeat → Milestone
finality_by i none = milestone finality unknown no_heartbeat (some enable_heartbeats)
finality_by i (some hb) =
    if ltb heartbeat_stale_seconds hb.age_seconds
    then milestone finality pending (heartbeats_stopped hb.age_seconds) none
    else if leb i.best_block (hb.best_block + at_tip_blocks)
    then (if ltb (hb.finalized_block + finality_lag_blocks) i.finalized_block
        then milestone finality warning
            (finality_lags hb.best_block hb.finalized_block i.finalized_block)
            (some replace_database)
        else milestone finality done (finality_tracks hb.best_block hb.finalized_block) none)
    else milestone finality pending (syncing (i.best_block - hb.best_block)) none

pub finality_milestone : JourneyInputs → Milestone
finality_milestone i = finality_by i i.heartbeat

pub compute_journey : JourneyInputs → List Milestone
compute_journey i =
    registered_milestone i
    ∷ selected_milestone i
    ∷ authoring_milestone i
    ∷ liveness_milestone i
    ∷ finality_milestone i
    ∷ []
