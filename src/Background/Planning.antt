-- ===== src/Background/Planning.antt =====
-- `plan_background_job` of crates/harness/src/background_planning.rs. The scope that
-- `assemble_scope` reads is an argument, `id` is what `Uuid::now_v7` draws and `now` the database's
-- `NOW()`. Of an audit event, the kind, the trace and the job it names.
pub mod Total
use blue_lagoon.Base.{
  ℕ, Bool, true, false, not, ◌&&◌, ◌||◌, Option, none, some, List, [], ◌∷◌, ◌++◌, map, Text, codes,
  leb, ◌==◌, if◌then◌else◌, unwrap_or, to_ascii_lowercase, Result, ok, err,
}
use blue_lagoon.Contracts.Action.{
  Uuid, Instant, UnconsciousJobKind, memory_consolidation, retrieval_maintenance,
  contradiction_and_drift_scan, self_model_reflection,
}
use blue_lagoon.Contracts.Ingress.{BackgroundExecutionBudget}
use blue_lagoon.Config.{RuntimeConfig}
use blue_lagoon.Policy.{BudgetError, default_background_budget, validate_background_budget}
use blue_lagoon.Background.{
  BackgroundTriggerKind, time_schedule, volume_threshold, drift_or_anomaly_signal,
  foreground_delegation, external_passive_event, maintenance_trigger, BackgroundTrigger,
  UnconsciousScope, planned, BackgroundJobRecord, Jobs,
}
use blue_lagoon.Background.Jobs.{JobError, find_active_job_by_deduplication_key, insert_job}

pub record BackgroundPlanningRequest : Type 0 where
  pub trace_id : Uuid
  pub job_kind : UnconsciousJobKind
  pub trigger : BackgroundTrigger
  pub internal_conversation_ref : Option Text
  pub available_at : Instant

pub record PlannedBackgroundJob : Type 0 where
  pub background_job_id : Uuid
  pub deduplication_key : Text
  pub scope : UnconsciousScope
  pub budget : BackgroundExecutionBudget

pub data BackgroundPlanningDecision : Type 0 where
  planned_job : PlannedBackgroundJob → BackgroundPlanningDecision
  suppressed_duplicate :
      (existing_job_id : Uuid) (deduplication_key : Text) → BackgroundPlanningDecision
  rejected :
      (trigger_kind : BackgroundTriggerKind) (job_kind : UnconsciousJobKind)
      → BackgroundPlanningDecision

pub record PlanningEvent : Type 0 where
  pub event_kind : Text
  pub trace_id : Uuid
  pub background_job_id : Option Uuid

pub record PlanningStore : Type 0 where
  pub jobs : Jobs
  pub audit : List PlanningEvent

pub data PlanningError : Type 0 where
  invalid_budget : BudgetError → PlanningError
  not_inserted : JobError → PlanningError

-- `validate_background_trigger` accepts every trigger; what is left is the compatibility.
unfoldable pub is_compatible : UnconsciousJobKind → BackgroundTriggerKind → Bool
is_compatible contradiction_and_drift_scan drift_or_anomaly_signal = false
is_compatible _ _ = true

unfoldable pub job_kind_as_str : UnconsciousJobKind → Text
job_kind_as_str memory_consolidation = codes "memory_consolidation"
job_kind_as_str retrieval_maintenance = codes "retrieval_maintenance"
job_kind_as_str contradiction_and_drift_scan = codes "contradiction_and_drift_scan"
job_kind_as_str self_model_reflection = codes "self_model_reflection"

unfoldable pub trigger_kind_as_str : BackgroundTriggerKind → Text
trigger_kind_as_str time_schedule = codes "time_schedule"
trigger_kind_as_str volume_threshold = codes "volume_threshold"
trigger_kind_as_str drift_or_anomaly_signal = codes "drift_or_anomaly_signal"
trigger_kind_as_str foreground_delegation = codes "foreground_delegation"
trigger_kind_as_str external_passive_event = codes "external_passive_event"
trigger_kind_as_str maintenance_trigger = codes "maintenance_trigger"

abbrev pub is_ascii_alphanumeric : ℕ → Bool
is_ascii_alphanumeric c =
    (leb b'0' c && leb c b'9') || (leb b'A' c && leb c b'Z') || (leb b'a' c && leb c b'z')

abbrev pub or_dash : ℕ → ℕ
or_dash c = if is_ascii_alphanumeric c then c else b'-'

-- `str::split` at each dash.
abbrev pub onto_first : ℕ → List Text → List Text
onto_first c [] = (c ∷ []) ∷ []
onto_first c (word ∷ words) = (c ∷ word) ∷ words

unfoldable pub split_at_dashes : Text → List Text
split_at_dashes [] = [] ∷ []
split_at_dashes (c ∷ text) =
    let rest = split_at_dashes text in if c == b'-' then [] ∷ rest else onto_first c rest

-- The segments that are not empty, joined by dashes.
unfoldable pub join_segments : List Text → Text
join_segments [] = []
join_segments ([] ∷ words) = join_segments words
join_segments ((c ∷ word) ∷ words) =
    let rest = join_segments words in
    elim rest [ [] ↦ c ∷ word | d ∷ more ↦ (c ∷ word) ++ (b'-' ∷ d ∷ more) ]

abbrev pub or_unspecified : Text → Text
or_unspecified [] = codes "unspecified"
or_unspecified (c ∷ text) = c ∷ text

unfoldable pub normalize_dedup_component : Text → Text
unfolding to_ascii_lowercase split_at_dashes join_segments
normalize_dedup_component value =
    or_unspecified (join_segments (split_at_dashes (to_ascii_lowercase (map or_dash value))))

abbrev pub or_else : Option Text → Option Text → Option Text
or_else none other = other
or_else (some text) other = some text

unfoldable pub dedup_discriminator :
    BackgroundTrigger → (internal_conversation_ref : Option Text) → BackgroundTriggerKind → Text
dedup_discriminator trigger ref time_schedule = unwrap_or ref (codes "global")
dedup_discriminator trigger ref volume_threshold = unwrap_or ref (codes "global")
dedup_discriminator trigger ref _ =
    unwrap_or (or_else trigger.payload_ref ref) trigger.reason_summary

unfoldable pub build_deduplication_key :
    UnconsciousJobKind → BackgroundTrigger → (internal_conversation_ref : Option Text) → Text
unfolding job_kind_as_str trigger_kind_as_str dedup_discriminator normalize_dedup_component
build_deduplication_key job_kind trigger ref =
    codes "background:"
    ++ job_kind_as_str job_kind
    ++ codes ":"
    ++ trigger_kind_as_str trigger.trigger_kind
    ++ codes ":"
    ++ normalize_dedup_component (dedup_discriminator trigger ref trigger.trigger_kind)

abbrev pub key_of : BackgroundPlanningRequest → Text
key_of request =
    build_deduplication_key request.job_kind request.trigger request.internal_conversation_ref

abbrev pub Planning : Type 0
Planning = Result PlanningError BackgroundPlanningDecision × PlanningStore

abbrev pub with_event :
    (event_kind : Text) (trace_id : Uuid) (job : Option Uuid) → PlanningStore → PlanningStore
with_event event_kind trace_id job s = record s {
  audit =
      record { event_kind = event_kind; trace_id = trace_id; background_job_id = job } ∷ s.audit;
}

module _ (now : Instant) (id : Uuid) (config : RuntimeConfig) (scope : UnconsciousScope)
    (request : BackgroundPlanningRequest) where
  abbrev pub new_job : BackgroundJobRecord
  new_job = record {
    background_job_id = id;
    trace_id = request.trace_id;
    job_kind = request.job_kind;
    trigger = request.trigger;
    deduplication_key = key_of request;
    scope = scope;
    budget = default_background_budget config;
    status = planned;
    available_at = request.available_at;
    lease_expires_at = none;
    last_started_at = none;
    last_completed_at = none;
    created_at = now;
    updated_at = now;
  }

  abbrev pub inserted : Result JobError Jobs → PlanningStore → Planning
  inserted (err e) s = (err (not_inserted e), s)
  inserted (ok jobs) s = (
    ok (
        planned_job (record {
          background_job_id = id;
          deduplication_key = key_of request;
          scope = scope;
          budget = default_background_budget config;
        })),
    with_event (codes "background_job_planned") request.trace_id (some id)
        (record s { jobs = jobs }),
  )

  -- The transaction.
  abbrev pub plan_keyed : Option BackgroundJobRecord → PlanningStore → Planning
  plan_keyed (some existing) s = (
    ok (suppressed_duplicate existing.background_job_id (key_of request)),
    with_event (codes "background_job_suppressed") request.trace_id
        (some existing.background_job_id) s,
  )
  plan_keyed none s = inserted (insert_job new_job s.jobs) s

  abbrev pub plan_budgeted : Result BudgetError (Unit {0}) → PlanningStore → Planning
  plan_budgeted (err e) s = (err (invalid_budget e), s)
  plan_budgeted (ok u) s =
      plan_keyed (find_active_job_by_deduplication_key (key_of request) s.jobs) s

  unfoldable pub plan_background_job : PlanningStore → Planning
  unfolding is_compatible build_deduplication_key insert_job find_active_job_by_deduplication_key
      default_background_budget validate_background_budget
  plan_background_job s =
      if is_compatible request.job_kind request.trigger.trigger_kind
      then plan_budgeted (validate_background_budget (default_background_budget config)) s
      else (
        ok (rejected request.trigger.trigger_kind request.job_kind),
        with_event (codes "background_job_rejected") request.trace_id none s,
      )
