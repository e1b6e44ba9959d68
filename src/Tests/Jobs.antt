-- ===== src/Tests/Jobs.antt =====
-- A table with one job that is due, a trigger for the same key, and one for another.
use blue_lagoon.Base.{◌≡◌, refl, true, false, none, some, [], ◌∷◌, codes, any, ok}
use blue_lagoon.Contracts.Action.{memory_consolidation}
use blue_lagoon.Policy.{default_background_budget, validate_background_budget}
use blue_lagoon.Background.{time_schedule, UnconsciousScope, Jobs}
use blue_lagoon.Background.Jobs.{fits_columns, shares_identity, lease_due_job}
use blue_lagoon.Background.Jobs.Lease.{Leased, lease_due_job-Leased}
use blue_lagoon.Background.Planning.{
  BackgroundPlanningRequest, PlanningStore, is_compatible, normalize_dedup_component, new_job,
}
use blue_lagoon.Background.Planning.Total.{Planned, plan_background_job_total}
use blue_lagoon.Tests.Samples.{config}

abbrev scope : UnconsciousScope
scope = record {
  episode_ids = [];
  memory_artifact_ids = [];
  retrieval_artifact_ids = [];
  self_model_artifact_id = none;
  internal_principal_ref = none;
  internal_conversation_ref = some (codes "owner-chat");
  summary = codes "nothing yet";
}

abbrev earlier : BackgroundPlanningRequest
earlier = record {
  trace_id = 1;
  job_kind = memory_consolidation;
  trigger = record {
    trigger_id = 81;
    trigger_kind = time_schedule;
    requested_at = 100;
    reason_summary = codes "nightly";
    payload_ref = none;
  };
  internal_conversation_ref = some (codes "owner-chat");
  available_at = 120;
}

-- The same conversation, spelt in another way.
abbrev request : BackgroundPlanningRequest
request = record earlier {
  trigger = record earlier.trigger { trigger_id = 82 };
  internal_conversation_ref = some (codes "Owner  Chat");
}

abbrev jobs : Jobs
jobs = new_job 100 91 config scope earlier ∷ []

abbrev before : PlanningStore
before = record { jobs = jobs; audit = [] }

same_component :
    normalize_dedup_component (codes "Owner  Chat") ≡ normalize_dedup_component (codes "owner-chat")
unfolding normalize_dedup_component
same_component = refl

lease_due_job-Leased_example :
    Leased 200 500 jobs (lease_due_job 201 200 500 jobs).0 (lease_due_job 201 200 500 jobs).1
lease_due_job-Leased_example = lease_due_job-Leased 201 200 500 jobs

kinds_are_compatible : is_compatible memory_consolidation time_schedule ≡ true
unfolding is_compatible
kinds_are_compatible = refl

budget_is_valid : validate_background_budget (default_background_budget config) ≡ ok tt
unfolding validate_background_budget default_background_budget
budget_is_valid = refl

budget_fits : fits_columns (default_background_budget config) ≡ true
unfolding default_background_budget
budget_fits = refl

job_is_fresh : any (shares_identity (new_job 150 92 config scope request)) jobs ≡ false
unfolding any
job_is_fresh = refl

plan_background_job_total_example : Planned 150 92 config scope request before
plan_background_job_total_example =
    plan_background_job_total 150 92 config scope request before kinds_are_compatible
      budget_is_valid budget_fits job_is_fresh
