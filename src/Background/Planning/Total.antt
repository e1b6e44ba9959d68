-- ===== src/Background/Planning/Total.antt =====
-- Planning of a compatible job always comes to a decision, and leaves an active job with its key.
use blue_lagoon.Base.{
  ◌≡◌, refl, inl, inr, Bool, true, false, ◌&&◌, none, some, [], ◌∷◌, Text, any, find, ◌==◌, ==_refl,
  text_eq_refl, Option-cases, ok, arith,
}
use blue_lagoon.Contracts.Action.{Uuid, Instant}
use blue_lagoon.Contracts.Ingress.{BackgroundExecutionBudget}
use blue_lagoon.Config.{RuntimeConfig}
use blue_lagoon.Policy.{default_background_budget, validate_background_budget}
use blue_lagoon.Background.{UnconsciousScope, BackgroundJobRecord, Jobs}
use blue_lagoon.Background.Jobs.{
  is_active_with, shares_identity, fits_columns, has_zero, find_active_job_by_deduplication_key,
  insert_job,
}
use blue_lagoon.Background.Planning.{
  BackgroundPlanningRequest, BackgroundPlanningDecision, planned_job, suppressed_duplicate,
  rejected, PlanningStore, PlannedBackgroundJob, inserted, is_compatible, key_of, new_job,
  plan_keyed, plan_background_job,
}

none_active :
    (key : Text) (rows : Jobs)
    → find_active_job_by_deduplication_key key rows ≡ none
    → any (is_active_with key) rows ≡ false
unfolding find_active_job_by_deduplication_key find any
none_active key [] h = refl
none_active key (row ∷ rows) h = let rest = none_active key rows in ground (arith, rest)

found_active :
    (key : Text) (rows : Jobs) (job : BackgroundJobRecord)
    → find_active_job_by_deduplication_key key rows ≡ some job
    → any (λ row. is_active_with key row && row.background_job_id == job.background_job_id) rows
      ≡ true
unfolding find_active_job_by_deduplication_key find any
found_active key [] job h = cc
found_active key (row ∷ rows) job h =
    let rest = found_active key rows job in
    let same = ==_refl job.background_job_id in ground (arith, rest, same, h)

any_first :
    (p q : BackgroundJobRecord → Bool) (rows : Jobs)
    → any (λ row. p row && q row) rows ≡ true
    → any p rows ≡ true
unfolding any
any_first p q [] h = h
any_first p q (row ∷ rows) h = let rest = any_first p q rows in ground (arith, rest)

budget_has_no_zero :
    (budget : BackgroundExecutionBudget)
    → validate_background_budget budget ≡ ok tt
    → has_zero budget ≡ false
unfolding validate_background_budget
budget_has_no_zero budget h = ground arith

insert_job-ok :
    (job : BackgroundJobRecord) (rows : Jobs)
    → fits_columns job.budget ≡ true
    → has_zero job.budget ≡ false
    → any (shares_identity job) rows ≡ false
    → any (is_active_with job.deduplication_key) rows ≡ false
    → insert_job job rows ≡ ok (job ∷ rows)
unfolding insert_job
insert_job-ok job rows fits positive fresh inactive = rw (fits, positive, fresh, inactive) refl

module _ (now : Instant) (id : Uuid) (config : RuntimeConfig) (scope : UnconsciousScope)
    (request : BackgroundPlanningRequest) where
  abbrev job : BackgroundJobRecord
  job = new_job now id config scope request

  abbrev added : PlannedBackgroundJob
  added = record {
    background_job_id = id;
    deduplication_key = key_of request;
    scope = scope;
    budget = default_background_budget config;
  }

  -- A job is added only if none was active with its key; otherwise an active one is named.
  abbrev pub Settled : BackgroundPlanningDecision → (before after : Jobs) → Type 0
  Settled (planned_job planned) before after =
      (any (is_active_with (key_of request)) before ≡ false) × (after ≡ job ∷ before)
  Settled (suppressed_duplicate existing key) before after =
      (any (λ row. is_active_with (key_of request) row && row.background_job_id == existing) before
        ≡ true)
      × (after ≡ before)
  Settled (rejected trigger_kind job_kind) before after = ⊥

  abbrev pub Planned : PlanningStore → Type 0
  Planned s =
      (decision : BackgroundPlanningDecision) × (after : PlanningStore) × (plan_background_job now
          id config scope request s
        ≡ (ok decision, after))
      × Settled decision s.jobs after.jobs
      × (any (is_active_with (key_of request)) after.jobs ≡ true)

  -- A job whose trigger suits its kind, under a valid budget that fits the columns, with a new id
  -- and a trigger that has no job of that kind yet, is planned, or is suppressed for an active job
  -- with its key: no unique index stops it. Afterwards there is an active job with the key.
  pub plan_background_job_total :
      (s : PlanningStore)
      → is_compatible request.job_kind request.trigger.trigger_kind ≡ true
      → validate_background_budget (default_background_budget config) ≡ ok tt
      → fits_columns (default_background_budget config) ≡ true
      → any (shares_identity job) s.jobs ≡ false
      → Planned s
  unfolding plan_background_job any
  plan_background_job_total s compatible valid fits fresh =
      elim (Option-cases (find_active_job_by_deduplication_key (key_of request) s.jobs)) [
        | inl e ↦
            (let inactive = none_active (key_of request) s.jobs e in
              let written =
                insert_job-ok job s.jobs fits
                  (budget_has_no_zero (default_background_budget config) valid) fresh inactive in
              (
                planned_job added,
                (inserted now id config scope request (ok (job ∷ s.jobs)) s).1,
                rw (compatible, valid, e, written) refl,
                (inactive, refl),
                rw (text_eq_refl (key_of request)) refl,
              ))
        | inr (existing, e) ↦
            (let active = found_active (key_of request) s.jobs existing e in
              (
                suppressed_duplicate existing.background_job_id (key_of request),
                (plan_keyed now id config scope request (some existing) s).1,
                rw (compatible, valid, e) refl,
                (active, refl),
                any_first (is_active_with (key_of request))
                    (λ row. row.background_job_id == existing.background_job_id) s.jobs active,
              ))
      ]
