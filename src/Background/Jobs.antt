-- ===== src/Background/Jobs.antt =====
-- The table of background jobs, of crates/harness/src/background.rs. The primary key, the unique
-- indexes on the trigger with its job kind and on the key of an active job, and the CHECKs on the
-- budget are tests of the INSERT, which no caller uses with a status other than `planned`.
pub mod Lease
use blue_lagoon.Base.{
  ℕ, Bool, true, false, not, ◌&&◌, ◌||◌, Option, none, some, List, [], ◌∷◌, map, Text, ltb, leb,
  ◌==◌, if◌then◌else◌, any, find, text_eq, Result, ok, err, bail_if, ◌>>=◌, ◌>>◌,
}
use blue_lagoon.Contracts.Action.{
  Uuid, Instant, UnconsciousJobKind, memory_consolidation, retrieval_maintenance,
  contradiction_and_drift_scan, self_model_reflection,
}
use blue_lagoon.Contracts.Ingress.{BackgroundExecutionBudget}
use blue_lagoon.Background.{
  BackgroundJobRecord, BackgroundJobStatus, leased, Jobs, is_active, is_planned,
}

pub data JobError : Type 0 where
  budget_out_of_range check_violated unique_violation : JobError

abbrev pub i32_max : ℕ
i32_max = 2147483647

abbrev pub i64_max : ℕ
i64_max = 9223372036854775807

abbrev pub same_kind : UnconsciousJobKind → UnconsciousJobKind → Bool
same_kind memory_consolidation memory_consolidation = true
same_kind retrieval_maintenance retrieval_maintenance = true
same_kind contradiction_and_drift_scan contradiction_and_drift_scan = true
same_kind self_model_reflection self_model_reflection = true
same_kind _ _ = false

abbrev pub is_active_with : (deduplication_key : Text) → BackgroundJobRecord → Bool
is_active_with key row = is_active row.status && text_eq row.deduplication_key key

-- With the unique index there is at most one such row, so the order of the query does not matter.
unfoldable pub find_active_job_by_deduplication_key :
    (deduplication_key : Text) → Jobs → Option BackgroundJobRecord
unfolding find text_eq
find_active_job_by_deduplication_key key rows = find (is_active_with key) rows

-- The primary key, or the trigger with the job kind.
abbrev pub shares_identity : BackgroundJobRecord → BackgroundJobRecord → Bool
shares_identity job row =
    row.background_job_id == job.background_job_id
    || (row.trigger.trigger_id == job.trigger.trigger_id && same_kind row.job_kind job.job_kind)

abbrev pub fits_columns : BackgroundExecutionBudget → Bool
fits_columns budget =
    leb budget.iteration_budget i32_max
    && leb budget.wall_clock_budget_ms i64_max
    && leb budget.token_budget i32_max

abbrev pub has_zero : BackgroundExecutionBudget → Bool
has_zero budget =
    budget.iteration_budget == 0 || budget.wall_clock_budget_ms == 0 || budget.token_budget == 0

unfoldable pub insert_job : BackgroundJobRecord → Jobs → Result JobError Jobs
unfolding any text_eq
insert_job job rows = do
  bail_if (not (fits_columns job.budget)) budget_out_of_range
  bail_if (has_zero job.budget) check_violated
  bail_if (any (shares_identity job) rows || any (is_active_with job.deduplication_key) rows)
      unique_violation
  ok (job ∷ rows)

abbrev pub is_due : (due_before_or_at : Instant) → BackgroundJobRecord → Bool
is_due due_before_or_at row = is_planned row.status && leb row.available_at due_before_or_at

-- `ORDER BY available_at ASC, created_at ASC`
abbrev pub comes_before : BackgroundJobRecord → BackgroundJobRecord → Bool
comes_before row other =
    ltb row.available_at other.available_at
    || (row.available_at == other.available_at && leb row.created_at other.created_at)

abbrev pub earlier_of : BackgroundJobRecord → Option BackgroundJobRecord → BackgroundJobRecord
earlier_of row none = row
earlier_of row (some other) = if comes_before row other then row else other

unfoldable pub next_due_job : (due_before_or_at : Instant) → Jobs → Option BackgroundJobRecord
next_due_job due_before_or_at [] = none
next_due_job due_before_or_at (row ∷ rows) =
    let rest = next_due_job due_before_or_at rows in
    if is_due due_before_or_at row then some (earlier_of row rest) else rest

abbrev pub leased_row : (now lease_expires_at : Instant) → BackgroundJobRecord → BackgroundJobRecord
leased_row now lease_expires_at row = record row {
  status = leased;
  lease_expires_at = some lease_expires_at;
  updated_at = now;
}

abbrev pub lease_row :
    Uuid → (now lease_expires_at : Instant) → BackgroundJobRecord → BackgroundJobRecord
lease_row id now lease_expires_at row =
    if row.background_job_id == id then leased_row now lease_expires_at row else row

-- The job that is returned keeps the `updated_at` that was read.
abbrev pub lease_found :
    (now lease_expires_at : Instant)
    → Option BackgroundJobRecord
    → Jobs
    → Option BackgroundJobRecord × Jobs
lease_found now lease_expires_at none rows = (none, rows)
lease_found now lease_expires_at (some job) rows = (
  some (record job { status = leased; lease_expires_at = some lease_expires_at }),
  map (lease_row job.background_job_id now lease_expires_at) rows,
)

-- `FOR UPDATE SKIP LOCKED` passes over a row that another transaction holds; here a transaction is
-- one step, so no row is held.
unfoldable pub lease_due_job :
    (now due_before_or_at lease_expires_at : Instant) → Jobs → Option BackgroundJobRecord × Jobs
unfolding next_due_job
lease_due_job now due_before_or_at lease_expires_at rows =
    lease_found now lease_expires_at (next_due_job due_before_or_at rows) rows
