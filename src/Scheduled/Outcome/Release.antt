-- ===== src/Scheduled/Outcome/Release.antt =====
-- What the end of a run leaves.
use blue_lagoon.Base.{
  ◌≡◌, ◌≢◌, refl, sym, ◌∙◌, subst, Bool, any, ◌==◌, ==_refl, [], ◌∷◌, ◌&&◌, true, false, Option,
  none, some, find, leb, Bool-cases, inl, inr, unwrap_or, ok, arith,
}
use blue_lagoon.Contracts.Action.{Uuid, Instant}
use blue_lagoon.Scheduled.{
  Tasks, ScheduledForegroundTaskRecord, TaskRunOutcomeData, is_one_shot_task_key, has_id,
  replace_row,
}
use blue_lagoon.Scheduled.Claim.{is_claimable}
use blue_lagoon.Scheduled.Outcome.{is_owned_by, released_row, release, update_task_run_outcome}

-- The run is over and on record, the task is due again at the given time, and a one-shot task is
-- claimable at no time.
abbrev pub IsOver :
    ScheduledForegroundTaskRecord
    → (execution_id : Uuid) (completed_at : Instant) → TaskRunOutcomeData
    → (next_due_at : Instant) → ScheduledForegroundTaskRecord
    → Type 0
IsOver task execution_id completed_at data_ next_due_at row =
    (row.scheduled_foreground_task_id ≡ task.scheduled_foreground_task_id)
    × (row.current_execution_id ≡ none)
    × (row.current_run_started_at ≡ none)
    × (row.last_execution_id ≡ some execution_id)
    × (row.last_outcome ≡ some data_.outcome)
    × (row.last_run_completed_at ≡ some completed_at)
    × (row.next_due_at ≡ next_due_at)
    × (is_one_shot_task_key task.task_key ≡ true → (at : Instant) → is_claimable at row ≡ false)

-- The table before had a row of the task that the execution owned; the table after has the row
-- that is returned as its row of the task, and every other task as it was.
abbrev pub Released :
    ScheduledForegroundTaskRecord
    → (execution_id : Uuid) (completed_at : Instant) → TaskRunOutcomeData
    → (next_due_at : Instant) → (before after : Tasks) → ScheduledForegroundTaskRecord
    → Type 0
Released task execution_id completed_at data_ next_due_at before after row =
    let id = task.scheduled_foreground_task_id in
    IsOver task execution_id completed_at data_ next_due_at row
    × (any (λ old. old.scheduled_foreground_task_id == id && is_owned_by execution_id old) before
        ≡ true)
    × (find (has_id id) after ≡ some row)
    × ((other : Uuid) → other ≢ id → find (has_id other) after ≡ find (has_id other) before)

find_replaced :
    (new : ScheduledForegroundTaskRecord) (p : ScheduledForegroundTaskRecord → Bool) (rows : Tasks)
    → any (λ row. has_id new.scheduled_foreground_task_id row && p row) rows ≡ true
    → find (has_id new.scheduled_foreground_task_id) (replace_row new rows) ≡ some new
unfolding find any
find_replaced new p [] h = cc
find_replaced new p (row ∷ rows) h =
    let rest = find_replaced new p rows in
    let same = ==_refl new.scheduled_foreground_task_id in ground (arith, rest, same, h)

find_other :
    (new : ScheduledForegroundTaskRecord) (other : Uuid) (rows : Tasks)
    → other ≢ new.scheduled_foreground_task_id
    → find (has_id other) (replace_row new rows) ≡ find (has_id other) rows
unfolding find
find_other new other [] h = refl
find_other new other (row ∷ rows) h =
    let rest = find_other new other rows h in ground (arith, rest, h)

found_any :
    (p : ScheduledForegroundTaskRecord → Bool) (rows : Tasks)
    (found : ScheduledForegroundTaskRecord)
    → find p rows ≡ some found
    → (any p rows ≡ true) × (p found ≡ true)
unfolding find any
found_any p [] found h = cc
found_any p (row ∷ rows) found h = elim (Bool-cases (p row)) [
  | inl e ↦
      (let here : row ≡ found = ground (arith, e, h) in (rw e refl, subst (λ r. p r ≡ true) here e))
  | inr e ↦ (let rest = found_any p rows found (ground (arith, e, h)) in (rw e rest.0, rest.1))
]

abbrev owned : ScheduledForegroundTaskRecord → Uuid → ScheduledForegroundTaskRecord → Bool
owned task execution_id row =
    has_id task.scheduled_foreground_task_id row && is_owned_by execution_id row

module _ (task : ScheduledForegroundTaskRecord) (execution_id : Uuid) (completed_at now : Instant)
    (data_ : TaskRunOutcomeData) (next_due_at : Instant) where
  release-Released :
      (found : Option ScheduledForegroundTaskRecord) (rows rest : Tasks)
      (after : ScheduledForegroundTaskRecord)
      → find (owned task execution_id) rows ≡ found
      → release task execution_id completed_at now data_ next_due_at found rows ≡ ok (after, rest)
      → Released task execution_id completed_at data_ next_due_at rows rest after
  release-Released none rows rest after f h = cc
  release-Released (some row) rows rest after f h =
      let new =
        released_row (is_one_shot_task_key task.task_key) execution_id completed_at now data_
          next_due_at row in
      let seen = found_any (owned task execution_id) rows row f in
      let same : row.scheduled_foreground_task_id ≡ task.scheduled_foreground_task_id =
        ground (arith, seen.1) in
      elim (Bool-cases (leb (unwrap_or row.current_run_started_at completed_at) completed_at)) [
        | inl e ↦
            (let here : new ≡ after = ground (arith, e, h) in
              let table : replace_row new rows ≡ rest = ground (arith, e, h) in
              subst (λ t. Released task execution_id completed_at data_ next_due_at rows t after)
                table
                (subst
                  (Released task execution_id completed_at data_ next_due_at rows
                    (replace_row new rows))
                  here
                  (
                    (same, refl, refl, refl, refl, refl, refl, λ one at. rw one refl),
                    seen.0,
                    subst (λ id. find (has_id id) (replace_row new rows) ≡ some new) same
                        (find_replaced new (is_owned_by execution_id) rows (
                          subst
                            (λ id. any (λ r. has_id id r && is_owned_by execution_id r) rows ≡ true)
                            (sym same) seen.0)),
                    λ other apart. find_other new other rows (λ k. apart (k ∙ same)),
                  )))
        | inr e ↦ ground (arith, e, h)
      ]

-- An outcome that is recorded ends a run that the execution owned: in the table the task is free,
-- its run is on record, and it is due again at the time that was asked for. A one-shot task is left
-- so that it is claimable at no time. Every other task stays as it was.
pub update_task_run_outcome-Released :
    (task : ScheduledForegroundTaskRecord) (execution_id : Uuid) (completed_at now : Instant)
    (data_ : TaskRunOutcomeData) (next_due_at : Instant) (rows rest : Tasks)
    (after : ScheduledForegroundTaskRecord)
    → update_task_run_outcome task execution_id completed_at now data_ next_due_at rows
      ≡ ok (after, rest)
    → Released task execution_id completed_at data_ next_due_at rows rest after
unfolding update_task_run_outcome
update_task_run_outcome-Released task execution_id completed_at now data_ next_due_at rows rest
      after h =
    release-Released task execution_id completed_at now data_ next_due_at
      (find (owned task execution_id) rows) rows rest after refl h
