-- ===== src/Scheduled/Upsert/Keys.antt =====
-- The key under which a task is looked up and the key under which it is stored.
use blue_lagoon.Base.{
  ◌≡◌, ◌≢◌, refl, sym, ◌∙◌, ap, subst, inl, inr, none, [], ◌∷◌, All, Text, any, find, leb, trim,
  text_eq, text_eq_iff, text_eq_refl, unwrap_or, Bool-cases, Result-cases, Result, ok, err, arith,
}
use blue_lagoon.Contracts.Action.{Uuid, Instant}
use blue_lagoon.Config.{RuntimeConfig}
use blue_lagoon.Scheduled.{
  Tasks, UpsertScheduledForegroundTask, ScheduledForegroundTaskRecord,
  ScheduledForegroundTaskWriteResult, created, TaskError, key_conflict, i64_max,
}
use blue_lagoon.Scheduled.Upsert.{
  validate_upsert_request, get_task_by_key, stored_cadence_seconds, insert_task, written,
  upsert_task,
}

-- Every key of the table is stored without blanks around it.
abbrev pub AreTrimmed : Tasks → Type 0
AreTrimmed rows = All (λ row. trim row.task_key ≡ row.task_key) rows

padded-get_task_by_key :
    (key : Text) (rows : Tasks) → trim key ≢ key → AreTrimmed rows → get_task_by_key key rows ≡ none
unfolding get_task_by_key find
padded-get_task_by_key key [] padded a = refl
padded-get_task_by_key key (row ∷ rows) padded a = elim (Bool-cases (text_eq row.task_key key)) [
  | inl e ↦
      (let same = (text_eq_iff row.task_key key).0 e in
        absurd (padded (ap trim (sym same) ∙ a.0 ∙ same)))
  | inr e ↦ rw e (padded-get_task_by_key key rows padded a.1)
]

-- A task that was inserted is in front of the table, under the trimmed key, and the same request
-- cannot insert it again.
insert_task_twice :
    (id again : Uuid) (now later : Instant) (config : RuntimeConfig)
    (request : UpsertScheduledForegroundTask) (rows after : Tasks)
    (row : ScheduledForegroundTaskRecord)
    → insert_task id now config request rows ≡ ok (row, after)
    → (after ≡ row ∷ rows)
      × (row.task_key ≡ trim request.task_key)
      × (insert_task again later config request after ≡ err key_conflict)
unfolding insert_task any
insert_task_twice id again now later config request rows after row h =
    let same = text_eq_refl (trim request.task_key) in
    elim (Bool-cases (leb (stored_cadence_seconds config request) i64_max)) [
      | inr e ↦ ground (arith, e, h)
      | inl e ↦
          elim (Bool-cases (
            leb
              (unwrap_or request.cooldown_seconds
                config.scheduled_foreground.default_cooldown_seconds)
              i64_max)) [ inr f ↦ ground (arith, e, f, h) | inl f ↦ ground (arith, e, f, h, same) ]
    ]

still_missing :
    (key : Text) (row : ScheduledForegroundTaskRecord) (rows : Tasks)
    → trim key ≢ key
    → row.task_key ≡ trim key
    → get_task_by_key key rows ≡ none
    → get_task_by_key key (row ∷ rows) ≡ none
unfolding get_task_by_key find
still_missing key row rows padded k h = elim (Bool-cases (text_eq row.task_key key)) [
  | inl e ↦ absurd (padded (sym k ∙ (text_eq_iff row.task_key key).0 e))
  | inr e ↦ rw e h
]

written-ok :
    (r : Result TaskError (ScheduledForegroundTaskRecord × Tasks))
    (result : ScheduledForegroundTaskWriteResult) (after : Tasks)
    → written created r ≡ ok (result, after)
    → (result.action ≡ created) × (r ≡ ok (result.record_, after))
written-ok (err e) result after h = cc
written-ok (ok (row, rows)) result after h = ground (arith, h)

-- Over a table whose keys have no blanks around them, a request whose key has some never finds a
-- task: it can only create one. Where it has done so, the same request, at any later time, is
-- refused with a conflict of keys and does not update the task.
pub padded_key_conflicts :
    (id again : Uuid) (now later : Instant) (config : RuntimeConfig)
    (request : UpsertScheduledForegroundTask) (rows after : Tasks)
    (result : ScheduledForegroundTaskWriteResult)
    → trim request.task_key ≢ request.task_key
    → AreTrimmed rows
    → upsert_task id now config request rows ≡ ok (result, after)
    → (result.action ≡ created) × (upsert_task again later config request after ≡ err key_conflict)
unfolding upsert_task
padded_key_conflicts id again now later config request rows after result padded trimmed h =
    let missing = padded-get_task_by_key request.task_key rows padded trimmed in
    elim (Result-cases (validate_upsert_request config request)) [
      | inr (e, v) ↦ ground (arith, v, h)
      | inl (u, v) ↦
          (let inserted : written created (insert_task id now config request rows)
                ≡ ok (result, after) =
              rw (v, missing) at h in
            let (action, stored) =
              written-ok (insert_task id now config request rows) result after inserted in
            let (table, key, refused) =
              insert_task_twice id again now later config request rows after result.record_
                stored in
            let gone : get_task_by_key request.task_key after ≡ none =
              subst (λ t. get_task_by_key request.task_key t ≡ none) (sym table)
                (still_missing request.task_key result.record_ rows padded key missing) in
            (action, rw (v, gone, refused) refl))
    ]
