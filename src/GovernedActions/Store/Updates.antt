-- ===== src/GovernedActions/Store/Updates.antt =====
-- The invariant of the execution table, and what each of its operations keeps.
use blue_lagoon.Base.{
  ◌≡◌, ◌≢◌, refl, sym, ◌∙◌, inl, inr, true, false, ◌||◌, Option, List, [], ◌∷◌, map, Text, All, any,
  all, ◌==◌, Bool-cases, arith,
}
use blue_lagoon.Contracts.Action.{
  Uuid, Instant, GovernedActionRiskTier, GovernedActionStatus, GovernedActionFingerprint,
}
use blue_lagoon.GovernedActions.Records.{
  GovernedActionPlanningRequest, GovernedActionExecutionRecord, GovernedActionExecutionUpdate,
  ActionStore,
}
use blue_lagoon.GovernedActions.Store.{
  get_governed_action_execution, times_allowed, shares_execution, planned_row,
  persist_governed_action_execution, updated, on_row, row_allowed, update_governed_action_execution,
  attached,
}

-- A row that has ended has started, and not later.
abbrev pub TimesOrdered : GovernedActionExecutionRecord → Type 0
TimesOrdered row = times_allowed row.started_at row.completed_at ≡ true

abbrev pub Apart : GovernedActionExecutionRecord → GovernedActionExecutionRecord → Type 0
Apart row other = other.governed_action_execution_id ≢ row.governed_action_execution_id

abbrev pub DistinctIds : List GovernedActionExecutionRecord → Type 0
DistinctIds [] = Unit {0}
DistinctIds (row ∷ rows) = All (Apart row) rows × DistinctIds rows

abbrev pub IsConsistent : List GovernedActionExecutionRecord → Type 0
IsConsistent rows = All TimesOrdered rows × DistinctIds rows

-- What was planned stays: no operation changes these columns.
pub record SamePlan (row after : GovernedActionExecutionRecord) : Type 0 where
  pub same_id : after.governed_action_execution_id ≡ row.governed_action_execution_id
  pub same_trace : after.trace_id ≡ row.trace_id
  pub same_proposal : after.action_proposal_id ≡ row.action_proposal_id
  pub same_fingerprint : after.action_fingerprint ≡ row.action_fingerprint
  pub same_kind : after.action_kind ≡ row.action_kind
  pub same_tier : after.risk_tier ≡ row.risk_tier
  pub same_scope : after.capability_scope ≡ row.capability_scope
  pub same_payload : after.payload ≡ row.payload
  pub same_creation : after.created_at ≡ row.created_at

pub updated-SamePlan :
    (clock : Instant) (update : GovernedActionExecutionUpdate) (row : GovernedActionExecutionRecord)
    → SamePlan row (updated clock update row)
unfolding updated
updated-SamePlan clock update row = record {
  same_id = refl;
  same_trace = refl;
  same_proposal = refl;
  same_fingerprint = refl;
  same_kind = refl;
  same_tier = refl;
  same_scope = refl;
  same_payload = refl;
  same_creation = refl;
}

module _ (id : Uuid) (f : GovernedActionExecutionRecord → GovernedActionExecutionRecord)
    (keeps : (row : GovernedActionExecutionRecord)
      → (f row).governed_action_execution_id ≡ row.governed_action_execution_id) where
  on_row_id :
      (row : GovernedActionExecutionRecord)
      → (on_row id f row).governed_action_execution_id ≡ row.governed_action_execution_id
  on_row_id row = let kept = keeps row in ground (arith, kept)

  map-Apart :
      (row : GovernedActionExecutionRecord) (rows : List GovernedActionExecutionRecord)
      → All (Apart row) rows
      → All (Apart (on_row id f row)) (map (on_row id f) rows)
  map-Apart row [] a = tt
  map-Apart row (other ∷ rows) a =
      (λ e. a.0 (sym (on_row_id other) ∙ e ∙ on_row_id row), map-Apart row rows a.1)

  map-DistinctIds :
      (rows : List GovernedActionExecutionRecord)
      → DistinctIds rows
      → DistinctIds (map (on_row id f) rows)
  map-DistinctIds [] d = tt
  map-DistinctIds (row ∷ rows) d = (map-Apart row rows d.0, map-DistinctIds rows d.1)

fresh-Apart :
    (row : GovernedActionExecutionRecord) (execution_id : Option Uuid)
    (rows : List GovernedActionExecutionRecord)
    → any
        (λ other.
          other.governed_action_execution_id == row.governed_action_execution_id
          || shares_execution execution_id other)
        rows
      ≡ false
    → All (Apart row) rows
unfolding any
fresh-Apart row execution_id [] h = tt
fresh-Apart row execution_id (other ∷ rows) h =
    (λ e. ground arith, fresh-Apart row execution_id rows (ground arith))

update-TimesOrdered :
    (clock : Instant) (update : GovernedActionExecutionUpdate)
    (rows : List GovernedActionExecutionRecord)
    → all (row_allowed update) rows ≡ true
    → All TimesOrdered rows
    → All TimesOrdered
        (map (on_row update.governed_action_execution_id (updated clock update)) rows)
unfolding all updated
update-TimesOrdered clock update [] h t = tt
update-TimesOrdered clock update (row ∷ rows) h t =
    let rest = update-TimesOrdered clock update rows in ground (arith, rest)

attach-TimesOrdered :
    (clock : Instant) (id approval : Uuid) (rows : List GovernedActionExecutionRecord)
    → All TimesOrdered rows
    → All TimesOrdered (map (on_row id (attached clock approval)) rows)
attach-TimesOrdered clock id approval [] t = tt
attach-TimesOrdered clock id approval (row ∷ rows) t =
    (ground arith, attach-TimesOrdered clock id approval rows t.1)

-- An UPDATE keeps the invariant, whether or not it fails.
pub update-IsConsistent :
    (clock : Instant) (update : GovernedActionExecutionUpdate) (s : ActionStore)
    → IsConsistent s.executions
    → IsConsistent (update_governed_action_execution clock update s).1.executions
unfolding update_governed_action_execution get_governed_action_execution updated
update-IsConsistent clock update s c = elim (Bool-cases (all (row_allowed update) s.executions)) [
  | inl h ↦ rw h (
    update-TimesOrdered clock update s.executions h c.0,
    map-DistinctIds update.governed_action_execution_id (updated clock update) (λ row. refl)
        s.executions c.1,
  )
  | inr h ↦ rw h c
]

-- An INSERT keeps the invariant, whether or not it fails.
pub persist-IsConsistent :
    (clock : Instant) (request : GovernedActionPlanningRequest)
    (fingerprint : GovernedActionFingerprint) (tier : GovernedActionRiskTier)
    (status : GovernedActionStatus) (reason : Option Text) (s : ActionStore)
    → IsConsistent s.executions
    → IsConsistent
        (persist_governed_action_execution clock request fingerprint tier status reason
          s).1.executions
unfolding persist_governed_action_execution
persist-IsConsistent clock request fingerprint tier status reason s c =
    let row = planned_row clock request fingerprint tier status reason in
    elim (Bool-cases (
      any
        (λ other.
          other.governed_action_execution_id == request.governed_action_execution_id
          || shares_execution request.execution_id other)
        s.executions)) [
          | inl h ↦ rw h c
          | inr h ↦ rw h ((refl, c.0), (fresh-Apart row request.execution_id s.executions h, c.1))
        ]

pub attach-IsConsistent :
    (clock : Instant) (id approval : Uuid) (rows : List GovernedActionExecutionRecord)
    → IsConsistent rows
    → IsConsistent (map (on_row id (attached clock approval)) rows)
attach-IsConsistent clock id approval rows c = (
  attach-TimesOrdered clock id approval rows c.0,
  map-DistinctIds id (attached clock approval) (λ row. refl) rows c.1,
)
