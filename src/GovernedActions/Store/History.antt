-- ===== src/GovernedActions/Store/History.antt =====
-- Histories of the execution table: every operation that writes it, in any order.
use blue_lagoon.Base.{
  ◌≡◌, refl, subst, sym, ap, ◌∙◌, inl, inr, true, false, ◌||◌, Option, none, some, List, [], ◌∷◌,
  map, Text, any, all, find, ◌==◌, ==_iff, Bool-cases, Option-cases, arith,
}
use blue_lagoon.Contracts.Action.{
  Uuid, Instant, GovernedActionRiskTier, GovernedActionStatus, GovernedActionFingerprint,
  ApprovalResolutionDecision,
}
use blue_lagoon.GovernedActions.Records.{
  GovernedActionPlanningRequest, GovernedActionExecutionRecord, GovernedActionExecutionUpdate,
  ActionStore,
}
use blue_lagoon.GovernedActions.Store.{
  get_governed_action_execution, shares_execution, persist_governed_action_execution, updated,
  on_row, row_allowed, update_governed_action_execution, attached, attach_row,
  attach_approval_request, insert_causal_link, sync_status_from_approval_resolution,
  resolution_update,
}
use blue_lagoon.GovernedActions.Store.Updates.{
  IsConsistent, SamePlan, updated-SamePlan, update-IsConsistent, persist-IsConsistent,
  attach-IsConsistent,
}

-- The writes of the table, each with the instant of the database at which it runs.
pub data Operation : Type 0 where
  persist :
      Instant
      → GovernedActionPlanningRequest
      → GovernedActionFingerprint
      → GovernedActionRiskTier
      → GovernedActionStatus
      → (reason : Option Text) → Operation
  update : Instant → GovernedActionExecutionUpdate → Operation
  attach : Instant → (id approval : Uuid) → Operation
  sync :
      Instant
      → Uuid
      → ApprovalResolutionDecision
      → (execution_id : Option Uuid) (reason : Option Text) → Operation

abbrev pub run : Operation → ActionStore → ActionStore
run (persist clock request fingerprint tier status reason) s =
    (persist_governed_action_execution clock request fingerprint tier status reason s).1
run (update clock u) s = (update_governed_action_execution clock u s).1
run (attach clock id approval) s = (attach_approval_request clock id approval s).1
run (sync clock id decision execution_id reason) s =
    (sync_status_from_approval_resolution clock id decision execution_id reason s).1

abbrev pub run_all : List Operation → ActionStore → ActionStore
run_all [] s = s
run_all (operation ∷ operations) s = run_all operations (run operation s)

abbrev pub row_of : Uuid → ActionStore → Option GovernedActionExecutionRecord
row_of id s = find (λ row. row.governed_action_execution_id == id) s.executions

attach_executions :
    (clock : Instant) (id approval : Uuid) (s : ActionStore)
    → (attach_approval_request clock id approval s).1.executions
      ≡ map (on_row id (attached clock approval)) s.executions
unfolding attach_approval_request attach_row get_governed_action_execution insert_causal_link
attach_executions clock id approval s =
    let rows = map (on_row id (attached clock approval)) s.executions in
    elim (Option-cases (find (λ row. row.governed_action_execution_id == id) rows)) [
      | inl h ↦ rw h refl
      | inr (row, h) ↦ rw h refl
    ]

run-IsConsistent :
    (operation : Operation) (s : ActionStore)
    → IsConsistent s.executions
    → IsConsistent (run operation s).executions
unfolding sync_status_from_approval_resolution
run-IsConsistent (persist clock request fingerprint tier status reason) s c =
    persist-IsConsistent clock request fingerprint tier status reason s c
run-IsConsistent (update clock u) s c = update-IsConsistent clock u s c
run-IsConsistent (attach clock id approval) s c =
    subst IsConsistent (sym (attach_executions clock id approval s))
      (attach-IsConsistent clock id approval s.executions c)
run-IsConsistent (sync clock id decision execution_id reason) s c =
    update-IsConsistent clock (resolution_update id decision execution_id reason) s c

-- Whatever operations run on a consistent table, in whatever order and whether or not they fail,
-- the table stays consistent: no two rows share an id, and a row that has ended has started, and
-- not later.
pub run_all-IsConsistent :
    (operations : List Operation) (s : ActionStore)
    → IsConsistent s.executions
    → IsConsistent (run_all operations s).executions
run_all-IsConsistent [] s c = c
run_all-IsConsistent (operation ∷ operations) s c =
    run_all-IsConsistent operations (run operation s) (run-IsConsistent operation s c)

attached-SamePlan :
    (clock : Instant) (approval : Uuid) (row : GovernedActionExecutionRecord)
    → SamePlan row (attached clock approval row)
attached-SamePlan clock approval row = record {
  same_id = refl;
  same_trace = refl;
  same_proposal = refl;
  same_fingerprint = refl;
  same_kind = refl;
  same_tier = refl;
  same_scope = refl;
  same_payload = refl;
  same_creation = refl;
}

same : (row : GovernedActionExecutionRecord) → SamePlan row row
same row = record {
  same_id = refl;
  same_trace = refl;
  same_proposal = refl;
  same_fingerprint = refl;
  same_kind = refl;
  same_tier = refl;
  same_scope = refl;
  same_payload = refl;
  same_creation = refl;
}

same_then :
    (row after last : GovernedActionExecutionRecord)
    → SamePlan row after
    → SamePlan after last
    → SamePlan row last
same_then row after last a b = record {
  same_id = b.same_id ∙ a.same_id;
  same_trace = b.same_trace ∙ a.same_trace;
  same_proposal = b.same_proposal ∙ a.same_proposal;
  same_fingerprint = b.same_fingerprint ∙ a.same_fingerprint;
  same_kind = b.same_kind ∙ a.same_kind;
  same_tier = b.same_tier ∙ a.same_tier;
  same_scope = b.same_scope ∙ a.same_scope;
  same_payload = b.same_payload ∙ a.same_payload;
  same_creation = b.same_creation ∙ a.same_creation;
}

-- A row is still there, with the plan that it had.
abbrev pub Kept : GovernedActionExecutionRecord → Option GovernedActionExecutionRecord → Type 0
Kept row found = (after : GovernedActionExecutionRecord) × (found ≡ some after) × SamePlan row after

module _ (target : Uuid) (f : GovernedActionExecutionRecord → GovernedActionExecutionRecord)
    (keeps : (row : GovernedActionExecutionRecord) → SamePlan row (f row)) where
  on_row-SamePlan : (row : GovernedActionExecutionRecord) → SamePlan row (on_row target f row)
  on_row-SamePlan row = elim (Bool-cases (row.governed_action_execution_id == target)) [
    | inl h ↦ rw h (keeps row)
    | inr h ↦ rw h (same row)
  ]

  map-Kept :
      (id : Uuid) (rows : List GovernedActionExecutionRecord) (row : GovernedActionExecutionRecord)
      → find (λ r. r.governed_action_execution_id == id) rows ≡ some row
      → Kept row (find (λ r. r.governed_action_execution_id == id) (map (on_row target f) rows))
  unfolding find
  map-Kept id [] row h = cc
  map-Kept id (head ∷ rows) row h =
      let kept = on_row-SamePlan head in
      let rest = map-Kept id rows row in
      elim (Bool-cases (head.governed_action_execution_id == id)) [
        | inl e ↦
            (let head_is_row : head ≡ row = ground (arith, e, h) in
              let matched : ((on_row target f head).governed_action_execution_id == id) ≡ true =
                ap (λ n. n == id) kept.same_id ∙ e in
              (
                on_row target f head,
                rw matched refl,
                subst (λ r. SamePlan r (on_row target f head)) head_is_row kept,
              ))
        | inr e ↦
            (let passed : ((on_row target f head).governed_action_execution_id == id) ≡ false =
                ap (λ n. n == id) kept.same_id ∙ e in
              rw passed (rest (ground (arith, e, h))))
      ]

row_of-update :
    (clock : Instant) (u : GovernedActionExecutionUpdate) (id : Uuid) (s : ActionStore)
    (row : GovernedActionExecutionRecord)
    → row_of id s ≡ some row
    → Kept row (row_of id (update_governed_action_execution clock u s).1)
unfolding update_governed_action_execution get_governed_action_execution
row_of-update clock u id s row h = elim (Bool-cases (all (row_allowed u) s.executions)) [
  | inl e ↦ rw e (
      map-Kept u.governed_action_execution_id (updated clock u) (updated-SamePlan clock u) id
        s.executions row h)
  | inr e ↦ rw e (row, h, same row)
]

absent :
    (id : Uuid) (execution_id : Option Uuid) (rows : List GovernedActionExecutionRecord)
    → any (λ row. row.governed_action_execution_id == id || shares_execution execution_id row) rows
      ≡ false
    → find (λ row. row.governed_action_execution_id == id) rows ≡ none
unfolding any find
absent id execution_id [] h = refl
absent id execution_id (row ∷ rows) h = ground (arith, absent id execution_id rows)

row_of-persist :
    (clock : Instant) (request : GovernedActionPlanningRequest)
    (fingerprint : GovernedActionFingerprint) (tier : GovernedActionRiskTier)
    (status : GovernedActionStatus) (reason : Option Text) (id : Uuid) (s : ActionStore)
    (row : GovernedActionExecutionRecord)
    → row_of id s ≡ some row
    → row_of id (persist_governed_action_execution clock request fingerprint tier status reason s).1
      ≡ some row
unfolding persist_governed_action_execution find
row_of-persist clock request fingerprint tier status reason id s row h =
    let new_id = request.governed_action_execution_id in
    elim (Bool-cases (
      any
        (λ other.
          other.governed_action_execution_id == new_id
          || shares_execution request.execution_id other)
        s.executions)) [
          | inl e ↦ rw e h
          | inr e ↦
              (let none_there = absent new_id request.execution_id s.executions e in
                elim (Bool-cases (new_id == id)) [
                  | inl k ↦
                      (let gone : row_of id s ≡ none =
                          subst (λ n. row_of n s ≡ none) ((==_iff new_id id).0 k) none_there in
                        cc)
                  | inr k ↦ rw (e, k) h
                ])
        ]

run-Kept :
    (operation : Operation) (id : Uuid) (s : ActionStore) (row : GovernedActionExecutionRecord)
    → row_of id s ≡ some row
    → Kept row (row_of id (run operation s))
unfolding sync_status_from_approval_resolution
run-Kept (persist clock request fingerprint tier status reason) id s row h =
    (row, row_of-persist clock request fingerprint tier status reason id s row h, same row)
run-Kept (update clock u) id s row h = row_of-update clock u id s row h
run-Kept (attach clock target approval) id s row h =
    subst (λ rows. Kept row (find (λ r. r.governed_action_execution_id == id) rows))
      (sym (attach_executions clock target approval s))
      (map-Kept target (attached clock approval) (attached-SamePlan clock approval) id s.executions
        row h)
run-Kept (sync clock target decision execution_id reason) id s row h =
    row_of-update clock (resolution_update target decision execution_id reason) id s row h

-- Whatever operations run, in whatever order and whether or not they fail, an action that the table
-- holds stays there, with the fingerprint, kind, risk tier, scope and payload that it was planned
-- with.
pub run_all-Kept :
    (operations : List Operation) (id : Uuid) (s : ActionStore)
    (row : GovernedActionExecutionRecord)
    → row_of id s ≡ some row
    → Kept row (row_of id (run_all operations s))
run_all-Kept [] id s row h = (row, h, same row)
run_all-Kept (operation ∷ operations) id s row h =
    let (after, found, step) = run-Kept operation id s row h in
    let (last, there, rest) = run_all-Kept operations id (run operation s) after found in
    (last, there, same_then row after last step rest)
