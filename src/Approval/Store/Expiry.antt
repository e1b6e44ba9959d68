-- ===== src/Approval/Store/Expiry.antt =====
-- `expire_due_approval_requests` of crates/harness/src/approval.rs. Every row that is read is
-- expired in a transaction of its own and then handed to recovery; an error of recovery ends the
-- loop, with the expiry already committed. `draw` gives the ids that `Uuid::now_v7` draws for a
-- row, and `linked` the governed action that waits for a request.
pub mod Loop
pub mod Success
use blue_lagoon.Base.{
  Bool, true, false, ◌&&◌, ◌||◌, Option, none, some, List, [], ◌∷◌, ltb, leb, ◌==◌, if◌then◌else◌,
  codes, Result, ok, err,
}
use blue_lagoon.Contracts.Action.{Uuid, Instant}
use blue_lagoon.Recovery.Decision.{RecoveryApprovalState, RecoveryError}
use blue_lagoon.Recovery.Checkpoint.{
  RecoveryStore, RecoveryTriggerOutcome, recover_approval_request_transition,
}
use blue_lagoon.Approval.Records.{
  ApprovalRequestRecord, ApprovalResolutionEvent, ApprovalResolutionResult, ApprovalError,
}
use blue_lagoon.Approval.Store.{
  ApprovalStore, row_is_pending, expiry_transition, get_approval_request,
  apply_resolution_transition,
}

pub record Stores : Type 0 where
  pub approvals : ApprovalStore
  pub recovery : RecoveryStore

pub record Draw : Type 0 where
  pub resolution_id : Uuid
  pub checkpoint_id : Uuid
  pub diagnostic_id : Uuid

pub data ExpiryError : Type 0 where
  approval_error : ApprovalError → ExpiryError
  recovery_error : RecoveryError → ExpiryError

-- The WHERE of the SELECT.
abbrev pub is_due : Instant → ApprovalRequestRecord → Bool
is_due now row = row_is_pending row && leb row.expires_at now

-- `ORDER BY expires_at ASC, approval_request_id ASC`
abbrev pub before : ApprovalRequestRecord → ApprovalRequestRecord → Bool
before row other =
    ltb row.expires_at other.expires_at
    || (row.expires_at == other.expires_at && leb row.approval_request_id other.approval_request_id)

unfoldable pub insert_row :
    ApprovalRequestRecord → List ApprovalRequestRecord → List ApprovalRequestRecord
insert_row row [] = row ∷ []
insert_row row (other ∷ rows) =
    if before row other then row ∷ other ∷ rows else other ∷ insert_row row rows

unfoldable pub due_rows : Instant → List ApprovalRequestRecord → List ApprovalRequestRecord
unfolding insert_row
due_rows now [] = []
due_rows now (row ∷ rows) =
    if is_due now row then insert_row row (due_rows now rows) else due_rows now rows

abbrev pub prepend :
    ApprovalResolutionResult
    → Result ExpiryError (List ApprovalResolutionResult) × Stores
    → Result ExpiryError (List ApprovalResolutionResult) × Stores
prepend r (err e, s) = (err e, s)
prepend r (ok results, s) = (ok (r ∷ results), s)

-- What follows a turn of the loop; `rest` is the loop over the other rows.
abbrev pub continue_with :
    Result ExpiryError (Option ApprovalResolutionResult)
    → Stores
    → (rest : Result ExpiryError (List ApprovalResolutionResult) × Stores)
    → Result ExpiryError (List ApprovalResolutionResult) × Stores
continue_with (err e) after rest = (err e, after)
continue_with (ok none) after rest = rest
continue_with (ok (some r)) after rest = prepend r rest

module _ (clock : Instant) (draw : ApprovalRequestRecord → Draw) (linked : Uuid → Option Uuid)
    (now : Instant) where
  abbrev pub recover :
      ApprovalRequestRecord
      → ApprovalRequestRecord
      → RecoveryStore
      → Result RecoveryError RecoveryTriggerOutcome × RecoveryStore
  recover row request recovery =
      recover_approval_request_transition clock (linked request.approval_request_id)
        (draw row).checkpoint_id (draw row).diagnostic_id request RecoveryApprovalState.expired now
        (codes "approval_request_expired") recovery

  -- One turn of the loop: `none` if the row was resolved in between.
  unfoldable pub expire_row :
      ApprovalRequestRecord → Stores → Result ExpiryError (Option ApprovalResolutionResult) × Stores
  expire_row row s =
      elim (apply_resolution_transition clock (draw row).resolution_id row expiry_transition now
        s.approvals) [
          | none ↦ (ok none, s)
          | some (event, after) ↦
              elim (get_approval_request row.approval_request_id after.requests) [
                | err e ↦ (err (approval_error e), record s { approvals = after })
                | ok request ↦
                    let (recovered, recovery) = recover row request s.recovery in
                    elim recovered [
                      | err e ↦ (
                        err (recovery_error e),
                        record { approvals = after; recovery = recovery },
                      )
                      | ok _ ↦ (
                        ok (some (record { request = request; event = event })),
                        record { approvals = after; recovery = recovery },
                      )
                    ]
              ]
        ]

  unfoldable pub expire_rows :
      List ApprovalRequestRecord
      → Stores
      → Result ExpiryError (List ApprovalResolutionResult) × Stores
  unfolding expire_row
  expire_rows [] s = (ok [], s)
  expire_rows (row ∷ rows) s =
      let (result, after) = expire_row row s in continue_with result after (expire_rows rows after)

  unfoldable pub expire_due_approval_requests :
      Stores → Result ExpiryError (List ApprovalResolutionResult) × Stores
  unfolding due_rows expire_rows
  expire_due_approval_requests s = expire_rows (due_rows now s.approvals.requests) s
