-- ===== src/Tests/Approvals.antt =====
-- The approval store on a pending request and an attempt to approve it.
use blue_lagoon.Config.{ApprovalsConfig}
use blue_lagoon.Base.{
  codes, ◌≡◌, ◌≢◌, ◌⊎◌, refl, ◌<◌, ◌==◌, Bool, true, false, ℕ, Option, none, some, List, [], ◌∷◌,
  any, find, All, Result, ok, err, arith,
}
use blue_lagoon.Contracts.Action.{Uuid, ApprovalRequestStatus, ApprovalResolutionDecision}
use blue_lagoon.Approval.Records.{
  NewApprovalRequestRecord, ApprovalRequestRecord, ApprovalResolutionResult, ApprovalError,
}
use blue_lagoon.Approval.Store.{
  ApprovalStore, row_is_pending, pending_count, create_counted, resolve_approval_request,
  resolve_row, external_transition, get_approval_request_by_token, resolution_event, store_after,
}
use blue_lagoon.Approval.Store.Choice.{SamePrincipal}
use blue_lagoon.Approval.Store.Invariant.{StoreIsValid, IsWithinLimit}
use blue_lagoon.Approval.Store.Resolution.{
  Resolved, resolve_approval_request_lem, approved_only_by_principal,
}
use blue_lagoon.Approval.Store.History.{
  ApprovalRun, stop, then_step, create, resolve, IsRow, here, run-StoreIsValid, IsSequential,
  run-IsWithinLimit, run-resolved_request,
}
use blue_lagoon.Approval.Store.Expiry.{Stores, Draw, is_due, due_rows, expire_due_approval_requests}
use blue_lagoon.Approval.Store.Expiry.Loop.{expire_due_approval_requests-none_due}
use blue_lagoon.Approval.Store.Expiry.Success.{AreFresh, expire_due_approval_requests-ok}
use blue_lagoon.Tests.Samples.{approvals_config, pending_row, store, attempt, new_request}

abbrev approved_row : ApprovalRequestRecord
approved_row = resolve_row 151 (external_transition attempt) 150 pending_row

abbrev resolved : ApprovalResolutionResult
resolved = record {
  request = approved_row;
  event = resolution_event 9 pending_row (external_transition attempt) 150;
}

attempt_succeeds : (resolve_approval_request 151 9 attempt store).0 ≡ ok resolved
unfolding resolve_approval_request blue_lagoon.Approval.Checks.validate_resolution_attempt
    blue_lagoon.Base.is_blank blue_lagoon.Approval.Checks.parse_actor_ref
    get_approval_request_by_token blue_lagoon.Approval.Store.choose_transition
    blue_lagoon.Approval.Checks.validate_resolution_actor
    blue_lagoon.Approval.Store.apply_resolution_transition
    blue_lagoon.Approval.Store.get_approval_request
attempt_succeeds = refl

approved_status : resolved.request.status ≡ ApprovalRequestStatus.approved
unfolding external_transition
approved_status = refl

approved_is_final : row_is_pending approved_row ≡ false
unfolding external_transition
approved_is_final = refl

store-StoreIsValid : StoreIsValid store
store-StoreIsValid = record {
  rows = (
    record {
      window = omega arith;
      status_matches = refl;
      has_time = refl;
      has_actor = refl;
      no_reason = λ _. refl;
    },
    tt,
  );
  distinct = (tt, tt);
}

resolve_approval_request_lem_example :
    let (result, after) = resolve_approval_request 151 9 attempt store in
    ((e : ApprovalError) × (result ≡ err e) × (after ≡ store))
    ⊎ ((r : ApprovalResolutionResult) × (result ≡ ok r) × Resolved 151 attempt store r after)
resolve_approval_request_lem_example = resolve_approval_request_lem 151 9 attempt store (tt, tt)

approved_only_by_principal_example :
    (row : ApprovalRequestRecord) × (get_approval_request_by_token attempt.token store.requests
      ≡ some row)
    × (row_is_pending row ≡ true)
    × (attempt.decision ≡ ApprovalResolutionDecision.approved)
    × (attempt.resolved_at < row.expires_at)
    × (row.action_fingerprint.value ≡ attempt.expected_action_fingerprint.value)
    × SamePrincipal row attempt
approved_only_by_principal_example =
    approved_only_by_principal 151 9 attempt store resolved (tt, tt) attempt_succeeds
      approved_status

abbrev created_then_resolved : ApprovalStore
created_then_resolved =
    (resolve_approval_request 151 9 attempt
      (create_counted approvals_config 111 1 new_request store).1).1

abbrev sample_run : ApprovalRun approvals_config store created_then_resolved
sample_run =
    then_step (then_step (stop store) (create 111 1 new_request store)) (resolve 151 9 attempt _)

run-StoreIsValid_example : StoreIsValid created_then_resolved
run-StoreIsValid_example = run-StoreIsValid approvals_config sample_run store-StoreIsValid

counts_now : IsSequential approvals_config sample_run
unfolding pending_count
counts_now = ((tt, refl), tt)

one_is_pending : IsWithinLimit approvals_config store
unfolding pending_count
one_is_pending = omega arith

run-IsWithinLimit_example : IsWithinLimit approvals_config created_then_resolved
run-IsWithinLimit_example = run-IsWithinLimit approvals_config sample_run counts_now one_is_pending

-- Two creations that count before either inserts leave more pending than is allowed.
abbrev tight_config : ApprovalsConfig
tight_config = record approvals_config { max_pending_requests = 1 }

abbrev second_request : NewApprovalRequestRecord
second_request = record new_request {
  approval_request_id = 9;
  action_fingerprint = record { value = codes "ghi" };
  token = codes "t-9";
}

abbrev nobody : ApprovalStore
nobody = record { requests = []; audit = [] }

overlapping_creations :
    pending_count
      (create_counted tight_config 112 0 second_request
        (create_counted tight_config 111 0 new_request nobody).1).1.requests
    ≡ 2
unfolding create_counted pending_count blue_lagoon.Approval.Checks.validate_new_approval_request
    blue_lagoon.Base.is_blank blue_lagoon.Base.text_eq
overlapping_creations = refl

abbrev resolved_store : ApprovalStore
resolved_store = record { requests = approved_row ∷ []; audit = [] }

abbrev late_run :
    ApprovalRun approvals_config resolved_store
      (resolve_approval_request 160 10 attempt resolved_store).1
late_run = then_step (stop resolved_store) (resolve 160 10 attempt resolved_store)

run-resolved_request_example :
    IsRow approved_row (resolve_approval_request 160 10 attempt resolved_store).1.requests
run-resolved_request_example =
    run-resolved_request approvals_config approved_row late_run approved_is_final (here [])

abbrev stores : Stores
stores = record { approvals = store; recovery = record { checkpoints = []; diagnostics = [] } }

abbrev draw : ApprovalRequestRecord → Draw
draw row = record { resolution_id = 50; checkpoint_id = 60; diagnostic_id = 70 }

abbrev unlinked : Uuid → Option Uuid
unlinked id = none

drawn_ids-AreFresh : AreFresh draw (due_rows 200 store.requests) stores.recovery
unfolding due_rows any
drawn_ids-AreFresh = (refl, refl, tt, tt, tt)

expire_due_approval_requests-ok_example :
    (results : List ApprovalResolutionResult) × ((expire_due_approval_requests 201 draw unlinked 200
        stores).0
      ≡ ok results)
expire_due_approval_requests-ok_example =
    expire_due_approval_requests-ok 201 draw unlinked 200 stores drawn_ids-AreFresh

expired_results :
    (results : List ApprovalResolutionResult) × ((expire_due_approval_requests 201 draw unlinked 200
        stores).0
      ≡ ok results)
expired_results = expire_due_approval_requests-ok 201 draw unlinked 200 stores drawn_ids-AreFresh

expire_due_approval_requests-none_due_example :
    any
      (is_due 200)
      (expire_due_approval_requests 201 draw unlinked 200 stores).1.approvals.requests
    ≡ false
expire_due_approval_requests-none_due_example =
    expire_due_approval_requests-none_due 201 draw unlinked 200 stores expired_results.0
      expired_results.1
