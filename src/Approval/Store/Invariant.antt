-- ===== src/Approval/Store/Invariant.antt =====
-- The invariant of the table of approval requests, and that `create_approval_request` and an update
-- keep it.
use blue_lagoon.Base.{ℕ, suc, ◌≤◌, ◌≡◌, refl, some, List, [], ◌∷◌, All, ok, arith}
use blue_lagoon.Contracts.Action.{Uuid, Instant}
use blue_lagoon.Config.{ApprovalsConfig}
use blue_lagoon.Approval.Records.{
  NewApprovalRequestRecord, ApprovalRequestRecord, ApprovalResolutionEvent, ResolutionTransition,
}
use blue_lagoon.Approval.Checks.{validate_new_approval_request}
use blue_lagoon.Approval.Store.{
  ApprovalStore, pending_count, new_row, create_counted, apply_resolution_transition,
}
use blue_lagoon.Approval.Store.Rows.{
  RowIsValid, Distinct, update_rows-RowIsValid, update_rows-Distinct, pending_count-update_rows,
  collides-Apart,
}

pub record StoreIsValid (s : ApprovalStore) : Type 0 where
  pub rows : All RowIsValid s.requests
  pub distinct : Distinct s.requests

-- No more requests are pending than the configuration allows.
abbrev pub IsWithinLimit : ApprovalsConfig → ApprovalStore → Type 0
IsWithinLimit config s = pending_count s.requests ≤ config.max_pending_requests

-- The empty table is valid.
pub empty-StoreIsValid : StoreIsValid (record { requests = []; audit = [] })
empty-StoreIsValid = record { rows = tt; distinct = tt }

validated_window :
    (request : NewApprovalRequestRecord)
    → validate_new_approval_request request ≡ ok tt
    → suc request.requested_at ≤ request.expires_at
unfolding validate_new_approval_request
validated_window request h = ground arith

new_row-RowIsValid :
    (clock : Instant) (request : NewApprovalRequestRecord)
    → validate_new_approval_request request ≡ ok tt
    → RowIsValid (new_row clock request)
new_row-RowIsValid clock request h = record {
  window = validated_window request h;
  status_matches = refl;
  has_time = refl;
  has_actor = refl;
  no_reason = λ p. refl;
}

pending_count-cons :
    (row : ApprovalRequestRecord) (rows : List ApprovalRequestRecord)
    → pending_count (row ∷ rows) ≤ suc (pending_count rows)
unfolding pending_count
pending_count-cons row rows = ground arith

-- A creation keeps the invariant, whatever it counted and whether it succeeds or fails.
pub create_counted-StoreIsValid :
    (config : ApprovalsConfig) (clock : Instant) (counted : ℕ) (request : NewApprovalRequestRecord)
    (s : ApprovalStore)
    → StoreIsValid s
    → StoreIsValid (create_counted config clock counted request s).1
unfolding create_counted
create_counted-StoreIsValid config clock counted request s v =
    ground (arith, new_row-RowIsValid clock request, collides-Apart clock request s.requests)

-- A creation that counts the requests of the table it writes to keeps the limit.
pub create_counted-IsWithinLimit :
    (config : ApprovalsConfig) (clock : Instant) (counted : ℕ) (request : NewApprovalRequestRecord)
    (s : ApprovalStore)
    → counted ≡ pending_count s.requests
    → IsWithinLimit config s
    → IsWithinLimit config (create_counted config clock counted request s).1
unfolding create_counted
create_counted-IsWithinLimit config clock counted request s e h =
    ground (arith, e, h, pending_count-cons (new_row clock request) s.requests)

-- An update of the table keeps the invariant, and makes no request pending.
pub apply_resolution_transition-StoreIsValid :
    (clock : Instant) (id : Uuid) (locked : ApprovalRequestRecord)
    (transition : ResolutionTransition) (at : Instant) (s after : ApprovalStore)
    (event : ApprovalResolutionEvent)
    → apply_resolution_transition clock id locked transition at s ≡ some (event, after)
    → (StoreIsValid s → StoreIsValid after)
      × (pending_count after.requests ≤ pending_count s.requests)
unfolding apply_resolution_transition
apply_resolution_transition-StoreIsValid clock id locked transition at s after event h =
    let target = locked.approval_request_id in
    let fewer = pending_count-update_rows clock target transition at s.requests in
    (
      λ v.
          let rows = update_rows-RowIsValid clock target transition at s.requests v.rows in
          let distinct = update_rows-Distinct clock target transition at s.requests v.distinct in
          ground (arith, rows, distinct, h),
      ground (arith, fewer, h),
    )
