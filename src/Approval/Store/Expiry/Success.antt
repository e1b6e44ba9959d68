-- ===== src/Approval/Store/Expiry/Success.antt =====
-- With fresh ids, `expire_due_approval_requests` succeeds.
use blue_lagoon.Base.{
  ◌≡◌, ◌≢◌, refl, Bool-cases, Option-cases, inl, inr, true, false, ◌==◌, Option, none, some, List,
  [], ◌∷◌, All, any, find, codes, is_blank, Result, ok, err, arith,
}
use blue_lagoon.Contracts.Action.{Uuid, Instant}
use blue_lagoon.Recovery.Decision.{RecoveryApprovalState}
use blue_lagoon.Recovery.Checkpoint.{
  RecoveryCheckpointRecord, OperationalDiagnosticRecord, RecoveryStore,
}
use blue_lagoon.Recovery.Checkpoint.Trigger.{
  IsFreshCheckpoint, IsFreshDiagnostic, recover_approval_request_transition_lem,
}
use blue_lagoon.Approval.Records.{
  ApprovalRequestRecord, ApprovalResolutionEvent, ApprovalResolutionResult, ResolutionTransition,
}
use blue_lagoon.Approval.Store.{
  ApprovalStore, is_target, update_rows, expiry_transition, get_approval_request,
  apply_resolution_transition,
}
use blue_lagoon.Approval.Store.Rows.{updated}
use blue_lagoon.Approval.Store.Expiry.{
  Stores, Draw, ExpiryError, due_rows, recover, continue_with, expire_row, expire_rows,
  expire_due_approval_requests,
}

-- The ids drawn for the rows are in no table, and differ from each other.
abbrev pub AreFresh :
    (ApprovalRequestRecord → Draw) → List ApprovalRequestRecord → RecoveryStore → Type 0
AreFresh draw [] r = Unit
AreFresh draw (row ∷ rows) r =
    IsFreshCheckpoint (draw row).checkpoint_id r
    × IsFreshDiagnostic (draw row).diagnostic_id r
    × All (λ other. (draw row).checkpoint_id ≢ (draw other).checkpoint_id) rows
    × All (λ other. (draw row).diagnostic_id ≢ (draw other).diagnostic_id) rows
    × AreFresh draw rows r

later-AreFresh :
    (draw : ApprovalRequestRecord → Draw) (row : ApprovalRequestRecord)
    (rows : List ApprovalRequestRecord) (c : RecoveryCheckpointRecord)
    (d : OperationalDiagnosticRecord) (r after : RecoveryStore)
    → after.checkpoints ≡ c ∷ r.checkpoints
    → after.diagnostics ≡ d ∷ r.diagnostics
    → c.recovery_checkpoint_id ≡ (draw row).checkpoint_id
    → d.operational_diagnostic_id ≡ (draw row).diagnostic_id
    → All (λ other. (draw row).checkpoint_id ≢ (draw other).checkpoint_id) rows
    → All (λ other. (draw row).diagnostic_id ≢ (draw other).diagnostic_id) rows
    → AreFresh draw rows r
    → AreFresh draw rows after
unfolding any
later-AreFresh draw row [] c d r after p q e f a b k = tt
later-AreFresh draw row (other ∷ rows) c d r after p q e f a b k =
    let apart = a.0 in
    let apart_d = b.0 in
    (
      rw p (ground (arith, k.0, apart)),
      rw q (ground (arith, k.1, apart_d)),
      k.2,
      k.3,
      later-AreFresh draw row rows c d r after p q e f a.1 b.1 k.4,
    )

-- A row that an update changes is found after it.
update_rows-found :
    (clock : Instant) (id : Uuid) (transition : ResolutionTransition) (at : Instant)
    (rows : List ApprovalRequestRecord)
    → any (is_target id) rows ≡ true
    → (row : ApprovalRequestRecord) × (find
          (λ r. r.approval_request_id == id)
          (update_rows clock id transition at rows)
        ≡ some row)
unfolding any update_rows find
update_rows-found clock id transition at [] h = cc
update_rows-found clock id transition at (r ∷ rows) h =
    elim (Bool-cases (r.approval_request_id == id)) [
      | inl e ↦ (updated clock id transition at r, ground arith)
      | inr e ↦
          let (row, f) = update_rows-found clock id transition at rows (ground arith) in
          (row, ground (arith, f))
    ]

get-after :
    (clock : Instant) (id : Uuid) (row : ApprovalRequestRecord) (transition : ResolutionTransition)
    (at : Instant) (s after : ApprovalStore) (event : ApprovalResolutionEvent)
    → apply_resolution_transition clock id row transition at s ≡ some (event, after)
    → (request : ApprovalRequestRecord) × (get_approval_request row.approval_request_id
          after.requests
        ≡ ok request)
unfolding apply_resolution_transition get_approval_request
get-after clock id row transition at s after event h =
    let hit : any (is_target row.approval_request_id) s.requests ≡ true = ground arith in
    let (request, f) =
      update_rows-found clock row.approval_request_id transition at s.requests hit in
    (request, ground (arith, f))

reason_filled : is_blank (codes "approval_request_expired") ≡ false
unfolding is_blank
reason_filled = refl

continue-ok :
    (result : Result ExpiryError (Option ApprovalResolutionResult)) (after : Stores)
    (rest : Result ExpiryError (List ApprovalResolutionResult) × Stores)
    (o : Option ApprovalResolutionResult)
    → result ≡ ok o
    → (results : List ApprovalResolutionResult) × (rest.0 ≡ ok results)
    → (results : List ApprovalResolutionResult) × ((continue_with result after rest).0 ≡ ok results)
continue-ok (err e) after rest o h k = cc
continue-ok (ok none) after rest o h k = k
continue-ok (ok (some r)) after (err e, s) o h (results, k) = cc
continue-ok (ok (some r)) after (ok rs, s) o h (results, k) = (r ∷ rs, refl)

module _ (clock : Instant) (draw : ApprovalRequestRecord → Draw) (linked : Uuid → Option Uuid)
    (now : Instant) where
  expire_row-ok :
      (row : ApprovalRequestRecord) (rows : List ApprovalRequestRecord) (s : Stores)
      → AreFresh draw (row ∷ rows) s.recovery
      → (o : Option ApprovalResolutionResult) × ((expire_row clock draw linked now row s).0 ≡ ok o)
        × AreFresh draw rows (expire_row clock draw linked now row s).1.recovery
  unfolding expire_row
  expire_row-ok row rows s f =
      elim (Option-cases (
        apply_resolution_transition clock (draw row).resolution_id row expiry_transition now
          s.approvals)) [
            | inl e ↦ rw (e, expire_row) (none, refl, f.4)
            | inr ((event, after), e) ↦
                let (request, g) =
                  get-after clock (draw row).resolution_id row expiry_transition now s.approvals
                    after event e in
                let (outcome, done, _, _, _, _, c_id, d_id, p, q) =
                  recover_approval_request_transition_lem clock (linked request.approval_request_id)
                    (draw row).checkpoint_id (draw row).diagnostic_id request
                    RecoveryApprovalState.expired now (codes "approval_request_expired") s.recovery
                    refl reason_filled f.0 f.1 in
                let fresh =
                  later-AreFresh draw row rows outcome.checkpoint outcome.diagnostic s.recovery
                    (recover clock draw linked now row request s.recovery).1 p q c_id d_id f.2 f.3
                    f.4 in
                rw (e, expire_row) (rw (g, expire_row) (rw (done, expire_row) (_, refl, fresh)))
          ]

  expire_rows-ok :
      (rows : List ApprovalRequestRecord) (s : Stores)
      → AreFresh draw rows s.recovery
      → (results : List ApprovalResolutionResult) × ((expire_rows clock draw linked now rows s).0
          ≡ ok results)
  unfolding expire_rows
  expire_rows-ok [] s f = ([], refl)
  expire_rows-ok (row ∷ rows) s f =
      let (o, h, fresh) = expire_row-ok row rows s f in
      let after = (expire_row clock draw linked now row s).1 in
      let rest = expire_rows-ok rows after fresh in
      continue-ok (expire_row clock draw linked now row s).0 after
        (expire_rows clock draw linked now rows after) o h rest

  -- If the ids that are drawn are fresh and the database fails no statement,
  -- `expire_due_approval_requests` succeeds.
  pub expire_due_approval_requests-ok :
      (s : Stores)
      → AreFresh draw (due_rows now s.approvals.requests) s.recovery
      → (results : List ApprovalResolutionResult) × ((expire_due_approval_requests clock draw linked
            now s).0
          ≡ ok results)
  unfolding expire_due_approval_requests
  expire_due_approval_requests-ok s f = expire_rows-ok (due_rows now s.approvals.requests) s f
