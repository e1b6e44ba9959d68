-- ===== src/Approval/Store/Rows.antt =====
-- The rows of the table of approval requests: what makes them valid, and what an update keeps.
use blue_lagoon.Base.{
  ◌≤◌, ◌<◌, ◌≡◌, ◌≢◌, ◌∙◌, sym, ap, inl, inr, Bool-cases, true, false, not, Option, none, some,
  List, [], ◌∷◌, All, any, is_some, if◌then◌else◌, text_eq_iff, arith,
}
use blue_lagoon.Contracts.Action.{Uuid, Instant, ApprovalRequestStatus, ApprovalResolutionDecision}
use blue_lagoon.Approval.Records.{
  NewApprovalRequestRecord, ApprovalRequestRecord, ResolutionTransition,
  approval_resolution_to_status,
}
use blue_lagoon.Approval.Store.{
  row_is_pending, pending_count, collides, new_row, is_target, resolve_row, update_rows,
}

-- The status that a resolution, or the lack of one, stands for.
abbrev pub status_of : Option ApprovalResolutionDecision → ApprovalRequestStatus
status_of none = ApprovalRequestStatus.pending
status_of (some decision) = approval_resolution_to_status decision

-- A row expires after it was requested, and its resolution is there exactly if it is not pending.
pub record RowIsValid (row : ApprovalRequestRecord) : Type 0 where
  pub window : row.requested_at < row.expires_at
  pub status_matches : row.status ≡ status_of row.resolution_kind
  pub has_time : is_some row.resolved_at ≡ not (row_is_pending row)
  pub has_actor : is_some row.resolved_by ≡ not (row_is_pending row)
  pub no_reason : row_is_pending row ≡ true → row.resolution_reason ≡ none

-- The UNIQUE constraints and the unique index, on two rows.
pub record Apart (row other : ApprovalRequestRecord) : Type 0 where
  pub ids : other.approval_request_id ≢ row.approval_request_id
  pub tokens : other.token ≢ row.token
  pub fingerprints :
      row_is_pending row ≡ true
      → row_is_pending other ≡ true
      → other.action_fingerprint.value ≢ row.action_fingerprint.value

abbrev pub Distinct : List ApprovalRequestRecord → Type 0
Distinct [] = Unit
Distinct (row ∷ rows) = All (Apart row) rows × Distinct rows

-- What a step may do to a row: an identity, and only to leave the pending state.
pub record Advances (row after : ApprovalRequestRecord) : Type 0 where
  pub same_id : after.approval_request_id ≡ row.approval_request_id
  pub same_token : after.token ≡ row.token
  pub same_fingerprint : after.action_fingerprint ≡ row.action_fingerprint
  pub same_requester : after.requested_by ≡ row.requested_by
  pub same_expiry : after.expires_at ≡ row.expires_at
  pub final : row_is_pending row ≡ false → after ≡ row

-- A row that is pending after a step was pending before it.
pub pending_before :
    (row after : ApprovalRequestRecord)
    → Advances row after
    → row_is_pending after ≡ true
    → row_is_pending row ≡ true
pending_before row after a h = elim (Bool-cases (row_is_pending row)) [
  | inl e ↦ e
  | inr e ↦ ap row_is_pending (sym (a.final e)) ∙ h
]

pub Apart-Advances :
    (row other row' other' : ApprovalRequestRecord)
    → Apart row other
    → Advances row row'
    → Advances other other'
    → Apart row' other'
Apart-Advances row other row' other' a r o = record {
  ids = λ e. a.ids (cc);
  tokens = λ e. a.tokens (cc);
  fingerprints =
      λ p q e. a.fingerprints (pending_before row row' r p) (pending_before other other' o q) (cc);
}

module _ (clock : Instant) (id : Uuid) (transition : ResolutionTransition) (at : Instant) where
  abbrev pub updated : ApprovalRequestRecord → ApprovalRequestRecord
  updated row = if is_target id row then resolve_row clock transition at row else row

  pub updated-Advances : (row : ApprovalRequestRecord) → Advances row (updated row)
  updated-Advances row = ground arith

  pub updated-RowIsValid : (row : ApprovalRequestRecord) → RowIsValid row → RowIsValid (updated row)
  updated-RowIsValid row v = ground arith

  pub update_rows-RowIsValid :
      (rows : List ApprovalRequestRecord)
      → All RowIsValid rows
      → All RowIsValid (update_rows clock id transition at rows)
  unfolding update_rows
  update_rows-RowIsValid [] v = tt
  update_rows-RowIsValid (row ∷ rows) v =
      (updated-RowIsValid row v.0, update_rows-RowIsValid rows v.1)

  update_rows-Apart :
      (row : ApprovalRequestRecord) (rows : List ApprovalRequestRecord)
      → All (Apart row) rows
      → All (Apart (updated row)) (update_rows clock id transition at rows)
  unfolding update_rows
  update_rows-Apart row [] v = tt
  update_rows-Apart row (other ∷ rows) v = (
    Apart-Advances row other (updated row) (updated other) v.0 (updated-Advances row)
        (updated-Advances other),
    update_rows-Apart row rows v.1,
  )

  pub update_rows-Distinct :
      (rows : List ApprovalRequestRecord)
      → Distinct rows
      → Distinct (update_rows clock id transition at rows)
  unfolding update_rows
  update_rows-Distinct [] v = tt
  update_rows-Distinct (row ∷ rows) v =
      (update_rows-Apart row rows v.0, update_rows-Distinct rows v.1)

  pub pending_count-update_rows :
      (rows : List ApprovalRequestRecord)
      → pending_count (update_rows clock id transition at rows) ≤ pending_count rows
  unfolding update_rows pending_count
  pending_count-update_rows [] = omega arith
  pending_count-update_rows (row ∷ rows) = ground (arith, pending_count-update_rows rows)

-- A request that collides with no row is apart from every row.
pub collides-Apart :
    (clock : Instant) (request : NewApprovalRequestRecord) (rows : List ApprovalRequestRecord)
    → any (collides request) rows ≡ false
    → All (Apart (new_row clock request)) rows
unfolding any
collides-Apart clock request [] h = tt
collides-Apart clock request (row ∷ rows) h =
    let token = text_eq_iff row.token request.token in
    let mark = text_eq_iff row.action_fingerprint.value request.action_fingerprint.value in
    (
      record {
        ids = λ e. ground arith;
        tokens = λ e. ground (arith, token);
        fingerprints = λ p q e. ground (arith, mark);
      },
      collides-Apart clock request rows (ground arith),
    )
