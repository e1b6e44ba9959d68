-- ===== src/Approval/Store/Expiry/Loop.antt =====
-- What the loop of `expire_due_approval_requests` does to the table of approval requests.
use blue_lagoon.Base.{
  ◌≡◌, ◌≤◌, refl, sym, subst, Bool-cases, Option-cases, Result-cases, inl, inr, Bool, true, false,
  ◌||◌, ◌==◌, ==_refl, Option, none, some, List, [], ◌∷◌, All, any, if◌then◌else◌, Result, ok, err,
  arith,
}
use blue_lagoon.Contracts.Action.{Uuid, Instant, ApprovalRequestStatus}
use blue_lagoon.Approval.Records.{ApprovalRequestRecord, ApprovalResolutionResult}
use blue_lagoon.Approval.Store.{
  ApprovalStore, is_target, update_rows, expiry_transition, get_approval_request,
  apply_resolution_transition,
}
use blue_lagoon.Approval.Store.History.{or_else}
use blue_lagoon.Approval.Store.Expiry.{
  Stores, continue_with, Draw, ExpiryError, is_due, insert_row, due_rows, expire_row, expire_rows,
  expire_due_approval_requests,
}

abbrev pub same_id : ApprovalRequestRecord → ApprovalRequestRecord → Bool
same_id row other = row.approval_request_id == other.approval_request_id

-- Every due row of the table stands, by its id, in the list.
abbrev Covers : Instant → List ApprovalRequestRecord → List ApprovalRequestRecord → Type 0
Covers now todo rows = All (λ row. is_due now row ≡ true → any (same_id row) todo ≡ true) rows

insert_row-any :
    (id row : ApprovalRequestRecord) (rows : List ApprovalRequestRecord)
    → any (same_id id) (insert_row row rows) ≡ (same_id id row || any (same_id id) rows)
unfolding insert_row any
insert_row-any id row [] = refl
insert_row-any id row (other ∷ rows) = let more = insert_row-any id row rows in ground (arith, more)

Covers-insert :
    (now : Instant) (row : ApprovalRequestRecord) (todo rows : List ApprovalRequestRecord)
    → Covers now todo rows
    → Covers now (insert_row row todo) rows
Covers-insert now row todo [] c = tt
Covers-insert now row todo (r ∷ rows) c =
    let more = insert_row-any r row todo in
    (λ d. let known = c.0 d in ground (arith, more, known), Covers-insert now row todo rows c.1)

Covers-if :
    (now : Instant) (b : Bool) (todo other rows : List ApprovalRequestRecord)
    → Covers now todo rows
    → Covers now other rows
    → Covers now (if b then todo else other) rows
Covers-if now true todo other rows c d = c
Covers-if now false todo other rows c d = d

due_rows-Covers :
    (now : Instant) (rows : List ApprovalRequestRecord) → Covers now (due_rows now rows) rows
unfolding due_rows
due_rows-Covers now [] = tt
due_rows-Covers now (row ∷ rows) =
    let rest = due_rows-Covers now rows in
    let more = insert_row-any row row (due_rows now rows) in
    let refl = ==_refl row.approval_request_id in
    let next = Covers-insert now row (due_rows now rows) rows rest in
    (
      λ d. rw (d, due_rows) (ground (arith, more, refl)),
      Covers-if now (is_due now row) (insert_row row (due_rows now rows)) (due_rows now rows) rows
          next rest,
    )

-- The request was pending and its time had passed.
abbrev pub HasRunOut : Instant → ApprovalRequestRecord → Type 0
HasRunOut now row = (row.status ≡ ApprovalRequestStatus.pending) × (row.expires_at ≤ now)

-- A row that no update can reach is not due; after an update of a row, it is not due.
skipped-Covers :
    (now : Instant) (row : ApprovalRequestRecord) (todo rows : List ApprovalRequestRecord)
    → any (is_target row.approval_request_id) rows ≡ false
    → Covers now (row ∷ todo) rows
    → Covers now todo rows
unfolding any
skipped-Covers now row todo [] h c = tt
skipped-Covers now row todo (r ∷ rows) h c = (
  λ d. let known = c.0 d in ground (arith, known),
  skipped-Covers now row todo rows (ground arith) c.1,
)

updated-Covers :
    (clock now : Instant) (row : ApprovalRequestRecord) (todo rows : List ApprovalRequestRecord)
    → Covers now (row ∷ todo) rows
    → Covers now todo (update_rows clock row.approval_request_id expiry_transition now rows)
unfolding any update_rows
updated-Covers clock now row todo [] c = tt
updated-Covers clock now row todo (r ∷ rows) c =
    let known = c.0 in (λ d. ground (arith, known), updated-Covers clock now row todo rows c.1)

apply-Covers :
    (clock now : Instant) (id : Uuid) (row : ApprovalRequestRecord)
    (todo : List ApprovalRequestRecord) (s : ApprovalStore)
    → Covers now (row ∷ todo) s.requests
    → Covers now todo
        (or_else s (apply_resolution_transition clock id row expiry_transition now s)).requests
unfolding apply_resolution_transition
apply-Covers clock now id row todo s c =
    let skipped = λ (h : any (is_target row.approval_request_id) s.requests ≡ false).
      skipped-Covers now row todo s.requests h c in
    let updated = updated-Covers clock now row todo s.requests c in
    elim (Bool-cases (any (is_target row.approval_request_id) s.requests)) [
      | inl e ↦ rw e updated
      | inr e ↦ rw e (skipped e)
    ]

Covers-none :
    (now : Instant) (rows : List ApprovalRequestRecord)
    → Covers now [] rows
    → any (is_due now) rows ≡ false
unfolding any
Covers-none now [] c = refl
Covers-none now (r ∷ rows) c =
    let head = c.0 in let rest = Covers-none now rows c.1 in ground (arith, head, rest)

continue-none_due :
    (now : Instant) (result : Result ExpiryError (Option ApprovalResolutionResult)) (after : Stores)
    (rest : Result ExpiryError (List ApprovalResolutionResult) × Stores)
    (results : List ApprovalResolutionResult)
    → ((r : List ApprovalResolutionResult)
        → rest.0 ≡ ok r
        → any (is_due now) rest.1.approvals.requests ≡ false)
    → (continue_with result after rest).0 ≡ ok results
    → any (is_due now) (continue_with result after rest).1.approvals.requests ≡ false
continue-none_due now (err e) after rest results k h = cc
continue-none_due now (ok none) after rest results k h = k results h
continue-none_due now (ok (some o)) after (err e, s) results k h = cc
continue-none_due now (ok (some o)) after (ok r, s) results k h = k r refl

module _ (clock : Instant) (draw : ApprovalRequestRecord → Draw) (linked : Uuid → Option Uuid)
    (now : Instant) where
  -- A turn leaves the table that the update leaves.
  expire_row-approvals :
      (row : ApprovalRequestRecord) (s : Stores)
      → (expire_row clock draw linked now row s).1.approvals
        ≡ or_else s.approvals (
            apply_resolution_transition clock
              (draw row).resolution_id
              row
              expiry_transition
              now
              s.approvals)
  unfolding expire_row
  expire_row-approvals row s =
      elim (Option-cases (
        apply_resolution_transition clock (draw row).resolution_id row expiry_transition now
          s.approvals)) [
            | inl e ↦ rw (e, expire_row) refl
            | inr ((event, after), e) ↦
                rw (e, expire_row)
                  (elim (Result-cases
                    (get_approval_request row.approval_request_id after.requests)) [
                      | inr (x, h) ↦ rw (h, expire_row) refl
                      | inl (request, h) ↦ rw (h, expire_row) (ground arith)
                    ])
          ]

  expire_rows-none_due :
      (rows : List ApprovalRequestRecord) (s : Stores) (results : List ApprovalResolutionResult)
      → Covers now rows s.approvals.requests
      → (expire_rows clock draw linked now rows s).0 ≡ ok results
      → any (is_due now) (expire_rows clock draw linked now rows s).1.approvals.requests ≡ false
  unfolding expire_rows
  expire_rows-none_due [] s results c h = Covers-none now s.approvals.requests c
  expire_rows-none_due (row ∷ rows) s results c h =
      let after = (expire_row clock draw linked now row s).1 in
      let covers : Covers now rows after.approvals.requests =
        subst (λ a. Covers now rows a.requests) (sym (expire_row-approvals row s))
          (apply-Covers clock now (draw row).resolution_id row rows s.approvals c) in
      continue-none_due now (expire_row clock draw linked now row s).0 after
        (expire_rows clock draw linked now rows after) results
        (λ r. expire_rows-none_due rows after r covers) h

  -- If `expire_due_approval_requests` succeeds, no request is left that is pending and has run out.
  pub expire_due_approval_requests-none_due :
      (s : Stores) (results : List ApprovalResolutionResult)
      → (expire_due_approval_requests clock draw linked now s).0 ≡ ok results
      → any (is_due now) (expire_due_approval_requests clock draw linked now s).1.approvals.requests
        ≡ false
  unfolding expire_due_approval_requests
  expire_due_approval_requests-none_due s results h =
      expire_rows-none_due (due_rows now s.approvals.requests) s results
        (due_rows-Covers now s.approvals.requests) h
