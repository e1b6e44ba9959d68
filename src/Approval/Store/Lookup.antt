-- ===== src/Approval/Store/Lookup.antt =====
-- Finding a row of the table of approval requests, before and after an update.
use blue_lagoon.Base.{
  ◌≡◌, ◌⊎◌, All, subst, inl, inr, Bool-cases, Bool, true, some, List, [], ◌∷◌, any, find, ◌==◌,
  ==_refl, arith,
}
use blue_lagoon.Contracts.Action.{Instant}
use blue_lagoon.Approval.Records.{ApprovalRequestRecord, ResolutionTransition}
use blue_lagoon.Approval.Store.{row_is_pending, is_target, update_rows}
use blue_lagoon.Approval.Store.Rows.{Apart, Distinct, updated}

-- The row stands in the table.
abbrev pub In : ApprovalRequestRecord → List ApprovalRequestRecord → Type 0
In row [] = ⊥
In row (other ∷ rows) = (other ≡ row) ⊎ In row rows

pub find-In :
    (p : ApprovalRequestRecord → Bool) (rows : List ApprovalRequestRecord)
    (row : ApprovalRequestRecord)
    → find p rows ≡ some row
    → (p row ≡ true) × In row rows
unfolding find
find-In p [] row h = cc
find-In p (other ∷ rows) row h = elim (Bool-cases (p other)) [
  | inl e ↦ ground (arith, e)
  | inr e ↦ let (q, i) = find-In p rows row (ground arith) in (q, inr i)
]

In-Apart :
    (other row : ApprovalRequestRecord) (rows : List ApprovalRequestRecord)
    → All (Apart other) rows
    → In row rows
    → Apart other row
In-Apart other row [] a i = absurd i
In-Apart other row (x ∷ rows) a i = elim i [
  | inl e ↦ subst (Apart other) e a.0
  | inr j ↦ In-Apart other row rows a.1 j
]

-- The update is read back: the row that was locked, with the transition applied.
pub find-update_rows :
    (clock : Instant) (transition : ResolutionTransition) (at : Instant)
    (row : ApprovalRequestRecord) (rows : List ApprovalRequestRecord)
    → Distinct rows
    → In row rows
    → find
        (λ other. other.approval_request_id == row.approval_request_id)
        (update_rows clock row.approval_request_id transition at rows)
      ≡ some (updated clock row.approval_request_id transition at row)
unfolding find update_rows
find-update_rows clock transition at row [] d i = absurd i
find-update_rows clock transition at row (other ∷ rows) d i = elim i [
  | inl e ↦ rw e (ground (arith, ==_refl row.approval_request_id))
  | inr j ↦
      let apart = In-Apart other row rows d.0 j in
      ground (arith, apart, find-update_rows clock transition at row rows d.1 j)
]

pub any-is_target :
    (row : ApprovalRequestRecord) (rows : List ApprovalRequestRecord)
    → In row rows
    → row_is_pending row ≡ true
    → any (is_target row.approval_request_id) rows ≡ true
unfolding any
any-is_target row [] i p = absurd i
any-is_target row (other ∷ rows) i p = elim i [
  | inl e ↦ rw e (ground (arith, ==_refl row.approval_request_id))
  | inr j ↦ ground (arith, any-is_target row rows j p)
]
