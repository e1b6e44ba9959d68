-- ===== src/Approval/Store/History.antt =====
-- The life of the table of approval requests as a step relation: any order of the operations, each
-- with any arguments, failed ones included. `create` inserts after a count that was read before and
-- may be stale. `expire` is one turn of the loop of `expire_due_approval_requests`, on a row that
-- was read before, when it was pending and due, and may be stale.
use blue_lagoon.Base.{
  ℕ, ◌≡◌, ◌≤◌, sym, subst, Option-cases, Result-cases, inl, inr, false, Option, none, some, List,
  [], ◌∷◌, arith,
}
use blue_lagoon.Contracts.Action.{Uuid, Instant, ApprovalRequestStatus}
use blue_lagoon.Config.{ApprovalsConfig}
use blue_lagoon.Approval.Records.{
  NewApprovalRequestRecord, ApprovalRequestRecord, ApprovalResolutionAttempt,
  ApprovalResolutionEvent, ResolutionTransition,
}
use blue_lagoon.Approval.Checks.{validate_resolution_attempt}
use blue_lagoon.Approval.Store.{
  ApprovalStore, row_is_pending, new_row, pending_count, create_counted, update_rows,
  expiry_transition, apply_resolution_transition, choose_transition, finish_resolution,
  resolve_locked, resolve_approval_request, get_approval_request, get_approval_request_by_token,
}
use blue_lagoon.Approval.Store.Rows.{updated-Advances}
use blue_lagoon.Approval.Store.Invariant.{
  StoreIsValid, IsWithinLimit, create_counted-StoreIsValid, create_counted-IsWithinLimit,
  apply_resolution_transition-StoreIsValid,
}

-- The store after an update, or the old one if it changed no row.
abbrev pub or_else :
    ApprovalStore → Option (ApprovalResolutionEvent × ApprovalStore) → ApprovalStore
or_else s none = s
or_else s (some (event, after)) = after

pub data ApprovalStep (config : ApprovalsConfig) : ApprovalStore → ApprovalStore → Type 0 where
  create :
      (clock : Instant) (counted : ℕ) (request : NewApprovalRequestRecord) (s : ApprovalStore)
      → ApprovalStep config s (create_counted config clock counted request s).1
  resolve :
      (clock : Instant) (id : Uuid) (attempt : ApprovalResolutionAttempt) (s : ApprovalStore)
      → ApprovalStep config s (resolve_approval_request clock id attempt s).1
  expire :
      (clock : Instant) (id : Uuid) (stale : ApprovalRequestRecord) (now : Instant)
      (s : ApprovalStore)
      → stale.status ≡ ApprovalRequestStatus.pending
      → stale.expires_at ≤ now
      → ApprovalStep config s
          (or_else s (apply_resolution_transition clock id stale expiry_transition now s))

pub data ApprovalRun (config : ApprovalsConfig) : ApprovalStore → ApprovalStore → Type 0 where
  stop : (s : ApprovalStore) → ApprovalRun config s s
  then_step :
      {s t u : ApprovalStore}
      → ApprovalRun config s t
      → ApprovalStep config t u
      → ApprovalRun config s u

-- The row is a row of the table.
pub data IsRow (row : ApprovalRequestRecord) : List ApprovalRequestRecord → Type 0 where
  here : (rows : List ApprovalRequestRecord) → IsRow row (row ∷ rows)
  there :
      (other : ApprovalRequestRecord) (rows : List ApprovalRequestRecord)
      → IsRow row rows
      → IsRow row (other ∷ rows)

-- Creations that count the requests of the very table they write to.
abbrev pub CountsNow :
    (config : ApprovalsConfig) {s t : ApprovalStore} → ApprovalStep config s t → Type 0
CountsNow config (create clock counted request s) = counted ≡ pending_count s.requests
CountsNow config (resolve clock id attempt s) = Unit {0}
CountsNow config (expire clock id stale now s pending due) = Unit {0}

-- A run in which no creation counts before another operation and inserts after it.
abbrev pub IsSequential :
    (config : ApprovalsConfig) {s t : ApprovalStore} → ApprovalRun config s t → Type 0
IsSequential config (stop s) = Unit {0}
IsSequential config (then_step r x) = IsSequential config r × CountsNow config x

-- What a step keeps, the limit if `Fresh`.
record Keeps (config : ApprovalsConfig) (Fresh : Type 0) (s after : ApprovalStore) : Type 0 where
  valid : StoreIsValid s → StoreIsValid after
  bounded : Fresh → IsWithinLimit config s → IsWithinLimit config after
  closed :
      (row : ApprovalRequestRecord)
      → row_is_pending row ≡ false
      → IsRow row s.requests
      → IsRow row after.requests

update_rows-IsRow :
    (clock : Instant) (id : Uuid) (transition : ResolutionTransition) (at : Instant)
    (rows : List ApprovalRequestRecord) (row : ApprovalRequestRecord)
    → row_is_pending row ≡ false
    → IsRow row rows
    → IsRow row (update_rows clock id transition at rows)
unfolding update_rows
update_rows-IsRow clock id transition at [] row h m = elim m [ ]
update_rows-IsRow clock id transition at (r ∷ rows) row h (here _) =
    subst (λ x. IsRow row (x ∷ update_rows clock id transition at rows))
      (sym ((updated-Advances clock id transition at row).final h)) (here _)
update_rows-IsRow clock id transition at (r ∷ rows) row h (there _ _ m) =
    there _ _ (update_rows-IsRow clock id transition at rows row h m)

Keeps-refl : (config : ApprovalsConfig) (s : ApprovalStore) → Keeps config (Unit {0}) s s
Keeps-refl config s = record { valid = λ v. v; bounded = λ f b. b; closed = λ row h m. m }

create-Keeps :
    (config : ApprovalsConfig) (clock : Instant) (counted : ℕ) (request : NewApprovalRequestRecord)
    (s : ApprovalStore)
    → Keeps config
        (counted ≡ pending_count s.requests)
        s
        (create_counted config clock counted request s).1
unfolding create_counted
create-Keeps config clock counted request s = record {
  valid = create_counted-StoreIsValid config clock counted request s;
  bounded = create_counted-IsWithinLimit config clock counted request s;
  closed =
      λ row h m. let later = there (new_row clock request) s.requests m in ground (arith, later, m);
}

module _ (config : ApprovalsConfig) (clock : Instant) (id : Uuid) (row : ApprovalRequestRecord)
    (s : ApprovalStore) where
  apply-Keeps :
      (transition : ResolutionTransition) (at : Instant)
      → Keeps config
          (Unit {0})
          s
          (or_else s (apply_resolution_transition clock id row transition at s))
  unfolding apply_resolution_transition
  apply-Keeps transition at =
      elim (Option-cases (apply_resolution_transition clock id row transition at s)) [
        | inl e ↦ rw (e, apply_resolution_transition) (Keeps-refl config s)
        | inr ((event, after), e) ↦ record {
          valid = λ v.
              rw (e, apply_resolution_transition)
                ((apply_resolution_transition-StoreIsValid clock id row transition at s after event
                    e).0
                  v);
          bounded = λ f b.
              let fewer =
                (apply_resolution_transition-StoreIsValid clock id row transition at s after event
                  e).1 in
              rw (e, apply_resolution_transition) (omega (arith, fewer, b));
          closed = λ r h m.
              let kept =
                update_rows-IsRow clock row.approval_request_id transition at s.requests r h m in
              ground (arith, kept, m);
        }
      ]

finish-Keeps :
    (config : ApprovalsConfig) (s : ApprovalStore) (id : Uuid)
    (o : Option (ApprovalResolutionEvent × ApprovalStore))
    → Keeps config (Unit {0}) s (or_else s o)
    → Keeps config (Unit {0}) s (finish_resolution o id s).1
unfolding get_approval_request
finish-Keeps config s id none k = k
finish-Keeps config s id (some (event, after)) k = ground (arith, k)

resolve_locked-Keeps :
    (config : ApprovalsConfig) (clock : Instant) (id : Uuid) (attempt : ApprovalResolutionAttempt)
    (row : ApprovalRequestRecord) (s : ApprovalStore)
    → Keeps config (Unit {0}) s (resolve_locked clock id attempt row s).1
unfolding resolve_locked
resolve_locked-Keeps config clock id attempt row s =
    elim (Result-cases (choose_transition row attempt)) [
      | inl (transition, e) ↦
          let o = apply_resolution_transition clock id row transition attempt.resolved_at s in
          let same = Keeps-refl config s in
          let done =
            finish-Keeps config s row.approval_request_id o
              (apply-Keeps config clock id row s transition attempt.resolved_at) in
          rw e (ground (arith, same, done))
      | inr (e, h) ↦ let same = Keeps-refl config s in rw h (ground (arith, same))
    ]

resolve-Keeps :
    (config : ApprovalsConfig) (clock : Instant) (id : Uuid) (attempt : ApprovalResolutionAttempt)
    (s : ApprovalStore)
    → Keeps config (Unit {0}) s (resolve_approval_request clock id attempt s).1
unfolding resolve_approval_request
resolve-Keeps config clock id attempt s =
    let same = Keeps-refl config s in
    elim (Result-cases (validate_resolution_attempt attempt)) [
      | inr (x, h) ↦ rw (h, resolve_approval_request) same
      | inl (x, h) ↦
          rw (h, resolve_approval_request)
            (elim (Option-cases (get_approval_request_by_token attempt.token s.requests)) [
              | inl e ↦ rw e same
              | inr (row, e) ↦ rw e (resolve_locked-Keeps config clock id attempt row s)
            ])
    ]

step-Keeps :
    (config : ApprovalsConfig) {s t : ApprovalStore} (x : ApprovalStep config s t)
    → Keeps config (CountsNow config x) s t
step-Keeps config (create clock counted request s) = create-Keeps config clock counted request s
step-Keeps config (resolve clock id attempt s) = resolve-Keeps config clock id attempt s
step-Keeps config (expire clock id stale now s pending due) =
    apply-Keeps config clock id stale s expiry_transition now

-- Every sequence of operations, failed ones, creations with a stale count and expiries of stale
-- rows included, keeps the invariant of the table: every row expires after it was requested and has
-- a status that fits its resolution, ids and tokens are unique, and no two pending requests have one
-- fingerprint.
pub run-StoreIsValid :
    (config : ApprovalsConfig) {s t : ApprovalStore}
    → ApprovalRun config s t
    → StoreIsValid s
    → StoreIsValid t
run-StoreIsValid config (stop s) v = v
run-StoreIsValid config (then_step r x) v =
    (step-Keeps config x).valid (run-StoreIsValid config r v)

-- In a sequence of operations in which every creation counts the pending requests of the table that
-- it then writes to, no more requests are pending at the end than the configuration allows, if that
-- is so at the start.
pub run-IsWithinLimit :
    (config : ApprovalsConfig) {s t : ApprovalStore} (run : ApprovalRun config s t)
    → IsSequential config run
    → IsWithinLimit config s
    → IsWithinLimit config t
run-IsWithinLimit config (stop s) q b = b
run-IsWithinLimit config (then_step r x) q b =
    (step-Keeps config x).bounded q.1 (run-IsWithinLimit config r q.0 b)

-- A request that is resolved is a row of every table reached later, as it is: no operation resolves
-- it a second time or writes to it.
pub run-resolved_request :
    (config : ApprovalsConfig) (row : ApprovalRequestRecord) {s t : ApprovalStore}
    → ApprovalRun config s t
    → row_is_pending row ≡ false
    → IsRow row s.requests
    → IsRow row t.requests
run-resolved_request config row (stop s) h m = m
run-resolved_request config row (then_step r x) h m =
    (step-Keeps config x).closed row h (run-resolved_request config row r h m)
