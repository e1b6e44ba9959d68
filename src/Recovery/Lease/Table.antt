-- ===== src/Recovery/Lease/Table.antt =====
-- What the operations on the table of worker leases keep: the table's constraints, the identity of
-- every lease, and every lease that is closed. `expire_due_worker_leases` leaves no lease due.
use blue_lagoon.Base.{
  ◌≤◌, ◌≡◌, inl, inr, refl, Bool, Option-cases, find, ◌+◌, ◌-◌, true, false, not, ◌&&◌, is_some,
  List, [], ◌∷◌, All, any, if◌then◌else◌, arith,
}
use blue_lagoon.Contracts.Action.{Uuid, Instant}
use blue_lagoon.Recovery.Lease.{
  WorkerLeaseRecord, WorkerLeaseStatus, is_active, NewWorkerLease, row_is_active, has_id,
  insert_lease, create_worker_lease, validate_new_worker_lease, get_worker_lease, update_where,
  is_target, beat, closed, released, expired, terminated, breaks_check, update_heartbeat,
  refresh_worker_lease, refresh_worker_lease_progress, release_worker_lease, is_due,
  expire_due_worker_leases, terminate_active_worker_lease,
}

-- The CHECK constraints, on a row.
pub record LeaseIsValid (lease : WorkerLeaseRecord) : Type 0 where
  pub window : lease.lease_acquired_at ≤ lease.lease_expires_at
  pub heartbeat : lease.lease_acquired_at ≤ lease.last_heartbeat_at
  pub release : is_some lease.released_at ≡ not (row_is_active lease)

-- What an operation may do to a row.
pub record LeaseAdvances (lease after : WorkerLeaseRecord) : Type 0 where
  pub same_id : after.worker_lease_id ≡ lease.worker_lease_id
  pub same_token : after.lease_token ≡ lease.lease_token
  pub same_start : after.lease_acquired_at ≡ lease.lease_acquired_at
  pub final : row_is_active lease ≡ false → after ≡ lease

-- Row by row, a table has advanced to another.
abbrev pub TableAdvances : List WorkerLeaseRecord → List WorkerLeaseRecord → Type 0
TableAdvances [] [] = Unit
TableAdvances [] (a ∷ t) = ⊥
TableAdvances (l ∷ s) [] = ⊥
TableAdvances (l ∷ s) (a ∷ t) = LeaseAdvances l a × TableAdvances s t

-- The CHECK constraints are kept, and the table advances.
pub record Keeps (s after : List WorkerLeaseRecord) : Type 0 where
  pub valid : All LeaseIsValid s → All LeaseIsValid after
  pub advances : TableAdvances s after

pub TableAdvances-refl : (s : List WorkerLeaseRecord) → TableAdvances s s
TableAdvances-refl [] = tt
TableAdvances-refl (l ∷ s) = (
  record { same_id = refl; same_token = refl; same_start = refl; final = λ _. refl },
  TableAdvances-refl s,
)

module _ (test : WorkerLeaseRecord → Bool) (change : WorkerLeaseRecord → WorkerLeaseRecord) where
  abbrev Gentle : Type 0
  Gentle = (l : WorkerLeaseRecord) → LeaseAdvances l (if test l then change l else l)

  update_where-TableAdvances :
      Gentle → (s : List WorkerLeaseRecord) → TableAdvances s (update_where test change s)
  unfolding update_where
  update_where-TableAdvances g [] = tt
  update_where-TableAdvances g (l ∷ s) = (g l, update_where-TableAdvances g s)

pub update_where-LeaseIsValid :
    (test : WorkerLeaseRecord → Bool) (change : WorkerLeaseRecord → WorkerLeaseRecord)
    (s : List WorkerLeaseRecord)
    → All (λ l. test l ≡ true → LeaseIsValid l → LeaseIsValid (change l)) s
    → All LeaseIsValid s
    → All LeaseIsValid (update_where test change s)
unfolding update_where
update_where-LeaseIsValid test change [] k v = tt
update_where-LeaseIsValid test change (l ∷ s) k v =
    let head = λ (e : test l ≡ true). k.0 e v.0 in
    (ground (arith, head, v.0), update_where-LeaseIsValid test change s k.1 v.1)

-- The CHECK constraints hold after a heartbeat that the database takes.
unbroken :
    (clock : Instant) (id : Uuid) (heartbeat_at expires_at : Instant) (s : List WorkerLeaseRecord)
    → any (λ row. is_target id row && breaks_check heartbeat_at expires_at row) s ≡ false
    → All
        (λ l.
          is_target id l ≡ true
          → LeaseIsValid l
          → LeaseIsValid (beat clock heartbeat_at expires_at l))
        s
unfolding any
unbroken clock id heartbeat_at expires_at [] h = tt
unbroken clock id heartbeat_at expires_at (l ∷ s) h =
    (λ t v. ground arith, unbroken clock id heartbeat_at expires_at s (ground arith))

closing :
    (clock : Instant) (status : WorkerLeaseStatus) (at : Instant) (test : WorkerLeaseRecord → Bool)
    (s : List WorkerLeaseRecord)
    → is_active status ≡ false
    → All (λ l. test l ≡ true → LeaseIsValid l → LeaseIsValid (closed clock status at l)) s
closing clock status at test [] h = tt
closing clock status at test (l ∷ s) h = (
  λ t v. record { window = v.window; heartbeat = v.heartbeat; release = ground arith },
  closing clock status at test s h,
)

-- The table after a closing UPDATE.
module _ (clock : Instant) (status : WorkerLeaseStatus) (at : Instant)
    (test : WorkerLeaseRecord → Bool) (ends : is_active status ≡ false)
    (live : (l : WorkerLeaseRecord) → test l ≡ true → row_is_active l ≡ true)
    (s : List WorkerLeaseRecord) where
  pub closing-Keeps : Keeps s (update_where test (closed clock status at) s)
  closing-Keeps = record {
    valid =
        update_where-LeaseIsValid test (closed clock status at) s
          (closing clock status at test s ends);
    advances =
        update_where-TableAdvances test (closed clock status at)
          (λ l. let a = live l in ground (arith, a)) s;
  }

pub Keeps-refl : (s : List WorkerLeaseRecord) → Keeps s s
Keeps-refl s = record { valid = λ v. v; advances = TableAdvances-refl s }

module _ (clock : Instant) (id : Uuid) where
  pub refresh_worker_lease-Keeps :
      (heartbeat_at expires_at : Instant) (s : List WorkerLeaseRecord)
      → Keeps s (refresh_worker_lease clock id heartbeat_at expires_at s).1
  unfolding refresh_worker_lease update_heartbeat get_worker_lease
  refresh_worker_lease-Keeps heartbeat_at expires_at s =
      let change = beat clock heartbeat_at expires_at in
      let same = Keeps-refl s in
      let moved = update_where-TableAdvances (is_target id) change (λ l. ground arith) s in
      let kept = update_where-LeaseIsValid (is_target id) change s in
      let fine = unbroken clock id heartbeat_at expires_at s in
      ground (arith, same, moved, kept, fine)

  pub refresh_worker_lease_progress-Keeps :
      (heartbeat_at : Instant) (s : List WorkerLeaseRecord)
      → Keeps s (refresh_worker_lease_progress clock id heartbeat_at s).1
  unfolding refresh_worker_lease_progress get_worker_lease
  refresh_worker_lease_progress-Keeps heartbeat_at s =
      let same = Keeps-refl s in
      elim (Option-cases (find (has_id id) s)) [
        | inl e ↦ rw e same
        | inr (lease, e) ↦
            let duration = lease.lease_expires_at - lease.lease_acquired_at in
            let next = refresh_worker_lease-Keeps heartbeat_at (heartbeat_at + duration) s in
            rw e (ground (arith, same, next))
      ]

  pub release_worker_lease-Keeps :
      (at : Instant) (s : List WorkerLeaseRecord) → Keeps s (release_worker_lease clock id at s).1
  unfolding release_worker_lease get_worker_lease
  release_worker_lease-Keeps at s =
      closing-Keeps clock released at (is_target id) refl (λ l t. ground arith) s

  pub terminate_active_worker_lease-Keeps :
      (at : Instant) (s : List WorkerLeaseRecord)
      → Keeps s (terminate_active_worker_lease clock id at s).1
  unfolding terminate_active_worker_lease get_worker_lease
  terminate_active_worker_lease-Keeps at s =
      let same = Keeps-refl s in
      let closed = closing-Keeps clock terminated at (is_target id) refl (λ l t. ground arith) s in
      ground (arith, same, closed)

pub expire_due_worker_leases-Keeps :
    (clock now : Instant) (s : List WorkerLeaseRecord)
    → Keeps s (expire_due_worker_leases clock now s).1
unfolding expire_due_worker_leases
expire_due_worker_leases-Keeps clock now s =
    closing-Keeps clock expired now (is_due now) refl (λ l t. ground arith) s

pub create_worker_lease-LeaseIsValid :
    (clock : Instant) (lease : NewWorkerLease) (s : List WorkerLeaseRecord)
    → All LeaseIsValid s
    → All LeaseIsValid (create_worker_lease clock lease s).1
unfolding create_worker_lease insert_lease get_worker_lease validate_new_worker_lease
create_worker_lease-LeaseIsValid clock lease s v = ground arith
