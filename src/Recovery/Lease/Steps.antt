-- ===== src/Recovery/Lease/Steps.antt =====
-- The life of the table of worker leases as a step relation: any order of the operations, each with
-- any arguments, failed ones included.
use blue_lagoon.Base.{◌≡◌, subst, refl, sym, false, List, [], ◌∷◌, All, any, arith}
use blue_lagoon.Contracts.Action.{Uuid, Instant}
use blue_lagoon.Recovery.Lease.{
  WorkerLeaseRecord, NewWorkerLease, row_is_active, acquired, insert_lease, get_worker_lease,
  validate_new_worker_lease, create_worker_lease, refresh_worker_lease,
  refresh_worker_lease_progress, release_worker_lease, is_due, update_where,
  expire_due_worker_leases, terminate_active_worker_lease,
}
use blue_lagoon.Recovery.Lease.Table.{
  LeaseIsValid, TableAdvances, refresh_worker_lease-Keeps, refresh_worker_lease_progress-Keeps,
  release_worker_lease-Keeps, terminate_active_worker_lease-Keeps, expire_due_worker_leases-Keeps,
  create_worker_lease-LeaseIsValid,
}

pub data LeaseStep : List WorkerLeaseRecord → List WorkerLeaseRecord → Type 0 where
  create :
      (clock : Instant) (lease : NewWorkerLease) (s : List WorkerLeaseRecord)
      → LeaseStep s (create_worker_lease clock lease s).1
  refresh :
      (clock : Instant) (id : Uuid) (heartbeat_at expires_at : Instant) (s : List WorkerLeaseRecord)
      → LeaseStep s (refresh_worker_lease clock id heartbeat_at expires_at s).1
  progress :
      (clock : Instant) (id : Uuid) (heartbeat_at : Instant) (s : List WorkerLeaseRecord)
      → LeaseStep s (refresh_worker_lease_progress clock id heartbeat_at s).1
  release :
      (clock : Instant) (id : Uuid) (at : Instant) (s : List WorkerLeaseRecord)
      → LeaseStep s (release_worker_lease clock id at s).1
  expire :
      (clock now : Instant) (s : List WorkerLeaseRecord)
      → LeaseStep s (expire_due_worker_leases clock now s).1
  terminate :
      (clock : Instant) (id : Uuid) (at : Instant) (s : List WorkerLeaseRecord)
      → LeaseStep s (terminate_active_worker_lease clock id at s).1

pub data LeaseRun : List WorkerLeaseRecord → List WorkerLeaseRecord → Type 0 where
  stop : (s : List WorkerLeaseRecord) → LeaseRun s s
  then_step : {s t u : List WorkerLeaseRecord} → LeaseRun s t → LeaseStep t u → LeaseRun s u

step-valid :
    {s t : List WorkerLeaseRecord} → LeaseStep s t → All LeaseIsValid s → All LeaseIsValid t
step-valid (create clock lease s) v = create_worker_lease-LeaseIsValid clock lease s v
step-valid (refresh clock id h e s) v = (refresh_worker_lease-Keeps clock id h e s).valid v
step-valid (progress clock id h s) v = (refresh_worker_lease_progress-Keeps clock id h s).valid v
step-valid (release clock id at s) v = (release_worker_lease-Keeps clock id at s).valid v
step-valid (expire clock now s) v = (expire_due_worker_leases-Keeps clock now s).valid v
step-valid (terminate clock id at s) v = (terminate_active_worker_lease-Keeps clock id at s).valid v

-- Every lease of a table that a sequence of operations reaches from a valid one, the empty table
-- say, was acquired no later than it expires and than its last heartbeat, and has a release time
-- exactly if it is not active.
pub run-LeaseIsValid :
    {s t : List WorkerLeaseRecord} → LeaseRun s t → All LeaseIsValid s → All LeaseIsValid t
run-LeaseIsValid (stop s) v = v
run-LeaseIsValid (then_step r x) v = step-valid x (run-LeaseIsValid r v)

-- The lease is a row of the table.
pub data IsRow (lease : WorkerLeaseRecord) : List WorkerLeaseRecord → Type 0 where
  here : (s : List WorkerLeaseRecord) → IsRow lease (lease ∷ s)
  there :
      (other : WorkerLeaseRecord) (s : List WorkerLeaseRecord)
      → IsRow lease s
      → IsRow lease (other ∷ s)

closed-stays :
    (lease : WorkerLeaseRecord) (s t : List WorkerLeaseRecord)
    → row_is_active lease ≡ false
    → TableAdvances s t
    → IsRow lease s
    → IsRow lease t
closed-stays lease [] t h a m = elim m [ ]
closed-stays lease (l ∷ s) [] h a m = absurd a
closed-stays lease (l ∷ s) (b ∷ t) h a (here _) =
    subst (λ r. IsRow lease (r ∷ t)) (sym (a.0.final h)) (here t)
closed-stays lease (l ∷ s) (b ∷ t) h a (there _ _ m) = there b t (closed-stays lease s t h a.1 m)

created-stays :
    (lease : WorkerLeaseRecord) (clock : Instant) (new : NewWorkerLease)
    (s : List WorkerLeaseRecord)
    → IsRow lease s
    → IsRow lease (create_worker_lease clock new s).1
unfolding create_worker_lease insert_lease get_worker_lease validate_new_worker_lease
created-stays lease clock new s m =
    let later = there (acquired clock new) s m in ground (arith, later, m)

step-closed :
    (lease : WorkerLeaseRecord) {s t : List WorkerLeaseRecord}
    → LeaseStep s t
    → row_is_active lease ≡ false
    → IsRow lease s
    → IsRow lease t
step-closed lease (create clock new s) h m = created-stays lease clock new s m
step-closed lease (refresh clock id b e s) h m =
    closed-stays lease s _ h (refresh_worker_lease-Keeps clock id b e s).advances m
step-closed lease (progress clock id b s) h m =
    closed-stays lease s _ h (refresh_worker_lease_progress-Keeps clock id b s).advances m
step-closed lease (release clock id at s) h m =
    closed-stays lease s _ h (release_worker_lease-Keeps clock id at s).advances m
step-closed lease (expire clock now s) h m =
    closed-stays lease s _ h (expire_due_worker_leases-Keeps clock now s).advances m
step-closed lease (terminate clock id at s) h m =
    closed-stays lease s _ h (terminate_active_worker_lease-Keeps clock id at s).advances m

-- A lease that is released, expired or terminated is a row of every table reached later, as it is:
-- no operation revives it or writes to it.
pub run-closed_lease :
    (lease : WorkerLeaseRecord) {s t : List WorkerLeaseRecord}
    → LeaseRun s t
    → row_is_active lease ≡ false
    → IsRow lease s
    → IsRow lease t
run-closed_lease lease (stop s) h m = m
run-closed_lease lease (then_step r x) h m = step-closed lease x h (run-closed_lease lease r h m)

-- After `expire_due_worker_leases` no active lease has run out.
pub expire_due_worker_leases-none_due :
    (clock now : Instant) (s : List WorkerLeaseRecord)
    → any (is_due now) (expire_due_worker_leases clock now s).1 ≡ false
unfolding expire_due_worker_leases any update_where
expire_due_worker_leases-none_due clock now [] = refl
expire_due_worker_leases-none_due clock now (l ∷ s) =
    ground (arith, expire_due_worker_leases-none_due clock now s)
