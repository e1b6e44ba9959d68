-- ===== src/Tests/Leases.antt =====
-- The table of worker leases with one lease of ten seconds.
use blue_lagoon.Base.{◌≡◌, ◌↔◌, refl, none, some, List, [], ◌∷◌, All, any, ok, arith}
use blue_lagoon.Recovery.Lease.{
  WorkerLeaseRecord, WorkerLeaseKind, active, released, beat, closed, hard_expired, soft_warning,
  healthy, classify_worker_lease_supervision, refresh_worker_lease_progress, release_worker_lease,
}
use blue_lagoon.Recovery.Lease.Table.{LeaseIsValid}
use blue_lagoon.Recovery.Lease.Supervision.{
  HasExpired, HasPassed, classify_worker_lease_supervision_lem,
}
use blue_lagoon.Recovery.Lease.Steps.{
  LeaseRun, stop, then_step, progress, release, IsRow, here, run-LeaseIsValid, run-closed_lease,
}
use blue_lagoon.Recovery.Lease.Refresh.{IsOnly, refresh_worker_lease_progress_twice}

abbrev lease : WorkerLeaseRecord
lease = record {
  worker_lease_id = 4;
  trace_id = 1;
  execution_id = some 2;
  background_job_id = none;
  background_job_run_id = none;
  governed_action_execution_id = none;
  worker_kind = WorkerLeaseKind.foreground;
  status = active;
  lease_token = 44;
  worker_pid = none;
  lease_acquired_at = 1000000000;
  lease_expires_at = 11000000000;
  last_heartbeat_at = 1000000000;
  released_at = none;
  created_at = 1000000000;
  updated_at = 1000000000;
}

abbrev leases : List WorkerLeaseRecord
leases = lease ∷ []

leases_valid : All LeaseIsValid leases
leases_valid = (record { window = omega arith; heartbeat = omega arith; release = refl }, tt)

classify_worker_lease_supervision_example :
    ((classify_worker_lease_supervision lease 9500000000 80 ≡ ok hard_expired)
      ↔ HasExpired lease 9500000000)
    × ((classify_worker_lease_supervision lease 9500000000 80 ≡ ok soft_warning)
        ↔ ((HasExpired lease 9500000000 → ⊥) × HasPassed lease 9500000000 80))
    × ((classify_worker_lease_supervision lease 9500000000 80 ≡ ok healthy)
        ↔ ((HasExpired lease 9500000000 → ⊥) × (HasPassed lease 9500000000 80 → ⊥)))
classify_worker_lease_supervision_example =
    classify_worker_lease_supervision_lem lease 9500000000 80 (omega arith) (omega arith) refl

abbrev after_progress : List WorkerLeaseRecord
after_progress = (refresh_worker_lease_progress 5000000001 4 5000000000 leases).1

abbrev lease_run : LeaseRun leases (release_worker_lease 6000000001 4 6000000000 after_progress).1
lease_run =
    then_step (then_step (stop leases) (progress 5000000001 4 5000000000 leases))
      (release 6000000001 4 6000000000 after_progress)

run-LeaseIsValid_example :
    All LeaseIsValid (release_worker_lease 6000000001 4 6000000000 after_progress).1
run-LeaseIsValid_example = run-LeaseIsValid lease_run leases_valid

abbrev released_lease : WorkerLeaseRecord
released_lease = closed 3000000001 released 3000000000 lease

abbrev late_run :
    LeaseRun
      (released_lease ∷ [])
      (refresh_worker_lease_progress 5000000001 4 5000000000 (released_lease ∷ [])).1
late_run =
    then_step (stop (released_lease ∷ [])) (progress 5000000001 4 5000000000 (released_lease ∷ []))

run-closed_lease_example :
    IsRow released_lease
      (refresh_worker_lease_progress 5000000001 4 5000000000 (released_lease ∷ [])).1
run-closed_lease_example = run-closed_lease released_lease late_run refl (here [])

IsOnly-lease : IsOnly 4 lease leases
unfolding any
IsOnly-lease = (refl, refl)

refresh_worker_lease_progress_twice_example :
    (refresh_worker_lease_progress 9000000001 4 9000000000
      (refresh_worker_lease_progress 9000000001 4 5000000000 leases).1).0
    ≡ ok (beat 9000000001 9000000000 23000000000 lease)
refresh_worker_lease_progress_twice_example =
    refresh_worker_lease_progress_twice 9000000001 4 5000000000 9000000000 lease leases IsOnly-lease
      refl (omega arith) (omega arith) (omega arith)
