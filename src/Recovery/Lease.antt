-- ===== src/Recovery/Lease.antt =====
-- The table of worker leases of crates/harness/src/recovery.rs, and the supervision of a lease.
-- Instants count nanoseconds. The metadata of a lease is left out. `clock` is the database's `NOW()`.
pub mod Table
pub mod Supervision
pub mod Refresh
pub mod Steps
use blue_lagoon.Base.{
  ℕ, ℤ, ◌+◌, ◌-◌, ◌*◌, ◌/◌, Bool, true, false, not, ◌&&◌, ◌||◌, Option, none, some, List, [], ◌∷◌,
  map, ltb, leb, ◌==◌, if◌then◌else◌, any, find, Result, ok, err, bail_if,
}
use blue_lagoon.Base.State.{Action, lift, ◌>>=◌, ◌>>◌}
use blue_lagoon.Contracts.Action.{Uuid, Instant}
use blue_lagoon.Recovery.Decision.{
  RecoveryCheckpointKind, RecoveryActionClassification, safe_replay, ambiguous_or_nonrepeatable,
}

pub data WorkerLeaseKind : Type 0 where
  foreground background governed_action : WorkerLeaseKind

pub data WorkerLeaseStatus : Type 0 where
  active released expired terminated : WorkerLeaseStatus

pub record NewWorkerLease : Type 0 where
  pub worker_lease_id : Uuid
  pub trace_id : Uuid
  pub execution_id : Option Uuid
  pub background_job_id : Option Uuid
  pub background_job_run_id : Option Uuid
  pub governed_action_execution_id : Option Uuid
  pub worker_kind : WorkerLeaseKind
  pub lease_token : Uuid
  pub worker_pid : Option ℤ
  pub lease_acquired_at : Instant
  pub lease_expires_at : Instant
  pub last_heartbeat_at : Instant

pub record WorkerLeaseRecord : Type 0 where
  pub worker_lease_id : Uuid
  pub trace_id : Uuid
  pub execution_id : Option Uuid
  pub background_job_id : Option Uuid
  pub background_job_run_id : Option Uuid
  pub governed_action_execution_id : Option Uuid
  pub worker_kind : WorkerLeaseKind
  pub status : WorkerLeaseStatus
  pub lease_token : Uuid
  pub worker_pid : Option ℤ
  pub lease_acquired_at : Instant
  pub lease_expires_at : Instant
  pub last_heartbeat_at : Instant
  pub released_at : Option Instant
  pub created_at : Instant
  pub updated_at : Instant

pub data LeaseError : Type 0 where
  expiry_before_acquisition heartbeat_before_acquisition : LeaseError
  expiry_before_heartbeat duration_not_positive : LeaseError
  lease_conflict lease_not_found lease_not_active : LeaseError
  threshold_out_of_range : LeaseError

abbrev pub LeaseAction : Type 0 → Type 0
LeaseAction A = Action (List WorkerLeaseRecord) LeaseError A

abbrev pub is_active : WorkerLeaseStatus → Bool
is_active active = true
is_active _ = false

abbrev pub row_is_active : WorkerLeaseRecord → Bool
row_is_active lease = is_active lease.status

unfoldable pub validate_new_worker_lease : NewWorkerLease → Result LeaseError (Unit {0})
validate_new_worker_lease lease =
    if ltb lease.lease_expires_at lease.lease_acquired_at
    then err expiry_before_acquisition
    else if ltb lease.last_heartbeat_at lease.lease_acquired_at
    then err heartbeat_before_acquisition
    else ok tt

abbrev pub acquired : (clock : Instant) → NewWorkerLease → WorkerLeaseRecord
acquired clock lease = record {
  worker_lease_id = lease.worker_lease_id;
  trace_id = lease.trace_id;
  execution_id = lease.execution_id;
  background_job_id = lease.background_job_id;
  background_job_run_id = lease.background_job_run_id;
  governed_action_execution_id = lease.governed_action_execution_id;
  worker_kind = lease.worker_kind;
  status = active;
  lease_token = lease.lease_token;
  worker_pid = lease.worker_pid;
  lease_acquired_at = lease.lease_acquired_at;
  lease_expires_at = lease.lease_expires_at;
  last_heartbeat_at = lease.last_heartbeat_at;
  released_at = none;
  created_at = clock;
  updated_at = clock;
}

abbrev or_not_found : Option WorkerLeaseRecord → Result LeaseError WorkerLeaseRecord
or_not_found none = err lease_not_found
or_not_found (some lease) = ok lease

abbrev pub has_id : Uuid → WorkerLeaseRecord → Bool
has_id id lease = lease.worker_lease_id == id

unfoldable pub get_worker_lease : Uuid → LeaseAction WorkerLeaseRecord
unfolding find
get_worker_lease id s = (or_not_found (find (has_id id) s), s)

-- The INSERT: the id is the table's primary key, and the token is UNIQUE.
unfoldable pub insert_lease : Instant → NewWorkerLease → LeaseAction (Unit {0})
unfolding any
insert_lease clock lease s =
    if any (λ row. has_id lease.worker_lease_id row || row.lease_token == lease.lease_token) s
    then (err lease_conflict, s)
    else (ok tt, acquired clock lease ∷ s)

unfoldable pub create_worker_lease : Instant → NewWorkerLease → LeaseAction WorkerLeaseRecord
unfolding insert_lease get_worker_lease
create_worker_lease clock lease = do
  lift (validate_new_worker_lease lease)
  insert_lease clock lease
  get_worker_lease lease.worker_lease_id

-- An UPDATE of the rows that meet `test`.
unfoldable pub update_where :
    (WorkerLeaseRecord → Bool)
    → (WorkerLeaseRecord → WorkerLeaseRecord)
    → List WorkerLeaseRecord
    → List WorkerLeaseRecord
update_where test change = map (λ lease. if test lease then change lease else lease)

-- `WHERE worker_lease_id = $1 AND status = 'active'`
abbrev pub is_target : Uuid → WorkerLeaseRecord → Bool
is_target id lease = has_id id lease && row_is_active lease

abbrev pub beat :
    (clock heartbeat_at lease_expires_at : Instant) → WorkerLeaseRecord → WorkerLeaseRecord
beat clock heartbeat_at lease_expires_at lease = record lease {
  last_heartbeat_at = heartbeat_at;
  lease_expires_at = lease_expires_at;
  updated_at = clock;
}

abbrev pub closed :
    (clock : Instant) → WorkerLeaseStatus → (at : Instant) → WorkerLeaseRecord → WorkerLeaseRecord
closed clock status at lease = record lease {
  status = status;
  released_at = some at;
  updated_at = clock;
}

-- The CHECK constraints of the table, on the row that a heartbeat would leave.
abbrev pub breaks_check : (heartbeat_at lease_expires_at : Instant) → WorkerLeaseRecord → Bool
breaks_check heartbeat_at lease_expires_at lease =
    ltb heartbeat_at lease.lease_acquired_at || ltb lease_expires_at lease.lease_acquired_at

-- The UPDATE of `refresh_worker_lease`.
unfoldable pub update_heartbeat :
    (clock : Instant) (id : Uuid) (heartbeat_at lease_expires_at : Instant) → LeaseAction (Unit {0})
unfolding update_where any
update_heartbeat clock id heartbeat_at lease_expires_at s =
    if any (λ row. is_target id row && breaks_check heartbeat_at lease_expires_at row) s
    then (err lease_conflict, s)
    else (ok tt, update_where (is_target id) (beat clock heartbeat_at lease_expires_at) s)

abbrev execute : (List WorkerLeaseRecord → List WorkerLeaseRecord) → LeaseAction (Unit {0})
execute change s = (ok tt, change s)

unfoldable pub refresh_worker_lease :
    (clock : Instant) (id : Uuid) (heartbeat_at lease_expires_at : Instant)
    → LeaseAction WorkerLeaseRecord
unfolding update_heartbeat get_worker_lease
refresh_worker_lease clock id heartbeat_at lease_expires_at = do
  lift (bail_if (ltb lease_expires_at heartbeat_at) expiry_before_heartbeat)
  update_heartbeat clock id heartbeat_at lease_expires_at
  get_worker_lease id

unfoldable pub refresh_worker_lease_progress :
    (clock : Instant) (id : Uuid) (heartbeat_at : Instant) → LeaseAction WorkerLeaseRecord
unfolding refresh_worker_lease get_worker_lease
refresh_worker_lease_progress clock id heartbeat_at = do
  lease ← get_worker_lease id
  lift (bail_if (not (row_is_active lease)) lease_not_active)
  lift (bail_if (leb lease.lease_expires_at lease.lease_acquired_at) duration_not_positive)
  refresh_worker_lease clock id heartbeat_at
      (heartbeat_at + (lease.lease_expires_at - lease.lease_acquired_at))

unfoldable pub release_worker_lease :
    (clock : Instant) (id : Uuid) (released_at : Instant) → LeaseAction WorkerLeaseRecord
unfolding update_where get_worker_lease
release_worker_lease clock id released_at = do
  execute (update_where (is_target id) (closed clock released released_at))
  get_worker_lease id

abbrev pub is_due : Instant → WorkerLeaseRecord → Bool
is_due now lease = row_is_active lease && leb lease.lease_expires_at now

-- The rows of RETURNING: those that were changed, as they are after.
abbrev pub changed_by :
    (WorkerLeaseRecord → Bool)
    → (WorkerLeaseRecord → WorkerLeaseRecord)
    → List WorkerLeaseRecord
    → List WorkerLeaseRecord
changed_by test change [] = []
changed_by test change (lease ∷ s) =
    let rest = changed_by test change s in if test lease then change lease ∷ rest else rest

unfoldable pub expire_due_worker_leases :
    (clock now : Instant) → LeaseAction (List WorkerLeaseRecord)
unfolding update_where
expire_due_worker_leases clock now s = (
  ok (changed_by (is_due now) (closed clock expired now) s),
  update_where (is_due now) (closed clock expired now) s,
)

-- An id that no row has, and a row that is not active, are both refused.
unfoldable pub terminate_active_worker_lease :
    (clock : Instant) (id : Uuid) (terminated_at : Instant) → LeaseAction WorkerLeaseRecord
unfolding update_where get_worker_lease any
terminate_active_worker_lease clock id terminated_at s =
    if any (is_target id) s
    then get_worker_lease id (update_where (is_target id) (closed clock terminated terminated_at) s)
    else (get_worker_lease id >>= λ lease. lift (err lease_not_active)) s

pub data WorkerLeaseSupervisionDecision : Type 0 where
  healthy soft_warning hard_expired : WorkerLeaseSupervisionDecision

-- `Duration::num_milliseconds` of the time from `start` to `end`, or 0 where that is negative.
abbrev pub milliseconds : (start end : Instant) → ℕ
milliseconds start end = (end - start) / 1000000

unfoldable pub classify_worker_lease_supervision :
    WorkerLeaseRecord
    → (now : Instant) (soft_warning_threshold_percent : ℕ)
    → Result LeaseError WorkerLeaseSupervisionDecision
classify_worker_lease_supervision lease now percent =
    let total_ms = milliseconds lease.lease_acquired_at lease.lease_expires_at in
    let elapsed_ms = milliseconds lease.lease_acquired_at now in
    if not (leb 1 percent && leb percent 100)
    then err threshold_out_of_range
    else if not (row_is_active lease)
    then ok healthy
    else if leb lease.lease_expires_at now
    then ok hard_expired
    else if total_ms == 0
    then ok hard_expired
    else if leb (total_ms * percent / 100) elapsed_ms
    then ok soft_warning
    else ok healthy

unfoldable pub recovery_checkpoint_kind_for_worker_lease : WorkerLeaseKind → RecoveryCheckpointKind
recovery_checkpoint_kind_for_worker_lease foreground = RecoveryCheckpointKind.foreground
recovery_checkpoint_kind_for_worker_lease background = RecoveryCheckpointKind.background
recovery_checkpoint_kind_for_worker_lease governed_action = RecoveryCheckpointKind.governed_action

unfoldable pub recovery_action_classification_for_lease :
    WorkerLeaseRecord → RecoveryActionClassification
recovery_action_classification_for_lease lease = elim lease.worker_kind [
  | foreground ↦ safe_replay
  | background ↦ safe_replay
  | governed_action ↦ ambiguous_or_nonrepeatable
]
