-- ===== src/Recovery/Lease/Refresh.antt =====
-- What `refresh_worker_lease_progress` does to the window of a lease.
use blue_lagoon.Base.{
  ℕ, ◌+◌, ◌-◌, ◌≤◌, ◌<◌, ◌≡◌, ◌∙◌, ap, refl, true, false, ◌&&◌, List, [], ◌∷◌, any, find, some,
  if◌then◌else◌, ok, arith,
}
use blue_lagoon.Contracts.Action.{Uuid, Instant}
use blue_lagoon.Recovery.Lease.{
  WorkerLeaseRecord, row_is_active, has_id, is_target, beat, breaks_check, update_where,
  get_worker_lease, update_heartbeat, refresh_worker_lease, refresh_worker_lease_progress,
}

-- The one row with the id is this one.
abbrev pub IsOnly : Uuid → WorkerLeaseRecord → List WorkerLeaseRecord → Type 0
IsOnly id lease [] = ⊥
IsOnly id lease (l ∷ s) =
    if has_id id l then (l ≡ lease) × (any (has_id id) s ≡ false) else IsOnly id lease s

find-IsOnly :
    (id : Uuid) (lease : WorkerLeaseRecord) (s : List WorkerLeaseRecord)
    → IsOnly id lease s
    → find (has_id id) s ≡ some lease
unfolding find
find-IsOnly id lease [] o = absurd o
find-IsOnly id lease (l ∷ s) o = let more = find-IsOnly id lease s in ground (arith, more)

none_left :
    (id : Uuid) (h e : Instant) (s : List WorkerLeaseRecord)
    → any (has_id id) s ≡ false
    → any (λ row. is_target id row && breaks_check h e row) s ≡ false
unfolding any
none_left id h e [] n = refl
none_left id h e (l ∷ s) n = let more = none_left id h e s in ground (arith, more)

none_updated :
    (clock : Instant) (id : Uuid) (h e : Instant) (s : List WorkerLeaseRecord)
    → any (has_id id) s ≡ false
    → any (has_id id) (update_where (is_target id) (beat clock h e) s) ≡ false
unfolding any update_where
none_updated clock id h e [] n = refl
none_updated clock id h e (l ∷ s) n = let more = none_updated clock id h e s in ground (arith, more)

unbroken-IsOnly :
    (id : Uuid) (h e : Instant) (lease : WorkerLeaseRecord) (s : List WorkerLeaseRecord)
    → IsOnly id lease s
    → breaks_check h e lease ≡ false
    → any (λ row. is_target id row && breaks_check h e row) s ≡ false
unfolding any
unbroken-IsOnly id h e lease [] o b = absurd o
unbroken-IsOnly id h e lease (l ∷ s) o b =
    let more = unbroken-IsOnly id h e lease s in
    let rest = none_left id h e s in ground (arith, more, rest)

beat-IsOnly :
    (clock : Instant) (id : Uuid) (h e : Instant) (lease : WorkerLeaseRecord)
    (s : List WorkerLeaseRecord)
    → IsOnly id lease s
    → row_is_active lease ≡ true
    → IsOnly id (beat clock h e lease) (update_where (is_target id) (beat clock h e) s)
unfolding update_where
beat-IsOnly clock id h e lease [] o live = absurd o
beat-IsOnly clock id h e lease (l ∷ s) o live =
    let more = beat-IsOnly clock id h e lease s in
    let rest = none_updated clock id h e s in ground (arith, more, rest)

-- The window of a lease, from its acquisition.
abbrev pub window : WorkerLeaseRecord → ℕ
window lease = lease.lease_expires_at - lease.lease_acquired_at

-- The refresh of the one lease with its id, if it is active, its window is not empty and the
-- heartbeat is no earlier than its acquisition, succeeds: the lease then expires one whole window
-- after the heartbeat, and is still the one row with its id.
pub refresh_worker_lease_progress_lem :
    (clock : Instant) (id : Uuid) (heartbeat_at : Instant) (lease : WorkerLeaseRecord)
    (s : List WorkerLeaseRecord)
    → IsOnly id lease s
    → row_is_active lease ≡ true
    → lease.lease_acquired_at < lease.lease_expires_at
    → lease.lease_acquired_at ≤ heartbeat_at
    → ((refresh_worker_lease_progress clock id heartbeat_at s).0
        ≡ ok (beat clock heartbeat_at (heartbeat_at + window lease) lease))
      × IsOnly id
          (beat clock heartbeat_at (heartbeat_at + window lease) lease)
          (refresh_worker_lease_progress clock id heartbeat_at s).1
unfolding refresh_worker_lease_progress refresh_worker_lease update_heartbeat get_worker_lease
refresh_worker_lease_progress_lem clock id heartbeat_at lease s o live h k =
    let expires = heartbeat_at + window lease in
    let found = find-IsOnly id lease s o in
    let fine = unbroken-IsOnly id heartbeat_at expires lease s o (ground arith) in
    let only = beat-IsOnly clock id heartbeat_at expires lease s o live in
    let again = find-IsOnly id (beat clock heartbeat_at expires lease) _ only in
    ground (arith, found, fine, only, again)

-- Of two refreshes at `first` and then `second` of the one lease with its id, if it is active, its
-- window is not empty and `first` is no earlier than its acquisition, the second succeeds and makes
-- the lease expire one window after `second`, and later still by the time from the acquisition to
-- `first`.
pub refresh_worker_lease_progress_twice :
    (clock : Instant) (id : Uuid) (first second : Instant) (lease : WorkerLeaseRecord)
    (s : List WorkerLeaseRecord)
    → IsOnly id lease s
    → row_is_active lease ≡ true
    → lease.lease_acquired_at < lease.lease_expires_at
    → lease.lease_acquired_at ≤ first
    → first ≤ second
    → let expires = second + window lease + (first - lease.lease_acquired_at) in
      (refresh_worker_lease_progress clock id second
        (refresh_worker_lease_progress clock id first s).1).0
      ≡ ok (beat clock second expires lease)
refresh_worker_lease_progress_twice clock id first second lease s o live h k l =
    let once = refresh_worker_lease_progress_lem clock id first lease s o live h k in
    let beaten = beat clock first (first + window lease) lease in
    let again =
      refresh_worker_lease_progress_lem clock id second beaten
        (refresh_worker_lease_progress clock id first s).1 once.1 live (omega arith)
        (omega arith) in
    again.0 ∙ ap (λ e. ok (beat clock second e lease)) (omega arith)
