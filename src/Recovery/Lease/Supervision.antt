-- ===== src/Recovery/Lease/Supervision.antt =====
-- What `classify_worker_lease_supervision` answers, and how the answer moves with time.
use blue_lagoon.Base.{ℕ, ◌+◌, ◌*◌, ◌≤◌, ◌<◌, ◌≡◌, ◌↔◌, ◌⊎◌, true, ok, arith}
use blue_lagoon.Contracts.Action.{Instant}
use blue_lagoon.Recovery.Lease.{
  WorkerLeaseRecord, healthy, soft_warning, hard_expired, row_is_active, milliseconds,
  classify_worker_lease_supervision,
}

-- The lease has run out, or its window is shorter than a millisecond.
abbrev pub HasExpired : WorkerLeaseRecord → Instant → Type 0
HasExpired lease now =
    (lease.lease_expires_at ≤ now) ⊎ (lease.lease_expires_at < lease.lease_acquired_at + 1000000)

-- That percentage of the window is over, in whole milliseconds.
abbrev pub HasPassed : WorkerLeaseRecord → Instant → (percent : ℕ) → Type 0
HasPassed lease now percent =
    milliseconds lease.lease_acquired_at lease.lease_expires_at * percent
    < 100 * (milliseconds lease.lease_acquired_at now + 1)

module _ (lease : WorkerLeaseRecord) (now : Instant) (percent : ℕ) (from : 1 ≤ percent)
    (to : percent ≤ 100) (live : row_is_active lease ≡ true) where
  -- An active lease with a threshold of 1 to 100 percent is hard expired exactly if it has run out
  -- or its window is below a millisecond, is warned of exactly if it is not and the percentage of
  -- its window has passed, and is healthy exactly if neither holds.
  pub classify_worker_lease_supervision_lem :
      ((classify_worker_lease_supervision lease now percent ≡ ok hard_expired)
        ↔ HasExpired lease now)
      × ((classify_worker_lease_supervision lease now percent ≡ ok soft_warning)
          ↔ ((HasExpired lease now → ⊥) × HasPassed lease now percent))
      × ((classify_worker_lease_supervision lease now percent ≡ ok healthy)
          ↔ ((HasExpired lease now → ⊥) × (HasPassed lease now percent → ⊥)))
  unfolding classify_worker_lease_supervision
  classify_worker_lease_supervision_lem = (
    (λ h. ground arith, λ h. ground arith),
    (λ h. (ground arith, ground arith), λ h. ground arith),
    (λ h. (ground arith, ground arith), λ h. ground arith),
  )
