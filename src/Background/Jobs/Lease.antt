-- ===== src/Background/Jobs/Lease.antt =====
-- Which job `lease_due_job` leases.
use blue_lagoon.Base.{
  ℕ, ◌≡◌, ◌≢◌, ◌≤◌, ◌<◌, ◌⊎◌, refl, inl, inr, Bool, true, false, Option, none, some, [], ◌∷◌, map,
  All, any, if◌then◌else◌, Bool-cases, arith,
}
use blue_lagoon.Contracts.Action.{Uuid, Instant}
use blue_lagoon.Background.{BackgroundJobRecord, planned, leased, Jobs}
use blue_lagoon.Background.Jobs.{
  is_due, comes_before, earlier_of, next_due_job, lease_row, lease_found, lease_due_job,
}

-- The row is a row of the table.
abbrev pub IsIn : BackgroundJobRecord → Jobs → Type 0
IsIn job [] = ⊥
IsIn job (row ∷ rows) = (row ≡ job) ⊎ IsIn job rows

-- The next job is a row that is due, and no due job of the table is available before it.
abbrev pub IsNext : (due_before_or_at : Instant) → Jobs → Option BackgroundJobRecord → Type 0
IsNext due_before_or_at rows none = any (is_due due_before_or_at) rows ≡ false
IsNext due_before_or_at rows (some job) =
    (is_due due_before_or_at job ≡ true)
    × IsIn job rows
    × All (λ row. is_due due_before_or_at row ≡ true → job.available_at ≤ row.available_at) rows

module _ (due_before_or_at : Instant) where
  abbrev NotBefore : ℕ → Jobs → Type 0
  NotBefore bound rows =
      All (λ row. is_due due_before_or_at row ≡ true → bound ≤ row.available_at) rows

  NotBefore-lower :
      (bound lower : ℕ) (rows : Jobs) → lower ≤ bound → NotBefore bound rows → NotBefore lower rows
  NotBefore-lower bound lower [] le a = tt
  NotBefore-lower bound lower (row ∷ rows) le a = (
    λ due. (let there = a.0 due in omega (arith, le, there)),
    NotBefore-lower bound lower rows le a.1,
  )

  none_due :
      (bound : ℕ) (rows : Jobs) → any (is_due due_before_or_at) rows ≡ false → NotBefore bound rows
  unfolding any
  none_due bound [] h = tt
  none_due bound (row ∷ rows) h =
      (λ due. ground (arith, h, due), none_due bound rows (ground (arith, h)))

  either-IsNext :
      (row other : BackgroundJobRecord) (rows : Jobs) (first : Bool)
      → comes_before row other ≡ first
      → is_due due_before_or_at row ≡ true
      → IsNext due_before_or_at rows (some other)
      → IsNext due_before_or_at (row ∷ rows) (some (if first then row else other))
  either-IsNext row other rows true e due next =
      let le : row.available_at ≤ other.available_at = ground (arith, e) in
      (
        due,
        inl refl,
        (λ h. omega arith, NotBefore-lower other.available_at row.available_at rows le next.2),
      )
  either-IsNext row other rows false e due next =
      let le : other.available_at ≤ row.available_at = ground (arith, e) in
      (next.0, inr next.1, (λ h. le, next.2))

  earlier-IsNext :
      (row : BackgroundJobRecord) (rows : Jobs) (rest : Option BackgroundJobRecord)
      → is_due due_before_or_at row ≡ true
      → IsNext due_before_or_at rows rest
      → IsNext due_before_or_at (row ∷ rows) (some (earlier_of row rest))
  earlier-IsNext row rows none due next =
      (due, inl refl, (λ h. omega arith, none_due row.available_at rows next))
  earlier-IsNext row rows (some other) due next =
      either-IsNext row other rows (comes_before row other) refl due next

  not_due-IsNext :
      (row : BackgroundJobRecord) (rows : Jobs) (rest : Option BackgroundJobRecord)
      → is_due due_before_or_at row ≡ false
      → IsNext due_before_or_at rows rest
      → IsNext due_before_or_at (row ∷ rows) rest
  unfolding any
  not_due-IsNext row rows none e next = rw e next
  not_due-IsNext row rows (some job) e next = (next.0, inr next.1, (λ h. cc, next.2))

  next_due_job-IsNext :
      (rows : Jobs) → IsNext due_before_or_at rows (next_due_job due_before_or_at rows)
  unfolding next_due_job any
  next_due_job-IsNext [] = refl
  next_due_job-IsNext (row ∷ rows) = elim (Bool-cases (is_due due_before_or_at row)) [
    | inl e ↦
        rw e (
          earlier-IsNext row rows (next_due_job due_before_or_at rows) e (next_due_job-IsNext rows))
    | inr e ↦
        rw e (
          not_due-IsNext row rows (next_due_job due_before_or_at rows) e (next_due_job-IsNext rows))
  ]

-- A row as it is after the lease of the job with the id.
abbrev pub After : Uuid → (lease_expires_at : Instant) → Jobs → Jobs → Type 0
After id lease_expires_at [] [] = Unit {0}
After id lease_expires_at [] (new ∷ after) = ⊥
After id lease_expires_at (old ∷ before) [] = ⊥
After id lease_expires_at (old ∷ before) (new ∷ after) =
    ((old.background_job_id ≡ id)
      → (new.background_job_id ≡ id)
        × (new.status ≡ leased)
        × (new.lease_expires_at ≡ some lease_expires_at))
    × (old.background_job_id ≢ id → new ≡ old)
    × After id lease_expires_at before after

lease_row-After :
    (id : Uuid) (now lease_expires_at : Instant) (rows : Jobs)
    → After id lease_expires_at rows (map (lease_row id now lease_expires_at) rows)
lease_row-After id now lease_expires_at [] = tt
lease_row-After id now lease_expires_at (row ∷ rows) =
    (λ h. ground (arith, h), λ h. ground (arith, h), lease_row-After id now lease_expires_at rows)

-- The job that a lease gives out was a planned row of the table.
abbrev pub IsFirst : (due_before_or_at : Instant) → BackgroundJobRecord → Jobs → Type 0
IsFirst due_before_or_at row rows =
    (row.status ≡ planned)
    × (row.available_at ≤ due_before_or_at)
    × IsIn row rows
    × All
        (λ other.
          other.status ≡ planned
          → other.available_at ≤ due_before_or_at
          → row.available_at ≤ other.available_at)
        rows

-- What the answer of a lease says of the table before and after it.
abbrev pub Leased :
    (due_before_or_at lease_expires_at : Instant)
    → Jobs
    → Option BackgroundJobRecord
    → Jobs
    → Type 0
Leased due_before_or_at lease_expires_at before none after =
    All (λ row. row.status ≡ planned → due_before_or_at < row.available_at) before
    × (after ≡ before)
Leased due_before_or_at lease_expires_at before (some job) after =
    (row : BackgroundJobRecord) × IsFirst due_before_or_at row before
    × (job ≡ record row { status = leased; lease_expires_at = some lease_expires_at })
    × After row.background_job_id lease_expires_at before after

not_due-later :
    (due_before_or_at : Instant) (rows : Jobs)
    → any (is_due due_before_or_at) rows ≡ false
    → All (λ row. row.status ≡ planned → due_before_or_at < row.available_at) rows
unfolding any
not_due-later due_before_or_at [] h = tt
not_due-later due_before_or_at (row ∷ rows) h =
    (λ p. ground (arith, h, p), not_due-later due_before_or_at rows (ground (arith, h)))

due-earliest :
    (due_before_or_at : Instant) (bound : ℕ) (rows : Jobs)
    → All (λ row. is_due due_before_or_at row ≡ true → bound ≤ row.available_at) rows
    → All
        (λ row.
          row.status ≡ planned → row.available_at ≤ due_before_or_at → bound ≤ row.available_at)
        rows
due-earliest due_before_or_at bound [] a = tt
due-earliest due_before_or_at bound (row ∷ rows) a = (
  λ p le. (let known = a.0 in ground (arith, known, p, le)),
  due-earliest due_before_or_at bound rows a.1,
)

found-Leased :
    (now due_before_or_at lease_expires_at : Instant) (found : Option BackgroundJobRecord)
    (rows : Jobs)
    → IsNext due_before_or_at rows found
    → Leased due_before_or_at lease_expires_at rows
        (lease_found now lease_expires_at found rows).0
        (lease_found now lease_expires_at found rows).1
found-Leased now due_before_or_at lease_expires_at none rows next =
    (not_due-later due_before_or_at rows next, refl)
found-Leased now due_before_or_at lease_expires_at (some job) rows next =
    let due = next.0 in
    (
      job,
      (
        ground (arith, due),
        ground (arith, due),
        next.1,
        due-earliest due_before_or_at job.available_at rows next.2,
      ),
      refl,
      lease_row-After job.background_job_id now lease_expires_at rows,
    )

-- A lease gives out a row of the table that was planned and had become available, and no such row
-- became available before it. In the table its row is then leased until the given time, and every
-- row with another id is as it was. No job is given out only if no planned row has become
-- available, and then the table stays as it was.
pub lease_due_job-Leased :
    (now due_before_or_at lease_expires_at : Instant) (rows : Jobs)
    → Leased due_before_or_at lease_expires_at rows
        (lease_due_job now due_before_or_at lease_expires_at rows).0
        (lease_due_job now due_before_or_at lease_expires_at rows).1
unfolding lease_due_job
lease_due_job-Leased now due_before_or_at lease_expires_at rows =
    found-Leased now due_before_or_at lease_expires_at (next_due_job due_before_or_at rows) rows
      (next_due_job-IsNext due_before_or_at rows)
