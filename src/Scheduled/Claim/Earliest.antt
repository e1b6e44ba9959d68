-- ===== src/Scheduled/Claim/Earliest.antt =====
-- Which task a claim takes.
use blue_lagoon.Base.{
  ◌≤◌, ◌≡◌, ◌⊎◌, refl, true, false, Option, none, some, [], ◌∷◌, All, any, Bool-cases, inl, inr,
  arith,
}
use blue_lagoon.Contracts.Action.{Instant}
use blue_lagoon.Scheduled.{Tasks, ScheduledForegroundTaskRecord}
use blue_lagoon.Scheduled.Claim.{
  is_claimable, comes_before, earlier_of, select_next_due_task_locked,
}

abbrev pub IsIn : ScheduledForegroundTaskRecord → Tasks → Type 0
IsIn task [] = ⊥
IsIn task (row ∷ rows) = (row ≡ task) ⊎ IsIn task rows

-- The selected task is a claimable row of the table, and no claimable task is due before it; if none is selected, none
-- is claimable.
abbrev pub Selected : (claimed_at : Instant) → Tasks → Option ScheduledForegroundTaskRecord → Type 0
Selected claimed_at rows none = any (is_claimable claimed_at) rows ≡ false
Selected claimed_at rows (some task) =
    (is_claimable claimed_at task ≡ true)
    × IsIn task rows
    × All (λ row. is_claimable claimed_at row ≡ true → task.next_due_at ≤ row.next_due_at) rows

none_claimable :
    (claimed_at due : Instant) (rows : Tasks)
    → any (is_claimable claimed_at) rows ≡ false
    → All (λ row. is_claimable claimed_at row ≡ true → due ≤ row.next_due_at) rows
unfolding any
none_claimable claimed_at due [] h = tt
none_claimable claimed_at due (row ∷ rows) h =
    (λ k. ground (arith, h, k), none_claimable claimed_at due rows (ground (arith, h)))

due_later :
    (claimed_at early late : Instant) (rows : Tasks)
    → early ≤ late
    → All (λ row. is_claimable claimed_at row ≡ true → late ≤ row.next_due_at) rows
    → All (λ row. is_claimable claimed_at row ≡ true → early ≤ row.next_due_at) rows
due_later claimed_at early late [] h a = tt
due_later claimed_at early late (row ∷ rows) h a =
    (λ k. (let later = a.0 k in omega arith), due_later claimed_at early late rows h a.1)

earlier_of-Selected :
    (claimed_at : Instant) (row : ScheduledForegroundTaskRecord) (rows : Tasks)
    (rest : Option ScheduledForegroundTaskRecord)
    → is_claimable claimed_at row ≡ true
    → Selected claimed_at rows rest
    → Selected claimed_at (row ∷ rows) (earlier_of row rest)
earlier_of-Selected claimed_at row rows none h k =
    (h, inl refl, ((λ x. omega arith), none_claimable claimed_at row.next_due_at rows k))
earlier_of-Selected claimed_at row rows (some other) h k =
    elim (Bool-cases (comes_before other row)) [
      | inl e ↦ rw (e, Selected) (k.0, inr k.1, ((λ x. ground (arith, e)), k.2))
      | inr e ↦
          rw (e, Selected)
            (
              h,
              inl refl,
              (
                (λ x. omega arith),
                due_later claimed_at row.next_due_at other.next_due_at rows (ground (arith, e)) k.2,
              ),
            )
    ]

skipped-Selected :
    (claimed_at : Instant) (row : ScheduledForegroundTaskRecord) (rows : Tasks)
    (rest : Option ScheduledForegroundTaskRecord)
    → is_claimable claimed_at row ≡ false
    → Selected claimed_at rows rest
    → Selected claimed_at (row ∷ rows) rest
unfolding any
skipped-Selected claimed_at row rows none h k = ground (arith, h, k)
skipped-Selected claimed_at row rows (some other) h k = (k.0, inr k.1, ((λ x. cc), k.2))

-- The selection takes an active task that is due and not running, and no such task is due before
-- it; it takes none only if there is none.
pub select_next_due_task_locked-Selected :
    (claimed_at : Instant) (rows : Tasks)
    → Selected claimed_at rows (select_next_due_task_locked claimed_at rows)
unfolding select_next_due_task_locked any
select_next_due_task_locked-Selected claimed_at [] = refl
select_next_due_task_locked-Selected claimed_at (row ∷ rows) =
    let rest = select_next_due_task_locked-Selected claimed_at rows in
    elim (Bool-cases (is_claimable claimed_at row)) [
      | inl h ↦
          rw (h, Selected)
            (earlier_of-Selected claimed_at row rows (select_next_due_task_locked claimed_at rows) h
              rest)
      | inr h ↦
          rw (h, Selected)
            (skipped-Selected claimed_at row rows (select_next_due_task_locked claimed_at rows) h
              rest)
    ]
