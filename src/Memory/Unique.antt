-- ===== src/Memory/Unique.antt =====
-- Active artifacts of the same content, and what a merge does about them.
use blue_lagoon.Base.{
  ℕ, zero, suc, ◌≤◌, ◌≡◌, refl, sym, ◌∙◌, inl, inr, Bool, true, false, ◌&&◌, List, [], ◌∷◌, map,
  Text, any, count_if, text_eq, Bool-cases, Result-cases, arith, subst, Option, none, some, ok,
  >>=-eq-ok,
}
use blue_lagoon.Contracts.Action.{Uuid, Instant}
use blue_lagoon.Contracts.Proposal.{CanonicalProposal, CanonicalProposalPayload}
use blue_lagoon.Proposal.{validate_proposal}
use blue_lagoon.Memory.{
  ProposalProcessingContext, MemoryArtifactRecord, MemoryStore, MemoryMergePlan, insert_new,
  supersede, reject, is_active, is_active_of, select_first, list_active_memory_artifacts_by_subject,
  same_content, plan_payload, plan_memory_merge,
}
use blue_lagoon.Memory.Merge.{
  payload_texts, new_artifact, marked, insert_memory_artifact, mark_memory_artifact_superseded,
  merge_rows, commit, carry_out, apply_memory_proposal_merge,
}

-- Two active artifacts of the same kind, subject and content.
abbrev pub twins : MemoryArtifactRecord → MemoryArtifactRecord → Bool
twins row other =
    is_active row.status
    && is_active other.status
    && text_eq other.artifact_kind row.artifact_kind
    && text_eq other.subject_ref row.subject_ref
    && text_eq other.content_text row.content_text

abbrev pub NoTwins : List MemoryArtifactRecord → Type 0
NoTwins [] = Unit {0}
NoTwins (row ∷ rows) = (any (twins row) rows ≡ false) × NoTwins rows

abbrev pub active_count : (subject_ref : Text) → List MemoryArtifactRecord → ℕ
active_count subject_ref rows = count_if (is_active_of subject_ref) rows

select_first_none :
    (p : MemoryArtifactRecord → Bool) (rows : List MemoryArtifactRecord)
    → select_first p 0 rows ≡ []
unfolding select_first
select_first_none p [] = refl
select_first_none p (row ∷ rows) = refl

-- A scan that may read as many rows as there are reads them all.
any-select_first :
    (p q : MemoryArtifactRecord → Bool) (n : ℕ) (rows : List MemoryArtifactRecord)
    → count_if p rows ≤ n
    → any q (select_first p n rows) ≡ any (λ row. p row && q row) rows
unfolding select_first count_if any
any-select_first p q n [] h = refl
any-select_first p q zero (row ∷ rows) h =
    let rest = any-select_first p q zero rows in
    let nothing = select_first_none p rows in ground (arith, rest, nothing)
any-select_first p q (suc n) (row ∷ rows) h =
    let more = any-select_first p q n rows in
    let later = any-select_first p q (suc n) rows in ground (arith, more, later)

marked-twins :
    (target by : Uuid) (now : Instant) (row : MemoryArtifactRecord)
    (rows : List MemoryArtifactRecord)
    → any (twins row) rows ≡ false
    → any (twins (marked target by now row)) (map (marked target by now) rows) ≡ false
unfolding any
marked-twins target by now row [] h = refl
marked-twins target by now row (other ∷ rows) h =
    let rest = marked-twins target by now row rows in ground (arith, rest)

marked-NoTwins :
    (target by : Uuid) (now : Instant) (rows : List MemoryArtifactRecord)
    → NoTwins rows
    → NoTwins (map (marked target by now) rows)
marked-NoTwins target by now [] h = tt
marked-NoTwins target by now (row ∷ rows) h =
    (marked-twins target by now row rows h.0, marked-NoTwins target by now rows h.1)

inserted_rows :
    (references : Bool) (row : MemoryArtifactRecord) (rows after : List MemoryArtifactRecord)
    → insert_memory_artifact references row rows ≡ ok after
    → after ≡ row ∷ rows
unfolding insert_memory_artifact
inserted_rows references row rows after h = ground (arith, h)

marked_rows :
    (target by : Uuid) (now : Instant) (rows after : List MemoryArtifactRecord)
    → mark_memory_artifact_superseded target by now rows ≡ ok after
    → after ≡ map (marked target by now) rows
unfolding mark_memory_artifact_superseded
marked_rows target by now rows after h = ground (arith, h)

abbrev pub rejects : MemoryMergePlan → Bool
rejects (reject reason) = true
rejects _ = false

module _ (references : Bool) (context : ProposalProcessingContext) (id : Uuid) (now : Instant)
    (proposal : CanonicalProposal) where
  -- The content that the plan compares with that of the active artifacts.
  abbrev repeats : MemoryArtifactRecord → Bool
  repeats row =
      is_active_of proposal.subject_ref row
      && (text_eq row.artifact_kind (payload_texts proposal.payload).0
          && text_eq row.subject_ref proposal.subject_ref
          && text_eq row.content_text (payload_texts proposal.payload).1)

  repeats-twins :
      (rows : List MemoryArtifactRecord)
      → any repeats rows ≡ false
      → any (twins (new_artifact context id proposal)) rows ≡ false
  unfolding any
  repeats-twins [] h = refl
  repeats-twins (row ∷ rows) h = let rest = repeats-twins rows in ground (arith, rest)

  -- What the plan has read has no artifact with the content of the proposal, unless it rejects.
  plan_finds_no_repeat :
      (payload : CanonicalProposalPayload) (rows : List MemoryArtifactRecord)
      → rejects (plan_payload payload proposal rows) ≡ false
      → any
          (λ row.
            text_eq row.artifact_kind (payload_texts payload).0
            && text_eq row.subject_ref proposal.subject_ref
            && text_eq row.content_text (payload_texts payload).1)
          rows
        ≡ false
  unfolding plan_payload
  plan_finds_no_repeat (CanonicalProposalPayload.memory_artifact payload) rows h =
      elim (Bool-cases (any (same_content proposal.subject_ref payload) rows)) [
        | inl e ↦ ground (arith, e, h)
        | inr e ↦ e
      ]
  plan_finds_no_repeat (CanonicalProposalPayload.self_model_observation payload) rows h = cc
  plan_finds_no_repeat (CanonicalProposalPayload.identity_delta payload) rows h = cc

  merge_finds_no_repeat :
      (rows : List MemoryArtifactRecord)
      → active_count proposal.subject_ref rows ≤ 32
      → rejects (
          plan_memory_merge proposal
            (list_active_memory_artifacts_by_subject proposal.subject_ref 32 rows))
        ≡ false
      → any repeats rows ≡ false
  unfolding plan_memory_merge list_active_memory_artifacts_by_subject
  merge_finds_no_repeat rows few h =
      let listed = select_first (is_active_of proposal.subject_ref) 32 rows in
      let content : MemoryArtifactRecord → Bool = λ row.
        text_eq row.artifact_kind (payload_texts proposal.payload).0
        && text_eq row.subject_ref proposal.subject_ref
        && text_eq row.content_text (payload_texts proposal.payload).1 in
      let all_read = any-select_first (is_active_of proposal.subject_ref) content 32 rows few in
      let kept : rejects (plan_payload proposal.payload proposal listed) ≡ false =
        ground (arith, h) in
      let none_there = plan_finds_no_repeat proposal.payload listed kept in
      sym all_read ∙ none_there

  merge_rows-NoTwins :
      (target : Option Uuid) (rows after : List MemoryArtifactRecord)
      → any repeats rows ≡ false
      → NoTwins rows
      → merge_rows references context id now proposal target rows ≡ ok after
      → NoTwins after
  unfolding merge_rows
  merge_rows-NoTwins none rows after fresh n h =
      let new = inserted_rows references (new_artifact context id proposal) rows after h in
      subst NoTwins (sym new) (repeats-twins rows fresh, n)
  merge_rows-NoTwins (some target) rows after fresh n h =
      let new = new_artifact context id proposal in
      let (inserted, i, m) =
        >>=-eq-ok (insert_memory_artifact references new rows)
          (mark_memory_artifact_superseded target id now) h in
      let added = inserted_rows references new rows inserted i in
      subst NoTwins (sym (marked_rows target id now inserted after m)) (
        marked-NoTwins target id now inserted
          (subst NoTwins (sym added) (repeats-twins rows fresh, n)))

  commit-NoTwins :
      (target : Option Uuid) (s : MemoryStore)
      → any repeats s.artifacts ≡ false
      → NoTwins s.artifacts
      → NoTwins
          (commit context id proposal s
            (merge_rows references context id now proposal target s.artifacts)).1.artifacts
  commit-NoTwins target s fresh n =
      elim (Result-cases (merge_rows references context id now proposal target s.artifacts)) [
        | inl (after, h) ↦ rw (h, NoTwins) (merge_rows-NoTwins target s.artifacts after fresh n h)
        | inr (e, h) ↦ rw (h, NoTwins) n
      ]

  carry_out-NoTwins :
      (plan : MemoryMergePlan) (s : MemoryStore)
      → (rejects plan ≡ false → any repeats s.artifacts ≡ false)
      → NoTwins s.artifacts
      → NoTwins (carry_out references context id now proposal plan s).1.artifacts
  unfolding carry_out
  carry_out-NoTwins (reject reason) s h n = n
  carry_out-NoTwins insert_new s h n = commit-NoTwins none s (h refl) n
  carry_out-NoTwins (supersede target) s h n = commit-NoTwins (some target) s (h refl) n

  -- Merging a proposal, whatever its outcome and whether or not a constraint stops it, leaves no
  -- two active artifacts of the same kind, subject and content if there were none. It needs that
  -- the active artifacts of the subject are still those that the program has listed when the
  -- transaction runs, and that they are at most 32, which is what one scan reads.
  pub merge-NoTwins :
      (scanned : List MemoryArtifactRecord) (s : MemoryStore)
      → list_active_memory_artifacts_by_subject proposal.subject_ref 32 scanned
        ≡ list_active_memory_artifacts_by_subject proposal.subject_ref 32 s.artifacts
      → active_count proposal.subject_ref s.artifacts ≤ 32
      → NoTwins s.artifacts
      → NoTwins
          (apply_memory_proposal_merge references context id now proposal scanned s).1.artifacts
  unfolding apply_memory_proposal_merge
  merge-NoTwins scanned s current few n = elim (Result-cases (validate_proposal proposal)) [
    | inr (e, h) ↦ rw (h, NoTwins) n
    | inl (u, h) ↦
        rw (h, current, NoTwins)
          (carry_out-NoTwins
            (plan_memory_merge proposal
              (list_active_memory_artifacts_by_subject proposal.subject_ref 32 s.artifacts))
            s (merge_finds_no_repeat s.artifacts few) n)
  ]
