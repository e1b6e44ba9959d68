-- ===== src/Memory/Merge.antt =====
-- The statements and the transaction of `apply_memory_proposal_merge` of
-- crates/harness/src/memory.rs. The program reads the active artifacts on the pool, before the
-- transaction that inserts: what it has read is an argument, which other writers may have made
-- stale. The constraints of the table are tests of the statements, and an error rolls the
-- transaction back; whether the rows of other tables that an artifact refers to exist is an argument
-- too. The decisions have no constraint that these updates could break.
use blue_lagoon.Base.{
  Bool, true, false, not, ◌&&◌, Option, none, some, List, [], ◌∷◌, map, Text, ◌==◌, if◌then◌else◌,
  any, Result, ok, err, bail_if, ltb, ◌>>◌, ◌>>=◌,
}
use blue_lagoon.Contracts.Action.{Uuid, Instant}
use blue_lagoon.Contracts.Proposal.{
  CanonicalProposal, CanonicalProposalPayload, ProposalEvaluationOutcome, accepted, rejected,
}
use blue_lagoon.Proposal.{validate_proposal}
use blue_lagoon.Memory.{
  MemoryArtifactRecord, MemoryStore, MergeDecision, MergeReason, invalid, merged, active,
  superseded, ProposalProcessingContext, MemoryMergePlan, insert_new, supersede, reject,
  plan_memory_merge, list_active_memory_artifacts_by_subject, active_memory_scan_limit,
}

-- A constraint of the table that stops a statement.
pub data MergeError : Type 0 where
  confidence_out_of_range supersedes_itself artifact_id_taken proposal_id_taken : MergeError
  superseded_by_itself no_referenced_row : MergeError

pub record MergeEvaluation : Type 0 where
  pub proposal_id : Uuid
  pub outcome : ProposalEvaluationOutcome
  pub reason : MergeReason
  pub target : Option Uuid

-- The kind and the content of a memory payload; the program panics on any other payload, which a
-- plan that inserts never has.
abbrev pub payload_texts : CanonicalProposalPayload → Text × Text
payload_texts (CanonicalProposalPayload.memory_artifact payload) =
    (payload.artifact_kind, payload.content_text)
payload_texts _ = ([], [])

abbrev pub new_artifact :
    ProposalProcessingContext → (id : Uuid) → CanonicalProposal → MemoryArtifactRecord
new_artifact context id proposal = record {
  memory_artifact_id = id;
  proposal_id = proposal.proposal_id;
  trace_id = context.trace_id;
  execution_id = context.execution_id;
  episode_id = context.episode_id;
  source_ingress_id = context.source_ingress_id;
  artifact_kind = (payload_texts proposal.payload).0;
  subject_ref = proposal.subject_ref;
  content_text = (payload_texts proposal.payload).1;
  confidence_pct = proposal.confidence_pct;
  provenance_kind = proposal.provenance.provenance_kind;
  status = active;
  valid_from = proposal.valid_from;
  valid_to = proposal.valid_to;
  superseded_at = none;
  superseded_by_artifact_id = none;
  supersedes_artifact_id = proposal.supersedes_artifact_id;
}

abbrev pub marked : (target by : Uuid) (now : Instant) → MemoryArtifactRecord → MemoryArtifactRecord
marked target by now row =
    if row.memory_artifact_id == target
    then record row {
      status = superseded;
      superseded_at = some now;
      superseded_by_artifact_id = some by;
    }
    else row

abbrev pub has_artifact_id : Uuid → MemoryArtifactRecord → Bool
has_artifact_id id row = row.memory_artifact_id == id

abbrev pub refers_to : Option Uuid → List MemoryArtifactRecord → Bool
refers_to none rows = true
refers_to (some id) rows = any (has_artifact_id id) rows

abbrev pub is_own_id : (id : Uuid) → Option Uuid → Bool
is_own_id id none = false
is_own_id id (some other) = other == id

-- The CHECKs come first, then the unique indexes and the foreign keys. `references` says whether the rows of the other tables exist that the artifact refers to.
unfoldable pub insert_memory_artifact :
    (references : Bool)
    → MemoryArtifactRecord
    → List MemoryArtifactRecord
    → Result MergeError (List MemoryArtifactRecord)
unfolding any
insert_memory_artifact references artifact rows =
    bail_if (ltb 100 artifact.confidence_pct) confidence_out_of_range
    >> bail_if (is_own_id artifact.memory_artifact_id artifact.supersedes_artifact_id)
        supersedes_itself
    >> bail_if (any (has_artifact_id artifact.memory_artifact_id) rows) artifact_id_taken
    >> bail_if (any (λ row. row.proposal_id == artifact.proposal_id) rows) proposal_id_taken
    >> bail_if (not (references && refers_to artifact.supersedes_artifact_id rows))
        no_referenced_row
    >> ok (artifact ∷ rows)

unfoldable pub mark_memory_artifact_superseded :
    (target by : Uuid) (now : Instant)
    → List MemoryArtifactRecord
    → Result MergeError (List MemoryArtifactRecord)
unfolding any
mark_memory_artifact_superseded target by now rows =
    let found = any (has_artifact_id target) rows in
    bail_if (found && target == by) superseded_by_itself
    >> bail_if (found && not (any (has_artifact_id by) rows)) no_referenced_row
    >> ok (map (marked target by now) rows)

unfoldable pub update_merge_decision_outcome :
    (proposal_id : Uuid)
    → ProposalEvaluationOutcome
    → MergeReason
    → List MergeDecision
    → List MergeDecision
update_merge_decision_outcome proposal_id kind reason = map (λ d.
    if d.proposal_id == proposal_id
    then record d {
      decision_kind = kind;
      decision_reason = reason;
      accepted_memory_artifact_id = none;
    }
    else d)

unfoldable pub update_merge_decision_targets_in_tx :
    (proposal_id : Uuid) (accepted_memory_artifact_id : Option Uuid)
    → List MergeDecision
    → List MergeDecision
update_merge_decision_targets_in_tx proposal_id artifact_id = map (λ d.
    if d.proposal_id == proposal_id
    then record d { accepted_memory_artifact_id = artifact_id }
    else d)

abbrev pub rejection : CanonicalProposal → MergeReason → MergeEvaluation
rejection proposal reason = record {
  proposal_id = proposal.proposal_id;
  outcome = rejected;
  reason = reason;
  target = none;
}

abbrev pub record_rejection : CanonicalProposal → MergeReason → MemoryStore → MemoryStore
record_rejection proposal reason s = record s {
  decisions = update_merge_decision_outcome proposal.proposal_id rejected reason s.decisions;
}

abbrev pub merged_store :
    ProposalProcessingContext
    → (id : Uuid) → CanonicalProposal
    → List MemoryArtifactRecord
    → MemoryStore
    → MemoryStore
merged_store context id proposal rows s = record {
  artifacts = rows;
  decisions = update_merge_decision_targets_in_tx proposal.proposal_id (some id) s.decisions;
}

abbrev pub merge_evaluation : (id : Uuid) → CanonicalProposal → MergeEvaluation
merge_evaluation id proposal = record {
  proposal_id = proposal.proposal_id;
  outcome = accepted;
  reason = merged;
  target = some id;
}

-- The rows after the transaction that a plan needs, or the constraint at which it fails. The UPDATE
-- of the target runs after the INSERT, so it reads the new row too.
unfoldable pub merge_rows :
    (references : Bool)
    → ProposalProcessingContext
    → (id : Uuid) (now : Instant) → CanonicalProposal
    → (target : Option Uuid) → List MemoryArtifactRecord
    → Result MergeError (List MemoryArtifactRecord)
unfolding insert_memory_artifact mark_memory_artifact_superseded
merge_rows references context id now proposal none rows =
    insert_memory_artifact references (new_artifact context id proposal) rows
merge_rows references context id now proposal (some target) rows =
    insert_memory_artifact references (new_artifact context id proposal) rows
    >>= mark_memory_artifact_superseded target id now

-- The commit of the transaction, or its rollback.
abbrev pub commit :
    ProposalProcessingContext
    → (id : Uuid) → CanonicalProposal
    → MemoryStore
    → Result MergeError (List MemoryArtifactRecord)
    → Result MergeError MergeEvaluation × MemoryStore
commit context id proposal s (err e) = (err e, s)
commit context id proposal s (ok rows) =
    (ok (merge_evaluation id proposal), merged_store context id proposal rows s)

unfoldable pub carry_out :
    (references : Bool)
    → ProposalProcessingContext
    → (id : Uuid) (now : Instant) → CanonicalProposal
    → MemoryMergePlan
    → MemoryStore
    → Result MergeError MergeEvaluation × MemoryStore
unfolding merge_rows update_merge_decision_outcome update_merge_decision_targets_in_tx
carry_out references context id now proposal (reject reason) s =
    (ok (rejection proposal reason), record_rejection proposal reason s)
carry_out references context id now proposal insert_new s =
    commit context id proposal s (merge_rows references context id now proposal none s.artifacts)
carry_out references context id now proposal (supersede target) s =
    commit context id proposal s
      (merge_rows references context id now proposal (some target) s.artifacts)

-- `id` is what `Uuid::now_v7` draws and `now` what `Utc::now` reads; `scanned` is the table when
-- the program lists the active artifacts, and `s` the store when the transaction runs.
unfoldable pub apply_memory_proposal_merge :
    (references : Bool)
    → ProposalProcessingContext
    → (id : Uuid) (now : Instant) → CanonicalProposal
    → (scanned : List MemoryArtifactRecord) → MemoryStore
    → Result MergeError MergeEvaluation × MemoryStore
unfolding validate_proposal plan_memory_merge carry_out list_active_memory_artifacts_by_subject
    update_merge_decision_outcome
apply_memory_proposal_merge references context id now proposal scanned s =
    elim (validate_proposal proposal) [
      | err e ↦ (ok (rejection proposal (invalid e)), record_rejection proposal (invalid e) s)
      | ok u ↦
          carry_out references context id now proposal
            (plan_memory_merge proposal (
              list_active_memory_artifacts_by_subject proposal.subject_ref active_memory_scan_limit
                scanned))
            s
    ]
