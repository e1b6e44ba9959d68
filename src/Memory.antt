-- ===== src/Memory.antt =====
-- The plan of `apply_memory_proposal_merge` of crates/harness/src/memory.rs, and the tables that it
-- reads and writes. The rows stand newest first, the order in which the query for the active
-- artifacts of a subject lists them. A confidence is its percentage, a status that is not `active`
-- is `superseded`, and the JSON columns are left out.
pub mod Merge
pub mod Unique
use blue_lagoon.Base.{
  ℕ, zero, suc, Bool, true, false, not, ◌&&◌, ◌||◌, Option, none, some, List, [], ◌∷◌, map, Text,
  ◌==◌, if◌then◌else◌, any, find, text_eq, Result, ok, err, bail_if, ltb, ◌>>◌, ◌>>=◌,
}
use blue_lagoon.Contracts.Action.{Uuid, Instant}
use blue_lagoon.Contracts.Proposal.{
  CanonicalProposal, CanonicalProposalKind, CanonicalTargetKind, CanonicalProposalPayload,
  MemoryArtifactProposal, ProposalConflictPosture, independent, conflicts, revises, supersedes,
  ProposalEvaluationOutcome, accepted, rejected, ProposalProvenanceKind, memory_artifacts,
}
use blue_lagoon.Proposal.{Rejection, validate_proposal}

abbrev pub active_memory_scan_limit : ℕ
active_memory_scan_limit = 32

pub data ArtifactStatus : Type 0 where
  active superseded : ArtifactStatus

pub record ProposalProcessingContext : Type 0 where
  pub trace_id : Uuid
  pub execution_id : Uuid
  pub episode_id : Option Uuid
  pub source_ingress_id : Option Uuid

pub record MemoryArtifactRecord : Type 0 where
  pub memory_artifact_id : Uuid
  pub proposal_id : Uuid
  pub trace_id : Uuid
  pub execution_id : Uuid
  pub episode_id : Option Uuid
  pub source_ingress_id : Option Uuid
  pub artifact_kind : Text
  pub subject_ref : Text
  pub content_text : Text
  pub confidence_pct : ℕ
  pub provenance_kind : ProposalProvenanceKind
  pub status : ArtifactStatus
  pub valid_from : Option Instant
  pub valid_to : Option Instant
  pub superseded_at : Option Instant
  pub superseded_by_artifact_id : Option Uuid
  pub supersedes_artifact_id : Option Uuid

pub data MergeReason : Type 0 where
  invalid : Rejection → MergeReason
  only_memory_proposals payload_required duplicate_artifact conflict_not_merged : MergeReason
  supersedes_required target_not_active target_of_other_subject merged : MergeReason

pub record MergeDecision : Type 0 where
  pub proposal_id : Uuid
  pub decision_kind : ProposalEvaluationOutcome
  pub decision_reason : MergeReason
  pub accepted_memory_artifact_id : Option Uuid

pub record MemoryStore : Type 0 where
  pub artifacts : List MemoryArtifactRecord
  pub decisions : List MergeDecision

pub data MemoryMergePlan : Type 0 where
  insert_new : MemoryMergePlan
  supersede : (target_artifact_id : Uuid) → MemoryMergePlan
  reject : (reason : MergeReason) → MemoryMergePlan

abbrev pub is_active : ArtifactStatus → Bool
is_active active = true
is_active superseded = false

abbrev pub is_active_of : (subject_ref : Text) → MemoryArtifactRecord → Bool
is_active_of subject_ref row = is_active row.status && text_eq row.subject_ref subject_ref

-- The first `n` rows that pass the test: `WHERE` with `LIMIT`.
unfoldable pub select_first :
    (MemoryArtifactRecord → Bool) → ℕ → List MemoryArtifactRecord → List MemoryArtifactRecord
select_first p n [] = []
select_first p zero (row ∷ rows) = []
select_first p (suc n) (row ∷ rows) =
    let more = select_first p n rows in
    let later = select_first p (suc n) rows in if p row then row ∷ more else later

unfoldable pub list_active_memory_artifacts_by_subject :
    (subject_ref : Text) (limit : ℕ) → List MemoryArtifactRecord → List MemoryArtifactRecord
unfolding select_first text_eq
list_active_memory_artifacts_by_subject subject_ref limit rows =
    select_first (is_active_of subject_ref) limit rows

abbrev pub is_memory_kind : CanonicalProposalKind → Bool
is_memory_kind CanonicalProposalKind.memory_artifact = true
is_memory_kind _ = false

abbrev pub is_memory_target : CanonicalTargetKind → Bool
is_memory_target memory_artifacts = true
is_memory_target _ = false

abbrev pub same_content :
    (subject_ref : Text) → MemoryArtifactProposal → MemoryArtifactRecord → Bool
same_content subject_ref payload row =
    text_eq row.artifact_kind payload.artifact_kind
    && text_eq row.subject_ref subject_ref
    && text_eq row.content_text payload.content_text

abbrev pub plan_target :
    (subject_ref : Text) (target : Uuid) → Option MemoryArtifactRecord → MemoryMergePlan
plan_target subject_ref target none = reject target_not_active
plan_target subject_ref target (some row) =
    if not (text_eq row.subject_ref subject_ref)
    then reject target_of_other_subject
    else supersede target

unfoldable pub plan_supersession :
    (subject_ref : Text) → Option Uuid → List MemoryArtifactRecord → MemoryMergePlan
unfolding find text_eq
plan_supersession subject_ref none rows = reject supersedes_required
plan_supersession subject_ref (some target) rows =
    plan_target subject_ref target (find (λ row. row.memory_artifact_id == target) rows)

unfoldable pub plan_posture :
    ProposalConflictPosture
    → (subject_ref : Text) → Option Uuid
    → List MemoryArtifactRecord
    → MemoryMergePlan
unfolding plan_supersession
plan_posture independent subject_ref target rows = insert_new
plan_posture conflicts subject_ref target rows = reject conflict_not_merged
plan_posture revises subject_ref target rows = plan_supersession subject_ref target rows
plan_posture supersedes subject_ref target rows = plan_supersession subject_ref target rows

unfoldable pub plan_payload :
    CanonicalProposalPayload → CanonicalProposal → List MemoryArtifactRecord → MemoryMergePlan
unfolding any text_eq plan_posture
plan_payload (CanonicalProposalPayload.memory_artifact payload) proposal rows =
    if any (same_content proposal.subject_ref payload) rows
    then reject duplicate_artifact
    else plan_posture proposal.conflict_posture proposal.subject_ref proposal.supersedes_artifact_id
        rows
plan_payload _ proposal rows = reject payload_required

unfoldable pub plan_memory_merge : CanonicalProposal → List MemoryArtifactRecord → MemoryMergePlan
unfolding plan_payload
plan_memory_merge proposal rows =
    if not (is_memory_kind proposal.proposal_kind)
      || not (is_memory_target proposal.canonical_target)
    then reject only_memory_proposals
    else plan_payload proposal.payload proposal rows
