-- ===== src/Proposal.antt =====
-- `validate_proposal` of crates/harness/src/proposal.rs: which canonical proposals may be merged.
-- An accepted proposal is `ok tt`, a rejected one the `err` with its reason.
pub mod Admissible
use blue_lagoon.Base.{
  ℕ, Bool, true, false, not, ◌&&◌, ◌||◌, Option, none, some, List, [], ◌∷◌, Text, ltb, ◌==◌,
  is_none, is_some, is_empty, is_blank, Result, ok, err, bail_if, ◌>>=◌, ◌>>◌,
}
use blue_lagoon.Contracts.Action.{Instant}
use blue_lagoon.Contracts.Proposal.{
  CanonicalProposal, CanonicalProposalKind, CanonicalTargetKind, CanonicalProposalPayload,
  MemoryArtifactProposal, SelfModelObservationProposal, IdentityDeltaProposal, IdentityItemDelta,
  IdentityStabilityClass, IdentityItemSource, SelfDescriptionDelta, ProposalConflictPosture,
  independent, revises, supersedes, conflicts, ProposalProvenanceKind, memory_artifacts,
  self_model_artifacts, identity_items,
}

pub data Rejection : Type 0 where
  subject_ref_empty confidence_zero provenance_empty reflection_target : Rejection
  window_reversed supersedes_not_allowed supersedes_required : Rejection
  memory_target self_model_target identity_target payload_mismatch : Rejection
  artifact_kind_empty content_text_empty observation_kind_empty rationale_empty : Rejection
  delta_empty item_key_empty value_empty item_confidence_zero weight_out_of_range : Rejection
  stable_inference inference_without_evidence item_window_reversed description_empty : Rejection

abbrev pub Check : Type 0
Check = Result Rejection (Unit {0})

-- `valid_to < valid_from`, where both are there
abbrev pub is_reversed : (valid_from valid_to : Option Instant) → Bool
is_reversed (some valid_from) (some valid_to) = ltb valid_to valid_from
is_reversed (some valid_from) none = false
is_reversed none valid_to = false

abbrev pub is_reflection : ProposalProvenanceKind → Bool
is_reflection ProposalProvenanceKind.self_model_reflection = true
is_reflection _ = false

abbrev pub is_memory_target : CanonicalTargetKind → Bool
is_memory_target memory_artifacts = true
is_memory_target _ = false

unfoldable pub validate_conflict_posture : CanonicalProposal → Check
validate_conflict_posture proposal = elim proposal.conflict_posture [
  | independent ↦ bail_if (is_some proposal.supersedes_artifact_id) supersedes_not_allowed
  | conflicts ↦ bail_if (is_some proposal.supersedes_artifact_id) supersedes_not_allowed
  | revises ↦ bail_if (is_none proposal.supersedes_artifact_id) supersedes_required
  | supersedes ↦ bail_if (is_none proposal.supersedes_artifact_id) supersedes_required
]

unfoldable pub validate_memory_payload : MemoryArtifactProposal → Check
unfolding is_blank
validate_memory_payload payload = do
  bail_if (is_blank payload.artifact_kind) artifact_kind_empty
  bail_if (is_blank payload.content_text) content_text_empty

unfoldable pub validate_self_model_payload : SelfModelObservationProposal → Check
unfolding is_blank
validate_self_model_payload payload = do
  bail_if (is_blank payload.observation_kind) observation_kind_empty
  bail_if (is_blank payload.content_text) content_text_empty

abbrev pub exceeds_100 : Option ℕ → Bool
exceeds_100 none = false
exceeds_100 (some weight) = ltb 100 weight

abbrev pub is_stable : IdentityStabilityClass → Bool
is_stable IdentityStabilityClass.stable = true
is_stable _ = false

abbrev pub is_inferred : IdentityItemSource → Bool
is_inferred IdentityItemSource.model_inferred = true
is_inferred _ = false

-- One round of the loop over the item deltas.
unfoldable pub check_item_delta : IdentityItemDelta → Check
unfolding is_blank
check_item_delta delta = do
  bail_if (is_blank delta.item_key) item_key_empty
  bail_if (is_blank delta.value) value_empty
  bail_if (delta.confidence_pct == 0) item_confidence_zero
  bail_if (exceeds_100 delta.weight_pct) weight_out_of_range
  bail_if (is_stable delta.stability_class && is_inferred delta.source) stable_inference
  bail_if (is_inferred delta.source && is_empty delta.evidence_refs) inference_without_evidence
  bail_if (is_reversed delta.valid_from delta.valid_to) item_window_reversed

unfoldable pub check_item_deltas : List IdentityItemDelta → Check
unfolding check_item_delta
check_item_deltas [] = ok tt
check_item_deltas (delta ∷ deltas) = check_item_delta delta >> check_item_deltas deltas

abbrev pub has_blank_description : Option SelfDescriptionDelta → Bool
has_blank_description none = false
has_blank_description (some delta) = is_blank delta.description

unfoldable pub validate_identity_delta_payload : IdentityDeltaProposal → Check
unfolding is_blank check_item_deltas
validate_identity_delta_payload payload = do
  bail_if (is_blank payload.rationale) rationale_empty
  bail_if
      (is_empty payload.item_deltas
        && is_none payload.self_description_delta
        && is_none payload.interview_action)
      delta_empty
  check_item_deltas payload.item_deltas
  bail_if (has_blank_description payload.self_description_delta) description_empty

-- The `match` on the kind, the target and the payload.
unfoldable pub check_payload :
    CanonicalProposalKind → CanonicalTargetKind → CanonicalProposalPayload → Check
check_payload CanonicalProposalKind.memory_artifact memory_artifacts
      (CanonicalProposalPayload.memory_artifact payload) =
    validate_memory_payload payload
check_payload CanonicalProposalKind.self_model_observation self_model_artifacts
      (CanonicalProposalPayload.self_model_observation payload) =
    validate_self_model_payload payload
check_payload CanonicalProposalKind.identity_delta identity_items
      (CanonicalProposalPayload.identity_delta payload) =
    validate_identity_delta_payload payload
check_payload CanonicalProposalKind.memory_artifact self_model_artifacts payload = err memory_target
check_payload CanonicalProposalKind.memory_artifact identity_items payload = err memory_target
check_payload CanonicalProposalKind.self_model_observation memory_artifacts payload =
    err self_model_target
check_payload CanonicalProposalKind.self_model_observation identity_items payload =
    err self_model_target
check_payload CanonicalProposalKind.identity_delta memory_artifacts payload = err identity_target
check_payload CanonicalProposalKind.identity_delta self_model_artifacts payload =
    err identity_target
check_payload _ _ payload = err payload_mismatch

unfoldable pub validate_proposal : CanonicalProposal → Check
unfolding is_blank validate_conflict_posture check_payload
validate_proposal proposal = do
  bail_if (is_blank proposal.subject_ref) subject_ref_empty
  bail_if (proposal.confidence_pct == 0) confidence_zero
  bail_if
      (is_empty proposal.provenance.source_ingress_ids
        && is_none proposal.provenance.source_episode_id)
      provenance_empty
  bail_if
      (is_reflection proposal.provenance.provenance_kind
        && is_memory_target proposal.canonical_target)
      reflection_target
  bail_if (is_reversed proposal.valid_from proposal.valid_to) window_reversed
  validate_conflict_posture proposal
  check_payload proposal.proposal_kind proposal.canonical_target proposal.payload
