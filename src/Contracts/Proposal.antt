-- ===== src/Contracts/Proposal.antt =====
-- Canonical proposals and their evaluations, of crates/contracts/src/lib.rs.
use blue_lagoon.Base.{ℕ, Option, List, Text}
use blue_lagoon.Contracts.Action.{Uuid, Instant}

pub data IdentityLifecycleState : Type 0 where
  bootstrap_seed_only identity_kickstart_in_progress : IdentityLifecycleState
  complete_identity_active identity_reset_pending : IdentityLifecycleState

pub record IdentityInterviewAnswer : Type 0 where
  pub step_key : Text
  pub answer_text : Text

pub data IdentityKickstartAction : Type 0 where
  select_predefined_template : (template_key : Text) → IdentityKickstartAction
  start_custom_interview : IdentityKickstartAction
  answer_custom_interview : IdentityInterviewAnswer → IdentityKickstartAction
  cancel : (reason : Option Text) → IdentityKickstartAction

pub data IdentityStabilityClass : Type 0 where
  stable evolving transient_projection : IdentityStabilityClass

pub data IdentityItemCategory : Type 0 where
  name identity_form role archetype origin_backstory age_framing : IdentityItemCategory
  foundational_trait foundational_value enduring_boundary : IdentityItemCategory
  default_communication_style preference like dislike habit routine : IdentityItemCategory
  learned_tendency autobiographical_refinement : IdentityItemCategory
  recurring_self_description interaction_style_adaptation : IdentityItemCategory
  goal subgoal : IdentityItemCategory

pub data IdentityItemSource : Type 0 where
  seed predefined_template custom_interview user_authored : IdentityItemSource
  operator_authored model_inferred : IdentityItemSource

pub data IdentityMergePolicy : Type 0 where
  protected_core approval_required reinforceable revisable expirable : IdentityMergePolicy

pub data IdentityDeltaOperation : Type 0 where
  add reinforce weaken revise supersede expire : IdentityDeltaOperation

pub record IdentityEvidenceRef : Type 0 where
  pub source_kind : Text
  pub source_id : Option Uuid
  pub summary : Text

pub record IdentityItemDelta : Type 0 where
  pub operation : IdentityDeltaOperation
  pub stability_class : IdentityStabilityClass
  pub category : IdentityItemCategory
  pub item_key : Text
  pub value : Text
  pub confidence_pct : ℕ
  pub weight_pct : Option ℕ
  pub source : IdentityItemSource
  pub merge_policy : IdentityMergePolicy
  pub evidence_refs : List IdentityEvidenceRef
  pub valid_from : Option Instant
  pub valid_to : Option Instant
  pub target_identity_item_id : Option Uuid

pub record SelfDescriptionDelta : Type 0 where
  pub operation : IdentityDeltaOperation
  pub description : Text
  pub evidence_refs : List IdentityEvidenceRef

pub record IdentityDeltaProposal : Type 0 where
  pub lifecycle_state : IdentityLifecycleState
  pub item_deltas : List IdentityItemDelta
  pub self_description_delta : Option SelfDescriptionDelta
  pub interview_action : Option IdentityKickstartAction
  pub rationale : Text

pub data CanonicalProposalKind : Type 0 where
  memory_artifact self_model_observation identity_delta : CanonicalProposalKind

pub data CanonicalTargetKind : Type 0 where
  memory_artifacts self_model_artifacts identity_items : CanonicalTargetKind

pub data ProposalConflictPosture : Type 0 where
  independent revises supersedes conflicts : ProposalConflictPosture

pub data ProposalProvenanceKind : Type 0 where
  episode_observation backlog_recovery self_model_reflection : ProposalProvenanceKind

pub record ProposalProvenance : Type 0 where
  pub provenance_kind : ProposalProvenanceKind
  pub source_ingress_ids : List Uuid
  pub source_episode_id : Option Uuid

pub record MemoryArtifactProposal : Type 0 where
  pub artifact_kind : Text
  pub content_text : Text

pub record SelfModelObservationProposal : Type 0 where
  pub observation_kind : Text
  pub content_text : Text

pub data CanonicalProposalPayload : Type 0 where
  memory_artifact : MemoryArtifactProposal → CanonicalProposalPayload
  self_model_observation : SelfModelObservationProposal → CanonicalProposalPayload
  identity_delta : IdentityDeltaProposal → CanonicalProposalPayload

pub record CanonicalProposal : Type 0 where
  pub proposal_id : Uuid
  pub proposal_kind : CanonicalProposalKind
  pub canonical_target : CanonicalTargetKind
  pub confidence_pct : ℕ
  pub conflict_posture : ProposalConflictPosture
  pub subject_ref : Text
  pub rationale : Option Text
  pub valid_from : Option Instant
  pub valid_to : Option Instant
  pub supersedes_artifact_id : Option Uuid
  pub provenance : ProposalProvenance
  pub payload : CanonicalProposalPayload

pub data ProposalEvaluationOutcome : Type 0 where
  accepted rejected : ProposalEvaluationOutcome
