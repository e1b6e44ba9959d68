-- ===== src/Tests/Memories.antt =====
-- A note about the user, proposed and merged.
use blue_lagoon.Base.{
  ◌≡◌, ◌↔◌, ◌≤◌, refl, true, none, some, [], ◌∷◌, codes, ok, arith, count_if, text_eq, any,
}
use blue_lagoon.Contracts.Proposal.{
  CanonicalProposal, CanonicalProposalKind, CanonicalProposalPayload, independent,
  ProposalProvenanceKind, memory_artifacts,
}
use blue_lagoon.Proposal.{validate_proposal}
use blue_lagoon.Proposal.Admissible.{IsAdmissible, validate_proposal_iff}
use blue_lagoon.Memory.{ProposalProcessingContext, MemoryArtifactRecord, active, MemoryStore}
use blue_lagoon.Memory.Merge.{apply_memory_proposal_merge}
use blue_lagoon.Memory.Unique.{NoTwins, active_count, merge-NoTwins}

abbrev note : CanonicalProposal
note = record {
  proposal_id = 51;
  proposal_kind = CanonicalProposalKind.memory_artifact;
  canonical_target = memory_artifacts;
  confidence_pct = 80;
  conflict_posture = independent;
  subject_ref = codes "user";
  rationale = none;
  valid_from = none;
  valid_to = none;
  supersedes_artifact_id = none;
  provenance = record {
    provenance_kind = ProposalProvenanceKind.episode_observation;
    source_ingress_ids = 5 ∷ [];
    source_episode_id = none;
  };
  payload =
      CanonicalProposalPayload.memory_artifact
        (record { artifact_kind = codes "preference"; content_text = codes "likes tea" });
}

validate_proposal_iff_example : (validate_proposal note ≡ ok tt) ↔ IsAdmissible note
validate_proposal_iff_example = validate_proposal_iff note

abbrev context : ProposalProcessingContext
context = record { trace_id = 1; execution_id = 2; episode_id = none; source_ingress_id = some 5 }

abbrev artifact : MemoryArtifactRecord
artifact = record {
  memory_artifact_id = 61;
  proposal_id = 50;
  trace_id = 1;
  execution_id = 2;
  episode_id = none;
  source_ingress_id = none;
  artifact_kind = codes "preference";
  subject_ref = codes "user";
  content_text = codes "likes coffee";
  confidence_pct = 70;
  provenance_kind = ProposalProvenanceKind.episode_observation;
  status = active;
  valid_from = none;
  valid_to = none;
  superseded_at = none;
  superseded_by_artifact_id = none;
  supersedes_artifact_id = none;
}

abbrev memories : MemoryStore
memories = record { artifacts = artifact ∷ []; decisions = [] }

few_are_active : active_count note.subject_ref memories.artifacts ≤ 32
unfolding count_if text_eq
few_are_active = omega arith

no_twins : NoTwins memories.artifacts
unfolding any
no_twins = (refl, tt)

merge-NoTwins_example :
    NoTwins
      (apply_memory_proposal_merge true context 62 100 note memories.artifacts memories).1.artifacts
merge-NoTwins_example =
    merge-NoTwins true context 62 100 note memories.artifacts memories refl few_are_active no_twins

-- Two merges of one content that have both listed the artifacts before either wrote.
abbrev merged_by_both : MemoryStore
merged_by_both =
    (apply_memory_proposal_merge true context 63 101 (record note { proposal_id = 52 })
      memories.artifacts
      (apply_memory_proposal_merge true context 62 100 note memories.artifacts memories).1).1

overlapping_merges : active_count note.subject_ref merged_by_both.artifacts ≡ 3
unfolding count_if text_eq apply_memory_proposal_merge blue_lagoon.Proposal.validate_memory_payload
overlapping_merges = refl
