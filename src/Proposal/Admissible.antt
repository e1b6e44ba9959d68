-- ===== src/Proposal/Admissible.antt =====
-- Which proposals `validate_proposal` accepts.
use blue_lagoon.Base.{
  ◌≡◌, ◌≢◌, ◌↔◌, ◌⊎◌, ◌<◌, refl, true, false, ◌&&◌, List, [], ◌∷◌, All, is_none, is_empty, is_blank,
  ok, >>-eq-ok, bail_if-eq-ok, ◌==◌, arith,
}
use blue_lagoon.Contracts.Proposal.{
  CanonicalProposal, CanonicalProposalKind, CanonicalTargetKind, CanonicalProposalPayload,
  IdentityItemDelta, IdentityStabilityClass, IdentityItemSource, independent, conflicts,
  ProposalProvenanceKind, memory_artifacts, self_model_artifacts, identity_items,
}
use blue_lagoon.Proposal.{
  is_reflection, is_memory_target, is_reversed, exceeds_100, check_item_delta, check_item_deltas,
  has_blank_description, validate_memory_payload, validate_self_model_payload,
  validate_identity_delta_payload, validate_conflict_posture, check_payload, validate_proposal,
}

-- A model's inference is never a stable trait, and it names its evidence.
pub record ItemAllowed (delta : IdentityItemDelta) : Type 0 where
  pub key : is_blank delta.item_key ≡ false
  pub value : is_blank delta.value ≡ false
  pub confident : 0 < delta.confidence_pct
  pub weight : exceeds_100 delta.weight_pct ≡ false
  pub not_stable :
      delta.source ≡ IdentityItemSource.model_inferred
      → delta.stability_class ≢ IdentityStabilityClass.stable
  pub evidence :
      delta.source ≡ IdentityItemSource.model_inferred → is_empty delta.evidence_refs ≡ false
  pub window : is_reversed delta.valid_from delta.valid_to ≡ false

-- The payload is of the kind, and goes to the target, that the proposal names, and is filled in.
abbrev pub PayloadAllowed :
    CanonicalProposalKind → CanonicalTargetKind → CanonicalProposalPayload → Type 0
PayloadAllowed kind target (CanonicalProposalPayload.memory_artifact payload) =
    (kind ≡ CanonicalProposalKind.memory_artifact)
    × (target ≡ memory_artifacts)
    × (is_blank payload.artifact_kind ≡ false)
    × (is_blank payload.content_text ≡ false)
PayloadAllowed kind target (CanonicalProposalPayload.self_model_observation payload) =
    (kind ≡ CanonicalProposalKind.self_model_observation)
    × (target ≡ self_model_artifacts)
    × (is_blank payload.observation_kind ≡ false)
    × (is_blank payload.content_text ≡ false)
PayloadAllowed kind target (CanonicalProposalPayload.identity_delta payload) =
    (kind ≡ CanonicalProposalKind.identity_delta)
    × (target ≡ identity_items)
    × (is_blank payload.rationale ≡ false)
    × ((is_empty payload.item_deltas
          && is_none payload.self_description_delta
          && is_none payload.interview_action)
        ≡ false)
    × All ItemAllowed payload.item_deltas
    × (has_blank_description payload.self_description_delta ≡ false)

pub record IsAdmissible (p : CanonicalProposal) : Type 0 where
  pub subject : is_blank p.subject_ref ≡ false
  pub confident : 0 < p.confidence_pct
  pub sourced :
      (is_empty p.provenance.source_ingress_ids && is_none p.provenance.source_episode_id) ≡ false
  pub reflection :
      p.provenance.provenance_kind ≡ ProposalProvenanceKind.self_model_reflection
      → p.canonical_target ≢ memory_artifacts
  pub window : is_reversed p.valid_from p.valid_to ≡ false
  pub replaces :
      (is_none p.supersedes_artifact_id ≡ true)
      ↔ ((p.conflict_posture ≡ independent) ⊎ (p.conflict_posture ≡ conflicts))
  pub payload : PayloadAllowed p.proposal_kind p.canonical_target p.payload

item_iff : (delta : IdentityItemDelta) → (check_item_delta delta ≡ ok tt) ↔ ItemAllowed delta
unfolding check_item_delta
item_iff delta = ground arith

items_iff :
    (deltas : List IdentityItemDelta) → (check_item_deltas deltas ≡ ok tt) ↔ All ItemAllowed deltas
unfolding check_item_deltas
items_iff [] = (λ h. tt, λ a. refl)
items_iff (delta ∷ deltas) = (
  λ h.
      let parts = >>-eq-ok (check_item_delta delta) (check_item_deltas deltas) h in
      ((item_iff delta).0 parts.0, (items_iff deltas).0 parts.1),
  λ a. rw ((item_iff delta).1 a.0, (items_iff deltas).1 a.1) refl,
)

payload_iff :
    (kind : CanonicalProposalKind) (target : CanonicalTargetKind)
    (payload : CanonicalProposalPayload)
    → (check_payload kind target payload ≡ ok tt) ↔ PayloadAllowed kind target payload
unfolding check_payload validate_memory_payload validate_self_model_payload
    validate_identity_delta_payload
payload_iff kind target (CanonicalProposalPayload.memory_artifact payload) = ground arith
payload_iff kind target (CanonicalProposalPayload.self_model_observation payload) = ground arith
payload_iff kind target (CanonicalProposalPayload.identity_delta payload) =
    let items = items_iff payload.item_deltas in ground (arith, items)

posture_iff :
    (p : CanonicalProposal)
    → (validate_conflict_posture p ≡ ok tt) ↔ (
        (is_none p.supersedes_artifact_id ≡ true)
        ↔ ((p.conflict_posture ≡ independent) ⊎ (p.conflict_posture ≡ conflicts)))
unfolding validate_conflict_posture
posture_iff p = ground arith

reflection_iff :
    (kind : ProposalProvenanceKind) (target : CanonicalTargetKind)
    → ((is_reflection kind && is_memory_target target) ≡ false)
      ↔ (kind ≡ ProposalProvenanceKind.self_model_reflection → target ≢ memory_artifacts)
reflection_iff kind target = ground arith

-- The steps of `validate_proposal`, one by one.
steps_iff :
    (p : CanonicalProposal)
    → (validate_proposal p ≡ ok tt) ↔ (
        (is_blank p.subject_ref ≡ false)
        × ((p.confidence_pct == 0) ≡ false)
        × ((is_empty p.provenance.source_ingress_ids && is_none p.provenance.source_episode_id)
            ≡ false)
        × ((is_reflection p.provenance.provenance_kind && is_memory_target p.canonical_target)
            ≡ false)
        × (is_reversed p.valid_from p.valid_to ≡ false)
        × (validate_conflict_posture p ≡ ok tt)
        × (check_payload p.proposal_kind p.canonical_target p.payload ≡ ok tt))
unfolding validate_proposal
steps_iff p = (
  λ h.
      let a = >>-eq-ok _ _ h in
      let b = >>-eq-ok _ _ a.1 in
      let c = >>-eq-ok _ _ b.1 in
      let d = >>-eq-ok _ _ c.1 in
      let e = >>-eq-ok _ _ d.1 in
      let f = >>-eq-ok _ _ e.1 in
      (
        bail_if-eq-ok _ _ a.0,
        bail_if-eq-ok _ _ b.0,
        bail_if-eq-ok _ _ c.0,
        bail_if-eq-ok _ _ d.0,
        bail_if-eq-ok _ _ e.0,
        f.0,
        f.1,
      ),
  λ k. rw (k.0, k.1, k.2, k.3, k.4, k.5) (k.6),
)

-- A proposal is accepted exactly when it is admissible: it has a subject, some confidence and a
-- source, its window is not reversed, it names what it replaces exactly if it revises or
-- supersedes, a reflection does not touch the memory, and the payload fits the kind and the target
-- and is filled in. An item that a model inferred is never stable and names its evidence.
pub validate_proposal_iff : (p : CanonicalProposal) → (validate_proposal p ≡ ok tt) ↔ IsAdmissible p
validate_proposal_iff p =
    let steps = steps_iff p in
    let payload = payload_iff p.proposal_kind p.canonical_target p.payload in
    let reflection = reflection_iff p.provenance.provenance_kind p.canonical_target in
    (
      λ h.
          let k = steps.0 h in
          record {
            subject = k.0;
            confident = ground arith;
            sourced = k.2;
            reflection = reflection.0 k.3;
            window = k.4;
            replaces = (posture_iff p).0 k.5;
            payload = payload.0 k.6;
          },
      λ a. steps.1 (
        a.subject,
        (let positive = a.confident in ground arith),
        a.sourced,
        reflection.1 a.reflection,
        a.window,
        (posture_iff p).1 a.replaces,
        payload.1 a.payload,
      ),
    )
