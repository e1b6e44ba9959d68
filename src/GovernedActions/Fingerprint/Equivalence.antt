-- ===== src/GovernedActions/Fingerprint/Equivalence.antt =====
-- Which proposals share a fingerprint.
use blue_lagoon.Base.{◌≡◌, ap, ◌↔◌, ◌++◌, map, List, Text, codes, trim, member, text_set_iff}
use blue_lagoon.Contracts.Action.{
  CapabilityScope, GovernedActionKind, GovernedActionRiskTier, tier0, GovernedActionStatus,
  GovernedActionFingerprint, GovernedActionProposal,
}
use blue_lagoon.Policy.{classify_governed_action_risk}
use blue_lagoon.GovernedActions.Labels.{
  governed_action_kind_as_str, governed_action_risk_tier_as_str,
}
use blue_lagoon.GovernedActions.Labels.RoundTrip.{action_labels_round_trip}
use blue_lagoon.GovernedActions.Fingerprint.{
  CanonicalGovernedActionFingerprintInput, CanonicalCapabilityScope, normalized_path_list,
  canonical_scope, canonical_payload, canonical_input, fingerprint_governed_action,
}

-- Two lists of paths that are the same set, once trimmed.
abbrev pub SamePaths : List Text → List Text → Type 0
SamePaths xs ys = (path : Text) → member path (map trim xs) ≡ member path (map trim ys)

abbrev pub SameScope : CapabilityScope → CapabilityScope → Type 0
SameScope s t =
    SamePaths s.filesystem.read_roots t.filesystem.read_roots
    × SamePaths s.filesystem.write_roots t.filesystem.write_roots
    × SamePaths s.environment.allow_variables t.environment.allow_variables
    × (s.network ≡ t.network)
    × (s.execution ≡ t.execution)

-- What an approval of `p` also covers: the same kind, tier and canonical payload, over the same
-- scope. The title, the rationale and the id of the proposal do not count.
abbrev pub SameAction : GovernedActionProposal → GovernedActionProposal → Type 0
SameAction p q =
    (p.action_kind ≡ q.action_kind)
    × (classify_governed_action_risk p ≡ classify_governed_action_risk q)
    × SameScope p.capability_scope q.capability_scope
    × (canonical_payload p.payload ≡ canonical_payload q.payload)

normalized_path_list_iff :
    (xs ys : List Text) → (normalized_path_list xs ≡ normalized_path_list ys) ↔ SamePaths xs ys
unfolding normalized_path_list
normalized_path_list_iff xs ys = text_set_iff (map trim xs) (map trim ys)

budget_of_scope :
    (s t : CapabilityScope) → canonical_scope s ≡ canonical_scope t → s.execution ≡ t.execution
unfolding canonical_scope
budget_of_scope s t h =
    let a = ap CanonicalCapabilityScope.timeout_ms h in
    let b = ap CanonicalCapabilityScope.max_stdout_bytes h in
    let c = ap CanonicalCapabilityScope.max_stderr_bytes h in cc

kind_of_label :
    (k l : GovernedActionKind)
    → governed_action_kind_as_str k ≡ governed_action_kind_as_str l
    → k ≡ l
kind_of_label k l h =
    let left = (action_labels_round_trip k tier0 GovernedActionStatus.proposed).0 in
    let right = (action_labels_round_trip l tier0 GovernedActionStatus.proposed).0 in cc

tier_of_label :
    (s t : GovernedActionRiskTier)
    → governed_action_risk_tier_as_str s ≡ governed_action_risk_tier_as_str t
    → s ≡ t
tier_of_label s t h =
    let kind = GovernedActionKind.web_fetch in
    let left = (action_labels_round_trip kind s GovernedActionStatus.proposed).1 in
    let right = (action_labels_round_trip kind t GovernedActionStatus.proposed).1 in cc

canonical_scope_iff :
    (s t : CapabilityScope) → (canonical_scope s ≡ canonical_scope t) ↔ SameScope s t
unfolding canonical_scope
canonical_scope_iff s t =
    let read = normalized_path_list_iff s.filesystem.read_roots t.filesystem.read_roots in
    let write = normalized_path_list_iff s.filesystem.write_roots t.filesystem.write_roots in
    let variables =
      normalized_path_list_iff s.environment.allow_variables t.environment.allow_variables in
    (
      λ h. (
        read.0 (ap CanonicalCapabilityScope.filesystem_read_roots h),
        write.0 (ap CanonicalCapabilityScope.filesystem_write_roots h),
        variables.0 (ap CanonicalCapabilityScope.environment_variables h),
        ap CanonicalCapabilityScope.network h,
        budget_of_scope s t h,
      ),
      λ same.
          let a = read.1 same.0 in
          let b = write.1 same.1 in
          let c = variables.1 same.2 in let d = same.3 in let e = same.4 in cc,
    )

canonical_input_iff :
    (p q : GovernedActionProposal) → (canonical_input p ≡ canonical_input q) ↔ SameAction p q
unfolding canonical_input
canonical_input_iff p q =
    let scope = canonical_scope_iff p.capability_scope q.capability_scope in
    (
      λ h. (
        kind_of_label p.action_kind q.action_kind
            (ap CanonicalGovernedActionFingerprintInput.action_kind h),
        tier_of_label _ _ (ap CanonicalGovernedActionFingerprintInput.risk_tier h),
        scope.0 (ap CanonicalGovernedActionFingerprintInput.capability_scope h),
        ap CanonicalGovernedActionFingerprintInput.payload h,
      ),
      λ same. let a = same.0 in let b = same.1 in let c = scope.1 same.2 in let d = same.3 in cc,
    )

drop_prefix : (s t : Text) → (codes "sha256:" ++ s) ≡ (codes "sha256:" ++ t) → s ≡ t
drop_prefix s t h = cc

-- Two proposals have the same fingerprint exactly when they ask for the same kind of action, at the
-- same risk tier, with the same canonical payload, over the same scope: its paths and variables are
-- compared as sets of trimmed texts, and the title, the rationale and the proposal's id do not
-- count. The digest is taken not to collide on the two.
pub fingerprint_iff :
    (digest : CanonicalGovernedActionFingerprintInput → Text) (p q : GovernedActionProposal)
    → (digest (canonical_input p) ≡ digest (canonical_input q)
        → canonical_input p ≡ canonical_input q)
    → (fingerprint_governed_action digest p ≡ fingerprint_governed_action digest q) ↔ SameAction p q
unfolding fingerprint_governed_action
fingerprint_iff digest p q collision_free = (
  λ h.
      (canonical_input_iff p q).0
        (collision_free (drop_prefix _ _ (ap GovernedActionFingerprint.value h))),
  λ same. let inputs = (canonical_input_iff p q).1 same in cc,
)
