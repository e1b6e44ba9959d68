-- ===== src/GovernedActions/Plan/Admission.antt =====
-- What a planned action has passed, and that the check before its execution judges it in the same
-- way.
use blue_lagoon.Base.{
  ◌≡◌, refl, sym, ap, ◌∙◌, inl, inr, Bool, ◌||◌, Option, none, some, List, [], ◌∷◌, Text, any, ◌==◌,
  Bool-cases, Option-cases, Result-cases, Result, ok, err, arith,
}
use blue_lagoon.Contracts.Action.{Uuid, Instant, GovernedActionRiskTier, GovernedActionProposal}
use blue_lagoon.Config.{RuntimeConfig}
use blue_lagoon.Policy.{allowed, classify_governed_action_risk, governed_action_requires_approval}
use blue_lagoon.Policy.Boundaries.{evaluate_governed_action_identity_boundaries}
use blue_lagoon.GovernedActions.Shape.{validate_proposal_shape}
use blue_lagoon.GovernedActions.Scope.{check_roots, validate_capability_scope}
use blue_lagoon.GovernedActions.Fingerprint.{
  CanonicalGovernedActionFingerprintInput, canonical_input, fingerprint_governed_action,
}
use blue_lagoon.GovernedActions.Records.{
  GovernedActionPlanningRequest, GovernedActionExecutionRecord, planned, ActionStore,
}
use blue_lagoon.GovernedActions.Store.{shares_execution}
use blue_lagoon.GovernedActions.Plan.{
  PolicyError, scope_checked, then_boundaries, error_of, proposal_from_record,
  validate_governed_action_policy, reason_of, planning_status, plan_governed_action,
}
use blue_lagoon.GovernedActions.Plan.Outcome.{
  IsFresh, violation, needs_approval, row_for, store_for, plan_governed_action_lem, answer,
  invalid_shape_writes_nothing, taken_id_writes_nothing,
}

module _ (url_scheme : Text → Option Text) (digest : CanonicalGovernedActionFingerprintInput → Text)
    (message : PolicyError → Text) (config : RuntimeConfig) (boundaries : Option (List Text)) where
  -- The scope is accepted and no boundary of the identity, which could be read, forbids the action.
  abbrev pub Admitted : GovernedActionProposal → Type 0
  Admitted p =
      (validate_capability_scope url_scheme config p ≡ ok tt)
      × ((list : List Text) × (boundaries ≡ some list)
          × (evaluate_governed_action_identity_boundaries p list ≡ allowed))

  no_violation-Admitted :
      (p : GovernedActionProposal)
      → error_of (validate_governed_action_policy url_scheme digest message config boundaries p)
        ≡ none
      → Admitted p
  unfolding validate_governed_action_policy
  no_violation-Admitted p h = elim (Option-cases boundaries) [
    | inl e ↦ ground (arith, h, e)
    | inr (list, e) ↦ (ground (arith, h, e), (list, e, ground (arith, h, e)))
  ]

  module _ (clock : Instant) (request : GovernedActionPlanningRequest) (s after : ActionStore)
      (row : GovernedActionExecutionRecord) (needs : Bool) where
    abbrev Planned : Type 0
    Planned =
        plan_governed_action url_scheme digest message clock config boundaries request s
        ≡ (ok (planned row needs), after)

    planned-IsFresh :
        Planned → (validate_proposal_shape request.proposal ≡ ok tt) × IsFresh request s
    planned-IsFresh h = elim (Result-cases (validate_proposal_shape request.proposal)) [
      | inr (e, k) ↦
          (let refused =
              invalid_shape_writes_nothing url_scheme digest message clock config boundaries request
                e s k in
            cc)
      | inl (u, k) ↦
          elim (Bool-cases (
            any
              (λ other.
                other.governed_action_execution_id == request.governed_action_execution_id
                || shares_execution request.execution_id other)
              s.executions)) [
                | inl taken ↦
                    (let refused =
                        taken_id_writes_nothing url_scheme digest message clock config boundaries
                          request s k taken in
                      cc)
                | inr fresh ↦ (k, fresh)
              ]
    ]

    abbrev violated : Option PolicyError
    violated = violation url_scheme digest message clock config boundaries request

    planned_unviolated :
        (e : Option PolicyError) (reason : Option Text) (inserted : GovernedActionExecutionRecord)
        → answer e inserted
            (needs_approval url_scheme digest message clock config boundaries request)
            reason
          ≡ planned row needs
        → (e ≡ none)
          × (inserted ≡ row)
          × (needs_approval url_scheme digest message clock config boundaries request ≡ needs)
    planned_unviolated none reason inserted h = (refl, cc, cc)
    planned_unviolated (some e) reason inserted h = cc

    -- An action that is answered as planned has a valid shape and an accepted scope, no boundary
    -- of the identity forbids it, it is said to need an approval exactly when its risk tier asks
    -- for one, and it is the row in front of the table.
    pub plan_governed_action-Admitted :
        Planned
        → (validate_proposal_shape request.proposal ≡ ok tt)
          × Admitted request.proposal
          × (needs
              ≡ governed_action_requires_approval config
                  (classify_governed_action_risk request.proposal))
          × (after.executions ≡ row ∷ s.executions)
          × (row.status ≡ planning_status none needs)
    plan_governed_action-Admitted h =
        let (shape, fresh) = planned-IsFresh h in
        let written =
          plan_governed_action_lem url_scheme digest message clock config boundaries request s shape
            fresh in
        let inserted = row_for url_scheme digest message clock config boundaries request violated in
        let answers : answer violated inserted
              (needs_approval url_scheme digest message clock config boundaries request)
              (reason_of message violated)
            ≡ planned row needs =
          cc in
        let parts = planned_unviolated violated (reason_of message violated) inserted answers in
        let stores : store_for url_scheme digest message clock config boundaries request violated s
            ≡ after =
          cc in
        (
          shape,
          no_violation-Admitted request.proposal parts.0,
          sym parts.2,
          sym (ap ActionStore.executions stores) ∙ ap (λ r. r ∷ s.executions) parts.1,
          sym (ap GovernedActionExecutionRecord.status parts.1)
              ∙ ap
                  (λ e.
                    planning_status e
                      (needs_approval url_scheme digest message clock config boundaries request))
                  parts.0
              ∙ ap (planning_status none) parts.2,
        )

  -- A proposal under another id, title, rationale and requested tier.
  abbrev relabelled :
      GovernedActionProposal
      → (id : Uuid) (title : Text) (rationale : Option Text) (tier : Option GovernedActionRiskTier)
      → GovernedActionProposal
  relabelled p id title rationale tier = record p {
    proposal_id = id;
    title = title;
    rationale = rationale;
    requested_risk_tier = tier;
  }

  module _ (p : GovernedActionProposal) (id : Uuid) (title : Text) (rationale : Option Text)
      (tier : Option GovernedActionRiskTier) where
    boundaries_of_relabelled :
        (list : List Text)
        → evaluate_governed_action_identity_boundaries (relabelled p id title rationale tier) list
          ≡ evaluate_governed_action_identity_boundaries p list
    unfolding evaluate_governed_action_identity_boundaries
    boundaries_of_relabelled [] = refl
    boundaries_of_relabelled (b ∷ list) = rw (boundaries_of_relabelled list) refl

    scope_of_relabelled :
        validate_capability_scope url_scheme config (relabelled p id title rationale tier)
        ≡ validate_capability_scope url_scheme config p
    unfolding validate_capability_scope check_roots
    scope_of_relabelled = refl

    then_boundaries_of_relabelled :
        (r : Result PolicyError (Unit {0})) (identity : Option (List Text))
        → then_boundaries url_scheme digest message r
            (relabelled p id title rationale tier)
            identity
          ≡ then_boundaries url_scheme digest message r p identity
    then_boundaries_of_relabelled (err e) identity = refl
    then_boundaries_of_relabelled (ok u) none = refl
    then_boundaries_of_relabelled (ok u) (some list) = rw (boundaries_of_relabelled list) refl

    policy_of_relabelled :
        (identity : Option (List Text))
        → validate_governed_action_policy url_scheme digest message config identity
            (relabelled p id title rationale tier)
          ≡ validate_governed_action_policy url_scheme digest message config identity p
    unfolding validate_governed_action_policy
    policy_of_relabelled identity =
        ap
          (λ r.
            then_boundaries url_scheme digest message (scope_checked url_scheme digest message r)
              (relabelled p id title rationale tier) identity)
          scope_of_relabelled
        ∙ then_boundaries_of_relabelled
            (scope_checked url_scheme digest message
              (validate_capability_scope url_scheme config p))
            identity

  classify_idempotent :
      (p : GovernedActionProposal) (id : Uuid) (title : Text) (rationale : Option Text)
      → classify_governed_action_risk
          (relabelled p id title rationale (some (classify_governed_action_risk p)))
        ≡ classify_governed_action_risk p
  unfolding classify_governed_action_risk
  classify_idempotent p id title rationale = ground arith

  -- The check before an execution rebuilds the proposal from the stored row. Under the same
  -- configuration and boundaries it comes to the same verdict as planning did, at the same risk
  -- tier, and the rebuilt proposal has the fingerprint that the row stores.
  pub recheck_agrees_with_planning :
      (id_text : Uuid → Text) (clock : Instant) (request : GovernedActionPlanningRequest)
      (e : Option PolicyError)
      → let row = row_for url_scheme digest message clock config boundaries request e in
        let rebuilt = proposal_from_record id_text row in
        (validate_governed_action_policy url_scheme digest message config boundaries rebuilt
          ≡ validate_governed_action_policy url_scheme digest message config boundaries
              request.proposal)
        × (classify_governed_action_risk rebuilt ≡ row.risk_tier)
        × (fingerprint_governed_action digest rebuilt ≡ row.action_fingerprint)
  unfolding proposal_from_record fingerprint_governed_action canonical_input
  recheck_agrees_with_planning id_text clock request e =
      let p = request.proposal in
      let row = row_for url_scheme digest message clock config boundaries request e in
      let rebuilt = proposal_from_record id_text row in
      let tier = classify_idempotent p p.proposal_id rebuilt.title row.blocked_reason in
      (
        policy_of_relabelled p p.proposal_id rebuilt.title row.blocked_reason (some row.risk_tier)
            boundaries,
        tier,
        rw tier refl,
      )
