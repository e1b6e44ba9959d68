-- ===== src/Tests/Actions.antt =====
-- A planned subprocess, its fingerprint, and what later operations leave of it.
use blue_lagoon.Base.{
  ◌≡◌, ◌↔◌, refl, ℕ, true, Option, none, some, List, [], ◌∷◌, Text, codes, find, ok,
}
use blue_lagoon.Contracts.Action.{GovernedActionProposal}
use blue_lagoon.Policy.{classify_governed_action_risk, governed_action_requires_approval}
use blue_lagoon.Policy.Boundaries.{
  boundary_blocks_network, boundary_blocks_subprocess, boundary_blocks_workspace_writes,
}
use blue_lagoon.GovernedActions.Shape.{validate_proposal_shape, validate_subprocess_action}
use blue_lagoon.GovernedActions.Scope.{
  runs_a_program, validate_capability_scope, check_roots, check_execution, check_environment,
  check_payload_scope,
}
use blue_lagoon.GovernedActions.Scope.Guarantees.{
  RootsAllowed, ExecutionAllowed, VariablesAllowed, PayloadAllowed,
  validate_capability_scope_guarantees,
}
use blue_lagoon.GovernedActions.Fingerprint.{
  CanonicalGovernedActionFingerprintInput, canonical_input, fingerprint_governed_action,
}
use blue_lagoon.GovernedActions.Fingerprint.Equivalence.{SameAction, fingerprint_iff}
use blue_lagoon.GovernedActions.Records.{
  GovernedActionPlanningRequest, GovernedActionExecutionRecord, planned, ActionStore,
}
use blue_lagoon.GovernedActions.Store.History.{
  Operation, attach, run_all, row_of, Kept, run_all-Kept,
}
use blue_lagoon.GovernedActions.Plan.{
  PolicyError, plan_governed_action, planning_status, proposal_from_record,
  validate_governed_action_policy,
}
use blue_lagoon.GovernedActions.Plan.Outcome.{row_for, store_for}
use blue_lagoon.GovernedActions.Plan.Admission.{
  Admitted, plan_governed_action-Admitted, recheck_agrees_with_planning,
}
use blue_lagoon.Tests.Samples.{config, proposal, scope, execution_row}

abbrev url_scheme : Text → Option Text
url_scheme url = some (codes "https")

abbrev digest : CanonicalGovernedActionFingerprintInput → Text
digest input = input.action_kind

abbrev message : PolicyError → Text
message e = codes "refused"

abbrev boundaries : Option (List Text)
boundaries = some (codes "be kind" ∷ [])

abbrev request : GovernedActionPlanningRequest
request = record {
  governed_action_execution_id = 18;
  trace_id = 1;
  execution_id = some 2;
  proposal = proposal;
}

abbrev before : ActionStore
before = record { executions = execution_row ∷ []; causal_links = []; audit = [] }

abbrev row : GovernedActionExecutionRecord
row = row_for url_scheme digest message 100 config boundaries request none

abbrev after : ActionStore
after = store_for url_scheme digest message 100 config boundaries request none before

subprocess_is_planned :
    plan_governed_action url_scheme digest message 100 config boundaries request before
    ≡ (ok (planned row true), after)
unfolding plan_governed_action validate_subprocess_action check_roots check_execution
    check_environment check_payload_scope boundary_blocks_network boundary_blocks_subprocess
    boundary_blocks_workspace_writes
subprocess_is_planned = refl

plan_governed_action-Admitted_example :
    (validate_proposal_shape proposal ≡ ok tt)
    × Admitted url_scheme digest message config boundaries proposal
    × (true ≡ governed_action_requires_approval config (classify_governed_action_risk proposal))
    × (after.executions ≡ row ∷ execution_row ∷ [])
    × (row.status ≡ planning_status none true)
plan_governed_action-Admitted_example =
    plan_governed_action-Admitted url_scheme digest message config boundaries 100 request before
      after row true subprocess_is_planned

scope_is_accepted : validate_capability_scope url_scheme config proposal ≡ ok tt
unfolding validate_capability_scope check_roots check_execution check_environment
    check_payload_scope validate_subprocess_action
scope_is_accepted = refl

validate_capability_scope_guarantees_example :
    RootsAllowed config proposal
    × (runs_a_program proposal.action_kind ≡ true → ExecutionAllowed config scope)
    × VariablesAllowed config scope
    × PayloadAllowed url_scheme config scope proposal.action_kind proposal.payload
validate_capability_scope_guarantees_example =
    validate_capability_scope_guarantees url_scheme config proposal scope_is_accepted

-- The same action under another title, with a padded root.
abbrev retitled : GovernedActionProposal
retitled = record proposal {
  title = codes "Build";
  capability_scope = record scope {
    filesystem = record { read_roots = codes " . " ∷ codes "." ∷ []; write_roots = codes "." ∷ [] };
  };
}

same_input : canonical_input proposal ≡ canonical_input retitled
unfolding canonical_input
same_input = refl

fingerprint_iff_example :
    (fingerprint_governed_action digest proposal ≡ fingerprint_governed_action digest retitled)
    ↔ SameAction proposal retitled
fingerprint_iff_example = fingerprint_iff digest proposal retitled (λ h. same_input)

abbrev operations : List Operation
operations = attach 130 17 7 ∷ attach 140 99 7 ∷ []

row_is_there : row_of 17 before ≡ some execution_row
unfolding find
row_is_there = refl

run_all-Kept_example : Kept execution_row (row_of 17 (run_all operations before))
run_all-Kept_example = run_all-Kept operations 17 before execution_row row_is_there

abbrev id_text : ℕ → Text
id_text n = codes "id"

recheck_agrees_with_planning_example :
    (validate_governed_action_policy url_scheme digest message config boundaries
        (proposal_from_record id_text row)
      ≡ validate_governed_action_policy url_scheme digest message config boundaries proposal)
    × (classify_governed_action_risk (proposal_from_record id_text row) ≡ row.risk_tier)
    × (fingerprint_governed_action digest (proposal_from_record id_text row)
        ≡ row.action_fingerprint)
recheck_agrees_with_planning_example =
    recheck_agrees_with_planning url_scheme digest message config boundaries id_text 100 request
      none
