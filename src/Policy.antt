-- ===== src/Policy.antt =====
-- crates/harness/src/policy.rs: budgets, the decision on a Telegram trigger, the risk tier of a
-- governed action and when it needs an approval. `Boundaries` holds the decision on the identity
-- boundaries and `Wake` the decision on a wake signal; the other children hold the proofs.
pub mod Boundaries
pub mod Wake
pub mod Budget
pub mod Telegram
pub mod Risk
use blue_lagoon.Base.{
  ℕ, ◌+◌, Bool, true, false, not, ◌&&◌, ◌||◌, Option, none, some, Text, ltb, leb, ◌==◌,
  if◌then◌else◌, is_some, is_empty, min, is_blank, text_eq, int_to_text, Result, ok, err, bail_if,
  ◌>>=◌, ◌>>◌,
}
use blue_lagoon.Contracts.Action.{
  GovernedActionRiskTier, tier0, tier1, tier2, tier3, NetworkAccessPosture, disabled,
  GovernedActionKind, GovernedActionProposal,
}
use blue_lagoon.Contracts.Ingress.{
  IngressEventKind, message_created, command_issued, approval_callback, NormalizedIngress,
  ForegroundBudget, BackgroundExecutionBudget,
}
use blue_lagoon.Config.{RuntimeConfig, ResolvedTelegramConfig, ResolvedForegroundModelRouteConfig}
use blue_lagoon.Config.Validate.{tier_rank}

pub data DenialReason : Type 0 where
  actor_outside_boundary conversation_outside_boundary : DenialReason
  principal_mismatch internal_conversation_mismatch : DenialReason
  approval_payload_missing text_body_missing synthetic_smoke_disabled : DenialReason
  network_boundary subprocess_boundary workspace_write_boundary : (boundary : Text) → DenialReason

pub data PolicyDecision : Type 0 where
  allowed : PolicyDecision
  denied : (reason : DenialReason) → PolicyDecision

abbrev pub foreground_worker_timeout_grace_ms : ℕ
foreground_worker_timeout_grace_ms = 5000

abbrev pub u64_max : ℕ
u64_max = 18446744073709551615

-- `u64::saturating_add`
abbrev pub saturating_add : ℕ → ℕ → ℕ
saturating_add a b = min (a + b) u64_max

unfoldable pub default_foreground_budget : RuntimeConfig → ForegroundBudget
default_foreground_budget config = record {
  iteration_budget = config.harness.default_foreground_iteration_budget;
  wall_clock_budget_ms = config.harness.default_wall_clock_budget_ms;
  token_budget = config.harness.default_foreground_token_budget;
}

unfoldable pub default_background_budget : RuntimeConfig → BackgroundExecutionBudget
default_background_budget config = record {
  iteration_budget = config.background.execution.default_iteration_budget;
  wall_clock_budget_ms = config.background.execution.default_wall_clock_budget_ms;
  token_budget = config.background.execution.default_token_budget;
}

pub record ExecutionBudget : Type 0 where
  pub wall_clock_budget_ms : ℕ

unfoldable pub default_budget : RuntimeConfig → ExecutionBudget
default_budget config = record {
  wall_clock_budget_ms = config.harness.default_wall_clock_budget_ms;
}

unfoldable pub effective_foreground_model_timeout_ms :
    RuntimeConfig → ResolvedForegroundModelRouteConfig → ℕ
effective_foreground_model_timeout_ms config foreground =
    min config.harness.default_wall_clock_budget_ms foreground.timeout_ms

unfoldable pub effective_foreground_worker_timeout_ms : RuntimeConfig → ℕ
effective_foreground_worker_timeout_ms config =
    saturating_add config.harness.default_wall_clock_budget_ms foreground_worker_timeout_grace_ms

pub data BudgetError : Type 0 where
  iteration_budget_zero wall_clock_budget_zero token_budget_zero : BudgetError

unfoldable pub validate_budget : ExecutionBudget → Result BudgetError (Unit {0})
validate_budget budget = bail_if (budget.wall_clock_budget_ms == 0) wall_clock_budget_zero

unfoldable pub validate_foreground_budget : ForegroundBudget → Result BudgetError (Unit {0})
validate_foreground_budget budget = do
  bail_if (budget.iteration_budget == 0) iteration_budget_zero
  bail_if (budget.wall_clock_budget_ms == 0) wall_clock_budget_zero
  bail_if (budget.token_budget == 0) token_budget_zero

unfoldable pub validate_background_budget :
    BackgroundExecutionBudget → Result BudgetError (Unit {0})
validate_background_budget budget = do
  bail_if (budget.iteration_budget == 0) iteration_budget_zero
  bail_if (budget.wall_clock_budget_ms == 0) wall_clock_budget_zero
  bail_if (budget.token_budget == 0) token_budget_zero

abbrev has_text : Option Text → Bool
has_text none = false
has_text (some text) = not (is_blank text)

-- The `match` on the kind of the event, at the end of `evaluate_telegram_foreground_trigger`.
unfoldable pub evaluate_event_kind : IngressEventKind → NormalizedIngress → PolicyDecision
evaluate_event_kind approval_callback ingress =
    if is_some ingress.approval_payload then allowed else denied approval_payload_missing
evaluate_event_kind message_created ingress =
    if has_text ingress.text_body then allowed else denied text_body_missing
evaluate_event_kind command_issued ingress =
    if has_text ingress.text_body then allowed else denied text_body_missing

unfoldable pub evaluate_telegram_foreground_trigger :
    ResolvedTelegramConfig → NormalizedIngress → PolicyDecision
unfolding evaluate_event_kind
evaluate_telegram_foreground_trigger config ingress =
    if not (text_eq ingress.external_user_id (int_to_text config.allowed_user_id))
    then denied actor_outside_boundary
    else if not (text_eq ingress.external_conversation_id (int_to_text config.allowed_chat_id))
    then denied conversation_outside_boundary
    else if not (text_eq ingress.internal_principal_ref config.internal_principal_ref)
    then denied principal_mismatch
    else if not (text_eq ingress.internal_conversation_ref config.internal_conversation_ref)
    then denied internal_conversation_mismatch
    else evaluate_event_kind ingress.event_kind ingress

unfoldable pub evaluate_synthetic_smoke : RuntimeConfig → PolicyDecision
evaluate_synthetic_smoke config =
    if config.harness.allow_synthetic_smoke then allowed else denied synthetic_smoke_disabled

abbrev pub is_disabled : NetworkAccessPosture → Bool
is_disabled disabled = true
is_disabled _ = false

abbrev pub has_network : GovernedActionProposal → Bool
has_network proposal = not (is_disabled proposal.capability_scope.network)

abbrev pub has_write_scope : GovernedActionProposal → Bool
has_write_scope proposal = not (is_empty proposal.capability_scope.filesystem.write_roots)

abbrev pub has_env_scope : GovernedActionProposal → Bool
has_env_scope proposal = not (is_empty proposal.capability_scope.environment.allow_variables)

-- The tier of a subprocess or of a workspace script, by what its scope reaches.
abbrev execution_tier : (network write env : Bool) → GovernedActionRiskTier
execution_tier network write env =
    if network && write then tier3 else if network || write || env then tier2 else tier1

unfoldable pub intrinsic_risk : GovernedActionKind → GovernedActionProposal → GovernedActionRiskTier
intrinsic_risk GovernedActionKind.inspect_workspace_artifact p = tier0
intrinsic_risk GovernedActionKind.list_workspace_artifacts p = tier0
intrinsic_risk GovernedActionKind.list_workspace_scripts p = tier0
intrinsic_risk GovernedActionKind.inspect_workspace_script p = tier0
intrinsic_risk GovernedActionKind.list_workspace_script_runs p = tier0
intrinsic_risk GovernedActionKind.run_diagnostic p = tier0
intrinsic_risk GovernedActionKind.create_workspace_artifact p = tier1
intrinsic_risk GovernedActionKind.update_workspace_artifact p = tier1
intrinsic_risk GovernedActionKind.request_background_job p = tier1
intrinsic_risk GovernedActionKind.create_workspace_script p = tier2
intrinsic_risk GovernedActionKind.append_workspace_script_version p = tier2
intrinsic_risk GovernedActionKind.upsert_scheduled_foreground_task p = tier2
intrinsic_risk GovernedActionKind.web_fetch p = tier2
intrinsic_risk GovernedActionKind.run_subprocess p =
    execution_tier (has_network p) (has_write_scope p) (has_env_scope p)
intrinsic_risk GovernedActionKind.run_workspace_script p =
    execution_tier (has_network p) (has_write_scope p) (has_env_scope p)

-- `requested.filter(|requested| *requested > intrinsic).unwrap_or(intrinsic)`
abbrev raise_to : Option GovernedActionRiskTier → GovernedActionRiskTier → GovernedActionRiskTier
raise_to none intrinsic = intrinsic
raise_to (some requested) intrinsic =
    if ltb (tier_rank intrinsic) (tier_rank requested) then requested else intrinsic

unfoldable pub classify_governed_action_risk : GovernedActionProposal → GovernedActionRiskTier
unfolding intrinsic_risk
classify_governed_action_risk proposal =
    raise_to proposal.requested_risk_tier (intrinsic_risk proposal.action_kind proposal)

unfoldable pub governed_action_requires_approval : RuntimeConfig → GovernedActionRiskTier → Bool
governed_action_requires_approval config risk_tier =
    leb (tier_rank config.governed_actions.approval_required_min_risk_tier) (tier_rank risk_tier)
