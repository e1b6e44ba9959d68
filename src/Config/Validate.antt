-- ===== src/Config/Validate.antt =====
-- `RuntimeConfig::validate` and the `validate` of each section, of crates/harness/src/config.rs.
-- Each `bail!` is an error of its own, named after the setting that its message names.
use blue_lagoon.Base.{
  ℕ, ℤ, pos, negsuc, Bool, true, false, not, ◌&&◌, ◌||◌, Option, none, some, List, [], ◌∷◌, Text,
  ltb, leb, ◌==◌, if◌then◌else◌, is_none, all, length, is_empty, min, is_blank, int_eq, Result, ok,
  err, bail_if, ◌>>◌,
}
use blue_lagoon.Contracts.Action.{
  GovernedActionRiskTier, tier0, tier1, tier2, tier3, NetworkAccessPosture, enabled,
}
use blue_lagoon.Config.{
  ScheduledForegroundConfig, BackgroundSchedulerConfig, BackgroundThresholdsConfig,
  BackgroundExecutionConfig, WakeSignalPolicyConfig, BackgroundConfig, RetrievalConfig,
  BacklogRecoveryConfig, ContinuityConfig, WorkspaceConfig, ObservabilityConfig, ApprovalsConfig,
  GovernedActionsConfig, TelegramForegroundBindingConfig, TelegramConfig, ZAiProviderConfig,
  ModelGatewayConfig, SelfModelConfig, RuntimeConfig,
}

pub data ConfigError : Type 0 where
  app_name app_log_filter minimum_supported_schema_version : ConfigError
  wall_clock_budget foreground_iteration_budget foreground_token_budget : ConfigError
  max_due_tasks min_cadence default_cooldown : ConfigError
  poll_interval max_due_jobs lease_timeout : ConfigError
  episode_backlog candidate_memory contradiction_alert : ConfigError
  background_iteration_budget background_wall_clock_budget background_token_budget : ConfigError
  max_pending_signals wake_cooldown : ConfigError
  episode_candidates memory_candidates context_items context_items_too_small : ConfigError
  pending_count_threshold pending_span_threshold stale_age_threshold : ConfigError
  recovery_batch_size recovery_batch_too_small : ConfigError
  root_dir max_artifact_bytes max_script_bytes script_exceeds_artifact : ConfigError
  payload_retention_days approval_ttl max_pending_requests : ConfigError
  default_subprocess_timeout max_subprocess_timeout subprocess_timeout_order : ConfigError
  max_actions_per_turn max_filesystem_roots max_environment_variables : ConfigError
  max_captured_output allowlist_too_long : ConfigError
  invalid_environment_variable : (variable : Text) → ConfigError
  network_needs_approval worker_timeout : ConfigError
  telegram_api_base_url telegram_bot_token_env telegram_poll_limit : ConfigError
  allowed_user_id allowed_chat_id internal_principal_ref internal_conversation_ref : ConfigError
  gateway_model gateway_api_base_url gateway_api_key_env gateway_timeout : ConfigError
  z_ai_api_base_url self_model_seed_path : ConfigError

abbrev pub Check : Type 0
Check = Result ConfigError (Unit {0})

-- The order that `GovernedActionRiskTier` derives.
abbrev pub tier_rank : GovernedActionRiskTier → ℕ
tier_rank tier0 = 0
tier_rank tier1 = 1
tier_rank tier2 = 2
tier_rank tier3 = 3

-- `value <= 0` on an `i64`
abbrev pub is_not_positive : ℤ → Bool
is_not_positive (pos n) = n == 0
is_not_positive (negsuc n) = true

abbrev pub is_enabled_posture : NetworkAccessPosture → Bool
is_enabled_posture enabled = true
is_enabled_posture _ = false

unfoldable pub validate_workspace : WorkspaceConfig → Check
validate_workspace c = do
  bail_if (is_empty c.root_dir) root_dir
  bail_if (c.max_artifact_bytes == 0) max_artifact_bytes
  bail_if (c.max_script_bytes == 0) max_script_bytes
  bail_if (ltb c.max_artifact_bytes c.max_script_bytes) script_exceeds_artifact

unfoldable pub validate_observability : ObservabilityConfig → Check
validate_observability c = bail_if (c.model_call_payload_retention_days == 0) payload_retention_days

unfoldable pub validate_approvals : ApprovalsConfig → Check
validate_approvals c = do
  bail_if (c.default_ttl_seconds == 0) approval_ttl
  bail_if (c.max_pending_requests == 0) max_pending_requests

-- Upper-case ASCII letters, digits and `_`.
abbrev pub is_env_var_char : ℕ → Bool
is_env_var_char c = (leb b'A' c && leb c b'Z') || (leb b'0' c && leb c b'9') || c == b'_'

unfoldable pub is_valid_env_var_name : Text → Bool
unfolding all
is_valid_env_var_name value = not (is_empty value) && all is_env_var_char value

-- The `for` loop over the allowlist stops at the first invalid name.
unfoldable pub check_allowlist : List Text → Check
unfolding is_valid_env_var_name
check_allowlist [] = ok tt
check_allowlist (variable ∷ rest) =
    if is_valid_env_var_name variable
    then check_allowlist rest
    else err (invalid_environment_variable variable)

unfoldable pub validate_governed_actions : GovernedActionsConfig → Check
validate_governed_actions c = do
  bail_if (c.default_subprocess_timeout_ms == 0) default_subprocess_timeout
  bail_if (c.max_subprocess_timeout_ms == 0) max_subprocess_timeout
  bail_if (ltb c.max_subprocess_timeout_ms c.default_subprocess_timeout_ms) subprocess_timeout_order
  bail_if (c.max_actions_per_foreground_turn == 0) max_actions_per_turn
  bail_if (c.max_filesystem_roots_per_action == 0) max_filesystem_roots
  bail_if (c.max_environment_variables_per_action == 0) max_environment_variables
  bail_if (c.max_captured_output_bytes == 0) max_captured_output
  bail_if (ltb c.max_environment_variables_per_action (length c.allowlisted_environment_variables))
      allowlist_too_long
  check_allowlist c.allowlisted_environment_variables
  bail_if
      (is_enabled_posture c.default_network_access
        && ltb (tier_rank c.approval_required_min_risk_tier) 2)
      network_needs_approval

unfoldable pub validate_transport : TelegramConfig → Check
validate_transport c = do
  bail_if (is_blank c.api_base_url) telegram_api_base_url
  bail_if (is_blank c.bot_token_env) telegram_bot_token_env
  bail_if (c.poll_limit == 0) telegram_poll_limit

unfoldable pub validate_binding : TelegramForegroundBindingConfig → Check
validate_binding c = do
  bail_if (int_eq c.allowed_user_id (pos 0)) allowed_user_id
  bail_if (int_eq c.allowed_chat_id (pos 0)) allowed_chat_id
  bail_if (is_blank c.internal_principal_ref) internal_principal_ref
  bail_if (is_blank c.internal_conversation_ref) internal_conversation_ref

-- `if let Some(value) = value { check(value)? }`
abbrev pub check_option {ℓ} : {A : Type ℓ} → (A → Check) → Option A → Check
check_option check none = ok tt
check_option check (some a) = check a

unfoldable pub validate_telegram : TelegramConfig → Check
unfolding validate_transport validate_binding
validate_telegram c = do validate_transport c; check_option validate_binding c.foreground_binding

-- `as_deref().is_none_or(|value| value.trim().is_empty())` and its `is_some_and` form
abbrev pub is_none_or_blank : Option Text → Bool
is_none_or_blank none = true
is_none_or_blank (some value) = is_blank value

abbrev pub is_some_and_blank : Option Text → Bool
is_some_and_blank none = false
is_some_and_blank (some value) = is_blank value

abbrev pub lacks_z_ai_route : Option ZAiProviderConfig → Bool
lacks_z_ai_route none = true
lacks_z_ai_route (some z) = is_none_or_blank z.api_base_url && is_none z.api_surface

abbrev pub has_blank_z_ai_url : Option ZAiProviderConfig → Bool
has_blank_z_ai_url none = false
has_blank_z_ai_url (some z) = is_some_and_blank z.api_base_url

-- `ZAi` is the only provider, so the test of the provider is always true.
unfoldable pub validate_model_gateway : ModelGatewayConfig → Check
validate_model_gateway c = do
  bail_if (is_blank c.foreground.model) gateway_model
  bail_if (is_none_or_blank c.foreground.api_base_url && lacks_z_ai_route c.z_ai_provider)
      gateway_api_base_url
  bail_if (is_blank c.foreground.api_key_env) gateway_api_key_env
  bail_if (c.foreground.timeout_ms == 0) gateway_timeout
  bail_if (has_blank_z_ai_url c.z_ai_provider) z_ai_api_base_url

unfoldable pub validate_scheduled_foreground : ScheduledForegroundConfig → Check
validate_scheduled_foreground c = do
  bail_if (c.max_due_tasks_per_iteration == 0) max_due_tasks
  bail_if (c.min_cadence_seconds == 0) min_cadence
  bail_if (c.default_cooldown_seconds == 0) default_cooldown

unfoldable pub validate_scheduler : BackgroundSchedulerConfig → Check
validate_scheduler c = do
  bail_if (c.poll_interval_seconds == 0) poll_interval
  bail_if (c.max_due_jobs_per_iteration == 0) max_due_jobs
  bail_if (c.lease_timeout_ms == 0) lease_timeout

unfoldable pub validate_thresholds : BackgroundThresholdsConfig → Check
validate_thresholds c = do
  bail_if (c.episode_backlog_threshold == 0) episode_backlog
  bail_if (c.candidate_memory_threshold == 0) candidate_memory
  bail_if (c.contradiction_alert_threshold == 0) contradiction_alert

unfoldable pub validate_execution : BackgroundExecutionConfig → Check
validate_execution c = do
  bail_if (c.default_iteration_budget == 0) background_iteration_budget
  bail_if (c.default_wall_clock_budget_ms == 0) background_wall_clock_budget
  bail_if (c.default_token_budget == 0) background_token_budget

unfoldable pub validate_wake_signals : WakeSignalPolicyConfig → Check
validate_wake_signals c = do
  bail_if (c.max_pending_signals == 0) max_pending_signals
  bail_if (c.cooldown_seconds == 0) wake_cooldown

unfoldable pub validate_background : BackgroundConfig → Check
unfolding validate_scheduler validate_thresholds validate_execution validate_wake_signals
validate_background c = do
  validate_scheduler c.scheduler
  validate_thresholds c.thresholds
  validate_execution c.execution
  validate_wake_signals c.wake_signals

unfoldable pub validate_retrieval : RetrievalConfig → Check
validate_retrieval c = do
  bail_if (c.max_recent_episode_candidates == 0) episode_candidates
  bail_if (c.max_memory_artifact_candidates == 0) memory_candidates
  bail_if (c.max_context_items == 0) context_items
  bail_if
      (ltb c.max_context_items
        (min c.max_recent_episode_candidates c.max_memory_artifact_candidates))
      context_items_too_small

unfoldable pub validate_backlog_recovery : BacklogRecoveryConfig → Check
validate_backlog_recovery c = do
  bail_if (ltb c.pending_message_count_threshold 2) pending_count_threshold
  bail_if (c.pending_message_span_seconds_threshold == 0) pending_span_threshold
  bail_if (c.stale_pending_ingress_age_seconds_threshold == 0) stale_age_threshold
  bail_if (c.max_recovery_batch_size == 0) recovery_batch_size
  bail_if (ltb c.max_recovery_batch_size c.pending_message_count_threshold) recovery_batch_too_small

unfoldable pub validate_continuity : ContinuityConfig → Check
unfolding validate_retrieval validate_backlog_recovery
validate_continuity c = do
  validate_retrieval c.retrieval
  validate_backlog_recovery c.backlog_recovery

unfoldable pub validate_self_model : SelfModelConfig → Check
validate_self_model c = bail_if (is_empty c.seed_path) self_model_seed_path

unfoldable pub validate : RuntimeConfig → Check
validate c = do
  bail_if (is_blank c.app.name) app_name
  bail_if (is_blank c.app.log_filter) app_log_filter
  bail_if (is_not_positive c.database.minimum_supported_schema_version)
      minimum_supported_schema_version
  bail_if (c.harness.default_wall_clock_budget_ms == 0) wall_clock_budget
  bail_if (c.harness.default_foreground_iteration_budget == 0) foreground_iteration_budget
  bail_if (c.harness.default_foreground_token_budget == 0) foreground_token_budget
  validate_scheduled_foreground c.scheduled_foreground
  validate_background c.background
  validate_continuity c.continuity
  validate_workspace c.workspace
  validate_observability c.observability
  validate_approvals c.approvals
  validate_governed_actions c.governed_actions
  bail_if (c.worker.timeout_ms == 0) worker_timeout
  check_option validate_telegram c.telegram
  check_option validate_model_gateway c.model_gateway
  check_option validate_self_model c.self_model
