-- ===== src/Config.antt =====
-- The configuration records of crates/harness/src/config.rs. A path is its text.
-- The children hold the validation and what it asks of the settings.
pub mod Validate
pub mod Valid
pub mod Guarantees
use blue_lagoon.Base.{ℕ, ℤ, Bool, Option, List, Text}
use blue_lagoon.Contracts.Action.{GovernedActionRiskTier, NetworkAccessPosture}

pub record AppConfig : Type 0 where
  pub name : Text
  pub log_filter : Text

pub record DatabaseConfig : Type 0 where
  pub database_url : Text
  pub minimum_supported_schema_version : ℤ

pub record HarnessConfig : Type 0 where
  pub allow_synthetic_smoke : Bool
  pub default_foreground_iteration_budget : ℕ
  pub default_wall_clock_budget_ms : ℕ
  pub default_foreground_token_budget : ℕ

pub record ScheduledForegroundConfig : Type 0 where
  pub is_enabled : Bool
  pub max_due_tasks_per_iteration : ℕ
  pub min_cadence_seconds : ℕ
  pub default_cooldown_seconds : ℕ

pub record BackgroundSchedulerConfig : Type 0 where
  pub poll_interval_seconds : ℕ
  pub max_due_jobs_per_iteration : ℕ
  pub lease_timeout_ms : ℕ

pub record BackgroundThresholdsConfig : Type 0 where
  pub episode_backlog_threshold : ℕ
  pub candidate_memory_threshold : ℕ
  pub contradiction_alert_threshold : ℕ

pub record BackgroundExecutionConfig : Type 0 where
  pub default_iteration_budget : ℕ
  pub default_wall_clock_budget_ms : ℕ
  pub default_token_budget : ℕ

pub record WakeSignalPolicyConfig : Type 0 where
  pub allow_foreground_conversion : Bool
  pub max_pending_signals : ℕ
  pub cooldown_seconds : ℕ

pub record BackgroundConfig : Type 0 where
  pub scheduler : BackgroundSchedulerConfig
  pub thresholds : BackgroundThresholdsConfig
  pub execution : BackgroundExecutionConfig
  pub wake_signals : WakeSignalPolicyConfig

pub record RetrievalConfig : Type 0 where
  pub max_recent_episode_candidates : ℕ
  pub max_memory_artifact_candidates : ℕ
  pub max_context_items : ℕ

pub record BacklogRecoveryConfig : Type 0 where
  pub pending_message_count_threshold : ℕ
  pub pending_message_span_seconds_threshold : ℕ
  pub stale_pending_ingress_age_seconds_threshold : ℕ
  pub max_recovery_batch_size : ℕ

pub record ContinuityConfig : Type 0 where
  pub retrieval : RetrievalConfig
  pub backlog_recovery : BacklogRecoveryConfig

pub record WorkspaceConfig : Type 0 where
  pub root_dir : Text
  pub max_artifact_bytes : ℕ
  pub max_script_bytes : ℕ

pub record ObservabilityConfig : Type 0 where
  pub model_call_payload_retention_days : ℕ

pub data ApprovalPromptMode : Type 0 where
  inline_keyboard inline_keyboard_with_fallback : ApprovalPromptMode

pub record ApprovalsConfig : Type 0 where
  pub default_ttl_seconds : ℕ
  pub max_pending_requests : ℕ
  pub allow_cli_resolution : Bool
  pub prompt_mode : ApprovalPromptMode

pub data GovernedActionCapExceededBehavior : Type 0 where
  escalate always_approve always_deny : GovernedActionCapExceededBehavior

pub record GovernedActionsConfig : Type 0 where
  pub approval_required_min_risk_tier : GovernedActionRiskTier
  pub default_subprocess_timeout_ms : ℕ
  pub max_subprocess_timeout_ms : ℕ
  pub max_actions_per_foreground_turn : ℕ
  pub cap_exceeded_behavior : GovernedActionCapExceededBehavior
  pub max_filesystem_roots_per_action : ℕ
  pub default_network_access : NetworkAccessPosture
  pub allowlisted_environment_variables : List Text
  pub max_environment_variables_per_action : ℕ
  pub max_captured_output_bytes : ℕ
  pub max_web_fetch_timeout_ms : ℕ
  pub max_web_fetch_response_bytes : ℕ

pub record WorkerConfig : Type 0 where
  pub timeout_ms : ℕ
  pub command : Text
  pub args : List Text

pub record TelegramForegroundBindingConfig : Type 0 where
  pub allowed_user_id : ℤ
  pub allowed_chat_id : ℤ
  pub internal_principal_ref : Text
  pub internal_conversation_ref : Text

pub record TelegramConfig : Type 0 where
  pub api_base_url : Text
  pub bot_token_env : Text
  pub poll_limit : ℕ
  pub foreground_binding : Option TelegramForegroundBindingConfig

pub record ResolvedTelegramConfig : Type 0 where
  pub api_base_url : Text
  pub bot_token : Text
  pub allowed_user_id : ℤ
  pub allowed_chat_id : ℤ
  pub internal_principal_ref : Text
  pub internal_conversation_ref : Text
  pub poll_limit : ℕ

pub data ModelProviderKind : Type 0 where
  z_ai : ModelProviderKind

pub data ZAiApiSurface : Type 0 where
  general coding : ZAiApiSurface

pub record ZAiProviderConfig : Type 0 where
  pub api_surface : Option ZAiApiSurface
  pub api_base_url : Option Text

pub record ForegroundModelRouteConfig : Type 0 where
  pub provider : ModelProviderKind
  pub model : Text
  pub api_base_url : Option Text
  pub api_key_env : Text
  pub timeout_ms : ℕ

pub record ModelGatewayConfig : Type 0 where
  pub foreground : ForegroundModelRouteConfig
  pub z_ai_provider : Option ZAiProviderConfig

pub record ResolvedForegroundModelRouteConfig : Type 0 where
  pub provider : ModelProviderKind
  pub model : Text
  pub api_base_url : Text
  pub api_key : Text
  pub timeout_ms : ℕ

pub record SelfModelConfig : Type 0 where
  pub seed_path : Text

pub record RuntimeConfig : Type 0 where
  pub app : AppConfig
  pub database : DatabaseConfig
  pub harness : HarnessConfig
  pub scheduled_foreground : ScheduledForegroundConfig
  pub background : BackgroundConfig
  pub continuity : ContinuityConfig
  pub workspace : WorkspaceConfig
  pub observability : ObservabilityConfig
  pub approvals : ApprovalsConfig
  pub governed_actions : GovernedActionsConfig
  pub worker : WorkerConfig
  pub telegram : Option TelegramConfig
  pub model_gateway : Option ModelGatewayConfig
  pub self_model : Option SelfModelConfig
