-- ===== src/Config/Valid.antt =====
-- What `RuntimeConfig::validate` of crates/harness/src/config.rs asks of the settings, section by
-- section.
use blue_lagoon.Base.{
  ◌≤◌, ◌<◌, ◌≡◌, pos, true, false, ◌&&◌, Option, none, some, All, is_empty, is_blank, int_eq,
  length, min,
}
use blue_lagoon.Contracts.Action.{enabled}
use blue_lagoon.Config.{
  ScheduledForegroundConfig, BackgroundConfig, ContinuityConfig, WorkspaceConfig, ApprovalsConfig,
  GovernedActionsConfig, TelegramConfig, TelegramForegroundBindingConfig, ModelGatewayConfig,
  RuntimeConfig,
}
use blue_lagoon.Config.Validate.{
  tier_rank, is_not_positive, is_valid_env_var_name, lacks_z_ai_route, has_blank_z_ai_url,
  is_none_or_blank,
}

pub record ScheduledIsValid (c : ScheduledForegroundConfig) : Type 0 where
  pub tasks : 0 < c.max_due_tasks_per_iteration
  pub cadence : 0 < c.min_cadence_seconds
  pub cooldown : 0 < c.default_cooldown_seconds

pub record BackgroundIsValid (c : BackgroundConfig) : Type 0 where
  pub poll : 0 < c.scheduler.poll_interval_seconds
  pub due_jobs : 0 < c.scheduler.max_due_jobs_per_iteration
  pub lease : 0 < c.scheduler.lease_timeout_ms
  pub episodes : 0 < c.thresholds.episode_backlog_threshold
  pub memories : 0 < c.thresholds.candidate_memory_threshold
  pub contradictions : 0 < c.thresholds.contradiction_alert_threshold
  pub iterations : 0 < c.execution.default_iteration_budget
  pub wall_clock : 0 < c.execution.default_wall_clock_budget_ms
  pub tokens : 0 < c.execution.default_token_budget
  pub signals : 0 < c.wake_signals.max_pending_signals
  pub cooldown : 0 < c.wake_signals.cooldown_seconds

pub record ContinuityIsValid (c : ContinuityConfig) : Type 0 where
  pub episodes : 0 < c.retrieval.max_recent_episode_candidates
  pub memories : 0 < c.retrieval.max_memory_artifact_candidates
  pub items :
      min c.retrieval.max_recent_episode_candidates c.retrieval.max_memory_artifact_candidates
      ≤ c.retrieval.max_context_items
  pub backlog : 2 ≤ c.backlog_recovery.pending_message_count_threshold
  pub span : 0 < c.backlog_recovery.pending_message_span_seconds_threshold
  pub age : 0 < c.backlog_recovery.stale_pending_ingress_age_seconds_threshold
  pub batch :
      c.backlog_recovery.pending_message_count_threshold
      ≤ c.backlog_recovery.max_recovery_batch_size

pub record WorkspaceIsValid (c : WorkspaceConfig) : Type 0 where
  pub root : is_empty c.root_dir ≡ false
  pub scripts : 0 < c.max_script_bytes
  pub order : c.max_script_bytes ≤ c.max_artifact_bytes

pub record ApprovalsIsValid (c : ApprovalsConfig) : Type 0 where
  pub ttl : 0 < c.default_ttl_seconds
  pub pending : 0 < c.max_pending_requests

pub record ActionsIsValid (c : GovernedActionsConfig) : Type 0 where
  pub timeout_positive : 0 < c.default_subprocess_timeout_ms
  pub timeout_order : c.default_subprocess_timeout_ms ≤ c.max_subprocess_timeout_ms
  pub turn : 0 < c.max_actions_per_foreground_turn
  pub roots : 0 < c.max_filesystem_roots_per_action
  pub variables : 0 < c.max_environment_variables_per_action
  pub output : 0 < c.max_captured_output_bytes
  pub allowlist_length :
      length c.allowlisted_environment_variables ≤ c.max_environment_variables_per_action
  pub allowlist_names :
      All (λ name. is_valid_env_var_name name ≡ true) c.allowlisted_environment_variables
  pub network : c.default_network_access ≡ enabled → 2 ≤ tier_rank c.approval_required_min_risk_tier

-- `if let Some(value)`
abbrev pub IfSome {ℓ} : {A : Type ℓ} → (A → Type 0) → Option A → Type 0
IfSome p none = Unit {0}
IfSome p (some a) = p a

pub record BindingIsValid (c : TelegramForegroundBindingConfig) : Type 0 where
  pub user : int_eq c.allowed_user_id (pos 0) ≡ false
  pub chat : int_eq c.allowed_chat_id (pos 0) ≡ false
  pub principal : is_blank c.internal_principal_ref ≡ false
  pub conversation : is_blank c.internal_conversation_ref ≡ false

pub record TelegramIsValid (c : TelegramConfig) : Type 0 where
  pub url : is_blank c.api_base_url ≡ false
  pub token_env : is_blank c.bot_token_env ≡ false
  pub limit : 0 < c.poll_limit
  pub binding : IfSome BindingIsValid c.foreground_binding

pub record GatewayIsValid (c : ModelGatewayConfig) : Type 0 where
  pub model : is_blank c.foreground.model ≡ false
  pub route :
      (is_none_or_blank c.foreground.api_base_url && lacks_z_ai_route c.z_ai_provider) ≡ false
  pub key_env : is_blank c.foreground.api_key_env ≡ false
  pub timeout : 0 < c.foreground.timeout_ms
  pub url : has_blank_z_ai_url c.z_ai_provider ≡ false

pub record IsValid (c : RuntimeConfig) : Type 0 where
  pub name : is_blank c.app.name ≡ false
  pub log_filter : is_blank c.app.log_filter ≡ false
  pub schema : is_not_positive c.database.minimum_supported_schema_version ≡ false
  pub wall_clock : 0 < c.harness.default_wall_clock_budget_ms
  pub iterations : 0 < c.harness.default_foreground_iteration_budget
  pub tokens : 0 < c.harness.default_foreground_token_budget
  pub scheduled : ScheduledIsValid c.scheduled_foreground
  pub background : BackgroundIsValid c.background
  pub continuity : ContinuityIsValid c.continuity
  pub workspace : WorkspaceIsValid c.workspace
  pub retention : 0 < c.observability.model_call_payload_retention_days
  pub approvals : ApprovalsIsValid c.approvals
  pub actions : ActionsIsValid c.governed_actions
  pub worker : 0 < c.worker.timeout_ms
  pub telegram : IfSome TelegramIsValid c.telegram
  pub gateway : IfSome GatewayIsValid c.model_gateway
  pub self_model : IfSome (λ m. is_empty m.seed_path ≡ false) c.self_model
