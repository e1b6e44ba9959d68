-- ===== src/Tests/Samples.antt =====
-- A configuration, a proposal and an approval request to try the components on.
use blue_lagoon.Base.{pos, true, none, some, [], ◌∷◌, codes}
use blue_lagoon.Contracts.Action.{
  CapabilityScope, GovernedActionProposal, GovernedActionKind, GovernedActionPayload,
  NetworkAccessPosture, GovernedActionRiskTier, GovernedActionStatus, ApprovalRequestStatus,
  ApprovalResolutionDecision,
}
use blue_lagoon.Contracts.Ingress.{NormalizedIngress, message_created, telegram}
use blue_lagoon.Config.{
  RuntimeConfig, ApprovalsConfig, ApprovalPromptMode, GovernedActionCapExceededBehavior,
  ResolvedTelegramConfig, ResolvedForegroundModelRouteConfig, ModelProviderKind,
}
use blue_lagoon.Approval.Records.{
  NewApprovalRequestRecord, ApprovalRequestRecord, ApprovalResolutionAttempt,
}
use blue_lagoon.Approval.Store.{ApprovalStore}
use blue_lagoon.GovernedActions.Records.{GovernedActionExecutionRecord}

abbrev pub approvals_config : ApprovalsConfig
approvals_config = record {
  default_ttl_seconds = 900;
  max_pending_requests = 2;
  allow_cli_resolution = true;
  prompt_mode = ApprovalPromptMode.inline_keyboard_with_fallback;
}

abbrev pub config : RuntimeConfig
config = record {
  app = record { name = codes "blue-lagoon"; log_filter = codes "info" };
  database = record {
    database_url = codes "postgres://localhost/blue_lagoon";
    minimum_supported_schema_version = pos 1;
  };
  harness = record {
    allow_synthetic_smoke = true;
    default_foreground_iteration_budget = 3;
    default_wall_clock_budget_ms = 120000;
    default_foreground_token_budget = 8000;
  };
  scheduled_foreground = record {
    is_enabled = true;
    max_due_tasks_per_iteration = 2;
    min_cadence_seconds = 300;
    default_cooldown_seconds = 300;
  };
  background = record {
    scheduler = record {
      poll_interval_seconds = 60;
      max_due_jobs_per_iteration = 4;
      lease_timeout_ms = 300000;
    };
    thresholds = record {
      episode_backlog_threshold = 25;
      candidate_memory_threshold = 10;
      contradiction_alert_threshold = 3;
    };
    execution = record {
      default_iteration_budget = 2;
      default_wall_clock_budget_ms = 120000;
      default_token_budget = 6000;
    };
    wake_signals = record {
      allow_foreground_conversion = true;
      max_pending_signals = 8;
      cooldown_seconds = 900;
    };
  };
  continuity = record {
    retrieval = record {
      max_recent_episode_candidates = 3;
      max_memory_artifact_candidates = 5;
      max_context_items = 6;
    };
    backlog_recovery = record {
      pending_message_count_threshold = 3;
      pending_message_span_seconds_threshold = 120;
      stale_pending_ingress_age_seconds_threshold = 300;
      max_recovery_batch_size = 25;
    };
  };
  workspace = record {
    root_dir = codes ".";
    max_artifact_bytes = 1048576;
    max_script_bytes = 262144;
  };
  observability = record { model_call_payload_retention_days = 30 };
  approvals = approvals_config;
  governed_actions = record {
    approval_required_min_risk_tier = GovernedActionRiskTier.tier2;
    default_subprocess_timeout_ms = 30000;
    max_subprocess_timeout_ms = 120000;
    max_actions_per_foreground_turn = 10;
    cap_exceeded_behavior = GovernedActionCapExceededBehavior.escalate;
    max_filesystem_roots_per_action = 4;
    default_network_access = NetworkAccessPosture.disabled;
    allowlisted_environment_variables = codes "BLUE_LAGOON_DATABASE_URL" ∷ [];
    max_environment_variables_per_action = 8;
    max_captured_output_bytes = 65536;
    max_web_fetch_timeout_ms = 15000;
    max_web_fetch_response_bytes = 524288;
  };
  worker = record { timeout_ms = 20000; command = []; args = [] };
  telegram = none;
  model_gateway = none;
  self_model = none;
}

abbrev pub route : ResolvedForegroundModelRouteConfig
route = record {
  provider = ModelProviderKind.z_ai;
  model = codes "model";
  api_base_url = codes "https://example.org";
  api_key = codes "key";
  timeout_ms = 60000;
}

abbrev pub scope : CapabilityScope
scope = record {
  filesystem = record { read_roots = codes "." ∷ []; write_roots = codes "." ∷ [] };
  network = NetworkAccessPosture.enabled;
  environment = record { allow_variables = [] };
  execution = record { timeout_ms = 30000; max_stdout_bytes = 8192; max_stderr_bytes = 4096 };
}

abbrev pub proposal : GovernedActionProposal
proposal = record {
  proposal_id = 31;
  title = codes "Download and build";
  rationale = none;
  action_kind = GovernedActionKind.run_subprocess;
  requested_risk_tier = none;
  capability_scope = scope;
  payload =
      GovernedActionPayload.run_subprocess
        (record { command = codes "make"; args = []; working_directory = none });
}

abbrev pub pending_row : ApprovalRequestRecord
pending_row = record {
  approval_request_id = 7;
  trace_id = 1;
  execution_id = some 2;
  action_proposal_id = 31;
  action_fingerprint = record { value = codes "abc" };
  action_kind = GovernedActionKind.run_subprocess;
  risk_tier = GovernedActionRiskTier.tier3;
  title = codes "Run a build";
  consequence_summary = codes "runs make";
  capability_scope = scope;
  status = ApprovalRequestStatus.pending;
  requested_by = codes "telegram:owner";
  token = codes "t-7";
  requested_at = 100;
  expires_at = 200;
  resolved_at = none;
  resolution_kind = none;
  resolved_by = none;
  resolution_reason = none;
  created_at = 100;
  updated_at = 100;
}

abbrev pub store : ApprovalStore
store = record { requests = pending_row ∷ []; audit = [] }

abbrev pub attempt : ApprovalResolutionAttempt
attempt = record {
  token = codes "t-7";
  actor_ref = codes "cli:owner";
  expected_action_fingerprint = record { value = codes "abc" };
  decision = ApprovalResolutionDecision.approved;
  reason = none;
  resolved_at = 150;
}

abbrev pub new_request : NewApprovalRequestRecord
new_request = record {
  approval_request_id = 8;
  trace_id = 1;
  execution_id = none;
  action_proposal_id = 32;
  action_fingerprint = record { value = codes "def" };
  action_kind = GovernedActionKind.web_fetch;
  risk_tier = GovernedActionRiskTier.tier2;
  title = codes "Fetch a page";
  consequence_summary = codes "reads a page";
  capability_scope = scope;
  requested_by = codes "telegram:owner";
  token = codes "t-8";
  requested_at = 110;
  expires_at = 210;
}

abbrev pub telegram_config : ResolvedTelegramConfig
telegram_config = record {
  api_base_url = codes "https://api.telegram.org";
  bot_token = codes "token";
  allowed_user_id = pos 42;
  allowed_chat_id = pos 42;
  internal_principal_ref = codes "owner";
  internal_conversation_ref = codes "owner-chat";
  poll_limit = 10;
}

abbrev pub bound_ingress : NormalizedIngress
bound_ingress = record {
  ingress_id = 5;
  channel_kind = telegram;
  external_user_id = codes "42";
  external_conversation_id = codes "42";
  external_event_id = codes "9";
  external_message_id = some (codes "3");
  internal_principal_ref = codes "owner";
  internal_conversation_ref = codes "owner-chat";
  event_kind = message_created;
  occurred_at = 100;
  text_body = some (codes "hello");
  reply_to = none;
  attachments = [];
  command_hint = none;
  approval_payload = none;
  raw_payload_ref = none;
}

abbrev pub execution_row : GovernedActionExecutionRecord
execution_row = record {
  governed_action_execution_id = 17;
  trace_id = 1;
  execution_id = none;
  approval_request_id = none;
  action_proposal_id = 31;
  action_fingerprint = record { value = codes "sha256:run_subprocess" };
  action_kind = GovernedActionKind.run_subprocess;
  risk_tier = GovernedActionRiskTier.tier3;
  status = GovernedActionStatus.awaiting_approval;
  capability_scope = scope;
  payload = proposal.payload;
  workspace_script_id = none;
  workspace_script_version_id = none;
  blocked_reason = none;
  output_ref = none;
  started_at = none;
  completed_at = none;
  created_at = 100;
  updated_at = 100;
}
