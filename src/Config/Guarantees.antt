-- ===== src/Config/Guarantees.antt =====
-- The settings that `RuntimeConfig::validate` of crates/harness/src/config.rs accepts.
use blue_lagoon.Base.{
  ℕ, ◌<◌, ◌≡◌, ◌↔◌, ◌==◌, >>-eq-ok, bail_if-eq-ok, refl, true, false, Option, none, some, List, [],
  ◌∷◌, Text, All, is_empty, is_blank, Result, ok, arith,
}
use blue_lagoon.Config.{
  ScheduledForegroundConfig, BackgroundConfig, ContinuityConfig, WorkspaceConfig, ApprovalsConfig,
  GovernedActionsConfig, TelegramConfig, TelegramForegroundBindingConfig, ModelGatewayConfig,
  ObservabilityConfig, SelfModelConfig, RuntimeConfig,
}
use blue_lagoon.Config.Validate.{
  ConfigError, is_not_positive, is_valid_env_var_name, check_option, check_allowlist,
  validate_scheduled_foreground, validate_background, validate_continuity, validate_workspace,
  validate_observability, validate_approvals, validate_governed_actions, validate_transport,
  validate_binding, validate_telegram, validate_model_gateway, validate_self_model, validate,
}
use blue_lagoon.Config.Valid.{
  ScheduledIsValid, BackgroundIsValid, ContinuityIsValid, WorkspaceIsValid, ApprovalsIsValid,
  ActionsIsValid, IfSome, BindingIsValid, TelegramIsValid, GatewayIsValid, IsValid,
}

check_allowlist_iff :
    (names : List Text)
    → (check_allowlist names ≡ ok tt) ↔ All (λ name. is_valid_env_var_name name ≡ true) names
unfolding check_allowlist
check_allowlist_iff [] = (λ h. tt, λ h. refl)
check_allowlist_iff (name ∷ names) = let rest = check_allowlist_iff names in ground (arith, rest)

scheduled_iff :
    (c : ScheduledForegroundConfig) → (validate_scheduled_foreground c ≡ ok tt) ↔ ScheduledIsValid c
unfolding validate_scheduled_foreground
scheduled_iff c = ground arith

background_iff : (c : BackgroundConfig) → (validate_background c ≡ ok tt) ↔ BackgroundIsValid c
unfolding validate_background
background_iff c = ground arith

continuity_iff : (c : ContinuityConfig) → (validate_continuity c ≡ ok tt) ↔ ContinuityIsValid c
unfolding validate_continuity
continuity_iff c = ground arith

workspace_iff : (c : WorkspaceConfig) → (validate_workspace c ≡ ok tt) ↔ WorkspaceIsValid c
unfolding validate_workspace
workspace_iff c = ground arith

observability_iff :
    (c : ObservabilityConfig)
    → (validate_observability c ≡ ok tt) ↔ (0 < c.model_call_payload_retention_days)
unfolding validate_observability
observability_iff c = ground arith

approvals_iff : (c : ApprovalsConfig) → (validate_approvals c ≡ ok tt) ↔ ApprovalsIsValid c
unfolding validate_approvals
approvals_iff c = ground arith

actions_iff : (c : GovernedActionsConfig) → (validate_governed_actions c ≡ ok tt) ↔ ActionsIsValid c
unfolding validate_governed_actions
actions_iff c =
    let names = check_allowlist_iff c.allowlisted_environment_variables in ground (arith, names)

binding_iff :
    (c : TelegramForegroundBindingConfig) → (validate_binding c ≡ ok tt) ↔ BindingIsValid c
unfolding validate_binding
binding_iff c = ground arith

if_some_iff :
    {A : Type 0} (check : A → Result ConfigError (Unit {0})) (P : A → Type 0)
    → ((a : A) → (check a ≡ ok tt) ↔ P a)
    → (o : Option A) → (check_option check o ≡ ok tt) ↔ IfSome P o
if_some_iff check P each none = (λ h. tt, λ h. refl)
if_some_iff check P each (some a) = each a

telegram_iff : (c : TelegramConfig) → (validate_telegram c ≡ ok tt) ↔ TelegramIsValid c
unfolding validate_telegram validate_transport
telegram_iff c =
    let binding = if_some_iff validate_binding BindingIsValid binding_iff c.foreground_binding in
    ground (arith, binding)

gateway_iff : (c : ModelGatewayConfig) → (validate_model_gateway c ≡ ok tt) ↔ GatewayIsValid c
unfolding validate_model_gateway
gateway_iff c = ground arith

self_model_iff :
    (c : SelfModelConfig) → (validate_self_model c ≡ ok tt) ↔ (is_empty c.seed_path ≡ false)
unfolding validate_self_model
self_model_iff c = ground arith

-- The steps of `validate`, one by one.
record StepsPass (c : RuntimeConfig) : Type 0 where
  name : is_blank c.app.name ≡ false
  log_filter : is_blank c.app.log_filter ≡ false
  schema : is_not_positive c.database.minimum_supported_schema_version ≡ false
  wall_clock : (c.harness.default_wall_clock_budget_ms == 0) ≡ false
  iterations : (c.harness.default_foreground_iteration_budget == 0) ≡ false
  tokens : (c.harness.default_foreground_token_budget == 0) ≡ false
  scheduled : validate_scheduled_foreground c.scheduled_foreground ≡ ok tt
  background : validate_background c.background ≡ ok tt
  continuity : validate_continuity c.continuity ≡ ok tt
  workspace : validate_workspace c.workspace ≡ ok tt
  retention : validate_observability c.observability ≡ ok tt
  approvals : validate_approvals c.approvals ≡ ok tt
  actions : validate_governed_actions c.governed_actions ≡ ok tt
  worker : (c.worker.timeout_ms == 0) ≡ false
  telegram : check_option validate_telegram c.telegram ≡ ok tt
  gateway : check_option validate_model_gateway c.model_gateway ≡ ok tt
  self_model : check_option validate_self_model c.self_model ≡ ok tt

positive_iff : (n : ℕ) → ((n == 0) ≡ false) ↔ (0 < n)
positive_iff n = ground arith

validate-steps : (c : RuntimeConfig) → validate c ≡ ok tt → StepsPass c
unfolding validate
validate-steps c h =
    let s0 = >>-eq-ok _ _ h in
    let s1 = >>-eq-ok _ _ s0.1 in
    let s2 = >>-eq-ok _ _ s1.1 in
    let s3 = >>-eq-ok _ _ s2.1 in
    let s4 = >>-eq-ok _ _ s3.1 in
    let s5 = >>-eq-ok _ _ s4.1 in
    let s6 = >>-eq-ok _ _ s5.1 in
    let s7 = >>-eq-ok _ _ s6.1 in
    let s8 = >>-eq-ok _ _ s7.1 in
    let s9 = >>-eq-ok _ _ s8.1 in
    let s10 = >>-eq-ok _ _ s9.1 in
    let s11 = >>-eq-ok _ _ s10.1 in
    let s12 = >>-eq-ok _ _ s11.1 in
    let s13 = >>-eq-ok _ _ s12.1 in
    let s14 = >>-eq-ok _ _ s13.1 in
    let s15 = >>-eq-ok _ _ s14.1 in
    record {
      name = bail_if-eq-ok _ _ s0.0;
      log_filter = bail_if-eq-ok _ _ s1.0;
      schema = bail_if-eq-ok _ _ s2.0;
      wall_clock = bail_if-eq-ok _ _ s3.0;
      iterations = bail_if-eq-ok _ _ s4.0;
      tokens = bail_if-eq-ok _ _ s5.0;
      scheduled = s6.0;
      background = s7.0;
      continuity = s8.0;
      workspace = s9.0;
      retention = s10.0;
      approvals = s11.0;
      actions = s12.0;
      worker = bail_if-eq-ok _ _ s13.0;
      telegram = s14.0;
      gateway = s15.0;
      self_model = s15.1;
    }

steps-validate : (c : RuntimeConfig) → StepsPass c → validate c ≡ ok tt
unfolding validate
steps-validate c k =
    rw
      (
        k.name, k.log_filter, k.schema, k.wall_clock, k.iterations, k.tokens, k.scheduled,
        k.background, k.continuity, k.workspace, k.retention, k.approvals, k.actions, k.worker,
        k.telegram, k.gateway,
      )
      k.self_model

-- A configuration is accepted exactly when every setting that `validate` reads is as `IsValid` says:
-- names, references and directories are filled in; the budgets, intervals, thresholds and limits
-- listed there are positive; scripts are no larger than artifacts, the default time limit of a
-- subprocess no longer than the longest one, the context no smaller than the lesser of the two
-- retrieval limits, and the backlog threshold two or more and within the batch; the allowlist is within its limit and
-- holds well-formed names; and an open network goes with approvals from tier 2 or above only.
-- The limits of web fetches are not read by `validate`.
pub validate_iff : (c : RuntimeConfig) → (validate c ≡ ok tt) ↔ IsValid c
validate_iff c = (
  λ h.
      let k = validate-steps c h in
      record {
        name = k.name;
        log_filter = k.log_filter;
        schema = k.schema;
        wall_clock = (positive_iff _).0 k.wall_clock;
        iterations = (positive_iff _).0 k.iterations;
        tokens = (positive_iff _).0 k.tokens;
        scheduled = (scheduled_iff c.scheduled_foreground).0 k.scheduled;
        background = (background_iff c.background).0 k.background;
        continuity = (continuity_iff c.continuity).0 k.continuity;
        workspace = (workspace_iff c.workspace).0 k.workspace;
        retention = (observability_iff c.observability).0 k.retention;
        approvals = (approvals_iff c.approvals).0 k.approvals;
        actions = (actions_iff c.governed_actions).0 k.actions;
        worker = (positive_iff _).0 k.worker;
        telegram =
            (if_some_iff validate_telegram TelegramIsValid telegram_iff c.telegram).0 k.telegram;
        gateway =
            (if_some_iff validate_model_gateway GatewayIsValid gateway_iff c.model_gateway).0
              k.gateway;
        self_model =
            (if_some_iff validate_self_model (λ m. is_empty m.seed_path ≡ false) self_model_iff
                c.self_model).0
              k.self_model;
      },
  λ v. steps-validate c (record {
    name = v.name;
    log_filter = v.log_filter;
    schema = v.schema;
    wall_clock = (positive_iff _).1 v.wall_clock;
    iterations = (positive_iff _).1 v.iterations;
    tokens = (positive_iff _).1 v.tokens;
    scheduled = (scheduled_iff c.scheduled_foreground).1 v.scheduled;
    background = (background_iff c.background).1 v.background;
    continuity = (continuity_iff c.continuity).1 v.continuity;
    workspace = (workspace_iff c.workspace).1 v.workspace;
    retention = (observability_iff c.observability).1 v.retention;
    approvals = (approvals_iff c.approvals).1 v.approvals;
    actions = (actions_iff c.governed_actions).1 v.actions;
    worker = (positive_iff _).1 v.worker;
    telegram = (if_some_iff validate_telegram TelegramIsValid telegram_iff c.telegram).1 v.telegram;
    gateway =
        (if_some_iff validate_model_gateway GatewayIsValid gateway_iff c.model_gateway).1 v.gateway;
    self_model =
        (if_some_iff validate_self_model (λ m. is_empty m.seed_path ≡ false) self_model_iff
            c.self_model).1
          v.self_model;
  }),
)
