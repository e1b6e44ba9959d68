-- ===== src/GovernedActions/Scope/Guarantees.antt =====
-- What an accepted scope guarantees, of `validate_capability_scope`.
use blue_lagoon.Base.{
  ◌≤◌, ◌<◌, ◌≡◌, refl, ap, sym, ◌∙◌, ◌⊎◌, inl, inr, true, false, Option, none, some, List, [], ◌∷◌,
  ◌++◌, Text, codes, any, All, length, is_blank, text_eq, text_eq_iff, ok, Bool-cases, arith,
  >>-eq-ok, is_empty, if◌then◌else◌,
}
use blue_lagoon.Contracts.Action.{
  CapabilityScope, NetworkAccessPosture, GovernedActionKind, GovernedActionPayload,
  GovernedActionProposal, WebFetchAction,
}
use blue_lagoon.Config.{RuntimeConfig}
use blue_lagoon.GovernedActions.Shape.{validate_web_fetch_shape}
use blue_lagoon.GovernedActions.Scope.{
  normalized_filesystem_roots, runs_a_program, check_roots, check_execution, check_variables,
  check_environment, check_scheme, is_harness_native, validate_harness_native_scope,
  validate_web_fetch_action, check_payload_scope, validate_capability_scope,
}

abbrev pub all_roots : CapabilityScope → List Text
all_roots scope = scope.filesystem.read_roots ++ scope.filesystem.write_roots

-- At most the configured number of roots, none of them blank, and one at least for a program.
abbrev pub RootsAllowed : RuntimeConfig → GovernedActionProposal → Type 0
RootsAllowed config p =
    (length (normalized_filesystem_roots p.capability_scope)
      ≤ config.governed_actions.max_filesystem_roots_per_action)
    × (any is_blank (all_roots p.capability_scope) ≡ false)
    × (runs_a_program p.action_kind ≡ true
        → is_empty (normalized_filesystem_roots p.capability_scope) ≡ false)

abbrev pub ExecutionAllowed : RuntimeConfig → CapabilityScope → Type 0
ExecutionAllowed config scope =
    (0 < scope.execution.timeout_ms)
    × (scope.execution.timeout_ms ≤ config.governed_actions.max_subprocess_timeout_ms)
    × (0 < scope.execution.max_stdout_bytes)
    × (scope.execution.max_stdout_bytes ≤ config.governed_actions.max_captured_output_bytes)
    × (0 < scope.execution.max_stderr_bytes)
    × (scope.execution.max_stderr_bytes ≤ config.governed_actions.max_captured_output_bytes)

-- At most the configured number of variables, each on the configured list.
abbrev pub VariablesAllowed : RuntimeConfig → CapabilityScope → Type 0
VariablesAllowed config scope =
    (length scope.environment.allow_variables
      ≤ config.governed_actions.max_environment_variables_per_action)
    × All
        (λ variable.
          (is_blank variable ≡ false)
          × (any (λ t. text_eq t variable) config.governed_actions.allowlisted_environment_variables
              ≡ true))
        scope.environment.allow_variables

-- An action that the harness runs itself reaches nothing outside it.
abbrev pub NothingReached : CapabilityScope → Type 0
NothingReached scope =
    (scope.filesystem.read_roots ≡ [])
    × (scope.filesystem.write_roots ≡ [])
    × (scope.environment.allow_variables ≡ [])
    × (scope.network ≡ NetworkAccessPosture.disabled)

abbrev pub FetchAllowed :
    (url_scheme : Text → Option Text) → RuntimeConfig → CapabilityScope → WebFetchAction → Type 0
FetchAllowed url_scheme config scope action =
    ((url_scheme action.url ≡ some (codes "http")) ⊎ (url_scheme action.url ≡ some (codes "https")))
    × (0 < action.timeout_ms)
    × (action.timeout_ms ≤ config.governed_actions.max_web_fetch_timeout_ms)
    × (0 < action.max_response_bytes)
    × (action.max_response_bytes ≤ config.governed_actions.max_web_fetch_response_bytes)
    × (scope.network ≡ NetworkAccessPosture.enabled)

check_roots-RootsAllowed :
    (config : RuntimeConfig) (p : GovernedActionProposal)
    → check_roots config p ≡ ok tt
    → RootsAllowed config p
unfolding check_roots
check_roots-RootsAllowed config p h = ground arith

check_execution-ExecutionAllowed :
    (config : RuntimeConfig) (scope : CapabilityScope)
    → check_execution config scope ≡ ok tt
    → ExecutionAllowed config scope
unfolding check_execution
check_execution-ExecutionAllowed config scope h = ground arith

check_variables_all :
    (allowlist variables : List Text)
    → check_variables allowlist variables ≡ ok tt
    → All
        (λ variable. (is_blank variable ≡ false) × (any (λ t. text_eq t variable) allowlist ≡ true))
        variables
unfolding check_variables
check_variables_all allowlist [] h = tt
check_variables_all allowlist (variable ∷ variables) h =
    let rest = check_variables_all allowlist variables in ground (arith, rest)

check_environment-VariablesAllowed :
    (config : RuntimeConfig) (scope : CapabilityScope)
    → check_environment config scope ≡ ok tt
    → VariablesAllowed config scope
unfolding check_environment
check_environment-VariablesAllowed config scope h = (
  ground arith,
  check_variables_all config.governed_actions.allowlisted_environment_variables
      scope.environment.allow_variables (>>-eq-ok _ _ h).1,
)

is_empty-eq-nil : (xs : List Text) → is_empty xs ≡ true → xs ≡ []
is_empty-eq-nil [] h = refl
is_empty-eq-nil (x ∷ xs) h = cc

validate_harness_native_scope-NothingReached :
    (scope : CapabilityScope) → validate_harness_native_scope scope ≡ ok tt → NothingReached scope
unfolding validate_harness_native_scope
validate_harness_native_scope-NothingReached scope h =
    let read = is_empty-eq-nil scope.filesystem.read_roots in
    let write = is_empty-eq-nil scope.filesystem.write_roots in
    let variables = is_empty-eq-nil scope.environment.allow_variables in
    ground (arith, read, write, variables)

module _ (url_scheme : Text → Option Text) where
  check_scheme_http :
      (scheme : Option Text)
      → check_scheme url_scheme scheme ≡ ok tt
      → (scheme ≡ some (codes "http")) ⊎ (scheme ≡ some (codes "https"))
  check_scheme_http none h = cc
  check_scheme_http (some scheme) h = elim (Bool-cases (text_eq scheme (codes "http"))) [
    | inl k ↦ inl (ap some ((text_eq_iff scheme (codes "http")).0 k))
    | inr k ↦ inr (ap some ((text_eq_iff scheme (codes "https")).0 (ground (arith, k))))
  ]

  check_scheme_parsed :
      (config : RuntimeConfig) (scope : CapabilityScope) (action : WebFetchAction)
      → validate_web_fetch_action url_scheme config scope action ≡ ok tt
      → check_scheme url_scheme (url_scheme action.url) ≡ ok tt
  unfolding validate_web_fetch_action
  check_scheme_parsed config scope action h = (>>-eq-ok _ _ (>>-eq-ok _ _ h).1).0

  validate_web_fetch_action-FetchAllowed :
      (config : RuntimeConfig) (scope : CapabilityScope) (action : WebFetchAction)
      → validate_web_fetch_action url_scheme config scope action ≡ ok tt
      → FetchAllowed url_scheme config scope action
  unfolding validate_web_fetch_action validate_web_fetch_shape
  validate_web_fetch_action-FetchAllowed config scope action h =
      let http =
        check_scheme_http (url_scheme action.url) (check_scheme_parsed config scope action h) in
      let rest : (0 < action.timeout_ms)
          × (action.timeout_ms ≤ config.governed_actions.max_web_fetch_timeout_ms)
          × (0 < action.max_response_bytes)
          × (action.max_response_bytes ≤ config.governed_actions.max_web_fetch_response_bytes)
          × (scope.network ≡ NetworkAccessPosture.enabled) =
        ground arith in
      (http, rest.0, rest.1, rest.2, rest.3, rest.4)

  -- What the payload's own check guarantees: nothing is reached by an action of the harness, and a
  -- fetch stays within its limits.
  abbrev pub PayloadAllowed :
      RuntimeConfig → CapabilityScope → GovernedActionKind → GovernedActionPayload → Type 0
  PayloadAllowed config scope kind (GovernedActionPayload.web_fetch action) =
      (kind ≡ GovernedActionKind.web_fetch) × FetchAllowed url_scheme config scope action
  PayloadAllowed config scope kind (GovernedActionPayload.run_subprocess action) =
      kind ≡ GovernedActionKind.run_subprocess
  PayloadAllowed config scope kind (GovernedActionPayload.run_workspace_script action) =
      kind ≡ GovernedActionKind.run_workspace_script
  PayloadAllowed config scope kind _ = (is_harness_native kind ≡ true) × NothingReached scope

  check_payload_scope-PayloadAllowed :
      (config : RuntimeConfig) (scope : CapabilityScope) (kind : GovernedActionKind)
      (payload : GovernedActionPayload)
      → check_payload_scope url_scheme config scope kind payload ≡ ok tt
      → PayloadAllowed config scope kind payload
  unfolding check_payload_scope is_harness_native
  check_payload_scope-PayloadAllowed config scope GovernedActionKind.run_diagnostic
        (GovernedActionPayload.run_diagnostic action) h =
      (refl, validate_harness_native_scope-NothingReached scope (>>-eq-ok _ _ h).0)
  check_payload_scope-PayloadAllowed config scope GovernedActionKind.web_fetch
        (GovernedActionPayload.web_fetch action) h =
      (refl, validate_web_fetch_action-FetchAllowed config scope action h)
  check_payload_scope-PayloadAllowed config scope kind payload h =
      let nothing = validate_harness_native_scope-NothingReached scope in ground (arith, nothing)

  -- An accepted scope asks for at most the configured number of roots and variables, for no blank
  -- root and for allowlisted variables only. A program has a root and keeps within the configured
  -- time and output. An action that the harness runs itself asks for no root, no variable and no
  -- network. A fetch takes http or https, keeps within the configured time and size, and says that
  -- it uses the network.
  pub validate_capability_scope_guarantees :
      (config : RuntimeConfig) (p : GovernedActionProposal)
      → validate_capability_scope url_scheme config p ≡ ok tt
      → RootsAllowed config p
        × (runs_a_program p.action_kind ≡ true → ExecutionAllowed config p.capability_scope)
        × VariablesAllowed config p.capability_scope
        × PayloadAllowed config p.capability_scope p.action_kind p.payload
  unfolding validate_capability_scope
  validate_capability_scope_guarantees config p h =
      let last = >>-eq-ok _ _ h in
      let third = >>-eq-ok _ _ last.0 in
      let first = >>-eq-ok _ _ third.0 in
      (
        check_roots-RootsAllowed config p first.0,
        λ program. check_execution-ExecutionAllowed config p.capability_scope (
            sym (ap (λ b. if b then check_execution config p.capability_scope else ok tt) program)
            ∙ first.1),
        check_environment-VariablesAllowed config p.capability_scope third.1,
        check_payload_scope-PayloadAllowed config p.capability_scope p.action_kind p.payload last.1,
      )
