-- ===== src/Policy/Budget.antt =====
-- The default budgets under a validated configuration.
use blue_lagoon.Base.{◌≡◌, ok, arith}
use blue_lagoon.Config.{RuntimeConfig}
use blue_lagoon.Config.Validate.{validate}
use blue_lagoon.Config.Guarantees.{validate_iff}
use blue_lagoon.Policy.{
  default_foreground_budget, default_background_budget, default_budget, validate_budget,
  validate_foreground_budget, validate_background_budget,
}

-- The budgets that a validated configuration gives pass the checks of the policy.
pub default_budgets_valid :
    (config : RuntimeConfig)
    → validate config ≡ ok tt
    → (validate_foreground_budget (default_foreground_budget config) ≡ ok tt)
      × (validate_background_budget (default_background_budget config) ≡ ok tt)
      × (validate_budget (default_budget config) ≡ ok tt)
unfolding validate_foreground_budget default_foreground_budget validate_background_budget
    default_background_budget validate_budget default_budget
default_budgets_valid config h = let v = (validate_iff config).0 h in ground arith
