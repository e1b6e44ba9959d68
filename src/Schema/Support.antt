-- ===== src/Schema/Support.antt =====
-- Which schema versions are supported.
use blue_lagoon.Base.{
  ℤ, int_ltb, int_ltb_total, int_ltb_irreflexive, ◌≡◌, ◌↔◌, false, Option, none, some, ok, arith,
}
use blue_lagoon.Schema.{SchemaPolicy, evaluate, ensure_supported}

-- The check gives a version exactly if that is the current one, is the expected one and is not
-- below the minimum: a database without a version, behind or ahead is refused.
pub ensure_supported-evaluate :
    (current : Option ℤ) (policy : SchemaPolicy) (version : ℤ)
    → (ensure_supported (evaluate current policy) ≡ ok version) ↔ (
        (current ≡ some version)
        × (version ≡ policy.expected_version)
        × (int_ltb version policy.minimum_supported_version ≡ false))
unfolding ensure_supported evaluate
ensure_supported-evaluate none policy version = (λ h. cc, λ h. cc h.0)
ensure_supported-evaluate (some current) policy version =
    let total = int_ltb_total current policy.expected_version in
    let same = int_ltb_irreflexive policy.expected_version in
    (λ h. ground (arith, total), λ h. ground (arith, same))
