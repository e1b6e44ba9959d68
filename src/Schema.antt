-- ===== src/Schema.antt =====
-- crates/harness/src/schema.rs: the version of the database's schema against the policy. The texts
-- of errors are constructors, with the versions that they name.
pub mod Support
use blue_lagoon.Base.{
  ℤ, int_ltb, Bool, true, false, Option, none, some, Text, if◌then◌else◌, Result, ok, err,
}

pub record SchemaPolicy : Type 0 where
  pub minimum_supported_version : ℤ
  pub expected_version : ℤ

pub data SchemaCompatibility : Type 0 where
  supported : (current : ℤ) → SchemaCompatibility
  missing : SchemaCompatibility
  too_old : (current minimum_supported : ℤ) → SchemaCompatibility
  pending_migrations : (current expected : ℤ) → SchemaCompatibility
  too_new : (current expected : ℤ) → SchemaCompatibility
  incompatible_history : (details : Text) → SchemaCompatibility

pub data SchemaError : Type 0 where
  is_missing : SchemaError
  below_minimum : (current minimum_supported : ℤ) → SchemaError
  behind_expected : (current expected : ℤ) → SchemaError
  newer_than_supported : (current expected : ℤ) → SchemaError
  history_incompatible : (details : Text) → SchemaError

unfoldable pub ensure_supported : SchemaCompatibility → Result SchemaError ℤ
ensure_supported (supported current) = ok current
ensure_supported missing = err is_missing
ensure_supported (too_old current minimum) = err (below_minimum current minimum)
ensure_supported (pending_migrations current expected) = err (behind_expected current expected)
ensure_supported (too_new current expected) = err (newer_than_supported current expected)
ensure_supported (incompatible_history details) = err (history_incompatible details)

unfoldable pub evaluate : Option ℤ → SchemaPolicy → SchemaCompatibility
evaluate none policy = missing
evaluate (some current) policy =
    if int_ltb current policy.minimum_supported_version
    then too_old current policy.minimum_supported_version
    else if int_ltb current policy.expected_version
    then pending_migrations current policy.expected_version
    else if int_ltb policy.expected_version current
    then too_new current policy.expected_version
    else supported current
