-- ===== src/Migration.antt =====
-- crates/harness/src/migration.rs: the history of applied migrations against the reviewed files.
-- `digest` is the hexadecimal SHA-256 of a text, of the crates sha2 and hex.
pub mod History
use blue_lagoon.Base.{
  ℤ, Bool, true, false, not, ◌||◌, ◌==◌, if◌then◌else◌, List, [], ◌∷◌, map, ◌&&◌, starts_with, Text,
  text_eq, int_eq, any, Result, ok, err,
}

pub record Migration : Type 0 where
  pub version : ℤ
  pub name : Text
  pub sql : Text
  pub checksum : Text

pub record AppliedMigration : Type 0 where
  pub version : ℤ
  pub name : Text
  pub checksum : Text

pub data HistoryError : Type 0 where
  unexpected_version : (version : ℤ) → HistoryError
  out_of_order : (expected found : ℤ) → HistoryError
  checksum_mismatch : (version : ℤ) → HistoryError

-- `replace("\r\n", "\n")`: a carriage return in front of a line feed is dropped.
unfoldable pub crlf_to_lf : Text → Text
unfolding starts_with
crlf_to_lf [] = []
crlf_to_lf (c ∷ s) =
    let rest = crlf_to_lf s in if c == 13 && starts_with s (10 ∷ []) then rest else c ∷ rest

unfoldable pub normalize_sql_for_checksum : Text → Text
unfolding crlf_to_lf
normalize_sql_for_checksum sql = map (λ c. if c == 13 then 10 else c) (crlf_to_lf sql)

-- `replace('\n', "\r\n")`
unfoldable pub lf_to_crlf : Text → Text
lf_to_crlf [] = []
lf_to_crlf (c ∷ s) = let rest = lf_to_crlf s in if c == 10 then 13 ∷ 10 ∷ rest else c ∷ rest

module _ (digest : Text → Text) where
  -- The set is a list: only membership is asked.
  unfoldable pub compatible_migration_checksums : Migration → List Text
  unfolding normalize_sql_for_checksum lf_to_crlf
  compatible_migration_checksums migration =
      migration.checksum
      ∷ digest migration.sql
      ∷ digest (lf_to_crlf (normalize_sql_for_checksum migration.sql))
      ∷ []

  unfoldable pub checksum_matches_migration : Migration → Text → Bool
  unfolding compatible_migration_checksums any text_eq
  checksum_matches_migration migration checksum =
      any (λ c. text_eq c checksum) (compatible_migration_checksums migration)

  -- The loop walks both lists at once, by the index.
  unfoldable pub validate_applied_history :
      List Migration → List AppliedMigration → Result HistoryError (Unit {0})
  unfolding checksum_matches_migration
  validate_applied_history discovered [] = ok tt
  validate_applied_history [] (a ∷ applied) = err (unexpected_version a.version)
  validate_applied_history (expected ∷ discovered) (a ∷ applied) =
      let rest = validate_applied_history discovered applied in
      if not (int_eq a.version expected.version)
      then err (out_of_order expected.version a.version)
      else if not (checksum_matches_migration expected a.checksum)
      then err (checksum_mismatch a.version)
      else rest
