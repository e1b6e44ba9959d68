-- ===== src/Migration/History.antt =====
-- Which histories are accepted.
use blue_lagoon.Base.{
  ◌≡◌, ◌↔◌, ◌⊎◌, refl, List, [], ◌∷◌, Text, text_eq_iff, int_eq_iff, any, ok, arith,
}
use blue_lagoon.Migration.{
  Migration, AppliedMigration, normalize_sql_for_checksum, lf_to_crlf,
  compatible_migration_checksums, checksum_matches_migration, validate_applied_history,
}

module _ (digest : Text → Text) where
  -- The migration was applied from the reviewed file: its version, and its checksum as it was
  -- recorded, or of the file's bytes, or of the file with the line ends of Windows.
  pub record Matches (expected : Migration) (applied : AppliedMigration) : Type 0 where
    pub version : applied.version ≡ expected.version
    pub checksum :
        (expected.checksum ≡ applied.checksum)
        ⊎ (digest expected.sql ≡ applied.checksum)
        ⊎ (digest (lf_to_crlf (normalize_sql_for_checksum expected.sql)) ≡ applied.checksum)

  -- The applied migrations are the first of the reviewed ones, in their order.
  abbrev pub IsPrefix : List AppliedMigration → List Migration → Type 0
  IsPrefix [] discovered = Unit
  IsPrefix (a ∷ applied) [] = ⊥
  IsPrefix (a ∷ applied) (expected ∷ discovered) = Matches expected a × IsPrefix applied discovered

  -- A history is accepted exactly if the applied migrations are the first of the reviewed ones, in
  -- their order, each with the version and one of the three checksums of its file.
  pub validate_applied_history_iff :
      (discovered : List Migration) (applied : List AppliedMigration)
      → (validate_applied_history digest discovered applied ≡ ok tt) ↔ IsPrefix applied discovered
  unfolding validate_applied_history checksum_matches_migration compatible_migration_checksums any
  validate_applied_history_iff discovered [] = (λ h. tt, λ h. refl)
  validate_applied_history_iff [] (a ∷ applied) = (λ h. cc, λ h. absurd h)
  validate_applied_history_iff (expected ∷ discovered) (a ∷ applied) =
      let rest = validate_applied_history_iff discovered applied in
      let version = int_eq_iff a.version expected.version in
      let first = text_eq_iff expected.checksum a.checksum in
      let second = text_eq_iff (digest expected.sql) a.checksum in
      let third =
        text_eq_iff (digest (lf_to_crlf (normalize_sql_for_checksum expected.sql))) a.checksum in
      (
        λ h. ground (arith, rest, version, first, second, third),
        λ h. ground (arith, rest, version, first, second, third),
      )
