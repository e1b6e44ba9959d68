-- ===== src/Tests/Migrations.antt =====
-- A history of one migration out of two, and a schema at the expected version.
use blue_lagoon.Base.{◌≡◌, ◌↔◌, pos, [], ◌∷◌, Text, codes, ok}
use blue_lagoon.Migration.{Migration, AppliedMigration, validate_applied_history}
use blue_lagoon.Migration.History.{IsPrefix, validate_applied_history_iff}

abbrev digest : Text → Text
digest sql = b'#' ∷ sql

abbrev first : Migration
first = record {
  version = pos 1;
  name = codes "runtime_foundation";
  sql = codes "SELECT 1;";
  checksum = codes "#SELECT 1;";
}

abbrev second : Migration
second = record {
  version = pos 2;
  name = codes "foreground_loop";
  sql = codes "SELECT 2;";
  checksum = codes "#SELECT 2;";
}

abbrev applied : AppliedMigration
applied = record {
  version = pos 1;
  name = codes "runtime_foundation";
  checksum = codes "#SELECT 1;";
}

validate_applied_history_iff_example :
    (validate_applied_history digest (first ∷ second ∷ []) (applied ∷ []) ≡ ok tt)
    ↔ IsPrefix digest (applied ∷ []) (first ∷ second ∷ [])
validate_applied_history_iff_example =
    validate_applied_history_iff digest (first ∷ second ∷ []) (applied ∷ [])
