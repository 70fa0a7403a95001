-- ===== src/Store/Migrations.antt =====
-- metaharness/agentdb/turso/migrate.go: the schema migrations of an agent's database, in transactions.
-- `Trouble` is the error that the database answers a call with, if any.
pub mod Once
use agentgarage.Prelude.{
  ℕ, ◌==◌, Bool, true, false, ◌||◌, Option, none, some, List, [], ◌∷◌, ◌++◌, Text, codes, itoa,
  Attempt, failure, success, if◌then◌else◌,
}

-- What the statements of the migrations create.
pub data Statement : Type 0 where
  agent_sessions agent_sessions_updated_at agent_messages agent_notes agent_kv : Statement

pub record Migration : Type 0 where
  pub version : ℕ
  pub statements : List Statement

-- The database: whether the table of migrations exists, the versions in it, and the statements that
-- were carried out.
pub record Schema : Type 0 where
  pub tracked : Bool
  pub versions : List ℕ
  pub created : List Statement

pub data Call : Type 0 where
  create_table : Call
  inspect begin record_version commit : ℕ → Call
  apply : ℕ → Statement → Call

abbrev pub Trouble : Type 0
Trouble = Call → Option Text

abbrev pub migrations : List Migration
migrations =
    record {
      version = 1;
      statements = agent_sessions ∷ agent_sessions_updated_at ∷ agent_messages ∷ [];
    }
    ∷ record { version = 2; statements = agent_notes ∷ [] }
    ∷ record { version = 3; statements = agent_kv ∷ [] }
    ∷ []

unfoldable pub applied : ℕ → List ℕ → Bool
applied v [] = false
applied v (u ∷ us) = (u == v) || applied v us

module _ (trouble : Trouble) where
  abbrev pub migration_error : Text → ℕ → Text → Text
  migration_error what v e =
      codes "turso: " ++ (what ++ (codes " migration " ++ (itoa v ++ (codes ": " ++ e))))

  unfoldable pub exec_all : ℕ → List Statement → List Statement → Attempt (List Statement)
  exec_all v [] done = success done
  exec_all v (s ∷ ss) done =
      let rest = exec_all v ss (done ++ s ∷ []) in
      elim (trouble (apply v s)) [
        | some e ↦ failure (migration_error (codes "apply") v e)
        | none ↦ rest
      ]

  -- The end of the transaction: what fails before the commit is rolled back.
  unfoldable pub end_migration : ℕ → Attempt (List Statement) → Schema → Option Text × Schema
  end_migration v (failure e) d = (some e, d)
  end_migration v (success created) d = elim (trouble (record_version v)) [
    | some e ↦ (some (migration_error (codes "record") v e), d)
    | none ↦ elim (trouble (commit v)) [
      | some e ↦ (some (migration_error (codes "commit") v e), d)
      | none ↦ (none, record d { versions = d.versions ++ v ∷ []; created = created })
    ]
  ]

  unfoldable pub apply_migration : Migration → Schema → Option Text × Schema
  unfolding end_migration exec_all
  apply_migration m d = elim (trouble (begin m.version)) [
    | some e ↦ (some (migration_error (codes "begin") m.version e), d)
    | none ↦ end_migration m.version (exec_all m.version m.statements d.created) d
  ]

  unfoldable pub migrate_one : Migration → Schema → Option Text × Schema
  unfolding applied apply_migration
  migrate_one m d = elim (trouble (inspect m.version)) [
    | some e ↦ (some (migration_error (codes "inspect") m.version e), d)
    | none ↦ if applied m.version d.versions then (none, d) else apply_migration m d
  ]

  -- The migrations that are left, after what the ones before did.
  unfoldable pub migrate_all : List Migration → Option Text × Schema → Option Text × Schema
  unfolding migrate_one
  migrate_all ms (some e, d) = (some e, d)
  migrate_all [] (none, d) = (none, d)
  migrate_all (m ∷ ms) (none, d) = migrate_all ms (migrate_one m d)

  unfoldable pub migrate : Option Text → Schema → Option Text × Schema
  unfolding migrate_all
  migrate (some e) d = (some e, d)
  migrate none d = elim (trouble create_table) [
    | some e ↦ (some (codes "turso: create migrations table: " ++ e), d)
    | none ↦ migrate_all migrations (none, record d { tracked = true })
  ]
