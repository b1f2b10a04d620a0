-- ===== src/Cmd/Ack.antt =====
-- cmd/bqcubbit/main.go, `runAckSchemaChange`.
use bqcubbit.Base.{Text, Bool, true, false, Option, none, some, ◌≢◌}
use bqcubbit.State.{TableState, Result, ok, err}
use bqcubbit.State.Sqlite.{Store}
use bqcubbit.State.Sqlite.Tables.{get_or_create_table, acknowledge_schema_change}
use bqcubbit.State.Sqlite.Tables.Laws.{acknowledge_schema_change_fails}
use bqcubbit.Sync.All.{split_dot}

pub data AckError : Type 0 where
  bad_table_format no_state no_table not_acknowledged : AckError

unfoldable pub ack_answer : Result (Unit {0}) × Store → Option AckError × Store
ack_answer (err e, s) = (some not_acknowledged, s)
ack_answer (ok x, s) = (none, s)

-- The version that is acknowledged is the one that the table has.
unfoldable pub ack_table : Result TableState × Store → Option AckError × Store
unfolding ack_answer
ack_table (err e, s) = (some no_table, s)
ack_table (ok t, s) = ack_answer (acknowledge_schema_change t.id t.schema_version s)

unfoldable pub ack_named : Bool → Text → Option (Text × Text) → Store → Option AckError × Store
unfolding ack_table
ack_named opened project none s = (some bad_table_format, s)
ack_named false project (some (dataset, table)) s = (some no_state, s)
ack_named true project (some (dataset, table)) s =
    ack_table (get_or_create_table project dataset table s)

-- `runAckSchemaChange`, on whether the database could be opened, and the project of the
-- configuration.
unfoldable pub run_ack_schema_change : Bool → Text → Text → Store → Option AckError × Store
unfolding ack_named
run_ack_schema_change opened project table s = ack_named opened project (split_dot table) s

ack_table_fails : (r : Result TableState × Store) → (ack_table r).0 ≢ none
unfolding ack_table
ack_table_fails (err e, s) = λ h. absurd (cc)
ack_table_fails (ok t, s) =
    rw (acknowledge_schema_change_fails t.id t.schema_version s, ack_answer) (λ h. absurd (cc))

ack_named_fails :
    (opened : Bool) (project : Text) (name : Option (Text × Text)) (s : Store)
    → (ack_named opened project name s).0 ≢ none
unfolding ack_named
ack_named_fails opened project none s = λ h. absurd (cc)
ack_named_fails false project (some (dataset, table)) s = λ h. absurd (cc)
ack_named_fails true project (some (dataset, table)) s =
    ack_table_fails (get_or_create_table project dataset table s)

-- `ack-schema-change` never succeeds, whatever table is named and whatever the database holds.
pub run_ack_schema_change_fails :
    (opened : Bool) (project table : Text) (s : Store)
    → (run_ack_schema_change opened project table s).0 ≢ none
unfolding run_ack_schema_change
run_ack_schema_change_fails opened project table s =
    ack_named_fails opened project (split_dot table) s
