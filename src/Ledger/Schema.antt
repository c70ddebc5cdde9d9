-- ===== src/Ledger/Schema.antt =====
-- The schema of the ledger file and its migrations (`_SCHEMA`, `_MIGRATIONS` and `Ledger.__init__` of
-- brain/src/coroner_brain/ledger.py). SQLite itself is other code: a file is the version that it
-- records and the columns of the table `diagnoses`.
pub mod Migrates
use coroner.Base.{
  ℕ, zero, suc, ◌+◌, ◌-◌, String, Bool, not, Option, none, some, List, [], ◌∷◌, ◌++◌, map, any,
  keep, eqb, or_else, if◌then◌else◌, ◌==◌, ◌≡◌, refl,
}

abbrev pub schema_version : ℕ
schema_version = 6

-- A column: its name, and the rest of its definition.
pub record Column : Type 0 where
  pub name : String
  pub definition : String

abbrev column : String → String → Column
column name definition = record { name = name; definition = definition }

abbrev texts : List String → List Column
texts = map (λ name. column name "TEXT")

abbrev required : List String → List Column
required = map (λ name. column name "TEXT NOT NULL")

abbrev blank : List String → List Column
blank = map (λ name. column name "TEXT NOT NULL DEFAULT ''")

abbrev counts : List String → List Column
counts = map (λ name. column name "INTEGER NOT NULL DEFAULT 0")

abbrev empty_lists : List String → List Column
empty_lists = map (λ name. column name "TEXT NOT NULL DEFAULT '[]'")

abbrev reals : List String → List Column
reals = map (λ name. column name "REAL")

-- the columns that each version added
unfoldable pub migrations : ℕ → List Column
migrations version =
    if eqb version 2
    then texts ("decision_action" ∷ "approval_token" ∷ [])
    else if eqb version 3
    then blank ("contract_json" ∷ [])
    else if eqb version 4
    then blank ("discard_reason" ∷ [])
    else if eqb version 5
    then texts (
        "execution_status" ∷ "execution_detail" ∷ "executed_at" ∷ "resolution_detail"
        ∷ "resolved_at" ∷ [])
    else if eqb version 6
    then counts ("prompt_tokens" ∷ "completion_tokens" ∷ [])
      ++ column "cost_usd" "REAL NOT NULL DEFAULT 0" ∷ counts ("latency_ms_total" ∷ [])
    else []

-- the columns that the first version had
unfoldable pub first_columns : List Column
first_columns =
    column "incident_id" "TEXT PRIMARY KEY"
    ∷ (required (
          "recorded_at" ∷ "failure_type" ∷ "contract_version" ∷ "context_hash" ∷ "evidence_class"
          ∷ "model_id" ∷ "prompt_version" ∷ "outcome" ∷ [])
        ++ (column "abstained" "INTEGER NOT NULL"
            ∷ (blank (
                  "abstain_reason" ∷ "root_cause" ∷ "explanation" ∷ "proposed_action"
                  ∷ "competing_hypothesis" ∷ [])
                ++ (empty_lists ("evidence_json" ∷ [])
                    ++ (reals ("confidence_model" ∷ "confidence_final" ∷ [])
                        ++ (empty_lists ("validation_failures" ∷ [])
                            ++ (counts ("validation_retries" ∷ [])
                                ++ (texts (
                                      "decision" ∷ "decision_at" ∷ "decision_reason"
                                      ∷ "shadow_rating" ∷ "actual_cause" ∷ [])
                                    ++ column "resolved_within_sla" "INTEGER" ∷ []))))))))

-- the columns of a new file, and so of the latest version
unfoldable pub schema : List Column
unfolding first_columns
schema =
    first_columns
    ++ (texts ("decision_action" ∷ "approval_token" ∷ [])
        ++ (blank ("contract_json" ∷ "discard_reason" ∷ [])
            ++ (texts (
                  "execution_status" ∷ "execution_detail" ∷ "executed_at" ∷ "resolution_detail"
                  ∷ "resolved_at" ∷ [])
                ++ (counts ("prompt_tokens" ∷ "completion_tokens" ∷ [])
                    ++ column "cost_usd" "REAL NOT NULL DEFAULT 0"
                      ∷ counts ("latency_ms_total" ∷ [])))))

-- A ledger file: what schema_meta records, and the columns of its table, if it has one.
pub record File : Type 0 where
  pub version : Option ℕ
  pub columns : Option (List Column)

abbrev pub has : String → List Column → Bool
has name columns = any (λ c. c.name == name) columns

-- the migrations of `count` versions after one
abbrev pub later : ℕ → ℕ → List Column
later version zero = []
later version (suc count) = migrations (suc version) ++ later (suc version) count

-- the statements that `_apply_migrations` runs: those whose column did not exist at its start
abbrev pub missing : List Column → List Column → List Column
missing existing statements = keep (λ c. not (has c.name existing)) statements

-- `_apply_migrations`
unfoldable pub apply_migrations : ℕ → List Column → Option ℕ → File
unfolding migrations
apply_migrations current existing version = record {
  version = if eqb current schema_version then version else some schema_version;
  columns = some (existing ++ missing existing (later current (schema_version - current)));
}

-- `Ledger.__init__`
unfoldable pub opened : File → File
unfolding apply_migrations schema
opened f =
    let existing = or_else f.columns schema in
    elim f.version [
      | none ↦ apply_migrations 1 existing (some schema_version)
      | some current ↦ apply_migrations current existing (some current)
    ]
