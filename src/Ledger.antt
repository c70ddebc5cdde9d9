-- ===== src/Ledger.antt =====
-- The accuracy ledger (brain/src/coroner_brain/ledger.py): the table `diagnoses` as a list of rows,
-- and each method of `Ledger` as a function of it.
mod Columns
pub mod Keys
pub mod Writes
pub mod WriteOnce
pub mod Lifecycle
pub mod Approved
pub mod Reported
pub mod Schema
pub mod Race
pub use Columns.*
use coroner.Base.{
  ℕ, ◌+◌, String, Bool, true, false, not, ◌&&◌, ◌||◌, Option, none, some, List, [], ◌∷◌, ◌++◌,
  length, keep, leb, is_some, or_else, if◌then◌else◌, ◌==◌,
}
use coroner.Contract.{Instant, Micro, Contract}
use coroner.Evidence.{EvidenceClass}
use coroner.Diagnosis.{Outcome, discarded, Citation, Failure, AbstainReason, DiscardReason}

-- `bool(column)`: neither NULL nor the empty text
abbrev pub truthy : Option String → Bool
truthy none = false
truthy (some s) = not (s == "")

-- SELECT * FROM diagnoses WHERE incident_id = ?
unfoldable pub get : String → Table → Option Row
get id [] = none
get id (r ∷ rows) = if r.incident_id == id then some r else get id rows

-- UPDATE diagnoses SET ... WHERE incident_id = ?
pub update : String → (Row → Row) → Table → Table
update id f [] = []
update id f (r ∷ rows) = (if r.incident_id == id then f r else r) ∷ update id f rows

pub without : String → Table → Table
without id [] = []
without id (r ∷ rows) = let rest = without id rows in if r.incident_id == id then rest else r ∷ rest

-- the columns that an INSERT does not name are NULL
unfoldable pub new_row : Instant → LedgerEntry → Row
new_row now entry = record {
  entry = entry;
  recorded_at = now;
  decision = none;
  decision_at = none;
  decision_reason = none;
  shadow_rating = none;
  actual_cause = none;
  resolved_within_sla = none;
  decision_action = none;
  approval_token = none;
  execution_status = none;
  execution_detail = none;
  executed_at = none;
  resolution_detail = none;
  resolved_at = none;
}

-- `record`: INSERT OR REPLACE deletes the row of the same key, and appends.
unfoldable pub record_entry : Instant → LedgerEntry → Table → Table
unfolding without new_row
record_entry now entry table = without entry.incident_id table ++ new_row now entry ∷ []

-- a column after an assignment that is made only if a value is given
abbrev pub assign {ℓ} : {A : Type ℓ} → Option A → Option A → Option A
assign none old = old
assign (some new) old = some new

abbrev pub stamp : Option String → Instant → Option Instant → Option Instant
stamp none now old = old
stamp (some _) now old = some now

unfoldable pub apply_labels : Instant → Labels → Row → Row
apply_labels now l r = record r {
  decision = assign l.decision r.decision;
  decision_at = stamp l.decision now r.decision_at;
  decision_reason = assign l.decision_reason r.decision_reason;
  decision_action = assign l.decision_action r.decision_action;
  approval_token = assign l.approval_token r.approval_token;
  shadow_rating = assign l.shadow_rating r.shadow_rating;
  actual_cause = assign l.actual_cause r.actual_cause;
  resolved_within_sla = assign l.resolved_within_sla r.resolved_within_sla;
}

abbrev pub is_discarded : Option Outcome → Bool
is_discarded (some discarded) = true
is_discarded _ = false

-- the refusals of `label`, in the order of its tests; `none` lets the update run
unfoldable pub label_refusal : Labels → Row → Option LedgerError
label_refusal l r =
    if is_some l.decision && truthy r.decision
    then some (already_labelled "decision" (or_else r.decision ""))
    else if is_some l.shadow_rating && truthy r.shadow_rating
    then some (already_labelled "shadow_rating" (or_else r.shadow_rating ""))
    else if is_some l.shadow_rating && is_discarded r.outcome
    then some not_ratable
    else if is_some l.actual_cause && truthy r.actual_cause
    then some (already_labelled "actual_cause" (or_else r.actual_cause ""))
    else none

-- a read of the row, a test of it, and the UPDATE if the test lets it through
abbrev checked_update : String → Table → (Row → Option LedgerError) → (Row → Row) → Result Table
checked_update id table refusal f = elim (get id table) [
  | none ↦ err unknown_incident
  | some r ↦ elim (refusal r) [ some e ↦ err e | none ↦ ok (update id f table) ]
]

unfoldable pub label : Instant → String → Labels → Table → Result Table
unfolding label_refusal apply_labels get update
label now id l table = checked_update id table (label_refusal l) (apply_labels now l)

-- `decision in ("approved", "edited")`
abbrev pub authorises : Option String → Bool
authorises none = false
authorises (some d) = d == "approved" || d == "edited"

-- `existing in ("executed", "failed", "refused")`
abbrev pub is_final : Option String → Bool
is_final none = false
is_final (some s) = s == "executed" || s == "failed" || s == "refused"

abbrev none_if_empty : Option String → String
none_if_empty none = "none"
none_if_empty (some s) = if s == "" then "none" else s

unfoldable pub execution_refusal : String → Row → Option LedgerError
execution_refusal status r =
    if not (authorises r.decision)
    then some (not_executable (none_if_empty r.decision))
    else if is_final r.execution_status && not (status == or_else r.execution_status "")
    then some (already_labelled "execution_status" (or_else r.execution_status ""))
    else none

unfoldable pub apply_execution : Instant → String → String → Row → Row
apply_execution now status detail r = record r {
  execution_status = some status;
  execution_detail = some detail;
  executed_at = some now;
}

unfoldable pub record_execution : Instant → String → String → String → Table → Result Table
unfolding execution_refusal apply_execution get update
record_execution now id status detail table =
    checked_update id table (execution_refusal status) (apply_execution now status detail)

abbrev int_text : Option Bool → String
int_text (some true) = "1"
int_text _ = "0"

unfoldable pub resolution_refusal : Row → Option LedgerError
resolution_refusal r =
    if not (or_else r.execution_status "" == "executed")
    then some (not_executable "not executed")
    else if is_some r.resolved_within_sla
    then some (already_labelled "resolved_within_sla" (int_text r.resolved_within_sla))
    else none

unfoldable pub apply_resolution : Instant → Bool → String → Row → Row
apply_resolution now resolved detail r = record r {
  resolved_within_sla = some resolved;
  resolution_detail = some detail;
  resolved_at = some now;
}

unfoldable pub record_resolution : Instant → String → Bool → String → Table → Result Table
unfolding resolution_refusal apply_resolution get update
record_resolution now id resolved detail table =
    checked_update id table resolution_refusal (apply_resolution now resolved detail)

-- ORDER BY decision_at: NULL first, and rows of one instant in the order of the table
abbrev pub at_or_before : Option Instant → Option Instant → Bool
at_or_before none _ = true
at_or_before (some a) none = false
at_or_before (some a) (some b) = leb a b

insert_by_decision : Row → Table → Table
insert_by_decision r [] = r ∷ []
insert_by_decision r (s ∷ rows) =
    let later = s ∷ insert_by_decision r rows in
    if at_or_before r.decision_at s.decision_at then r ∷ s ∷ rows else later

sort_by_decision : Table → Table
sort_by_decision [] = []
sort_by_decision (r ∷ rows) = insert_by_decision r (sort_by_decision rows)

-- the WHERE clause of `approved`
unfoldable pub is_actionable : Bool → Row → Bool
is_actionable include_proposed r =
    authorises r.decision
    && (or_else r.execution_status "" == ""
        || include_proposed && or_else r.execution_status "" == "proposed")

unfoldable pub approved : Bool → Table → Table
unfolding sort_by_decision insert_by_decision is_actionable
approved include_proposed table = sort_by_decision (keep (is_actionable include_proposed) table)

-- `count`
unfoldable pub count : Table → ℕ
count table = length table
