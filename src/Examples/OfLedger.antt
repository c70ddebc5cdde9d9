-- ===== src/Examples/OfLedger.antt =====
-- The ledger over the life of one incident.
use mathlib.Core.List.{Perm}
use coroner.Base.{
  ◌==◌, false, true, ◌≡◌, refl, some, ◌↔◌, true, false, List, [], ◌∷◌, keep, if◌then◌else◌, ◌==◌,
}
use coroner.Ledger.{
  Table, ok, Row, Labels, no_labels, get, new_row, record_entry, label, label_refusal, apply_labels,
  record_execution, execution_refusal, apply_execution, approved, is_actionable,
}
use coroner.Ledger.Keys.{get-record_entry}
use coroner.Ledger.Writes.{write_labels, write_execution, write_resolution, attempt}
use coroner.Ledger.WriteOnce.{Kept, operate_all-Persists}
use coroner.Ledger.Lifecycle.{
  Operation, record_op, write_op, operate, operate_all, IsAccountable, ledger-IsAccountable,
}
use coroner.Ledger.Approved.{IsOrdered, AllOpen, IsDue, approved_lem}
use coroner.Examples.{entry, undecided}

abbrev approval : Labels
approval = record no_labels {
  decision = some "approved";
  decision_action = some "fix the host";
  approval_token = some "v1.x";
}

abbrev decided : Row
decided = apply_labels 3 approval undecided

decided_row : get "inc-1" (decided ∷ []) ≡ some decided
unfolding get apply_labels
decided_row = refl

get-record_entry_example :
    get "inc-1" (record_entry 5 entry (decided ∷ []))
    ≡ (if "inc-1" == "inc-1" then some (new_row 5 entry) else get "inc-1" (decided ∷ []))
get-record_entry_example = get-record_entry 5 entry "inc-1" (decided ∷ [])

abbrev writes : List Operation
writes =
    write_op (write_labels 6 "inc-1" (record no_labels { decision = some "rejected" }))
    ∷ record_op 6 (record entry { incident_id = "inc-2" })
    ∷ write_op (write_execution 7 "inc-1" "executed" "restarted")
    ∷ write_op (write_resolution 8 "inc-1" true "quiet")
    ∷ []

operate_all-Persists_example : Kept "inc-1" decided (operate_all writes (decided ∷ []))
operate_all-Persists_example =
    operate_all-Persists writes "inc-1" decided (decided ∷ []) decided_row refl

abbrev life : List Operation
life =
    record_op 0 entry
    ∷ write_op (write_labels 3 "inc-1" approval)
    ∷ write_op (write_execution 7 "inc-1" "executed" "restarted")
    ∷ []

abbrev executed : Row
executed = apply_execution 7 "executed" "restarted" (apply_labels 3 approval (new_row 0 entry))

executed_row : get "inc-1" (operate_all life []) ≡ some executed
unfolding operate_all operate record_entry new_row attempt label label_refusal apply_labels
    record_execution execution_refusal apply_execution get
executed_row = refl

ledger-IsAccountable_example : IsAccountable executed
ledger-IsAccountable_example = ledger-IsAccountable life "inc-1" executed executed_row

approved_lem_example :
    Perm
      (approved false (decided ∷ undecided ∷ []))
      (keep (is_actionable false) (decided ∷ undecided ∷ []))
    × IsOrdered (approved false (decided ∷ undecided ∷ []))
    × AllOpen (approved false (decided ∷ undecided ∷ []))
    × ((r : Row) → (is_actionable false r ≡ true) ↔ IsDue false r)
approved_lem_example = approved_lem false (decided ∷ undecided ∷ [])

abbrev finished_table : Table
finished_table = executed ∷ []

abbrev approved_table : Table
approved_table = apply_labels 3 approval (new_row 0 entry) ∷ []

reported : record_execution 7 "inc-1" "executed" "restarted" approved_table ≡ ok finished_table
unfolding record_execution execution_refusal apply_execution apply_labels new_row get
reported = refl
