-- ===== src/Ledger/Lifecycle.antt =====
-- What holds of every row of a ledger that started empty, whatever the program did to it
-- (brain/src/coroner_brain/ledger.py).
use coroner.Base.{
  String, ◌≡◌, refl, Bool, true, none, some, List, [], ◌∷◌, arith, ◌==◌, eq_iff, is_some, or_else,
  subst, Bool-cases, inl, inr,
}
use coroner.Contract.{Instant}
use coroner.Ledger.{
  Table, Row, LedgerEntry, Labels, Result, ok, err, get, new_row, record_entry, authorises,
  label_refusal, apply_labels, execution_refusal, apply_execution, resolution_refusal,
  apply_resolution,
}
use coroner.Ledger.Keys.{get-update, get-record_entry}
use coroner.Ledger.Writes.{
  Write, write_labels, write_execution, write_resolution, Wrote, attempt, attempt-Wrote,
  table_after, target, refusal_of, effect, effect-KeepsKey,
}

-- An execution is on record only under a decision that authorises it, and the detail and the time of
-- a resolution only after an execution that was carried out. (The column resolved_within_sla is a
-- label that may stand on any row.)
pub record IsAccountable (r : Row) : Type 0 where
  pub authorised : is_some r.execution_status ≡ true → authorises r.decision ≡ true
  pub executed : is_some r.resolution_detail ≡ true → r.execution_status ≡ some "executed"
  pub resolved : is_some r.resolved_at ≡ true → r.execution_status ≡ some "executed"

labels-IsAccountable :
    (now : Instant) (l : Labels) (r : Row)
    → label_refusal l r ≡ none
    → IsAccountable r
    → IsAccountable (apply_labels now l r)
unfolding apply_labels label_refusal
labels-IsAccountable now l r h a = ground (
  arith,
  eq_iff (or_else r.decision "") "",
  eq_iff (or_else r.decision "") "approved",
  eq_iff (or_else r.decision "") "edited",
  eq_iff "approved" "",
  eq_iff "edited" "",
)

execution-IsAccountable :
    (now : Instant) (status detail : String) (r : Row)
    → execution_refusal status r ≡ none
    → IsAccountable r
    → IsAccountable (apply_execution now status detail r)
unfolding apply_execution execution_refusal
execution-IsAccountable now status detail r h a =
    ground (arith, eq_iff status (or_else r.execution_status ""), eq_iff "executed" "executed")

resolution-IsAccountable :
    (now : Instant) (resolved : Bool) (detail : String) (r : Row)
    → resolution_refusal r ≡ none
    → IsAccountable r
    → IsAccountable (apply_resolution now resolved detail r)
unfolding apply_resolution resolution_refusal
resolution-IsAccountable now resolved detail r h a =
    ground (arith, eq_iff (or_else r.execution_status "") "executed", eq_iff "" "executed")

effect-IsAccountable :
    (w : Write) (r : Row) → refusal_of w r ≡ none → IsAccountable r → IsAccountable (effect w r)
effect-IsAccountable (write_labels now id l) r h a = labels-IsAccountable now l r h a
effect-IsAccountable (write_execution now id status detail) r h a =
    execution-IsAccountable now status detail r h a
effect-IsAccountable (write_resolution now id resolved detail) r h a =
    resolution-IsAccountable now resolved detail r h a

abbrev pub AllRows : (Row → Type 0) → Table → Type 0
AllRows P t = (id : String) (r : Row) → get id t ≡ some r → P r

Wrote-AllRows :
    (w : Write) (t u : Table)
    → AllRows IsAccountable t
    → Wrote (target w) (refusal_of w) (effect w) t u
    → AllRows IsAccountable u
Wrote-AllRows w t u h d id r e =
    let law = get-update (target w) id (effect w) t (effect-KeepsKey w) in
    elim (Bool-cases (target w == id)) [
      | inl same ↦
          subst IsAccountable (ground (arith, d.written, d.found, eq_iff (target w) id, law))
            (effect-IsAccountable w d.row d.allowed (h (target w) d.row d.found))
      | inr other ↦ h id r (ground (arith, d.written, law))
    ]

-- The operations of the ledger that write.
pub data Operation : Type 0 where
  record_op : Instant → LedgerEntry → Operation
  write_op : Write → Operation

unfoldable pub operate : Operation → Table → Table
operate (record_op now e) t = record_entry now e t
operate (write_op w) t = table_after t (attempt w t)

unfoldable pub operate_all : List Operation → Table → Table
unfolding operate
operate_all [] t = t
operate_all (o ∷ os) t = operate_all os (operate o t)

after-AllRows :
    (w : Write) (t : Table) (res : Result Table)
    → AllRows IsAccountable t
    → attempt w t ≡ res
    → AllRows IsAccountable (table_after t res)
after-AllRows w t (ok u) h e = Wrote-AllRows w t u h (attempt-Wrote w t u e)
after-AllRows w t (err x) h e = h

record-AllRows :
    (now : Instant) (e : LedgerEntry) (t : Table)
    → AllRows IsAccountable t
    → AllRows IsAccountable (record_entry now e t)
unfolding new_row
record-AllRows now e t h id r g = elim (Bool-cases (e.incident_id == id)) [
  | inl same ↦
      subst IsAccountable {x = new_row now e} (ground (arith, get-record_entry now e id t))
        (ground arith)
  | inr other ↦ h id r (ground (arith, get-record_entry now e id t))
]

operate-AllRows :
    (o : Operation) (t : Table) → AllRows IsAccountable t → AllRows IsAccountable (operate o t)
unfolding operate
operate-AllRows (record_op now e) t h = record-AllRows now e t h
operate-AllRows (write_op w) t h = after-AllRows w t (attempt w t) h refl

operate_all-AllRows :
    (os : List Operation) (t : Table)
    → AllRows IsAccountable t
    → AllRows IsAccountable (operate_all os t)
unfolding operate_all
operate_all-AllRows [] t h = h
operate_all-AllRows (o ∷ os) t h = operate_all-AllRows os (operate o t) (operate-AllRows o t h)

-- In a ledger that started empty, whatever was recorded and written and whichever writes were
-- refused, an execution stands only under an approval or an edit, and the detail and the time of a
-- resolution only after an executed action.
pub ledger-IsAccountable :
    (os : List Operation) (id : String) (r : Row)
    → get id (operate_all os []) ≡ some r
    → IsAccountable r
unfolding get
ledger-IsAccountable os = operate_all-AllRows os [] (λ id r e. absurd (ground arith))
