-- ===== src/Ledger/WriteOnce.antt =====
-- What later writes leave of a row (`record`, `label`, `record_execution` and `record_resolution` of
-- brain/src/coroner_brain/ledger.py).
use coroner.Base.{
  String, ◌≡◌, refl, Bool, true, false, any, none, some, List, [], ◌∷◌, arith, ◌==◌, eq_iff,
  or_else, Bool-cases, inl, inr,
}
use coroner.Contract.{Instant}
use coroner.Ledger.{
  Table, Row, Labels, Result, ok, err, get, truthy, is_final, label_refusal, apply_labels,
  execution_refusal, apply_execution, apply_resolution,
}
use coroner.Ledger.Keys.{get-update, get-record_entry}
use coroner.Ledger.Writes.{
  Write, write_labels, write_execution, write_resolution, Wrote, attempt, attempt-Wrote,
  table_after, target, refusal_of, effect, effect-KeepsKey,
}
use coroner.Ledger.Lifecycle.{Operation, record_op, write_op, operate, operate_all}

-- How a write may change a row: what was recorded stays, a label that is there stays, and the
-- outcome of an execution stays.
pub record Persists (r s : Row) : Type 0 where
  pub entry : s.entry ≡ r.entry
  pub recorded_at : s.recorded_at ≡ r.recorded_at
  pub decision : truthy r.decision ≡ true → s.decision ≡ r.decision
  pub decision_at : truthy r.decision ≡ true → s.decision_at ≡ r.decision_at
  pub shadow_rating : truthy r.shadow_rating ≡ true → s.shadow_rating ≡ r.shadow_rating
  pub actual_cause : truthy r.actual_cause ≡ true → s.actual_cause ≡ r.actual_cause
  pub execution : is_final r.execution_status ≡ true → s.execution_status ≡ r.execution_status

pub Persists-refl : (r : Row) → Persists r r
Persists-refl r = ground arith

pub Persists-trans : (a b c : Row) → Persists a b → Persists b c → Persists a c
Persists-trans a b c p q = ground arith

apply_labels-Persists :
    (now : Instant) (l : Labels) (r : Row)
    → label_refusal l r ≡ none
    → Persists r (apply_labels now l r)
unfolding apply_labels label_refusal
apply_labels-Persists now l r h = ground arith

apply_execution-Persists :
    (now : Instant) (status detail : String) (r : Row)
    → execution_refusal status r ≡ none
    → Persists r (apply_execution now status detail r)
unfolding apply_execution execution_refusal
apply_execution-Persists now status detail r h =
    ground (arith, eq_iff status (or_else r.execution_status ""))

apply_resolution-Persists :
    (now : Instant) (resolved : Bool) (detail : String) (r : Row)
    → Persists r (apply_resolution now resolved detail r)
unfolding apply_resolution
apply_resolution-Persists now resolved detail r = ground arith

effect-Persists : (w : Write) (r : Row) → refusal_of w r ≡ none → Persists r (effect w r)
effect-Persists (write_labels now id l) r h = apply_labels-Persists now l r h
effect-Persists (write_execution now id status detail) r h =
    apply_execution-Persists now status detail r h
effect-Persists (write_resolution now id resolved detail) r h =
    apply_resolution-Persists now resolved detail r

-- A row that a read finds, and what it has become.
pub record Kept (id : String) (r : Row) (t : Table) : Type 0 where
  pub row : Row
  pub found : get id t ≡ some row
  pub persists : Persists r row

Wrote-Kept :
    (w : Write) (id : String) (r : Row) (t u : Table)
    → get id t ≡ some r
    → Wrote (target w) (refusal_of w) (effect w) t u
    → Kept id r u
Wrote-Kept w id r t u h d = elim (Bool-cases (target w == id)) [
  | inl same ↦ record {
    row = effect w r;
    found = ground (arith, d.written, get-update (target w) id (effect w) t (effect-KeepsKey w));
    persists = effect-Persists w r (ground (arith, d.allowed, d.found, eq_iff (target w) id));
  }
  | inr other ↦ record {
    row = r;
    found = ground (arith, d.written, get-update (target w) id (effect w) t (effect-KeepsKey w));
    persists = Persists-refl r;
  }
]

pub after-Kept :
    (w : Write) (id : String) (r : Row) (t : Table) (res : Result Table)
    → get id t ≡ some r
    → attempt w t ≡ res
    → Kept id r (table_after t res)
after-Kept w id r t (ok u) h e = Wrote-Kept w id r t u h (attempt-Wrote w t u e)
after-Kept w id r t (err x) h e = record { row = r; found = h; persists = Persists-refl r }

-- The operation records the incident anew, which replaces its row.
abbrev pub records : String → Operation → Bool
records id (record_op now e) = e.incident_id == id
records id (write_op w) = false

operate-Kept :
    (o : Operation) (id : String) (r : Row) (t : Table)
    → get id t ≡ some r
    → records id o ≡ false
    → Kept id r (operate o t)
unfolding operate
operate-Kept (record_op now e) id r t h n = record {
  row = r;
  found = ground (arith, get-record_entry now e id t);
  persists = Persists-refl r;
}
operate-Kept (write_op w) id r t h n = after-Kept w id r t (attempt w t) h refl

-- Whatever is written later, and whatever other incidents are recorded, a row stays until its own
-- incident is recorded anew: its entry does not change, and a decision, a rating, an actual cause
-- and a final execution status that it has stay as they were written.
pub operate_all-Persists :
    (os : List Operation) (id : String) (r : Row) (t : Table)
    → get id t ≡ some r
    → any (records id) os ≡ false
    → Kept id r (operate_all os t)
unfolding operate_all
operate_all-Persists [] id r t h n = record { row = r; found = h; persists = Persists-refl r }
operate_all-Persists (o ∷ os) id r t h n =
    let k = operate-Kept o id r t h (ground arith) in
    let rest = operate_all-Persists os id k.row (operate o t) k.found (ground arith) in
    record {
      row = rest.row;
      found = rest.found;
      persists = Persists-trans r k.row rest.row k.persists rest.persists;
    }
