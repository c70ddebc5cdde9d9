-- ===== src/Ledger/Writes.antt =====
-- The writes of the ledger taken together (`label`, `record_execution` and `record_resolution` of
-- brain/src/coroner_brain/ledger.py): what is known of one that went through.
use coroner.Base.{
  String, ◌≡◌, refl, Bool, Option, none, some, arith, Option-cases, inl, inr, eq_iff, ◌≢◌,
}
use coroner.Contract.{Instant}
use coroner.Ledger.{
  Table, Row, Labels, LedgerError, Result, ok, err, get, update, label, label_refusal, apply_labels,
  execution_refusal, apply_execution, record_execution, resolution_refusal, apply_resolution,
  record_resolution, checked_update,
}
use coroner.Ledger.Keys.{KeepsKey, get-update}

-- What is known of a write that went through.
pub record Wrote (id : String) (refusal : Row → Option LedgerError) (f : Row → Row) (t u : Table)
    : Type 0 where
  pub row : Row
  pub found : get id t ≡ some row
  pub allowed : refusal row ≡ none
  pub written : u ≡ update id f t

pub checked_update-Wrote :
    (id : String) (refusal : Row → Option LedgerError) (f : Row → Row) (t u : Table)
    → checked_update id t refusal f ≡ ok u
    → Wrote id refusal f t u
checked_update-Wrote id refusal f t u h = elim (Option-cases (get id t)) [
  | inl e ↦ absurd (ground arith)
  | inr (r, e) ↦ elim (Option-cases (refusal r)) [
    | inl a ↦ record { row = r; found = e; allowed = a; written = ground arith }
    | inr (x, b) ↦ absurd (ground arith)
  ]
]

-- The writes that come after a row is recorded.
pub data Write : Type 0 where
  write_labels : Instant → String → Labels → Write
  write_execution : Instant → String → String → String → Write
  write_resolution : Instant → String → Bool → String → Write

unfoldable pub attempt : Write → Table → Result Table
attempt (write_labels now id l) t = label now id l t
attempt (write_execution now id status detail) t = record_execution now id status detail t
attempt (write_resolution now id resolved detail) t = record_resolution now id resolved detail t

-- a refused write raises, and leaves the table as it was
abbrev pub table_after : Table → Result Table → Table
table_after t (ok u) = u
table_after t (err e) = t

abbrev pub target : Write → String
target (write_labels now id l) = id
target (write_execution now id status detail) = id
target (write_resolution now id resolved detail) = id

abbrev pub refusal_of : Write → Row → Option LedgerError
refusal_of (write_labels now id l) = label_refusal l
refusal_of (write_execution now id status detail) = execution_refusal status
refusal_of (write_resolution now id resolved detail) = resolution_refusal

abbrev pub effect : Write → Row → Row
effect (write_labels now id l) = apply_labels now l
effect (write_execution now id status detail) = apply_execution now status detail
effect (write_resolution now id resolved detail) = apply_resolution now resolved detail

pub effect-KeepsKey : (w : Write) → KeepsKey (effect w)
unfolding apply_labels apply_execution apply_resolution
effect-KeepsKey (write_labels now id l) r = refl
effect-KeepsKey _ r = refl

pub attempt-Wrote :
    (w : Write) (t u : Table) → attempt w t ≡ ok u → Wrote (target w) (refusal_of w) (effect w) t u
unfolding attempt label record_execution record_resolution
attempt-Wrote (write_labels now id l) t u h = checked_update-Wrote id _ _ t u h
attempt-Wrote (write_execution now id status detail) t u h = checked_update-Wrote id _ _ t u h
attempt-Wrote (write_resolution now id resolved detail) t u h = checked_update-Wrote id _ _ t u h

-- A label that is written is what a read of its incident finds next, and no other read changes.
pub record Labelled (now : Instant) (id : String) (l : Labels) (t u : Table) : Type 0 where
  pub row : Row
  pub found : get id t ≡ some row
  pub allowed : label_refusal l row ≡ none
  pub relabelled : get id u ≡ some (apply_labels now l row)
  pub others : (j : String) → id ≢ j → get j u ≡ get j t

pub label-Labelled :
    (now : Instant) (id : String) (l : Labels) (t u : Table)
    → label now id l t ≡ ok u
    → Labelled now id l t u
unfolding attempt
label-Labelled now id l t u h =
    let w = write_labels now id l in
    let d = attempt-Wrote w t u h in
    record {
      row = d.row;
      found = d.found;
      allowed = d.allowed;
      relabelled = ground (
        arith,
        d.written,
        d.found,
        get-update id id (effect w) t (effect-KeepsKey w),
        eq_iff id id,
      );
      others = λ j ne.
          ground (arith, d.written, get-update id j (effect w) t (effect-KeepsKey w), eq_iff id j);
    }
