-- ===== src/Api/Quiet.antt =====
-- Steps that give no incident a decision that authorises action, and keep each parked record under
-- its own incident (brain/src/coroner_brain/approval.py, inflight.py and ledger.py).
pub mod Decide
pub mod Sweep
pub mod Interact
pub mod Serve
use coroner.Base.{
  ℕ, ◌+◌, ◌≤◌, String, ◌≡◌, ◌⊎◌, inl, inr, refl, sym, ◌∙◌, Bool, true, false, Option, none, some,
  List, [], ◌∷◌, arith, ◌==◌, eq_iff, Option-cases, Bool-cases, if◌then◌else◌,
}
use coroner.Contract.{Instant}
use coroner.Inflight.{InFlightStore}
use coroner.Ledger
use coroner.Ledger.{
  Row, Table, Labels, LedgerEntry, authorises, record_entry, new_row, apply_labels, apply_execution,
  apply_resolution,
}
use coroner.Ledger.Keys.{decision_of, get-update, get-record_entry}
use coroner.Ledger.Writes.{
  Write, write_labels, write_execution, write_resolution, attempt, attempt-Wrote, Wrote, effect,
  target, refusal_of, effect-KeepsKey,
}
use coroner.Approval.{PendingRecord, World}
use coroner.Approval.Rules.{Setup}
use coroner.Approval.Clock.{IsMonotone, later_reads}

-- The decision on record for an incident authorises action.
abbrev pub authorised : String → Table → Bool
authorised j t = authorises (decision_of (Ledger.get j t))

-- The write labels no decision, or one that authorises nothing, or another incident.
abbrev pub IsHarmless : String → Write → Type 0
IsHarmless j (write_labels now id l) = (authorises l.decision ≡ false) ⊎ ((id == j) ≡ false)
IsHarmless j _ = Unit

-- From the next reading of the clock on, each parked record stands under its own incident.
abbrev pub IsKeyedFrom : {S : InFlightStore PendingRecord} → Setup → World S → Type 0
IsKeyedFrom {S} p w =
    (t : Instant) (id : String) (r : PendingRecord)
    → p.clock w.reads ≤ t
    → S.view t w.store id ≡ some r
    → r.incident_id ≡ id

-- A step that is quiet about an incident.
pub record Quiet {S : InFlightStore PendingRecord} (p : Setup) (j : String) (w w' : World S)
    : Type 0 where
  pub keyed : IsKeyedFrom p w → IsKeyedFrom p w'
  pub unauthorised :
      IsKeyedFrom p w → authorised j w.ledger ≡ false → authorised j w'.ledger ≡ false

harmless_effect :
    (j : String) (w : Write) (t u : Table)
    → IsHarmless j w
    → attempt w t ≡ Ledger.ok u
    → authorised j t ≡ false
    → authorised j u ≡ false
unfolding apply_labels apply_execution apply_resolution
harmless_effect j (write_labels now id l) t u (inl h) e a =
    let w = write_labels now id l in
    let d = attempt-Wrote w t u e in
    ground (arith, d.written, get-update id j (effect w) t (effect-KeepsKey w))
harmless_effect j (write_labels now id l) t u (inr h) e a =
    let w = write_labels now id l in
    let d = attempt-Wrote w t u e in
    ground (arith, d.written, get-update id j (effect w) t (effect-KeepsKey w))
harmless_effect j (write_execution now id status detail) t u h e a =
    let w = write_execution now id status detail in
    let d = attempt-Wrote w t u e in
    ground (arith, d.written, get-update id j (effect w) t (effect-KeepsKey w))
harmless_effect j (write_resolution now id resolved detail) t u h e a =
    let w = write_resolution now id resolved detail in
    let d = attempt-Wrote w t u e in
    ground (arith, d.written, get-update id j (effect w) t (effect-KeepsKey w))

module _ {S : InFlightStore PendingRecord} (p : Setup) (j : String) where
  pub Quiet-refl : (w : World S) → Quiet p j w w
  Quiet-refl w = record { keyed = λ k. k; unauthorised = λ k a. a }

  pub Quiet-trans : (a b c : World S) → Quiet p j a b → Quiet p j b c → Quiet p j a c
  Quiet-trans a b c f g = record {
    keyed = λ k. g.keyed (f.keyed k);
    unauthorised = λ k h. g.unauthorised (f.keyed k) (f.unauthorised k h);
  }

  -- the step may use that each record stands under its own incident
  pub keyed-Quiet : (a b : World S) → (IsKeyedFrom p a → Quiet p j a b) → Quiet p j a b
  keyed-Quiet a b f = record {
    keyed = λ k. (f k).keyed k;
    unauthorised = λ k h. (f k).unauthorised k h;
  }

  pub read-Quiet : (w : World S) → IsMonotone p → Quiet p j w (record w { reads = w.reads + 1 })
  read-Quiet w mono = record {
    keyed = λ k t id r h. k t id r (later_reads p mono w.reads t h);
    unauthorised = λ k a. a;
  }

  pub get-Quiet :
      (id : String) (w : World S)
      → IsMonotone p
      → Quiet p j w
          (record w { store = (S.get (p.clock w.reads) id w.store).1; reads = w.reads + 1 })
  get-Quiet id w mono = record {
    keyed = λ k t i r h e.
        k t i r (later_reads p mono w.reads t h)
          (sym (S.view-get (p.clock w.reads) t id i w.store (later_reads p mono w.reads t h)) ∙ e);
    unauthorised = λ k a. a;
  }

  pub ids-Quiet :
      (w : World S)
      → IsMonotone p
      → Quiet p j w (record w { store = (S.ids (p.clock w.reads) w.store).1; reads = w.reads + 1 })
  ids-Quiet w mono = record {
    keyed = λ k t i r h e.
        k t i r (later_reads p mono w.reads t h)
          (sym (S.view-ids (p.clock w.reads) t i w.store (later_reads p mono w.reads t h)) ∙ e);
    unauthorised = λ k a. a;
  }

  pub delete-Quiet :
      (id : String) (w : World S) → Quiet p j w (record w { store = S.delete id w.store })
  delete-Quiet id w = record {
    keyed = λ k t i r h e. ground (arith, S.view-delete t id i w.store, k t i r h);
    unauthorised = λ k a. a;
  }

  pub put-Quiet :
      (id : String) (v : PendingRecord) (ttl : ℕ) (w : World S)
      → IsMonotone p
      → 1 ≤ ttl
      → v.incident_id ≡ id
      → Quiet p j w
          (record w { store = S.put (p.clock w.reads) id v ttl w.store; reads = w.reads + 1 })
  put-Quiet id v ttl w mono l same = record {
    keyed = λ k t i r h e. ground (
      arith,
      S.view-put (p.clock w.reads) t id i v ttl w.store l,
      eq_iff id i,
      k t i r (later_reads p mono w.reads t h),
    );
    unauthorised = λ k a. a;
  }

  pub write-Quiet :
      (x : Write) (u : Table) (w : World S)
      → IsHarmless j x
      → attempt x w.ledger ≡ Ledger.ok u
      → Quiet p j w (record w { ledger = u })
  write-Quiet x u w h e = record {
    keyed = λ k. k;
    unauthorised = λ k a. harmless_effect j x w.ledger u h e a;
  }

  pub record_entry-Quiet :
      (at : Instant) (entry : LedgerEntry) (w : World S)
      → Quiet p j w (record w { ledger = record_entry at entry w.ledger })
  unfolding new_row
  record_entry-Quiet at entry w = record {
    keyed = λ k. k;
    unauthorised = λ k a. ground (arith, get-record_entry at entry j w.ledger);
  }
