-- ===== src/Approval/Expires/Cases.antt =====
-- What the sweeper does to one overdue incident (`expire_overdue` and `decide` of
-- brain/src/coroner_brain/approval.py).
use coroner.Base.{
  ◌+◌, ◌≤◌, String, ◌≡◌, ◌≢◌, refl, sym, ◌∙◌, true, false, none, some, arith, eq_iff, Option-cases,
  Bool-cases, inl, inr, ltb, is_some, if◌then◌else◌, ◌==◌,
}
use coroner.Contract.{Instant}
use coroner.Ledger
use coroner.Ledger.{Row, Table, truthy, already_labelled, unknown_incident, label_refusal}
use coroner.Inflight.{InFlightStore}
use coroner.Approval.Rules.{Setup, decision_labels}
use coroner.Approval.State.{Pending, PendingRecord, ok, err, World, from_record}
use coroner.Approval.Pipeline.{store_delete}
use coroner.Approval.Park.{attempt_expiry, drop_refused}
use coroner.Approval.Decided.{after_load}
use coroner.Ledger.Keys.{decision_of}
use coroner.Ledger.Writes.{label-Labelled}
use coroner.Approval.Clock.{IsMonotone}
use coroner.Approval.Completes.{label_goes_through}
use coroner.Approval.Once.{from_record_key}
use coroner.Approval.Expires.{
  IsRefusal, refused, expire_one, at_check, label-cases, decide-missing, decide-early, decide-due,
  written, deleted, recorded_ok, recorded_err,
}

module _ {S : InFlightStore PendingRecord} (p : Setup) where
  -- What the sweeper does to an overdue incident: it is no longer parked and no other verdict is
  -- touched; no other row changes, and a row with a decision stays; and a row without one is
  -- labelled expired if the deadline had passed when the decision was checked.
  pub record Expiry (id : String) (w w' : World S) : Type 0 where
    pub later : w.reads ≤ w'.reads
    pub view :
        (t : Instant) (i : String)
        → p.clock w.reads ≤ t
        → S.view t w'.store i ≡ (if id == i then none else S.view t w.store i)
    pub others : (i : String) → (id == i) ≡ false → Ledger.get i w'.ledger ≡ Ledger.get i w.ledger
    pub kept :
        (row : Row)
        → Ledger.get id w.ledger ≡ some row
        → truthy row.decision ≡ true
        → Ledger.get id w'.ledger ≡ some row
    pub expired :
        (r : PendingRecord) (q : Pending) (row : Row)
        → S.view (p.clock w.reads) w.store id ≡ some r
        → from_record p.crypto r ≡ some q
        → q.deadline ≤ p.clock (w.reads + 1)
        → Ledger.get id w.ledger ≡ some row
        → truthy row.decision ≡ false
        → decision_of (Ledger.get id w'.ledger) ≡ some "expired"

  -- From the next reading of the clock on, each parked record stands under its own incident and can
  -- be read.
  abbrev pub AreSound : World S → Type 0
  AreSound w =
      (t : Instant) (id : String) (r : PendingRecord)
      → p.clock w.reads ≤ t
      → S.view t w.store id ≡ some r
      → (r.incident_id ≡ id) × (is_some (from_record p.crypto r) ≡ true)

  module _ (mono : IsMonotone p) (id : String) (w : World S) where
    got : S.State
    got = (S.get (p.clock w.reads) id w.store).1

    -- the views once the record is deleted
    deleted-view :
        (t : Instant) (i : String)
        → p.clock w.reads ≤ t
        → S.view t (S.delete id got) i ≡ (if id == i then none else S.view t w.store i)
    unfolding got
    deleted-view t i h =
        ground (arith, S.view-delete t id i got, S.view-get (p.clock w.reads) t id i w.store h)

    deleted_twice-view :
        (t : Instant) (i : String)
        → p.clock w.reads ≤ t
        → S.view t (S.delete id (S.delete id got)) i
          ≡ (if id == i then none else S.view t w.store i)
    deleted_twice-view t i h =
        ground (arith, S.view-delete t id i (S.delete id got), deleted-view t i h)

    missing-Expiry :
        S.view (p.clock w.reads) w.store id ≡ none
        → (expire_one p id w ≡ (ok tt, record (after_load p id w) { store = S.delete id got }))
          × Expiry id w (record (after_load p id w) { store = S.delete id got })
    unfolding attempt_expiry store_delete got
    missing-Expiry e =
        let same = S.get-eq-view (p.clock w.reads) id w.store ∙ e in
        (
          rw (decide-missing p id w same) refl,
          record {
            later = omega arith;
            view = deleted-view;
            others = λ i ne. refl;
            kept = λ row f h. f;
            expired = λ r q row v. absurd (ground (arith, e, v));
          },
        )

    drops :
        (x : Ledger.LedgerError)
        → IsRefusal x
        → (v : World S)
        → drop_refused p id (err (refused x)) v ≡ (ok tt, record v { store = S.delete id v.store })
    unfolding store_delete
    drops (already_labelled field existing) k v = refl
    drops unknown_incident k v = refl
    drops x k v = absurd k

    label_refused :
        (x : Ledger.LedgerError) (row : Row)
        → Ledger.get id w.ledger ≡ some row
        → truthy row.decision ≡ false
        → Ledger.label (p.clock (w.reads + 1 + 1)) id (decision_labels "expired" "" "" "") w.ledger
          ≢ Ledger.err x
    label_refused x row f t h =
        let (u, e) =
          label_goes_through (p.clock (w.reads + 1 + 1)) id "expired" "" "" "" w.ledger row f t in
        ground (arith, h, e)

    module _ (r : PendingRecord) (q : Pending)
        (found : S.view (p.clock w.reads) w.store id ≡ some r)
        (parsed : from_record p.crypto r ≡ some q) (own : q.incident_id ≡ id) where
      same : (S.get (p.clock w.reads) id w.store).0 ≡ some r
      same = S.get-eq-view (p.clock w.reads) id w.store ∙ found

      early-Expiry :
          ltb (p.clock (w.reads + 1)) q.deadline ≡ true
          → (expire_one p id w ≡ (ok tt, record (at_check p id w) { store = S.delete id got }))
            × Expiry id w (record (at_check p id w) { store = S.delete id got })
      unfolding attempt_expiry store_delete got
      early-Expiry early = (
        rw (decide-early p id w r q same parsed early) refl,
        record {
          later = omega arith;
          view = deleted-view;
          others = λ i ne. refl;
          kept = λ row f h. f;
          expired = λ r' q' row v parsed' due.
              absurd (ground (arith, found, v, parsed, parsed', due, early));
        },
      )

      ok-Expiry :
          (u : Table)
          → ltb (p.clock (w.reads + 1)) q.deadline ≡ false
          → written p id w r q same parsed ≡ Ledger.ok u
          → let w' = record w {
            store = S.delete id got;
            ledger = u;
            reads = w.reads + 1 + 1 + 1;
          } in
            (expire_one p id w ≡ (ok tt, w')) × Expiry id w w'
      unfolding attempt_expiry got written deleted label_refusal Ledger.apply_labels
      ok-Expiry u due h =
          let d =
            label-Labelled (p.clock (w.reads + 1 + 1)) id (decision_labels "expired" "" "" "")
              w.ledger u (rw (sym own) h) in
          (
            rw (decide-due p id w r q same parsed due, recorded_ok p id w r q same parsed u h)
                (rw own refl),
            record {
              later = omega arith;
              view = deleted-view;
              others = λ i ne. d.others i (λ k. ground (arith, eq_iff id i, ne, k));
              kept = λ row f t. absurd (ground (arith, d.found, d.allowed, f, t));
              expired = λ r' q' row v parsed' due' f t. ground (arith, d.relabelled);
            },
          )

      err-Expiry :
          (x : Ledger.LedgerError)
          → IsRefusal x
          → ltb (p.clock (w.reads + 1)) q.deadline ≡ false
          → written p id w r q same parsed ≡ Ledger.err x
          → let w' = record w {
            store = S.delete id (S.delete id got);
            reads = w.reads + 1 + 1 + 1;
          } in
            (expire_one p id w ≡ (ok tt, w')) × Expiry id w w'
      unfolding attempt_expiry got written deleted
      err-Expiry x k due h = (
        rw (decide-due p id w r q same parsed due, recorded_err p id w r q same parsed x k h)
            (drops x k _ ∙ rw own refl),
        record {
          later = omega arith;
          view = deleted_twice-view;
          others = λ i ne. refl;
          kept = λ row f t. f;
          expired =
              λ r' q' row v parsed' due' f t. absurd (label_refused x row f t (rw (sym own) h));
        },
      )

    found-Expiry :
        (r : PendingRecord) (q : Pending)
        → S.view (p.clock w.reads) w.store id ≡ some r
        → from_record p.crypto r ≡ some q
        → q.incident_id ≡ id
        → ((expire_one p id w).0 ≡ ok tt) × Expiry id w (expire_one p id w).1
    unfolding written Ledger.label
    found-Expiry r q found parsed own = elim (Bool-cases (ltb (p.clock (w.reads + 1)) q.deadline)) [
      | inl early ↦ let (e, x) = early-Expiry r q found parsed own early in rw e (refl, x)
      | inr due ↦ elim (label-cases (p.clock (w.reads + 1 + 1)) q.incident_id w.ledger) [
        | inl (u, h) ↦ let (e, x) = ok-Expiry r q found parsed own u due h in rw e (refl, x)
        | inr (y, k, h) ↦ let (e, x) = err-Expiry r q found parsed own y k due h in rw e (refl, x)
      ]
    ]

    -- An overdue incident is handled whatever the store and the ledger hold of it.
    pub expire_one-Expiry :
        AreSound w → ((expire_one p id w).0 ≡ ok tt) × Expiry id w (expire_one p id w).1
    expire_one-Expiry sound = elim (Option-cases (S.view (p.clock w.reads) w.store id)) [
      | inl e ↦ let (h, x) = missing-Expiry e in rw h (refl, x)
      | inr (r, e) ↦
          let (own, readable) = sound (p.clock w.reads) id r (omega arith) e in
          elim (Option-cases (from_record p.crypto r)) [
            | inl bad ↦ absurd (ground (arith, readable, bad))
            | inr (q, parsed) ↦
                found-Expiry r q e parsed (from_record_key p.crypto r q parsed ∙ own)
          ]
    ]
