-- ===== src/Approval/Expires.antt =====
-- How the clock's own decision on one incident ends (`decide` and `expire_overdue` of
-- brain/src/coroner_brain/approval.py).
pub mod Cases
use coroner.Base.{
  ℕ, ◌+◌, ◌≤◌, ◌<◌, String, ◌≡◌, ◌≢◌, refl, sym, ap, ◌∙◌, Bool, true, false, Option, none, some,
  arith, eq_iff, Option-cases, Bool-cases, inl, inr, ltb, is_some, or_else, ◌⊎◌, if◌then◌else◌,
  ◌==◌,
}
use coroner.Base.Text.{strip}
use coroner.Contract.{Instant}
use coroner.Ledger
use coroner.Ledger.{Row, Table, truthy, already_labelled, unknown_incident, label_refusal}
use coroner.Inflight.{InFlightStore}
use coroner.Approval.Rules.{
  Setup, resolved_action, start_state, missing, decision_labels, token_for, refuse,
}
use coroner.Approval.State.{
  Pending, PendingRecord, Resolution, Result, ok, err, World, Action, ◌>>=◌, from_record, Raised,
  Detail, approval_error, DecisionState, deadline_not_passed, already_decided, no_such_incident,
}
use coroner.Approval.Pipeline.{
  decide, graph, check_at, record_node, record_decision, settle, store_delete,
}
use coroner.Approval.Park.{attempt_expiry, drop_refused}
use coroner.Approval.Decided.{after_load, load-missing, decide_found, after_check, passed}
use coroner.Ledger.Keys.{decision_of}
use coroner.Ledger.Writes.{Labelled, label-Labelled}
use coroner.Approval.Clock.{IsMonotone, later_reads}
use coroner.Approval.Completes.{token_for-expired, label_goes_through}
use coroner.Approval.Once.{from_record_key}

-- What refuses a decision.
abbrev pub IsRefusal : Ledger.LedgerError → Type 0
IsRefusal (already_labelled field existing) = Unit
IsRefusal unknown_incident = Unit
IsRefusal _ = ⊥

abbrev pub refused : Ledger.LedgerError → Raised
refused (already_labelled field existing) = approval_error 409 (already_decided existing)
refused _ = approval_error 404 no_such_incident

pub label-cases :
    (now : Instant) (id : String) (t : Table)
    → ((u : Table) × (Ledger.label now id (decision_labels "expired" "" "" "") t ≡ Ledger.ok u))
      ⊎ ((x : Ledger.LedgerError) × IsRefusal x
          × (Ledger.label now id (decision_labels "expired" "" "" "") t ≡ Ledger.err x))
unfolding Ledger.label label_refusal
label-cases now id t = elim (Option-cases (Ledger.get id t)) [
  | inl e ↦ inr (unknown_incident, tt, ground (arith, e))
  | inr (row, e) ↦ elim (Bool-cases (truthy row.decision)) [
    | inl h ↦ inr (already_labelled "decision" (or_else row.decision ""), tt, ground (arith, e, h))
    | inr h ↦ inl (
      Ledger.update id (Ledger.apply_labels now (decision_labels "expired" "" "" "")) t,
      ground (arith, e, h),
    )
  ]
]

module _ {S : InFlightStore PendingRecord} (p : Setup) where
  -- one overdue incident: the clock's decision, and the record dropped if it is refused
  abbrev pub expire_one : String → Action S Unit
  expire_one id = attempt_expiry p id >>= drop_refused p id

  abbrev pub at_check : String → World S → World S
  at_check id w = record (after_load p id w) { reads = w.reads + 1 + 1 }

  pub decide-missing :
      (id : String) (w : World S)
      → (S.get (p.clock w.reads) id w.store).0 ≡ none
      → let why = missing (Ledger.get id w.ledger) in
        decide p id "expired" "" "" w ≡ (err (approval_error why.0 why.1), after_load p id w)
  unfolding decide graph
  decide-missing id w e = ground (arith, load-missing p (start_state id "expired" "" "") w e)

  check_at_due :
      (now : Instant) (q : Pending) (st : DecisionState) (w : World S)
      → st.decision ≡ "expired"
      → ltb now q.deadline ≡ false
      → check_at p now q st w ≡ (ok (passed p now q st), w)
  unfolding check_at resolved_action
  check_at_due now q st w expired due = rw (expired, due) refl

  module _ (id : String) (w : World S) (r : PendingRecord) (q : Pending)
      (e : (S.get (p.clock w.reads) id w.store).0 ≡ some r)
      (parsed : from_record p.crypto r ≡ some q) where
    unfoldable pub now : Instant
    now = p.clock (w.reads + 1)

    unfoldable pub loaded : DecisionState
    loaded = record (start_state id "expired" "" "") { pending = some r }

    pub decide-early :
        ltb (p.clock (w.reads + 1)) q.deadline ≡ true
        → decide p id "expired" "" "" w
          ≡ (err (approval_error 409 deadline_not_passed), at_check id w)
    unfolding check_at
    decide-early early = rw (decide_found p id "expired" "" "" w r q e parsed, early) refl

    unfoldable pub written : Ledger.Result Table
    written =
        Ledger.label (p.clock (w.reads + 1 + 1)) q.incident_id (decision_labels "expired" "" "" "")
          w.ledger

    pub decide-due :
        ltb (p.clock (w.reads + 1)) q.deadline ≡ false
        → decide p id "expired" "" "" w
          ≡ after_check p id (ok (passed p now q loaded), at_check id w)
    unfolding now loaded
    decide-due due =
        decide_found p id "expired" "" "" w r q e parsed
        ∙ ap (after_check p id) (check_at_due now q loaded (at_check id w) refl due)

    unfoldable pub deleted : S.State
    deleted = S.delete q.incident_id (S.get (p.clock w.reads) id w.store).1

    pub recorded_ok :
        (u : Table)
        → written ≡ Ledger.ok u
        → after_check p id (ok (passed p now q loaded), at_check id w) ≡ (
          ok (record {
            incident_id = id;
            decision = "expired";
            decided_at = now;
            action = "";
            approval_token = "";
          }),
          record w { store = deleted; ledger = u; reads = w.reads + 1 + 1 + 1 },
        )
    unfolding record_node record_decision settle strip resolved_action token_for now loaded written
        deleted
    recorded_ok u h =
        ground (arith, p.crypto.fromisoformat-isoformat (p.clock (w.reads + 1)), h, parsed)

    pub recorded_err :
        (x : Ledger.LedgerError)
        → IsRefusal x
        → written ≡ Ledger.err x
        → after_check p id (ok (passed p now q loaded), at_check id w)
          ≡ (err (refused x), record w { store = deleted; reads = w.reads + 1 + 1 + 1 })
    unfolding record_node record_decision settle strip resolved_action token_for store_delete now
        loaded written deleted
    recorded_err (already_labelled field existing) k h = ground (arith, h, parsed)
    recorded_err unknown_incident k h = ground (arith, h, parsed)
    recorded_err x k h = absurd k
