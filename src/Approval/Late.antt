-- ===== src/Approval/Late.antt =====
-- What a decision that comes too late comes to (`decide` of brain/src/coroner_brain/approval.py).
use coroner.Base.{
  ◌+◌, ◌≤◌, String, ◌≡◌, refl, sym, ◌∙◌, true, false, none, some, arith, eq_iff, eq_disjoint,
  Option, or_else, if◌then◌else◌, Option-cases, Bool-cases, inl, inr,
}
use coroner.Contract.{Instant}
use coroner.Ledger
use coroner.Ledger.{Row, Table, label, label_refusal, truthy}
use coroner.Ledger.Writes.{table_after}
use coroner.Inflight.{InFlightStore}
use coroner.Approval.Rules.{Setup, decision_labels, token_for, is_human, refuse, start_state}
use coroner.Approval.State.{
  Pending, PendingRecord, Resolution, DecisionState, Result, ok, err, World, from_record,
  approval_error, window_expired, Raised, no_such_incident, already_decided,
}
use coroner.Approval.Pipeline.{decide, check_at, record_decision, settle}
use coroner.Approval.Decided.{after_load, decide_found}
use coroner.Approval.Completes.{label_goes_through, token_for-expired, record_decision_succeeds}

-- Why `_record` refuses to label a late decision expired: the row is missing, or has a decision.
abbrev pub late_fault : Option Row → Option Raised
late_fault none = some (approval_error 404 no_such_incident)
late_fault (some row) =
    if truthy row.decision
    then some (approval_error 409 (already_decided (or_else row.decision "")))
    else none

late_row :
    (o : Option Row)
    → late_fault o ≡ none
    → (row : Row) × (o ≡ some row) × (truthy row.decision ≡ false)
late_row none h = absurd (ground arith)
late_row (some row) h = (row, refl, ground arith)

-- What a late decision is answered with, whatever row its incident has.
abbrev pub late_answer : Option Row → Raised
late_answer row = or_else (late_fault row) (approval_error 409 window_expired)

-- the label that a late decision leaves, with no action and no token
abbrev pub expired_label : Instant → Pending → Table → Ledger.Result Table
expired_label now q t = Ledger.label now q.incident_id (decision_labels "expired" "" "" "") t

deleted :
    (S : InFlightStore PendingRecord) (q : Pending) (s : S.State) (t : Instant)
    → S.view t (S.delete q.incident_id s) q.incident_id ≡ none
deleted S q s t =
    S.view-delete t q.incident_id q.incident_id _
    ∙ ground (arith, eq_iff q.incident_id q.incident_id)

module _ {S : InFlightStore PendingRecord} (p : Setup) where
  check_at_late :
      (now : Instant) (q : Pending) (st : DecisionState) (token : String) (w w' : World S)
      → is_human st.decision ≡ true
      → q.deadline ≤ now
      → record_decision p q "expired" "" "" (p.crypto.isoformat now) w ≡ (ok token, w')
      → check_at p now q st w ≡ (ok (refuse 409 window_expired st), w')
  unfolding check_at is_human
  check_at_late now q st token w w' human late h = ground (
    arith,
    eq_disjoint st.decision "expired" "approved",
    eq_disjoint st.decision "expired" "rejected",
    eq_disjoint st.decision "expired" "edited",
  )

  check_at_refused :
      (now : Instant) (q : Pending) (st : DecisionState) (e : Raised) (w w' : World S)
      → is_human st.decision ≡ true
      → q.deadline ≤ now
      → record_decision p q "expired" "" "" (p.crypto.isoformat now) w ≡ (err e, w')
      → check_at p now q st w ≡ (err e, w')
  unfolding check_at is_human
  check_at_refused now q st e w w' human late h = ground (
    arith,
    eq_disjoint st.decision "expired" "approved",
    eq_disjoint st.decision "expired" "rejected",
    eq_disjoint st.decision "expired" "edited",
  )

  -- The late attempt on a row that is missing or has a decision: `_record` raises after its delete.
  record_decision_refused :
      (q : Pending) (date : String) (w : World S) (e : Raised)
      → late_fault (Ledger.get q.incident_id w.ledger) ≡ some e
      → let v : World S = record w {
        store = S.delete q.incident_id w.store;
        reads = w.reads + 1;
      } in
        (record_decision p q "expired" "" "" date w ≡ (err e, v))
        × (table_after w.ledger (expired_label (p.clock w.reads) q w.ledger) ≡ w.ledger)
  unfolding record_decision settle label label_refusal token_for
  record_decision_refused q date w e h = elim (Option-cases (Ledger.get q.incident_id w.ledger)) [
    | inl n ↦ ground arith
    | inr (row, found) ↦ elim (Bool-cases (truthy row.decision)) [
      | inl d ↦ ground arith
      | inr d ↦ absurd (ground arith)
    ]
  ]

  -- What a late decision comes to: its answer, the ledger, and that the verdict is not parked.
  pub record IsLate (q : Pending) (w : World S) (res : Result Resolution) (w' : World S)
      : Type 0 where
    pub answer : res ≡ err (late_answer (Ledger.get q.incident_id w.ledger))
    pub ledger :
        w'.ledger ≡ table_after w.ledger (expired_label (p.clock (w.reads + 1 + 1)) q w.ledger)
    pub labelled :
        (row : Row)
        → Ledger.get q.incident_id w.ledger ≡ some row
        → truthy row.decision ≡ false
        → expired_label (p.clock (w.reads + 1 + 1)) q w.ledger ≡ Ledger.ok w'.ledger
    pub unparked : (t : Instant) → S.view t w'.store q.incident_id ≡ none

  module _ (id decision reason action : String) (w : World S) (r : PendingRecord) (q : Pending)
      (view : S.view (p.clock w.reads) w.store id ≡ some r)
      (parsed : from_record p.crypto r ≡ some q) (human : is_human decision ≡ true)
      (late : q.deadline ≤ p.clock (w.reads + 1)) where
    undecided-IsLate :
        (row : Row)
        → Ledger.get q.incident_id w.ledger ≡ some row
        → truthy row.decision ≡ false
        → let (result, w') = decide p id decision reason action w in IsLate q w result w'
    undecided-IsLate row found undecided =
        let now = p.clock (w.reads + 1) in
        let loaded = record (start_state id decision reason action) { pending = some r } in
        let v : World S = record (after_load p id w) { reads = w.reads + 1 + 1 } in
        let date = p.crypto.isoformat now in
        let (u, written) =
          label_goes_through (p.clock (w.reads + 1 + 1)) q.incident_id "expired" "" "" "" w.ledger
            row found undecided in
        let recorded =
          record_decision_succeeds p q "expired" "" "" date v u (rw token_for-expired written) in
        rw
          (
            decide_found p id decision reason action w r q
                (S.get-eq-view (p.clock w.reads) id w.store ∙ view) parsed,
            check_at_late now q loaded _ v _ human late recorded,
          )
          (record {
            answer = ground (arith, found, undecided);
            ledger = rw written refl;
            labelled = λ row' e n. written;
            unparked = deleted S q _;
          })

    refused-IsLate :
        (e : Raised)
        → late_fault (Ledger.get q.incident_id w.ledger) ≡ some e
        → let (result, w') = decide p id decision reason action w in IsLate q w result w'
    refused-IsLate e fault =
        let now = p.clock (w.reads + 1) in
        let loaded = record (start_state id decision reason action) { pending = some r } in
        let v : World S = record (after_load p id w) { reads = w.reads + 1 + 1 } in
        let (recorded, kept) = record_decision_refused q (p.crypto.isoformat now) v e fault in
        rw
          (
            decide_found p id decision reason action w r q
                (S.get-eq-view (p.clock w.reads) id w.store ∙ view) parsed,
            check_at_refused now q loaded e v _ human late recorded,
          )
          (record {
            answer = rw fault refl;
            ledger = sym kept;
            labelled = λ row found n. absurd (ground (arith, found, n, fault));
            unparked = deleted S q _;
          })

  -- A human decision on a parked verdict that comes at or after the deadline never goes through,
  -- whatever else it holds: it is refused with status 404 if the incident has no row, with status 409
  -- and the decision that stands if its row has one, and with status 409 as too late otherwise. In
  -- that last case the row is labelled expired, with no action and no token; in the others the
  -- ledger stays. The verdict is no longer parked.
  pub decide-IsLate :
      (id decision reason action : String) (w : World S) (r : PendingRecord) (q : Pending)
      → S.view (p.clock w.reads) w.store id ≡ some r
      → from_record p.crypto r ≡ some q
      → is_human decision ≡ true
      → q.deadline ≤ p.clock (w.reads + 1)
      → let (result, w') = decide p id decision reason action w in IsLate q w result w'
  decide-IsLate id decision reason action w r q view parsed human late =
      elim (Option-cases (late_fault (Ledger.get q.incident_id w.ledger))) [
        | inr (e, fault) ↦
            refused-IsLate id decision reason action w r q view parsed human late e fault
        | inl fine ↦
            let (row, found, undecided) = late_row (Ledger.get q.incident_id w.ledger) fine in
            undecided-IsLate id decision reason action w r q view parsed human late row found
              undecided
      ]
