-- ===== src/Approval/Once.antt =====
-- What a decision on an incident leaves for the next one (`decide` of brain/src/coroner_brain/approval.py).
use coroner.Base.{◌+◌, String, ◌≡◌, false, none, some, arith, eq_iff, eq_disjoint, ◌==◌, sym, ◌∙◌}
use coroner.Base.Text.{strip}
use coroner.Contract.{Instant}
use coroner.Ledger
use coroner.Ledger.{Row, apply_labels, truthy}
use coroner.Ledger.Writes.{Labelled, label-Labelled}
use coroner.Inflight.{InFlightStore}
use coroner.Approval.Token.{Crypto}
use coroner.Approval.Rules.{Setup, decision_labels, is_human, start_state}
use coroner.Approval.State.{
  Pending, PendingRecord, Resolution, err, World, from_record, approval_error, already_decided,
}
use coroner.Approval.Pipeline.{decide, graph}
use coroner.Approval.Decided.{Decided, load-missing, InTime}

-- Each parked record stands under its own incident.
abbrev pub IsKeyed : (S : InFlightStore PendingRecord) → World S → Type 0
IsKeyed S w =
    (t : Instant) (id : String) (r : PendingRecord)
    → S.view t w.store id ≡ some r
    → r.incident_id ≡ id

pub from_record_key :
    (k : Crypto) (r : PendingRecord) (q : Pending)
    → from_record k r ≡ some q
    → q.incident_id ≡ r.incident_id
unfolding from_record
from_record_key k r q h = ground arith

pub decision_nonempty :
    (p : Setup) (now : Instant) (q : Pending) (d : String) → InTime now q d → (d == "") ≡ false
unfolding is_human
decision_nonempty p now q d h = ground (
  arith,
  eq_iff d "expired",
  eq_disjoint d "" "expired",
  eq_disjoint d "" "approved",
  eq_disjoint d "" "rejected",
  eq_disjoint d "" "edited",
)

module _ {S : InFlightStore PendingRecord} (p : Setup) where
  -- a decision on an incident that is not parked and has a decision on record
  pub decide_decided :
      (id decision reason action : String) (w : World S) (row : Row) (d : String)
      → (S.get (p.clock w.reads) id w.store).0 ≡ none
      → Ledger.get id w.ledger ≡ some row
      → row.decision ≡ some d
      → (d == "") ≡ false
      → (decide p id decision reason action w).0 ≡ err (approval_error 409 (already_decided d))
  unfolding decide graph
  decide_decided id decision reason action w row d e g h n =
      ground (arith, load-missing p (start_state id decision reason action) w e)

  module _ (id decision reason action : String) (w w' : World S) (res : Resolution)
      (keyed : IsKeyed S w) (D : Decided p id decision reason action w res w') where
    pub same_incident : D.pending.incident_id ≡ id
    same_incident =
        from_record_key p.crypto D.parked D.pending D.parsed
        ∙ keyed (p.clock w.reads) id D.parked
            (sym (S.get-eq-view (p.clock w.reads) id w.store) ∙ D.found)

    pub not_parked : (t : Instant) → (S.get t id w'.store).0 ≡ none
    not_parked t =
        S.get-eq-view t id w'.store
        ∙ rw (D.unparked, same_incident, S.view-delete) (ground (arith, eq_iff id id))

    -- the labels that the decision has written
    abbrev pub written : Ledger.Labels
    written = decision_labels decision (strip reason) res.action res.approval_token

    pub decided_row : Labelled (p.clock (w.reads + 1 + 1)) id written w.ledger w'.ledger
    decided_row =
        label-Labelled (p.clock (w.reads + 1 + 1)) id written w.ledger w'.ledger
          (rw same_incident at D.labelled)
