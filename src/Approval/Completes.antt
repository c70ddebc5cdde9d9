-- ===== src/Approval/Completes.antt =====
-- Which decisions go through (`decide` of brain/src/coroner_brain/approval.py).
use coroner.Base.{
  ◌+◌, ◌<◌, String, ◌≡◌, refl, ◌∙◌, Bool, true, false, some, arith, eq_iff, eq_disjoint, ◌==◌,
}
use coroner.Base.Text.{strip}
use coroner.Contract.{Instant}
use coroner.Ledger
use coroner.Ledger.{Row, Table, label, label_refusal, truthy}
use coroner.Inflight.{InFlightStore}
use coroner.Approval.Rules.{
  Setup, decision_labels, token_for, resolved_action, is_human, start_state,
}
use coroner.Approval.State.{
  Pending, PendingRecord, DecisionState, Result, ok, err, World, from_record,
}
use coroner.Approval.Pipeline.{decide, check_at, record_node, record_decision, settle}
use coroner.Approval.Decided.{passed, after_load, after_check, decide_found}

abbrev pub is_ok : {A : Type 0} → Result A → Bool
is_ok (ok a) = true
is_ok (err e) = false

-- A human decision with the text that its kind needs.
abbrev pub IsComplete : String → String → String → Type 0
IsComplete decision reason action =
    (is_human decision ≡ true)
    × (decision ≡ "rejected" → (strip reason == "") ≡ false)
    × (decision ≡ "edited" → (strip action == "") ≡ false)

pub label_goes_through :
    (now : Instant) (id decision reason action token : String) (t : Table) (row : Row)
    → Ledger.get id t ≡ some row
    → truthy row.decision ≡ false
    → (u : Table) × (label now id (decision_labels decision reason action token) t ≡ Ledger.ok u)
unfolding label label_refusal
label_goes_through now id decision reason action token t row e undecided = (
  Ledger.update id (Ledger.apply_labels now (decision_labels decision reason action token)) t,
  ground arith,
)

pub token_for-expired :
    (p : Setup) (q : Pending) (date : String) → token_for p q "expired" "" date ≡ ""
unfolding token_for
token_for-expired p q date = refl

module _ {S : InFlightStore PendingRecord} (p : Setup) where
  check_at_accepts :
      (now : Instant) (q : Pending) (st : DecisionState) (w : World S)
      → IsComplete st.decision st.reason st.action
      → now < q.deadline
      → check_at p now q st w ≡ (ok (passed p now q st), w)
  unfolding check_at is_human
  check_at_accepts now q st w c h = ground (
    arith,
    eq_iff st.decision "rejected",
    eq_iff st.decision "edited",
    eq_iff st.decision "expired",
    eq_disjoint st.decision "expired" "approved",
    eq_disjoint st.decision "expired" "rejected",
    eq_disjoint st.decision "expired" "edited",
  )

  pub record_decision_succeeds :
      (q : Pending) (decision reason action decided_at : String) (w : World S) (u : Table)
      → Ledger.label
          (p.clock w.reads)
          q.incident_id
          (decision_labels decision reason action (token_for p q decision action decided_at))
          w.ledger
        ≡ Ledger.ok u
      → record_decision p q decision reason action decided_at w ≡ (
        ok (token_for p q decision action decided_at),
        record w { store = S.delete q.incident_id w.store; ledger = u; reads = w.reads + 1 },
      )
  unfolding record_decision settle
  record_decision_succeeds q decision reason action decided_at w u h = ground arith

  after_passed_ok :
      (id decision reason action : String) (r : PendingRecord) (q : Pending) (now : Instant)
      (w w' : World S) (token : String)
      → from_record p.crypto r ≡ some q
      → let loaded = record (start_state id decision reason action) { pending = some r } in
        record_decision p q decision
            (strip reason)
            (resolved_action decision q action)
            (p.crypto.isoformat now)
            w
          ≡ (ok token, w')
        → is_ok (after_check p id (ok (passed p now q loaded), w)).0 ≡ true
  unfolding record_node
  after_passed_ok id decision reason action r q now w w' token parsed h =
      ground (arith, p.crypto.fromisoformat-isoformat now)

  -- A human decision with the text that its kind needs goes through, if the incident is parked,
  -- its deadline has not passed when the decision is checked, and its ledger row has no decision.
  pub decide_completes :
      (id decision reason action : String) (w : World S) (r : PendingRecord) (q : Pending)
      (row : Row)
      → S.view (p.clock w.reads) w.store id ≡ some r
      → from_record p.crypto r ≡ some q
      → Ledger.get q.incident_id w.ledger ≡ some row
      → truthy row.decision ≡ false
      → IsComplete decision reason action
      → p.clock (w.reads + 1) < q.deadline
      → is_ok (decide p id decision reason action w).0 ≡ true
  decide_completes id decision reason action w r q row view parsed found undecided complete timely =
      let now = p.clock (w.reads + 1) in
      let loaded = record (start_state id decision reason action) { pending = some r } in
      let v : World S = record (after_load p id w) { reads = w.reads + 1 + 1 } in
      let act = resolved_action decision q action in
      let date = p.crypto.isoformat now in
      let token = token_for p q decision act date in
      let (u, written) =
        label_goes_through (p.clock (w.reads + 1 + 1)) q.incident_id decision (strip reason) act
          token w.ledger row found undecided in
      rw
        (
          decide_found p id decision reason action w r q
              (S.get-eq-view (p.clock w.reads) id w.store ∙ view) parsed,
          check_at_accepts now q loaded v complete timely,
        )
        (after_passed_ok id decision reason action r q now v _ token parsed
          (record_decision_succeeds q decision (strip reason) act date v u written))
