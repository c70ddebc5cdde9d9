-- ===== src/Approval/Settled.antt =====
-- Calls of `decide` after an incident is decided (`decide` of
-- brain/src/coroner_brain/approval.py).
use coroner.Base.{
  ◌+◌, ◌≤◌, String, ◌≡◌, ◌⊎◌, inl, inr, refl, sym, ◌∙◌, subst, false, none, some, List, [], ◌∷◌,
  arith, ◌==◌, Option-cases,
}
use coroner.Base.Text.{strip}
use coroner.Contract.{Instant}
use coroner.Inflight.{InFlightStore}
use coroner.Ledger
use coroner.Ledger.{
  Row, Table, truthy, apply_labels, unknown_incident, not_ratable, not_executable, already_labelled,
}
use coroner.Ledger.Writes.{Write, write_labels, attempt, table_after}
use coroner.Ledger.WriteOnce.{after-Kept}
use coroner.Approval.Rules.{Setup, decision_labels, token_for, start_state}
use coroner.Approval.State.{
  Pending, PendingRecord, DecisionState, Result, ok, err, World, from_record,
}
use coroner.Approval.Pipeline.{decide, graph, check, check_at, record_node, record_decision, settle}
use coroner.Approval.Decided.{after_load, after_check, decide_found, load_found, load-missing}
use coroner.Approval.Clock.{IsMonotone, later_reads}

-- A call of `decide`.
pub record Call : Type 0 where
  pub id : String
  pub decision : String
  pub reason : String
  pub action : String

-- where any number of calls, each of which may be refused, leave the store and the ledger
unfoldable pub after_calls :
    {S : InFlightStore PendingRecord} → Setup → List Call → World S → World S
after_calls p [] w = w
after_calls p (c ∷ cs) w = after_calls p cs (decide p c.id c.decision c.reason c.action w).1

module _ {S : InFlightStore PendingRecord} (p : Setup) (mono : IsMonotone p) (j d : String)
    (full : (d == "") ≡ false) where
  -- The incident is not parked, and the decision is on record.
  pub record Settled (w : World S) : Type 0 where
    pub absent : (t : Instant) → p.clock w.reads ≤ t → S.view t w.store j ≡ none
    pub row : Row
    pub found : Ledger.get j w.ledger ≡ some row
    pub decided : row.decision ≡ some d

  read-Settled : (w : World S) → Settled w → Settled (record w { reads = w.reads + 1 })
  read-Settled w s = record {
    absent = λ t h. s.absent t (later_reads p mono w.reads t h);
    row = s.row;
    found = s.found;
    decided = s.decided;
  }

  load-Settled : (id : String) (w : World S) → Settled w → Settled (after_load p id w)
  load-Settled id w s = record {
    absent = λ t h.
        let l = later_reads p mono w.reads t h in
        S.view-get (p.clock w.reads) t id j w.store l ∙ s.absent t l;
    row = s.row;
    found = s.found;
    decided = s.decided;
  }

  delete-Settled :
      (id : String) (w : World S) → Settled w → Settled (record w { store = S.delete id w.store })
  delete-Settled id w s = record {
    absent = λ t h. ground (arith, S.view-delete t id j w.store, s.absent t h);
    row = s.row;
    found = s.found;
    decided = s.decided;
  }

  write-Settled :
      (x : Write) (w : World S) (res : Ledger.Result Table)
      → attempt x w.ledger ≡ res
      → Settled w
      → Settled (record w { ledger = table_after w.ledger res })
  write-Settled x w res e s =
      let k = after-Kept x j s.row w.ledger res s.found e in
      record {
        absent = s.absent;
        row = k.row;
        found = k.found;
        decided = k.persists.decision (rw s.decided (rw full refl)) ∙ s.decided;
      }

  settle-Settled :
      (id token : String) (x : Write) (w : World S) (res : Ledger.Result Table)
      → attempt x w.ledger ≡ res
      → Settled w
      → Settled (settle p id token res w).1
  unfolding settle
  settle-Settled id token x w (Ledger.ok u) e s =
      delete-Settled id (record w { ledger = u }) (write-Settled x w (Ledger.ok u) e s)
  settle-Settled id token x w (Ledger.err unknown_incident) e s = delete-Settled id w s
  settle-Settled id token x w (Ledger.err not_ratable) e s = s
  settle-Settled id token x w (Ledger.err (not_executable state)) e s = s
  settle-Settled id token x w (Ledger.err (already_labelled name old)) e s = delete-Settled id w s

  record_decision-Settled :
      (q : Pending) (decision reason action date : String) (w : World S)
      → Settled w
      → Settled (record_decision p q decision reason action date w).1
  unfolding record_decision attempt
  record_decision-Settled q decision reason action date w s =
      let token = token_for p q decision action date in
      let x =
        write_labels (p.clock w.reads) q.incident_id
          (decision_labels decision reason action token) in
      settle-Settled q.incident_id token x (record w { reads = w.reads + 1 }) (attempt x w.ledger)
        refl (read-Settled w s)

  check_at_world :
      (now : Instant) (q : Pending) (st : DecisionState) (w : World S)
      → ((check_at p now q st w).1 ≡ w)
        ⊎ ((check_at p now q st w).1
            ≡ (record_decision p q "expired" "" "" (p.crypto.isoformat now) w).1)
  unfolding check_at
  check_at_world now q st w = ground arith

  check_at-Settled :
      (now : Instant) (q : Pending) (st : DecisionState) (w : World S)
      → Settled w
      → Settled (check_at p now q st w).1
  check_at-Settled now q st w s = elim (check_at_world now q st w) [
    | inl e ↦ subst Settled (sym e) s
    | inr e ↦ subst Settled (sym e) (record_decision-Settled q "expired" "" "" _ w s)
  ]

  record_node-Settled :
      (st : DecisionState) (w : World S) → Settled w → Settled (record_node p st w).1
  unfolding record_node
  record_node-Settled st w s = elim (Option-cases st.pending) [
    | inl n ↦ subst Settled {x = w} (ground arith) s
    | inr (r, e) ↦ elim (Option-cases (from_record p.crypto r)) [
      | inl n ↦ subst Settled {x = w} (ground arith) s
      | inr (q, parsed) ↦ elim (Option-cases st.decided_at) [
        | inl n ↦ subst Settled {x = w} (ground arith) s
        | inr (date, h) ↦
            subst Settled
              {x = (record_decision p q st.decision (strip st.reason) st.resolved_action date w).1}
              (ground arith)
              (record_decision-Settled q st.decision (strip st.reason) st.resolved_action date w s)
      ]
    ]
  ]

  after_check_world :
      (id : String) (st : DecisionState) (w : World S)
      → ((after_check p id (ok st, w)).1 ≡ w)
        ⊎ ((after_check p id (ok st, w)).1 ≡ (record_node p st w).1)
  after_check_world id st w = ground arith

  after_check-Settled :
      (id : String) (c : Result DecisionState × World S)
      → Settled c.1
      → Settled (after_check p id c).1
  after_check-Settled id (err x, w) s = s
  after_check-Settled id (ok st, w) s = elim (after_check_world id st w) [
    | inl e ↦ subst Settled (sym e) s
    | inr e ↦ subst Settled (sym e) (record_node-Settled st w s)
  ]

  unloaded_world :
      (id decision reason action : String) (w : World S)
      → ((S.get (p.clock w.reads) id w.store).0 ≡ none)
        ⊎ ((r : PendingRecord) × ((S.get (p.clock w.reads) id w.store).0 ≡ some r)
            × (from_record p.crypto r ≡ none))
      → (decide p id decision reason action w).1 ≡ after_load p id w
  unfolding decide graph check
  unloaded_world id decision reason action w (inl e) =
      ground (arith, load-missing p (start_state id decision reason action) w e)
  unloaded_world id decision reason action w (inr (r, e, bad)) =
      ground (arith, load_found p (start_state id decision reason action) r w e)

  decide-Settled :
      (id decision reason action : String) (w : World S)
      → Settled w
      → Settled (decide p id decision reason action w).1
  decide-Settled id decision reason action w s =
      let loaded = load-Settled id w s in
      elim (Option-cases (S.get (p.clock w.reads) id w.store).0) [
        | inl e ↦ subst Settled (sym (unloaded_world id decision reason action w (inl e))) loaded
        | inr (r, e) ↦ elim (Option-cases (from_record p.crypto r)) [
          | inl bad ↦
              subst Settled (sym (unloaded_world id decision reason action w (inr (r, e, bad))))
                loaded
          | inr (q, parsed) ↦
              subst (λ x. Settled x.1)
                (sym (decide_found p id decision reason action w r q e parsed))
                (after_check-Settled id _
                  (check_at-Settled _ q _ _ (read-Settled (after_load p id w) loaded)))
        ]
      ]

  pub after_calls-Settled :
      (cs : List Call) (w : World S) → Settled w → Settled (after_calls p cs w)
  unfolding after_calls
  after_calls-Settled [] w s = s
  after_calls-Settled (c ∷ cs) w s =
      after_calls-Settled cs _ (decide-Settled c.id c.decision c.reason c.action w s)
