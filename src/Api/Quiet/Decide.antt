-- ===== src/Api/Quiet/Decide.antt =====
-- A decision that authorises nothing, or is about another incident, is quiet (`decide` of
-- brain/src/coroner_brain/approval.py).
use native.Mathlib.Nat.{le_refl}
use coroner.Base.{
  ◌+◌, String, ◌≡◌, ◌⊎◌, inl, inr, refl, sym, ◌∙◌, subst, false, none, some, arith, ◌==◌,
  Option-cases,
}
use coroner.Base.Text.{strip}
use coroner.Contract.{Instant}
use coroner.Inflight.{InFlightStore}
use coroner.Ledger
use coroner.Ledger.{
  Table, LedgerError, unknown_incident, not_ratable, not_executable, already_labelled, authorises,
}
use coroner.Ledger.Writes.{Write, write_labels, attempt}
use coroner.Approval.{Pending, PendingRecord, DecisionState, Result, ok, err, World, from_record}
use coroner.Approval.Rules.{Setup, decision_labels, token_for, start_state}
use coroner.Approval.Pipeline.{
  decide, graph, check, check_at, record_node, record_decision, settle, proceed,
}
use coroner.Approval.Decided.{after_load, after_check, decide_found, load_found, load-missing}
use coroner.Approval.Once.{from_record_key}
use coroner.Api.Quiet.{
  Quiet, Quiet-refl, Quiet-trans, keyed-Quiet, read-Quiet, get-Quiet, delete-Quiet, write-Quiet,
  IsKeyedFrom, IsHarmless,
}
use coroner.Approval.Clock.{IsMonotone}

module _ {S : InFlightStore PendingRecord} (p : Setup) (j : String) (mono : IsMonotone p) where
  settle-Quiet :
      (id token : String) (x : Write) (w : World S) (res : Ledger.Result Table)
      → IsHarmless j x
      → attempt x w.ledger ≡ res
      → Quiet p j w (settle p id token res w).1
  unfolding settle
  settle-Quiet id token x w (Ledger.ok u) h e =
      let v : World S = record w { ledger = u } in
      Quiet-trans p j w v _ (write-Quiet p j x u w h e) (delete-Quiet p j id v)
  settle-Quiet id token x w (Ledger.err unknown_incident) h e = delete-Quiet p j id w
  settle-Quiet id token x w (Ledger.err not_ratable) h e = Quiet-refl p j w
  settle-Quiet id token x w (Ledger.err (not_executable state)) h e = Quiet-refl p j w
  settle-Quiet id token x w (Ledger.err (already_labelled name old)) h e = delete-Quiet p j id w

  record_decision-Quiet :
      (q : Pending) (decision reason action date : String) (w : World S)
      → (authorises (some decision) ≡ false) ⊎ ((q.incident_id == j) ≡ false)
      → Quiet p j w (record_decision p q decision reason action date w).1
  unfolding record_decision attempt
  record_decision-Quiet q decision reason action date w h =
      let token = token_for p q decision action date in
      let x =
        write_labels (p.clock w.reads) q.incident_id
          (decision_labels decision reason action token) in
      let v : World S = record w { reads = w.reads + 1 } in
      Quiet-trans p j w v _ (read-Quiet p j w mono)
        (settle-Quiet q.incident_id token x v (attempt x v.ledger) h refl)

  check_at_world :
      (now : Instant) (q : Pending) (st : DecisionState) (w : World S)
      → ((check_at p now q st w).1 ≡ w)
        ⊎ ((check_at p now q st w).1
            ≡ (record_decision p q "expired" "" "" (p.crypto.isoformat now) w).1)
  unfolding check_at
  check_at_world now q st w = ground arith

  check_at_keeps :
      (now : Instant) (q : Pending) (st st' : DecisionState) (w w' : World S)
      → check_at p now q st w ≡ (ok st', w')
      → (st'.pending ≡ st.pending) × (st'.decision ≡ st.decision)
  unfolding check_at
  check_at_keeps now q st st' w w' h = ground arith

  check_at-Quiet :
      (now : Instant) (q : Pending) (st : DecisionState) (w : World S)
      → Quiet p j w (check_at p now q st w).1
  check_at-Quiet now q st w = elim (check_at_world now q st w) [
    | inl e ↦ subst (λ v. Quiet p j w v) (sym e) (Quiet-refl p j w)
    | inr e ↦
        subst (λ v. Quiet p j w v) (sym e)
          (record_decision-Quiet q "expired" "" "" (p.crypto.isoformat now) w (inl refl))
  ]

  record_node_world :
      (st : DecisionState) (r : PendingRecord) (q : Pending) (w : World S)
      → st.pending ≡ some r
      → from_record p.crypto r ≡ some q
      → ((record_node p st w).1 ≡ w)
        ⊎ ((date : String) × ((record_node p st w).1
              ≡ (record_decision p q st.decision (strip st.reason) st.resolved_action date w).1))
  unfolding record_node
  record_node_world st r q w e parsed = elim (Option-cases st.decided_at) [
    | inl n ↦ inl (ground arith)
    | inr (date, h) ↦ inr (date, ground arith)
  ]

  finished_world :
      (id : String) (st : DecisionState) (w : World S)
      → (after_check p id (ok st, w)).1 ≡ (proceed p (record_node p) st w).1
  finished_world id st w = ground arith

  record_node-Quiet :
      (st : DecisionState) (r : PendingRecord) (q : Pending) (w : World S)
      → st.pending ≡ some r
      → from_record p.crypto r ≡ some q
      → (authorises (some st.decision) ≡ false) ⊎ ((q.incident_id == j) ≡ false)
      → Quiet p j w (record_node p st w).1
  record_node-Quiet st r q w e parsed h = elim (record_node_world st r q w e parsed) [
    | inl same ↦ subst (λ v. Quiet p j w v) (sym same) (Quiet-refl p j w)
    | inr (date, same) ↦
        subst (λ v. Quiet p j w v) (sym same)
          (record_decision-Quiet q st.decision (strip st.reason) st.resolved_action date w h)
  ]

  proceed_world :
      (st : DecisionState) (w : World S)
      → ((proceed p (record_node p) st w).1 ≡ w)
        ⊎ ((proceed p (record_node p) st w).1 ≡ (record_node p st w).1)
  proceed_world st w = ground arith

  after_check-Quiet :
      (id : String) (st : DecisionState) (r : PendingRecord) (q : Pending) (w : World S)
      → st.pending ≡ some r
      → from_record p.crypto r ≡ some q
      → (authorises (some st.decision) ≡ false) ⊎ ((q.incident_id == j) ≡ false)
      → Quiet p j w (after_check p id (ok st, w)).1
  after_check-Quiet id st r q w e parsed h =
      subst (λ v. Quiet p j w v) (sym (finished_world id st w))
        (elim (proceed_world st w) [
          | inl same ↦ subst (λ v. Quiet p j w v) (sym same) (Quiet-refl p j w)
          | inr same ↦ subst (λ v. Quiet p j w v) (sym same) (record_node-Quiet st r q w e parsed h)
        ])

  checked-Quiet :
      (id decision reason action : String) (now : Instant) (r : PendingRecord) (q : Pending)
      (w : World S) (c : Result DecisionState × World S)
      → from_record p.crypto r ≡ some q
      → (authorises (some decision) ≡ false) ⊎ ((q.incident_id == j) ≡ false)
      → check_at p now q (record (start_state id decision reason action) { pending = some r }) w ≡ c
      → Quiet p j w c.1
      → Quiet p j w (after_check p id c).1
  checked-Quiet id decision reason action now r q w (err x, v) parsed h e quiet = quiet
  checked-Quiet id decision reason action now r q w (ok st, v) parsed h e quiet =
      let loaded = record (start_state id decision reason action) { pending = some r } in
      let (a, b) = check_at_keeps now q loaded st w v e in
      Quiet-trans p j w v _ quiet (
        after_check-Quiet id st r q v a parsed
          (subst (λ d. (authorises (some d) ≡ false) ⊎ ((q.incident_id == j) ≡ false)) (sym b) h))

  no_record_world :
      (id decision reason action : String) (w : World S)
      → (S.get (p.clock w.reads) id w.store).0 ≡ none
      → (decide p id decision reason action w).1 ≡ after_load p id w
  unfolding decide graph
  no_record_world id decision reason action w e =
      ground (arith, load-missing p (start_state id decision reason action) w e)

  bad_record_world :
      (id decision reason action : String) (w : World S) (r : PendingRecord)
      → (S.get (p.clock w.reads) id w.store).0 ≡ some r
      → from_record p.crypto r ≡ none
      → (decide p id decision reason action w).1 ≡ after_load p id w
  unfolding decide graph check
  bad_record_world id decision reason action w r e bad =
      ground (arith, load_found p (start_state id decision reason action) r w e)

  same_incident :
      (id : String) (w : World S) (r : PendingRecord) (q : Pending)
      → IsKeyedFrom p w
      → (S.get (p.clock w.reads) id w.store).0 ≡ some r
      → from_record p.crypto r ≡ some q
      → q.incident_id ≡ id
  same_incident id w r q keyed e parsed =
      from_record_key p.crypto r q parsed
      ∙ keyed (p.clock w.reads) id r (le_refl (p.clock w.reads))
          (sym (S.get-eq-view (p.clock w.reads) id w.store) ∙ e)

  -- A decision is quiet about an incident if it authorises nothing or is about another one.
  pub decide-Quiet :
      (id decision reason action : String) (w : World S)
      → (authorises (some decision) ≡ false) ⊎ ((id == j) ≡ false)
      → Quiet p j w (decide p id decision reason action w).1
  decide-Quiet id decision reason action w h =
      let loaded = get-Quiet p j id w mono in
      elim (Option-cases (S.get (p.clock w.reads) id w.store).0) [
        | inl e ↦
            subst (λ v. Quiet p j w v) (sym (no_record_world id decision reason action w e)) loaded
        | inr (r, e) ↦ elim (Option-cases (from_record p.crypto r)) [
          | inl bad ↦
              subst (λ v. Quiet p j w v)
                (sym (bad_record_world id decision reason action w r e bad)) loaded
          | inr (q, parsed) ↦ keyed-Quiet p j w _ (λ keyed.
              let now = p.clock (w.reads + 1) in
              let st = record (start_state id decision reason action) { pending = some r } in
              let v : World S = record (after_load p id w) { reads = w.reads + 1 + 1 } in
              let about =
                subst (λ i. (authorises (some decision) ≡ false) ⊎ ((i == j) ≡ false))
                  (sym (same_incident id w r q keyed e parsed)) h in
              let read = Quiet-trans p j w _ v loaded (read-Quiet p j (after_load p id w) mono) in
              subst (λ x. Quiet p j w x.1)
                (sym (decide_found p id decision reason action w r q e parsed))
                (Quiet-trans p j w v _ read (
                  checked-Quiet id decision reason action now r q v (check_at p now q st v) parsed
                    about refl (check_at-Quiet now q st v))))
        ]
      ]
