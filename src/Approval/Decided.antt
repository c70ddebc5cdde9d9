-- ===== src/Approval/Decided.antt =====
-- What a decision that is applied has done (`decide` of brain/src/coroner_brain/approval.py).
use coroner.Base.{
  ℕ, ◌+◌, ◌<◌, ◌≤◌, String, ◌≡◌, ◌≢◌, refl, ◌⊎◌, true, none, some, arith, inl, inr, Option-cases,
  subst, sym, ◌∙◌, eq_iff, eq_disjoint, false, ◌==◌,
}
use coroner.Base.Text.{strip}
use coroner.Contract.{Instant}
use coroner.Ledger
use coroner.Ledger.{Table, Labels}
use coroner.Inflight.{InFlightStore}
use coroner.Approval.Token.{Claims, sign}
use coroner.Approval.Rules.{
  Setup, mints, token_for, decision_labels, missing, resolved_action, is_human, start_state,
}
use coroner.Approval.State.{
  Detail, Pending, PendingRecord, Resolution, DecisionState, Result, ok, err, World, ◌>>=◌,
  from_record,
}
use coroner.Approval.Pipeline.{
  decide, graph, load, check, check_at, record_node, record_decision, settle, proceed, finish,
}

-- A decision that `check` lets through came in time, or the clock's own came after the deadline.
abbrev pub InTime : Instant → Pending → String → Type 0
InTime now q decision =
    ((decision ≡ "expired") × (q.deadline ≤ now))
    ⊎ ((is_human decision ≡ true) × (now < q.deadline))

-- What the token of a decision on a parked verdict binds.
abbrev pub claims_of : Pending → String → String → String → Claims
claims_of q decision action date = record {
  incident_id = q.incident_id;
  context_hash = q.context_hash;
  decision = decision;
  action = action;
  decided_at = date;
}

abbrev pub passed : Setup → Instant → Pending → DecisionState → DecisionState
passed p now q st = record st {
  decided_at = some (p.crypto.isoformat now);
  resolved_action = resolved_action st.decision q st.action;
}

-- the action that a human's decision stands for, case by case
resolved_action-cases :
    (decision action : String) (q : Pending)
    → (decision ≡ "approved" → resolved_action decision q action ≡ q.proposed_action)
      × (decision ≡ "edited" → resolved_action decision q action ≡ strip action)
      × ((decision == "approved") ≡ false
          → (decision == "edited") ≡ false
          → resolved_action decision q action ≡ "")
unfolding resolved_action
resolved_action-cases decision action q = (
  λ e. ground (arith, eq_iff decision "approved"),
  λ e. ground (arith, eq_iff decision "edited", eq_disjoint decision "edited" "approved"),
  λ a b. ground arith,
)

-- what the token of a decision signs, and that no other decision has one
token_for-cases :
    (p : Setup) (q : Pending) (decision action date : String)
    → ((decision ≡ "approved") ⊎ (decision ≡ "edited")
        → token_for p q decision action date
          ≡ sign p.crypto p.secret (claims_of q decision action date))
      × ((decision == "approved") ≡ false
          → (decision == "edited") ≡ false
          → token_for p q decision action date ≡ "")
unfolding token_for mints
token_for-cases p q decision action date =
    (λ e. ground (arith, eq_iff decision "approved", eq_iff decision "edited"), λ a b. ground arith)

module _ {S : InFlightStore PendingRecord} (p : Setup) where
  -- the world after `load` found a record
  abbrev pub after_load : String → World S → World S
  after_load id w = record w { store = (S.get (p.clock w.reads) id w.store).1; reads = w.reads + 1 }

  pub load_found :
      (st : DecisionState) (r : PendingRecord) (w : World S)
      → (S.get (p.clock w.reads) st.incident_id w.store).0 ≡ some r
      → load p st w ≡ (ok (record st { pending = some r }), after_load st.incident_id w)
  unfolding load
  load_found st r w e = ground arith

  pub load-missing :
      (st : DecisionState) (w : World S)
      → (S.get (p.clock w.reads) st.incident_id w.store).0 ≡ none
      → load p st w ≡ (
        ok (record st { error = some (missing (Ledger.get st.incident_id w.ledger)) }),
        after_load st.incident_id w,
      )
  unfolding load
  load-missing st w e = ground arith

  check_at_passes :
      (now : Instant) (q : Pending) (st st' : DecisionState) (w w' : World S)
      → st.error ≡ none
      → check_at p now q st w ≡ (ok st', w')
      → st'.error ≡ none
      → (st' ≡ passed p now q st) × (w' ≡ w) × InTime now q st.decision
  unfolding check_at resolved_action is_human
  check_at_passes now q st st' w w' h e n = ground (
    arith,
    eq_iff st.decision "expired",
    eq_disjoint st.decision "expired" "approved",
    eq_disjoint st.decision "expired" "edited",
  )

  record_decision_writes :
      (q : Pending) (decision reason action decided_at token : String) (w w' : World S)
      → record_decision p q decision reason action decided_at w ≡ (ok token, w')
      → (token ≡ token_for p q decision action decided_at)
        × (Ledger.label
              (p.clock w.reads)
              q.incident_id
              (decision_labels decision reason action token)
              w.ledger
            ≡ Ledger.ok w'.ledger)
        × (w'.store ≡ S.delete q.incident_id w.store)
  unfolding record_decision settle
  record_decision_writes q decision reason action decided_at token w w' h = ground arith

  -- What a decision that went through rests on and has written, with the readings of the clock:
  -- the first for the store, the second for the deadline and the token, the third for the ledger.
  pub record Decided (id decision reason action : String) (w : World S) (res : Resolution)
      (w' : World S) : Type 0 where
    pub parked : PendingRecord
    pub pending : Pending
    pub found : (S.get (p.clock w.reads) id w.store).0 ≡ some parked
    pub parsed : from_record p.crypto parked ≡ some pending
    pub in_time : InTime (p.clock (w.reads + 1)) pending decision
    pub action_text : res.action ≡ resolved_action decision pending action
    pub approved_action : decision ≡ "approved" → res.action ≡ pending.proposed_action
    pub edited_action : decision ≡ "edited" → res.action ≡ strip action
    pub no_action :
        (decision == "approved") ≡ false → (decision == "edited") ≡ false → res.action ≡ ""
    pub decided_at : res.decided_at ≡ p.clock (w.reads + 1)
    pub echoed : (res.incident_id ≡ id) × (res.decision ≡ decision)
    pub token :
        res.approval_token
        ≡ token_for p pending decision res.action (p.crypto.isoformat (p.clock (w.reads + 1)))
    pub token_signed :
        (decision ≡ "approved") ⊎ (decision ≡ "edited")
        → res.approval_token
          ≡ sign p.crypto p.secret
              (claims_of pending decision res.action (p.crypto.isoformat (p.clock (w.reads + 1))))
    pub token_empty :
        (decision == "approved") ≡ false → (decision == "edited") ≡ false → res.approval_token ≡ ""
    pub labelled :
        Ledger.label
          (p.clock (w.reads + 1 + 1))
          pending.incident_id
          (decision_labels decision (strip reason) res.action res.approval_token)
          w.ledger
        ≡ Ledger.ok w'.ledger
    pub unparked : w'.store ≡ S.delete pending.incident_id (S.get (p.clock w.reads) id w.store).1

  pair_eq :
      {a b : DecisionState} {v u : World S}
      → a ≡ b
      → v ≡ u
      → ◌≡◌ {A = Result DecisionState × World S} (ok a, v) (ok b, u)
  pair_eq h k = λ i. (ok (h i), k i)

  -- the rest of a call, from what `check` returned on
  abbrev pub after_check : String → Result DecisionState × World S → Result Resolution × World S
  after_check id (err x, w) = (err x, w)
  after_check id (ok st, w) = (proceed p (record_node p) st >>= λ st'. finish p id st' st'.error) w

  pub decide_found :
      (id decision reason action : String) (w : World S) (r : PendingRecord) (q : Pending)
      → (S.get (p.clock w.reads) id w.store).0 ≡ some r
      → from_record p.crypto r ≡ some q
      → decide p id decision reason action w
        ≡ after_check id (
            check_at p
              (p.clock (w.reads + 1))
              q
              (record (start_state id decision reason action) { pending = some r })
              (record (after_load id w) { reads = w.reads + 1 + 1 }))
  unfolding decide graph load check
  decide_found id decision reason action w r q e parsed = ground arith

  module _ (id decision reason action : String) (w w' : World S) (res : Resolution)
      (r : PendingRecord) (q : Pending) where
    now : Instant
    now = p.clock (w.reads + 1)

    loaded : DecisionState
    loaded = record (start_state id decision reason action) { pending = some r }

    at_check : World S
    at_check = record (after_load id w) { reads = w.reads + 1 + 1 }

    after_passed :
        from_record p.crypto r ≡ some q
        → after_check id (ok (passed p now q loaded), at_check) ≡ (ok res, w')
        → (record_decision p q decision (strip reason) res.action (p.crypto.isoformat now) at_check
            ≡ (ok res.approval_token, w'))
          × (res.action ≡ resolved_action decision q action)
          × (res.decided_at ≡ now)
          × (res.incident_id ≡ id)
          × (res.decision ≡ decision)
    unfolding record_node now loaded
    after_passed parsed h = ground (arith, p.crypto.fromisoformat-isoformat now)

    after_refused :
        (st : DecisionState) (e : ℕ × Detail) (v : World S)
        → st.error ≡ some e
        → after_check id (ok st, v) ≢ (ok res, w')
    after_refused st e v h k = ground arith

    after_ok :
        (S.get (p.clock w.reads) id w.store).0 ≡ some r
        → from_record p.crypto r ≡ some q
        → (st : DecisionState) (v : World S) → check_at p now q loaded at_check ≡ (ok st, v)
        → st.error ≡ none
        → after_check id (ok st, v) ≡ (ok res, w')
        → Decided id decision reason action w res w'
    unfolding now at_check loaded
    after_ok e parsed st v c n h =
        let (same, here, timely) = check_at_passes now q loaded st at_check v refl c n in
        let k =
          after_passed parsed
            (subst (λ x. after_check id x ≡ (ok res, w')) (pair_eq same here) h) in
        let acts = resolved_action-cases decision action q in
        let tokens = token_for-cases p q decision res.action (p.crypto.isoformat now) in
        let d =
          record_decision_writes q decision (strip reason) res.action (p.crypto.isoformat now)
            res.approval_token at_check w' k.0 in
        record {
          parked = r;
          pending = q;
          found = e;
          parsed = parsed;
          in_time = timely;
          action_text = k.1;
          approved_action = λ d. k.1 ∙ acts.0 d;
          edited_action = λ d. k.1 ∙ acts.1 d;
          no_action = λ a b. k.1 ∙ acts.2 a b;
          decided_at = k.2;
          echoed = (k.3, k.4);
          token = d.0;
          token_signed = λ e. d.0 ∙ tokens.0 e;
          token_empty = λ a b. d.0 ∙ tokens.1 a b;
          labelled = d.1;
          unparked = d.2;
        }

    after_result :
        (S.get (p.clock w.reads) id w.store).0 ≡ some r
        → from_record p.crypto r ≡ some q
        → (c : Result DecisionState × World S) → check_at p now q loaded at_check ≡ c
        → after_check id c ≡ (ok res, w')
        → Decided id decision reason action w res w'
    after_result e parsed (err x, v) same h = absurd (ground arith)
    after_result e parsed (ok st, v) same h = elim (Option-cases st.error) [
      | inl n ↦ after_ok e parsed st v same n h
      | inr (x, bad) ↦ absurd (after_refused st x v bad h)
    ]

  no_record_fails :
      (id decision reason action : String) (w w' : World S) (res : Resolution)
      → (S.get (p.clock w.reads) id w.store).0 ≡ none
      → decide p id decision reason action w ≢ (ok res, w')
  unfolding decide graph
  no_record_fails id decision reason action w w' res e h =
      ground (arith, load-missing (start_state id decision reason action) w e)

  bad_record_fails :
      (id decision reason action : String) (w w' : World S) (res : Resolution) (r : PendingRecord)
      → (S.get (p.clock w.reads) id w.store).0 ≡ some r
      → from_record p.crypto r ≡ none
      → decide p id decision reason action w ≢ (ok res, w')
  unfolding decide graph check
  bad_record_fails id decision reason action w w' res r e bad h =
      ground (arith, load_found (start_state id decision reason action) r w e)

  -- A decision that goes through rests on a parked verdict whose deadline had not passed, or is the
  -- clock's own after the deadline; its action is the proposal for an approval, the trimmed text
  -- of the human for an edit, and empty otherwise; its token signs exactly the parked incident,
  -- its evidence hash, the decision, that action and the time of the check, for an approval or an
  -- edit, and is empty otherwise; the ledger row has been labelled with these; and the verdict is
  -- deleted from the store.
  pub decide-Decided :
      (id decision reason action : String) (w w' : World S) (res : Resolution)
      → decide p id decision reason action w ≡ (ok res, w')
      → Decided id decision reason action w res w'
  unfolding now loaded at_check
  decide-Decided id decision reason action w w' res h =
      elim (Option-cases (S.get (p.clock w.reads) id w.store).0) [
        | inl e ↦ absurd (no_record_fails id decision reason action w w' res e h)
        | inr (r, e) ↦ elim (Option-cases (from_record p.crypto r)) [
          | inl bad ↦ absurd (bad_record_fails id decision reason action w w' res r e bad h)
          | inr (q, parsed) ↦
              after_result id decision reason action w w' res r q e parsed _ refl
                (sym (decide_found id decision reason action w r q e parsed) ∙ h)
        ]
      ]
